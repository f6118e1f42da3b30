-- ===== src/Iptables/Plain.antt =====
-- The rules in the daemon's chains jump to none of them: a name of a chain has an underscore, which
-- no target has.
use sshcustom_magisk.Base.{
  ℕ, ◌≡◌, refl, Bool, true, false, List, [], ◌∷◌, ◌++◌, map, Bool-cases, inl, inr, All, ◌==◌,
}
use sshcustom_magisk.Base.Int.{ℤ, is_nonpos}
use sshcustom_magisk.Text.{Text, codes, eq_text, is_empty, trim_space}
use sshcustom_magisk.Text.Equality.{eq_text_ne}
use sshcustom_magisk.Net.{has_byte, int_string}
use sshcustom_magisk.Profiles.{one_of}
use sshcustom_magisk.Iptables.{
  Config, Rule, to_return, bypass_rules, port_rules, redirect_rule, owner_rules, chain_rules,
  port_of, private_cidrs,
}
use sshcustom_magisk.Iptables.Rules.{jumps, is_ours}

-- A name with an underscore, which no word of a rule and no chain of the kernel has.
pub has_byte-append : (b : ℕ) (s t : Text) → has_byte b t ≡ true → has_byte b (s ++ t) ≡ true
unfolding has_byte
has_byte-append b [] t h = h
has_byte-append b (c ∷ s) t h = elim (Bool-cases (c == b)) [
  | inl e ↦ rw e refl
  | inr e ↦ rw e (has_byte-append b s t h)
]

abbrev pub IsMarked : Text → Type 0
IsMarked name = has_byte b'_' name ≡ true

pub marked_ne :
    (word name : Text) → has_byte b'_' word ≡ false → IsMarked name → eq_text word name ≡ false
marked_ne word name plain h =
    eq_text_ne word name
      λ e. let same : has_byte b'_' name ≡ false = rw e at plain in absurd (cc (h, same))

pub ne_marked :
    (word name : Text) → has_byte b'_' word ≡ false → IsMarked name → eq_text name word ≡ false
ne_marked word name plain h =
    eq_text_ne name word
      λ e. let same : has_byte b'_' word ≡ true = rw e at h in absurd (cc (same, plain))

pub plain_one_of :
    (word : Text) (names : List Text)
    → has_byte b'_' word ≡ false
    → All IsMarked names
    → one_of word names ≡ false
unfolding one_of
plain_one_of word [] plain h = refl
plain_one_of word (name ∷ names) plain h =
    rw (ne_marked word name plain h.0) (plain_one_of word names plain h.1)

-- A rule that jumps to no marked chain.
abbrev pub IsPlain : Rule → Type 0
IsPlain r = (name : Text) → IsMarked name → jumps name r ≡ false

pub IsPlain-ours :
    (r : Rule) (names : List Text) → IsPlain r → All IsMarked names → is_ours names r ≡ false
unfolding is_ours
IsPlain-ours r [] plain h = refl
IsPlain-ours r (name ∷ names) plain h = rw (plain name h.0) (IsPlain-ours r names plain h.1)

to_return-IsPlain : (dest : Text) → IsPlain (to_return dest)
unfolding jumps has_byte
to_return-IsPlain dest name h = elim (Bool-cases (eq_text dest (codes "-j"))) [
  | inl e ↦ rw (e, marked_ne (codes "-j") name refl h, marked_ne (codes "RETURN") name refl h) refl
  | inr e ↦ rw (e, marked_ne (codes "RETURN") name refl h) refl
]

redirect_rule-IsPlain : (port : Text) → IsPlain (redirect_rule port)
unfolding jumps has_byte
redirect_rule-IsPlain port name h = rw (marked_ne (codes "REDIRECT") name refl h) refl

owner_rules-IsPlain : (b : Bool) → All IsPlain (owner_rules b)
unfolding jumps has_byte
owner_rules-IsPlain true = (λ name h. rw (marked_ne (codes "RETURN") name refl h) refl, tt)
owner_rules-IsPlain false = tt

bypass_rules-IsPlain : (ips : List Text) → All IsPlain (bypass_rules ips)
unfolding bypass_rules
bypass_rules-IsPlain [] = tt
bypass_rules-IsPlain (ip ∷ ips) = elim (Bool-cases (is_empty (trim_space ip))) [
  | inl e ↦ rw e (bypass_rules-IsPlain ips)
  | inr e ↦ rw e (to_return-IsPlain (trim_space ip), bypass_rules-IsPlain ips)
]

port_rules-IsPlain : (ports : List ℤ) → All IsPlain (port_rules ports)
unfolding port_rules jumps has_byte
port_rules-IsPlain [] = tt
port_rules-IsPlain (p ∷ ports) = elim (Bool-cases (is_nonpos p)) [
  | inl e ↦ rw e (port_rules-IsPlain ports)
  | inr e ↦ rw e (here (int_string p), port_rules-IsPlain ports)
]
  where
    here :
        (port : Text)
        → IsPlain
            (codes "-p" ∷ codes "tcp" ∷ codes "--dport" ∷ port ∷ codes "-j" ∷ codes "RETURN" ∷ [])
    here port name h = elim (Bool-cases (eq_text port (codes "-j"))) [
      | inl e ↦
          rw (e, marked_ne (codes "-j") name refl h, marked_ne (codes "RETURN") name refl h) refl
      | inr e ↦ rw (e, marked_ne (codes "RETURN") name refl h) refl
    ]

private-IsPlain : (dests : List Text) → All IsPlain (map to_return dests)
private-IsPlain [] = tt
private-IsPlain (dest ∷ dests) = (to_return-IsPlain dest, private-IsPlain dests)

pub All-append {ℓ κ} :
    {A : Type ℓ} (P : A → Type κ) (xs ys : List A) → All P xs → All P ys → All P (xs ++ ys)
All-append P [] ys h k = k
All-append P (x ∷ xs) ys h k = (h.0, All-append P xs ys h.1 k)

pub chain_rules-IsPlain :
    (cfg : Config) (ips : List Text) (b : Bool) → All IsPlain (chain_rules cfg ips b)
unfolding chain_rules
chain_rules-IsPlain cfg ips b =
    let ports = cfg.api_port ∷ cfg.socks_port ∷ cfg.tcp_port ∷ [] in
    All-append IsPlain (owner_rules b) _ (owner_rules-IsPlain b) (
      All-append IsPlain (map to_return private_cidrs) _ (private-IsPlain private_cidrs) (
        All-append IsPlain (bypass_rules ips) _ (bypass_rules-IsPlain ips) (
          All-append IsPlain (port_rules ports) _ (port_rules-IsPlain ports)
            (redirect_rule-IsPlain (int_string (port_of cfg)), tt))))
