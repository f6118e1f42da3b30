-- ===== src/Iptables/Hooks.antt =====
-- The commands of `Apply` and `Cleanup`: of what kind they are, and that `Cleanup` deletes each hook
-- that `Apply` puts in.
use sshcustom_magisk.Base.{
  ◌≡◌, refl, sym, subst, Bool, true, false, ◌&&◌, ◌||◌, List, [], ◌∷◌, ◌++◌, map, Bool-cases, inl,
  inr, All,
}
use sshcustom_magisk.Text.{Text, codes, eq_text, is_empty, trim_space}
use sshcustom_magisk.Text.Equality.{eq_text_iff, eq_text_refl}
use sshcustom_magisk.Net.{has_byte}
use sshcustom_magisk.Profiles.{one_of}
use sshcustom_magisk.Iptables.{
  Config, Rule, append, insert, all_legacy_chains, out_chain, pre_chain, output, prerouting, detach,
  detach_ifaces, jump, tcp_jump, on_iface, chain_rules, hook_ifaces, hotspot_commands,
  setup_commands, prefix_of, ifaces_of,
}
use sshcustom_magisk.Iptables.Rules.{jumps, is_ours}
use sshcustom_magisk.Iptables.Dressed.{IsSetup}
use sshcustom_magisk.Iptables.Teardown.{IsDetach}
use sshcustom_magisk.Iptables.Plain.{
  IsMarked, IsPlain, All-append, has_byte-append, plain_one_of, IsPlain-ours, chain_rules-IsPlain,
}

pub all_legacy_chains-IsMarked : (prefix : Text) → All IsMarked (all_legacy_chains prefix)
unfolding has_byte
all_legacy_chains-IsMarked prefix =
    let marked : (name : Text) → has_byte b'_' name ≡ true → has_byte b'_' (prefix ++ name) ≡ true =
      λ name h. has_byte-append b'_' prefix name h in
    (
      marked (codes "_OUTPUT") refl,
      (
        marked (codes "_PREROUTING") refl,
        (
          marked (codes "_PROXY") refl,
          (
            marked (codes "_DNS") refl,
            (marked (codes "_HOTSPOT") refl, (marked (codes "_HOTSPOT_DNS") refl, tt)),
          ),
        ),
      ),
    )

jumps_ours :
    (names : List Text) (chain : Text) (r : Rule)
    → one_of chain names ≡ true
    → jumps chain r ≡ true
    → is_ours names r ≡ true
unfolding one_of is_ours
jumps_ours [] chain r own h = own
jumps_ours (name ∷ names) chain r own h = elim (Bool-cases (eq_text name chain)) [
  | inl e ↦
      let here : jumps name r ≡ true =
        subst (λ x. jumps x r ≡ true) (sym ((eq_text_iff name chain).0 e)) h in
      rw here refl
  | inr e ↦ elim (Bool-cases (jumps name r)) [
    | inl here ↦ rw here refl
    | inr there ↦ rw there (jumps_ours names chain r (rw e at own) h)
  ]
]

jump-jumps : (chain : Text) → jumps chain (jump chain) ≡ true
unfolding jumps
jump-jumps chain = rw (eq_text_refl chain) refl

tcp_jump-jumps : (chain : Text) → jumps chain (tcp_jump chain) ≡ true
unfolding jumps
tcp_jump-jumps chain = rw (eq_text_refl chain) refl

or_true : (b c : Bool) → c ≡ true → b || c ≡ true
or_true true c h = refl
or_true false c h = h

on_iface-jumps :
    (chain iface x : Text) (r : Rule)
    → jumps chain (x ∷ r) ≡ true
    → jumps chain (on_iface iface (x ∷ r)) ≡ true
unfolding jumps
on_iface-jumps chain iface x r h =
    or_true (eq_text (codes "-i") (codes "-j") && eq_text iface chain) _
      (or_true (eq_text iface (codes "-j") && eq_text x chain) _ h)

All-one_of :
    (names all : List Text)
    → ((c : Text) → one_of c names ≡ true → one_of c all ≡ true)
    → All (λ c. one_of c all ≡ true) names
unfolding one_of
All-one_of [] all k = tt
All-one_of (name ∷ names) all k = (
  k name (rw (eq_text_refl name) refl),
  All-one_of names all λ c h. k c (or_true (eq_text name c) (one_of c names) h),
)

-- Both lists of chains come from the same prefix.
module _ (prefix : Text) where
  abbrev chains : List Text
  chains = all_legacy_chains prefix

  builtin : (word : Text) → has_byte b'_' word ≡ false → one_of word chains ≡ false
  builtin word plain = plain_one_of word chains plain (all_legacy_chains-IsMarked prefix)

  abbrev IsOwn : Text → Type 0
  IsOwn chain = one_of chain chains ≡ true

  detach_ifaces-IsDetach :
      (chain : Text) (ifaces : List Text)
      → IsOwn chain
      → All (IsDetach chains) (detach_ifaces chain ifaces)
  unfolding detach_ifaces has_byte
  detach_ifaces-IsDetach chain [] own = tt
  detach_ifaces-IsDetach chain (iface ∷ ifaces) own =
      elim (Bool-cases (is_empty (trim_space iface))) [
        | inl blank ↦ rw blank (detach_ifaces-IsDetach chain ifaces own)
        | inr named ↦ rw named (
          (
            builtin prerouting refl,
            jumps_ours chains chain _ own (on_iface-jumps chain iface _ _ (tcp_jump-jumps chain)),
          ),
          (
            (
              builtin prerouting refl,
              jumps_ours chains chain _ own (on_iface-jumps chain iface _ _ (jump-jumps chain)),
            ),
            detach_ifaces-IsDetach chain ifaces own,
          ),
        )
      ]

  pub detach-IsDetach :
      (ifaces names : List Text) → All IsOwn names → All (IsDetach chains) (detach ifaces names)
  unfolding detach has_byte
  detach-IsDetach ifaces [] own = tt
  detach-IsDetach ifaces (name ∷ names) own =
      let tcp = jumps_ours chains name _ own.0 (tcp_jump-jumps name) in
      let any = jumps_ours chains name _ own.0 (jump-jumps name) in
      let rest =
        All-append (IsDetach chains) (detach_ifaces name ifaces) _
          (detach_ifaces-IsDetach name ifaces own.0) (detach-IsDetach ifaces names own.1) in
      (
        (builtin output refl, tcp),
        (
          (builtin output refl, any),
          ((builtin prerouting refl, tcp), ((builtin prerouting refl, any), rest)),
        ),
      )

  pub All-IsOwn : All IsOwn chains
  All-IsOwn = All-one_of chains chains λ c h. h

  appends-IsSetup :
      (chain : Text) (rs : List Rule)
      → IsOwn chain
      → All IsPlain rs
      → All (IsSetup chains) (map (append chain) rs)
  appends-IsSetup chain [] own h = tt
  appends-IsSetup chain (r ∷ rs) own h = (
    (own, IsPlain-ours r chains h.0 (all_legacy_chains-IsMarked prefix)),
    appends-IsSetup chain rs own h.1,
  )

  hook_ifaces-IsSetup :
      (chain : Text) (ifaces : List Text)
      → IsOwn chain
      → All (IsSetup chains) (hook_ifaces chain ifaces)
  unfolding hook_ifaces has_byte
  hook_ifaces-IsSetup chain [] own = tt
  hook_ifaces-IsSetup chain (iface ∷ ifaces) own = elim (Bool-cases (is_empty (trim_space iface))) [
    | inl blank ↦ rw blank (hook_ifaces-IsSetup chain ifaces own)
    | inr named ↦ rw named (
      (
        builtin prerouting refl,
        jumps_ours chains chain _ own (on_iface-jumps chain iface _ _ (tcp_jump-jumps chain)),
      ),
      hook_ifaces-IsSetup chain ifaces own,
    )
  ]

  pub out-IsOwn : IsOwn (out_chain prefix)
  out-IsOwn = All-IsOwn.0

  pub pre-IsOwn : IsOwn (pre_chain prefix)
  pre-IsOwn = All-IsOwn.1.0

pub setup_commands-IsSetup :
    (cfg : Config) (ips : List Text)
    → All (IsSetup (all_legacy_chains (prefix_of cfg))) (setup_commands cfg ips)
unfolding setup_commands hotspot_commands has_byte
setup_commands-IsSetup cfg ips =
    let prefix = prefix_of cfg in
    let setup = IsSetup (all_legacy_chains prefix) in
    let out = out_chain prefix in
    let pre = pre_chain prefix in
    let hotspot : All setup (hotspot_commands cfg) = elim (Bool-cases cfg.hotspot) [
      | inl on ↦ rw on (
          All-append setup (hook_ifaces pre (ifaces_of cfg)) _
            (hook_ifaces-IsSetup prefix pre (ifaces_of cfg) (pre-IsOwn prefix)) (tt, (tt, tt)))
      | inr off ↦ rw off tt
    ] in
    let hooks : All setup (insert output (tcp_jump out) ∷ hotspot_commands cfg) = (
      (
        builtin prefix output refl,
        jumps_ours (all_legacy_chains prefix) out _ (out-IsOwn prefix) (tcp_jump-jumps out),
      ),
      hotspot,
    ) in
    let rules =
      All-append setup (map (append out) (chain_rules cfg ips true)) _
        (appends-IsSetup prefix out (chain_rules cfg ips true) (out-IsOwn prefix)
          (chain_rules-IsPlain cfg ips true))
        (All-append setup (map (append pre) (chain_rules cfg ips false)) _
          (appends-IsSetup prefix pre (chain_rules cfg ips false) (pre-IsOwn prefix)
            (chain_rules-IsPlain cfg ips false))
          hooks) in
    (out-IsOwn prefix, (out-IsOwn prefix, (pre-IsOwn prefix, (pre-IsOwn prefix, rules))))
