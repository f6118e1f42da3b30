-- ===== src/Iptables/Chains.antt =====
-- The rules of a chain by what they exempt, apart from `Apply`.
use sshcustom_magisk.Base.{
  ◌≡◌, refl, sym, ap, ◌∙◌, ◌↔◌, ◌⊎◌, Bool, true, false, List, [], ◌∷◌, ◌++◌, append_assoc, map,
  if◌then◌else◌, Bool-cases, inl, inr,
}
use sshcustom_magisk.Base.Int.{ℤ, is_nonpos}
use sshcustom_magisk.Text.{Text, codes, is_empty, trim_space}
use sshcustom_magisk.Net.{int_string}
use sshcustom_magisk.Iptables.{
  Config, Rule, to_return, bypass_rules, port_rules, redirect_rule, owner_rules, chain_rules,
  port_of, private_cidrs,
}

abbrev pub In : {A : Type 0} → A → List A → Type 0
In a [] = ⊥
In a (x ∷ l) = (a ≡ x) ⊎ In a l

-- The rule that lets root's own traffic pass.
abbrev pub owner_rule : Rule
owner_rule =
    codes "-m" ∷ codes "owner" ∷ codes "--uid-owner" ∷ codes "0" ∷ codes "-j" ∷ codes "RETURN" ∷ []

abbrev pub passes : Text → Rule
passes dest = codes "-d" ∷ dest ∷ codes "-j" ∷ codes "RETURN" ∷ []

abbrev pub passes_port : ℤ → Rule
unfolding int_string
passes_port p =
    codes "-p" ∷ codes "tcp" ∷ codes "--dport" ∷ int_string p ∷ codes "-j" ∷ codes "RETURN" ∷ []

abbrev pub redirects : ℤ → Rule
unfolding int_string
redirects p =
    codes "-p"
    ∷ codes "tcp"
    ∷ codes "-j"
    ∷ codes "REDIRECT"
    ∷ codes "--to-ports"
    ∷ (if is_nonpos p then codes "10810" else int_string p)
    ∷ []

abbrev pub unrouted : List Text
unrouted =
    codes "0.0.0.0/8"
    ∷ codes "10.0.0.0/8"
    ∷ codes "100.64.0.0/10"
    ∷ codes "127.0.0.0/8"
    ∷ codes "169.254.0.0/16"
    ∷ codes "172.16.0.0/12"
    ∷ codes "192.168.0.0/16"
    ∷ codes "224.0.0.0/4"
    ∷ codes "240.0.0.0/4"
    ∷ []

abbrev pub IsBypass : List Text → Rule → Type 0
unfolding trim_space
IsBypass ips r =
    (ip : Text) × (In ip ips × ((is_empty (trim_space ip) ≡ false) × (r ≡ passes (trim_space ip))))

abbrev pub IsOpenPort : List ℤ → Rule → Type 0
IsOpenPort ports r = (p : ℤ) × (In p ports × ((is_nonpos p ≡ false) × (r ≡ passes_port p)))

abbrev pub IsUnrouted : List Text → Rule → Type 0
IsUnrouted nets r = (net : Text) × (In net nets × (r ≡ passes net))

-- The traffic that is not redirected: root's in the chain for OUTPUT, and in both that to a private
-- network, to a bypassed address and to a port of the daemon.
abbrev pub IsExempt : Config → List Text → Bool → Rule → Type 0
IsExempt cfg ips is_output r =
    ((is_output ≡ true) × (r ≡ owner_rule))
    ⊎ (IsUnrouted unrouted r
        ⊎ (IsBypass ips r ⊎ IsOpenPort (cfg.api_port ∷ cfg.socks_port ∷ cfg.tcp_port ∷ []) r))

-- A chain: the exempt traffic returns, then all other TCP traffic is redirected.
pub record IsChain (cfg : Config) (ips : List Text) (is_output : Bool) (rules : List Rule)
    : Type 0 where
  pub returning : List Rule
  pub redirected_last : rules ≡ returning ++ (redirects cfg.tcp_port ∷ [])
  pub exempt : (r : Rule) → In r returning ↔ IsExempt cfg ips is_output r

iff_trans : {A B C : Type 0} → ◌↔◌ {0, 0} A B → ◌↔◌ {0, 0} B C → ◌↔◌ {0, 0} A C
iff_trans h k = (λ a. k.0 (h.0 a), λ c. h.1 (k.1 c))

either_iff : {A B C D : Type 0} → ◌↔◌ {0, 0} A C → ◌↔◌ {0, 0} B D → ◌↔◌ {0, 0} (A ⊎ B) (C ⊎ D)
either_iff h k = (
  λ x. elim x [ inl a ↦ inl (h.0 a) | inr b ↦ inr (k.0 b) ],
  λ x. elim x [ inl c ↦ inl (h.1 c) | inr d ↦ inr (k.1 d) ],
)

In-append : {A : Type 0} (a : A) (xs ys : List A) → In a (xs ++ ys) ↔ (In a xs ⊎ In a ys)
In-append a [] ys = (λ h. inr h, λ x. elim x [ inl e ↦ absurd e | inr h ↦ h ])
In-append a (x ∷ xs) ys =
    let ih = In-append a xs ys in
    (
      λ x. elim x [
        | inl e ↦ inl (inl e)
        | inr h ↦ elim (ih.0 h) [ inl l ↦ inl (inr l) | inr r ↦ inr r ]
      ],
      λ x. elim x [
        | inl l ↦ elim l [ inl e ↦ inl e | inr m ↦ inr (ih.1 (inl m)) ]
        | inr r ↦ inr (ih.1 (inr r))
      ],
    )

owner_rules-In : (b : Bool) (r : Rule) → In r (owner_rules b) ↔ ((b ≡ true) × (r ≡ owner_rule))
owner_rules-In true r = (λ x. elim x [ inl e ↦ (refl, e) | inr n ↦ absurd n ], λ h. inl h.1)
owner_rules-In false r = (λ n. absurd n, λ h. absurd (cc h.0))

private_cidrs-In : (nets : List Text) (r : Rule) → In r (map to_return nets) ↔ IsUnrouted nets r
private_cidrs-In [] r = (λ n. absurd n, λ h. absurd h.1.0)
private_cidrs-In (net ∷ nets) r =
    let ih = private_cidrs-In nets r in
    (
      λ x. elim x [
        | inl e ↦ (net, (inl refl, e))
        | inr h ↦ let w = ih.0 h in (w.0, (inr w.1.0, w.1.1))
      ],
      λ w. elim w.1.0 [ inl e ↦ inl (w.1.1 ∙ ap passes e) | inr h ↦ inr (ih.1 (w.0, (h, w.1.1))) ],
    )

bypass_rules-In : (ips : List Text) (r : Rule) → In r (bypass_rules ips) ↔ IsBypass ips r
unfolding bypass_rules
bypass_rules-In [] r = (λ n. absurd n, λ h. absurd h.1.0)
bypass_rules-In (ip ∷ ips) r =
    let ih = bypass_rules-In ips r in
    let later : IsBypass ips r → IsBypass (ip ∷ ips) r = λ w. (w.0, (inr w.1.0, w.1.1)) in
    elim (Bool-cases (is_empty (trim_space ip))) [
      | inl blank ↦ rw blank (
        λ h. later (ih.0 h),
        λ w. elim w.1.0 [
          | inl e ↦ absurd (cc (blank, w.1.1.0, e))
          | inr h ↦ ih.1 (w.0, (h, w.1.1))
        ],
      )
      | inr told ↦ rw told (
        λ x. elim x [ inl e ↦ (ip, (inl refl, (told, e))) | inr h ↦ later (ih.0 h) ],
        λ w. elim w.1.0 [
          | inl e ↦ inl (w.1.1.1 ∙ ap (λ i. passes (trim_space i)) e)
          | inr h ↦ inr (ih.1 (w.0, (h, w.1.1)))
        ],
      )
    ]

port_rules-In : (ports : List ℤ) (r : Rule) → In r (port_rules ports) ↔ IsOpenPort ports r
unfolding port_rules
port_rules-In [] r = (λ n. absurd n, λ h. absurd h.1.0)
port_rules-In (p ∷ ports) r =
    let ih = port_rules-In ports r in
    let later : IsOpenPort ports r → IsOpenPort (p ∷ ports) r = λ w. (w.0, (inr w.1.0, w.1.1)) in
    elim (Bool-cases (is_nonpos p)) [
      | inl off ↦ rw off (
        λ h. later (ih.0 h),
        λ w. elim w.1.0 [ inl e ↦ absurd (cc (off, w.1.1.0, e)) | inr h ↦ ih.1 (w.0, (h, w.1.1)) ],
      )
      | inr on ↦ rw on (
        λ x. elim x [ inl e ↦ (p, (inl refl, (on, e))) | inr h ↦ later (ih.0 h) ],
        λ w. elim w.1.0 [
          | inl e ↦ inl (w.1.1.1 ∙ ap passes_port e)
          | inr h ↦ inr (ih.1 (w.0, (h, w.1.1)))
        ],
      )
    ]

redirects_port : (cfg : Config) → redirect_rule (int_string (port_of cfg)) ≡ redirects cfg.tcp_port
unfolding port_of int_string
redirects_port cfg = elim (Bool-cases (is_nonpos cfg.tcp_port)) [
  | inl e ↦ rw e refl
  | inr e ↦ rw e refl
]

pub chain_rules-IsChain :
    (cfg : Config) (ips : List Text) (is_output : Bool)
    → IsChain cfg ips is_output (chain_rules cfg ips is_output)
unfolding chain_rules
chain_rules-IsChain cfg ips is_output =
    let own = owner_rules is_output in
    let nets = map to_return private_cidrs in
    let known = bypass_rules ips in
    let ports = port_rules (cfg.api_port ∷ cfg.socks_port ∷ cfg.tcp_port ∷ []) in
    let last : List Rule = redirect_rule (int_string (port_of cfg)) ∷ [] in
    record {
      returning = own ++ (nets ++ (known ++ ports));
      redirected_last =
          ap (λ l. own ++ (nets ++ l)) (sym (append_assoc known ports last))
          ∙ (ap (λ l. own ++ l) (sym (append_assoc nets (known ++ ports) last))
              ∙ (sym (append_assoc own (nets ++ (known ++ ports)) last)
                  ∙ ap (λ r. (own ++ (nets ++ (known ++ ports))) ++ (r ∷ []))
                      (redirects_port cfg)));
      exempt = λ r. iff_trans (In-append r own _) (
          either_iff (owner_rules-In is_output r) (
            iff_trans (In-append r nets _) (
              either_iff (private_cidrs-In private_cidrs r) (
                iff_trans (In-append r known ports) (
                  either_iff (bypass_rules-In ips r)
                    (port_rules-In (cfg.api_port ∷ cfg.socks_port ∷ cfg.tcp_port ∷ []) r))))));
    }
