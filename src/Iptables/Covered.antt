-- ===== src/Iptables/Covered.antt =====
-- `Cleanup` deletes each hook as often as `Apply` puts it in.
use sshcustom_magisk.Base.{
  ℕ, ◌+◌, ◌≤◌, ◌≡◌, refl, ap, ◌∙◌, Bool, true, false, List, [], ◌∷◌, ◌++◌, append-nil, drop, take,
  zero, suc, map, Bool-cases, inl, inr, arith, if◌then◌else◌,
}
use sshcustom_magisk.Text.{Text, eq_text, is_empty, trim_space}
use sshcustom_magisk.Iptables.{
  Config, Rule, Command, append, insert, delete_rule, all_legacy_chains, out_chain, pre_chain,
  output, prerouting, detach, detach_ifaces, jump, tcp_jump, on_iface, chain_rules, hook_ifaces,
  hotspot_commands, setup_commands, prefix_of, ifaces_of, ip_forward, forward_accept, flush,
  new_chain, delete_chain, forward_delete,
}
use sshcustom_magisk.Iptables.Rules.{eq_rule, count, count-append}
use sshcustom_magisk.Iptables.Dressed.{put, placed}
use sshcustom_magisk.Iptables.Teardown.{aimed}

placed-append :
    (c : Text) (xs ys : List Command) (ds : List Rule)
    → placed c (xs ++ ys) ds ≡ placed c ys (placed c xs ds)
unfolding placed
placed-append c [] ys ds = refl
placed-append c (x ∷ xs) ys ds = placed-append c xs ys (put c x ds)

placed-appends :
    (c chain : Text) (rs : List Rule) (ds : List Rule) → placed c (map (append chain) rs) ds ≡ ds
unfolding placed
placed-appends c chain [] ds = refl
placed-appends c chain (r ∷ rs) ds = placed-appends c chain rs ds

aimed-append : (c : Text) (xs ys : List Command) → aimed c (xs ++ ys) ≡ aimed c xs ++ aimed c ys
unfolding aimed
aimed-append c [] ys = refl
aimed-append c (delete_rule chain r ∷ xs) ys = elim (Bool-cases (eq_text chain c)) [
  | inl e ↦ rw e (ap (λ l. r ∷ l) (aimed-append c xs ys))
  | inr e ↦ rw e (aimed-append c xs ys)
]
aimed-append c (new_chain _ ∷ xs) ys = aimed-append c xs ys
aimed-append c (flush _ ∷ xs) ys = aimed-append c xs ys
aimed-append c (delete_chain _ ∷ xs) ys = aimed-append c xs ys
aimed-append c (append _ _ ∷ xs) ys = aimed-append c xs ys
aimed-append c (insert _ _ ∷ xs) ys = aimed-append c xs ys
aimed-append c (ip_forward ∷ xs) ys = aimed-append c xs ys
aimed-append c (forward_accept ∷ xs) ys = aimed-append c xs ys
aimed-append c (forward_delete ∷ xs) ys = aimed-append c xs ys

one : Rule → Rule → ℕ
unfolding eq_rule
one r x = if eq_rule r x then 1 else 0

count_cons : (r x : Rule) (l : List Rule) → count r (x ∷ l) ≡ one r x + count r l
unfolding count one
count_cons r x l = elim (Bool-cases (eq_rule r x)) [
  | inl e ↦ rw e (omega arith)
  | inr e ↦ rw e (omega arith)
]

count_nil : (r : Rule) → count r [] ≡ 0
unfolding count
count_nil r = refl

more : (r x : Rule) (l : List Rule) → count r l ≤ count r (x ∷ l)
more r x l = let e = count_cons r x l in omega arith

more_two : (r x y : Rule) (l : List Rule) → count r l ≤ count r (x ∷ y ∷ l)
more_two r x y l = let a = more r x (y ∷ l) in let b = more r y l in omega arith

abbrev if_on : Bool → Rule → List Rule
if_on true r = r ∷ []
if_on false r = []

hooks-covered :
    (r : Rule) (c chain : Text) (ifaces : List Text) (ds : List Rule)
    → count r (placed c (hook_ifaces chain ifaces) ds)
      ≤ count r ds + count r (aimed c (detach_ifaces chain ifaces))
unfolding hook_ifaces detach_ifaces placed aimed
hooks-covered r c chain [] ds = omega arith
hooks-covered r c chain (iface ∷ ifaces) ds =
    by_blank (is_empty (trim_space iface)) (hooks-covered r c chain ifaces)
  where
    here : Rule
    here = on_iface iface (tcp_jump chain)

    other : Rule
    other = on_iface iface (jump chain)

    deleted : List Rule
    deleted = aimed c (detach_ifaces chain ifaces)

    hooks : List Command
    hooks = hook_ifaces chain ifaces

    Covers : List Rule → Type 0
    Covers ds' = count r (placed c hooks ds') ≤ count r ds' + count r deleted

    by_chain :
        (b : Bool)
        → ((ds' : List Rule) → Covers ds')
        → count r (placed c hooks (if b then here ∷ ds else ds))
          ≤ count r ds
            + count r (
                let rest = if b then other ∷ deleted else deleted in
                if b then here ∷ rest else rest)
    by_chain false k = k ds
    by_chain true k =
        let rest = k (here ∷ ds) in
        let a = count_cons r here ds in
        let b = count_cons r here (other ∷ deleted) in
        let d = count_cons r other deleted in omega arith

    by_blank :
        (blank : Bool)
        → ((ds' : List Rule) → Covers ds')
        → count r (placed c (if blank then hooks else insert prerouting here ∷ hooks) ds)
          ≤ count r ds
            + count r (
                aimed c (
                  let rest = detach_ifaces chain ifaces in
                  if blank
                  then rest
                  else delete_rule prerouting here ∷ delete_rule prerouting other ∷ rest))
    by_blank true k = k ds
    by_blank false k = by_chain (eq_text prerouting c) k

detach-counts :
    (r : Rule) (c : Text) (ifaces : List Text) (name : Text) (names : List Text)
    → count r (if_on (eq_text output c) (tcp_jump name))
        + (count r (aimed c (detach_ifaces name ifaces)) + count r (aimed c (detach ifaces names)))
      ≤ count r (aimed c (detach ifaces (name ∷ names)))
unfolding detach aimed
detach-counts r c ifaces name names =
    let tail = aimed c (detach_ifaces name ifaces ++ detach ifaces names) in
    let tcp = tcp_jump name in
    let any = jump name in
    let sum : count r tail
        ≡ count r (aimed c (detach_ifaces name ifaces)) + count r (aimed c (detach ifaces names)) =
      ap (count r) (aimed-append c (detach_ifaces name ifaces) (detach ifaces names))
      ∙ count-append r (aimed c (detach_ifaces name ifaces)) (aimed c (detach ifaces names)) in
    let nil = count_nil r in
    let alone = count_cons r tcp [] in
    let two = more_two r tcp any in
    let behind = two tail in
    let four = two (tcp ∷ any ∷ tail) in
    let first = count_cons r tcp (any ∷ tcp ∷ any ∷ tail) in
    let first_only = count_cons r tcp (any ∷ tail) in
    let second = more r any (tcp ∷ any ∷ tail) in
    let second_only = more r any tail in
    elim (Bool-cases (eq_text output c)) [
      | inl e ↦ elim (Bool-cases (eq_text prerouting c)) [
        | inl e2 ↦ rw e (rw e2 (omega arith))
        | inr e2 ↦ rw e (rw e2 (omega arith))
      ]
      | inr e ↦ elim (Bool-cases (eq_text prerouting c)) [
        | inl e2 ↦ rw e (rw e2 (omega arith))
        | inr e2 ↦ rw e (rw e2 (omega arith))
      ]
    ]

put_hook : (b : Bool) (r : Rule) (ds : List Rule) → (if b then r ∷ ds else ds) ≡ if_on b r ++ ds
put_hook true r ds = refl
put_hook false r ds = refl

hotspot-covered :
    (r : Rule) (c : Text) (cfg : Config) (ds : List Rule)
    → count r (placed c (hotspot_commands cfg) ds)
      ≤ count r ds + count r (aimed c (detach_ifaces (pre_chain (prefix_of cfg)) (ifaces_of cfg)))
unfolding hotspot_commands placed
hotspot-covered r c cfg ds =
    let pre = pre_chain (prefix_of cfg) in
    let hooks = hooks-covered r c pre (ifaces_of cfg) ds in
    elim (Bool-cases cfg.hotspot) [
      | inl on ↦
          let same =
            placed-append c (hook_ifaces pre (ifaces_of cfg)) (ip_forward ∷ forward_accept ∷ [])
              ds in
          rw on (rw same hooks)
      | inr off ↦ rw off (omega arith)
    ]

pub setup_commands-covered :
    (r : Rule) (c : Text) (cfg : Config) (ips : List Text)
    → count r (placed c (setup_commands cfg ips) [])
      ≤ count r (aimed c (detach (ifaces_of cfg) (all_legacy_chains (prefix_of cfg))))
unfolding setup_commands placed
setup_commands-covered r c cfg ips =
    let out = out_chain (prefix_of cfg) in
    let pre = pre_chain (prefix_of cfg) in
    let on_output = if_on (eq_text output c) (tcp_jump out) in
    let hooks : List Rule = if eq_text output c then tcp_jump out ∷ [] else [] in
    let same : hooks ≡ on_output =
      put_hook (eq_text output c) (tcp_jump out) [] ∙ append-nil on_output in
    let last : placed c (setup_commands cfg ips) [] ≡ placed c (hotspot_commands cfg) hooks =
      placed-append c (map (append out) (chain_rules cfg ips true)) _ []
      ∙ ap
          (placed c (
            map (append pre) (chain_rules cfg ips false)
            ++ (insert output (tcp_jump out) ∷ hotspot_commands cfg)))
          (placed-appends c out (chain_rules cfg ips true) [])
      ∙ placed-append c (map (append pre) (chain_rules cfg ips false)) _ []
      ∙ ap (placed c (insert output (tcp_jump out) ∷ hotspot_commands cfg))
          (placed-appends c pre (chain_rules cfg ips false) []) in
    let number = ap (count r) last in
    let number2 = ap (count r) same in
    let hotspot = hotspot-covered r c cfg hooks in
    let others = drop 2 (all_legacy_chains (prefix_of cfg)) in
    let first = detach-counts r c (ifaces_of cfg) out (pre ∷ others) in
    let second = detach-counts r c (ifaces_of cfg) pre others in omega arith

put-more :
    (r : Rule) (c : Text) (cmd : Command) (ds : List Rule) → count r ds ≤ count r (put c cmd ds)
put-more r c (insert chain rule) ds = elim (Bool-cases (eq_text chain c)) [
  | inl e ↦ rw e (more r rule ds)
  | inr e ↦ rw e (omega arith)
]
put-more r c _ ds = omega arith

placed-more :
    (r : Rule) (c : Text) (cmds : List Command) (ds : List Rule)
    → count r ds ≤ count r (placed c cmds ds)
unfolding placed
placed-more r c [] ds = omega arith
placed-more r c (cmd ∷ cmds) ds =
    let here = put-more r c cmd ds in let rest = placed-more r c cmds (put c cmd ds) in omega arith

pub placed-take :
    (r : Rule) (c : Text) (n : ℕ) (cmds : List Command) (ds : List Rule)
    → count r (placed c (take n cmds) ds) ≤ count r (placed c cmds ds)
unfolding placed
placed-take r c zero cmds ds = placed-more r c cmds ds
placed-take r c (suc n) [] ds = omega arith
placed-take r c (suc n) (cmd ∷ cmds) ds = placed-take r c n cmds (put c cmd ds)
