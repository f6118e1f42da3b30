-- ===== src/Iptables/Teardown.antt =====
-- Taking away the daemon's hooks, then its chains.
use sshcustom_magisk.Base.{
  ◌≤◌, ◌≡◌, refl, sym, ap, ◌∙◌, subst, Bool, true, false, List, [], ◌∷◌, Option, none, some,
  if◌then◌else◌, Bool-cases, inl, inr, All, arith,
}
use sshcustom_magisk.Text.{Text, eq_text}
use sshcustom_magisk.Text.Equality.{eq_text_iff, eq_text_refl}
use sshcustom_magisk.Profiles.{one_of}
use sshcustom_magisk.Iptables.{Rule, Command, delete_rule, exec, exec_all}
use sshcustom_magisk.Iptables.Rules.{
  count, count-clear, erase, clear, jumps, is_ours, foreign, foreign-clear, foreign_all,
}
use sshcustom_magisk.Iptables.Kernel.{Chains, edit, IsIptables}
use sshcustom_magisk.Iptables.Dressed.{by_name, IsClear, Fits}

-- The rules that commands delete in a chain.
unfoldable pub aimed : Text → List Command → List Rule
unfolding eq_text
aimed c [] = []
aimed c (delete_rule chain r ∷ cmds) =
    let rest = aimed c cmds in if eq_text chain c then r ∷ rest else rest
aimed c (_ ∷ cmds) = aimed c cmds

edit_nothing : (now : Option (List Rule)) → edit (λ l. l) now ≡ now
edit_nothing none = refl
edit_nothing (some l) = refl

edit_twice :
    (f g : List Rule → List Rule) (now : Option (List Rule))
    → edit f (edit g now) ≡ edit (λ l. f (g l)) now
edit_twice f g none = refl
edit_twice f g (some l) = refl

module _ (chains : List Text) where
  abbrev pub IsDetach : Command → Type 0
  IsDetach (delete_rule chain r) = (one_of chain chains ≡ false) × (is_ours chains r ≡ true)
  IsDetach _ = ⊥

  pub aimed_ours :
      (c : Text) (cmds : List Command)
      → All IsDetach cmds
      → All (λ r. is_ours chains r ≡ true) (aimed c cmds)
  unfolding aimed
  aimed_ours c [] ok = tt
  aimed_ours c (delete_rule chain r ∷ cmds) ok = elim (Bool-cases (eq_text chain c)) [
    | inl e ↦ rw e (ok.0.1, aimed_ours c cmds ok.1)
    | inr e ↦ rw e (aimed_ours c cmds ok.1)
  ]
  aimed_ours c (_ ∷ cmds) ok = elim ok.0 [ ]

  pub aimed_own :
      (c : Text) (cmds : List Command)
      → All IsDetach cmds
      → one_of c chains ≡ true
      → aimed c cmds ≡ []
  unfolding aimed
  aimed_own c [] ok own = refl
  aimed_own c (delete_rule chain r ∷ cmds) ok own = elim (Bool-cases (eq_text chain c)) [
    | inl e ↦
        let builtin : one_of c chains ≡ false =
          subst (λ x. one_of x chains ≡ false) ((eq_text_iff chain c).0 e) ok.0.0 in
        absurd (cc (own, builtin))
    | inr e ↦ rw e (aimed_own c cmds ok.1 own)
  ]
  aimed_own c (_ ∷ cmds) ok own = elim ok.0 [ ]

  jumps_none :
      (names : List Text) (chain : Text) (r : Rule)
      → one_of chain names ≡ true
      → is_ours names r ≡ false
      → jumps chain r ≡ false
  unfolding one_of is_ours
  jumps_none [] chain r own other = absurd (cc own)
  jumps_none (name ∷ names) chain r own other = elim (Bool-cases (jumps name r)) [
    | inl e ↦ absurd (cc (rw e at other))
    | inr e ↦ elim (Bool-cases (eq_text name chain)) [
      | inl same ↦ subst (λ x. jumps x r ≡ false) ((eq_text_iff name chain).0 same) e
      | inr differ ↦ jumps_none names chain r (rw differ at own) (rw e at other)
    ]
  ]

  pub jumps_none-All :
      (chain : Text) (l : List Rule)
      → one_of chain chains ≡ true
      → IsClear chains l
      → All (λ r. jumps chain r ≡ false) l
  jumps_none-All chain [] own h = tt
  jumps_none-All chain (r ∷ l) own h =
      (jumps_none chains chain r own h.0, jumps_none-All chain l own h.1)

  -- Where the hooks are away: a chain of the daemon jumps to none of them, and any other is as before.
  abbrev pub Bare : Bool → Option (List Rule) → Option (List Rule) → Type 0
  Bare true none before = Unit
  Bare true (some l) before = IsClear chains l
  Bare false now before = now ≡ before

  pub Fits-Bare :
      (own : Bool) (ds erased : List Rule) (now before : Option (List Rule))
      → Fits chains own ds now before
      → ((r : Rule) → is_ours chains r ≡ true → count r ds ≤ count r erased)
      → All (λ r. is_ours chains r ≡ true) erased
      → (own ≡ true → erased ≡ [])
      → Bare own (edit (clear erased) now) before
  unfolding clear
  Fits-Bare true ds erased none before h enough mine empty = tt
  Fits-Bare true ds erased (some l) before h enough mine empty = rw (empty refl) h
  Fits-Bare false ds erased none none h enough mine empty = refl
  Fits-Bare false ds erased (some l) (some b) h enough mine empty =
      let gone : foreign chains (clear erased l) ≡ clear erased l =
        foreign_all chains (clear erased l) λ r own.
          let at_most = h.1 r own in
          let covered = enough r own in let left = count-clear r erased l in omega arith in
      ap (λ x. some x) (sym gone ∙ foreign-clear chains erased l mine ∙ h.0)
  Fits-Bare false ds erased none (some b) h enough mine empty = elim h [ ]
  Fits-Bare false ds erased (some l) none h enough mine empty = elim h [ ]

  -- A table in which the daemon has nothing.
  pub record IsBase (base : Chains) : Type 0 where
    pub foreign_only : (c : Text) (l : List Rule) → base c ≡ some l → IsClear chains l
    pub absent : (c : Text) → one_of c chains ≡ true → base c ≡ none

  module _ {K : Type 0} (run : K → Text × List Text → K × Option (Text × Text)) (rules : K → Chains)
      (net : IsIptables run rules) where
    pub detached :
        (s : K) (cmds : List Command) (c : Text)
        → All IsDetach cmds
        → rules (exec_all run s cmds) c ≡ edit (clear (aimed c cmds)) (rules s c)
    unfolding exec_all aimed clear
    detached s [] c ok = sym (edit_nothing (rules s c))
    detached s (delete_rule chain r ∷ cmds) c ok =
        detached (exec run s (delete_rule chain r)) cmds c ok.1
        ∙ by_name
            (λ c'.
              edit (clear (aimed c' cmds)) (rules (exec run s (delete_rule chain r)) c')
              ≡ edit (clear (aimed c' (delete_rule chain r ∷ cmds))) (rules s c'))
            chain c
            (rw (net.deleted s chain r, eq_text_refl chain)
              (edit_twice (clear (aimed chain cmds)) (erase r) (rules s chain)))
            (λ other. rw (net.elsewhere s (delete_rule chain r) c other, other) refl)
    detached s (_ ∷ cmds) c ok = elim ok.0 [ ]
