-- ===== src/Iptables/Reported.antt =====
-- Which errors `Apply` reports.
use sshcustom_magisk.Base.{
  ◌≡◌, refl, ◌↔◌, ◌⊎◌, Bool, true, false, ◌||◌, List, [], ◌∷◌, ◌++◌, Option, none, some, Bool-cases,
  inl, inr,
}
use sshcustom_magisk.Text.{Text, codes, join, trim_space, contains}
use sshcustom_magisk.Text.Parts.{Has, contains_iff}
use sshcustom_magisk.Iptables.{
  Config, Command, new_chain, flush, delete_chain, append, insert, delete_rule, ip_forward,
  forward_accept, forward_delete, argv, exec, errors_of, error_of, error_text, fatal_errors,
  is_tolerated, noted, cleanup, apply, setup_commands,
}

-- A text in which one of the three phrases stands.
abbrev pub Excused : Text → Type 0
Excused e =
    Has e (codes "No chain/target/match")
    ⊎ (Has e (codes "does a matching rule exist") ⊎ Has e (codes "Chain already exists"))

or_iff : {A B : Type 0} (a b : Bool) → (a ≡ true) ↔ A → (b ≡ true) ↔ B → (a || b ≡ true) ↔ (A ⊎ B)
or_iff true b h k = (λ _. inl (h.0 refl), λ _. refl)
or_iff false b h k = (λ e. inr (k.0 e), λ x. elim x [ inl y ↦ absurd (cc (h.1 y)) | inr y ↦ k.1 y ])

is_tolerated_iff : (e : Text) → (is_tolerated e ≡ true) ↔ Excused e
unfolding is_tolerated
is_tolerated_iff e = or_iff (contains e (codes "No chain/target/match")) _ (contains_iff e _) (
    or_iff (contains e (codes "does a matching rule exist")) _ (contains_iff e _)
      (contains_iff e _))

module _ {K : Type 0} (run : K → Text × List Text → K × Option (Text × Text)) where
  -- What a call may answer: nothing, an error with one of the phrases in the call, the error or its
  -- output, or any error from the two calls whose errors are not looked at.
  abbrev pub IsExcused : Command → Option (Text × Text) → Type 0
  IsExcused c none = Unit
  IsExcused ip_forward (some e) = Unit
  IsExcused forward_accept (some e) = Unit
  IsExcused c (some (e, out)) = Excused (
      codes "iptables "
      ++ (join (codes " ") (argv c).1 ++ (codes ": " ++ (e ++ (codes " " ++ trim_space out)))))

  abbrev pub AreExcused : K → List Command → Type 0
  AreExcused s [] = Unit
  AreExcused s (c ∷ cs) = IsExcused c (run s (argv c)).1 × AreExcused (exec run s c) cs

  beside_unit : {A B : Type 0} → ◌↔◌ {0, 0} A B → ◌↔◌ {0, 0} A (Unit × B)
  beside_unit h = (λ a. (tt, h.0 a), λ p. h.1 p.1)

  noted_text :
      (t : Text) (errs : List Text) (P : Type 0)
      → ((error_of (fatal_errors errs) ≡ none) ↔ P)
      → (error_of (fatal_errors (t ∷ errs)) ≡ none) ↔ (Excused t × P)
  unfolding fatal_errors
  noted_text t errs P h = elim (Bool-cases (is_tolerated t)) [
    | inl e ↦ rw e (λ k. ((is_tolerated_iff t).0 e, h.0 k), λ p. h.1 p.1)
    | inr e ↦ rw e (λ k. absurd (cc k), λ p. absurd (cc (e, (is_tolerated_iff t).1 p.0)))
  ]

  noted-IsExcused :
      (c : Command) (answer : Option (Text × Text)) (errs : List Text) (P : Type 0)
      → ((error_of (fatal_errors errs) ≡ none) ↔ P)
      → (error_of (fatal_errors (noted run c answer errs)) ≡ none) ↔ (IsExcused c answer × P)
  unfolding error_text
  noted-IsExcused c none errs P h = beside_unit h
  noted-IsExcused ip_forward (some e) errs P h = beside_unit h
  noted-IsExcused forward_accept (some e) errs P h = beside_unit h
  noted-IsExcused (new_chain chain) (some (e, out)) errs P h = noted_text _ errs P h
  noted-IsExcused (flush chain) (some (e, out)) errs P h = noted_text _ errs P h
  noted-IsExcused (delete_chain chain) (some (e, out)) errs P h = noted_text _ errs P h
  noted-IsExcused (append chain r) (some (e, out)) errs P h = noted_text _ errs P h
  noted-IsExcused (insert chain r) (some (e, out)) errs P h = noted_text _ errs P h
  noted-IsExcused (delete_rule chain r) (some (e, out)) errs P h = noted_text _ errs P h
  noted-IsExcused forward_delete (some (e, out)) errs P h = noted_text _ errs P h

  errors_of-AreExcused :
      (s : K) (cs : List Command)
      → (error_of (fatal_errors (errors_of run s cs)) ≡ none) ↔ AreExcused s cs
  unfolding errors_of fatal_errors
  errors_of-AreExcused s [] = (λ _. tt, λ _. refl)
  errors_of-AreExcused s (c ∷ cs) =
      noted-IsExcused c (run s (argv c)).1 (errors_of run (exec run s c) cs) _
        (errors_of-AreExcused (exec run s c) cs)

  -- `Apply` returns no error exactly if every call behind its cleanup whose error it notes succeeds
  -- or fails with an error text (the call, the error and the trimmed output) that contains "No
  -- chain/target/match", "does a matching rule exist" or "Chain already exists".
  pub apply-none_iff :
      (cfg : Config) (ips : List Text) (s : K)
      → ((apply run cfg ips s).1 ≡ none) ↔ AreExcused (cleanup run cfg s) (setup_commands cfg ips)
  unfolding apply
  apply-none_iff cfg ips s = errors_of-AreExcused (cleanup run cfg s) (setup_commands cfg ips)
