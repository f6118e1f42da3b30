-- ===== src/Text/Parts.antt =====
-- What it is to contain a text.
use sshcustom_magisk.Base.{
  ◌≡◌, refl, sym, ap, ◌∙◌, ◌↔◌, true, [], ◌∷◌, ◌++◌, arith, Bool-cases, inl, inr,
}
use sshcustom_magisk.Text.{Text, is_empty, has_prefix, contains}

-- `part` stands somewhere in `s`.
abbrev pub Has : Text → Text → Type 0
Has s part = (before : Text) × ((after : Text) × (s ≡ before ++ (part ++ after)))

starts : (part s : Text) → has_prefix part s ≡ true → (after : Text) × (s ≡ part ++ after)
unfolding has_prefix
starts [] s h = (s, refl)
starts (p ∷ part) [] h = absurd (cc h)
starts (p ∷ part) (c ∷ s) h =
    let same : p ≡ c = ground (arith, h) in
    let rest = starts part s (ground (arith, h)) in
    (rest.0, ap (λ x. x ∷ s) (sym same) ∙ ap (λ l. p ∷ l) rest.1)

has_prefix-append : (part after : Text) → has_prefix part (part ++ after) ≡ true
unfolding has_prefix
has_prefix-append [] after = refl
has_prefix-append (p ∷ part) after = ground (arith, has_prefix-append part after)

contains-Has : (s part : Text) → contains s part ≡ true → Has s part
unfolding contains has_prefix
contains-Has [] [] h = ([], ([], refl))
contains-Has [] (p ∷ part) h = absurd (cc h)
contains-Has (c ∷ s) part h = elim (Bool-cases (has_prefix part (c ∷ s))) [
  | inl here ↦ let r = starts part (c ∷ s) here in ([], (r.0, r.1))
  | inr there ↦
      let r = contains-Has s part (rw there at h) in (c ∷ r.0, (r.1.0, ap (λ l. c ∷ l) r.1.1))
]

contains-append : (before part after : Text) → contains (before ++ (part ++ after)) part ≡ true
unfolding contains has_prefix is_empty
contains-append [] [] [] = refl
contains-append [] [] (c ∷ after) = refl
contains-append [] (p ∷ part) after = rw (has_prefix-append (p ∷ part) after) refl
contains-append (c ∷ before) part after =
    elim (Bool-cases (has_prefix part (c ∷ (before ++ (part ++ after))))) [
      | inl e ↦ rw e refl
      | inr e ↦ rw e (contains-append before part after)
    ]

pub contains_iff : (s part : Text) → (contains s part ≡ true) ↔ Has s part
contains_iff s part =
    (contains-Has s part, λ h. ap (λ t. contains t part) h.1.1 ∙ contains-append h.0 part h.1.0)
