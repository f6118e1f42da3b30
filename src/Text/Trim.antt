-- ===== src/Text/Trim.antt =====
-- Trimming twice is trimming once, and a text with nothing to trim is left alone.
use sshcustom_magisk.Base.{
  ℕ, ◌≡◌, refl, ap, ◌∙◌, Bool, false, [], ◌∷◌, arith, Bool-cases, inl, inr, All,
}
use sshcustom_magisk.Text.{Text, is_empty, trim_left, trim_right, trim}

module _ (p : ℕ → Bool) where
  trim_right_idem : (s : Text) → trim_right p (trim_right p s) ≡ trim_right p s
  unfolding trim_right
  trim_right_idem [] = refl
  trim_right_idem (c ∷ cs) = ground (arith, trim_right_idem cs)

  -- The text is empty or begins outside `p`.
  abbrev StartsOutside : Text → Type 0
  StartsOutside [] = Unit
  StartsOutside (c ∷ cs) = p c ≡ false

  trim_left-StartsOutside : (s : Text) → StartsOutside (trim_left p s)
  unfolding trim_left
  trim_left-StartsOutside [] = tt
  trim_left-StartsOutside (c ∷ cs) = elim (Bool-cases (p c)) [
    | inl cut ↦ rw cut (trim_left-StartsOutside cs)
    | inr kept ↦ rw kept kept
  ]

  trim_right-StartsOutside : (s : Text) → StartsOutside s → StartsOutside (trim_right p s)
  unfolding trim_right
  trim_right-StartsOutside [] h = tt
  trim_right-StartsOutside (c ∷ cs) h = elim (Bool-cases (is_empty (trim_right p cs))) [
    | inl bare ↦ rw (bare, h) h
    | inr more ↦ rw more h
  ]

  trim_left_of_StartsOutside : (s : Text) → StartsOutside s → trim_left p s ≡ s
  unfolding trim_left
  trim_left_of_StartsOutside [] h = refl
  trim_left_of_StartsOutside (c ∷ cs) h = rw h

  pub trim_idem : (s : Text) → trim p (trim p s) ≡ trim p s
  unfolding trim
  trim_idem s =
      let start = trim_right-StartsOutside (trim_left p s) (trim_left-StartsOutside s) in
      ap (trim_right p) (trim_left_of_StartsOutside (trim_right p (trim_left p s)) start)
      ∙ trim_right_idem (trim_left p s)

  trim_left_of_All : (s : Text) → All (λ c. p c ≡ false) s → trim_left p s ≡ s
  unfolding trim_left
  trim_left_of_All [] h = refl
  trim_left_of_All (c ∷ cs) h = rw (h.0)

  trim_right_of_All : (s : Text) → All (λ c. p c ≡ false) s → trim_right p s ≡ s
  unfolding trim_right
  trim_right_of_All [] h = refl
  trim_right_of_All (c ∷ cs) h = ground (arith, trim_right_of_All cs h.1, h.0)

  pub trim_of_All : (s : Text) → All (λ c. p c ≡ false) s → trim p s ≡ s
  unfolding trim
  trim_of_All s h = ap (trim_right p) (trim_left_of_All s h) ∙ trim_right_of_All s h
