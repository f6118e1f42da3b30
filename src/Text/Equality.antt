-- ===== src/Text/Equality.antt =====
-- Equality of texts.
use sshcustom_magisk.Base.{◌≡◌, refl, ◌↔◌, true, false, ◌∷◌, arith, Bool-cases, ◌≢◌, inl, inr}
use sshcustom_magisk.Text.{Text, eq_text}

pub eq_text_iff : (a b : Text) → (eq_text a b ≡ true) ↔ (a ≡ b)
unfolding eq_text
eq_text_iff (x ∷ a) (y ∷ b) = ground (arith, eq_text_iff a b)
eq_text_iff _ _ = ground arith

pub eq_text_refl : (a : Text) → eq_text a a ≡ true
eq_text_refl a = (eq_text_iff a a).1 refl

pub eq_text_ne : (a b : Text) → a ≢ b → eq_text a b ≡ false
eq_text_ne a b h = elim (Bool-cases (eq_text a b)) [
  | inl e ↦ absurd (h ((eq_text_iff a b).0 e))
  | inr e ↦ e
]
