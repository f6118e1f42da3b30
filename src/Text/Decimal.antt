-- ===== src/Text/Decimal.antt =====
-- `strconv.Itoa` and its inverse.
use mathlib.Core.List.{concat-ne-nil}
use sshcustom_magisk.Base.{
  ℕ, zero, suc, ◌+◌, ◌-◌, ◌*◌, ◌/◌, ◌%◌, ◌<◌, ◌≡◌, refl, ap, ◌∙◌, true, [], ◌∷◌, ◌++◌, some, arith,
  ltb, All, Bool-cases, inl, inr, ◌≢◌,
}
use sshcustom_magisk.Text.{Text, is_digit, itoa_fuel, itoa, digits_from, parse_digits}

abbrev pub AllDigits : Text → Type 0
AllDigits = All (λ c. is_digit c ≡ true)

-- Reading on behind a prefix goes on from its value.
digits_from-append :
    (xs ys : Text) (acc v : ℕ)
    → digits_from acc xs ≡ some v
    → digits_from acc (xs ++ ys) ≡ digits_from v ys
unfolding digits_from
digits_from-append [] ys acc v h = ground arith
digits_from-append (c ∷ cs) ys acc v h =
    ground (arith, digits_from-append cs ys (acc * 10 + (c - b'0')) v)

digits_from_digit : (v d : ℕ) → d < 10 → digits_from v ((b'0' + d) ∷ []) ≡ some (v * 10 + d)
unfolding digits_from
digits_from_digit v d h = ground arith

digits_from-itoa_fuel : (f n : ℕ) → n < f → digits_from 0 (itoa_fuel f n) ≡ some n
unfolding itoa_fuel
digits_from-itoa_fuel zero n h = elim h [ ]
digits_from-itoa_fuel (suc f) n h = elim (Bool-cases (ltb n 10)) [
  | inl small ↦ rw small (digits_from_digit 0 n (ground arith) ∙ ap some (omega arith))
  | inr big ↦ rw big (
      digits_from-append (itoa_fuel f (n / 10)) _ 0 (n / 10)
        (digits_from-itoa_fuel f (n / 10) (ground arith))
      ∙ digits_from_digit (n / 10) (n % 10) (omega arith)
      ∙ ap some (omega arith))
]

parse_digits-digits_from : (s : Text) → s ≢ [] → parse_digits s ≡ digits_from 0 s
unfolding parse_digits
parse_digits-digits_from [] h = absurd (h refl)
parse_digits-digits_from (c ∷ cs) h = refl

itoa_fuel-ne-nil : (f n : ℕ) → itoa_fuel (suc f) n ≢ []
unfolding itoa_fuel
itoa_fuel-ne-nil f n h = elim (Bool-cases (ltb n 10)) [
  | inl small ↦ cc (rw small at h)
  | inr big ↦ concat-ne-nil _ _ (rw big at h)
]

-- Reading the digits of a number gives it back.
pub parse_digits-itoa : (n : ℕ) → parse_digits (itoa n) ≡ some n
unfolding itoa
parse_digits-itoa n =
    parse_digits-digits_from (itoa n) (itoa_fuel-ne-nil n n)
    ∙ digits_from-itoa_fuel (suc n) n (omega arith)

pub itoa-injective : (m n : ℕ) → itoa m ≡ itoa n → m ≡ n
itoa-injective m n h = cc (parse_digits-itoa m, parse_digits-itoa n, h)

AllDigits-append : (xs ys : Text) → AllDigits xs → AllDigits ys → AllDigits (xs ++ ys)
AllDigits-append [] ys h k = k
AllDigits-append (x ∷ xs) ys h k = (h.0, AllDigits-append xs ys h.1 k)

itoa_fuel-AllDigits : (f n : ℕ) → AllDigits (itoa_fuel f n)
unfolding itoa_fuel
itoa_fuel-AllDigits zero n = tt
itoa_fuel-AllDigits (suc f) n = elim (Bool-cases (ltb n 10)) [
  | inl small ↦ rw small (ground arith, tt)
  | inr big ↦ rw big (AllDigits-append _ _ (itoa_fuel-AllDigits f (n / 10)) (ground arith, tt))
]

pub itoa-AllDigits : (n : ℕ) → AllDigits (itoa n)
unfolding itoa
itoa-AllDigits n = itoa_fuel-AllDigits (suc n) n
