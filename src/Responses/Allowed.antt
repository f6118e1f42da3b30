-- ===== src/Responses/Allowed.antt =====
-- `allowedStatuses` against membership.
use sshcustom_magisk.Base.{
  ◌≡◌, refl, ◌↔◌, ◌⊎◌, inl, inr, true, List, [], ◌∷◌, arith, ==_iff, All, Bool-cases,
}
use sshcustom_magisk.Base.Int.{ℤ, pos, negsuc}
use sshcustom_magisk.Responses.{eq_int, in_set, all_in, allowed_statuses}

-- The code is one of the list.
abbrev pub IsIn : ℤ → List ℤ → Type 0
IsIn n [] = ⊥
IsIn n (x ∷ xs) = (x ≡ n) ⊎ IsIn n xs

eq_int_iff : (m n : ℤ) → (eq_int m n ≡ true) ↔ (m ≡ n)
eq_int_iff (pos m) (pos n) = ground (arith, ==_iff m n)
eq_int_iff (negsuc m) (negsuc n) = ground (arith, ==_iff m n)
eq_int_iff (pos m) (negsuc n) = (λ h. cc, λ h. cc)
eq_int_iff (negsuc m) (pos n) = (λ h. cc, λ h. cc)

in_set_iff : (n : ℤ) (xs : List ℤ) → (in_set n xs ≡ true) ↔ IsIn n xs
in_set_iff n [] = (λ h. cc, λ h. absurd h)
in_set_iff n (x ∷ xs) = elim (Bool-cases (eq_int x n)) [
  | inl e ↦ (λ _. inl ((eq_int_iff x n).0 e), λ _. rw e refl)
  | inr e ↦ (
    λ h. inr ((in_set_iff n xs).0 (rw e at h)),
    λ h. rw e (elim h [
      | inl same ↦ cc ((eq_int_iff x n).1 same, e)
      | inr later ↦ (in_set_iff n xs).1 later
    ]),
  )
]

all_in_iff : (got allowed : List ℤ) → (all_in got allowed ≡ true) ↔ All (λ n. IsIn n allowed) got
all_in_iff [] allowed = (λ _. tt, λ _. refl)
all_in_iff (n ∷ got) allowed = elim (Bool-cases (in_set n allowed)) [
  | inl e ↦ (
    λ h. ((in_set_iff n allowed).0 e, (all_in_iff got allowed).0 (rw e at h)),
    λ h. rw e ((all_in_iff got allowed).1 h.1),
  )
  | inr e ↦ (λ h. cc (rw e at h), λ h. cc ((in_set_iff n allowed).1 h.0, e))
]

-- The codes that came back are allowed exactly if each of them is one of the list, an empty list
-- allowing all of them.
pub allowed_statuses_iff :
    (got allowed : List ℤ)
    → (allowed_statuses got allowed ≡ true) ↔ ((allowed ≡ []) ⊎ All (λ n. IsIn n allowed) got)
unfolding allowed_statuses
allowed_statuses_iff [] allowed = (λ _. inr tt, λ _. refl)
allowed_statuses_iff (n ∷ got) [] = (λ _. inl refl, λ _. refl)
allowed_statuses_iff (n ∷ got) (m ∷ allowed) =
    let iff = all_in_iff (n ∷ got) (m ∷ allowed) in
    (λ h. inr (iff.0 h), λ h. elim h [ inl e ↦ cc | inr each ↦ iff.1 each ])
