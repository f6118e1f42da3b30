-- ===== src/Pool/Places.antt =====
-- Reading a list behind a change at one place, and counting.
use sshcustom_magisk.Base.{
  ℕ, zero, suc, ◌+◌, ◌≡◌, refl, ap, List, [], ◌∷◌, ◌++◌, Option, none, some, arith, ◌==◌,
  if◌then◌else◌, length, get_elem?, map, ◌≢◌,
}
use sshcustom_magisk.Pool.{modify, bit}

module _ {ℓ} {A : Type ℓ} where
  abbrev pub map_option : (A → A) → Option A → Option A
  map_option f none = none
  map_option f (some a) = some (f a)

  pub get_elem?-modify :
      (i j : ℕ) (f : A → A) (xs : List A)
      → get_elem? (modify i f xs) j
        ≡ (if i == j then map_option f (get_elem? xs j) else get_elem? xs j)
  unfolding modify
  get_elem?-modify i j f [] = ground arith
  get_elem?-modify zero zero f (x ∷ xs) = refl
  get_elem?-modify zero (suc j) f (x ∷ xs) = ground arith
  get_elem?-modify (suc i) zero f (x ∷ xs) = ground arith
  get_elem?-modify (suc i) (suc j) f (x ∷ xs) = ground (arith, get_elem?-modify i j f xs)

  pub get_elem?-modify_self :
      (i : ℕ) (f : A → A) (xs : List A)
      → get_elem? (modify i f xs) i ≡ map_option f (get_elem? xs i)
  get_elem?-modify_self i f xs = ground (arith, get_elem?-modify i i f xs)

  pub get_elem?-modify_ne :
      (i j : ℕ) (f : A → A) (xs : List A) → i ≢ j → get_elem? (modify i f xs) j ≡ get_elem? xs j
  get_elem?-modify_ne i j f xs h = ground (arith, get_elem?-modify i j f xs)

  pub map_option-eq-some :
      (f : A → A) (o : Option A) {b : A}
      → map_option f o ≡ some b
      → (a : A) × (o ≡ some a) × (f a ≡ b)
  map_option-eq-some f none h = cc
  map_option-eq-some f (some a) h = (a, refl, cc)

  pub length-modify : (i : ℕ) (f : A → A) (xs : List A) → length (modify i f xs) ≡ length xs
  unfolding modify
  length-modify i f [] = refl
  length-modify zero f (x ∷ xs) = refl
  length-modify (suc i) f (x ∷ xs) = ap suc (length-modify i f xs)

  pub get_elem?-map :
      (f : A → A) (xs : List A) (j : ℕ) → get_elem? (map f xs) j ≡ map_option f (get_elem? xs j)
  get_elem?-map f [] j = refl
  get_elem?-map f (x ∷ xs) zero = refl
  get_elem?-map f (x ∷ xs) (suc j) = get_elem?-map f xs j

-- How often a number stands in a list.
abbrev pub count : ℕ → List ℕ → ℕ
count i [] = 0
count i (j ∷ js) = bit (i == j) + count i js

pub count-append : (i : ℕ) (xs ys : List ℕ) → count i (xs ++ ys) ≡ count i xs + count i ys
count-append i [] ys = omega arith
count-append i (x ∷ xs) ys = omega (arith, count-append i xs ys)
