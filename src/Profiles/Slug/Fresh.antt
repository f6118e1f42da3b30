-- ===== src/Profiles/Slug/Fresh.antt =====
-- `uniqueProfileID` gives an ID that no profile has.
use sshcustom_magisk.Base.{
  ℕ, zero, suc, ◌≤◌, ◌<◌, ◌≡◌, ◌≢◌, refl, sym, ap, ◌∙◌, true, false, List, [], ◌∷◌, ◌++◌, none,
  some, arith, if◌then◌else◌, length, map, length-map, Bool-cases, Option-cases, inl, inr,
}
use sshcustom_magisk.Text.{Text, eq_text, itoa}
use sshcustom_magisk.Text.Decimal.{itoa-injective}
use sshcustom_magisk.Text.Equality.{eq_text_iff, eq_text_ne}
use sshcustom_magisk.Profiles.{Profile, one_of}
use sshcustom_magisk.Profiles.Slug.{numbered, first_free, slug_base, id_of, unique_profile_id}

remove_text : Text → List Text → List Text
remove_text v [] = []
remove_text v (x ∷ xs) = let rest = remove_text v xs in if eq_text x v then xs else x ∷ rest

length-remove_text :
    (v : Text) (xs : List Text) → one_of v xs ≡ true → length xs ≡ suc (length (remove_text v xs))
unfolding one_of remove_text
length-remove_text v [] h = cc
length-remove_text v (x ∷ xs) h = elim (Bool-cases (eq_text x v)) [
  | inl same ↦ rw same
  | inr other ↦ rw other (ap suc (length-remove_text v xs (rw other at h)))
]

one_of-remove_text :
    (v w : Text) (xs : List Text) → v ≢ w → one_of w (remove_text v xs) ≡ one_of w xs
unfolding one_of remove_text
one_of-remove_text v w [] h = refl
one_of-remove_text v w (x ∷ xs) h = elim (Bool-cases (eq_text x v)) [
  | inl same ↦
      let e : x ≡ v = (eq_text_iff x v).0 same in rw (same, eq_text_ne x w (λ k. h (sym e ∙ k)))
  | inr other ↦ rw other (rw (one_of-remove_text v w xs h))
]

append_cancel : (xs : Text) {ys zs : Text} → xs ++ ys ≡ xs ++ zs → ys ≡ zs
append_cancel [] h = h
append_cancel (x ∷ xs) h = append_cancel xs cc

numbered-injective : (base : Text) (i j : ℕ) → numbered base i ≡ numbered base j → i ≡ j
numbered-injective base i j h =
    let tail = append_cancel base {ys = b'-' ∷ itoa i} {zs = b'-' ∷ itoa j} h in
    itoa-injective i j cc

first_free-remove_text :
    (used : List Text) (base : Text) (k i n : ℕ)
    → k < i
    → first_free (remove_text (numbered base k) used) base i n ≡ first_free used base i n
unfolding first_free
first_free-remove_text used base k i zero h = refl
first_free-remove_text used base k i (suc n) h =
    let apart : numbered base k ≢ numbered base i =
      λ e. omega (arith, numbered-injective base k i e, h) in
    rw (
      one_of-remove_text (numbered base k) (numbered base i) used apart,
      first_free-remove_text used base k (suc i) n (omega arith),
    )

-- Only a list with a name for each number can have them all.
first_free-none :
    (used : List Text) (base : Text) (i n : ℕ) → first_free used base i n ≡ none → n ≤ length used
unfolding first_free
first_free-none used base i zero h = omega arith
first_free-none used base i (suc n) h = elim (Bool-cases (one_of (numbered base i) used)) [
  | inl taken ↦
      let rest = remove_text (numbered base i) used in
      let later : first_free rest base (suc i) n ≡ none =
        first_free-remove_text used base i (suc i) n (omega arith) ∙ rw taken at h in
      omega (
        arith,
        first_free-none rest base (suc i) n later,
        length-remove_text (numbered base i) used taken,
      )
  | inr free ↦ cc (rw free at h)
]

first_free-some :
    (used : List Text) (base : Text) (i n : ℕ) {id : Text}
    → first_free used base i n ≡ some id
    → one_of id used ≡ false
unfolding first_free
first_free-some used base i zero h = cc
first_free-some used base i (suc n) {id} h = elim (Bool-cases (one_of (numbered base i) used)) [
  | inl taken ↦ first_free-some used base (suc i) n (rw taken at h)
  | inr free ↦
      let e : numbered base i ≡ id = cc (rw free at h) in ap (λ v. one_of v used) (sym e) ∙ free
]

-- With fewer than 9998 profiles the ID given is one that none of them has; the numbers tried are
-- enough, and the time is not needed.
pub unique_profile_id-free :
    (now : ℕ) (profiles : List Profile) (base : Text)
    → length profiles < 9998
    → one_of (unique_profile_id now profiles base) (map id_of profiles) ≡ false
unfolding unique_profile_id
unique_profile_id-free now profiles base few =
    let used = map id_of profiles in
    let slug = slug_base base in
    elim (Bool-cases (one_of slug used)) [
      | inr free ↦ rw free free
      | inl taken ↦ rw taken (elim (Option-cases (first_free used slug 2 9998)) [
        | inr (id, e) ↦ rw e (first_free-some used slug 2 9998 e)
        | inl e ↦
            absurd (omega (arith, first_free-none used slug 2 9998 e, length-map profiles id_of))
      ])
    ]
