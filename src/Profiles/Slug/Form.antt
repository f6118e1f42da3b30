-- ===== src/Profiles/Slug/Form.antt =====
-- The texts that `slugify` gives.
use sshcustom_magisk.Base.{
  ◌≡◌, refl, ap, ◌∙◌, ◌⊎◌, Bool, true, false, ◌&&◌, [], ◌∷◌, arith, Bool-cases, inl, inr, All,
}
use sshcustom_magisk.Text.{
  Text, is_empty, is_space, lower, lower_byte, trim, trim_left, trim_right, trim_space,
}
use sshcustom_magisk.Text.Trim.{trim_idem, trim_of_All}
use sshcustom_magisk.Profiles.Slug.{is_slug_byte, is_dash, dashed, slugify}

-- Small letters, digits and dashes, no dash next to another; the flag says that a dash stands in
-- front.
abbrev pub IsClean : Bool → Text → Type 0
IsClean last [] = Unit
IsClean last (c ∷ cs) =
    ((is_slug_byte c ≡ true) × IsClean false cs)
    ⊎ ((is_dash c ≡ true) × (last ≡ false) × IsClean true cs)

dashed-IsClean : (last : Bool) (s : Text) → IsClean last (dashed last s)
unfolding dashed
dashed-IsClean last [] = tt
dashed-IsClean last (c ∷ cs) = elim (Bool-cases (is_slug_byte c)) [
  | inl plain ↦ rw plain (inl (plain, dashed-IsClean false cs))
  | inr other ↦ elim (Bool-cases last) [
    | inl after ↦ rw (other, after) (dashed-IsClean true cs)
    | inr first ↦ rw (other, first) (inr (refl, refl, dashed-IsClean true cs))
  ]
]

IsClean-weaken : (s : Text) → IsClean true s → IsClean false s
IsClean-weaken [] h = tt
IsClean-weaken (c ∷ cs) (inl h) = inl h
IsClean-weaken (c ∷ cs) (inr h) = cc (h.1)

trim_left-IsClean : (s : Text) → IsClean false s → IsClean false (trim_left is_dash s)
unfolding trim_left
trim_left-IsClean [] h = tt
trim_left-IsClean (c ∷ cs) (inl h) = elim (Bool-cases (is_dash c)) [
  | inl dash ↦ rw dash (trim_left-IsClean cs h.1)
  | inr plain ↦ rw plain (inl h)
]
trim_left-IsClean (c ∷ cs) (inr h) = rw (h.0) (trim_left-IsClean cs (IsClean-weaken cs h.2))

trim_right-IsClean : (last : Bool) (s : Text) → IsClean last s → IsClean last (trim_right is_dash s)
unfolding trim_right
trim_right-IsClean last [] h = tt
trim_right-IsClean last (c ∷ cs) h =
    elim (Bool-cases (is_empty (trim_right is_dash cs) && is_dash c)) [
      | inl cut ↦ rw cut tt
      | inr kept ↦ rw kept (elim h [
        | inl (plain, rest) ↦ inl (plain, trim_right-IsClean false cs rest)
        | inr (dash, first, rest) ↦ inr (dash, first, trim_right-IsClean true cs rest)
      ])
    ]

-- What `slugify` gives is clean.
slugify-IsClean : (s : Text) → IsClean false (slugify s)
unfolding slugify trim
slugify-IsClean s =
    trim_right-IsClean false _ (trim_left-IsClean _ (dashed-IsClean false (lower (trim_space s))))

dashed_of_IsClean : (last : Bool) (s : Text) → IsClean last s → dashed last s ≡ s
unfolding dashed
dashed_of_IsClean last [] h = refl
dashed_of_IsClean last (c ∷ cs) (inl h) = rw (h.0) (ap (◌∷◌ c) (dashed_of_IsClean false cs h.1))
dashed_of_IsClean last (c ∷ cs) (inr h) = ground (arith, dashed_of_IsClean true cs h.2, h.0, h.1)

lower_of_IsClean : (last : Bool) (s : Text) → IsClean last s → lower s ≡ s
unfolding lower lower_byte
lower_of_IsClean last [] h = refl
lower_of_IsClean last (c ∷ cs) (inl h) = ground (arith, lower_of_IsClean false cs h.1, h.0)
lower_of_IsClean last (c ∷ cs) (inr h) = ground (arith, lower_of_IsClean true cs h.2, h.0)

no_space_of_IsClean : (last : Bool) (s : Text) → IsClean last s → All (λ c. is_space c ≡ false) s
unfolding is_space
no_space_of_IsClean last [] h = tt
no_space_of_IsClean last (c ∷ cs) (inl h) = (ground (arith, h.0), no_space_of_IsClean false cs h.1)
no_space_of_IsClean last (c ∷ cs) (inr h) = (ground (arith, h.0), no_space_of_IsClean true cs h.2)

-- What `slugify` gives consists of small letters, digits and single dashes, with no dash at either
-- end, and `slugify` and the trimming in `uniqueProfileID` leave it as it is.
pub slugify_form :
    (s : Text)
    → IsClean false (slugify s)
      × (trim is_dash (slugify s) ≡ slugify s)
      × (slugify (slugify s) ≡ slugify s)
slugify_form s =
    let clean = slugify-IsClean s in
    let trimmed : trim is_dash (slugify s) ≡ slugify s =
      unfold slugify in trim_idem is_dash (dashed false (lower (trim_space s))) in
    let no_space : trim_space (slugify s) ≡ slugify s =
      unfold trim_space in
      trim_of_All is_space (slugify s) (no_space_of_IsClean false (slugify s) clean) in
    (
      clean,
      trimmed,
      unfold_slugify (slugify s)
          ∙ rw
              (
                no_space,
                lower_of_IsClean false (slugify s) clean,
                dashed_of_IsClean false (slugify s) clean,
              )
              trimmed,
    )
  where
    unfold_slugify : (t : Text) → slugify t ≡ trim is_dash (dashed false (lower (trim_space t)))
    unfold_slugify t = unfold slugify in refl
