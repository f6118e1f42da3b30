-- ===== src/Profiles/Slug.antt =====
-- `slugify` and `uniqueProfileID`.
pub mod Fresh
pub mod Form
use sshcustom_magisk.Base.{
  ℕ, zero, suc, ◌+◌, Bool, true, false, not, ◌&&◌, ◌||◌, List, [], ◌∷◌, ◌++◌, Option, none, some,
  leb, ◌==◌, if◌then◌else◌, map,
}
use sshcustom_magisk.Text.{Text, codes, lower, trim_space, trim, itoa, is_empty, is_digit}
use sshcustom_magisk.Profiles.{Profile, one_of}

abbrev pub is_slug_byte : ℕ → Bool
is_slug_byte c = (leb b'a' c && leb c b'z') || is_digit c

abbrev pub is_dash : ℕ → Bool
is_dash c = c == b'-'

-- The loop of `slugify`; the flag is `lastDash`.
unfoldable pub dashed : Bool → Text → Text
dashed last [] = []
dashed last (c ∷ cs) =
    let plain = c ∷ dashed false cs in
    let other = dashed true cs in
    if is_slug_byte c then plain else if last then other else b'-' ∷ other

-- `slugify`.
unfoldable pub slugify : Text → Text
unfolding lower trim_space trim dashed
slugify s = trim is_dash (dashed false (lower (trim_space s)))

-- "%s-%d".
abbrev pub numbered : Text → ℕ → Text
numbered base i = base ++ (b'-' ∷ itoa i)

-- The loop of `uniqueProfileID` over `n` numbers from `i` on.
unfoldable pub first_free : List Text → Text → ℕ → ℕ → Option Text
unfolding one_of
first_free used base i zero = none
first_free used base i (suc n) =
    let later = first_free used base (suc i) n in
    if one_of (numbered base i) used then later else some (numbered base i)

abbrev pub default_base : Text
default_base = codes "profile"

abbrev pub slug_base : Text → Text
slug_base base =
    let trimmed = trim is_dash (slugify base) in if is_empty trimmed then default_base else trimmed

abbrev pub or_numbered : Text → ℕ → Option Text → Text
or_numbered base now none = numbered base now
or_numbered base now (some id) = id

abbrev pub id_of : Profile → Text
id_of p = p.id

-- `uniqueProfileID` at a Unix time in seconds; the numbers tried are 2 to 9999.
unfoldable pub unique_profile_id : ℕ → List Profile → Text → Text
unfolding slugify one_of first_free
unique_profile_id now profiles base =
    let used = map id_of profiles in
    let slug = slug_base base in
    if one_of slug used then or_numbered slug now (first_free used slug 2 9998) else slug
