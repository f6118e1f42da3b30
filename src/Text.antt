-- ===== src/Text.antt =====
-- Go strings as lists of bytes, with what the daemon uses of the standard packages `strings` and
-- `strconv`. Letters and white space are the ASCII ones.
pub mod Equality
pub mod Parts
pub mod Trim
pub mod Decimal
use Prim.Native.Char.{code}
use Prim.Native.String.{String}
use sshcustom_magisk.Base.{
  ℕ, zero, suc, ◌+◌, ◌-◌, ◌*◌, ◌/◌, ◌%◌, Bool, true, false, not, ◌&&◌, ◌||◌, List, [], ◌∷◌, ◌++◌,
  Option, none, some, map, leb, ltb, ◌==◌, if◌then◌else◌, length, drop, take,
}

abbrev pub Text : Type 0
Text = List ℕ

-- The bytes of an ASCII literal.
abbrev pub codes : String → Text
codes String.[] = []
codes (String.◌∷◌ c s) = code c ∷ codes s

-- `a == b` on strings.
unfoldable pub eq_text : Text → Text → Bool
eq_text [] [] = true
eq_text (x ∷ xs) (y ∷ ys) = x == y && eq_text xs ys
eq_text _ _ = false

abbrev pub is_empty : Text → Bool
is_empty [] = true
is_empty (_ ∷ _) = false

unfoldable pub is_space : ℕ → Bool
is_space c = c == b' ' || (leb 9 c && leb c 13)

unfoldable pub trim_left : (ℕ → Bool) → Text → Text
trim_left p [] = []
trim_left p (c ∷ cs) = if p c then trim_left p cs else c ∷ cs

unfoldable pub trim_right : (ℕ → Bool) → Text → Text
trim_right p [] = []
trim_right p (c ∷ cs) = let rest = trim_right p cs in if is_empty rest && p c then [] else c ∷ rest

-- `strings.TrimFunc`, and `strings.Trim` when `p` tests the cutset.
unfoldable pub trim : (ℕ → Bool) → Text → Text
unfolding trim_left trim_right
trim p s = trim_right p (trim_left p s)

unfoldable pub trim_space : Text → Text
unfolding trim is_space
trim_space = trim is_space

unfoldable pub lower_byte : ℕ → ℕ
lower_byte c = if leb b'A' c && leb c b'Z' then c + 32 else c

-- `strings.ToLower`.
unfoldable pub lower : Text → Text
unfolding lower_byte
lower = map lower_byte

unfoldable pub has_prefix : Text → Text → Bool
has_prefix [] s = true
has_prefix (p ∷ ps) [] = false
has_prefix (p ∷ ps) (c ∷ cs) = p == c && has_prefix ps cs

-- `strings.Index`: where the first occurrence begins.
unfoldable pub index_of : Text → Text → Option ℕ
unfolding has_prefix
index_of n [] = if is_empty n then some 0 else none
index_of n (c ∷ cs) =
    let later = index_of n cs in
    if has_prefix n (c ∷ cs) then some 0 else elim later [ none ↦ none | some i ↦ some (suc i) ]

-- `strings.Contains(s, n)`, the text searched first as in Go.
unfoldable pub contains : Text → Text → Bool
unfolding has_prefix
contains [] n = is_empty n
contains (c ∷ cs) n = has_prefix n (c ∷ cs) || contains cs n

-- `strings.HasSuffix(s, n)`.
unfoldable pub has_suffix : Text → Text → Bool
unfolding eq_text
has_suffix n [] = is_empty n
has_suffix n (c ∷ cs) = eq_text n (c ∷ cs) || has_suffix n cs

-- `strings.ReplaceAll`; the number counts the bytes of a match that are still to be skipped.
unfoldable pub replace_from : ℕ → Text → Text → Text → Text
unfolding has_prefix
replace_from k old new [] = []
replace_from (suc k) old new (c ∷ cs) = replace_from k old new cs
replace_from zero old new (c ∷ cs) = elim (has_prefix old (c ∷ cs)) [
  | true ↦ new ++ replace_from (length old - 1) old new cs
  | false ↦ c ∷ replace_from zero old new cs
]

unfoldable pub replace_all : Text → Text → Text → Text
unfolding replace_from
replace_all = replace_from zero

-- What `strings.Split` does with one more byte in front of the pieces found so far.
abbrev pub push_first : ℕ → List Text → List Text
push_first c [] = (c ∷ []) ∷ []
push_first c (p ∷ ps) = (c ∷ p) ∷ ps

-- `strings.Split` at a one-byte separator.
unfoldable pub split : ℕ → Text → List Text
split sep [] = [] ∷ []
split sep (c ∷ cs) = let rest = split sep cs in if c == sep then [] ∷ rest else push_first c rest

abbrev drop_empty : List Text → List Text
drop_empty [] = []
drop_empty (p ∷ ps) = let rest = drop_empty ps in if is_empty p then rest else p ∷ rest

-- One byte in front of the pieces of `strings.FieldsFunc`: a separator closes the piece.
abbrev push_field : Bool → ℕ → List Text → List Text
push_field true c ps = [] ∷ ps
push_field false c ps = push_first c ps

split_by : (ℕ → Bool) → Text → List Text
split_by p [] = [] ∷ []
split_by p (c ∷ cs) = push_field (p c) c (split_by p cs)

-- `strings.FieldsFunc`: the maximal runs of bytes outside `p`.
unfoldable pub fields_by : (ℕ → Bool) → Text → List Text
unfolding split_by
fields_by p s = drop_empty (split_by p s)

-- `strings.Fields`.
unfoldable pub fields : Text → List Text
unfolding fields_by is_space
fields = fields_by is_space

-- `strings.Join`.
unfoldable pub join : Text → List Text → Text
join sep [] = []
join sep (p ∷ []) = p
join sep (p ∷ q ∷ ps) = p ++ (sep ++ join sep (q ∷ ps))

abbrev pub is_digit : ℕ → Bool
is_digit c = leb b'0' c && leb c b'9'

-- The decimal digits of `n`, with fuel; `itoa` gives more than it needs.
unfoldable pub itoa_fuel : ℕ → ℕ → Text
itoa_fuel zero n = []
itoa_fuel (suc f) n =
    let front = itoa_fuel f (n / 10) in
    if ltb n 10 then (b'0' + n) ∷ [] else front ++ ((b'0' + n % 10) ∷ [])

-- `strconv.Itoa` of a number that is not negative.
unfoldable pub itoa : ℕ → Text
unfolding itoa_fuel
itoa n = itoa_fuel (suc n) n

-- The value of a digit string, from the value of what was read before.
unfoldable pub digits_from : ℕ → Text → Option ℕ
digits_from acc [] = some acc
digits_from acc (c ∷ cs) =
    let rest = digits_from (acc * 10 + (c - b'0')) cs in if is_digit c then rest else none

-- `strconv.ParseUint(s, 10, ·)` without its range check: a non-empty string of digits.
unfoldable pub parse_digits : Text → Option ℕ
unfolding digits_from
parse_digits [] = none
parse_digits (c ∷ cs) = digits_from 0 (c ∷ cs)
