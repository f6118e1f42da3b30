-- ===== src/Responses/Shown.antt =====
-- The banner of a server that speaks SSH at once, and what a preview can hold.
use sshcustom_magisk.Base.{
  ℕ, zero, suc, ◌≤◌, ◌≡◌, refl, false, [], ◌∷◌, ◌++◌, some, arith, ltb, ◌==◌, if◌then◌else◌, length,
  take, take-append, All, Bool-cases, inl, inr, length-append,
}
use sshcustom_magisk.Text.{Text, codes, trim_space, has_prefix, index_of, replace_from, replace_all}
use sshcustom_magisk.Responses.{crlf, extract_ssh_banner, preview}

index_of-crlf :
    (line more : Text)
    → All (λ c. (13 == c) ≡ false) line
    → index_of crlf (line ++ (crlf ++ more)) ≡ some (length line)
unfolding index_of has_prefix
index_of-crlf [] more h = refl
index_of-crlf (c ∷ line) more (h, hs) = rw (h, index_of-crlf line more hs) refl

-- A server that sends a line first: the banner is that line, when it begins with "SSH-", has no
-- carriage return and no spaces around it, and ends in "\r\n", whatever follows.
pub extract_ssh_banner-line :
    (version more : Text)
    → let line = codes "SSH-" ++ version in
      All (λ c. (13 == c) ≡ false) version
      → trim_space line ≡ line
      → extract_ssh_banner (line ++ (crlf ++ more)) ≡ line
unfolding extract_ssh_banner
extract_ssh_banner-line version more plain trimmed =
    rw (index_of-crlf version more plain, take-append version (crlf ++ more)) trimmed

abbrev IsPlain : ℕ → Text → Type 0
IsPlain b = All (λ c. (b == c) ≡ false)

IsPlain-append : (b : ℕ) (xs ys : Text) → IsPlain b xs → IsPlain b ys → IsPlain b (xs ++ ys)
IsPlain-append b [] ys h k = k
IsPlain-append b (x ∷ xs) ys (h, hs) k = (h, IsPlain-append b xs ys hs k)

IsPlain-take : (b n : ℕ) (xs : Text) → IsPlain b xs → IsPlain b (take n xs)
IsPlain-take b zero xs h = tt
IsPlain-take b (suc n) [] h = tt
IsPlain-take b (suc n) (x ∷ xs) (h, hs) = (h, IsPlain-take b n xs hs)

-- A byte that is replaced by a text without it is gone.
replaced-gone :
    (b : ℕ) (new s : Text) → IsPlain b new → IsPlain b (replace_from zero (b ∷ []) new s)
unfolding replace_from has_prefix
replaced-gone b new [] h = tt
replaced-gone b new (c ∷ s) h = elim (Bool-cases (b == c)) [
  | inl e ↦ rw (e, replace_from) (IsPlain-append b new _ h (replaced-gone b new s h))
  | inr e ↦ rw (e, replace_from) (e, replaced-gone b new s h)
]

-- Another byte that is in neither text stays absent.
replaced-absent :
    (a b : ℕ) (new s : Text)
    → IsPlain a new
    → IsPlain a s
    → IsPlain a (replace_from zero (b ∷ []) new s)
unfolding replace_from has_prefix
replaced-absent a b new [] h k = tt
replaced-absent a b new (c ∷ s) h (k, ks) = elim (Bool-cases (b == c)) [
  | inl e ↦ rw (e, replace_from) (IsPlain-append a new _ h (replaced-absent a b new s h ks))
  | inr e ↦ rw (e, replace_from) (k, replaced-absent a b new s h ks)
]

take_most : (n : ℕ) (s : Text) → length (take n s) ≤ n
take_most zero s = omega arith
take_most (suc n) [] = omega arith
take_most (suc n) (c ∷ s) = omega (arith, take_most n s)

shown :
    (s : Text) (a : ℕ)
    → IsPlain a s
    → IsPlain a (codes "...")
    → IsPlain a (if ltb 500 (length s) then take 500 s ++ codes "..." else s)
shown s a h dots = elim (Bool-cases (ltb 500 (length s))) [
  | inl long ↦ rw long (IsPlain-append a (take 500 s) (codes "...") (IsPlain-take a 500 s h) dots)
  | inr short ↦ rw short h
]

-- A preview has at most 503 bytes, and no line feed or carriage return among them.
pub preview_shown :
    (b : Text)
    → (length (preview b) ≤ 503)
      × All (λ c. (10 == c) ≡ false) (preview b)
      × All (λ c. (13 == c) ≡ false) (preview b)
unfolding preview replace_all
preview_shown b =
    let one = replace_from zero (13 ∷ []) (codes "\\r") b in
    let s = replace_from zero (10 ∷ []) (codes "\\n") one in
    let cut : length (if ltb 500 (length s) then take 500 s ++ codes "..." else s) ≤ 503 =
      elim (Bool-cases (ltb 500 (length s))) [
        | inl long ↦
            rw long (omega (arith, length-append (take 500 s) (codes "..."), take_most 500 s))
        | inr short ↦ rw short (ground arith)
      ] in
    (
      cut,
      shown s 10 (replaced-gone 10 (codes "\\n") one (refl, (refl, tt))) (refl, (refl, (refl, tt))),
      shown s 13
          (replaced-absent 13 10 (codes "\\n") one (refl, (refl, tt))
            (replaced-gone 13 (codes "\\r") b (refl, (refl, tt))))
          (refl, (refl, (refl, tt))),
    )
