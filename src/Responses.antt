-- ===== src/Responses.antt =====
-- What the daemon reads in the bytes that come back before SSH (cmd/sshcustomd/main.go): HTTP
-- status codes, the SSH banner, whether the codes are allowed, and the preview for the log.
pub mod Allowed
pub mod Shown
use sshcustom_magisk.Base.{
  ℕ, zero, suc, Bool, true, false, not, ◌&&◌, ◌||◌, List, [], ◌∷◌, ◌++◌, Option, none, some, ltb,
  leb, ◌==◌, if◌then◌else◌, length, take, drop,
}
use sshcustom_magisk.Base.Int.{ℤ, pos, negsuc}
use sshcustom_magisk.Text.{
  Text, codes, is_empty, trim_space, has_prefix, index_of, replace_all, split, fields, parse_digits,
}

abbrev pub crlf : Text
crlf = 13 ∷ 10 ∷ []

abbrev pub lf : Text
lf = 10 ∷ []

abbrev positive : Option ℕ → Option ℤ
positive none = none
positive (some n) = if leb n 9223372036854775807 then some (pos n) else none

abbrev negative : Option ℕ → Option ℤ
negative none = none
negative (some zero) = some (pos 0)
negative (some (suc n)) = if leb n 9223372036854775807 then some (negsuc n) else none

-- `strconv.Atoi` for a 64-bit `int`: digits, with a sign or none in front.
unfoldable pub atoi : Text → Option ℤ
unfolding parse_digits
atoi [] = none
atoi (c ∷ cs) =
    if c == b'+'
    then positive (parse_digits cs)
    else if c == b'-'
    then negative (parse_digits cs)
    else positive (parse_digits (c ∷ cs))

abbrev pub put_status : Option ℤ → List ℤ → List ℤ
put_status none rest = rest
put_status (some n) rest = n ∷ rest

-- The code in the words of a status line.
abbrev code_in : List Text → Option ℤ
code_in [] = none
code_in (_ ∷ []) = none
code_in (_ ∷ word ∷ _) = atoi word

unfoldable pub status_of : Text → Option ℤ
unfolding trim_space has_prefix fields atoi
status_of line =
    let line = trim_space line in
    if has_prefix (codes "HTTP/") line then code_in (fields line) else none

unfoldable pub statuses_of : List Text → List ℤ
unfolding status_of
statuses_of [] = []
statuses_of (line ∷ lines) = put_status (status_of line) (statuses_of lines)

-- `extractHTTPStatuses`.
unfoldable pub extract_http_statuses : Text → List ℤ
unfolding statuses_of split replace_all
extract_http_statuses s = statuses_of (split 10 (replace_all crlf lf s))

-- The banner in the text from "SSH-" on, by where "\r\n" and "\n" stand in it.
abbrev pub banner_in : Text → Option ℕ → Option ℕ → Text
banner_in tail (some j) _ = trim_space (take j tail)
banner_in tail none (some j) = trim_space (take j tail)
banner_in tail none none = trim_space (if ltb 120 (length tail) then take 120 tail else tail)

abbrev pub banner_from : Text → Option ℕ → Text
banner_from s none = []
banner_from s (some i) =
    let tail = drop i s in banner_in tail (index_of crlf tail) (index_of lf tail)

-- `extractSSHBanner`.
unfoldable pub extract_ssh_banner : Text → Text
unfolding index_of trim_space
extract_ssh_banner s = banner_from s (index_of (codes "SSH-") s)

abbrev pub eq_int : ℤ → ℤ → Bool
eq_int (pos m) (pos n) = m == n
eq_int (negsuc m) (negsuc n) = m == n
eq_int _ _ = false

-- `set[n]`.
abbrev pub in_set : ℤ → List ℤ → Bool
in_set n [] = false
in_set n (x ∷ xs) = eq_int x n || in_set n xs

abbrev pub all_in : List ℤ → List ℤ → Bool
all_in [] allowed = true
all_in (n ∷ got) allowed = if not (in_set n allowed) then false else all_in got allowed

-- `allowedStatuses`.
unfoldable pub allowed_statuses : List ℤ → List ℤ → Bool
allowed_statuses [] allowed = true
allowed_statuses (n ∷ got) [] = true
allowed_statuses (n ∷ got) (m ∷ allowed) = all_in (n ∷ got) (m ∷ allowed)

-- `preview`.
unfoldable pub preview : Text → Text
unfolding replace_all
preview b =
    let s = replace_all lf (codes "\\n") (replace_all (13 ∷ []) (codes "\\r") b) in
    if ltb 500 (length s) then take 500 s ++ codes "..." else s

abbrev pub first_field : List Text → Text
first_field [] = []
first_field (word ∷ _) = word

-- `publicIPASN`.
unfoldable pub public_ip_asn : Text → Text
unfolding trim_space fields
public_ip_asn raw =
    let raw = trim_space raw in if is_empty raw then [] else first_field (fields raw)
