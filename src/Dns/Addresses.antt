-- ===== src/Dns/Addresses.antt =====
-- The lists of IPv4 addresses in internal/dnsx/dnsx.go and cmd/sshcustomd/main.go. What an IPv4
-- address is, and how it is printed, is Go's `net.ParseIP` with `To4` and `String`: a parameter.
pub mod Sets
use sshcustom_magisk.Base.{
  ℕ, ◌%◌, not, ◌||◌, List, [], ◌∷◌, ◌++◌, Option, none, some, leb, ◌==◌, if◌then◌else◌, length,
  take, drop,
}
use sshcustom_magisk.Text.{Text, trim_space, fields_by, is_digit}
use sshcustom_magisk.Profiles.{one_of}

-- `appendUnique`.
unfoldable pub append_unique : List Text → Text → List Text
unfolding one_of
append_unique xs v = if one_of v xs then xs else xs ++ (v ∷ [])

abbrev pub put_ip : List Text → Option Text → List Text
put_ip out none = out
put_ip out (some ip) = append_unique out ip

-- `RotateIPs`, with the time that it reads in nanoseconds.
unfoldable pub rotate_ips : ℕ → List Text → List Text
rotate_ips nanos ips =
    let off = nanos % length ips in if leb (length ips) 1 then ips else drop off ips ++ take off ips

module _ (ipv4 : Text → Option Text) where
  -- The loop of `SanitizeIPv4List`.
  unfoldable pub sanitize_from : List Text → List Text → List Text
  unfolding append_unique trim_space
  sanitize_from out [] = out
  sanitize_from out (s ∷ ips) = sanitize_from (put_ip out (ipv4 (trim_space s))) ips

  -- `SanitizeIPv4List`.
  unfoldable pub sanitize_ipv4_list : List Text → List Text
  unfolding sanitize_from
  sanitize_ipv4_list = sanitize_from []

  unfoldable pub extract_from : List Text → List Text → List Text
  unfolding append_unique
  extract_from out [] = out
  extract_from out (f ∷ fields) = extract_from (put_ip out (ipv4 f)) fields

  -- `ExtractIPv4s`.
  unfoldable pub extract_ipv4s : Text → List Text
  unfolding extract_from fields_by
  extract_ipv4s s = extract_from [] (fields_by (λ c. not (c == b'.' || is_digit c)) s)
