-- ===== src/Net.antt =====
-- What the daemon uses of Go's package `net` on addresses, over texts of bytes.
use sshcustom_magisk.Base.{ℕ, suc, Bool, false, ◌||◌, [], ◌∷◌, ◌++◌, ◌==◌, if◌then◌else◌}
use sshcustom_magisk.Base.Int.{ℤ, pos, negsuc}
use sshcustom_magisk.Text.{Text, itoa}

unfoldable pub has_byte : ℕ → Text → Bool
has_byte b [] = false
has_byte b (c ∷ cs) = c == b || has_byte b cs

-- `net.JoinHostPort`.
unfoldable pub join_host_port : Text → Text → Text
unfolding has_byte
join_host_port host port =
    if has_byte b':' host then b'[' ∷ (host ++ (b']' ∷ b':' ∷ port)) else host ++ (b':' ∷ port)

-- `net.IPv4(a, b, c, d).String()`.
unfoldable pub ipv4_string : ℕ → ℕ → ℕ → ℕ → Text
unfolding itoa
ipv4_string a b c d = itoa a ++ (b'.' ∷ (itoa b ++ (b'.' ∷ (itoa c ++ (b'.' ∷ itoa d)))))

-- `strconv.Itoa` of a signed number.
unfoldable pub int_string : ℤ → Text
unfolding itoa
int_string (pos n) = itoa n
int_string (negsuc n) = b'-' ∷ itoa (suc n)
