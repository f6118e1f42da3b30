-- ===== src/Tests/Bytes.antt =====
-- The theorems on copying and on what is read before SSH, at small inputs.
use sshcustom_magisk.Base.{arith, ◌≡◌, ◌≤◌, refl, ◌↔◌, ◌⊎◌, [], ◌∷◌, ◌++◌, none, length, All, true}
use sshcustom_magisk.Base.Int.{pos}
use sshcustom_magisk.Text.{Text, codes, trim_space}
use sshcustom_magisk.Streams.{Written, write_all}
use sshcustom_magisk.Streams.Writing.{Ended, write_all-Ended}
use sshcustom_magisk.Responses.{allowed_statuses, extract_ssh_banner, crlf}
use sshcustom_magisk.Responses.Allowed.{IsIn, allowed_statuses_iff}
use sshcustom_magisk.Responses.Shown.{extract_ssh_banner-line}

-- A connection that takes one byte at a time; what it has taken is kept.
abbrev trickle : Text → Text → Text × Written
trickle taken [] = (taken, (0, none))
trickle taken (c ∷ b) = (taken ++ (c ∷ []), (1, none))

trickle-honest : (taken b : Text) → (trickle taken b).1.0 ≤ length b
trickle-honest taken [] = omega arith
trickle-honest taken (c ∷ b) = omega arith

write_all-Ended_example : Ended 0 3 (write_all trickle [] (codes "abc")).1
write_all-Ended_example = write_all-Ended trickle trickle-honest [] (codes "abc")

allowed_statuses_iff_example :
    (allowed_statuses (pos 200 ∷ []) (pos 101 ∷ pos 200 ∷ []) ≡ true)
    ↔ ((pos 101 ∷ pos 200 ∷ [] ≡ []) ⊎ All (λ n. IsIn n (pos 101 ∷ pos 200 ∷ [])) (pos 200 ∷ []))
allowed_statuses_iff_example = allowed_statuses_iff (pos 200 ∷ []) (pos 101 ∷ pos 200 ∷ [])

extract_ssh_banner-line_example :
    extract_ssh_banner ((codes "SSH-" ++ codes "2.0") ++ (crlf ++ codes "key exchange"))
    ≡ codes "SSH-" ++ codes "2.0"
unfolding trim_space
extract_ssh_banner-line_example =
    extract_ssh_banner-line (codes "2.0") (codes "key exchange") (refl, (refl, (refl, tt))) refl
