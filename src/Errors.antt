-- ===== src/Errors.antt =====
-- How the daemon of cmd/sshcustomd/main.go reads the texts of errors and of server messages.
use sshcustom_magisk.Base.{
  Bool, false, ◌||◌, List, [], ◌∷◌, ◌++◌, Option, none, some, ltb, if◌then◌else◌, length, take,
}
use sshcustom_magisk.Text.{Text, codes, contains, lower, trim_space, is_empty, itoa}

-- Does `s` contain one of the needles?
unfoldable pub contains_any : Text → List Text → Bool
unfolding contains
contains_any s [] = false
contains_any s (n ∷ ns) = contains s n || contains_any s ns

abbrev transient_needles : List Text
transient_needles =
    codes "network is unreachable"
    ∷ codes "no route to host"
    ∷ codes "connection timed out"
    ∷ codes "i/o timeout"
    ∷ codes "context deadline exceeded"
    ∷ codes "operation was canceled"
    ∷ codes "temporary failure in name resolution"
    ∷ codes "lookup"
    ∷ codes "dns"
    ∷ codes "read udp [::1]"
    ∷ codes "connection refused"
    ∷ []

-- `isNetworkTransientError`; `none` is the nil error.
unfoldable pub is_network_transient_error : Option Text → Bool
unfolding contains_any lower
is_network_transient_error none = false
is_network_transient_error (some err) = contains_any (lower err) transient_needles

abbrev broken_needles : List Text
broken_needles =
    codes "eof"
    ∷ codes "use of closed network connection"
    ∷ codes "unexpected packet"
    ∷ codes "connection reset"
    ∷ codes "broken pipe"
    ∷ codes "bad record mac"
    ∷ codes "error decoding message"
    ∷ codes "packet too large"
    ∷ codes "invalid packet length"
    ∷ []

-- `isSSHTransportBroken`.
unfoldable pub is_ssh_transport_broken : Option Text → Bool
unfolding contains_any lower
is_ssh_transport_broken none = false
is_ssh_transport_broken (some err) = contains_any (lower err) broken_needles

-- `shortBannerLog`.
unfoldable pub short_banner_log : Text → Text
unfolding contains_any lower trim_space itoa
short_banner_log message =
    let m = trim_space message in
    if is_empty m
    then []
    else if contains_any (lower m) (codes "<html" ∷ codes "<body" ∷ [])
    then codes "http/html banner suppressed (" ++ (itoa (length m) ++ codes " bytes)")
    else if ltb 160 (length m)
    then take 160 m ++ codes "..."
    else m
