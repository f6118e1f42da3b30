-- ===== src/Tests/SocksDialogue.antt =====
-- The theorems on the SOCKS5 dialogue, for one client.
use sshcustom_magisk.Base.{◌≡◌, refl, Bool, true, false, [], ◌∷◌, ◌++◌, arith}
use sshcustom_magisk.Text.{Text, codes, itoa}
use sshcustom_magisk.Net.{join_host_port}
use sshcustom_magisk.Socks.{
  ok, socks5_handshake, handle_socks5, greeting, connect_request, open_tunnel,
}
use sshcustom_magisk.Socks.RoundTrip.{conn, handshake-request}
use sshcustom_magisk.Socks.Dialogue.{answer, served, handle-request, open_tunnel-handle_socks5}
use sshcustom_magisk.Socks.Replies.{Told, handle_socks5-Told}

-- What stands for the printing of an IPv6 address.
abbrev no_ipv6 : Text → Text
no_ipv6 bytes = bytes

abbrev host : Text
host = codes "example.org"

abbrev data_bytes : Text
data_bytes = 22 ∷ 3 ∷ 1 ∷ []

abbrev input : Text
input = greeting ++ (connect_request host 443 ++ data_bytes)

abbrev target : Text
target = join_host_port host (itoa 443)

abbrev refuse : Text → Bool
refuse _ = false

handshake-request_example :
    socks5_handshake no_ipv6 (conn input []) ≡ (ok target, conn data_bytes (5 ∷ 0 ∷ []))
handshake-request_example =
    handshake-request no_ipv6 host 443 data_bytes [] (omega arith) (omega arith) (omega arith)

handle-request_example :
    handle_socks5 no_ipv6 refuse (conn input [])
    ≡ (served false target, conn data_bytes (answer false))
handle-request_example =
    handle-request no_ipv6 refuse host 443 data_bytes [] (omega arith) (omega arith) (omega arith)

abbrev accept : Text → Bool
accept _ = true

abbrev sent : Text
sent = greeting ++ connect_request host 443

open_tunnel-handle_socks5_example :
    ((handle_socks5 no_ipv6 accept (conn (sent ++ data_bytes) [])).0 ≡ served true target)
    × ((handle_socks5 no_ipv6 accept (conn (sent ++ data_bytes) [])).1.input ≡ data_bytes)
    × (open_tunnel host 443 (
          conn
            ((handle_socks5 no_ipv6 accept (conn (sent ++ data_bytes) [])).1.output ++ data_bytes)
            [])
        ≡ (ok tt, conn data_bytes sent))
open_tunnel-handle_socks5_example =
    open_tunnel-handle_socks5 no_ipv6 accept host 443 data_bytes data_bytes (omega arith)
      (omega arith) (omega arith)

handle_socks5-Told_example :
    Told refuse [] (handle_socks5 no_ipv6 refuse (conn (5 ∷ 1 ∷ 0 ∷ []) []))
handle_socks5-Told_example = handle_socks5-Told no_ipv6 refuse (conn (5 ∷ 1 ∷ 0 ∷ []) []) refl
