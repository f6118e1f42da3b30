-- ===== src/Socks/RoundTrip.antt =====
-- The server reads the client's request, and the client the server's reply.
use sshcustom_magisk.Base.{
  ℕ, ◌/◌, ◌%◌, ◌≤◌, ◌<◌, ◌≡◌, true, [], ◌∷◌, ◌++◌, arith, leb, ltb, length, length-append,
  take-append, drop-append, append_assoc,
}
use sshcustom_magisk.Net.{join_host_port}
use sshcustom_magisk.Text.{Text, itoa}
use sshcustom_magisk.Socks.{
  Conn, ok, read_full, write, greet, read_request, read_host, read_domain, port_of,
  socks5_handshake, greeting, connect_request,
}

-- A connection that can be written to.
abbrev pub conn : Text → Text → Conn
conn input output = record { input = input; output = output; writable = true }

-- A read takes what stands in front.
pub read_full-append :
    (xs rest out : Text) → read_full (length xs) (conn (xs ++ rest) out) ≡ (ok xs, conn rest out)
unfolding read_full
read_full-append xs rest out =
    let fits : leb (length xs) (length (xs ++ rest)) ≡ true =
      ground (arith, length-append xs rest) in
    rw fits (rw (take-append xs rest, drop-append xs rest))

pub greet_lem :
    (rest out : Text)
    → greet (conn (greeting ++ rest) out) ≡ (ok tt, conn rest (out ++ (5 ∷ 0 ∷ [])))
unfolding greet write
greet_lem rest out =
    rw (read_full-append (5 ∷ 1 ∷ []) (0 ∷ rest) out) (rw (read_full-append (0 ∷ []) rest out))

read_request_lem :
    (n : ℕ) (rest out : Text)
    → read_request (conn (5 ∷ 1 ∷ 0 ∷ n ∷ rest) out) ≡ (ok n, conn rest out)
unfolding read_request
read_request_lem n rest out = rw (read_full-append (5 ∷ 1 ∷ 0 ∷ n ∷ []) rest out)

read_domain_lem :
    (host rest out : Text)
    → 1 ≤ length host
    → read_domain (conn (length host ∷ (host ++ rest)) out) ≡ (ok host, conn rest out)
unfolding read_domain
read_domain_lem host rest out h =
    let some_name : ltb 0 (length host) ≡ true = ground arith in
    rw (read_full-append (length host ∷ []) (host ++ rest) out)
      (rw some_name (read_full-append host rest out))

port_lem : (port : ℕ) → port < 65536 → port_of (((port / 256) % 256) ∷ (port % 256) ∷ []) ≡ port
unfolding port_of
port_lem port h = omega arith

-- The request without the greeting, as its parts.
request_parts :
    (host rest : Text) (port : ℕ)
    → length host ≤ 255
    → connect_request host port ++ rest
      ≡ 5
        ∷ 1
        ∷ 0
        ∷ 3
        ∷ (length host ∷ (host ++ ((((port / 256) % 256) ∷ (port % 256) ∷ []) ++ rest)))
unfolding connect_request
request_parts host rest port h =
    let small : length host % 256 ≡ length host = omega arith in rw (small, append_assoc)

-- The server's handshake on what the client sends for a name of 1 to 255 bytes and a 16-bit port:
-- it ends with that target, takes no byte behind the request, and sends only its choice of method.
pub handshake-request :
    (ipv6_string : Text → Text) (host : Text) (port : ℕ) (rest out : Text)
    → 1 ≤ length host
    → length host ≤ 255
    → port < 65536
    → socks5_handshake ipv6_string (conn (greeting ++ (connect_request host port ++ rest)) out)
      ≡ (ok (join_host_port host (itoa port)), conn rest (out ++ (5 ∷ 0 ∷ [])))
unfolding socks5_handshake read_host
handshake-request ipv6_string host port rest out some_name fits h =
    let port_bytes = ((port / 256) % 256) ∷ (port % 256) ∷ [] in
    let out' = out ++ (5 ∷ 0 ∷ []) in
    rw (greet_lem (connect_request host port ++ rest) out) (
      rw (request_parts host rest port fits) (
        rw (read_request_lem 3 (length host ∷ (host ++ (port_bytes ++ rest))) out') (
          rw (read_domain_lem host (port_bytes ++ rest) out' some_name)
            (rw (read_full-append port_bytes rest out') (rw (port_lem port h))))))
