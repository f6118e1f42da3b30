-- ===== src/Socks/Dialogue.antt =====
-- The server's answer to a whole request, and what the client makes of it.
use sshcustom_magisk.Base.{
  ℕ, ◌≤◌, ◌<◌, ◌≡◌, Bool, true, false, [], ◌∷◌, ◌++◌, arith, ◌==◌, leb, length, drop, append_assoc,
  if◌then◌else◌, Bool-cases, inl, inr,
}
use sshcustom_magisk.Net.{join_host_port}
use sshcustom_magisk.Text.{Text, itoa}
use sshcustom_magisk.Socks.{
  ok, err, write, try_write, greeting, connect_request, reply_bytes, read_connect_reply, reply_skip,
  connect_failed, Served, piped, refused, handle_socks5, open_tunnel,
}
use sshcustom_magisk.Socks.RoundTrip.{conn, read_full-append, handshake-request}

-- The answer of the server to a request: its choice of method, then success or "refused".
abbrev pub answer : Bool → Text
answer true = 5 ∷ 0 ∷ reply_bytes 0
answer false = 5 ∷ 0 ∷ reply_bytes 5

abbrev pub served : Bool → Text → Served
served true target = piped target
served false target = refused target

-- `handleSocks5Conn` on what the client sends for a name of 1 to 255 bytes and a 16-bit port: it
-- asks the pool for the client's target, tells the client whether that has worked, and copies the
-- bytes behind the request only if it has.
pub handle-request :
    (ipv6_string : Text → Text) (dial : Text → Bool) (host : Text) (port : ℕ) (rest out : Text)
    → 1 ≤ length host
    → length host ≤ 255
    → port < 65536
    → let target = join_host_port host (itoa port) in
      handle_socks5 ipv6_string dial (conn (greeting ++ (connect_request host port ++ rest)) out)
      ≡ (served (dial target) target, conn rest (out ++ answer (dial target)))
unfolding handle_socks5 try_write
handle-request ipv6_string dial host port rest out some_name fits h =
    let target = join_host_port host (itoa port) in
    elim (Bool-cases (dial target)) [
      | inl opens ↦
          rw (handshake-request ipv6_string host port rest out some_name fits h)
            (rw (opens, append_assoc))
      | inr fails ↦
          rw (handshake-request ipv6_string host port rest out some_name fits h)
            (rw (fails, append_assoc))
    ]

-- The client takes the reply 0 as success and any other as a failure with that code; it takes no
-- byte behind a reply that it accepts.
pub read-reply_bytes :
    (rep : ℕ) (rest out : Text)
    → read_connect_reply (conn (reply_bytes rep ++ rest) out) ≡ (
        if rep == 0
        then (ok tt, conn rest out)
        else (err (connect_failed rep), conn (drop 4 (reply_bytes rep) ++ rest) out))
unfolding read_connect_reply reply_skip
read-reply_bytes rep rest out = elim (Bool-cases (rep == 0)) [
  | inl good ↦ rw (read_full-append (5 ∷ rep ∷ 0 ∷ 1 ∷ []) (0 ∷ 0 ∷ 0 ∷ 0 ∷ 0 ∷ 0 ∷ rest) out) (
      rw good (
        rw (read_full-append (0 ∷ 0 ∷ 0 ∷ 0 ∷ []) (0 ∷ 0 ∷ rest) out)
          (rw (read_full-append (0 ∷ 0 ∷ []) rest out))))
  | inr bad ↦
      rw (read_full-append (5 ∷ rep ∷ 0 ∷ 1 ∷ []) (0 ∷ 0 ∷ 0 ∷ 0 ∷ 0 ∷ 0 ∷ rest) out) (rw bad)
]

-- The client on an answer of the server.
tunnel-answer :
    (dialled : Bool) (host : Text) (port : ℕ) (rest : Text)
    → length host ≤ 255
    → open_tunnel host port (conn (answer dialled ++ rest) []) ≡ (
      if dialled then ok tt else err (connect_failed 5),
      conn
          (if dialled then rest else drop 4 (reply_bytes 5) ++ rest)
          (greeting ++ connect_request host port),
    )
unfolding open_tunnel write
tunnel-answer true host port rest fits =
    let short : leb (length host) 255 ≡ true = ground arith in
    rw (read_full-append (5 ∷ 0 ∷ []) (reply_bytes 0 ++ rest) greeting)
      (rw short (read-reply_bytes 0 rest (greeting ++ connect_request host port)))
tunnel-answer false host port rest fits =
    let short : leb (length host) 255 ≡ true = ground arith in
    rw (read_full-append (5 ∷ 0 ∷ []) (reply_bytes 5 ++ rest) greeting)
      (rw short (read-reply_bytes 5 rest (greeting ++ connect_request host port)))

-- The client's dialogue with the server, for a name of 1 to 255 bytes and a 16-bit port: the client
-- that gets what `handleSocks5Conn` sends, with `back` behind it, sends what the server was given in
-- front of `rest`, and goes on exactly if the server's pool has opened the stream to the client's
-- target. It then has `back` before it, and the server copies `rest`.
pub open_tunnel-handle_socks5 :
    (ipv6_string : Text → Text) (dial : Text → Bool) (host : Text) (port : ℕ) (rest back : Text)
    → 1 ≤ length host
    → length host ≤ 255
    → port < 65536
    → let target = join_host_port host (itoa port) in
      let sent = greeting ++ connect_request host port in
      let server = handle_socks5 ipv6_string dial (conn (sent ++ rest) []) in
      (server.0 ≡ served (dial target) target)
      × (server.1.input ≡ rest)
      × (open_tunnel host port (conn (server.1.output ++ back) []) ≡ (
        if dial target then ok tt else err (connect_failed 5),
        conn (if dial target then back else drop 4 (reply_bytes 5) ++ back) sent,
      ))
open_tunnel-handle_socks5 ipv6_string dial host port rest back some_name fits h =
    let target = join_host_port host (itoa port) in
    rw (append_assoc greeting (connect_request host port) rest) (
      rw (handle-request ipv6_string dial host port rest [] some_name fits h) (
        λ i. served (dial target) target,
        λ i. rest,
        tunnel-answer (dial target) host port back fits,
      ))
