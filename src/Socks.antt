-- ===== src/Socks.antt =====
-- The SOCKS5 server of cmd/sshcustomd/main.go (`socks5Handshake`, `socks5Reply`,
-- `handleSocks5Conn`), and the SOCKS5 client that it uses to look up its own public address
-- (`fetchHTTPViaLocalSOCKS`, `readSOCKS5ConnectReply`).
pub mod RoundTrip
pub mod Dialogue
pub mod Replies
use sshcustom_magisk.Base.{
  ℕ, zero, suc, ◌+◌, ◌-◌, ◌*◌, ◌/◌, ◌%◌, Bool, true, false, not, ◌&&◌, ◌||◌, List, [], ◌∷◌, ◌++◌,
  Option, none, some, ltb, leb, ◌==◌, if◌then◌else◌, length, take, drop,
}
use sshcustom_magisk.Net.{join_host_port, ipv4_string}
use sshcustom_magisk.Text.{Text, itoa, is_empty}

-- One side of a connection: the bytes that are still to come before the peer stops sending, the
-- bytes that were sent, and whether sending works.
pub record Conn : Type 0 where
  pub input : Text
  pub output : Text
  pub writable : Bool

pub data SocksError : Type 0 where
  read_failed write_failed invalid_methods empty_domain host_too_long auth_rejected : SocksError
  bad_version unsupported_command unsupported_address connect_failed : ℕ → SocksError

pub data Outcome {ℓ} (A : Type ℓ) : Type ℓ where
  ok : A → Outcome A
  err : SocksError → Outcome A

-- Code that reads from and writes to a connection, and may return early with an error.
abbrev pub Io : Type 0 → Type 0
Io A = Conn → Outcome A × Conn

-- What follows a step, on the step's result.
abbrev pub follow : {A B : Type 0} → (A → Io B) → Outcome A × Conn → Outcome B × Conn
follow f (ok a, c) = f a c
follow f (err e, c) = (err e, c)

infixl 5 ◌>>=◌ ◌>>◌
abbrev pub ◌>>=◌ : {A B : Type 0} → Io A → (A → Io B) → Io B
◌>>=◌ m f c = follow f (m c)

abbrev pub ◌>>◌ : {B : Type 0} → Io (Unit {0}) → Io B → Io B
◌>>◌ m k c = follow (λ _. k) (m c)

abbrev pub pure : {A : Type 0} → A → Io A
pure a c = (ok a, c)

abbrev pub fail : {A : Type 0} → SocksError → Io A
fail e c = (err e, c)

abbrev pub check : Bool → SocksError → Io (Unit {0})
check true e c = (ok tt, c)
check false e c = (err e, c)

-- `io.ReadFull` into a slice of `n` bytes; what a short read has taken is lost.
unfoldable pub read_full : ℕ → Io Text
read_full n c =
    if leb n (length c.input)
    then (ok (take n c.input), record c { input = drop n c.input })
    else (err read_failed, record c { input = [] })

-- `c.Write`.
unfoldable pub write : Text → Io (Unit {0})
write bytes c =
    if c.writable then (ok tt, record c { output = c.output ++ bytes }) else (err write_failed, c)

-- A write whose error is dropped, `_ = …`.
unfoldable pub try_write : Text → Io (Unit {0})
try_write bytes c = (ok tt, if c.writable then record c { output = c.output ++ bytes } else c)

-- `buf[i]`.
abbrev pub byte_at : ℕ → Text → ℕ
byte_at i [] = 0
byte_at zero (b ∷ bs) = b
byte_at (suc i) (b ∷ bs) = byte_at i bs

-- The bytes of `socks5Reply`.
abbrev pub reply_bytes : ℕ → Text
reply_bytes rep = 5 ∷ rep ∷ 0 ∷ 1 ∷ 0 ∷ 0 ∷ 0 ∷ 0 ∷ 0 ∷ 0 ∷ []

-- The replies "command not supported" and "address type not supported", and what follows them.
unfoldable pub reject : {A : Type 0} → ℕ → SocksError → Io A
unfolding try_write
reject rep e = do try_write (reply_bytes rep); fail e

-- The methods' offer and the answer to it.
unfoldable pub greet : Io (Unit {0})
unfolding write
greet = do
  head ← read_full 2
  check (byte_at 0 head == 5) (bad_version (byte_at 0 head))
  check (leb 1 (byte_at 1 head) && leb (byte_at 1 head) 255) invalid_methods
  methods ← read_full (byte_at 1 head)
  write (5 ∷ 0 ∷ [])

unfoldable pub read_ipv4 : Io Text
unfolding ipv4_string
read_ipv4 = do
  b ← read_full 4
  pure (ipv4_string (byte_at 0 b) (byte_at 1 b) (byte_at 2 b) (byte_at 3 b))

unfoldable pub read_domain : Io Text
read_domain = do l ← read_full 1; check (ltb 0 (byte_at 0 l)) empty_domain; read_full (byte_at 0 l)

-- `net.IP(buf[:16]).String()` is a parameter.
unfoldable pub read_ipv6 : (Text → Text) → Io Text
read_ipv6 ipv6_string = do b ← read_full 16; pure (ipv6_string b)

-- The `switch` on the type of the address.
unfoldable pub read_host : (Text → Text) → ℕ → Io Text
unfolding read_ipv4 read_domain read_ipv6 reject
read_host ipv6_string atyp =
    if atyp == 1
    then read_ipv4
    else if atyp == 3
    then read_domain
    else if atyp == 4
    then read_ipv6 ipv6_string
    else reject 8 (unsupported_address atyp)

-- The request's head: version, command and address type; the type is returned.
unfoldable pub read_request : Io ℕ
unfolding reject
read_request = do
  head ← read_full 4
  check (byte_at 0 head == 5) (bad_version (byte_at 0 head))
  if byte_at 1 head == 1
      then pure (byte_at 3 head)
      else reject 7 (unsupported_command (byte_at 1 head))

-- `int(buf[0])<<8 | int(buf[1])`: the low byte falls on bits that are 0.
unfoldable pub port_of : Text → ℕ
port_of b = byte_at 0 b * 256 + byte_at 1 b

-- `socks5Handshake`.
unfoldable pub socks5_handshake : (Text → Text) → Io Text
unfolding greet read_request read_host port_of join_host_port
socks5_handshake ipv6_string = do
  greet
  atyp ← read_request
  host ← read_host ipv6_string atyp
  port ← read_full 2
  pure (join_host_port host (itoa (port_of port)))

-- How `handleSocks5Conn` ends: nothing but the handshake, a refusal, or the start of the copying
-- between the two connections.
pub data Served : Type 0 where
  dropped : SocksError → Served
  refused : Text → Served
  piped : Text → Served

-- What `handleSocks5Conn` does with the result of the handshake.
unfoldable pub serve : (Text → Bool) → Outcome Text × Conn → Served × Conn
serve dial (err e, c) = (dropped e, c)
serve dial (ok target, c) =
    if dial target
    then (piped target, (try_write (reply_bytes 0) c).1)
    else (refused target, (try_write (reply_bytes 5) c).1)

-- `handleSocks5Conn`; `dial` tells whether the pool opens a stream to a target.
unfoldable pub handle_socks5 : (Text → Text) → (Text → Bool) → Conn → Served × Conn
unfolding serve
handle_socks5 ipv6_string dial c = serve dial (socks5_handshake ipv6_string c)

-- The client's offer.
abbrev pub greeting : Text
greeting = 5 ∷ 1 ∷ 0 ∷ []

-- The client's request for a name and a port; `byte(n)` keeps the low eight bits.
unfoldable pub connect_request : Text → ℕ → Text
connect_request host port =
    5 ∷ 1 ∷ 0 ∷ 3 ∷ (length host % 256) ∷ (host ++ (((port / 256) % 256) ∷ (port % 256) ∷ []))

-- The bytes of the address in a reply.
unfoldable pub reply_skip : ℕ → Io ℕ
reply_skip atyp =
    if atyp == 1
    then pure 4
    else if atyp == 3
    then (do l ← read_full 1; pure (byte_at 0 l))
    else if atyp == 4
    then pure 16
    else fail (unsupported_address atyp)

-- `readSOCKS5ConnectReply`; `io.CopyN` into `io.Discard` fails like a short read.
unfoldable pub read_connect_reply : Io (Unit {0})
unfolding reply_skip
read_connect_reply = do
  head ← read_full 4
  check (byte_at 0 head == 5) (bad_version (byte_at 0 head))
  check (byte_at 1 head == 0) (connect_failed (byte_at 1 head))
  skip ← reply_skip (byte_at 3 head)
  address ← read_full skip
  port ← read_full 2
  pure tt

-- `fetchHTTPViaLocalSOCKS` from the connection to the proxy up to the HTTP request.
unfoldable pub open_tunnel : Text → ℕ → Io (Unit {0})
unfolding connect_request
open_tunnel host port = do
  write greeting
  reply ← read_full 2
  check (byte_at 0 reply == 5 && byte_at 1 reply == 0) auth_rejected
  check (leb (length host) 255) host_too_long
  write (connect_request host port)
  read_connect_reply
