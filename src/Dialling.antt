-- ===== src/Dialling.antt =====
-- How the daemon opens a connection for SSH (cmd/sshcustomd/main.go): the outside world that it
-- meets, the record of what it does there, and code that may end with an error. The parts are in
-- the child modules.
pub mod Tcp
pub mod Payload
pub mod Prepare
pub mod Opened
pub mod Live
pub mod Balanced
use sshcustom_magisk.Base.{
  ℕ, Bool, true, false, List, [], ◌∷◌, Option, none, some, ◌==◌, if◌then◌else◌, length,
}
use sshcustom_magisk.Base.Int.{ℤ}
use sshcustom_magisk.Text.{Text}
use sshcustom_magisk.Dns.{HostCache, World}
use sshcustom_magisk.Pool.System.{ProbeResult}
use sshcustom_magisk.Profiles.Transport.{EndpointError}

-- What has been done on connections, a number standing for each; the latest stands first.
pub data Event : Type 0 where
  connected : ℕ → Text → Event
  unreachable : Text → Event
  sent : ℕ → Text → Event
  received : ℕ → Event
  secured : ℕ → Text → Event
  authenticated : ℕ → Event
  closed : ℕ → Event

abbrev pub Log : Type 0
Log = List Event

-- A TCP connection by its number, and what is wrapped around it.
pub record Conn : Type 0 where
  pub base : ℕ
  pub tls : Bool
  pub prefix : Text

-- How a `Read` ends: without an error, at the deadline, at the end of the stream, or broken.
pub data ReadEnd : Type 0 where
  fine : ReadEnd
  timed_out : ReadEnd
  at_eof : ReadEnd
  broken : Text → ReadEnd

pub record Chunk : Type 0 where
  pub bytes : Text
  pub ending : ReadEnd

-- What the world answers to what is done next, which may depend on all that was done before: the
-- errors of dialling, writing, the TLS and the SSH handshake, what the reads up to the deadline
-- bring, the resolver's world, and the clock in milliseconds (at the start and at the end of a resolution) and nanoseconds. `ipv4`, `literal` and
-- `has_port` are functions of Go's `net`, and `shuffle` is the order in which a map is walked.
pub record Outside : Type 0 where
  pub dial : Log → Text → Option Text
  pub write : Log → Text → Option Text
  pub reads : Log → List Chunk
  pub handshake : Log → Text → Bool → List Text → Option Text
  pub authenticate : Log → Text → Text → Text → Option Text
  pub resolver : Log → World
  pub now : Log → ℕ
  pub done : Log → ℕ
  pub nanos : Log → ℕ
  pub ipv4 : Text → Option Text
  pub literal : Text → Option Text
  pub has_port : Text → Bool
  pub shuffle : List (Text × Text) → List (Text × Text)

-- The resolver's cache outlives the attempts.
pub record Wire : Type 0 where
  pub log : Log
  pub cache : HostCache

abbrev pub note : Event → Wire → Wire
note e w = record w { log = e ∷ w.log }

pub data Cause : Type 0 where
  bad_endpoint : EndpointError → Cause
  tcp_failed connect_write connect_read tls_failed payload_write payload_read : Text → Cause
  banner_read ssh_failed : Text → Cause
  connect_without_status tls_missing no_banner : Cause
  connect_refused : ℤ → Cause
  status_not_allowed : List ℤ → Cause

pub data Outcome {ℓ} (A : Type ℓ) : Type ℓ where
  ok : A → Outcome A
  err : ProbeResult → Cause → Outcome A

abbrev pub Io : Type 0 → Type 0
Io A = Wire → Outcome A × Wire

abbrev pub follow : {A B : Type 0} → (A → Io B) → Outcome A × Wire → Outcome B × Wire
follow f (ok a, w) = f a w
follow f (err res cause, w) = (err res cause, w)

infixl 5 ◌>>=◌ ◌>>◌
abbrev pub ◌>>=◌ : {A B : Type 0} → Io A → (A → Io B) → Io B
◌>>=◌ m f w = follow f (m w)

abbrev pub ◌>>◌ : {B : Type 0} → Io (Unit {0}) → Io B → Io B
◌>>◌ m k w = follow (λ _. k) (m w)

abbrev pub pure : {A : Type 0} → A → Io A
pure a w = (ok a, w)

abbrev pub fail : {A : Type 0} → ProbeResult → Cause → Io A
fail res cause w = (err res cause, w)

-- The connection is closed, then the error is returned.
abbrev pub abort : {A : Type 0} → ℕ → ProbeResult → Cause → Io A
abort i res cause w = (err res cause, note (closed i) w)

abbrev pub no_result : ProbeResult
no_result = record {
  banner = [];
  statuses = [];
  preview = [];
  resolved_dial = [];
  resolver_method = [];
  resolved_ips = [];
}

-- The connections that are open.
abbrev pub remove_one : ℕ → List ℕ → List ℕ
remove_one i [] = []
remove_one i (j ∷ js) = let rest = remove_one i js in if i == j then js else j ∷ rest

unfoldable pub live : Log → List ℕ
live [] = []
live (connected i addr ∷ log) = i ∷ live log
live (closed i ∷ log) = remove_one i (live log)
live (unreachable addr ∷ log) = live log
live (sent i bytes ∷ log) = live log
live (received i ∷ log) = live log
live (secured i name ∷ log) = live log
live (authenticated i ∷ log) = live log
