-- ===== src/Pool.antt =====
-- The SSH session pool (cmd/sshcustomd/main.go): its data, the choice of its size, its snapshot
-- and the choice of a session. The handlers that start goroutines are in the child modules.
pub mod System
pub mod Steps
pub mod Shut
pub mod Places
pub mod Books
pub mod Handlers
pub mod Invariant
pub mod Ensure
pub mod Scan
pub mod Breaker
pub mod Size
pub mod Late
pub mod Dial
pub mod KeepAlive
use sshcustom_magisk.Base.{
  ℕ, zero, suc, ◌+◌, ◌-◌, ◌%◌, Bool, true, false, not, ◌&&◌, List, [], ◌∷◌, ◌++◌, Option, none,
  some, ltb, ◌==◌, if◌then◌else◌, length, get_elem?, is_some, map, replicate,
}
use sshcustom_magisk.Base.Int.{ℤ, pos, negsuc}
use sshcustom_magisk.Text.{Text, is_empty}

-- A live `*ssh.Client`, by a number that tells it from the others.
abbrev pub Client : Type 0
Client = ℕ

-- `pooledSSH`; the delay is in milliseconds, and `client` is `none` where it is nil.
pub record Slot : Type 0 where
  pub id : ℕ
  pub client : Option Client
  pub streams : ℕ
  pub reconnecting : Bool
  pub last_err : Text
  pub retry_delay : ℕ
  pub consec_fails : ℕ

-- `SSHPool`; `cancelled` tells whether the pool's context is done.
pub record Pool : Type 0 where
  pub items : List Slot
  pub rr : ℕ
  pub max_streams : ℕ
  pub hard_streams : ℕ
  pub closed : Bool
  pub last_ensure : ℕ
  pub cancelled : Bool

-- `secondsDefault`.
unfoldable pub seconds_default : ℤ → ℕ → ℕ
seconds_default (pos zero) default = default
seconds_default (pos (suc n)) default = suc n
seconds_default (negsuc n) default = default

-- The number of sessions that `newSSHPool` makes; the flag is `usesTLS(p)`.
unfoldable pub pool_size : Bool → ℤ → ℕ
unfolding seconds_default
pool_size tls configured =
    let size = seconds_default configured 4 in
    let capped = if ltb 4 size then 4 else size in
    let raised = if ltb size 2 then 2 else size in
    if tls then (if ltb capped 1 then 1 else capped) else (if ltb 6 raised then 6 else raised)

-- The balancing target that `newSSHPool` sets.
unfoldable pub stream_target : Bool → ℤ → ℕ
unfolding seconds_default
stream_target tls configured =
    let wanted = seconds_default configured 32 in
    let raised = if ltb wanted 8 then 8 else wanted in
    let for_tls = if tls && ltb raised 64 then 64 else raised in
    if ltb 128 for_tls then 128 else for_tls

abbrev pub fresh_slot : ℕ → Option Client → Slot
fresh_slot id client = record {
  id = id;
  client = client;
  streams = 0;
  reconnecting = false;
  last_err = [];
  retry_delay = 0;
  consec_fails = 0;
}

-- The slots behind the first, `id` being the first number to give.
unfoldable pub empty_slots : ℕ → ℕ → List Slot
empty_slots id zero = []
empty_slots id (suc n) = fresh_slot id none ∷ empty_slots (suc id) n

-- `newSSHPool` up to its call of `EnsureAsync`.
unfoldable pub new_pool : Bool → ℤ → ℤ → Client → Pool
unfolding pool_size stream_target empty_slots
new_pool tls size streams first = record {
  items = fresh_slot 1 (some first) ∷ empty_slots 2 (pool_size tls size - 1);
  rr = 0;
  max_streams = stream_target tls streams;
  hard_streams = 0;
  closed = false;
  last_ensure = 0;
  cancelled = false;
}

-- `it.client != nil && !it.reconnecting`.
abbrev pub is_healthy : Slot → Bool
is_healthy it = is_some it.client && not it.reconnecting

abbrev pub bit : Bool → ℕ
bit true = 1
bit false = 0

-- `Healthy`.
unfoldable pub healthy_count : List Slot → ℕ
healthy_count [] = 0
healthy_count (it ∷ items) = bit (is_healthy it) + healthy_count items

-- `SSHSlotStatus`.
pub record SlotStatus : Type 0 where
  pub id : ℕ
  pub healthy : Bool
  pub reconnecting : Bool
  pub streams : ℕ
  pub consec_fails : ℕ
  pub last_error : Text

-- `SSHPoolSnapshot`.
pub record Snapshot : Type 0 where
  pub size : ℕ
  pub healthy : ℕ
  pub reconnecting : ℕ
  pub streams : ℕ
  pub max_streams : ℕ
  pub hard_streams : ℕ
  pub closed : Bool
  pub last_error : Text
  pub slots : List SlotStatus

abbrev pub slot_status : Slot → SlotStatus
slot_status it = record {
  id = it.id;
  healthy = is_healthy it;
  reconnecting = it.reconnecting;
  streams = it.streams;
  consec_fails = it.consec_fails;
  last_error = it.last_err;
}

-- The body of the loop in `Snapshot`.
abbrev pub count_slot : Snapshot → SlotStatus → Snapshot
count_slot snap slot = record snap {
  healthy = snap.healthy + bit slot.healthy;
  reconnecting = snap.reconnecting + bit slot.reconnecting;
  streams = snap.streams + slot.streams;
  last_error = if is_empty slot.last_error then snap.last_error else slot.last_error;
  slots = snap.slots ++ (slot ∷ []);
}

unfoldable pub snapshot_from : Snapshot → List Slot → Snapshot
snapshot_from snap [] = snap
snapshot_from snap (it ∷ items) = snapshot_from (count_slot snap (slot_status it)) items

-- `Snapshot`.
unfoldable pub snapshot : Pool → Snapshot
unfolding snapshot_from
snapshot p =
    snapshot_from
      (record {
        size = length p.items;
        healthy = 0;
        reconnecting = 0;
        streams = 0;
        max_streams = p.max_streams;
        hard_streams = p.hard_streams;
        closed = p.closed;
        last_error = [];
        slots = [];
      })
      p.items

-- What the scan of `checkout` has chosen: `chosenIdx` and `bestStreams`.
pub record Choice : Type 0 where
  pub index : ℕ
  pub streams : ℕ

-- `streams < bestStreams`, where nothing chosen stands for the largest int.
abbrev pub is_better : ℕ → Option Choice → Bool
is_better n none = true
is_better n (some c) = ltb n c.streams

-- One round of the scan, at the slot with this index.
unfoldable pub consider : ℕ → Option Slot → Option Choice → Option Choice
consider i none best = best
consider i (some it) best =
    if is_healthy it && is_better it.streams best
    then some (record { index = i; streams = it.streams })
    else best

-- The scan: `k` rounds are left, the next one at `(start + i) % size`.
unfoldable pub scan : List Slot → ℕ → ℕ → ℕ → Option Choice → Option Choice
unfolding consider
scan items start i zero best = best
scan items start i (suc k) best =
    let idx = (start + i) % length items in
    scan items start (suc i) k (consider idx (get_elem? items idx) best)

-- `f` at one place of a list.
unfoldable pub modify {ℓ} : {A : Type ℓ} → ℕ → (A → A) → List A → List A
modify i f [] = []
modify zero f (x ∷ xs) = f x ∷ xs
modify (suc i) f (x ∷ xs) = x ∷ modify i f xs

abbrev pub modify_slot : ℕ → (Slot → Slot) → Pool → Pool
modify_slot i f p = record p { items = modify i f p.items }

abbrev pub add_stream : Slot → Slot
add_stream it = record it { streams = it.streams + 1 }

abbrev is_empty_pool : List Slot → Bool
is_empty_pool [] = true
is_empty_pool (_ ∷ _) = false

-- The second half of `checkout`, at the chosen slot: it looks again, since other goroutines may
-- have run since the scan.
unfoldable pub claim_slot : ℕ → Option Slot → Pool → Pool × Option (ℕ × Client)
unfolding modify
claim_slot i none p = (p, none)
claim_slot i (some it) p = if it.reconnecting then (p, none) else elim it.client [
  | none ↦ (p, none)
  | some c ↦ (record (modify_slot i add_stream p) { rr = (i + 1) % length p.items }, some (i, c))
]

unfoldable pub claim : ℕ → Pool → Pool × Option (ℕ × Client)
unfolding claim_slot
claim i p = claim_slot i (get_elem? p.items i) p

-- `checkout`, run with no other goroutine in between.
unfoldable pub checkout : Pool → Pool × Option (ℕ × Client)
unfolding scan claim
checkout p =
    if p.closed
    then (p, none)
    else if is_empty_pool p.items
    then (p, none)
    else elim (scan p.items p.rr 0 (length p.items) none) [
      | none ↦ (p, none)
      | some c ↦ claim c.index p
    ]
