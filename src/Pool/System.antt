-- ===== src/Pool/System.antt =====
-- The methods of `SSHPool` that start goroutines or write the dashboard's state, over the pool,
-- that state, the goroutines at work on the pool and the streams that are open.
--
-- A method runs here as one step from one blocking call to the next: what a goroutine does under
-- the locks, and the snapshot that it publishes behind them. The snapshot is only shown, and no
-- method of the pool reads it.
use sshcustom_magisk.Base.{
  ℕ, suc, ◌+◌, ◌*◌, ◌-◌, Bool, true, false, not, ◌&&◌, List, [], ◌∷◌, ◌++◌, Option, none, some, ltb,
  leb, ◌==◌, if◌then◌else◌, length, get_elem?, is_some, map,
}
use sshcustom_magisk.Base.Int.{ℤ}
use sshcustom_magisk.Text.{Text, codes, itoa}
use sshcustom_magisk.Daemon.{State, set_state}
use sshcustom_magisk.Pool.{
  Client, Slot, Pool, Snapshot, snapshot, healthy_count, modify, modify_slot, checkout, claim,
}

-- A goroutine that `EnsureAsync`, `markBroken` or `reconnectSlot` has started, for the slot with
-- this index: before its look at the pool's context, inside `attemptSSHAuth`, before the choice of
-- a delay, and asleep for that delay.
pub data Task : Type 0 where
  starting : ℕ → Task
  authenticating : ℕ → Task
  backing_off : ℕ → Task
  sleeping : ℕ → ℕ → Task

-- `leases` holds the slot of each checkout that has not been released.
pub record System : Type 0 where
  pub pool : Pool
  pub state : State
  pub tasks : List Task
  pub leases : List ℕ

-- What `attemptSSHAuth` reports beside the session.
pub record ProbeResult : Type 0 where
  pub banner : Text
  pub statuses : List ℤ
  pub preview : Text
  pub resolved_dial : Text
  pub resolver_method : Text
  pub resolved_ips : List Text

-- `State.SetPoolSnapshot`.
unfoldable pub set_pool_snapshot : Snapshot → State → State
unfolding set_state
set_pool_snapshot snap = set_state λ s. record s {
  pool_size = snap.size;
  pool_healthy = snap.healthy;
  pool_reconnecting = snap.reconnecting;
  pool_streams = snap.streams;
  pool_max_streams = snap.max_streams;
  pool_last_error = snap.last_error;
}

-- `p.st.SetPoolSnapshot(p.Snapshot())`.
unfoldable pub publish : System → System
publish s = record s { state = set_pool_snapshot (snapshot s.pool) s.state }

abbrev pub close_slot : Slot → Slot
close_slot it = record it { client = none; streams = 0 }

-- `Close`.
unfoldable pub close : System → System
unfolding publish
close s = publish (record s {
  pool = record s.pool { closed = true; cancelled = true; items = map close_slot s.pool.items };
})

-- The context that the pool's own context is made from is done.
unfoldable pub cancel : System → System
cancel s = record s { pool = record s.pool { cancelled = true } }

abbrev pub needs_reconnect : Slot → Bool
needs_reconnect it = not (is_some it.client) && not it.reconnecting

abbrev pub mark_needed : Slot → Slot
mark_needed it = if needs_reconnect it then record it { reconnecting = true } else it

-- The goroutines that the loop of `EnsureAsync` starts, for slots from index `i` on.
unfoldable pub started : ℕ → List Slot → List Task
started i [] = []
started i (it ∷ items) =
    let rest = started (suc i) items in if needs_reconnect it then starting i ∷ rest else rest

-- The time of the last call is noted also where the pool turns out to be closed.
abbrev pub note_ensure : ℕ → System → System
note_ensure now s = record s { pool = record s.pool { last_ensure = now } }

-- The loop of `EnsureAsync` and the snapshot behind it.
unfoldable pub ensure_slots : ℕ → System → System
unfolding publish started
ensure_slots now s = publish (record (note_ensure now s) {
  pool = record s.pool { last_ensure = now; items = map mark_needed s.pool.items };
  tasks = started 0 s.pool.items ++ s.tasks;
})

-- `EnsureAsync` at a time in milliseconds. `now - last < 500` is over signed numbers.
unfoldable pub ensure_async : ℕ → System → System
unfolding ensure_slots
ensure_async now s =
    if ltb now (s.pool.last_ensure + 500)
    then s
    else if s.pool.closed
    then note_ensure now s
    else ensure_slots now s

abbrev pub on_slot : ℕ → (Slot → Slot) → System → System
on_slot i f s = record s { pool = modify_slot i f s.pool }

abbrev pub give_up : Slot → Slot
give_up it = record it { reconnecting = false }

-- `reconnectSlot` up to its call of `attemptSSHAuth`; the goroutine has left `tasks`.
unfoldable pub reconnect_start : ℕ → System → System
unfolding modify
reconnect_start i s =
    if s.pool.cancelled
    then on_slot i give_up s
    else record s { tasks = authenticating i ∷ s.tasks }

abbrev pub note_failure : Text → Slot → Slot
note_failure err it = record it {
  last_err = err;
  consec_fails = it.consec_fails + 1;
  reconnecting = false;
}

abbrev pub fails_of : Option Slot → ℕ
fails_of none = 0
fails_of (some it) = it.consec_fails

-- The consecutive failures at which one slot gives up on the pool.
abbrev pub breaker_limit : ℕ
breaker_limit = 8

-- `reconnectSlot` behind `attemptSSHAuth`, with an error.
unfoldable pub reconnect_failed : ℕ → Text → System → System
unfolding modify publish cancel
reconnect_failed i err s =
    let noted = on_slot i (note_failure err) s in
    if leb breaker_limit (fails_of (get_elem? noted.pool.items i))
    then cancel (publish noted)
    else record noted { tasks = backing_off i ∷ s.tasks }

-- Milliseconds.
abbrev pub first_delay : ℕ
first_delay = 5 * 1000

abbrev pub longest_delay : ℕ
longest_delay = 60 * 1000

unfoldable pub current_delay : Slot → ℕ
current_delay it = if it.retry_delay == 0 then first_delay else it.retry_delay

unfoldable pub next_delay : Slot → ℕ
unfolding current_delay
next_delay it =
    let next = current_delay it * 2 in if ltb longest_delay next then longest_delay else next

abbrev pub raise_delay : Slot → Slot
raise_delay it = record it { retry_delay = next_delay it }

abbrev pub delay_of : Option Slot → ℕ
delay_of none = first_delay
delay_of (some it) = current_delay it

-- The goroutine behind a failure, up to its sleep.
unfoldable pub back_off : ℕ → System → System
unfolding modify
back_off i s = record (on_slot i raise_delay s) {
  tasks = sleeping i (delay_of (get_elem? s.pool.items i)) ∷ s.tasks;
}

abbrev pub connect_slot : Client → Slot → Slot
connect_slot client it = record it {
  client = some client;
  streams = 0;
  last_err = [];
  retry_delay = 0;
  consec_fails = 0;
  reconnecting = false;
}

-- "SSH pool healthy %d/%d".
unfoldable pub healthy_event : Pool → Text
healthy_event p =
    codes "SSH pool healthy "
    ++ (itoa (healthy_count p.items) ++ (codes "/" ++ itoa (length p.items)))

abbrev has_any : List ℤ → Bool
has_any [] = false
has_any (_ ∷ _) = true

unfoldable pub show_probe : Pool → ProbeResult → State → State
unfolding set_state healthy_event
show_probe p res = set_state λ s. record s {
  remote_banner = res.banner;
  http_statuses = if has_any res.statuses then res.statuses else s.http_statuses;
  resolved_dial = res.resolved_dial;
  resolver_method = res.resolver_method;
  resolved_ips = res.resolved_ips;
  last_event = healthy_event p;
}

-- `reconnectSlot` behind `attemptSSHAuth`, with a session.
unfoldable pub reconnect_succeeded : ℕ → Client → ProbeResult → System → System
unfolding modify publish show_probe
reconnect_succeeded i client res s =
    let shown = publish (on_slot i (connect_slot client) s) in
    record shown { state = show_probe shown.pool res shown.state }

-- The lease that a checkout hands out, if any.
abbrev pub lease_of : Option (ℕ × Client) → List ℕ
lease_of none = []
lease_of (some (i, _)) = i ∷ []

-- A claim of a slot, with its lease.
unfoldable pub take_slot : ℕ → System → System
take_slot i s =
    let (p, got) = claim i s.pool in record s { pool = p; leases = lease_of got ++ s.leases }

-- A checkout with no other goroutine in between, with its lease.
unfoldable pub take_stream : System → System
take_stream s =
    let (p, got) = checkout s.pool in record s { pool = p; leases = lease_of got ++ s.leases }

-- `release`.
abbrev pub drop_stream : Slot → Slot
drop_stream it = if ltb 0 it.streams then record it { streams = it.streams - 1 } else it

-- `releaseSlot`; the lease has left `leases`.
unfoldable pub release_slot : ℕ → System → System
unfolding modify publish
release_slot i s = publish (on_slot i drop_stream s)

abbrev pub break_slot : Text → Slot → Slot
break_slot err it = record it { client = none; streams = 0; last_err = err; reconnecting = true }

abbrev pub is_reconnecting : Option Slot → Bool
is_reconnecting none = true
is_reconnecting (some it) = it.reconnecting

-- `markBroken`: `reconnecting` ends up set in either case, and a goroutine is started where it was
-- not set before.
unfoldable pub mark_broken : ℕ → Text → System → System
unfolding modify publish
mark_broken i err s =
    let broken = on_slot i (break_slot err) s in
    publish (
      if is_reconnecting (get_elem? s.pool.items i)
      then broken
      else record broken { tasks = starting i ∷ s.tasks })
