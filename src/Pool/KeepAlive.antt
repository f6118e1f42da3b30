-- ===== src/Pool/KeepAlive.antt =====
-- `SSHPool.KeepAlive`, with what other goroutines do between its steps.
pub mod Views
pub mod Runs
use sshcustom_magisk.Base.{
  ℕ, zero, suc, ◌+◌, Bool, true, false, List, [], ◌∷◌, Option, none, some, ltb, if◌then◌else◌,
  length, get_elem?, ◌==◌,
}
use sshcustom_magisk.Text.{Text}
use sshcustom_magisk.Pool.{Client, Slot}
use sshcustom_magisk.Pool.System.{System, ensure_async, mark_broken}

-- How a keepalive request ends: answered, with an error or a timeout, or cut short by the context.
pub data Reply : Type 0 where
  alive : Reply
  dead : Text → Reply
  cut : Reply

-- The pool and the counts `healthy` and `failed`.
pub record Tally : Type 0 where
  pub system : System
  pub healthy : ℕ
  pub failed : ℕ

abbrev pub count_healthy : Tally → Tally
count_healthy t = record t { healthy = t.healthy + 1 }

abbrev pub count_failed : System → Tally → Tally
count_failed s t = record t { system = s; failed = t.failed + 1 }

unfoldable pub after_reply : ℕ → Reply → Tally → Tally
after_reply i alive t = count_healthy t
after_reply i (dead err) t = count_failed (mark_broken i err t.system) t
after_reply i cut t = count_failed t.system t

-- What `KeepAlive` meets, by the index of the slot that the loop is at: what other goroutines do
-- before its look at the slot and behind it, while the request waits, how the request ends, and the
-- time of the call of `EnsureAsync` (the last one under the number of slots).
pub record World : Type 0 where
  pub before : ℕ → System → System
  pub during : ℕ → System → System
  pub replies : ℕ → Reply
  pub now : ℕ → ℕ

abbrev pub moved : System → Tally → Tally
moved s t = record t { system = s }

-- The body of the loop at one slot, as the look at it has shown it.
unfoldable pub check_slot : World → ℕ → Option Slot → Tally → Tally
unfolding after_reply
check_slot w i none t = t
check_slot w i (some it) t = elim it.client [
  | none ↦
      let met = w.during i t.system in
      count_failed (if it.reconnecting then t.system else ensure_async (w.now i) met) t
  | some c ↦
      if ltb 0 it.streams
      then count_healthy t
      else after_reply i (w.replies i) (moved (w.during i t.system) t)
]

-- `k` slots are left, the next one with index `i`.
unfoldable pub check_slots : World → ℕ → ℕ → Tally → Tally
unfolding check_slot
check_slots w i zero t = t
check_slots w i (suc k) t =
    let met = w.before i t.system in
    check_slots w (suc i) k (check_slot w i (get_elem? met.pool.items i) (moved met t))

-- `KeepAlive`.
unfoldable pub keep_alive : World → System → Tally
unfolding check_slots
keep_alive w s =
    let n = length s.pool.items in
    let t = check_slots w 0 n (record { system = s; healthy = 0; failed = 0 }) in
    let met = w.before n t.system in
    if t.healthy == 0
    then record t { system = ensure_async (w.now n) met }
    else record t { system = met }
