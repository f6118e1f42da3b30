-- ===== src/Pool/Size.antt =====
-- The pool that `newSSHPool` makes, and what holds of every state it can reach.
use sshcustom_magisk.Base.{
  ℕ, zero, suc, ◌+◌, ◌-◌, ◌≤◌, ◌<◌, ◌≡◌, refl, Bool, true, false, [], some, arith, ltb,
  if◌then◌else◌, length, Bool-cases, inl, inr, ◌∙◌, length-map, get_elem?,
}
use sshcustom_magisk.Base.Int.{ℤ, pos, negsuc}
use sshcustom_magisk.Daemon.{State}
use sshcustom_magisk.Pool.{
  Client, Slot, seconds_default, pool_size, stream_target, empty_slots, new_pool,
}
use sshcustom_magisk.Pool.Invariant.{ensure-Inv, Reach-Inv}
use sshcustom_magisk.Pool.Books.{Inv, SlotInv, if-Inv}
use sshcustom_magisk.Pool.Steps.{Reach}
use sshcustom_magisk.Pool.System.{System, ensure_async, ensure_slots, mark_needed}

seconds_default-pos : (n : ℤ) (d : ℕ) → 0 < d → 0 < seconds_default n d
unfolding seconds_default
seconds_default-pos (pos zero) d h = h
seconds_default-pos (pos (suc n)) d h = omega arith
seconds_default-pos (negsuc n) d h = h

-- Whatever the settings say, a pool over TLS has one to four sessions and any other two to six.
pub pool_size_bounds :
    (tls : Bool) (n : ℤ)
    → (1 ≤ pool_size tls n)
      × ((tls ≡ true → pool_size tls n ≤ 4))
      × ((tls ≡ false → (2 ≤ pool_size tls n) × (pool_size tls n ≤ 6)))
unfolding pool_size
pool_size_bounds tls n = (ground arith, λ e. ground arith, λ e. (ground arith, ground arith))

-- The balancing target lies between 8 and 128, and is at least 64 over TLS.
pub stream_target_bounds :
    (tls : Bool) (n : ℤ)
    → (8 ≤ stream_target tls n)
      × (stream_target tls n ≤ 128)
      × ((tls ≡ true → 64 ≤ stream_target tls n))
unfolding stream_target
stream_target_bounds tls n = ground arith

-- The pool with no goroutine at work on it and no stream open.
abbrev pub idle_system : Bool → ℤ → ℤ → Client → State → System
idle_system tls size streams first state = record {
  pool = new_pool tls size streams first;
  state = state;
  tasks = [];
  leases = [];
}

-- `newSSHPool`, at a time in milliseconds, over the daemon's state.
unfoldable pub new_ssh_pool : Bool → ℤ → ℤ → Client → ℕ → State → System
unfolding new_pool ensure_async
new_ssh_pool tls size streams first now state =
    let s = idle_system tls size streams first state in
    if ltb 1 (pool_size tls size) then ensure_async now s else s

length-empty_slots : (id n : ℕ) → length (empty_slots id n) ≡ n
unfolding empty_slots
length-empty_slots id zero = refl
length-empty_slots id (suc n) = omega (arith, length-empty_slots (suc id) n)

-- The pool has as many slots as `pool_size` says.
length-new_pool :
    (tls : Bool) (size streams : ℤ) (first : Client)
    → length (new_pool tls size streams first).items ≡ pool_size tls size
unfolding new_pool
length-new_pool tls size streams first =
    omega (arith, length-empty_slots 2 (pool_size tls size - 1), pool_size_bounds tls size)

empty_slots-SlotInv :
    (id n j : ℕ) (it : Slot) → get_elem? (empty_slots id n) j ≡ some it → SlotInv it 0 0
unfolding empty_slots
empty_slots-SlotInv id zero j it h = cc
empty_slots-SlotInv id (suc n) zero it h = ground arith
empty_slots-SlotInv id (suc n) (suc j) it h = empty_slots-SlotInv (suc id) n j it h

fresh-Inv :
    (tls : Bool) (size streams : ℤ) (first : Client) (state : State)
    → Inv
        (record { pool = new_pool tls size streams first; state = state; tasks = []; leases = [] })
unfolding new_pool
fresh-Inv tls size streams first state zero it h = ground arith
fresh-Inv tls size streams first state (suc j) it h = empty_slots-SlotInv 2 _ j it h

pub length-ensure_async :
    (now : ℕ) (s : System) → length (ensure_async now s).pool.items ≡ length s.pool.items
unfolding ensure_async
length-ensure_async now s = elim (Bool-cases (ltb now (s.pool.last_ensure + 500))) [
  | inl soon ↦ rw soon
  | inr late ↦ elim (Bool-cases s.pool.closed) [
    | inl shut ↦ rw (late, shut)
    | inr open_ ↦ rw (late, open_) (unfold ensure_slots in length-map s.pool.items mark_needed)
  ]
]

-- A new pool has as many slots as `pool_size` says.
pub length-new_ssh_pool :
    (tls : Bool) (size streams : ℤ) (first : Client) (now : ℕ) (state : State)
    → length (new_ssh_pool tls size streams first now state).pool.items ≡ pool_size tls size
unfolding new_ssh_pool
length-new_ssh_pool tls size streams first now state =
    elim (Bool-cases (ltb 1 (pool_size tls size))) [
      | inl many ↦ rw many (
          length-ensure_async now (idle_system tls size streams first state)
          ∙ length-new_pool tls size streams first)
      | inr one ↦ rw one (length-new_pool tls size streams first)
    ]

new_ssh_pool-Inv :
    (tls : Bool) (size streams : ℤ) (first : Client) (now : ℕ) (state : State)
    → Inv (new_ssh_pool tls size streams first now state)
unfolding new_ssh_pool
new_ssh_pool-Inv tls size streams first now state =
    let s = idle_system tls size streams first state in
    if-Inv (ltb 1 (pool_size tls size)) (ensure_async now s) s
      (ensure-Inv s now (fresh-Inv tls size streams first state))
      (fresh-Inv tls size streams first state)

-- In every state that a new pool can reach, each slot keeps its books: one goroutine at work on it
-- exactly where it is marked reconnecting, no session while it is marked, no stream without a
-- session, and no more streams counted than are held.
pub pool-Inv :
    (tls : Bool) (size streams : ℤ) (first : Client) (now : ℕ) (state : State) {t : System}
    → Reach (new_ssh_pool tls size streams first now state) t
    → Inv t
unfolding new_ssh_pool
pool-Inv tls size streams first now state r =
    Reach-Inv (new_ssh_pool-Inv tls size streams first now state) r
