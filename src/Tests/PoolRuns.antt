-- ===== src/Tests/PoolRuns.antt =====
-- The theorems on the pool, at small pools.
use sshcustom_magisk.Base.{
  ℕ, zero, suc, ◌≡◌, ◌≢◌, refl, ◌⊎◌, ◌≤◌, true, false, [], ◌∷◌, none, some, arith, is_some,
  get_elem?,
}
use sshcustom_magisk.Base.Int.{pos, negsuc}
use sshcustom_magisk.Text.{codes}
use sshcustom_magisk.Daemon.{State}
use sshcustom_magisk.Pool.{Client, Slot, Pool, fresh_slot, pool_size, checkout, seconds_default}
use sshcustom_magisk.Pool.System.{
  authenticating, System, ProbeResult, close, close_slot, ensure_async, reconnect_start,
  reconnect_failed, reconnect_succeeded, connect_slot, take_slot, release_slot, publish,
}
use sshcustom_magisk.Pool.Steps.{start, take, ensure, show, here, next, without}
use sshcustom_magisk.Pool.Books.{owners, Inv}
use sshcustom_magisk.Pool.Scan.{Takes, Refuses, checkout-Takes}
use sshcustom_magisk.Pool.Ensure.{ensure_async-covers}
use sshcustom_magisk.Pool.Breaker.{StaysStuck}
use sshcustom_magisk.Pool.Breaker.Runs.{Reach-StaysStuck}
use sshcustom_magisk.Pool.Breaker.Trip.{AllDead, breaker_strands}
use sshcustom_magisk.Pool.Size.{pool_size_bounds, new_ssh_pool, pool-Inv}
use sshcustom_magisk.Pool.Late.{close_leaks, Serves, reconnected, late_release}
use sshcustom_magisk.Pool.Dial.{Turn, pending, dial, dial_from, acquire_seconds}
use sshcustom_magisk.Pool.Dial.Runs.{IsFine, dial-IsFine}
use sshcustom_magisk.Pool.Dial.Settles.{dial_from-settles}
use sshcustom_magisk.Pool.KeepAlive.{Reply, alive, dead, World, keep_alive}
use sshcustom_magisk.Pool.KeepAlive.Views.{AreSparing}
use sshcustom_magisk.Pool.KeepAlive.Runs.{IsSorted, keep_alive-IsSorted}

abbrev pub blank : State
blank = record {
  state = [];
  connected = false;
  ssh_authenticated = false;
  transport_ready = false;
  last_error = [];
  last_event = [];
  attempt = 0;
  network_online = true;
  default_route = [];
  interface = [];
  gateway = [];
  source_ip = [];
  remote_banner = [];
  http_statuses = [];
  resolved_dial = [];
  resolver_method = [];
  resolved_ips = [];
  socks_enabled = false;
  socks_addr = [];
  socks_running = false;
  transparent_enabled = false;
  transparent_addr = [];
  transparent_running = false;
  transparent_applied = false;
  hotspot_running = false;
  pool_size = 0;
  pool_healthy = 0;
  pool_reconnecting = 0;
  pool_streams = 0;
  pool_max_streams = 0;
  pool_last_error = [];
  subs = [];
}

abbrev fresh : System
fresh = new_ssh_pool false (pos 2) (pos 32) 7 1000 blank

pool-Inv_example : Inv (reconnect_start 1 (without (take_slot 0 fresh) [] []))
unfolding new_ssh_pool ensure_async take_slot
pool-Inv_example =
    pool-Inv false (pos 2) (pos 32) 7 1000 blank
      (next (next here (take fresh 0)) (start (take_slot 0 fresh) 1 [] [] refl))

-- Two healthy slots.
abbrev pair : Pool
pair = record {
  items =
      record (fresh_slot 1 (some 7)) { streams = 3 }
      ∷ record (fresh_slot 2 (some 8)) { streams = 1 }
      ∷ [];
  rr = 0;
  max_streams = 32;
  hard_streams = 0;
  closed = false;
  last_ensure = 0;
  cancelled = false;
}

checkout-Takes_example : ((i : ℕ) × (c : Client) × Takes pair i c) ⊎ Refuses pair
checkout-Takes_example = checkout-Takes pair refl (omega arith)

abbrev busy : System
busy = record { pool = pair; state = blank; tasks = []; leases = 0 ∷ 0 ∷ 0 ∷ 1 ∷ [] }

-- One slot with seven failures behind it, its eighth attempt under way.
abbrev failing : System
failing = record {
  pool = record pair {
    items = record (fresh_slot 1 none) { reconnecting = true; consec_fails = 7 } ∷ [];
  };
  state = blank;
  tasks = authenticating 0 ∷ [];
  leases = [];
}

failing-AllDead : AllDead failing
failing-AllDead zero it h = cc
failing-AllDead (suc j) it h = cc

abbrev tripped : System
tripped = reconnect_failed 0 (codes "refused") (without failing [] [])

breaker_strands_example :
    (tripped.pool.closed ≡ false)
    × AllDead (ensure_async 9000 tripped)
    × (checkout (ensure_async 9000 tripped).pool ≡ ((ensure_async 9000 tripped).pool, none))
breaker_strands_example =
    breaker_strands failing 0 (codes "refused")
      (record (fresh_slot 1 none) { reconnecting = true; consec_fails = 7 }) [] [] refl
      (omega arith) refl refl failing-AllDead (next here (ensure tripped 9000))

abbrev stopped : System
stopped = record busy { pool = record pair { cancelled = true } }

Reach-StaysStuck_example : StaysStuck stopped (ensure_async 9000 stopped)
Reach-StaysStuck_example =
    Reach-StaysStuck (record { done = refl; idle = refl }) (next here (ensure stopped 9000))

-- A round in which nothing else happens and the server answers.
abbrev quiet : Turn
quiet = record {
  others = λ s. s;
  ctx_err = none;
  now = 2000;
  clock = 5000000000;
  sleep_err = λ _. none;
  during = λ s. publish s;
  answer = none;
}

-- One in which the server refuses, two seconds before.
abbrev slow : Turn
slow = record quiet { clock = 3000000000; answer = some (codes "refused") }

dial-IsFine_example : IsFine busy (dial 4000000000 (slow ∷ quiet ∷ []) 25 none busy)
dial-IsFine_example = dial-IsFine 4000000000 (slow ∷ quiet ∷ []) 25 none busy (
  ((λ s. (here, refl)), (λ s. (next here (show s), unfold publish in refl))),
  (((λ s. (here, refl)), (λ s. (next here (show s), unfold publish in refl))), tt),
)

dial_from-settles_example : (dial_from (pos 1) 1000000000 (slow ∷ quiet ∷ []) busy).1 ≢ pending
unfolding acquire_seconds seconds_default
dial_from-settles_example =
    dial_from-settles (pos 1) 1000000000 2000000000 (slow ∷ quiet ∷ []) busy (omega arith)
      (omega arith, (omega arith, tt))

abbrev replies : ℕ → Reply
replies zero = alive
replies (suc _) = dead (codes "EOF")

-- Others publish the pool meanwhile.
abbrev world : World
world = record { before = λ _ s. publish s; during = λ _ s. s; replies = replies; now = λ n. n }

-- An idle pool of three slots: one session answers, one does not, and the last slot has none.
abbrev idle : System
idle = record busy {
  pool = record pair {
    items = fresh_slot 1 (some 7) ∷ fresh_slot 2 (some 8) ∷ fresh_slot 3 none ∷ [];
  };
  leases = [];
}

world_spares : AreSparing world
unfolding publish
world_spares i = ((λ s. (next here (show s), refl)), (λ s. (here, refl)))

keep_alive-IsSorted_example : IsSorted world world_spares idle (keep_alive world idle)
keep_alive-IsSorted_example = keep_alive-IsSorted world world_spares idle

abbrev probe : ProbeResult
probe = record {
  banner = codes "SSH-2.0-dropbear";
  statuses = [];
  preview = [];
  resolved_dial = [];
  resolver_method = [];
  resolved_ips = [];
}

abbrev half : Slot
half = record (fresh_slot 1 none) { reconnecting = true }

abbrev halfway : System
halfway = record failing { pool = record pair { items = half ∷ [] } }

abbrev leaked : System
leaked = reconnect_succeeded 0 9 probe (without (close halfway) [] [])

close_leaks_example :
    (get_elem? leaked.pool.items 0 ≡ some (connect_slot 9 (close_slot half)))
    × ((take_slot 0 (ensure_async 9000 leaked)).pool.closed ≡ true)
    × (checkout (take_slot 0 (ensure_async 9000 leaked)).pool
        ≡ ((take_slot 0 (ensure_async 9000 leaked)).pool, none))
unfolding close
close_leaks_example =
    close_leaks halfway (take_slot 0 (ensure_async 9000 leaked)) 0 half 9 probe [] [] refl refl
      (next (next here (ensure leaked 9000)) (take (ensure_async 9000 leaked) 0))

abbrev renewed : System
renewed = take_slot 1 (reconnected 1 (codes "EOF") 9 probe busy)

late_release_example :
    (renewed.leases ≡ 1 ∷ 0 ∷ 0 ∷ 0 ∷ 1 ∷ [])
    × Serves (release_slot 1 (record renewed { leases = 1 ∷ 0 ∷ 0 ∷ 0 ∷ [] })) 1 9 0
late_release_example =
    late_release busy 1 1 (codes "EOF") 8 9 probe (0 ∷ 0 ∷ 0 ∷ []) [] refl
      (record (fresh_slot 2 (some 8)) { streams = 1 }, refl, refl, refl, refl) refl

pool_size_bounds_example :
    (1 ≤ pool_size false (negsuc 2))
    × ((false ≡ true → pool_size false (negsuc 2) ≤ 4))
    × ((false ≡ false → (2 ≤ pool_size false (negsuc 2)) × (pool_size false (negsuc 2) ≤ 6)))
pool_size_bounds_example = pool_size_bounds false (negsuc 2)

-- The slot that the opening `EnsureAsync` has marked.
abbrev marked : Slot
marked = record (fresh_slot 2 none) { reconnecting = true }

ensure_async-covers_example :
    (is_some marked.client ≡ true) ⊎ (owners 1 (ensure_async 2000 fresh).tasks ≡ 1)
unfolding new_ssh_pool ensure_async
ensure_async-covers_example =
    ensure_async-covers fresh 2000 1 marked (pool-Inv false (pos 2) (pos 32) 7 1000 blank here) refl
      (omega arith) refl
