-- ===== src/Pool/Breaker/Trip.antt =====
-- What follows when the circuit breaker trips.
use sshcustom_magisk.Base.{
  ℕ, ◌+◌, ◌≤◌, ◌≡◌, refl, ap, ◌∙◌, inl, inr, true, List, none, some, arith, leb, get_elem?,
}
use sshcustom_magisk.Text.{Text}
use sshcustom_magisk.Pool.{Slot, checkout}
use sshcustom_magisk.Pool.Places.{get_elem?-modify_self, map_option}
use sshcustom_magisk.Pool.Scan.{checkout_dead}
use sshcustom_magisk.Pool.Breaker.{in_flight, IsStuck, Fades, Fades-modify, Fades-trans}
use sshcustom_magisk.Pool.Breaker.Runs.{in_flight_without, Reach-StaysStuck}
use sshcustom_magisk.Pool.System.{
  Task, authenticating, System, reconnect_failed, on_slot, note_failure, fails_of, breaker_limit,
}
use sshcustom_magisk.Pool.Steps.{Reach, Leaves, without}

-- No slot has a session.
abbrev pub AllDead : System → Type 0
AllDead s = (j : ℕ) (it : Slot) → get_elem? s.pool.items j ≡ some it → it.client ≡ none

Fades-AllDead : (s t : System) → Fades s t → AllDead s → AllDead t
Fades-AllDead s t f dead j it at = elim (f j it at) [
  | inl gone ↦ gone
  | inr (old, at', same) ↦ same ∙ dead j old at'
]

-- The state behind the failure that trips the breaker.
record Tripped (s t : System) : Type 0 where
  stuck : IsStuck t
  fades : Fades s t
  still_open : t.pool.closed ≡ s.pool.closed

reconnect_failed-Tripped :
    (s : System) (i : ℕ) (err : Text) (it : Slot) (before after : List Task)
    → get_elem? s.pool.items i ≡ some it
    → breaker_limit ≤ it.consec_fails + 1
    → Leaves (authenticating i) s before after
    → in_flight s.tasks ≡ 1
    → Tripped s (reconnect_failed i err (without s before after))
unfolding reconnect_failed
reconnect_failed-Tripped s i err it before after at limit h one =
    let noted =
      get_elem?-modify_self i (note_failure err) s.pool.items
      ∙ ap (map_option (note_failure err)) at in
    let trips : leb breaker_limit (
          fails_of (get_elem? (on_slot i (note_failure err) (without s before after)).pool.items i))
        ≡ true =
      rw noted (ground arith) in
    rw trips (record {
      stuck = record {
        done = refl;
        idle = omega (arith, in_flight_without (authenticating i) s before after h);
      };
      fades =
          Fades-modify s (on_slot i (note_failure err) s) i (note_failure err) (λ it. inr refl)
            refl;
      still_open = refl;
    })

-- The eighth failure in a row of one slot, at a time when no slot has a session and no other
-- authentication is under way: the pool is not closed by it, and in no state that it can reach
-- from there does `checkout` hand out a session again, nor does any slot have one.
pub breaker_strands :
    (s : System) (i : ℕ) (err : Text) (it : Slot) (before after : List Task)
    → get_elem? s.pool.items i ≡ some it
    → breaker_limit ≤ it.consec_fails + 1
    → Leaves (authenticating i) s before after
    → in_flight s.tasks ≡ 1
    → AllDead s
    → {t : System} → Reach (reconnect_failed i err (without s before after)) t
    → ((reconnect_failed i err (without s before after)).pool.closed ≡ s.pool.closed)
      × AllDead t
      × (checkout t.pool ≡ (t.pool, none))
breaker_strands s i err it before after at limit h one dead {t} r =
    let trip = reconnect_failed-Tripped s i err it before after at limit h one in
    let faded =
      Fades-trans s (reconnect_failed i err (without s before after)) t trip.fades
        (Reach-StaysStuck trip.stuck r).1 in
    let gone = Fades-AllDead s t faded dead in (trip.still_open, gone, checkout_dead t.pool gone)
