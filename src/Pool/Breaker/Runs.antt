-- ===== src/Pool/Breaker/Runs.antt =====
-- The runs of a pool whose context is done.
use sshcustom_magisk.Base.{
  ℕ, ◌+◌, ◌≡◌, refl, ap, ◌∙◌, inl, inr, List, [], ◌∷◌, ◌++◌, arith, ltb, if◌then◌else◌, get_elem?,
  Bool-cases,
}
use sshcustom_magisk.Text.{Text}
use sshcustom_magisk.Pool.{add_stream}
use sshcustom_magisk.Pool.Books.{claim-cases}
use sshcustom_magisk.Pool.Breaker.{
  in_flight, in_flight-append, in_flight-started, IsStuck, Fades, Fades-refl, Fades-trans,
  Fades-modify, Fades-map, StaysStuck, if-StaysStuck,
}
use sshcustom_magisk.Pool.System.{
  Task, starting, authenticating, backing_off, sleeping, System, close, cancel, ensure_async,
  ensure_slots, reconnect_start, back_off, take_slot, release_slot, mark_broken, on_slot, publish,
  give_up, close_slot, raise_delay, note_ensure, drop_stream, break_slot, mark_needed, started,
  is_reconnecting,
}
use sshcustom_magisk.Pool.Steps.{
  Step, ensure, start, fail, succeed, doze, wake, expire, take, release, drop, show, shut, stop,
  Reach, here, next, Leaves, without,
}

pub in_flight_without :
    (t : Task) (s : System) (before after : List Task)
    → Leaves t s before after
    → in_flight s.tasks ≡ in_flight (t ∷ []) + in_flight (before ++ after)
in_flight_without (starting i) s before after h =
    ap in_flight h
    ∙ omega (arith, in_flight-append before (starting i ∷ after), in_flight-append before after)
in_flight_without (authenticating i) s before after h =
    ap in_flight h
    ∙ omega
        (arith, in_flight-append before (authenticating i ∷ after), in_flight-append before after)
in_flight_without (backing_off i) s before after h =
    ap in_flight h
    ∙ omega (arith, in_flight-append before (backing_off i ∷ after), in_flight-append before after)
in_flight_without (sleeping i d) s before after h =
    ap in_flight h
    ∙ omega (arith, in_flight-append before (sleeping i d ∷ after), in_flight-append before after)

module _ (s : System) (stuck : IsStuck s) where
  ensure-StaysStuck : (now : ℕ) → StaysStuck s (ensure_async now s)
  unfolding ensure_async ensure_slots
  ensure-StaysStuck now =
      if-StaysStuck s (ltb now (s.pool.last_ensure + 500)) s
        (if s.pool.closed then note_ensure now s else ensure_slots now s)
        (λ _. (stuck, Fades-refl s s refl))
        (λ _.
          if-StaysStuck s s.pool.closed (note_ensure now s) (ensure_slots now s)
            (λ _. (
              record { done = stuck.done; idle = stuck.idle },
              Fades-refl s (note_ensure now s) refl,
            ))
            (λ _. (
              record {
                done = stuck.done;
                idle = omega (
                  arith,
                  in_flight-append (started 0 s.pool.items) s.tasks,
                  in_flight-started 0 s.pool.items,
                  stuck.idle,
                );
              },
              Fades-map s (ensure_slots now s) mark_needed (λ it. inr (ground arith)) refl,
            )))

  start-StaysStuck :
      (i : ℕ) (before after : List Task)
      → Leaves (starting i) s before after
      → StaysStuck s (reconnect_start i (without s before after))
  unfolding reconnect_start
  start-StaysStuck i before after h =
      let rest = without s before after in
      if-StaysStuck s s.pool.cancelled (on_slot i give_up rest)
        (record rest { tasks = authenticating i ∷ rest.tasks })
        (λ _. (
          record {
            done = stuck.done;
            idle = omega (arith, in_flight_without (starting i) s before after h, stuck.idle);
          },
          Fades-modify s (on_slot i give_up rest) i give_up (λ it. inr refl) refl,
        ))
        (λ live. cc (live, stuck.done))

  not_in_flight : (i : ℕ) (before after : List Task) → Leaves (authenticating i) s before after → ⊥
  not_in_flight i before after h =
      omega (arith, in_flight_without (authenticating i) s before after h, stuck.idle)

  asleep-StaysStuck :
      (i delay : ℕ) (before after : List Task)
      → Leaves (sleeping i delay) s before after
      → StaysStuck s (without s before after)
  asleep-StaysStuck i delay before after h = (
    record {
      done = stuck.done;
      idle = omega (arith, in_flight_without (sleeping i delay) s before after h, stuck.idle);
    },
    Fades-refl s (without s before after) refl,
  )

  doze-StaysStuck :
      (i : ℕ) (before after : List Task)
      → Leaves (backing_off i) s before after
      → StaysStuck s (back_off i (without s before after))
  unfolding back_off
  doze-StaysStuck i before after h = (
    record {
      done = stuck.done;
      idle = omega (arith, in_flight_without (backing_off i) s before after h, stuck.idle);
    },
    Fades-modify s (back_off i (without s before after)) i raise_delay (λ it. inr refl) refl,
  )

  take-StaysStuck : (i : ℕ) → StaysStuck s (take_slot i s)
  unfolding take_slot
  take-StaysStuck i = elim (claim-cases i s.pool) [
    | inl e ↦ rw e (record { done = stuck.done; idle = stuck.idle }, Fades-refl s s refl)
    | inr (it, c, e, found, ready, live) ↦ rw e (
      record { done = stuck.done; idle = stuck.idle },
      Fades-modify s (on_slot i add_stream s) i add_stream (λ it. inr refl) refl,
    )
  ]

  release-StaysStuck :
      (i : ℕ) (leases : List ℕ) → StaysStuck s (release_slot i (record s { leases = leases }))
  unfolding release_slot
  release-StaysStuck i leases = (
    record { done = stuck.done; idle = stuck.idle },
    Fades-modify s (release_slot i (record s { leases = leases })) i drop_stream
        (λ it. inr (ground arith)) refl,
  )

  drop-StaysStuck : (i : ℕ) (err : Text) → StaysStuck s (mark_broken i err s)
  unfolding mark_broken publish
  drop-StaysStuck i err =
      let broken = on_slot i (break_slot err) s in
      elim (Bool-cases (is_reconnecting (get_elem? s.pool.items i))) [
        | inl busy ↦ rw busy (
          record { done = stuck.done; idle = stuck.idle },
          Fades-modify s broken i (break_slot err) (λ it. inl refl) refl,
        )
        | inr idle ↦ rw idle (
          record { done = stuck.done; idle = stuck.idle },
          Fades-modify s broken i (break_slot err) (λ it. inl refl) refl,
        )
      ]

  close-StaysStuck : StaysStuck s (close s)
  unfolding close
  close-StaysStuck = (
    record { done = refl; idle = stuck.idle },
    Fades-map s (close s) close_slot (λ it. inl refl) refl,
  )

  publish-StaysStuck : StaysStuck s (publish s)
  unfolding publish
  publish-StaysStuck =
      (record { done = stuck.done; idle = stuck.idle }, Fades-refl s (publish s) refl)

  cancel-StaysStuck : StaysStuck s (cancel s)
  unfolding cancel
  cancel-StaysStuck = (record { done = refl; idle = stuck.idle }, Fades-refl s (cancel s) refl)

StaysStuck-after : (s t u : System) → Fades s t → StaysStuck t u → StaysStuck s u
StaysStuck-after s t u f h = (h.0, Fades-trans s t u f h.1)

Step-StaysStuck : {s t : System} → Step s t → IsStuck s → StaysStuck s t
Step-StaysStuck (ensure s now) k = ensure-StaysStuck s k now
Step-StaysStuck (start s i before after h) k = start-StaysStuck s k i before after h
Step-StaysStuck (fail s i err before after h) k = absurd (not_in_flight s k i before after h)
Step-StaysStuck (succeed s i client res before after h) k =
    absurd (not_in_flight s k i before after h)
Step-StaysStuck (doze s i before after h) k = doze-StaysStuck s k i before after h
Step-StaysStuck (wake s i delay now before after h) k =
    let rest = asleep-StaysStuck s k i delay before after h in
    StaysStuck-after s (without s before after) _ rest.1
      (ensure-StaysStuck (without s before after) rest.0 now)
Step-StaysStuck (expire s i delay before after h) k = asleep-StaysStuck s k i delay before after h
Step-StaysStuck (take s i) k = take-StaysStuck s k i
Step-StaysStuck (release s i before after h) k = release-StaysStuck s k i (before ++ after)
Step-StaysStuck (drop s i err) k = drop-StaysStuck s k i err
Step-StaysStuck (show s) k = publish-StaysStuck s k
Step-StaysStuck (shut s) k = close-StaysStuck s k
Step-StaysStuck (stop s) k = cancel-StaysStuck s k

-- Once the pool's context is done and no authentication is under way, no run of the pool gives a
-- slot a session that it did not have: the context stays done, and each slot keeps its session or
-- loses it.
pub Reach-StaysStuck : {s t : System} → IsStuck s → Reach s t → StaysStuck s t
Reach-StaysStuck {s} k here = (k, Fades-refl s s refl)
Reach-StaysStuck {s} k (next {t} {u} r st) =
    let before = Reach-StaysStuck k r in
    StaysStuck-after s t u before.1 (Step-StaysStuck st before.0)
