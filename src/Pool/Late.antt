-- ===== src/Pool/Late.antt =====
-- Two orders of events that leave the pool's books wrong.
use sshcustom_magisk.Base.{
  ℕ, ◌+◌, ◌≡◌, refl, ap, ◌∙◌, true, false, List, ◌∷◌, ◌++◌, none, some, arith, get_elem?,
}
use sshcustom_magisk.Pool.{Client, Slot, checkout, add_stream, modify}
use sshcustom_magisk.Text.{Text}
use sshcustom_magisk.Pool.Scan.{claim_ready}
use sshcustom_magisk.Pool.Places.{get_elem?-modify_self, get_elem?-map, map_option}
use sshcustom_magisk.Pool.System.{
  Task, authenticating, System, ProbeResult, close, close_slot, reconnect_succeeded, connect_slot,
  take_slot, release_slot, drop_stream, on_slot, mark_broken, reconnect_start, is_reconnecting,
  break_slot,
}
use sshcustom_magisk.Pool.Shut.{Reach-IsShut, checkout-shut}
use sshcustom_magisk.Pool.Steps.{Leaves, without, Reach}

-- An authentication that succeeds just behind `Close`: the slot of the closed pool gets a session,
-- and in no state that a run of the pool comes to from there does `checkout` hand out a session.
pub close_leaks :
    (s u : System) (i : ℕ) (it : Slot) (client : Client) (res : ProbeResult)
    (before after : List Task)
    → get_elem? s.pool.items i ≡ some it
    → Leaves (authenticating i) (close s) before after
    → Reach (reconnect_succeeded i client res (without (close s) before after)) u
    → (get_elem? (reconnect_succeeded i client res (without (close s) before after)).pool.items i
        ≡ some (connect_slot client (close_slot it)))
      × (u.pool.closed ≡ true)
      × (checkout u.pool ≡ (u.pool, none))
unfolding close reconnect_succeeded
close_leaks s u i it client res before after at h r =
    let shut : u.pool.closed ≡ true = Reach-IsShut refl r in
    (
      get_elem?-modify_self i (connect_slot client) _
          ∙ ap (map_option (connect_slot client))
              (get_elem?-map close_slot s.pool.items i ∙ ap (map_option close_slot) at),
      shut,
      checkout-shut u.pool shut,
    )

-- The slot holds this session, is not marked and counts `n` streams.
abbrev pub Serves : System → ℕ → Client → ℕ → Type 0
Serves s i c n =
    (it : Slot) × (get_elem? s.pool.items i ≡ some it)
    × (it.reconnecting ≡ false)
    × (it.client ≡ some c)
    × (it.streams ≡ n)

Serves-modify :
    (s t : System) (i n m : ℕ) (c : Client) (f : Slot → Slot)
    → t.pool.items ≡ modify i f s.pool.items
    → ((it : Slot)
        → it.reconnecting ≡ false
        → it.client ≡ some c
        → it.streams ≡ n
        → ((f it).reconnecting ≡ false) × ((f it).client ≡ some c) × ((f it).streams ≡ m))
    → Serves s i c n
    → Serves t i c m
Serves-modify s t i n m c f e k (it, at, ready, live, same) = (
  f it,
  ap (λ items. get_elem? items i) e ∙ get_elem?-modify_self i f s.pool.items ∙ ap (map_option f) at,
  (k it ready live same).0,
  (k it ready live same).1,
  (k it ready live same).2,
)

take_slot-Serves :
    (s : System) (i n : ℕ) (c : Client)
    → Serves s i c n
    → Serves (take_slot i s) i c (n + 1) × ((take_slot i s).leases ≡ i ∷ s.leases)
unfolding take_slot
take_slot-Serves s i n c (it, at, ready, live, same) =
    rw (claim_ready s.pool i it c at ready live) (
      Serves-modify s (on_slot i add_stream s) i n (n + 1) c add_stream refl
          (λ it ready live same. (ready, live, omega arith)) (it, at, ready, live, same),
      refl,
    )

release_slot-Serves :
    (s : System) (i n : ℕ) (c : Client) → Serves s i c (n + 1) → Serves (release_slot i s) i c n
unfolding release_slot
release_slot-Serves s i n c =
    Serves-modify s (release_slot i s) i (n + 1) n c drop_stream refl
      (λ it ready live same. (ground arith, ground arith, ground arith))

-- The state behind the loss of a session and the connection of the next one, with the goroutine
-- that has done it gone again.
abbrev pub reconnected : ℕ → Text → Client → ProbeResult → System → System
reconnected i err c res s =
    let broken = mark_broken i err s in
    let begun = reconnect_start i (record broken { tasks = s.tasks }) in
    reconnect_succeeded i c res (record begun { tasks = s.tasks })

reconnected-Serves :
    (s : System) (i n : ℕ) (err : Text) (c c' : Client) (res : ProbeResult)
    → s.pool.cancelled ≡ false
    → Serves s i c n
    → Serves (reconnected i err c' res s) i c' 0 × ((reconnected i err c' res s).leases ≡ s.leases)
unfolding mark_broken reconnect_start reconnect_succeeded
reconnected-Serves s i n err c c' res live (it, at, ready, has, same) =
    let was : is_reconnecting (get_elem? s.pool.items i) ≡ false = ap is_reconnecting at ∙ ready in
    rw (was, live)
      (
        (
          connect_slot c' (break_slot err it),
          get_elem?-modify_self i (connect_slot c') (modify i (break_slot err) s.pool.items)
              ∙ ap (map_option (connect_slot c')) (
                  get_elem?-modify_self i (break_slot err) s.pool.items
                  ∙ ap (map_option (break_slot err)) at),
          refl,
          refl,
          refl,
        ),
        refl,
      )

-- While the context of the pool is not done: a stream of a session that was lost is closed behind
-- the connection of the next one, on which a stream was opened meanwhile: the count falls to 0
-- although that stream is open.
pub late_release :
    (s : System) (i n : ℕ) (err : Text) (c c' : Client) (res : ProbeResult) (before after : List ℕ)
    → s.pool.cancelled ≡ false
    → Serves s i c n
    → s.leases ≡ before ++ (i ∷ after)
    → let t = take_slot i (reconnected i err c' res s) in
      (t.leases ≡ i ∷ (before ++ (i ∷ after)))
      × Serves (release_slot i (record t { leases = i ∷ (before ++ after) })) i c' 0
late_release s i n err c c' res before after live serves h =
    let (now, kept) = reconnected-Serves s i n err c c' res live serves in
    let (more, leases) = take_slot-Serves (reconnected i err c' res s) i 0 c' now in
    (leases ∙ ap (◌∷◌ i) (kept ∙ h), release_slot-Serves _ i 0 c' more)
