-- ===== src/Pool/Invariant.antt =====
-- What holds of each slot of the pool in every state that the pool can reach.

use sshcustom_magisk.Base.{
  ltb, ℕ, zero, suc, ◌+◌, ◌<◌, ◌≡◌, refl, sym, ap, ◌∙◌, List, [], ◌∷◌, some, arith, if◌then◌else◌,
  get_elem?,
}
use sshcustom_magisk.Pool.{Slot, bit}
use sshcustom_magisk.Pool.Places.{map_option-eq-some, get_elem?-map}
use sshcustom_magisk.Pool.System.{
  System, close, cancel, ensure_async, publish, close_slot, mark_needed, needs_reconnect, started,
  ensure_slots, note_ensure,
}
use sshcustom_magisk.Pool.Steps.{
  Step, ensure, start, fail, succeed, doze, wake, expire, take, release, drop, show, shut, stop,
  Reach, here, next,
}
use sshcustom_magisk.Pool.Books.{
  owners, owners-append, SlotInv, Inv, close_slot-SlotInv, asleep-Inv, if-Inv,
}
use sshcustom_magisk.Pool.Handlers.{
  start-Inv, fail-Inv, succeed-Inv, doze-Inv, release-Inv, take-Inv, drop-Inv,
}

close-Inv : (s : System) → Inv s → Inv (close s)
unfolding close
close-Inv s inv j it h =
    let (a, found, same) =
      map_option-eq-some close_slot (get_elem? s.pool.items j)
        (sym (get_elem?-map close_slot s.pool.items j) ∙ h) in
    rw (← same) (close_slot-SlotInv a (inv j a found))

owners-started_below : (j i : ℕ) (items : List Slot) → j < i → owners j (started i items) ≡ 0
unfolding started
owners-started_below j i [] h = refl
owners-started_below j i (it ∷ items) h = ground (arith, owners-started_below j (suc i) items)

-- `EnsureAsync` starts one goroutine for each slot that needs it.
owners-started :
    (j i : ℕ) (items : List Slot) (it : Slot)
    → get_elem? items j ≡ some it
    → owners (i + j) (started i items) ≡ bit (needs_reconnect it)
unfolding started
owners-started j i [] it h = cc
owners-started zero i (x ∷ items) it h = ground (arith, owners-started_below (i + 0) (suc i) items)
owners-started (suc j) i (x ∷ items) it h = ground (arith, owners-started j (suc i) items it)

owners-started_at :
    (j : ℕ) (items : List Slot) (it : Slot)
    → get_elem? items j ≡ some it
    → owners j (started 0 items) ≡ bit (needs_reconnect it)
owners-started_at j items it h =
    let here_too : j ≡ 0 + j = omega arith in
    ap (λ k. owners k (started 0 items)) here_too ∙ owners-started j 0 items it h

mark_needed-SlotInv :
    (it : Slot) (owned leased : ℕ)
    → SlotInv it owned leased
    → SlotInv (mark_needed it) (bit (needs_reconnect it) + owned) leased
mark_needed-SlotInv it owned leased old = ground arith

ensure_slots-Inv : (s : System) (now : ℕ) → Inv s → Inv (ensure_slots now s)
unfolding ensure_slots
ensure_slots-Inv s now inv j it h =
    let (a, found, same) =
      map_option-eq-some mark_needed (get_elem? s.pool.items j)
        (sym (get_elem?-map mark_needed s.pool.items j) ∙ h) in
    rw
      (
        owners-append j (started 0 s.pool.items) s.tasks,
        owners-started_at j s.pool.items a found,
        ← same,
      )
      (mark_needed-SlotInv a _ _ (inv j a found))

pub ensure-Inv : (s : System) (now : ℕ) → Inv s → Inv (ensure_async now s)
unfolding ensure_async
ensure-Inv s now inv =
    if-Inv (ltb now (s.pool.last_ensure + 500)) s
      (if s.pool.closed then note_ensure now s else ensure_slots now s) inv
      (if-Inv s.pool.closed (note_ensure now s) (ensure_slots now s) inv
        (ensure_slots-Inv s now inv))

-- Every step of the pool, by a method, a goroutine or its environment, keeps the books of each
-- slot: one goroutine at work on it exactly where it is marked reconnecting, no session while it is
-- marked, no stream without a session, and no more streams counted than are held.
pub Step-Inv : {s t : System} → Step s t → Inv s → Inv t
Step-Inv (ensure s now) inv = ensure-Inv s now inv
Step-Inv (start s i before after h) inv = start-Inv s i inv before after h
Step-Inv (fail s i err before after h) inv = fail-Inv s i inv err before after h
Step-Inv (succeed s i client res before after h) inv = succeed-Inv s i inv client res before after h
Step-Inv (doze s i before after h) inv = doze-Inv s i inv before after h
Step-Inv (wake s i delay now before after h) inv =
    ensure-Inv _ now (asleep-Inv s i delay before after inv h)
Step-Inv (expire s i delay before after h) inv = asleep-Inv s i delay before after inv h
Step-Inv (take s i) inv = take-Inv s i inv
Step-Inv (release s i before after h) inv = release-Inv s i inv before after h
Step-Inv (drop s i err) inv = drop-Inv s i inv err
Step-Inv (show s) inv = unfold publish in inv
Step-Inv (shut s) inv = close-Inv s inv
Step-Inv (stop s) inv = unfold cancel in inv

pub Reach-Inv : {s t : System} → Inv s → Reach s t → Inv t
Reach-Inv inv here = inv
Reach-Inv inv (next r st) = Step-Inv st (Reach-Inv inv r)
