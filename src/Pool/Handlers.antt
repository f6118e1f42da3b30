-- ===== src/Pool/Handlers.antt =====
-- The handlers of the pool keep the books of each slot.

use sshcustom_magisk.Base.{
  ℕ, ◌+◌, ◌%◌, ◌≡◌, refl, ap, List, ◌∷◌, ◌++◌, arith, get_elem?, Bool-cases, inl, inr, length,
}
use sshcustom_magisk.Text.{Text}
use sshcustom_magisk.Pool.{Client, add_stream, modify_slot}
use sshcustom_magisk.Pool.Places.{count, count-append}
use sshcustom_magisk.Pool.System.{
  Task, starting, authenticating, backing_off, System, ProbeResult, cancel, reconnect_start,
  reconnect_failed, back_off, reconnect_succeeded, take_slot, release_slot, mark_broken, on_slot,
  publish, give_up, note_failure, raise_delay, connect_slot, drop_stream, break_slot,
  is_reconnecting,
}
use sshcustom_magisk.Pool.Steps.{Leaves, without}
use sshcustom_magisk.Pool.Books.{
  Inv, change-Inv, same_slots-Inv, owners_without, bit_ne, bit_self, claim-cases, if-Inv,
}

module _ (s : System) (i : ℕ) (inv : Inv s) where
  pub start-Inv :
      (before after : List Task)
      → Leaves (starting i) s before after
      → Inv (reconnect_start i (without s before after))
  unfolding reconnect_start
  start-Inv before after h =
      let rest = without s before after in
      if-Inv s.pool.cancelled _ _
        (change-Inv s (on_slot i give_up rest) i give_up inv refl
          (λ j ne.
            (omega (arith, owners_without j (starting i) s before after h, bit_ne i j ne), refl))
          (λ it at old. ground (arith, owners_without i (starting i) s before after h, bit_self i)))
        (same_slots-Inv s (record rest { tasks = authenticating i ∷ rest.tasks }) inv refl
          (λ j. omega (arith, owners_without j (starting i) s before after h)) (λ j. omega arith))

  pub fail-Inv :
      (err : Text) (before after : List Task)
      → Leaves (authenticating i) s before after
      → Inv (reconnect_failed i err (without s before after))
  unfolding reconnect_failed
  fail-Inv err before after h =
      let noted = on_slot i (note_failure err) (without s before after) in
      let kept : Inv noted =
        change-Inv s noted i (note_failure err) inv refl
          (λ j ne. (
            omega (arith, owners_without j (authenticating i) s before after h, bit_ne i j ne),
            refl,
          ))
          (λ it at old.
            ground (arith, owners_without i (authenticating i) s before after h, bit_self i)) in
      if-Inv _ (cancel (publish noted)) (record noted { tasks = backing_off i ∷ noted.tasks })
        (unfold cancel publish in kept) kept

  pub succeed-Inv :
      (client : Client) (res : ProbeResult) (before after : List Task)
      → Leaves (authenticating i) s before after
      → Inv (reconnect_succeeded i client res (without s before after))
  unfolding reconnect_succeeded
  succeed-Inv client res before after h =
      change-Inv s (reconnect_succeeded i client res (without s before after)) i
        (connect_slot client) inv refl
        (λ j ne. (
          omega (arith, owners_without j (authenticating i) s before after h, bit_ne i j ne),
          refl,
        ))
        (λ it at old.
          ground (arith, owners_without i (authenticating i) s before after h, bit_self i))

  pub doze-Inv :
      (before after : List Task)
      → Leaves (backing_off i) s before after
      → Inv (back_off i (without s before after))
  unfolding back_off
  doze-Inv before after h =
      change-Inv s (back_off i (without s before after)) i raise_delay inv refl
        (λ j ne. (omega (arith, owners_without j (backing_off i) s before after h), refl))
        (λ it at old. ground (arith, owners_without i (backing_off i) s before after h))

  pub release-Inv :
      (before after : List ℕ)
      → s.leases ≡ before ++ (i ∷ after)
      → Inv (release_slot i (record s { leases = before ++ after }))
  unfolding release_slot
  release-Inv before after h =
      change-Inv s (release_slot i (record s { leases = before ++ after })) i drop_stream inv refl
        (λ j ne. (
          refl,
          omega (
            arith,
            ap (count j) h,
            count-append j before (i ∷ after),
            count-append j before after,
            bit_ne i j ne,
          ),
        ))
        (λ it at old. ground (
          arith,
          ap (count i) h,
          count-append i before (i ∷ after),
          count-append i before after,
          bit_self i,
        ))

  pub take-Inv : Inv (take_slot i s)
  unfolding take_slot
  take-Inv = elim (claim-cases i s.pool) [
    | inl e ↦ rw e inv
    | inr (it, c, e, found, ready, live) ↦ rw e (
        change-Inv s
          (record s {
            pool = record (modify_slot i add_stream s.pool) { rr = (i + 1) % length s.pool.items };
            leases = i ∷ s.leases;
          })
          i add_stream inv refl (λ j ne. (refl, omega (arith, bit_ne i j ne)))
          (λ it' at old. ground (arith, bit_self i)))
  ]

  pub drop-Inv : (err : Text) → Inv (mark_broken i err s)
  unfolding mark_broken
  drop-Inv err =
      let broken = on_slot i (break_slot err) s in
      elim (Bool-cases (is_reconnecting (get_elem? s.pool.items i))) [
        | inl busy ↦ rw busy (
            change-Inv s broken i (break_slot err) inv refl (λ j ne. (refl, refl))
              (λ it at old. ground (arith, ap is_reconnecting at)))
        | inr idle ↦ rw idle (
            change-Inv s (record broken { tasks = starting i ∷ s.tasks }) i (break_slot err) inv
              refl (λ j ne. (omega (arith, bit_ne i j ne), refl))
              (λ it at old. ground (arith, ap is_reconnecting at, bit_self i)))
      ]
