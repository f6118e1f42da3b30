-- ===== src/Pool/Ensure.antt =====
-- What `EnsureAsync` makes sure of.
use sshcustom_magisk.Base.{
  ℕ, ◌+◌, ◌≤◌, ◌≡◌, refl, sym, ap, ◌∙◌, ◌⊎◌, inl, inr, true, false, some, arith, ltb, get_elem?,
  is_some, map, Bool-cases,
}
use sshcustom_magisk.Pool.{Slot, bit}
use sshcustom_magisk.Pool.Places.{map_option, map_option-eq-some, get_elem?-map}
use sshcustom_magisk.Pool.Invariant.{ensure-Inv}
use sshcustom_magisk.Pool.Books.{Inv, owners}
use sshcustom_magisk.Pool.System.{System, mark_needed, ensure_async, ensure_slots}

mark_needed-covers :
    (it : Slot) → (is_some (mark_needed it).client ≡ true) ⊎ ((mark_needed it).reconnecting ≡ true)
mark_needed-covers it = elim (Bool-cases (is_some it.client)) [
  | inl live ↦ inl (rw live live)
  | inr gone ↦ elim (Bool-cases it.reconnecting) [
    | inl busy ↦ inr (rw (gone, busy) refl)
    | inr idle ↦ inr (rw (gone, idle) refl)
  ]
]

items-ensure_async :
    (s : System) (now : ℕ)
    → s.pool.closed ≡ false
    → s.pool.last_ensure + 500 ≤ now
    → (ensure_async now s).pool.items ≡ map mark_needed s.pool.items
unfolding ensure_async ensure_slots
items-ensure_async s now open_ due =
    let late : ltb now (s.pool.last_ensure + 500) ≡ false = ground arith in rw (late, open_) refl

-- On an open pool whose books are kept, and at least 500 ms after the call before, `EnsureAsync`
-- leaves no slot without help: each has a session, or exactly one goroutine is at work on it that
-- ends by clearing the mark.
pub ensure_async-covers :
    (s : System) (now i : ℕ) (it : Slot)
    → Inv s
    → s.pool.closed ≡ false
    → s.pool.last_ensure + 500 ≤ now
    → get_elem? (ensure_async now s).pool.items i ≡ some it
    → (is_some it.client ≡ true) ⊎ (owners i (ensure_async now s).tasks ≡ 1)
ensure_async-covers s now i it inv open_ due at =
    let books = ensure-Inv s now inv i it at in
    let marked : map_option mark_needed (get_elem? s.pool.items i) ≡ some it =
      sym (get_elem?-map mark_needed s.pool.items i)
      ∙ ap (λ items. get_elem? items i) (sym (items-ensure_async s now open_ due))
      ∙ at in
    let (old, _, same) = map_option-eq-some mark_needed (get_elem? s.pool.items i) marked in
    elim (mark_needed-covers old) [
      | inl live ↦ inl (ap (λ x. is_some (Slot.client x)) (sym same) ∙ live)
      | inr busy ↦
          inr (books.one_owner ∙ ap (λ x. bit (Slot.reconnecting x)) (sym same) ∙ ap bit busy)
    ]
