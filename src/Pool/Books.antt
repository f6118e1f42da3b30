-- ===== src/Pool/Books.antt =====
-- The books of each slot of the pool: who is at work on it, and how many streams it has.
use native.Mathlib.Decide.{ℕ_discrete}
use sshcustom_magisk.Base.{
  ℕ, ◌+◌, ◌%◌, ◌⊎◌, ◌≤◌, ◌≡◌, refl, sym, ap, ◌∙◌, ◌≢◌, Bool, true, false, List, [], ◌∷◌, ◌++◌,
  Option, none, some, arith, ◌==◌, if◌then◌else◌, get_elem?, Bool-cases, Option-cases, inl, inr,
  length,
}
use sshcustom_magisk.Pool.{
  Client, Slot, Pool, bit, modify, claim, claim_slot, add_stream, modify_slot,
}
use sshcustom_magisk.Pool.Places.{
  get_elem?-modify_self, get_elem?-modify_ne, map_option-eq-some, count,
}
use sshcustom_magisk.Pool.System.{
  Task, starting, authenticating, backing_off, sleeping, System, close_slot,
}
use sshcustom_magisk.Pool.Steps.{Leaves, without}

-- The goroutines that will clear `reconnecting` of slot `i`.
abbrev pub owners : ℕ → List Task → ℕ
owners i [] = 0
owners i (starting j ∷ ts) = bit (i == j) + owners i ts
owners i (authenticating j ∷ ts) = bit (i == j) + owners i ts
owners i (backing_off j ∷ ts) = owners i ts
owners i (sleeping j d ∷ ts) = owners i ts

pub owners-append : (i : ℕ) (xs ys : List Task) → owners i (xs ++ ys) ≡ owners i xs + owners i ys
owners-append i [] ys = omega arith
owners-append i (starting j ∷ xs) ys = omega (arith, owners-append i xs ys)
owners-append i (authenticating j ∷ xs) ys = omega (arith, owners-append i xs ys)
owners-append i (backing_off j ∷ xs) ys = omega (arith, owners-append i xs ys)
owners-append i (sleeping j d ∷ xs) ys = omega (arith, owners-append i xs ys)

pub record SlotInv (it : Slot) (owned leased : ℕ) : Type 0 where
  pub one_owner : owned ≡ bit it.reconnecting
  pub no_client : it.reconnecting ≡ true → it.client ≡ none
  pub no_stream : it.client ≡ none → it.streams ≡ 0
  pub within_leases : it.streams ≤ leased

-- Each slot that is marked reconnecting has exactly one goroutine at work on it, and no slot that
-- is not marked has one; a slot that is marked has no session; a slot without session counts no
-- stream; and no slot counts more streams than are held.
abbrev pub Inv : System → Type 0
Inv s =
    (i : ℕ) (it : Slot)
    → get_elem? s.pool.items i ≡ some it
    → SlotInv it (owners i s.tasks) (count i s.leases)

-- One slot changes, and the goroutines and leases of the others only so far as `SlotInv` allows.
module _ (s t : System) (i : ℕ) (f : Slot → Slot) (inv : Inv s) where
  pub change-Inv :
      t.pool.items ≡ modify i f s.pool.items
      → ((j : ℕ)
          → i ≢ j
          → (owners j t.tasks ≡ owners j s.tasks) × (count j t.leases ≡ count j s.leases))
      → ((it : Slot)
          → get_elem? s.pool.items i ≡ some it
          → SlotInv it (owners i s.tasks) (count i s.leases)
          → SlotInv (f it) (owners i t.tasks) (count i t.leases))
      → Inv t
  change-Inv e others own j it h = elim (ℕ_discrete i j) [
    | yes p ↦
        let h' = ap (λ items. get_elem? items j) (sym e) ∙ h in
        let (a, found, same) = map_option-eq-some f (get_elem? s.pool.items i) (
          sym (get_elem?-modify_self i f s.pool.items)
          ∙ ap (get_elem? (modify i f s.pool.items)) p
          ∙ h') in
        rw (← p, ← same) (own a found (inv i a found))
    | no ne ↦
        let h' =
          sym (get_elem?-modify_ne i j f s.pool.items ne)
          ∙ ap (λ items. get_elem? items j) (sym e)
          ∙ h in
        rw ((others j ne).0, (others j ne).1) (inv j it h')
  ]

-- No slot changes, and nothing that `SlotInv` speaks of but for more leases.
pub same_slots-Inv :
    (s t : System)
    → Inv s
    → t.pool.items ≡ s.pool.items
    → ((j : ℕ) → owners j t.tasks ≡ owners j s.tasks)
    → ((j : ℕ) → count j s.leases ≤ count j t.leases)
    → Inv t
same_slots-Inv s t inv e own held j it h =
    let old = inv j it (ap (λ items. get_elem? items j) (sym e) ∙ h) in
    record {
      one_owner = own j ∙ old.one_owner;
      no_client = old.no_client;
      no_stream = old.no_stream;
      within_leases = omega (arith, held j, old.within_leases);
    }

pub owners_without :
    (j : ℕ) (t : Task) (s : System) (before after : List Task)
    → Leaves t s before after
    → owners j s.tasks ≡ owners j (t ∷ []) + owners j (before ++ after)
owners_without j (starting i) s before after h =
    ap (owners j) h
    ∙ omega (arith, owners-append j before (starting i ∷ after), owners-append j before after)
owners_without j (authenticating i) s before after h =
    ap (owners j) h
    ∙ omega (arith, owners-append j before (authenticating i ∷ after), owners-append j before after)
owners_without j (backing_off i) s before after h =
    ap (owners j) h
    ∙ omega (arith, owners-append j before (backing_off i ∷ after), owners-append j before after)
owners_without j (sleeping i d) s before after h =
    ap (owners j) h
    ∙ omega (arith, owners-append j before (sleeping i d ∷ after), owners-append j before after)

pub bit_ne : (i j : ℕ) → i ≢ j → bit (j == i) ≡ 0
bit_ne i j h = ground arith

pub bit_self : (i : ℕ) → bit (i == i) ≡ 1
bit_self i = ground arith

pub claim_slot-cases :
    (i : ℕ) (it : Slot) (p : Pool)
    → (claim_slot i (some it) p ≡ (p, none))
      ⊎ ((it' : Slot) × (c : Client) × (claim_slot i (some it) p
            ≡ (record (modify_slot i add_stream p) { rr = (i + 1) % length p.items }, some (i, c)))
          × (some it ≡ some it')
          × (it'.reconnecting ≡ false)
          × (it'.client ≡ some c))
unfolding claim_slot
claim_slot-cases i it p = elim (Bool-cases it.reconnecting) [
  | inl busy ↦ inl (ground arith)
  | inr idle ↦ elim (Option-cases it.client) [
    | inl dead ↦ inl (ground arith)
    | inr (c, live) ↦ inr (it, c, ground arith, refl, idle, live)
  ]
]

pub claim-cases :
    (i : ℕ) (p : Pool)
    → (claim i p ≡ (p, none))
      ⊎ ((it : Slot) × (c : Client) × (claim i p
            ≡ (record (modify_slot i add_stream p) { rr = (i + 1) % length p.items }, some (i, c)))
          × (get_elem? p.items i ≡ some it)
          × (it.reconnecting ≡ false)
          × (it.client ≡ some c))
unfolding claim claim_slot
claim-cases i p = go (get_elem? p.items i) refl
  where
    go :
        (o : Option Slot)
        → get_elem? p.items i ≡ o
        → (claim_slot i o p ≡ (p, none))
          ⊎ ((it : Slot) × (c : Client) × (claim_slot i o p ≡ (
            record (modify_slot i add_stream p) { rr = (i + 1) % length p.items },
            some (i, c),
          ))
              × (o ≡ some it)
              × (it.reconnecting ≡ false)
              × (it.client ≡ some c))
    go none e = inl refl
    go (some it) e = claim_slot-cases i it p

pub close_slot-SlotInv :
    (it : Slot) {owned leased : ℕ} → SlotInv it owned leased → SlotInv (close_slot it) owned leased
close_slot-SlotInv it old = record {
  one_owner = old.one_owner;
  no_client = λ _. refl;
  no_stream = λ _. refl;
  within_leases = omega arith;
}

pub asleep-Inv :
    (s : System) (i delay : ℕ) (before after : List Task)
    → Inv s
    → Leaves (sleeping i delay) s before after
    → Inv (without s before after)
asleep-Inv s i delay before after inv h =
    same_slots-Inv s (without s before after) inv refl
      (λ j. omega (arith, owners_without j (sleeping i delay) s before after h)) (λ j. omega arith)

pub if-Inv : (b : Bool) (s t : System) → Inv s → Inv t → Inv (if b then s else t)
if-Inv true s t h k = h
if-Inv false s t h k = k
