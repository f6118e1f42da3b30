-- ===== src/Pool/Breaker.antt =====
-- What the circuit breaker of `reconnectSlot` does: it cancels the pool's context, and no method
-- of the pool makes a new one.
pub mod Runs
pub mod Trip
use sshcustom_magisk.Base.{
  ℕ, suc, ◌+◌, ◌≡◌, refl, sym, ap, ◌∙◌, ◌⊎◌, inl, inr, Bool, true, false, List, [], ◌∷◌, ◌++◌,
  Option, none, some, arith, ◌==◌, if◌then◌else◌, get_elem?, map, Bool-cases,
}
use sshcustom_magisk.Pool.{Slot, modify}
use sshcustom_magisk.Pool.Places.{map_option, get_elem?-modify, map_option-eq-some, get_elem?-map}
use sshcustom_magisk.Pool.System.{
  Task, starting, authenticating, backing_off, sleeping, System, started,
}

-- The goroutines that are past their look at the context.
abbrev pub in_flight : List Task → ℕ
in_flight [] = 0
in_flight (starting i ∷ ts) = in_flight ts
in_flight (authenticating i ∷ ts) = 1 + in_flight ts
in_flight (backing_off i ∷ ts) = in_flight ts
in_flight (sleeping i d ∷ ts) = in_flight ts

pub in_flight-append : (xs ys : List Task) → in_flight (xs ++ ys) ≡ in_flight xs + in_flight ys
in_flight-append [] ys = omega arith
in_flight-append (starting j ∷ xs) ys = omega (arith, in_flight-append xs ys)
in_flight-append (authenticating j ∷ xs) ys = omega (arith, in_flight-append xs ys)
in_flight-append (backing_off j ∷ xs) ys = omega (arith, in_flight-append xs ys)
in_flight-append (sleeping j d ∷ xs) ys = omega (arith, in_flight-append xs ys)

pub in_flight-started : (i : ℕ) (items : List Slot) → in_flight (started i items) ≡ 0
unfolding started
in_flight-started i [] = refl
in_flight-started i (it ∷ items) = ground (arith, in_flight-started (suc i) items)

-- The pool's context is done, and no authentication is under way.
pub record IsStuck (s : System) : Type 0 where
  pub done : s.pool.cancelled ≡ true
  pub idle : in_flight s.tasks ≡ 0

-- Each slot has the session that it had, or none.
abbrev pub Fades : System → System → Type 0
Fades s t =
    (j : ℕ) (it : Slot)
    → get_elem? t.pool.items j ≡ some it
    → (it.client ≡ none)
      ⊎ ((old : Slot) × (get_elem? s.pool.items j ≡ some old) × (it.client ≡ old.client))

pub Fades-refl : (s t : System) → t.pool.items ≡ s.pool.items → Fades s t
Fades-refl s t e j it h = inr (it, ap (λ items. get_elem? items j) (sym e) ∙ h, refl)

pub Fades-trans : (s t u : System) → Fades s t → Fades t u → Fades s u
Fades-trans s t u f g j it h = elim (g j it h) [
  | inl dead ↦ inl dead
  | inr (old, at, same) ↦ elim (f j old at) [
    | inl dead ↦ inl (same ∙ dead)
    | inr (older, at', same') ↦ inr (older, at', same ∙ same')
  ]
]

-- The change of a slot keeps its session or drops it.
abbrev pub KeepsOrDrops : (Slot → Slot) → Type 0
KeepsOrDrops f = (it : Slot) → ((f it).client ≡ none) ⊎ ((f it).client ≡ it.client)

Fades_of_option :
    (f : Slot → Slot) (o : Option Slot) (it : Slot)
    → KeepsOrDrops f
    → map_option f o ≡ some it
    → (it.client ≡ none) ⊎ ((old : Slot) × (o ≡ some old) × (it.client ≡ old.client))
Fades_of_option f o it k h =
    let (a, at, same) = map_option-eq-some f o h in
    elim (k a) [ inl dead ↦ inl (rw (← same) dead) | inr kept ↦ inr (a, at, rw (← same) kept) ]

pub Fades-modify :
    (s t : System) (i : ℕ) (f : Slot → Slot)
    → KeepsOrDrops f
    → t.pool.items ≡ modify i f s.pool.items
    → Fades s t
Fades-modify s t i f k e j it h =
    let h' =
      sym (get_elem?-modify i j f s.pool.items) ∙ ap (λ items. get_elem? items j) (sym e) ∙ h in
    elim (Bool-cases (i == j)) [
      | inl same ↦ Fades_of_option f (get_elem? s.pool.items j) it k (rw same at h')
      | inr other ↦ inr (it, rw other at h', refl)
    ]

pub Fades-map :
    (s t : System) (f : Slot → Slot)
    → KeepsOrDrops f
    → t.pool.items ≡ map f s.pool.items
    → Fades s t
Fades-map s t f k e j it h =
    Fades_of_option f (get_elem? s.pool.items j) it k
      (sym (get_elem?-map f s.pool.items j) ∙ ap (λ items. get_elem? items j) (sym e) ∙ h)

-- What one step from a stuck pool leads to.
abbrev pub StaysStuck : System → System → Type 0
StaysStuck s t = IsStuck t × Fades s t

pub if-StaysStuck :
    (s : System) (b : Bool) (t u : System)
    → (b ≡ true → StaysStuck s t)
    → (b ≡ false → StaysStuck s u)
    → StaysStuck s (if b then t else u)
if-StaysStuck s true t u h k = h refl
if-StaysStuck s false t u h k = k refl
