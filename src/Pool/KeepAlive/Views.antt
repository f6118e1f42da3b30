-- ===== src/Pool/KeepAlive/Views.antt =====
-- The sessions and the counts of the slots, and what `KeepAlive` means to do with them.
use sshcustom_magisk.Base.{
  List, [], ◌∷◌, ◌++◌, ℕ, zero, suc, ◌+◌, ◌≡◌, refl, ap, ◌∙◌, inl, inr, Bool, true, false, not,
  ◌&&◌, ◌||◌, Option, none, some, arith, length, map, get_elem?, Bool-cases, ltb, if◌then◌else◌,
  is_some,
}
use sshcustom_magisk.Pool.{Client, Slot, modify}
use sshcustom_magisk.Text.{Text}
use sshcustom_magisk.Pool.KeepAlive.{Reply, alive, dead, World}
use sshcustom_magisk.Pool.Steps.{Reach}
use sshcustom_magisk.Pool.System.{
  System, mark_broken, break_slot, ensure_async, ensure_slots, mark_needed, is_reconnecting,
  publish,
}

-- The session of a slot and the number of its streams.
abbrev pub View : Type 0
View = Option Client × ℕ

abbrev pub view : Slot → View
view it = (it.client, it.streams)

abbrev pub views : System → List View
views s = map view s.pool.items

abbrev pub is_alive : Reply → Bool
is_alive alive = true
is_alive _ = false

abbrev pub is_dead : Reply → Bool
is_dead (dead _) = true
is_dead _ = false

-- A slot is good if it has a session, and that is in use or answers.
abbrev pub is_good : Reply → View → Bool
is_good r (client, streams) = is_some client && (ltb 0 streams || is_alive r)

-- An idle session whose request fails is gone.
abbrev pub outlives : Reply → View → View
outlives r (client, streams) =
    if is_some client && (not (ltb 0 streams) && is_dead r) then (none, 0) else (client, streams)

abbrev pub bit : Bool → ℕ
bit b = if b then 1 else 0

abbrev pub good_from : (ℕ → Reply) → ℕ → List View → ℕ
good_from replies i [] = 0
good_from replies i (v ∷ vs) = bit (is_good (replies i) v) + good_from replies (suc i) vs

abbrev pub outlive_from : (ℕ → Reply) → ℕ → List View → List View
outlive_from replies i [] = []
outlive_from replies i (v ∷ vs) = outlives (replies i) v ∷ outlive_from replies (suc i) vs

-- What other goroutines do is a run of the pool that leaves the sessions and the counts alone.
abbrev pub Spares : (System → System) → Type 0
Spares f = (s : System) → Reach s (f s) × (views (f s) ≡ views s)

abbrev pub AreSparing : World → Type 0
AreSparing w = (i : ℕ) → Spares (w.before i) × Spares (w.during i)

view-mark_needed : (items : List Slot) → map view (map mark_needed items) ≡ map view items
view-mark_needed [] = refl
view-mark_needed (it ∷ items) =
    ap (λ v. v ∷ map view (map mark_needed items)) same
    ∙ ap (λ l. view it ∷ l) (view-mark_needed items)
  where
    same : view (mark_needed it) ≡ view it
    same = ground arith

pub views-ensure_async : (now : ℕ) (s : System) → views (ensure_async now s) ≡ views s
unfolding ensure_async ensure_slots publish
views-ensure_async now s = elim (Bool-cases (ltb now (s.pool.last_ensure + 500))) [
  | inl early ↦ rw early refl
  | inr late ↦ elim (Bool-cases s.pool.closed) [
    | inl shut ↦ rw (late, shut) refl
    | inr open_ ↦ rw (late, open_) (view-mark_needed s.pool.items)
  ]
]

map-modify :
    (i : ℕ) (err : Text) (items : List Slot)
    → map view (modify i (break_slot err) items) ≡ modify i (λ _. (none, 0)) (map view items)
unfolding modify
map-modify i err [] = refl
map-modify zero err (it ∷ items) = refl
map-modify (suc i) err (it ∷ items) = ap (λ l. view it ∷ l) (map-modify i err items)

pub views-mark_broken :
    (i : ℕ) (err : Text) (s : System)
    → views (mark_broken i err s) ≡ modify i (λ _. (none, 0)) (views s)
unfolding mark_broken publish
views-mark_broken i err s = elim (Bool-cases (is_reconnecting (get_elem? s.pool.items i))) [
  | inl busy ↦ rw busy (map-modify i err s.pool.items)
  | inr idle ↦ rw idle (map-modify i err s.pool.items)
]

pub modify-behind :
    (f : View → View) (pre : List View) (v : View) (vs : List View)
    → modify (length pre) f (pre ++ (v ∷ vs)) ≡ pre ++ (f v ∷ vs)
unfolding modify
modify-behind f [] v vs = refl
modify-behind f (p ∷ pre) v vs = ap (λ l. p ∷ l) (modify-behind f pre v vs)

pub seen_at :
    (items : List Slot) (pre : List View) (v : View) (vs : List View)
    → map view items ≡ pre ++ (v ∷ vs)
    → (it : Slot) × ((get_elem? items (length pre) ≡ some it) × (view it ≡ v))
seen_at [] [] v vs h = absurd (cc h)
seen_at [] (p ∷ pre) v vs h = absurd (cc h)
seen_at (it ∷ items) [] v vs h = (it, (refl, cc h))
seen_at (it ∷ items) (p ∷ pre) v vs h = seen_at items pre v vs (cc h)

pub length-append_one : (pre : List View) (v : View) → length (pre ++ (v ∷ [])) ≡ suc (length pre)
length-append_one [] v = refl
length-append_one (p ∷ pre) v = ap suc (length-append_one pre v)
