-- ===== src/Pool/Scan.antt =====
-- What `checkout` chooses.
use native.Mathlib.Nat.{mod-eq_of_lt}
use sshcustom_magisk.Base.{
  ℕ, zero, suc, ◌+◌, ◌-◌, ◌%◌, ◌≤◌, ◌<◌, ◌≡◌, refl, ◌∙◌, ◌⊎◌, inl, inr, true, false, List, [], ◌∷◌,
  Option, none, some, arith, get_elem?, Bool-cases, Option-cases, length, ltb, leb, ◌&&◌,
}
use sshcustom_magisk.Pool.{
  is_empty_pool, Client, Slot, Pool, Choice, is_healthy, is_better, consider, scan, claim,
  claim_slot, checkout, add_stream, modify_slot,
}

-- The choice is a healthy slot with that many streams.
abbrev Chosen : List Slot → Option Choice → Type 0
Chosen items none = Unit
Chosen items (some c) =
    (it : Slot) × (get_elem? items c.index ≡ some it)
    × (is_healthy it ≡ true)
    × (it.streams ≡ c.streams)

-- If this slot is healthy, the choice is at least as good.
abbrev Covers : Option Choice → Option Slot → Type 0
Covers best none = Unit
Covers best (some it) =
    is_healthy it ≡ true → (c : Choice) × (best ≡ some c) × (c.streams ≤ it.streams)

consider-Chosen :
    (items : List Slot) (i : ℕ) (o : Option Slot) (best : Option Choice)
    → get_elem? items i ≡ o
    → Chosen items best
    → Chosen items (consider i o best)
unfolding consider
consider-Chosen items i none best at h = h
consider-Chosen items i (some it) best at h =
    elim (Bool-cases (is_healthy it && is_better it.streams best)) [
      | inl pick ↦ rw pick (it, at, ground arith, refl)
      | inr skip ↦ rw skip h
    ]

consider-Covers_self :
    (i : ℕ) (o : Option Slot) (best : Option Choice) → Covers (consider i o best) o
unfolding consider
consider-Covers_self i none best = tt
consider-Covers_self i (some it) none = λ ok. rw ok (_, refl, omega arith)
consider-Covers_self i (some it) (some c) = λ ok. elim (Bool-cases (ltb it.streams c.streams)) [
  | inl less ↦ rw (ok, less) (record { index = i; streams = it.streams }, refl, omega arith)
  | inr more ↦ rw (ok, more) (c, refl, ground arith)
]

consider-Covers :
    (i : ℕ) (o : Option Slot) (best : Option Choice) (o' : Option Slot)
    → Covers best o'
    → Covers (consider i o best) o'
unfolding consider
consider-Covers i none best o' h = h
consider-Covers i (some it) best none h = tt
consider-Covers i (some it) best (some it') h = λ ok.
    let (c, is_best, le) = h ok in
    elim (Bool-cases (is_healthy it && is_better it.streams best)) [
      | inl pick ↦ rw pick (record { index = i; streams = it.streams }, refl, ground arith)
      | inr skip ↦ rw skip (c, is_best, le)
    ]

scan-Chosen :
    (items : List Slot) (start i k : ℕ) (best : Option Choice)
    → Chosen items best
    → Chosen items (scan items start i k best)
unfolding scan
scan-Chosen items start i zero best h = h
scan-Chosen items start i (suc k) best h =
    scan-Chosen items start (suc i) k _
      (consider-Chosen items ((start + i) % length items) _ best refl h)

scan-Covers :
    (items : List Slot) (start i k : ℕ) (best : Option Choice) (o : Option Slot)
    → Covers best o
    → Covers (scan items start i k best) o
unfolding scan
scan-Covers items start i zero best o h = h
scan-Covers items start i (suc k) best o h =
    scan-Covers items start (suc i) k _ o (consider-Covers ((start + i) % length items) _ best o h)

-- Round `i + m` of the scan has looked at its slot.
scan-Covers_round :
    (items : List Slot) (start i k m : ℕ) (best : Option Choice)
    → m < k
    → Covers (scan items start i k best) (get_elem? items ((start + (i + m)) % length items))
unfolding scan
scan-Covers_round items start i zero m best h = elim h [ ]
scan-Covers_round items start i (suc k) zero best h =
    let e : i + 0 ≡ i = omega arith in
    rw e (scan-Covers items start (suc i) k _ _ (consider-Covers_self _ _ best))
scan-Covers_round items start i (suc k) (suc m) best h =
    let e : i + suc m ≡ suc i + m = omega arith in
    rw e (scan-Covers_round items start (suc i) k m _ (omega arith))

-- Every place is looked at in some round.
round_of : (start j n : ℕ) → start < n → j < n → (m : ℕ) × (m < n) × ((start + (0 + m)) % n ≡ j)
round_of start j n hs hj = elim (Bool-cases (leb start j)) [
  | inl le ↦
      let e : start + (0 + (j - start)) ≡ j = ground arith in
      (j - start, ground arith, rw e (mod-eq_of_lt hj))
  | inr gt ↦
      let e : start + (0 + (j + n - start)) ≡ j + n = ground arith in
      (j + n - start, ground arith, rw e (grind arith))
]

get_elem?-eq-none {ℓ} : {A : Type ℓ} (xs : List A) (j : ℕ) → length xs ≤ j → get_elem? xs j ≡ none
get_elem?-eq-none [] j h = refl
get_elem?-eq-none (x ∷ xs) zero h = absurd (omega arith)
get_elem?-eq-none (x ∷ xs) (suc j) h = get_elem?-eq-none xs j (omega arith)

scan-Covers_all :
    (p : Pool) (j : ℕ)
    → p.rr < length p.items
    → Covers (scan p.items p.rr 0 (length p.items) none) (get_elem? p.items j)
scan-Covers_all p j h = elim (Bool-cases (ltb j (length p.items))) [
  | inl inside ↦
      let (m, below, same) = round_of p.rr j (length p.items) h (ground arith) in
      rw same at (scan-Covers_round p.items p.rr 0 (length p.items) m none below)
  | inr outside ↦ rw (get_elem?-eq-none p.items j (ground arith)) tt
]

-- What `checkout` leaves and returns when it hands out slot `i` with session `c`.
pub record Takes (p : Pool) (i : ℕ) (c : Client) : Type 0 where
  pub slot : Slot
  pub found : get_elem? p.items i ≡ some slot
  pub ready : slot.reconnecting ≡ false
  pub live : slot.client ≡ some c
  pub after :
      checkout p
      ≡ (record (modify_slot i add_stream p) { rr = (i + 1) % length p.items }, some (i, c))
  pub least :
      (j : ℕ) (it : Slot)
      → get_elem? p.items j ≡ some it
      → is_healthy it ≡ true
      → slot.streams ≤ it.streams

-- What holds of a pool that hands out nothing, and is left as it was.
pub record Refuses (p : Pool) : Type 0 where
  pub unchanged : checkout p ≡ (p, none)
  pub none_healthy : (j : ℕ) (it : Slot) → get_elem? p.items j ≡ some it → is_healthy it ≡ false

is_empty_pool_lem : (items : List Slot) {n : ℕ} → n < length items → is_empty_pool items ≡ false
is_empty_pool_lem [] h = absurd (omega arith)
is_empty_pool_lem (x ∷ xs) h = refl

abbrev after_scan : Pool → Option Choice → Pool × Option (ℕ × Client)
after_scan p none = (p, none)
after_scan p (some c) = claim c.index p

checkout_scanned :
    (p : Pool) (o : Option Choice)
    → p.closed ≡ false
    → p.rr < length p.items
    → scan p.items p.rr 0 (length p.items) none ≡ o
    → checkout p ≡ after_scan p o
unfolding checkout
checkout_scanned p none open_ fits e = ground (arith, is_empty_pool_lem p.items fits)
checkout_scanned p (some c) open_ fits e = ground (arith, is_empty_pool_lem p.items fits)

healthy_parts :
    (it : Slot)
    → is_healthy it ≡ true
    → (c : Client) × (it.client ≡ some c) × (it.reconnecting ≡ false)
healthy_parts it h = elim (Option-cases it.client) [
  | inl dead ↦ absurd (ground arith)
  | inr (c, live) ↦ (c, live, ground arith)
]

pub claim_ready :
    (p : Pool) (i : ℕ) (it : Slot) (c : Client)
    → get_elem? p.items i ≡ some it
    → it.reconnecting ≡ false
    → it.client ≡ some c
    → claim i p
      ≡ (record (modify_slot i add_stream p) { rr = (i + 1) % length p.items }, some (i, c))
unfolding claim claim_slot
claim_ready p i it c at ready live = rw (at, claim_slot) (ground arith)

Covers-none : (o : Option Slot) (it : Slot) → Covers none o → o ≡ some it → is_healthy it ≡ false
Covers-none none it h e = cc
Covers-none (some it') it h e = elim (Bool-cases (is_healthy it)) [
  | inl ok ↦ let (c, bad, _) = h (ground arith) in cc
  | inr bad ↦ bad
]

Covers-some :
    (b : Choice) (o : Option Slot) (it : Slot)
    → Covers (some b) o
    → o ≡ some it
    → is_healthy it ≡ true
    → b.streams ≤ it.streams
Covers-some b none it h e ok = cc
Covers-some b (some it') it h e ok = let (c, same, le) = h (ground arith) in ground arith

checkout_open :
    (p : Pool) (o : Option Choice)
    → p.closed ≡ false
    → p.rr < length p.items
    → scan p.items p.rr 0 (length p.items) none ≡ o
    → ((i : ℕ) × (c : Client) × Takes p i c) ⊎ Refuses p
checkout_open p none open_ fits e = inr (record {
  unchanged = checkout_scanned p none open_ fits e;
  none_healthy =
      λ j it at. Covers-none (get_elem? p.items j) it (rw e at (scan-Covers_all p j fits)) at;
})
checkout_open p (some b) open_ fits e =
    let (it, at, ok, same) = rw e at (scan-Chosen p.items p.rr 0 (length p.items) none tt) in
    let (c, live, ready) = healthy_parts it ok in
    inl (
      b.index,
      c,
      record {
        slot = it;
        found = at;
        ready = ready;
        live = live;
        after = checkout_scanned p (some b) open_ fits e ∙ claim_ready p b.index it c at ready live;
        least = λ j it' at' ok'. omega (
          arith,
          same,
          Covers-some b (get_elem? p.items j) it' (rw e at (scan-Covers_all p j fits)) at' ok',
        );
      },
    )

-- An open pool, whose next scan begins at one of its slots, hands out the slot with the fewest
-- streams among the healthy ones, counts one stream more there and starts its next scan behind it;
-- if none is healthy it hands out nothing.
pub checkout-Takes :
    (p : Pool)
    → p.closed ≡ false
    → p.rr < length p.items
    → ((i : ℕ) × (c : Client) × Takes p i c) ⊎ Refuses p
checkout-Takes p open_ fits = checkout_open p _ open_ fits refl

-- A pool in which no slot has a session hands out nothing.
pub checkout_dead :
    (p : Pool)
    → ((j : ℕ) (it : Slot) → get_elem? p.items j ≡ some it → it.client ≡ none)
    → checkout p ≡ (p, none)
unfolding checkout
checkout_dead p dead = elim (Option-cases (scan p.items p.rr 0 (length p.items) none)) [
  | inl e ↦ ground (arith, e)
  | inr (b, e) ↦
      let (it, at, ok, same) = rw e at (scan-Chosen p.items p.rr 0 (length p.items) none tt) in
      let (c, live, ready) = healthy_parts it ok in cc (dead b.index it at, live)
]
