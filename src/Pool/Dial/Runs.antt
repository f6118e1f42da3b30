-- ===== src/Pool/Dial/Runs.antt =====
-- What `Dial` leaves behind, however its rounds go.
use sshcustom_magisk.Base.{
  ℕ, ◌≡◌, refl, ap, ◌∙◌, ◌⊎◌, inl, inr, Bool, true, false, List, [], ◌∷◌, ◌++◌, Option, none, some,
  arith, if◌then◌else◌, Bool-cases, Option-cases, length, All,
}
use sshcustom_magisk.Errors.{is_ssh_transport_broken}
use sshcustom_magisk.Text.{Text}
use sshcustom_magisk.Pool.{Client, Pool, checkout, claim, scan, is_empty_pool}
use sshcustom_magisk.Pool.Dial.{
  Turn, Outcome, opened, failed, pending, drop_lease, give_back, break_if, dial_wait, dial_open,
  dial_round, dial, next_pause, is_past,
}
use sshcustom_magisk.Pool.Steps.{ensure, take, release, drop, show, Reach, here, next, Reach-trans}
use sshcustom_magisk.Pool.System.{
  System, publish, ensure_async, take_stream, take_slot, release_slot, mark_broken, lease_of,
}

-- A checkout is a claim of some slot, or nothing.
checkout-claim : (p : Pool) → ((i : ℕ) × (checkout p ≡ claim i p)) ⊎ (checkout p ≡ (p, none))
unfolding checkout
checkout-claim p = elim (Option-cases (scan p.items p.rr 0 (length p.items) none)) [
  | inl e ↦ inr (ground (arith, e))
  | inr (b, e) ↦ elim (Bool-cases p.closed) [
    | inl shut ↦ inr (ground arith)
    | inr open_ ↦ elim (Bool-cases (is_empty_pool p.items)) [
      | inl bare ↦ inr (ground arith)
      | inr full ↦ inl (b.index, ground arith)
    ]
  ]
]

take_stream-Reach : (s : System) → Reach s (take_stream s)
unfolding take_stream
take_stream-Reach s = elim (checkout-claim s.pool) [
  | inl (i, e) ↦ rw e (unfold take_slot in next here (take s i))
  | inr e ↦ rw e here
]

-- What other goroutines do meanwhile is a run of the pool that leaves the leases alone.
abbrev pub IsRun : (System → System) → Type 0
IsRun f = (s : System) → Reach s (f s) × ((f s).leases ≡ s.leases)

abbrev pub AreRuns : List Turn → Type 0
AreRuns = All (λ t. IsRun t.others × IsRun t.during)

-- The leases behind a call: one more where it has opened a stream, and else those from before.
abbrev pub Accounts : List ℕ → System → Outcome → Type 0
Accounts leases s (opened i c) = s.leases ≡ i ∷ leases
Accounts leases s (failed e) = s.leases ≡ leases
Accounts leases s pending = s.leases ≡ leases

abbrev pub IsFine : System → System × Outcome → Type 0
IsFine s r = Reach s r.0 × Accounts s.leases r.0 r.1

Accounts-same :
    {ls ms : List ℕ} (s : System) (o : Outcome) → ls ≡ ms → Accounts ls s o → Accounts ms s o
Accounts-same s (opened i c) e h = h ∙ ap (◌∷◌ i) e
Accounts-same s (failed x) e h = h ∙ e
Accounts-same s pending e h = h ∙ e

IsFine-after :
    (s t : System) (r : System × Outcome)
    → Reach s t
    → t.leases ≡ s.leases
    → IsFine t r
    → IsFine s r
IsFine-after s t r reach e h = (Reach-trans reach h.0, Accounts-same r.0 r.1 e h.1)

ensure_async-leases : (now : ℕ) (s : System) → (ensure_async now s).leases ≡ s.leases
unfolding ensure_async
ensure_async-leases now s = ground arith

break_if-Reach : (b : Bool) (i : ℕ) (err : Text) (s : System) → Reach s (break_if b i err s)
break_if-Reach true i err s = next here (drop s i err)
break_if-Reach false i err s = here

break_if-leases :
    (b : Bool) (i : ℕ) (err : Text) (s : System) → (break_if b i err s).leases ≡ s.leases
unfolding mark_broken
break_if-leases true i err s = ground arith
break_if-leases false i err s = refl

-- The rest of the loop is fine from any state.
abbrev RestFine : (ℕ → Option Text → System → System × Outcome) → Type 0
RestFine rest = (pause : ℕ) (last : Option Text) (s : System) → IsFine s (rest pause last s)

if-IsFine :
    (s : System) (b : Bool) (q r : System × Outcome)
    → IsFine s q
    → IsFine s r
    → IsFine s (if b then q else r)
if-IsFine s true q r h k = h
if-IsFine s false q r h k = k

dial_wait-IsFine :
    (deadline : ℕ) (t : Turn) (rest : ℕ → Option Text → System → System × Outcome) (pause : ℕ)
    (last : Option Text) (s : System)
    → RestFine rest
    → IsFine s (dial_wait deadline t rest pause last s)
unfolding dial_wait
dial_wait-IsFine deadline t rest pause last s h =
    let waited = ensure_async t.now s in
    let reach : Reach s waited = next here (ensure s t.now) in
    let same = ensure_async-leases t.now s in
    elim (Bool-cases (is_past deadline t)) [
      | inl done ↦ rw done (reach, same)
      | inr more ↦ elim (Option-cases (t.sleep_err pause)) [
        | inl slept ↦
            rw (more, slept)
              (IsFine-after s waited (rest (next_pause pause) last waited) reach same
                (h (next_pause pause) last waited))
        | inr (e, cut) ↦ rw (more, cut) (reach, same)
      ]
    ]

give_back_lem :
    (i : ℕ) (s : System) (ls : List ℕ)
    → s.leases ≡ i ∷ ls
    → Reach s (give_back i s) × ((give_back i s).leases ≡ ls)
unfolding release_slot
give_back_lem i s ls e =
    let d : drop_lease i s.leases ≡ ls = ap (drop_lease i) e ∙ ground arith in
    (rw d (next here (release s i [] ls e)), d)

-- The state behind an error of `client.Dial`.
abbrev pub failed_open : ℕ → Text → System → System
failed_open i err s = break_if (is_ssh_transport_broken (some err)) i err (give_back i s)

failed_open_lem :
    (i : ℕ) (err : Text) (s : System) (ls : List ℕ)
    → s.leases ≡ i ∷ ls
    → Reach s (failed_open i err s) × ((failed_open i err s).leases ≡ ls)
failed_open_lem i err s ls e =
    let (reach, same) = give_back_lem i s ls e in
    let b = is_ssh_transport_broken (some err) in
    (
      Reach-trans reach (break_if-Reach b i err (give_back i s)),
      break_if-leases b i err (give_back i s) ∙ same,
    )

dial_open-IsFine :
    (deadline : ℕ) (t : Turn) (rest : ℕ → Option Text → System → System × Outcome) (i : ℕ)
    (c : Client) (pause : ℕ) (last : Option Text) (s : System) (ls : List ℕ)
    → IsRun t.during
    → RestFine rest
    → s.leases ≡ i ∷ ls
    → Reach s (dial_open deadline t rest i c pause last s).0
      × Accounts ls
          (dial_open deadline t rest i c pause last s).0
          (dial_open deadline t rest i c pause last s).1
unfolding dial_open
dial_open-IsFine deadline t rest i c pause last s ls run h e =
    let (met, books) = run s in
    let held : (t.during s).leases ≡ i ∷ ls = books ∙ e in
    elim (Option-cases t.answer) [
      | inl opens ↦ rw opens (next met (show (t.during s)), unfold publish in held)
      | inr (err, fails) ↦
          let (reach, same) = failed_open_lem i err (t.during s) ls held in
          let kept = failed_open i err (t.during s) in
          elim (Bool-cases (is_past deadline t)) [
            | inl done ↦ rw (fails, done) (Reach-trans met reach, same)
            | inr more ↦
                let again = h pause (some err) kept in
                rw (fails, more)
                  (
                    Reach-trans met (Reach-trans reach again.0),
                    Accounts-same (rest pause (some err) kept).0 (rest pause (some err) kept).1 same
                        again.1,
                  )
          ]
    ]

take_stream-leases :
    (s : System) → (take_stream s).leases ≡ lease_of (checkout s.pool).1 ++ s.leases
unfolding take_stream
take_stream-leases s = refl

dial_round-IsFine :
    (deadline : ℕ) (t : Turn) (rest : ℕ → Option Text → System → System × Outcome)
    (got : Option (ℕ × Client)) (pause : ℕ) (last : Option Text) (s : System)
    → IsRun t.during
    → RestFine rest
    → (checkout s.pool).1 ≡ got
    → IsFine s (dial_round deadline t rest got pause last (take_stream s))
unfolding dial_round
dial_round-IsFine deadline t rest none pause last s run h e =
    IsFine-after s (take_stream s) (dial_wait deadline t rest pause last (take_stream s))
      (take_stream-Reach s) (take_stream-leases s ∙ ap (λ got. lease_of got ++ s.leases) e)
      (dial_wait-IsFine deadline t rest pause last (take_stream s) h)
dial_round-IsFine deadline t rest (some (i, c)) pause last s run h e =
    let (reach, books) =
      dial_open-IsFine deadline t rest i c pause last (take_stream s) s.leases run h
        (take_stream-leases s ∙ ap (λ got. lease_of got ++ s.leases) e) in
    (Reach-trans (take_stream-Reach s) reach, books)

-- Where what others do meanwhile is a run of the pool that leaves the leases alone, a call of `Dial`
-- is a run of the pool, and keeps the books of the streams: one stream more is held where it returns
-- a connection, on the slot that it names, and where it fails, or is still at work, none is,
-- whatever sessions broke on the way, and whatever the deadline is.
pub dial-IsFine :
    (deadline : ℕ) (ts : List Turn) (pause : ℕ) (last : Option Text) (s : System)
    → AreRuns ts
    → IsFine s (dial deadline ts pause last s)
unfolding dial
dial-IsFine deadline [] pause last s runs = (here, refl)
dial-IsFine deadline (t ∷ ts) pause last s runs = elim (Option-cases t.ctx_err) [
  | inr (e, over) ↦ rw over (here, refl)
  | inl live ↦ rw live (
      let met = t.others s in
      IsFine-after s met
        (dial_round deadline t (dial deadline ts) (checkout met.pool).1 pause last
          (take_stream met))
        (runs.0.0 s).0 (runs.0.0 s).1
        (dial_round-IsFine deadline t (dial deadline ts) (checkout met.pool).1 pause last met
          runs.0.1 (λ pause last s. dial-IsFine deadline ts pause last s runs.1) refl))
]
