-- ===== src/Pool/Dial/Settles.antt =====
-- `Dial` comes to its end.
use sshcustom_magisk.Base.{
  ℕ, ◌≡◌, ◌≢◌, ◌⊎◌, inl, inr, true, List, [], ◌∷◌, ◌+◌, ◌*◌, ◌≤◌, ◌<◌, Option, none, some, arith,
  Bool-cases, Option-cases, length,
}
use sshcustom_magisk.Base.Int.{ℤ}
use sshcustom_magisk.Text.{Text}
use sshcustom_magisk.Pool.{Client, checkout}
use sshcustom_magisk.Pool.Dial.{
  Turn, Outcome, pending, dial_wait, dial_open, dial_round, dial, next_pause, is_past,
  acquire_seconds, deadline_of, dial_from,
}
use sshcustom_magisk.Pool.System.{System, ensure_async, take_stream}
use sshcustom_magisk.Pool.Dial.Runs.{failed_open}

-- The rounds in turn take at least `step` each, by the clock, from the time `from` on.
abbrev pub Advances : ℕ → ℕ → List Turn → Type 0
Advances step from [] = Unit
Advances step from (t ∷ ts) = (from + step ≤ t.clock) × Advances step t.clock ts

dial_round-settles :
    (deadline : ℕ) (t : Turn) (rest : ℕ → Option Text → System → System × Outcome)
    (got : Option (ℕ × Client)) (pause : ℕ) (last : Option Text) (s : System)
    → (is_past deadline t ≡ true)
      ⊎ ((pause : ℕ) (last : Option Text) (s : System) → (rest pause last s).1 ≢ pending)
    → (dial_round deadline t rest got pause last s).1 ≢ pending
unfolding dial_round dial_wait dial_open
dial_round-settles deadline t rest none pause last s (inl done) = ground arith
dial_round-settles deadline t rest (some (i, c)) pause last s (inl done) = ground arith
dial_round-settles deadline t rest none pause last s (inr h) =
    ground (arith, h (next_pause pause) last (ensure_async t.now s))
dial_round-settles deadline t rest (some (i, c)) pause last s (inr h) =
    elim (Option-cases t.answer) [
      | inl opens ↦ ground arith
      | inr (err, fails) ↦ ground (arith, h pause (some err) (failed_open i err (t.during s)))
    ]

dial-settles :
    (deadline step from : ℕ) (ts : List Turn) (pause : ℕ) (last : Option Text) (s : System)
    → from ≤ deadline
    → deadline < from + length ts * step
    → Advances step from ts
    → (dial deadline ts pause last s).1 ≢ pending
unfolding dial
dial-settles deadline step from [] pause last s early late adv = absurd (omega (arith, early, late))
dial-settles deadline step from (t ∷ ts) pause last s early late adv =
    elim (Option-cases t.ctx_err) [
      | inr (e, over) ↦ rw over (λ e. cc)
      | inl live ↦ rw live (
          dial_round-settles deadline t (dial deadline ts) (checkout (t.others s).pool).1 pause last
            (take_stream (t.others s))
            (elim (Bool-cases (is_past deadline t)) [
              | inl past ↦ inl past
              | inr more ↦ inr (λ pause last s.
                  dial-settles deadline step t.clock ts pause last s (ground (arith, more))
                    (omega (arith, late, adv.0)) adv.1)
            ]))
    ]

-- `Dial` returns: where each of its rounds comes to its end, `client.Dial` included, and takes at
-- least `step` by the clock, it is over within the number of rounds in which such steps exceed the
-- time that it is ready to wait.
pub dial_from-settles :
    (configured : ℤ) (start step : ℕ) (ts : List Turn) (s : System)
    → acquire_seconds configured * 1000000000 < length ts * step
    → Advances step start ts
    → (dial_from configured start ts s).1 ≢ pending
unfolding dial_from deadline_of
dial_from-settles configured start step ts s long adv =
    dial-settles (deadline_of configured start) step start ts 50 none s (omega arith)
      (omega (arith, long)) adv
