-- ===== src/Pool/Dial.antt =====
-- `SSHPool.Dial`: the loop that looks for a session until its deadline. What the loop meets is
-- given round by round: what other goroutines do, before the checkout and while `client.Dial`
-- waits, whether the caller's context is done, what the clock shows, how the sleep ends and how the
-- server answers. The clock and the deadline are in nanoseconds.
pub mod Runs
pub mod Settles
use sshcustom_magisk.Base.{
  ℕ, ◌+◌, ◌*◌, Bool, true, false, List, [], ◌∷◌, Option, none, some, ltb, ◌==◌, if◌then◌else◌,
}
use sshcustom_magisk.Base.Int.{ℤ}
use sshcustom_magisk.Errors.{is_ssh_transport_broken}
use sshcustom_magisk.Text.{Text, codes}
use sshcustom_magisk.Pool.{Client, seconds_default, checkout}
use sshcustom_magisk.Pool.System.{
  System, publish, ensure_async, take_stream, release_slot, mark_broken,
}

-- The time in seconds that `Dial` is ready to wait.
unfoldable pub acquire_seconds : ℤ → ℕ
unfolding seconds_default
acquire_seconds configured =
    let wanted = seconds_default configured 15 in
    let raised = if ltb wanted 3 then 3 else wanted in if ltb 60 raised then 60 else raised

-- One round. `ctx_err` is `ctx.Err()` at its start, `others` is what other goroutines do up to the
-- checkout and `during` what they do while `client.Dial` waits, `answer` is the error of that call,
-- `now` is the time at which `EnsureAsync` is called, `clock` is `time.Now()` at the test of the
-- deadline, and `sleep_err` is `ctx.Err()` where a sleep of that many milliseconds is cut short.
pub record Turn : Type 0 where
  pub others : System → System
  pub ctx_err : Option Text
  pub now : ℕ
  pub clock : ℕ
  pub sleep_err : ℕ → Option Text
  pub during : System → System
  pub answer : Option Text

-- `pending`: the rounds given did not bring the loop to its end.
pub data Outcome : Type 0 where
  opened : ℕ → Client → Outcome
  failed : Text → Outcome
  pending : Outcome

abbrev pub no_session : Text
no_session = codes "no healthy SSH pool session; all SSH sessions are reconnecting"

-- `lastErr` if there is one.
abbrev pub last_or : Option Text → Text → Text
last_or none e = e
last_or (some last) e = last

unfoldable pub next_pause : ℕ → ℕ
next_pause pause = if ltb pause 150 then pause + 25 else pause

-- The first lease of slot `i` is given back.
abbrev pub drop_lease : ℕ → List ℕ → List ℕ
drop_lease i [] = []
drop_lease i (j ∷ js) = let rest = drop_lease i js in if i == j then js else j ∷ rest

abbrev pub give_back : ℕ → System → System
give_back i s = release_slot i (record s { leases = drop_lease i s.leases })

abbrev pub break_if : Bool → ℕ → Text → System → System
break_if true i err s = mark_broken i err s
break_if false i err s = s

abbrev Loop : Type 0
Loop = ℕ → Option Text → System → System × Outcome

-- `time.Now().After(deadline)`.
abbrev pub is_past : ℕ → Turn → Bool
is_past deadline t = ltb deadline t.clock

-- The part of a round behind `checkout` where there is no session to be had.
unfoldable pub dial_wait : ℕ → Turn → Loop → Loop
unfolding next_pause
dial_wait deadline t rest pause last s =
    let waited = ensure_async t.now s in
    let again = rest (next_pause pause) last waited in
    if is_past deadline t
    then (waited, failed (last_or last no_session))
    else elim (t.sleep_err pause) [ none ↦ again | some e ↦ (waited, failed (last_or last e)) ]

-- The part of a round behind `checkout` with a session.
unfoldable pub dial_open : ℕ → Turn → Loop → ℕ → Client → Loop
dial_open deadline t rest i c pause last s = elim t.answer [
  | none ↦ (publish (t.during s), opened i c)
  | some err ↦
      let kept = break_if (is_ssh_transport_broken (some err)) i err (give_back i (t.during s)) in
      let again = rest pause (some err) kept in
      if is_past deadline t then (kept, failed err) else again
]

unfoldable pub dial_round : ℕ → Turn → Loop → Option (ℕ × Client) → Loop
unfolding dial_wait dial_open
dial_round deadline t rest none = dial_wait deadline t rest
dial_round deadline t rest (some (i, c)) = dial_open deadline t rest i c

-- The loop of `Dial` with its deadline, its pause and its last error.
unfoldable pub dial : ℕ → List Turn → Loop
unfolding dial_round
dial deadline [] pause last s = (s, pending)
dial deadline (t ∷ ts) pause last s = elim t.ctx_err [
  | some e ↦ (s, failed (last_or last e))
  | none ↦
      let met = t.others s in
      dial_round deadline t (dial deadline ts) (checkout met.pool).1 pause last (take_stream met)
]

-- The time up to which a `Dial` that begins at `start` waits.
unfoldable pub deadline_of : ℤ → ℕ → ℕ
unfolding acquire_seconds
deadline_of configured start = start + acquire_seconds configured * 1000000000

-- A whole call of `Dial` that begins at `start`.
unfoldable pub dial_from : ℤ → ℕ → List Turn → System → System × Outcome
unfolding dial deadline_of
dial_from configured start ts s = dial (deadline_of configured start) ts 50 none s
