-- ===== src/Pool/Steps.antt =====
-- The runs of the pool: any interleaving of its methods, its goroutines and its environment.
use sshcustom_magisk.Base.{ℕ, List, ◌∷◌, ◌++◌, ◌≡◌}
use sshcustom_magisk.Text.{Text}
use sshcustom_magisk.Pool.{Client}
use sshcustom_magisk.Pool.System.{
  Task, starting, authenticating, backing_off, sleeping, System, ProbeResult, close, cancel,
  ensure_async, reconnect_start, reconnect_failed, back_off, reconnect_succeeded, take_slot,
  release_slot, mark_broken, publish,
}

-- The goroutine `t` leaves the list of those at work.
abbrev pub Leaves : Task → System → List Task → List Task → Type 0
Leaves t s before after = s.tasks ≡ before ++ (t ∷ after)

abbrev pub without : System → List Task → List Task → System
without s before after = record s { tasks = before ++ after }

-- `take` claims any slot: the scan of `checkout` may have seen an older state of the pool.
pub data Step : System → System → Type 0 where
  ensure : (s : System) (now : ℕ) → Step s (ensure_async now s)
  start :
      (s : System) (i : ℕ) (before after : List Task)
      → Leaves (starting i) s before after
      → Step s (reconnect_start i (without s before after))
  fail :
      (s : System) (i : ℕ) (err : Text) (before after : List Task)
      → Leaves (authenticating i) s before after
      → Step s (reconnect_failed i err (without s before after))
  succeed :
      (s : System) (i : ℕ) (client : Client) (res : ProbeResult) (before after : List Task)
      → Leaves (authenticating i) s before after
      → Step s (reconnect_succeeded i client res (without s before after))
  doze :
      (s : System) (i : ℕ) (before after : List Task)
      → Leaves (backing_off i) s before after
      → Step s (back_off i (without s before after))
  wake :
      (s : System) (i delay now : ℕ) (before after : List Task)
      → Leaves (sleeping i delay) s before after
      → Step s (ensure_async now (without s before after))
  expire :
      (s : System) (i delay : ℕ) (before after : List Task)
      → Leaves (sleeping i delay) s before after
      → Step s (without s before after)
  take : (s : System) (i : ℕ) → Step s (take_slot i s)
  release :
      (s : System) (i : ℕ) (before after : List ℕ)
      → s.leases ≡ before ++ (i ∷ after)
      → Step s (release_slot i (record s { leases = before ++ after }))
  drop : (s : System) (i : ℕ) (err : Text) → Step s (mark_broken i err s)
  show : (s : System) → Step s (publish s)
  shut : (s : System) → Step s (close s)
  stop : (s : System) → Step s (cancel s)

pub data Reach (s : System) : System → Type 0 where
  here : Reach s s
  next : {t u : System} → Reach s t → Step t u → Reach s u

pub Reach-trans : {s t u : System} → Reach s t → Reach t u → Reach s u
Reach-trans r here = r
Reach-trans r (next q st) = next (Reach-trans r q) st
