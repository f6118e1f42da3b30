-- ===== src/Pool/Shut.antt =====
-- A pool that is closed stays closed.
use sshcustom_magisk.Base.{◌≡◌, refl, true, none, arith, inl, inr, get_elem?, Bool-cases}
use sshcustom_magisk.Pool.{Pool, checkout}
use sshcustom_magisk.Pool.Books.{claim-cases}
use sshcustom_magisk.Pool.System.{
  System, ensure_async, reconnect_start, reconnect_failed, take_slot, mark_broken, is_reconnecting,
  cancel, reconnect_succeeded, back_off, release_slot, close, publish,
}
use sshcustom_magisk.Pool.Steps.{
  Step, ensure, start, fail, succeed, doze, wake, expire, take, release, drop, show, shut, stop,
  Reach, here, next,
}

abbrev IsShut : System → Type 0
IsShut s = s.pool.closed ≡ true

Step-IsShut : {s t : System} → Step s t → IsShut s → IsShut t
unfolding ensure_async reconnect_start reconnect_failed take_slot mark_broken cancel
    reconnect_succeeded back_off release_slot close publish
Step-IsShut (ensure s now) h = ground (arith, h)
Step-IsShut (start s i before after l) h = ground (arith, h)
Step-IsShut (fail s i err before after l) h = ground (arith, h)
Step-IsShut (succeed s i client res before after l) h = h
Step-IsShut (doze s i before after l) h = h
Step-IsShut (wake s i delay now before after l) h = ground (arith, h)
Step-IsShut (expire s i delay before after l) h = h
Step-IsShut (take s i) h = elim (claim-cases i s.pool) [
  | inl e ↦ rw e h
  | inr (it, c, e, found, ready, live) ↦ rw e h
]
Step-IsShut (release s i before after l) h = h
Step-IsShut (drop s i err) h = elim (Bool-cases (is_reconnecting (get_elem? s.pool.items i))) [
  | inl busy ↦ rw busy h
  | inr idle ↦ rw idle h
]
Step-IsShut (show s) h = h
Step-IsShut (shut s) h = refl
Step-IsShut (stop s) h = h

pub Reach-IsShut : {s t : System} → s.pool.closed ≡ true → Reach s t → t.pool.closed ≡ true
Reach-IsShut h here = h
Reach-IsShut h (next r st) = Step-IsShut st (Reach-IsShut h r)

pub checkout-shut : (p : Pool) → p.closed ≡ true → checkout p ≡ (p, none)
unfolding checkout
checkout-shut p h = rw h refl
