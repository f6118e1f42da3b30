-- ===== src/Manager.antt =====
-- The control flow of `connectionManager` (cmd/sshcustomd/main.go): its phases, its delays and its
-- watch over the route. Its keepalives and the fields that it publishes are left out.
--
-- A `time.Duration` is an `int64` of nanoseconds, written as a number below 2 ^ 64.
pub mod Delays
use sshcustom_magisk.Base.{
  ℕ, ◌+◌, ◌*◌, ◌%◌, ◌^◌, Bool, true, false, not, ◌&&◌, ◌||◌, List, ltb, leb, ◌==◌, if◌then◌else◌,
  ◌≡◌,
}
use sshcustom_magisk.Base.Int.{ℤ}
use sshcustom_magisk.Text.{Text, codes, is_empty, eq_text, trim_space}
use sshcustom_magisk.Pool.{seconds_default}

pub record RouteInfo : Type 0 where
  pub online : Bool
  pub raw : Text
  pub interface : Text
  pub gateway : Text
  pub source : Text

-- `routeSignature`.
unfoldable pub route_signature : RouteInfo → Text
unfolding trim_space
route_signature ri =
    let iface = trim_space ri.interface in
    if not ri.online
    then codes "offline"
    else if not (is_empty iface)
    then iface
    else codes "online"

-- `lastRouteSig` and `routeChangeMismatches`.
pub record Watch : Type 0 where
  pub last_signature : Text
  pub mismatches : ℕ

-- Where the loop stands: at its top, inside `attemptSSHAuth`, asleep for that long, in the inner
-- loop with a pool, or returned.
pub data Phase : Type 0 where
  looking : Phase
  attempting : Phase
  waiting : ℕ → Phase
  serving : Watch → Phase
  returned : Phase

pub record Manager : Type 0 where
  pub delay : ℕ
  pub attempt : ℕ
  pub phase : Phase

-- The settings `RetryInitialDelaySec` and `RetryMaxDelaySec`.
pub record Retry : Type 0 where
  pub initial_setting : ℤ
  pub longest_setting : ℤ

-- `time.Duration(n) * time.Second`.
unfoldable pub seconds : ℕ → ℕ
seconds n = (n * 1000000000) % 2 ^ 64

-- `>` on signed numbers.
unfoldable pub is_longer : ℕ → ℕ → Bool
is_longer a b = ltb ((b + 2 ^ 63) % 2 ^ 64) ((a + 2 ^ 63) % 2 ^ 64)

unfoldable pub initial_delay : Retry → ℕ
unfolding seconds_default seconds
initial_delay r = seconds (seconds_default r.initial_setting 5)

unfoldable pub longest_delay : Retry → ℕ
unfolding seconds_default seconds
longest_delay r = seconds (seconds_default r.longest_setting 60)

unfoldable pub new_manager : Retry → Manager
unfolding initial_delay
new_manager r = record { delay = initial_delay r; attempt = 0; phase = looking }

-- The top of the loop, up to the call of `attemptSSHAuth` or the sleep.
unfoldable pub look_around : RouteInfo → Manager → Manager
look_around ri m =
    if not ri.online
    then record m { phase = waiting 15000000000 }
    else record m { attempt = m.attempt + 1; phase = attempting }

-- The delay behind a sleep of `retry_delay`.
unfoldable pub doubled : ℕ → ℕ → ℕ → ℕ
unfolding is_longer
doubled longest retry_delay delay =
    let next = (delay * 2) % 2 ^ 64 in
    if retry_delay == delay then (if is_longer next longest then longest else next) else delay

-- A failed authentication; the flag is `isNetworkTransientError(err) || !routeInfo().Online`. The
-- new delay, set behind the sleep in the code, is set here before it.
unfoldable pub auth_failed : Retry → Bool → Manager → Manager
unfolding initial_delay longest_delay doubled
auth_failed r quick m =
    let retry_delay = if quick then 3000000000 else m.delay in
    let delay = if quick then initial_delay r else m.delay in
    record m { delay = doubled (longest_delay r) retry_delay delay; phase = waiting retry_delay }

-- An authentication that succeeds: the pool is made and the watch begins.
unfoldable pub auth_succeeded : Retry → RouteInfo → Manager → Manager
unfolding initial_delay route_signature
auth_succeeded r ri m = record m {
  delay = initial_delay r;
  phase = serving (record { last_signature = route_signature ri; mismatches = 0 });
}

abbrev pub is_mismatch : Text → Text → Bool
is_mismatch last new = not (is_empty last) && (not (is_empty new) && not (eq_text new last))

-- The pool is closed, and the loop starts again after a second.
abbrev pub restart_soon : Manager → Manager
restart_soon m = record m { delay = 1000000000; phase = waiting 1000000000 }

-- The case of `routeTicker`.
unfoldable pub route_tick : RouteInfo → Watch → Manager → Manager
unfolding route_signature eq_text
route_tick ri w m =
    let new = route_signature ri in
    let fresh : Watch = record { last_signature = new; mismatches = 0 } in
    let more : Watch = record w { mismatches = w.mismatches + 1 } in
    if not ri.online
    then restart_soon m
    else if is_mismatch w.last_signature new
    then (if leb 3 (w.mismatches + 1) then restart_soon m else record m { phase = serving more })
    else record m { phase = serving fresh }

abbrev pub in_phase : Phase → Manager → Manager
in_phase phase m = record m { phase = phase }

pub data Turn (r : Retry) : Manager → Manager → Type 0 where
  look : (m : Manager) (ri : RouteInfo) → Turn r (in_phase looking m) (look_around ri m)
  fail : (m : Manager) (quick : Bool) → Turn r (in_phase attempting m) (auth_failed r quick m)
  succeed : (m : Manager) (ri : RouteInfo) → Turn r (in_phase attempting m) (auth_succeeded r ri m)
  wake : (m : Manager) (d : ℕ) → Turn r (in_phase (waiting d) m) (in_phase looking m)
  tick :
      (m : Manager) (w : Watch) (ri : RouteInfo)
      → Turn r (in_phase (serving w) m) (route_tick ri w m)
  stop : (m : Manager) → Turn r m (in_phase returned m)

-- The states that a run of the manager comes to.
pub data Visits (r : Retry) : Manager → Type 0 where
  begin : Visits r (new_manager r)
  onward : {m n : Manager} → Visits r m → Turn r m n → Visits r n
