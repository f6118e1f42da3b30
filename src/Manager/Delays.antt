-- ===== src/Manager/Delays.antt =====
-- What holds of the manager's delays and of its watch in every state that it comes to.
use sshcustom_magisk.Base.{
  ℕ, zero, suc, ◌+◌, ◌*◌, ◌≤◌, ◌<◌, ◌%◌, ◌^◌, ◌≡◌, Bool, true, false, arith, ltb, leb, ◌==◌,
  Bool-cases, inl, inr,
}
use sshcustom_magisk.Base.Int.{ℤ, pos, negsuc}
use sshcustom_magisk.Pool.{seconds_default}
use sshcustom_magisk.Manager.{
  RouteInfo, route_signature, Watch, Phase, looking, attempting, waiting, serving, returned,
  Manager, Retry, seconds, is_longer, initial_delay, longest_delay, new_manager, look_around,
  doubled, auth_failed, auth_succeeded, is_mismatch, restart_soon, route_tick, Turn, look, fail,
  succeed, wake, tick, stop, Visits, begin, onward,
}

-- The delay never leaves these bounds.
abbrev pub IsDelay : Retry → ℕ → Type 0
IsDelay r d = (1000000000 ≤ d) × (d ≤ initial_delay r + longest_delay r)

abbrev pub IsSane : Retry → Phase → Type 0
IsSane r looking = Unit
IsSane r attempting = Unit
IsSane r (waiting d) = (1000000000 ≤ d) × (d ≤ 15000000000 + (initial_delay r + longest_delay r))
IsSane r (serving w) = w.mismatches ≤ 2
IsSane r returned = Unit

seconds_default-pos : (n : ℤ) (d : ℕ) → 1 ≤ d → 1 ≤ seconds_default n d
unfolding seconds_default
seconds_default-pos (pos zero) d h = h
seconds_default-pos (pos (suc n)) d h = omega arith
seconds_default-pos (negsuc n) d h = h

-- Both settings, where they are set, are at most 10 ^ 9 seconds.
abbrev pub IsModest : Retry → Type 0
unfolding seconds_default
IsModest r =
    (seconds_default r.initial_setting 5 ≤ 1000000000)
    × (seconds_default r.longest_setting 60 ≤ 1000000000)

abbrev InRange : ℕ → Type 0
InRange d = (1000000000 ≤ d) × (d ≤ 1000000000000000000)

seconds-InRange : (n : ℕ) → 1 ≤ n → n ≤ 1000000000 → InRange (seconds n)
unfolding seconds
seconds-InRange n low high = (omega (arith, low, high), omega (arith, low, high))

is_longer_lem : (a b : ℕ) → a < 2 ^ 63 → b < 2 ^ 63 → is_longer a b ≡ ltb b a
unfolding is_longer
is_longer_lem a b ha hb =
    let ea : (a + 2 ^ 63) % 2 ^ 64 ≡ a + 2 ^ 63 = omega (arith, ha) in
    let eb : (b + 2 ^ 63) % 2 ^ 64 ≡ b + 2 ^ 63 = omega (arith, hb) in rw (ea, eb) (ground arith)

initial_delay-InRange : (r : Retry) → IsModest r → InRange (initial_delay r)
unfolding initial_delay
initial_delay-InRange r k =
    seconds-InRange (seconds_default r.initial_setting 5)
      (seconds_default-pos r.initial_setting 5 (omega arith)) k.0

longest_delay-InRange : (r : Retry) → IsModest r → InRange (longest_delay r)
unfolding longest_delay
longest_delay-InRange r k =
    seconds-InRange (seconds_default r.longest_setting 60)
      (seconds_default-pos r.longest_setting 60 (omega arith)) k.1

doubled-IsDelay :
    (r : Retry) (slept d : ℕ)
    → IsModest r
    → IsDelay r d
    → IsDelay r (doubled (longest_delay r) slept d)
unfolding doubled
doubled-IsDelay r slept d k h =
    let long = longest_delay-InRange r k in
    let short = initial_delay-InRange r k in
    let twice : (d * 2) % 2 ^ 64 ≡ d * 2 = omega (arith, h.1, long.1, short.1) in
    let test : is_longer (d * 2) (longest_delay r) ≡ ltb (longest_delay r) (d * 2) =
      is_longer_lem (d * 2) (longest_delay r) (omega (arith, h.1, long.1, short.1))
        (omega (arith, long.1)) in
    elim (Bool-cases (slept == d)) [
      | inr other ↦ rw other h
      | inl same ↦ elim (Bool-cases (ltb (longest_delay r) (d * 2))) [
        | inl over ↦ rw (same, twice, test, over) (long.0, omega arith)
        | inr under ↦
            rw (same, twice, test, under)
              (omega (arith, h.0), ground (arith, under, short.0, long.0))
      ]
    ]

abbrev Holds : Retry → Manager → Type 0
Holds r m = IsDelay r m.delay × IsSane r m.phase

initial-IsDelay : (r : Retry) → IsModest r → IsDelay r (initial_delay r)
initial-IsDelay r k = ((initial_delay-InRange r k).0, omega arith)

second-Holds : (r : Retry) (m : Manager) → IsModest r → Holds r (restart_soon m)
second-Holds r m k =
    let short = (initial_delay-InRange r k).0 in
    ((omega arith, omega (arith, short)), (omega arith, omega arith))

route_tick-Holds :
    (r : Retry) (m : Manager) (w : Watch) (ri : RouteInfo)
    → IsModest r
    → IsDelay r m.delay
    → Holds r (route_tick ri w m)
unfolding route_tick
route_tick-Holds r m w ri k h = elim (Bool-cases ri.online) [
  | inr off ↦ rw off (second-Holds r m k)
  | inl on ↦ elim (Bool-cases (is_mismatch w.last_signature (route_signature ri))) [
    | inr same ↦ rw (same, on) (h, omega arith)
    | inl other ↦ elim (Bool-cases (leb 3 (w.mismatches + 1))) [
      | inl third ↦ rw (other, third, on) (second-Holds r m k)
      | inr first ↦ rw (other, first, on) (h, ground (arith, first))
    ]
  ]
]

auth_failed-Holds :
    (r : Retry) (m : Manager) (quick : Bool)
    → IsModest r
    → IsDelay r m.delay
    → Holds r (auth_failed r quick m)
unfolding auth_failed
auth_failed-Holds r m true k h = (
  doubled-IsDelay r 3000000000 (initial_delay r) k (initial-IsDelay r k),
  (omega arith, omega arith),
)
auth_failed-Holds r m false k h = (doubled-IsDelay r m.delay m.delay k h, (h.0, omega (arith, h.1)))

look_around-Holds :
    (r : Retry) (m : Manager) (ri : RouteInfo) → IsDelay r m.delay → Holds r (look_around ri m)
unfolding look_around
look_around-Holds r m ri h = elim (Bool-cases ri.online) [
  | inl on ↦ rw on (h, tt)
  | inr off ↦ rw off (h, (omega arith, omega arith))
]

Turn-Holds : (r : Retry) {m n : Manager} → IsModest r → Turn r m n → Holds r m → Holds r n
Turn-Holds r k (look m ri) h = look_around-Holds r m ri h.0
Turn-Holds r k (fail m quick) h = auth_failed-Holds r m quick k h.0
Turn-Holds r k (succeed m ri) h = unfold auth_succeeded in (initial-IsDelay r k, omega arith)
Turn-Holds r k (wake m d) h = (h.0, tt)
Turn-Holds r k (tick m w ri) h = route_tick-Holds r m w ri k h.0
Turn-Holds r k (stop m) h = (h.0, tt)

-- Where both settings are at most 10 ^ 9 seconds, so that no duration wraps, in every state that the
-- manager comes to: its delay is at least a second and at most the initial and the longest delay
-- together, a sleep is at least a second and at most 15 seconds more than that, and the watch over
-- the route has at most two mismatches.
pub Visits-Holds :
    (r : Retry) {m : Manager} → IsModest r → Visits r m → IsDelay r m.delay × IsSane r m.phase
Visits-Holds r k begin = unfold new_manager in (initial-IsDelay r k, tt)
Visits-Holds r k (onward v t) = Turn-Holds r k t (Visits-Holds r k v)
