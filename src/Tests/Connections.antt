-- ===== src/Tests/Connections.antt =====
-- The theorem on the connection manager, at a run with a lost route.
use sshcustom_magisk.Base.{arith, true, false, []}
use sshcustom_magisk.Base.Int.{pos}
use sshcustom_magisk.Text.{codes}
use sshcustom_magisk.Manager.{
  RouteInfo, Manager, Retry, new_manager, look_around, auth_failed, look, fail, begin, onward,
}
use sshcustom_magisk.Manager.Delays.{IsDelay, IsSane, Visits-Holds}

abbrev retry : Retry
retry = record { initial_setting = pos 0; longest_setting = pos 8 }

abbrev wlan : RouteInfo
wlan = record {
  online = true;
  raw = codes "default dev wlan0";
  interface = codes "wlan0";
  gateway = [];
  source = [];
}

abbrev seen : Manager
seen = look_around wlan (new_manager retry)

Visits-Holds_example :
    IsDelay retry (auth_failed retry false seen).delay
    × IsSane retry (auth_failed retry false seen).phase
unfolding new_manager look_around
Visits-Holds_example =
    Visits-Holds retry (omega arith, omega arith)
      (onward (onward begin (look (new_manager retry) wlan)) (fail seen false))
