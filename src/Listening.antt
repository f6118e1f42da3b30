-- ===== src/Listening.antt =====
-- Starting and stopping the SOCKS5 server (cmd/sshcustomd/main.go), alone and with the transparent
-- proxy, as the connection manager does for a session.
pub mod Ended
use sshcustom_magisk.Base.{Bool, true, false, List, ◌++◌, Option, none, some, if◌then◌else◌}
use sshcustom_magisk.Base.Int.{ℤ, pos, is_nonpos}
use sshcustom_magisk.Text.{Text, codes, is_empty}
use sshcustom_magisk.Net.{join_host_port, int_string}
use sshcustom_magisk.Daemon.{State, set_state}
use sshcustom_magisk.Config.{Config}
use sshcustom_magisk.Transparent.{start_transparent_if_enabled, stop_transparent, stop_if_started}

-- `socksAddr`.
unfoldable pub socks_addr : Config → Text
unfolding join_host_port int_string
socks_addr cfg =
    let host = cfg.local_proxy.socks_host in
    let port = cfg.local_proxy.socks_port in
    join_host_port (if is_empty host then codes "127.0.0.1" else host)
      (int_string (if is_nonpos port then pos 1080 else port))

abbrev pub socks_off : State → State
socks_off st = record st { socks_running = false }

abbrev pub socks_failed : Text → State → State
socks_failed e st = record st {
  socks_running = false;
  last_error = codes "SOCKS5 listen failed: " ++ e;
}

abbrev pub socks_on : Text → State → State
socks_on addr st = record st {
  socks_enabled = true;
  socks_addr = addr;
  socks_running = true;
  last_event = codes "SOCKS5 listening on " ++ addr;
}

abbrev pub after_socks_listen : Text → State → Option Text → Bool × State
after_socks_listen addr st (some e) = (false, set_state (socks_failed e) st)
after_socks_listen addr st none = (true, set_state (socks_on addr) st)

-- `startSocksIfEnabled`, with the answer of `net.Listen`; the flag tells whether there is something
-- to stop.
unfoldable pub start_socks_if_enabled : (Text → Option Text) → Config → State → Bool × State
unfolding socks_addr set_state
start_socks_if_enabled listen cfg st =
    if cfg.local_proxy.socks_enabled
    then after_socks_listen (socks_addr cfg) st (listen (socks_addr cfg))
    else (false, set_state socks_off st)

-- The function that it returns.
unfoldable pub stop_socks : State → State
unfolding set_state
stop_socks = set_state socks_off

module _ {K : Type 0} (run : K → Text × List Text → K × Option (Text × Text))
    (ipv4 : Text → Option Text) where
  -- What `connectionManager` starts behind the authentication: first the SOCKS5 server, then the
  -- transparent proxy.
  unfoldable pub start_services :
      (Text → Option Text) → Config → List Text → State → K → Bool × (Bool × (State × K))
  unfolding start_socks_if_enabled start_transparent_if_enabled
  start_services listen cfg resolved_ips st k =
      let (socks, st') = start_socks_if_enabled listen cfg st in
      (socks, start_transparent_if_enabled run ipv4 listen cfg resolved_ips st' k)

  abbrev pub stop_socks_if : Bool → State × K → State × K
  stop_socks_if true (st, k) = (stop_socks st, k)
  stop_socks_if false s = s

  -- The part of `stopActive` for the two, in the other order.
  unfoldable pub stop_services : Config → Bool × (Bool × (State × K)) → State × K
  unfolding stop_socks stop_transparent
  stop_services cfg (socks, s) = stop_socks_if socks (stop_if_started run ipv4 cfg s)
