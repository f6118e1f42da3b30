-- ===== src/Transparent.antt =====
-- Starting and stopping the transparent proxy (cmd/sshcustomd/main.go): the listener, the rules and
-- what the state says of them. `net.Listen` answers an error or none.
pub mod Stopped
use sshcustom_magisk.Base.{
  Bool, true, false, ◌&&◌, ◌||◌, List, [], ◌∷◌, ◌++◌, Option, none, some, if◌then◌else◌,
}
use sshcustom_magisk.Base.Int.{ℤ, pos, is_nonpos}
use sshcustom_magisk.Text.{Text, codes}
use sshcustom_magisk.Net.{join_host_port, int_string}
use sshcustom_magisk.Daemon.{State, set_state}
use sshcustom_magisk.Dns.Addresses.{sanitize_ipv4_list}
use sshcustom_magisk.Config.{Config}
use sshcustom_magisk.Responses.{eq_int}
use sshcustom_magisk.Iptables
use sshcustom_magisk.Iptables.{apply, cleanup}

-- `transparentAddr`.
unfoldable pub transparent_addr : Config → Text
unfolding join_host_port int_string
transparent_addr cfg =
    let port = cfg.transparent.tcp_port in
    join_host_port (codes "0.0.0.0") (int_string (if is_nonpos port then pos 10810 else port))

-- Whether clients of the hotspot are redirected.
abbrev pub hotspot_tcp : Config → Bool
hotspot_tcp cfg = cfg.hotspot.enabled && cfg.hotspot.tcp

-- `iptablesCfgFromConfig`.
unfoldable pub iptables_cfg_from_config : Config → Iptables.Config
iptables_cfg_from_config cfg = record {
  chains_prefix = cfg.transparent.chains_prefix;
  tcp_port = cfg.transparent.tcp_port;
  api_port = cfg.api.port;
  socks_port = cfg.local_proxy.socks_port;
  hotspot = hotspot_tcp cfg;
  hotspot_ifaces = cfg.hotspot.interfaces;
}

-- What `net.ParseIP` tells of an address.
pub record IpKind : Type 0 where
  pub loopback : Bool
  pub unspecified : Bool
  pub multicast : Bool

module _ (split_host_port : Text → Option (Text × Text)) (parse_ip : Text → Option IpKind)
    (atoi : Text → ℤ) where
  abbrev pub is_local : Config → ℤ → Option IpKind → Bool
  is_local cfg port none = false
  is_local cfg port (some ip) =
      (eq_int port cfg.api.port
        || (eq_int port cfg.local_proxy.socks_port || eq_int port cfg.transparent.tcp_port))
      || (ip.loopback || (ip.unspecified || ip.multicast))

  abbrev pub is_blocked : Config → Option (Text × Text) → Bool
  is_blocked cfg none = true
  is_blocked cfg (some (host, port)) = is_local cfg (atoi port) (parse_ip host)

  -- `isLocalOrBlockedTarget`.
  unfoldable pub is_local_or_blocked_target : Text → Config → Bool
  is_local_or_blocked_target target cfg = is_blocked cfg (split_host_port target)

-- The changes of the state.
abbrev pub switched_off : State → State
switched_off st = record st {
  transparent_enabled = false;
  transparent_running = false;
  transparent_applied = false;
  hotspot_running = false;
}

abbrev pub listen_failed : Text → State → State
listen_failed e st = record st {
  transparent_enabled = true;
  transparent_running = false;
  transparent_applied = false;
  last_error = codes "transparent TCP listen failed: " ++ e;
}

abbrev pub apply_failed : Text → State → State
apply_failed e st = record st {
  transparent_enabled = true;
  transparent_running = false;
  transparent_applied = false;
  hotspot_running = false;
  last_error = codes "transparent rules apply failed: " ++ e;
}

abbrev pub now_active : Text → Bool → State → State
now_active addr hotspot st = record st {
  transparent_enabled = true;
  transparent_addr = addr;
  transparent_running = true;
  transparent_applied = true;
  hotspot_running = hotspot;
  last_event = codes "transparent TCP proxy active on " ++ addr;
}

abbrev pub now_stopped : State → State
now_stopped st = record st {
  transparent_running = false;
  transparent_applied = false;
  hotspot_running = false;
}

module _ {K : Type 0} (run : K → Text × List Text → K × Option (Text × Text))
    (ipv4 : Text → Option Text) where
  -- `applyTransparentRules` and `cleanupTransparentRules`.
  unfoldable pub apply_transparent_rules : Config → List Text → K → K × Option Text
  unfolding iptables_cfg_from_config sanitize_ipv4_list apply
  apply_transparent_rules cfg bypass_ips k =
      apply run (iptables_cfg_from_config cfg) (sanitize_ipv4_list ipv4 bypass_ips) k

  unfoldable pub cleanup_transparent_rules : Config → K → K
  unfolding iptables_cfg_from_config cleanup
  cleanup_transparent_rules cfg k = cleanup run (iptables_cfg_from_config cfg) k

  -- The two ways that `Apply` may end; the flag tells whether there is something to stop.
  abbrev pub after_apply : Config → State → K × Option Text → Bool × (State × K)
  after_apply cfg st (k, some e) =
      (false, (set_state (apply_failed e) st, cleanup_transparent_rules cfg k))
  after_apply cfg st (k, none) =
      (true, (set_state (now_active (transparent_addr cfg) (hotspot_tcp cfg)) st, k))

  abbrev pub after_listen : Config → List Text → State → K → Option Text → Bool × (State × K)
  after_listen cfg resolved_ips st k (some e) = (false, (set_state (listen_failed e) st, k))
  after_listen cfg resolved_ips st k none =
      after_apply cfg st
        (apply_transparent_rules cfg resolved_ips (cleanup_transparent_rules cfg k))

  -- `startTransparentIfEnabled`.
  unfoldable pub start_transparent_if_enabled :
      (Text → Option Text) → Config → List Text → State → K → Bool × (State × K)
  unfolding transparent_addr apply_transparent_rules cleanup_transparent_rules set_state
  start_transparent_if_enabled listen cfg resolved_ips st k =
      if cfg.transparent.enabled
      then after_listen cfg resolved_ips st k (listen (transparent_addr cfg))
      else (false, (set_state switched_off st, k))

  -- The function that it returns.
  unfoldable pub stop_transparent : Config → State × K → State × K
  unfolding cleanup_transparent_rules set_state
  stop_transparent cfg (st, k) = (set_state now_stopped st, cleanup_transparent_rules cfg k)

  -- What is left when a proxy that was started has been stopped.
  abbrev pub stop_if_started : Config → Bool × (State × K) → State × K
  stop_if_started cfg (true, s) = stop_transparent cfg s
  stop_if_started cfg (false, s) = s
