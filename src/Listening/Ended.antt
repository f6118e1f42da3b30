-- ===== src/Listening/Ended.antt =====
-- What the two proxies of a session leave behind.
use sshcustom_magisk.Base.{
  ◌≡◌, refl, ◌∙◌, Bool, true, false, List, Option, none, some, if◌then◌else◌,
}
use sshcustom_magisk.Text.{Text}
use sshcustom_magisk.Daemon.{State, set_state, broadcast}
use sshcustom_magisk.Config.{Config}
use sshcustom_magisk.Iptables.{all_legacy_chains, prefix_of}
use sshcustom_magisk.Iptables.Kernel.{Chains, IsIptables}
use sshcustom_magisk.Iptables.Teardown.{IsBase}
use sshcustom_magisk.Transparent.{
  transparent_addr, iptables_cfg_from_config, start_transparent_if_enabled, stop_transparent,
  stop_if_started, after_apply, after_listen, switched_off,
}
use sshcustom_magisk.Transparent.Stopped.{IsOff, start-stop-IsOff}
use sshcustom_magisk.Listening.{
  socks_addr, socks_off, after_socks_listen, start_socks_if_enabled, stop_socks, start_services,
  stop_services,
}

module _ {K : Type 0} (run : K → Text × List Text → K × Option (Text × Text)) (rules : K → Chains)
    (ipv4 : Text → Option Text) where
  after_apply-socks :
      (cfg : Config) (st : State) (result : K × Option Text)
      → (stop_if_started run ipv4 cfg (after_apply run ipv4 cfg st result)).0.socks_running
        ≡ st.socks_running
  unfolding stop_transparent set_state broadcast
  after_apply-socks cfg st (k, some e) = refl
  after_apply-socks cfg st (k, none) = refl

  after_listen-socks :
      (cfg : Config) (ips : List Text) (st : State) (k : K) (answer : Option Text)
      → (stop_if_started run ipv4 cfg (after_listen run ipv4 cfg ips st k answer)).0.socks_running
        ≡ st.socks_running
  unfolding set_state broadcast
  after_listen-socks cfg ips st k (some e) = refl
  after_listen-socks cfg ips st k none = after_apply-socks cfg st _

  -- The transparent proxy leaves the flag of the SOCKS5 server alone.
  start-stop-socks :
      (listen : Text → Option Text) (cfg : Config) (ips : List Text) (st : State) (k : K)
      → (stop_if_started run ipv4 cfg
          (start_transparent_if_enabled run ipv4 listen cfg ips st k)).0.socks_running
        ≡ st.socks_running
  unfolding start_transparent_if_enabled set_state broadcast
  start-stop-socks listen cfg ips st k = by_enabled cfg.transparent.enabled
    where
      by_enabled :
          (b : Bool)
          → (stop_if_started run ipv4 cfg (
              if b
              then after_listen run ipv4 cfg ips st k (listen (transparent_addr cfg))
              else (false, (set_state switched_off st, k)))).0.socks_running
            ≡ st.socks_running
      by_enabled true = after_listen-socks cfg ips st k (listen (transparent_addr cfg))
      by_enabled false = refl

  -- A server that has not been started does not run.
  Unstarted : Bool × State → Type 0
  Unstarted (true, st) = Unit
  Unstarted (false, st) = st.socks_running ≡ false

  start_socks-Unstarted :
      (listen : Text → Option Text) (cfg : Config) (st : State)
      → Unstarted (start_socks_if_enabled listen cfg st)
  unfolding start_socks_if_enabled set_state broadcast Unstarted
  start_socks-Unstarted listen cfg st = by_enabled cfg.local_proxy.socks_enabled
    where
      by_answer : (e : Option Text) → Unstarted (after_socks_listen (socks_addr cfg) st e)
      by_answer none = tt
      by_answer (some e) = refl

      by_enabled :
          (b : Bool)
          → Unstarted (
              if b
              then after_socks_listen (socks_addr cfg) st (listen (socks_addr cfg))
              else (false, set_state socks_off st))
      by_enabled true = by_answer (listen (socks_addr cfg))
      by_enabled false = refl

  -- Neither proxy runs, and the rules are as before.
  pub record IsEnded (before : K) (after : State × K) : Type 0 where
    pub no_socks : after.0.socks_running ≡ false
    pub off : IsOff run rules ipv4 before after

  module _ (net : IsIptables run rules) (cfg : Config) (k : K)
      (clean : IsBase
        (all_legacy_chains (prefix_of (iptables_cfg_from_config cfg)))
        (rules k)) where
    ended :
        (listen : Text → Option Text) (ips : List Text) (started : Bool × State)
        → Unstarted started
        → IsEnded k (
            stop_services run ipv4 cfg
              (started.0, start_transparent_if_enabled run ipv4 listen cfg ips started.1 k))
    unfolding Unstarted stop_services stop_socks set_state broadcast
    ended listen ips (false, st) h = record {
      no_socks = start-stop-socks listen cfg ips st k ∙ h;
      off = start-stop-IsOff run rules ipv4 net cfg k clean listen ips st;
    }
    ended listen ips (true, st) h =
        let off = start-stop-IsOff run rules ipv4 net cfg k clean listen ips st in
        record {
          no_socks = refl;
          off = record {
            not_running = off.not_running;
            not_applied = off.not_applied;
            restored = off.restored;
          };
        }

    -- What the connection manager starts for a session and stops behind it, whichever of the two
    -- proxies is enabled and whichever cannot listen or gets no rules: then the state says that
    -- neither runs and that no rules are applied, and the nat table is as it was before, if the
    -- daemon had nothing in it and `iptables` does what its manual says.
    pub start_services-IsEnded :
        (listen : Text → Option Text) (ips : List Text) (st : State)
        → IsEnded k (stop_services run ipv4 cfg (start_services run ipv4 listen cfg ips st k))
    unfolding start_services
    start_services-IsEnded listen ips st =
        ended listen ips (start_socks_if_enabled listen cfg st)
          (start_socks-Unstarted listen cfg st)
