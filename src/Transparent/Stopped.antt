-- ===== src/Transparent/Stopped.antt =====
-- What the transparent proxy leaves behind when it has been stopped.
use sshcustom_magisk.Base.{
  ◌≡◌, refl, sym, ap, ◌∙◌, Bool, true, false, List, [], ◌∷◌, Option, none, some, if◌then◌else◌,
}
use sshcustom_magisk.Text.{Text}
use sshcustom_magisk.Daemon.{State, set_state, broadcast}
use sshcustom_magisk.Dns.Addresses.{sanitize_ipv4_list}
use sshcustom_magisk.Config.{Config}
use sshcustom_magisk.Iptables.{all_legacy_chains, prefix_of}
use sshcustom_magisk.Iptables.Kernel.{Chains, IsIptables}
use sshcustom_magisk.Iptables.Teardown.{IsBase}
use sshcustom_magisk.Iptables.Runs.{applied, cleaned, perform, perform_all}
use sshcustom_magisk.Iptables.Restore.{perform_all-restores}
use sshcustom_magisk.Transparent.{
  transparent_addr, iptables_cfg_from_config, start_transparent_if_enabled, stop_transparent,
  stop_if_started, after_apply, after_listen, apply_transparent_rules, cleanup_transparent_rules,
  switched_off,
}

module _ {K : Type 0} (run : K → Text × List Text → K × Option (Text × Text)) (rules : K → Chains)
    (ipv4 : Text → Option Text) where
  -- The proxy does not run, no rules are applied according to the state, and the table is as before.
  pub record IsOff (before : K) (after : State × K) : Type 0 where
    pub not_running : after.0.transparent_running ≡ false
    pub not_applied : after.0.transparent_applied ≡ false
    pub restored : (c : Text) → rules after.1 c ≡ rules before c

  module _ (net : IsIptables run rules) (cfg : Config) (k : K)
      (clean : IsBase
        (all_legacy_chains (prefix_of (iptables_cfg_from_config cfg)))
        (rules k)) where
    settled :
        (ips : List Text) (c : Text)
        → rules
            (cleanup_transparent_rules run ipv4 cfg
              (apply_transparent_rules run ipv4 cfg ips
                (cleanup_transparent_rules run ipv4 cfg k)).0)
            c
          ≡ rules k c
    unfolding cleanup_transparent_rules apply_transparent_rules perform_all perform
    settled ips c =
        let rule_cfg = iptables_cfg_from_config cfg in
        perform_all-restores run rules net rule_cfg k
          (cleaned rule_cfg ∷ applied rule_cfg (sanitize_ipv4_list ipv4 ips) ∷ []) clean
          ((refl, refl), ((refl, refl), tt)) c

    after_apply-IsOff :
        (st : State) (ips : List Text) (result : K × Option Text)
        → apply_transparent_rules run ipv4 cfg ips (cleanup_transparent_rules run ipv4 cfg k)
          ≡ result
        → IsOff k (stop_if_started run ipv4 cfg (after_apply run ipv4 cfg st result))
    unfolding stop_transparent set_state broadcast
    after_apply-IsOff st ips (k', some e) same = record {
      not_running = refl;
      not_applied = refl;
      restored = λ c.
          ap (λ r. rules (cleanup_transparent_rules run ipv4 cfg r.0) c) (sym same) ∙ settled ips c;
    }
    after_apply-IsOff st ips (k', none) same = record {
      not_running = refl;
      not_applied = refl;
      restored = λ c.
          ap (λ r. rules (cleanup_transparent_rules run ipv4 cfg r.0) c) (sym same) ∙ settled ips c;
    }

    after_listen-IsOff :
        (st : State) (ips : List Text) (answer : Option Text)
        → IsOff k (stop_if_started run ipv4 cfg (after_listen run ipv4 cfg ips st k answer))
    unfolding set_state broadcast
    after_listen-IsOff st ips (some e) = record {
      not_running = refl;
      not_applied = refl;
      restored = λ c. refl;
    }
    after_listen-IsOff st ips none = after_apply-IsOff st ips _ refl

    -- `startTransparentIfEnabled`, then what it returns to stop the proxy, on each path: switched
    -- off, without a listener, without the rules or running. The nat table is as it was before, if
    -- the daemon had nothing in it, and the state says that no proxy runs and no rules are applied.
    pub start-stop-IsOff :
        (listen : Text → Option Text) (ips : List Text) (st : State)
        → IsOff k (
            stop_if_started run ipv4 cfg
              (start_transparent_if_enabled run ipv4 listen cfg ips st k))
    unfolding start_transparent_if_enabled set_state broadcast
    start-stop-IsOff listen ips st = by_enabled cfg.transparent.enabled
      where
        by_enabled :
            (b : Bool)
            → IsOff k (
                stop_if_started run ipv4 cfg (
                  if b
                  then after_listen run ipv4 cfg ips st k (listen (transparent_addr cfg))
                  else (false, (set_state switched_off st, k))))
        by_enabled true = after_listen-IsOff st ips (listen (transparent_addr cfg))
        by_enabled false = record { not_running = refl; not_applied = refl; restored = λ c. refl }
