-- ===== src/Tests/Proxy.antt =====
-- The theorem on the two proxies, with the rules applied and a listener for each.
use sshcustom_magisk.Base.{true, [], ◌∷◌, none, some}
use sshcustom_magisk.Text.{codes}
use sshcustom_magisk.Config.{Config}
use sshcustom_magisk.Iptables.{prefix_of}
use sshcustom_magisk.Transparent.{iptables_cfg_from_config}
use sshcustom_magisk.Listening.{start_services, stop_services}
use sshcustom_magisk.Listening.Ended.{IsEnded, start_services-IsEnded}
use sshcustom_magisk.Tests.PoolRuns.{blank}
use sshcustom_magisk.Tests.Settings.{settings}
use sshcustom_magisk.Tests.Table.{tool, same_table, tool_fits, boot, boot_clean}

abbrev proxy_settings : Config
proxy_settings = record settings {
  transparent = record settings.transparent { enabled = true };
  hotspot = record settings.hotspot { enabled = true; tcp = true };
}

start_services-IsEnded_example : IsEnded tool same_table some boot (
    stop_services tool some proxy_settings
      (start_services tool some (λ addr. none) proxy_settings (codes "192.0.2.7" ∷ []) blank boot))
unfolding prefix_of iptables_cfg_from_config
start_services-IsEnded_example =
    start_services-IsEnded tool same_table some tool_fits proxy_settings boot boot_clean
      (λ addr. none) (codes "192.0.2.7" ∷ []) blank
