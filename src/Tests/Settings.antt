-- ===== src/Tests/Settings.antt =====
-- The theorems on the settings, with a `net` that knows one address.
use sshcustom_magisk.Base.{
  ◌≡◌, refl, subst, sym, Bool, true, false, [], ◌∷◌, Option, none, some, if◌then◌else◌,
}
use sshcustom_magisk.Base.Int.{pos}
use sshcustom_magisk.Text.{Text, codes, eq_text, is_empty, trim, trim_space, lower}
use sshcustom_magisk.Text.Equality.{eq_text_iff}
use sshcustom_magisk.Net.{join_host_port}
use sshcustom_magisk.Profiles.{one_of}
use sshcustom_magisk.Dns.{normalize_from, normalize_servers}
use sshcustom_magisk.Config.{
  Config, custom, is_bracket, normalize_config, normalize_dns, trim_from, trim_dns_server_ports,
  normalize_dns_mode, normalized_dns_servers,
}
use sshcustom_magisk.Config.Servers.{Addresses}
use sshcustom_magisk.Config.Settled.{normalize_config_idem}
use sshcustom_magisk.Config.Patch.{DnsPatch, HotspotPatch, apply_config_patch}
use sshcustom_magisk.Config.Patched.{
  IsReport, Leaves, apply_config_patch-IsReport, apply_config_patch-unusable,
}

abbrev address : Text
address = codes "1.1.1.1"

abbrev is_ip : Text → Bool
unfolding eq_text
is_ip s = eq_text s address

abbrev split_host : Text → Option Text
unfolding eq_text
split_host s = if eq_text s (codes "1.1.1.1:53") then some address else none

by_address : (P : Text → Type 0) → P address → (s : Text) → is_ip s ≡ true → P s
unfolding eq_text
by_address P h s e = subst P (sym ((eq_text_iff s address).0 e)) h

net : Addresses split_host is_ip
unfolding eq_text join_host_port trim_space trim is_empty
net = record {
  no_port = by_address (λ s. split_host s ≡ none) refl;
  split-join = by_address (λ s. split_host (join_host_port s (codes "53")) ≡ some s) refl;
  no_space = by_address (λ s. trim_space s ≡ s) refl;
  no_bracket = by_address (λ s. trim is_bracket s ≡ s) refl;
  not_blank = by_address (λ s. is_empty s ≡ false) refl;
}

abbrev pub settings : Config
settings = record {
  module_settings = record {
    name = codes "SSHCustom";
    work_dir = [];
    log_dir = [];
    manual_start = true;
  };
  api = record { enabled = true; host = codes "127.0.0.1"; port = pos 8089 };
  dns = record {
    enabled = false;
    mode = codes "Custom ";
    hijack = true;
    doh = false;
    servers = codes " 1.1.1.1" ∷ codes "example" ∷ [];
    timeout = pos 0;
    note = [];
  };
  supported_modes = codes "direct" ∷ [];
  payload_is_core = true;
  local_proxy = record {
    socks_enabled = true;
    socks_host = codes "127.0.0.1";
    socks_port = pos 1080;
  };
  transparent = record {
    enabled = false;
    tcp_port = pos 9898;
    dns_port = pos 0;
    udp_mode = [];
    chains_prefix = codes "SSHC";
    apply_after_ssh = true;
  };
  hotspot = record { enabled = false; tcp = false; dns = false; interfaces = [] };
  performance = record {
    buffer_size = pos 0;
    connect_timeout = pos 8;
    keep_alive = pos 15;
    ssh_pool_size = pos 2;
    max_streams_per_ssh = pos 32;
    stream_idle_timeout = pos 0;
    stream_acquire_timeout = pos 0;
    verbose_transparent_logs = false;
    retry_initial_delay = pos 2;
    retry_max_delay = pos 30;
    read_probe_timeout = pos 5;
  };
}

normalize_config_idem_example :
    normalize_config split_host is_ip (normalize_config split_host is_ip settings)
    ≡ normalize_config split_host is_ip settings
unfolding normalize_dns_mode normalized_dns_servers trim_dns_server_ports trim_from
    normalize_servers normalize_from lower trim_space trim eq_text one_of
normalize_config_idem_example = normalize_config_idem split_host is_ip net settings λ _. refl

abbrev bad_servers : DnsPatch
bad_servers = record { mode = codes "custom"; servers = codes "example" ∷ []; timeout = pos 4 }

apply_config_patch-IsReport_example : IsReport settings (
    apply_config_patch split_host is_ip settings
      (record { dns = some bad_servers; hotspot = none; restart = false }))
apply_config_patch-IsReport_example =
    apply_config_patch-IsReport split_host is_ip settings
      (record { dns = some bad_servers; hotspot = none; restart = false })

abbrev sharing : HotspotPatch
sharing = record { enabled = some true; tcp = none; dns = none; interfaces = [] }

apply_config_patch-unusable_example :
    Leaves split_host is_ip
      (λ dns.
        (dns.mode ≡ custom)
        × (dns.servers ≡ [])
        × (dns.enabled ≡ false)
        × ((normalize_dns split_host is_ip dns).enabled ≡ false))
      (apply_config_patch split_host is_ip settings
        (record { dns = some bad_servers; hotspot = some sharing; restart = false }))
unfolding normalize_dns_mode normalized_dns_servers trim_dns_server_ports trim_from
    normalize_servers normalize_from lower trim_space trim eq_text one_of
apply_config_patch-unusable_example =
    apply_config_patch-unusable split_host is_ip settings bad_servers (some sharing) false refl refl
      refl
