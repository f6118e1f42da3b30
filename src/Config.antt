-- ===== src/Config.antt =====
-- The settings file of cmd/sshcustomd/main.go: its type, `normalizeConfig`, and the patch that
-- /api/v1/config accepts. Splitting an address at its port and recognizing an IP address are Go's
-- `net.SplitHostPort` and `net.ParseIP`, and are parameters.
pub mod Servers
pub mod Patch
pub mod Patched
pub mod Settled
use sshcustom_magisk.Base.{
  ℕ, Bool, true, false, not, ◌||◌, List, [], ◌∷◌, ◌++◌, Option, none, some, is_some, if◌then◌else◌,
  ◌==◌,
}
use sshcustom_magisk.Base.Int.{ℤ, pos, negsuc, is_nonpos}
use sshcustom_magisk.Text.{Text, codes, eq_text, is_empty, trim, trim_space, lower, join}
use sshcustom_magisk.Dns.{normalize_servers, has_any}
use sshcustom_magisk.Profiles.{one_of}

pub record ModuleSettings : Type 0 where
  pub name : Text
  pub work_dir : Text
  pub log_dir : Text
  pub manual_start : Bool

pub record ApiSettings : Type 0 where
  pub enabled : Bool
  pub host : Text
  pub port : ℤ

pub record DnsSettings : Type 0 where
  pub enabled : Bool
  pub mode : Text
  pub hijack : Bool
  pub doh : Bool
  pub servers : List Text
  pub timeout : ℤ
  pub note : Text

pub record LocalProxySettings : Type 0 where
  pub socks_enabled : Bool
  pub socks_host : Text
  pub socks_port : ℤ

pub record TransparentSettings : Type 0 where
  pub enabled : Bool
  pub tcp_port : ℤ
  pub dns_port : ℤ
  pub udp_mode : Text
  pub chains_prefix : Text
  pub apply_after_ssh : Bool

pub record HotspotSettings : Type 0 where
  pub enabled : Bool
  pub tcp : Bool
  pub dns : Bool
  pub interfaces : List Text

pub record Performance : Type 0 where
  pub buffer_size : ℤ
  pub connect_timeout : ℤ
  pub keep_alive : ℤ
  pub ssh_pool_size : ℤ
  pub max_streams_per_ssh : ℤ
  pub stream_idle_timeout : ℤ
  pub stream_acquire_timeout : ℤ
  pub verbose_transparent_logs : Bool
  pub retry_initial_delay : ℤ
  pub retry_max_delay : ℤ
  pub read_probe_timeout : ℤ

pub record Config : Type 0 where
  pub module_settings : ModuleSettings
  pub api : ApiSettings
  pub dns : DnsSettings
  pub supported_modes : List Text
  pub payload_is_core : Bool
  pub local_proxy : LocalProxySettings
  pub transparent : TransparentSettings
  pub hotspot : HotspotSettings
  pub performance : Performance

abbrev pub device : Text
device = codes "device"

abbrev pub google : Text
google = codes "google"

abbrev pub cloudflare : Text
cloudflare = codes "cloudflare"

abbrev pub custom : Text
custom = codes "custom"

-- `normalizeDNSMode`.
unfoldable pub normalize_dns_mode : Text → Text
unfolding lower trim_space one_of
normalize_dns_mode mode =
    let m = lower (trim_space mode) in
    if one_of m (google ∷ cloudflare ∷ custom ∷ []) then m else device

-- The bytes that `strings.Trim(s, "[] ")` removes.
abbrev pub is_bracket : ℕ → Bool
is_bracket c = c == b'[' || (c == b']' || c == b' ')

abbrev pub default_interfaces : List Text
default_interfaces =
    codes "wlan+"
    ∷ codes "swlan+"
    ∷ codes "ap+"
    ∷ codes "rndis+"
    ∷ codes "ncm+"
    ∷ codes "bt-pan+"
    ∷ []

abbrev pub dns_note : Text
dns_note = codes "device DNS remains default; preset DNS only affects SSHCustom endpoint resolution"

-- What `normalizeConfig` does to the settings of the hotspot.
unfoldable pub normalize_hotspot : HotspotSettings → HotspotSettings
normalize_hotspot hotspot = record hotspot {
  interfaces = if has_any hotspot.interfaces then hotspot.interfaces else default_interfaces;
}

module _ (split_host : Text → Option Text) (is_ip : Text → Bool) where
  -- `normalizedDNSServers`, which is the same code as `NormalizeServers` of internal/dnsx.
  unfoldable pub normalized_dns_servers : List Text → List Text
  unfolding normalize_servers
  normalized_dns_servers = normalize_servers (λ s. is_some (split_host s))

  abbrev pub host_or : Text → Option Text → Text
  host_or s none = s
  host_or s (some host) = host

  abbrev pub bare_host : Text → Text
  bare_host s = trim is_bracket (host_or s (split_host s))

  -- The loop of `trimDNSServerPorts`, with the addresses seen so far.
  unfoldable pub trim_from : List Text → List Text → List Text
  unfolding trim one_of
  trim_from seen [] = []
  trim_from seen (s ∷ servers) =
      let skip = trim_from seen servers in
      let rest = trim_from (bare_host s ∷ seen) servers in
      if not (is_ip (bare_host s)) || one_of (bare_host s) seen then skip else bare_host s ∷ rest

  -- `trimDNSServerPorts`.
  unfoldable pub trim_dns_server_ports : List Text → List Text
  unfolding trim_from
  trim_dns_server_ports = trim_from []

  -- The part of `normalizeConfig` that goes by the mode.
  unfoldable pub normalize_mode_settings : Text → DnsSettings → DnsSettings
  unfolding normalized_dns_servers trim_dns_server_ports eq_text
  normalize_mode_settings mode dns =
      if eq_text mode google
      then record dns { enabled = true; servers = codes "8.8.8.8" ∷ codes "8.8.4.4" ∷ [] }
      else if eq_text mode cloudflare
      then record dns { enabled = true; servers = codes "1.1.1.1" ∷ codes "1.0.0.1" ∷ [] }
      else if eq_text mode custom
      then record dns {
        enabled = has_any (normalized_dns_servers dns.servers);
        servers = trim_dns_server_ports (normalized_dns_servers dns.servers);
      }
      else record dns { enabled = false; servers = []; mode = device }

  -- What `normalizeConfig` does to the DNS settings.
  unfoldable pub normalize_dns : DnsSettings → DnsSettings
  unfolding normalize_dns_mode normalize_mode_settings
  normalize_dns dns =
      let mode = normalize_dns_mode dns.mode in
      let set =
        normalize_mode_settings mode (record dns { mode = mode; hijack = false; doh = false }) in
      record set { timeout = if is_nonpos dns.timeout then pos 4 else dns.timeout; note = dns_note }

  -- `normalizeConfig`.
  unfoldable pub normalize_config : Config → Config
  unfolding normalize_dns normalize_hotspot
  normalize_config cfg = record cfg {
    dns = normalize_dns cfg.dns;
    hotspot = normalize_hotspot cfg.hotspot;
  }
