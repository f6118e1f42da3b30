-- ===== src/Config/Patch.antt =====
-- `applyConfigPatch`.
use sshcustom_magisk.Base.{
  Bool, true, false, not, ◌&&◌, ◌||◌, List, [], ◌∷◌, ◌++◌, Option, none, some, if◌then◌else◌,
}
use sshcustom_magisk.Base.Int.{ℤ, is_nonpos}
use sshcustom_magisk.Text.{Text, codes, eq_text, join}
use sshcustom_magisk.Dns.{has_any}
use sshcustom_magisk.Responses.{eq_int}
use sshcustom_magisk.Config.{
  DnsSettings, HotspotSettings, Config, custom, normalize_dns_mode, normalized_dns_servers,
  normalize_config,
}

-- `DNSSettings`, `HotspotSettings` and `ConfigPatchRequest` of internal/apiv1.
pub record DnsPatch : Type 0 where
  pub mode : Text
  pub servers : List Text
  pub timeout : ℤ

pub record HotspotPatch : Type 0 where
  pub enabled : Option Bool
  pub tcp : Option Bool
  pub dns : Option Bool
  pub interfaces : List Text

pub record Patch : Type 0 where
  pub dns : Option DnsPatch
  pub hotspot : Option HotspotPatch
  pub restart : Bool

-- `refused`: custom DNS without a server.
pub data PatchResult : Type 0 where
  accepted : Config → List Text → Bool → PatchResult
  refused : PatchResult

abbrev pub or_old {ℓ} : {A : Type ℓ} → A → Option A → A
or_old old none = old
or_old old (some new) = new

abbrev pub same_bool : Bool → Bool → Bool
same_bool true b = b
same_bool false b = not b

abbrev pub same_list : List Text → List Text → Bool
same_list xs ys = eq_text (join (codes ",") xs) (join (codes ",") ys)

-- The DNS settings that a request asks for, before they are normalized.
unfoldable pub asked_dns : DnsPatch → DnsSettings → DnsSettings
unfolding normalize_dns_mode eq_text
asked_dns req dns = record dns {
  mode = normalize_dns_mode req.mode;
  timeout = if is_nonpos req.timeout then dns.timeout else req.timeout;
  servers = if eq_text (normalize_dns_mode req.mode) custom then req.servers else dns.servers;
}

unfoldable pub asked_hotspot : HotspotPatch → HotspotSettings → HotspotSettings
asked_hotspot req hotspot = record hotspot {
  enabled = or_old hotspot.enabled req.enabled;
  tcp = or_old hotspot.tcp req.tcp;
  dns = or_old hotspot.dns req.dns;
  interfaces = if has_any req.interfaces then req.interfaces else hotspot.interfaces;
}

-- Whether the patch counts as a change.
unfoldable pub dns_changed : DnsSettings → DnsSettings → Bool
unfolding normalize_dns_mode eq_text join
dns_changed old new =
    not (eq_text (normalize_dns_mode old.mode) new.mode)
    || (not (same_list old.servers new.servers) || not (eq_int old.timeout new.timeout))

unfoldable pub hotspot_changed : HotspotSettings → HotspotSettings → Bool
unfolding eq_text join
hotspot_changed old new =
    not (same_bool old.enabled new.enabled)
    || (not (same_bool old.tcp new.tcp)
        || (not (same_bool old.dns new.dns) || not (same_list old.interfaces new.interfaces)))

abbrev pub noted : Bool → Text → List Text → List Text
noted true name changed = changed ++ (name ∷ [])
noted false name changed = changed

module _ (split_host : Text → Option Text) (is_ip : Text → Bool) where
  abbrev pub normal : Config → Config
  normal = normalize_config split_host is_ip

  -- The part for the DNS settings.
  unfoldable pub patch_dns : Option DnsPatch → Config → PatchResult
  unfolding asked_dns normalized_dns_servers normalize_config dns_changed
  patch_dns none cfg = accepted cfg [] false
  patch_dns (some req) cfg =
      let asked = asked_dns req cfg.dns in
      let next = normal (record cfg { dns = asked }) in
      let changed = dns_changed cfg.dns next.dns in
      if eq_text asked.mode custom
        && not (has_any (normalized_dns_servers split_host is_ip asked.servers))
      then refused
      else accepted next (noted changed (codes "dns") []) changed

  -- The part for the hotspot, on the result of the first.
  unfoldable pub patch_hotspot : Option HotspotPatch → PatchResult → PatchResult
  unfolding asked_hotspot normalize_config hotspot_changed
  patch_hotspot req refused = refused
  patch_hotspot none (accepted cfg changed restart) = accepted cfg changed restart
  patch_hotspot (some req) (accepted cfg changed restart) =
      let next = normal (record cfg { hotspot = asked_hotspot req cfg.hotspot }) in
      let differs = hotspot_changed cfg.hotspot next.hotspot in
      accepted next (noted differs (codes "hotspot") changed) (restart || differs)

  -- `applyConfigPatch`.
  unfoldable pub apply_config_patch : Config → Patch → PatchResult
  unfolding patch_dns patch_hotspot
  apply_config_patch cfg req = patch_hotspot req.hotspot (patch_dns req.dns cfg)
