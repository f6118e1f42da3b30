-- ===== src/Config/Patched.antt =====
-- What `applyConfigPatch` leaves alone, and which request it should refuse and does not.
use sshcustom_magisk.Base.{
  ◌≡◌, refl, sym, ap, ◌∙◌, inl, inr, Bool, true, false, not, ◌||◌, ◌&&◌, List, [], ◌∷◌, Option,
  none, some, is_some, Bool-cases,
}
use sshcustom_magisk.Text.{Text, codes, eq_text, lower, trim_space}
use sshcustom_magisk.Profiles.{one_of}
use sshcustom_magisk.Dns.{has_any, normalize_servers, normalize_from}
use sshcustom_magisk.Config.{
  DnsSettings, Config, custom, normalize_dns_mode, normalized_dns_servers, trim_dns_server_ports,
  trim_from, normalize_mode_settings, normalize_dns, normalize_config,
}
use sshcustom_magisk.Config.Patch.{
  DnsPatch, HotspotPatch, Patch, PatchResult, accepted, refused, asked_dns, dns_changed,
  hotspot_changed, noted, patch_dns, patch_hotspot, apply_config_patch, asked_hotspot,
}

-- The settings that no patch reaches.
pub record KeepsRest (old new : Config) : Type 0 where
  pub modules : new.module_settings ≡ old.module_settings
  pub api : new.api ≡ old.api
  pub modes : new.supported_modes ≡ old.supported_modes
  pub payload : new.payload_is_core ≡ old.payload_is_core
  pub proxy : new.local_proxy ≡ old.local_proxy
  pub transparent : new.transparent ≡ old.transparent
  pub performance : new.performance ≡ old.performance

abbrev pub IsReport : Config → PatchResult → Type 0
IsReport old refused = Unit
IsReport old (accepted new changed restart) = KeepsRest old new × (restart ≡ has_any changed)

has_any-noted :
    (b : Bool) (name : Text) (changed : List Text)
    → has_any (noted b name changed) ≡ has_any changed || b
has_any-noted true name [] = refl
has_any-noted true name (x ∷ l) = refl
has_any-noted false name [] = refl
has_any-noted false name (x ∷ l) = refl

module _ (split_host : Text → Option Text) (is_ip : Text → Bool) where
  patch_dns-IsReport :
      (req : Option DnsPatch) (cfg : Config) → IsReport cfg (patch_dns split_host is_ip req cfg)
  unfolding patch_dns normalize_config
  patch_dns-IsReport none cfg = (same cfg, refl)
    where
      same : (cfg : Config) → KeepsRest cfg cfg
      same cfg = record {
        modules = refl;
        api = refl;
        modes = refl;
        payload = refl;
        proxy = refl;
        transparent = refl;
        performance = refl;
      }
  patch_dns-IsReport (some req) cfg =
      let asked = asked_dns req cfg.dns in
      let next = normalize_config split_host is_ip (record cfg { dns = asked }) in
      let bad =
        eq_text asked.mode custom
        && not (has_any (normalized_dns_servers split_host is_ip asked.servers)) in
      elim (Bool-cases bad) [
        | inl e ↦ rw e tt
        | inr e ↦ rw e (
          record {
            modules = refl;
            api = refl;
            modes = refl;
            payload = refl;
            proxy = refl;
            transparent = refl;
            performance = refl;
          },
          sym (has_any-noted (dns_changed cfg.dns next.dns) (codes "dns") []),
        )
      ]

  patch_hotspot-IsReport :
      (req : Option HotspotPatch) (cfg : Config) (r : PatchResult)
      → IsReport cfg r
      → IsReport cfg (patch_hotspot split_host is_ip req r)
  unfolding patch_hotspot normalize_config
  patch_hotspot-IsReport none cfg refused h = tt
  patch_hotspot-IsReport none cfg (accepted next changed restart) h = h
  patch_hotspot-IsReport (some req) cfg refused h = tt
  patch_hotspot-IsReport (some req) cfg (accepted next changed restart) h =
      let last =
        normalize_config split_host is_ip
          (record next { hotspot = asked_hotspot req next.hotspot }) in
      let differs = hotspot_changed next.hotspot last.hotspot in
      (
        record {
          modules = h.0.modules;
          api = h.0.api;
          modes = h.0.modes;
          payload = h.0.payload;
          proxy = h.0.proxy;
          transparent = h.0.transparent;
          performance = h.0.performance;
        },
        ap (λ b. b || differs) h.1 ∙ sym (has_any-noted differs (codes "hotspot") changed),
      )

  -- A patch that is accepted changes no setting but those of DNS and of the hotspot, and asks for a
  -- restart exactly if it reports a change.
  pub apply_config_patch-IsReport :
      (cfg : Config) (req : Patch) → IsReport cfg (apply_config_patch split_host is_ip cfg req)
  unfolding apply_config_patch
  apply_config_patch-IsReport cfg req =
      patch_hotspot-IsReport req.hotspot cfg (patch_dns split_host is_ip req.dns cfg)
        (patch_dns-IsReport req.dns cfg)

  -- A request that may be accepted, with the DNS settings that it leads to.
  abbrev pub Leaves : (DnsSettings → Type 0) → PatchResult → Type 0
  Leaves P refused = ⊥
  Leaves P (accepted cfg changed restart) = P cfg.dns

  -- A request for custom DNS whose servers are not all blank and of which none is an address is not
  -- refused, whatever it asks of the hotspot: it leaves the mode custom without any server, with DNS
  -- enabled exactly if it asks nothing of the hotspot, and to normalize these settings again, as the
  -- handler does before it saves them, leaves DNS disabled.
  pub apply_config_patch-unusable :
      (cfg : Config) (req : DnsPatch) (hotspot : Option HotspotPatch) (restart : Bool)
      → normalize_dns_mode req.mode ≡ custom
      → has_any (normalized_dns_servers split_host is_ip req.servers) ≡ true
      → trim_dns_server_ports split_host is_ip (normalized_dns_servers split_host is_ip req.servers)
        ≡ []
      → Leaves
          (λ dns.
            (dns.mode ≡ custom)
            × (dns.servers ≡ [])
            × (dns.enabled ≡ not (is_some hotspot))
            × ((normalize_dns split_host is_ip dns).enabled ≡ false))
          (apply_config_patch split_host is_ip cfg
            (record { dns = some req; hotspot = hotspot; restart = restart }))
  unfolding apply_config_patch patch_dns patch_hotspot asked_dns normalize_config normalize_dns
      normalize_mode_settings normalize_dns_mode eq_text normalized_dns_servers normalize_servers
      normalize_from trim_dns_server_ports trim_from lower trim_space one_of
  apply_config_patch-unusable cfg req none restart mode given bare =
      rw (mode, given, bare) (refl, refl, refl, refl)
  apply_config_patch-unusable cfg req (some h) restart mode given bare =
      rw (mode, given, bare) (refl, refl, refl, refl)
