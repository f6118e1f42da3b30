-- ===== src/Config/Settled.antt =====
-- Settings that have been normalized once.
use sshcustom_magisk.Base.{
  zero, suc, ◌≡◌, refl, sym, inl, inr, Bool, List, Option, if◌then◌else◌, Bool-cases,
}
use sshcustom_magisk.Base.Int.{ℤ, pos, negsuc, is_nonpos}
use sshcustom_magisk.Text.{Text, eq_text, trim_space, lower}
use sshcustom_magisk.Text.Equality.{eq_text_iff}
use sshcustom_magisk.Profiles.{one_of}
use sshcustom_magisk.Dns.{has_any}
use sshcustom_magisk.Config.{
  DnsSettings, HotspotSettings, Config, device, google, cloudflare, custom, normalize_dns_mode,
  normalized_dns_servers, trim_dns_server_ports, normalize_mode_settings, normalize_dns,
  normalize_hotspot, normalize_config,
}
use sshcustom_magisk.Config.Servers.{Addresses, servers_idem, normalized-any}

-- A mode is one of the four.
data IsMode (m : Text) : Type 0 where
  of_google : m ≡ google → IsMode m
  of_cloudflare : m ≡ cloudflare → IsMode m
  of_custom : m ≡ custom → IsMode m
  of_device : m ≡ device → IsMode m

normalize_dns_mode-IsMode : (mode : Text) → IsMode (normalize_dns_mode mode)
unfolding normalize_dns_mode one_of
normalize_dns_mode-IsMode mode =
    let m = lower (trim_space mode) in
    elim (Bool-cases (eq_text google m)) [
      | inl e ↦ rw e (of_google (sym ((eq_text_iff google m).0 e)))
      | inr a ↦ elim (Bool-cases (eq_text cloudflare m)) [
        | inl e ↦ rw (a, e) (of_cloudflare (sym ((eq_text_iff cloudflare m).0 e)))
        | inr b ↦ elim (Bool-cases (eq_text custom m)) [
          | inl e ↦ rw (a, b, e) (of_custom (sym ((eq_text_iff custom m).0 e)))
          | inr c ↦ rw (a, b, c) (of_device refl)
        ]
      ]
    ]

abbrev timeout_or : ℤ → ℤ
timeout_or t = if is_nonpos t then pos 4 else t

timeout_or_idem : (t : ℤ) → timeout_or (timeout_or t) ≡ timeout_or t
timeout_or_idem (pos zero) = refl
timeout_or_idem (pos (suc n)) = refl
timeout_or_idem (negsuc n) = refl

normalize_hotspot_idem :
    (h : HotspotSettings) → normalize_hotspot (normalize_hotspot h) ≡ normalize_hotspot h
unfolding normalize_hotspot
normalize_hotspot_idem h = elim (Bool-cases (has_any h.interfaces)) [
  | inl e ↦ rw (e, e)
  | inr e ↦ rw e
]

module _ (split_host : Text → Option Text) (is_ip : Text → Bool) where
  abbrev kept : List Text → List Text
  kept servers =
      trim_dns_server_ports split_host is_ip (normalized_dns_servers split_host is_ip servers)

  -- Where the mode is custom and servers are given, one of them is an address.
  abbrev pub HasServer : DnsSettings → Type 0
  HasServer dns =
      normalize_dns_mode dns.mode ≡ custom
      → has_any (kept dns.servers) ≡ has_any (normalized_dns_servers split_host is_ip dns.servers)

  normalize_dns_idem :
      Addresses split_host is_ip
      → (dns : DnsSettings) → HasServer dns
      → normalize_dns split_host is_ip (normalize_dns split_host is_ip dns)
        ≡ normalize_dns split_host is_ip dns
  unfolding normalize_dns normalize_mode_settings normalize_dns_mode eq_text
  normalize_dns_idem net dns ok = elim (normalize_dns_mode-IsMode dns.mode) [
    | of_google e ↦ rw (e, timeout_or_idem dns.timeout) refl
    | of_cloudflare e ↦ rw (e, timeout_or_idem dns.timeout) refl
    | of_device e ↦ rw (e, timeout_or_idem dns.timeout) refl
    | of_custom e ↦
        let servers = normalized_dns_servers split_host is_ip dns.servers in
        rw
          (
            e,
            timeout_or_idem dns.timeout,
            servers_idem split_host is_ip net servers,
            normalized-any split_host is_ip net servers,
            ok e,
          )
          refl
  ]

  -- Over addresses as Go's `net` package documents them, and with a server that is an address
  -- where the mode is custom and servers are given: to normalize settings that `normalizeConfig`
  -- has normalized changes nothing.
  pub normalize_config_idem :
      Addresses split_host is_ip
      → (cfg : Config) → HasServer cfg.dns
      → normalize_config split_host is_ip (normalize_config split_host is_ip cfg)
        ≡ normalize_config split_host is_ip cfg
  unfolding normalize_config
  normalize_config_idem net cfg ok =
      rw (normalize_dns_idem net cfg.dns ok, normalize_hotspot_idem cfg.hotspot) refl
