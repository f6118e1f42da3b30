-- ===== src/Config/Servers.antt =====
-- The lists of name servers that `normalizeConfig` leaves.
use sshcustom_magisk.Base.{
  ◌≡◌, refl, ap, inl, inr, Bool, true, false, List, [], ◌∷◌, Option, none, some, is_some, map,
  Bool-cases,
}
use sshcustom_magisk.Text.{Text, codes, eq_text, is_empty, trim, trim_space}
use sshcustom_magisk.Text.Equality.{eq_text_iff, eq_text_ne}
use sshcustom_magisk.Net.{join_host_port}
use sshcustom_magisk.Profiles.{one_of}
use sshcustom_magisk.Dns.{normalize_from, normalize_servers, has_any}
use sshcustom_magisk.Config.{
  is_bracket, normalized_dns_servers, bare_host, trim_from, trim_dns_server_ports,
}

-- What Go's `net` package documents of an address that `ParseIP` accepts: it is not split at a
-- port, with a port joined to it the two are split again, and it has no space or bracket around it.
pub record Addresses (split_host : Text → Option Text) (is_ip : Text → Bool) : Type 0 where
  pub no_port : (s : Text) → is_ip s ≡ true → split_host s ≡ none
  pub split-join : (s : Text) → is_ip s ≡ true → split_host (join_host_port s (codes "53")) ≡ some s
  pub no_space : (s : Text) → is_ip s ≡ true → trim_space s ≡ s
  pub no_bracket : (s : Text) → is_ip s ≡ true → trim is_bracket s ≡ s
  pub not_blank : (s : Text) → is_ip s ≡ true → is_empty s ≡ false

module _ (split_host : Text → Option Text) (is_ip : Text → Bool) where
  -- Distinct addresses, none of which has been seen.
  abbrev pub AreFresh : List Text → List Text → Type 0
  AreFresh seen [] = Unit
  AreFresh seen (s ∷ servers) =
      (is_ip s ≡ true) × (one_of s seen ≡ false) × AreFresh (s ∷ seen) servers

  trim_from-AreFresh :
      (seen servers : List Text) → AreFresh seen (trim_from split_host is_ip seen servers)
  unfolding trim_from
  trim_from-AreFresh seen [] = tt
  trim_from-AreFresh seen (s ∷ servers) = elim (Bool-cases (is_ip (bare_host split_host is_ip s))) [
    | inr other ↦ rw other (trim_from-AreFresh seen servers)
    | inl ip ↦ elim (Bool-cases (one_of (bare_host split_host is_ip s) seen)) [
      | inl again ↦ rw (ip, again) (trim_from-AreFresh seen servers)
      | inr first ↦
          rw (ip, first)
            (ip, first, trim_from-AreFresh (bare_host split_host is_ip s ∷ seen) servers)
    ]
  ]

  module _ (net : Addresses split_host is_ip) where
    abbrev joined : Text → Text
    joined s = join_host_port s (codes "53")

    joined-injective : (s t : Text) → is_ip s ≡ true → is_ip t ≡ true → joined s ≡ joined t → s ≡ t
    joined-injective s t hs ht e = cc (net.split-join s hs, net.split-join t ht, ap split_host e)

    abbrev AreIps : List Text → Type 0
    AreIps [] = Unit
    AreIps (s ∷ servers) = (is_ip s ≡ true) × AreIps servers

    one_of-joined :
        (s : Text) (seen : List Text)
        → is_ip s ≡ true
        → AreIps seen
        → one_of s seen ≡ false
        → one_of (joined s) (map joined seen) ≡ false
    unfolding one_of
    one_of-joined s [] hs ips h = refl
    one_of-joined s (t ∷ seen) hs ips h = elim (Bool-cases (eq_text t s)) [
      | inl same ↦ cc (rw same at h)
      | inr other ↦
          let apart : eq_text (joined t) (joined s) ≡ false =
            eq_text_ne (joined t) (joined s)
              (λ e. cc ((eq_text_iff t s).1 (joined-injective t s ips.0 hs e), other)) in
          rw apart (one_of-joined s seen hs ips.1 (rw other at h))
    ]

    normalize_from-fresh :
        (seen servers : List Text)
        → AreIps seen
        → AreFresh seen servers
        → normalize_from (λ s. is_some (split_host s)) (map joined seen) servers
          ≡ map joined servers
    unfolding normalize_from
    normalize_from-fresh seen [] ips h = refl
    normalize_from-fresh seen (s ∷ servers) ips h =
        let new = one_of-joined s seen h.0 ips h.1 in
        rw
          (
            net.no_space s h.0,
            net.no_port s h.0,
            net.not_blank s h.0,
            new,
            normalize_from-fresh (s ∷ seen) servers (h.0, ips) h.2,
          )
          refl

    trim_from-joined :
        (seen servers : List Text)
        → AreFresh seen servers
        → trim_from split_host is_ip seen (map joined servers) ≡ servers
    unfolding trim_from
    trim_from-joined seen [] h = refl
    trim_from-joined seen (s ∷ servers) h =
        rw (net.split-join s h.0, net.no_bracket s h.0, h.0, h.1)
          (ap (λ l. s ∷ l) (trim_from-joined (s ∷ seen) servers h.2))

    -- The servers that are left once are left again.
    pub servers_idem :
        (servers : List Text)
        → let once = trim_dns_server_ports split_host is_ip servers in
          trim_dns_server_ports split_host is_ip (normalized_dns_servers split_host is_ip once)
          ≡ once
    unfolding trim_dns_server_ports normalized_dns_servers normalize_servers
    servers_idem servers =
        let once = trim_from split_host is_ip [] servers in
        let fresh = trim_from-AreFresh [] servers in
        rw (normalize_from-fresh [] once tt fresh) (trim_from-joined [] once fresh)

    pub normalized-any :
        (servers : List Text)
        → let once = trim_dns_server_ports split_host is_ip servers in
          has_any (normalized_dns_servers split_host is_ip once) ≡ has_any once
    unfolding trim_dns_server_ports normalized_dns_servers normalize_servers
    normalized-any servers =
        let once = trim_from split_host is_ip [] servers in
        rw (normalize_from-fresh [] once tt (trim_from-AreFresh [] servers)) (any_of_map once)
      where
        any_of_map : (l : List Text) → has_any (map joined l) ≡ has_any l
        any_of_map [] = refl
        any_of_map (x ∷ l) = refl
