-- ===== src/Dns.antt =====
-- The resolver of internal/dnsx/dnsx.go: its cache, and the order in which it asks. Times are in
-- milliseconds. What the queries answer is given by functions, and so is which server already has a
-- port (`net.SplitHostPort` reports no error).
pub mod Addresses
pub mod Cache
use sshcustom_magisk.Base.{
  ℕ, ◌+◌, Bool, true, false, not, ◌||◌, List, [], ◌∷◌, ◌++◌, Option, none, some, ltb, if◌then◌else◌,
}
use sshcustom_magisk.Text.{Text, codes, eq_text, is_empty, lower, trim_space, join, has_suffix}
use sshcustom_magisk.Net.{join_host_port}
use sshcustom_magisk.Profiles.{one_of}

-- `cacheEntry`.
pub record Entry : Type 0 where
  pub ips : List Text
  pub method : Text
  pub expires : ℕ

-- `hostCache.entries`: the first entry with a key is the one that counts.
abbrev pub HostCache : Type 0
HostCache = List (Text × Entry)

pub record DnsConfig : Type 0 where
  pub mode : Text
  pub servers : List Text

unfoldable pub lookup : Text → HostCache → Option Entry
unfolding eq_text
lookup key [] = none
lookup key ((k, e) ∷ cache) =
    let later = lookup key cache in if eq_text k key then some e else later

-- `cache`: an entry holds for five minutes.
unfoldable pub store : ℕ → Text → List Text → Text → HostCache → HostCache
store now key ips method cache =
    (key, record { ips = ips; method = method; expires = now + 300000 }) ∷ cache

unfoldable pub remove_suffix : Text → HostCache → HostCache
unfolding has_suffix
remove_suffix suffix [] = []
remove_suffix suffix ((k, e) ∷ cache) =
    let rest = remove_suffix suffix cache in if has_suffix suffix k then rest else (k, e) ∷ rest

abbrev pub host_of : Text → Text
host_of host = lower (trim_space host)

-- `EvictHost`.
unfoldable pub evict_host : Text → HostCache → HostCache
unfolding lower trim_space remove_suffix
evict_host host cache =
    if is_empty (host_of host) then cache else remove_suffix (b'|' ∷ host_of host) cache

-- `time.Now().Before(e.expires)`.
abbrev pub unexpired : ℕ → Option Entry → Option Entry
unexpired now none = none
unexpired now (some e) = if ltb now e.expires then some e else none

abbrev pub has_any : List Text → Bool
has_any [] = false
has_any (_ ∷ _) = true

-- What the world answers: the carrier's servers, a direct query, and the shell's tools.
pub record World : Type 0 where
  pub carrier : List Text
  pub direct : Text → List Text → List Text
  pub shell : Text → List Text

module _ (has_port : Text → Bool) where
  abbrev pub with_port : Text → Text
  with_port s = if has_port s then s else join_host_port s (codes "53")

  -- The loop of `NormalizeServers`, with the servers seen so far.
  unfoldable pub normalize_from : List Text → List Text → List Text
  unfolding trim_space join_host_port one_of
  normalize_from seen [] = []
  normalize_from seen (s ∷ servers) =
      let s = trim_space s in
      let named = with_port s in
      let skip = normalize_from seen servers in
      let rest = normalize_from (named ∷ seen) servers in
      if is_empty s || one_of named seen then skip else named ∷ rest

  -- `NormalizeServers`.
  unfoldable pub normalize_servers : List Text → List Text
  unfolding normalize_from
  normalize_servers = normalize_from []

  -- The part of a key before the name.
  unfoldable pub key_start : DnsConfig → Text
  unfolding normalize_servers join
  key_start cfg = cfg.mode ++ (b'|' ∷ join (codes ",") (normalize_servers cfg.servers))

  -- `cacheKey`.
  unfoldable pub cache_key : DnsConfig → Text → Text
  unfolding key_start
  cache_key cfg host = key_start cfg ++ (b'|' ∷ host)

  -- `configuredServers`; the carrier's servers are given.
  unfoldable pub configured_servers : List Text → DnsConfig → List Text × Text
  unfolding normalize_servers eq_text
  configured_servers carrier cfg =
      if eq_text cfg.mode (codes "google")
      then (normalize_servers (codes "8.8.8.8" ∷ codes "8.8.4.4" ∷ []), codes "google_dns")
      else if eq_text cfg.mode (codes "cloudflare")
      then (normalize_servers (codes "1.1.1.1" ∷ codes "1.0.0.1" ∷ []), codes "cloudflare_dns")
      else if eq_text cfg.mode (codes "custom")
      then (normalize_servers cfg.servers, codes "custom_dns")
      else (carrier, codes "android_real_dns")

  -- The addresses that a fresh resolution finds, and by which method.
  unfoldable pub ask : World → DnsConfig → Text → List Text × Text
  unfolding configured_servers
  ask w cfg host =
      let (servers, method) = configured_servers w.carrier cfg in
      let found = if has_any servers then w.direct host servers else [] in
      if has_any found
      then (found, method)
      else if has_any (w.shell host)
      then (w.shell host, codes "android_shell_dns")
      else ([], codes "dns_failed")

  -- What follows a look at the cache; the time is the one at which the answer is stored.
  abbrev pub answer :
      ℕ → Text → Option Entry → List Text × Text → HostCache → (List Text × Text) × HostCache
  answer done key (some e) found cache = ((e.ips, codes "dns_cached_" ++ e.method), cache)
  answer done key none found cache =
      (found, if has_any found.0 then store done key found.0 found.1 cache else cache)

  -- `ResolveHost`, begun at one time and done at another.
  unfoldable pub resolve_host :
      World → ℕ → ℕ → DnsConfig → Text → HostCache → (List Text × Text) × HostCache
  unfolding lower trim_space cache_key lookup ask store
  resolve_host w now done cfg host cache =
      let key = cache_key cfg (host_of host) in
      answer done key (unexpired now (lookup key cache)) (ask w cfg (host_of host)) cache
