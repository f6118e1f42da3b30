-- ===== src/Dns/Cache.antt =====
-- What the resolver's cache keeps and forgets.
use sshcustom_magisk.Base.{
  ℕ, ◌+◌, ◌<◌, ◌≡◌, refl, Bool, true, false, [], ◌∷◌, ◌++◌, none, arith, ltb, Bool-cases, inl, inr,
}
use sshcustom_magisk.Text.{Text, codes, eq_text, is_empty, has_suffix}
use sshcustom_magisk.Text.Equality.{eq_text_iff, eq_text_refl}
use sshcustom_magisk.Dns.{
  HostCache, DnsConfig, lookup, store, remove_suffix, host_of, evict_host, has_any, key_start,
  cache_key, World, ask, resolve_host,
}

has_suffix-append : (xs n : Text) → has_suffix n (xs ++ n) ≡ true
unfolding has_suffix
has_suffix-append [] [] = refl
has_suffix-append [] (c ∷ n) = rw (eq_text_refl (c ∷ n)) refl
has_suffix-append (x ∷ xs) n = elim (Bool-cases (eq_text n (x ∷ (xs ++ n)))) [
  | inl e ↦ rw e refl
  | inr e ↦ rw e (has_suffix-append xs n)
]

lookup-remove_suffix :
    (key suffix : Text) (cache : HostCache)
    → has_suffix suffix key ≡ true
    → lookup key (remove_suffix suffix cache) ≡ none
unfolding lookup remove_suffix
lookup-remove_suffix key suffix [] h = refl
lookup-remove_suffix key suffix ((k, e) ∷ cache) h = elim (Bool-cases (has_suffix suffix k)) [
  | inl gone ↦ rw gone (lookup-remove_suffix key suffix cache h)
  | inr kept ↦ elim (Bool-cases (eq_text k key)) [
    | inl same ↦ let k_is_key : k ≡ key = (eq_text_iff k key).0 same in cc (k_is_key, h, kept)
    | inr other ↦ rw (kept, other) (lookup-remove_suffix key suffix cache h)
  ]
]

module _ (has_port : Text → Bool) where
  -- Behind `EvictHost` with a name that is not blank, `ResolveHost` asks anew for that name, in
  -- every mode and with every list of servers.
  pub evict_host-forgets :
      (w : World) (now done : ℕ) (cfg : DnsConfig) (host : Text) (cache : HostCache)
      → is_empty (host_of host) ≡ false
      → (resolve_host has_port w now done cfg host (evict_host host cache)).0
        ≡ ask has_port w cfg (host_of host)
  unfolding resolve_host evict_host cache_key
  evict_host-forgets w now done cfg host cache named =
      let key = cache_key has_port cfg (host_of host) in
      let suffix : Text = b'|' ∷ host_of host in
      let ends : has_suffix suffix key ≡ true = has_suffix-append (key_start has_port cfg) suffix in
      rw (named, lookup-remove_suffix key suffix cache ends) refl

  -- A name that is not in the cache and that is resolved: within five minutes of that, the answer
  -- is the same addresses, marked as cached, whatever the world would answer by then.
  pub resolve_host-cached :
      (w v : World) (now done later after : ℕ) (cfg : DnsConfig) (host : Text) (cache : HostCache)
      → lookup (cache_key has_port cfg (host_of host)) cache ≡ none
      → has_any (ask has_port w cfg (host_of host)).0 ≡ true
      → later < done + 300000
      → let first = resolve_host has_port w now done cfg host cache in
        resolve_host has_port v later after cfg host first.1
        ≡ ((first.0.0, codes "dns_cached_" ++ first.0.1), first.1)
  unfolding resolve_host store lookup
  resolve_host-cached w v now done later after cfg host cache new found soon =
      let fresh : ltb later (done + 300000) ≡ true = ground arith in
      rw (new, found, eq_text_refl (cache_key has_port cfg (host_of host)), fresh) refl
