-- ===== src/Tests/Names.antt =====
-- The theorems on the resolver, for one name.
use sshcustom_magisk.Base.{
  ◌≡◌, refl, Bool, true, List, Option, none, some, if◌then◌else◌, false, [], ◌∷◌, ◌++◌, arith,
}
use sshcustom_magisk.Text.{Text, codes, is_empty, trim_space, lower}
use sshcustom_magisk.Dns.{
  HostCache, DnsConfig, World, ask, host_of, evict_host, resolve_host, lookup,
}
use sshcustom_magisk.Profiles.{one_of}
use sshcustom_magisk.Profiles.Store.Ids.{distinct}
use sshcustom_magisk.Dns.Addresses.{sanitize_ipv4_list}
use sshcustom_magisk.Dns.Addresses.Sets.{any_is, sanitize_ipv4_list-distinct}
use sshcustom_magisk.Dns.Cache.{evict_host-forgets, resolve_host-cached}

-- Where no server comes with a port.
abbrev bare : Text → Bool
bare _ = false

abbrev world : World
world = record { carrier = []; direct = λ host servers. codes "192.0.2.7" ∷ []; shell = λ host. [] }

abbrev silent : World
silent = record { carrier = []; direct = λ host servers. []; shell = λ host. [] }

abbrev google : DnsConfig
google = record { mode = codes "google"; servers = [] }

abbrev name : Text
name = codes "Example.org"

abbrev warm : HostCache
warm = (resolve_host bare world 0 5 google name []).1

evict_host-forgets_example :
    (resolve_host bare silent 10 15 google name (evict_host name warm)).0
    ≡ ask bare silent google (host_of name)
unfolding lower trim_space
evict_host-forgets_example = evict_host-forgets bare silent 10 15 google name warm refl

resolve_host-cached_example : resolve_host bare silent 10 15 google name warm ≡ (
  (
    (resolve_host bare world 0 5 google name []).0.0,
    codes "dns_cached_" ++ (resolve_host bare world 0 5 google name []).0.1,
  ),
  warm,
)
unfolding lookup ask
resolve_host-cached_example =
    resolve_host-cached bare world silent 0 5 10 15 google name [] refl refl (omega arith)

abbrev dotted : Text → Option Text
dotted s = if is_empty s then none else some s

abbrev given : List Text
given = codes "192.0.2.7 " ∷ codes " " ∷ codes "192.0.2.7" ∷ codes "192.0.2.8" ∷ []

sanitize_ipv4_list-distinct_example :
    (distinct (sanitize_ipv4_list dotted given) ≡ true)
    × ((v : Text) → one_of v (sanitize_ipv4_list dotted given) ≡ any_is dotted v given)
sanitize_ipv4_list-distinct_example = sanitize_ipv4_list-distinct dotted given
