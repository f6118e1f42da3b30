-- ===== src/Dialling/Tcp.antt =====
-- `dialTCPResolved`, `dialFallbackIPs` and `resolveHostSmart`.
use sshcustom_magisk.Base.{ℕ, Bool, List, [], ◌∷◌, ◌++◌, Option, none, some, if◌then◌else◌, length}
use sshcustom_magisk.Base.Int.{ℤ}
use sshcustom_magisk.Text.{Text, codes, eq_text, lower}
use sshcustom_magisk.Net.{join_host_port, int_string}
use sshcustom_magisk.Config.{Config, device, normalize_dns_mode}
use sshcustom_magisk.Dns.{DnsConfig, HostCache, resolve_host, has_any}
use sshcustom_magisk.Dns.Addresses.{rotate_ips, sanitize_ipv4_list}
use sshcustom_magisk.Profiles.{Profile, Ssh, HttpProxyCfg}
use sshcustom_magisk.Dialling.{Outside, Wire, connected, unreachable, note}

-- `strings.EqualFold` on ASCII.
unfoldable pub equal_fold : Text → Text → Bool
unfolding eq_text lower
equal_fold a b = eq_text (lower a) (lower b)

abbrev pub proxy_fallback : Text → Ssh → Option HttpProxyCfg → List Text
proxy_fallback host ssh none = []
proxy_fallback host ssh (some proxy) =
    if equal_fold host proxy.host then proxy.fallback_ips ++ ssh.fallback_ips else []

pub data Reached : Type 0 where
  reached : ℕ → Reached
  unreached : Text → Reached

-- What `dialTCPResolved` returns.
pub record Dialled : Type 0 where
  pub how : Reached
  pub addr : Text
  pub method : Text
  pub ips : List Text

pub data Tried : Type 0 where
  hit : ℕ → Text → Tried
  missed : Text → Tried

-- Behind one of several attempts: the next one follows a failure.
abbrev pub after_try : Text → (Text → Wire → Tried × Wire) → Reached × Wire → Tried × Wire
after_try addr rest (reached i, w) = (hit i addr, w)
after_try addr rest (unreached e, w) = rest e w

abbrev pub dialled : Reached → Text → Text → List Text → Wire → Dialled × Wire
dialled how addr method ips w = (record { how = how; addr = addr; method = method; ips = ips }, w)

abbrev pub head_or : Text → List Text → Text
head_or other [] = other
head_or other (x ∷ _) = x

module _ (o : Outside) where
  abbrev pub answered : Text → Wire → Option Text → Reached × Wire
  answered addr w none = (reached (length w.log), note (connected (length w.log) addr) w)
  answered addr w (some e) = (unreached e, note (unreachable addr) w)

  -- `DialContext`.
  unfoldable pub dial_one : Text → Wire → Reached × Wire
  dial_one addr w = answered addr w (o.dial w.log addr)

  -- The loop over addresses; the text is the last error.
  unfoldable pub try_each : Text → Text → List Text → Wire → Tried × Wire
  unfolding dial_one join_host_port
  try_each port last [] w = (missed last, w)
  try_each port last (ip ∷ ips) w =
      let addr = join_host_port ip port in
      after_try addr (λ e. try_each port e ips) (dial_one addr w)

  -- `dialFallbackIPs`.
  unfoldable pub dial_fallback_ips : Profile → Text → List Text
  unfolding sanitize_ipv4_list equal_fold
  dial_fallback_ips p host = sanitize_ipv4_list o.ipv4 (
      (if equal_fold host p.ssh.host then p.ssh.fallback_ips else [])
      ++ proxy_fallback host p.ssh p.transport.http_proxy)

  -- `dnsCfgFromConfig`.
  unfoldable pub dns_config : Config → DnsConfig
  unfolding normalize_dns_mode
  dns_config cfg = record { mode = normalize_dns_mode cfg.dns.mode; servers = cfg.dns.servers }

  abbrev pub resolved : Wire → (List Text × Text) × HostCache → (List Text × Text) × Wire
  resolved w (found, cache) = (found, record w { cache = cache })

  -- `resolveHostSmart`.
  unfoldable pub resolve_host_smart : Config → Text → Wire → (List Text × Text) × Wire
  unfolding resolve_host dns_config
  resolve_host_smart cfg host w = resolved w (
      resolve_host o.has_port (o.resolver w.log) (o.now w.log) (o.done w.log) (dns_config cfg) host
        w.cache)

  -- The addresses of a name, tried in turn from a place that the clock chooses.
  unfoldable pub try_rotated : Text → Text → List Text → Wire → Tried × Wire
  unfolding rotate_ips try_each
  try_rotated port last ips w = try_each port last (rotate_ips (o.nanos w.log) ips) w

  abbrev pub or_missed : Text → List Text → (Wire → Dialled × Wire) → Tried × Wire → Dialled × Wire
  or_missed method ips other (hit i addr, w) = dialled (reached i) addr method ips w
  or_missed method ips other (missed e, w) = other w

  -- The last resort, where no name server knows the host: the profile's addresses.
  unfoldable pub dial_last : Text → Text → Text → List Text → Wire → Dialled × Wire
  unfolding try_rotated
  dial_last addr port e fallback w =
      or_missed (codes "profile_fallback_ip_last_resort") fallback
        (dialled (unreached e) addr (codes "device_system_dns_failed") [])
        (try_rotated port e fallback w)

  abbrev pub or_last : Text → List Text → Text → Tried × Wire → Dialled × Wire
  or_last method ips first (hit i addr, w) = dialled (reached i) addr method ips w
  or_last method ips first (missed e, w) = dialled (unreached e) first method ips w

  -- Behind the failure of the system's resolver: the daemon's own.
  unfoldable pub dial_resolved :
      Text → Text → Text → List Text → (List Text × Text) × Wire → Dialled × Wire
  unfolding dial_last try_each rotate_ips join_host_port
  dial_resolved addr port e fallback ((ips, method), w) =
      let rotated = rotate_ips (o.nanos w.log) ips in
      if has_any ips
      then or_last method rotated (join_host_port (head_or [] rotated) port)
          (try_each port e rotated w)
      else dial_last addr port e fallback w

  abbrev pub or_resolved : Config → Text → Text → Text → List Text → Reached × Wire → Dialled × Wire
  or_resolved cfg host addr port fallback (reached i, w) =
      dialled (reached i) addr (codes "device_system_dns") [] w
  or_resolved cfg host addr port fallback (unreached e, w) =
      dial_resolved addr port e fallback (resolve_host_smart cfg host w)

  -- The path by the system's resolver.
  unfoldable pub dial_system : Config → Text → Text → List Text → Wire → Dialled × Wire
  unfolding dial_one dial_resolved resolve_host_smart join_host_port
  dial_system cfg host port fallback w =
      let addr = join_host_port host port in
      or_resolved cfg host addr port fallback (dial_one addr w)

  abbrev pub or_system :
      Config → Text → Text → List Text → (List Text × Text) × Wire → Dialled × Wire
  or_system cfg host port fallback ((ips, method), w) =
      if has_any ips
      then or_missed method ips (dial_system cfg host port fallback) (try_rotated port [] ips w)
      else dial_system cfg host port fallback w

  abbrev pub dial_name : Config → Text → Text → List Text → Option Text → Wire → Dialled × Wire
  dial_name cfg host port fallback (some ip) w =
      let addr = join_host_port host port in
      let (how, w') = dial_one addr w in dialled how addr (codes "literal_ip") (ip ∷ []) w'
  dial_name cfg host port fallback none w =
      if eq_text (normalize_dns_mode cfg.dns.mode) device
      then dial_system cfg host port fallback w
      else or_system cfg host port fallback (resolve_host_smart cfg host w)

  -- `dialTCPResolved`.
  unfoldable pub dial_tcp_resolved : Config → Text → ℤ → List Text → Wire → Dialled × Wire
  unfolding int_string dial_system try_rotated dial_one
  dial_tcp_resolved cfg host port fallback w =
      dial_name cfg host (int_string port) fallback (o.literal host) w
