-- ===== src/Dialling/Prepare.antt =====
-- `openPreparedSSHConn`, `attemptTransport` and `attemptSSHAuth`. The first closes the connection on
-- each of its errors, the second when it returns; what they do up to there is the same code, and
-- stands here once, with the way to give up as a parameter.
use sshcustom_magisk.Base.{
  ℕ, Bool, true, false, not, ◌&&◌, ◌||◌, List, [], ◌∷◌, Option, none, some, is_some, if◌then◌else◌,
  drop,
}
use sshcustom_magisk.Base.Int.{ℤ, pos}
use sshcustom_magisk.Text.{Text, codes, is_empty, index_of}
use sshcustom_magisk.Net.{join_host_port, int_string}
use sshcustom_magisk.Config.{Config}
use sshcustom_magisk.Dns.{evict_host}
use sshcustom_magisk.Pool.System.{ProbeResult}
use sshcustom_magisk.Profiles.{Profile, Ssh, HttpProxyCfg, TlsCfg}
use sshcustom_magisk.Profiles.Transport.{
  Endpoint, endpoint, no_endpoint, dial_endpoint, uses_http_proxy, uses_tls,
}
use sshcustom_magisk.Responses.{
  extract_http_statuses, extract_ssh_banner, allowed_statuses, preview, in_set,
}
use sshcustom_magisk.Dialling.{
  Outside, Wire, secured, authenticated, closed, note, Conn, Cause, bad_endpoint, tcp_failed,
  tls_failed, tls_missing, payload_write, payload_read, banner_read, ssh_failed, no_banner,
  status_not_allowed, Outcome, ok, err, Io, ◌>>=◌, ◌>>◌, pure, fail, abort, no_result,
}
use sshcustom_magisk.Dialling.Tcp.{
  equal_fold, reached, unreached, Dialled, dial_tcp_resolved, dial_fallback_ips,
}
use sshcustom_magisk.Dialling.Payload.{
  Got, got, lost, read_probe, render_payload, send, receive, http_connect,
}

abbrev pub is_connect : Option HttpProxyCfg → Bool
is_connect none = false
is_connect (some proxy) = equal_fold proxy.connect_method (codes "connect")

abbrev pub name_or : Text → Text → Text
name_or other name = if is_empty name then other else name

-- The codes at which the name's addresses are forgotten.
abbrev pub is_rate_limit : List ℤ → Bool
is_rate_limit statuses =
    in_set (pos 302) statuses || (in_set (pos 301) statuses || in_set (pos 503) statuses)

abbrev pub evict_proxy : Option HttpProxyCfg → Wire → Wire
evict_proxy none w = w
evict_proxy (some proxy) w = record w { cache = evict_host proxy.host w.cache }

abbrev pub any_status : List ℤ → Bool
any_status [] = false
any_status (_ ∷ _) = true

-- The result with what was read.
abbrev pub with_bytes : Text → ProbeResult → ProbeResult
with_bytes all res = record res {
  banner = extract_ssh_banner all;
  statuses = extract_http_statuses all;
  preview = preview all;
}

-- The result of an error behind the reading: the codes and the preview.
abbrev pub seen_bytes : Text → ProbeResult
seen_bytes all = record no_result { statuses = extract_http_statuses all; preview = preview all }

-- An error, with the connection closed or left to a `defer`.
abbrev pub quit : {A : Type 0} → Bool → ℕ → ProbeResult → Cause → Io A
quit true i res cause w = abort i res cause w
quit false i res cause w = fail res cause w

module _ (o : Outside) where
  -- `dialEndpoint` and `dialTCPResolved`.
  abbrev pub opened : Dialled × Wire → Outcome (Conn × ProbeResult) × Wire
  opened (d, w) =
      let res = record no_result {
        resolved_dial = d.addr;
        resolver_method = d.method;
        resolved_ips = d.ips;
      } in
      elim d.how [
        | reached i ↦ (ok (record { base = i; tls = false; prefix = [] }, res), w)
        | unreached e ↦ (err res (tcp_failed e), w)
      ]

  abbrev pub open_at : Config → Profile → Endpoint → Io (Conn × ProbeResult)
  open_at cfg p (no_endpoint e) w = fail no_result (bad_endpoint e) w
  open_at cfg p (endpoint host port) w =
      opened (dial_tcp_resolved o cfg host port (dial_fallback_ips o p host) w)

  unfoldable pub open_conn : Config → Profile → Io (Conn × ProbeResult)
  unfolding dial_endpoint dial_tcp_resolved dial_fallback_ips
  open_conn cfg p = open_at cfg p (dial_endpoint p)

  -- `httpCONNECT` where the mode asks for it.
  abbrev pub after_connect : Bool → ℕ → Option Cause × Wire → Outcome (Unit {0}) × Wire
  after_connect closing i (none, w) = pure tt w
  after_connect closing i (some cause, w) = quit closing i no_result cause w

  unfoldable pub connect_stage : Bool → Profile → Conn → Io (Unit {0})
  unfolding uses_http_proxy equal_fold http_connect
  connect_stage closing p c w =
      if uses_http_proxy p.transport && is_connect p.transport.http_proxy
      then after_connect closing c.base (http_connect o c p w)
      else pure tt w

  -- The TLS handshake.
  abbrev pub after_handshake : Bool → Conn → Text → Wire → Option Text → Outcome Conn × Wire
  after_handshake closing c name w (some e) = quit closing c.base no_result (tls_failed e) w
  after_handshake closing c name w none =
      pure (record c { tls = true }) (note (secured c.base name) w)

  abbrev pub tls_with : Bool → Profile → Conn → Option TlsCfg → Io Conn
  tls_with closing p c none w = quit closing c.base no_result tls_missing w
  tls_with closing p c (some tls) w =
      let name = name_or p.ssh.host tls.server_name in
      after_handshake closing c name w (o.handshake w.log name tls.insecure_skip_verify tls.alpn)

  unfoldable pub tls_stage : Bool → Profile → Conn → Io Conn
  unfolding uses_tls
  tls_stage closing p c w =
      if uses_tls p.transport then tls_with closing p c p.transport.tls w else pure c w

  -- Reading up to the banner.
  abbrev pub read_or : (Text → Cause) → Bool → ℕ → Got → Io Text
  read_or cause closing i (got bytes) w = pure bytes w
  read_or cause closing i (lost e) w = quit closing i no_result (cause e) w

  unfoldable pub probe_stage : (Text → Cause) → Bool → Conn → Io Text
  unfolding receive read_probe
  probe_stage cause closing c w =
      let (chunks, w') = receive o c w in read_or cause closing c.base (read_probe [] chunks) w'

  -- The payload, and what comes back.
  abbrev pub after_payload : Bool → Profile → Conn → Option Text × Wire → Outcome Text × Wire
  after_payload closing p c (some e, w) = quit closing c.base no_result (payload_write e) w
  after_payload closing p c (none, w) =
      if p.transport.payload.read_response then probe_stage payload_read closing c w else pure [] w

  unfoldable pub payload_stage : Bool → Profile → Conn → Io Text
  unfolding send render_payload probe_stage
  payload_stage closing p c w =
      after_payload closing p c
        (send o c (render_payload o.shuffle p.transport.payload.template p) w)

  -- The check of the status codes.
  unfoldable pub status_stage : Bool → Profile → Conn → Text → Io (Unit {0})
  unfolding extract_http_statuses allowed_statuses preview
  status_stage closing p c all w =
      let statuses = extract_http_statuses all in
      if any_status statuses && not (allowed_statuses statuses p.transport.payload.allow_statuses)
      then quit closing c.base (seen_bytes all) (status_not_allowed statuses) w
      else pure tt w

  -- The name's addresses are forgotten behind a rate limit.
  unfoldable pub evict_stage : Profile → List ℤ → Wire → Wire
  unfolding evict_host
  evict_stage p statuses w =
      if is_rate_limit statuses
      then evict_proxy p.transport.http_proxy (record w { cache = evict_host p.ssh.host w.cache })
      else w

  abbrev pub from_banner : Text → Option ℕ → Text
  from_banner all none = all
  from_banner all (some idx) = drop idx all

  -- What `openPreparedSSHConn` does with the bytes that it has read: they are put back in front of
  -- the stream from the banner on, or a response is taken as a sign that the banner is to come.
  unfoldable pub banner_stage : Profile → Conn → Text → Io Conn
  unfolding extract_ssh_banner index_of evict_stage extract_http_statuses preview
  banner_stage p c all w =
      let banner = extract_ssh_banner all in
      let idx = index_of (codes "SSH-") all in
      let statuses = extract_http_statuses all in
      if not (p.transport.payload.enabled && p.transport.payload.read_response)
      then pure c w
      else if not (is_empty banner) && is_some idx
      then pure (record c { prefix = from_banner all idx }) w
      else if any_status statuses
      then pure c (evict_stage p statuses w)
      else abort c.base (seen_bytes all) no_banner w

  abbrev pub if_payload : Bool → Profile → Conn → Io Text
  if_payload true p c w = payload_stage true p c w
  if_payload false p c w = pure [] w

  -- `openPreparedSSHConn` behind the TLS handshake.
  unfoldable pub prepare_payload : Profile → ProbeResult → Conn → Io (Conn × ProbeResult)
  unfolding payload_stage status_stage banner_stage extract_ssh_banner extract_http_statuses preview
  prepare_payload p res conn = do
    all ← if_payload p.transport.payload.enabled p conn
    status_stage true p conn all
    ready ← banner_stage p conn all
    pure (ready, with_bytes all res)

  -- `openPreparedSSHConn` behind the dialling.
  unfoldable pub prepare_body : Profile → Conn × ProbeResult → Io (Conn × ProbeResult)
  unfolding connect_stage tls_stage prepare_payload
  prepare_body p (base, res) = do
    connect_stage true p base
    conn ← tls_stage true p base
    prepare_payload p res conn

  -- `openPreparedSSHConn`.
  unfoldable pub open_prepared_ssh_conn : Config → Profile → Io (Conn × ProbeResult)
  unfolding open_conn prepare_body
  open_prepared_ssh_conn cfg p = do opened ← open_conn cfg p; prepare_body p opened

  -- `attemptSSHAuth`.
  abbrev pub password_or_user : Ssh → Text
  password_or_user ssh = if is_empty ssh.password then ssh.username else ssh.password

  abbrev pub after_auth :
      Conn → ProbeResult → Wire → Option Text → Outcome (Conn × ProbeResult) × Wire
  after_auth c res w (some e) = abort c.base res (ssh_failed e) w
  after_auth c res w none = pure (c, res) (note (authenticated c.base) w)

  unfoldable pub auth_stage : Profile → Conn × ProbeResult → Io (Conn × ProbeResult)
  unfolding join_host_port int_string
  auth_stage p (c, res) w = after_auth c res w (
      o.authenticate w.log (join_host_port p.ssh.host (int_string p.ssh.port)) p.ssh.username
        (password_or_user p.ssh))

  unfoldable pub attempt_ssh_auth : Config → Profile → Io (Conn × ProbeResult)
  unfolding open_prepared_ssh_conn auth_stage
  attempt_ssh_auth cfg p = do prepared ← open_prepared_ssh_conn cfg p; auth_stage p prepared

  -- `attemptTransport`: a probe, which closes its connection on each return.
  abbrev pub probe_or_payload : Bool → Profile → Conn → Io Text
  probe_or_payload true p c w = payload_stage false p c w
  probe_or_payload false p c w = probe_stage banner_read false c w

  unfoldable pub exposed_stage : Conn → Text → Io (Unit {0})
  unfolding extract_ssh_banner extract_http_statuses preview
  exposed_stage c all w =
      if is_empty (extract_ssh_banner all) && not (any_status (extract_http_statuses all))
      then fail (seen_bytes all) no_banner w
      else pure tt w

  unfoldable pub probe_payload : Profile → ProbeResult → Conn → Io ProbeResult
  unfolding payload_stage probe_stage status_stage exposed_stage extract_ssh_banner
      extract_http_statuses preview
  probe_payload p res conn = do
    all ← probe_or_payload p.transport.payload.enabled p conn
    status_stage false p conn all
    exposed_stage conn all
    pure (with_bytes all res)

  unfoldable pub probe_body : Profile → Conn × ProbeResult → Io ProbeResult
  unfolding connect_stage tls_stage probe_payload
  probe_body p (base, res) = do
    connect_stage false p base
    conn ← tls_stage false p base
    probe_payload p res conn

  -- The deferred close.
  abbrev pub then_close : {A : Type 0} → ℕ → Outcome A × Wire → Outcome A × Wire
  then_close i (r, w) = (r, note (closed i) w)

  unfoldable pub attempt_transport : Config → Profile → Io ProbeResult
  unfolding open_conn probe_body
  attempt_transport cfg p = do
    conn ← open_conn cfg p
    λ w. then_close conn.0.base (probe_body p conn w)
