-- ===== src/Profiles/Transport.antt =====
-- `normalizeMode`, `buildTransport`, and how a profile's transport is read when it is dialled.
pub mod Dialled
use sshcustom_magisk.Base.{
  ℕ, Bool, true, false, not, ◌&&◌, ◌||◌, List, [], ◌∷◌, ◌++◌, Option, none, some, ◌==◌,
  if◌then◌else◌,
}
use sshcustom_magisk.Base.Int.{ℤ, pos, negsuc, is_nonpos}
use sshcustom_magisk.Text.{Text, codes, eq_text, lower, trim_space, is_empty}
use sshcustom_magisk.Profiles.{Ssh, HttpProxyCfg, TlsCfg, PayloadCfg, TConf, Profile, one_of}

abbrev pub direct : Text
direct = codes "direct"

abbrev pub http_proxy : Text
http_proxy = codes "http_proxy"

abbrev pub tls_sni : Text
tls_sni = codes "tls_sni"

abbrev pub http_proxy_tls_sni : Text
http_proxy_tls_sni = codes "http_proxy_tls_sni"

abbrev direct_names : List Text
direct_names = direct ∷ codes "ssh" ∷ codes "ssh_payload" ∷ codes "ssh+pl" ∷ []

abbrev proxy_names : List Text
proxy_names =
    http_proxy
    ∷ codes "ssh_http_proxy"
    ∷ codes "ssh+http"
    ∷ codes "ssh+http_proxy"
    ∷ codes "ssh+pl+http"
    ∷ []

abbrev tls_names : List Text
tls_names = tls_sni ∷ codes "sni" ∷ codes "ssh+sni" ∷ codes "ssh+pl+sni" ∷ []

abbrev proxy_tls_names : List Text
proxy_tls_names =
    http_proxy_tls_sni ∷ codes "http_tls" ∷ codes "ssh+http+sni" ∷ codes "ssh+pl+http+sni" ∷ []

-- `normalizeMode`.
unfoldable pub normalize_mode : Text → Text
unfolding lower trim_space one_of
normalize_mode mode =
    let m = trim_space (lower mode) in
    if one_of m direct_names
    then direct
    else if one_of m proxy_names
    then http_proxy
    else if one_of m tls_names
    then tls_sni
    else if one_of m proxy_tls_names
    then http_proxy_tls_sni
    else []

unfoldable pub default_timing : Text → Text
unfolding eq_text
default_timing mode =
    if eq_text mode http_proxy
    then codes "after_proxy_socket_before_ssh"
    else if eq_text mode tls_sni || eq_text mode http_proxy_tls_sni
    then codes "after_tls_before_ssh"
    else codes "before_ssh"

abbrev has_no_status : List ℤ → Bool
has_no_status [] = true
has_no_status (_ ∷ _) = false

abbrev has_no_text : List Text → Bool
has_no_text [] = true
has_no_text (_ ∷ _) = false

abbrev pub default_statuses : List ℤ
default_statuses = pos 101 ∷ pos 200 ∷ pos 204 ∷ pos 302 ∷ []

-- The payload settings with their defaults.
unfoldable pub fill_payload : Text → PayloadCfg → PayloadCfg
unfolding default_timing
fill_payload mode payload = record payload {
  send_timing = if is_empty payload.send_timing then default_timing mode else payload.send_timing;
  allow_statuses =
      if has_no_status payload.allow_statuses then default_statuses else payload.allow_statuses;
}

abbrev pub is_port_80 : ℤ → Bool
is_port_80 (pos n) = n == 80
is_port_80 (negsuc _) = false

abbrev pub proxy_or : Ssh → Option HttpProxyCfg → HttpProxyCfg
proxy_or ssh none = record {
  host = ssh.host;
  port = ssh.port;
  connect_method = codes "socket";
  fallback_ips = [];
}
proxy_or ssh (some proxy) = proxy

-- The settings of the HTTP proxy with their defaults; port 80 becomes 443 below TLS.
unfoldable pub fill_proxy : Text → Ssh → Option HttpProxyCfg → HttpProxyCfg
unfolding eq_text
fill_proxy mode ssh given =
    let proxy = proxy_or ssh given in
    let port = if is_nonpos proxy.port then ssh.port else proxy.port in
    record proxy {
      host = if is_empty proxy.host then ssh.host else proxy.host;
      port = if eq_text mode http_proxy_tls_sni && is_port_80 port then pos 443 else port;
      connect_method =
          if is_empty proxy.connect_method then codes "socket" else proxy.connect_method;
    }

abbrev http_1_1 : List Text
http_1_1 = codes "http/1.1" ∷ []

abbrev tls_or : Ssh → Option TlsCfg → TlsCfg
tls_or ssh none = record {
  enabled = true;
  server_name = ssh.host;
  insecure_skip_verify = true;
  alpn = http_1_1;
}
tls_or ssh (some tls) = tls

-- The TLS settings with their defaults.
unfoldable pub fill_tls : Ssh → Option TlsCfg → TlsCfg
fill_tls ssh given =
    let tls = tls_or ssh given in
    record tls {
      server_name = if is_empty tls.server_name then ssh.host else tls.server_name;
      alpn = if has_no_text tls.alpn then http_1_1 else tls.alpn;
      enabled = true;
    }

abbrev pub mode_has_proxy : Text → Bool
mode_has_proxy mode = eq_text mode http_proxy || eq_text mode http_proxy_tls_sni

abbrev pub mode_has_tls : Text → Bool
mode_has_tls mode = eq_text mode tls_sni || eq_text mode http_proxy_tls_sni

abbrev pub only_if : Bool → Text → List Text
only_if true name = name ∷ []
only_if false name = []

-- `buildTransport`.
unfoldable pub build_transport :
    Text → PayloadCfg → Option HttpProxyCfg → Option TlsCfg → Ssh → TConf
unfolding fill_payload fill_proxy fill_tls eq_text
build_transport mode payload proxy tls ssh = record {
  mode = mode;
  chain =
      (codes "tcp" ∷ [])
      ++ (only_if (mode_has_proxy mode) http_proxy
          ++ (only_if (mode_has_tls mode) (codes "tls")
              ++ (only_if payload.enabled (codes "payload") ++ (codes "ssh" ∷ []))));
  http_proxy = if mode_has_proxy mode then some (fill_proxy mode ssh proxy) else none;
  tls = if mode_has_tls mode then some (fill_tls ssh tls) else none;
  payload = fill_payload mode payload;
}

-- `usesHTTPProxy`.
unfoldable pub uses_http_proxy : TConf → Bool
unfolding eq_text one_of
uses_http_proxy t =
    eq_text t.mode http_proxy || (eq_text t.mode http_proxy_tls_sni || one_of http_proxy t.chain)

-- `usesTLS`.
unfoldable pub uses_tls : TConf → Bool
unfolding eq_text one_of
uses_tls t =
    eq_text t.mode tls_sni || (eq_text t.mode http_proxy_tls_sni || one_of (codes "tls") t.chain)

pub data EndpointError : Type 0 where
  proxy_missing : EndpointError
  invalid_endpoint : Text → ℤ → EndpointError

pub data Endpoint : Type 0 where
  endpoint : Text → ℤ → Endpoint
  no_endpoint : EndpointError → Endpoint

abbrev pub valid_endpoint : Text → ℤ → Endpoint
valid_endpoint host port =
    if is_empty host || is_nonpos port
    then no_endpoint (invalid_endpoint host port)
    else endpoint host port

abbrev pub proxy_endpoint : Option HttpProxyCfg → Endpoint
proxy_endpoint none = no_endpoint proxy_missing
proxy_endpoint (some proxy) = valid_endpoint proxy.host proxy.port

-- `dialEndpoint`.
unfoldable pub dial_endpoint : Profile → Endpoint
unfolding uses_http_proxy
dial_endpoint p =
    if uses_http_proxy p.transport
    then proxy_endpoint p.transport.http_proxy
    else valid_endpoint p.ssh.host p.ssh.port
