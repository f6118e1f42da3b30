-- ===== src/Profiles/Store/Stored.antt =====
-- A profile that `upsertProfile` stores is one that `dialEndpoint` can read.
use sshcustom_magisk.Base.{
  ℕ, zero, suc, ◌≡◌, refl, true, false, [], ◌∷◌, Option, none, some, ◌==◌, subst, sym, ap, ◌∙◌,
  if◌then◌else◌, Bool-cases, inl, inr,
}
use sshcustom_magisk.Base.Int.{ℤ, pos, negsuc, is_nonpos}
use sshcustom_magisk.Text.{Text, codes, eq_text, is_empty, trim_space}
use sshcustom_magisk.Text.Equality.{eq_text_iff}
use sshcustom_magisk.Profiles.{Ssh, HttpProxyCfg, ProfilesFile, SaveProfileRequest}
use sshcustom_magisk.Profiles.Transport.{
  normalize_mode, mode_has_proxy, fill_proxy, is_port_80, http_proxy, http_proxy_tls_sni, Endpoint,
  endpoint, dial_endpoint,
}
use sshcustom_magisk.Profiles.Transport.Dialled.{CanDial, dial_endpoint-built}
use sshcustom_magisk.Profiles.Store.{
  check_request, port_ok, profile_of, fill_ssh, password_of, replaced, request_id,
}
use sshcustom_magisk.Profiles.Store.Laws.{stored}

not_blank : (t : Text) → is_empty (trim_space t) ≡ false → is_empty t ≡ false
unfolding trim_space
not_blank [] h = h
not_blank (c ∷ t) h = refl

port_ok-positive : (port : ℤ) → port_ok port ≡ true → is_nonpos port ≡ false
port_ok-positive (pos zero) h = cc
port_ok-positive (pos (suc n)) h = refl
port_ok-positive (negsuc n) h = cc

check_request-CanDial :
    (req : SaveProfileRequest) → check_request req ≡ none → CanDial req.ssh.host req.ssh.port
unfolding check_request
check_request-CanDial req h = elim (Bool-cases (is_empty (trim_space req.ssh.host))) [
  | inl e ↦ cc (rw e at h)
  | inr e ↦ elim (Bool-cases (port_ok req.ssh.port)) [
    | inl f ↦ (not_blank req.ssh.host e, port_ok-positive req.ssh.port f)
    | inr f ↦ cc (rw (e, f) at h)
  ]
]

-- The same with the settings of the proxy as they are filled in.
dial_endpoint-filled :
    (now : ℕ) (req : SaveProfileRequest) (pf : ProfilesFile)
    → check_request req ≡ none
    → let p = stored now req pf in
      let mode = normalize_mode req.mode in
      let proxy = fill_proxy mode p.ssh req.http_proxy in
      dial_endpoint p ≡ (
        if mode_has_proxy mode
        then endpoint proxy.host proxy.port
        else endpoint req.ssh.host req.ssh.port)
unfolding profile_of
dial_endpoint-filled now req pf ok =
    let p = stored now req pf in
    dial_endpoint-built (normalize_mode req.mode) req.payload req.http_proxy req.tls p
      (check_request-CanDial req ok) refl

-- The proxy that a request asks for: what it leaves out is taken from the SSH server.
abbrev pub asked_host : Ssh → Option HttpProxyCfg → Text
asked_host ssh none = ssh.host
asked_host ssh (some proxy) = if is_empty proxy.host then ssh.host else proxy.host

abbrev pub asked_port : Ssh → Option HttpProxyCfg → ℤ
asked_port ssh none = ssh.port
asked_port ssh (some proxy) = if is_nonpos proxy.port then ssh.port else proxy.port

-- Below TLS the port 80 is taken as 443.
abbrev pub tls_port : ℤ → ℤ
tls_port (pos n) = if n == 80 then pos 443 else pos n
tls_port (negsuc n) = negsuc n

-- Where a request with this mode asks to connect to.
abbrev pub asked_endpoint : Text → Ssh → Option HttpProxyCfg → Endpoint
asked_endpoint mode ssh proxy =
    if eq_text mode (codes "http_proxy")
    then endpoint (asked_host ssh proxy) (asked_port ssh proxy)
    else if eq_text mode (codes "http_proxy_tls_sni")
    then endpoint (asked_host ssh proxy) (tls_port (asked_port ssh proxy))
    else endpoint ssh.host ssh.port

tls_port_lem : (port : ℤ) → (if is_port_80 port then pos 443 else port) ≡ tls_port port
tls_port_lem (pos n) = refl
tls_port_lem (negsuc n) = refl

same_port : (port : ℤ) → (if is_nonpos port then port else port) ≡ port
same_port (pos zero) = refl
same_port (pos (suc n)) = refl
same_port (negsuc n) = refl

same_host : (host : Text) → (if is_empty host then host else host) ≡ host
same_host [] = refl
same_host (c ∷ host) = refl

-- The address that the filled-in settings give, where the mode is that one.
abbrev IsAsked : Text → Ssh → Option HttpProxyCfg → Text → Type 0
IsAsked password ssh proxy mode =
    let filled = fill_proxy mode (fill_ssh password ssh) proxy in
    (if mode_has_proxy mode then endpoint filled.host filled.port else endpoint ssh.host ssh.port)
    ≡ asked_endpoint mode ssh proxy

http_proxy-IsAsked :
    (password : Text) (ssh : Ssh) (proxy : Option HttpProxyCfg)
    → IsAsked password ssh proxy http_proxy
unfolding fill_proxy eq_text
http_proxy-IsAsked password ssh none =
    ap (endpoint (if is_empty ssh.host then ssh.host else ssh.host)) (same_port ssh.port)
    ∙ ap (λ host. endpoint host ssh.port) (same_host ssh.host)
http_proxy-IsAsked password ssh (some proxy) = refl

http_proxy_tls_sni-IsAsked :
    (password : Text) (ssh : Ssh) (proxy : Option HttpProxyCfg)
    → IsAsked password ssh proxy http_proxy_tls_sni
unfolding fill_proxy eq_text
http_proxy_tls_sni-IsAsked password ssh none =
    ap
      (λ port.
        endpoint (if is_empty ssh.host then ssh.host else ssh.host)
          (if is_port_80 port then pos 443 else port))
      (same_port ssh.port)
    ∙ ap (λ port. endpoint (if is_empty ssh.host then ssh.host else ssh.host) port)
        (tls_port_lem ssh.port)
    ∙ ap (λ host. endpoint host (tls_port ssh.port)) (same_host ssh.host)
http_proxy_tls_sni-IsAsked password ssh (some proxy) =
    ap (endpoint (asked_host ssh (some proxy))) (tls_port_lem (asked_port ssh (some proxy)))

any_mode-IsAsked :
    (password : Text) (ssh : Ssh) (proxy : Option HttpProxyCfg) (mode : Text)
    → IsAsked password ssh proxy mode
any_mode-IsAsked password ssh proxy mode = elim (Bool-cases (eq_text mode http_proxy)) [
  | inl e ↦
      subst (IsAsked password ssh proxy) (sym ((eq_text_iff mode http_proxy).0 e))
        (http_proxy-IsAsked password ssh proxy)
  | inr e ↦ elim (Bool-cases (eq_text mode http_proxy_tls_sni)) [
    | inl f ↦
        subst (IsAsked password ssh proxy) (sym ((eq_text_iff mode http_proxy_tls_sni).0 f))
          (http_proxy_tls_sni-IsAsked password ssh proxy)
    | inr f ↦ rw (e, f) refl
  ]
]

-- A request that passes the checks is stored as a profile that `dialEndpoint` reports no error for.
-- In the modes with an HTTP proxy it gives the proxy's address, with what the request leaves out
-- taken from the SSH server, and with port 443 in place of 80 below TLS; in any other it gives the
-- address of the SSH server.
pub dial_endpoint-stored :
    (now : ℕ) (req : SaveProfileRequest) (pf : ProfilesFile)
    → check_request req ≡ none
    → dial_endpoint (stored now req pf)
      ≡ asked_endpoint (normalize_mode req.mode) req.ssh req.http_proxy
unfolding profile_of
dial_endpoint-stored now req pf ok =
    dial_endpoint-filled now req pf ok
    ∙ any_mode-IsAsked (password_of (replaced (request_id now pf req) pf req)) req.ssh
        req.http_proxy (normalize_mode req.mode)
