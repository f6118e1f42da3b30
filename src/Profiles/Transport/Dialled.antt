-- ===== src/Profiles/Transport/Dialled.antt =====
-- What `normalizeMode` and `buildTransport` give to `dialEndpoint`.
use sshcustom_magisk.Base.{
  ◌≡◌, refl, sym, ◌∙◌, ◌⊎◌, Bool, true, false, ◌&&◌, ◌||◌, List, [], ◌∷◌, ◌++◌, Option, none, some,
  is_some, if◌then◌else◌, Bool-cases, inl, inr,
}
use sshcustom_magisk.Base.Int.{ℤ, pos, is_nonpos}
use sshcustom_magisk.Text.{Text, codes, eq_text, is_empty}
use sshcustom_magisk.Profiles.{Ssh, HttpProxyCfg, TlsCfg, PayloadCfg, Profile, one_of}
use sshcustom_magisk.Profiles.Transport.{
  direct, http_proxy, tls_sni, http_proxy_tls_sni, normalize_mode, build_transport, fill_proxy,
  proxy_or, is_port_80, mode_has_proxy, only_if, uses_http_proxy, uses_tls, endpoint,
  valid_endpoint, dial_endpoint,
}

abbrev pub modes : List Text
modes = direct ∷ http_proxy ∷ tls_sni ∷ http_proxy_tls_sni ∷ []

abbrev pick : Bool → Bool → Bool → Bool → Text
pick a b c d =
    if a
    then direct
    else if b
    then http_proxy
    else if c
    then tls_sni
    else if d
    then http_proxy_tls_sni
    else []

pick-fixed :
    (a b c d : Bool)
    → (normalize_mode (pick a b c d) ≡ pick a b c d)
      × ((pick a b c d ≡ []) ⊎ (one_of (pick a b c d) modes ≡ true))
unfolding normalize_mode one_of eq_text
pick-fixed true b c d = (refl, inr refl)
pick-fixed false true c d = (refl, inr refl)
pick-fixed false false true d = (refl, inr refl)
pick-fixed false false false true = (refl, inr refl)
pick-fixed false false false false = (refl, inl refl)

-- A mode that is normalized is empty or one of the four modes, and to normalize it again changes
-- nothing.
pub normalize_mode_fixed :
    (mode : Text)
    → (normalize_mode (normalize_mode mode) ≡ normalize_mode mode)
      × ((normalize_mode mode ≡ []) ⊎ (one_of (normalize_mode mode) modes ≡ true))
unfolding normalize_mode
normalize_mode_fixed mode = pick-fixed _ _ _ _

proxy_in_chain :
    (p q r e : Bool)
    → (p
        || (q
            || one_of http_proxy (
                (codes "tcp" ∷ [])
                ++ (only_if (p || q) http_proxy
                    ++ (only_if (r || q) (codes "tls")
                        ++ (only_if e (codes "payload") ++ (codes "ssh" ∷ [])))))))
      ≡ (p || q)
unfolding one_of eq_text
proxy_in_chain true q r e = refl
proxy_in_chain false true r e = refl
proxy_in_chain false false true true = refl
proxy_in_chain false false true false = refl
proxy_in_chain false false false true = refl
proxy_in_chain false false false false = refl

tls_in_chain :
    (p q r e : Bool)
    → (r
        || (q
            || one_of (codes "tls") (
                (codes "tcp" ∷ [])
                ++ (only_if (p || q) http_proxy
                    ++ (only_if (r || q) (codes "tls")
                        ++ (only_if e (codes "payload") ++ (codes "ssh" ∷ [])))))))
      ≡ (r || q)
unfolding one_of eq_text
tls_in_chain p q true e = refl
tls_in_chain p true false e = refl
tls_in_chain true false false true = refl
tls_in_chain true false false false = refl
tls_in_chain false false false true = refl
tls_in_chain false false false false = refl

is_some-if {ℓ} : {A : Type ℓ} (b : Bool) (x : A) → is_some (if b then some x else none) ≡ b
is_some-if true x = refl
is_some-if false x = refl

-- What `usesHTTPProxy` and `usesTLS` read in a transport that was built is what was put there: the
-- proxy's settings are present exactly when a proxy is used, and those of TLS exactly when TLS is.
pub build_transport-uses :
    (mode : Text) (payload : PayloadCfg) (proxy : Option HttpProxyCfg) (tls : Option TlsCfg)
    (ssh : Ssh)
    → let t = build_transport mode payload proxy tls ssh in
      (uses_http_proxy t ≡ is_some t.http_proxy) × (uses_tls t ≡ is_some t.tls)
unfolding build_transport uses_http_proxy uses_tls
build_transport-uses mode payload proxy tls ssh =
    let p = eq_text mode http_proxy in
    let q = eq_text mode http_proxy_tls_sni in
    let r = eq_text mode tls_sni in
    (
      proxy_in_chain p q r payload.enabled ∙ sym (is_some-if (p || q) (fill_proxy mode ssh proxy)),
      tls_in_chain p q r payload.enabled ∙ sym (is_some-if (r || q) _),
    )

pub uses_http_proxy-built :
    (mode : Text) (payload : PayloadCfg) (proxy : Option HttpProxyCfg) (tls : Option TlsCfg)
    (ssh : Ssh)
    → uses_http_proxy (build_transport mode payload proxy tls ssh) ≡ mode_has_proxy mode
unfolding build_transport uses_http_proxy
uses_http_proxy-built mode payload proxy tls ssh =
    proxy_in_chain (eq_text mode http_proxy) (eq_text mode http_proxy_tls_sni)
      (eq_text mode tls_sni) payload.enabled

-- The host and the port are ones that can be dialled.
abbrev pub CanDial : Text → ℤ → Type 0
CanDial host port = (is_empty host ≡ false) × (is_nonpos port ≡ false)

valid_endpoint-CanDial :
    (host : Text) (port : ℤ) → CanDial host port → valid_endpoint host port ≡ endpoint host port
valid_endpoint-CanDial host port (h, p) = rw (h, p)

host-CanDial :
    (given host : Text)
    → is_empty host ≡ false
    → is_empty (if is_empty given then host else given) ≡ false
host-CanDial given host h = elim (Bool-cases (is_empty given)) [ inl e ↦ rw e h | inr e ↦ rw e e ]

port-CanDial :
    (given port : ℤ)
    → is_nonpos port ≡ false
    → is_nonpos (if is_nonpos given then port else given) ≡ false
port-CanDial given port h = elim (Bool-cases (is_nonpos given)) [ inl e ↦ rw e h | inr e ↦ rw e e ]

fixed_port-CanDial :
    (b : Bool) (port : ℤ) → is_nonpos port ≡ false → is_nonpos (if b then pos 443 else port) ≡ false
fixed_port-CanDial true port h = refl
fixed_port-CanDial false port h = h

fill_proxy-CanDial :
    (mode : Text) (ssh : Ssh) (proxy : Option HttpProxyCfg)
    → CanDial ssh.host ssh.port
    → let filled = fill_proxy mode ssh proxy in CanDial filled.host filled.port
unfolding fill_proxy
fill_proxy-CanDial mode ssh proxy (h, p) =
    let given = proxy_or ssh proxy in
    let port = if is_nonpos given.port then ssh.port else given.port in
    (
      host-CanDial given.host ssh.host h,
      fixed_port-CanDial (eq_text mode http_proxy_tls_sni && is_port_80 port) port
          (port-CanDial given.port ssh.port p),
    )

-- With a host and a port for SSH that can be dialled, the transport built for any mode and any
-- settings gives a profile that `dialEndpoint` has an address for: the filled-in proxy's when the
-- mode has one, and the SSH server's when it has none.
pub dial_endpoint-built :
    (mode : Text) (payload : PayloadCfg) (proxy : Option HttpProxyCfg) (tls : Option TlsCfg)
    (p : Profile)
    → CanDial p.ssh.host p.ssh.port
    → p.transport ≡ build_transport mode payload proxy tls p.ssh
    → let filled = fill_proxy mode p.ssh proxy in
      dial_endpoint p ≡ (
        if mode_has_proxy mode
        then endpoint filled.host filled.port
        else endpoint p.ssh.host p.ssh.port)
unfolding dial_endpoint build_transport
dial_endpoint-built mode payload proxy tls p ok built =
    let uses = uses_http_proxy-built mode payload proxy tls p.ssh in
    let filled = fill_proxy-CanDial mode p.ssh proxy ok in
    elim (Bool-cases (mode_has_proxy mode)) [
      | inl with_proxy ↦ rw (built, uses, with_proxy, valid_endpoint-CanDial _ _ filled)
      | inr without ↦ rw (built, uses, without, valid_endpoint-CanDial _ _ ok)
    ]
