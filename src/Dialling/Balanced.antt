-- ===== src/Dialling/Balanced.antt =====
-- Every attempt closes the connections that it does not hand on.
use sshcustom_magisk.Base.{
  ℕ, ◌≡◌, refl, sym, ap, ◌∙◌, subst, Bool, true, false, not, ◌&&◌, List, ◌∷◌, Option, none, some,
  is_some, Bool-cases, inl, inr,
}
use sshcustom_magisk.Base.Int.{ℤ}
use sshcustom_magisk.Dns.{evict_host}
use sshcustom_magisk.Text.{Text, codes, is_empty, index_of}
use sshcustom_magisk.Config.{Config}
use sshcustom_magisk.Pool.System.{ProbeResult}
use sshcustom_magisk.Profiles.{Profile, HttpProxyCfg}
use sshcustom_magisk.Profiles.Transport.{Endpoint, endpoint, no_endpoint, dial_endpoint}
use sshcustom_magisk.Responses.{extract_http_statuses, extract_ssh_banner}
use sshcustom_magisk.Dialling.{
  Outside, Wire, Conn, Outcome, ok, err, Io, follow, live, remove_one, no_banner, ssh_failed,
  banner_read,
}
use sshcustom_magisk.Dialling.Tcp.{
  Dialled, Reached, reached, unreached, dial_tcp_resolved, dial_fallback_ips,
}
use sshcustom_magisk.Dialling.Opened.{Opens, opens_of, dial_tcp_resolved-Opens}
use sshcustom_magisk.Dialling.Live.{
  Ends, Any, IsOn, follow-Ends, quit-Ends, remove_one-head, connect_stage-Ends, tls_stage-Ends,
  probe_stage-Ends, payload_stage-Ends, status_stage-Ends,
}
use sshcustom_magisk.Dialling.Prepare.{
  open_at, opened, open_conn, any_status, seen_bytes, evict_stage, evict_proxy, is_rate_limit,
  banner_stage, if_payload, connect_stage, tls_stage, status_stage, prepare_body,
  open_prepared_ssh_conn, after_auth, auth_stage, attempt_ssh_auth, probe_or_payload, exposed_stage,
  probe_body, prepare_payload, probe_payload, then_close, attempt_transport,
}

-- A connection that is returned is open in front of those from before, which are all that are open
-- where an error is returned.
abbrev pub Closes : List ℕ → Outcome (Conn × ProbeResult) × Wire → Type 0
Closes opens (ok (c, res), w) = live w.log ≡ c.base ∷ opens
Closes opens (err res cause, w) = live w.log ≡ opens

-- The connection in a result is number `i`.
abbrev IsReady : ℕ → Conn × ProbeResult → Type 0
IsReady i (c, res) = c.base ≡ i

follow-Closes :
    (opens : List ℕ) (f : Conn × ProbeResult → Io (Conn × ProbeResult))
    (r : Outcome (Conn × ProbeResult) × Wire)
    → Closes opens r
    → ((c : Conn) (res : ProbeResult) (w : Wire)
        → live w.log ≡ c.base ∷ opens
        → Ends true c.base opens (IsReady c.base) (f (c, res) w))
    → Closes opens (follow f r)
follow-Closes opens f (err res cause, w) h k = h
follow-Closes opens f (ok (c, res), w) h k = from_Ends (f (c, res) w) (k c res w h)
  where
    from_Ends :
        (r : Outcome (Conn × ProbeResult) × Wire)
        → Ends true c.base opens (IsReady c.base) r
        → Closes opens r
    from_Ends (ok (d, res'), w') h' = h'.1 ∙ ap (λ i. i ∷ opens) (sym h'.0)
    from_Ends (err res' cause, w') h' = h'

module _ (o : Outside) (opens : List ℕ) where
  opened-Closes : (r : Dialled × Wire) → Opens o opens r → Closes opens (opened o r)
  opened-Closes (d, w) h = by_how d.how h
    where
      by_how :
          (how : Reached)
          → live w.log ≡ opens_of how opens
          → Closes opens (opened o (record d { how = how }, w))
      by_how (reached i) h' = h'
      by_how (unreached e) h' = h'

  open_conn-Closes :
      (cfg : Config) (p : Profile) (w : Wire)
      → live w.log ≡ opens
      → Closes opens (open_conn o cfg p w)
  unfolding open_conn
  open_conn-Closes cfg p w h = at_endpoint (dial_endpoint p)
    where
      at_endpoint : (e : Endpoint) → Closes opens (open_at o cfg p e w)
      at_endpoint (no_endpoint e) = h
      at_endpoint (endpoint host port) =
          opened-Closes (dial_tcp_resolved o cfg host port (dial_fallback_ips o p host) w)
            (dial_tcp_resolved-Opens o opens cfg host port (dial_fallback_ips o p host) w h)

  evict_stage-live :
      (p : Profile) (statuses : List ℤ) (w : Wire)
      → live (evict_stage o p statuses w).log ≡ live w.log
  unfolding evict_stage
  evict_stage-live p statuses w = elim (Bool-cases (is_rate_limit statuses)) [
    | inr calm ↦ rw calm refl
    | inl limited ↦ rw limited (by_proxy p.transport.http_proxy)
  ]
    where
      by_proxy :
          (proxy : Option HttpProxyCfg)
          → live (evict_proxy proxy (record w { cache = evict_host p.ssh.host w.cache })).log
            ≡ live w.log
      by_proxy none = refl
      by_proxy (some proxy) = refl

  banner_stage-Ends :
      (p : Profile) (c : Conn) (all : Text) (w : Wire)
      → live w.log ≡ c.base ∷ opens
      → Ends true c.base opens (IsOn c.base) (banner_stage o p c all w)
  unfolding banner_stage
  banner_stage-Ends p c all w h =
      let statuses = extract_http_statuses all in
      let reads = p.transport.payload.enabled && p.transport.payload.read_response in
      let shown =
        not (is_empty (extract_ssh_banner all)) && is_some (index_of (codes "SSH-") all) in
      elim (Bool-cases reads) [
        | inr silent ↦ rw silent (refl, h)
        | inl reads ↦ elim (Bool-cases shown) [
          | inl banner ↦ rw (reads, banner) (refl, h)
          | inr without ↦ elim (Bool-cases (any_status statuses)) [
            | inl response ↦ rw (reads, without, response) (refl, evict_stage-live p statuses w ∙ h)
            | inr bare ↦
                rw (reads, without, bare)
                  (quit-Ends true c.base opens (IsOn c.base) (seen_bytes all) no_banner w h)
          ]
        ]
      ]

  if_payload-Ends :
      (b : Bool) (p : Profile) (c : Conn) (w : Wire)
      → live w.log ≡ c.base ∷ opens
      → Ends true c.base opens Any (if_payload o b p c w)
  if_payload-Ends true p c w h = payload_stage-Ends o true opens p c w h
  if_payload-Ends false p c w h = (tt, h)

  prepare_payload-Ends :
      (p : Profile) (res : ProbeResult) (c : Conn) (w : Wire)
      → live w.log ≡ c.base ∷ opens
      → Ends true c.base opens (IsReady c.base) (prepare_payload o p res c w)
  unfolding prepare_payload
  prepare_payload-Ends p res c w h =
      let i = c.base in
      let on = p.transport.payload.enabled in
      follow-Ends true i opens Any (IsReady i) _ (if_payload o on p c w)
        (if_payload-Ends on p c w h)
        λ all w1 _ h1.
          follow-Ends true i opens Any (IsReady i) _ (status_stage o true p c all w1)
            (status_stage-Ends o true opens p c all w1 h1)
            λ _ w2 _ h2.
              follow-Ends true i opens (IsOn i) (IsReady i) _ (banner_stage o p c all w2)
                (banner_stage-Ends p c all w2 h2) λ d w3 same h3. (same, h3)

  prepare_body-Ends :
      (p : Profile) (c : Conn) (res : ProbeResult) (w : Wire)
      → live w.log ≡ c.base ∷ opens
      → Ends true c.base opens (IsReady c.base) (prepare_body o p (c, res) w)
  unfolding prepare_body
  prepare_body-Ends p c res w h =
      let i = c.base in
      follow-Ends true i opens Any (IsReady i) _ (connect_stage o true p c w)
        (connect_stage-Ends o true opens p c w h)
        λ _ w1 _ h1.
          follow-Ends true i opens (IsOn i) (IsReady i) _ (tls_stage o true p c w1)
            (tls_stage-Ends o true opens p c w1 h1)
            λ d w2 same h2.
              subst (λ j. Ends true j opens (IsReady j) (prepare_payload o p res d w2)) same
                (prepare_payload-Ends p res d w2 (h2 ∙ ap (λ j. j ∷ opens) (sym same)))

  -- `openPreparedSSHConn`, on each of its paths: the connection that it returns is open in front of
  -- those from before, and where it returns an error it has closed what it had opened.
  pub open_prepared_ssh_conn-Closes :
      (cfg : Config) (p : Profile) (w : Wire)
      → live w.log ≡ opens
      → Closes opens (open_prepared_ssh_conn o cfg p w)
  unfolding open_prepared_ssh_conn
  open_prepared_ssh_conn-Closes cfg p w h =
      follow-Closes opens (prepare_body o p) (open_conn o cfg p w) (open_conn-Closes cfg p w h)
        (prepare_body-Ends p)

  after_auth-Ends :
      (c : Conn) (res : ProbeResult) (w : Wire) (e : Option Text)
      → live w.log ≡ c.base ∷ opens
      → Ends true c.base opens (IsReady c.base) (after_auth o c res w e)
  after_auth-Ends c res w none h = (refl, unfold live in h)
  after_auth-Ends c res w (some e) h =
      quit-Ends true c.base opens (IsReady c.base) res (ssh_failed e) w h

  auth_stage-Ends :
      (p : Profile) (c : Conn) (res : ProbeResult) (w : Wire)
      → live w.log ≡ c.base ∷ opens
      → Ends true c.base opens (IsReady c.base) (auth_stage o p (c, res) w)
  unfolding auth_stage
  auth_stage-Ends p c res w h = after_auth-Ends c res w _ h

  -- `attemptSSHAuth`, however the world answers: with a session its connection is the only one
  -- that the attempt leaves open, and without one it leaves none open.
  pub attempt_ssh_auth-Closes :
      (cfg : Config) (p : Profile) (w : Wire)
      → live w.log ≡ opens
      → Closes opens (attempt_ssh_auth o cfg p w)
  unfolding attempt_ssh_auth
  attempt_ssh_auth-Closes cfg p w h =
      follow-Closes opens (auth_stage o p) (open_prepared_ssh_conn o cfg p w)
        (open_prepared_ssh_conn-Closes cfg p w h) (auth_stage-Ends p)

  probe_or_payload-Ends :
      (b : Bool) (p : Profile) (c : Conn) (w : Wire)
      → live w.log ≡ c.base ∷ opens
      → Ends false c.base opens Any (probe_or_payload o b p c w)
  probe_or_payload-Ends true p c w h = payload_stage-Ends o false opens p c w h
  probe_or_payload-Ends false p c w h = probe_stage-Ends o false opens banner_read c w h

  exposed_stage-Ends :
      (c : Conn) (all : Text) (w : Wire)
      → live w.log ≡ c.base ∷ opens
      → Ends false c.base opens Any (exposed_stage o c all w)
  unfolding exposed_stage
  exposed_stage-Ends c all w h =
      let bare =
        is_empty (extract_ssh_banner all) && not (any_status (extract_http_statuses all)) in
      elim (Bool-cases bare) [ inl e ↦ rw e h | inr e ↦ rw e (tt, h) ]

  probe_payload-Ends :
      (p : Profile) (res : ProbeResult) (c : Conn) (w : Wire)
      → live w.log ≡ c.base ∷ opens
      → Ends false c.base opens Any (probe_payload o p res c w)
  unfolding probe_payload
  probe_payload-Ends p res c w h =
      let i = c.base in
      let on = p.transport.payload.enabled in
      follow-Ends false i opens Any Any _ (probe_or_payload o on p c w)
        (probe_or_payload-Ends on p c w h)
        λ all w1 _ h1.
          follow-Ends false i opens Any Any _ (status_stage o false p c all w1)
            (status_stage-Ends o false opens p c all w1 h1)
            λ _ w2 _ h2.
              follow-Ends false i opens Any Any _ (exposed_stage o c all w2)
                (exposed_stage-Ends c all w2 h2) λ _ w3 _ h3. (tt, h3)

  probe_body-Ends :
      (p : Profile) (c : Conn) (res : ProbeResult) (w : Wire)
      → live w.log ≡ c.base ∷ opens
      → Ends false c.base opens Any (probe_body o p (c, res) w)
  unfolding probe_body
  probe_body-Ends p c res w h =
      let i = c.base in
      follow-Ends false i opens Any Any _ (connect_stage o false p c w)
        (connect_stage-Ends o false opens p c w h)
        λ _ w1 _ h1.
          follow-Ends false i opens (IsOn i) Any _ (tls_stage o false p c w1)
            (tls_stage-Ends o false opens p c w1 h1)
            λ d w2 same h2.
              subst (λ j. Ends false j opens Any (probe_payload o p res d w2)) same
                (probe_payload-Ends p res d w2 (h2 ∙ ap (λ j. j ∷ opens) (sym same)))

  then_close-live :
      (i : ℕ) (r : Outcome ProbeResult × Wire)
      → Ends false i opens Any r
      → live (then_close o i r).1.log ≡ opens
  unfolding live
  then_close-live i (ok res, w) h = ap (remove_one i) h.1 ∙ remove_one-head i opens
  then_close-live i (err res cause, w) h = ap (remove_one i) h ∙ remove_one-head i opens

  -- `attemptTransport` leaves open exactly what was open, whether the probe succeeds or fails and
  -- wherever it fails.
  pub attempt_transport-live :
      (cfg : Config) (p : Profile) (w : Wire)
      → live w.log ≡ opens
      → live (attempt_transport o cfg p w).1.log ≡ opens
  unfolding attempt_transport
  attempt_transport-live cfg p w h = by_result (open_conn o cfg p w) (open_conn-Closes cfg p w h)
    where
      by_result :
          (r : Outcome (Conn × ProbeResult) × Wire)
          → Closes opens r
          → live (follow (λ conn w'. then_close o conn.0.base (probe_body o p conn w')) r).1.log
            ≡ opens
      by_result (err res cause, w') h' = h'
      by_result (ok (c, res), w') h' =
          then_close-live c.base (probe_body o p (c, res) w') (probe_body-Ends p c res w' h')
