-- ===== src/Dialling/Live.antt =====
-- Which connections are open when an attempt has ended, on every path through it.
use sshcustom_magisk.Base.{
  ℕ, ◌≡◌, refl, ap, ◌∙◌, Bool, true, false, not, ◌&&◌, List, [], ◌∷◌, Option, none, some, arith,
  Bool-cases, Option-cases, inl, inr,
}
use sshcustom_magisk.Text.{Text}
use sshcustom_magisk.Pool.System.{ProbeResult}
use sshcustom_magisk.Profiles.{Profile, TlsCfg}
use sshcustom_magisk.Profiles.Transport.{uses_http_proxy, uses_tls}
use sshcustom_magisk.Responses.{extract_http_statuses, allowed_statuses}
use sshcustom_magisk.Dialling.{
  Outside, Wire, Conn, Cause, Outcome, ok, err, Io, follow, tls_failed, tls_missing, payload_write,
  payload_read, status_not_allowed, received, remove_one, live, note, no_result,
}
use sshcustom_magisk.Dialling.Payload.{
  connect_text, Got, got, lost, send, receive, http_connect, read_probe,
}
use sshcustom_magisk.Dialling.Prepare.{
  quit, after_connect, connect_stage, tls_with, tls_stage, after_handshake, name_or, read_or,
  probe_stage, after_payload, payload_stage, status_stage, any_status, seen_bytes, is_connect,
}

-- What is open behind an error: the connection is closed where errors close it.
abbrev pub left : Bool → ℕ → List ℕ → List ℕ
left true i opens = opens
left false i opens = i ∷ opens

-- Connection `i` is open at the end, or an error has been returned, in front of what was open.
abbrev pub Ends : {A : Type 0} → Bool → ℕ → List ℕ → (A → Type 0) → Outcome A × Wire → Type 0
Ends closing i opens Q (ok a, w) = Q a × (live w.log ≡ i ∷ opens)
Ends closing i opens Q (err res cause, w) = live w.log ≡ left closing i opens

abbrev pub Any : {A : Type 0} → A → Type 0
Any _ = Unit

abbrev pub IsOn : ℕ → Conn → Type 0
IsOn i c = c.base ≡ i

pub follow-Ends :
    {A B : Type 0} (closing : Bool) (i : ℕ) (opens : List ℕ) (Q : A → Type 0) (R : B → Type 0)
    (f : A → Io B) (r : Outcome A × Wire)
    → Ends closing i opens Q r
    → ((a : A) (w : Wire) → Q a → live w.log ≡ i ∷ opens → Ends closing i opens R (f a w))
    → Ends closing i opens R (follow f r)
follow-Ends closing i opens Q R f (ok a, w) h k = k a w h.0 h.1
follow-Ends closing i opens Q R f (err res cause, w) h k = h

pub remove_one-head : (i : ℕ) (opens : List ℕ) → remove_one i (i ∷ opens) ≡ opens
remove_one-head i opens = ground arith

pub quit-Ends :
    {A : Type 0} (closing : Bool) (i : ℕ) (opens : List ℕ) (Q : A → Type 0) (res : ProbeResult)
    (cause : Cause) (w : Wire)
    → live w.log ≡ i ∷ opens
    → Ends closing i opens Q (quit {A = A} closing i res cause w)
unfolding live
quit-Ends true i opens Q res cause w h = ap (remove_one i) h ∙ remove_one-head i opens
quit-Ends false i opens Q res cause w h = h

-- Where an optional error decides whether the connection is kept.
module _ (o : Outside) (closing : Bool) (opens : List ℕ) where
  after_connect-Ends :
      (i : ℕ) (r : Option Cause × Wire)
      → live r.1.log ≡ i ∷ opens
      → Ends closing i opens Any (after_connect o closing i r)
  after_connect-Ends i (none, w) h = (tt, h)
  after_connect-Ends i (some cause, w) h = quit-Ends closing i opens Any no_result cause w h

  http_connect-live :
      (c : Conn) (p : Profile) (w : Wire) → live (http_connect o c p w).1.log ≡ live w.log
  unfolding http_connect send receive live
  http_connect-live c p w = elim (Option-cases (o.write w.log (connect_text p))) [
    | inl e ↦ rw e refl
    | inr (x, e) ↦ rw e refl
  ]

  pub connect_stage-Ends :
      (p : Profile) (c : Conn) (w : Wire)
      → live w.log ≡ c.base ∷ opens
      → Ends closing c.base opens Any (connect_stage o closing p c w)
  unfolding connect_stage
  connect_stage-Ends p c w h =
      elim (Bool-cases (uses_http_proxy p.transport && is_connect p.transport.http_proxy)) [
        | inl e ↦
            rw e (after_connect-Ends c.base (http_connect o c p w) (http_connect-live c p w ∙ h))
        | inr e ↦ rw e (tt, h)
      ]

  after_handshake-Ends :
      (c : Conn) (name : Text) (w : Wire) (e : Option Text)
      → live w.log ≡ c.base ∷ opens
      → Ends closing c.base opens (IsOn c.base) (after_handshake o closing c name w e)
  unfolding live
  after_handshake-Ends c name w none h = (refl, h)
  after_handshake-Ends c name w (some e) h =
      quit-Ends closing c.base opens (IsOn c.base) no_result (tls_failed e) w h

  tls_with-Ends :
      (p : Profile) (c : Conn) (tls : Option TlsCfg) (w : Wire)
      → live w.log ≡ c.base ∷ opens
      → Ends closing c.base opens (IsOn c.base) (tls_with o closing p c tls w)
  tls_with-Ends p c none w h =
      quit-Ends closing c.base opens (IsOn c.base) no_result tls_missing w h
  tls_with-Ends p c (some tls) w h =
      let name = name_or p.ssh.host tls.server_name in
      after_handshake-Ends c name w (o.handshake w.log name tls.insecure_skip_verify tls.alpn) h

  pub tls_stage-Ends :
      (p : Profile) (c : Conn) (w : Wire)
      → live w.log ≡ c.base ∷ opens
      → Ends closing c.base opens (IsOn c.base) (tls_stage o closing p c w)
  unfolding tls_stage
  tls_stage-Ends p c w h = elim (Bool-cases (uses_tls p.transport)) [
    | inl secure ↦ rw secure (tls_with-Ends p c p.transport.tls w h)
    | inr plain ↦ rw plain (refl, h)
  ]

  read_or-Ends :
      (cause : Text → Cause) (i : ℕ) (r : Got) (w : Wire)
      → live w.log ≡ i ∷ opens
      → Ends closing i opens Any (read_or o cause closing i r w)
  read_or-Ends cause i (got bytes) w h = (tt, h)
  read_or-Ends cause i (lost e) w h = quit-Ends closing i opens Any no_result (cause e) w h

  pub probe_stage-Ends :
      (cause : Text → Cause) (c : Conn) (w : Wire)
      → live w.log ≡ c.base ∷ opens
      → Ends closing c.base opens Any (probe_stage o cause closing c w)
  unfolding probe_stage receive live
  probe_stage-Ends cause c w h =
      read_or-Ends cause c.base (read_probe [] (o.reads w.log)) (note (received c.base) w) h

  after_payload-Ends :
      (p : Profile) (c : Conn) (r : Option Text × Wire)
      → live r.1.log ≡ c.base ∷ opens
      → Ends closing c.base opens Any (after_payload o closing p c r)
  after_payload-Ends p c (some e, w) h =
      quit-Ends closing c.base opens Any no_result (payload_write e) w h
  after_payload-Ends p c (none, w) h = elim (Bool-cases p.transport.payload.read_response) [
    | inl e ↦ rw e (probe_stage-Ends payload_read c w h)
    | inr e ↦ rw e (tt, h)
  ]

  pub payload_stage-Ends :
      (p : Profile) (c : Conn) (w : Wire)
      → live w.log ≡ c.base ∷ opens
      → Ends closing c.base opens Any (payload_stage o closing p c w)
  unfolding payload_stage send live
  payload_stage-Ends p c w h = after_payload-Ends p c _ h

  pub status_stage-Ends :
      (p : Profile) (c : Conn) (all : Text) (w : Wire)
      → live w.log ≡ c.base ∷ opens
      → Ends closing c.base opens Any (status_stage o closing p c all w)
  unfolding status_stage
  status_stage-Ends p c all w h =
      let statuses = extract_http_statuses all in
      elim (Bool-cases (
        any_status statuses
        && not (allowed_statuses statuses p.transport.payload.allow_statuses))) [
          | inl e ↦ rw e (
              quit-Ends closing c.base opens Any (seen_bytes all) (status_not_allowed statuses) w h)
          | inr e ↦ rw e (tt, h)
        ]
