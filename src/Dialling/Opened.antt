-- ===== src/Dialling/Opened.antt =====
-- Dialling leaves exactly the connection open that it returns.
use sshcustom_magisk.Base.{
  ℕ, ◌≡◌, ap, List, [], ◌∷◌, Option, none, some, Bool-cases, inl, inr, length,
}
use sshcustom_magisk.Base.Int.{ℤ}
use sshcustom_magisk.Text.{Text, codes, eq_text}
use sshcustom_magisk.Net.{join_host_port, int_string}
use sshcustom_magisk.Config.{Config, device, normalize_dns_mode}
use sshcustom_magisk.Dns.{has_any}
use sshcustom_magisk.Dns.Addresses.{rotate_ips}
use sshcustom_magisk.Dialling.{Outside, Wire, live}
use sshcustom_magisk.Dialling.Tcp.{
  Reached, reached, unreached, Dialled, Tried, hit, missed, dial_one, answered, try_each, after_try,
  try_rotated, or_missed, or_last, or_resolved, or_system, dial_last, dial_resolved, dial_system,
  dial_name, dial_tcp_resolved, resolve_host_smart, dialled, head_or,
}

-- What is open behind an attempt, in front of what was open.
abbrev pub opens_of : Reached → List ℕ → List ℕ
opens_of (reached i) opens = i ∷ opens
opens_of (unreached e) opens = opens

abbrev tried_of : Tried → List ℕ → List ℕ
tried_of (hit i addr) opens = i ∷ opens
tried_of (missed e) opens = opens

module _ (o : Outside) (opens : List ℕ) where
  dial_one-live :
      (addr : Text) (w : Wire)
      → live w.log ≡ opens
      → live (dial_one o addr w).1.log ≡ opens_of (dial_one o addr w).0 opens
  unfolding dial_one
  dial_one-live addr w h = by_answer (o.dial w.log addr)
    where
      by_answer :
          (e : Option Text)
          → live (answered o addr w e).1.log ≡ opens_of (answered o addr w e).0 opens
      by_answer none = unfold live in ap (λ l. length w.log ∷ l) h
      by_answer (some e) = unfold live in h

  after_try-live :
      (addr : Text) (rest : Text → Wire → Tried × Wire) (r : Reached × Wire)
      → live r.1.log ≡ opens_of r.0 opens
      → ((e : Text) (w : Wire)
          → live w.log ≡ opens
          → live (rest e w).1.log ≡ tried_of (rest e w).0 opens)
      → live (after_try addr rest r).1.log ≡ tried_of (after_try addr rest r).0 opens
  after_try-live addr rest (reached i, w) h k = h
  after_try-live addr rest (unreached e, w) h k = k e w h

  try_each-live :
      (port last : Text) (ips : List Text) (w : Wire)
      → live w.log ≡ opens
      → live (try_each o port last ips w).1.log ≡ tried_of (try_each o port last ips w).0 opens
  unfolding try_each
  try_each-live port last [] w h = h
  try_each-live port last (ip ∷ ips) w h =
      let addr = join_host_port ip port in
      after_try-live addr (λ e. try_each o port e ips) (dial_one o addr w) (dial_one-live addr w h)
        (λ e w' k. try_each-live port e ips w' k)

  -- The result of `dialTCPResolved` and what is open behind it.
  abbrev pub Opens : Dialled × Wire → Type 0
  Opens r = live r.1.log ≡ opens_of r.0.how opens

  or_missed-Opens :
      (method : Text) (ips : List Text) (other : Wire → Dialled × Wire) (r : Tried × Wire)
      → live r.1.log ≡ tried_of r.0 opens
      → ((w : Wire) → live w.log ≡ opens → Opens (other w))
      → Opens (or_missed o method ips other r)
  or_missed-Opens method ips other (hit i addr, w) h k = h
  or_missed-Opens method ips other (missed e, w) h k = k w h

  or_last-Opens :
      (method : Text) (ips : List Text) (first : Text) (r : Tried × Wire)
      → live r.1.log ≡ tried_of r.0 opens
      → Opens (or_last o method ips first r)
  or_last-Opens method ips first (hit i addr, w) h = h
  or_last-Opens method ips first (missed e, w) h = h

  dial_last-Opens :
      (addr port e : Text) (fallback : List Text) (w : Wire)
      → live w.log ≡ opens
      → Opens (dial_last o addr port e fallback w)
  unfolding dial_last try_rotated
  dial_last-Opens addr port e fallback w h =
      or_missed-Opens (codes "profile_fallback_ip_last_resort") fallback
        (dialled (unreached e) addr (codes "device_system_dns_failed") [])
        (try_each o port e (rotate_ips (o.nanos w.log) fallback) w)
        (try_each-live port e (rotate_ips (o.nanos w.log) fallback) w h) (λ w' k. k)

  dial_resolved-Opens :
      (addr port e : Text) (fallback : List Text) (r : (List Text × Text) × Wire)
      → live r.1.log ≡ opens
      → Opens (dial_resolved o addr port e fallback r)
  unfolding dial_resolved
  dial_resolved-Opens addr port e fallback ((ips, method), w) h =
      let rotated = rotate_ips (o.nanos w.log) ips in
      elim (Bool-cases (has_any ips)) [
        | inl some_ip ↦ rw some_ip (
            or_last-Opens method rotated (join_host_port (head_or [] rotated) port)
              (try_each o port e rotated w) (try_each-live port e rotated w h))
        | inr bare ↦ rw bare (dial_last-Opens addr port e fallback w h)
      ]

  resolve_host_smart-live :
      (cfg : Config) (host : Text) (w : Wire)
      → live w.log ≡ opens
      → live (resolve_host_smart o cfg host w).1.log ≡ opens
  unfolding resolve_host_smart
  resolve_host_smart-live cfg host w h = h

  or_resolved-Opens :
      (cfg : Config) (host addr port : Text) (fallback : List Text) (r : Reached × Wire)
      → live r.1.log ≡ opens_of r.0 opens
      → Opens (or_resolved o cfg host addr port fallback r)
  or_resolved-Opens cfg host addr port fallback (reached i, w) h = h
  or_resolved-Opens cfg host addr port fallback (unreached e, w) h =
      dial_resolved-Opens addr port e fallback (resolve_host_smart o cfg host w)
        (resolve_host_smart-live cfg host w h)

  dial_system-Opens :
      (cfg : Config) (host port : Text) (fallback : List Text) (w : Wire)
      → live w.log ≡ opens
      → Opens (dial_system o cfg host port fallback w)
  unfolding dial_system
  dial_system-Opens cfg host port fallback w h =
      let addr = join_host_port host port in
      or_resolved-Opens cfg host addr port fallback (dial_one o addr w) (dial_one-live addr w h)

  or_system-Opens :
      (cfg : Config) (host port : Text) (fallback : List Text) (r : (List Text × Text) × Wire)
      → live r.1.log ≡ opens
      → Opens (or_system o cfg host port fallback r)
  unfolding try_rotated
  or_system-Opens cfg host port fallback ((ips, method), w) h =
      let rotated = rotate_ips (o.nanos w.log) ips in
      elim (Bool-cases (has_any ips)) [
        | inl some_ip ↦ rw some_ip (
            or_missed-Opens method ips (dial_system o cfg host port fallback)
              (try_each o port [] rotated w) (try_each-live port [] rotated w h)
              (dial_system-Opens cfg host port fallback))
        | inr bare ↦ rw bare (dial_system-Opens cfg host port fallback w h)
      ]

  dial_name-Opens :
      (cfg : Config) (host port : Text) (fallback : List Text) (literal : Option Text) (w : Wire)
      → live w.log ≡ opens
      → Opens (dial_name o cfg host port fallback literal w)
  dial_name-Opens cfg host port fallback (some ip) w h =
      dial_one-live (join_host_port host port) w h
  dial_name-Opens cfg host port fallback none w h =
      elim (Bool-cases (eq_text (normalize_dns_mode cfg.dns.mode) device)) [
        | inl plain ↦ rw plain (dial_system-Opens cfg host port fallback w h)
        | inr own ↦ rw own (
            or_system-Opens cfg host port fallback (resolve_host_smart o cfg host w)
              (resolve_host_smart-live cfg host w h))
      ]

  -- `dialTCPResolved`, by whatever way it goes: with a connection it leaves that one open and no
  -- other of its attempts, and without one it leaves none.
  pub dial_tcp_resolved-Opens :
      (cfg : Config) (host : Text) (port : ℤ) (fallback : List Text) (w : Wire)
      → live w.log ≡ opens
      → Opens (dial_tcp_resolved o cfg host port fallback w)
  unfolding dial_tcp_resolved
  dial_tcp_resolved-Opens cfg host port fallback w h =
      dial_name-Opens cfg host (int_string port) fallback (o.literal host) w h
