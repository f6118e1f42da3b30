-- ===== src/Socks/Replies.antt =====
-- What the server has sent when a connection ends, on every input.
use sshcustom_magisk.Base.{
  ℕ, ◌≡◌, refl, sym, ◌∙◌, ◌⊎◌, Bool, true, false, [], ◌∷◌, ◌++◌, ◌==◌, ltb, leb, length, ◌&&◌,
  append-nil, Bool-cases, inl, inr,
}
use sshcustom_magisk.Text.{Text}
use sshcustom_magisk.Socks.{
  Conn, SocksError, invalid_methods, empty_domain, bad_version, unsupported_command,
  unsupported_address, Outcome, ok, err, Io, follow, read_full, write, try_write, byte_at, check,
  reject, greet, read_request, read_host, read_ipv4, read_domain, read_ipv6, socks5_handshake,
  reply_bytes, Served, dropped, refused, piped, handle_socks5, serve,
}

-- The connection can be written to, and this was sent on it.
abbrev Sent : Text → Conn → Type 0
Sent out c = (c.output ≡ out) × (c.writable ≡ true)

-- What an error of the handshake behind the greeting has sent.
abbrev pub error_reply : SocksError → Text
error_reply (unsupported_command _) = reply_bytes 7
error_reply (unsupported_address _) = reply_bytes 8
error_reply _ = []

-- A step behind the greeting: it sends nothing, but for the reply that goes with its error.
abbrev Speaks {ℓ} : {A : Type ℓ} → Text → Outcome A × Conn → Type 0
Speaks out (ok a, c) = Sent out c
Speaks out (err e, c) = Sent (out ++ error_reply e) c

-- A step that fails, if at all, with a short read or an error of the request's form.
abbrev IsSilent : SocksError → Type 0
IsSilent e = error_reply e ≡ []

abbrev Listens : {A : Type 0} → Text → Outcome A × Conn → Type 0
Listens out (ok a, c) = Sent out c
Listens out (err e, c) = Sent out c × IsSilent e

read_full-Listens : (n : ℕ) (c : Conn) (out : Text) → Sent out c → Listens out (read_full n c)
unfolding read_full
read_full-Listens n c out h = elim (Bool-cases (leb n (length c.input))) [
  | inl fits ↦ rw fits h
  | inr short ↦ rw short (h, refl)
]

Listens-Speaks : {A : Type 0} (out : Text) (r : Outcome A × Conn) → Listens out r → Speaks out r
Listens-Speaks out (ok a, c) h = h
Listens-Speaks out (err e, c) h = (h.0.0 ∙ sym (rw h.1 (append-nil out)), h.0.1)

follow-Speaks :
    {A B : Type 0} (out : Text) (f : A → Io B) (r : Outcome A × Conn)
    → Speaks out r
    → ((a : A) (c : Conn) → Sent out c → Speaks out (f a c))
    → Speaks out (follow f r)
follow-Speaks out f (ok a, c) h k = k a c h
follow-Speaks out f (err e, c) h k = h

follow-Listens :
    {A B : Type 0} (out : Text) (f : A → Io B) (r : Outcome A × Conn)
    → Listens out r
    → ((a : A) (c : Conn) → Sent out c → Listens out (f a c))
    → Listens out (follow f r)
follow-Listens out f (ok a, c) h k = k a c h
follow-Listens out f (err e, c) h k = h

check-Listens :
    (b : Bool) (e : SocksError) (c : Conn) (out : Text)
    → IsSilent e
    → Sent out c
    → Listens out (check b e c)
check-Listens true e c out q h = h
check-Listens false e c out q h = (h, q)

reject_lem :
    (A : Type 0) (rep : ℕ) (e : SocksError) (c : Conn) (out : Text)
    → error_reply e ≡ reply_bytes rep
    → Sent out c
    → Speaks out (reject {A = A} rep e c)
unfolding reject try_write
reject_lem A rep e c out q (sent, ready) = rw (ready, q, sent) (refl, refl)

read_request-Speaks : (c : Conn) (out : Text) → Sent out c → Speaks out (read_request c)
unfolding read_request
read_request-Speaks c out h =
    follow-Speaks out _ (read_full 4 c) (Listens-Speaks out _ (read_full-Listens 4 c out h))
      (λ head c' h'.
        follow-Speaks out _ (check (byte_at 0 head == 5) (bad_version (byte_at 0 head)) c')
          (Listens-Speaks out _
            (check-Listens (byte_at 0 head == 5) (bad_version (byte_at 0 head)) c' out refl h'))
          (λ _ c'' h''. elim (Bool-cases (byte_at 1 head == 1)) [
            | inl connect ↦ rw connect h''
            | inr other ↦
                rw other (reject_lem ℕ 7 (unsupported_command (byte_at 1 head)) c'' out refl h'')
          ]))

read_ipv4-Listens : (c : Conn) (out : Text) → Sent out c → Listens out (read_ipv4 c)
unfolding read_ipv4
read_ipv4-Listens c out h =
    follow-Listens out _ (read_full 4 c) (read_full-Listens 4 c out h) (λ b c' h'. h')

read_ipv6-Listens :
    (ipv6_string : Text → Text) (c : Conn) (out : Text)
    → Sent out c
    → Listens out (read_ipv6 ipv6_string c)
unfolding read_ipv6
read_ipv6-Listens ipv6_string c out h =
    follow-Listens out _ (read_full 16 c) (read_full-Listens 16 c out h) (λ b c' h'. h')

read_domain-Listens : (c : Conn) (out : Text) → Sent out c → Listens out (read_domain c)
unfolding read_domain
read_domain-Listens c out h =
    follow-Listens out _ (read_full 1 c) (read_full-Listens 1 c out h) (λ l c' h'.
      follow-Listens out _ (check (ltb 0 (byte_at 0 l)) empty_domain c')
        (check-Listens (ltb 0 (byte_at 0 l)) empty_domain c' out refl h')
        (λ _ c'' h''. read_full-Listens (byte_at 0 l) c'' out h''))

read_host-Speaks :
    (ipv6_string : Text → Text) (atyp : ℕ) (c : Conn) (out : Text)
    → Sent out c
    → Speaks out (read_host ipv6_string atyp c)
unfolding read_host
read_host-Speaks ipv6_string atyp c out h = elim (Bool-cases (atyp == 1)) [
  | inl v4 ↦ rw v4 (Listens-Speaks out _ (read_ipv4-Listens c out h))
  | inr not_v4 ↦ elim (Bool-cases (atyp == 3)) [
    | inl name ↦ rw (not_v4, name) (Listens-Speaks out _ (read_domain-Listens c out h))
    | inr not_name ↦ elim (Bool-cases (atyp == 4)) [
      | inl v6 ↦
          rw (not_v4, not_name, v6) (Listens-Speaks out _ (read_ipv6-Listens ipv6_string c out h))
      | inr other ↦
          rw (not_v4, not_name, other) (reject_lem Text 8 (unsupported_address atyp) c out refl h)
    ]
  ]
]

-- What the greeting has sent: the choice of method, or nothing where it fails.
abbrev Greets : Text → Outcome (Unit {0}) × Conn → Type 0
Greets out (ok a, c) = Sent (out ++ (5 ∷ 0 ∷ [])) c
Greets out (err e, c) = Sent out c

follow-Greets :
    {A : Type 0} (out : Text) (f : A → Io (Unit {0})) (r : Outcome A × Conn)
    → Listens out r
    → ((a : A) (c : Conn) → Sent out c → Greets out (f a c))
    → Greets out (follow f r)
follow-Greets out f (ok a, c) h k = k a c h
follow-Greets out f (err e, c) h k = h.0

greet-Greets : (c : Conn) (out : Text) → Sent out c → Greets out (greet c)
unfolding greet write
greet-Greets c out h =
    follow-Greets out _ (read_full 2 c) (read_full-Listens 2 c out h) (λ head c1 h1.
      follow-Greets out _ (check (byte_at 0 head == 5) (bad_version (byte_at 0 head)) c1)
        (check-Listens (byte_at 0 head == 5) (bad_version (byte_at 0 head)) c1 out refl h1)
        (λ _ c2 h2.
          follow-Greets out _
            (check (leb 1 (byte_at 1 head) && leb (byte_at 1 head) 255) invalid_methods c2)
            (check-Listens (leb 1 (byte_at 1 head) && leb (byte_at 1 head) 255) invalid_methods c2
              out refl h2)
            (λ _ c3 h3.
              follow-Greets out _ (read_full (byte_at 1 head) c3)
                (read_full-Listens (byte_at 1 head) c3 out h3)
                (λ _ c4 h4. rw (h4.1, h4.0) (refl, refl)))))

-- What was sent when the handshake is over.
abbrev pub Shakes : Text → Outcome Text × Conn → Type 0
Shakes out (ok target, c) = Sent (out ++ (5 ∷ 0 ∷ [])) c
Shakes out (err e, c) = Sent out c ⊎ Sent ((out ++ (5 ∷ 0 ∷ [])) ++ error_reply e) c

Speaks-Shakes :
    (out : Text) (r : Outcome Text × Conn) → Speaks (out ++ (5 ∷ 0 ∷ [])) r → Shakes out r
Speaks-Shakes out (ok a, c) h = h
Speaks-Shakes out (err e, c) h = inr h

follow-Shakes :
    (out : Text) (f : Unit {0} → Io Text) (r : Outcome (Unit {0}) × Conn)
    → Greets out r
    → ((a : Unit {0}) (c : Conn) → Sent (out ++ (5 ∷ 0 ∷ [])) c → Shakes out (f a c))
    → Shakes out (follow f r)
follow-Shakes out f (ok a, c) h k = k a c h
follow-Shakes out f (err e, c) h k = inl h

socks5_handshake-Shakes :
    (ipv6_string : Text → Text) (c : Conn)
    → c.writable ≡ true
    → Shakes c.output (socks5_handshake ipv6_string c)
unfolding socks5_handshake
socks5_handshake-Shakes ipv6_string c ready =
    let chosen = c.output ++ (5 ∷ 0 ∷ []) in
    follow-Shakes c.output _ (greet c) (greet-Greets c c.output (refl, ready)) (λ _ c1 h1.
      Speaks-Shakes c.output _ (
        follow-Speaks chosen _ (read_request c1) (read_request-Speaks c1 chosen h1) (λ atyp c2 h2.
          follow-Speaks chosen _ (read_host ipv6_string atyp c2)
            (read_host-Speaks ipv6_string atyp c2 chosen h2)
            (λ host c3 h3.
              follow-Speaks chosen _ (read_full 2 c3)
                (Listens-Speaks chosen _ (read_full-Listens 2 c3 chosen h3)) (λ port c4 h4. h4)))))

-- What the server has sent when it is done with a connection, or starts to copy, and what the pool
-- has answered.
abbrev pub Told : (Text → Bool) → Text → Served × Conn → Type 0
Told dial out (piped target, c) =
    (dial target ≡ true) × (c.output ≡ (out ++ (5 ∷ 0 ∷ [])) ++ reply_bytes 0)
Told dial out (refused target, c) =
    (dial target ≡ false) × (c.output ≡ (out ++ (5 ∷ 0 ∷ [])) ++ reply_bytes 5)
Told dial out (dropped e, c) =
    (c.output ≡ out) ⊎ (c.output ≡ (out ++ (5 ∷ 0 ∷ [])) ++ error_reply e)

serve-Told :
    (dial : Text → Bool) (out : Text) (r : Outcome Text × Conn)
    → Shakes out r
    → Told dial out (serve dial r)
unfolding serve try_write
serve-Told dial out (err e, c) (inl h) = inl h.0
serve-Told dial out (err e, c) (inr h) = inr h.0
serve-Told dial out (ok target, c) h = elim (Bool-cases (dial target)) [
  | inl opens ↦ rw (opens, h.1, h.0) (opens, refl)
  | inr fails ↦ rw (fails, h.1, h.0) (fails, refl)
]

-- On every input, from a client that still reads: the success reply is sent, and the copying starts,
-- where the pool has opened a stream to the target, and "connection refused" is sent where it has
-- not; a handshake that fails has sent nothing, or its choice of method and, for an unsupported
-- command or address type alone, the reply 7 or 8.
pub handle_socks5-Told :
    (ipv6_string : Text → Text) (dial : Text → Bool) (c : Conn)
    → c.writable ≡ true
    → Told dial c.output (handle_socks5 ipv6_string dial c)
unfolding handle_socks5
handle_socks5-Told ipv6_string dial c ready =
    serve-Told dial c.output (socks5_handshake ipv6_string c)
      (socks5_handshake-Shakes ipv6_string c ready)
