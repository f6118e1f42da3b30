-- ===== src/Dns/Addresses/Sets.antt =====
-- The lists of addresses as sets.
use sshcustom_magisk.Base.{
  ◌≡◌, refl, subst, ap, ◌∙◌, Bool, true, false, ◌||◌, List, [], ◌∷◌, Option, none, some, Bool-cases,
  inl, inr,
}
use sshcustom_magisk.Text.{Text, eq_text, trim_space}
use sshcustom_magisk.Text.Equality.{eq_text_iff}
use sshcustom_magisk.Profiles.{one_of}
use sshcustom_magisk.Profiles.Store.Ids.{distinct, one_of-append_one, distinct-append_one}
use sshcustom_magisk.Dns.Addresses.{append_unique, put_ip, sanitize_from, sanitize_ipv4_list}

abbrev pub is_the : Text → Option Text → Bool
is_the v none = false
is_the v (some ip) = eq_text ip v

-- Whether one of the entries is the address `v`.
unfoldable pub any_is : (Text → Option Text) → Text → List Text → Bool
unfolding eq_text trim_space
any_is ipv4 v [] = false
any_is ipv4 v (s ∷ ips) = is_the v (ipv4 (trim_space s)) || any_is ipv4 v ips

or_false : (b : Bool) → b ≡ b || false
or_false true = refl
or_false false = refl

or_assoc : (a b c : Bool) → (a || b) || c ≡ a || (b || c)
or_assoc true b c = refl
or_assoc false b c = refl

put_ip-one_of :
    (v : Text) (out : List Text) (o : Option Text)
    → one_of v (put_ip out o) ≡ one_of v out || is_the v o
unfolding append_unique
put_ip-one_of v out none = or_false (one_of v out)
put_ip-one_of v out (some ip) = elim (Bool-cases (one_of ip out)) [
  | inr fresh ↦ rw fresh (one_of-append_one v ip out)
  | inl known ↦ rw known (elim (Bool-cases (eq_text ip v)) [
    | inl same ↦
        let there : one_of v out ≡ true =
          subst (λ x. one_of x out ≡ true) ((eq_text_iff ip v).0 same) known in
        rw there refl
    | inr other ↦ rw other (or_false (one_of v out))
  ])
]

put_ip-distinct :
    (out : List Text) (o : Option Text) → distinct out ≡ true → distinct (put_ip out o) ≡ true
unfolding append_unique
put_ip-distinct out none h = h
put_ip-distinct out (some ip) h = elim (Bool-cases (one_of ip out)) [
  | inl known ↦ rw known h
  | inr fresh ↦ rw fresh (distinct-append_one ip out h fresh)
]

module _ (ipv4 : Text → Option Text) where
  sanitize_from-one_of :
      (v : Text) (out ips : List Text)
      → one_of v (sanitize_from ipv4 out ips) ≡ one_of v out || any_is ipv4 v ips
  unfolding sanitize_from any_is
  sanitize_from-one_of v out [] = or_false (one_of v out)
  sanitize_from-one_of v out (s ∷ ips) =
      let o = ipv4 (trim_space s) in
      sanitize_from-one_of v (put_ip out o) ips
      ∙ ap (λ b. b || any_is ipv4 v ips) (put_ip-one_of v out o)
      ∙ or_assoc (one_of v out) (is_the v o) (any_is ipv4 v ips)

  sanitize_from-distinct :
      (out ips : List Text) → distinct out ≡ true → distinct (sanitize_from ipv4 out ips) ≡ true
  unfolding sanitize_from
  sanitize_from-distinct out [] h = h
  sanitize_from-distinct out (s ∷ ips) h =
      sanitize_from-distinct (put_ip out (ipv4 (trim_space s))) ips
        (put_ip-distinct out (ipv4 (trim_space s)) h)

  -- `SanitizeIPv4List` gives a list without duplicates, and in it exactly the IPv4 addresses of the
  -- entries, with the spaces around them removed.
  pub sanitize_ipv4_list-distinct :
      (ips : List Text)
      → (distinct (sanitize_ipv4_list ipv4 ips) ≡ true)
        × ((v : Text) → one_of v (sanitize_ipv4_list ipv4 ips) ≡ any_is ipv4 v ips)
  unfolding sanitize_ipv4_list distinct one_of
  sanitize_ipv4_list-distinct ips =
      (sanitize_from-distinct [] ips refl, λ v. sanitize_from-one_of v [] ips)
