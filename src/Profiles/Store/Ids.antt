-- ===== src/Profiles/Store/Ids.antt =====
-- The IDs of a list of profiles, and how the operations on the list change them.
use sshcustom_magisk.Base.{
  ◌≡◌, ◌≢◌, refl, sym, ap, ◌∙◌, Bool, true, false, ◌||◌, List, [], ◌∷◌, ◌++◌, none, some,
  if◌then◌else◌, map, Bool-cases, inl, inr,
}
use sshcustom_magisk.Text.{Text, eq_text}
use sshcustom_magisk.Text.Equality.{eq_text_iff, eq_text_refl, eq_text_ne}
use sshcustom_magisk.Profiles.{Profile, find, has_id, one_of}
use sshcustom_magisk.Profiles.Slug.{id_of}
use sshcustom_magisk.Profiles.Store.{flag, replace_first, remove_id}

abbrev pub ids : List Profile → List Text
ids ps = map id_of ps

-- No two of the IDs are equal.
unfoldable pub distinct : List Text → Bool
unfolding one_of
distinct [] = true
distinct (x ∷ xs) = let rest = distinct xs in if one_of x xs then false else rest

pub one_of-append_one :
    (v w : Text) (xs : List Text) → one_of v (xs ++ (w ∷ [])) ≡ one_of v xs || eq_text w v
unfolding one_of
one_of-append_one v w [] = elim (Bool-cases (eq_text w v)) [ inl e ↦ rw e | inr e ↦ rw e ]
one_of-append_one v w (x ∷ xs) = elim (Bool-cases (eq_text x v)) [
  | inl e ↦ rw e
  | inr e ↦ rw (e, one_of-append_one v w xs)
]

pub distinct-append_one :
    (v : Text) (xs : List Text)
    → distinct xs ≡ true
    → one_of v xs ≡ false
    → distinct (xs ++ (v ∷ [])) ≡ true
unfolding distinct one_of
distinct-append_one v [] d h = refl
distinct-append_one v (x ∷ xs) d h = elim (Bool-cases (eq_text x v)) [
  | inl same ↦ cc (rw same at h)
  | inr other ↦
      let rest : one_of v xs ≡ false = rw other at h in
      let back : eq_text v x ≡ false =
        eq_text_ne v x (λ e. cc (rw (sym e, eq_text_refl v) at other)) in
      elim (Bool-cases (one_of x xs)) [
        | inl again ↦ cc (rw again at d)
        | inr first ↦
            rw (one_of-append_one x v xs, first, back)
              (distinct-append_one v xs (rw first at d) rest)
      ]
]

pub ids-append_one :
    (ps : List Profile) (p : Profile) → ids (ps ++ (p ∷ [])) ≡ ids ps ++ (p.id ∷ [])
ids-append_one [] p = refl
ids-append_one (q ∷ ps) p = ap (λ l. q.id ∷ l) (ids-append_one ps p)

pub ids-flag : (id : Text) (ps : List Profile) → ids (map (flag id) ps) ≡ ids ps
ids-flag id [] = refl
ids-flag id (p ∷ ps) = ap (λ l. p.id ∷ l) (ids-flag id ps)

pub ids-replace_first :
    (new : Profile) (ps : List Profile) → ids (replace_first new.id new ps) ≡ ids ps
unfolding replace_first
ids-replace_first new [] = refl
ids-replace_first new (p ∷ ps) = elim (Bool-cases (eq_text p.id new.id)) [
  | inl e ↦ rw e (ap (λ i. i ∷ ids ps) (sym ((eq_text_iff p.id new.id).0 e)))
  | inr e ↦ rw e (ap (λ l. p.id ∷ l) (ids-replace_first new ps))
]

pub find-none :
    (id : Text) (ps : List Profile) → find (has_id id) ps ≡ none → one_of id (ids ps) ≡ false
unfolding find one_of
find-none id [] h = refl
find-none id (p ∷ ps) h = elim (Bool-cases (eq_text p.id id)) [
  | inl e ↦ cc (rw e at h)
  | inr e ↦ rw e (find-none id ps (rw e at h))
]

pub find-one_of :
    (id : Text) (ps : List Profile)
    → one_of id (ids ps) ≡ true
    → (p : Profile) × (find (has_id id) ps ≡ some p) × (p.id ≡ id)
unfolding find one_of
find-one_of id [] h = cc
find-one_of id (p ∷ ps) h = elim (Bool-cases (eq_text p.id id)) [
  | inl e ↦ (p, rw e, (eq_text_iff p.id id).0 e)
  | inr e ↦ let (q, found, same) = find-one_of id ps (rw e at h) in (q, rw e found, same)
]

pub find-replace_first :
    (new old : Profile) (ps : List Profile)
    → find (has_id new.id) ps ≡ some old
    → find (has_id new.id) (replace_first new.id new ps) ≡ some new
unfolding find replace_first
find-replace_first new old [] h = cc
find-replace_first new old (p ∷ ps) h = elim (Bool-cases (eq_text p.id new.id)) [
  | inl e ↦ rw (e, eq_text_refl new.id)
  | inr e ↦ rw (e, e) (find-replace_first new old ps (rw e at h))
]

pub find-append_one :
    (new : Profile) (ps : List Profile)
    → one_of new.id (ids ps) ≡ false
    → find (has_id new.id) (ps ++ (new ∷ [])) ≡ some new
unfolding find one_of
find-append_one new [] h = rw (eq_text_refl new.id)
find-append_one new (p ∷ ps) h = elim (Bool-cases (eq_text p.id new.id)) [
  | inl e ↦ cc (rw e at h)
  | inr e ↦ rw e (find-append_one new ps (rw e at h))
]

pub find-flag :
    (v id : Text) (ps : List Profile) {p : Profile}
    → find (has_id v) ps ≡ some p
    → find (has_id v) (map (flag id) ps) ≡ some (flag id p)
unfolding find
find-flag v id [] h = cc
find-flag v id (q ∷ ps) {p} h = elim (Bool-cases (eq_text q.id v)) [
  | inl e ↦
      let same : some q ≡ some p = rw e at h in
      rw e (ap (λ o. elim o [ some x ↦ some (flag id x) | none ↦ none ]) same)
  | inr e ↦ rw e (find-flag v id ps (rw e at h))
]

pub one_of-remove_id : (id : Text) (ps : List Profile) → one_of id (ids (remove_id id ps)) ≡ false
unfolding one_of remove_id
one_of-remove_id id [] = refl
one_of-remove_id id (p ∷ ps) = elim (Bool-cases (eq_text p.id id)) [
  | inl e ↦ rw e (one_of-remove_id id ps)
  | inr e ↦ rw (e, e) (one_of-remove_id id ps)
]

one_of-remove_id-absent :
    (v id : Text) (ps : List Profile)
    → one_of v (ids ps) ≡ false
    → one_of v (ids (remove_id id ps)) ≡ false
unfolding one_of remove_id
one_of-remove_id-absent v id [] h = refl
one_of-remove_id-absent v id (p ∷ ps) h = elim (Bool-cases (eq_text p.id v)) [
  | inl f ↦ cc (rw f at h)
  | inr f ↦
      let rest = one_of-remove_id-absent v id ps (rw f at h) in
      elim (Bool-cases (eq_text p.id id)) [ inl e ↦ rw e rest | inr e ↦ rw (e, f) rest ]
]

pub distinct-remove_id :
    (id : Text) (ps : List Profile)
    → distinct (ids ps) ≡ true
    → distinct (ids (remove_id id ps)) ≡ true
unfolding distinct remove_id
distinct-remove_id id [] d = refl
distinct-remove_id id (p ∷ ps) d = elim (Bool-cases (one_of p.id (ids ps))) [
  | inl again ↦ cc (rw again at d)
  | inr first ↦
      let rest = distinct-remove_id id ps (rw first at d) in
      elim (Bool-cases (eq_text p.id id)) [
        | inl e ↦ rw e rest
        | inr e ↦ rw (e, one_of-remove_id-absent p.id id ps first) rest
      ]
]

pub find-remove_id :
    (v id : Text) (ps : List Profile)
    → v ≢ id
    → find (has_id v) (remove_id id ps) ≡ find (has_id v) ps
unfolding find remove_id
find-remove_id v id [] h = refl
find-remove_id v id (p ∷ ps) h = elim (Bool-cases (eq_text p.id id)) [
  | inl e ↦
      let same : p.id ≡ id = (eq_text_iff p.id id).0 e in
      let other : eq_text p.id v ≡ false = eq_text_ne p.id v (λ k. h (sym k ∙ same)) in
      rw (e, other) (find-remove_id v id ps h)
  | inr e ↦ elim (Bool-cases (eq_text p.id v)) [
    | inl f ↦ rw (e, f)
    | inr f ↦ rw (e, f) (find-remove_id v id ps h)
  ]
]
