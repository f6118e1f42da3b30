-- ===== src/Profiles/Store/Laws.antt =====
-- What the operations on the profiles' file leave behind.
use sshcustom_magisk.Base.{
  ℕ, ◌<◌, ◌≡◌, ◌≢◌, refl, sym, ap, Bool, true, false, List, [], ◌∷◌, ◌++◌, Option, none, some,
  if◌then◌else◌, length, map, Bool-cases, Option-cases, inl, inr,
}
use sshcustom_magisk.Text.{Text, codes, eq_text, is_empty, trim_space, itoa}
use sshcustom_magisk.Profiles.{
  Profile, ProfilesFile, SaveProfileRequest, find, has_id, is_selected, selected_profile, one_of,
}
use sshcustom_magisk.Profiles.Slug.{slugify, unique_profile_id}
use sshcustom_magisk.Profiles.Slug.Fresh.{unique_profile_id-free}
use sshcustom_magisk.Profiles.Store.{
  flag, select_profile_by_id, request_id, fresh_id, check_request, profile_of, replaced,
  put_profile, selects, upsert_profile, upsert_checked, or_select, delete_profile, put,
  request_name,
}
use sshcustom_magisk.Profiles.Store.Ids.{
  ids, distinct, distinct-append_one, ids-append_one, ids-flag, ids-replace_first, find-none,
  find-one_of, find-flag, one_of-remove_id, distinct-remove_id, find-remove_id,
}

not_selected :
    (id selected : Text)
    → is_empty id ≡ false
    → eq_text (if eq_text selected id then [] else selected) id ≡ false
unfolding eq_text
not_selected [] selected h = cc
not_selected (c ∷ cs) selected h = elim (Bool-cases (eq_text selected (c ∷ cs))) [
  | inl e ↦ rw e
  | inr e ↦ rw e e
]

flags-exact :
    (id : Text) (ps : List Profile) → map is_selected (map (flag id) ps) ≡ map (has_id id) ps
flags-exact id [] = refl
flags-exact id (p ∷ ps) = ap (λ l. has_id id p ∷ l) (flags-exact id ps)

-- With an ID, spaces around it aside, that some profile has, `selectProfileByID` reports no error,
-- the profile selected afterwards has that ID, and the profiles flagged are exactly those with it.
pub select_profile_by_id-found :
    (given : Text) (pf : ProfilesFile)
    → is_empty (trim_space given) ≡ false
    → one_of (trim_space given) (ids pf.profiles) ≡ true
    → let (after, err) = select_profile_by_id given pf in
      (err ≡ none)
      × ((p : Profile) × (selected_profile after ≡ some p) × (p.id ≡ trim_space given))
      × (map is_selected after.profiles ≡ map (has_id (trim_space given)) pf.profiles)
unfolding select_profile_by_id selected_profile
select_profile_by_id-found given pf named present =
    let id = trim_space given in
    let (p, found, same) = find-one_of id pf.profiles present in
    rw (named, present, named)
      (refl, (flag id p, rw (find-flag id id pf.profiles found), same), flags-exact id pf.profiles)

-- `selectProfileByID` never changes which IDs there are, their order included, and when it fails
-- the selected ID is the one before.
pub select_profile_by_id-keeps :
    (given : Text) (pf : ProfilesFile)
    → let (after, err) = select_profile_by_id given pf in
      (ids after.profiles ≡ ids pf.profiles) × (err ≢ none → after.selected_id ≡ pf.selected_id)
unfolding select_profile_by_id
select_profile_by_id-keeps given pf =
    let id = trim_space given in
    elim (Bool-cases (is_empty id)) [
      | inl e ↦ rw e (refl, λ _. refl)
      | inr e ↦ elim (Bool-cases (one_of id (ids pf.profiles))) [
        | inl f ↦ rw (e, f) (ids-flag id pf.profiles, λ k. absurd (k refl))
        | inr f ↦ rw (e, f) (ids-flag id pf.profiles, λ _. refl)
      ]
    ]

fresh_id-free :
    (now : ℕ) (ps : List Profile) (name : Text)
    → length ps < 9998
    → one_of (fresh_id now ps name) (ids ps) ≡ false
unfolding fresh_id
fresh_id-free now ps name few =
    elim (Bool-cases (is_empty (unique_profile_id now ps (slugify name)))) [
      | inl e ↦ rw e (unique_profile_id-free now ps (codes "profile-" ++ itoa now) few)
      | inr e ↦ rw e (unique_profile_id-free now ps (slugify name) few)
    ]

replaced-none :
    (now : ℕ) (pf : ProfilesFile) (req : SaveProfileRequest)
    → length pf.profiles < 9998
    → replaced (request_id now pf req) pf req ≡ none
    → one_of (request_id now pf req) (ids pf.profiles) ≡ false
unfolding replaced request_id
replaced-none now pf req few h = elim (Bool-cases (is_empty (trim_space req.id))) [
  | inl e ↦ rw e (fresh_id-free now pf.profiles (request_name req) few)
  | inr e ↦ rw e (find-none (trim_space req.id) pf.profiles (rw e at h))
]

-- The profile that a request which passes the checks leaves under its ID.
abbrev pub stored : ℕ → SaveProfileRequest → ProfilesFile → Profile
stored now req pf = let id = request_id now pf req in profile_of id (replaced id pf req) req

id-profile_of :
    (id : Text) (old : Option Profile) (req : SaveProfileRequest) → (profile_of id old req).id ≡ id
unfolding profile_of
id-profile_of id old req = refl

distinct-put :
    (id : Text) (old : Option Profile) (new : Profile) (ps : List Profile)
    → new.id ≡ id
    → (old ≡ none → one_of id (ids ps) ≡ false)
    → distinct (ids ps) ≡ true
    → distinct (ids (put id old new ps)) ≡ true
distinct-put id none new ps same absent d =
    rw (ids-append_one ps new, same) (distinct-append_one id (ids ps) d (absent refl))
distinct-put id (some p) new ps same absent d = rw (sym same, ids-replace_first new ps) d

distinct-put_profile :
    (now : ℕ) (req : SaveProfileRequest) (pf : ProfilesFile)
    → length pf.profiles < 9998
    → distinct (ids pf.profiles) ≡ true
    → distinct (ids (put_profile (request_id now pf req) pf req).profiles) ≡ true
unfolding put_profile
distinct-put_profile now req pf few d =
    let id = request_id now pf req in
    let old = replaced id pf req in
    distinct-put id old (profile_of id old req) pf.profiles (id-profile_of id old req)
      (replaced-none now pf req few) d

distinct-or_select :
    (b : Bool) (id : Text) (pf : ProfilesFile)
    → distinct (ids pf.profiles) ≡ true
    → distinct (ids (or_select b id pf).profiles) ≡ true
unfolding or_select
distinct-or_select true id pf d = rw ((select_profile_by_id-keeps id pf).0) d
distinct-or_select false id pf d = d

-- In a file whose IDs are distinct and that has fewer than 9998 profiles, `upsertProfile` keeps
-- the IDs distinct, whether it refuses the request, adds a profile or replaces one.
pub upsert_profile-distinct :
    (now : ℕ) (req : SaveProfileRequest) (pf : ProfilesFile)
    → length pf.profiles < 9998
    → distinct (ids pf.profiles) ≡ true
    → distinct (ids (upsert_profile now req pf).0.profiles) ≡ true
unfolding upsert_profile upsert_checked
upsert_profile-distinct now req pf few d = elim (Option-cases (check_request req)) [
  | inr (e, h) ↦ rw h d
  | inl h ↦
      let id = request_id now pf req in
      let after = put_profile id pf req in
      rw h (distinct-or_select (selects id pf req) id after (distinct-put_profile now req pf few d))
]

-- The handler of /api/v1/profile/delete, for an ID that some profile has: afterwards no profile has
-- it and it is not the selected one, every other ID finds the profile it found before, and IDs that
-- are distinct stay so.
pub delete_profile-removes :
    (id : Text) (pf : ProfilesFile)
    → is_empty id ≡ false
    → one_of id (ids pf.profiles) ≡ true
    → let (after, err) = delete_profile id pf in
      (err ≡ none)
      × (one_of id (ids after.profiles) ≡ false)
      × (eq_text after.selected_id id ≡ false)
      × ((v : Text) → v ≢ id → find (has_id v) after.profiles ≡ find (has_id v) pf.profiles)
      × (distinct (ids pf.profiles) ≡ true → distinct (ids after.profiles) ≡ true)
unfolding delete_profile
delete_profile-removes id pf named present =
    rw (named, present)
      (
        refl,
        one_of-remove_id id pf.profiles,
        not_selected id pf.selected_id named,
        λ v h. find-remove_id v id pf.profiles h,
        distinct-remove_id id pf.profiles,
      )
