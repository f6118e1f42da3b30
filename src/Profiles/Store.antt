-- ===== src/Profiles/Store.antt =====
-- The operations on the profiles' file: `selectProfileByID`, `upsertProfile`, and what the handler
-- of /api/v1/profile/delete does to it.
pub mod Ids
pub mod Laws
pub mod Stored
use sshcustom_magisk.Base.{
  ℕ, zero, suc, Bool, true, false, not, ◌&&◌, ◌||◌, List, [], ◌∷◌, ◌++◌, Option, none, some, ltb,
  if◌then◌else◌, map,
}
use sshcustom_magisk.Base.Int.{ℤ, pos, negsuc, is_nonpos}
use sshcustom_magisk.Text.{Text, codes, eq_text, trim_space, is_empty, itoa}
use sshcustom_magisk.Profiles.{Ssh, Profile, ProfilesFile, SaveProfileRequest, find, has_id, one_of}
use sshcustom_magisk.Profiles.Slug.{slugify, unique_profile_id, id_of}
use sshcustom_magisk.Profiles.Transport.{normalize_mode, build_transport}

pub data StoreError : Type 0 where
  selected_id_required host_required port_out_of_range username_required invalid_mode : StoreError
  id_required : StoreError
  not_found : Text → StoreError

abbrev pub flag : Text → Profile → Profile
flag id p = record p { selected = eq_text p.id id }

-- `selectProfileByID`. The flags of all profiles are set before the search is known to have failed.
unfoldable pub select_profile_by_id : Text → ProfilesFile → ProfilesFile × Option StoreError
unfolding one_of
select_profile_by_id given pf =
    let id = trim_space given in
    let flagged = record pf { profiles = map (flag id) pf.profiles } in
    if is_empty id
    then (pf, some selected_id_required)
    else if one_of id (map id_of pf.profiles)
    then (record flagged { selected_id = id }, none)
    else (flagged, some (not_found id))

-- The first profile with this ID is replaced.
unfoldable pub replace_first : Text → Profile → List Profile → List Profile
replace_first id new [] = []
replace_first id new (p ∷ ps) =
    let rest = replace_first id new ps in if has_id id p then new ∷ ps else p ∷ rest

abbrev pub port_ok : ℤ → Bool
port_ok (pos n) = ltb 0 n && ltb n 65536
port_ok (negsuc _) = false

-- The checks of `upsertProfile`, in their order.
unfoldable pub check_request : SaveProfileRequest → Option StoreError
unfolding normalize_mode
check_request req =
    if is_empty (trim_space req.ssh.host)
    then some host_required
    else if not (port_ok req.ssh.port)
    then some port_out_of_range
    else if is_empty (trim_space req.ssh.username)
    then some username_required
    else if is_empty (normalize_mode req.mode)
    then some invalid_mode
    else none

abbrev pub request_name : SaveProfileRequest → Text
request_name req =
    let name = trim_space req.name in if is_empty name then codes "SSHCustom Profile" else name

-- The ID that a request without one gets.
unfoldable pub fresh_id : ℕ → List Profile → Text → Text
unfolding slugify unique_profile_id
fresh_id now profiles name =
    let id = unique_profile_id now profiles (slugify name) in
    if is_empty id then unique_profile_id now profiles (codes "profile-" ++ itoa now) else id

unfoldable pub request_id : ℕ → ProfilesFile → SaveProfileRequest → Text
unfolding fresh_id
request_id now pf req =
    let id = trim_space req.id in
    if is_empty id then fresh_id now pf.profiles (request_name req) else id

abbrev pub password_of : Option Profile → Text
password_of none = []
password_of (some p) = p.ssh.password

abbrev pub fill_ssh : Text → Ssh → Ssh
fill_ssh old_password ssh = record ssh {
  password = if is_empty ssh.password then old_password else ssh.password;
  auth_type = if is_empty ssh.auth_type then codes "password" else ssh.auth_type;
}

-- The profile that is stored for a request; `old` is the one that it replaces.
unfoldable pub profile_of : Text → Option Profile → SaveProfileRequest → Profile
unfolding normalize_mode build_transport
profile_of id old req =
    let ssh = fill_ssh (password_of old) req.ssh in
    record {
      id = id;
      name = request_name req;
      selected = false;
      ssh = ssh;
      transport = build_transport (normalize_mode req.mode) req.payload req.http_proxy req.tls ssh;
    }

-- Where a request finds the profile that it replaces; one without an ID replaces none.
unfoldable pub replaced : Text → ProfilesFile → SaveProfileRequest → Option Profile
unfolding find
replaced id pf req = if is_empty (trim_space req.id) then none else find (has_id id) pf.profiles

abbrev pub put : Text → Option Profile → Profile → List Profile → List Profile
put id none new profiles = profiles ++ (new ∷ [])
put id (some _) new profiles = replace_first id new profiles

-- The list behind a request that passes the checks.
unfoldable pub put_profile : Text → ProfilesFile → SaveProfileRequest → ProfilesFile
unfolding replaced profile_of replace_first
put_profile id pf req =
    let old = replaced id pf req in
    record pf { profiles = put id old (profile_of id old req) pf.profiles }

unfoldable pub selects : Text → ProfilesFile → SaveProfileRequest → Bool
unfolding eq_text
selects id pf req = req.select || (is_empty pf.selected_id || eq_text pf.selected_id id)

-- The last step: the profile is selected when the request or the file asks for it. The error of
-- `selectProfileByID` is dropped.
unfoldable pub or_select : Bool → Text → ProfilesFile → ProfilesFile
unfolding select_profile_by_id
or_select true id pf = (select_profile_by_id id pf).0
or_select false id pf = pf

-- `upsertProfile` behind its checks.
unfoldable pub upsert_checked :
    ℕ → SaveProfileRequest → ProfilesFile → Option StoreError → ProfilesFile × Option StoreError
unfolding request_id put_profile selects or_select
upsert_checked now req pf (some e) = (pf, some e)
upsert_checked now req pf none =
    let id = request_id now pf req in
    (or_select (selects id pf req) id (put_profile id pf req), none)

-- `upsertProfile` at a Unix time in seconds.
unfoldable pub upsert_profile :
    ℕ → SaveProfileRequest → ProfilesFile → ProfilesFile × Option StoreError
unfolding check_request upsert_checked
upsert_profile now req pf = upsert_checked now req pf (check_request req)

unfoldable pub remove_id : Text → List Profile → List Profile
remove_id id [] = []
remove_id id (p ∷ ps) = let rest = remove_id id ps in if has_id id p then rest else p ∷ rest

-- The handler of /api/v1/profile/delete, between the load and the save of the file.
unfoldable pub delete_profile : Text → ProfilesFile → ProfilesFile × Option StoreError
unfolding one_of remove_id
delete_profile id pf =
    if is_empty id
    then (pf, some id_required)
    else if one_of id (map id_of pf.profiles)
    then (
      record pf {
        profiles = remove_id id pf.profiles;
        selected_id = if eq_text pf.selected_id id then [] else pf.selected_id;
      },
      none,
    )
    else (pf, some (not_found id))
