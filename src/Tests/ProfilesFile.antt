-- ===== src/Tests/ProfilesFile.antt =====
-- The theorems on the profiles, at a file with two of them.
use sshcustom_magisk.Base.{
  ◌≡◌, ◌≢◌, refl, true, false, List, [], ◌∷◌, Option, none, some, arith, map, is_some,
}
use sshcustom_magisk.Base.Int.{pos}
use sshcustom_magisk.Text.{Text, codes, trim, trim_space, eq_text, lower}
use sshcustom_magisk.Profiles.{
  Ssh, PayloadCfg, TConf, Profile, ProfilesFile, SaveProfileRequest, find, has_id, is_selected,
  selected_profile, one_of,
}
use sshcustom_magisk.Profiles.Slug.{is_dash, slugify, unique_profile_id}
use sshcustom_magisk.Profiles.Slug.Fresh.{unique_profile_id-free}
use sshcustom_magisk.Profiles.Slug.Form.{IsClean, slugify_form}
use sshcustom_magisk.Profiles.Transport.{
  direct, http_proxy, normalize_mode, build_transport, uses_http_proxy, uses_tls, endpoint,
  dial_endpoint,
}
use sshcustom_magisk.Profiles.Transport.Dialled.{build_transport-uses}
use sshcustom_magisk.Profiles.Store.{
  StoreError, check_request, select_profile_by_id, upsert_profile, delete_profile,
}
use sshcustom_magisk.Profiles.Store.Ids.{ids, distinct}
use sshcustom_magisk.Profiles.Store.Laws.{
  select_profile_by_id-found, stored, upsert_profile-distinct, delete_profile-removes,
}
use sshcustom_magisk.Profiles.Store.Stored.{dial_endpoint-stored}

abbrev pub ssh : Ssh
ssh = record {
  host = codes "10.0.0.1";
  port = pos 22;
  username = codes "u";
  password = [];
  auth_type = [];
  fallback_ips = [];
}

abbrev payload : PayloadCfg
payload = record {
  enabled = false;
  template = [];
  send_timing = [];
  read_response = false;
  allow_statuses = [];
}

abbrev profile : Text → Profile
profile id = record {
  id = id;
  name = id;
  selected = false;
  ssh = ssh;
  transport = build_transport direct payload none none ssh;
}

abbrev file : ProfilesFile
file = record { selected_id = codes "a"; profiles = profile (codes "a") ∷ profile (codes "b") ∷ [] }

abbrev request : SaveProfileRequest
request = record {
  id = [];
  name = codes "A";
  select = false;
  restart = false;
  ssh = ssh;
  mode = codes "SSH";
  http_proxy = none;
  tls = none;
  payload = payload;
}

abbrev used : List Text
used = ids file.profiles

slugify_form_example :
    IsClean false (slugify (codes "My VPN!"))
    × (trim is_dash (slugify (codes "My VPN!")) ≡ slugify (codes "My VPN!"))
    × (slugify (slugify (codes "My VPN!")) ≡ slugify (codes "My VPN!"))
slugify_form_example = slugify_form (codes "My VPN!")

unique_profile_id-free_example : one_of (unique_profile_id 0 file.profiles (codes "a")) used ≡ false
unique_profile_id-free_example = unique_profile_id-free 0 file.profiles (codes "a") (omega arith)

abbrev proxied : TConf
proxied = build_transport http_proxy payload none none ssh

build_transport-uses_example :
    (uses_http_proxy proxied ≡ is_some proxied.http_proxy)
    × (uses_tls proxied ≡ is_some proxied.tls)
build_transport-uses_example = build_transport-uses http_proxy payload none none ssh

-- A request for a proxy behind TLS, with a port 80 and no host.
abbrev tls_request : SaveProfileRequest
tls_request = record request {
  mode = codes "http_proxy_tls_sni";
  http_proxy = some (record { host = []; port = pos 80; connect_method = []; fallback_ips = [] });
}

dial_endpoint-stored_example :
    dial_endpoint (stored 0 tls_request file) ≡ endpoint (codes "10.0.0.1") (pos 443)
unfolding check_request normalize_mode trim_space eq_text lower one_of
dial_endpoint-stored_example = dial_endpoint-stored 0 tls_request file refl

abbrev picked : ProfilesFile × Option StoreError
picked = select_profile_by_id (codes " b ") file

select_profile_by_id-found_example :
    (picked.1 ≡ none)
    × ((p : Profile) × (selected_profile picked.0 ≡ some p) × (p.id ≡ trim_space (codes " b ")))
    × (map is_selected picked.0.profiles ≡ map (has_id (trim_space (codes " b "))) file.profiles)
unfolding trim_space one_of
select_profile_by_id-found_example = select_profile_by_id-found (codes " b ") file refl refl

abbrev missed : ProfilesFile × Option StoreError
missed = select_profile_by_id (codes "c") file

upsert_profile-distinct_example : distinct (ids (upsert_profile 0 request file).0.profiles) ≡ true
unfolding distinct
upsert_profile-distinct_example = upsert_profile-distinct 0 request file (omega arith) refl

abbrev without_a : ProfilesFile × Option StoreError
without_a = delete_profile (codes "a") file

delete_profile-removes_example :
    (without_a.1 ≡ none)
    × (one_of (codes "a") (ids without_a.0.profiles) ≡ false)
    × (eq_text without_a.0.selected_id (codes "a") ≡ false)
    × ((v : Text)
        → v ≢ codes "a"
        → find (has_id v) without_a.0.profiles ≡ find (has_id v) file.profiles)
    × (distinct used ≡ true → distinct (ids without_a.0.profiles) ≡ true)
unfolding one_of
delete_profile-removes_example = delete_profile-removes (codes "a") file refl refl
