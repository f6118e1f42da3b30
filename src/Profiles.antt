-- ===== src/Profiles.antt =====
-- The profiles of cmd/sshcustomd/main.go: their types, and which profile is the selected one.
pub mod Slug
pub mod Transport
pub mod Store
use sshcustom_magisk.Base.{
  ℕ, Bool, true, false, not, ◌||◌, List, [], ◌∷◌, Option, none, some, if◌then◌else◌,
}
use sshcustom_magisk.Base.Int.{ℤ}
use sshcustom_magisk.Text.{Text, codes, eq_text, is_empty}

pub record Ssh : Type 0 where
  pub host : Text
  pub port : ℤ
  pub username : Text
  pub password : Text
  pub auth_type : Text
  pub fallback_ips : List Text

pub record HttpProxyCfg : Type 0 where
  pub host : Text
  pub port : ℤ
  pub connect_method : Text
  pub fallback_ips : List Text

pub record TlsCfg : Type 0 where
  pub enabled : Bool
  pub server_name : Text
  pub insecure_skip_verify : Bool
  pub alpn : List Text

pub record PayloadCfg : Type 0 where
  pub enabled : Bool
  pub template : Text
  pub send_timing : Text
  pub read_response : Bool
  pub allow_statuses : List ℤ

pub record TConf : Type 0 where
  pub mode : Text
  pub chain : List Text
  pub http_proxy : Option HttpProxyCfg
  pub tls : Option TlsCfg
  pub payload : PayloadCfg

pub record Profile : Type 0 where
  pub id : Text
  pub name : Text
  pub selected : Bool
  pub ssh : Ssh
  pub transport : TConf

pub record ProfilesFile : Type 0 where
  pub selected_id : Text
  pub profiles : List Profile

pub record SaveProfileRequest : Type 0 where
  pub id : Text
  pub name : Text
  pub select : Bool
  pub restart : Bool
  pub ssh : Ssh
  pub mode : Text
  pub http_proxy : Option HttpProxyCfg
  pub tls : Option TlsCfg
  pub payload : PayloadCfg

-- The first profile that passes a test.
unfoldable pub find : (Profile → Bool) → List Profile → Option Profile
find test [] = none
find test (p ∷ ps) = let later = find test ps in if test p then some p else later

abbrev pub first_of_list : List Profile → Option Profile
first_of_list [] = none
first_of_list (p ∷ _) = some p

abbrev pub or_else : Option Profile → Option Profile → Option Profile
or_else none later = later
or_else (some p) later = some p

abbrev pub has_id : Text → Profile → Bool
has_id id p = eq_text p.id id

abbrev pub is_selected : Profile → Bool
is_selected p = p.selected

-- `selectedProfile`.
unfoldable pub selected_profile : ProfilesFile → Option Profile
unfolding find
selected_profile pf =
    or_else (if is_empty pf.selected_id then none else find (has_id pf.selected_id) pf.profiles)
      (or_else (find is_selected pf.profiles) (first_of_list pf.profiles))

-- `contains` on a list of strings.
unfoldable pub one_of : Text → List Text → Bool
unfolding eq_text
one_of v [] = false
one_of v (x ∷ xs) = eq_text x v || one_of v xs
