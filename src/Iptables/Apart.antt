-- ===== src/Iptables/Apart.antt =====
-- Which chains the commands of `Apply` leave alone: the names of the chains are different.
use sshcustom_magisk.Base.{
  ◌≡◌, refl, true, false, List, [], ◌∷◌, ◌++◌, map, Bool-cases, inl, inr, All, arith, ◌==◌,
}
use sshcustom_magisk.Text.{Text, codes, eq_text, is_empty, trim_space}
use sshcustom_magisk.Net.{has_byte}
use sshcustom_magisk.Iptables.{
  Config, Rule, append, hotspot_commands, hook_ifaces, output, prerouting, out_chain, pre_chain,
  prefix_of, ifaces_of,
}
use sshcustom_magisk.Iptables.Kernel.{is_on}
use sshcustom_magisk.Iptables.Plain.{ne_marked, All-append}
use sshcustom_magisk.Iptables.Hooks.{all_legacy_chains-IsMarked}

eq_text_behind : (p a b : Text) → eq_text (p ++ a) (p ++ b) ≡ eq_text a b
unfolding eq_text
eq_text_behind [] a b = refl
eq_text_behind (x ∷ p) a b =
    let same : (x == x) ≡ true = ground arith in rw (same, eq_text_behind p a b) refl

pub pre_ne_out : (prefix : Text) → eq_text (pre_chain prefix) (out_chain prefix) ≡ false
unfolding eq_text
pre_ne_out prefix = eq_text_behind prefix (codes "_PREROUTING") (codes "_OUTPUT")

pub out_ne_pre : (prefix : Text) → eq_text (out_chain prefix) (pre_chain prefix) ≡ false
unfolding eq_text
out_ne_pre prefix = eq_text_behind prefix (codes "_OUTPUT") (codes "_PREROUTING")

pub out_ne_output : (prefix : Text) → eq_text (out_chain prefix) output ≡ false
unfolding has_byte
out_ne_output prefix =
    ne_marked output (out_chain prefix) refl (all_legacy_chains-IsMarked prefix).0

pub pre_ne_output : (prefix : Text) → eq_text (pre_chain prefix) output ≡ false
unfolding has_byte
pre_ne_output prefix =
    ne_marked output (pre_chain prefix) refl (all_legacy_chains-IsMarked prefix).1.0

pub appends_off :
    (c chain : Text) (rs : List Rule)
    → eq_text chain c ≡ false
    → All (λ cmd. is_on cmd c ≡ false) (map (append chain) rs)
appends_off c chain [] h = tt
appends_off c chain (r ∷ rs) h = (h, appends_off c chain rs h)

hook_ifaces_off :
    (c chain : Text) (ifaces : List Text)
    → eq_text prerouting c ≡ false
    → All (λ cmd. is_on cmd c ≡ false) (hook_ifaces chain ifaces)
unfolding hook_ifaces
hook_ifaces_off c chain [] h = tt
hook_ifaces_off c chain (iface ∷ ifaces) h = elim (Bool-cases (is_empty (trim_space iface))) [
  | inl blank ↦ rw blank (hook_ifaces_off c chain ifaces h)
  | inr named ↦ rw named (h, hook_ifaces_off c chain ifaces h)
]

pub hotspot_off :
    (c : Text) (cfg : Config)
    → eq_text prerouting c ≡ false
    → All (λ cmd. is_on cmd c ≡ false) (hotspot_commands cfg)
unfolding hotspot_commands
hotspot_off c cfg h = elim (Bool-cases cfg.hotspot) [
  | inl on ↦ rw on (
      All-append (λ cmd. is_on cmd c ≡ false)
        (hook_ifaces (pre_chain (prefix_of cfg)) (ifaces_of cfg)) _
        (hook_ifaces_off c (pre_chain (prefix_of cfg)) (ifaces_of cfg) h) (refl, (refl, tt)))
  | inr off ↦ rw off tt
]
