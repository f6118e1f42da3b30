-- ===== src/Iptables.antt =====
-- The rules of the transparent proxy (internal/iptables/iptables.go): what `Apply` and `Cleanup` run,
-- as values, and how they run it. The program `iptables` is a parameter: it gets its arguments and
-- answers nothing, or an error with its output.
pub mod Rules
pub mod Kernel
pub mod Dressed
pub mod Setup
pub mod Teardown
pub mod Removal
pub mod Plain
pub mod Hooks
pub mod Covered
pub mod Runs
pub mod Apart
pub mod Chains
pub mod Installed
pub mod Reported
pub mod Restore
use sshcustom_magisk.Base.{
  ℕ, Bool, true, false, ◌||◌, List, [], ◌∷◌, ◌++◌, Option, none, some, map, if◌then◌else◌,
}
use sshcustom_magisk.Base.Int.{ℤ, pos, negsuc, is_nonpos}
use sshcustom_magisk.Text.{Text, codes, is_empty, trim_space, join, contains}
use sshcustom_magisk.Net.{int_string}
use sshcustom_magisk.Dns.{has_any}

pub record Config : Type 0 where
  pub chains_prefix : Text
  pub tcp_port : ℤ
  pub api_port : ℤ
  pub socks_port : ℤ
  pub hotspot : Bool
  pub hotspot_ifaces : List Text

abbrev pub default_hotspot_ifaces : List Text
default_hotspot_ifaces =
    codes "wlan+"
    ∷ codes "swlan+"
    ∷ codes "ap+"
    ∷ codes "rndis+"
    ∷ codes "ncm+"
    ∷ codes "bt-pan+"
    ∷ []

abbrev pub private_cidrs : List Text
private_cidrs =
    codes "0.0.0.0/8"
    ∷ codes "10.0.0.0/8"
    ∷ codes "100.64.0.0/10"
    ∷ codes "127.0.0.0/8"
    ∷ codes "169.254.0.0/16"
    ∷ codes "172.16.0.0/12"
    ∷ codes "192.168.0.0/16"
    ∷ codes "224.0.0.0/4"
    ∷ codes "240.0.0.0/4"
    ∷ []

abbrev pub default_prefix : Text
default_prefix = codes "SSHC"

unfoldable pub prefix_of : Config → Text
prefix_of cfg = if is_empty cfg.chains_prefix then default_prefix else cfg.chains_prefix

unfoldable pub port_of : Config → ℤ
port_of cfg = if is_nonpos cfg.tcp_port then pos 10810 else cfg.tcp_port

unfoldable pub ifaces_of : Config → List Text
ifaces_of cfg = if has_any cfg.hotspot_ifaces then cfg.hotspot_ifaces else default_hotspot_ifaces

abbrev pub out_chain : Text → Text
out_chain prefix = prefix ++ codes "_OUTPUT"

abbrev pub pre_chain : Text → Text
pre_chain prefix = prefix ++ codes "_PREROUTING"

-- `allLegacyChains`.
abbrev pub all_legacy_chains : Text → List Text
all_legacy_chains prefix =
    out_chain prefix
    ∷ pre_chain prefix
    ∷ (prefix ++ codes "_PROXY")
    ∷ (prefix ++ codes "_DNS")
    ∷ (prefix ++ codes "_HOTSPOT")
    ∷ (prefix ++ codes "_HOTSPOT_DNS")
    ∷ []

-- The arguments of a rule, behind those that name the chain.
abbrev pub Rule : Type 0
Rule = List Text

-- The calls of `exec.Command`.
pub data Command : Type 0 where
  new_chain flush delete_chain : Text → Command
  append insert delete_rule : Text → Rule → Command
  ip_forward forward_accept forward_delete : Command

abbrev pub on_nat : Text → Text → Rule → Text × List Text
on_nat op chain rule = (codes "iptables", codes "-t" ∷ codes "nat" ∷ op ∷ chain ∷ rule)

-- The program and the arguments of a call.
unfoldable pub argv : Command → Text × List Text
argv (new_chain chain) = on_nat (codes "-N") chain []
argv (flush chain) = on_nat (codes "-F") chain []
argv (delete_chain chain) = on_nat (codes "-X") chain []
argv (append chain rule) = on_nat (codes "-A") chain rule
argv (insert chain rule) = on_nat (codes "-I") chain (codes "1" ∷ rule)
argv (delete_rule chain rule) = on_nat (codes "-D") chain rule
argv ip_forward = (codes "sysctl", codes "-w" ∷ codes "net.ipv4.ip_forward=1" ∷ [])
argv forward_accept =
    (codes "iptables", codes "-I" ∷ codes "FORWARD" ∷ codes "-j" ∷ codes "ACCEPT" ∷ [])
argv forward_delete =
    (codes "iptables", codes "-D" ∷ codes "FORWARD" ∷ codes "-j" ∷ codes "ACCEPT" ∷ [])

abbrev pub output : Text
output = codes "OUTPUT"

abbrev pub prerouting : Text
prerouting = codes "PREROUTING"

abbrev pub jump : Text → Rule
jump chain = codes "-j" ∷ chain ∷ []

abbrev pub tcp_jump : Text → Rule
tcp_jump chain = codes "-p" ∷ codes "tcp" ∷ jump chain

abbrev pub on_iface : Text → Rule → Rule
on_iface iface rule = codes "-i" ∷ iface ∷ rule

abbrev pub to_return : Text → Rule
to_return dest = codes "-d" ∷ dest ∷ codes "-j" ∷ codes "RETURN" ∷ []

-- What `Cleanup` runs: the first loop, over the interfaces and over the chains, and the second one.
unfoldable pub detach_ifaces : Text → List Text → List Command
unfolding trim_space
detach_ifaces chain [] = []
detach_ifaces chain (iface ∷ ifaces) =
    let rest = detach_ifaces chain ifaces in
    if is_empty (trim_space iface)
    then rest
    else delete_rule prerouting (on_iface iface (tcp_jump chain))
      ∷ delete_rule prerouting (on_iface iface (jump chain))
      ∷ rest

unfoldable pub detach : List Text → List Text → List Command
unfolding detach_ifaces
detach ifaces [] = []
detach ifaces (chain ∷ chains) =
    delete_rule output (tcp_jump chain)
    ∷ delete_rule output (jump chain)
    ∷ delete_rule prerouting (tcp_jump chain)
    ∷ delete_rule prerouting (jump chain)
    ∷ (detach_ifaces chain ifaces ++ detach ifaces chains)

unfoldable pub remove_chains : List Text → List Command
remove_chains [] = []
remove_chains (chain ∷ chains) = flush chain ∷ delete_chain chain ∷ remove_chains chains

unfoldable pub cleanup_commands : Config → List Command
unfolding detach remove_chains prefix_of ifaces_of
cleanup_commands cfg =
    let chains = all_legacy_chains (prefix_of cfg) in
    detach (ifaces_of cfg) chains ++ (remove_chains chains ++ (forward_delete ∷ []))

-- What `addBypasses` appends.
unfoldable pub bypass_rules : List Text → List Rule
unfolding trim_space
bypass_rules [] = []
bypass_rules (ip ∷ ips) =
    let rest = bypass_rules ips in
    if is_empty (trim_space ip) then rest else to_return (trim_space ip) ∷ rest

unfoldable pub port_rules : List ℤ → List Rule
unfolding int_string
port_rules [] = []
port_rules (p ∷ ports) =
    let rest = port_rules ports in
    let here =
      codes "-p"
      ∷ codes "tcp"
      ∷ codes "--dport"
      ∷ int_string p
      ∷ codes "-j"
      ∷ codes "RETURN"
      ∷ [] in
    if is_nonpos p then rest else here ∷ rest

abbrev pub owner_rules : Bool → List Rule
owner_rules true =
    (codes "-m"
      ∷ codes "owner"
      ∷ codes "--uid-owner"
      ∷ codes "0"
      ∷ codes "-j"
      ∷ codes "RETURN"
      ∷ [])
    ∷ []
owner_rules false = []

abbrev pub redirect_rule : Text → Rule
redirect_rule port =
    codes "-p" ∷ codes "tcp" ∷ codes "-j" ∷ codes "REDIRECT" ∷ codes "--to-ports" ∷ port ∷ []

unfoldable pub chain_rules : Config → List Text → Bool → List Rule
unfolding bypass_rules port_rules port_of int_string
chain_rules cfg bypass_ips is_output =
    owner_rules is_output
    ++ (map to_return private_cidrs
        ++ (bypass_rules bypass_ips
            ++ (port_rules (cfg.api_port ∷ cfg.socks_port ∷ cfg.tcp_port ∷ [])
                ++ (redirect_rule (int_string (port_of cfg)) ∷ []))))

unfoldable pub hook_ifaces : Text → List Text → List Command
unfolding trim_space
hook_ifaces chain [] = []
hook_ifaces chain (iface ∷ ifaces) =
    let rest = hook_ifaces chain ifaces in
    if is_empty (trim_space iface)
    then rest
    else insert prerouting (on_iface iface (tcp_jump chain)) ∷ rest

unfoldable pub hotspot_commands : Config → List Command
unfolding hook_ifaces prefix_of ifaces_of
hotspot_commands cfg =
    if cfg.hotspot
    then hook_ifaces (pre_chain (prefix_of cfg)) (ifaces_of cfg)
      ++ (ip_forward ∷ forward_accept ∷ [])
    else []

-- What `Apply` runs behind `Cleanup`.
unfoldable pub setup_commands : Config → List Text → List Command
unfolding chain_rules hotspot_commands prefix_of
setup_commands cfg bypass_ips =
    let out = out_chain (prefix_of cfg) in
    let pre = pre_chain (prefix_of cfg) in
    new_chain out
    ∷ flush out
    ∷ new_chain pre
    ∷ flush pre
    ∷ (map (append out) (chain_rules cfg bypass_ips true)
        ++ (map (append pre) (chain_rules cfg bypass_ips false)
            ++ (insert output (tcp_jump out) ∷ hotspot_commands cfg)))

-- The errors that `Apply` drops.
unfoldable pub is_tolerated : Text → Bool
unfolding contains
is_tolerated e =
    contains e (codes "No chain/target/match")
    || (contains e (codes "does a matching rule exist")
        || contains e (codes "Chain already exists"))

unfoldable pub fatal_errors : List Text → List Text
unfolding is_tolerated
fatal_errors [] = []
fatal_errors (e ∷ errs) = let rest = fatal_errors errs in if is_tolerated e then rest else e ∷ rest

abbrev pub error_of : List Text → Option Text
error_of [] = none
error_of (e ∷ errs) = some (join (codes "; ") (e ∷ errs))

-- The commands whose errors `Apply` notes.
abbrev pub is_noted : Command → Bool
is_noted ip_forward = false
is_noted forward_accept = false
is_noted _ = true

unfoldable pub error_text : List Text → Text × Text → Text
unfolding join trim_space
error_text args (e, out) =
    codes "iptables "
    ++ (join (codes " ") args ++ (codes ": " ++ (e ++ (codes " " ++ trim_space out))))

module _ {K : Type 0} (run : K → Text × List Text → K × Option (Text × Text)) where
  -- The commands in turn, and the errors of those that are noted.
  unfoldable pub exec : K → Command → K
  unfolding argv
  exec s c = (run s (argv c)).0

  unfoldable pub exec_all : K → List Command → K
  unfolding exec
  exec_all s [] = s
  exec_all s (c ∷ cs) = exec_all (exec s c) cs

  abbrev pub noted : Command → Option (Text × Text) → List Text → List Text
  noted c none errs = errs
  noted c (some e) errs = if is_noted c then error_text (argv c).1 e ∷ errs else errs

  unfoldable pub errors_of : K → List Command → List Text
  unfolding exec error_text argv
  errors_of s [] = []
  errors_of s (c ∷ cs) = noted c (run s (argv c)).1 (errors_of (exec s c) cs)

  -- `Cleanup`.
  unfoldable pub cleanup : Config → K → K
  unfolding cleanup_commands exec_all
  cleanup cfg s = exec_all s (cleanup_commands cfg)

  -- `Apply`.
  unfoldable pub apply : Config → List Text → K → K × Option Text
  unfolding cleanup setup_commands exec_all errors_of fatal_errors
  apply cfg bypass_ips s =
      let cleaned = cleanup cfg s in
      let commands = setup_commands cfg bypass_ips in
      (exec_all cleaned commands, error_of (fatal_errors (errors_of cleaned commands)))
