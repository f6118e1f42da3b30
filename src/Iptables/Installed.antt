-- ===== src/Iptables/Installed.antt =====
-- What `Apply` installs.
use sshcustom_magisk.Base.{
  ◌≡◌, refl, sym, ap, ◌∙◌, true, false, List, [], ◌∷◌, ◌++◌, append-nil, append_assoc, Option, none,
  some, map, All,
}
use sshcustom_magisk.Text.{Text, eq_text}
use sshcustom_magisk.Net.{has_byte}
use sshcustom_magisk.Iptables.{
  Config, Rule, Command, new_chain, flush, append, insert, argv, exec, exec_all, noted, is_noted,
  errors_of, cleanup, apply, setup_commands, hotspot_commands, chain_rules, tcp_jump, output,
  prerouting, out_chain, pre_chain, prefix_of,
}
use sshcustom_magisk.Iptables.Kernel.{Chains, edit, is_on, IsIptables, IsReporting}
use sshcustom_magisk.Iptables.Apart.{
  pre_ne_out, out_ne_pre, out_ne_output, pre_ne_output, appends_off, hotspot_off,
}
use sshcustom_magisk.Iptables.Chains.{IsChain, chain_rules-IsChain}
use sshcustom_magisk.Iptables.Plain.{marked_ne}
use sshcustom_magisk.Iptables.Hooks.{all_legacy_chains-IsMarked}
use sshcustom_magisk.Iptables.Runs.{exec_all-append}

module _ {K : Type 0} (run : K → Text × List Text → K × Option (Text × Text)) where
  no_error :
      (c : Command) (e : Option (Text × Text)) (errs : List Text)
      → is_noted c ≡ true
      → noted run c e errs ≡ []
      → (e ≡ none) × (errs ≡ [])
  no_error c none errs h k = (refl, k)
  no_error c (some e) errs h k = absurd (cc (rw h at k))

  -- Where no command fails, neither does the first one, nor any behind it.
  none_fails :
      (s : K) (c : Command) (cs : List Command)
      → is_noted c ≡ true
      → errors_of run s (c ∷ cs) ≡ []
      → ((run s (argv c)).1 ≡ none) × (errors_of run (exec run s c) cs ≡ [])
  unfolding errors_of
  none_fails s c cs h k = no_error c (run s (argv c)).1 (errors_of run (exec run s c) cs) h k

  module _ (rules : K → Chains) (net : IsIptables run rules) (told : IsReporting run rules) where
    untouched :
        (s : K) (c : Text) (cmds : List Command)
        → All (λ cmd. is_on cmd c ≡ false) cmds
        → rules (exec_all run s cmds) c ≡ rules s c
    unfolding exec_all
    untouched s c [] h = refl
    untouched s c (cmd ∷ cmds) h = untouched (exec run s cmd) c cmds h.1 ∙ net.elsewhere s cmd c h.0

    -- What a row of appended rules leaves, and that the commands behind it do not fail.
    appended_all :
        (s : K) (chain : Text) (l rs : List Rule) (cmds : List Command)
        → rules s chain ≡ some l
        → errors_of run s (map (append chain) rs ++ cmds) ≡ []
        → (rules (exec_all run s (map (append chain) rs)) chain ≡ some (l ++ rs))
          × (errors_of run (exec_all run s (map (append chain) rs)) cmds ≡ [])
    unfolding exec_all
    appended_all s chain l [] cmds e h = (e ∙ ap (λ x. some x) (sym (append-nil l)), h)
    appended_all s chain l (r ∷ rs) cmds e h =
        let first = none_fails s (append chain r) (map (append chain) rs ++ cmds) refl h in
        let next : rules (exec run s (append chain r)) chain ≡ some (l ++ (r ∷ [])) =
          told.appended s chain r first.0 ∙ ap (edit (λ m. m ++ (r ∷ []))) e in
        let later =
          appended_all (exec run s (append chain r)) chain (l ++ (r ∷ [])) rs cmds next first.1 in
        (later.0 ∙ ap (λ x. some x) (append_assoc l (r ∷ []) rs), later.1)

    -- A chain that is made, emptied and filled.
    made_empty :
        (s : K) (chain : Text) (cmds : List Command)
        → errors_of run s (new_chain chain ∷ flush chain ∷ cmds) ≡ []
        → (rules (exec_all run s (new_chain chain ∷ flush chain ∷ [])) chain ≡ some [])
          × (errors_of run (exec_all run s (new_chain chain ∷ flush chain ∷ [])) cmds ≡ [])
    unfolding exec_all
    made_empty s chain cmds h =
        let s1 : K = exec run s (new_chain chain) in
        let first = none_fails s (new_chain chain) (flush chain ∷ cmds) refl h in
        let second = none_fails s1 (flush chain) cmds refl first.1 in
        (net.flushed s1 chain ∙ ap (edit (λ _. [])) (told.made s chain first.0), second.1)

    -- The table behind `Apply` with the daemon's chains filled and OUTPUT hooked to the first.
    pub record IsInstalled (cfg : Config) (ips : List Text) (before after : K) : Type 0 where
      pub out :
          (l : List Rule) × ((rules after (out_chain (prefix_of cfg)) ≡ some l)
            × IsChain cfg ips true l)
      pub pre :
          (l : List Rule) × ((rules after (pre_chain (prefix_of cfg)) ≡ some l)
            × IsChain cfg ips false l)
      pub hooked :
          rules after output
          ≡ edit (λ l. tcp_jump (out_chain (prefix_of cfg)) ∷ l) (rules before output)

    abbrev hooks_of : Config → List Command
    hooks_of cfg = insert output (tcp_jump (out_chain (prefix_of cfg))) ∷ hotspot_commands cfg

    abbrev fills : Config → List Text → List Command
    fills cfg ips =
        map (append (out_chain (prefix_of cfg))) (chain_rules cfg ips true)
        ++ (map (append (pre_chain (prefix_of cfg))) (chain_rules cfg ips false) ++ hooks_of cfg)

    -- The same before OUTPUT is hooked, with what is left to run.
    record IsFilled (cfg : Config) (ips : List Text) (before after : K) (all : List Command)
        : Type 0 where
      filled_out : rules after (out_chain (prefix_of cfg)) ≡ some (chain_rules cfg ips true)
      filled_pre : rules after (pre_chain (prefix_of cfg)) ≡ some (chain_rules cfg ips false)
      same_output : rules after output ≡ rules before output
      reached : exec_all run before all ≡ exec_all run after (hooks_of cfg)
      unfailed : errors_of run after (hooks_of cfg) ≡ []

    fills-IsFilled :
        (cfg : Config) (ips : List Text) (s : K)
        → rules s (out_chain (prefix_of cfg)) ≡ some []
        → rules s (pre_chain (prefix_of cfg)) ≡ some []
        → errors_of run s (fills cfg ips) ≡ []
        → IsFilled cfg ips s
            (exec_all run
              (exec_all run s (map (append (out_chain (prefix_of cfg))) (chain_rules cfg ips true)))
              (map (append (pre_chain (prefix_of cfg))) (chain_rules cfg ips false)))
            (fills cfg ips)
    fills-IsFilled cfg ips s no_out no_pre h =
        let prefix = prefix_of cfg in
        let out_rules = chain_rules cfg ips true in
        let pre_rules = chain_rules cfg ips false in
        let outs = map (append (out_chain prefix)) out_rules in
        let pres = map (append (pre_chain prefix)) pre_rules in
        let s3 : K = exec_all run s outs in
        let first = appended_all s (out_chain prefix) [] out_rules _ no_out h in
        let still_empty =
          untouched s (pre_chain prefix) outs
            (appends_off (pre_chain prefix) (out_chain prefix) out_rules (out_ne_pre prefix))
          ∙ no_pre in
        let second =
          appended_all s3 (pre_chain prefix) [] pre_rules (hooks_of cfg) still_empty first.1 in
        record {
          filled_out =
              untouched s3 (out_chain prefix) pres
                (appends_off (out_chain prefix) (pre_chain prefix) pre_rules (pre_ne_out prefix))
              ∙ first.0;
          filled_pre = second.0;
          same_output =
              untouched s3 output pres
                (appends_off output (pre_chain prefix) pre_rules (pre_ne_output prefix))
              ∙ untouched s output outs
                  (appends_off output (out_chain prefix) out_rules (out_ne_output prefix));
          reached =
              exec_all-append run s outs (pres ++ hooks_of cfg)
              ∙ exec_all-append run s3 pres (hooks_of cfg);
          unfailed = second.1;
        }

    hooks-IsInstalled :
        (cfg : Config) (ips : List Text) (s t : K) (all : List Command)
        → IsFilled cfg ips s t all
        → IsInstalled cfg ips s (exec_all run s all)
    unfolding exec_all has_byte eq_text
    hooks-IsInstalled cfg ips s t all h =
        let prefix = prefix_of cfg in
        let out = out_chain prefix in
        let pre = pre_chain prefix in
        let marked = all_legacy_chains-IsMarked prefix in
        let hooked : K = exec run t (insert output (tcp_jump out)) in
        let hook =
          none_fails t (insert output (tcp_jump out)) (hotspot_commands cfg) refl h.unfailed in
        record {
          out = (
            chain_rules cfg ips true,
            (
              ap (λ x. rules x out) h.reached
                  ∙ untouched hooked out (hotspot_commands cfg)
                      (hotspot_off out cfg (marked_ne prerouting out refl marked.0))
                  ∙ net.elsewhere t (insert output (tcp_jump out)) out
                      (marked_ne output out refl marked.0)
                  ∙ h.filled_out,
              chain_rules-IsChain cfg ips true,
            ),
          );
          pre = (
            chain_rules cfg ips false,
            (
              ap (λ x. rules x pre) h.reached
                  ∙ untouched hooked pre (hotspot_commands cfg)
                      (hotspot_off pre cfg (marked_ne prerouting pre refl marked.1.0))
                  ∙ net.elsewhere t (insert output (tcp_jump out)) pre
                      (marked_ne output pre refl marked.1.0)
                  ∙ h.filled_pre,
              chain_rules-IsChain cfg ips false,
            ),
          );
          hooked =
              ap (λ x. rules x output) h.reached
              ∙ untouched hooked output (hotspot_commands cfg) (hotspot_off output cfg refl)
              ∙ told.inserted t output (tcp_jump out) hook.0
              ∙ ap (edit (λ l. tcp_jump out ∷ l)) h.same_output;
        }

    setup-IsInstalled :
        (cfg : Config) (ips : List Text) (s : K)
        → errors_of run s (setup_commands cfg ips) ≡ []
        → IsInstalled cfg ips s (exec_all run s (setup_commands cfg ips))
    unfolding setup_commands exec_all
    setup-IsInstalled cfg ips s h =
        let prefix = prefix_of cfg in
        let out = out_chain prefix in
        let pre = pre_chain prefix in
        let s1 : K = exec_all run s (new_chain out ∷ flush out ∷ []) in
        let s2 : K = exec_all run s1 (new_chain pre ∷ flush pre ∷ []) in
        let made_out = made_empty s out (new_chain pre ∷ flush pre ∷ fills cfg ips) h in
        let made_pre = made_empty s1 pre (fills cfg ips) made_out.1 in
        let still_out =
          untouched s1 out (new_chain pre ∷ flush pre ∷ [])
            (pre_ne_out prefix, (pre_ne_out prefix, tt))
          ∙ made_out.0 in
        let same =
          untouched s1 output (new_chain pre ∷ flush pre ∷ [])
            (pre_ne_output prefix, (pre_ne_output prefix, tt))
          ∙ untouched s output (new_chain out ∷ flush out ∷ [])
              (out_ne_output prefix, (out_ne_output prefix, tt)) in
        let filled = fills-IsFilled cfg ips s2 still_out made_pre.0 made_pre.1 in
        let installed = hooks-IsInstalled cfg ips s2 _ (fills cfg ips) filled in
        record {
          out = installed.out;
          pre = installed.pre;
          hooked = installed.hooked ∙ ap (edit (λ l. tcp_jump out ∷ l)) same;
        }

    -- Where no command fails, and one that does not fail has done its work, `Apply` leaves in each of
    -- its two chains rules that return exactly root's own traffic (in the chain for OUTPUT only),
    -- that to the nine private networks, to the addresses to bypass that are not blank and to the
    -- positive ports of the daemon, and behind them, last, the redirection of all other TCP traffic
    -- to the TCP port (10810 where it is not positive); and in front of what stood in OUTPUT it puts
    -- the jump to the first chain.
    pub apply-IsInstalled :
        (cfg : Config) (ips : List Text) (s : K)
        → errors_of run (cleanup run cfg s) (setup_commands cfg ips) ≡ []
        → IsInstalled cfg ips (cleanup run cfg s) (apply run cfg ips s).0
    unfolding apply
    apply-IsInstalled cfg ips s h = setup-IsInstalled cfg ips (cleanup run cfg s) h
