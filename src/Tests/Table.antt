-- ===== src/Tests/Table.antt =====
-- The theorem on the rules, for an `iptables` that keeps the nat table as a function.
use sshcustom_magisk.Base.{
  ◌≡◌, ◌↔◌, refl, sym, subst, Bool-cases, ◌⊎◌, inl, inr, Bool, true, false, List, [], ◌∷◌, ◌++◌,
  Option, none, some, if◌then◌else◌,
}
use sshcustom_magisk.Base.Int.{pos}
use sshcustom_magisk.Text.{Text, codes, eq_text}
use sshcustom_magisk.Text.Equality.{eq_text_iff, eq_text_refl}
use sshcustom_magisk.Profiles.{one_of}
use sshcustom_magisk.Iptables.{
  Config, Rule, Command, new_chain, flush, delete_chain, append, insert, delete_rule, ip_forward,
  forward_accept, forward_delete, argv, exec, cleanup, apply, errors_of, setup_commands,
  all_legacy_chains, prefix_of, ifaces_of,
}
use sshcustom_magisk.Iptables.Rules.{erase, is_ours, jumps}
use sshcustom_magisk.Iptables.Kernel.{Chains, edit, is_on, IsIptables, IsReporting}
use sshcustom_magisk.Iptables.Dressed.{IsClear}
use sshcustom_magisk.Iptables.Teardown.{IsBase}
use sshcustom_magisk.Iptables.Runs.{Run, applied, killed, cleaned, perform_all}
use sshcustom_magisk.Iptables.Installed.{IsInstalled, apply-IsInstalled}
use sshcustom_magisk.Iptables.Reported.{AreExcused, apply-none_iff}
use sshcustom_magisk.Iptables.Restore.{perform_all-restores}

abbrev pub update : Chains → Text → Option (List Rule) → Chains
unfolding eq_text
update table chain rules c = if eq_text chain c then rules else table c

abbrev pub or_empty : Option (List Rule) → Option (List Rule)
or_empty none = some []
or_empty (some l) = some l

abbrev pub behind_number : Rule → Rule
behind_number [] = []
behind_number (_ ∷ rule) = rule

abbrev pub changed : Text → Rule → Option (List Rule) → Option (List Rule)
unfolding eq_text erase
changed op rule now =
    if eq_text op (codes "-N")
    then or_empty now
    else if eq_text op (codes "-F")
    then edit (λ _. []) now
    else if eq_text op (codes "-X")
    then none
    else if eq_text op (codes "-A")
    then edit (λ l. l ++ (rule ∷ [])) now
    else if eq_text op (codes "-I")
    then edit (λ l. behind_number rule ∷ l) now
    else if eq_text op (codes "-D")
    then edit (erase rule) now
    else now

abbrev pub answer : Chains → List Text → Chains
unfolding eq_text
answer table (_ ∷ name ∷ op ∷ chain ∷ rule) =
    if eq_text name (codes "nat") then update table chain (changed op rule (table chain)) else table
answer table _ = table

abbrev pub failure : Bool → Option (List Rule) → Option (Text × Text)
failure make none =
    if make
    then none
    else some (codes "exit status 1", codes "iptables: No chain/target/match by that name.")
failure make (some l) =
    if make then some (codes "exit status 1", codes "iptables: Chain already exists.") else none

abbrev pub refusal : Chains → List Text → Option (Text × Text)
unfolding eq_text
refusal table (_ ∷ name ∷ op ∷ chain ∷ rule) =
    if eq_text name (codes "nat") then failure (eq_text op (codes "-N")) (table chain) else none
refusal table _ = none

abbrev pub tool : Chains → Text × List Text → Chains × Option (Text × Text)
tool table (program, args) = (answer table args, refusal table args)

abbrev pub same_table : Chains → Chains
same_table table = table

tool_made :
    (now : Option (List Rule)) → now ≡ none → (or_empty now ≡ none) ⊎ (or_empty now ≡ some [])
tool_made none e = inr refl
tool_made (some l) e = absurd (cc e)

tool_elsewhere :
    (s : Chains) (cmd : Command) (c : Text) → is_on cmd c ≡ false → exec tool s cmd c ≡ s c
unfolding exec argv eq_text
tool_elsewhere s (new_chain chain) c e = rw e refl
tool_elsewhere s (flush chain) c e = rw e refl
tool_elsewhere s (delete_chain chain) c e = rw e refl
tool_elsewhere s (append chain r) c e = rw e refl
tool_elsewhere s (insert chain r) c e = rw e refl
tool_elsewhere s (delete_rule chain r) c e = rw e refl
tool_elsewhere s ip_forward c e = refl
tool_elsewhere s forward_accept c e = refl
tool_elsewhere s forward_delete c e = refl

pub tool_fits : IsIptables tool same_table
unfolding exec argv eq_text changed
tool_fits = record {
  elsewhere = tool_elsewhere;
  made = λ s chain e. rw (eq_text_refl chain) (tool_made (s chain) e);
  kept = λ s chain l e. rw (eq_text_refl chain, e) refl;
  flushed = λ s chain. rw (eq_text_refl chain) refl;
  appended = λ s chain r. inr (rw (eq_text_refl chain) refl);
  inserted = λ s chain r. inr (rw (eq_text_refl chain) refl);
  deleted = λ s chain r. rw (eq_text_refl chain) refl;
  removed = λ s chain empty free. rw (eq_text_refl chain) refl;
}

abbrev pub cfg : Config
cfg = record {
  chains_prefix = [];
  tcp_port = pos 9898;
  api_port = pos 8089;
  socks_port = pos 1080;
  hotspot = false;
  hotspot_ifaces = codes "wlan+" ∷ codes " " ∷ codes "ap+" ∷ [];
}

abbrev other_cfg : Config
other_cfg = record cfg { hotspot = true; tcp_port = pos 0 }

abbrev pub chains : List Text
unfolding prefix_of
chains = all_legacy_chains (prefix_of cfg)

-- Another program's rule stands in OUTPUT.
abbrev pub their_rule : Rule
their_rule = codes "-p" ∷ codes "tcp" ∷ codes "-j" ∷ codes "OTHER" ∷ []

abbrev pub by_flags : Bool → Bool → Option (List Rule)
by_flags true pre = some (their_rule ∷ [])
by_flags false true = some []
by_flags false false = none

abbrev pub boot : Chains
unfolding eq_text
boot c = by_flags (eq_text (codes "OUTPUT") c) (eq_text (codes "PREROUTING") c)

by_flags-IsClear : (out pre : Bool) (l : List Rule) → by_flags out pre ≡ some l → IsClear chains l
unfolding is_ours jumps eq_text prefix_of
by_flags-IsClear true pre l e = subst from e (refl, tt)
  where
    from : Option (List Rule) → Type 0
    from none = Unit
    from (some m) = IsClear chains m
by_flags-IsClear false true l e = subst from e tt
  where
    from : Option (List Rule) → Type 0
    from none = Unit
    from (some m) = IsClear chains m
by_flags-IsClear false false l e = absurd (cc e)

not_builtin :
    (word c : Text) → one_of word chains ≡ false → one_of c chains ≡ true → eq_text word c ≡ false
not_builtin word c builtin own = elim (Bool-cases (eq_text word c)) [
  | inr e ↦ e
  | inl e ↦
      let same : one_of word chains ≡ true =
        subst (λ x. one_of x chains ≡ true) (sym ((eq_text_iff word c).0 e)) own in
      absurd (cc (same, builtin))
]

pub boot_clean : IsBase chains boot
unfolding one_of eq_text prefix_of
boot_clean = record {
  foreign_only =
      λ c l e. by_flags-IsClear (eq_text (codes "OUTPUT") c) (eq_text (codes "PREROUTING") c) l e;
  absent = λ c own.
      rw (not_builtin (codes "OUTPUT") c refl own, not_builtin (codes "PREROUTING") c refl own)
        refl;
}

abbrev runs : List Run
runs =
    applied cfg (codes "192.0.2.7" ∷ [])
    ∷ killed 7 other_cfg []
    ∷ applied other_cfg (codes "192.0.2.7" ∷ codes "" ∷ [])
    ∷ cleaned cfg
    ∷ applied other_cfg []
    ∷ []

perform_all-restores_example :
    same_table (cleanup tool cfg (perform_all tool boot runs)) (codes "OUTPUT")
    ≡ same_table boot (codes "OUTPUT")
unfolding prefix_of ifaces_of
perform_all-restores_example =
    perform_all-restores tool same_table tool_fits cfg boot runs boot_clean
      ((refl, refl), ((refl, refl), ((refl, refl), ((refl, refl), ((refl, refl), tt)))))
      (codes "OUTPUT")

tool_new : (now : Option (List Rule)) → failure true now ≡ none → or_empty now ≡ some []
tool_new none e = refl
tool_new (some l) e = absurd (cc e)

tool_reports : IsReporting tool same_table
unfolding exec argv eq_text changed refusal
tool_reports = record {
  made = λ s chain e. rw (eq_text_refl chain) (tool_new (s chain) e);
  appended = λ s chain r e. rw (eq_text_refl chain) refl;
  inserted = λ s chain r e. rw (eq_text_refl chain) refl;
}

apply-IsInstalled_example :
    IsInstalled tool same_table tool_fits tool_reports cfg
      (codes "192.0.2.7" ∷ [])
      (cleanup tool cfg boot)
      (apply tool cfg (codes "192.0.2.7" ∷ []) boot).0
unfolding errors_of setup_commands cleanup exec argv eq_text changed refusal
apply-IsInstalled_example =
    apply-IsInstalled tool same_table tool_fits tool_reports cfg (codes "192.0.2.7" ∷ []) boot refl

apply-none_iff_example :
    ((apply tool cfg [] boot).1 ≡ none)
    ↔ AreExcused tool (cleanup tool cfg boot) (setup_commands cfg [])
apply-none_iff_example = apply-none_iff tool cfg [] boot
