-- ===== src/Iptables/Restore.antt =====
-- `Cleanup` behind any number of runs of `Apply` and `Cleanup`, complete or broken off.
use sshcustom_magisk.Base.{
  ℕ, suc, zero, ◌≤◌, ◌≡◌, refl, sym, ap, ◌∙◌, subst, Bool, true, false, List, [], ◌∷◌, ◌++◌, Option,
  none, some, Bool-cases, inl, inr, All, arith, take,
}
use sshcustom_magisk.Text.{Text, eq_text}
use sshcustom_magisk.Text.Equality.{eq_text_iff}
use sshcustom_magisk.Profiles.{one_of}
use sshcustom_magisk.Iptables.{
  Config, Rule, Command, forward_delete, exec_all, all_legacy_chains, detach, remove_chains,
  setup_commands, cleanup_commands, prefix_of, ifaces_of, cleanup, apply,
}
use sshcustom_magisk.Iptables.Runs.{
  Run, applied, killed, cleaned, IsAlike, IsFor, perform, perform_all, exec_all-append,
}
use sshcustom_magisk.Iptables.Rules.{count, foreign_none, count_none}
use sshcustom_magisk.Iptables.Kernel.{Chains, IsIptables}
use sshcustom_magisk.Iptables.Dressed.{Fits, IsClear, IsSetup, placed}
use sshcustom_magisk.Iptables.Setup.{IsDressed, setups-IsDressed}
use sshcustom_magisk.Iptables.Teardown.{
  aimed, aimed_ours, aimed_own, Bare, IsBase, Fits-Bare, IsDetach, detached,
}
use sshcustom_magisk.Iptables.Removal.{IsBare, IsRemoved, remove_chains-IsRemoved}
use sshcustom_magisk.Iptables.Hooks.{All-IsOwn, detach-IsDetach, setup_commands-IsSetup}
use sshcustom_magisk.Iptables.Covered.{placed-take, setup_commands-covered}

All-find :
    (P : Text → Type 0) (c : Text) (names : List Text) → All P names → one_of c names ≡ true → P c
unfolding one_of
All-find P c [] h own = absurd (cc own)
All-find P c (name ∷ names) h own = elim (Bool-cases (eq_text name c)) [
  | inl e ↦ subst P ((eq_text_iff name c).0 e) h.0
  | inr e ↦ All-find P c names h.1 (rw e at own)
]

All-take {ℓ κ} : {A : Type ℓ} (P : A → Type κ) (n : ℕ) (xs : List A) → All P xs → All P (take n xs)
All-take P zero xs h = tt
All-take P (suc n) [] h = tt
All-take P (suc n) (x ∷ xs) h = (h.0, All-take P n xs h.1)

module _ {K : Type 0} (run : K → Text × List Text → K × Option (Text × Text)) (rules : K → Chains)
    (net : IsIptables run rules) (cfg : Config) (base : Chains)
    (clean : IsBase (all_legacy_chains (prefix_of cfg)) base) where
  abbrev chains : List Text
  chains = all_legacy_chains (prefix_of cfg)

  abbrev hooks : List Command
  hooks = detach (ifaces_of cfg) chains

  -- Among the rules there are hooks of the daemon's at most as often as `Cleanup` deletes them.
  abbrev IsWorn : K → Type 0
  IsWorn = IsDressed run rules net chains base (λ c. aimed c hooks)

  abbrev IsRestored : K → Type 0
  IsRestored s = (c : Text) → rules s c ≡ base c

  hooks-IsDetach : All (IsDetach chains) hooks
  hooks-IsDetach =
      detach-IsDetach (prefix_of cfg) (ifaces_of cfg) chains (All-IsOwn (prefix_of cfg))

  detached-IsBare :
      (s : K) → IsWorn s → IsBare run rules net chains base clean (exec_all run s hooks)
  detached-IsBare s h c = rw (detached chains run rules net s hooks c hooks-IsDetach) (
      Fits-Bare chains (one_of c chains) (aimed c hooks) (aimed c hooks) (rules s c) (base c) (h c)
        (λ r own. omega arith) (aimed_ours chains c hooks hooks-IsDetach)
        (aimed_own chains c hooks hooks-IsDetach))

  Bare-rules :
      (own : Bool) (now before : Option (List Rule))
      → Bare chains own now before
      → (own ≡ true → now ≡ none)
      → (own ≡ true → before ≡ none)
      → now ≡ before
  Bare-rules true now before h gone absent = gone refl ∙ sym (absent refl)
  Bare-rules false now before h gone absent = h

  removed-IsRestored :
      (s s' : K) → IsRemoved run rules net chains base clean s chains s' → IsRestored s'
  removed-IsRestored s s' h c =
      Bare-rules (one_of c chains) (rules s' c) (base c) (h.bare c)
        (All-find (λ x. rules s' x ≡ none) c chains h.gone) (clean.absent c)

  cleanup-IsRestored : (s : K) → IsWorn s → IsRestored (cleanup run cfg s)
  unfolding cleanup cleanup_commands exec_all
  cleanup-IsRestored s h c =
      let detached = exec_all run s hooks in
      let removed = exec_all run detached (remove_chains chains) in
      ap (λ s'. rules s' c)
        (exec_all-append run s hooks (remove_chains chains ++ (forward_delete ∷ []))
          ∙ exec_all-append run detached (remove_chains chains) (forward_delete ∷ []))
      ∙ net.elsewhere removed forward_delete c refl
      ∙ removed-IsRestored detached removed
          (remove_chains-IsRemoved run rules net chains base clean detached chains
            (All-IsOwn (prefix_of cfg)) (detached-IsBare s h))
          c

  base-Fits :
      (own : Bool) (ds : List Rule) (before : Option (List Rule))
      → (own ≡ true → before ≡ none)
      → ((l : List Rule) → before ≡ some l → IsClear chains l)
      → Fits chains own ds before before
  base-Fits true ds none absent k = tt
  base-Fits true ds (some l) absent k = k l refl
  base-Fits false ds none absent k = tt
  base-Fits false ds (some l) absent k = (
    foreign_none chains l (k l refl),
    λ r own. let zero_times = count_none chains r l own (k l refl) in omega arith,
  )

  restored-IsDressed :
      (ds : Text → List Rule) (s : K) → IsRestored s → IsDressed run rules net chains base ds s
  restored-IsDressed ds s h c =
      rw (h c) (base-Fits (one_of c chains) (ds c) (base c) (clean.absent c) (clean.foreign_only c))

  Fits-mono :
      (own : Bool) (ds more : List Rule) (now before : Option (List Rule))
      → ((r : Rule) → count r ds ≤ count r more)
      → Fits chains own ds now before
      → Fits chains own more now before
  Fits-mono true ds more none before k h = tt
  Fits-mono true ds more (some l) before k h = h
  Fits-mono false ds more none none k h = tt
  Fits-mono false ds more (some l) (some b) k h =
      (h.0, λ r own. let here = h.1 r own in let there = k r in omega arith)
  Fits-mono false ds more none (some b) k h = elim h [ ]
  Fits-mono false ds more (some l) none k h = elim h [ ]

  setup-IsWorn :
      (cmds : List Command) (s : K)
      → All (IsSetup chains) cmds
      → ((r : Rule) (c : Text) → count r (placed c cmds []) ≤ count r (aimed c hooks))
      → IsRestored s
      → IsWorn (exec_all run s cmds)
  setup-IsWorn cmds s setup covered h c =
      Fits-mono (one_of c chains) (placed c cmds []) (aimed c hooks) _ (base c) (λ r. covered r c)
        (setups-IsDressed run rules net chains base (λ _. []) s cmds setup
          (restored-IsDressed (λ _. []) s h) c)

  cleanup-alike :
      (other : Config) (s : K) → IsAlike cfg other → cleanup run other s ≡ cleanup run cfg s
  unfolding cleanup cleanup_commands
  cleanup-alike other s alike =
      ap (λ prefix. exec_all run s (commands prefix (ifaces_of other))) alike.0
      ∙ ap (λ ifaces. exec_all run s (commands (prefix_of cfg) ifaces)) alike.1
    where
      commands : Text → List Text → List Command
      commands prefix ifaces =
          detach ifaces (all_legacy_chains prefix)
          ++ (remove_chains (all_legacy_chains prefix) ++ (forward_delete ∷ []))

  IsSetup-alike :
      (other : Config) (ips : List Text)
      → IsAlike cfg other
      → All (IsSetup chains) (setup_commands other ips)
  IsSetup-alike other ips alike =
      subst (λ prefix. All (IsSetup (all_legacy_chains prefix)) (setup_commands other ips)) alike.0
        (setup_commands-IsSetup other ips)

  covered-alike :
      (other : Config) (ips : List Text) (r : Rule) (c : Text)
      → IsAlike cfg other
      → count r (placed c (setup_commands other ips) []) ≤ count r (aimed c hooks)
  covered-alike other ips r c alike =
      let own = setup_commands-covered r c other ips in
      let same : aimed c (detach (ifaces_of other) (all_legacy_chains (prefix_of other)))
          ≡ aimed c hooks =
        rw (alike.0, alike.1) refl in
      let number = ap (count r) same in omega arith

  cleaned-IsRestored :
      (other : Config) (s : K) → IsAlike cfg other → IsWorn s → IsRestored (cleanup run other s)
  cleaned-IsRestored other s alike h c =
      ap (λ s'. rules s' c) (cleanup-alike other s alike) ∙ cleanup-IsRestored s h c

  perform-IsWorn : (s : K) (r : Run) → IsFor cfg r → IsWorn s → IsWorn (perform run s r)
  unfolding perform apply
  perform-IsWorn s (applied other ips) alike h =
      setup-IsWorn (setup_commands other ips) (cleanup run other s) (IsSetup-alike other ips alike)
        (λ r c. covered-alike other ips r c alike) (cleaned-IsRestored other s alike h)
  perform-IsWorn s (killed n other ips) alike h =
      setup-IsWorn (take n (setup_commands other ips)) (cleanup run other s)
        (All-take (IsSetup chains) n (setup_commands other ips) (IsSetup-alike other ips alike))
        (λ r c.
          let part = placed-take r c n (setup_commands other ips) [] in
          let whole = covered-alike other ips r c alike in omega arith)
        (cleaned-IsRestored other s alike h)
  perform-IsWorn s (cleaned other) alike h =
      restored-IsDressed (λ c. aimed c hooks) (cleanup run other s)
        (cleaned-IsRestored other s alike h)

  performed-IsWorn :
      (s : K) (runs : List Run) → All (IsFor cfg) runs → IsWorn s → IsWorn (perform_all run s runs)
  unfolding perform_all
  performed-IsWorn s [] alike h = h
  performed-IsWorn s (r ∷ runs) alike h =
      performed-IsWorn (perform run s r) runs alike.1 (perform-IsWorn s r alike.0 h)

  pub cleanup-restores :
      (s : K) (runs : List Run)
      → All (IsFor cfg) runs
      → IsRestored s
      → IsRestored (cleanup run cfg (perform_all run s runs))
  cleanup-restores s runs alike h =
      cleanup-IsRestored (perform_all run s runs)
        (performed-IsWorn s runs alike (restored-IsDressed (λ c. aimed c hooks) s h))

-- The chains of the nat table are left as they were, each with the same rules, where the daemon had
-- nothing in the table before, by an `iptables` that does what its manual says: `Cleanup` behind
-- any runs of `Apply` and `Cleanup` takes away all that they have put in, even if some of the calls
-- that make chains and rules failed and if runs of `Apply` were broken off. The ports, the hotspot
-- and the bypass addresses may differ from run to run, the prefix and the interfaces may not.
pub perform_all-restores :
    {K : Type 0} (run : K → Text × List Text → K × Option (Text × Text)) (rules : K → Chains)
    → IsIptables run rules
    → (cfg : Config) (s : K) (runs : List Run)
    → IsBase (all_legacy_chains (prefix_of cfg)) (rules s)
    → All (IsFor cfg) runs
    → (c : Text) → rules (cleanup run cfg (perform_all run s runs)) c ≡ rules s c
perform_all-restores run rules net cfg s runs clean alike =
    cleanup-restores run rules net cfg (rules s) clean s runs alike λ c. refl
