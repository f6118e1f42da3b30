-- ===== src/Iptables/Setup.antt =====
-- Setting up the daemon's chains and hooks.
use sshcustom_magisk.Base.{
  ◌≡◌, refl, ◌∙◌, inl, inr, Bool, true, false, List, [], ◌∷◌, Option, none, some, All,
}
use sshcustom_magisk.Text.{Text, eq_text}
use sshcustom_magisk.Text.Equality.{eq_text_refl}
use sshcustom_magisk.Profiles.{one_of}
use sshcustom_magisk.Iptables.{
  Rule, Command, new_chain, flush, delete_chain, append, insert, delete_rule, ip_forward,
  forward_accept, forward_delete, exec, exec_all,
}
use sshcustom_magisk.Iptables.Kernel.{Chains, is_on, IsIptables}
use sshcustom_magisk.Iptables.Dressed.{
  by_name, put, placed, Fits, Fits-flush, Fits-append, Fits-more, Fits-insert, IsSetup,
}

module _ {K : Type 0} (run : K → Text × List Text → K × Option (Text × Text)) (rules : K → Chains)
    (net : IsIptables run rules) (chains : List Text) (base : Chains) where
  -- The table differs from `base` by the daemon's chains and at most the given hooks.
  abbrev pub IsDressed : (Text → List Rule) → K → Type 0
  IsDressed ds s = (c : Text) → Fits chains (one_of c chains) (ds c) (rules s c) (base c)

  -- What stands behind a command on the chain `chain`, where only that chain is to be looked at.
  on_chain :
      (ds : Text → List Rule) (s : K) (cmd : Command) (chain : Text)
      → ((c : Text) → is_on cmd c ≡ eq_text chain c)
      → ((c : Text) → eq_text chain c ≡ false → put c cmd (ds c) ≡ ds c)
      → IsDressed ds s
      → Fits chains
          (one_of chain chains)
          (put chain cmd (ds chain))
          (rules (exec run s cmd) chain)
          (base chain)
      → IsDressed (λ c. put c cmd (ds c)) (exec run s cmd)
  on_chain ds s cmd chain on same h here c =
      by_name
        (λ c'.
          Fits chains (one_of c' chains) (put c' cmd (ds c')) (rules (exec run s cmd) c') (base c'))
        chain c here λ other. rw (same c other, net.elsewhere s cmd c (on c ∙ other)) (h c)

  as_own :
      (own : Bool) (ds : List Rule) (chain : Text) (now before : Option (List Rule))
      → one_of chain chains ≡ own
      → Fits chains (one_of chain chains) ds now before
      → Fits chains own ds now before
  as_own own ds chain now before e h = rw e at h

  own-Fits :
      (ds : List Rule) (chain : Text) (now before : Option (List Rule))
      → one_of chain chains ≡ true
      → Fits chains true ds now before
      → Fits chains (one_of chain chains) ds now before
  own-Fits ds chain now before own h = rw own h

  new_chain-Fits :
      (ds : List Rule) (s : K) (chain : Text) (before : Option (List Rule))
      (now : Option (List Rule))
      → rules s chain ≡ now
      → Fits chains true ds now before
      → Fits chains true ds (rules (exec run s (new_chain chain)) chain) before
  new_chain-Fits ds s chain before none e h = elim (net.made s chain e) [
    | inl missing ↦ rw missing tt
    | inr empty ↦ rw empty tt
  ]
  new_chain-Fits ds s chain before (some l) e h = rw (net.kept s chain l e) h

  setup-IsDressed :
      (ds : Text → List Rule) (s : K) (cmd : Command)
      → IsSetup chains cmd
      → IsDressed ds s
      → IsDressed (λ c. put c cmd (ds c)) (exec run s cmd)
  setup-IsDressed ds s (new_chain chain) own h =
      on_chain ds s (new_chain chain) chain (λ c. refl) (λ c _. refl) h
        (own-Fits (ds chain) chain _ _ own (
          new_chain-Fits (ds chain) s chain _ (rules s chain) refl
            (as_own true (ds chain) chain _ _ own (h chain))))
  setup-IsDressed ds s (flush chain) own h =
      on_chain ds s (flush chain) chain (λ c. refl) (λ c _. refl) h
        (own-Fits (ds chain) chain _ _ own (
          rw (net.flushed s chain)
            (Fits-flush chains (ds chain) _ _ (as_own true (ds chain) chain _ _ own (h chain)))))
  setup-IsDressed ds s (append chain r) (own, other) h =
      let before = as_own true (ds chain) chain _ _ own (h chain) in
      on_chain ds s (append chain r) chain (λ c. refl) (λ c _. refl) h
        (own-Fits (ds chain) chain _ _ own (elim (net.appended s chain r) [
          | inl failed ↦ rw failed before
          | inr done ↦ rw done (Fits-append chains (ds chain) r _ _ other before)
        ]))
  setup-IsDressed ds s (insert chain r) (builtin, own) h =
      let before : Fits chains false (ds chain) (rules s chain) (base chain) =
        as_own false (ds chain) chain _ _ builtin (h chain) in
      on_chain ds s (insert chain r) chain (λ c. refl) (λ c other. rw other refl) h
        (rw (builtin, eq_text_refl chain)
          (elim (net.inserted s chain r) [
            | inl failed ↦ rw failed (Fits-more chains (ds chain) r _ _ before)
            | inr done ↦ rw done (Fits-insert chains (ds chain) r _ _ own before)
          ]))
  setup-IsDressed ds s ip_forward _ h = λ c. rw (net.elsewhere s ip_forward c refl) (h c)
  setup-IsDressed ds s forward_accept _ h = λ c. rw (net.elsewhere s forward_accept c refl) (h c)
  setup-IsDressed ds s forward_delete _ h = λ c. rw (net.elsewhere s forward_delete c refl) (h c)
  setup-IsDressed ds s (delete_chain chain) bad h = elim bad [ ]
  setup-IsDressed ds s (delete_rule chain r) bad h = elim bad [ ]

  pub setups-IsDressed :
      (ds : Text → List Rule) (s : K) (cmds : List Command)
      → All (IsSetup chains) cmds
      → IsDressed ds s
      → IsDressed (λ c. placed c cmds (ds c)) (exec_all run s cmds)
  unfolding exec_all placed
  setups-IsDressed ds s [] _ h = h
  setups-IsDressed ds s (cmd ∷ cmds) ok h =
      setups-IsDressed (λ c. put c cmd (ds c)) (exec run s cmd) cmds ok.1
        (setup-IsDressed ds s cmd ok.0 h)
