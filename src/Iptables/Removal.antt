-- ===== src/Iptables/Removal.antt =====
-- Taking away the daemon's chains once no hook is left.
use sshcustom_magisk.Base.{
  ◌≡◌, refl, sym, subst, ◌∙◌, Bool, true, false, List, [], ◌∷◌, Option, none, some, All,
}
use sshcustom_magisk.Text.{Text}
use sshcustom_magisk.Profiles.{one_of}
use sshcustom_magisk.Iptables.{Rule, flush, delete_chain, exec, exec_all, remove_chains}
use sshcustom_magisk.Iptables.Kernel.{Chains, edit, Unreferenced, IsIptables}
use sshcustom_magisk.Iptables.Dressed.{by_name, IsClear}
use sshcustom_magisk.Iptables.Teardown.{Bare, IsBase, jumps_none-All}

edit-none : (f : List Rule → List Rule) (now : Option (List Rule)) → now ≡ none → edit f now ≡ none
edit-none f now e = rw e refl

emptied : (now : Option (List Rule)) → edit (λ _. []) (edit (λ _. []) now) ≡ edit (λ _. []) now
emptied none = refl
emptied (some l) = refl

module _ {K : Type 0} (run : K → Text × List Text → K × Option (Text × Text)) (rules : K → Chains)
    (net : IsIptables run rules) (chains : List Text) (base : Chains)
    (clean : IsBase chains base) where
  abbrev pub IsBare : K → Type 0
  IsBare s = (c : Text) → Bare chains (one_of c chains) (rules s c) (base c)

  Bare-IsClear :
      (own : Bool) (now before : Option (List Rule)) (l : List Rule)
      → Bare chains own now before
      → now ≡ some l
      → ((m : List Rule) → before ≡ some m → IsClear chains m)
      → IsClear chains l
  Bare-IsClear true none before l h e k = absurd (cc e)
  Bare-IsClear true (some m) before l h e k = subst (λ o. Bare chains true o before) e h
  Bare-IsClear false now before l h e k = k l (sym h ∙ e)

  IsBare-Unreferenced :
      (s : K) (chain : Text) → IsBare s → one_of chain chains ≡ true → Unreferenced chain (rules s)
  IsBare-Unreferenced s chain h own c l e =
      jumps_none-All chains chain l own
        (Bare-IsClear (one_of c chains) (rules s c) (base c) l (h c) e (clean.foreign_only c))

  Bare-flush :
      (own : Bool) (now before : Option (List Rule))
      → own ≡ true
      → Bare chains own (edit (λ _. []) now) before
  Bare-flush true none before e = tt
  Bare-flush true (some l) before e = tt
  Bare-flush false now before e = absurd (cc e)

  Bare-gone : (own : Bool) (before : Option (List Rule)) → own ≡ true → Bare chains own none before
  Bare-gone true before e = tt
  Bare-gone false before e = absurd (cc e)

  flush-IsBare :
      (s : K) (chain : Text)
      → one_of chain chains ≡ true
      → IsBare s
      → IsBare (exec run s (flush chain))
  flush-IsBare s chain own h c =
      by_name (λ c'. Bare chains (one_of c' chains) (rules (exec run s (flush chain)) c') (base c'))
        chain c
        (rw (net.flushed s chain)
          (Bare-flush (one_of chain chains) (rules s chain) (base chain) own))
        λ other. rw (net.elsewhere s (flush chain) c other) (h c)

  flush-none :
      (s : K) (chain c : Text) → rules s c ≡ none → rules (exec run s (flush chain)) c ≡ none
  flush-none s chain c =
      by_name (λ c'. rules s c' ≡ none → rules (exec run s (flush chain)) c' ≡ none) chain c
        (λ e. net.flushed s chain ∙ edit-none (λ _. []) (rules s chain) e)
        (λ other e. net.elsewhere s (flush chain) c other ∙ e)

  deleted_chain :
      (s : K) (chain : Text)
      → one_of chain chains ≡ true
      → IsBare s
      → edit (λ _. []) (rules s chain) ≡ rules s chain
      → rules (exec run s (delete_chain chain)) chain ≡ none
  deleted_chain s chain own h empty = net.removed s chain empty (IsBare-Unreferenced s chain h own)

  delete_chain-IsBare :
      (s : K) (chain : Text)
      → one_of chain chains ≡ true
      → IsBare s
      → rules (exec run s (delete_chain chain)) chain ≡ none
      → IsBare (exec run s (delete_chain chain))
  delete_chain-IsBare s chain own h gone c =
      by_name
        (λ c'.
          Bare chains (one_of c' chains) (rules (exec run s (delete_chain chain)) c') (base c'))
        chain c (rw gone (Bare-gone (one_of chain chains) (base chain) own))
        λ other. rw (net.elsewhere s (delete_chain chain) c other) (h c)

  delete_chain-none :
      (s : K) (chain c : Text)
      → rules (exec run s (delete_chain chain)) chain ≡ none
      → rules s c ≡ none
      → rules (exec run s (delete_chain chain)) c ≡ none
  delete_chain-none s chain c gone =
      by_name (λ c'. rules s c' ≡ none → rules (exec run s (delete_chain chain)) c' ≡ none) chain c
        (λ _. gone) (λ other e. net.elsewhere s (delete_chain chain) c other ∙ e)

  -- What the second loop of `Cleanup` leaves.
  pub record IsRemoved (s : K) (names : List Text) (s' : K) : Type 0 where
    pub bare : IsBare s'
    pub still : (c : Text) → rules s c ≡ none → rules s' c ≡ none
    pub gone : All (λ c. rules s' c ≡ none) names

  pub remove_chains-IsRemoved :
      (s : K) (names : List Text)
      → All (λ c. one_of c chains ≡ true) names
      → IsBare s
      → IsRemoved s names (exec_all run s (remove_chains names))
  unfolding remove_chains exec_all
  remove_chains-IsRemoved s [] own h = record { bare = h; still = λ c e. e; gone = tt }
  remove_chains-IsRemoved s (chain ∷ names) own h =
      let s1 : K = exec run s (flush chain) in
      let bare1 = flush-IsBare s chain own.0 h in
      let empty : edit (λ _. []) (rules s1 chain) ≡ rules s1 chain =
        rw (net.flushed s chain) (emptied (rules s chain)) in
      let gone = deleted_chain s1 chain own.0 bare1 empty in
      let later =
        remove_chains-IsRemoved (exec run s1 (delete_chain chain)) names own.1
          (delete_chain-IsBare s1 chain own.0 bare1 gone) in
      record {
        bare = later.bare;
        still = λ c e. later.still c (delete_chain-none s1 chain c gone (flush-none s chain c e));
        gone = (later.still chain gone, later.gone);
      }
