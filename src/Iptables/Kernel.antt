-- ===== src/Iptables/Kernel.antt =====
-- What the manual of `iptables` documents of the calls that the daemon makes, on the chains of the
-- nat table, each with its rules or missing.
use sshcustom_magisk.Base.{◌≡◌, ◌⊎◌, Bool, false, List, [], ◌∷◌, ◌++◌, Option, none, some, All}
use sshcustom_magisk.Text.{Text, eq_text}
use sshcustom_magisk.Iptables.{
  Rule, Command, new_chain, flush, delete_chain, append, insert, delete_rule, ip_forward,
  forward_accept, forward_delete, exec, argv,
}
use sshcustom_magisk.Iptables.Rules.{jumps, erase}

abbrev pub Chains : Type 0
Chains = Text → Option (List Rule)

-- What is done to the rules of a chain, if it exists.
abbrev pub edit : (List Rule → List Rule) → Option (List Rule) → Option (List Rule)
edit f none = none
edit f (some l) = some (f l)

-- Whether the call is on the chain.
abbrev pub is_on : Command → Text → Bool
is_on (new_chain chain) c = eq_text chain c
is_on (flush chain) c = eq_text chain c
is_on (delete_chain chain) c = eq_text chain c
is_on (append chain rule) c = eq_text chain c
is_on (insert chain rule) c = eq_text chain c
is_on (delete_rule chain rule) c = eq_text chain c
is_on ip_forward c = false
is_on forward_accept c = false
is_on forward_delete c = false

abbrev pub Unreferenced : Text → Chains → Type 0
Unreferenced chain table =
    (c : Text) (l : List Rule) → table c ≡ some l → All (λ r. jumps chain r ≡ false) l

-- A call changes no chain but the one that it is on. A chain is made, a rule is appended or put
-- first, or the call fails and changes nothing; a chain that exists is not made again. A chain is
-- emptied, the first rule of the given form is deleted, and an empty chain is deleted to which no
-- rule jumps.
pub record IsIptables {K : Type 0} (run : K → Text × List Text → K × Option (Text × Text))
    (rules : K → Chains) : Type 0 where
  pub elsewhere :
      (s : K) (cmd : Command) (c : Text)
      → is_on cmd c ≡ false
      → rules (exec run s cmd) c ≡ rules s c
  pub made :
      (s : K) (chain : Text)
      → rules s chain ≡ none
      → (rules (exec run s (new_chain chain)) chain ≡ none)
        ⊎ (rules (exec run s (new_chain chain)) chain ≡ some [])
  pub kept :
      (s : K) (chain : Text) (l : List Rule)
      → rules s chain ≡ some l
      → rules (exec run s (new_chain chain)) chain ≡ some l
  pub flushed :
      (s : K) (chain : Text)
      → rules (exec run s (flush chain)) chain ≡ edit (λ _. []) (rules s chain)
  pub appended :
      (s : K) (chain : Text) (r : Rule)
      → (rules (exec run s (append chain r)) chain ≡ rules s chain)
        ⊎ (rules (exec run s (append chain r)) chain ≡ edit (λ l. l ++ (r ∷ [])) (rules s chain))
  pub inserted :
      (s : K) (chain : Text) (r : Rule)
      → (rules (exec run s (insert chain r)) chain ≡ rules s chain)
        ⊎ (rules (exec run s (insert chain r)) chain ≡ edit (λ l. r ∷ l) (rules s chain))
  pub deleted :
      (s : K) (chain : Text) (r : Rule)
      → rules (exec run s (delete_rule chain r)) chain ≡ edit (erase r) (rules s chain)
  pub removed :
      (s : K) (chain : Text)
      → edit (λ _. []) (rules s chain) ≡ rules s chain
      → Unreferenced chain (rules s)
      → rules (exec run s (delete_chain chain)) chain ≡ none

-- A call that answers no error has done what it is for.
pub record IsReporting {K : Type 0} (run : K → Text × List Text → K × Option (Text × Text))
    (rules : K → Chains) : Type 0 where
  pub made :
      (s : K) (chain : Text)
      → (run s (argv (new_chain chain))).1 ≡ none
      → rules (exec run s (new_chain chain)) chain ≡ some []
  pub appended :
      (s : K) (chain : Text) (r : Rule)
      → (run s (argv (append chain r))).1 ≡ none
      → rules (exec run s (append chain r)) chain ≡ edit (λ l. l ++ (r ∷ [])) (rules s chain)
  pub inserted :
      (s : K) (chain : Text) (r : Rule)
      → (run s (argv (insert chain r))).1 ≡ none
      → rules (exec run s (insert chain r)) chain ≡ edit (λ l. r ∷ l) (rules s chain)
