-- ===== src/Iptables/Dressed.antt =====
-- A nat table that differs from a given one by the daemon's chains and hooks.
use sshcustom_magisk.Base.{
  ◌≤◌, ◌≡◌, subst, inl, inr, Bool, true, false, List, [], ◌∷◌, ◌++◌, Option, none, some,
  if◌then◌else◌, Bool-cases, arith, All,
}
use sshcustom_magisk.Text.{Text, eq_text}
use sshcustom_magisk.Text.Equality.{eq_text_iff}
use sshcustom_magisk.Profiles.{one_of}
use sshcustom_magisk.Iptables.{
  Rule, Command, new_chain, flush, delete_chain, append, insert, delete_rule,
}
use sshcustom_magisk.Iptables.Rules.{eq_rule, count, is_ours, foreign}
use sshcustom_magisk.Iptables.Kernel.{edit}

-- By cases on whether two names are the same.
pub by_name : (P : Text → Type 0) (chain c : Text) → P chain → (eq_text chain c ≡ false → P c) → P c
by_name P chain c here there = elim (Bool-cases (eq_text chain c)) [
  | inl e ↦ subst P ((eq_text_iff chain c).0 e) here
  | inr e ↦ there e
]

-- The rules that commands put first in a chain, in front of others.
abbrev pub put : Text → Command → List Rule → List Rule
put c (insert chain r) ds = if eq_text chain c then r ∷ ds else ds
put c _ ds = ds

unfoldable pub placed : Text → List Command → List Rule → List Rule
unfolding eq_text
placed c [] ds = ds
placed c (cmd ∷ cmds) ds = placed c cmds (put c cmd ds)

module _ (chains : List Text) where
  abbrev pub IsClear : List Rule → Type 0
  IsClear l = All (λ r. is_ours chains r ≡ false) l

  -- A chain of the daemon jumps to none of them. Any other has the rules that it had, and among
  -- them none of the daemon's but those given, none of which more often.
  abbrev pub Fits : Bool → List Rule → Option (List Rule) → Option (List Rule) → Type 0
  Fits true ds none before = Unit
  Fits true ds (some l) before = IsClear l
  Fits false ds none none = Unit
  Fits false ds (some l) (some b) =
      (foreign chains l ≡ b) × ((r : Rule) → is_ours chains r ≡ true → count r l ≤ count r ds)
  Fits false ds _ _ = ⊥

  pub Fits-flush :
      (ds : List Rule) (now before : Option (List Rule))
      → Fits true ds now before
      → Fits true ds (edit (λ _. []) now) before
  Fits-flush ds none before h = tt
  Fits-flush ds (some l) before h = tt

  IsClear-append_one :
      (l : List Rule) (r : Rule) → IsClear l → is_ours chains r ≡ false → IsClear (l ++ (r ∷ []))
  IsClear-append_one [] r h other = (other, tt)
  IsClear-append_one (q ∷ l) r h other = (h.0, IsClear-append_one l r h.1 other)

  pub Fits-append :
      (ds : List Rule) (r : Rule) (now before : Option (List Rule))
      → is_ours chains r ≡ false
      → Fits true ds now before
      → Fits true ds (edit (λ l. l ++ (r ∷ [])) now) before
  Fits-append ds r none before other h = tt
  Fits-append ds r (some l) before other h = IsClear-append_one l r h other

  count-more : (q r : Rule) (ds : List Rule) → count q ds ≤ count q (r ∷ ds)
  unfolding count
  count-more q r ds = elim (Bool-cases (eq_rule q r)) [
    | inl e ↦ rw e (omega arith)
    | inr e ↦ rw e (omega arith)
  ]

  count-both :
      (q r : Rule) (l ds : List Rule) → count q l ≤ count q ds → count q (r ∷ l) ≤ count q (r ∷ ds)
  unfolding count
  count-both q r l ds h = elim (Bool-cases (eq_rule q r)) [
    | inl e ↦ rw e (omega arith)
    | inr e ↦ rw e h
  ]

  pub Fits-more :
      (ds : List Rule) (r : Rule) (now before : Option (List Rule))
      → Fits false ds now before
      → Fits false (r ∷ ds) now before
  Fits-more ds r none none h = tt
  Fits-more ds r none (some b) h = elim h [ ]
  Fits-more ds r (some l) none h = elim h [ ]
  Fits-more ds r (some l) (some b) h =
      (h.0, λ q own. let here = h.1 q own in let more = count-more q r ds in omega arith)

  pub Fits-insert :
      (ds : List Rule) (r : Rule) (now before : Option (List Rule))
      → is_ours chains r ≡ true
      → Fits false ds now before
      → Fits false (r ∷ ds) (edit (λ l. r ∷ l) now) before
  unfolding foreign
  Fits-insert ds r none none own h = tt
  Fits-insert ds r none (some b) own h = elim h [ ]
  Fits-insert ds r (some l) none own h = elim h [ ]
  Fits-insert ds r (some l) (some b) own h =
      (rw own h.0, λ q mine. count-both q r l ds (h.1 q mine))

  -- What a command that sets up the daemon's chains may be.
  abbrev pub IsSetup : Command → Type 0
  IsSetup (new_chain chain) = one_of chain chains ≡ true
  IsSetup (flush chain) = one_of chain chains ≡ true
  IsSetup (append chain r) = (one_of chain chains ≡ true) × (is_ours chains r ≡ false)
  IsSetup (insert chain r) = (one_of chain chains ≡ false) × (is_ours chains r ≡ true)
  IsSetup (delete_chain chain) = ⊥
  IsSetup (delete_rule chain r) = ⊥
  IsSetup _ = Unit
