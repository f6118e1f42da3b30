-- ===== src/Iptables/Rules.antt =====
-- Lists of rules: how often a rule stands in one, and the rules that jump to a chain of the daemon.
use sshcustom_magisk.Base.{
  ℕ, suc, ◌+◌, ◌-◌, ◌≡◌, refl, ap, ◌∙◌, subst, Bool, true, false, ◌&&◌, ◌||◌, List, [], ◌∷◌, ◌++◌,
  if◌then◌else◌, Bool-cases, inl, inr, arith, All, ◌↔◌,
}
use sshcustom_magisk.Text.{Text, codes, eq_text}
use sshcustom_magisk.Text.Equality.{eq_text_iff}
use sshcustom_magisk.Iptables.{Rule}

unfoldable pub eq_rule : Rule → Rule → Bool
unfolding eq_text
eq_rule [] [] = true
eq_rule (x ∷ r) (y ∷ q) = eq_text x y && eq_rule r q
eq_rule _ _ = false

pub eq_rule_iff : (r q : Rule) → (eq_rule r q ≡ true) ↔ (r ≡ q)
unfolding eq_rule
eq_rule_iff (x ∷ r) (y ∷ q) = ground (arith, eq_text_iff x y, eq_rule_iff r q)
eq_rule_iff _ _ = ground arith

pub eq_rule_refl : (r : Rule) → eq_rule r r ≡ true
eq_rule_refl r = (eq_rule_iff r r).1 refl

-- The first rule that is equal to the given one is taken out.
unfoldable pub erase : Rule → List Rule → List Rule
unfolding eq_rule
erase d [] = []
erase d (q ∷ l) = let rest = erase d l in if eq_rule d q then l else q ∷ rest

unfoldable pub clear : List Rule → List Rule → List Rule
unfolding erase
clear [] l = l
clear (d ∷ ds) l = clear ds (erase d l)

unfoldable pub count : Rule → List Rule → ℕ
unfolding eq_rule
count r [] = 0
count r (q ∷ l) = let n = count r l in if eq_rule r q then suc n else n

pub count-append : (r : Rule) (xs ys : List Rule) → count r (xs ++ ys) ≡ count r xs + count r ys
unfolding count
count-append r [] ys = omega arith
count-append r (x ∷ xs) ys = elim (Bool-cases (eq_rule r x)) [
  | inl e ↦ rw (e, count-append r xs ys) (omega arith)
  | inr e ↦ rw (e, count-append r xs ys) refl
]

count-erase_same : (d : Rule) (l : List Rule) → count d (erase d l) ≡ count d l - 1
unfolding count erase
count-erase_same d [] = refl
count-erase_same d (q ∷ l) = elim (Bool-cases (eq_rule d q)) [
  | inl e ↦ rw e (omega arith)
  | inr e ↦ rw (e, e) (count-erase_same d l)
]

count-erase_other :
    (r d : Rule) (l : List Rule) → eq_rule r d ≡ false → count r (erase d l) ≡ count r l
unfolding count erase
count-erase_other r d [] h = refl
count-erase_other r d (q ∷ l) h = elim (Bool-cases (eq_rule d q)) [
  | inl e ↦ rw (e, subst (λ x. eq_rule r x ≡ false) ((eq_rule_iff d q).0 e) h) refl
  | inr e ↦ elim (Bool-cases (eq_rule r q)) [
    | inl same ↦ rw (e, same, count-erase_other r d l h) refl
    | inr other ↦ rw (e, other) (count-erase_other r d l h)
  ]
]

pub count-clear : (r : Rule) (ds l : List Rule) → count r (clear ds l) ≡ count r l - count r ds
unfolding clear count
count-clear r [] l = omega arith
count-clear r (d ∷ ds) l = elim (Bool-cases (eq_rule r d)) [
  | inl e ↦
      let once : count r (erase d l) ≡ count r l - 1 =
        subst (λ x. count r (erase x l) ≡ count r l - 1) ((eq_rule_iff r d).0 e)
          (count-erase_same r l) in
      rw (e, count-clear r ds (erase d l), once) (omega arith)
  | inr e ↦ rw (e, count-clear r ds (erase d l), count-erase_other r d l e) refl
]

-- A rule that jumps to a chain.
unfoldable pub jumps : Text → Rule → Bool
unfolding eq_text
jumps chain [] = false
jumps chain (x ∷ []) = false
jumps chain (x ∷ y ∷ r) = (eq_text x (codes "-j") && eq_text y chain) || jumps chain (y ∷ r)

unfoldable pub is_ours : List Text → Rule → Bool
unfolding jumps
is_ours [] r = false
is_ours (chain ∷ chains) r = jumps chain r || is_ours chains r

module _ (chains : List Text) where
  -- The rules of others.
  unfoldable pub foreign : List Rule → List Rule
  unfolding is_ours
  foreign [] = []
  foreign (r ∷ l) = let rest = foreign l in if is_ours chains r then rest else r ∷ rest

  foreign-erase :
      (d : Rule) (l : List Rule) → is_ours chains d ≡ true → foreign (erase d l) ≡ foreign l
  unfolding foreign erase
  foreign-erase d [] h = refl
  foreign-erase d (q ∷ l) h = elim (Bool-cases (eq_rule d q)) [
    | inl e ↦ rw (e, subst (λ x. is_ours chains x ≡ true) ((eq_rule_iff d q).0 e) h) refl
    | inr e ↦ elim (Bool-cases (is_ours chains q)) [
      | inl own ↦ rw (e, own) (foreign-erase d l h)
      | inr other ↦ rw (e, other, foreign-erase d l h) refl
    ]
  ]

  pub foreign-clear :
      (ds l : List Rule) → All (λ d. is_ours chains d ≡ true) ds → foreign (clear ds l) ≡ foreign l
  unfolding clear
  foreign-clear [] l h = refl
  foreign-clear (d ∷ ds) l h = foreign-clear ds (erase d l) h.1 ∙ foreign-erase d l h.0

  -- A list in which no rule of the daemon stands.
  pub foreign_all :
      (l : List Rule) → ((r : Rule) → is_ours chains r ≡ true → count r l ≡ 0) → foreign l ≡ l
  unfolding foreign count
  foreign_all [] h = refl
  foreign_all (q ∷ l) h = elim (Bool-cases (is_ours chains q)) [
    | inl own ↦ absurd (one_more (standing (h q own)))
    | inr other ↦ rw other (ap (λ rest. q ∷ rest) (foreign_all l λ r own. fewer r (h r own)))
  ]
    where
      one_more : {n : ℕ} → suc n ≡ 0 → ⊥
      one_more e = omega arith

      standing : count q (q ∷ l) ≡ 0 → suc (count q l) ≡ 0
      standing e = rw (eq_rule_refl q) at e

      fewer : (r : Rule) → count r (q ∷ l) ≡ 0 → count r l ≡ 0
      fewer r e = elim (Bool-cases (eq_rule r q)) [
        | inl same ↦ absurd (one_more (rw same at e))
        | inr other ↦ rw other at e
      ]

  -- Where no rule of the daemon stands.
  pub foreign_none : (l : List Rule) → All (λ r. is_ours chains r ≡ false) l → foreign l ≡ l
  unfolding foreign
  foreign_none [] h = refl
  foreign_none (q ∷ l) h = rw h.0 (ap (λ rest. q ∷ rest) (foreign_none l h.1))

  pub count_none :
      (r : Rule) (l : List Rule)
      → is_ours chains r ≡ true
      → All (λ q. is_ours chains q ≡ false) l
      → count r l ≡ 0
  unfolding count
  count_none r [] own h = refl
  count_none r (q ∷ l) own h = elim (Bool-cases (eq_rule r q)) [
    | inl e ↦
        let same : is_ours chains q ≡ true =
          subst (λ x. is_ours chains x ≡ true) ((eq_rule_iff r q).0 e) own in
        absurd (cc (same, h.0))
    | inr e ↦ rw e (count_none r l own h.1)
  ]
