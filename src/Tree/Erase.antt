-- ===== src/Tree/Erase.antt =====
-- What `_duplicateQry` compares: the trees without distances and weights.
use qry_eval_plus.Prelude.{
  Bool, [], ap, arith, false, refl, suc, sym, true, zero, ℕ, ◌&&◌, ◌==◌, ◌↔◌, ◌∙◌, ◌≡◌,
}
use text.Mathlib.Text.{◌==◌ as str_eq}
use text.Mathlib.TextEquality.{eq_iff}
use qry_eval_plus.Text.{pos}
use qry_eval_plus.Tree.{
  Operator, near, window, syn, or_, and_, score, sum, wsum, Qry, term, node, Args, nil, cons,
  class_of, count_args, duplicate, all_duplicate,
}

-- The class of an operator.
abbrev pub erase_operator : Operator → Operator
erase_operator (near n) = near (pos 0)
erase_operator (window n) = window (pos 0)
erase_operator (wsum ws) = wsum []
erase_operator op = op

unfoldable mutual
  -- A tree without distances and weights.
  pub erase : Qry → Qry
  erase (term name field) = term name field
  erase (node op args) = node (erase_operator op) (erase_args args)

  pub erase_args : Args → Args
  erase_args nil = nil
  erase_args (cons q qs) = cons (erase q) (erase_args qs)

abbrev of_class : ℕ → Operator
of_class zero = near (pos 0)
of_class (suc zero) = window (pos 0)
of_class (suc (suc zero)) = syn
of_class (suc (suc (suc zero))) = or_
of_class (suc (suc (suc (suc zero)))) = and_
of_class (suc (suc (suc (suc (suc zero))))) = score
of_class (suc (suc (suc (suc (suc (suc zero)))))) = sum
of_class (suc (suc (suc (suc (suc (suc (suc n))))))) = wsum []

class_of-erase : (o p : Operator) → class_of o ≡ class_of p → erase_operator o ≡ erase_operator p
class_of-erase o p e = sym (back o) ∙ ap of_class e ∙ back p
  where
    back : (o : Operator) → of_class (class_of o) ≡ erase_operator o
    back (near n) = refl
    back (window n) = refl
    back syn = refl
    back or_ = refl
    back and_ = refl
    back score = refl
    back sum = refl
    back (wsum ws) = refl

erase-class_of : (o p : Operator) → erase_operator o ≡ erase_operator p → class_of o ≡ class_of p
erase-class_of o p e = sym (back o) ∙ ap class_of e ∙ back p
  where
    back : (o : Operator) → class_of (erase_operator o) ≡ class_of o
    back (near n) = refl
    back (window n) = refl
    back syn = refl
    back or_ = refl
    back and_ = refl
    back score = refl
    back sum = refl
    back (wsum ws) = refl

and_split : (a b : Bool) → (a && b) ≡ true → (a ≡ true) × (b ≡ true)
and_split true true e = (refl, refl)
and_split true false e = cc
and_split false b e = cc

erase_args-count : (ps : Args) → count_args (erase_args ps) ≡ count_args ps
unfolding erase_args
erase_args-count nil = refl
erase_args-count (cons q qs) = ap suc (erase_args-count qs)

mutual
  unfolding duplicate erase all_duplicate erase_args

  duplicate→erase : (p q : Qry) → duplicate p q ≡ true → erase p ≡ erase q
  duplicate→erase (term a f) (term b g) e =
      let (same, field) = and_split (str_eq a b) (str_eq f g) e in
      ap (λ x. term x f) ((eq_iff a b).0 same) ∙ ap (term b) ((eq_iff f g).0 field)
  duplicate→erase (term a f) (node o qs) e = cc
  duplicate→erase (node o ps) (term a f) e = cc
  duplicate→erase (node o ps) (node p qs) e =
      let (kind, more) = and_split (class_of o == class_of p) _ e in
      let (len, same) = and_split (count_args ps == count_args qs) _ more in
      ap (λ x. node x (erase_args ps)) (class_of-erase o p (ground arith))
      ∙ ap (node (erase_operator p)) (all_duplicate→erase ps qs (ground arith) same)

  all_duplicate→erase :
      (ps qs : Args)
      → count_args ps ≡ count_args qs
      → all_duplicate ps qs ≡ true
      → erase_args ps ≡ erase_args qs
  all_duplicate→erase nil nil len e = refl
  all_duplicate→erase nil (cons q qs) len e = absurd (omega arith)
  all_duplicate→erase (cons p ps) nil len e = absurd (omega arith)
  all_duplicate→erase (cons p ps) (cons q qs) len e =
      let (here, there) = and_split (duplicate p q) (all_duplicate ps qs) e in
      ap (λ x. cons x (erase_args ps)) (duplicate→erase p q here)
      ∙ ap (cons (erase q)) (all_duplicate→erase ps qs (omega arith) there)

and_join : (a b : Bool) → a ≡ true → b ≡ true → (a && b) ≡ true
and_join a b e f = rw (e, f)

mutual
  unfolding duplicate erase

  erase→duplicate : (p q : Qry) → erase p ≡ erase q → duplicate p q ≡ true
  erase→duplicate (term a f) (term b g) e =
      and_join (str_eq a b) (str_eq f g) ((eq_iff a b).1 cc) ((eq_iff f g).1 cc)
  erase→duplicate (term a f) (node o qs) e = cc
  erase→duplicate (node o ps) (term a f) e = cc
  erase→duplicate (node o ps) (node p qs) e =
      let kinds : erase_operator o ≡ erase_operator p = cc in
      let rest : erase_args ps ≡ erase_args qs = cc in
      let kind = erase-class_of o p kinds in
      let len : count_args ps ≡ count_args qs =
        sym (erase_args-count ps) ∙ ap count_args rest ∙ erase_args-count qs in
      and_join (class_of o == class_of p) _ (ground arith) (
        and_join (count_args ps == count_args qs) _ (ground arith) (erase→all_duplicate ps qs rest))

  erase→all_duplicate : (ps qs : Args) → erase_args ps ≡ erase_args qs → all_duplicate ps qs ≡ true
  erase→all_duplicate nil qs e = refl
  erase→all_duplicate (cons p ps) nil e = refl
  erase→all_duplicate (cons p ps) (cons q qs) e =
      and_join (duplicate p q) (all_duplicate ps qs) (erase→duplicate p q cc)
        (erase→all_duplicate ps qs cc)

-- Two queries count as duplicates exactly if they are the same tree up to distances and weights.
pub duplicate-erase : (p q : Qry) → (duplicate p q ≡ true) ↔ (erase p ≡ erase q)
duplicate-erase p q = (duplicate→erase p q, erase→duplicate p q)
