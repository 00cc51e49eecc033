-- ===== src/Tree.antt =====
-- The query tree and its optimizer: src/qryeval_plus/query/Qry.py (appendArg, delArg) and
-- src/qryeval_plus/query/QryParser.py (_duplicateQry, _optimizeSumToWsum, optimizeQuery). Display
-- names are left out, and the field of an operator is read off its first argument. A raised
-- exception is `none`; an optimized query that is gone, None in the source, is `none` too.
pub mod Erase
pub mod Weigh
pub mod Lean
pub mod Typed
pub mod Weights
mod Tests
use qry_eval_plus.Prelude.{
  Bool, List, Option, [], false, if◌then◌else◌, map, none, some, suc, true, ℕ, ◌&&◌, ◌++◌, ◌+◌,
  ◌==◌, ◌∷◌, ◌||◌,
}
use Prim.Native.String.{String}
use qry_eval_plus.Text.{ℤ}
use text.Mathlib.Text.{◌==◌ as str_eq}

-- A weight that the parser read, or that the optimizer counted.
pub data Weight : Type 0 where
  parsed : String → Weight
  counted : ℕ → Weight

pub data Operator : Type 0 where
  near window : ℤ → Operator
  syn or_ and_ score sum : Operator
  wsum : List Weight → Operator

mutual
  pub data Qry : Type 0 where
    term : (name field : String) → Qry
    node : Operator → Args → Qry

  pub data Args : Type 0 where
    nil : Args
    cons : Qry → Args → Args

unfoldable pub snoc : Args → Qry → Args
snoc nil q = cons q nil
snoc (cons p ps) q = cons p (snoc ps q)

unfoldable pub items : Args → List Qry
items nil = []
items (cons q qs) = q ∷ items qs

-- The operators of class `QryIop`.
abbrev pub is_iop_operator : Operator → Bool
is_iop_operator (near n) = true
is_iop_operator (window n) = true
is_iop_operator syn = true
is_iop_operator _ = false

abbrev pub is_iop : Qry → Bool
is_iop (term name field) = true
is_iop (node op args) = is_iop_operator op

-- `_field`, which an operator takes from its first argument.
unfoldable pub field_of : Qry → Option String
field_of (term name field) = some field
field_of (node op nil) = none
field_of (node op (cons q qs)) = if is_iop_operator op then field_of q else none

abbrev pub same_field : Option String → Option String → Bool
same_field (some f) (some g) = str_eq f g
same_field none none = true
same_field _ _ = false

-- `QrySopWsum.appendArg` stores a weight with the argument.
abbrev pub add_weight : Operator → Weight → Operator
add_weight (wsum ws) w = wsum (ws ++ w ∷ [])
add_weight op w = op

-- A SCORE operator goes between a score operator and an inverted-list argument.
abbrev pub scored : Qry → Qry
scored q = if is_iop q then node score (cons q nil) else q

abbrev append_iop : Operator → Args → Qry → Option Qry
append_iop op nil q = if is_iop q then some (node op (cons q nil)) else none
append_iop op (cons p ps) q =
    if is_iop q && same_field (field_of p) (field_of q)
    then some (node op (snoc (cons p ps) q))
    else none

abbrev append_score : Args → Qry → Option Qry
append_score nil q = if is_iop q then some (node score (cons q nil)) else none
append_score (cons p ps) q = none

unfoldable pub append_arg : Qry → Weight → Qry → Option Qry
unfolding field_of snoc
append_arg (term name field) w q = none
append_arg (node score args) w q = append_score args q
append_arg (node op args) w q =
    if is_iop_operator op
    then append_iop op args q
    else some (node (add_weight op w) (snoc args (scored q)))

-- A number for the class of an operator.
abbrev pub class_of : Operator → ℕ
class_of (near n) = 0
class_of (window n) = 1
class_of syn = 2
class_of or_ = 3
class_of and_ = 4
class_of score = 5
class_of sum = 6
class_of (wsum ws) = 7

abbrev pub count_args : Args → ℕ
count_args nil = 0
count_args (cons q qs) = suc (count_args qs)

unfoldable mutual
  pub duplicate : Qry → Qry → Bool
  duplicate (term a f) (term b g) = str_eq a b && str_eq f g
  duplicate (node o ps) (node p qs) =
      class_of o == class_of p && (count_args ps == count_args qs && all_duplicate ps qs)
  duplicate _ _ = false

  -- The loop over the arguments, of which there are as many on both sides.
  pub all_duplicate : Args → Args → Bool
  all_duplicate (cons p ps) (cons q qs) = duplicate p q && all_duplicate ps qs
  all_duplicate _ _ = true

-- The inner loop of `_optimizeSumToWsum`, for the argument `a`: the duplicates found behind it, and
-- their weights set to 0.
unfoldable pub absorb : Qry → List Qry → List ℕ → ℕ × List ℕ
unfolding duplicate
absorb a (b ∷ bs) (w ∷ ws) =
    let (k, ws') = absorb a bs ws in
    if w == 0 then (k, w ∷ ws') else (if duplicate a b then (k + 1, 0 ∷ ws') else (k, w ∷ ws'))
absorb a _ ws = (0, ws)

-- The outer loop, from the argument `a` with the weight `w` on.
unfoldable pub weigh : List Qry → List ℕ → List ℕ
unfolding absorb
weigh (a ∷ qs) (w ∷ ws) =
    let (k, ws') = if w == 0 then (0, ws) else absorb a qs ws in (w + k) ∷ weigh qs ws'
weigh _ ws = ws

abbrev pub has_zero : List ℕ → Bool
has_zero [] = false
has_zero (w ∷ ws) = w == 0 || has_zero ws

-- The arguments whose weight is not 0, with their weights.
unfoldable pub kept : List Qry → List ℕ → List (Qry × ℕ)
kept (a ∷ qs) (w ∷ ws) = let rest = kept qs ws in if w == 0 then rest else (a, w) ∷ rest
kept _ _ = []

-- What appending them to an empty WSUM operator builds.
abbrev pub kept_args : List (Qry × ℕ) → Args
kept_args [] = nil
kept_args ((a, w) ∷ rest) = cons (scored a) (kept_args rest)

abbrev pub weighted : List (Qry × ℕ) → Qry
weighted rest = node (wsum (map (λ (a, w). counted w) rest)) (kept_args rest)

unfoldable pub convert : Operator → Args → Qry
unfolding weigh kept items
convert sum args =
    let qs = items args in
    let weights = weigh qs (map (λ _. 1) qs) in
    if has_zero weights then weighted (kept qs weights) else node sum args
convert op args = node op args

unfoldable mutual
  unfolding convert

  pub sum_to_wsum : Qry → Qry
  sum_to_wsum (term name field) = term name field
  sum_to_wsum (node op args) = convert op (all_sum_to_wsum args)

  pub all_sum_to_wsum : Args → Args
  all_sum_to_wsum nil = nil
  all_sum_to_wsum (cons q qs) = cons (sum_to_wsum q) (all_sum_to_wsum qs)

-- Only a SCORE operator stays with a single argument.
unfoldable pub collapse : Qry → Qry
collapse (node score args) = node score args
collapse (node op (cons q nil)) = q
collapse q = q

abbrev pub cons_if : Option Qry → Args → Args
cons_if (some q) qs = cons q qs
cons_if none qs = qs

unfoldable pub reduce : Operator → Args → Option Qry
unfolding sum_to_wsum collapse
reduce op nil = none
reduce op (cons q qs) = some (collapse (sum_to_wsum (node op (cons q qs))))

unfoldable mutual
  unfolding reduce

  pub optimize : Qry → Option Qry
  optimize (term name field) = some (term name field)
  optimize (node op args) = reduce op (optimize_args args)

  -- The loop over the arguments, from the last one to the first.
  pub optimize_args : Args → Args
  optimize_args nil = nil
  optimize_args (cons q qs) = cons_if (optimize q) (optimize_args qs)
