-- ===== src/Tree/Lean.antt =====
-- What optimizing leaves of a query tree.
use qry_eval_plus.Prelude.{
  Bool, Bool-cases, List, Option, [], ap, arith, false, inl, inr, map, none, refl, some, true, ℕ,
  ◌+◌, ◌==◌, ◌∙◌, ◌∷◌, ◌≡◌, ◌≢◌, ◌||◌,
}
use qry_eval_plus.Tree.{
  Operator, near, window, syn, or_, and_, score, sum, wsum, Qry, term, node, Args, nil, cons,
  is_iop, scored, items, weigh, kept, kept_args, has_zero, convert, sum_to_wsum, all_sum_to_wsum,
  collapse, absorb, Weight, optimize, reduce, cons_if, optimize_args,
}

unfoldable mutual
  -- Some term stands in the tree.
  pub has_term : Qry → Bool
  has_term (term name field) = true
  has_term (node op args) = any_term args

  pub any_term : Args → Bool
  any_term nil = false
  any_term (cons q qs) = has_term q || any_term qs

abbrev pub has_duplicates : Args → Bool
has_duplicates args = has_zero (weigh (items args) (map (λ _. 1) (items args)))

-- Two arguments at least, or one of a SCORE operator; no duplicates in a SUM.
abbrev pub Shape : Operator → Args → Type 0
Shape op nil = ⊥
Shape score (cons p qs) = Unit
Shape op (cons p nil) = ⊥
Shape sum (cons p (cons q qs)) = has_duplicates (cons p (cons q qs)) ≡ false
Shape op (cons p (cons q qs)) = Unit

unfoldable mutual
  -- A tree without degenerate operators.
  pub IsLean : Qry → Type 0
  IsLean (term name field) = Unit
  IsLean (node op args) = AllLean args × Shape op args

  pub AllLean : Args → Type 0
  AllLean nil = Unit
  AllLean (cons q qs) = IsLean q × AllLean qs

convert-Shape : (op : Operator) (args : Args) → Shape op args → convert op args ≡ node op args
unfolding convert
convert-Shape sum nil s = absurd s
convert-Shape sum (cons p nil) s = absurd s
convert-Shape sum (cons p (cons q qs)) s = rw s
convert-Shape (near n) args s = refl
convert-Shape (window n) args s = refl
convert-Shape syn args s = refl
convert-Shape or_ args s = refl
convert-Shape and_ args s = refl
convert-Shape score args s = refl
convert-Shape (wsum ws) args s = refl

mutual
  unfolding sum_to_wsum IsLean

  -- There is nothing to convert in a lean tree.
  sum_to_wsum-IsLean : (q : Qry) → IsLean q → sum_to_wsum q ≡ q
  sum_to_wsum-IsLean (term name field) h = refl
  sum_to_wsum-IsLean (node op args) h =
      ap (convert op) (all_sum_to_wsum-AllLean args h.0) ∙ convert-Shape op args h.1

  all_sum_to_wsum-AllLean : (qs : Args) → AllLean qs → all_sum_to_wsum qs ≡ qs
  all_sum_to_wsum-AllLean nil h = refl
  all_sum_to_wsum-AllLean (cons q qs) h =
      ap (λ x. cons x (all_sum_to_wsum qs)) (sum_to_wsum-IsLean q h.0)
      ∙ ap (cons q) (all_sum_to_wsum-AllLean qs h.1)

LeanItems : List Qry → Type 0
LeanItems [] = Unit
LeanItems (q ∷ qs) = IsLean q × LeanItems qs

items-LeanItems : (qs : Args) → AllLean qs → LeanItems (items qs)
unfolding items IsLean LeanItems
items-LeanItems nil h = tt
items-LeanItems (cons q qs) h = (h.0, items-LeanItems qs h.1)

scored-IsLean : (q : Qry) → IsLean q → IsLean (scored q)
unfolding IsLean
scored-IsLean q h = elim (Bool-cases (is_iop q)) [ inl e ↦ rw e ((h, tt), tt) | inr e ↦ rw e h ]

kept_args-AllLean : (qs : List Qry) (ws : List ℕ) → LeanItems qs → AllLean (kept_args (kept qs ws))
unfolding kept IsLean LeanItems
kept_args-AllLean [] ws h = tt
kept_args-AllLean (q ∷ qs) [] h = tt
kept_args-AllLean (q ∷ qs) (w ∷ ws) h = elim (Bool-cases (w == 0)) [
  | inl e ↦ rw (e, kept) (kept_args-AllLean qs ws h.1)
  | inr e ↦ rw (e, kept) (scored-IsLean q h.0, kept_args-AllLean qs ws h.1)
]

collapse-wsum :
    (ws : List Weight) (args : Args)
    → args ≢ nil
    → AllLean args
    → IsLean (collapse (node (wsum ws) args))
unfolding collapse IsLean
collapse-wsum ws nil ne h = absurd (ne refl)
collapse-wsum ws (cons p nil) ne h = h.0
collapse-wsum ws (cons p (cons q qs)) ne h = (h, tt)

-- The first argument of a SUM keeps a weight.
first-kept :
    (q : Qry) (qs : List Qry)
    → kept_args (kept (q ∷ qs) (weigh (q ∷ qs) (map (λ _. 1) (q ∷ qs)))) ≢ nil
unfolding kept weigh
first-kept q qs e =
    let k = (absorb q qs (map (λ _. 1) qs)).0 in
    let more : ((1 + k) == 0) ≡ false = positive k in no_nil (rw (more, kept) at e)
  where
    positive : (k : ℕ) → ((1 + k) == 0) ≡ false
    positive k = ground arith

    no_nil : {p : Qry} {ps : Args} → cons p ps ≡ nil → ⊥
    no_nil e = cc

collapse-convert :
    (op : Operator) (q : Qry) (qs : Args)
    → AllLean (cons q qs)
    → IsLean (collapse (convert op (cons q qs)))
unfolding convert collapse IsLean items
collapse-convert (near n) q nil h = h.0
collapse-convert (near n) q (cons p qs) h = (h, tt)
collapse-convert (window n) q nil h = h.0
collapse-convert (window n) q (cons p qs) h = (h, tt)
collapse-convert syn q nil h = h.0
collapse-convert syn q (cons p qs) h = (h, tt)
collapse-convert or_ q nil h = h.0
collapse-convert or_ q (cons p qs) h = (h, tt)
collapse-convert and_ q nil h = h.0
collapse-convert and_ q (cons p qs) h = (h, tt)
collapse-convert score q qs h = (h, tt)
collapse-convert (wsum ws) q nil h = h.0
collapse-convert (wsum ws) q (cons p qs) h = (h, tt)
collapse-convert sum q qs h = elim (Bool-cases (has_duplicates (cons q qs))) [
  | inl e ↦
      rw (e, collapse)
        (collapse-wsum _ _ (first-kept q (items qs)) (
          kept_args-AllLean (q ∷ items qs) (weigh (q ∷ items qs) (map (λ _. 1) (q ∷ items qs)))
            (items-LeanItems (cons q qs) h)))
  | inr e ↦ rw (e, collapse) (unique q qs h e)
]
  where
    unique :
        (q : Qry) (qs : Args)
        → AllLean (cons q qs)
        → has_duplicates (cons q qs) ≡ false
        → IsLean (collapse (node sum (cons q qs)))
    unique q nil h e = h.0
    unique q (cons p qs) h e = (h, e)

-- A query is gone if no term stands in it, and lean otherwise.
abbrev pub Optimized : Bool → Option Qry → Type 0
Optimized true o = (q : Qry) × (o ≡ some q) × IsLean q
Optimized false o = o ≡ none

OptimizedArgs : Bool → Args → Type 0
OptimizedArgs true ps = (q : Qry) × (qs : Args) × (ps ≡ cons q qs) × AllLean (cons q qs)
OptimizedArgs false ps = ps ≡ nil

reduce-Optimized :
    (op : Operator) (b : Bool) (ps : Args) → OptimizedArgs b ps → Optimized b (reduce op ps)
unfolding reduce OptimizedArgs sum_to_wsum
reduce-Optimized op false ps e = rw e
reduce-Optimized op true ps (q, qs, e, h) =
    let same : sum_to_wsum (node op (cons q qs)) ≡ convert op (cons q qs) =
      ap (convert op) (all_sum_to_wsum-AllLean (cons q qs) h) in
    (
      collapse (convert op (cons q qs)),
      rw e (ap (λ x. some (collapse x)) same),
      collapse-convert op q qs h,
    )

cons_if-OptimizedArgs :
    (a b : Bool) (o : Option Qry) (ps : Args)
    → Optimized a o
    → OptimizedArgs b ps
    → OptimizedArgs (a || b) (cons_if o ps)
unfolding OptimizedArgs IsLean
cons_if-OptimizedArgs false b o ps e k = rw e k
cons_if-OptimizedArgs true false o ps (q, e, h) k = (q, nil, rw (e, k), (h, tt))
cons_if-OptimizedArgs true true o ps (q, e, h) (p, qs, k, hs) = (q, cons p qs, rw (e, k), (h, hs))

mutual
  unfolding optimize has_term IsLean OptimizedArgs

  tidy_tree : (q : Qry) → Optimized (has_term q) (optimize q)
  tidy_tree (term name field) = (term name field, refl, tt)
  tidy_tree (node op args) =
      reduce-Optimized op (any_term args) (optimize_args args) (tidy_args args)

  tidy_args : (qs : Args) → OptimizedArgs (any_term qs) (optimize_args qs)
  tidy_args nil = refl
  tidy_args (cons q qs) =
      cons_if-OptimizedArgs (has_term q) (any_term qs) (optimize q) (optimize_args qs) (tidy_tree q)
        (tidy_args qs)

-- Optimizing a query deletes it exactly if no term stands in it. Otherwise it leaves a tree in
-- which every operator but SCORE has two arguments or more, SCORE has some, and no SUM has
-- arguments that are duplicates.
pub optimize-Optimized : (q : Qry) → Optimized (has_term q) (optimize q)
optimize-Optimized = tidy_tree
