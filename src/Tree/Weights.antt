-- ===== src/Tree/Weights.antt =====
-- The weights of a WSUM whose arguments the optimizer deletes.
use qry_eval_plus.Prelude.{
  Bool, Bool-cases, List, Option, ap, arith, false, inl, inr, length, none, not, refl, some, suc,
  true, ◌<◌, ◌≡◌, ◌≤◌, ◌||◌,
}
use qry_eval_plus.Tree.{
  wsum, Qry, node, Args, nil, cons, Weight, count_args, optimize, optimize_args, reduce,
  sum_to_wsum, all_sum_to_wsum, convert, collapse, cons_if,
}
use qry_eval_plus.Tree.Lean.{has_term, Optimized, optimize-Optimized}

-- Some argument has no term in it.
abbrev pub any_empty : Args → Bool
any_empty nil = false
any_empty (cons q qs) = not (has_term q) || any_empty qs

cons_if-count-le :
    (b : Bool) (o : Option Qry) (qs : Args)
    → Optimized b o
    → count_args (cons_if o qs) ≤ suc (count_args qs)
cons_if-count-le b none qs h = omega arith
cons_if-count-le b (some q) qs h = omega arith

optimize_args-count-le : (qs : Args) → count_args (optimize_args qs) ≤ count_args qs
unfolding optimize
optimize_args-count-le nil = omega arith
optimize_args-count-le (cons q qs) = omega (
  arith,
  optimize_args-count-le qs,
  cons_if-count-le (has_term q) (optimize q) (optimize_args qs) (optimize-Optimized q),
)

optimize_args-count-lt :
    (qs : Args) → any_empty qs ≡ true → count_args (optimize_args qs) < count_args qs
unfolding optimize
optimize_args-count-lt nil h = cc
optimize_args-count-lt (cons q qs) h = elim (Bool-cases (has_term q)) [
  | inl e ↦
      let rest = optimize_args-count-lt qs (rw e at h) in
      omega (
        arith,
        rest,
        cons_if-count-le (has_term q) (optimize q) (optimize_args qs) (optimize-Optimized q),
      )
  | inr e ↦
      let gone : optimize q ≡ none = gone_of (has_term q) (optimize q) e (optimize-Optimized q) in
      rw gone (omega (arith, optimize_args-count-le qs))
]
  where
    gone_of : (b : Bool) (o : Option Qry) → b ≡ false → Optimized b o → o ≡ none
    gone_of false o e h = h
    gone_of true o e h = cc

all_sum_to_wsum-count : (qs : Args) → count_args (all_sum_to_wsum qs) ≡ count_args qs
unfolding sum_to_wsum
all_sum_to_wsum-count nil = refl
all_sum_to_wsum-count (cons q qs) = ap suc (all_sum_to_wsum-count qs)

-- Deleting an argument leaves its weight in place: a WSUM with as many weights as arguments, of
-- which the optimizer deletes some and keeps two or more, keeps every weight and has fewer
-- arguments than weights, so that a later argument is scored with an earlier weight.
pub optimize-weights :
    (ws : List Weight) (args : Args) (p q : Qry) (qs : Args)
    → length ws ≡ count_args args
    → any_empty args ≡ true
    → optimize_args args ≡ cons p (cons q qs)
    → (args' : Args) × (optimize (node (wsum ws) args) ≡ some (node (wsum ws) args'))
      × (count_args args' < length ws)
unfolding optimize reduce sum_to_wsum convert collapse
optimize-weights ws args p q qs len some_empty e =
    let kept = all_sum_to_wsum (cons p (cons q qs)) in
    (
      kept,
      rw e,
      omega (
        arith,
        len,
        optimize_args-count-lt args some_empty,
        ap count_args e,
        all_sum_to_wsum-count (cons p (cons q qs)),
      ),
    )
