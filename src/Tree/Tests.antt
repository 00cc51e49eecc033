-- ===== src/Tree/Tests.antt =====
-- Runs of the query tree's operations, and their theorems at them.
use qry_eval_plus.Prelude.{List, [], length, map, refl, some, true, ◌<◌, ◌↔◌, ◌∷◌, ◌≡◌}
use qry_eval_plus.Text.{pos}
use qry_eval_plus.Tree.{
  near, and_, syn, score, wsum, Qry, term, node, Args, nil, cons, Weight, parsed, append_arg,
  count_args, optimize, reduce, sum_to_wsum, convert, collapse, weigh, kept, duplicate,
}
use qry_eval_plus.Tree.Erase.{erase, duplicate-erase}
use qry_eval_plus.Tree.Weigh.{kept_weight, occurrences, Distinct, kept-Distinct-occurrences}
use qry_eval_plus.Tree.Lean.{has_term, Optimized, optimize-Optimized}
use qry_eval_plus.Tree.Typed.{IsTyped, admits, Appended, append_arg-IsTyped}
use qry_eval_plus.Tree.Weights.{optimize-weights}

abbrev apple : Qry
apple = term "apple" "body"

abbrev pie : Qry
pie = term "pie" "body"

abbrev scored_apple : Qry
scored_apple = node score (cons apple nil)

abbrev scored_pie : Qry
scored_pie = node score (cons pie nil)

abbrev two_terms : Args
two_terms = cons apple (cons pie nil)

duplicate-erase_example :
    (duplicate (node (near (pos 1)) two_terms) (node (near (pos 5)) two_terms) ≡ true)
    ↔ (erase (node (near (pos 1)) two_terms) ≡ erase (node (near (pos 5)) two_terms))
duplicate-erase_example =
    duplicate-erase (node (near (pos 1)) two_terms) (node (near (pos 5)) two_terms)

-- Two distances, one query.
distances_merge : duplicate (node (near (pos 1)) two_terms) (node (near (pos 5)) two_terms) ≡ true
distances_merge =
    (duplicate-erase (node (near (pos 1)) two_terms) (node (near (pos 5)) two_terms)).1
      (unfold erase in refl)

abbrev three_args : List Qry
three_args = scored_apple ∷ scored_pie ∷ scored_apple ∷ []

kept-Distinct-occurrences_example :
    ((q : Qry)
      → kept_weight q (kept three_args (weigh three_args (map (λ _. 1) three_args)))
        ≡ occurrences q three_args)
    × Distinct (kept three_args (weigh three_args (map (λ _. 1) three_args)))
kept-Distinct-occurrences_example = kept-Distinct-occurrences three_args

optimize-Optimized_example :
    Optimized
      (has_term (node and_ (cons scored_apple nil)))
      (optimize (node and_ (cons scored_apple nil)))
optimize-Optimized_example = optimize-Optimized (node and_ (cons scored_apple nil))

append_arg-IsTyped_example :
    Appended
      (admits (node syn (cons apple nil)) pie)
      (node syn (cons apple nil))
      (append_arg (node syn (cons apple nil)) (parsed "1.0") pie)
unfolding IsTyped
append_arg-IsTyped_example =
    append_arg-IsTyped (node syn (cons apple nil)) pie (parsed "1.0") ((tt, tt), (refl, tt)) tt

abbrev three_weights : List Weight
three_weights = parsed "0.3" ∷ parsed "0.7" ∷ parsed "0.2" ∷ []

abbrev with_empty : Args
with_empty = cons (node and_ nil) (cons scored_apple (cons scored_pie nil))

optimize-weights_example :
    (args' : Args) × (optimize (node (wsum three_weights) with_empty)
      ≡ some (node (wsum three_weights) args'))
    × (count_args args' < length three_weights)
unfolding optimize reduce sum_to_wsum convert collapse has_term
optimize-weights_example =
    optimize-weights three_weights with_empty scored_apple scored_pie nil refl refl refl
