-- ===== src/Ranker/Tests.antt =====
-- The ranking of `#or(cats dogs)`.
use qry_eval_plus.Prelude.{List, [], arith, length, ltb, map, min, refl, some, ℕ, ◌++◌, ◌∷◌, ◌≡◌}
use mathlib.Core.List.{Perm}
use qry_eval_plus.Text.{codes}
use qry_eval_plus.Cursor.Tests.{cats-IsReady, dogs-IsReady}
use qry_eval_plus.Score.{ranked_boolean}
use qry_eval_plus.Score.Disjunction.{IsDisjunction}
use qry_eval_plus.Score.Tests.{cats_or_dogs}
use qry_eval_plus.Ranking.{Entry}
use qry_eval_plus.Ranking.Sorted.{ltb-IsOrder, IsRanked}
use qry_eval_plus.Ranker.{prepare_bow_query, rank_loop, rank_query}
use qry_eval_plus.Ranker.Past.{left, IsOr}
use qry_eval_plus.Ranker.Documents.{Lists, entry, rank_loop-Lists}
use qry_eval_plus.Ranker.Results.{rank_query-Best}

rank_loop-Lists_example :
    (found : List (ℕ × ℕ)) × (rank_loop (λ d. d) 2 ranked_boolean 9 cats_or_dogs []
      ≡ some (map (entry (λ d. d) 2 ranked_boolean) found))
    × Lists ranked_boolean cats_or_dogs found
unfolding IsDisjunction IsOr left
rank_loop-Lists_example =
    rank_loop-Lists (λ d. d) 2 ranked_boolean 9 cats_or_dogs []
      (tt, (cats-IsReady, (dogs-IsReady, tt))) (tt, (tt, (tt, tt))) (omega arith)

rank_query-Best_example :
    (found : List (ℕ × ℕ)) × (kept : List (Entry ℕ ℕ)) × (cut : List (Entry ℕ ℕ)) × (rank_query
        (λ d. d)
        2
        ranked_boolean
        ltb
        ltb
        2
        9
        cats_or_dogs
      ≡ some (map (λ r. (r.score, r.external_id)) kept))
    × Lists ranked_boolean cats_or_dogs found
    × Perm (kept ++ cut) (map (entry (λ d. d) 2 ranked_boolean) found)
    × IsRanked ltb ltb (kept ++ cut)
    × (length kept ≡ min 2 (length found))
unfolding IsDisjunction IsOr left
rank_query-Best_example =
    rank_query-Best (λ d. d) 2 ranked_boolean ltb 2 9 cats_or_dogs ltb-IsOrder
      (tt, (cats-IsReady, (dogs-IsReady, tt))) (tt, (tt, (tt, tt))) (omega arith)

prepared :
    prepare_bow_query (λ t. "big" ∷ "cat" ∷ []) (codes "#sum") (codes " Big cats ")
    ≡ codes "#sum(big cat)"
unfolding prepare_bow_query
prepared = refl
