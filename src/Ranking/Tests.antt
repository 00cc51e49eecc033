-- ===== src/Ranking/Tests.antt =====
-- A ranking of three documents, cut to two.
use qry_eval_plus.Prelude.{List, [], length, ltb, map, min, refl, ℕ, ◌++◌, ◌∷◌, ◌≡◌}
use mathlib.Core.List.{Perm}
use qry_eval_plus.Ranking.{Entry, get_ranking}
use qry_eval_plus.Ranking.Sorted.{ltb-IsOrder, IsRanked, get_ranking-Best}

abbrev entry : ℕ → ℕ → Entry ℕ ℕ
entry s i = record { score = s; external_id = i }

abbrev three : List (Entry ℕ ℕ)
three = entry 1 7 ∷ entry 3 9 ∷ entry 3 8 ∷ []

get_ranking-Best_example :
    (kept : List (Entry ℕ ℕ)) × (cut : List (Entry ℕ ℕ)) × (get_ranking ltb ltb 2 three
      ≡ map (λ r. (r.score, r.external_id)) kept)
    × Perm (kept ++ cut) three
    × IsRanked ltb ltb (kept ++ cut)
    × (length kept ≡ min 2 (length three))
get_ranking-Best_example = get_ranking-Best ltb ltb ltb-IsOrder ltb-IsOrder 2 three

best_two : get_ranking ltb ltb 2 three ≡ (3, 8) ∷ (3, 9) ∷ []
unfolding get_ranking
best_two = refl
