-- ===== src/Near/Tests.antt =====
-- Runs of query/QryIopNear.py, and its theorems at them.
use qry_eval_plus.Prelude.{All, List, [], arith, refl, some, ℕ, ◌∷◌, ◌≡◌, ◌≢◌, ◌⊎◌}
use qry_eval_plus.InvList.{InvList}
use qry_eval_plus.InvList.Order.{IsValid, Increasing}
use qry_eval_plus.InvList.Tests.{cats, dogs}
use qry_eval_plus.Cursor.{initialize}
use qry_eval_plus.Cursor.Tests.{cats-IsReady, dogs-IsReady}
use qry_eval_plus.MatchAll.Join.{find, find_all}
use qry_eval_plus.MatchAll.Scan.{rests}
use qry_eval_plus.MatchAll.Tests.{cats_and_dogs}
use qry_eval_plus.Near.{within_doc, within_loop, out_of_doc, find_match, find_match_from, evaluate}
use qry_eval_plus.Near.Chain.{Occurs}
use qry_eval_plus.Near.Matches.{within_doc-Occurs}
use qry_eval_plus.Near.Meaning.{Meets, evaluate-Meets}

two_matches : within_doc 2 ((1 ∷ 5 ∷ 9 ∷ []) ∷ (3 ∷ 6 ∷ []) ∷ []) ≡ some (3 ∷ 6 ∷ [])
unfolding within_doc within_loop out_of_doc find_match find_match_from
two_matches = refl

abbrev terms : List (List ℕ)
terms = (1 ∷ 5 ∷ []) ∷ (3 ∷ 6 ∷ []) ∷ []

within_doc-Occurs_example :
    (matches : List ℕ) × (within_doc 2 terms ≡ some matches)
    × All (λ e. Occurs 2 terms e) matches
    × Increasing matches
    × ((matches ≢ []) ⊎ ((e : ℕ) → ¬ Occurs 2 terms e))
within_doc-Occurs_example =
    within_doc-Occurs 2 (1 ∷ 5 ∷ []) ((3 ∷ 6 ∷ []) ∷ [])
      (((omega arith, tt), (tt, tt)), (((omega arith, tt), (tt, tt)), tt))

evaluate-Meets_example :
    (inv : InvList) × (evaluate 1 "body" cats_and_dogs ≡ some inv)
    × IsValid inv
    × ((d : ℕ) → Meets 1 (find_all d (rests cats_and_dogs)) (find d inv.postings))
evaluate-Meets_example =
    evaluate-Meets 1 "body" (initialize cats) (initialize dogs ∷ []) cats-IsReady (dogs-IsReady, tt)
      ((((omega arith, tt), (tt, tt)), ((tt, tt), tt)), ((((omega arith, tt), (tt, tt)), tt), tt))
