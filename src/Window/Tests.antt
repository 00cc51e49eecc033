-- ===== src/Window/Tests.antt =====
-- A run of the inner loop of query/QryIopWindow.py, and its theorem at it.
use qry_eval_plus.Prelude.{All, List, [], arith, refl, some, ℕ, ◌+◌, ◌<◌, ◌∷◌, ◌≡◌, ◌≢◌, ◌⊎◌}
use qry_eval_plus.InvList.Order.{Increasing}
use qry_eval_plus.InvList.{InvList}
use qry_eval_plus.InvList.Order.{IsValid, Increasing}
use qry_eval_plus.InvList.Tests.{cats, dogs}
use qry_eval_plus.Cursor.{initialize}
use qry_eval_plus.Cursor.Tests.{cats-IsReady, dogs-IsReady}
use qry_eval_plus.MatchAll.Join.{find, find_all}
use qry_eval_plus.MatchAll.Scan.{rests}
use qry_eval_plus.MatchAll.Tests.{cats_and_dogs}
use qry_eval_plus.Window.{evaluate}
use qry_eval_plus.Window.Says.{MeetsWindow}
use qry_eval_plus.Window.Meaning.{evaluate-MeetsWindow}
use qry_eval_plus.Window.{
  window_doc, window_loop, current_positions, step, minimum, maximum, lowest, bump, sort,
}
use qry_eval_plus.Near.{out_of_doc}
use qry_eval_plus.Window.Spans.{Spans, Windows}
use qry_eval_plus.Window.Within.{window_doc-Windows}

abbrev terms : List (List ℕ)
terms = (1 ∷ 8 ∷ []) ∷ (3 ∷ 7 ∷ []) ∷ []

two_windows : window_doc 3 terms ≡ some (3 ∷ 8 ∷ [])
unfolding window_doc window_loop out_of_doc current_positions step minimum maximum lowest bump sort
two_windows = refl

window_doc-Windows_example :
    (matches : List ℕ) × (window_doc 3 terms ≡ some matches)
    × All (λ e. Windows 3 terms e) matches
    × Increasing matches
    × ((matches ≢ []) ⊎ ((lo hi : ℕ) → hi < lo + 3 → ¬ Spans lo hi terms))
window_doc-Windows_example =
    window_doc-Windows 3 (1 ∷ 8 ∷ []) ((3 ∷ 7 ∷ []) ∷ [])
      (((omega arith, tt), (tt, tt)), (((omega arith, tt), (tt, tt)), tt))

evaluate-MeetsWindow_example :
    (inv : InvList) × (evaluate 3 "body" cats_and_dogs ≡ some inv)
    × IsValid inv
    × ((d : ℕ) → MeetsWindow 3 (find_all d (rests cats_and_dogs)) (find d inv.postings))
evaluate-MeetsWindow_example =
    evaluate-MeetsWindow 3 "body" (initialize cats) (initialize dogs ∷ [])
      (cats-IsReady, (dogs-IsReady, tt))
      ((((omega arith, tt), (tt, tt)), ((tt, tt), tt)), ((((omega arith, tt), (tt, tt)), tt), tt))
