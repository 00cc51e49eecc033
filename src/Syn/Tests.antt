-- ===== src/Syn/Tests.antt =====
-- Runs of query/QryIopSyn.py, and its theorems at them.
use qry_eval_plus.Prelude.{In, List, arith, some, ℕ, ◌↔◌, ◌≡◌}
use qry_eval_plus.InvList.{InvList}
use qry_eval_plus.InvList.Order.{Increasing, IsValid}
use qry_eval_plus.MatchAll.Join.{find}
use qry_eval_plus.Syn.Rounds.{IsUnion}
use qry_eval_plus.Syn.Meaning.{evaluate-IsUnion}
use qry_eval_plus.Cursor.{Cursor}
use qry_eval_plus.Cursor.Tests.{cats-IsReady, dogs-IsReady}
use qry_eval_plus.MatchAll.Tests.{cats_and_dogs}
use qry_eval_plus.Syn.{collect, sorted_set, evaluate}
use qry_eval_plus.Syn.Union.{AllPast, Located, collect-Located}

collect-Located_example :
    (xs : List ℕ) × (cs' : List Cursor) × (collect 1 cats_and_dogs ≡ some (xs, cs'))
    × AllPast 1 cats_and_dogs cs'
    × Increasing (sorted_set xs)
    × ((x : ℕ) → In x (sorted_set xs) ↔ Located 1 x cats_and_dogs)
collect-Located_example =
    collect-Located 1 cats_and_dogs (cats-IsReady, (dogs-IsReady, tt))
      ((omega arith, (omega arith, tt)), ((omega arith, tt), tt))

evaluate-IsUnion_example :
    (inv : InvList) × (evaluate "body" cats_and_dogs ≡ some inv)
    × IsValid inv
    × ((d : ℕ) → IsUnion d cats_and_dogs (find d inv.postings))
evaluate-IsUnion_example = evaluate-IsUnion "body" cats_and_dogs (cats-IsReady, (dogs-IsReady, tt))
