-- ===== src/Score/Tests.antt =====
-- A run of the score operators, and its theorem at it.
use qry_eval_plus.Prelude.{Bool, none, some, ◌≡◌}
use qry_eval_plus.InvList.Tests.{cats, dogs}
use qry_eval_plus.Cursor.{initialize}
use qry_eval_plus.Cursor.Tests.{cats-IsReady, dogs-IsReady}
use qry_eval_plus.Score.{or_, Sop, leaf, branch, nil, cons, has_match}
use qry_eval_plus.Score.Disjunction.{IsDisjunction, Matched, has_match-Matched}

abbrev pub cats_or_dogs : Sop
cats_or_dogs =
    branch or_ none (cons (leaf none (initialize cats)) (cons (leaf none (initialize dogs)) nil))

has_match-Matched_example :
    (q' : Sop) × (b : Bool) × (has_match 2 cats_or_dogs ≡ some (q', b)) × Matched cats_or_dogs q' b
unfolding IsDisjunction
has_match-Matched_example =
    has_match-Matched 2 cats_or_dogs (tt, (cats-IsReady, (dogs-IsReady, tt)))
