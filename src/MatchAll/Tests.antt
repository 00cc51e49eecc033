-- ===== src/MatchAll/Tests.antt =====
-- A run of `docIteratorHasMatchAll`, and its theorem at it.
use qry_eval_plus.Prelude.{List, Option, [], arith, some, ℕ, ◌∷◌, ◌≡◌}
use qry_eval_plus.InvList.Tests.{cats, dogs}
use qry_eval_plus.Cursor.{Cursor, initialize}
use qry_eval_plus.Cursor.Tests.{cats-IsReady, dogs-IsReady}
use qry_eval_plus.MatchAll.{has_match_all}
use qry_eval_plus.MatchAll.Loop.{Found, has_match_all-Found}

abbrev pub cats_and_dogs : List Cursor
cats_and_dogs = initialize cats ∷ initialize dogs ∷ []

has_match_all-Found_example :
    (cs' : List Cursor) × (m : Option ℕ) × (has_match_all 3 cats_and_dogs ≡ some (cs', m))
    × Found cats_and_dogs cs' m
has_match_all-Found_example =
    has_match_all-Found 3 (initialize cats) (initialize dogs ∷ []) cats-IsReady (dogs-IsReady, tt)
      (omega arith)
