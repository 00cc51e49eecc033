-- ===== src/Cursor/Tests.antt =====
-- Runs of the iterators of query/QryIop.py, and their theorems at them.
use qry_eval_plus.Prelude.{[], arith, leb, ltb, refl, some, ◌∷◌, ◌≡◌}
use qry_eval_plus.InvList.{doc_posting}
use qry_eval_plus.InvList.Tests.{cats, dogs, cats-IsValid, dogs-IsValid}
use qry_eval_plus.Cursor.Locations.{PointsTo, LocAdvanced, loc_advance_to-drop_while}
use qry_eval_plus.Cursor.{
  get_match_posting, loc_advance_to, Cursor, initialize, advance_to, advance_past,
}
use qry_eval_plus.Cursor.Advance.{IsReady, Advanced, advance_to-drop_while, advance_past-drop_while}

pub cats-IsReady : IsReady (initialize cats)
cats-IsReady = record { valid = cats-IsValid; within = omega arith }

pub dogs-IsReady : IsReady (initialize dogs)
dogs-IsReady = record { valid = dogs-IsValid; within = omega arith }

advance_to-drop_while_example :
    (c' : Cursor) × (advance_to 3 (initialize cats) ≡ some c')
    × Advanced (λ d. ltb d 3) (initialize cats) c'
advance_to-drop_while_example = advance_to-drop_while 3 (initialize cats) cats-IsReady

advance_past-drop_while_example :
    (c' : Cursor) × (advance_past 5 (initialize cats) ≡ some c')
    × Advanced (λ d. leb d 5) (initialize cats) c'
advance_past-drop_while_example = advance_past-drop_while 5 (initialize cats) cats-IsReady

cats-PointsTo : PointsTo (initialize cats) (doc_posting 1 (4 ∷ 9 ∷ []))
unfolding get_match_posting
cats-PointsTo = record { here = refl; tf_counts = refl; within = omega arith }

loc_advance_to-drop_while_example :
    (c' : Cursor) × (loc_advance_to 5 (initialize cats) ≡ some c')
    × LocAdvanced (λ x. ltb x 5) (initialize cats) c' (doc_posting 1 (4 ∷ 9 ∷ []))
loc_advance_to-drop_while_example =
    loc_advance_to-drop_while 5 (initialize cats) (doc_posting 1 (4 ∷ 9 ∷ [])) cats-PointsTo
