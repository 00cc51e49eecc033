-- ===== src/MatchAll.antt =====
-- `docIteratorHasMatchAll` of src/qryeval_plus/query/Qry.py, over arguments that are inverted-list
-- operators. A call returns the moved arguments and the document that it caches, if any.
pub mod Join
pub mod Scan
pub mod Loop
pub mod Left
pub mod Tests
use qry_eval_plus.Prelude.{
  List, Option, [], if◌then◌else◌, none, some, suc, zero, ℕ, ◌==◌, ◌>>=◌, ◌∷◌,
}
use qry_eval_plus.Cursor.{Cursor, has_match, get_match, advance_to}

-- How the `for` loop over the other arguments ends: all agree, one is at a later document, or one
-- is exhausted.
pub data Outcome : Type 0 where
  agreed : Outcome
  moved : ℕ → Outcome
  exhausted : Outcome

unfoldable pub scan : ℕ → List Cursor → Option (List Cursor × Outcome)
unfolding has_match get_match advance_to
scan docid [] = some ([], agreed)
scan docid (c ∷ cs) = advance_to docid c >>= λ c'.
    if has_match c'
    then (get_match c' >>= λ docid_i.
        if docid == docid_i
        then (scan docid cs >>= λ (cs', o). some (c' ∷ cs', o))
        else some (c' ∷ cs, moved docid_i))
    else some (c' ∷ cs, exhausted)

-- The `while not matchFound` loop, on fuel. No first argument is an `IndexError`.
unfoldable pub has_match_all : ℕ → List Cursor → Option (List Cursor × Option ℕ)
unfolding scan
has_match_all fuel [] = none
has_match_all zero (c ∷ cs) = none
has_match_all (suc fuel) (c ∷ cs) =
    if has_match c
    then (get_match c >>= λ docid_0. scan docid_0 cs >>= λ (cs', o). elim o [
      | agreed ↦ some (c ∷ cs', some docid_0)
      | moved docid_i ↦ advance_to docid_i c >>= λ c'. has_match_all fuel (c' ∷ cs')
      | exhausted ↦ some (c ∷ cs', none)
    ])
    else some (c ∷ cs, none)
