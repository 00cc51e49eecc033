-- ===== src/Near.antt =====
-- The NEAR/n operator: src/qryeval_plus/query/QryIopNear.py. `indices` and `positions_lists` are the
-- source's parallel lists; a missed `findMatch`, -1 in the source, is `none` inside its option.
pub mod Chain
pub mod Step
pub mod Within
pub mod Matches
pub mod Evaluate
pub mod Meaning
mod Tests
use qry_eval_plus.Prelude.{
  Bool, List, Option, [], false, get_elem?, if◌then◌else◌, leb, length, ltb, map, none, some, suc,
  zero, ℕ, ◌++◌, ◌+◌, ◌-◌, ◌>>=◌, ◌∷◌, ◌||◌,
}
use Prim.Native.String.{String}
use qry_eval_plus.InvList.{InvList, empty, append_posting}
use qry_eval_plus.Cursor.{Cursor, get_match, posting_lists, advance_past}
use qry_eval_plus.MatchAll.{has_match_all}

-- Some term has run out of positions.
unfoldable pub out_of_doc : List ℕ → List (List ℕ) → Bool
out_of_doc (i ∷ is) (p ∷ ps) = leb (length p) i || out_of_doc is ps
out_of_doc _ _ = false

-- The loop of `findMatch` from the term whose index and positions are `i` and `p`, over the terms
-- behind it. The result is the last position, if there is a match, and the indices.
unfoldable pub find_match_from :
    ℕ → ℕ → List ℕ → List ℕ → List (List ℕ) → Option (Option ℕ × List ℕ)
find_match_from n i p (j ∷ js) (q ∷ qs) = get_elem? q j >>= λ curr. get_elem? p i >>= λ prev.
    if leb curr prev
    then some (none, i ∷ (j + 1) ∷ js)
    else (if ltb n (curr - prev)
        then some (none, (i + 1) ∷ j ∷ js)
        else (find_match_from n j q js qs >>= λ (m, js'). some (m, i ∷ js')))
find_match_from n i p js _ = get_elem? p i >>= λ pos. some (some pos, i ∷ js)

unfoldable pub find_match : ℕ → List ℕ → List (List ℕ) → Option (Option ℕ × List ℕ)
unfolding find_match_from
find_match n (i ∷ is) (p ∷ ps) = find_match_from n i p is ps
find_match n _ _ = none

-- The `while` loop of `withinDoc`, on fuel.
unfoldable pub within_loop : ℕ → ℕ → List ℕ → List (List ℕ) → List ℕ → Option (List ℕ)
unfolding out_of_doc find_match
within_loop n zero indices positions_lists matches = none
within_loop n (suc fuel) indices positions_lists matches =
    if out_of_doc indices positions_lists
    then some matches
    else (find_match n indices positions_lists >>= λ (m, indices'). elim m [
      | none ↦ within_loop n fuel indices' positions_lists matches
      | some pos ↦
          within_loop n fuel (map (λ i. i + 1) indices') positions_lists (matches ++ pos ∷ [])
    ])

-- Each round moves an index, so as many rounds as there are positions are enough.
abbrev pub total_length : List (List ℕ) → ℕ
total_length [] = 0
total_length (p ∷ ps) = length p + total_length ps

unfoldable pub within_doc : ℕ → List (List ℕ) → Option (List ℕ)
unfolding within_loop
within_doc n positions_lists =
    within_loop n (suc (total_length positions_lists)) (map (λ _. 0) positions_lists)
      positions_lists []

-- Store the document unless `withinDoc` found nothing in it.
unfoldable pub store : ℕ → List ℕ → InvList → Option InvList
unfolding append_posting
store docid positions inv =
    if ltb 0 (length positions)
    then (append_posting docid positions inv >>= λ (inv', _). some inv')
    else some inv

-- The rounds that the list of the first argument allows.
abbrev pub fuel_for : Cursor → ℕ
fuel_for c = suc (length c.inv.postings)

-- The `while` loop of `evaluate`, on fuel.
unfoldable pub evaluate_loop : ℕ → ℕ → List Cursor → InvList → Option InvList
unfolding has_match_all get_match posting_lists within_doc store advance_past
evaluate_loop n fuel [] inv = none
evaluate_loop n zero (c ∷ cs) inv = none
evaluate_loop n (suc fuel) (c ∷ cs) inv = has_match_all (fuel_for c) (c ∷ cs) >>= λ (args, m).
    elim m [
      | none ↦ some inv
      | some _ ↦ elim args [
        | [] ↦ none
        | c_0 ∷ others ↦ get_match c_0 >>= λ docid. posting_lists (c_0 ∷ others) >>= λ lists.
            within_doc n lists >>= λ positions. store docid positions inv >>= λ inv'.
            advance_past docid c_0 >>= λ c_1. evaluate_loop n fuel (c_1 ∷ others) inv'
      ]
    ]

unfoldable pub evaluate : ℕ → String → List Cursor → Option InvList
unfolding evaluate_loop
evaluate n field [] = some (empty field)
evaluate n field (c ∷ cs) = evaluate_loop n (fuel_for c) (c ∷ cs) (empty field)
