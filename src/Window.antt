-- ===== src/Window.antt =====
-- The WINDOW/n operator: src/qryeval_plus/query/QryIopWindow.py. The test that some term has run
-- out of positions is the loop that NEAR/n calls `outOfDoc`, and is taken from there.
pub mod Spans
pub mod Least
pub mod Step
pub mod Within
pub mod Moves
pub mod Align
pub mod Says
pub mod Document
pub mod Meaning
mod Tests
use qry_eval_plus.Prelude.{
  Bool, List, Option, [], false, get_elem?, if◌then◌else◌, leb, ltb, map, none, some, suc, true,
  zero, ℕ, ◌&&◌, ◌++◌, ◌+◌, ◌-◌, ◌==◌, ◌>>=◌, ◌∷◌,
}
use Prim.Native.String.{String}
use qry_eval_plus.InvList.{InvList, empty}
use qry_eval_plus.Cursor.{
  Cursor, has_match, get_match, advance_to, advance_past, posting_lists, total_postings,
}
use qry_eval_plus.Near.{out_of_doc, total_length, store}

-- The positions that the indices point to.
unfoldable pub current_positions : List ℕ → List (List ℕ) → Option (List ℕ)
current_positions (i ∷ is) (p ∷ ps) = do
  x ← get_elem? p i
  xs ← current_positions is ps
  some (x ∷ xs)
current_positions _ _ = some []

-- `min` and `max` of a list that is not empty.
abbrev pub smaller : ℕ → ℕ → ℕ
smaller x m = if ltb m x then m else x

abbrev pub larger : ℕ → ℕ → ℕ
larger x m = if ltb x m then m else x

unfoldable pub minimum : ℕ → List ℕ → ℕ
minimum x [] = x
minimum x (y ∷ ys) = smaller x (minimum y ys)

unfoldable pub maximum : ℕ → List ℕ → ℕ
maximum x [] = x
maximum x (y ∷ ys) = larger x (maximum y ys)

-- The loop for `min_val` and `min_idx_in_args`, from the index `i` on.
unfoldable pub lowest : ℕ → Option (ℕ × ℕ) → List ℕ → Option (ℕ × ℕ)
lowest i best [] = best
lowest i none (x ∷ xs) = lowest (i + 1) (some (x, i)) xs
lowest i (some (v, k)) (x ∷ xs) = lowest (i + 1) (if ltb x v then some (x, i) else some (v, k)) xs

-- `indices[k] += 1`
unfoldable pub bump : ℕ → List ℕ → List ℕ
bump k [] = []
bump zero (i ∷ is) = (i + 1) ∷ is
bump (suc k) (i ∷ is) = i ∷ bump k is

-- A round of the inner loop: the window is a match and all advance, or the lowest term does.
unfoldable pub step : ℕ → List ℕ → List ℕ → List ℕ → Option (List ℕ × List ℕ)
unfolding minimum maximum lowest bump
step n [] indices matches = none
step n (x ∷ xs) indices matches =
    if ltb (maximum x xs - minimum x xs) n
    then some (map (λ i. i + 1) indices, matches ++ maximum x xs ∷ [])
    else (lowest 0 none (x ∷ xs) >>= λ (v, k). some (bump k indices, matches))

-- The inner `while` loop, on fuel.
unfoldable pub window_loop : ℕ → ℕ → List ℕ → List (List ℕ) → List ℕ → Option (List ℕ)
unfolding out_of_doc current_positions step
window_loop n zero indices positions_lists matches = none
window_loop n (suc fuel) indices positions_lists matches =
    if out_of_doc indices positions_lists
    then some matches
    else (current_positions indices positions_lists >>= λ positions.
        step n positions indices matches >>= λ (indices', matches').
        window_loop n fuel indices' positions_lists matches')

-- `matches.sort()`
abbrev pub insert : ℕ → List ℕ → List ℕ
insert x [] = x ∷ []
insert x (y ∷ ys) = if leb x y then x ∷ y ∷ ys else y ∷ insert x ys

unfoldable pub sort : List ℕ → List ℕ
sort [] = []
sort (x ∷ xs) = insert x (sort xs)

-- The matches in one document, sorted. Each round moves an index, so as many rounds as there are
-- positions are enough.
unfoldable pub window_doc : ℕ → List (List ℕ) → Option (List ℕ)
unfolding window_loop sort
window_doc n positions_lists =
    window_loop n (suc (total_length positions_lists)) (map (λ _. 0) positions_lists)
      positions_lists []
    >>= λ matches. some (sort matches)

-- Whether every argument has a document, which the first loop of `evaluate` asks.
unfoldable pub all_have_match : List Cursor → Bool
unfolding has_match
all_have_match [] = true
all_have_match (c ∷ cs) = has_match c && all_have_match cs

-- `current_docids`
unfoldable pub current_docids : List Cursor → Option (List ℕ)
unfolding get_match
current_docids [] = some []
current_docids (c ∷ cs) = do d ← get_match c; ds ← current_docids cs; some (d ∷ ds)

-- An argument behind the document moves to it; the Boolean says that it still has a match.
unfoldable pub move_to : ℕ → Cursor → Option (Cursor × Bool)
unfolding get_match advance_to has_match
move_to max_docid c = get_match c >>= λ d.
    if ltb d max_docid
    then (advance_to max_docid c >>= λ c'. some (c', has_match c'))
    else some (c, true)

-- How the loop over the arguments ends: an argument is exhausted, or all have a document and the
-- Boolean is `all_match`.
pub data Aligned : Type 0 where
  exhausted : Aligned
  aligned : (all_match : Bool) → Aligned

abbrev pub also : Bool → Aligned → Aligned
also b exhausted = exhausted
also b (aligned all_match) = aligned (b && all_match)

unfoldable pub align : ℕ → List Cursor → Option (List Cursor × Aligned)
unfolding move_to get_match
align max_docid [] = some ([], aligned true)
align max_docid (c ∷ cs) = move_to max_docid c >>= λ (c', more).
    if more
    then (get_match c' >>= λ d.
        align max_docid cs >>= λ (cs', o). some (c' ∷ cs', also (d == max_docid) o))
    else some (c' ∷ cs, exhausted)

-- The loop that moves all arguments past a document; the Boolean says that all still have a match.
unfoldable pub advance_all : ℕ → List Cursor → Option (List Cursor × Bool)
unfolding advance_past has_match
advance_all max_docid [] = some ([], true)
advance_all max_docid (c ∷ cs) = advance_past max_docid c >>= λ c'.
    if has_match c'
    then (advance_all max_docid cs >>= λ (cs', more). some (c' ∷ cs', more))
    else some (c' ∷ cs, false)

-- A document that all arguments hold: its matches are stored, and all arguments move past it.
unfoldable pub take_document : ℕ → ℕ → List Cursor → InvList → Option (List Cursor × InvList × Bool)
unfolding posting_lists window_doc store advance_all
take_document n max_docid cs inv = do
  lists ← posting_lists cs
  matches ← window_doc n lists
  inv' ← store max_docid matches inv
  (cs', more) ← advance_all max_docid cs
  some (cs', inv', more)

-- A round of the outer loop; the Boolean says whether the loop goes on.
unfoldable pub after_align :
    ℕ → ℕ → InvList → List Cursor × Aligned → Option (List Cursor × InvList × Bool)
unfolding take_document
after_align n max_docid inv (cs, exhausted) = some (cs, inv, false)
after_align n max_docid inv (cs, aligned false) = some (cs, inv, true)
after_align n max_docid inv (cs, aligned true) = take_document n max_docid cs inv

unfoldable pub round : ℕ → List ℕ → List Cursor → InvList → Option (List Cursor × InvList × Bool)
unfolding maximum align after_align
round n [] cs inv = none
round n (d ∷ ds) cs inv = align (maximum d ds) cs >>= λ r. after_align n (maximum d ds) inv r

-- The outer `while` loop, on fuel.
unfoldable pub evaluate_loop : ℕ → ℕ → List Cursor → InvList → Option InvList
unfolding current_docids round
evaluate_loop n zero cs inv = none
evaluate_loop n (suc fuel) cs inv = current_docids cs >>= λ ds.
    round n ds cs inv >>= λ (cs', inv', more). elim more [
      | true ↦ evaluate_loop n fuel cs' inv'
      | false ↦ some inv'
    ]

-- Each round of the outer loop moves an argument past a posting.
unfoldable pub evaluate : ℕ → String → List Cursor → Option InvList
unfolding all_have_match evaluate_loop
evaluate n field [] = some (empty field)
evaluate n field (c ∷ cs) =
    if all_have_match (c ∷ cs)
    then evaluate_loop n (suc (total_postings (c ∷ cs))) (c ∷ cs) (empty field)
    else some (empty field)
