-- ===== src/Syn.antt =====
-- The SYN operator: src/qryeval_plus/query/QryIopSyn.py.
pub mod SortedSet
pub mod Union
pub mod First
pub mod Rounds
pub mod Meaning
mod Tests
use qry_eval_plus.Prelude.{
  List, Option, [], if◌then◌else◌, ltb, none, some, suc, zero, ℕ, ◌++◌, ◌==◌, ◌>>=◌, ◌∷◌,
}
use Prim.Native.String.{String}
use qry_eval_plus.InvList.{InvList, empty, append_posting}
use qry_eval_plus.Cursor.{
  Cursor, has_match, get_match, get_match_posting, advance_past, total_postings,
}

-- `minDocid` after an argument that points to a document.
abbrev pub earlier : Option ℕ → ℕ → ℕ
earlier none docid = docid
earlier (some best) docid = if ltb docid best then docid else best

abbrev pub look : Option ℕ → Cursor → Option (Option ℕ)
look best c =
    if has_match c then (get_match c >>= λ docid. some (some (earlier best docid))) else some best

-- The loop for the smallest document.
unfoldable pub min_docid : Option ℕ → List Cursor → Option (Option ℕ)
unfolding has_match get_match
min_docid best [] = some best
min_docid best (c ∷ cs) = look best c >>= λ best'. min_docid best' cs

-- An argument at the document gives its positions and moves past it.
abbrev pub gather : ℕ → Cursor → Option (List ℕ × Cursor)
gather docid c =
    if has_match c
    then (get_match c >>= λ d.
        if d == docid
        then (get_match_posting c >>= λ p. advance_past docid c >>= λ c'. some (p.positions, c'))
        else some ([], c))
    else some ([], c)

-- The loop for the locations.
unfoldable pub collect : ℕ → List Cursor → Option (List ℕ × List Cursor)
unfolding has_match get_match get_match_posting advance_past
collect docid [] = some ([], [])
collect docid (c ∷ cs) =
    gather docid c >>= λ (xs, c'). collect docid cs >>= λ (ys, cs'). some (xs ++ ys, c' ∷ cs')

-- `sorted(set(locations))`
abbrev pub insert_new : ℕ → List ℕ → List ℕ
insert_new x [] = x ∷ []
insert_new x (y ∷ ys) =
    if ltb x y then x ∷ y ∷ ys else (if x == y then y ∷ ys else y ∷ insert_new x ys)

unfoldable pub sorted_set : List ℕ → List ℕ
sorted_set [] = []
sorted_set (x ∷ xs) = insert_new x (sorted_set xs)

-- The `while` loop, on fuel.
unfoldable pub evaluate_loop : ℕ → List Cursor → InvList → Option InvList
unfolding min_docid collect sorted_set append_posting
evaluate_loop zero cs inv = none
evaluate_loop (suc fuel) cs inv = min_docid none cs >>= λ m. elim m [
  | none ↦ some inv
  | some docid ↦ collect docid cs >>= λ (locations, cs').
      append_posting docid (sorted_set locations) inv >>= λ (inv', _). evaluate_loop fuel cs' inv'
]

-- Each round of the outer loop moves an argument past a posting.
unfoldable pub evaluate : String → List Cursor → Option InvList
unfolding evaluate_loop
evaluate field [] = some (empty field)
evaluate field (c ∷ cs) = evaluate_loop (suc (total_postings (c ∷ cs))) (c ∷ cs) (empty field)
