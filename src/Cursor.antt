-- ===== src/Cursor.antt =====
-- The iterators of an inverted-list operator: src/qryeval_plus/query/QryIop.py. A cursor is the
-- state of an initialized operator: its inverted list, `docIteratorIndex` and `locIteratorIndex`.
-- Each `while` loop recurs on the rounds that its bound leaves, `df - index` or `tf - index`.
pub mod Advance
pub mod Locations
pub mod Tests
use qry_eval_plus.Prelude.{
  Bool, List, Option, [], get_elem?, if◌then◌else◌, leb, length, ltb, some, suc, zero, ℕ, ◌+◌, ◌-◌,
  ◌>>=◌, ◌∷◌,
}
use qry_eval_plus.InvList.{DocPosting, InvList, get_docid, get_tf}

pub record Cursor : Type 0 where
  pub inv : InvList
  pub doc_index : ℕ
  pub loc_index : ℕ

-- The state that `initialize` leaves, after `evaluate` has built the list.
abbrev pub initialize : InvList → Cursor
initialize inv = record { inv = inv; doc_index = 0; loc_index = 0 }

-- The loop of both document advances: `skip` is the test of a document id.
unfoldable pub skip_docs : (ℕ → Bool) → InvList → ℕ → ℕ → Option ℕ
unfolding get_docid
skip_docs skip inv zero i = some i
skip_docs skip inv (suc rounds) i =
    let rest = skip_docs skip inv rounds (i + 1) in
    get_docid inv i >>= λ d. if skip d then rest else some i

unfoldable pub advance_past : ℕ → Cursor → Option Cursor
advance_past docid c =
    skip_docs (λ d. leb d docid) c.inv (c.inv.df - c.doc_index) c.doc_index >>= λ i.
    some (record c { doc_index = i; loc_index = 0 })

unfoldable pub advance_to : ℕ → Cursor → Option Cursor
advance_to docid c =
    skip_docs (λ d. ltb d docid) c.inv (c.inv.df - c.doc_index) c.doc_index >>= λ i.
    some (record c { doc_index = i; loc_index = 0 })

unfoldable pub finish : Cursor → Cursor
finish c = record c { doc_index = length c.inv.postings }

unfoldable pub get_match : Cursor → Option ℕ
unfolding get_docid
get_match c = get_docid c.inv c.doc_index

unfoldable pub get_match_posting : Cursor → Option DocPosting
get_match_posting c = get_elem? c.inv.postings c.doc_index

-- The positions of every argument's current posting.
unfoldable pub posting_lists : List Cursor → Option (List (List ℕ))
unfolding get_match_posting
posting_lists [] = some []
posting_lists (c ∷ cs) = do
  p ← get_match_posting c
  pss ← posting_lists cs
  some (p.positions ∷ pss)

unfoldable pub has_match : Cursor → Bool
has_match c = ltb c.doc_index c.inv.df

abbrev pub get_ctf : Cursor → ℕ
get_ctf c = c.inv.ctf

abbrev pub get_df : Cursor → ℕ
get_df c = c.inv.df

unfoldable pub loc_advance : Cursor → Cursor
loc_advance c = record c { loc_index = c.loc_index + 1 }

-- The loop of both location advances, over the positions of the current posting.
unfoldable pub skip_locs : (ℕ → Bool) → List ℕ → ℕ → ℕ → Option ℕ
skip_locs skip positions zero j = some j
skip_locs skip positions (suc rounds) j =
    let rest = skip_locs skip positions rounds (j + 1) in
    get_elem? positions j >>= λ loc. if skip loc then rest else some j

unfoldable pub loc_advance_past : ℕ → Cursor → Option Cursor
unfolding get_match_posting
loc_advance_past loc c = do
  p ← get_match_posting c
  j ← skip_locs (λ x. leb x loc) p.positions (p.tf - c.loc_index) c.loc_index
  some (record c { loc_index = j })

unfoldable pub loc_advance_to : ℕ → Cursor → Option Cursor
unfolding get_match_posting
loc_advance_to loc c = do
  p ← get_match_posting c
  j ← skip_locs (λ x. ltb x loc) p.positions (p.tf - c.loc_index) c.loc_index
  some (record c { loc_index = j })

unfoldable pub loc_finish : Cursor → Option Cursor
unfolding get_match_posting
loc_finish c = get_match_posting c >>= λ p. some (record c { loc_index = p.tf })

unfoldable pub loc_get_match : Cursor → Option ℕ
unfolding get_match_posting
loc_get_match c = get_match_posting c >>= λ p. get_elem? p.positions c.loc_index

unfoldable pub loc_has_match : Cursor → Option Bool
unfolding get_tf
loc_has_match c = get_tf c.inv c.doc_index >>= λ tf. some (ltb c.loc_index tf)

-- The postings of all arguments of an operator.
abbrev pub total_postings : List Cursor → ℕ
total_postings [] = 0
total_postings (c ∷ cs) = length c.inv.postings + total_postings cs
