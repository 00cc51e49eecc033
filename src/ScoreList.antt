-- ===== src/ScoreList.antt =====
-- The list of document scores: src/qryeval_plus/core/ScoreList.py. A score is of any type, and a
-- read out of range, an IndexError, is `none`. An index is not negative.

use qry_eval_plus.Prelude.{List, Option, [], get_elem?, some, ℕ, ◌++◌, ◌>>=◌, ◌∷◌}

record ScoreListEntry (S : Type 0) : Type 0 where
  docid : ℕ
  score : S

module _ {S : Type 0} where
  unfoldable add : ℕ → S → List (ScoreListEntry S) → List (ScoreListEntry S)
  add docid score scores = scores ++ record { docid = docid; score = score } ∷ []

  unfoldable get_docid : ℕ → List (ScoreListEntry S) → Option ℕ
  get_docid n scores = get_elem? scores n >>= λ e. some e.docid

  unfoldable get_docid_score : ℕ → List (ScoreListEntry S) → Option S
  get_docid_score n scores = get_elem? scores n >>= λ e. some e.score
