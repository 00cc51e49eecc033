-- ===== src/Ranking.antt =====
-- The search ranking: src/qryeval_plus/core/Ranking.py. A score and an external id are of any type
-- with the comparisons that the code makes of them, and the external id of a document is looked up
-- in the index.

pub mod Sorted
mod Tests
use qry_eval_plus.Prelude.{Bool, List, [], if◌then◌else◌, map, not, take, ℕ, ◌&&◌, ◌++◌, ◌∷◌, ◌||◌}

pub record Entry (S I : Type 0) : Type 0 where
  pub score : S
  pub external_id : I

module _ {S I : Type 0} (less : S → S → Bool) (earlier : I → I → Bool) where
  -- The sort's key is `(-score, externalId)`, compared as Python compares tuples.
  unfoldable pub key_less : Entry S I → Entry S I → Bool
  key_less r q =
      less q.score r.score || (not (less r.score q.score) && earlier r.external_id q.external_id)

  -- Python's sort is stable: an entry stays behind those before it with an equal key.
  unfoldable pub sort_insert : Entry S I → List (Entry S I) → List (Entry S I)
  unfolding key_less
  sort_insert r [] = r ∷ []
  sort_insert r (q ∷ qs) =
      let rest = sort_insert r qs in if key_less r q then r ∷ q ∷ qs else q ∷ rest

  unfoldable pub sorted_into : List (Entry S I) → List (Entry S I) → List (Entry S I)
  unfolding sort_insert
  sorted_into done [] = done
  sorted_into done (r ∷ rs) = sorted_into (sort_insert r done) rs

  -- `get_ranking`
  unfoldable pub get_ranking : ℕ → List (Entry S I) → List (S × I)
  unfolding sorted_into
  get_ranking max_size ranking =
      take max_size (map (λ r. (r.score, r.external_id)) (sorted_into [] ranking))

-- `add`, with the index's lookup of the external id.
unfoldable pub add : {S I : Type 0} → (ℕ → I) → ℕ → S → List (Entry S I) → List (Entry S I)
add external internal_id score ranking =
    ranking ++ record { score = score; external_id = external internal_id } ∷ []
