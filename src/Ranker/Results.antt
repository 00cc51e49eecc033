-- ===== src/Ranker/Results.antt =====
-- The ranking of a query, from its cursors to the list that is returned.
use qry_eval_plus.Prelude.{
  Bool, List, [], ap, length, length-map, ltb, map, min, some, ℕ, ◌++◌, ◌<◌, ◌∙◌, ◌≡◌,
}
use mathlib.Core.List.{Perm}
use qry_eval_plus.Score.{Sop, RetrievalModel}
use qry_eval_plus.Score.Disjunction.{IsDisjunction}
use qry_eval_plus.Ranking.{Entry}
use qry_eval_plus.Ranking.Sorted.{IsOrder, ltb-IsOrder, IsRanked, get_ranking-Best}
use qry_eval_plus.Ranker.{rank_query}
use qry_eval_plus.Ranker.Past.{left, IsOr}
use qry_eval_plus.Ranker.Documents.{Lists, entry, rank_loop-Lists}

module _ {I : Type 0} (external : ℕ → I) (height : ℕ) (model : RetrievalModel) where
  -- For a query of OR and SCORE operators over ready cursors, a Boolean model, and ids that are
  -- compared by a strict weak order: with more rounds than postings, a ranking is returned. It holds
  -- the best of the documents that the query matches, each with its score, in descending order of
  -- scores and then by id, as many as there are or as the maximum allows.
  pub rank_query-Best :
      (earlier : I → I → Bool) (max_results rounds : ℕ) (q : Sop)
      → IsOrder earlier
      → IsDisjunction height q
      → IsOr q
      → left q < rounds
      → (found : List (ℕ × ℕ)) × (kept : List (Entry ℕ I)) × (cut : List (Entry ℕ I)) × (rank_query
            external height model ltb earlier max_results rounds q
          ≡ some (map (λ r. (r.score, r.external_id)) kept))
        × Lists model q found
        × Perm (kept ++ cut) (map (entry external height model) found)
        × IsRanked ltb earlier (kept ++ cut)
        × (length kept ≡ min max_results (length found))
  unfolding rank_query
  rank_query-Best earlier max_results rounds q ids ready or_only enough =
      let (found, runs, l) =
        rank_loop-Lists external height model rounds q [] ready or_only enough in
      let (kept, cut, ranked, perm, order, size) =
        get_ranking-Best ltb earlier ltb-IsOrder ids max_results
          (map (entry external height model) found) in
      (
        found,
        kept,
        cut,
        rw (runs) (ap some ranked),
        l,
        perm,
        order,
        size ∙ ap (min max_results) (length-map (entry external height model) found),
      )
