-- ===== src/Ranker.antt =====
-- The ranking of one query by a Boolean model: the loop of `get_rankings_bow` in
-- src/qryeval_plus/retrieval/Ranker.py, from the initialized query on, and the text that it parses.
-- The calls of the operators run on fuel `height`, the loop on `rounds`.
pub mod Past
pub mod Trees
pub mod Scores
pub mod Documents
pub mod Results
mod Tests
use qry_eval_plus.Prelude.{
  Bool, List, Option, [], false, if◌then◌else◌, none, some, suc, true, zero, ℕ, ◌++◌, ◌==◌, ◌>>=◌,
  ◌∷◌,
}
use Prim.Native.String.{String}
use qry_eval_plus.Text.{Text, codes, strip}
use qry_eval_plus.Score.{Sop, get_match, has_match, advance_past, RetrievalModel, get_score}
use qry_eval_plus.Ranking.{Entry, add, get_ranking}

abbrev join : List String → Text
join [] = []
join (t ∷ []) = codes t
join (t ∷ u ∷ ts) = codes t ++ b' ' ∷ join (u ∷ ts)

abbrev starts_operator : Text → Bool
starts_operator [] = false
starts_operator (c ∷ s) = c == b'#'

-- `_prepare_bow_query`
unfoldable pub prepare_bow_query : (Text → List String) → Text → Text → Text
unfolding strip
prepare_bow_query tokenize_string default_operator qstring =
    let value = strip qstring in
    default_operator
    ++ b'(' ∷ ((if starts_operator value then value else join (tokenize_string value)) ++ b')' ∷ [])

module _ {I : Type 0} (external : ℕ → I) (height : ℕ) (model : RetrievalModel) where
  -- Each round finds one matching document.
  unfoldable pub rank_loop : ℕ → Sop → List (Entry ℕ I) → Option (List (Entry ℕ I))
  unfolding has_match get_score advance_past add
  rank_loop zero q ranking = none
  rank_loop (suc rounds) q ranking = has_match height q >>= λ (q', b). elim b [
    | false ↦ some ranking
    | true ↦ get_match q' >>= λ docid. get_score height model q' >>= λ (q'', score).
        advance_past docid q'' >>= λ q3. rank_loop rounds q3 (add external docid score ranking)
  ]

  unfoldable pub rank_query : (ℕ → ℕ → Bool) → (I → I → Bool) → ℕ → ℕ → Sop → Option (List (ℕ × I))
  unfolding rank_loop get_ranking
  rank_query less earlier max_results rounds q =
      rank_loop rounds q [] >>= λ ranking. some (get_ranking less earlier max_results ranking)
