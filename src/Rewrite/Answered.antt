-- ===== src/Rewrite/Answered.antt =====
-- What a run of the rewriting agent returns.
use qry_eval_plus.Prelude.{List, Option, [], length, none, some, ◌≡◌, ◌≤◌, ◌⊎◌}
use Prim.Native.String.{String}
use qry_eval_plus.Text.{Text}
use qry_eval_plus.Agent.State.{RankingRecord, AgentState}
use qry_eval_plus.Agent.Toolbox.{lookup_ranking}
use qry_eval_plus.Rewrite.{Policy, always, Result}
use qry_eval_plus.Rewrite.Evidence.{Answer}

abbrev pub query_of : String → Option String → String
query_of question none = question
query_of question (some query) = query

-- What the result says of the rankings that are stored, and of the answer on the last of them.
pub record IsAnswered (passages_of : RankingRecord → List Text) (generate : List Text → Option Text)
    (policy : Policy) (question : String) (s : AgentState) (res : Result) : Type 0 where
  pub counted : res.retrieval_calls ≡ length s.ranking_order
  pub at_most_two : res.retrieval_calls ≤ 2
  pub last :
      (res.selected ≡ some res.retrieval_calls) ⊎ ((res.selected ≡ none) × (res.ranking ≡ []))
  pub v : RankingRecord
  pub chosen : lookup_ranking res.retrieval_calls s.rankings ≡ some v
  pub same_ranking : res.ranking ≡ v.ranking
  pub searched_for : v.query ≡ query_of question res.rewritten_query
  pub forced : policy ≡ always → res.rewritten_query ≡ none → res.ranking ≡ []
  pub answered : Answer passages_of generate v res
