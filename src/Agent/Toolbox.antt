-- ===== src/Agent/Toolbox.antt =====
-- `AgentToolbox.execute` of agentic/tools.py: validated arguments, the rankings of the state, and
-- the search back ends, which are an argument: a call of one returns, or fails by a `ValueError`,
-- which the tool node catches, or raises another exception, which nothing catches. The fusion of
-- rankings is an argument that returns.
pub mod Ends
pub mod Runs
pub mod Cases
use qry_eval_plus.Prelude.{
  Bool, List, Option, [], if◌then◌else◌, leb, length, none, some, true, ℕ, ◌&&◌, ◌++◌, ◌+◌, ◌==◌,
  ◌∷◌,
}
use Prim.Native.String.{String, count}
use qry_eval_plus.Agent.State.{
  RankingId, r, other, ToolName, search_bm25, search_dense, rerank, fuse_rankings, finish_research,
  unknown, Arguments, search_args, rerank_args, fuse_args, finish_args, Ranking, Source, bm25,
  dense, reranked, rrf, RankingRecord, ToolResult, stored, research_finished, invalid_arguments,
  unknown_ranking, unknown_tool, backend_error, Outcome, ok, value_error, budget_exceeded, uncaught,
  ◌>>=◌, AgentState,
}

pub data Fetched (A : Type 0) : Type 0 where
  fetched : A → Fetched A
  refused raised : Fetched A

-- `evidence` reads the passages of a ranking that was stored for a query.
pub record Backend : Type 0 where
  pub bm25_search : (qid question query : String) → Fetched Ranking
  pub dense_search : (qid query : String) → Fetched Ranking
  pub rerank_results : (qid query : String) → Ranking → Fetched Ranking
  pub fuse : List Ranking → Ranking
  pub evidence : (query : String) → Ranking → Fetched (Unit {0})

-- The constraints of `SearchArgs`, `RerankArgs`, `FuseArgs` and `FinishArgs`.
abbrev query_fits : String → Bool
query_fits query = leb 1 (count query) && leb (count query) 500

abbrev id_fits : RankingId → Bool
id_fits (r k) = true
id_fits (other s) = leb 1 (count s)

abbrev require : {A : Type 0} → Bool → A → Outcome A
require test a = if test then ok a else value_error invalid_arguments

unfoldable pub validate_search : Arguments → Outcome String
validate_search (search_args query) = require (query_fits query) query
validate_search _ = value_error invalid_arguments

unfoldable pub validate_rerank : Arguments → Outcome (RankingId × String)
validate_rerank (rerank_args id query) = require (id_fits id && query_fits query) (id, query)
validate_rerank _ = value_error invalid_arguments

unfoldable pub validate_fuse : Arguments → Outcome (List RankingId)
validate_fuse (fuse_args ids) = require (leb 2 (length ids) && leb (length ids) 4) ids
validate_fuse _ = value_error invalid_arguments

unfoldable pub validate_finish : Arguments → Outcome RankingId
validate_finish (finish_args id) = require (id_fits id) id
validate_finish _ = value_error invalid_arguments

-- A dictionary's lookup.
unfoldable pub lookup_ranking : ℕ → List (ℕ × RankingRecord) → Option RankingRecord
lookup_ranking k [] = none
lookup_ranking k ((j, v) ∷ m) = if j == k then some v else lookup_ranking k m

-- `_record`: a missing key is a `ValueError`.
unfoldable pub record_of : AgentState → RankingId → Outcome RankingRecord
unfolding lookup_ranking
record_of s (other id) = value_error unknown_ranking
record_of s (r k) = elim (lookup_ranking k s.rankings) [
  | some v ↦ ok v
  | none ↦ value_error unknown_ranking
]

unfoldable pub rankings_of : AgentState → List RankingId → Outcome (List Ranking)
unfolding record_of
rankings_of s [] = ok []
rankings_of s (id ∷ ids) = do v ← record_of s id; vs ← rankings_of s ids; ok (v.ranking ∷ vs)

-- `_store_ranking`: the new id counts the rankings stored so far.
unfoldable pub store_ranking : Source → String → Ranking → AgentState → AgentState × ToolResult
store_ranking source query ranking s =
    let k = length s.ranking_order + 1 in
    let stored_record : RankingRecord = record {
      ranking_id = k;
      source = source;
      query = query;
      ranking = ranking;
    } in
    (
      record s {
        rankings = s.rankings ++ (k, stored_record) ∷ [];
        ranking_order = s.ranking_order ++ k ∷ [];
      },
      stored k source (length ranking),
    )

unfoldable pub found : {A : Type 0} → Fetched A → Outcome A
found (fetched a) = ok a
found refused = value_error backend_error
found raised = uncaught

-- What a tool has done to the state when it ends, and how it ends.
abbrev pub ToolRun : Type 0
ToolRun = AgentState × Outcome ToolResult

-- What is computed before the state is changed: an exception leaves the state as it is.
abbrev pub then_run : {A : Type 0} → AgentState → Outcome A → (A → ToolRun) → ToolRun
then_run s (ok a) f = f a
then_run s (budget_exceeded b) f = (s, budget_exceeded b)
then_run s (value_error e) f = (s, value_error e)
then_run s uncaught f = (s, uncaught)

-- `_store_ranking` with its evidence: the ranking is stored before its passages are read, and stays
-- when they cannot be.
unfoldable pub store_with_evidence : Backend → Source → String → Ranking → AgentState → ToolRun
unfolding store_ranking found
store_with_evidence b source query ranking s =
    let (s', result) = store_ranking source query ranking s in
    (s', found (b.evidence query ranking) >>= λ _. ok result)

-- What each tool finds, for its query.
unfoldable pub search_found :
    Outcome String → (String → Fetched Ranking) → Outcome (String × Ranking)
unfolding found
search_found validated search = do
  query ← validated
  ranking ← found (search query)
  ok (query, ranking)

unfoldable pub execute : Backend → ToolName → Arguments → AgentState → ToolRun
unfolding validate_search validate_rerank validate_fuse validate_finish record_of rankings_of
    search_found store_with_evidence found
execute b search_bm25 arguments s =
    then_run s (search_found (validate_search arguments) (b.bm25_search s.qid s.question))
      λ (query, ranking). store_with_evidence b bm25 query ranking s
execute b search_dense arguments s =
    then_run s (search_found (validate_search arguments) (b.dense_search s.qid))
      λ (query, ranking). store_with_evidence b dense query ranking s
execute b rerank arguments s =
    then_run s
      (do
        (id, query) ← validate_rerank arguments
        v ← record_of s id
        ranking ← found (b.rerank_results s.qid query v.ranking)
        ok (query, ranking))
      λ (query, ranking). store_with_evidence b reranked query ranking s
execute b fuse_rankings arguments s =
    then_run s (do ids ← validate_fuse arguments; rankings_of s ids)
      λ rankings. store_with_evidence b rrf s.question (b.fuse rankings) s
execute b finish_research arguments s =
    then_run s (do id ← validate_finish arguments; _ ← record_of s id; ok id)
      λ id. (s, ok (research_finished id))
execute b (unknown name) arguments s = (s, value_error unknown_tool)
