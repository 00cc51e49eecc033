-- ===== src/Rewrite.antt =====
-- The agent that rewrites a query at most once: RewriteRagAgent._execute_one of
-- src/qryeval_plus/agentic/rewrite.py. The question and the controller's query are given without
-- spaces at their ends. The calls of the controller (none where the provider fails), the passages of
-- a ranking and the normalized answer on them (none where the provider fails) are arguments; a
-- raised exception is `none`. Features, usage, costs and latencies are left out.
pub mod Searches
pub mod Evidence
pub mod Answered
mod Tests
use qry_eval_plus.Prelude.{
  Bool, List, Option, [], false, if◌then◌else◌, leb, none, some, true, ℕ, ◌&&◌, ◌==◌, ◌>>=◌, ◌∷◌,
  ◌||◌,
}
use Prim.Native.String.{String, count}
use qry_eval_plus.Text.{Text, strip}
use qry_eval_plus.Grounding.{Status, abstained, grounding_status}
use qry_eval_plus.Agent.State.{
  r, search_bm25, search_args, Ranking, RankingRecord, ToolResult, stored, Outcome, ok, AgentState,
  initial,
}
use qry_eval_plus.Agent.Toolbox.{Backend, ToolRun, execute, lookup_ranking}

pub data Policy : Type 0 where
  always adaptive : Policy

-- A tool call of the controller, by its name.
pub data Action : Type 0 where
  rewrite_query : (query : String) → Action
  finish : Action
  another : Action

pub data StopReason : Type 0 where
  empty_retrieval rewritten initial_sufficient : StopReason

pub record Result : Type 0 where
  pub ranking : Ranking
  pub answer : Text
  pub status : Status
  pub rewritten_query : Option String
  pub retrieval_calls : ℕ
  pub llm_calls : ℕ
  pub stop_reason : StopReason
  pub selected : Option ℕ

abbrev is_empty : Text → Bool
is_empty [] = true
is_empty (c ∷ s) = false

abbrev no_results : Ranking → Bool
no_results [] = true
no_results (x ∷ xs) = false

-- `not any(str(item).strip() for item in passages)`
unfoldable pub all_blank : List Text → Bool
unfolding strip
all_blank [] = true
all_blank (p ∷ ps) = is_empty (strip p) && all_blank ps

-- The single call that is allowed: the query to rewrite to, or to keep the first ranking.
unfoldable pub decide : Policy → List Action → Option (Option String)
decide policy (rewrite_query query ∷ []) =
    if leb 1 (count query) && leb (count query) 300 then some (some query) else none
decide adaptive (finish ∷ []) = some none
decide _ _ = none

-- A failure of the search, or of the reading of its evidence, is not caught.
abbrev pub stored_id : ToolRun → Option (AgentState × ℕ)
stored_id (s, ok (stored k source n)) = some (s, k)
stored_id _ = none

unfoldable pub search : Backend → String → AgentState → Option (AgentState × ℕ)
unfolding execute
search b query s = stored_id (execute b search_bm25 (search_args query) s)

abbrev pub calls_for : Option String → ℕ
calls_for none = 1
calls_for (some query) = 2

abbrev pub reason_for : Option String → StopReason
reason_for none = initial_sufficient
reason_for (some query) = rewritten

-- No controller is called on an empty ranking, and no ranking is named as the selected one.
abbrev pub nothing_found : Result
nothing_found = record {
  ranking = [];
  answer = [];
  status = abstained;
  rewritten_query = none;
  retrieval_calls = 1;
  llm_calls = 0;
  stop_reason = empty_retrieval;
  selected = none;
}

abbrev pub no_evidence : (RankingRecord → List Text) → RankingRecord → Bool
no_evidence passages_of v = no_results v.ranking || all_blank (passages_of v)

module _ (passages_of : RankingRecord → List Text) (generate : List Text → Option Text)
    (lowercase : Text → Text) (num den : ℕ) where
  abbrev pub result : Option String → ℕ → RankingRecord → Text → ℕ → StopReason → Result
  result rewritten_query k v answer llm_calls reason = record {
    ranking = v.ranking;
    answer = answer;
    status = grounding_status lowercase num den answer (passages_of v);
    rewritten_query = rewritten_query;
    retrieval_calls = calls_for rewritten_query;
    llm_calls = llm_calls;
    stop_reason = reason;
    selected = some k;
  }

  -- The answer from the selected ranking.
  unfoldable pub answer_from : Option String → ℕ → RankingRecord → Option Result
  unfolding all_blank grounding_status
  answer_from rewritten_query k v =
      if no_evidence passages_of v
      then some (result rewritten_query k v [] 1 empty_retrieval)
      else (generate (passages_of v) >>= λ answer.
          if is_empty answer
          then none
          else some (result rewritten_query k v answer 2 (reason_for rewritten_query)))

  abbrev pub answer_selected : Option String → AgentState × ℕ → Option (AgentState × Result)
  answer_selected rewritten_query (s, k) =
      lookup_ranking k s.rankings >>= λ v. answer_from rewritten_query k v >>= λ res. some (s, res)

  module _ (b : Backend) where
    abbrev pub follow : AgentState × ℕ → Option String → Option (AgentState × Result)
    follow first none = answer_selected none first
    follow first (some query) =
        search b query first.0 >>= λ second. answer_selected (some query) second

    unfoldable pub execute_one :
        Policy → Option (List Action) → String → String → Option (AgentState × Result)
    unfolding initial lookup_ranking decide search answer_from
    execute_one policy controller qid question =
        if count question == 0
        then none
        else (search b question (initial qid question []) >>= λ (s, k).
            lookup_ranking k s.rankings >>= λ v.
            if no_results v.ranking
            then some (s, nothing_found)
            else (controller >>= λ actions.
                decide policy actions >>= λ choice. follow (s, k) choice))
