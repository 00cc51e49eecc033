-- ===== src/Agent/Invariant.antt =====
-- What holds of the agent's state while it runs and when it has stopped.
use qry_eval_plus.Prelude.{[], none, some, ℕ, ◌*◌, ◌+◌, ◌≡◌, ◌≤◌}
use qry_eval_plus.Agent.State.{
  RankingId, AgentState, Config, RankingRecord, StopReason, finished, ok,
}
use qry_eval_plus.Agent.Toolbox.{record_of}
use qry_eval_plus.Agent.Toolbox.Cases.{IsStored}

-- The limits of the configuration.
pub record IsBounded (cfg : Config) (s : AgentState) : Type 0 where
  pub turns_within : s.turns ≤ cfg.max_turns
  pub retrieval_within : s.retrieval_calls ≤ cfg.max_retrieval_calls
  pub rerank_within : s.rerank_calls ≤ cfg.max_rerank_calls
  pub fusion_within : s.fusion_calls ≤ cfg.max_fusion_calls
  pub llm_within : s.llm_calls ≤ cfg.max_turns * (cfg.max_planner_retries + 1)
  pub stored : IsStored s.rankings s.ranking_order

-- The tool calls that a counter other than `tool_calls` accounts for.
abbrev pub accounted_calls : AgentState → ℕ
accounted_calls s =
    s.retrieval_calls + s.rerank_calls + s.fusion_calls + s.tool_errors + s.budget_exhaustions

-- While it runs; `k` tool calls have begun and not ended.
pub record IsRunning (cfg : Config) (k : ℕ) (s : AgentState) : Type 0 where
  pub bounded : IsBounded cfg s
  pub llm_so_far : s.llm_calls ≤ s.turns * (cfg.max_planner_retries + 1)
  pub nothing_selected : s.selected_ranking_id ≡ none
  pub going : s.stop_reason ≡ none
  pub accounted : s.tool_calls ≡ accounted_calls s + k

-- The selected ranking is a stored one; none is selected only if none is stored.
pub data Choice (s : AgentState) : Type 0 where
  nothing_stored : s.selected_ranking_id ≡ none → s.ranking_order ≡ [] → Choice s
  chosen :
      (id : RankingId) (v : RankingRecord)
      → s.selected_ranking_id ≡ some id
      → record_of s id ≡ ok v
      → Choice s

-- Only a tool call that finished the research is counted by no other counter.
abbrev pub finishes : StopReason → ℕ
finishes finished = 1
finishes _ = 0

pub record IsStopped (cfg : Config) (s : AgentState) : Type 0 where
  pub bounded : IsBounded cfg s
  pub reason : StopReason
  pub stopped : s.stop_reason ≡ some reason
  pub idle : s.pending_tool_calls ≡ []
  pub choice : Choice s
  pub accounted : s.tool_calls ≡ accounted_calls s + finishes reason
