-- ===== src/Agent/ToolNode.antt =====
-- The tool node of agentic/runtime.py: one round of tool calls within the budgets.
pub mod Calls
pub mod Rounds
use qry_eval_plus.Prelude.{
  Bool, List, Option, [], false, if◌then◌else◌, leb, none, not, some, true, ℕ, ◌&&◌, ◌++◌, ◌+◌, ◌∷◌,
  ◌||◌,
}
use text.Mathlib.Text.{◌==◌ as str_eq}
use qry_eval_plus.Agent.State.{
  ToolName, search_bm25, search_dense, rerank, fuse_rankings, finish_research, unknown, Call,
  ToolResult, stored, research_finished, not_allowed, Budget, retrieval_budget, rerank_budget,
  fusion_budget, Outcome, ok, value_error, budget_exceeded, uncaught, ◌>>=◌, tool, tool_event,
  tool_budget_exhausted, tool_error_event, tool_failed, AgentState, Config, finished, max_steps,
  RankingId,
}
use qry_eval_plus.Agent.Toolbox.{Backend, ToolRun, then_run, execute}
use qry_eval_plus.Agent.Planner.{force_finish}

abbrev pub same_tool : ToolName → ToolName → Bool
same_tool search_bm25 search_bm25 = true
same_tool search_dense search_dense = true
same_tool rerank rerank = true
same_tool fuse_rankings fuse_rankings = true
same_tool finish_research finish_research = true
same_tool (unknown a) (unknown b) = str_eq a b
same_tool _ _ = false

unfoldable pub contains : List ToolName → ToolName → Bool
contains [] name = false
contains (x ∷ xs) name = same_tool x name || contains xs name

abbrev within : ℕ → ℕ → Budget → Outcome (Unit {0})
within used limit b = if leb limit used then budget_exceeded b else ok tt

abbrev budget_for : Config → AgentState → ToolName → Outcome (Unit {0})
budget_for cfg s search_bm25 = within s.retrieval_calls cfg.max_retrieval_calls retrieval_budget
budget_for cfg s search_dense = within s.retrieval_calls cfg.max_retrieval_calls retrieval_budget
budget_for cfg s rerank = within s.rerank_calls cfg.max_rerank_calls rerank_budget
budget_for cfg s fuse_rankings = within s.fusion_calls cfg.max_fusion_calls fusion_budget
budget_for cfg s _ = ok tt

unfoldable pub check_tool_budget : Config → ToolName → AgentState → Outcome (Unit {0})
check_tool_budget cfg name s =
    if contains cfg.allowed_tools name then budget_for cfg s name else value_error not_allowed

unfoldable pub count_tool : ToolName → AgentState → AgentState
count_tool search_bm25 s = record s { retrieval_calls = s.retrieval_calls + 1 }
count_tool search_dense s = record s { retrieval_calls = s.retrieval_calls + 1 }
count_tool rerank s = record s { rerank_calls = s.rerank_calls + 1 }
count_tool fuse_rankings s = record s { fusion_calls = s.fusion_calls + 1 }
count_tool _ s = s

unfoldable pub bump_usage : ToolName → List (ToolName × ℕ) → List (ToolName × ℕ)
bump_usage name [] = (name, 1) ∷ []
bump_usage name ((k, v) ∷ m) =
    if same_tool k name then (k, v + 1) ∷ m else (k, v) ∷ bump_usage name m

-- A tool that finishes selects its ranking.
unfoldable pub finish_with : ToolResult → AgentState → AgentState
finish_with (research_finished id) s = record s {
  selected_ranking_id = some id;
  stop_reason = some finished;
}
finish_with (stored k source n) s = s

-- A tool that returns is counted.
unfoldable pub counted : ToolName → ToolRun → ToolRun
unfolding count_tool finish_with
counted name (s, ok result) = (finish_with result (count_tool name s), ok result)
counted name (s, failure) = (s, failure)

-- The body of the `try`: the state that it leaves and how it ends.
unfoldable pub attempt : Config → Backend → Call → AgentState → ToolRun
unfolding check_tool_budget counted
attempt cfg b call s =
    then_run s (check_tool_budget cfg call.name s)
      λ _. counted call.name (execute b call.name call.arguments s)

-- The ways out of the `try` that are caught, each with its event and counter, and the tool's
-- message; another exception leaves the node.
unfoldable pub conclude : Call → ToolRun → Outcome AgentState
conclude call (s, ok result) = ok (record s {
  trajectory = s.trajectory ++ tool_event call.id call.name result ∷ [];
  messages = s.messages ++ tool call.id call.name (ok result) ∷ [];
})
conclude call (s, budget_exceeded b) = ok (record s {
  budget_exhaustions = s.budget_exhaustions + 1;
  trajectory = s.trajectory ++ tool_budget_exhausted call.id call.name b ∷ [];
  messages = s.messages ++ tool call.id call.name (budget_exceeded b) ∷ [];
})
conclude call (s, value_error e) = ok (record s {
  tool_errors = s.tool_errors + 1;
  errors = s.errors ++ tool_failed call.name e ∷ [];
  trajectory = s.trajectory ++ tool_error_event call.id call.name e ∷ [];
  messages = s.messages ++ tool call.id call.name (value_error e) ∷ [];
})
conclude call (s, uncaught) = uncaught

-- The body of the `for` loop.
unfoldable pub run_call : Config → Backend → Call → AgentState → Outcome AgentState
unfolding attempt conclude bump_usage
run_call cfg b call s =
    let s' = record s {
      tool_calls = s.tool_calls + 1;
      tool_usage = bump_usage call.name s.tool_usage;
    } in
    conclude call (attempt cfg b call s')

abbrev pub is_selected : Option RankingId → Bool
is_selected (some id) = true
is_selected none = false

-- The `for` loop, with its `break`.
unfoldable pub run_calls : Config → Backend → List Call → AgentState → Outcome AgentState
unfolding run_call
run_calls cfg b [] s = ok s
run_calls cfg b (call ∷ calls) s = run_call cfg b call s >>= λ s'.
    let later = run_calls cfg b calls s' in
    if is_selected s'.selected_ranking_id then ok s' else later

abbrev pub stop_at_limit : Config → AgentState → AgentState
stop_at_limit cfg s =
    if leb cfg.max_turns s.turns && not (is_selected s.selected_ranking_id)
    then force_finish s max_steps
    else s

unfoldable pub tool_node : Config → Backend → AgentState → Outcome AgentState
unfolding run_calls force_finish
tool_node cfg b s =
    run_calls cfg b s.pending_tool_calls (record s { pending_tool_calls = [] }) >>= λ s'.
    ok (stop_at_limit cfg s')
