-- ===== src/Agent/Graph.antt =====
-- The graph of agentic/runtime.py: the answer node, the routes, and the run from the planner to the
-- answer, on fuel. The generator is an argument: what the model answers on a ranking's passages. The
-- fuel of a run is the recursion limit of the graph, which is LangGraph's: the number of nodes that
-- may run, and `none` is its GraphRecursionError.
pub mod Answers
pub mod Total
use qry_eval_plus.Prelude.{
  Bool, List, Option, [], false, if◌then◌else◌, none, some, suc, true, zero, ℕ, ◌++◌, ◌+◌, ◌∷◌,
}
use Prim.Native.String.{String}
use text.Mathlib.Text.{◌==◌ as str_eq}
use qry_eval_plus.Agent.State.{
  Call, Event, answer_event, answer_error_event, AgentError, provider_failed, Outcome, ok, uncaught,
  ◌>>=◌, AgentState, Config, StopReason, answer_error, no_ranking, RankingId, RankingRecord,
}
use qry_eval_plus.Agent.Toolbox.{Backend, record_of}
use qry_eval_plus.Agent.Planner.{Model, planner_node, merge_usage, add_model}
use qry_eval_plus.Agent.ToolNode.{tool_node, is_selected}

pub data Generated : Type 0 where
  generated : (answer model : String) (duration : ℕ) (usage : List (String × ℕ)) → Generated
  generation_failed : (error : String) → Generated
  generation_raised : Generated

abbrev pub Generator : Type 0
Generator = ℕ → String → RankingRecord → Generated

-- The provider's errors are caught; what the reading of the passages raises is not.
unfoldable pub take_answer : RankingId → Generated → AgentState → Outcome AgentState
unfolding merge_usage
take_answer id (generated answer model duration usage) s = ok (record s {
  answer = answer;
  llm_calls = s.llm_calls + 1;
  llm_duration = s.llm_duration + duration;
  usage = merge_usage s.usage usage;
  response_models = add_model model s.response_models;
  trajectory = s.trajectory ++ answer_event id answer ∷ [];
})
take_answer id (generation_failed error) s = ok (record s {
  answer = "";
  errors = s.errors ++ provider_failed error ∷ [];
  stop_reason = some answer_error;
  trajectory = s.trajectory ++ answer_error_event error ∷ [];
})
take_answer id generation_raised s = uncaught

abbrev or_no_ranking : Option StopReason → StopReason
or_no_ranking (some reason) = reason
or_no_ranking none = no_ranking

-- With a selected ranking; a missing one is an uncaught `ValueError`.
unfoldable pub answer_with : Generator → Option RankingId → AgentState → Outcome AgentState
unfolding take_answer record_of
answer_with g none s =
    ok (record s { answer = ""; stop_reason = some (or_no_ranking s.stop_reason) })
answer_with g (some id) s = record_of s id >>= λ v. take_answer id (g s.llm_calls s.question v) s

unfoldable pub answer_node : Generator → AgentState → Outcome AgentState
unfolding answer_with
answer_node g s = answer_with g s.selected_ranking_id s

pub data Node : Type 0 where
  planner tools answer : Node

unfoldable pub route_after_planner : AgentState → Node
route_after_planner s = elim s.pending_tool_calls [ [] ↦ answer | call ∷ calls ↦ tools ]

abbrev is_stopped : Option StopReason → Bool
is_stopped (some reason) = true
is_stopped none = false

unfoldable pub route_after_tools : AgentState → Node
route_after_tools s =
    if is_selected s.selected_ranking_id
    then answer
    else (if is_stopped s.stop_reason then answer else planner)

-- An exception that leaves a node ends the run.
abbrev after :
    Outcome AgentState → (AgentState → Option (Outcome AgentState)) → Option (Outcome AgentState)
after (ok s) f = f s
after failure f = some failure

module _ (cfg : Config) (model : Model) (b : Backend) (g : Generator) where
  unfoldable pub run : ℕ → Node → AgentState → Option (Outcome AgentState)
  unfolding planner_node tool_node answer_node route_after_planner route_after_tools
  run zero node s = none
  run (suc fuel) planner s =
      let s' = planner_node cfg model s in run fuel (route_after_planner s') s'
  run (suc fuel) tools s = after (tool_node cfg b s) (λ s'. run fuel (route_after_tools s') s')
  run (suc fuel) answer s = some (answer_node g s)

  abbrev pub answer_query : (recursion_limit : ℕ) → AgentState → Option (Outcome AgentState)
  answer_query recursion_limit = run recursion_limit planner
