-- ===== src/Agent/Planner.antt =====
-- The planner node of agentic/runtime.py. The language model is an argument: what it replies to
-- its n-th call, given the messages. It replies, or fails by one of the two errors that the node
-- catches.
pub mod Turns
use qry_eval_plus.Prelude.{
  List, Option, [], if◌then◌else◌, leb, none, some, suc, zero, ℕ, ◌++◌, ◌+◌, ◌>>=◌, ◌∷◌,
}
use Prim.Native.String.{String}
use text.Mathlib.Text.{◌==◌ as str_eq}
use qry_eval_plus.Agent.State.{
  Call, Message, assistant, planner_event, planner_retry, model_finalize_event, planner_error_event,
  provider_failed, no_tool_call, AgentState, Config, StopReason, max_steps, model_finalize,
  model_stop_no_ranking, planner_error, RankingId, r,
}

pub record Response : Type 0 where
  pub content : String
  pub tool_calls : List Call
  pub model : String
  pub duration : ℕ
  pub usage : List (String × ℕ)

-- `LLMProviderError` is retried, `NotImplementedError` is not.
pub data Reply : Type 0 where
  response : Response → Reply
  provider_error : String → Reply
  not_implemented : String → Reply

abbrev pub Model : Type 0
Model = ℕ → List Message → Reply

unfoldable pub add_usage : String → ℕ → List (String × ℕ) → List (String × ℕ)
add_usage key value [] = (key, value) ∷ []
add_usage key value ((k, v) ∷ total) =
    if str_eq k key then (k, v + value) ∷ total else (k, v) ∷ add_usage key value total

unfoldable pub merge_usage : List (String × ℕ) → List (String × ℕ) → List (String × ℕ)
unfolding add_usage
merge_usage total [] = total
merge_usage total ((key, value) ∷ usage) = merge_usage (add_usage key value total) usage

-- `list[-1]`, where the list is not empty.
abbrev pub last? {ℓ} : {A : Type ℓ} → List A → Option A
last? [] = none
last? (x ∷ []) = some x
last? (x ∷ y ∷ xs) = last? (y ∷ xs)

-- The selected ranking after a stop: the one selected before, or the last one stored.
unfoldable pub selection : Option RankingId → List ℕ → Option RankingId
selection (some id) order = some id
selection none order = last? order >>= λ k. some (r k)

unfoldable pub force_finish : AgentState → StopReason → AgentState
unfolding selection
force_finish s reason = record s {
  selected_ranking_id = selection s.selected_ranking_id s.ranking_order;
  stop_reason = some reason;
  pending_tool_calls = [];
}

-- The loop of `_complete_planner_with_retry`: `left` retries remain after this attempt.
unfoldable pub complete_planner : Model → ℕ → ℕ → AgentState → AgentState × Reply
complete_planner model zero attempt s =
    (record s { llm_calls = s.llm_calls + 1 }, model s.llm_calls s.messages)
complete_planner model (suc left) attempt s =
    let s' = record s { llm_calls = s.llm_calls + 1 } in
    elim (model s.llm_calls s.messages) [
      | provider_error error ↦
          complete_planner model left (attempt + 1)
            (record s' { trajectory = s'.trajectory ++ planner_retry (attempt + 1) error ∷ [] })
      | response a ↦ (s', response a)
      | not_implemented error ↦ (s', not_implemented error)
    ]

abbrev pub add_model : String → List String → List String
add_model model models = if str_eq model "" then models else models ++ model ∷ []

-- The state after a reply, before the case of no tool call.
unfoldable pub take_response : Response → AgentState → AgentState
unfolding merge_usage
take_response a s = record s {
  messages = s.messages ++ assistant a.content a.tool_calls ∷ [];
  pending_tool_calls = a.tool_calls;
  turns = s.turns + 1;
  llm_duration = s.llm_duration + a.duration;
  usage = merge_usage s.usage a.usage;
  response_models = add_model a.model s.response_models;
  trajectory = s.trajectory ++ planner_event (s.turns + 1) a.tool_calls ∷ [];
}

-- No tool call ends the research.
unfoldable pub stop_without_call : List Call → AgentState → AgentState
unfolding force_finish
stop_without_call (call ∷ calls) s = s
stop_without_call [] s = elim s.ranking_order [
  | [] ↦ force_finish (record s { errors = s.errors ++ no_tool_call ∷ [] }) model_stop_no_ranking
  | k ∷ order ↦
      force_finish (record s { trajectory = s.trajectory ++ model_finalize_event ∷ [] })
        model_finalize
]

unfoldable pub fail_planner : String → AgentState → AgentState
unfolding force_finish
fail_planner error s =
    force_finish
      (record s {
        errors = s.errors ++ provider_failed error ∷ [];
        trajectory = s.trajectory ++ planner_error_event error ∷ [];
      })
      planner_error

unfoldable pub after_reply : AgentState × Reply → AgentState
unfolding take_response stop_without_call fail_planner
after_reply (s, response a) = stop_without_call a.tool_calls (take_response a s)
after_reply (s, provider_error error) = fail_planner error s
after_reply (s, not_implemented error) = fail_planner error s

unfoldable pub planner_node : Config → Model → AgentState → AgentState
unfolding after_reply complete_planner force_finish
planner_node cfg model s =
    if leb cfg.max_turns s.turns
    then force_finish s max_steps
    else after_reply (complete_planner model cfg.max_planner_retries 0 s)
