-- ===== src/Agent/State.antt =====
-- The typed state of the graph: agentic/state.py, with the dictionaries that runtime.py puts into
-- it. Ranking ids that the toolbox makes, "r1", "r2", …, are numbers; any other text that a model
-- may send is `other`. Durations and token counts are whole numbers of a small unit.
use qry_eval_plus.Prelude.{List, Option, [], none, ℕ}
use Prim.Native.String.{String}

pub data RankingId : Type 0 where
  r : ℕ → RankingId
  other : String → RankingId

pub data ToolName : Type 0 where
  search_bm25 search_dense rerank fuse_rankings finish_research : ToolName
  unknown : String → ToolName

-- What the model sends as a tool's arguments. `other_args` is any object of another shape.
pub data Arguments : Type 0 where
  search_args : (query : String) → Arguments
  rerank_args : (ranking_id : RankingId) (query : String) → Arguments
  fuse_args : (ranking_ids : List RankingId) → Arguments
  finish_args : (ranking_id : RankingId) → Arguments
  other_args : Arguments

pub record Call : Type 0 where
  pub id : String
  pub name : ToolName
  pub arguments : Arguments

-- Scored documents, best first. A score is compared nowhere in the graph.
abbrev pub Ranking : Type 0
Ranking = List (ℕ × String)

pub data Source : Type 0 where
  bm25 dense reranked rrf : Source

pub record RankingRecord : Type 0 where
  pub ranking_id : ℕ
  pub source : Source
  pub query : String
  pub ranking : Ranking

pub data StopReason : Type 0 where
  finished max_steps model_finalize model_stop_no_ranking planner_error answer_error no_ranking :
      StopReason

-- What a tool returns to the model.
pub data ToolResult : Type 0 where
  stored : (ranking_id : ℕ) (source : Source) (result_count : ℕ) → ToolResult
  research_finished : (ranking_id : RankingId) → ToolResult

pub data ToolError : Type 0 where
  not_allowed unknown_tool invalid_arguments unknown_ranking backend_error : ToolError

pub data Budget : Type 0 where
  retrieval_budget rerank_budget fusion_budget : Budget

-- `ToolBudgetExceeded` apart from the other `ValueError`s, and `uncaught` for an exception that the
-- tool node does not catch.
pub data Outcome (A : Type 0) : Type 0 where
  ok : A → Outcome A
  budget_exceeded : Budget → Outcome A
  value_error : ToolError → Outcome A
  uncaught : Outcome A

infixl 5 ◌>>=◌
abbrev pub ◌>>=◌ : {A B : Type 0} → Outcome A → (A → Outcome B) → Outcome B
ok a >>= f = f a
budget_exceeded b >>= f = budget_exceeded b
value_error e >>= f = value_error e
uncaught >>= f = uncaught

pub data Message : Type 0 where
  system user : String → Message
  assistant : (content : String) (tool_calls : List Call) → Message
  tool : (tool_call_id : String) (name : ToolName) (content : Outcome ToolResult) → Message

pub data Event : Type 0 where
  planner_event : (turn : ℕ) (tool_calls : List Call) → Event
  planner_retry : (attempt : ℕ) (error : String) → Event
  model_finalize_event : Event
  planner_error_event : (error : String) → Event
  tool_event : (tool_call_id : String) (name : ToolName) (result : ToolResult) → Event
  tool_budget_exhausted : (tool_call_id : String) (name : ToolName) (budget : Budget) → Event
  tool_error_event : (tool_call_id : String) (name : ToolName) (error : ToolError) → Event
  answer_event : (ranking_id : RankingId) (answer : String) → Event
  answer_error_event : (error : String) → Event

pub data AgentError : Type 0 where
  provider_failed : String → AgentError
  no_tool_call : AgentError
  tool_failed : ToolName → ToolError → AgentError

pub record AgentState : Type 0 where
  pub qid : String
  pub question : String
  pub messages : List Message
  pub rankings : List (ℕ × RankingRecord)
  pub ranking_order : List ℕ
  pub pending_tool_calls : List Call
  pub trajectory : List Event
  pub errors : List AgentError
  pub selected_ranking_id : Option RankingId
  pub stop_reason : Option StopReason
  pub answer : String
  pub turns : ℕ
  pub retrieval_calls : ℕ
  pub rerank_calls : ℕ
  pub fusion_calls : ℕ
  pub tool_calls : ℕ
  pub tool_errors : ℕ
  pub budget_exhaustions : ℕ
  pub tool_usage : List (ToolName × ℕ)
  pub llm_calls : ℕ
  pub llm_duration : ℕ
  pub usage : List (String × ℕ)
  pub response_models : List String

-- The state that `execute` starts a query with.
unfoldable pub initial : String → String → List Message → AgentState
initial qid question messages = record {
  qid = qid;
  question = question;
  messages = messages;
  rankings = [];
  ranking_order = [];
  pending_tool_calls = [];
  trajectory = [];
  errors = [];
  selected_ranking_id = none;
  stop_reason = none;
  answer = "";
  turns = 0;
  retrieval_calls = 0;
  rerank_calls = 0;
  fusion_calls = 0;
  tool_calls = 0;
  tool_errors = 0;
  budget_exhaustions = 0;
  tool_usage = [];
  llm_calls = 0;
  llm_duration = 0;
  usage = [];
  response_models = [];
}

-- The limits that the constructor reads from the parameters.
pub record Config : Type 0 where
  pub max_turns : ℕ
  pub max_retrieval_calls : ℕ
  pub max_rerank_calls : ℕ
  pub max_fusion_calls : ℕ
  pub max_planner_retries : ℕ
  pub allowed_tools : List ToolName
