-- ===== src/Agent/ToolNode/Calls.antt =====
-- How one tool call of the tool node ends.
use qry_eval_plus.Prelude.{
  Bool, [], arith, false, inl, inr, length, refl, some, true, ℕ, ◌+◌, ◌<◌, ◌∙◌, ◌≡◌, ◌⊎◌,
}
use Prim.Native.String.{String}
use qry_eval_plus.Agent.State.{
  ToolError, Budget, ToolName, search_bm25, search_dense, rerank, fuse_rankings, finish_research,
  unknown, Call, Ranking, Source, ok, value_error, budget_exceeded, AgentState, Config, RankingId,
  Outcome, uncaught, stored, backend_error, Arguments, RankingRecord, research_finished, finished,
}
use qry_eval_plus.Agent.Toolbox.{store_ranking, record_of, ToolRun}
use qry_eval_plus.Agent.Toolbox.Ends.{
  Escapes-Raises, Raises, Returns, by_bm25, by_dense, by_rerank, by_fusion, Executed, failed,
  escaped, stored_one, stored_unread, finished_with,
}
use qry_eval_plus.Agent.Toolbox.Cases.{store_ranking-IsStored, record_of-same}
use qry_eval_plus.Agent.ToolNode.{
  check_tool_budget, count_tool, finish_with, conclude, bump_usage, Backend, counted,
}
use qry_eval_plus.Agent.Invariant.{IsBounded, IsRunning, IsStopped, chosen}

-- The tool still has a call left.
abbrev pub Fits : Config → AgentState → ToolName → Type 0
Fits cfg s search_bm25 = s.retrieval_calls < cfg.max_retrieval_calls
Fits cfg s search_dense = s.retrieval_calls < cfg.max_retrieval_calls
Fits cfg s rerank = s.rerank_calls < cfg.max_rerank_calls
Fits cfg s fuse_rankings = s.fusion_calls < cfg.max_fusion_calls
Fits cfg s _ = Unit

pub check_tool_budget-Fits :
    (cfg : Config) (name : ToolName) (s : AgentState)
    → check_tool_budget cfg name s ≡ ok tt
    → Fits cfg s name
unfolding check_tool_budget
check_tool_budget-Fits cfg search_bm25 s h = ground arith
check_tool_budget-Fits cfg search_dense s h = ground arith
check_tool_budget-Fits cfg rerank s h = ground arith
check_tool_budget-Fits cfg fuse_rankings s h = ground arith
check_tool_budget-Fits cfg finish_research s h = tt
check_tool_budget-Fits cfg (unknown name) s h = tt

-- How one tool call leaves the state: it goes on, or the research is finished.
pub data Ended (cfg : Config) (s' : AgentState) : Type 0 where
  goes_on : IsRunning cfg 0 s' → Ended cfg s'
  finishes_with :
      (id : RankingId)
      → IsBounded cfg s'
      → s'.selected_ranking_id ≡ some id
      → IsStopped cfg s'
      → Ended cfg s'

pub Outcome-cases :
    {A : Type 0} (o : Outcome A)
    → ((a : A) × (o ≡ ok a))
      ⊎ ((b : Budget) × (o ≡ budget_exceeded b))
      ⊎ ((e : ToolError) × (o ≡ value_error e))
      ⊎ (o ≡ uncaught)
Outcome-cases (ok a) = inl (a, refl)
Outcome-cases (budget_exceeded b) = inr (inl (b, refl))
Outcome-cases (value_error e) = inr (inr (inl (e, refl)))
Outcome-cases uncaught = inr (inr (inr refl))

pub check_tool_budget-caught :
    (cfg : Config) (name : ToolName) (s : AgentState) → ¬ (check_tool_budget cfg name s ≡ uncaught)
unfolding check_tool_budget
check_tool_budget-caught cfg search_bm25 s = λ h. ground arith
check_tool_budget-caught cfg search_dense s = λ h. ground arith
check_tool_budget-caught cfg rerank s = λ h. ground arith
check_tool_budget-caught cfg fuse_rankings s = λ h. ground arith
check_tool_budget-caught cfg finish_research s = λ h. ground arith
check_tool_budget-caught cfg (unknown name) s = λ h. ground arith

-- A tool that stores a ranking has a budget.
abbrev stores : ToolName → Bool
stores finish_research = false
stores (unknown name) = false
stores _ = true

Returns-stores :
    {b : Backend} {s : AgentState} (name : ToolName) (a : Arguments) (source : Source) (q : String)
    (l : Ranking)
    → Returns b s name a source q l
    → stores name ≡ true
Returns-stores _ _ _ _ _ (by_bm25 q l low high e) = refl
Returns-stores _ _ _ _ _ (by_dense q l low high e) = refl
Returns-stores _ _ _ _ _ (by_rerank id v q l low high known e) = refl
Returns-stores _ _ _ _ _ (by_fusion ids ls low high e) = refl

-- A tool call changes no turn, no model call and no pending call.
pub record Frame (s s' : AgentState) : Type 0 where
  pub same_turns : s'.turns ≡ s.turns
  pub same_llm_calls : s'.llm_calls ≡ s.llm_calls
  pub same_pending : s'.pending_tool_calls ≡ s.pending_tool_calls

Frame-trans : {s t u : AgentState} → Frame s t → Frame t u → Frame s u
Frame-trans f g = ground arith

-- How a tool call ends the node's loop, or leaves it.
pub data Concluded (cfg : Config) (b : Backend) (s : AgentState) (o : Outcome AgentState)
    : Type 0 where
  concluded : (s' : AgentState) → o ≡ ok s' → Ended cfg s' → Frame s s' → Concluded cfg b s o
  escapes : o ≡ uncaught → Raises b → Concluded cfg b s o

store_ranking-IsRunning :
    (cfg : Config) (source : Source) (query : String) (ranking : Ranking) (s : AgentState)
    → IsRunning cfg 1 s
    → IsRunning cfg 1 (store_ranking source query ranking s).0
unfolding store_ranking
store_ranking-IsRunning cfg source query ranking s h =
    let kept = (store_ranking-IsStored source query ranking s h.bounded.stored).0 in
    ground (arith, kept)

store_ranking-Frame :
    (source : Source) (query : String) (ranking : Ranking) (s : AgentState)
    → Frame s (store_ranking source query ranking s).0
unfolding store_ranking
store_ranking-Frame source query ranking s = ground arith

store_ranking-result :
    (source : Source) (query : String) (ranking : Ranking) (s : AgentState)
    → (store_ranking source query ranking s).1
      ≡ stored (length s.ranking_order + 1) source (length ranking)
unfolding store_ranking
store_ranking-result source query ranking s = refl

store_ranking-Fits :
    (cfg : Config) (name : ToolName) (source : Source) (query : String) (ranking : Ranking)
    (s : AgentState)
    → Fits cfg s name
    → Fits cfg (store_ranking source query ranking s).0 name
unfolding store_ranking
store_ranking-Fits cfg search_bm25 source query ranking s f = f
store_ranking-Fits cfg search_dense source query ranking s f = f
store_ranking-Fits cfg rerank source query ranking s f = f
store_ranking-Fits cfg fuse_rankings source query ranking s f = f
store_ranking-Fits cfg finish_research source query ranking s f = tt
store_ranking-Fits cfg (unknown n) source query ranking s f = tt

module _ (cfg : Config) (b : Backend) (call : Call) where
  conclude-counted :
      (name : ToolName) (k : ℕ) (source : Source) (n : ℕ) (s : AgentState)
      → stores name ≡ true
      → Fits cfg s name
      → IsRunning cfg 1 s
      → Concluded cfg b s (conclude call (counted name (s, ok (stored k source n))))
  unfolding conclude counted finish_with count_tool
  conclude-counted search_bm25 k source n s st f h =
      concluded _ refl (goes_on (ground arith)) (ground arith)
  conclude-counted search_dense k source n s st f h =
      concluded _ refl (goes_on (ground arith)) (ground arith)
  conclude-counted rerank k source n s st f h =
      concluded _ refl (goes_on (ground arith)) (ground arith)
  conclude-counted fuse_rankings k source n s st f h =
      concluded _ refl (goes_on (ground arith)) (ground arith)
  conclude-counted finish_research k source n s st f h = cc
  conclude-counted (unknown name) k source n s st f h = cc

  pub conclude-budget :
      (x : Budget) (s : AgentState)
      → IsRunning cfg 1 s
      → Concluded cfg b s (conclude call (s, budget_exceeded x))
  unfolding conclude
  conclude-budget x s h = concluded _ refl (goes_on (ground arith)) (ground arith)

  pub conclude-error :
      (e : ToolError) (s : AgentState)
      → IsRunning cfg 1 s
      → Concluded cfg b s (conclude call (s, value_error e))
  unfolding conclude
  conclude-error e s h = concluded _ refl (goes_on (ground arith)) (ground arith)

  conclude-finished :
      (name : ToolName) (id : RankingId) (v : RankingRecord) (s : AgentState)
      → name ≡ finish_research
      → s.pending_tool_calls ≡ []
      → record_of s id ≡ ok v
      → IsRunning cfg 1 s
      → Concluded cfg b s (conclude call (counted name (s, ok (research_finished id))))
  unfolding conclude counted finish_with count_tool
  conclude-finished search_bm25 id v s n idle known h = cc
  conclude-finished search_dense id v s n idle known h = cc
  conclude-finished rerank id v s n idle known h = cc
  conclude-finished fuse_rankings id v s n idle known h = cc
  conclude-finished (unknown name) id v s n idle known h = cc
  conclude-finished finish_research id v s n idle known h =
      concluded _ refl
        (finishes_with id (ground arith) refl (record {
          bounded = ground arith;
          reason = finished;
          stopped = refl;
          idle = idle;
          choice = chosen id v refl (record_of-same s _ id refl ∙ known);
          accounted = h.accounted;
        }))
        (ground arith)

  conclude-uncaught :
      (name : ToolName) (run : ToolRun) (s : AgentState)
      → Raises b
      → run.1 ≡ uncaught
      → Concluded cfg b s (conclude call (counted name run))
  unfolding conclude counted
  conclude-uncaught name (t, o) s raises e = rw e (escapes refl raises)

pub Concluded-Frame :
    {cfg : Config} {b : Backend} {s t : AgentState} {o : Outcome AgentState}
    → Frame s t
    → Concluded cfg b t o
    → Concluded cfg b s o
Concluded-Frame f (concluded s' e h g) = concluded s' e h (Frame-trans f g)
Concluded-Frame f (escapes e raises) = escapes e raises

pub conclude-Concluded :
    (cfg : Config) (b : Backend) (call : Call) (s : AgentState) (run : ToolRun)
    → s.pending_tool_calls ≡ []
    → Fits cfg s call.name
    → IsRunning cfg 1 s
    → Executed b s call.name call.arguments run
    → Concluded cfg b s (conclude call (counted call.name run))
conclude-Concluded cfg b call s run idle fits h (failed e k) =
    rw k (unfold counted in conclude-error cfg b call e s h)
conclude-Concluded cfg b call s run idle fits h (escaped raises k) =
    conclude-uncaught cfg b call call.name run s (Escapes-Raises call.name call.arguments raises) k
conclude-Concluded cfg b call s run idle fits h (stored_one source q l returns e k) =
    rw (k, store_ranking-result source q l s)
      (Concluded-Frame (store_ranking-Frame source q l s) (
        conclude-counted cfg b call call.name (length s.ranking_order + 1) source (length l)
          (store_ranking source q l s).0
          (Returns-stores call.name call.arguments source q l returns)
          (store_ranking-Fits cfg call.name source q l s fits)
          (store_ranking-IsRunning cfg source q l s h)))
conclude-Concluded cfg b call s run idle fits h (stored_unread source q l returns e k) = rw k (
    unfold counted in
    Concluded-Frame (store_ranking-Frame source q l s) (
      conclude-error cfg b call backend_error (store_ranking source q l s).0
        (store_ranking-IsRunning cfg source q l s h)))
conclude-Concluded cfg b call s run idle fits h (finished_with id v n a known k) =
    rw k (conclude-finished cfg b call call.name id v s n idle known h)

unfoldable pub begun : Call → AgentState → AgentState
unfolding bump_usage
begun call s = record s {
  tool_calls = s.tool_calls + 1;
  tool_usage = bump_usage call.name s.tool_usage;
}

pub begun-IsRunning :
    (cfg : Config) (call : Call) (s : AgentState)
    → IsRunning cfg 0 s
    → IsRunning cfg 1 (begun call s)
unfolding begun
begun-IsRunning cfg call s h = ground arith
