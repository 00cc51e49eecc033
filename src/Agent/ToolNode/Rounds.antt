-- ===== src/Agent/ToolNode/Rounds.antt =====
-- The tool node keeps the budgets.
use qry_eval_plus.Prelude.{
  Bool-cases, List, [], arith, false, inl, inr, leb, refl, true, ◌<◌, ◌∙◌, ◌∷◌, ◌≡◌, ◌⊎◌,
}
use qry_eval_plus.Agent.State.{Call, ok, AgentState, Config, uncaught, max_steps}
use qry_eval_plus.Agent.Toolbox.{execute}
use qry_eval_plus.Agent.Toolbox.Ends.{Raises}
use qry_eval_plus.Agent.Toolbox.Cases.{execute-Executed}
use qry_eval_plus.Agent.Planner.{force_finish}
use qry_eval_plus.Agent.Planner.Turns.{force_finish-IsStopped}
use qry_eval_plus.Agent.ToolNode.{
  stop_at_limit, check_tool_budget, conclude, attempt, Backend, run_calls, run_call, tool_node,
  is_selected,
}
use qry_eval_plus.Agent.Invariant.{IsRunning, IsStopped}
use qry_eval_plus.Agent.ToolNode.Calls.{
  Ended, goes_on, finishes_with, Concluded, concluded, escapes, Outcome-cases,
  check_tool_budget-Fits, check_tool_budget-caught, Concluded-Frame, conclude-Concluded, begun,
  begun-IsRunning, conclude-budget, conclude-error,
}

attempt-Concluded :
    (cfg : Config) (b : Backend) (call : Call) (s : AgentState)
    → s.pending_tool_calls ≡ []
    → IsRunning cfg 1 s
    → Concluded cfg b s (conclude call (attempt cfg b call s))
unfolding attempt
attempt-Concluded cfg b call s idle h = elim (Outcome-cases (check_tool_budget cfg call.name s)) [
  | inr (inl (budget, e)) ↦ rw e (conclude-budget cfg b call budget s h)
  | inr (inr (inl (error, e))) ↦ rw e (conclude-error cfg b call error s h)
  | inr (inr (inr e)) ↦ absurd (check_tool_budget-caught cfg call.name s e)
  | inl (_, e) ↦ rw e (
      conclude-Concluded cfg b call s (execute b call.name call.arguments s) idle
        (check_tool_budget-Fits cfg call.name s e) h
        (execute-Executed b call.name call.arguments s).0)
]

run_call-Concluded :
    (cfg : Config) (b : Backend) (call : Call) (s : AgentState)
    → s.pending_tool_calls ≡ []
    → IsRunning cfg 0 s
    → Concluded cfg b s (run_call cfg b call s)
unfolding run_call begun
run_call-Concluded cfg b call s idle h =
    Concluded-Frame (ground arith)
      (attempt-Concluded cfg b call (begun call s) idle (begun-IsRunning cfg call s h))

run_calls-Concluded :
    (cfg : Config) (b : Backend) (calls : List Call) (s : AgentState)
    → s.pending_tool_calls ≡ []
    → IsRunning cfg 0 s
    → Concluded cfg b s (run_calls cfg b calls s)
unfolding run_calls
run_calls-Concluded cfg b [] s idle h = concluded s refl (goes_on h) (ground arith)
run_calls-Concluded cfg b (call ∷ calls) s idle h = elim (run_call-Concluded cfg b call s idle h) [
  | escapes e raises ↦ rw e (escapes refl raises)
  | concluded s' e ended f ↦ elim ended [
    | goes_on h' ↦
        let open_ : is_selected s'.selected_ranking_id ≡ false = rw h'.nothing_selected in
        rw (e, open_)
          (Concluded-Frame f (run_calls-Concluded cfg b calls s' (f.same_pending ∙ idle) h'))
    | finishes_with id bd sel h' ↦
        let picked : is_selected s'.selected_ranking_id ≡ true = rw sel in
        rw (e, picked) (concluded s' refl (finishes_with id bd sel h') f)
  ]
]

-- The node goes on below the turn limit with no call pending, or the run is stopped.
pub data Rounded (cfg : Config) (s s' : AgentState) : Type 0 where
  keeps_on :
      s'.pending_tool_calls ≡ []
      → s'.turns ≡ s.turns
      → s'.turns < cfg.max_turns
      → IsRunning cfg 0 s'
      → Rounded cfg s s'
  stops : s'.turns ≡ s.turns → IsStopped cfg s' → Rounded cfg s s'

cleared : AgentState → AgentState
cleared s = record s { pending_tool_calls = [] }

stop_at_limit-Rounded :
    (cfg : Config) (s s' : AgentState)
    → s'.turns ≡ s.turns
    → s'.pending_tool_calls ≡ []
    → Ended cfg s'
    → Rounded cfg s (stop_at_limit cfg s')
stop_at_limit-Rounded cfg s s' turn idle (finishes_with id b sel h) =
    let picked : is_selected s'.selected_ranking_id ≡ true = rw sel in
    elim (Bool-cases (leb cfg.max_turns s'.turns)) [
      | inl full ↦ rw (full, picked) (stops turn h)
      | inr more ↦ rw more (stops turn h)
    ]
stop_at_limit-Rounded cfg s s' turn idle (goes_on h) =
    let open_ : is_selected s'.selected_ranking_id ≡ false = rw h.nothing_selected in
    elim (Bool-cases (leb cfg.max_turns s'.turns)) [
      | inl full ↦
          rw (full, open_)
            (stops (unfold force_finish in turn) (
              force_finish-IsStopped cfg max_steps s' h.bounded h.nothing_selected h.accounted
                refl))
      | inr more ↦ rw more (keeps_on idle turn (ground arith) h)
    ]

pub tool_node-Rounded :
    (cfg : Config) (b : Backend) (s : AgentState)
    → IsRunning cfg 0 s
    → ((s' : AgentState) × (tool_node cfg b s ≡ ok s') × Rounded cfg s s')
      ⊎ ((tool_node cfg b s ≡ uncaught) × Raises b)
unfolding tool_node cleared
tool_node-Rounded cfg b s h =
    elim (run_calls-Concluded cfg b s.pending_tool_calls (cleared s) refl (ground arith)) [
      | escapes e raises ↦ inr (rw e, raises)
      | concluded s' e ended f ↦ inl (
        stop_at_limit cfg s',
        rw e,
        stop_at_limit-Rounded cfg s s' f.same_turns f.same_pending ended,
      )
    ]
