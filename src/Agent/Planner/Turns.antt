-- ===== src/Agent/Planner/Turns.antt =====
-- The planner node takes one turn within the limits, or stops the run.
use qry_eval_plus.Prelude.{
  All-In, Bool-cases, In, List, [], arith, inl, inr, leb, none, refl, some, subst, suc, sym, zero,
  ℕ, ◌*◌, ◌++◌, ◌+◌, ◌<◌, ◌∷◌, ◌≡◌, ◌≤◌, ◌⊎◌,
}
use Prim.Native.String.{String}
use qry_eval_plus.Agent.State.{
  Call, Event, AgentState, Config, StopReason, max_steps, planner_error, model_finalize,
  model_stop_no_ranking, r, RankingRecord,
}
use qry_eval_plus.Agent.Toolbox.{lookup_ranking, record_of}
use qry_eval_plus.Agent.Planner.{
  Response, Reply, response, provider_error, not_implemented, Model, last?, selection, force_finish,
  complete_planner, take_response, stop_without_call, fail_planner, after_reply, planner_node,
  planner_retry, no_tool_call, provider_failed, planner_error_event, model_finalize_event,
}
use qry_eval_plus.Agent.Invariant.{
  IsBounded, IsRunning, IsStopped, nothing_stored, chosen, accounted_calls, finishes,
}

last?-In : (ks : List ℕ) → (ks ≡ []) ⊎ ((k : ℕ) × (last? ks ≡ some k) × In k ks)
last?-In [] = inl refl
last?-In (k ∷ []) = inr (k, refl, inl refl)
last?-In (k ∷ j ∷ ks) = elim (last?-In (j ∷ ks)) [ inl e ↦ cc | inr (i, e, m) ↦ inr (i, e, inr m) ]

-- A forced stop selects the ranking stored last, and none only if none is stored.
pub force_finish-IsStopped :
    (cfg : Config) (reason : StopReason) (s : AgentState)
    → IsBounded cfg s
    → s.selected_ranking_id ≡ none
    → s.tool_calls ≡ accounted_calls s + 0
    → finishes reason ≡ 0
    → IsStopped cfg (force_finish s reason)
unfolding force_finish selection record_of
force_finish-IsStopped cfg reason s b sel acc e = record {
  bounded = ground arith;
  reason = reason;
  stopped = refl;
  idle = refl;
  choice = elim (last?-In s.ranking_order) [
    | inl none_ ↦ nothing_stored (rw (sel, none_)) none_
    | inr (k, last, m) ↦
        let (v, known) =
          All-In (λ j. (w : RankingRecord) × (lookup_ranking j s.rankings ≡ some w)) s.ranking_order
            k b.stored.known m in
        chosen (r k) v (rw (sel, last)) (rw (known, record_of))
  ];
  accounted = omega (arith, acc, e);
}

-- Asking the model changes the count of its calls and the trajectory alone, and makes at most one
-- call and the retries.
abbrev Asks : Model → ℕ → ℕ → AgentState → Type 0
Asks model left attempt s =
    (n : ℕ) × (t : List Event) × ((complete_planner model left attempt s).0
      ≡ record s { llm_calls = n; trajectory = t })
    × (n ≤ s.llm_calls + (left + 1))

complete_planner-Asks :
    (model : Model) (left attempt : ℕ) (s : AgentState) → Asks model left attempt s
unfolding complete_planner
complete_planner-Asks model zero attempt s = (s.llm_calls + 1, s.trajectory, refl, omega arith)
complete_planner-Asks model (suc left) attempt s =
    go (model s.llm_calls s.messages) refl (complete_planner-Asks model left (attempt + 1))
  where
    go :
        (a : Reply)
        → model s.llm_calls s.messages ≡ a
        → ((s' : AgentState) → Asks model left (attempt + 1) s')
        → Asks model (suc left) attempt s
    go (response a) e again = (s.llm_calls + 1, s.trajectory, rw (e, complete_planner), omega arith)
    go (not_implemented a) e again =
        (s.llm_calls + 1, s.trajectory, rw (e, complete_planner), omega arith)
    go (provider_error a) e again =
        let s' : AgentState = record s {
          llm_calls = s.llm_calls + 1;
          trajectory = s.trajectory ++ planner_retry (attempt + 1) a ∷ [];
        } in
        let (n, t, asked, le) = again s' in (n, t, rw (e, complete_planner) asked, omega arith)

-- A turn that asks for tools keeps the limits; any other way out of the node stops the run.
pub data Turned (cfg : Config) (s s' : AgentState) : Type 0 where
  calls_tools :
      (call : Call) (calls : List Call)
      → s'.pending_tool_calls ≡ call ∷ calls
      → s'.turns ≡ s.turns + 1
      → IsRunning cfg 0 s'
      → Turned cfg s s'
  stops : IsStopped cfg s' → Turned cfg s s'

turn_bound : (t m k : ℕ) → t < m → t * k + k ≤ m * k
turn_bound t m k h = grind arith

fail_planner-IsStopped :
    (cfg : Config) (error : String) (s : AgentState)
    → IsBounded cfg s
    → s.selected_ranking_id ≡ none
    → s.tool_calls ≡ accounted_calls s + 0
    → IsStopped cfg (fail_planner error s)
unfolding fail_planner
fail_planner-IsStopped cfg error s b sel acc =
    let s' : AgentState = record s {
      errors = s.errors ++ provider_failed error ∷ [];
      trajectory = s.trajectory ++ planner_error_event error ∷ [];
    } in
    force_finish-IsStopped cfg planner_error s' (ground arith) sel acc refl

stop_without_call-IsStopped :
    (cfg : Config) (s : AgentState) → IsRunning cfg 0 s → IsStopped cfg (stop_without_call [] s)
unfolding stop_without_call
stop_without_call-IsStopped cfg s run = go s.ranking_order refl
  where
    go : (order : List ℕ) → s.ranking_order ≡ order → IsStopped cfg (stop_without_call [] s)
    go [] e =
        let s' : AgentState = record s { errors = s.errors ++ no_tool_call ∷ [] } in
        rw (e, stop_without_call)
          (force_finish-IsStopped cfg model_stop_no_ranking s' (ground arith) run.nothing_selected
            run.accounted refl)
    go (k ∷ order) e =
        let s' : AgentState = record s { trajectory = s.trajectory ++ model_finalize_event ∷ [] } in
        rw (e, stop_without_call)
          (force_finish-IsStopped cfg model_finalize s' (ground arith) run.nothing_selected
            run.accounted refl)

-- After the model was asked `n` calls in all, and left the trajectory `t`.
abbrev asked : AgentState → ℕ → List Event → AgentState
asked s n t = record s { llm_calls = n; trajectory = t }

take_response-IsRunning :
    (cfg : Config) (s : AgentState) (n : ℕ) (t : List Event) (a : Response)
    → s.turns < cfg.max_turns
    → IsRunning cfg 0 s
    → n ≤ s.llm_calls + (cfg.max_planner_retries + 1)
    → IsRunning cfg 0 (take_response a (asked s n t))
unfolding take_response
take_response-IsRunning cfg s n t a h run le =
    let bound = turn_bound s.turns cfg.max_turns (cfg.max_planner_retries + 1) h in
    ground (arith, bound)

asked-IsBounded :
    (cfg : Config) (s : AgentState) (n : ℕ) (t : List Event)
    → s.turns < cfg.max_turns
    → IsRunning cfg 0 s
    → n ≤ s.llm_calls + (cfg.max_planner_retries + 1)
    → IsBounded cfg (asked s n t)
asked-IsBounded cfg s n t h run le =
    let bound = turn_bound s.turns cfg.max_turns (cfg.max_planner_retries + 1) h in
    ground (arith, bound)

response-Turned :
    (cfg : Config) (s s' : AgentState) (calls : List Call)
    → s'.pending_tool_calls ≡ calls
    → s'.turns ≡ s.turns + 1
    → IsRunning cfg 0 s'
    → Turned cfg s (stop_without_call calls s')
unfolding stop_without_call
response-Turned cfg s s' [] e turn run = stops (stop_without_call-IsStopped cfg s' run)
response-Turned cfg s s' (call ∷ calls) e turn run = calls_tools call calls e turn run

after_reply-Turned :
    (cfg : Config) (s : AgentState) (n : ℕ) (t : List Event) (a : Reply)
    → s.turns < cfg.max_turns
    → IsRunning cfg 0 s
    → n ≤ s.llm_calls + (cfg.max_planner_retries + 1)
    → Turned cfg s (after_reply (asked s n t, a))
unfolding after_reply
after_reply-Turned cfg s n t (provider_error e) h run le = stops (
    fail_planner-IsStopped cfg e (asked s n t) (asked-IsBounded cfg s n t h run le)
      run.nothing_selected run.accounted)
after_reply-Turned cfg s n t (not_implemented e) h run le = stops (
    fail_planner-IsStopped cfg e (asked s n t) (asked-IsBounded cfg s n t h run le)
      run.nothing_selected run.accounted)
after_reply-Turned cfg s n t (response a) h run le =
    response-Turned cfg s (take_response a (asked s n t)) a.tool_calls refl refl
      (take_response-IsRunning cfg s n t a h run le)

-- The planner node keeps the limits of the configuration whatever the model replies: it takes one
-- turn and leaves calls to run, or it stops the run.
pub planner_node-Turned :
    (cfg : Config) (model : Model) (s : AgentState)
    → IsRunning cfg 0 s
    → Turned cfg s (planner_node cfg model s)
unfolding planner_node
planner_node-Turned cfg model s run = elim (Bool-cases (leb cfg.max_turns s.turns)) [
  | inl full ↦ rw full (
      stops (
        force_finish-IsStopped cfg max_steps s run.bounded run.nothing_selected run.accounted refl))
  | inr more ↦
      let (n, t, e, le) = complete_planner-Asks model cfg.max_planner_retries 0 s in
      let a = (complete_planner model cfg.max_planner_retries 0 s).1 in
      rw more (
        subst (λ s'. Turned cfg s (after_reply (s', a))) (sym e)
          (after_reply-Turned cfg s n t a (ground arith) run le))
]
