-- ===== src/Agent/Graph/Total.antt =====
-- Every run of the graph ends within the limits.
use qry_eval_plus.Prelude.{
  List, [], ap, arith, inl, inr, none, refl, some, suc, zero, ℕ, ◌*◌, ◌+◌, ◌-◌, ◌<◌, ◌∙◌, ◌∷◌, ◌≡◌,
  ◌≤◌, ◌⊎◌,
}
use Prim.Native.String.{String}
use qry_eval_plus.Agent.State.{
  ok, uncaught, Outcome, AgentState, Config, initial, Message, StopReason,
}
use qry_eval_plus.Agent.Toolbox.{Backend}
use qry_eval_plus.Agent.Planner.{Model, planner_node}
use qry_eval_plus.Agent.Planner.Turns.{Turned, calls_tools, planner_node-Turned}
use qry_eval_plus.Agent.ToolNode.Rounds.{Rounded, keeps_on, tool_node-Rounded}
use qry_eval_plus.Agent.Invariant.{IsRunning, IsStopped}
use qry_eval_plus.Agent.Graph.{
  Generator, answer_node, Node, planner, tools, answer, route_after_planner, route_after_tools, run,
  answer_query, Call,
}
use qry_eval_plus.Agent.Graph.Answers.{
  IsDone, Uncaught, back_end_raises, Ends, done, escapes_run, answer_node-Ends,
}

-- Where the routes lead.
route_after_planner-tools :
    (s : AgentState) (call : Call) (calls : List Call)
    → s.pending_tool_calls ≡ call ∷ calls
    → route_after_planner s ≡ tools
unfolding route_after_planner
route_after_planner-tools s call calls e = rw e

route_after_planner-answer :
    (s : AgentState) → s.pending_tool_calls ≡ [] → route_after_planner s ≡ answer
unfolding route_after_planner
route_after_planner-answer s e = rw e

route_after_tools-answer :
    (s : AgentState) (reason : StopReason)
    → s.stop_reason ≡ some reason
    → route_after_tools s ≡ answer
unfolding route_after_tools
route_after_tools-answer s reason e = ground arith

route_after_tools-planner :
    (s : AgentState)
    → s.selected_ranking_id ≡ none
    → s.stop_reason ≡ none
    → route_after_tools s ≡ planner
unfolding route_after_tools
route_after_tools-planner s e f = ground arith

module _ (cfg : Config) (model : Model) (b : Backend) (g : Generator) where
  -- The run ends within the limit.
  record Finishes (fuel : ℕ) (node : Node) (s : AgentState) : Type 0 where
    outcome : Outcome AgentState
    returns : run cfg model b g fuel node s ≡ some outcome
    ends : Ends cfg b g outcome

  answer-Finishes :
      (fuel : ℕ) (s : AgentState) → IsStopped cfg s → 0 < fuel → Finishes fuel answer s
  unfolding run
  answer-Finishes zero s h lt = absurd (omega arith)
  answer-Finishes (suc fuel) s h lt = record {
    outcome = answer_node g s;
    returns = refl;
    ends = answer_node-Ends cfg b g s h;
  }

  mutual
    unfolding run

    planner-Finishes :
        (fuel : ℕ) (s : AgentState)
        → IsRunning cfg 0 s
        → s.turns < cfg.max_turns
        → 2 * (cfg.max_turns - s.turns) + 1 ≤ fuel
        → Finishes fuel planner s
    planner-Finishes zero s h less lt = absurd (omega arith)
    planner-Finishes (suc fuel) s h less lt = elim (planner_node-Turned cfg model s h) [
      | calls_tools call calls e turn h' ↦
          let f =
            tools-Finishes fuel (planner_node cfg model s) h'
              (omega (arith, turn, h'.bounded.turns_within)) in
          record {
            outcome = f.outcome;
            returns =
                rw (route_after_planner-tools (planner_node cfg model s) call calls e) f.returns;
            ends = f.ends;
          }
      | Turned.stops h' ↦
          let f = answer-Finishes fuel (planner_node cfg model s) h' (omega arith) in
          record {
            outcome = f.outcome;
            returns = rw (route_after_planner-answer (planner_node cfg model s) h'.idle) f.returns;
            ends = f.ends;
          }
    ]

    tools-Finishes :
        (fuel : ℕ) (s : AgentState)
        → IsRunning cfg 0 s
        → 2 * (cfg.max_turns - s.turns) + 2 ≤ fuel
        → Finishes fuel tools s
    tools-Finishes zero s h lt = absurd (omega arith)
    tools-Finishes (suc fuel) s h lt = elim (tool_node-Rounded cfg b s h) [
      | inr (e, raises) ↦ record {
        outcome = uncaught;
        returns = rw e;
        ends = escapes_run refl (back_end_raises raises);
      }
      | inl (s', e, rounded) ↦ elim rounded [
        | keeps_on idle turn less h' ↦
            let f = planner-Finishes fuel s' h' less (omega (arith, turn)) in
            record {
              outcome = f.outcome;
              returns = rw (e, route_after_tools-planner s' h'.nothing_selected h'.going) f.returns;
              ends = f.ends;
            }
        | Rounded.stops turn h' ↦
            let f = answer-Finishes fuel s' h' (omega arith) in
            record {
              outcome = f.outcome;
              returns = rw (e, route_after_tools-answer s' h'.reason h'.stopped) f.returns;
              ends = f.ends;
            }
      ]
    ]

pub initial-IsRunning :
    (cfg : Config) (qid question : String) (messages : List Message)
    → IsRunning cfg 0 (initial qid question messages)
unfolding initial
initial-IsRunning cfg qid question messages = record {
  bounded = record {
    turns_within = omega arith;
    retrieval_within = omega arith;
    rerank_within = omega arith;
    fusion_within = omega arith;
    llm_within = omega arith;
    stored = record { known = tt; counted = tt };
  };
  llm_so_far = omega arith;
  nothing_selected = refl;
  going = refl;
  accounted = omega arith;
}

-- For every model, every search back end and every generator, under a recursion limit of the graph
-- of at least two nodes a turn and one more, the run of a query ends within the limit: done, or in an
-- uncaught exception, and then a back end or the reading of the answer's passages raises one. When
-- it is done, no limit is passed: turns, retrievals, reranks and fusions, and the model is called at
-- most once and its retries for each turn and once for the answer. No call is left pending and a
-- reason is given. The selected ranking is a stored one, and none is selected only if none was
-- stored. Each tool call is counted once by a tool's counter, as an error or as an exhausted budget,
-- except the one that finished the research.
pub answer_query-IsDone :
    (cfg : Config) (model : Model) (b : Backend) (g : Generator) (recursion_limit : ℕ)
    (qid question : String) (messages : List Message)
    → 0 < cfg.max_turns
    → 2 * cfg.max_turns + 1 ≤ recursion_limit
    → ((s : AgentState) × (answer_query cfg model b g recursion_limit
            (initial qid question messages)
          ≡ some (ok s))
        × IsDone cfg s)
      ⊎ ((answer_query cfg model b g recursion_limit (initial qid question messages)
            ≡ some uncaught)
          × Uncaught b g)
unfolding initial
answer_query-IsDone cfg model b g recursion_limit qid question messages some_turn enough =
    let f =
      planner-Finishes cfg model b g recursion_limit (initial qid question messages)
        (initial-IsRunning cfg qid question messages) some_turn (omega arith) in
    elim f.ends [
      | done s e d ↦ inl (s, f.returns ∙ ap some e, d)
      | escapes_run e raises ↦ inr (f.returns ∙ ap some e, raises)
    ]
