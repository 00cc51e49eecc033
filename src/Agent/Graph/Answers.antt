-- ===== src/Agent/Graph/Answers.antt =====
-- The answer node: what it returns from a stopped state.
use qry_eval_plus.Prelude.{[], arith, none, refl, some, subst, sym, ℕ, ◌*◌, ◌+◌, ◌∙◌, ◌≡◌, ◌≤◌}
use Prim.Native.String.{String}
use qry_eval_plus.Agent.State.{
  ok, uncaught, Outcome, AgentState, Config, RankingId, RankingRecord, StopReason, answer_error,
}
use qry_eval_plus.Agent.Toolbox.{Backend, record_of}
use qry_eval_plus.Agent.Toolbox.Cases.{record_of-same}
use qry_eval_plus.Agent.Toolbox.Ends.{Raises}
use qry_eval_plus.Agent.Invariant.{
  IsStopped, Choice, nothing_stored, chosen, accounted_calls, finishes,
}
use qry_eval_plus.Agent.Graph.{
  or_no_ranking, Generator, Generated, generated, generation_failed, take_answer, answer_with,
  answer_node, generation_raised,
}

-- What holds of the state that a run returns.
pub record IsDone (cfg : Config) (s : AgentState) : Type 0 where
  pub turns_within : s.turns ≤ cfg.max_turns
  pub retrieval_within : s.retrieval_calls ≤ cfg.max_retrieval_calls
  pub rerank_within : s.rerank_calls ≤ cfg.max_rerank_calls
  pub fusion_within : s.fusion_calls ≤ cfg.max_fusion_calls
  pub llm_within : s.llm_calls ≤ cfg.max_turns * (cfg.max_planner_retries + 1) + 1
  pub reason : StopReason
  pub stopped : s.stop_reason ≡ some reason
  pub idle : s.pending_tool_calls ≡ []
  pub choice : Choice s
  pub accounted_low : accounted_calls s ≤ s.tool_calls
  pub accounted_high : s.tool_calls ≤ accounted_calls s + 1

finishes-le : (reason : StopReason) → finishes reason ≤ 1
finishes-le reason = ground arith

-- What the nodes do not catch: an exception of a back end, or of the reading of the passages for the
-- answer.
pub data Uncaught (b : Backend) (g : Generator) : Type 0 where
  back_end_raises : Raises b → Uncaught b g
  generator_raises :
      (n : ℕ) (question : String) (v : RankingRecord)
      → g n question v ≡ generation_raised
      → Uncaught b g

-- A run is done, or ends in such an exception.
pub data Ends (cfg : Config) (b : Backend) (g : Generator) (o : Outcome AgentState) : Type 0 where
  done : (s : AgentState) → o ≡ ok s → IsDone cfg s → Ends cfg b g o
  escapes_run : o ≡ uncaught → Uncaught b g → Ends cfg b g o

take_answer-Ends :
    (cfg : Config) (b : Backend) (g : Generator) (s : AgentState) (id : RankingId)
    (v : RankingRecord) (a : Generated)
    → g s.llm_calls s.question v ≡ a
    → IsStopped cfg s
    → s.selected_ranking_id ≡ some id
    → record_of s id ≡ ok v
    → Ends cfg b g (take_answer id a s)
unfolding take_answer
take_answer-Ends cfg b g s id v (generated text model duration usage) e h sel known =
    let small = finishes-le h.reason in
    done _ refl (record {
      turns_within = h.bounded.turns_within;
      retrieval_within = h.bounded.retrieval_within;
      rerank_within = h.bounded.rerank_within;
      fusion_within = h.bounded.fusion_within;
      llm_within = omega (arith, h.bounded.llm_within);
      reason = h.reason;
      stopped = h.stopped;
      idle = h.idle;
      choice = chosen id v sel (record_of-same s _ id refl ∙ known);
      accounted_low = omega (arith, h.accounted);
      accounted_high = omega (arith, h.accounted, small);
    })
take_answer-Ends cfg b g s id v (generation_failed error) e h sel known =
    let small = finishes-le h.reason in
    done _ refl (record {
      turns_within = h.bounded.turns_within;
      retrieval_within = h.bounded.retrieval_within;
      rerank_within = h.bounded.rerank_within;
      fusion_within = h.bounded.fusion_within;
      llm_within = omega (arith, h.bounded.llm_within);
      reason = answer_error;
      stopped = refl;
      idle = h.idle;
      choice = chosen id v sel (record_of-same s _ id refl ∙ known);
      accounted_low = omega (arith, h.accounted);
      accounted_high = omega (arith, h.accounted, small);
    })
take_answer-Ends cfg b g s id v generation_raised e h sel known =
    escapes_run refl (generator_raises s.llm_calls s.question v e)

unchosen-IsDone :
    (cfg : Config) (s : AgentState)
    → IsStopped cfg s
    → s.selected_ranking_id ≡ none
    → s.ranking_order ≡ []
    → IsDone cfg (record s { answer = ""; stop_reason = some (or_no_ranking s.stop_reason) })
unchosen-IsDone cfg s h none_ empty =
    let small = finishes-le h.reason in
    record {
      turns_within = h.bounded.turns_within;
      retrieval_within = h.bounded.retrieval_within;
      rerank_within = h.bounded.rerank_within;
      fusion_within = h.bounded.fusion_within;
      llm_within = omega (arith, h.bounded.llm_within);
      reason = or_no_ranking s.stop_reason;
      stopped = refl;
      idle = h.idle;
      choice = nothing_stored none_ empty;
      accounted_low = omega (arith, h.accounted);
      accounted_high = omega (arith, h.accounted, small);
    }

pub answer_node-Ends :
    (cfg : Config) (b : Backend) (g : Generator) (s : AgentState)
    → IsStopped cfg s
    → Ends cfg b g (answer_node g s)
unfolding answer_node answer_with
answer_node-Ends cfg b g s h = go h.choice
  where
    go : Choice s → Ends cfg b g (answer_with g s.selected_ranking_id s)
    go (chosen id v sel known) =
        let answers : answer_with g s.selected_ranking_id s
            ≡ take_answer id (g s.llm_calls s.question v) s =
          rw (sel, known) in
        subst (Ends cfg b g) (sym answers)
          (take_answer-Ends cfg b g s id v (g s.llm_calls s.question v) refl h sel known)
    go (nothing_stored none_ empty) =
        done (record s { answer = ""; stop_reason = some (or_no_ranking s.stop_reason) }) (rw none_)
          (unchosen-IsDone cfg s h none_ empty)
