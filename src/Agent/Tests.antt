-- ===== src/Agent/Tests.antt =====
-- A run of the agent of agentic/runtime.py with a scripted model, and its theorems at it.
use qry_eval_plus.Prelude.{
  Bool, Option, [], arith, false, if◌then◌else◌, length, none, refl, some, suc, true, zero, ℕ, ◌+◌,
  ◌==◌, ◌∷◌, ◌≡◌, ◌⊎◌,
}
use qry_eval_plus.Agent.State.{
  Call, search_bm25, search_args, finish_research, finish_args, r, bm25, user, AgentState, Config,
  initial, ok, uncaught, stored, search_dense, Outcome, Source, Ranking, RankingId, RankingRecord,
  research_finished,
}
use text.Mathlib.Text.{◌==◌ as str_eq}
use Prim.Native.String.{String}
use qry_eval_plus.Agent.Toolbox.{
  Backend, fetched, refused, raised, execute, store_ranking, lookup_ranking, record_of,
  store_with_evidence, validate_search, search_found, found,
}
use qry_eval_plus.Agent.Toolbox.Ends.{Escapes, Executed, Returns}
use qry_eval_plus.Agent.Toolbox.Cases.{
  execute-Executed, IsStored, store_ranking-IsStored, next_record, or_else,
}
use qry_eval_plus.Agent.Planner.{Model, Reply, response, planner_node}
use qry_eval_plus.Agent.Planner.Turns.{Turned, planner_node-Turned}
use qry_eval_plus.Agent.ToolNode.{contains}
use qry_eval_plus.Agent.Invariant.{IsRunning}
use qry_eval_plus.Agent.Configure.{
  as_bool, flag, Task, tools, number, absent, configure, validate_agentic_task, check_tools,
  check_minimum, all_known, positive_int,
}
use qry_eval_plus.Agent.Configure.Accepts.{IsUsable, configure-IsUsable}
use qry_eval_plus.Agent.Graph.{Generator, generated, run, answer_query}
use qry_eval_plus.Agent.Graph.Answers.{IsDone, Uncaught}
use qry_eval_plus.Agent.Graph.Total.{answer_query-IsDone, initial-IsRunning}

abbrev small : Config
small = record {
  max_turns = 2;
  max_retrieval_calls = 1;
  max_rerank_calls = 1;
  max_fusion_calls = 1;
  max_planner_retries = 1;
  allowed_tools = search_bm25 ∷ finish_research ∷ [];
}

abbrev one_document : Backend
one_document = record {
  bm25_search = λ qid question query. fetched ((7, "doc-7") ∷ []);
  dense_search = λ qid query. refused;
  rerank_results = λ qid query ranking. fetched ranking;
  fuse = λ rankings. [];
  evidence = λ query ranking. fetched tt;
}

abbrev asks_for : Call → Reply
asks_for call = response (record {
  content = "";
  tool_calls = call ∷ [];
  model = "m";
  duration = 1;
  usage = ("total_tokens", 5) ∷ [];
})

-- A search, then the finish.
abbrev scripted : Model
scripted zero messages =
    asks_for (record { id = "a"; name = search_bm25; arguments = search_args "cats" })
scripted (suc n) messages =
    asks_for (record { id = "b"; name = finish_research; arguments = finish_args (r 1) })

abbrev answers : Generator
answers n question v = generated "yes" "m" 1 []

abbrev question : AgentState
question = initial "q1" "what?" (user "what?" ∷ [])

question-IsRunning : IsRunning small 0 question
question-IsRunning = initial-IsRunning small "q1" "what?" (user "what?" ∷ [])

-- With the documented default of the recursion limit.
answer_query-IsDone_example :
    ((s : AgentState) × (answer_query small scripted one_document answers 25 question ≡ some (ok s))
      × IsDone small s)
    ⊎ ((answer_query small scripted one_document answers 25 question ≡ some uncaught)
        × Uncaught one_document answers)
answer_query-IsDone_example =
    answer_query-IsDone small scripted one_document answers 25 "q1" "what?" (user "what?" ∷ [])
      (omega arith) (omega arith)

abbrev answered_yes : Option (Outcome AgentState) → Bool
answered_yes (some (ok s)) = str_eq s.answer "yes"
answered_yes _ = false

-- The run of that script returns an answer.
answered_run : answered_yes (answer_query small scripted one_document answers 25 question) ≡ true
unfolding initial run contains execute
answered_run = refl

planner_node-Turned_example : Turned small question (planner_node small scripted question)
planner_node-Turned_example = planner_node-Turned small scripted question question-IsRunning

abbrev searching : AgentState
searching = record question {
  turns = 1;
  pending_tool_calls = record { id = "a"; name = search_bm25; arguments = search_args "cats" } ∷ [];
}

execute-Executed_example :
    Executed one_document question search_bm25
      (search_args "cats")
      (execute one_document search_bm25 (search_args "cats") question)
    × ((source : Source) (q : String) (l : Ranking)
        → Returns one_document question search_bm25 (search_args "cats") source q l
        → execute one_document search_bm25 (search_args "cats") question
          ≡ store_with_evidence one_document source q l question)
    × (Escapes one_document question search_bm25 (search_args "cats")
        → (execute one_document search_bm25 (search_args "cats") question).1 ≡ uncaught)
    × ((id : RankingId) (v : RankingRecord)
        → record_of question id ≡ ok v
        → execute one_document finish_research (finish_args id) question
          ≡ (question, ok (research_finished id)))
execute-Executed_example = execute-Executed one_document search_bm25 (search_args "cats") question

abbrev no_index : Backend
no_index = record one_document { dense_search = λ qid query. raised }

-- A back end that raises: nothing is caught.
raises_through : execute no_index search_dense (search_args "cats") question ≡ (question, uncaught)
unfolding execute validate_search search_found found
raises_through = refl

store_ranking-IsStored_example :
    IsStored
      (store_ranking bm25 "cats" [] question).0.rankings
      (store_ranking bm25 "cats" [] question).0.ranking_order
    × ((store_ranking bm25 "cats" [] question).1
        ≡ stored (length question.ranking_order + 1) bm25 0)
    × (lookup_ranking
          (length question.ranking_order + 1)
          (store_ranking bm25 "cats" [] question).0.rankings
        ≡ some (next_record bm25 "cats" [] question))
    × ((k : ℕ)
        → lookup_ranking k (store_ranking bm25 "cats" [] question).0.rankings
          ≡ or_else (lookup_ranking k question.rankings) (
              if length question.ranking_order + 1 == k
              then some (next_record bm25 "cats" [] question)
              else none))
store_ranking-IsStored_example =
    store_ranking-IsStored bm25 "cats" [] question question-IsRunning.bounded.stored

abbrev plain_task : Task
plain_task = record {
  is_agentic = true;
  allowed_tools = tools (search_bm25 ∷ finish_research ∷ []);
  max_turns = number 4;
  max_retrieval_calls = absent;
  max_rerank_calls = number 0;
  max_fusion_calls = absent;
  max_planner_retries = number 2;
  planner_max_tokens = absent;
  max_context_docs = absent;
  agent_depth = number 5;
  retrieval_depth = number 100;
  psg_len = absent;
  psg_stride = absent;
  psg_cnt = number 3;
  max_title_length = absent;
  resume = flag false;
}

configure-IsUsable_example : (cfg : Config) × (configure plain_task ≡ some cfg) × IsUsable cfg
unfolding validate_agentic_task check_tools check_minimum all_known contains positive_int as_bool
configure-IsUsable_example = configure-IsUsable plain_task 256 false refl refl (record {
  tokens = refl;
  retrieval_depth = refl;
  psg_len = refl;
  psg_stride = refl;
  psg_cnt = refl;
  max_title_length = refl;
  resume = refl;
})
