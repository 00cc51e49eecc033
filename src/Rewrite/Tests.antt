-- ===== src/Rewrite/Tests.antt =====
-- A run that rewrites its query.
use qry_eval_plus.Prelude.{List, Option, [], map, none, refl, some, ℕ, ◌∷◌, ◌≡◌}
use Prim.Native.String.{String}
use qry_eval_plus.Text.{Text, codes, lower}
use qry_eval_plus.Grounding.{answered}
use qry_eval_plus.Agent.State.{AgentState, RankingRecord, bm25, initial}
use qry_eval_plus.Agent.Toolbox.{Backend, fetched, raised}
use qry_eval_plus.Rewrite.{always, rewritten, finish, Result, execute_one}

abbrev backend : Backend
backend = record {
  bm25_search = λ qid question query. fetched ((7, query) ∷ []);
  dense_search = λ qid query. raised;
  rerank_results = λ qid query ranking. fetched ranking;
  fuse = λ rankings. [];
  evidence = λ query ranking. fetched tt;
}

abbrev passages_of : RankingRecord → List Text
passages_of v = codes "The cat is an animal." ∷ []

abbrev generate : List Text → Option Text
generate passages = some (codes "animal")

abbrev ranked : ℕ → String → RankingRecord
ranked k query = record { ranking_id = k; source = bm25; query = query; ranking = (7, query) ∷ [] }

abbrev two_rankings : AgentState
two_rankings = record (initial "q1" "cats" []) {
  rankings = (1, ranked 1 "cats") ∷ (2, ranked 2 "cat animal") ∷ [];
  ranking_order = 1 ∷ 2 ∷ [];
}

abbrev animal : Result
animal = record {
  ranking = (7, "cat animal") ∷ [];
  answer = codes "animal";
  status = answered;
  rewritten_query = some "cat animal";
  retrieval_calls = 2;
  llm_calls = 2;
  stop_reason = rewritten;
  selected = some 2;
}

finish_refused :
    execute_one passages_of generate (map lower) 4 5 backend always (some (finish ∷ [])) "q1" "cats"
    ≡ none
unfolding execute_one
finish_refused = refl
