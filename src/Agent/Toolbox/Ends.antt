-- ===== src/Agent/Toolbox/Ends.antt =====
-- The ways a tool of the toolbox can end: what it finds, stores or raises.
use qry_eval_plus.Prelude.{List, inl, inr, length, refl, ◌≡◌, ◌≤◌, ◌⊎◌}
use qry_eval_plus.Agent.State.{
  RankingId, ToolName, search_bm25, search_dense, rerank, fuse_rankings, finish_research, Arguments,
  search_args, rerank_args, fuse_args, finish_args, Ranking, Source, bm25, dense, reranked, rrf,
  RankingRecord, research_finished, ToolError, backend_error, ok, value_error, uncaught, AgentState,
}
use Prim.Native.String.{count}
use qry_eval_plus.Agent.Toolbox.{
  Backend, record_of, rankings_of, store_ranking, String, Fetched, fetched, refused, raised,
  ToolRun,
}

pub Fetched-cases :
    {A : Type 0} (o : Fetched A) → ((a : A) × (o ≡ fetched a)) ⊎ (o ≡ refused) ⊎ (o ≡ raised)
Fetched-cases (fetched a) = inl (a, refl)
Fetched-cases refused = inr (inl refl)
Fetched-cases raised = inr (inr refl)

-- A call of a back end that raises what the tool node does not catch.
pub data Raises (b : Backend) : Type 0 where
  bm25_raises : (qid question query : String) → b.bm25_search qid question query ≡ raised → Raises b
  dense_raises : (qid query : String) → b.dense_search qid query ≡ raised → Raises b
  rerank_raises :
      (qid query : String) (ranking : Ranking)
      → b.rerank_results qid query ranking ≡ raised
      → Raises b
  evidence_raises :
      (query : String) (ranking : Ranking) → b.evidence query ranking ≡ raised → Raises b

-- The ranking that a tool finds for valid arguments, with the source and the query it is kept under.
pub data Returns (b : Backend) (s : AgentState)
    : ToolName → Arguments → Source → String → Ranking → Type 0 where
  by_bm25 :
      (q : String) (l : Ranking)
      → 1 ≤ count q
      → count q ≤ 500
      → b.bm25_search s.qid s.question q ≡ fetched l
      → Returns b s search_bm25 (search_args q) bm25 q l
  by_dense :
      (q : String) (l : Ranking)
      → 1 ≤ count q
      → count q ≤ 500
      → b.dense_search s.qid q ≡ fetched l
      → Returns b s search_dense (search_args q) dense q l
  by_rerank :
      (id : RankingId) (v : RankingRecord) (q : String) (l : Ranking)
      → 1 ≤ count q
      → count q ≤ 500
      → record_of s id ≡ ok v
      → b.rerank_results s.qid q v.ranking ≡ fetched l
      → Returns b s rerank (rerank_args id q) reranked q l
  by_fusion :
      (ids : List RankingId) (ls : List Ranking)
      → 2 ≤ length ids
      → length ids ≤ 4
      → rankings_of s ids ≡ ok ls
      → Returns b s fuse_rankings (fuse_args ids) rrf s.question (b.fuse ls)

-- The back end that a tool calls raises, or the reading of the evidence of what it has found does.
pub data Escapes (b : Backend) (s : AgentState) : ToolName → Arguments → Type 0 where
  bm25_escapes :
      (q : String)
      → 1 ≤ count q
      → count q ≤ 500
      → b.bm25_search s.qid s.question q ≡ raised
      → Escapes b s search_bm25 (search_args q)
  dense_escapes :
      (q : String)
      → 1 ≤ count q
      → count q ≤ 500
      → b.dense_search s.qid q ≡ raised
      → Escapes b s search_dense (search_args q)
  rerank_escapes :
      (id : RankingId) (v : RankingRecord) (q : String)
      → 1 ≤ count q
      → count q ≤ 500
      → record_of s id ≡ ok v
      → b.rerank_results s.qid q v.ranking ≡ raised
      → Escapes b s rerank (rerank_args id q)
  evidence_escapes :
      (name : ToolName) (a : Arguments) (source : Source) (q : String) (l : Ranking)
      → Returns b s name a source q l
      → b.evidence q l ≡ raised
      → Escapes b s name a

pub Escapes-Raises :
    {b : Backend} {s : AgentState} (name : ToolName) (a : Arguments) → Escapes b s name a → Raises b
Escapes-Raises {s = s} _ _ (bm25_escapes q low high e) = bm25_raises s.qid s.question q e
Escapes-Raises {s = s} _ _ (dense_escapes q low high e) = dense_raises s.qid q e
Escapes-Raises {s = s} _ _ (rerank_escapes id v q low high known e) =
    rerank_raises s.qid q v.ranking e
Escapes-Raises _ _ (evidence_escapes name a source q l h e) = evidence_raises q l e

-- How a tool ends, and in which state.
pub data Executed (b : Backend) (s : AgentState) (name : ToolName) (a : Arguments) (run : ToolRun)
    : Type 0 where
  failed : (e : ToolError) → run ≡ (s, value_error e) → Executed b s name a run
  escaped : Escapes b s name a → run.1 ≡ uncaught → Executed b s name a run
  stored_one :
      (source : Source) (query : String) (ranking : Ranking)
      → Returns b s name a source query ranking
      → b.evidence query ranking ≡ fetched tt
      → run
        ≡ ((store_ranking source query ranking s).0, ok (store_ranking source query ranking s).1)
      → Executed b s name a run
  stored_unread :
      (source : Source) (query : String) (ranking : Ranking)
      → Returns b s name a source query ranking
      → b.evidence query ranking ≡ refused
      → run ≡ ((store_ranking source query ranking s).0, value_error backend_error)
      → Executed b s name a run
  finished_with :
      (id : RankingId) (v : RankingRecord)
      → name ≡ finish_research
      → a ≡ finish_args id
      → record_of s id ≡ ok v
      → run ≡ (s, ok (research_finished id))
      → Executed b s name a run
