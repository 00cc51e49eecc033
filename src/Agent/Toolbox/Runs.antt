-- ===== src/Agent/Toolbox/Runs.antt =====
-- Each tool of the toolbox, run to its end.
use qry_eval_plus.Prelude.{
  Bool, Bool-cases, List, Option-cases, [], ap, arith, if◌then◌else◌, inl, inr, leb, length, refl,
  true, ◌&&◌, ◌∙◌, ◌∷◌, ◌≡◌,
}
use qry_eval_plus.Agent.State.{
  RankingId, r, other, ToolName, search_bm25, search_dense, rerank, fuse_rankings, finish_research,
  unknown, Arguments, search_args, rerank_args, fuse_args, finish_args, Ranking, Source, bm25,
  dense, reranked, rrf, RankingRecord, research_finished, ToolError, invalid_arguments,
  unknown_ranking, unknown_tool, backend_error, Outcome, ok, value_error, uncaught, AgentState,
}
use Prim.Native.String.{count}
use qry_eval_plus.Agent.Toolbox.{
  Backend, validate_search, validate_rerank, validate_fuse, validate_finish, lookup_ranking,
  record_of, rankings_of, found, execute, String, raised, store_with_evidence, search_found,
  ToolRun,
}
use qry_eval_plus.Agent.Toolbox.Ends.{
  Returns, by_bm25, by_dense, by_rerank, by_fusion, Escapes, bm25_escapes, dense_escapes,
  rerank_escapes, evidence_escapes, Executed, failed, escaped, stored_one, stored_unread,
  finished_with, Fetched-cases,
}

-- A value or a `ValueError`.
data Plain {A : Type 0} (o : Outcome A) : Type 0 where
  fine : (a : A) → o ≡ ok a → Plain o
  bad : (e : ToolError) → o ≡ value_error e → Plain o

record_of-Plain : (s : AgentState) (id : RankingId) → Plain (record_of s id)
unfolding record_of
record_of-Plain s (other id) = bad unknown_ranking refl
record_of-Plain s (r k) = elim (Option-cases (lookup_ranking k s.rankings)) [
  | inl e ↦ bad unknown_ranking (rw (e, record_of))
  | inr (v, e) ↦ fine v (rw (e, record_of))
]

rankings_of-Plain : (s : AgentState) (ids : List RankingId) → Plain (rankings_of s ids)
unfolding rankings_of
rankings_of-Plain s [] = fine [] refl
rankings_of-Plain s (id ∷ ids) = elim (record_of-Plain s id) [
  | bad e h ↦ bad e (rw h)
  | fine v h ↦ elim (rankings_of-Plain s ids) [
    | bad e k ↦ bad e (rw (h, k))
    | fine vs k ↦ fine (v.ranking ∷ vs) (rw (h, k))
  ]
]

module _ (b : Backend) (s : AgentState) where
  stores-Executed :
      (name : ToolName) (a : Arguments) (source : Source) (q : String) (l : Ranking)
      → Returns b s name a source q l
      → Executed b s name a (store_with_evidence b source q l s)
  unfolding store_with_evidence found
  stores-Executed name a source q l h = elim (Fetched-cases (b.evidence q l)) [
    | inl (_, e) ↦ stored_one source q l h e (rw e)
    | inr (inl e) ↦ stored_unread source q l h e (rw e)
    | inr (inr e) ↦ escaped (evidence_escapes name a source q l h e) (rw e)
  ]

  bm25-Executed :
      (q : String)
      → Executed b s search_bm25 (search_args q) (execute b search_bm25 (search_args q) s)
  unfolding execute validate_search search_found found
  bm25-Executed q = elim (Bool-cases (leb 1 (count q) && leb (count q) 500)) [
    | inr e ↦ failed invalid_arguments (rw e)
    | inl fits ↦ elim (Fetched-cases (b.bm25_search s.qid s.question q)) [
      | inl (l, e) ↦
          rw (fits, e)
            (stores-Executed search_bm25 (search_args q) bm25 q l
              (by_bm25 q l (ground arith) (ground arith) e))
      | inr (inl e) ↦ failed backend_error (rw (fits, e))
      | inr (inr e) ↦ escaped (bm25_escapes q (ground arith) (ground arith) e) (rw (fits, e))
    ]
  ]

  dense-Executed :
      (q : String)
      → Executed b s search_dense (search_args q) (execute b search_dense (search_args q) s)
  unfolding execute validate_search search_found found
  dense-Executed q = elim (Bool-cases (leb 1 (count q) && leb (count q) 500)) [
    | inr e ↦ failed invalid_arguments (rw e)
    | inl fits ↦ elim (Fetched-cases (b.dense_search s.qid q)) [
      | inl (l, e) ↦
          rw (fits, e)
            (stores-Executed search_dense (search_args q) dense q l
              (by_dense q l (ground arith) (ground arith) e))
      | inr (inl e) ↦ failed backend_error (rw (fits, e))
      | inr (inr e) ↦ escaped (dense_escapes q (ground arith) (ground arith) e) (rw (fits, e))
    ]
  ]

  -- An id that the validation refuses is not one of a stored ranking.
  rerank_with-Executed :
      (id : RankingId) (q : String) (ok_id : Bool)
      → validate_rerank (rerank_args id q) ≡ (
          if ok_id && (leb 1 (count q) && leb (count q) 500)
          then ok (id, q)
          else value_error invalid_arguments)
      → Executed b s rerank (rerank_args id q) (execute b rerank (rerank_args id q) s)
  unfolding execute found
  rerank_with-Executed id q ok_id h =
      elim (Bool-cases (ok_id && (leb 1 (count q) && leb (count q) 500))) [
        | inr e ↦ failed invalid_arguments (rw (h, e))
        | inl fits ↦ elim (record_of-Plain s id) [
          | bad e k ↦ failed e (rw (h, fits, k))
          | fine v k ↦ elim (Fetched-cases (b.rerank_results s.qid q v.ranking)) [
            | inl (l, e) ↦
                rw (h, fits, k, e)
                  (stores-Executed rerank (rerank_args id q) reranked q l
                    (by_rerank id v q l (ground arith) (ground arith) k e))
            | inr (inl e) ↦ failed backend_error (rw (h, fits, k, e))
            | inr (inr e) ↦
                escaped (rerank_escapes id v q (ground arith) (ground arith) k e)
                  (rw (h, fits, k, e))
          ]
        ]
      ]

  rerank-Executed :
      (id : RankingId) (q : String)
      → Executed b s rerank (rerank_args id q) (execute b rerank (rerank_args id q) s)
  unfolding validate_rerank
  rerank-Executed (r k) q = rerank_with-Executed (r k) q true refl
  rerank-Executed (other t) q = rerank_with-Executed (other t) q (leb 1 (count t)) refl

  fusion-Executed :
      (ids : List RankingId)
      → Executed b s fuse_rankings (fuse_args ids) (execute b fuse_rankings (fuse_args ids) s)
  unfolding execute validate_fuse
  fusion-Executed ids = elim (Bool-cases (leb 2 (length ids) && leb (length ids) 4)) [
    | inr e ↦ failed invalid_arguments (rw e)
    | inl fits ↦ elim (rankings_of-Plain s ids) [
      | bad e k ↦ failed e (rw (fits, k))
      | fine ls k ↦
          rw (fits, k)
            (stores-Executed fuse_rankings (fuse_args ids) rrf s.question (b.fuse ls)
              (by_fusion ids ls (ground arith) (ground arith) k))
    ]
  ]

  finish-Executed :
      (id : RankingId)
      → Executed b s finish_research (finish_args id) (execute b finish_research (finish_args id) s)
  unfolding execute validate_finish record_of
  finish-Executed (r k) = elim (record_of-Plain s (r k)) [
    | bad e h ↦ failed e (rw h)
    | fine v h ↦ finished_with (r k) v refl refl h (rw h)
  ]
  finish-Executed (other t) = elim (Bool-cases (leb 1 (count t))) [
    | inr e ↦ failed invalid_arguments (rw e)
    | inl e ↦ failed unknown_ranking (rw e)
  ]

  pub ends-Executed : (name : ToolName) (a : Arguments) → Executed b s name a (execute b name a s)
  unfolding execute validate_search validate_rerank validate_fuse validate_finish search_found
  ends-Executed search_bm25 (search_args q) = bm25-Executed q
  ends-Executed search_bm25 _ = failed invalid_arguments refl
  ends-Executed search_dense (search_args q) = dense-Executed q
  ends-Executed search_dense _ = failed invalid_arguments refl
  ends-Executed rerank (rerank_args id q) = rerank-Executed id q
  ends-Executed rerank _ = failed invalid_arguments refl
  ends-Executed fuse_rankings (fuse_args ids) = fusion-Executed ids
  ends-Executed fuse_rankings _ = failed invalid_arguments refl
  ends-Executed finish_research (finish_args id) = finish-Executed id
  ends-Executed finish_research _ = failed invalid_arguments refl
  ends-Executed (unknown name) a = failed unknown_tool refl

  -- A ranking that a tool finds is stored.
  pub execute-Returns :
      (name : ToolName) (a : Arguments) (source : Source) (q : String) (l : Ranking)
      → Returns b s name a source q l
      → execute b name a s ≡ store_with_evidence b source q l s
  unfolding execute validate_search validate_rerank validate_fuse search_found found record_of
  execute-Returns _ _ _ _ _ (by_bm25 q l low high e) =
      let fits : leb 1 (count q) && leb (count q) 500 ≡ true = ground arith in rw (fits, e)
  execute-Returns _ _ _ _ _ (by_dense q l low high e) =
      let fits : leb 1 (count q) && leb (count q) 500 ≡ true = ground arith in rw (fits, e)
  execute-Returns _ _ _ _ _ (by_rerank (r k) v q l low high known e) =
      let fits : leb 1 (count q) && leb (count q) 500 ≡ true = ground arith in rw (fits, known, e)
  execute-Returns _ _ _ _ _ (by_rerank (other t) v q l low high known e) = cc
  execute-Returns _ _ _ _ _ (by_fusion ids ls low high e) =
      let fits : leb 2 (length ids) && leb (length ids) 4 ≡ true = ground arith in rw (fits, e)

  -- What a back end raises leaves the tool.
  pub execute-Escapes :
      (name : ToolName) (a : Arguments) → Escapes b s name a → (execute b name a s).1 ≡ uncaught
  unfolding execute validate_search validate_rerank search_found found record_of
  execute-Escapes _ _ (bm25_escapes q low high e) =
      let fits : leb 1 (count q) && leb (count q) 500 ≡ true = ground arith in rw (fits, e)
  execute-Escapes _ _ (dense_escapes q low high e) =
      let fits : leb 1 (count q) && leb (count q) 500 ≡ true = ground arith in rw (fits, e)
  execute-Escapes _ _ (rerank_escapes (r k) v q low high known e) =
      let fits : leb 1 (count q) && leb (count q) 500 ≡ true = ground arith in rw (fits, known, e)
  execute-Escapes _ _ (rerank_escapes (other t) v q low high known e) = cc
  execute-Escapes _ _ (evidence_escapes name a source q l h e) =
      ap (λ (run : ToolRun). run.1) (execute-Returns name a source q l h) ∙ unread source q l e
    where
      unread :
          (source : Source) (q : String) (l : Ranking)
          → b.evidence q l ≡ raised
          → (store_with_evidence b source q l s).1 ≡ uncaught
      unread source q l e = rw e

  pub execute-finish :
      (id : RankingId) (v : RankingRecord)
      → record_of s id ≡ ok v
      → execute b finish_research (finish_args id) s ≡ (s, ok (research_finished id))
  unfolding execute validate_finish record_of
  execute-finish (r k) v known = rw known
  execute-finish (other t) v known = cc
