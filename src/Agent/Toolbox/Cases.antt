-- ===== src/Agent/Toolbox/Cases.antt =====
-- The ways a tool can end, and what the stored rankings keep.
use qry_eval_plus.Prelude.{
  ==_refl, All, All-append, All-map, Bool-cases, List, Option, [], arith, if◌then◌else◌, inl, inr,
  length, length-append, none, refl, some, ℕ, ◌++◌, ◌+◌, ◌<◌, ◌==◌, ◌∷◌, ◌≡◌, ◌≤◌,
}
use qry_eval_plus.Agent.State.{
  RankingId, r, other, ToolName, finish_research, Arguments, finish_args, Ranking, Source,
  RankingRecord, research_finished, ok, uncaught, AgentState, stored,
}
use qry_eval_plus.Agent.Toolbox.Ends.{Returns, Escapes, Executed}
use qry_eval_plus.Agent.Toolbox.Runs.{
  ends-Executed, execute-Returns, execute-Escapes, execute-finish,
}
use qry_eval_plus.Agent.Toolbox.{
  Backend, lookup_ranking, record_of, store_ranking, execute, String, store_with_evidence,
}

-- A tool ends in one of five ways. It fails by a ValueError with the state unchanged; or it raises
-- what its own back end, or the reading of the evidence, raises; or it stores the ranking that its own back end returns for the query it
-- was given, or that the fusion makes of the rankings it names, under its source and its query, and
-- returns its id when the evidence can be read, or fails by a ValueError and keeps the ranking when
-- it cannot; or it finishes with the stored ranking that it is given. A ranking so returned for
-- valid arguments is always stored, an exception other than a ValueError is never caught, and a
-- stored ranking can always be finished with.
pub execute-Executed :
    (b : Backend) (name : ToolName) (a : Arguments) (s : AgentState)
    → Executed b s name a (execute b name a s)
      × ((source : Source) (q : String) (l : Ranking)
          → Returns b s name a source q l
          → execute b name a s ≡ store_with_evidence b source q l s)
      × (Escapes b s name a → (execute b name a s).1 ≡ uncaught)
      × ((id : RankingId) (v : RankingRecord)
          → record_of s id ≡ ok v
          → execute b finish_research (finish_args id) s ≡ (s, ok (research_finished id)))
execute-Executed b name a s = (
  ends-Executed b s name a,
  execute-Returns b s name a,
  execute-Escapes b s name a,
  execute-finish b s,
)

-- The rankings and their order: every id in the order is a key, and the keys count from 1.
pub record IsStored (m : List (ℕ × RankingRecord)) (order : List ℕ) : Type 0 where
  pub known : All (λ k. (v : RankingRecord) × (lookup_ranking k m ≡ some v)) order
  pub counted : All (λ e. e.0 ≤ length order) m

pub lookup-append_some :
    (k : ℕ) (m n : List (ℕ × RankingRecord)) (v : RankingRecord)
    → lookup_ranking k m ≡ some v
    → lookup_ranking k (m ++ n) ≡ some v
unfolding lookup_ranking
lookup-append_some k [] n v h = cc
lookup-append_some k ((j, w) ∷ m) n v h = elim (Bool-cases (j == k)) [
  | inl e ↦ let h' : some w ≡ some v = rw e at h in rw e h'
  | inr e ↦ rw e (lookup-append_some k m n v (rw e at h))
]

pub lookup-append_fresh :
    (k : ℕ) (m : List (ℕ × RankingRecord)) (v : RankingRecord)
    → All (λ e. e.0 < k) m
    → lookup_ranking k (m ++ (k, v) ∷ []) ≡ some v
unfolding lookup_ranking
lookup-append_fresh k [] v h = rw (==_refl k)
lookup-append_fresh k ((j, w) ∷ m) v h = ground (arith, lookup-append_fresh k m v h.1)

-- What a lookup finds in rankings with one more at the end.
abbrev pub or_else : Option RankingRecord → Option RankingRecord → Option RankingRecord
or_else (some v) o = some v
or_else none o = o

lookup-snoc :
    (k j : ℕ) (m : List (ℕ × RankingRecord)) (v : RankingRecord)
    → lookup_ranking k (m ++ (j, v) ∷ [])
      ≡ or_else (lookup_ranking k m) (if j == k then some v else none)
unfolding lookup_ranking
lookup-snoc k j [] v = refl
lookup-snoc k j ((i, w) ∷ m) v = elim (Bool-cases (i == k)) [
  | inl e ↦ rw e
  | inr e ↦ rw e (lookup-snoc k j m v)
]

known-append :
    (order : List ℕ) (m n : List (ℕ × RankingRecord))
    → All (λ k. (v : RankingRecord) × (lookup_ranking k m ≡ some v)) order
    → All (λ k. (v : RankingRecord) × (lookup_ranking k (m ++ n) ≡ some v)) order
known-append [] m n h = tt
known-append (k ∷ order) m n ((v, e), h) =
    ((v, lookup-append_some k m n v e), known-append order m n h)

-- The record that the next ranking is stored in.
abbrev pub next_record : Source → String → Ranking → AgentState → RankingRecord
next_record source query ranking s = record {
  ranking_id = length s.ranking_order + 1;
  source = source;
  query = query;
  ranking = ranking;
}

-- Storing a ranking keeps the store in order; the ranking is found under the id that the result
-- names, one more than the number stored before; and what is found under any other id, and under
-- any id that was taken, stays what it was.
pub store_ranking-IsStored :
    (source : Source) (query : String) (ranking : Ranking) (s : AgentState)
    → IsStored s.rankings s.ranking_order
    → IsStored
        (store_ranking source query ranking s).0.rankings
        (store_ranking source query ranking s).0.ranking_order
      × ((store_ranking source query ranking s).1
          ≡ stored (length s.ranking_order + 1) source (length ranking))
      × (lookup_ranking
            (length s.ranking_order + 1)
            (store_ranking source query ranking s).0.rankings
          ≡ some (next_record source query ranking s))
      × ((k : ℕ)
          → lookup_ranking k (store_ranking source query ranking s).0.rankings
            ≡ or_else (lookup_ranking k s.rankings) (
                if length s.ranking_order + 1 == k
                then some (next_record source query ranking s)
                else none))
unfolding store_ranking
store_ranking-IsStored source query ranking s h =
    let k = length s.ranking_order + 1 in
    let v = next_record source query ranking s in
    let grow = length-append s.ranking_order (k ∷ []) in
    let new =
      lookup-append_fresh k s.rankings v (All-map _ _ (λ e le. omega arith) s.rankings h.counted) in
    (
      record {
        known =
            All-append _ s.ranking_order (k ∷ [])
              (known-append s.ranking_order s.rankings ((k, v) ∷ []) h.known) ((v, new), tt);
        counted =
            All-append _ s.rankings ((k, v) ∷ [])
              (All-map _ _ (λ e le. omega (arith, grow)) s.rankings h.counted)
              (omega (arith, grow), tt);
      },
      refl,
      new,
      λ j. lookup-snoc j k s.rankings v,
    )

-- `_record` reads the rankings alone.
pub record_of-same :
    (s s' : AgentState) (id : RankingId)
    → s'.rankings ≡ s.rankings
    → record_of s' id ≡ record_of s id
unfolding record_of
record_of-same s s' (other id) e = refl
record_of-same s s' (r k) e = rw e
