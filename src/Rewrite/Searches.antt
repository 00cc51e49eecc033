-- ===== src/Rewrite/Searches.antt =====
-- What a search of the rewriting agent stores.
use qry_eval_plus.Prelude.{
  Bool-cases, [], ap, arith, inl, inr, leb, length, length-append, refl, some, some_eq, subst, sym,
  ℕ, ◌&&◌, ◌+◌, ◌∷◌, ◌≡◌,
}
use Prim.Native.String.{String, count}
use qry_eval_plus.Agent.State.{bm25, Ranking, RankingRecord, AgentState, initial}
use qry_eval_plus.Agent.Toolbox.{
  Backend, execute, found, validate_search, search_found, store_with_evidence, lookup_ranking,
  store_ranking,
}
use qry_eval_plus.Agent.Toolbox.Ends.{Fetched-cases}
use qry_eval_plus.Agent.Toolbox.Cases.{IsStored, next_record, store_ranking-IsStored}
use qry_eval_plus.Rewrite.{search}

search-stored :
    (b : Backend) (query : String) (s s' : AgentState) (k : ℕ)
    → search b query s ≡ some (s', k)
    → (ranking : Ranking) × (s' ≡ (store_ranking bm25 query ranking s).0)
      × (k ≡ length s.ranking_order + 1)
unfolding search execute validate_search search_found found store_with_evidence store_ranking
search-stored b query s s' k h = elim (Bool-cases (leb 1 (count query) && leb (count query) 500)) [
  | inr bad ↦ cc (rw bad at h)
  | inl fits ↦ elim (Fetched-cases (b.bm25_search s.qid s.question query)) [
    | inr (inl failed) ↦ cc (rw (fits, failed) at h)
    | inr (inr failed) ↦ cc (rw (fits, failed) at h)
    | inl (ranking, got) ↦ elim (Fetched-cases (b.evidence query ranking)) [
      | inr (inl failed) ↦ cc (rw (fits, got, failed) at h)
      | inr (inr failed) ↦ cc (rw (fits, got, failed) at h)
      | inl (_, read) ↦
          let e = some_eq (rw (fits, got, read) at h) in
          (
            ranking,
            sym (ap (λ (x : AgentState × ℕ). x.0) e),
            sym (ap (λ (x : AgentState × ℕ). x.1) e),
          )
    ]
  ]
]

-- One more search.
pub record Searched (query : String) (s s' : AgentState) (k : ℕ) : Type 0 where
  pub in_order : IsStored s'.rankings s'.ranking_order
  pub count_of : k ≡ length s.ranking_order + 1
  pub counted : length s'.ranking_order ≡ k
  pub chosen : (v : RankingRecord) × (lookup_ranking k s'.rankings ≡ some v) × (v.query ≡ query)

pub search-Searched :
    (b : Backend) (query : String) (s s' : AgentState) (k : ℕ)
    → IsStored s.rankings s.ranking_order
    → search b query s ≡ some (s', k)
    → Searched query s s' k
unfolding store_ranking
search-Searched b query s s' k i h =
    let (ranking, e, e') = search-stored b query s s' k h in
    let (next, _, here, _) = store_ranking-IsStored bm25 query ranking s i in
    subst (λ x. Searched query s x k) (sym e)
      (subst (Searched query s (store_ranking bm25 query ranking s).0) (sym e') (record {
        in_order = next;
        count_of = refl;
        counted = omega (arith, length-append s.ranking_order ((length s.ranking_order + 1) ∷ []));
        chosen = (next_record bm25 query ranking s, here, refl);
      }))

pub initial-IsStored :
    (qid question : String)
    → IsStored (initial qid question []).rankings (initial qid question []).ranking_order
      × (length (initial qid question []).ranking_order ≡ 0)
unfolding initial
initial-IsStored qid question = (record { known = tt; counted = tt }, refl)
