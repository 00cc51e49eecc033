-- ===== src/Rewrite/Evidence.antt =====
-- The answer of the rewriting agent on the evidence of a ranking.
use qry_eval_plus.Prelude.{
  >>=-some, All, Bool-cases, List, Option, [], ap, false, inl, inr, refl, some, some_eq, subst, sym,
  true, ℕ, ◌∙◌, ◌∷◌, ◌≡◌, ◌≢◌, ◌⊎◌,
}
use Prim.Native.String.{String}
use qry_eval_plus.Text.{Text, strip}
use qry_eval_plus.Agent.State.{Ranking, RankingRecord, AgentState}
use qry_eval_plus.Agent.Toolbox.{found, lookup_ranking}
use qry_eval_plus.Rewrite.{
  empty_retrieval, Result, calls_for, answer_from, answer_selected, no_results, no_evidence,
  is_empty, all_blank,
}

-- Nothing to answer from: no document, or passages of spaces only.
abbrev pub NoEvidence : (RankingRecord → List Text) → RankingRecord → Type 0
NoEvidence passages_of v = (v.ranking ≡ []) ⊎ All (λ p. strip p ≡ []) (passages_of v)

-- An empty answer for want of evidence, or the model's answer on the evidence.
pub data Answer (passages_of : RankingRecord → List Text) (generate : List Text → Option Text)
    (v : RankingRecord) (res : Result) : Type 0 where
  unanswered :
      res.answer ≡ []
      → res.stop_reason ≡ empty_retrieval
      → NoEvidence passages_of v
      → Answer passages_of generate v res
  answers :
      res.answer ≢ []
      → generate (passages_of v) ≡ some res.answer
      → ¬ NoEvidence passages_of v
      → Answer passages_of generate v res

pub no_results-nil : (xs : Ranking) → no_results xs ≡ true → xs ≡ []
no_results-nil [] h = refl
no_results-nil (x ∷ xs) h = cc

is_empty-ne : (s : Text) → is_empty s ≡ false → s ≢ []
is_empty-ne [] h = λ e. cc
is_empty-ne (c ∷ s) h = λ e. cc

is_empty-nil : (s : Text) → is_empty s ≡ true → s ≡ []
is_empty-nil [] h = refl
is_empty-nil (c ∷ s) h = cc

all_blank-All : (ps : List Text) → all_blank ps ≡ true → All (λ p. strip p ≡ []) ps
unfolding all_blank
all_blank-All [] h = tt
all_blank-All (p ∷ ps) h = elim (Bool-cases (is_empty (strip p))) [
  | inl e ↦ (is_empty-nil (strip p) e, all_blank-All ps (rw e at h))
  | inr e ↦ cc (rw e at h)
]

All-all_blank : (ps : List Text) → All (λ p. strip p ≡ []) ps → all_blank ps ≡ true
unfolding all_blank
All-all_blank [] h = refl
All-all_blank (p ∷ ps) (e, h) =
    let blank : is_empty (strip p) ≡ true = ap is_empty e in rw blank (All-all_blank ps h)

no_evidence-NoEvidence :
    (passages_of : RankingRecord → List Text) (v : RankingRecord)
    → no_evidence passages_of v ≡ true
    → NoEvidence passages_of v
no_evidence-NoEvidence passages_of v h = elim (Bool-cases (no_results v.ranking)) [
  | inl empty ↦ inl (no_results-nil v.ranking empty)
  | inr some_ ↦ inr (all_blank-All (passages_of v) (rw some_ at h))
]

evidence :
    (passages_of : RankingRecord → List Text) (v : RankingRecord)
    → no_evidence passages_of v ≡ false
    → ¬ NoEvidence passages_of v
evidence passages_of v h (inl empty) =
    let none_ : no_results v.ranking ≡ true = ap no_results empty in cc (rw none_ at h)
evidence passages_of v h (inr blank) =
    let e = All-all_blank (passages_of v) blank in
    elim (Bool-cases (no_results v.ranking)) [
      | inl none_ ↦ cc (rw none_ at h)
      | inr some_ ↦ cc (rw (some_, e) at h)
    ]

-- The parts of a result, from those of the run.
pub record Answers (passages_of : RankingRecord → List Text) (generate : List Text → Option Text)
    (rewritten_query : Option String) (k : ℕ) (v : RankingRecord) (res : Result) : Type 0 where
  pub same_query : res.rewritten_query ≡ rewritten_query
  pub calls : res.retrieval_calls ≡ calls_for rewritten_query
  pub same_id : res.selected ≡ some k
  pub same_ranking : res.ranking ≡ v.ranking
  pub answered : Answer passages_of generate v res

module _ (passages_of : RankingRecord → List Text) (generate : List Text → Option Text)
    (lowercase : Text → Text) (num den : ℕ) where
  answer_from-Answers :
      (rewritten_query : Option String) (k : ℕ) (v : RankingRecord) (res : Result)
      → answer_from passages_of generate lowercase num den rewritten_query k v ≡ some res
      → Answers passages_of generate rewritten_query k v res
  unfolding answer_from
  answer_from-Answers q k v res h = elim (Bool-cases (no_evidence passages_of v)) [
    | inl none_ ↦ subst (Answers passages_of generate q k v) (some_eq (rw none_ at h)) (record {
      same_query = refl;
      calls = refl;
      same_id = refl;
      same_ranking = refl;
      answered = unanswered refl refl (no_evidence-NoEvidence passages_of v none_);
    })
    | inr some_ ↦
        let (answer, generates, h1) = >>=-some (generate (passages_of v)) _ (rw some_ at h) in
        elim (Bool-cases (is_empty answer)) [
          | inl blank ↦ cc (rw blank at h1)
          | inr full ↦
              subst (Answers passages_of generate q k v) (some_eq (rw full at h1)) (record {
                same_query = refl;
                calls = refl;
                same_id = refl;
                same_ranking = refl;
                answered =
                    answers (is_empty-ne answer full) generates (evidence passages_of v some_);
              })
        ]
  ]

  -- From the selected ranking on.
  pub selected-Answers :
      (q : Option String) (s s' : AgentState) (k : ℕ) (v : RankingRecord) (res : Result)
      → lookup_ranking k s.rankings ≡ some v
      → answer_selected passages_of generate lowercase num den q (s, k) ≡ some (s', res)
      → (s ≡ s') × Answers passages_of generate q k v res
  selected-Answers q s s' k v res found h =
      let (w, found', h1) = >>=-some (lookup_ranking k s.rankings) _ h in
      let (got, answered, h2) =
        >>=-some (answer_from passages_of generate lowercase num den q k w) _ h1 in
      let e = some_eq h2 in
      let w_v : w ≡ v = some_eq (sym found' ∙ found) in
      (
        ap (λ (x : AgentState × Result). x.0) e,
        subst (λ x. Answers passages_of generate q k x res) w_v
            (subst (Answers passages_of generate q k w) (ap (λ (x : AgentState × Result). x.1) e)
              (answer_from-Answers q k w got answered)),
      )
