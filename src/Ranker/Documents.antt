-- ===== src/Ranker/Documents.antt =====
-- What the loop over the matching documents ranks: each document that the query holds, once.
use qry_eval_plus.Prelude.{
  All, Bool, Bool-cases, In, List, [], ap, append-nil, append_assoc, arith, inl, inr, ltb, ltb→le,
  ltb→lt, map, refl, some, subst, suc, sym, true, zero, ℕ, ◌++◌, ◌<◌, ◌∙◌, ◌∷◌, ◌≡◌, ◌≤◌,
}
use qry_eval_plus.Score.{Sop, get_match, has_match, RetrievalModel}
use qry_eval_plus.Score.Disjunction.{
  IsDisjunction, Holds, clear, Matched, no_match, match_at, has_match-Matched,
}
use qry_eval_plus.Ranking.{Entry, add}
use qry_eval_plus.Ranker.{rank_loop}
use qry_eval_plus.Ranker.Past.{left, best_tf, IsOr, Passed, advance_past-Passed}
use qry_eval_plus.Ranker.Trees.{
  IsDisjunction-clear, IsOr-clear, same_of_clear, Holds-clear, left-clear, best_tf-clear,
}
use qry_eval_plus.Ranker.Scores.{clear-IsMatched, expected_score, get_score-Scored}

-- Documents with their scores, in increasing order.
abbrev pub Increasing : List (ℕ × ℕ) → Type 0
Increasing [] = Unit
Increasing (p ∷ ps) = All (λ r. p.0 < r.0) ps × Increasing ps

In-All : (P : ℕ × ℕ → Type 0) (xs : List (ℕ × ℕ)) → ((x : ℕ × ℕ) → In x xs → P x) → All P xs
In-All P [] h = tt
In-All P (x ∷ xs) h = (h x (inl refl), In-All P xs (λ y i. h y (inr i)))

-- The documents that a query holds, each with its score.
pub record Lists (model : RetrievalModel) (q : Sop) (found : List (ℕ × ℕ)) : Type 0 where
  pub increasing : Increasing found
  pub sound : (d s : ℕ) → In (d, s) found → Holds d q × (s ≡ expected_score model d q)
  pub complete : (d : ℕ) → Holds d q → (s : ℕ) × In (d, s) found

none-Lists : (model : RetrievalModel) (q : Sop) → ((d : ℕ) → ¬ Holds d q) → Lists model q []
none-Lists model q h = record {
  increasing = tt;
  sound = λ d s i. absurd i;
  complete = λ d x. absurd (h d x);
}

expected_score-past :
    (model : RetrievalModel) (e : ℕ) (q q' : Sop)
    → best_tf e q' ≡ best_tf e q
    → expected_score model e q' ≡ expected_score model e q
expected_score-past RetrievalModel.unranked_boolean e q q' h = refl
expected_score-past RetrievalModel.ranked_boolean e q q' h = h

cons-Lists :
    (model : RetrievalModel) (height d : ℕ) (q q' : Sop) (found : List (ℕ × ℕ))
    → Passed d height q q'
    → Holds d q
    → ((e : ℕ) → Holds e q → d ≤ e)
    → Lists model q' found
    → Lists model q ((d, expected_score model d q) ∷ found)
cons-Lists model height d q q' found p held low l = record {
  increasing =
      (In-All (λ r. d < r.0) found (λ x i. (p.beyond x.0 (l.sound x.0 x.1 i).0).1), l.increasing);
  sound = λ e s i. elim i [
    | inl x ↦
        let d_e : d ≡ e = ap (λ (y : ℕ × ℕ). y.0) x in
        (
          subst (λ n. Holds n q) d_e held,
          sym (ap (λ (y : ℕ × ℕ). y.1) x) ∙ ap (λ n. expected_score model n q) d_e,
        )
    | inr j ↦
        let (h, eq) = l.sound e s j in
        let (h', lt) = p.beyond e h in (h', eq ∙ expected_score-past model e q q' (p.same_tf e lt))
  ];
  complete = λ e h. elim (Bool-cases (ltb d e)) [
    | inl lt ↦ let (s, i) = l.complete e (p.stays e h (ltb→lt d e lt)) in (s, inr i)
    | inr ge ↦
        let d_e : d ≡ e = omega (arith, low e h, ltb→le d e ge) in
        (expected_score model d q, inl (λ i. (d_e i, expected_score model d q)))
  ];
}

expected_score-clear :
    (model : RetrievalModel) (d : ℕ) (q' q : Sop)
    → clear q' ≡ clear q
    → expected_score model d q' ≡ expected_score model d q
expected_score-clear model d q' q e =
    expected_score-past model d q q' (same_of_clear (best_tf d) (best_tf-clear d) q' q e)

module _ (q' q : Sop) (e : clear q' ≡ clear q) where
  to_held : (d : ℕ) → Holds d q' → Holds d q
  to_held d = subst (λ (T : Type 0). T) (same_of_clear (Holds d) (Holds-clear d) q' q e)

  from_held : (d : ℕ) → Holds d q → Holds d q'
  from_held d = subst (λ (T : Type 0). T) (sym (same_of_clear (Holds d) (Holds-clear d) q' q e))

  Lists-clear :
      (model : RetrievalModel) (found : List (ℕ × ℕ)) → Lists model q' found → Lists model q found
  Lists-clear model found l = record {
    increasing = l.increasing;
    sound = λ d s i.
        let (h, eq) = l.sound d s i in (to_held d h, eq ∙ expected_score-clear model d q' q e);
    complete = λ d h. l.complete d (from_held d h);
  }

module _ {I : Type 0} (external : ℕ → I) (height : ℕ) (model : RetrievalModel) where
  abbrev pub entry : ℕ × ℕ → Entry ℕ I
  entry p = record { score = p.1; external_id = external p.0 }

  abbrev Ranks : ℕ → Sop → List (Entry ℕ I) → Type 0
  Ranks rounds q ranking =
      (found : List (ℕ × ℕ)) × (rank_loop external height model rounds q ranking
        ≡ some (ranking ++ map entry found))
      × Lists model q found

  -- A round that finds the document `d`, before rounds that rank what is left beyond it.
  match_round :
      (rounds d : ℕ) (q q' : Sop) (b : Bool) (ranking : List (Entry ℕ I))
      → IsDisjunction height q
      → IsOr q
      → has_match height q ≡ some (q', b)
      → b ≡ true
      → get_match q' ≡ some d
      → Holds d q
      → ((e : ℕ) → Holds e q → d ≤ e)
      → clear q' ≡ clear q
      → ((q3 : Sop) (ranking' : List (Entry ℕ I))
          → IsDisjunction height q3
          → IsOr q3
          → left q3 < left q
          → Ranks rounds q3 ranking')
      → Ranks (suc rounds) q ranking
  unfolding rank_loop add
  match_round rounds d q q' b ranking r o runs e here holds low same others =
      let m = clear-IsMatched d height q q' r o here holds low same in
      let (q'', scored, same'') = get_score-Scored height model d q' m in
      let same_q = same'' ∙ same in
      let ready =
        subst (λ (T : Type 0). T)
          (sym
            (same_of_clear (IsDisjunction height) (λ p. IsDisjunction-clear p height) q'' q same_q))
          r in
      let (q3, advanced, p) = advance_past-Passed d q'' height ready in
      let or_only =
        subst (λ (T : Type 0). T) (sym (same_of_clear IsOr IsOr-clear q'' q same_q)) o in
      let held = from_held q'' q same_q d holds in
      let fewer = p.drops held in
      let ranking' = add external d (expected_score model d q') ranking in
      let (found, ranked, l) =
        others q3 ranking' p.ready (p.same_kinds or_only)
          (omega (arith, fewer, same_of_clear left left-clear q'' q same_q)) in
      (
        (d, expected_score model d q') ∷ found,
        rw (runs, e, here, scored, advanced)
            (ranked ∙ ap some (append_assoc ranking _ (map entry found))),
        Lists-clear q'' q same_q model ((d, expected_score model d q') ∷ found) (
            subst (λ n. Lists model q'' ((d, n) ∷ found))
              (expected_score-clear model d q'' q' same'')
              (cons-Lists model height d q'' q3 found p held
                (λ x h. low x (to_held q'' q same_q x h)) l)),
      )

  round-Ranks :
      (rounds : ℕ) (q : Sop) (ranking : List (Entry ℕ I))
      → IsDisjunction height q
      → IsOr q
      → ((q3 : Sop) (ranking' : List (Entry ℕ I))
          → IsDisjunction height q3
          → IsOr q3
          → left q3 < left q
          → Ranks rounds q3 ranking')
      → (q' : Sop) (b : Bool) → has_match height q ≡ some (q', b)
      → Matched q q' b
      → Ranks (suc rounds) q ranking
  unfolding rank_loop
  round-Ranks rounds q ranking r o others q' b runs (no_match e absent same) =
      ([], rw (runs, e) (ap some (sym (append-nil ranking))), none-Lists model q absent)
  round-Ranks rounds q ranking r o others q' b runs (match_at d e here holds low same) =
      match_round rounds d q q' b ranking r o runs e here holds low same others

  -- The loop over the matches of a query of OR and SCORE operators over ready cursors ends within
  -- more rounds than the leaves hold postings. It has then added each document that a leaf held
  -- exactly once, in increasing order, with its score: 1, or its highest term frequency, by the
  -- model.
  pub rank_loop-Lists :
      (rounds : ℕ) (q : Sop) (ranking : List (Entry ℕ I))
      → IsDisjunction height q
      → IsOr q
      → left q < rounds
      → (found : List (ℕ × ℕ)) × (rank_loop external height model rounds q ranking
          ≡ some (ranking ++ map entry found))
        × Lists model q found
  rank_loop-Lists zero q ranking r o enough = absurd (omega arith)
  rank_loop-Lists (suc rounds) q ranking r o enough =
      let (q', b, runs, matched) = has_match-Matched height q r in
      round-Ranks rounds q ranking r o
        (λ q3 ranking' r' o' lt. rank_loop-Lists rounds q3 ranking' r' o' (omega arith)) q' b runs
        matched
