-- ===== src/Ranker/Scores.antt =====
-- The scores of the Boolean models on a query of OR and SCORE operators, after it has reported a
-- match.
use qry_eval_plus.Prelude.{
  ==_refl, Bool, Bool-cases, In, Option, [], ap, arith, false, if◌then◌else◌, inl, inr, ltb, max,
  none, refl, some, subst, suc, sym, true, zero, ℕ, ◌&&◌, ◌==◌, ◌∙◌, ◌∷◌, ◌≡◌, ◌≤◌,
}
use qry_eval_plus.InvList.Order.{Ascending}
use qry_eval_plus.Cursor.{Cursor}
use qry_eval_plus.Cursor.Advance.{View, view, rest-Ascending}
use qry_eval_plus.Score.{
  Kind, or_, and_, sum, wsum, same_docid, Sop, leaf, branch, Sops, nil, cons, get_match, has_match,
  highest, same_docid, RetrievalModel, unranked_boolean, ranked_boolean, get_score,
}
use qry_eval_plus.Score.Disjunction.{
  AllSops, IsDisjunction, Holds, HoldsSome, clear, clear_all, Matched, no_match, match_at,
  has_match-Matched, In-ge,
}
use qry_eval_plus.Ranker.Past.{tf_of, best_tf, best_tf_all, IsOr, AllOr}
use qry_eval_plus.Ranker.Trees.{
  same_of_clear, Holds-clear, IsOr-clear, IsDisjunction-clear, best_tf-clear, best_tf-absent,
}

-- A query that has cached its smallest document.
pub record IsMatched (d height : ℕ) (q : Sop) : Type 0 where
  pub ready : IsDisjunction height q
  pub or_only : IsOr q
  pub cached : get_match q ≡ some d
  pub held : Holds d q
  pub smallest : (e : ℕ) → Holds e q → d ≤ e

abbrev pub expected_score : RetrievalModel → ℕ → Sop → ℕ
expected_score unranked_boolean d q = 1
expected_score ranked_boolean d q = best_tf d q

abbrev pub Scored : ℕ → RetrievalModel → ℕ → Sop → Type 0
Scored height model d q =
    (q' : Sop) × (get_score height model q ≡ some (q', expected_score model d q))
    × (clear q' ≡ clear q)

-- The match of an argument, with the argument's own properties kept.
pub clear-IsMatched :
    (d height : ℕ) (q q' : Sop)
    → IsDisjunction height q
    → IsOr q
    → get_match q' ≡ some d
    → Holds d q
    → ((e : ℕ) → Holds e q → d ≤ e)
    → clear q' ≡ clear q
    → IsMatched d height q'
clear-IsMatched d height q q' r o c h s e = record {
  ready =
      subst (λ (T : Type 0). T)
        (sym (same_of_clear (IsDisjunction height) (λ p. IsDisjunction-clear p height) q' q e)) r;
  or_only = subst (λ (T : Type 0). T) (sym (same_of_clear IsOr IsOr-clear q' q e)) o;
  cached = c;
  held = subst (λ (T : Type 0). T) (sym (same_of_clear (Holds d) (Holds-clear d) q' q e)) h;
  smallest =
      λ f x. s f (subst (λ (T : Type 0). T) (same_of_clear (Holds f) (Holds-clear f) q' q e) x);
}

leaf-Scored :
    (d height : ℕ) (model : RetrievalModel) (cache : Option ℕ) (c : Cursor)
    → IsMatched d (suc height) (leaf cache c)
    → Scored (suc height) model d (leaf cache c)
unfolding get_score best_tf tf_of IsDisjunction Holds
leaf-Scored d height unranked_boolean cache c m = (leaf cache c, rw m.cached refl, refl)
leaf-Scored d height ranked_boolean cache c m = elim (view c m.ready) [
  | View.over done empty ↦
      let (p, i, e) = m.held in let gone : In p [] = rw empty at i in absurd gone
  | View.at p ps more here posting split ↦
      let order : Ascending (p ∷ ps) = rw split at (rest-Ascending c m.ready) in
      let (h, i, e) = m.held in
      let le = m.smallest p.docid (p, subst (In p) (sym split) (inl refl), refl) in
      let first : (p.docid == d) ≡ true =
        ground (arith, le, e, In-ge p ps h order (subst (In h) split i)) in
      (leaf cache c, rw (m.cached, posting, split, first) refl, refl)
]

-- The loop of an OR takes the highest score of the arguments that have cached the document.
module _ (d height : ℕ) where
  abbrev looped : ℕ → Sops → Option (Sops × ℕ)
  looped best args =
      highest (λ q. has_match height q) (λ q. get_score height ranked_boolean q) d best args

  abbrev Best : ℕ → Sops → Type 0
  Best best args =
      (args' : Sops) × (looped best args ≡ some (args', max best (best_tf_all d args)))
      × (clear_all args' ≡ clear_all args)

  skip_argument :
      (best : ℕ) (q q' : Sop) (qs : Sops) (b : Bool)
      → has_match height q ≡ some (q', b)
      → (b && same_docid (get_match q') d) ≡ false
      → ¬ Holds d q
      → clear q' ≡ clear q
      → Best best qs
      → Best best (cons q qs)
  unfolding highest clear best_tf
  skip_argument best q q' qs b runs other absent same (qs', runs', same') = (
    cons q' qs',
    rw runs (
        rw other
          (rw runs' (ap (λ n. some (cons q' qs', n)) (omega (arith, best_tf-absent d q absent))))),
    ap (λ x. cons x (clear_all qs')) same ∙ ap (cons (clear q)) same',
  )

  take_argument :
      (best : ℕ) (q q' : Sop) (qs : Sops)
      → has_match height q ≡ some (q', true)
      → get_match q' ≡ some d
      → clear q' ≡ clear q
      → Scored height ranked_boolean d q'
      → ((best' : ℕ) → Best best' qs)
      → Best best (cons q qs)
  unfolding highest clear best_tf
  take_argument best q q' qs runs here same (q'', runs', same') others =
      let score = best_tf d q' in
      let (qs', runs'', same'') = others (if ltb best score then score else best) in
      (
        cons q'' qs',
        rw runs (
            rw here (
              rw (==_refl d) (
                rw runs' (
                  rw runs'' (
                    ap (λ n. some (cons q'' qs', n))
                      (ground (arith, same_of_clear (best_tf d) (best_tf-clear d) q' q same))))))),
        ap (λ x. cons x (clear_all qs')) (same' ∙ same) ∙ ap (cons (clear q)) same'',
      )

  highest-Best :
      ((q : Sop) → IsMatched d height q → Scored height ranked_boolean d q)
      → (args : Sops) → AllSops (λ q. IsDisjunction height q) args
      → AllOr args
      → ((e : ℕ) → HoldsSome e args → d ≤ e)
      → (best : ℕ) → Best best args
  unfolding highest best_tf clear Holds IsOr
  highest-Best score nil r o s best = (nil, ap (λ n. some (nil, n)) (omega arith), refl)
  highest-Best score (cons q qs) (r, rs) (o, os) s best =
      argument (has_match-Matched height q r) (highest-Best score qs rs os (λ e h. s e (inr h)))
    where
      argument :
          (q' : Sop) × (b : Bool) × (has_match height q ≡ some (q', b)) × Matched q q' b
          → ((best' : ℕ) → Best best' qs)
          → Best best (cons q qs)
      argument (q', b, runs, no_match e absent same) others =
          skip_argument best q q' qs b runs (rw e refl) (absent d) same (others best)
      argument (q', b, runs, match_at f e here holds low same) others = elim (Bool-cases (f == d)) [
        | inl eq ↦
            let f_d : f ≡ d = ground arith in
            take_argument best q q' qs (runs ∙ ap (λ c. some (q', c)) e) (here ∙ ap some f_d) same
              (score q' (
                clear-IsMatched d height q q' r o (here ∙ ap some f_d)
                  (subst (λ n. Holds n q) f_d holds) (λ x h. s x (inl h)) same))
              others
        | inr ne ↦
            skip_argument best q q' qs b runs (rw (e, here, ne) refl)
              (λ h. ground (arith, low d h, s f (inl holds))) same (others best)
      ]

branch-Scored :
    (d height : ℕ) (model : RetrievalModel) (k : Kind) (cache : Option ℕ) (args : Sops)
    → ((q : Sop) → IsMatched d height q → Scored height ranked_boolean d q)
    → IsMatched d (suc height) (branch k cache args)
    → Scored (suc height) model d (branch k cache args)
unfolding get_score best_tf clear IsOr IsDisjunction Holds
branch-Scored d height unranked_boolean or_ cache args score m =
    (branch or_ cache args, rw m.cached refl, refl)
branch-Scored d height ranked_boolean or_ cache args score m =
    let (args', runs, same) = highest-Best d height score args m.ready.1 m.or_only.1 m.smallest 0 in
    (
      branch or_ cache args',
      rw (m.cached, runs) (ap (λ n. some (branch or_ (some d) args', n)) (omega arith)),
      ap (branch or_ none) same,
    )
branch-Scored d height model and_ cache args score m = absurd m.or_only.0
branch-Scored d height model sum cache args score m = absurd m.or_only.0
branch-Scored d height model wsum cache args score m = absurd m.or_only.0

-- A query that has reported a match is scored without an exception: by 1, or by the highest term
-- frequency that it holds for the document.
pub get_score-Scored :
    (height : ℕ) (model : RetrievalModel) (d : ℕ) (q : Sop)
    → IsMatched d height q
    → Scored height model d q
unfolding IsDisjunction
get_score-Scored zero model d q m = absurd m.ready
get_score-Scored (suc height) model d (leaf cache c) m = leaf-Scored d height model cache c m
get_score-Scored (suc height) model d (branch k cache args) m =
    branch-Scored d height model k cache args (λ q n. get_score-Scored height ranked_boolean d q n)
      m
