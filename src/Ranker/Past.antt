-- ===== src/Ranker/Past.antt =====
-- Moving a query past a document leaves the documents beyond it.
use qry_eval_plus.Prelude.{
  All-In, Bool-cases, In, List, Option, [], ap, arith, if◌then◌else◌, inl, inr, leb, length, max,
  none, refl, some, subst, suc, sym, zero, ℕ, ◌+◌, ◌<◌, ◌==◌, ◌∙◌, ◌∷◌, ◌≡◌, ◌≤◌,
}
use qry_eval_plus.InvList.{DocPosting}
use qry_eval_plus.InvList.Order.{Ascending}
use qry_eval_plus.Cursor.{Cursor}
use qry_eval_plus.Cursor.Advance.{
  rest, IsReady, drop_while, advance_past-drop_while, rest-Ascending,
}
use qry_eval_plus.Score.{Kind, Sop, leaf, branch, Sops, nil, cons, advance_past, all_advance_past}
use qry_eval_plus.Score.Disjunction.{AllSops, IsDisjunction, Holds, HoldsSome}

-- The postings that the leaves still hold.
unfoldable mutual
  pub left : Sop → ℕ
  left (leaf cache c) = length (rest c)
  left (branch k cache args) = left_all args

  pub left_all : Sops → ℕ
  left_all nil = 0
  left_all (cons q qs) = left q + left_all qs

-- Only OR stands over the leaves: the other operators do not support the Boolean models.
abbrev pub IsOrKind : Kind → Type 0
IsOrKind Kind.or_ = Unit
IsOrKind _ = ⊥

unfoldable mutual
  pub IsOr : Sop → Type 0
  IsOr (leaf cache c) = Unit
  IsOr (branch k cache args) = IsOrKind k × AllOr args

  pub AllOr : Sops → Type 0
  AllOr nil = Unit
  AllOr (cons q qs) = IsOr q × AllOr qs

unfoldable pub tf_of : ℕ → List DocPosting → ℕ
tf_of d [] = 0
tf_of d (p ∷ ps) = if p.docid == d then p.tf else tf_of d ps

-- The highest term frequency that a leaf holds for a document, 0 if none holds it.
unfoldable mutual
  unfolding tf_of

  pub best_tf : ℕ → Sop → ℕ
  best_tf d (leaf cache c) = tf_of d (rest c)
  best_tf d (branch k cache args) = best_tf_all d args

  pub best_tf_all : ℕ → Sops → ℕ
  best_tf_all d nil = 0
  best_tf_all d (cons q qs) = max (best_tf d q) (best_tf_all d qs)

module _ (d : ℕ) where
  abbrev dropped : List DocPosting → List DocPosting
  dropped = drop_while (λ p. leb p.docid d)

  In-dropped : (p : DocPosting) (ps : List DocPosting) → In p (dropped ps) → In p ps
  In-dropped p [] i = i
  In-dropped p (x ∷ ps) i = elim (Bool-cases (leb x.docid d)) [
    | inl past ↦ inr (In-dropped p ps (rw past at i))
    | inr stay ↦ rw stay at i
  ]

  dropped-beyond :
      (p : DocPosting) (ps : List DocPosting) → Ascending ps → In p (dropped ps) → d < p.docid
  dropped-beyond p [] a i = absurd i
  dropped-beyond p (x ∷ ps) a i = elim (Bool-cases (leb x.docid d)) [
    | inl past ↦ dropped-beyond p ps a.1 (rw past at i)
    | inr stay ↦ elim (rw stay at i) [
      | inl e ↦ ground (arith, ap (λ r. r.docid) e)
      | inr j ↦ ground (arith, All-In (λ r. x.docid < r.docid) ps p a.0 j)
    ]
  ]

  In-dropped-beyond :
      (p : DocPosting) (ps : List DocPosting) → In p ps → d < p.docid → In p (dropped ps)
  In-dropped-beyond p [] i h = i
  In-dropped-beyond p (x ∷ ps) i h = elim (Bool-cases (leb x.docid d)) [
    | inr stay ↦ rw stay i
    | inl past ↦ rw past (elim i [
      | inl e ↦ absurd (ground (arith, ap (λ r. r.docid) e))
      | inr j ↦ In-dropped-beyond p ps j h
    ])
  ]

  tf_of-dropped : (e : ℕ) (ps : List DocPosting) → d < e → tf_of e (dropped ps) ≡ tf_of e ps
  unfolding tf_of
  tf_of-dropped e [] h = refl
  tf_of-dropped e (x ∷ ps) h = ground (arith, tf_of-dropped e ps)

  length-dropped : (ps : List DocPosting) → length (dropped ps) ≤ length ps
  length-dropped [] = omega arith
  length-dropped (x ∷ ps) = ground (arith, length-dropped ps)

  length-dropped_lt :
      (p : DocPosting) (ps : List DocPosting)
      → Ascending ps
      → In p ps
      → p.docid ≡ d
      → length (dropped ps) < length ps
  length-dropped_lt p [] a i e = absurd i
  length-dropped_lt p (x ∷ ps) a (inl f) e = ground (arith, ap (λ r. r.docid) f, length-dropped ps)
  length-dropped_lt p (x ∷ ps) a (inr i) e =
      ground (arith, All-In (λ r. x.docid < r.docid) ps p a.0 i, length-dropped ps)

pub record Passed (d height : ℕ) (q q' : Sop) : Type 0 where
  pub ready : IsDisjunction height q'
  pub beyond : (e : ℕ) → Holds e q' → Holds e q × (d < e)
  pub stays : (e : ℕ) → Holds e q → d < e → Holds e q'
  pub same_tf : (e : ℕ) → d < e → best_tf e q' ≡ best_tf e q
  pub fewer : left q' ≤ left q
  pub drops : Holds d q → left q' < left q
  pub same_kinds : IsOr q → IsOr q'

record AllPassed (d height : ℕ) (qs qs' : Sops) : Type 0 where
  ready : AllSops (λ q. IsDisjunction height q) qs'
  beyond : (e : ℕ) → HoldsSome e qs' → HoldsSome e qs × (d < e)
  stays : (e : ℕ) → HoldsSome e qs → d < e → HoldsSome e qs'
  same_tf : (e : ℕ) → d < e → best_tf_all e qs' ≡ best_tf_all e qs
  fewer : left_all qs' ≤ left_all qs
  drops : HoldsSome d qs → left_all qs' < left_all qs
  same_kinds : AllOr qs → AllOr qs'

leaf-Passed :
    (d height : ℕ) (cache : Option ℕ) (c c' : Cursor)
    → IsReady c
    → IsReady c'
    → rest c' ≡ drop_while (λ p. leb p.docid d) (rest c)
    → Passed d (suc height) (leaf cache c) (leaf none c')
unfolding Holds left IsOr IsDisjunction best_tf
leaf-Passed d height cache c c' r r' e = record {
  ready = r';
  beyond = λ f (p, i, same).
      let i' : In p (dropped d (rest c)) = rw e at i in
      (
        (p, In-dropped d p (rest c) i', same),
        omega (arith, same, dropped-beyond d p (rest c) (rest-Ascending c r) i'),
      );
  stays = λ f (p, i, same) lt.
      (p, subst (In p) (sym e) (In-dropped-beyond d p (rest c) i (omega (arith, same))), same);
  same_tf = λ f lt. ap (tf_of f) e ∙ tf_of-dropped d f (rest c) lt;
  fewer = omega (arith, ap length e, length-dropped d (rest c));
  drops = λ (p, i, same).
      omega (arith, ap length e, length-dropped_lt d p (rest c) (rest-Ascending c r) i same);
  same_kinds = λ h. tt;
}

cons-AllPassed :
    {d height : ℕ} {q q' : Sop} {qs qs' : Sops}
    → Passed d height q q'
    → AllPassed d height qs qs'
    → AllPassed d height (cons q qs) (cons q' qs')
unfolding Holds left IsOr best_tf
cons-AllPassed a b = record {
  ready = (a.ready, b.ready);
  beyond = λ e h. elim h [
    | inl x ↦ (inl (a.beyond e x).0, (a.beyond e x).1)
    | inr x ↦ (inr (b.beyond e x).0, (b.beyond e x).1)
  ];
  stays = λ e h lt. elim h [ inl x ↦ inl (a.stays e x lt) | inr x ↦ inr (b.stays e x lt) ];
  same_tf = λ e lt i. max (a.same_tf e lt i) (b.same_tf e lt i);
  fewer = omega (arith, a.fewer, b.fewer);
  drops = λ h. elim h [
    | inl x ↦ omega (arith, a.drops x, b.fewer)
    | inr x ↦ omega (arith, a.fewer, b.drops x)
  ];
  same_kinds = λ h. (a.same_kinds h.0, b.same_kinds h.1);
}

mutual
  unfolding advance_past IsDisjunction Holds left IsOr best_tf

  pub advance_past-Passed :
      (d : ℕ) (q : Sop) (height : ℕ)
      → IsDisjunction height q
      → (q' : Sop) × (advance_past d q ≡ some q') × Passed d height q q'
  advance_past-Passed d (leaf cache c) zero h = absurd h
  advance_past-Passed d (leaf cache c) (suc height) h =
      let (c', runs, a) = advance_past-drop_while d c h in
      (leaf none c', rw runs refl, leaf-Passed d height cache c c' h a.ready a.skipped)
  advance_past-Passed d (branch k cache args) zero h = absurd h
  advance_past-Passed d (branch k cache args) (suc height) (other, h) =
      let (args', runs, a) = all_advance_past-AllPassed d args height h in
      (
        branch k none args',
        rw runs refl,
        record {
          ready = (other, a.ready);
          beyond = a.beyond;
          stays = a.stays;
          same_tf = a.same_tf;
          fewer = a.fewer;
          drops = a.drops;
          same_kinds = λ (o, hs). (o, a.same_kinds hs);
        },
      )

  all_advance_past-AllPassed :
      (d : ℕ) (qs : Sops) (height : ℕ)
      → AllSops (λ q. IsDisjunction height q) qs
      → (qs' : Sops) × (all_advance_past d qs ≡ some qs') × AllPassed d height qs qs'
  all_advance_past-AllPassed d nil height h = (
    nil,
    refl,
    record {
      ready = tt;
      beyond = λ e x. absurd x;
      stays = λ e x lt. x;
      same_tf = λ e lt. refl;
      fewer = omega arith;
      drops = λ x. absurd x;
      same_kinds = λ x. x;
    },
  )
  all_advance_past-AllPassed d (cons q qs) height (h, hs) =
      let (q', runs, a) = advance_past-Passed d q height h in
      let (qs', runs', b) = all_advance_past-AllPassed d qs height hs in
      (cons q' qs', rw (runs, runs') refl, cons-AllPassed a b)
