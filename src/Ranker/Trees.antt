-- ===== src/Ranker/Trees.antt =====
-- What the cached documents of a query do not change, and the term frequencies that it holds.
use qry_eval_plus.Prelude.{
  In, List, [], ap, arith, inl, inr, max, refl, suc, sym, zero, ℕ, ◌+◌, ◌∙◌, ◌∷◌, ◌≡◌, ◌≢◌, ◌⊎◌,
}
use qry_eval_plus.InvList.{DocPosting}
use qry_eval_plus.Cursor.Advance.{rest}
use qry_eval_plus.Score.{Sop, leaf, branch, Sops, nil, cons}
use qry_eval_plus.Score.Disjunction.{
  AllSops, NotAnd, IsDisjunction, Holds, HoldsSome, clear, clear_all,
}
use qry_eval_plus.Ranker.Past.{tf_of, best_tf, best_tf_all, left, left_all, IsOr, AllOr, IsOrKind}

module _ {ℓ} {A : Type ℓ} (f : Sop → A) (f-clear : (q : Sop) → f (clear q) ≡ f q) where
  -- What does not read the caches is the same on trees that differ in them only.
  pub same_of_clear : (q' q : Sop) → clear q' ≡ clear q → f q' ≡ f q
  same_of_clear q' q e = sym (f-clear q') ∙ ap f e ∙ f-clear q

mutual
  unfolding Holds clear

  pub Holds-clear : (e : ℕ) (q : Sop) → Holds e (clear q) ≡ Holds e q
  Holds-clear e (leaf cache c) = refl
  Holds-clear e (branch k cache args) = HoldsSome-clear e args

  HoldsSome-clear : (e : ℕ) (qs : Sops) → HoldsSome e (clear_all qs) ≡ HoldsSome e qs
  HoldsSome-clear e nil = refl
  HoldsSome-clear e (cons q qs) = λ i. Holds-clear e q i ⊎ HoldsSome-clear e qs i

mutual
  unfolding left clear

  pub left-clear : (q : Sop) → left (clear q) ≡ left q
  left-clear (leaf cache c) = refl
  left-clear (branch k cache args) = left_all-clear args

  left_all-clear : (qs : Sops) → left_all (clear_all qs) ≡ left_all qs
  left_all-clear nil = refl
  left_all-clear (cons q qs) = λ i. left-clear q i + left_all-clear qs i

mutual
  unfolding IsOr clear

  pub IsOr-clear : (q : Sop) → IsOr (clear q) ≡ IsOr q
  IsOr-clear (leaf cache c) = refl
  IsOr-clear (branch k cache args) = λ i. IsOrKind k × AllOr-clear args i

  AllOr-clear : (qs : Sops) → AllOr (clear_all qs) ≡ AllOr qs
  AllOr-clear nil = refl
  AllOr-clear (cons q qs) = λ i. IsOr-clear q i × AllOr-clear qs i

mutual
  unfolding best_tf clear

  pub best_tf-clear : (d : ℕ) (q : Sop) → best_tf d (clear q) ≡ best_tf d q
  best_tf-clear d (leaf cache c) = refl
  best_tf-clear d (branch k cache args) = best_tf_all-clear d args

  pub best_tf_all-clear : (d : ℕ) (qs : Sops) → best_tf_all d (clear_all qs) ≡ best_tf_all d qs
  best_tf_all-clear d nil = refl
  best_tf_all-clear d (cons q qs) = λ i. max (best_tf-clear d q i) (best_tf_all-clear d qs i)

mutual
  unfolding IsDisjunction clear

  pub IsDisjunction-clear :
      (q : Sop) (height : ℕ) → IsDisjunction height (clear q) ≡ IsDisjunction height q
  IsDisjunction-clear (leaf cache c) zero = refl
  IsDisjunction-clear (leaf cache c) (suc height) = refl
  IsDisjunction-clear (branch k cache args) zero = refl
  IsDisjunction-clear (branch k cache args) (suc height) =
      λ i. NotAnd k × AllDisjunction-clear args height i

  AllDisjunction-clear :
      (qs : Sops) (height : ℕ)
      → AllSops (λ q. IsDisjunction height q) (clear_all qs)
        ≡ AllSops (λ q. IsDisjunction height q) qs
  AllDisjunction-clear nil height = refl
  AllDisjunction-clear (cons q qs) height =
      λ i. IsDisjunction-clear q height i × AllDisjunction-clear qs height i

tf_of-absent :
    (d : ℕ) (ps : List DocPosting) → ((p : DocPosting) → In p ps → p.docid ≢ d) → tf_of d ps ≡ 0
unfolding tf_of
tf_of-absent d [] h = refl
tf_of-absent d (p ∷ ps) h = ground (arith, h p (inl refl), tf_of-absent d ps (λ q i. h q (inr i)))

mutual
  unfolding best_tf Holds

  pub best_tf-absent : (d : ℕ) (q : Sop) → ¬ Holds d q → best_tf d q ≡ 0
  best_tf-absent d (leaf cache c) h = tf_of-absent d (rest c) (λ p i e. h (p, i, e))
  best_tf-absent d (branch k cache args) h = best_tf_all-absent d args h

  best_tf_all-absent : (d : ℕ) (qs : Sops) → ¬ HoldsSome d qs → best_tf_all d qs ≡ 0
  best_tf_all-absent d nil h = refl
  best_tf_all-absent d (cons q qs) h =
      omega (arith, best_tf-absent d q (λ x. h (inl x)), best_tf_all-absent d qs (λ x. h (inr x)))
