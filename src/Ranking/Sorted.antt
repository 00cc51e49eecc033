-- ===== src/Ranking/Sorted.antt =====
-- What `get_ranking` returns: the best entries, in order.
use qry_eval_plus.Prelude.{
  All, All-map, Bool, Bool-cases, List, [], ap, append-nil, arith, drop, false, inl, inr, length,
  ltb, map, min, refl, suc, sym, take, true, zero, ℕ, ◌++◌, ◌+◌, ◌↔◌, ◌∙◌, ◌∷◌, ◌≡◌, ◌⊎◌,
}
use mathlib.Core.List.{Perm, perm_middle}
use mathlib.Core.List.Perm
use qry_eval_plus.Ranking.{Entry, key_less, sort_insert, sorted_into, get_ranking}

-- A strict weak order, as Python's `<` on strings and on numbers without NaN.
pub record IsOrder {A : Type 0} (less : A → A → Bool) : Type 0 where
  pub asymmetric : (a b : A) → less a b ≡ true → less b a ≡ false
  pub cotransitive : (a b c : A) → less a c ≡ true → (less a b ≡ true) ⊎ (less b c ≡ true)

pub ltb-IsOrder : IsOrder ltb
ltb-IsOrder = record { asymmetric = λ a b h. ground arith; cotransitive = λ a b c h. ground arith }

module _ {A : Type 0} where
  take-drop : (n : ℕ) (xs : List A) → take n xs ++ drop n xs ≡ xs
  take-drop zero xs = refl
  take-drop (suc n) [] = refl
  take-drop (suc n) (x ∷ xs) = ap (λ ys. x ∷ ys) (take-drop n xs)

  map-take : {B : Type 0} (f : A → B) (n : ℕ) (xs : List A) → map f (take n xs) ≡ take n (map f xs)
  map-take f zero xs = refl
  map-take f (suc n) [] = refl
  map-take f (suc n) (x ∷ xs) = ap (λ ys. f x ∷ ys) (map-take f n xs)

  length-taken : (n : ℕ) (xs : List A) → length (take n xs) ≡ min n (length xs)
  length-taken zero xs = omega arith
  length-taken (suc n) [] = omega arith
  length-taken (suc n) (x ∷ xs) = omega (arith, length-taken n xs)

module _ {S I : Type 0} (less : S → S → Bool) (earlier : I → I → Bool) where
  -- No lower score, and no later id where no score is higher.
  abbrev pub OutRanks : Entry S I → Entry S I → Type 0
  OutRanks r q =
      (less r.score q.score ≡ false)
      × (less q.score r.score ≡ false → earlier q.external_id r.external_id ≡ false)

  key_less-OutRanks : (r q : Entry S I) → (key_less less earlier q r ≡ false) ↔ OutRanks r q
  unfolding key_less
  key_less-OutRanks r q = elim (Bool-cases (less r.score q.score)) [
    | inl a ↦ (λ h. cc (rw a at h), λ h. cc (h.0))
    | inr a ↦ elim (Bool-cases (less q.score r.score)) [
      | inl b ↦ (λ h. (a, λ e. cc), λ h. rw (a, b) refl)
      | inr b ↦ (λ h. (a, λ e. rw (a, b) at h), λ h. rw (a, b) (h.1 b))
    ]
  ]

  -- No entry is better than one before it.
  abbrev pub IsRanked : List (Entry S I) → Type 0
  IsRanked [] = Unit
  IsRanked (r ∷ rs) = All (OutRanks r) rs × IsRanked rs

  sort_insert-All :
      (P : Entry S I → Type 0) (r : Entry S I) (qs : List (Entry S I))
      → P r
      → All P qs
      → All P (sort_insert less earlier r qs)
  unfolding sort_insert
  sort_insert-All P r [] p h = (p, tt)
  sort_insert-All P r (q ∷ qs) p h = elim (Bool-cases (key_less less earlier r q)) [
    | inl better ↦ rw better (p, h)
    | inr worse ↦ rw worse (h.0, sort_insert-All P r qs p h.1)
  ]

  sort_insert-perm :
      (r : Entry S I) (qs : List (Entry S I)) → Perm (sort_insert less earlier r qs) (r ∷ qs)
  unfolding sort_insert
  sort_insert-perm r [] = Perm.rfl
  sort_insert-perm r (q ∷ qs) = elim (Bool-cases (key_less less earlier r q)) [
    | inl better ↦ rw better Perm.rfl
    | inr worse ↦ rw worse (Perm.trans (Perm.cons q (sort_insert-perm r qs)) (Perm.swap r q qs))
  ]

  length-sort_insert :
      (r : Entry S I) (qs : List (Entry S I))
      → length (sort_insert less earlier r qs) ≡ suc (length qs)
  unfolding sort_insert
  length-sort_insert r [] = refl
  length-sort_insert r (q ∷ qs) = ground (arith, length-sort_insert r qs)

  length-sorted_into :
      (done rs : List (Entry S I))
      → length (sorted_into less earlier done rs) ≡ length rs + length done
  unfolding sorted_into
  length-sorted_into done [] = omega arith
  length-sorted_into done (r ∷ rs) =
      omega
        (arith, length-sorted_into (sort_insert less earlier r done) rs, length-sort_insert r done)

  sorted_into-perm :
      (done rs : List (Entry S I)) → Perm (sorted_into less earlier done rs) (rs ++ done)
  unfolding sorted_into
  sorted_into-perm done [] = Perm.rfl
  sorted_into-perm done (r ∷ rs) =
      Perm.trans (sorted_into-perm (sort_insert less earlier r done) rs)
        (Perm.trans (Perm.append_left rs (sort_insert-perm r done)) (perm_middle rs done))

  module _ (scores : IsOrder less) (ids : IsOrder earlier) where
    key_less-IsOrder : IsOrder (key_less less earlier)
    unfolding key_less
    key_less-IsOrder = record {
      asymmetric = λ a b h. ground (
        arith,
        scores.asymmetric a.score b.score,
        scores.asymmetric b.score a.score,
        ids.asymmetric a.external_id b.external_id,
      );
      cotransitive = λ a b c h. ground (
        arith,
        scores.cotransitive a.score b.score c.score,
        scores.cotransitive a.score c.score b.score,
        scores.cotransitive b.score a.score c.score,
        scores.cotransitive b.score c.score a.score,
        scores.cotransitive c.score a.score b.score,
        scores.cotransitive c.score b.score a.score,
        scores.asymmetric a.score b.score,
        scores.asymmetric b.score c.score,
        scores.asymmetric a.score c.score,
        ids.cotransitive a.external_id b.external_id c.external_id,
      );
    }

    sort_insert-IsRanked :
        (r : Entry S I) (qs : List (Entry S I))
        → IsRanked qs
        → IsRanked (sort_insert less earlier r qs)
    unfolding sort_insert
    sort_insert-IsRanked r [] h = (tt, tt)
    sort_insert-IsRanked r (q ∷ qs) h = elim (Bool-cases (key_less less earlier r q)) [
      | inl better ↦ rw better (
        (
          (key_less-OutRanks r q).0 (order.asymmetric r q better),
          All-map (OutRanks q) (OutRanks r) (λ y w. beaten y w better) qs h.0,
        ),
        h,
      )
      | inr worse ↦ rw worse (
        sort_insert-All (OutRanks q) r qs ((key_less-OutRanks q r).0 worse) h.0,
        sort_insert-IsRanked r qs h.1,
      )
    ]
      where
        order : IsOrder (key_less less earlier)
        order = key_less-IsOrder

        beaten : (y : Entry S I) → OutRanks q y → key_less less earlier r q ≡ true → OutRanks r y
        beaten y w better = elim (Bool-cases (key_less less earlier y r)) [
          | inr fine ↦ (key_less-OutRanks r y).0 fine
          | inl bad ↦ elim (order.cotransitive y q r bad) [
            | inl l ↦ let outranked = (key_less-OutRanks q y).1 w in cc
            | inr l ↦ cc (order.asymmetric r q better)
          ]
        ]

    sorted_into-IsRanked :
        (done rs : List (Entry S I)) → IsRanked done → IsRanked (sorted_into less earlier done rs)
    unfolding sorted_into
    sorted_into-IsRanked done [] h = h
    sorted_into-IsRanked done (r ∷ rs) h =
        sorted_into-IsRanked (sort_insert less earlier r done) rs (sort_insert-IsRanked r done h)

    -- Scores and ids being compared by strict weak orders, the ranking that is returned is a part of
    -- the entries that were added, in descending order of scores and then by id, and at most as long
    -- as the cut allows. The rest was cut, and no cut entry is better than a kept one; none is cut
    -- unless the returned part has the full length.
    pub get_ranking-Best :
        (max_size : ℕ) (ranking : List (Entry S I))
        → (kept : List (Entry S I)) × (cut : List (Entry S I)) × (get_ranking less earlier max_size
              ranking
            ≡ map (λ r. (r.score, r.external_id)) kept)
          × Perm (kept ++ cut) ranking
          × IsRanked (kept ++ cut)
          × (length kept ≡ min max_size (length ranking))
    unfolding get_ranking
    get_ranking-Best max_size ranking =
        let all = sorted_into less earlier [] ranking in
        (
          take max_size all,
          drop max_size all,
          sym (map-take (λ (r : Entry S I). (r.score, r.external_id)) max_size all),
          rw (take-drop max_size all) (rw append-nil at (sorted_into-perm [] ranking)),
          rw (take-drop max_size all) (sorted_into-IsRanked [] ranking tt),
          length-taken max_size all
              ∙ ap (min max_size) (length-sorted_into [] ranking ∙ omega arith),
        )
