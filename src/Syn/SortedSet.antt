-- ===== src/Syn/SortedSet.antt =====
-- `sorted(set(…))`, as SYN builds it.
use qry_eval_plus.Prelude.{
  All, All-map, Bool-cases, In, List, [], arith, inl, inr, ltb, ltb→lt, ℕ, ◌<◌, ◌==◌, ◌↔◌, ◌∙◌, ◌∷◌,
  ◌≡◌, ◌⊎◌,
}
use qry_eval_plus.InvList.Order.{Increasing}
use qry_eval_plus.Syn.{insert_new, sorted_set}

insert_new-Increasing :
    (x : ℕ) (ys : List ℕ)
    → Increasing ys
    → Increasing (insert_new x ys)
      × ((z : ℕ) → In z (insert_new x ys) ↔ ((x ≡ z) ⊎ In z ys))
      × ((b : ℕ) → b < x → All (λ y. b < y) ys → All (λ y. b < y) (insert_new x ys))
insert_new-Increasing x [] h = ((tt, tt), (λ z. ((λ i. i), (λ i. i))), λ b lt a. (lt, tt))
insert_new-Increasing x (y ∷ ys) h = elim (Bool-cases (ltb x y)) [
  | inl lt ↦
      let low = ltb→lt x y lt in
      rw lt (
        ((low, All-map (λ z. y < z) (λ z. x < z) (λ z l. omega arith) ys h.0), h),
        (λ z. ((λ i. i), (λ i. i))),
        λ b l a. (l, a),
      )
  | inr ge ↦ elim (Bool-cases (x == y)) [
    | inl same ↦
        let e : y ≡ x = ground arith in
        rw (ge, same)
          (h, (λ z. ((λ i. inr i), (λ i. elim i [ inl k ↦ inl (e ∙ k) | inr j ↦ j ]))), λ b l a. a)
    | inr apart ↦
        let low : y < x = ground arith in
        let (sorted, members, above) = insert_new-Increasing x ys h.1 in
        rw (ge, apart)
          (
            (above y low h.0, sorted),
            (λ z. (
              (λ i. elim i [
                | inl k ↦ inr (inl k)
                | inr j ↦ elim ((members z).0 j) [ inl k ↦ inl k | inr k ↦ inr (inr k) ]
              ]),
              (λ i. elim i [
                | inl k ↦ inr ((members z).1 (inl k))
                | inr (inl k) ↦ inl k
                | inr (inr k) ↦ inr ((members z).1 (inr k))
              ]),
            )),
            λ b l a. (a.0, above b l a.1),
          )
  ]
]

-- The same members, in increasing order and so each once.
pub sorted_set-Increasing :
    (xs : List ℕ) → Increasing (sorted_set xs) × ((z : ℕ) → In z (sorted_set xs) ↔ In z xs)
unfolding sorted_set
sorted_set-Increasing [] = (tt, λ z. ((λ i. i), (λ i. i)))
sorted_set-Increasing (x ∷ xs) =
    let (sorted, same) = sorted_set-Increasing xs in
    let (sorted', members, above) = insert_new-Increasing x (sorted_set xs) sorted in
    (
      sorted',
      λ z. (
        (λ i. elim ((members z).0 i) [ inl k ↦ inl k | inr k ↦ inr ((same z).0 k) ]),
        (λ i. elim i [
          | inl k ↦ (members z).1 (inl k)
          | inr k ↦ (members z).1 (inr ((same z).1 k))
        ]),
      ),
    )
