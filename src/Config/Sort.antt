-- ===== src/Config/Sort.antt =====
-- The sort of tasks by their numbers.
use qry_eval_plus.Prelude.{
  All, All-map, Bool-cases, In, List, [], arith, inl, inr, ltb, ltb→le, ltb→lt, order-cases, ◌<◌,
  ◌↔◌, ◌∷◌, ◌≡◌, ◌≢◌, ◌⊎◌,
}
use qry_eval_plus.Config.{Task, insert_task, sort_tasks}

module _ {T : Type 0} where
  -- No number twice.
  abbrev pub Differ : List (Task T) → Type 0
  Differ [] = Unit
  Differ (t ∷ ts) = All (λ u. t.number ≢ u.number) ts × Differ ts

  -- By number.
  abbrev pub Ascending : List (Task T) → Type 0
  Ascending [] = Unit
  Ascending (t ∷ ts) = All (λ u. t.number < u.number) ts × Ascending ts

  insert_task-All :
      (P : Task T → Type 0) (t : Task T) (us : List (Task T))
      → P t
      → All P us
      → All P (insert_task t us)
  unfolding insert_task
  insert_task-All P t [] p h = (p, tt)
  insert_task-All P t (u ∷ us) p h = elim (Bool-cases (ltb t.number u.number)) [
    | inl lt ↦ rw lt (p, h)
    | inr ge ↦ rw ge (h.0, insert_task-All P t us p h.1)
  ]

  insert_task-Ascending :
      (t : Task T) (us : List (Task T))
      → All (λ u. t.number ≢ u.number) us
      → Ascending us
      → Ascending (insert_task t us)
  unfolding insert_task
  insert_task-Ascending t [] ne h = (tt, tt)
  insert_task-Ascending t (u ∷ us) ne h = elim (Bool-cases (ltb t.number u.number)) [
    | inl lt ↦
        let l = ltb→lt t.number u.number lt in
        rw lt (
          (
            l,
            All-map (λ w. u.number < w.number) (λ w. t.number < w.number) (λ w k. omega arith) us
                h.0,
          ),
          h,
        )
    | inr ge ↦
        let l = ltb→le t.number u.number ge in
        let apart = ne.0 in
        let below : u.number < t.number = elim (order-cases t.number u.number) [
          | inl lt ↦ omega arith
          | inr (inl same) ↦ absurd (apart same)
          | inr (inr gt) ↦ gt
        ] in
        rw ge (
          insert_task-All (λ w. u.number < w.number) t us below h.0,
          insert_task-Ascending t us ne.1 h.1,
        )
  ]

  insert_task-In :
      (t x : Task T) (us : List (Task T)) → In x (insert_task t us) ↔ ((t ≡ x) ⊎ In x us)
  unfolding insert_task
  insert_task-In t x [] = ((λ i. i), (λ i. i))
  insert_task-In t x (u ∷ us) = elim (Bool-cases (ltb t.number u.number)) [
    | inl lt ↦ rw lt ((λ i. i), (λ i. i))
    | inr ge ↦
        let (to, from) = insert_task-In t x us in
        rw ge (
          (λ i. elim i [
            | inl e ↦ inr (inl e)
            | inr j ↦ elim (to j) [ inl e ↦ inl e | inr k ↦ inr (inr k) ]
          ]),
          (λ i. elim i [
            | inl e ↦ inr (from (inl e))
            | inr (inl e) ↦ inl e
            | inr (inr k) ↦ inr (from (inr k))
          ]),
        )
  ]

  sort_tasks-All : (P : Task T → Type 0) (ts : List (Task T)) → All P ts → All P (sort_tasks ts)
  unfolding sort_tasks
  sort_tasks-All P [] h = tt
  sort_tasks-All P (t ∷ ts) h = insert_task-All P t (sort_tasks ts) h.0 (sort_tasks-All P ts h.1)

  pub sort_tasks-Ascending :
      (ts : List (Task T))
      → Differ ts
      → Ascending (sort_tasks ts) × ((x : Task T) → In x (sort_tasks ts) ↔ In x ts)
  unfolding sort_tasks
  sort_tasks-Ascending [] h = (tt, λ x. ((λ i. i), (λ i. i)))
  sort_tasks-Ascending (t ∷ ts) h =
      let (order, same) = sort_tasks-Ascending ts h.1 in
      (
        insert_task-Ascending t (sort_tasks ts) (sort_tasks-All (λ u. t.number ≢ u.number) ts h.0)
            order,
        λ x.
            let (to, from) = insert_task-In t x (sort_tasks ts) in
            (
              (λ i. elim (to i) [ inl e ↦ inl e | inr k ↦ inr ((same x).0 k) ]),
              (λ i. elim i [ inl e ↦ from (inl e) | inr k ↦ from (inr ((same x).1 k)) ]),
            ),
      )
