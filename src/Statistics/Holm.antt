-- ===== src/Statistics/Holm.antt =====
-- The adjusted p-values.
use qry_eval_plus.Prelude.{
  All, All-map, Bool-cases, List, [], append-nil, arith, inl, inr, length, ltb, ltb→le, ltb→lt, max,
  min, refl, suc, ℕ, ◌*◌, ◌++◌, ◌∷◌, ◌≡◌, ◌≤◌, ◌⊎◌,
}
use Prim.Native.String.{String}
use mathlib.Core.List.{Perm, perm_middle}
use mathlib.Core.List.Perm
use qry_eval_plus.Statistics.{insert_item, sort_items, holm_loop, holm_adjust}

-- In ascending order of values.
abbrev pub IsSorted : List (String × ℕ) → Type 0
IsSorted [] = Unit
IsSorted (p ∷ ps) = All (λ q. p.1 ≤ q.1) ps × IsSorted ps

insert_item-All :
    (P : String × ℕ → Type 0) (p : String × ℕ) (qs : List (String × ℕ))
    → P p
    → All P qs
    → All P (insert_item p qs)
unfolding insert_item
insert_item-All P p [] h k = (h, tt)
insert_item-All P p (q ∷ qs) h k = elim (Bool-cases (ltb p.1 q.1)) [
  | inl lt ↦ rw lt (h, k)
  | inr ge ↦ rw ge (k.0, insert_item-All P p qs h k.1)
]

insert_item-perm : (p : String × ℕ) (qs : List (String × ℕ)) → Perm (insert_item p qs) (p ∷ qs)
unfolding insert_item
insert_item-perm p [] = Perm.rfl
insert_item-perm p (q ∷ qs) = elim (Bool-cases (ltb p.1 q.1)) [
  | inl lt ↦ rw lt Perm.rfl
  | inr ge ↦ rw ge (Perm.trans (Perm.cons q (insert_item-perm p qs)) (Perm.swap p q qs))
]

insert_item-IsSorted :
    (p : String × ℕ) (qs : List (String × ℕ)) → IsSorted qs → IsSorted (insert_item p qs)
unfolding insert_item
insert_item-IsSorted p [] h = (tt, tt)
insert_item-IsSorted p (q ∷ qs) h = elim (Bool-cases (ltb p.1 q.1)) [
  | inl lt ↦ rw lt (
    (
      omega (arith, ltb→lt p.1 q.1 lt),
      All-map (λ r. q.1 ≤ r.1) (λ r. p.1 ≤ r.1) (λ r le. omega (arith, le, ltb→lt p.1 q.1 lt)) qs
          h.0,
    ),
    h,
  )
  | inr ge ↦
      rw ge (
        insert_item-All (λ r. q.1 ≤ r.1) p qs (ltb→le p.1 q.1 ge) h.0,
        insert_item-IsSorted p qs h.1,
      )
]

sort_items-perm : (done ps : List (String × ℕ)) → Perm (sort_items done ps) (ps ++ done)
unfolding sort_items
sort_items-perm done [] = Perm.rfl
sort_items-perm done (p ∷ ps) =
    Perm.trans (sort_items-perm (insert_item p done) ps)
      (Perm.trans (Perm.append_left ps (insert_item-perm p done)) (perm_middle ps done))

sort_items-IsSorted : (done ps : List (String × ℕ)) → IsSorted done → IsSorted (sort_items done ps)
unfolding sort_items
sort_items-IsSorted done [] h = h
sort_items-IsSorted done (p ∷ ps) h =
    sort_items-IsSorted (insert_item p done) ps (insert_item-IsSorted p done h)

sort_items-All :
    (P : String × ℕ → Type 0) (done ps : List (String × ℕ))
    → All P done
    → All P ps
    → All P (sort_items done ps)
unfolding sort_items
sort_items-All P done [] h k = h
sort_items-All P done (p ∷ ps) h k =
    sort_items-All P (insert_item p done) ps (insert_item-All P p done k.0 h) k.1

-- The adjusted values, beside the items: the same names, each value at least the p-value and the
-- value before it and at most one, and the smallest such that is at least Holm's bound, p times
-- the number of items that are left, cut at one.
abbrev pub Adjusted : ℕ → ℕ → List (String × ℕ) → List (String × ℕ) → Type 0
Adjusted one running [] rs = rs ≡ []
Adjusted one running (p ∷ ps) [] = ⊥
Adjusted one running (p ∷ ps) (r ∷ rs) =
    (r.0 ≡ p.0)
    × (p.1 ≤ r.1)
    × (running ≤ r.1)
    × (r.1 ≤ one)
    × (min one (suc (length ps) * p.1) ≤ r.1)
    × ((r.1 ≡ running) ⊎ (r.1 ≡ min one (suc (length ps) * p.1)))
    × Adjusted one r.1 ps rs

max-cases : (a b : ℕ) → (max a b ≡ a) ⊎ (max a b ≡ b)
max-cases a b = elim (Bool-cases (ltb a b)) [
  | inl lt ↦ inr (omega (arith, ltb→lt a b lt))
  | inr ge ↦ inl (omega (arith, ltb→le a b ge))
]

holm_loop-Adjusted :
    (one running : ℕ) (ps : List (String × ℕ))
    → running ≤ one
    → All (λ p. p.1 ≤ one) ps
    → Adjusted one running ps (holm_loop one running ps)
unfolding holm_loop
holm_loop-Adjusted one running [] low h = refl
holm_loop-Adjusted one running ((name, value) ∷ ps) low h =
    let bound = min one (suc (length ps) * value) in
    let fits : value ≤ suc (length ps) * value = grind arith in
    let at_most : max running bound ≤ one = omega arith in
    (
      refl,
      omega (arith, fits, h.0),
      omega arith,
      at_most,
      omega arith,
      max-cases running bound,
      holm_loop-Adjusted one (max running bound) ps at_most h.1,
    )

-- For p-values that are at most one: the adjusted values belong to the items in ascending order of
-- their p-values. They ascend too, lie between the p-value and one, and each is the larger of the
-- value before it and the p-value times the number of items that are left, cut at one.
pub holm_adjust-Adjusted :
    (one : ℕ) (pvalues : List (String × ℕ))
    → All (λ p. p.1 ≤ one) pvalues
    → (ordered : List (String × ℕ)) × Perm ordered pvalues
      × IsSorted ordered
      × Adjusted one 0 ordered (holm_adjust one pvalues)
unfolding holm_adjust
holm_adjust-Adjusted one pvalues h =
    let ordered = sort_items [] pvalues in
    (
      ordered,
      rw append-nil at (sort_items-perm [] pvalues),
      sort_items-IsSorted [] pvalues tt,
      holm_loop-Adjusted one 0 ordered (omega arith)
          (sort_items-All (λ p. p.1 ≤ one) [] pvalues tt h),
    )
