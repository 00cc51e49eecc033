-- ===== src/Window/Least.antt =====
-- The least and the largest position, and where the least one stands.
use qry_eval_plus.Prelude.{
  All, All-map, Bool-cases, In, List, [], ap, arith, get_elem?, inl, inr, ltb, ltb→le, ltb→lt, none,
  refl, some, subst, suc, sym, ℕ, ◌+◌, ◌∷◌, ◌≡◌, ◌≤◌, ◌⊎◌,
}
use qry_eval_plus.Window.{larger, smaller, minimum, maximum, lowest, sort}
use qry_eval_plus.InvList.Order.{Increasing}

larger-cases : (x m : ℕ) → ((larger x m ≡ m) × (x ≤ m)) ⊎ ((larger x m ≡ x) × (m ≤ x))
larger-cases x m = elim (Bool-cases (ltb x m)) [
  | inl lt ↦ inl (rw lt, ground arith)
  | inr ge ↦ inr (rw ge, ltb→le x m ge)
]

smaller-cases : (x m : ℕ) → ((smaller x m ≡ m) × (m ≤ x)) ⊎ ((smaller x m ≡ x) × (x ≤ m))
smaller-cases x m = elim (Bool-cases (ltb m x)) [
  | inl lt ↦ inl (rw lt, ground arith)
  | inr ge ↦ inr (rw ge, ltb→le m x ge)
]

pub maximum-All : (x : ℕ) (xs : List ℕ) → All (λ y. y ≤ maximum x xs) (x ∷ xs)
unfolding maximum
maximum-All x [] = (omega arith, tt)
maximum-All x (y ∷ ys) =
    let h = maximum-All y ys in
    elim (larger-cases x (maximum y ys)) [
      | inl (e, le) ↦ subst (λ w. All (λ z. z ≤ w) (x ∷ y ∷ ys)) (sym e) (le, h)
      | inr (e, ge) ↦
          subst (λ w. All (λ z. z ≤ w) (x ∷ y ∷ ys)) (sym e)
            (
              omega arith,
              All-map (λ z. z ≤ maximum y ys) (λ z. z ≤ x) (λ z le. omega arith) (y ∷ ys) h,
            )
    ]

pub maximum-In : (x : ℕ) (xs : List ℕ) → In (maximum x xs) (x ∷ xs)
unfolding maximum
maximum-In x [] = inl refl
maximum-In x (y ∷ ys) = elim (larger-cases x (maximum y ys)) [
  | inl (e, le) ↦ subst (λ w. In w (x ∷ y ∷ ys)) (sym e) (inr (maximum-In y ys))
  | inr (e, ge) ↦ subst (λ w. In w (x ∷ y ∷ ys)) (sym e) (inl refl)
]

pub minimum-In : (x : ℕ) (xs : List ℕ) → In (minimum x xs) (x ∷ xs)
unfolding minimum
minimum-In x [] = inl refl
minimum-In x (y ∷ ys) = elim (smaller-cases x (minimum y ys)) [
  | inl (e, le) ↦ subst (λ w. In w (x ∷ y ∷ ys)) (sym e) (inr (minimum-In y ys))
  | inr (e, ge) ↦ subst (λ w. In w (x ∷ y ∷ ys)) (sym e) (inl refl)
]

pub minimum-All : (x : ℕ) (xs : List ℕ) → All (λ y. minimum x xs ≤ y) (x ∷ xs)
unfolding minimum
minimum-All x [] = (omega arith, tt)
minimum-All x (y ∷ ys) =
    let h = minimum-All y ys in
    elim (smaller-cases x (minimum y ys)) [
      | inl (e, le) ↦ subst (λ w. All (λ z. w ≤ z) (x ∷ y ∷ ys)) (sym e) (le, h)
      | inr (e, ge) ↦
          subst (λ w. All (λ z. w ≤ z) (x ∷ y ∷ ys)) (sym e)
            (
              omega arith,
              All-map (λ z. minimum y ys ≤ z) (λ z. x ≤ z) (λ z le. omega arith) (y ∷ ys) h,
            )
    ]

-- From a best value on, the loop ends with a value that is not above any, and where it stands.
StandsLowest : ℕ → ℕ → ℕ → List ℕ → Type 0
StandsLowest i v k xs =
    (v' : ℕ) × (k' : ℕ) × (lowest i (some (v, k)) xs ≡ some (v', k'))
    × (v' ≤ v)
    × All (λ x. v' ≤ x) xs
    × (((v' ≡ v) × (k' ≡ k)) ⊎ ((j : ℕ) × (k' ≡ i + j) × (get_elem? xs j ≡ some v')))

lowest-StandsLowest : (i v k : ℕ) (xs : List ℕ) → StandsLowest i v k xs
unfolding lowest StandsLowest
lowest-StandsLowest i v k [] = (v, k, refl, omega arith, tt, inl (refl, refl))
lowest-StandsLowest i v k (x ∷ xs) = elim (Bool-cases (ltb x v)) [
  | inl lt ↦
      let (v', k', runs, le, all, place) = lowest-StandsLowest (i + 1) x i xs in
      (
        v',
        k',
        rw lt runs,
        omega (arith, ltb→lt x v lt),
        (le, all),
        elim place [
          | inl (e, f) ↦ inr (0, omega (arith, f), ap some (sym e))
          | inr (j, e, f) ↦ inr (suc j, omega (arith, e), f)
        ],
      )
  | inr ge ↦
      let (v', k', runs, le, all, place) = lowest-StandsLowest (i + 1) v k xs in
      (
        v',
        k',
        rw ge runs,
        le,
        (omega (arith, ltb→le x v ge), all),
        elim place [ inl h ↦ inl h | inr (j, e, f) ↦ inr (suc j, omega (arith, e), f) ],
      )
]

pub lowest-least :
    (x : ℕ) (xs : List ℕ)
    → (v : ℕ) × (k : ℕ) × (lowest 0 none (x ∷ xs) ≡ some (v, k))
      × All (λ y. v ≤ y) (x ∷ xs)
      × (get_elem? (x ∷ xs) k ≡ some v)
unfolding lowest StandsLowest
lowest-least x xs =
    let (v, k, runs, le, all, place) = lowest-StandsLowest 1 x 0 xs in
    (
      v,
      k,
      runs,
      (le, all),
      elim place [
        | inl (e, f) ↦ rw (f, e)
        | inr (j, e, f) ↦ let next : k ≡ suc j = omega (arith, e) in rw next f
      ],
    )

-- Positions that increase are sorted.
pub sort-Increasing : (xs : List ℕ) → Increasing xs → sort xs ≡ xs
unfolding sort
sort-Increasing [] h = refl
sort-Increasing (x ∷ []) h = refl
sort-Increasing (x ∷ y ∷ ys) h = rw (sort-Increasing (y ∷ ys) h.1) (ground (arith, h.0.0))
