-- ===== src/Tree/Weigh.antt =====
-- What the weights that `_optimizeSumToWsum` counts say of the arguments.
use qry_eval_plus.Prelude.{
  All, Bool, Bool-cases, List, [], ap, arith, false, if◌then◌else◌, inl, inr, map, refl, sym, true,
  ℕ, ◌+◌, ◌==◌, ◌∙◌, ◌∷◌, ◌≡◌, ◌≤◌, ◌⊎◌,
}
use qry_eval_plus.Tree.{Qry, duplicate, absorb, weigh, kept}
use qry_eval_plus.Tree.Erase.{duplicate-erase}

-- The weight of the arguments that are duplicates of a query.
abbrev pub weight_of : Qry → List Qry → List ℕ → ℕ
weight_of q (a ∷ bs) (w ∷ ws) = (if duplicate q a then w else 0) + weight_of q bs ws
weight_of q _ _ = 0

-- How many arguments are duplicates of a query.
abbrev pub occurrences : Qry → List Qry → ℕ
occurrences q [] = 0
occurrences q (a ∷ bs) = (if duplicate q a then 1 else 0) + occurrences q bs

-- A duplicate has the same duplicates.
duplicate_trans : (q a b : Qry) → duplicate q a ≡ true → duplicate a b ≡ duplicate q b
duplicate_trans q a b e =
    let same = (duplicate-erase q a).0 e in
    elim (Bool-cases (duplicate a b)) [
      | inl f ↦ f ∙ sym ((duplicate-erase q b).1 (same ∙ (duplicate-erase a b).0 f))
      | inr f ↦ elim (Bool-cases (duplicate q b)) [
        | inl g ↦
            let t = (duplicate-erase a b).1 (sym same ∙ (duplicate-erase q b).0 g) in
            absurd (ground arith)
        | inr g ↦ f ∙ sym g
      ]
    ]

duplicate_refl : (q : Qry) → duplicate q q ≡ true
duplicate_refl q = (duplicate-erase q q).1 refl

duplicate-sym : (a b : Qry) → duplicate a b ≡ true → duplicate b a ≡ true
duplicate-sym a b e = (duplicate-erase b a).1 (sym ((duplicate-erase a b).0 e))

duplicate-apart :
    (q a b : Qry) → duplicate a b ≡ true → duplicate q a ≡ false → duplicate q b ≡ false
duplicate-apart q a b f g = elim (Bool-cases (duplicate q b)) [
  | inr h ↦ h
  | inl h ↦
      let t : duplicate q a ≡ true = sym (duplicate_trans q b a h) ∙ duplicate-sym a b f in
      let absurdity : true ≡ false = sym t ∙ g in cc
]

abbrev chosen : Bool → ℕ → ℕ
chosen t n = if t then n else 0

if_zero : (t : Bool) → chosen t 0 ≡ 0
if_zero true = refl
if_zero false = refl

-- Absorbing moves the weight 1 of each duplicate into the count.
absorb-weight_of :
    (q a : Qry) (bs : List Qry) (ws : List ℕ)
    → All (λ w. w ≤ 1) ws
    → weight_of q bs ws
      ≡ weight_of q bs (absorb a bs ws).1 + (if duplicate q a then (absorb a bs ws).0 else 0)
unfolding absorb
absorb-weight_of q a [] ws h = omega (arith, if_zero (duplicate q a))
absorb-weight_of q a (b ∷ bs) [] h = omega (arith, if_zero (duplicate q a))
absorb-weight_of q a (b ∷ bs) (w ∷ ws) h =
    let rest = absorb-weight_of q a bs ws h.1 in
    elim (Bool-cases (w == 0)) [
      | inl e ↦ rw (e, absorb) (omega (arith, rest))
      | inr e ↦ elim (Bool-cases (duplicate a b)) [
        | inr f ↦ rw (e, f, absorb) (omega (arith, rest))
        | inl f ↦
            let one : w ≡ 1 = one_of w e h.0 in
            elim (Bool-cases (duplicate q a)) [
              | inl g ↦
                  let k : duplicate q b ≡ true = sym (duplicate_trans q a b g) ∙ f in
                  let rest' : weight_of q bs ws
                      ≡ weight_of q bs (absorb a bs ws).1 + (absorb a bs ws).0 =
                    rw g at rest in
                  rw (e, f, g, k, absorb) (omega (arith, rest', one))
              | inr g ↦
                  let rest' : weight_of q bs ws ≡ weight_of q bs (absorb a bs ws).1 + 0 =
                    rw g at rest in
                  rw (e, f, g, duplicate-apart q a b f g, absorb) (omega (arith, rest'))
            ]
      ]
    ]
  where
    one_of : (w : ℕ) → (w == 0) ≡ false → w ≤ 1 → w ≡ 1
    one_of w e h = ground arith

absorb-ones :
    (a : Qry) (bs : List Qry) (ws : List ℕ)
    → All (λ w. w ≤ 1) ws
    → All (λ w. w ≤ 1) (absorb a bs ws).1
unfolding absorb
absorb-ones a [] ws h = h
absorb-ones a (b ∷ bs) [] h = tt
absorb-ones a (b ∷ bs) (w ∷ ws) h =
    let rest = absorb-ones a bs ws h.1 in
    elim (Bool-cases (w == 0)) [
      | inl e ↦ rw (e, absorb) (h.0, rest)
      | inr e ↦ elim (Bool-cases (duplicate a b)) [
        | inl f ↦ rw (e, f, absorb) (omega arith, rest)
        | inr f ↦ rw (e, f, absorb) (h.0, rest)
      ]
    ]

weigh-weight_of :
    (q : Qry) (bs : List Qry) (ws : List ℕ)
    → All (λ w. w ≤ 1) ws
    → weight_of q bs (weigh bs ws) ≡ weight_of q bs ws
unfolding weigh
weigh-weight_of q [] ws h = refl
weigh-weight_of q (a ∷ bs) [] h = refl
weigh-weight_of q (a ∷ bs) (w ∷ ws) h = elim (Bool-cases (w == 0)) [
  | inl e ↦
      let rest = weigh-weight_of q bs ws h.1 in
      rw (e, weigh) (omega (arith, rest, ap (chosen (duplicate q a)) (same w)))
  | inr e ↦
      let ws' = (absorb a bs ws).1 in
      let rest = weigh-weight_of q bs ws' (absorb-ones a bs ws h.1) in
      let moved = absorb-weight_of q a bs ws h.1 in
      elim (Bool-cases (duplicate q a)) [
        | inl g ↦
            let moved' : weight_of q bs ws ≡ weight_of q bs ws' + (absorb a bs ws).0 =
              rw g at moved in
            rw (e, g, weigh) (omega (arith, rest, moved'))
        | inr g ↦
            let moved' : weight_of q bs ws ≡ weight_of q bs ws' + 0 = rw g at moved in
            rw (e, g, weigh) (omega (arith, rest, moved'))
      ]
]
  where
    same : (w : ℕ) → w + 0 ≡ w
    same w = omega arith

-- Behind `a`, its duplicates have no weight.
Cleared : Qry → List Qry → List ℕ → Type 0
Cleared a (b ∷ bs) (w ∷ ws) = (duplicate a b ≡ true → w ≡ 0) × Cleared a bs ws
Cleared a _ _ = Unit

Apart : List Qry → List ℕ → Type 0
Apart (a ∷ bs) (w ∷ ws) = ((w ≡ 0) ⊎ Cleared a bs ws) × Apart bs ws
Apart _ _ = Unit

absorb-Cleared : (a : Qry) (bs : List Qry) (ws : List ℕ) → Cleared a bs (absorb a bs ws).1
unfolding absorb Cleared
absorb-Cleared a [] ws = tt
absorb-Cleared a (b ∷ bs) [] = tt
absorb-Cleared a (b ∷ bs) (w ∷ ws) =
    let rest = absorb-Cleared a bs ws in
    elim (Bool-cases (w == 0)) [
      | inl e ↦ rw (e, absorb) ((λ d. ground arith), rest)
      | inr e ↦ elim (Bool-cases (duplicate a b)) [
        | inl f ↦ rw (e, f, absorb) ((λ d. refl), rest)
        | inr f ↦ rw (e, f, absorb) ((λ d. let no : true ≡ false = sym d ∙ f in cc), rest)
      ]
    ]

-- A weight 0 stays 0.
absorb-keeps :
    (a c : Qry) (bs : List Qry) (ws : List ℕ) → Cleared a bs ws → Cleared a bs (absorb c bs ws).1
unfolding absorb Cleared
absorb-keeps a c [] ws h = tt
absorb-keeps a c (b ∷ bs) [] h = tt
absorb-keeps a c (b ∷ bs) (w ∷ ws) h =
    let rest = absorb-keeps a c bs ws h.1 in
    elim (Bool-cases (w == 0)) [
      | inl e ↦ rw (e, absorb) (h.0, rest)
      | inr e ↦ elim (Bool-cases (duplicate c b)) [
        | inl f ↦ rw (e, f, absorb) ((λ d. refl), rest)
        | inr f ↦ rw (e, f, absorb) (h.0, rest)
      ]
    ]

weigh-Cleared :
    (a : Qry) (bs : List Qry) (ws : List ℕ) → Cleared a bs ws → Cleared a bs (weigh bs ws)
unfolding weigh Cleared
weigh-Cleared a [] ws h = tt
weigh-Cleared a (b ∷ bs) [] h = tt
weigh-Cleared a (b ∷ bs) (w ∷ ws) h = elim (Bool-cases (w == 0)) [
  | inl e ↦ rw (e, weigh) ((λ d. ground arith), weigh-Cleared a bs ws h.1)
  | inr e ↦
      rw (e, weigh)
        (
          (λ d. absurd (not_zero w e (h.0 d))),
          weigh-Cleared a bs (absorb b bs ws).1 (absorb-keeps a b bs ws h.1),
        )
]
  where
    not_zero : (w : ℕ) → (w == 0) ≡ false → w ≡ 0 → ⊥
    not_zero w e f = ground arith

weigh-Apart : (bs : List Qry) (ws : List ℕ) → Apart bs (weigh bs ws)
unfolding weigh Apart
weigh-Apart [] ws = tt
weigh-Apart (a ∷ bs) [] = tt
weigh-Apart (a ∷ bs) (w ∷ ws) = elim (Bool-cases (w == 0)) [
  | inl e ↦ rw (e, weigh) (inl (ground arith), weigh-Apart bs ws)
  | inr e ↦
      rw (e, weigh)
        (
          inr (weigh-Cleared a bs (absorb a bs ws).1 (absorb-Cleared a bs ws)),
          weigh-Apart bs (absorb a bs ws).1,
        )
]

ones : List Qry → List ℕ
ones bs = map (λ _. 1) bs

ones-All : (bs : List Qry) → All (λ w. w ≤ 1) (ones bs)
unfolding ones
ones-All [] = tt
ones-All (b ∷ bs) = (omega arith, ones-All bs)

ones-occurrences : (q : Qry) (bs : List Qry) → weight_of q bs (ones bs) ≡ occurrences q bs
unfolding ones
ones-occurrences q [] = refl
ones-occurrences q (b ∷ bs) = omega (arith, ones-occurrences q bs)

-- The weight of the kept arguments that are duplicates of a query.
abbrev pub kept_weight : Qry → List (Qry × ℕ) → ℕ
kept_weight q [] = 0
kept_weight q ((a, w) ∷ rest) = (if duplicate q a then w else 0) + kept_weight q rest

-- No two kept arguments are duplicates.
abbrev pub Distinct : List (Qry × ℕ) → Type 0
Distinct [] = Unit
Distinct ((a, w) ∷ rest) = All (λ e. duplicate a e.0 ≡ false) rest × Distinct rest

kept-weight_of :
    (q : Qry) (bs : List Qry) (ws : List ℕ) → kept_weight q (kept bs ws) ≡ weight_of q bs ws
unfolding kept
kept-weight_of q [] ws = refl
kept-weight_of q (a ∷ bs) [] = refl
kept-weight_of q (a ∷ bs) (w ∷ ws) =
    let rest = kept-weight_of q bs ws in
    elim (Bool-cases (w == 0)) [
      | inl e ↦
          let z : w ≡ 0 = ground arith in
          rw (e, kept) (omega (arith, rest, ap (chosen (duplicate q a)) z, if_zero (duplicate q a)))
      | inr e ↦ rw (e, kept) (omega (arith, rest))
    ]

kept-Cleared :
    (a : Qry) (bs : List Qry) (ws : List ℕ)
    → Cleared a bs ws
    → All (λ e. duplicate a e.0 ≡ false) (kept bs ws)
unfolding kept Cleared
kept-Cleared a [] ws h = tt
kept-Cleared a (b ∷ bs) [] h = tt
kept-Cleared a (b ∷ bs) (w ∷ ws) h =
    let rest = kept-Cleared a bs ws h.1 in
    elim (Bool-cases (w == 0)) [
      | inl e ↦ rw (e, kept) rest
      | inr e ↦
          rw (e, kept)
            (
              elim (Bool-cases (duplicate a b)) [
                | inl d ↦ absurd (weight_zero w e (h.0 d))
                | inr d ↦ d
              ],
              rest,
            )
    ]
  where
    weight_zero : (w : ℕ) → (w == 0) ≡ false → w ≡ 0 → ⊥
    weight_zero w e f = ground arith

kept-Distinct : (bs : List Qry) (ws : List ℕ) → Apart bs ws → Distinct (kept bs ws)
unfolding kept Apart
kept-Distinct [] ws h = tt
kept-Distinct (a ∷ bs) [] h = tt
kept-Distinct (a ∷ bs) (w ∷ ws) h =
    let rest = kept-Distinct bs ws h.1 in
    elim (Bool-cases (w == 0)) [
      | inl e ↦ rw (e, kept) rest
      | inr e ↦
          rw (e, kept)
            (elim h.0 [ inl z ↦ absurd (ground arith) | inr c ↦ kept-Cleared a bs ws c ], rest)
    ]

-- Of the arguments of a SUM, the weights keep for each query as much as there are arguments that
-- are duplicates of it, and of any two arguments with a weight neither is a duplicate of the other.
pub kept-Distinct-occurrences :
    (bs : List Qry)
    → ((q : Qry) → kept_weight q (kept bs (weigh bs (map (λ _. 1) bs))) ≡ occurrences q bs)
      × Distinct (kept bs (weigh bs (map (λ _. 1) bs)))
unfolding ones
kept-Distinct-occurrences bs = (
  λ q.
      kept-weight_of q bs (weigh bs (ones bs))
      ∙ weigh-weight_of q bs (ones bs) (ones-All bs)
      ∙ ones-occurrences q bs,
  kept-Distinct bs (weigh bs (ones bs)) (weigh-Apart bs (ones bs)),
)
