-- ===== src/Parser/Lengths.antt =====
-- The texts that the parser cuts out of a query are shorter than the query.
use qry_eval_plus.Prelude.{
  Bool, Bool-cases, List, Option, Option-cases, [], ap, arith, false, inl, inr, length, length-drop,
  none, some, some_eq, subst, suc, take, true, zero, ℕ, ◌+◌, ◌<◌, ◌==◌, ◌∷◌, ◌≡◌, ◌≤◌,
}
use Prim.Native.String.{String}
use qry_eval_plus.Text.{
  Text, is_space, lstrip, cons_stripped, rstrip, strip, split_once, rsplit_once, split_word,
}
use qry_eval_plus.Tree.{Weight, Qry}
use qry_eval_plus.Parser.{
  pop_term, pop_at, pop_subquery, index_of_balancing_paren, pop_weight, pop_argument,
}

length-lstrip : (s : Text) → length (lstrip s) ≤ length s
unfolding lstrip
length-lstrip [] = omega arith
length-lstrip (c ∷ s) = ground (arith, length-lstrip s)

length-cons_stripped : (c : ℕ) (s : Text) → length (cons_stripped c s) ≤ suc (length s)
length-cons_stripped c [] = ground arith
length-cons_stripped c (d ∷ s) = omega arith

length-rstrip : (s : Text) → length (rstrip s) ≤ length s
unfolding rstrip
length-rstrip [] = omega arith
length-rstrip (c ∷ s) = omega (arith, length-cons_stripped c (rstrip s), length-rstrip s)

pub length-strip : (s : Text) → length (strip s) ≤ length s
unfolding strip
length-strip s = omega (arith, length-lstrip (rstrip s), length-rstrip s)

pub length-split_once :
    (c : ℕ) (s a b : Text) → split_once c s ≡ some (a, b) → length a + length b + 1 ≡ length s
unfolding split_once
length-split_once c [] a b e = cc
length-split_once c (d ∷ s) a b e = elim (Option-cases (split_once c s)) [
  | inl n ↦ ground (arith, n)
  | inr ((a', b'), m) ↦ ground (arith, m, length-split_once c s a' b' m)
]

pub length-rsplit_once :
    (c : ℕ) (s a b : Text) → rsplit_once c s ≡ some (a, b) → length a < length s
unfolding rsplit_once
length-rsplit_once c [] a b e = cc
length-rsplit_once c (d ∷ s) a b e = elim (Option-cases (rsplit_once c s)) [
  | inl n ↦ ground (arith, n)
  | inr ((a', b'), m) ↦ ground (arith, m, length-rsplit_once c s a' b' m)
]

length-split_word : (s : Text) → length (split_word s).0 + length (split_word s).1 ≤ length s
unfolding split_word
length-split_word [] = omega arith
length-split_word (c ∷ s) = ground (arith, length-split_word s, length-lstrip s)

length-take_le : (n : ℕ) (s : Text) → length (take n s) ≤ length s
length-take_le zero s = omega arith
length-take_le (suc n) [] = omega arith
length-take_le (suc n) (c ∷ s) = omega (arith, length-take_le n s)

-- A popped text and the rest fit in the argument, and the rest is shorter.
pop_term-shorter : (s t rest : Text) → pop_term s ≡ some (t, rest) → length rest < length s
unfolding pop_term lstrip split_word
pop_term-shorter [] t rest e = cc
pop_term-shorter (c ∷ s) t rest e = elim (Bool-cases (is_space c)) [
  | inl space ↦ omega (arith, pop_term-shorter s t rest (rw space at e))
  | inr solid ↦ ground (
    arith,
    ap length (ap (λ (p : Text × Text). p.1) (some_eq (rw (solid) at e))),
    length-split_word s,
  )
]

pop_at-shorter :
    (c : ℕ) (s : Text) (i : Option ℕ)
    → (length (pop_at (c ∷ s) i).0 ≤ length (c ∷ s))
      × (length (pop_at (c ∷ s) i).1 < length (c ∷ s))
pop_at-shorter c s none = (omega arith, omega arith)
pop_at-shorter c s (some i) =
    (length-take_le (i + 1) (c ∷ s), omega (arith, length-drop (i + 1) (c ∷ s)))

pub pop_subquery-shorter :
    (c : ℕ) (s q rest : Text)
    → pop_subquery (c ∷ s) ≡ some (q, rest)
    → (length q ≤ length (c ∷ s)) × (length rest < length (c ∷ s))
unfolding pop_subquery
pop_subquery-shorter c s q rest e = elim (Option-cases (index_of_balancing_paren (c ∷ s))) [
  | inl n ↦ cc (rw n at e)
  | inr (i, f) ↦
      subst (λ (p : Text × Text). (length p.0 ≤ length (c ∷ s)) × (length p.1 < length (c ∷ s)))
        (some_eq (rw f at e)) (pop_at-shorter c s i)
]

module _ (tokenize_string : Text → List String) (float : Text → Option Weight) where
  pub pop_weight-shorter :
      (b : Bool) (s rest : Text) (w : Weight)
      → pop_weight tokenize_string float b s ≡ some (w, rest)
      → length rest ≤ length s
  unfolding pop_weight
  pop_weight-shorter false s rest w e = ground arith
  pop_weight-shorter true s rest w e = elim (Option-cases (pop_term s)) [
    | inl n ↦ cc (rw n at e)
    | inr ((t, u), f) ↦ elim (Option-cases (float t)) [
      | inl n ↦ cc (rw (f, n) at e)
      | inr (k, g) ↦ ground (
        arith,
        ap (λ (p : Weight × Text). length p.1) (some_eq (rw (f, g) at e)),
        pop_term-shorter s t u f,
      )
    ]
  ]

  pub pop_argument-shorter :
      (parse : Text → Option Qry) (s rest : Text) (qs : List Qry)
      → pop_argument tokenize_string float parse s ≡ some (qs, rest)
      → length rest < length s
  unfolding pop_argument
  pop_argument-shorter parse [] rest qs e = cc
  pop_argument-shorter parse (c ∷ s) rest qs e = elim (Bool-cases (c == b'#')) [
    | inl hash ↦ elim (Option-cases (pop_subquery (c ∷ s))) [
      | inl n ↦ cc (rw (hash, n) at e)
      | inr ((q, u), f) ↦ elim (Option-cases (parse q)) [
        | inl n ↦ cc (rw (hash, f, n) at e)
        | inr (t, g) ↦
            subst (λ v. length v < length (c ∷ s))
              (ap (λ (p : List Qry × Text). p.1) (some_eq (rw (hash, f, g) at e)))
              (pop_subquery-shorter c s q u f).1
      ]
    ]
    | inr other ↦ elim (Option-cases (pop_term (c ∷ s))) [
      | inl n ↦ cc (rw (other, n) at e)
      | inr ((t, u), f) ↦
          subst (λ v. length v < length (c ∷ s))
            (ap (λ (p : List Qry × Text). p.1) (some_eq (rw (other, f) at e)))
            (pop_term-shorter (c ∷ s) t u f)
    ]
  ]
