-- ===== src/Near/Chain.antt =====
-- What NEAR/n means: a position for each term, in order, each at most `n` behind the one before.
use qry_eval_plus.Prelude.{
  All-In, In, List, [], arith, inl, inr, subst, sym, ℕ, ◌+◌, ◌<◌, ◌∷◌, ◌≡◌, ◌≢◌, ◌≤◌,
}
use qry_eval_plus.InvList.Order.{Increasing}

-- `e` ends a chain through the lists whose first position fits `P`.
abbrev pub Chain : ℕ → (ℕ → Type 0) → List (List ℕ) → ℕ → Type 0
Chain n P [] e = ⊥
Chain n P (l ∷ []) e = In e l × P e
Chain n P (l ∷ m ∷ ls) e = (x : ℕ) × In x l × P x × Chain n (λ y. (x < y) × (y ≤ x + n)) (m ∷ ls) e

-- `e` ends an occurrence of the terms in the document.
abbrev pub Occurs : ℕ → List (List ℕ) → ℕ → Type 0
Occurs n ls e = Chain n (λ _. Unit {0}) ls e

-- No chain of the first lists is missing from the second ones.
abbrev pub Keeps : ℕ → List (List ℕ) → List (List ℕ) → Type 1
Keeps n ls ls' = (P : ℕ → Type 0) (e : ℕ) → Chain n P ls e → Chain n P ls' e

pub In-tail : (x a : ℕ) (l : List ℕ) → In x (a ∷ l) → a ≢ x → In x l
In-tail x a l (inl e) h = absurd (h e)
In-tail x a l (inr m) h = m

pub head-le : (x a : ℕ) (l : List ℕ) → Increasing (a ∷ l) → In x (a ∷ l) → a ≤ x
head-le x a l inc (inl e) = omega (arith, e)
head-le x a l inc (inr m) = omega (arith, All-In (λ y. a < y) l x inc.0 m)

-- The head of the second list does not follow any position of the first: it can be dropped.
Keeps-drop_second :
    (n a b : ℕ) (l m : List ℕ) (ls : List (List ℕ))
    → Increasing (a ∷ l)
    → b ≤ a
    → Keeps n ((a ∷ l) ∷ (b ∷ m) ∷ ls) ((a ∷ l) ∷ m ∷ ls)
Keeps-drop_second n a b l m [] inc le P e (x, i, p, (j, q)) =
    (x, i, p, (In-tail e b m j (omega (arith, head-le x a l inc i, le, q)), q))
Keeps-drop_second n a b l m (k ∷ ls) inc le P e (x, i, p, (y, j, q, c)) =
    (x, i, p, (y, In-tail y b m j (omega (arith, head-le x a l inc i, le, q)), q, c))

-- The head of the first list is followed by no position of the second: it can be dropped.
Keeps-drop_first :
    (n a b : ℕ) (l m : List ℕ) (ls : List (List ℕ))
    → Increasing (b ∷ m)
    → a + n < b
    → Keeps n ((a ∷ l) ∷ (b ∷ m) ∷ ls) (l ∷ (b ∷ m) ∷ ls)
Keeps-drop_first n a b l m [] inc lt P e (x, i, p, (j, q)) =
    (x, In-tail x a l i (omega (arith, head-le e b m inc j, q)), p, (j, q))
Keeps-drop_first n a b l m (k ∷ ls) inc lt P e (x, i, p, (y, j, q, c)) =
    (x, In-tail x a l i (omega (arith, head-le y b m inc j, q)), p, (y, j, q, c))

-- The same, for lists that are equal to such.
pub Keeps-second :
    (n a b : ℕ) (k l j m : List ℕ) (ls : List (List ℕ))
    → k ≡ a ∷ l
    → j ≡ b ∷ m
    → Increasing k
    → b ≤ a
    → Keeps n (k ∷ j ∷ ls) (k ∷ m ∷ ls)
Keeps-second n a b k l j m ls e f inc le =
    subst (λ k'. Keeps n (k' ∷ j ∷ ls) (k' ∷ m ∷ ls)) (sym e)
      (subst (λ j'. Keeps n ((a ∷ l) ∷ j' ∷ ls) ((a ∷ l) ∷ m ∷ ls)) (sym f)
        (Keeps-drop_second n a b l m ls (subst Increasing e inc) le))

pub Keeps-first :
    (n a b : ℕ) (k l j m : List ℕ) (ls : List (List ℕ))
    → k ≡ a ∷ l
    → j ≡ b ∷ m
    → Increasing j
    → a + n < b
    → Keeps n (k ∷ j ∷ ls) (l ∷ j ∷ ls)
Keeps-first n a b k l j m ls e f inc lt =
    subst (λ k'. Keeps n (k' ∷ j ∷ ls) (l ∷ j ∷ ls)) (sym e)
      (subst (λ j'. Keeps n ((a ∷ l) ∷ j' ∷ ls) (l ∷ j' ∷ ls)) (sym f)
        (Keeps-drop_first n a b l m ls (subst Increasing f inc) lt))

-- To keep the chains of the later lists is to keep those of all.
pub Keeps-cons :
    (n : ℕ) (l m m' : List ℕ) (ls ls' : List (List ℕ))
    → Keeps n (m ∷ ls) (m' ∷ ls')
    → Keeps n (l ∷ m ∷ ls) (l ∷ m' ∷ ls')
Keeps-cons n l m m' ls ls' k P e (x, i, p, c) = (x, i, p, k _ e c)

-- A chain ends in a position of the last list.
abbrev pub last_list : List (List ℕ) → List ℕ
last_list [] = []
last_list (l ∷ []) = l
last_list (l ∷ m ∷ ls) = last_list (m ∷ ls)

pub Chain-In_last :
    (n : ℕ) (ls : List (List ℕ)) (P : ℕ → Type 0) (e : ℕ) → Chain n P ls e → In e (last_list ls)
Chain-In_last n [] P e c = absurd c
Chain-In_last n (l ∷ []) P e (i, p) = i
Chain-In_last n (l ∷ m ∷ ls) P e (x, i, p, c) =
    Chain-In_last n (m ∷ ls) (λ y. (x < y) × (y ≤ x + n)) e c

-- Each list is among the positions of the list at its place.
abbrev pub Sub : List (List ℕ) → List (List ℕ) → Type 0
Sub [] [] = Unit
Sub (l ∷ ls) (m ∷ ms) = ((x : ℕ) → In x l → In x m) × Sub ls ms
Sub _ _ = ⊥

pub Sub-refl : (ls : List (List ℕ)) → Sub ls ls
Sub-refl [] = tt
Sub-refl (l ∷ ls) = (λ x m. m, Sub-refl ls)

pub Sub-Keeps : (n : ℕ) (ls ms : List (List ℕ)) → Sub ls ms → Keeps n ls ms
Sub-Keeps n [] [] s P e c = c
Sub-Keeps n [] (m ∷ ms) s P e c = absurd s
Sub-Keeps n (l ∷ ls) [] s P e c = absurd s
Sub-Keeps n (l ∷ []) (m ∷ []) s P e (i, p) = (s.0 e i, p)
Sub-Keeps n (l ∷ []) (m ∷ k ∷ ms) s P e c = absurd s.1
Sub-Keeps n (l ∷ k ∷ ls) (m ∷ []) s P e c = absurd s.1
Sub-Keeps n (l ∷ k ∷ ls) (m ∷ k' ∷ ms) s P e (x, i, p, c) =
    (x, s.0 x i, p, Sub-Keeps n (k ∷ ls) (k' ∷ ms) s.1 (λ y. (x < y) × (y ≤ x + n)) e c)

pub Sub-last :
    (ls ms : List (List ℕ)) (x : ℕ) → Sub ls ms → In x (last_list ls) → In x (last_list ms)
Sub-last [] ms x s i = absurd i
Sub-last (l ∷ ls) [] x s i = absurd s
Sub-last (l ∷ []) (m ∷ []) x s i = s.0 x i
Sub-last (l ∷ []) (m ∷ k ∷ ms) x s i = absurd s.1
Sub-last (l ∷ k ∷ ls) (m ∷ []) x s i = absurd s.1
Sub-last (l ∷ k ∷ ls) (m ∷ k' ∷ ms) x s i = Sub-last (k ∷ ls) (k' ∷ ms) x s.1 i
