-- ===== src/Near/Within.antt =====
-- Lemmas on the indices of `withinDoc`.
use qry_eval_plus.Prelude.{
  All, Bool-cases, In, List, [], add-one, ap, arith, drop, drop_of_le, false, inl, inr, leb, length,
  length-drop, map, refl, suc, true, zero, ℕ, ◌+◌, ◌<◌, ◌∷◌, ◌≡◌, ◌≤◌,
}
use qry_eval_plus.InvList.Order.{Increasing}
use qry_eval_plus.Near.{out_of_doc, total_length}
use qry_eval_plus.Near.Chain.{Chain, last_list, Sub}
use qry_eval_plus.Near.Step.{rems, Increasing-drop}

In-drop : (n x : ℕ) (l : List ℕ) → In x (drop n l) → In x l
In-drop zero x l m = m
In-drop (suc n) x [] m = m
In-drop (suc n) x (y ∷ l) m = inr (In-drop n x l m)

In-drop_next : (n x : ℕ) (l : List ℕ) → In x (drop (suc n) l) → In x (drop n l)
In-drop_next n x [] m = absurd m
In-drop_next zero x (y ∷ l) m = inr m
In-drop_next (suc n) x (y ∷ l) m = In-drop_next n x l m

pub Sub-rems : (is : List ℕ) (ps : List (List ℕ)) → length is ≡ length ps → Sub (rems is ps) ps
Sub-rems [] [] e = tt
Sub-rems [] (p ∷ ps) e = absurd (omega arith)
Sub-rems (i ∷ is) [] e = absurd (omega arith)
Sub-rems (i ∷ is) (p ∷ ps) e = (λ x m. In-drop i x p m, Sub-rems is ps (omega arith))

abbrev pub advanced : List ℕ → List ℕ
advanced is = map (λ i. i + 1) is

pub length-advanced : (is : List ℕ) → length (advanced is) ≡ length is
length-advanced [] = refl
length-advanced (i ∷ is) = ap suc (length-advanced is)

pub Sub-advanced :
    (is : List ℕ) (ps : List (List ℕ))
    → length is ≡ length ps
    → Sub (rems (advanced is) ps) (rems is ps)
Sub-advanced [] [] e = tt
Sub-advanced [] (p ∷ ps) e = absurd (omega arith)
Sub-advanced (i ∷ is) [] e = absurd (omega arith)
Sub-advanced (i ∷ is) (p ∷ ps) e =
    (λ x m. In-drop_next i x p (rw add-one at m), Sub-advanced is ps (omega arith))

pub drop_next-tail : (i v : ℕ) (p t : List ℕ) → drop i p ≡ v ∷ t → drop (suc i) p ≡ t
drop_next-tail zero v [] t e = cc
drop_next-tail (suc i) v [] t e = cc
drop_next-tail zero v (x ∷ p) t e = cc
drop_next-tail (suc i) v (x ∷ p) t e = drop_next-tail i v p t e

pub last-advanced :
    (v : ℕ) (t : List ℕ) (is : List ℕ) (ps : List (List ℕ))
    → length is ≡ length ps
    → last_list (rems is ps) ≡ v ∷ t
    → last_list (rems (advanced is) ps) ≡ t
last-advanced v t [] [] h e = cc
last-advanced v t [] (p ∷ ps) h e = absurd (omega arith)
last-advanced v t (i ∷ is) [] h e = absurd (omega arith)
last-advanced v t (i ∷ []) (p ∷ []) h e = rw add-one (drop_next-tail i v p t e)
last-advanced v t (i ∷ []) (p ∷ q ∷ ps) h e = absurd (omega arith)
last-advanced v t (i ∷ j ∷ is) (p ∷ []) h e = absurd (omega arith)
last-advanced v t (i ∷ j ∷ is) (p ∷ q ∷ ps) h e =
    last-advanced v t (j ∷ is) (q ∷ ps) (omega arith) e

pub last-Increasing :
    (is : List ℕ) (ps : List (List ℕ)) → All Increasing ps → Increasing (last_list (rems is ps))
last-Increasing [] ps h = tt
last-Increasing (i ∷ is) [] h = tt
last-Increasing (i ∷ []) (p ∷ ps) h = Increasing-drop i p h.0
last-Increasing (i ∷ j ∷ is) (p ∷ []) h = Increasing-drop i p h.0
last-Increasing (i ∷ j ∷ is) (p ∷ q ∷ ps) h = last-Increasing (j ∷ is) (q ∷ ps) h.1

total-advanced-le :
    (is : List ℕ) (ps : List (List ℕ))
    → total_length (rems (advanced is) ps) ≤ total_length (rems is ps)
total-advanced-le [] ps = omega arith
total-advanced-le (i ∷ is) [] = omega arith
total-advanced-le (i ∷ is) (p ∷ ps) =
    omega (arith, length-drop (i + 1) p, length-drop i p, total-advanced-le is ps)

-- While no term has run out, moving every index drops at least one position.
pub total-advanced-lt :
    (i : ℕ) (is : List ℕ) (p : List ℕ) (ps : List (List ℕ))
    → out_of_doc (i ∷ is) (p ∷ ps) ≡ false
    → total_length (rems (advanced (i ∷ is)) (p ∷ ps)) < total_length (rems (i ∷ is) (p ∷ ps))
unfolding out_of_doc
total-advanced-lt i is p ps h =
    ground (arith, length-drop (i + 1) p, length-drop i p, total-advanced-le is ps)

-- Once a term has run out, there is no chain.
pub out_of_doc-Chain :
    (n : ℕ) (is : List ℕ) (ps : List (List ℕ)) (P : ℕ → Type 0) (e : ℕ)
    → length is ≡ length ps
    → out_of_doc is ps ≡ true
    → ¬ Chain n P (rems is ps) e
unfolding out_of_doc
out_of_doc-Chain n [] ps P e len out c = c
out_of_doc-Chain n (i ∷ is) [] P e len out c = c
out_of_doc-Chain n (i ∷ []) (p ∷ []) P e len out (m, _) =
    let gone : In e [] = rw (drop_of_le p i (ground arith)) at m in gone
out_of_doc-Chain n (i ∷ []) (p ∷ q ∷ ps) P e len out c = absurd (omega arith)
out_of_doc-Chain n (i ∷ j ∷ is) (p ∷ []) P e len out c = absurd (omega arith)
out_of_doc-Chain n (i ∷ j ∷ is) (p ∷ q ∷ ps) P e len out (x, m, _, c) =
    elim (Bool-cases (leb (length p) i)) [
      | inl over ↦ let gone : In x [] = rw (drop_of_le p i (ground arith)) at m in gone
      | inr more ↦
          out_of_doc-Chain n (j ∷ is) (q ∷ ps) (λ y. (x < y) × (y ≤ x + n)) e (omega arith)
            (ground arith) c
    ]
