-- ===== src/Near/Meaning.antt =====
-- What the inverted list of a NEAR/n operator says of each document.
use qry_eval_plus.Prelude.{
  All, Bool-cases, List, Option, Option-cases, [], ap, arith, false, inl, inr, length-drop, none,
  refl, some, some_eq, subst, suc, sym, true, ℕ, ◌++◌, ◌<◌, ◌==◌, ◌∙◌, ◌∷◌, ◌≡◌, ◌≢◌, ◌⊎◌,
}
use Prim.Native.String.{String}
use qry_eval_plus.InvList.{empty, DocPosting, InvList}
use qry_eval_plus.InvList.Order.{Increasing, Ascending, IsValid, empty-IsValid}
use qry_eval_plus.Cursor.{Cursor}
use qry_eval_plus.Cursor.Advance.{rest, IsReady, rest-Ascending}
use qry_eval_plus.MatchAll.Join.{find, find_all, find_below}
use qry_eval_plus.MatchAll.Scan.{rests}
use qry_eval_plus.MatchAll.Loop.{join, join_of}
use qry_eval_plus.Near.{within_doc, evaluate, fuel_for}
use qry_eval_plus.Near.Chain.{Occurs}
use qry_eval_plus.Near.Matches.{within_doc-Occurs}
use qry_eval_plus.Near.Evaluate.{
  posting_if, near_postings, IsOrdered, length-join-le, evaluate_loop-Evaluates, Before-nil,
}

abbrev pub HasIncreasing : List DocPosting → Type 0
HasIncreasing ps = All (λ p. Increasing p.positions) ps

find-Increasing :
    (d : ℕ) (ps : List DocPosting) (xs : List ℕ)
    → HasIncreasing ps
    → find d ps ≡ some xs
    → Increasing xs
find-Increasing d [] xs h e = cc
find-Increasing d (p ∷ ps) xs h e = elim (Bool-cases (d == p.docid)) [
  | inl same ↦
      let hit : some p.positions ≡ some xs = rw same at e in subst Increasing (some_eq hit) h.0
  | inr other ↦ find-Increasing d ps xs h.1 (rw other at e)
]

pub find_all-Increasing :
    (d : ℕ) (ls : List (List DocPosting)) (pss : List (List ℕ))
    → All HasIncreasing ls
    → find_all d ls ≡ some pss
    → All Increasing pss
find_all-Increasing d [] pss h e = subst (All Increasing) (some_eq e) tt
find_all-Increasing d (l ∷ ls) pss h e = elim (Option-cases (find d l)) [
  | inl gone ↦ let no_list : none ≡ some pss = rw gone at e in cc
  | inr (xs, here) ↦ elim (Option-cases (find_all d ls)) [
    | inl gone ↦ let no_list : none ≡ some pss = rw (here, gone) at e in cc
    | inr (yss, there) ↦
        let hit : some (xs ∷ yss) ≡ some pss = rw (here, there) at e in
        subst (All Increasing) (some_eq hit)
          (find-Increasing d l xs h.0 here, find_all-Increasing d ls yss h.1 there)
  ]
]

join-IsOrdered :
    (ps : List DocPosting) (ls : List (List DocPosting))
    → HasIncreasing ps
    → All HasIncreasing ls
    → All IsOrdered (join ps ls)
join-IsOrdered [] ls h hs = tt
join-IsOrdered (p ∷ ps) ls h hs = elim (Option-cases (find_all p.docid ls)) [
  | inl e ↦ rw (e, join) (join-IsOrdered ps ls h.1 hs)
  | inr (pss, e) ↦
      rw (e, join) ((h.0, find_all-Increasing p.docid ls pss hs e), join-IsOrdered ps ls h.1 hs)
]

abbrev nonempty_of : Option (List ℕ) → Option (List ℕ)
nonempty_of (some (x ∷ xs)) = some (x ∷ xs)
nonempty_of _ = none

-- The reference, document by document.
abbrev result_at : ℕ → Option (List (List ℕ)) → Option (List ℕ)
result_at n none = none
result_at n (some pss) = nonempty_of (within_doc n pss)

find-posting_if_self :
    (d k : ℕ) (o : Option (List ℕ)) (qs : List DocPosting)
    → (d == k) ≡ true
    → find d qs ≡ none
    → find d (posting_if k o ++ qs) ≡ nonempty_of o
find-posting_if_self d k none qs e h = h
find-posting_if_self d k (some []) qs e h = h
find-posting_if_self d k (some (x ∷ xs)) qs e h = rw e

find-posting_if_ne :
    (d k : ℕ) (o : Option (List ℕ)) (qs : List DocPosting)
    → (d == k) ≡ false
    → find d (posting_if k o ++ qs) ≡ find d qs
find-posting_if_ne d k none qs h = refl
find-posting_if_ne d k (some []) qs h = refl
find-posting_if_ne d k (some (x ∷ xs)) qs h = rw h

find-after : (d : ℕ) (ps : List DocPosting) → All (λ q. d < q.docid) ps → find d ps ≡ none
find-after d ps h = find_below d (suc d) ps h (omega arith)

find-near_postings :
    (n d : ℕ) (ps : List DocPosting) (ls : List (List DocPosting))
    → Ascending ps
    → find d (near_postings n (join ps ls)) ≡ result_at n (find_all d (ps ∷ ls))
find-near_postings n d [] ls a = refl
find-near_postings n d (p ∷ ps) ls a = elim (Bool-cases (d == p.docid)) [
  | inl same ↦
      let k : p.docid ≡ d = ground arith in
      let absent : find d ps ≡ none = subst (λ x. find x ps ≡ none) k (find-after p.docid ps a.0) in
      let later : find d (near_postings n (join ps ls)) ≡ none =
        find-near_postings n d ps ls a.1 ∙ rw absent in
      elim (Option-cases (find_all p.docid ls)) [
        | inl e ↦
            let e' : find_all d ls ≡ none = subst (λ x. find_all x ls ≡ none) k e in
            rw (e, same, e', join) later
        | inr (pss, e) ↦
            let e' : find_all d ls ≡ some pss = subst (λ x. find_all x ls ≡ some pss) k e in
            rw (e, same, e', join)
              (find-posting_if_self d p.docid (within_doc n (p.positions ∷ pss))
                (near_postings n (join ps ls)) same later)
      ]
  | inr other ↦ elim (Option-cases (find_all p.docid ls)) [
    | inl e ↦ rw (e, other, join) (find-near_postings n d ps ls a.1)
    | inr (pss, e) ↦
        rw (e, other, join)
          (find-posting_if_ne d p.docid (within_doc n (p.positions ∷ pss))
              (near_postings n (join ps ls)) other
            ∙ find-near_postings n d ps ls a.1)
  ]
]

-- What the list says of a document, given its positions in all arguments if they all hold it.
abbrev pub Meets : ℕ → Option (List (List ℕ)) → Option (List ℕ) → Type 0
Meets n none o = o ≡ none
Meets n (some pss) o =
    ((o ≡ none) × ((e : ℕ) → ¬ Occurs n pss e))
    ⊎ ((matches : List ℕ) × (o ≡ some matches)
        × (matches ≢ [])
        × All (λ e. Occurs n pss e) matches
        × Increasing matches)

nonempty-Meets :
    (n : ℕ) (p : List ℕ) (ps : List (List ℕ))
    → All Increasing (p ∷ ps)
    → Meets n (some (p ∷ ps)) (nonempty_of (within_doc n (p ∷ ps)))
nonempty-Meets n p ps inc = go (within_doc-Occurs n p ps inc)
  where
    go :
        ((matches : List ℕ) × (within_doc n (p ∷ ps) ≡ some matches)
          × All (λ e. Occurs n (p ∷ ps) e) matches
          × Increasing matches
          × ((matches ≢ []) ⊎ ((e : ℕ) → ¬ Occurs n (p ∷ ps) e)))
        → Meets n (some (p ∷ ps)) (nonempty_of (within_doc n (p ∷ ps)))
    go ([], runs, sound, order, inr absent) = inl (rw runs, absent)
    go ([], runs, sound, order, inl some_match) = absurd (some_match refl)
    go (x ∷ xs, runs, sound, order, complete) = inr (x ∷ xs, rw runs, (λ h. cc), sound, order)

result_at-Meets :
    (n : ℕ) (o : Option (List (List ℕ)))
    → ((pss : List (List ℕ))
        → o ≡ some pss
        → (p : List ℕ) × (ps : List (List ℕ)) × (pss ≡ p ∷ ps) × All Increasing (p ∷ ps))
    → Meets n o (result_at n o)
result_at-Meets n none h = refl
result_at-Meets n (some pss) h =
    let (p, ps, e, inc) = h pss refl in
    subst (λ l. Meets n (some l) (nonempty_of (within_doc n l))) (sym e) (nonempty-Meets n p ps inc)

find_all-cons :
    (d : ℕ) (l : List DocPosting) (ls : List (List DocPosting)) (pss : List (List ℕ))
    → find_all d (l ∷ ls) ≡ some pss
    → (p : List ℕ) × (ps : List (List ℕ)) × (pss ≡ p ∷ ps)
find_all-cons d l ls pss e = elim (Option-cases (find d l)) [
  | inl gone ↦ let no_list : none ≡ some pss = rw gone at e in cc
  | inr (xs, here) ↦ elim (Option-cases (find_all d ls)) [
    | inl gone ↦ let no_list : none ≡ some pss = rw (here, gone) at e in cc
    | inr (yss, there) ↦
        let hit : some (xs ∷ yss) ≡ some pss = rw (here, there) at e in (xs, yss, sym (some_eq hit))
  ]
]

-- Evaluating NEAR/n over initialized arguments whose positions increase never raises and ends, and
-- builds a valid list. It holds no document that some argument lacks; of any other document it
-- holds the ends of occurrences of the terms in it, in increasing order and at least one, or it
-- lacks the document, and then the terms do not occur in it.
pub evaluate-Meets :
    (n : ℕ) (field : String) (c : Cursor) (cs : List Cursor)
    → IsReady c
    → All IsReady cs
    → All HasIncreasing (rests (c ∷ cs))
    → (inv : InvList) × (evaluate n field (c ∷ cs) ≡ some inv)
      × IsValid inv
      × ((d : ℕ) → Meets n (find_all d (rests (c ∷ cs))) (find d inv.postings))
unfolding evaluate
evaluate-Meets n field c cs r rs inc =
    let order = join-IsOrdered (rest c) (rests cs) inc.0 inc.1 in
    let (inv, runs, v, same) =
      evaluate_loop-Evaluates n (fuel_for c) c cs (empty field) r rs
        (omega (arith, length-join-le (rest c) (rests cs), length-drop c.doc_index c.inv.postings))
        order (empty-IsValid field) (Before-nil (join_of (c ∷ cs))) in
    (
      inv,
      runs,
      v,
      λ d.
          subst (Meets n (find_all d (rests (c ∷ cs))))
            (sym
              (ap (find d) same ∙ find-near_postings n d (rest c) (rests cs) (rest-Ascending c r)))
            (result_at-Meets n (find_all d (rests (c ∷ cs))) λ pss e.
              let (p, ps, e') = find_all-cons d (rest c) (rests cs) pss e in
              (
                p,
                ps,
                e',
                subst (All Increasing) e' (find_all-Increasing d (rests (c ∷ cs)) pss inc e),
              )),
    )
