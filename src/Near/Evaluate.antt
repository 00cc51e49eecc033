-- ===== src/Near/Evaluate.antt =====
-- The loop of NEAR/n over the documents common to all arguments.
use qry_eval_plus.Prelude.{
  All, All-append, List, Option, Option-cases, [], ap, arith, inl, inr, leb, length, length-drop,
  refl, some, subst, suc, sym, zero, ℕ, ◌++◌, ◌<◌, ◌∙◌, ◌∷◌, ◌≡◌, ◌≤◌,
}
use mathlib.Core.List.{append_assoc, append-nil}
use qry_eval_plus.InvList.{DocPosting, doc_posting, InvList}
use qry_eval_plus.InvList.Order.{
  Increasing, Ascending, IsValid, extended, extended-IsValid, append_posting-in_order,
}
use qry_eval_plus.Cursor.{Cursor}
use qry_eval_plus.Cursor.Advance.{
  rest, IsReady, drop_while, rest-Ascending, advance_past-drop_while,
}
use qry_eval_plus.MatchAll.{has_match_all}
use qry_eval_plus.MatchAll.Join.{find_all}
use qry_eval_plus.MatchAll.Scan.{rests}
use qry_eval_plus.MatchAll.Loop.{join, join_of, Found, nothing, first, has_match_all-Found}
use qry_eval_plus.Near.{within_doc, store, evaluate_loop, fuel_for}
use qry_eval_plus.Near.Matches.{within_doc-Occurs}

-- The reference: the matches in each common document, where there are any.
abbrev pub posting_if : ℕ → Option (List ℕ) → List DocPosting
posting_if d (some (x ∷ xs)) = doc_posting d (x ∷ xs) ∷ []
posting_if d _ = []

abbrev pub near_postings : ℕ → List (ℕ × List (List ℕ)) → List DocPosting
near_postings n [] = []
near_postings n ((d, pss) ∷ js) = posting_if d (within_doc n pss) ++ near_postings n js

-- Every entry has increasing positions, of one argument at least.
abbrev pub IsOrdered : ℕ × List (List ℕ) → Type 0
IsOrdered (d, []) = ⊥
IsOrdered (d, p ∷ ps) = All Increasing (p ∷ ps)

-- The documents stored so far stand before the ones to come.
abbrev pub Before : List DocPosting → List (ℕ × List (List ℕ)) → Type 0
Before qs js = All (λ e. All (λ q. q.docid < e.0) qs) js

pub Before-nil : (js : List (ℕ × List (List ℕ))) → Before [] js
Before-nil [] = tt
Before-nil (j ∷ js) = (tt, Before-nil js)

join-above :
    (d : ℕ) (ps : List DocPosting) (ls : List (List DocPosting))
    → All (λ p. d < p.docid) ps
    → All (λ e. d < e.0) (join ps ls)
join-above d [] ls h = tt
join-above d (p ∷ ps) ls h = elim (Option-cases (find_all p.docid ls)) [
  | inl e ↦ rw (e, join) (join-above d ps ls h.1)
  | inr (pss, e) ↦ rw (e, join) (h.0, join-above d ps ls h.1)
]

pub length-join-le :
    (ps : List DocPosting) (ls : List (List DocPosting)) → length (join ps ls) ≤ length ps
length-join-le [] ls = omega arith
length-join-le (p ∷ ps) ls = ground (arith, length-join-le ps ls)

Before-snoc :
    (qs : List DocPosting) (q : DocPosting) (js : List (ℕ × List (List ℕ)))
    → Before qs js
    → All (λ e. q.docid < e.0) js
    → Before (qs ++ q ∷ []) js
Before-snoc qs q [] b h = tt
Before-snoc qs q (j ∷ js) b h =
    (All-append _ qs (q ∷ []) b.0 (h.0, tt), Before-snoc qs q js b.1 h.1)

drop_while-past :
    (d : ℕ) (ps : List DocPosting)
    → All (λ p. d < p.docid) ps
    → drop_while (λ p. leb p.docid d) ps ≡ ps
drop_while-past d [] h = refl
drop_while-past d (p ∷ ps) h = ground (arith, h.0)

drop_while-head :
    (p : DocPosting) (ps : List DocPosting)
    → All (λ q. p.docid < q.docid) ps
    → drop_while (λ q. leb q.docid p.docid) (p ∷ ps) ≡ ps
drop_while-head p ps h = ground (arith, drop_while-past p.docid ps h)

-- What storing one document does.
pub store-posting_if :
    (d : ℕ) (matches : List ℕ) (inv : InvList)
    → IsValid inv
    → All (λ q. q.docid < d) inv.postings
    → (inv' : InvList) × (store d matches inv ≡ some inv')
      × IsValid inv'
      × (inv'.postings ≡ inv.postings ++ posting_if d (some matches))
unfolding store
store-posting_if d [] inv v h = (inv, refl, v, sym (append-nil inv.postings))
store-posting_if d (x ∷ xs) inv v h = (
  extended inv d (x ∷ xs),
  rw (append_posting-in_order inv d (x ∷ xs) v h) (ground arith),
  extended-IsValid inv d (x ∷ xs) v h,
  refl,
)

Before-tail :
    (qs : List DocPosting) (j : ℕ × List (List ℕ)) (js : List (ℕ × List (List ℕ)))
    → Before qs (j ∷ js)
    → Before qs js
Before-tail qs j js b = b.1

Before-posting_if :
    (qs : List DocPosting) (d : ℕ) (matches : List ℕ) (js : List (ℕ × List (List ℕ)))
    → Before qs js
    → All (λ e. d < e.0) js
    → Before (qs ++ posting_if d (some matches)) js
Before-posting_if qs d [] js b h = rw append-nil b
Before-posting_if qs d (x ∷ xs) js b h = Before-snoc qs (doc_posting d (x ∷ xs)) js b h

abbrev pub Evaluates : ℕ → ℕ → List Cursor → InvList → Type 0
Evaluates n fuel cs inv =
    (inv' : InvList) × (evaluate_loop n fuel cs inv ≡ some inv')
    × IsValid inv'
    × (inv'.postings ≡ inv.postings ++ near_postings n (join_of cs))

total_postings :
    (n : ℕ) (out out' final : List DocPosting) (d : ℕ) (pss : List (List ℕ)) (matches : List ℕ)
    (js all : List (ℕ × List (List ℕ)))
    → within_doc n pss ≡ some matches
    → out' ≡ out ++ posting_if d (some matches)
    → final ≡ out' ++ near_postings n js
    → all ≡ (d, pss) ∷ js
    → final ≡ out ++ near_postings n all
total_postings n out out' final d pss matches js all found same total e =
    total
    ∙ ap (λ l. l ++ near_postings n js) same
    ∙ append_assoc out (posting_if d (some matches)) (near_postings n js)
    ∙ ap (λ o. out ++ (posting_if d o ++ near_postings n js)) (sym found)
    ∙ ap (λ l. out ++ near_postings n l) (sym e)

round-Evaluates :
    (n fuel : ℕ) (c : Cursor) (cs : List Cursor) (inv : InvList)
    → length (join_of (c ∷ cs)) < suc fuel
    → All IsOrdered (join_of (c ∷ cs))
    → IsValid inv
    → Before inv.postings (join_of (c ∷ cs))
    → ((c' : Cursor) (cs' : List Cursor) (inv' : InvList)
        → IsReady c'
        → All IsReady cs'
        → length (join_of (c' ∷ cs')) < fuel
        → All IsOrdered (join_of (c' ∷ cs'))
        → IsValid inv'
        → Before inv'.postings (join_of (c' ∷ cs'))
        → Evaluates n fuel (c' ∷ cs') inv')
    → (args : List Cursor) (m : Option ℕ) → has_match_all (fuel_for c) (c ∷ cs) ≡ some (args, m)
    → Found (c ∷ cs) args m
    → Evaluates n (suc fuel) (c ∷ cs) inv
unfolding evaluate_loop
round-Evaluates n fuel c cs inv h ord v b again args m runs (nothing e nil) =
    (inv, rw (runs, e), v, rw (nil, append-nil))
round-Evaluates n fuel c cs inv h ord v b again args m runs
      (first c_0 others p ps pss e r split here e' lists js) =
    let asc : Ascending (p ∷ ps) = rw split at (rest-Ascending c_0 r.0) in
    let ord' : All IsOrdered ((p.docid, p.positions ∷ pss) ∷ join ps (rests others)) =
      subst (All IsOrdered) js ord in
    let b' : Before inv.postings ((p.docid, p.positions ∷ pss) ∷ join ps (rests others)) =
      subst (Before inv.postings) js b in
    let (matches, found, _, _, _) = within_doc-Occurs n p.positions pss ord'.0 in
    let (inv', stores, v', same) = store-posting_if p.docid matches inv v b'.0 in
    let (c_1, moves, a) = advance_past-drop_while p.docid c_0 r.0 in
    let left : rest c_1 ≡ ps =
      a.skipped ∙ ap (drop_while (λ q. leb q.docid p.docid)) split ∙ drop_while-head p ps asc.0 in
    let js' : join_of (c_1 ∷ others) ≡ join ps (rests others) =
      ap (λ l. join l (rests others)) left in
    let (inv'', ends, v'', total) =
      again c_1 others inv' a.ready r.1 (omega (arith, ap length js, ap length js'))
        (subst (All IsOrdered) (sym js') ord'.1) v'
        (subst (λ l. Before l (join_of (c_1 ∷ others))) (sym same)
          (subst (Before (inv.postings ++ posting_if p.docid (some matches))) (sym js') (
            Before-posting_if inv.postings p.docid matches (join ps (rests others)) b'.1
              (join-above p.docid ps (rests others) asc.0)))) in
    (
      inv'',
      rw (runs, e', e, here, lists, found, stores, moves) ends,
      v'',
      total_postings n inv.postings inv'.postings inv''.postings p.docid (p.positions ∷ pss) matches
          (join ps (rests others)) (join_of (c ∷ cs)) found same
          (total ∙ ap (λ l. inv'.postings ++ near_postings n l) js') js,
    )

-- The whole loop.
pub evaluate_loop-Evaluates :
    (n fuel : ℕ) (c : Cursor) (cs : List Cursor) (inv : InvList)
    → IsReady c
    → All IsReady cs
    → length (join_of (c ∷ cs)) < fuel
    → All IsOrdered (join_of (c ∷ cs))
    → IsValid inv
    → Before inv.postings (join_of (c ∷ cs))
    → Evaluates n fuel (c ∷ cs) inv
evaluate_loop-Evaluates n zero c cs inv r rs h ord v b = absurd (omega arith)
evaluate_loop-Evaluates n (suc fuel) c cs inv r rs h ord v b =
    let (args, m, runs, found) =
      has_match_all-Found (fuel_for c) c cs r rs
        (omega (arith, length-drop c.doc_index c.inv.postings)) in
    round-Evaluates n fuel c cs inv h ord v b
      (λ c' cs' inv' r' rs' h' ord' v' b'.
        evaluate_loop-Evaluates n fuel c' cs' inv' r' rs' h' ord' v' b')
      args m runs found
