-- ===== src/Syn/Meaning.antt =====
-- The list that SYN builds.
use qry_eval_plus.Prelude.{
  All, All-append, All-map, List, Option, [], arith, inl, inr, none, order-cases, refl, some, subst,
  suc, sym, zero, ℕ, ◌<◌, ◌∙◌, ◌∷◌, ◌≡◌, ◌≤◌,
}
use Prim.Native.String.{String}
use qry_eval_plus.InvList.{doc_posting, InvList, empty}
use qry_eval_plus.InvList.Order.{
  IsValid, extended, extended-IsValid, append_posting-in_order, empty-IsValid,
}
use qry_eval_plus.Cursor.{Cursor, total_postings}
use qry_eval_plus.Cursor.Advance.{rest, IsReady}
use qry_eval_plus.MatchAll.Join.{find, From}
use qry_eval_plus.Syn.{min_docid, sorted_set, evaluate_loop, evaluate}
use qry_eval_plus.Syn.First.{HasDoc, Smallest, min_docid-Smallest}
use qry_eval_plus.Syn.Union.{collect-Located}
use qry_eval_plus.MatchAll.Left.{
  postings_left, postings_left-le, From-zero, find_above, find-snoc, find-snoc_self,
}
use qry_eval_plus.Syn.Rounds.{
  IsUnion, AllPast-IsReady, AllPast-lt, IsUnion-past, not-HasDoc_below, not-HasDoc_over,
}

-- What the loop adds from the document `k` on.
abbrev Unites : ℕ → ℕ → List Cursor → InvList → Type 0
Unites fuel k cs inv =
    (inv' : InvList) × (evaluate_loop fuel cs inv ≡ some inv')
    × IsValid inv'
    × ((e : ℕ) → e < k → find e inv'.postings ≡ find e inv.postings)
    × ((e : ℕ) → k ≤ e → IsUnion e cs (find e inv'.postings))

-- The rounds after the one for the document `d`.
abbrev Continues : ℕ → ℕ → List Cursor → Type 0
Continues fuel d cs =
    (cs' : List Cursor) (inv' : InvList)
    → All IsReady cs'
    → All (λ c. From (suc d) (rest c)) cs'
    → postings_left cs' < postings_left cs
    → IsValid inv'
    → All (λ q. q.docid < suc d) inv'.postings
    → Unites fuel (suc d) cs' inv'

round-Unites :
    (fuel k d : ℕ) (cs : List Cursor) (inv : InvList)
    → All IsReady cs
    → IsValid inv
    → All (λ q. q.docid < k) inv.postings
    → k ≤ d
    → min_docid none cs ≡ some (some d)
    → All (λ c. From d (rest c)) cs
    → HasDoc d cs
    → Continues fuel d cs
    → Unites (suc fuel) k cs inv
unfolding evaluate_loop
round-Unites fuel k d cs inv r v below le runs low has again =
    let (xs, cs', collects, past, order, members) = collect-Located d cs r low in
    let (r', low') = AllPast-IsReady d cs cs' past in
    let below_d : All (λ q. q.docid < d) inv.postings =
      All-map (λ q. q.docid < k) (λ q. q.docid < d) (λ q l. omega arith) inv.postings below in
    let ys = sorted_set xs in
    let (inv'', ends, v'', before, after) =
      again cs' (extended inv d ys) r' low' (AllPast-lt d cs cs' past has)
        (extended-IsValid inv d ys v below_d)
        (All-append _ inv.postings (doc_posting d ys ∷ [])
          (All-map (λ q. q.docid < k) (λ q. q.docid < suc d) (λ q l. omega arith) inv.postings
            below)
          (omega arith, tt)) in
    (
      inv'',
      rw (runs, collects, append_posting-in_order inv d ys v below_d) ends,
      v'',
      (λ e l. before e (omega arith) ∙ find-snoc e d ys inv.postings (λ f. omega arith)),
      λ e l. elim (order-cases e d) [
        | inl lt ↦
            let absent : find e inv''.postings ≡ none =
              before e (omega arith)
              ∙ find-snoc e d ys inv.postings (λ f. omega arith)
              ∙ find_above e k inv.postings below l in
            subst (IsUnion e cs) (sym absent) (not-HasDoc_below d e cs low lt)
        | inr (inl same) ↦
            let there : find d inv''.postings ≡ some ys =
              before d (omega arith) ∙ find-snoc_self d ys inv.postings below_d in
            subst (λ x. IsUnion x cs (find x inv''.postings)) (sym same)
              (subst (IsUnion d cs) (sym there) (has, order, members))
        | inr (inr gt) ↦
            IsUnion-past d e cs cs' (find e inv''.postings) past (λ f. omega arith)
              (after e (omega arith))
      ],
    )

HasDoc-le : (k d : ℕ) (cs : List Cursor) → All (λ c. From k (rest c)) cs → HasDoc d cs → k ≤ d
HasDoc-le k d cs h i = elim (order-cases d k) [
  | inl lt ↦ absurd (not-HasDoc_below k d cs h lt i)
  | inr (inl same) ↦ omega arith
  | inr (inr gt) ↦ omega arith
]

Smallest-Unites :
    (fuel k : ℕ) (cs : List Cursor) (inv : InvList) (m : Option ℕ)
    → All IsReady cs
    → All (λ c. From k (rest c)) cs
    → IsValid inv
    → All (λ q. q.docid < k) inv.postings
    → min_docid none cs ≡ some m
    → Smallest none cs m
    → ((d : ℕ) → Continues fuel d cs)
    → Unites (suc fuel) k cs inv
unfolding evaluate_loop
Smallest-Unites fuel k cs inv none r low v below runs (_, over) again = (
  inv,
  rw runs refl,
  v,
  (λ e l. refl),
  λ e l.
      subst (IsUnion e cs) (sym (find_above e k inv.postings below l)) (not-HasDoc_over e cs over),
)
Smallest-Unites fuel k cs inv (some d) r low v below runs (least, low_d, inl clash) again = cc
Smallest-Unites fuel k cs inv (some d) r low v below runs (least, low_d, inr has) again =
    round-Unites fuel k d cs inv r v below (HasDoc-le k d cs low has) runs low_d has (again d)

evaluate_loop-Unites :
    (fuel k : ℕ) (cs : List Cursor) (inv : InvList)
    → All IsReady cs
    → All (λ c. From k (rest c)) cs
    → postings_left cs < fuel
    → IsValid inv
    → All (λ q. q.docid < k) inv.postings
    → Unites fuel k cs inv
evaluate_loop-Unites zero k cs inv r low h v below = absurd (omega arith)
evaluate_loop-Unites (suc fuel) k cs inv r low h v below =
    let (m, runs, seen) = min_docid-Smallest cs r in
    Smallest-Unites fuel k cs inv m r low v below runs seen λ d cs' inv' r' low' fewer v' below'.
      evaluate_loop-Unites fuel (suc d) cs' inv' r' low' (omega arith) v' below'

-- Evaluating SYN over initialized arguments never raises and ends, and builds a valid list. It holds
-- exactly the documents that some argument holds, each with the positions that some argument has in
-- it, in increasing order.
pub evaluate-IsUnion :
    (field : String) (cs : List Cursor)
    → All IsReady cs
    → (inv : InvList) × (evaluate field cs ≡ some inv)
      × IsValid inv
      × ((d : ℕ) → IsUnion d cs (find d inv.postings))
unfolding evaluate
evaluate-IsUnion field [] r = (empty field, refl, empty-IsValid field, λ d i. i)
evaluate-IsUnion field (c ∷ cs) r =
    let (inv, runs, v, before, after) =
      evaluate_loop-Unites (suc (total_postings (c ∷ cs))) 0 (c ∷ cs) (empty field) r
        (From-zero (c ∷ cs)) (omega (arith, postings_left-le (c ∷ cs))) (empty-IsValid field) tt in
    (inv, runs, v, λ d. after d (omega arith))
