-- ===== src/Syn/First.antt =====
-- The smallest document of the arguments of SYN.
use qry_eval_plus.Prelude.{
  All, All-map, Bool-cases, List, Option, [], ap, arith, inl, inr, ltb, ltb→le, ltb→lt, none, refl,
  some, some_eq, subst, sym, ℕ, ◌∙◌, ◌∷◌, ◌≡◌, ◌≤◌, ◌⊎◌,
}
use qry_eval_plus.InvList.{DocPosting}
use qry_eval_plus.InvList.Order.{Ascending}
use qry_eval_plus.Cursor.{Cursor}
use qry_eval_plus.Cursor.Advance.{rest, IsReady, View, view, rest-Ascending}
use qry_eval_plus.MatchAll.Join.{find, From, head-From}
use qry_eval_plus.Syn.{earlier, min_docid}

-- The smallest document that the arguments point to, or the one seen before.
abbrev pub HasDoc : ℕ → List Cursor → Type 0
HasDoc d [] = ⊥
HasDoc d (c ∷ cs) = ((ps : List ℕ) × (find d (rest c) ≡ some ps)) ⊎ HasDoc d cs

abbrev pub Smallest : Option ℕ → List Cursor → Option ℕ → Type 0
Smallest best cs none = (best ≡ none) × All (λ c. rest c ≡ []) cs
Smallest best cs (some d) =
    ((e : ℕ) → best ≡ some e → d ≤ e)
    × All (λ c. From d (rest c)) cs
    × ((best ≡ some d) ⊎ HasDoc d cs)

earlier-cases :
    (best : Option ℕ) (d : ℕ)
    → ((some (earlier best d) ≡ best) ⊎ (earlier best d ≡ d))
      × (earlier best d ≤ d)
      × ((e : ℕ) → best ≡ some e → earlier best d ≤ e)
earlier-cases none d = (inr refl, omega arith, λ e h. cc)
earlier-cases (some b) d = elim (Bool-cases (ltb d b)) [
  | inl lt ↦ rw lt (inr refl, omega arith, λ e h. omega (arith, some_eq h, ltb→lt d b lt))
  | inr ge ↦ rw ge (inl refl, ltb→le d b ge, λ e h. omega (arith, some_eq h))
]

From-le : (d e : ℕ) (ps : List DocPosting) → d ≤ e → From e ps → From d ps
From-le d e ps le h = All-map (λ p. e ≤ p.docid) (λ p. d ≤ p.docid) (λ p l. omega arith) ps h

min_docid-seen :
    (best : Option ℕ) (cs : List Cursor)
    → All IsReady cs
    → (m : Option ℕ) × (min_docid best cs ≡ some m) × Smallest best cs m
unfolding min_docid
min_docid-seen none [] r = (none, refl, (refl, tt))
min_docid-seen (some b) [] r = (some b, refl, ((λ e h. omega (arith, some_eq h)), tt, inl refl))
min_docid-seen best (c ∷ cs) (r, rs) = elim (view c r) [
  | View.over done empty ↦
      let (m, runs, s) = min_docid-seen best cs rs in (m, rw done runs, skipped best c cs m empty s)
  | View.at p ps more here posting split ↦
      let best' = some (earlier best p.docid) in
      let (m, runs, s) = min_docid-seen best' cs rs in
      let order : Ascending (p ∷ ps) = rw split at (rest-Ascending c r) in
      (m, rw (more, here) runs, taken best c cs p ps m order split s)
]
  where
    skipped :
        (best : Option ℕ) (c : Cursor) (cs : List Cursor) (m : Option ℕ)
        → rest c ≡ []
        → Smallest best cs m
        → Smallest best (c ∷ cs) m
    skipped best c cs none empty (e, h) = (e, (empty, h))
    skipped best c cs (some d) empty (low, h, w) =
        (low, (subst (From d) (sym empty) tt, h), elim w [ inl k ↦ inl k | inr k ↦ inr (inr k) ])

    taken :
        (best : Option ℕ) (c : Cursor) (cs : List Cursor) (p : DocPosting) (ps : List DocPosting)
        (m : Option ℕ)
        → Ascending (p ∷ ps)
        → rest c ≡ p ∷ ps
        → Smallest (some (earlier best p.docid)) cs m
        → Smallest best (c ∷ cs) m
    taken best c cs p ps none order split (e, h) = cc
    taken best c cs p ps (some d) order split (low, h, w) =
        let (kind, le, le') = earlier-cases best p.docid in
        let under = low (earlier best p.docid) refl in
        let from : From d (p ∷ ps) =
          From-le d p.docid (p ∷ ps) (omega arith) (head-From p ps order) in
        (
          (λ e k. let l = le' e k in omega arith),
          (subst (From d) (sym split) from, h),
          elim w [
            | inr k ↦ inr (inr k)
            | inl k ↦ elim kind [
              | inl same ↦ inl (sym same ∙ k)
              | inr same ↦
                  let e : p.docid ≡ d = sym same ∙ some_eq k in
                  inr (inl (p.positions, ap (find d) split ∙ found d e))
            ]
          ],
        )
      where
        found : (d : ℕ) → p.docid ≡ d → find d (p ∷ ps) ≡ some p.positions
        found d e = ground arith

-- On ready arguments the loop for the smallest document never raises. It finds none only if all
-- arguments are exhausted; a document that it finds is one that an argument still has, and no
-- argument has an earlier one.
pub min_docid-Smallest :
    (cs : List Cursor)
    → All IsReady cs
    → (m : Option ℕ) × (min_docid none cs ≡ some m) × Smallest none cs m
min_docid-Smallest cs r = min_docid-seen none cs r
