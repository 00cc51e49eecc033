-- ===== src/Syn/Union.antt =====
-- The posting that SYN makes for its smallest document.
use qry_eval_plus.Prelude.{
  All, All-map, Bool-cases, In, List, [], ap, arith, inl, inr, leb, length, none, refl, some,
  some_eq, subst, suc, sym, ℕ, ◌++◌, ◌<◌, ◌==◌, ◌↔◌, ◌∙◌, ◌∷◌, ◌≡◌, ◌≢◌, ◌≤◌, ◌⊎◌,
}
use qry_eval_plus.InvList.{DocPosting}
use qry_eval_plus.InvList.Order.{Increasing, Ascending}
use qry_eval_plus.Cursor.{Cursor}
use qry_eval_plus.Cursor.Advance.{
  rest, IsReady, drop_while, View, view, rest-Ascending, advance_past-drop_while,
}
use qry_eval_plus.MatchAll.Join.{find, From, find_below, head-From}
use qry_eval_plus.Syn.{gather, sorted_set, collect}
use qry_eval_plus.Syn.SortedSet.{sorted_set-Increasing}

-- Some argument has the position in the document.
abbrev pub Located : ℕ → ℕ → List Cursor → Type 0
Located d x [] = ⊥
Located d x (c ∷ cs) = ((ps : List ℕ) × (find d (rest c) ≡ some ps) × In x ps) ⊎ Located d x cs

-- An argument after the round: only later documents are left, all that it had, and fewer if it had
-- the document.
abbrev pub Past : ℕ → Cursor → Cursor → Type 0
Past d c c' =
    IsReady c'
    × From (suc d) (rest c')
    × ((e : ℕ) → e ≢ d → find e (rest c') ≡ find e (rest c))
    × (length (rest c') ≤ length (rest c))
    × (find d (rest c) ≢ none → length (rest c') < length (rest c))

abbrev pub AllPast : ℕ → List Cursor → List Cursor → Type 0
AllPast d [] [] = Unit
AllPast d (c ∷ cs) (c' ∷ cs') = Past d c c' × AllPast d cs cs'
AllPast d _ _ = ⊥

find-past :
    (d : ℕ) (p : DocPosting) (ps : List DocPosting)
    → Ascending (p ∷ ps)
    → p.docid ≡ d
    → (drop_while (λ q. leb q.docid d) (p ∷ ps) ≡ ps)
      × From (suc d) ps
      × ((e : ℕ) → e ≢ d → find e ps ≡ find e (p ∷ ps))
find-past d p ps a same =
    let left : drop_while (λ q. leb q.docid d) (p ∷ ps) ≡ ps = ground (
      arith,
      stays d ps (All-map (λ q. p.docid < q.docid) (λ q. d < q.docid) (λ q l. omega arith) ps a.0),
    ) in
    (
      left,
      All-map (λ q. p.docid < q.docid) (λ q. suc d ≤ q.docid) (λ q l. omega arith) ps a.0,
      other,
    )
  where
    stays :
        (d : ℕ) (qs : List DocPosting)
        → All (λ q. d < q.docid) qs
        → drop_while (λ q. leb q.docid d) qs ≡ qs
    stays d [] h = refl
    stays d (q ∷ qs) h = ground (arith, h.0)

    other : (e : ℕ) → e ≢ d → find e ps ≡ find e (p ∷ ps)
    other e ne = ground arith

all_later :
    (d : ℕ) (p : DocPosting) (ps : List DocPosting)
    → Ascending (p ∷ ps)
    → d < p.docid
    → From (suc d) (p ∷ ps)
all_later d p ps a lt =
    All-map (λ q. p.docid ≤ q.docid) (λ q. suc d ≤ q.docid) (λ q l. omega arith) (p ∷ ps)
      (head-From p ps a)

gather-Past :
    (d : ℕ) (c : Cursor)
    → IsReady c
    → From d (rest c)
    → (xs : List ℕ) × (c' : Cursor) × (gather d c ≡ some (xs, c'))
      × Past d c c'
      × ((x : ℕ) → In x xs ↔ ((ps : List ℕ) × (find d (rest c) ≡ some ps) × In x ps))
gather-Past d c r low = elim (view c r) [
  | View.over done empty ↦
      let lacks : find d (rest c) ≡ none = rw empty in
      (
        [],
        c,
        rw done,
        (
          r,
          subst (From (suc d)) (sym empty) tt,
          (λ e ne. refl),
          omega arith,
          λ h. absurd (h lacks),
        ),
        λ x. ((λ i. absurd i), λ (ps, e, i). let no : none ≡ some ps = sym lacks ∙ e in cc),
      )
  | View.at p ps more here posting split ↦
      let order : Ascending (p ∷ ps) = rw split at (rest-Ascending c r) in
      let low' : From d (p ∷ ps) = rw split at low in
      elim (Bool-cases (p.docid == d)) [
        | inl same ↦
            let e : p.docid ≡ d = ground arith in
            let (c', moves, a) = advance_past-drop_while d c r in
            let (dropped, later, kept) = find-past d p ps order e in
            let left : rest c' ≡ ps =
              a.skipped ∙ ap (drop_while (λ q. leb q.docid d)) split ∙ dropped in
            let shorter : length (rest c') < length (rest c) = rw (left, split) (omega arith) in
            let there : find d (rest c) ≡ some p.positions = ap (find d) split ∙ ground arith in
            (
              p.positions,
              c',
              rw (more, here, same, posting, moves),
              (
                a.ready,
                subst (From (suc d)) (sym left) later,
                (λ x ne. ap (find x) left ∙ kept x ne ∙ sym (ap (find x) split)),
                omega (arith, shorter),
                λ h. shorter,
              ),
              λ x. (
                (λ i. (p.positions, there, i)),
                λ (qs, k, i). subst (In x) (sym (some_eq (sym there ∙ k))) i,
              ),
            )
        | inr apart ↦
            let lt : d < p.docid = ground (arith, low'.0) in
            let lacks : find d (rest c) ≡ none =
              ap (find d) split ∙ find_below d p.docid (p ∷ ps) (head-From p ps order) lt in
            (
              [],
              c,
              rw (more, here, apart),
              (
                r,
                subst (From (suc d)) (sym split) (all_later d p ps order lt),
                (λ e ne. refl),
                omega arith,
                λ h. absurd (h lacks),
              ),
              λ x. ((λ i. absurd i), λ (qs, e, i). let no : none ≡ some qs = sym lacks ∙ e in cc),
            )
      ]
]

In-append_iff : (x : ℕ) (xs ys : List ℕ) → In x (xs ++ ys) ↔ (In x xs ⊎ In x ys)
In-append_iff x [] ys = ((λ i. inr i), (λ i. elim i [ inl k ↦ absurd k | inr k ↦ k ]))
In-append_iff x (y ∷ xs) ys =
    let rest = In-append_iff x xs ys in
    (
      (λ i. elim i [
        | inl k ↦ inl (inl k)
        | inr j ↦ elim (rest.0 j) [ inl k ↦ inl (inr k) | inr k ↦ inr k ]
      ]),
      (λ i. elim i [
        | inl (inl k) ↦ inl k
        | inl (inr k) ↦ inr (rest.1 (inl k))
        | inr k ↦ inr (rest.1 (inr k))
      ]),
    )

pub collect-AllPast :
    (d : ℕ) (cs : List Cursor)
    → All IsReady cs
    → All (λ c. From d (rest c)) cs
    → (xs : List ℕ) × (cs' : List Cursor) × (collect d cs ≡ some (xs, cs'))
      × AllPast d cs cs'
      × ((x : ℕ) → In x xs ↔ Located d x cs)
unfolding collect
collect-AllPast d [] r low = ([], [], refl, tt, λ x. ((λ i. i), (λ i. i)))
collect-AllPast d (c ∷ cs) (r, rs) (low, lows) =
    let (xs, c', runs, past, here) = gather-Past d c r low in
    let (ys, cs', runs', pasts, there) = collect-AllPast d cs rs lows in
    (
      xs ++ ys,
      c' ∷ cs',
      rw (runs, runs') refl,
      (past, pasts),
      λ x.
          let both = In-append_iff x xs ys in
          (
            (λ i. elim (both.0 i) [ inl k ↦ inl ((here x).0 k) | inr k ↦ inr ((there x).0 k) ]),
            (λ i. elim i [
              | inl k ↦ both.1 (inl ((here x).1 k))
              | inr k ↦ both.1 (inr ((there x).1 k))
            ]),
          ),
    )

-- For a document that no argument is past, the loop for the locations never raises: as a sorted
-- set they are in increasing order exactly the positions that some argument has in the document;
-- every argument is moved past it, keeps every other document, and has fewer postings left if it held
-- the document.
pub collect-Located :
    (d : ℕ) (cs : List Cursor)
    → All IsReady cs
    → All (λ c. From d (rest c)) cs
    → (xs : List ℕ) × (cs' : List Cursor) × (collect d cs ≡ some (xs, cs'))
      × AllPast d cs cs'
      × Increasing (sorted_set xs)
      × ((x : ℕ) → In x (sorted_set xs) ↔ Located d x cs)
collect-Located d cs r low =
    let (xs, cs', runs, past, members) = collect-AllPast d cs r low in
    let (sorted, same) = sorted_set-Increasing xs in
    (
      xs,
      cs',
      runs,
      past,
      sorted,
      λ x. ((λ i. (members x).0 ((same x).0 i)), (λ i. (same x).1 ((members x).1 i))),
    )
