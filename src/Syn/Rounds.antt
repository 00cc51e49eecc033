-- ===== src/Syn/Rounds.antt =====
-- What a round of SYN leaves of its arguments, and what the list then says of a document.
use qry_eval_plus.Prelude.{
  All, In, List, Option, [], ap, arith, inl, inr, none, some, suc, sym, ℕ, ◌<◌, ◌↔◌, ◌∙◌, ◌∷◌, ◌≡◌,
  ◌≢◌, ◌≤◌,
}
use qry_eval_plus.InvList.Order.{Increasing}
use qry_eval_plus.Cursor.{Cursor}
use qry_eval_plus.Cursor.Advance.{rest, IsReady}
use qry_eval_plus.MatchAll.Join.{find, From, find_below}
use qry_eval_plus.MatchAll.Left.{postings_left}
use qry_eval_plus.Syn.First.{HasDoc}
use qry_eval_plus.Syn.Union.{Located, AllPast}

-- What the list says of a document: it is there if an argument has it, with the positions that some
-- argument has in it, in increasing order.
abbrev pub IsUnion : ℕ → List Cursor → Option (List ℕ) → Type 0
IsUnion d cs none = ¬ HasDoc d cs
IsUnion d cs (some xs) = HasDoc d cs × Increasing xs × ((x : ℕ) → In x xs ↔ Located d x cs)

-- What a round leaves of the arguments.
pub AllPast-IsReady :
    (d : ℕ) (cs cs' : List Cursor)
    → AllPast d cs cs'
    → All IsReady cs' × All (λ c. From (suc d) (rest c)) cs'
AllPast-IsReady d [] [] h = (tt, tt)
AllPast-IsReady d [] (c' ∷ cs') h = elim h [ ]
AllPast-IsReady d (c ∷ cs) [] h = elim h [ ]
AllPast-IsReady d (c ∷ cs) (c' ∷ cs') (p, ps) =
    let (r, l) = AllPast-IsReady d cs cs' ps in ((p.0, r), (p.1, l))

AllPast-le :
    (d : ℕ) (cs cs' : List Cursor) → AllPast d cs cs' → postings_left cs' ≤ postings_left cs
AllPast-le d [] [] h = omega arith
AllPast-le d [] (c' ∷ cs') h = elim h [ ]
AllPast-le d (c ∷ cs) [] h = elim h [ ]
AllPast-le d (c ∷ cs) (c' ∷ cs') (p, ps) = let le = p.3 in omega (arith, AllPast-le d cs cs' ps)

pub AllPast-lt :
    (d : ℕ) (cs cs' : List Cursor)
    → AllPast d cs cs'
    → HasDoc d cs
    → postings_left cs' < postings_left cs
AllPast-lt d [] [] h i = absurd i
AllPast-lt d [] (c' ∷ cs') h i = elim h [ ]
AllPast-lt d (c ∷ cs) [] h i = elim h [ ]
AllPast-lt d (c ∷ cs) (c' ∷ cs') (p, ps) (inl (xs, e)) =
    let lt = p.4 (λ n. let clash : none ≡ some xs = sym n ∙ e in cc) in
    omega (arith, AllPast-le d cs cs' ps)
AllPast-lt d (c ∷ cs) (c' ∷ cs') (p, ps) (inr i) =
    let le = p.3 in omega (arith, AllPast-lt d cs cs' ps i)

AllPast-HasDoc :
    (d e : ℕ) (cs cs' : List Cursor) → AllPast d cs cs' → e ≢ d → HasDoc e cs' ↔ HasDoc e cs
AllPast-HasDoc d e [] [] h ne = ((λ i. i), (λ i. i))
AllPast-HasDoc d e [] (c' ∷ cs') h ne = elim h [ ]
AllPast-HasDoc d e (c ∷ cs) [] h ne = elim h [ ]
AllPast-HasDoc d e (c ∷ cs) (c' ∷ cs') (p, ps) ne =
    let rest_same = AllPast-HasDoc d e cs cs' ps ne in
    let same = p.2 e ne in
    (
      (λ i. elim i [ inl (xs, f) ↦ inl (xs, sym same ∙ f) | inr j ↦ inr (rest_same.0 j) ]),
      (λ i. elim i [ inl (xs, f) ↦ inl (xs, same ∙ f) | inr j ↦ inr (rest_same.1 j) ]),
    )

AllPast-Located :
    (d e x : ℕ) (cs cs' : List Cursor) → AllPast d cs cs' → e ≢ d → Located e x cs' ↔ Located e x cs
AllPast-Located d e x [] [] h ne = ((λ i. i), (λ i. i))
AllPast-Located d e x [] (c' ∷ cs') h ne = elim h [ ]
AllPast-Located d e x (c ∷ cs) [] h ne = elim h [ ]
AllPast-Located d e x (c ∷ cs) (c' ∷ cs') (p, ps) ne =
    let rest_same = AllPast-Located d e x cs cs' ps ne in
    let same = p.2 e ne in
    (
      (λ i. elim i [ inl (xs, f, m) ↦ inl (xs, sym same ∙ f, m) | inr j ↦ inr (rest_same.0 j) ]),
      (λ i. elim i [ inl (xs, f, m) ↦ inl (xs, same ∙ f, m) | inr j ↦ inr (rest_same.1 j) ]),
    )

pub IsUnion-past :
    (d e : ℕ) (cs cs' : List Cursor) (o : Option (List ℕ))
    → AllPast d cs cs'
    → e ≢ d
    → IsUnion e cs' o
    → IsUnion e cs o
IsUnion-past d e cs cs' none past ne u = λ i. u ((AllPast-HasDoc d e cs cs' past ne).1 i)
IsUnion-past d e cs cs' (some xs) past ne (has, order, same) = (
  (AllPast-HasDoc d e cs cs' past ne).0 has,
  order,
  λ x.
      let moved = AllPast-Located d e x cs cs' past ne in
      ((λ i. moved.0 ((same x).0 i)), (λ i. (same x).1 (moved.1 i))),
)

-- Before the first postings there is no document.
pub not-HasDoc_below :
    (d e : ℕ) (cs : List Cursor) → All (λ c. From d (rest c)) cs → e < d → ¬ HasDoc e cs
not-HasDoc_below d e [] h l i = i
not-HasDoc_below d e (c ∷ cs) h l (inl (xs, f)) =
    let clash : none ≡ some xs = sym (find_below e d (rest c) h.0 l) ∙ f in cc
not-HasDoc_below d e (c ∷ cs) h l (inr i) = not-HasDoc_below d e cs h.1 l i

pub not-HasDoc_over : (e : ℕ) (cs : List Cursor) → All (λ c. rest c ≡ []) cs → ¬ HasDoc e cs
not-HasDoc_over e [] h i = i
not-HasDoc_over e (c ∷ cs) h (inl (xs, f)) =
    let clash : none ≡ some xs = sym (ap (find e) h.0) ∙ f in cc
not-HasDoc_over e (c ∷ cs) h (inr i) = not-HasDoc_over e cs h.1 i
