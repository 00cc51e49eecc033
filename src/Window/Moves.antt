-- ===== src/Window/Moves.antt =====
-- What moving the arguments of WINDOW on leaves of them.
use qry_eval_plus.Prelude.{
  All, Bool-cases, List, [], ap, arith, false, inl, inr, leb, length, ltb, refl, some, subst, suc,
  sym, true, ℕ, ◌<◌, ◌∙◌, ◌∷◌, ◌≡◌, ◌≤◌,
}
use qry_eval_plus.InvList.{DocPosting}
use qry_eval_plus.Cursor.{Cursor, advance_to, advance_past}
use qry_eval_plus.Cursor.Advance.{
  rest, IsReady, drop_while, rest-Ascending, advance_to-drop_while, advance_past-drop_while,
}
use qry_eval_plus.MatchAll.Join.{find, find_all, From, find-drop_while, drop_while-From}
use qry_eval_plus.MatchAll.Scan.{rests}
use qry_eval_plus.MatchAll.Left.{postings_left}

-- Moved to the documents from `m` on: those are kept, and only those are left.
pub record Kept (m : ℕ) (c c' : Cursor) : Type 0 where
  pub ready : IsReady c'
  pub from : From m (rest c')
  pub agree : (x : ℕ) → m ≤ x → find x (rest c') ≡ find x (rest c)
  pub no_more : length (rest c') ≤ length (rest c)

-- The document that a cursor points to.
abbrev pub PointsTo : ℕ → Cursor → Type 0
PointsTo d c = (p : DocPosting) × (ps : List DocPosting) × (rest c ≡ p ∷ ps) × (p.docid ≡ d)

-- It has left a posting for it.
abbrev pub Shrinks : ℕ → Cursor → Cursor → Type 0
Shrinks m c c' = (d : ℕ) → PointsTo d c → d < m → length (rest c') < length (rest c)

length-drop_while :
    (m : ℕ) (ps : List DocPosting) → length (drop_while (λ p. ltb p.docid m) ps) ≤ length ps
length-drop_while m [] = omega arith
length-drop_while m (p ∷ ps) = ground (arith, length-drop_while m ps)

length-drop_while_lt :
    (m : ℕ) (p : DocPosting) (ps : List DocPosting)
    → p.docid < m
    → length (drop_while (λ q. ltb q.docid m) (p ∷ ps)) < length (p ∷ ps)
length-drop_while_lt m p ps h = ground (arith, length-drop_while m ps)

drop_while-past :
    (d : ℕ) (ps : List DocPosting)
    → drop_while (λ p. leb p.docid d) ps ≡ drop_while (λ p. ltb p.docid (suc d)) ps
drop_while-past d [] = refl
drop_while-past d (p ∷ ps) = elim (Bool-cases (leb p.docid d)) [
  | inl le ↦
      let lt : ltb p.docid (suc d) ≡ true = ground arith in rw (le, lt) (drop_while-past d ps)
  | inr gt ↦ let ge : ltb p.docid (suc d) ≡ false = ground arith in rw (gt, ge) refl
]

dropped-Kept :
    (m : ℕ) (c c' : Cursor)
    → IsReady c
    → IsReady c'
    → rest c' ≡ drop_while (λ p. ltb p.docid m) (rest c)
    → Kept m c c' × Shrinks m c c'
dropped-Kept m c c' r r' e = (
  record {
    ready = r';
    from = subst (From m) (sym e) (drop_while-From m (rest c) (rest-Ascending c r));
    agree = λ x le. ap (find x) e ∙ find-drop_while x m (rest c) le;
    no_more = omega (arith, ap length e, length-drop_while m (rest c));
  },
  λ d (p, ps, split, same) lt.
      let fewer = length-drop_while_lt m p ps (omega (arith, same, lt)) in
      let moved = ap length (e ∙ ap (drop_while (λ q. ltb q.docid m)) split) in
      omega (arith, fewer, moved, ap length split),
)

pub advance_to-Kept :
    (m : ℕ) (c : Cursor)
    → IsReady c
    → (c' : Cursor) × (advance_to m c ≡ some c') × Kept m c c' × Shrinks m c c'
advance_to-Kept m c r =
    let (c', runs, a) = advance_to-drop_while m c r in
    let (kept, shrinks) = dropped-Kept m c c' r a.ready a.skipped in (c', runs, kept, shrinks)

pub advance_past-Kept :
    (d : ℕ) (c : Cursor)
    → IsReady c
    → (c' : Cursor) × (advance_past d c ≡ some c') × Kept (suc d) c c' × Shrinks (suc d) c c'
advance_past-Kept d c r =
    let (c', runs, a) = advance_past-drop_while d c r in
    let (kept, shrinks) =
      dropped-Kept (suc d) c c' r a.ready (a.skipped ∙ drop_while-past d (rest c)) in
    (c', runs, kept, shrinks)

pub data AllKept (m : ℕ) : List Cursor → List Cursor → Type 0 where
  done : AllKept m [] []
  more :
      {c c' : Cursor} {cs cs' : List Cursor}
      → Kept m c c'
      → AllKept m cs cs'
      → AllKept m (c ∷ cs) (c' ∷ cs')

pub AllKept-IsReady : {m : ℕ} {cs cs' : List Cursor} → AllKept m cs cs' → All IsReady cs'
AllKept-IsReady done = tt
AllKept-IsReady (more k ks) = (k.ready, AllKept-IsReady ks)

pub AllKept-find_all :
    {m : ℕ} {cs cs' : List Cursor}
    → AllKept m cs cs'
    → (x : ℕ) → m ≤ x
    → find_all x (rests cs') ≡ find_all x (rests cs)
AllKept-find_all done x le = refl
AllKept-find_all (more k ks) x le = rw (k.agree x le, AllKept-find_all ks x le) refl

pub AllKept-le :
    {m : ℕ} {cs cs' : List Cursor} → AllKept m cs cs' → postings_left cs' ≤ postings_left cs
AllKept-le done = omega arith
AllKept-le (more k ks) = let le = k.no_more in omega (arith, AllKept-le ks)
