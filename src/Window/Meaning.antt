-- ===== src/Window/Meaning.antt =====
-- The list that WINDOW/n builds.
use qry_eval_plus.Prelude.{
  All, Bool, In, List, [], ap, arith, false, inl, inr, none, refl, some, subst, suc, sym, true,
  zero, ℕ, ◌<◌, ◌∷◌, ◌≡◌, ◌≤◌, ◌⊎◌,
}
use Prim.Native.String.{String}
use qry_eval_plus.InvList.{InvList, empty}
use qry_eval_plus.InvList.Order.{IsValid, empty-IsValid}
use qry_eval_plus.Cursor.{Cursor, total_postings}
use qry_eval_plus.Cursor.Advance.{rest, IsReady, View, view}
use qry_eval_plus.MatchAll.Join.{find, find_all, From, find_all-none, find_all-none_tail}
use qry_eval_plus.MatchAll.Scan.{rests}
use qry_eval_plus.MatchAll.Left.{postings_left, postings_left-le, From-zero}
use qry_eval_plus.Near.Meaning.{HasIncreasing, find_all-Increasing}
use qry_eval_plus.Window.{
  Aligned, aligned, exhausted, after_align, all_have_match, evaluate, evaluate_loop, maximum, round,
  current_docids,
}
use qry_eval_plus.Window.Least.{maximum-All, maximum-In}
use qry_eval_plus.Window.Moves.{AllKept-IsReady, AllKept-le}
use qry_eval_plus.Window.Align.{
  HasPosting, Pointing, Pointing-AtMost, Pointing-below, current_docids-Pointing, Alignment,
  align-Alignment,
}
use qry_eval_plus.Window.Says.{MeetsWindow, Says, Says-raise, Says-nothing, Says-moved}
use qry_eval_plus.Window.Document.{
  Builds, Continues, Ready, AllKept-some_left, AllKept-From, Orderly-moved, raised, goes_on,
  take_document-Builds,
}

module _ (n : ℕ) where
  -- A round.
  after_align-Builds :
      (fuel k m : ℕ) (cs cs' : List Cursor) (inv : InvList) (o : Aligned)
      → Ready k cs inv
      → k ≤ m
      → Alignment m cs cs' o
      → Continues n fuel cs
      → (cs'' : List Cursor) × (inv' : InvList) × (b : Bool) × (after_align n m inv (cs', o)
          ≡ some (cs'', inv', b))
        × (final : InvList) × (goes_on n fuel b cs'' inv' ≡ some final)
        × IsValid final
        × Says n m cs inv final
  unfolding after_align
  after_align-Builds fuel k m cs cs' inv exhausted r le absent again = (
    cs',
    inv,
    false,
    refl,
    inv,
    refl,
    r.valid,
    Says-nothing n m cs inv (raised k m inv.postings le r.below) absent,
  )
  after_align-Builds fuel k m cs cs' inv (aligned false) r le (kept, pointing, agreed, fewer)
        again =
      let (final, ends, v, says) =
        again m cs' inv
          (record {
            ready = AllKept-IsReady kept;
            pointing = pointing;
            some_left = AllKept-some_left kept r.some_left;
            from = AllKept-From kept;
            orderly = Orderly-moved kept le r.orderly;
            valid = r.valid;
            below = raised k m inv.postings le r.below;
          })
          (fewer refl) in
      (
        cs',
        inv,
        true,
        refl,
        final,
        ends,
        v,
        Says-moved n m m cs cs' inv final kept (omega arith) says,
      )
  after_align-Builds fuel k m cs cs' inv (aligned true) r le (kept, pointing, agreed, fewer) again =
      let (cs'', inv', b, runs, final, ends, v, says) =
        take_document-Builds n fuel m cs' inv
          (record {
            ready = AllKept-IsReady kept;
            pointing = pointing;
            some_left = AllKept-some_left kept r.some_left;
            from = AllKept-From kept;
            orderly = Orderly-moved kept le r.orderly;
            valid = r.valid;
            below = raised k m inv.postings le r.below;
          })
          (agreed refl)
          (λ k' ds inv'' r' lt. let le' = AllKept-le kept in again k' ds inv'' r' (omega arith)) in
      (
        cs'',
        inv',
        b,
        runs,
        final,
        ends,
        v,
        Says-moved n m m cs cs' inv final kept (omega arith) says,
      )

  Pointing-From :
      (k m : ℕ) (ds : List ℕ) (cs : List Cursor)
      → Pointing ds cs
      → In m ds
      → All (λ c. From k (rest c)) cs
      → k ≤ m
  Pointing-From k m [] cs at i h = absurd i
  Pointing-From k m (d ∷ ds) [] at i h = elim at [ ]
  Pointing-From k m (d ∷ ds) (c ∷ cs) ((p, ps, split, same), at) (inl e) (h, hs) =
      let low : From k (p ∷ ps) = subst (From k) split h in omega (arith, low.0, same, e)
  Pointing-From k m (d ∷ ds) (c ∷ cs) (at, ats) (inr i) (h, hs) = Pointing-From k m ds cs ats i hs

  round-Builds :
      (fuel k d : ℕ) (ds : List ℕ) (cs : List Cursor) (inv : InvList)
      → Ready k cs inv
      → current_docids cs ≡ some (d ∷ ds)
      → Pointing (d ∷ ds) cs
      → Continues n fuel cs
      → Builds n (suc fuel) k cs inv
  unfolding evaluate_loop round
  round-Builds fuel k d ds cs inv r docs at again =
      let m = maximum d ds in
      let le = Pointing-From k m (d ∷ ds) cs at (maximum-In d ds) r.from in
      let (cs', o, aligns, alignment) =
        align-Alignment m cs r.ready (Pointing-AtMost m (d ∷ ds) cs at (maximum-All d ds)) in
      let (cs'', inv', b, runs, final, ends, v, says) =
        after_align-Builds fuel k m cs cs' inv o r le alignment again in
      (
        final,
        rw (docs, aligns, runs) (ended fuel b cs'' inv' final ends),
        v,
        Says-raise n k m cs inv final le r.below
            (λ x lt. Pointing-below m x (d ∷ ds) cs r.ready at (maximum-In d ds) lt) says,
      )
    where
      ended :
          (fuel : ℕ) (b : Bool) (cs : List Cursor) (inv final : InvList)
          → goes_on n fuel b cs inv ≡ some final
          → elim b [ true ↦ evaluate_loop n fuel cs inv | false ↦ some inv ] ≡ some final
      ended fuel true cs inv final e = e
      ended fuel false cs inv final e = e

  evaluate_loop-Builds :
      (fuel k : ℕ) (cs : List Cursor) (inv : InvList)
      → Ready k cs inv
      → postings_left cs < fuel
      → Builds n fuel k cs inv
  evaluate_loop-Builds zero k cs inv r h = absurd (omega arith)
  evaluate_loop-Builds (suc fuel) k cs inv r h =
      let (ds, docs, at) = current_docids-Pointing cs r.ready r.pointing in
      pointed_round fuel k ds cs inv r docs at
        λ k' cs' inv' r' lt. evaluate_loop-Builds fuel k' cs' inv' r' (omega arith)
    where
      pointed_round :
          (fuel k : ℕ) (ds : List ℕ) (cs : List Cursor) (inv : InvList)
          → Ready k cs inv
          → current_docids cs ≡ some ds
          → Pointing ds cs
          → Continues n fuel cs
          → Builds n (suc fuel) k cs inv
      pointed_round fuel k [] [] inv r docs at again = absurd (r.some_left refl)
      pointed_round fuel k [] (c ∷ cs) inv r docs at again = elim at [ ]
      pointed_round fuel k (d ∷ ds) cs inv r docs at again =
          round-Builds fuel k d ds cs inv r docs at again

all_have_match-cases :
    (cs : List Cursor)
    → All IsReady cs
    → ((all_have_match cs ≡ true) × All HasPosting cs)
      ⊎ ((all_have_match cs ≡ false) × ((x : ℕ) → find_all x (rests cs) ≡ none))
unfolding all_have_match
all_have_match-cases [] r = inl (refl, tt)
all_have_match-cases (c ∷ cs) (r, rs) = elim (view c r) [
  | View.over over empty ↦
      inr (rw over refl, λ x. find_all-none x (rest c) (rests cs) (ap (find x) empty))
  | View.at p ps here at_doc posting split ↦ elim (all_have_match-cases cs rs) [
    | inl (e, h) ↦ inl (rw (here, e) refl, ((p.docid, (p, ps, split, refl)), h))
    | inr (e, h) ↦ inr (rw (here, e) refl, λ x. find_all-none_tail x (rest c) (rests cs) (h x))
  ]
]

-- Evaluating WINDOW/n over initialized arguments whose positions increase never raises and ends, and
-- builds a valid list. It holds no document that some argument lacks; of any other document it holds
-- the ends of windows of the terms in it, in increasing order and at least one, or it lacks the
-- document, and then no interval shorter than n holds a position of each term.
pub evaluate-MeetsWindow :
    (n : ℕ) (field : String) (c : Cursor) (cs : List Cursor)
    → All IsReady (c ∷ cs)
    → All HasIncreasing (rests (c ∷ cs))
    → (inv : InvList) × (evaluate n field (c ∷ cs) ≡ some inv)
      × IsValid inv
      × ((d : ℕ) → MeetsWindow n (find_all d (rests (c ∷ cs))) (find d inv.postings))
unfolding evaluate
evaluate-MeetsWindow n field c cs r inc = elim (all_have_match-cases (c ∷ cs) r) [
  | inr (e, absent) ↦ (
    empty field,
    rw e refl,
    empty-IsValid field,
    λ d. subst (λ o. MeetsWindow n o none) (sym (absent d)) refl,
  )
  | inl (e, pointing) ↦
      let (inv, runs, v, (before, after)) =
        evaluate_loop-Builds n (suc (total_postings (c ∷ cs))) 0 (c ∷ cs) (empty field)
          (record {
            ready = r;
            pointing = pointing;
            some_left = λ clash. cc;
            from = From-zero (c ∷ cs);
            orderly = λ x pss le found. find_all-Increasing x (rests (c ∷ cs)) pss inc found;
            valid = empty-IsValid field;
            below = tt;
          })
          (omega (arith, postings_left-le (c ∷ cs))) in
      (inv, rw e runs, v, λ d. after d (omega arith))
]
