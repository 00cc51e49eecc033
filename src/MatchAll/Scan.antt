-- ===== src/MatchAll/Scan.antt =====
-- The `for` loop over the other arguments.
use qry_eval_plus.Prelude.{
  ==_refl, All, Bool-cases, List, [], arith, inl, inr, map, none, refl, some, ℕ, ◌<◌, ◌==◌, ◌∷◌,
  ◌≡◌, ◌≤◌,
}
use qry_eval_plus.InvList.{DocPosting}
use qry_eval_plus.InvList.Order.{Ascending}
use qry_eval_plus.Cursor.{posting_lists, Cursor, get_match_posting}
use qry_eval_plus.Cursor.Advance.{rest, IsReady, advance_to-drop_while, View, view, rest-Ascending}
use qry_eval_plus.MatchAll.{Outcome, agreed, moved, exhausted, scan}
use qry_eval_plus.MatchAll.Join.{
  find, find_all, find_below, head-From, find-drop_while, drop_while-From, find_all-none,
  find_all-none_tail, Agree, Agree-cons, From,
}

abbrev pub rests : List Cursor → List (List DocPosting)
rests = map rest

-- What each way out of the loop says of the lookups.
abbrev pub Verdict : ℕ → List Cursor → Outcome → Type 0
Verdict d cs agreed =
    (pss : List (List ℕ)) × (find_all d (rests cs) ≡ some pss) × (posting_lists cs ≡ some pss)
Verdict d cs (moved e) = (d < e) × ((x : ℕ) → d ≤ x → x < e → find_all x (rests cs) ≡ none)
Verdict d cs exhausted = (x : ℕ) → d ≤ x → find_all x (rests cs) ≡ none

pub record Scanned (d : ℕ) (cs cs' : List Cursor) (o : Outcome) : Type 0 where
  pub ready : All IsReady cs'
  pub agree : Agree d (rests cs) (rests cs')
  pub verdict : Verdict d cs' o

Verdict-cons :
    (d : ℕ) (c : Cursor) (cs : List Cursor) (p : DocPosting) (ps : List DocPosting)
    → rest c ≡ p ∷ ps
    → p.docid ≡ d
    → get_match_posting c ≡ some p
    → (o : Outcome) → Verdict d cs o
    → Verdict d (c ∷ cs) o
unfolding posting_lists
Verdict-cons d c cs p ps r e g agreed (pss, found, here) =
    (p.positions ∷ pss, rw (r, e, ==_refl d, found), rw (g, here))
Verdict-cons d c cs p ps r e g (moved x) (lt, v) =
    (lt, λ y le l. find_all-none_tail y (rest c) (rests cs) (v y le l))
Verdict-cons d c cs p ps r e g exhausted v =
    λ y le. find_all-none_tail y (rest c) (rests cs) (v y le)

-- The loop never raises on ready arguments.
pub scan-Scanned :
    (d : ℕ) (cs : List Cursor)
    → All IsReady cs
    → (cs' : List Cursor) × (o : Outcome) × (scan d cs ≡ some (cs', o)) × Scanned d cs cs' o
unfolding scan posting_lists
scan-Scanned d [] r =
    ([], agreed, refl, record { ready = tt; agree = λ x le. refl; verdict = ([], refl, refl) })
scan-Scanned d (c ∷ cs) (r, rs) =
    let (c', runs, a) = advance_to-drop_while d c r in
    let kept : (x : ℕ) → d ≤ x → find x (rest c') ≡ find x (rest c) =
      λ x le. rw a.skipped (find-drop_while x d (rest c) le) in
    let bound : From d (rest c') = rw a.skipped (drop_while-From d (rest c) (rest-Ascending c r)) in
    elim (view c' a.ready) [
      | View.over done nil ↦ (
        c' ∷ cs,
        exhausted,
        rw (runs, done),
        record {
          ready = (a.ready, rs);
          agree = Agree-cons d (rest c) (rest c') (rests cs) (rests cs) kept (λ x le. refl);
          verdict = λ x le. find_all-none x (rest c') (rests cs) (rw nil);
        },
      )
      | View.at p ps more here posting split ↦ elim (Bool-cases (d == p.docid)) [
        | inl same ↦
            let (cs', o, rec, s) = scan-Scanned d cs rs in
            (
              c' ∷ cs',
              o,
              rw (runs, more, here, same, rec),
              record {
                ready = (a.ready, s.ready);
                agree = Agree-cons d (rest c) (rest c') (rests cs) (rests cs') kept s.agree;
                verdict = Verdict-cons d c' cs' p ps split (ground arith) posting o s.verdict;
              },
            )
        | inr other ↦
            let first : From d (p ∷ ps) = rw split at bound in
            let asc : Ascending (p ∷ ps) = rw split at (rest-Ascending c' a.ready) in
            (
              c' ∷ cs,
              moved p.docid,
              rw (runs, more, here, other),
              record {
                ready = (a.ready, rs);
                agree = Agree-cons d (rest c) (rest c') (rests cs) (rests cs) kept (λ x le. refl);
                verdict = (
                  ground (arith, first),
                  λ x le l.
                      find_all-none x (rest c') (rests cs)
                        (rw split (find_below x p.docid (p ∷ ps) (head-From p ps asc) l)),
                );
              },
            )
      ]
    ]
