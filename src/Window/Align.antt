-- ===== src/Window/Align.antt =====
-- The loops of WINDOW over its arguments: those that look for a common document, and the one that
-- moves past it.
use qry_eval_plus.Prelude.{
  &&-true, ==_refl, All, Bool, Bool-cases, In, List, [], ap, arith, false, inl, inr, length, ltb,
  ltb→le, ltb→lt, none, refl, some, subst, suc, sym, true, ℕ, ◌<◌, ◌==◌, ◌∙◌, ◌∷◌, ◌≡◌, ◌≢◌, ◌≤◌,
  ◌⊎◌,
}
use qry_eval_plus.InvList.{DocPosting}
use qry_eval_plus.InvList.Order.{Ascending}
use qry_eval_plus.Cursor.{Cursor, get_match, has_match, posting_lists, get_match_posting}
use qry_eval_plus.Cursor.Advance.{rest, IsReady, View, view, rest-Ascending}
use qry_eval_plus.MatchAll.Join.{
  find, find_all, From, find_below, head-From, find_all-none, find_all-none_tail,
}
use qry_eval_plus.MatchAll.Scan.{rests}
use qry_eval_plus.MatchAll.Left.{postings_left}
use qry_eval_plus.Window.{
  current_docids, move_to, Aligned, aligned, exhausted, also, align, advance_all,
}
use qry_eval_plus.Window.Moves.{
  Kept, PointsTo, Shrinks, advance_to-Kept, advance_past-Kept, AllKept, done, more, AllKept-le,
}

abbrev pub HasPosting : Cursor → Type 0
HasPosting c = (d : ℕ) × PointsTo d c

abbrev pub AtMost : ℕ → Cursor → Type 0
AtMost m c = (d : ℕ) × PointsTo d c × (d ≤ m)

abbrev head_docid : List DocPosting → ℕ
head_docid [] = 0
head_docid (p ∷ ps) = p.docid

abbrev pub Pointing : List ℕ → List Cursor → Type 0
Pointing [] [] = Unit
Pointing (d ∷ ds) (c ∷ cs) = PointsTo d c × Pointing ds cs
Pointing _ _ = ⊥

-- What is read from an argument that points to a document.
reads :
    (d : ℕ) (c : Cursor)
    → IsReady c
    → PointsTo d c
    → (p : DocPosting) × (ps : List DocPosting) × (rest c ≡ p ∷ ps)
      × (p.docid ≡ d)
      × (has_match c ≡ true)
      × (get_match c ≡ some p.docid)
      × (get_match_posting c ≡ some p)
reads d c r (q, qs, split', same) = elim (view c r) [
  | View.over over empty ↦ let clash : [] ≡ q ∷ qs = sym empty ∙ split' in cc
  | View.at p ps here at_doc posting split ↦
      (p, ps, split, ap head_docid (sym split ∙ split') ∙ same, here, at_doc, posting)
]

pub current_docids-Pointing :
    (cs : List Cursor)
    → All IsReady cs
    → All HasPosting cs
    → (ds : List ℕ) × (current_docids cs ≡ some ds) × Pointing ds cs
unfolding current_docids
current_docids-Pointing [] r h = ([], refl, tt)
current_docids-Pointing (c ∷ cs) (r, rs) ((d, at), h) =
    let (p, ps, split, same, here, at_doc, posting) = reads d c r at in
    let (ds, runs, all) = current_docids-Pointing cs rs h in
    (p.docid ∷ ds, rw (at_doc, runs) refl, ((p, ps, split, refl), all))

pub Pointing-AtMost :
    (m : ℕ) (ds : List ℕ) (cs : List Cursor)
    → Pointing ds cs
    → All (λ d. d ≤ m) ds
    → All (AtMost m) cs
Pointing-AtMost m [] [] h le = tt
Pointing-AtMost m (d ∷ ds) (c ∷ cs) (at, h) (l, le) = ((d, at, l), Pointing-AtMost m ds cs h le)
Pointing-AtMost m [] (c ∷ cs) h le = elim h [ ]
Pointing-AtMost m (d ∷ ds) [] h le = elim h [ ]

-- No document before one that an argument points to is common.
pub Pointing-below :
    (m x : ℕ) (ds : List ℕ) (cs : List Cursor)
    → All IsReady cs
    → Pointing ds cs
    → In m ds
    → x < m
    → find_all x (rests cs) ≡ none
Pointing-below m x [] cs r h i l = absurd i
Pointing-below m x (d ∷ ds) [] r h i l = elim h [ ]
Pointing-below m x (d ∷ ds) (c ∷ cs) (r, rs) ((p, ps, split, same), h) (inl e) l =
    let order : Ascending (p ∷ ps) = rw split at (rest-Ascending c r) in
    find_all-none x (rest c) (rests cs) (
      ap (find x) split
      ∙ find_below x p.docid (p ∷ ps) (head-From p ps order) (omega (arith, same, e, l)))
Pointing-below m x (d ∷ ds) (c ∷ cs) (r, rs) (at, h) (inr i) l =
    find_all-none_tail x (rest c) (rests cs) (Pointing-below m x ds cs rs h i l)

-- One argument: it is exhausted, or stands at the document, or has moved beyond it.
abbrev Moved : ℕ → Cursor → Cursor → Bool → Type 0
Moved m c c' false = rest c' ≡ []
Moved m c c' true =
    (d : ℕ) × PointsTo d c'
    × (get_match c' ≡ some d)
    × ((d ≡ m) ⊎ (length (rest c') < length (rest c)))

move_to-Moved :
    (m : ℕ) (c : Cursor)
    → IsReady c
    → AtMost m c
    → (c' : Cursor) × (b : Bool) × (move_to m c ≡ some (c', b)) × Kept m c c' × Moved m c c' b
unfolding move_to
move_to-Moved m c r (d, at, le) =
    let (p, ps, split, same, here, at_doc, posting) = reads d c r at in
    elim (Bool-cases (ltb p.docid m)) [
      | inl lt ↦
          let (c', runs, kept, shrinks) = advance_to-Kept m c r in
          let fewer = shrinks p.docid (p, ps, split, refl) (ltb→lt p.docid m lt) in
          elim (view c' kept.ready) [
            | View.over over empty ↦ (c', false, rw (at_doc, lt, runs, over) refl, kept, empty)
            | View.at q qs here' at_doc' posting' split' ↦ (
              c',
              true,
              rw (at_doc, lt, runs, here') refl,
              kept,
              (q.docid, (q, qs, split', refl), at_doc', inr fewer),
            )
          ]
      | inr ge ↦
          let order : Ascending (p ∷ ps) = rw split at (rest-Ascending c r) in
          let e : p.docid ≡ m = omega (arith, same, le, ltb→le p.docid m ge) in
          (
            c,
            true,
            rw (at_doc, ge) refl,
            record {
              ready = r;
              from =
                  subst (λ k. From k (rest c)) e
                    (subst (From p.docid) (sym split) (head-From p ps order));
              agree = λ x l. refl;
              no_more = omega arith;
            },
            (p.docid, (p, ps, split, refl), at_doc, inl e),
          )
    ]

-- All arguments.
abbrev pub Alignment : ℕ → List Cursor → List Cursor → Aligned → Type 0
Alignment m cs cs' exhausted = (x : ℕ) → m ≤ x → find_all x (rests cs) ≡ none
Alignment m cs cs' (aligned b) =
    AllKept m cs cs'
    × All HasPosting cs'
    × (b ≡ true → All (PointsTo m) cs')
    × (b ≡ false → postings_left cs' < postings_left cs)

-- The outcome with one more argument, which stands at `d`.
also-Alignment :
    (m d : ℕ) (c c' : Cursor) (cs cs' : List Cursor) (o : Aligned)
    → Kept m c c'
    → PointsTo d c'
    → (d ≡ m) ⊎ (length (rest c') < length (rest c))
    → Alignment m cs cs' o
    → Alignment m (c ∷ cs) (c' ∷ cs') (also (d == m) o)
also-Alignment m d c c' cs cs' exhausted kept at how h =
    λ x le. find_all-none_tail x (rest c) (rests cs) (h x le)
also-Alignment m d c c' cs cs' (aligned b) kept at how (all_kept, all_at, agreed, shrinks) =
    let le = kept.no_more in
    let tail_le = AllKept-le all_kept in
    (
      more kept all_kept,
      ((d, at), all_at),
      (λ e.
          let (same, b_true) = &&-true (d == m) b e in
          let d_m : d ≡ m = ground arith in (subst (λ k. PointsTo k c') d_m at, agreed b_true)),
      λ e. elim how [
        | inr lt ↦ omega arith
        | inl same ↦ let tail_lt = shrinks (rw (same, ==_refl m) at e) in omega arith
      ],
    )

pub align-Alignment :
    (m : ℕ) (cs : List Cursor)
    → All IsReady cs
    → All (AtMost m) cs
    → (cs' : List Cursor) × (o : Aligned) × (align m cs ≡ some (cs', o)) × Alignment m cs cs' o
unfolding align
align-Alignment m [] r h = ([], aligned true, refl, (done, tt, (λ e. tt), λ e. cc))
align-Alignment m (c ∷ cs) (r, rs) (at, h) =
    let (c', b, runs, kept, moved) = move_to-Moved m c r at in
    let (cs', o, all_run, rest_) = align-Alignment m cs rs h in
    one b c' cs' o runs kept moved all_run rest_
  where
    one :
        (b : Bool) (c' : Cursor) (cs' : List Cursor) (o : Aligned)
        → move_to m c ≡ some (c', b)
        → Kept m c c'
        → Moved m c c' b
        → align m cs ≡ some (cs', o)
        → Alignment m cs cs' o
        → (cs'' : List Cursor) × (o' : Aligned) × (align m (c ∷ cs) ≡ some (cs'', o'))
          × Alignment m (c ∷ cs) cs'' o'
    one false c' cs' o runs kept empty all_run rest_ = (
      c' ∷ cs,
      exhausted,
      rw (align, runs) refl,
      λ x le. find_all-none x (rest c) (rests cs) (sym (kept.agree x le) ∙ ap (find x) empty),
    )
    one true c' cs' o runs kept (d, at', at_doc, how) all_run rest_ = (
      c' ∷ cs',
      also (d == m) o,
      rw (align, runs, at_doc, all_run) refl,
      also-Alignment m d c c' cs cs' o kept at' how rest_,
    )

-- The loop that moves past the document.
abbrev pub Advances : ℕ → List Cursor → List Cursor → Bool → Type 0
Advances m cs cs' false = (x : ℕ) → m < x → find_all x (rests cs) ≡ none
Advances m cs cs' true =
    AllKept (suc m) cs cs'
    × All HasPosting cs'
    × (All (PointsTo m) cs → cs ≢ [] → postings_left cs' < postings_left cs)

pub advance_all-Advances :
    (m : ℕ) (cs : List Cursor)
    → All IsReady cs
    → (cs' : List Cursor) × (b : Bool) × (advance_all m cs ≡ some (cs', b)) × Advances m cs cs' b
unfolding advance_all
advance_all-Advances m [] r = ([], true, refl, (done, tt, λ a ne. absurd (ne refl)))
advance_all-Advances m (c ∷ cs) (r, rs) =
    let (c', runs, kept, shrinks) = advance_past-Kept m c r in
    let (cs', b, all_run, rest_) = advance_all-Advances m cs rs in
    elim (view c' kept.ready) [
      | View.over over empty ↦ (
        c' ∷ cs,
        false,
        rw (runs, over) refl,
        λ x lt. find_all-none x (rest c) (rests cs) (sym (kept.agree x lt) ∙ ap (find x) empty),
      )
      | View.at q qs here at_doc posting split ↦ (
        c' ∷ cs',
        b,
        rw (runs, here, all_run) refl,
        with_head m c c' cs cs' b kept shrinks (q.docid, (q, qs, split, refl)) rest_,
      )
    ]
  where
    with_head :
        (m : ℕ) (c c' : Cursor) (cs cs' : List Cursor) (b : Bool)
        → Kept (suc m) c c'
        → Shrinks (suc m) c c'
        → HasPosting c'
        → Advances m cs cs' b
        → Advances m (c ∷ cs) (c' ∷ cs') b
    with_head m c c' cs cs' false kept shrinks at h =
        λ x lt. find_all-none_tail x (rest c) (rests cs) (h x lt)
    with_head m c c' cs cs' true kept shrinks at (all_kept, all_at, fewer) = (
      more kept all_kept,
      (at, all_at),
      λ (a, as_) ne.
          let head_lt = shrinks m a (omega arith) in
          let tail_le = AllKept-le all_kept in omega arith,
    )

-- The positions of a document that all arguments point to.
pub posting_lists-found :
    (m : ℕ) (cs : List Cursor)
    → All IsReady cs
    → All (PointsTo m) cs
    → (pss : List (List ℕ)) × (posting_lists cs ≡ some pss) × (find_all m (rests cs) ≡ some pss)
unfolding posting_lists
posting_lists-found m [] r h = ([], refl, refl)
posting_lists-found m (c ∷ cs) (r, rs) (at, h) =
    let (p, ps, split, same, here, at_doc, posting) = reads m c r at in
    let (pss, runs, found) = posting_lists-found m cs rs h in
    let hit : find m (rest c) ≡ some p.positions = ap (find m) split ∙ ground arith in
    (p.positions ∷ pss, rw (posting, runs) refl, rw (hit, found) refl)
