-- ===== src/MatchAll/Loop.antt =====
-- The whole search: what the moved arguments and the cached document say of the lookups.
use qry_eval_plus.Prelude.{
  All, Bool, Bool-cases, List, Option, [], ap, arith, inl, inr, length, ltb, ltb→lt, lt→ltb, none,
  refl, some, suc, sym, true, zero, ℕ, ◌<◌, ◌∙◌, ◌∷◌, ◌≡◌, ◌≤◌,
}
use qry_eval_plus.InvList.{DocPosting}
use qry_eval_plus.InvList.Order.{Ascending}
use qry_eval_plus.Cursor.{posting_lists, Cursor, has_match, get_match, get_match_posting}
use qry_eval_plus.Cursor.Advance.{
  rest, IsReady, drop_while, advance_to-drop_while, View, view, rest-Ascending,
}
use qry_eval_plus.MatchAll.{Outcome, agreed, moved, exhausted, scan, has_match_all}
use qry_eval_plus.MatchAll.Join.{find_all, Agree, From, head-From}
use qry_eval_plus.MatchAll.Scan.{rests, scan-Scanned, Scanned}

-- The documents of the first list that the others hold too, each with its positions in all.
abbrev pub join : List DocPosting → List (List DocPosting) → List (ℕ × List (List ℕ))
join [] ls = []
join (p ∷ ps) ls = elim (find_all p.docid ls) [
  | none ↦ join ps ls
  | some pss ↦ (p.docid, p.positions ∷ pss) ∷ join ps ls
]

abbrev pub join_of : List Cursor → List (ℕ × List (List ℕ))
join_of [] = []
join_of (c ∷ cs) = join (rest c) (rests cs)

join-Agree :
    (d : ℕ) (ps : List DocPosting) (ls ls' : List (List DocPosting))
    → From d ps
    → Agree d ls ls'
    → join ps ls' ≡ join ps ls
join-Agree d [] ls ls' h a = refl
join-Agree d (p ∷ ps) ls ls' h a = ground (arith, a p.docid h.0, join-Agree d ps ls ls' h.1 a)

-- Postings that the others cannot match may be dropped.
join-drop_while :
    (d e : ℕ) (ps : List DocPosting) (ls : List (List DocPosting))
    → From d ps
    → Ascending ps
    → ((x : ℕ) → d ≤ x → x < e → find_all x ls ≡ none)
    → join (drop_while (λ p. ltb p.docid e) ps) ls ≡ join ps ls
join-drop_while d e [] ls h a v = refl
join-drop_while d e (p ∷ ps) ls h a v = elim (Bool-cases (ltb p.docid e)) [
  | inl more ↦
      rw (more, v p.docid h.0 (ltb→lt p.docid e more), join) (join-drop_while d e ps ls h.1 a.1 v)
  | inr stop ↦ rw stop refl
]

join-none :
    (d : ℕ) (ps : List DocPosting) (ls : List (List DocPosting))
    → From d ps
    → ((x : ℕ) → d ≤ x → find_all x ls ≡ none)
    → join ps ls ≡ []
join-none d [] ls h v = refl
join-none d (p ∷ ps) ls h v = rw (v p.docid h.0, join) (join-none d ps ls h.1 v)

-- Either no document is common to all arguments, or the cached one is the first, every argument
-- points to it, and the rest of the common documents stand behind the first argument's posting.
pub data Found (cs cs' : List Cursor) (m : Option ℕ) : Type 0 where
  nothing : m ≡ none → join_of cs ≡ [] → Found cs cs' m
  first :
      (c : Cursor) (others : List Cursor) (p : DocPosting) (ps : List DocPosting)
      (pss : List (List ℕ))
      → cs' ≡ c ∷ others
      → All IsReady (c ∷ others)
      → rest c ≡ p ∷ ps
      → get_match c ≡ some p.docid
      → m ≡ some p.docid
      → posting_lists (c ∷ others) ≡ some (p.positions ∷ pss)
      → join_of cs ≡ (p.docid, p.positions ∷ pss) ∷ join ps (rests others)
      → Found cs cs' m

Found-move :
    (cs ds cs' : List Cursor) (m : Option ℕ)
    → join_of ds ≡ join_of cs
    → Found ds cs' m
    → Found cs cs' m
Found-move cs ds cs' m e (nothing n h) = nothing n (sym e ∙ h)
Found-move cs ds cs' m e (first c others p ps pss a b d f g h i) =
    first c others p ps pss a b d f g h (sym e ∙ i)

length-drop_while : {A : Type 0} (t : A → Bool) (xs : List A) → length (drop_while t xs) ≤ length xs
length-drop_while t [] = omega arith
length-drop_while t (x ∷ xs) = ground (arith, length-drop_while t xs)

drop_while-head :
    (e : ℕ) (p : DocPosting) (ps : List DocPosting)
    → p.docid < e
    → drop_while (λ q. ltb q.docid e) (p ∷ ps) ≡ drop_while (λ q. ltb q.docid e) ps
drop_while-head e p ps h = rw (lt→ltb p.docid e h)

abbrev pub Ends : ℕ → Cursor → List Cursor → Type 0
Ends fuel c cs =
    (cs' : List Cursor) × (m : Option ℕ) × (has_match_all fuel (c ∷ cs) ≡ some (cs', m))
    × Found (c ∷ cs) cs' m

-- One round, after the loop over the other arguments has ended in `o`.
round-Ends :
    (fuel : ℕ) (c : Cursor) (cs cs' : List Cursor) (p : DocPosting) (ps : List DocPosting)
    (o : Outcome)
    → IsReady c
    → has_match c ≡ true
    → get_match c ≡ some p.docid
    → get_match_posting c ≡ some p
    → rest c ≡ p ∷ ps
    → length (rest c) < suc fuel
    → scan p.docid cs ≡ some (cs', o)
    → Scanned p.docid cs cs' o
    → ((c' : Cursor) → IsReady c' → length (rest c') < fuel → Ends fuel c' cs')
    → Ends (suc fuel) c cs
unfolding has_match_all posting_lists
round-Ends fuel c cs cs' p ps agreed r more here posting split h runs s again =
    let asc : Ascending (p ∷ ps) = rw split at (rest-Ascending c r) in
    let same = join-Agree p.docid (p ∷ ps) (rests cs) (rests cs') (head-From p ps asc) s.agree in
    let (pss, found, lists) = s.verdict in
    (
      c ∷ cs',
      some p.docid,
      rw (more, here, runs),
      first c cs' p ps pss refl (r, s.ready) split here refl (rw (posting, lists))
          (rw (split, ← same, found, join) refl),
    )
round-Ends fuel c cs cs' p ps exhausted r more here posting split h runs s again =
    let asc : Ascending (p ∷ ps) = rw split at (rest-Ascending c r) in
    let same = join-Agree p.docid (p ∷ ps) (rests cs) (rests cs') (head-From p ps asc) s.agree in
    (
      c ∷ cs',
      none,
      rw (more, here, runs),
      nothing refl (
          rw (split, ← same)
            (join-none p.docid (p ∷ ps) (rests cs') (head-From p ps asc) s.verdict)),
    )
round-Ends fuel c cs cs' p ps (moved e) r more here posting split h runs s again =
    let asc : Ascending (p ∷ ps) = rw split at (rest-Ascending c r) in
    let bound = head-From p ps asc in
    let same = join-Agree p.docid (p ∷ ps) (rests cs) (rests cs') bound s.agree in
    let (later, v) = s.verdict in
    let (c', moves, a) = advance_to-drop_while e c r in
    let left : rest c' ≡ drop_while (λ q. ltb q.docid e) (p ∷ ps) =
      a.skipped ∙ ap (drop_while (λ q. ltb q.docid e)) split in
    let kept : join_of (c' ∷ cs') ≡ join_of (c ∷ cs) =
      rw (left, split) (join-drop_while p.docid e (p ∷ ps) (rests cs') bound asc v ∙ same) in
    let shorter : length (rest c') ≤ length ps =
      rw (left, drop_while-head e p ps later) (length-drop_while (λ q. ltb q.docid e) ps) in
    let (ds, m, runs', found) = again c' a.ready (omega (arith, shorter, ap length split)) in
    (ds, m, rw (more, here, runs, moves) runs', Found-move (c ∷ cs) (c' ∷ cs') ds m kept found)

-- On ready arguments the search never raises and ends, given as much fuel as the first argument
-- has postings left and one more: it reports the first document common to all arguments, or that
-- there is none.
pub has_match_all-Found :
    (fuel : ℕ) (c : Cursor) (cs : List Cursor)
    → IsReady c
    → All IsReady cs
    → length (rest c) < fuel
    → (cs' : List Cursor) × (m : Option ℕ) × (has_match_all fuel (c ∷ cs) ≡ some (cs', m))
      × Found (c ∷ cs) cs' m
unfolding has_match_all
has_match_all-Found zero c cs r rs h = absurd (omega arith)
has_match_all-Found (suc fuel) c cs r rs h = elim (view c r) [
  | View.over done nil ↦ (c ∷ cs, none, rw done, nothing refl (rw nil))
  | View.at p ps more here posting split ↦
      let (cs', o, runs, s) = scan-Scanned p.docid cs rs in
      round-Ends fuel c cs cs' p ps o r more here posting split h runs s
        (λ c' r' h'. has_match_all-Found fuel c' cs' r' s.ready h')
]
