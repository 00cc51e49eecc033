-- ===== src/MatchAll/Left.antt =====
-- The postings that cursors have left, and lookups in a list that grows.
use qry_eval_plus.Prelude.{
  All, List, [], arith, length, length-drop, none, refl, some, ℕ, ◌++◌, ◌+◌, ◌<◌, ◌∷◌, ◌≡◌, ◌≢◌,
  ◌≤◌,
}
use qry_eval_plus.InvList.{DocPosting, doc_posting}
use qry_eval_plus.Cursor.{Cursor, total_postings}
use qry_eval_plus.Cursor.Advance.{rest}
use qry_eval_plus.MatchAll.Join.{find, From}

abbrev pub postings_left : List Cursor → ℕ
postings_left [] = 0
postings_left (c ∷ cs) = length (rest c) + postings_left cs

pub find_above :
    (e k : ℕ) (ps : List DocPosting) → All (λ q. q.docid < k) ps → k ≤ e → find e ps ≡ none
find_above e k [] h l = refl
find_above e k (p ∷ ps) h l = ground (arith, h.0, find_above e k ps h.1 l)

pub find-snoc :
    (e d : ℕ) (xs : List ℕ) (ps : List DocPosting)
    → e ≢ d
    → find e (ps ++ doc_posting d xs ∷ []) ≡ find e ps
find-snoc e d xs [] ne = ground arith
find-snoc e d xs (p ∷ ps) ne = ground (arith, find-snoc e d xs ps ne)

pub find-snoc_self :
    (d : ℕ) (xs : List ℕ) (ps : List DocPosting)
    → All (λ q. q.docid < d) ps
    → find d (ps ++ doc_posting d xs ∷ []) ≡ some xs
find-snoc_self d xs [] h = ground arith
find-snoc_self d xs (p ∷ ps) h = ground (arith, h.0, find-snoc_self d xs ps h.1)

pub postings_left-le : (cs : List Cursor) → postings_left cs ≤ total_postings cs
postings_left-le [] = omega arith
postings_left-le (c ∷ cs) =
    omega (arith, length-drop c.doc_index c.inv.postings, postings_left-le cs)

pub From-zero : (cs : List Cursor) → All (λ c. From 0 (rest c)) cs
From-zero [] = tt
From-zero (c ∷ cs) = (each (rest c), From-zero cs)
  where
    each : (ps : List DocPosting) → From 0 ps
    each [] = tt
    each (p ∷ ps) = (omega arith, each ps)
