-- ===== src/MatchAll/Join.antt =====
-- The reference for document-at-a-time intersection: each document of the first list is looked up
-- in all the others. Lemmas on what dropping postings leaves of the lookups.
use qry_eval_plus.Prelude.{
  All, Bool-cases, List, Option, Option-cases, [], arith, if◌then◌else◌, inl, inr, ltb, ltb→le,
  none, refl, some, ℕ, ◌<◌, ◌==◌, ◌>>=◌, ◌∷◌, ◌≡◌, ◌≤◌,
}
use qry_eval_plus.InvList.{DocPosting}
use qry_eval_plus.InvList.Order.{Ascending}
use qry_eval_plus.Cursor.Advance.{drop_while}

-- The positions of a document in a list of postings.
abbrev pub find : ℕ → List DocPosting → Option (List ℕ)
find d [] = none
find d (p ∷ ps) = if d == p.docid then some p.positions else find d ps

-- Its positions in every list, if it is in every list.
abbrev pub find_all : ℕ → List (List DocPosting) → Option (List (List ℕ))
find_all d [] = some []
find_all d (l ∷ ls) = find d l >>= λ ps. find_all d ls >>= λ pss. some (ps ∷ pss)

-- Documents that no list position can hold.
abbrev pub From : ℕ → List DocPosting → Type 0
From d ps = All (λ p. d ≤ p.docid) ps

pub find_below : (x d : ℕ) (ps : List DocPosting) → From d ps → x < d → find x ps ≡ none
find_below x d [] h l = refl
find_below x d (p ∷ ps) h l = ground (arith, find_below x d ps h.1 l)

pub find-drop_while :
    (x d : ℕ) (ps : List DocPosting)
    → d ≤ x
    → find x (drop_while (λ p. ltb p.docid d) ps) ≡ find x ps
find-drop_while x d [] h = refl
find-drop_while x d (p ∷ ps) h = ground (arith, find-drop_while x d ps h)

pub From-trans : (m d : ℕ) (ps : List DocPosting) → d ≤ m → All (λ p. m < p.docid) ps → From d ps
From-trans m d [] h a = tt
From-trans m d (p ∷ ps) h a = (omega arith, From-trans m d ps h a.1)

pub head-From : (p : DocPosting) (ps : List DocPosting) → Ascending (p ∷ ps) → From p.docid (p ∷ ps)
head-From p ps a = (omega arith, From-trans p.docid p.docid ps (omega arith) a.0)

-- The postings from a document id on are what an advance leaves of an ascending list.
pub drop_while-From :
    (d : ℕ) (ps : List DocPosting) → Ascending ps → From d (drop_while (λ p. ltb p.docid d) ps)
drop_while-From d [] a = tt
drop_while-From d (p ∷ ps) a = elim (Bool-cases (ltb p.docid d)) [
  | inl more ↦ rw more (drop_while-From d ps a.1)
  | inr stop ↦ rw stop (ltb→le p.docid d stop, From-trans p.docid d ps (ltb→le p.docid d stop) a.0)
]

pub find_all-none :
    (x : ℕ) (l : List DocPosting) (ls : List (List DocPosting))
    → find x l ≡ none
    → find_all x (l ∷ ls) ≡ none
find_all-none x l ls h = rw h

pub find_all-none_tail :
    (x : ℕ) (l : List DocPosting) (ls : List (List DocPosting))
    → find_all x ls ≡ none
    → find_all x (l ∷ ls) ≡ none
find_all-none_tail x l ls h = elim (Option-cases (find x l)) [
  | inl e ↦ rw e
  | inr (ps, e) ↦ rw (e, h)
]

-- Looked up from `d` on, the two tuples of lists agree.
abbrev pub Agree : ℕ → List (List DocPosting) → List (List DocPosting) → Type 0
Agree d ls ls' = (x : ℕ) → d ≤ x → find_all x ls' ≡ find_all x ls

pub Agree-cons :
    (d : ℕ) (l l' : List DocPosting) (ls ls' : List (List DocPosting))
    → ((x : ℕ) → d ≤ x → find x l' ≡ find x l)
    → Agree d ls ls'
    → Agree d (l ∷ ls) (l' ∷ ls')
Agree-cons d l l' ls ls' h k x le = rw (h x le, k x le)
