-- ===== src/Cursor/Advance.antt =====
-- What a cursor still has before it, and the advances as operations on that list.
use qry_eval_plus.Prelude.{
  Bool, Bool-cases, List, [], arith, drop, drop_of_le, drop_of_lt, false, if◌then◌else◌, inl, inr,
  leb, length, ltb, ltb→le, ltb→lt, refl, some, suc, true, zero, ℕ, ◌+◌, ◌-◌, ◌∷◌, ◌≡◌, ◌≤◌,
}
use qry_eval_plus.InvList.{DocPosting, InvList, get_docid}
use qry_eval_plus.InvList.Order.{IsValid, Ascending}
use qry_eval_plus.Cursor.{
  Cursor, skip_docs, advance_past, advance_to, get_match, get_match_posting, has_match,
}

-- The postings from the iterator on.
abbrev pub rest : Cursor → List DocPosting
rest c = drop c.doc_index c.inv.postings

-- A cursor over a valid list.
pub record IsReady (c : Cursor) : Type 0 where
  pub valid : IsValid c.inv
  pub within : c.doc_index ≤ c.inv.df

abbrev pub drop_while {ℓ} : {A : Type ℓ} → (A → Bool) → List A → List A
drop_while p [] = []
drop_while p (x ∷ xs) = if p x then drop_while p xs else x ∷ xs

pub Ascending-drop : (n : ℕ) (ps : List DocPosting) → Ascending ps → Ascending (drop n ps)
Ascending-drop zero ps a = a
Ascending-drop (suc n) [] a = a
Ascending-drop (suc n) (p ∷ ps) a = Ascending-drop n ps a.1

pub rest-Ascending : (c : Cursor) → IsReady c → Ascending (rest c)
rest-Ascending c r = Ascending-drop c.doc_index c.inv.postings r.valid.ascending

-- The loop stops at the first posting that the test keeps.
skip_docs-drop_while :
    (skip : ℕ → Bool) (inv : InvList) (rounds i : ℕ)
    → length inv.postings ≡ i + rounds
    → (j : ℕ) × (skip_docs skip inv rounds i ≡ some j)
      × (i ≤ j)
      × (j ≤ length inv.postings)
      × (drop j inv.postings ≡ drop_while (λ p. skip p.docid) (drop i inv.postings))
unfolding skip_docs get_docid
skip_docs-drop_while skip inv zero i e =
    (i, refl, omega arith, omega arith, rw (drop_of_le inv.postings i (omega arith)))
skip_docs-drop_while skip inv (suc rounds) i e =
    let (p, found, split) = drop_of_lt inv.postings i (omega arith) in
    elim (Bool-cases (skip p.docid)) [
      | inl more ↦
          let (j, runs, low, high, same) =
            skip_docs-drop_while skip inv rounds (i + 1) (omega arith) in
          (j, rw (found, more) runs, omega arith, high, rw (split, more) same)
      | inr stop ↦ (i, rw (found, stop), omega arith, omega arith, rw (split, stop))
    ]

-- What an advance that skips by a test leaves: the same list, ready, with the leading postings
-- that the test skips gone.
pub record Advanced (skip : ℕ → Bool) (c c' : Cursor) : Type 0 where
  pub ready : IsReady c'
  pub same_list : c'.inv ≡ c.inv
  pub onward : c.doc_index ≤ c'.doc_index
  pub first_loc : c'.loc_index ≡ 0
  pub skipped : rest c' ≡ drop_while (λ p. skip p.docid) (rest c)

skip_docs-Advanced :
    (skip : ℕ → Bool) (c : Cursor)
    → IsReady c
    → (j : ℕ) × (skip_docs skip c.inv (c.inv.df - c.doc_index) c.doc_index ≡ some j)
      × Advanced skip c (record c { doc_index = j; loc_index = 0 })
skip_docs-Advanced skip c r =
    let (j, runs, low, high, same) =
      skip_docs-drop_while skip c.inv (c.inv.df - c.doc_index) c.doc_index
        (omega (arith, r.within, r.valid.df_counts)) in
    (
      j,
      runs,
      record {
        ready = record { valid = r.valid; within = omega (arith, r.valid.df_counts, high) };
        same_list = refl;
        onward = low;
        first_loc = refl;
        skipped = same;
      },
    )

-- On a cursor over a valid list, moving to a document never raises and leaves exactly the postings
-- from the first one on whose document id is not below it.
pub advance_to-drop_while :
    (docid : ℕ) (c : Cursor)
    → IsReady c
    → (c' : Cursor) × (advance_to docid c ≡ some c') × Advanced (λ d. ltb d docid) c c'
unfolding advance_to
advance_to-drop_while docid c r =
    let (j, runs, a) = skip_docs-Advanced (λ d. ltb d docid) c r in
    (record c { doc_index = j; loc_index = 0 }, rw runs, a)

-- Moving past a document leaves exactly the postings from the first one on that is beyond it.
pub advance_past-drop_while :
    (docid : ℕ) (c : Cursor)
    → IsReady c
    → (c' : Cursor) × (advance_past docid c ≡ some c') × Advanced (λ d. leb d docid) c c'
unfolding advance_past
advance_past-drop_while docid c r =
    let (j, runs, a) = skip_docs-Advanced (λ d. leb d docid) c r in
    (record c { doc_index = j; loc_index = 0 }, rw runs, a)

-- What the tests and reads of the iterator see: the head of what is left.
pub data View (c : Cursor) : Type 0 where
  over : has_match c ≡ false → rest c ≡ [] → View c
  at :
      (p : DocPosting) (ps : List DocPosting)
      → has_match c ≡ true
      → get_match c ≡ some p.docid
      → get_match_posting c ≡ some p
      → rest c ≡ p ∷ ps
      → View c

pub view : (c : Cursor) → IsReady c → View c
unfolding has_match get_match get_match_posting get_docid
view c r = elim (Bool-cases (ltb c.doc_index c.inv.df)) [
  | inl more ↦
      let (p, found, split) =
        drop_of_lt c.inv.postings c.doc_index
          (omega (arith, r.valid.df_counts, ltb→lt c.doc_index c.inv.df more)) in
      View.at p _ more (rw found) found split
  | inr done ↦ View.over done (
      drop_of_le c.inv.postings c.doc_index
        (omega (arith, r.valid.df_counts, ltb→le c.doc_index c.inv.df done)))
]
