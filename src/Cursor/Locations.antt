-- ===== src/Cursor/Locations.antt =====
-- What a cursor still has before it in the current document, and the location advances as
-- operations on those positions.
use qry_eval_plus.Prelude.{
  Bool, Bool-cases, List, arith, drop, drop_of_le, drop_of_lt, inl, inr, leb, length, ltb, refl,
  some, suc, zero, ℕ, ◌+◌, ◌-◌, ◌≡◌, ◌≤◌,
}
use qry_eval_plus.InvList.{DocPosting}
use qry_eval_plus.Cursor.{Cursor, get_match_posting, skip_locs, loc_advance_past, loc_advance_to}
use qry_eval_plus.Cursor.Advance.{drop_while}

-- The positions of a posting from the iterator on.
abbrev pub rest_locs : Cursor → DocPosting → List ℕ
rest_locs c p = drop c.loc_index p.positions

-- The cursor points to a posting whose count is that of its positions.
pub record PointsTo (c : Cursor) (p : DocPosting) : Type 0 where
  pub here : get_match_posting c ≡ some p
  pub tf_counts : p.tf ≡ length p.positions
  pub within : c.loc_index ≤ p.tf

skip_locs-drop_while :
    (skip : ℕ → Bool) (positions : List ℕ) (rounds j : ℕ)
    → length positions ≡ j + rounds
    → (k : ℕ) × (skip_locs skip positions rounds j ≡ some k)
      × (j ≤ k)
      × (k ≤ length positions)
      × (drop k positions ≡ drop_while skip (drop j positions))
unfolding skip_locs
skip_locs-drop_while skip positions zero j e =
    (j, refl, omega arith, omega arith, rw (drop_of_le positions j (omega arith)))
skip_locs-drop_while skip positions (suc rounds) j e =
    let (x, found, split) = drop_of_lt positions j (omega arith) in
    elim (Bool-cases (skip x)) [
      | inl more ↦
          let (k, runs, low, high, same) =
            skip_locs-drop_while skip positions rounds (j + 1) (omega arith) in
          (k, rw (found, more) runs, omega arith, high, rw (split, more) same)
      | inr stop ↦ (j, rw (found, stop), omega arith, omega arith, rw (split, stop))
    ]

-- What a location advance leaves: the same document, and the leading positions that the test skips
-- gone.
pub record LocAdvanced (skip : ℕ → Bool) (c c' : Cursor) (p : DocPosting) : Type 0 where
  pub points : PointsTo c' p
  pub same_list : c'.inv ≡ c.inv
  pub same_doc : c'.doc_index ≡ c.doc_index
  pub onward : c.loc_index ≤ c'.loc_index
  pub skipped : rest_locs c' p ≡ drop_while skip (rest_locs c p)

skip_locs-LocAdvanced :
    (skip : ℕ → Bool) (c : Cursor) (p : DocPosting)
    → PointsTo c p
    → (k : ℕ) × (skip_locs skip p.positions (p.tf - c.loc_index) c.loc_index ≡ some k)
      × LocAdvanced skip c (record c { loc_index = k }) p
unfolding get_match_posting
skip_locs-LocAdvanced skip c p h =
    let (k, runs, low, high, same) =
      skip_locs-drop_while skip p.positions (p.tf - c.loc_index) c.loc_index
        (omega (arith, h.within, h.tf_counts)) in
    (
      k,
      runs,
      record {
        points = record {
          here = h.here;
          tf_counts = h.tf_counts;
          within = omega (arith, high, h.tf_counts);
        };
        same_list = refl;
        same_doc = refl;
        onward = low;
        skipped = same;
      },
    )

-- Moving to a location never raises, stays in the document, and leaves exactly the positions from
-- the first one on that is not below it.
pub loc_advance_to-drop_while :
    (loc : ℕ) (c : Cursor) (p : DocPosting)
    → PointsTo c p
    → (c' : Cursor) × (loc_advance_to loc c ≡ some c') × LocAdvanced (λ x. ltb x loc) c c' p
unfolding loc_advance_to
loc_advance_to-drop_while loc c p h =
    let (k, runs, a) = skip_locs-LocAdvanced (λ x. ltb x loc) c p h in
    (record c { loc_index = k }, rw (h.here, runs), a)

-- Moving past a location never raises, stays in the document, and leaves exactly the positions from
-- the first one on that is beyond it.
pub loc_advance_past-drop_while :
    (loc : ℕ) (c : Cursor) (p : DocPosting)
    → PointsTo c p
    → (c' : Cursor) × (loc_advance_past loc c ≡ some c') × LocAdvanced (λ x. leb x loc) c c' p
unfolding loc_advance_past
loc_advance_past-drop_while loc c p h =
    let (k, runs, a) = skip_locs-LocAdvanced (λ x. leb x loc) c p h in
    (record c { loc_index = k }, rw (h.here, runs), a)
