-- ===== src/Window/Step.antt =====
-- One round of the inner loop, read as an operation on what the indices leave of the positions.
use qry_eval_plus.Prelude.{
  All, All-In, Bool-cases, In, List, Option, [], add-one, ap, arith, drop, drop_of_le, drop_of_lt,
  false, get_elem?, inl, inr, leb, length, ltb, ltb→le, ltb→lt, refl, some, some_eq, subst, suc,
  sym, true, zero, ℕ, ◌++◌, ◌+◌, ◌-◌, ◌<◌, ◌∷◌, ◌≡◌, ◌≤◌,
}
use qry_eval_plus.InvList.Order.{Increasing}
use qry_eval_plus.Near.{out_of_doc, total_length}
use qry_eval_plus.Near.Chain.{Sub, Sub-refl}
use qry_eval_plus.Near.Step.{rems}
use qry_eval_plus.Near.Within.{drop_next-tail, advanced}
use qry_eval_plus.Window.{current_positions, minimum, maximum, bump, step}
use qry_eval_plus.Window.Spans.{Spans, Hits, Heads, Spans-above, Hits-tail}
use qry_eval_plus.Window.Least.{maximum-All, maximum-In, minimum-All, minimum-In, lowest-least}

-- While no term has run out, the positions are the first ones that are left.
pub current_positions-Heads :
    (is : List ℕ) (ps : List (List ℕ))
    → length is ≡ length ps
    → out_of_doc is ps ≡ false
    → (hs : List ℕ) × (current_positions is ps ≡ some hs) × Heads hs (rems is ps)
unfolding current_positions out_of_doc
current_positions-Heads [] [] len out = ([], refl, tt)
current_positions-Heads [] (p ∷ ps) len out = absurd (omega arith)
current_positions-Heads (i ∷ is) [] len out = absurd (omega arith)
current_positions-Heads (i ∷ is) (p ∷ ps) len out =
    let (x, found, split) = drop_of_lt p i (ground arith) in
    let (xs, runs, g) = current_positions-Heads is ps (omega arith) (ground arith) in
    (x ∷ xs, rw (found, runs), ((drop (i + 1) p, split), g))

-- A term that has run out is in no window.
pub out_of_doc-Spans :
    (is : List ℕ) (ps : List (List ℕ)) (lo hi : ℕ)
    → length is ≡ length ps
    → out_of_doc is ps ≡ true
    → ¬ Spans lo hi (rems is ps)
unfolding out_of_doc
out_of_doc-Spans [] ps lo hi len out s = cc
out_of_doc-Spans (i ∷ is) [] lo hi len out s = absurd (omega arith)
out_of_doc-Spans (i ∷ is) (p ∷ ps) lo hi len out ((x, m, _, _), s) =
    elim (Bool-cases (leb (length p) i)) [
      | inl over ↦ let gone : In x [] = rw (drop_of_le p i (ground arith)) at m in gone
      | inr more ↦ out_of_doc-Spans is ps lo hi (omega arith) (ground arith) s
    ]

-- One index moved: one position less, and no window lost that begins behind it.
pub record Bumped (m : ℕ) (is is' : List ℕ) (ps : List (List ℕ)) : Type 0 where
  pub keeps : (lo hi : ℕ) → m < lo → Spans lo hi (rems is ps) → Spans lo hi (rems is' ps)
  pub sub : Sub (rems is' ps) (rems is ps)
  pub fewer : suc (total_length (rems is' ps)) ≡ total_length (rems is ps)
  pub same_length : length is' ≡ length is

bump-Bumped :
    (m k : ℕ) (hs is : List ℕ) (ps : List (List ℕ))
    → length is ≡ length ps
    → Heads hs (rems is ps)
    → get_elem? hs k ≡ some m
    → Bumped m is (bump k is) ps
unfolding bump
bump-Bumped m k [] is ps len g e = cc
bump-Bumped m k (h ∷ hs) [] ps len g e = absurd g
bump-Bumped m k (h ∷ hs) (i ∷ is) [] len g e = absurd (omega arith)
bump-Bumped m zero (h ∷ hs) (i ∷ is) (p ∷ ps) len ((t, split), g) e =
    let same : h ≡ m = some_eq e in
    let next : drop (i + 1) p ≡ t = rw add-one (drop_next-tail i h p t split) in
    record {
      keeps = λ lo hi lt s. (
        subst (Hits lo hi) (sym next)
            (Hits-tail lo hi h (drop i p) t split (omega (arith, same, lt)) s.0),
        s.1,
      );
      sub = (λ x j. rw split (inr (rw next at j)), Sub-refl (rems is ps));
      fewer = omega (arith, ap length split, ap length next);
      same_length = refl;
    }
bump-Bumped m (suc k) (h ∷ hs) (i ∷ is) (p ∷ ps) len (split, g) e =
    let b = bump-Bumped m k hs is ps (omega arith) g e in
    record {
      keeps = λ lo hi lt s. (s.0, b.keeps lo hi lt s.1);
      sub = (λ x j. j, b.sub);
      fewer = omega (arith, b.fewer);
      same_length = omega (arith, b.same_length);
    }

-- A round: either a match, which ends in the largest of the current positions, or an index moved
-- that begins no window.
pub data Round (n : ℕ) (is : List ℕ) (ps : List (List ℕ)) (matches : List ℕ)
    (o : Option (List ℕ × List ℕ)) : Type 0 where
  hit :
      (lo hi : ℕ) (hs : List ℕ)
      → o ≡ some (advanced is, matches ++ hi ∷ [])
      → hi < lo + n
      → Heads hs (rems is ps)
      → All (λ h. lo ≤ h) hs
      → All (λ h. h ≤ hi) hs
      → In hi hs
      → Round n is ps matches o
  miss :
      (m : ℕ) (is' : List ℕ)
      → o ≡ some (is', matches)
      → Bumped m is is' ps
      → ((lo hi : ℕ) → hi < lo + n → Spans lo hi (rems is ps) → m < lo)
      → Round n is ps matches o

pub step-Round :
    (n h : ℕ) (hs is : List ℕ) (ps : List (List ℕ)) (matches : List ℕ)
    → length is ≡ length ps
    → All Increasing (rems is ps)
    → Heads (h ∷ hs) (rems is ps)
    → Round n is ps matches (step n (h ∷ hs) is matches)
unfolding step
step-Round n h hs is ps matches len inc g =
    let lo = minimum h hs in
    let hi = maximum h hs in
    elim (Bool-cases (ltb (hi - lo) n)) [
      | inl near ↦
          hit lo hi (h ∷ hs) (rw near) (omega (arith, ltb→lt (hi - lo) n near)) g (minimum-All h hs)
            (maximum-All h hs) (maximum-In h hs)
      | inr far ↦
          let (v, k, runs, least, place) = lowest-least h hs in
          miss v (bump k is) (rw (far, runs)) (bump-Bumped v k (h ∷ hs) is ps len g place)
            (λ a b lt s.
              let above = Spans-above a b (h ∷ hs) (rems is ps) g inc s in
              let top = All-In (λ x. x ≤ b) (h ∷ hs) hi above (maximum-In h hs) in
              let low = All-In (λ x. v ≤ x) (h ∷ hs) lo least (minimum-In h hs) in
              omega (arith, top, low, lt, ltb→le (hi - lo) n far))
    ]
