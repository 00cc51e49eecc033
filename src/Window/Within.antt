-- ===== src/Window/Within.antt =====
-- What the inner loop of WINDOW/n returns for one document.
use qry_eval_plus.Prelude.{
  All, All-In, All-map, Bool-cases, In, List, [], add-one, ap, arith, drop, false, inl, inr, length,
  map, refl, some, subst, suc, sym, true, zero, ℕ, ◌++◌, ◌+◌, ◌<◌, ◌∙◌, ◌∷◌, ◌≡◌, ◌≢◌, ◌≤◌, ◌⊎◌,
}
use qry_eval_plus.InvList.Order.{Increasing}
use qry_eval_plus.Near.{out_of_doc, total_length}
use qry_eval_plus.Near.Step.{rems, Increasing-drop}
use qry_eval_plus.Near.Within.{
  drop_next-tail, advanced, length-advanced, Sub-advanced, total-advanced-lt,
}
use qry_eval_plus.Near.Matches.{length-zeros, rems-zeros}
use qry_eval_plus.Window.{current_positions, step, window_loop, window_doc}
use qry_eval_plus.Window.Spans.{Spans, Heads, Windows, Sub-Windows, Heads-Spans, Heads-Touches}
use qry_eval_plus.Window.Least.{sort-Increasing}
use qry_eval_plus.Window.Step.{
  Round, hit, miss, step-Round, current_positions-Heads, out_of_doc-Spans,
}
use mathlib.Core.List.{append_assoc, append-nil}

-- The matches found from some indices on.
pub record Matches (n : ℕ) (is : List ℕ) (ps : List (List ℕ)) (new : List ℕ) : Type 0 where
  pub sound : All (λ e. Windows n (rems is ps) e) new
  pub increasing : Increasing new
  pub complete : (lo hi : ℕ) → hi < lo + n → Spans lo hi (rems is ps) → new ≢ []

Returns : ℕ → ℕ → List ℕ → List (List ℕ) → List ℕ → Type 0
Returns n fuel is ps matches =
    (new : List ℕ) × (window_loop n fuel is ps matches ≡ some (matches ++ new))
    × Matches n is ps new

rems-Increasing :
    (is : List ℕ) (ps : List (List ℕ)) → All Increasing ps → All Increasing (rems is ps)
rems-Increasing [] ps h = tt
rems-Increasing (i ∷ is) [] h = tt
rems-Increasing (i ∷ is) (p ∷ ps) h = (Increasing-drop i p h.0, rems-Increasing is ps h.1)

-- Once all have advanced, a window ends behind every position that stood first before.
Spans-beyond :
    (lo e m : ℕ) (hs is : List ℕ) (ps : List (List ℕ))
    → All Increasing (rems is ps)
    → Heads hs (rems is ps)
    → In m hs
    → Spans lo e (rems (advanced is) ps)
    → m < e
Spans-beyond lo e m [] is ps inc g i s = absurd i
Spans-beyond lo e m (h ∷ hs) [] ps inc g i s = absurd g
Spans-beyond lo e m (h ∷ hs) (j ∷ is) [] inc g i s = absurd g
Spans-beyond lo e m (h ∷ hs) (j ∷ is) (p ∷ ps) inc ((t, split), g) (inl same) ((x, k, le, ge), s) =
    let next : drop (j + 1) p ≡ t = rw add-one (drop_next-tail j h p t split) in
    let order : Increasing (h ∷ t) = subst Increasing split inc.0 in
    omega (arith, same, ge, All-In (λ y. h < y) t x order.0 (subst (In x) next k))
Spans-beyond lo e m (h ∷ hs) (j ∷ is) (p ∷ ps) inc (split, g) (inr i) (_, s) =
    Spans-beyond lo e m hs is ps inc.1 g i s

module _ (n : ℕ) (is : List ℕ) (ps : List (List ℕ)) (inc : All Increasing ps)
    (len : length is ≡ length ps) where
  Matches-hit :
      (lo hi : ℕ) (hs new : List ℕ)
      → hi < lo + n
      → Heads hs (rems is ps)
      → All (λ h. lo ≤ h) hs
      → All (λ h. h ≤ hi) hs
      → In hi hs
      → Matches n (advanced is) ps new
      → Matches n is ps (hi ∷ new)
  Matches-hit lo hi hs new lt g low high top h = record {
    sound = (
      (
        lo,
        lt,
        Heads-Spans lo hi hs (rems is ps) g low high,
        Heads-Touches hi hs (rems is ps) g top,
      ),
      All-map _ _
          (λ e w. Sub-Windows n e (rems (advanced is) ps) (rems is ps) (Sub-advanced is ps len) w)
          new h.sound,
    );
    increasing = (
      All-map _ _
          (λ e (a, _, s, _). Spans-beyond a e hi hs is ps (rems-Increasing is ps inc) g top s) new
          h.sound,
      h.increasing,
    );
    complete = λ a b l s. λ nil. cc;
  }

Matches-over :
    (n : ℕ) (is : List ℕ) (ps : List (List ℕ))
    → length is ≡ length ps
    → out_of_doc is ps ≡ true
    → Matches n is ps []
Matches-over n is ps len out = record {
  sound = tt;
  increasing = tt;
  complete = λ lo hi lt s. absurd (out_of_doc-Spans is ps lo hi len out s);
}

pass-Returns :
    (n fuel : ℕ) (i : ℕ) (is : List ℕ) (p : List ℕ) (ps : List (List ℕ)) (matches : List ℕ)
    → length is ≡ length ps
    → All Increasing (p ∷ ps)
    → out_of_doc (i ∷ is) (p ∷ ps) ≡ false
    → (hs : List ℕ) → current_positions (i ∷ is) (p ∷ ps) ≡ some hs
    → Round n (i ∷ is) (p ∷ ps) matches (step n hs (i ∷ is) matches)
    → ((is' matches' : List ℕ)
        → length is' ≡ suc (length ps)
        → total_length (rems is' (p ∷ ps)) < total_length (rems (i ∷ is) (p ∷ ps))
        → Returns n fuel is' (p ∷ ps) matches')
    → Returns n (suc fuel) (i ∷ is) (p ∷ ps) matches
unfolding window_loop Returns
pass-Returns n fuel i is p ps matches len inc out hs here (hit lo hi gs e lt g low high top) again =
    let (new, runs, h) =
      again (advanced (i ∷ is)) (matches ++ hi ∷ []) (omega (arith, length-advanced (i ∷ is)))
        (total-advanced-lt i is p ps out) in
    (
      hi ∷ new,
      rw (out, here, e) (runs ∙ ap some (append_assoc matches (hi ∷ []) new)),
      Matches-hit n (i ∷ is) (p ∷ ps) inc (omega arith) lo hi gs new lt g low high top h,
    )
pass-Returns n fuel i is p ps matches len inc out hs here (miss m is' e b before) again =
    let (new, runs, h) =
      again is' matches (omega (arith, b.same_length)) (omega (arith, b.fewer)) in
    (
      new,
      rw (out, here, e) runs,
      record {
        sound =
            All-map _ _
              (λ x w. Sub-Windows n x (rems is' (p ∷ ps)) (rems (i ∷ is) (p ∷ ps)) b.sub w) new
              h.sound;
        increasing = h.increasing;
        complete = λ lo hi lt s. h.complete lo hi lt (b.keeps lo hi (before lo hi lt s) s);
      },
    )

window_loop-Returns :
    (n fuel : ℕ) (is : List ℕ) (p : List ℕ) (ps : List (List ℕ)) (matches : List ℕ)
    → length is ≡ suc (length ps)
    → All Increasing (p ∷ ps)
    → total_length (rems is (p ∷ ps)) < fuel
    → Returns n fuel is (p ∷ ps) matches
unfolding window_loop Returns
window_loop-Returns n zero is p ps matches len inc h = absurd (omega arith)
window_loop-Returns n (suc fuel) [] p ps matches len inc h = absurd (omega arith)
window_loop-Returns n (suc fuel) (i ∷ is) p ps matches len inc h =
    elim (Bool-cases (out_of_doc (i ∷ is) (p ∷ ps))) [
      | inl out ↦
          ([], rw (out, append-nil) refl, Matches-over n (i ∷ is) (p ∷ ps) (omega arith) out)
      | inr more ↦
          let (hs, here, g) = current_positions-Heads (i ∷ is) (p ∷ ps) (omega arith) more in
          pass-Returns n fuel i is p ps matches (omega arith) inc more hs here
            (heads-Round n i is p ps matches hs (omega arith) inc g)
            (λ js matches' len' less.
              window_loop-Returns n fuel js p ps matches' len' inc (omega arith))
    ]
  where
    heads-Round :
        (n i : ℕ) (is p : List ℕ) (ps : List (List ℕ)) (matches hs : List ℕ)
        → length (i ∷ is) ≡ length (p ∷ ps)
        → All Increasing (p ∷ ps)
        → Heads hs (rems (i ∷ is) (p ∷ ps))
        → Round n (i ∷ is) (p ∷ ps) matches (step n hs (i ∷ is) matches)
    heads-Round n i is p ps matches [] len inc g = absurd g
    heads-Round n i is p ps matches (k ∷ hs) len inc g =
        step-Round n k hs (i ∷ is) (p ∷ ps) matches len (rems-Increasing (i ∷ is) (p ∷ ps) inc) g

decide_empty :
    (n : ℕ) (ps : List (List ℕ)) (new : List ℕ)
    → ((lo hi : ℕ) → hi < lo + n → Spans lo hi ps → new ≢ [])
    → (new ≢ []) ⊎ ((lo hi : ℕ) → hi < lo + n → ¬ Spans lo hi ps)
decide_empty n ps [] h = inr (λ lo hi lt s. h lo hi lt s refl)
decide_empty n ps (x ∷ new) h = inl (λ e. cc)

-- On one or more lists of increasing positions the inner loop of WINDOW/n ends without an
-- exception. Every position that it returns is a term's and ends an interval shorter than `n` with
-- a position of each term in it; the positions increase; and it returns none only if no interval
-- shorter than `n` holds a position of each term.
pub window_doc-Windows :
    (n : ℕ) (p : List ℕ) (ps : List (List ℕ))
    → All Increasing (p ∷ ps)
    → (matches : List ℕ) × (window_doc n (p ∷ ps) ≡ some matches)
      × All (λ e. Windows n (p ∷ ps) e) matches
      × Increasing matches
      × ((matches ≢ []) ⊎ ((lo hi : ℕ) → hi < lo + n → ¬ Spans lo hi (p ∷ ps)))
unfolding window_doc Returns
window_doc-Windows n p ps inc =
    let qs = p ∷ ps in
    let (new, runs, h) =
      window_loop-Returns n (suc (total_length qs)) (map (λ _. zero) qs) p ps [] (length-zeros qs)
        inc (omega (arith, ap total_length (rems-zeros qs))) in
    (
      new,
      rw (runs, sort-Increasing new h.increasing) refl,
      subst (λ ls. All (λ e. Windows n ls e) new) (rems-zeros qs) h.sound,
      h.increasing,
      decide_empty n qs new
          (λ lo hi lt s. h.complete lo hi lt (subst (Spans lo hi) (sym (rems-zeros qs)) s)),
    )
