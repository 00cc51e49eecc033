-- ===== src/Near/Matches.antt =====
-- What `withinDoc` of NEAR/n returns.
use qry_eval_plus.Prelude.{
  All, All-In, All-map, Bool-cases, In, List, Option, [], ap, arith, false, inl, inr, length, map,
  none, refl, some, subst, suc, sym, zero, ℕ, ◌++◌, ◌<◌, ◌∙◌, ◌∷◌, ◌≡◌, ◌≢◌, ◌⊎◌,
}
use mathlib.Core.List.{append_assoc, append-nil}
use qry_eval_plus.InvList.Order.{Increasing}
use qry_eval_plus.Near.{out_of_doc, find_match, within_loop, within_doc, total_length}
use qry_eval_plus.Near.Chain.{Occurs, last_list, Sub-Keeps, Sub-last, Chain-In_last}
use qry_eval_plus.Near.Step.{rems, Stepped, Hit, Miss, find_match-Stepped}
use qry_eval_plus.Near.Within.{
  advanced, length-advanced, Sub-rems, Sub-advanced, last-advanced, last-Increasing,
  total-advanced-lt, out_of_doc-Chain,
}

-- The matches found from some indices on.
pub record Matches (n : ℕ) (is : List ℕ) (ps : List (List ℕ)) (new : List ℕ) : Type 0 where
  pub sound : All (λ e. Occurs n ps e) new
  pub among : All (λ e. In e (last_list (rems is ps))) new
  pub increasing : Increasing new
  pub complete : (e : ℕ) → Occurs n (rems is ps) e → new ≢ []

abbrev pub Returns : ℕ → ℕ → List ℕ → List (List ℕ) → List ℕ → Type 0
Returns n fuel is ps matches =
    (new : List ℕ) × (within_loop n fuel is ps matches ≡ some (matches ++ new))
    × Matches n is ps new

module _ (n : ℕ) (is : List ℕ) (ps : List (List ℕ)) where
  Matches-Miss : (is' new : List ℕ) → Miss n is is' ps → Matches n is' ps new → Matches n is ps new
  Matches-Miss is' new miss h = record {
    sound = h.sound;
    among = All-map _ _ (λ e m. Sub-last (rems is' ps) (rems is ps) e miss.sub m) new h.among;
    increasing = h.increasing;
    complete = λ e c. h.complete e (miss.keeps _ e c);
  }

  Matches-Hit :
      (a v : ℕ) (new : List ℕ)
      → length is ≡ length ps
      → All Increasing ps
      → Hit n a is ps v
      → Matches n (advanced is) ps new
      → Matches n is ps (v ∷ new)
  Matches-Hit a v new len inc hit h =
      let tail = last-advanced v hit.behind is ps len hit.ends in
      let order : Increasing (v ∷ hit.behind) =
        subst Increasing hit.ends (last-Increasing is ps inc) in
      record {
        sound = (
          Sub-Keeps n (rems is ps) ps (Sub-rems is ps len) _ v (hit.chain (λ _. Unit {0}) tt),
          h.sound,
        );
        among = (
          Chain-In_last n (rems is ps) (λ _. Unit {0}) v (hit.chain (λ _. Unit {0}) tt),
          All-map _ _
              (λ e m. Sub-last (rems (advanced is) ps) (rems is ps) e (Sub-advanced is ps len) m)
              new h.among,
        );
        increasing = (
          All-map _ _ (λ e m. All-In (λ y. v < y) hit.behind e order.0 (rw tail at m)) new h.among,
          h.increasing,
        );
        complete = λ e c. λ nil. cc;
      }

round-Returns :
    (n fuel : ℕ) (i : ℕ) (is : List ℕ) (p : List ℕ) (ps : List (List ℕ)) (matches : List ℕ)
    → length is ≡ length ps
    → All Increasing (p ∷ ps)
    → out_of_doc (i ∷ is) (p ∷ ps) ≡ false
    → ((is' matches' : List ℕ)
        → length is' ≡ suc (length ps)
        → total_length (rems is' (p ∷ ps)) < total_length (rems (i ∷ is) (p ∷ ps))
        → Returns n fuel is' (p ∷ ps) matches')
    → (a : ℕ) (m : Option ℕ) (is' : List ℕ) → find_match n (i ∷ is) (p ∷ ps) ≡ some (m, is')
    → Stepped n a (i ∷ is) (p ∷ ps) m is'
    → Returns n (suc fuel) (i ∷ is) (p ∷ ps) matches
unfolding within_loop
round-Returns n fuel i is p ps matches len inc out again a none is' runs miss =
    let (new, found, h) =
      again is' matches (omega (arith, miss.same_length)) (omega (arith, miss.fewer)) in
    (new, rw (out, runs) found, Matches-Miss n (i ∷ is) (p ∷ ps) is' new miss h)
round-Returns n fuel i is p ps matches len inc out again a (some v) is' runs (same, hit) =
    let (new, found, h) =
      again (advanced (i ∷ is)) (matches ++ v ∷ []) (omega (arith, length-advanced (i ∷ is)))
        (total-advanced-lt i is p ps out) in
    (
      v ∷ new,
      rw (out, runs, same) (found ∙ ap some (append_assoc matches (v ∷ []) new)),
      Matches-Hit n (i ∷ is) (p ∷ ps) a v new (omega arith) inc hit h,
    )

within_loop-Returns :
    (n fuel : ℕ) (is : List ℕ) (p : List ℕ) (ps : List (List ℕ)) (matches : List ℕ)
    → length is ≡ suc (length ps)
    → All Increasing (p ∷ ps)
    → total_length (rems is (p ∷ ps)) < fuel
    → Returns n fuel is (p ∷ ps) matches
unfolding within_loop
within_loop-Returns n zero is p ps matches len inc h = absurd (omega arith)
within_loop-Returns n (suc fuel) [] p ps matches len inc h = absurd (omega arith)
within_loop-Returns n (suc fuel) (i ∷ is) p ps matches len inc h =
    elim (Bool-cases (out_of_doc (i ∷ is) (p ∷ ps))) [
      | inl out ↦ (
        [],
        rw (out, append-nil) refl,
        record {
          sound = tt;
          among = tt;
          increasing = tt;
          complete = λ e c. absurd (out_of_doc-Chain n (i ∷ is) (p ∷ ps) _ e (omega arith) out c);
        },
      )
      | inr more ↦
          let (a, m, is', runs, stepped) = find_match-Stepped n i p is ps (omega arith) inc more in
          round-Returns n fuel i is p ps matches (omega arith) inc more
            (λ js matches' len' less.
              within_loop-Returns n fuel js p ps matches' len' inc (omega arith))
            a m is' runs stepped
    ]

pub length-zeros : (ps : List (List ℕ)) → length (map (λ _. zero) ps) ≡ length ps
length-zeros [] = refl
length-zeros (p ∷ ps) = ap suc (length-zeros ps)

pub rems-zeros : (ps : List (List ℕ)) → rems (map (λ _. zero) ps) ps ≡ ps
rems-zeros [] = refl
rems-zeros (p ∷ ps) = ap (◌∷◌ p) (rems-zeros ps)

decide_empty :
    (n : ℕ) (ps : List (List ℕ)) (new : List ℕ)
    → ((e : ℕ) → Occurs n ps e → new ≢ [])
    → (new ≢ []) ⊎ ((e : ℕ) → ¬ Occurs n ps e)
decide_empty n ps [] h = inr (λ e c. h e c refl)
decide_empty n ps (x ∷ new) h = inl (λ e. cc)

-- On one or more lists of increasing positions `withinDoc` ends without an exception. Every
-- position that it returns ends an occurrence of the terms, in order and each at most `n` behind
-- the one before; the positions increase; and it returns none only if the terms do not occur.
pub within_doc-Occurs :
    (n : ℕ) (p : List ℕ) (ps : List (List ℕ))
    → All Increasing (p ∷ ps)
    → (matches : List ℕ) × (within_doc n (p ∷ ps) ≡ some matches)
      × All (λ e. Occurs n (p ∷ ps) e) matches
      × Increasing matches
      × ((matches ≢ []) ⊎ ((e : ℕ) → ¬ Occurs n (p ∷ ps) e))
unfolding within_doc
within_doc-Occurs n p ps inc =
    let qs = p ∷ ps in
    let (new, runs, h) =
      within_loop-Returns n (suc (total_length qs)) (map (λ _. zero) qs) p ps [] (length-zeros qs)
        inc (omega (arith, ap total_length (rems-zeros qs))) in
    (
      new,
      runs,
      h.sound,
      h.increasing,
      decide_empty n qs new
          (λ e c. h.complete e (subst (λ ls. Occurs n ls e) (sym (rems-zeros qs)) c)),
    )
