-- ===== src/Near/Step.antt =====
-- One round of `withinDoc`, read as an operation on what the indices leave of the positions.
use qry_eval_plus.Prelude.{
  All, Bool-cases, List, Option, [], ap, arith, drop, drop_of_lt, false, get_elem?, inl, inr, leb,
  length, ltb, none, refl, some, suc, zero, ℕ, ◌+◌, ◌-◌, ◌<◌, ◌∷◌, ◌≡◌, ◌≤◌,
}
use qry_eval_plus.InvList.Order.{Increasing}
use qry_eval_plus.Near.{out_of_doc, find_match_from, find_match, total_length}
use qry_eval_plus.Near.Chain.{
  Chain, Keeps, Keeps-first, Keeps-second, Keeps-cons, last_list, Sub, Sub-refl,
}

-- The positions from the indices on.
abbrev pub rems : List ℕ → List (List ℕ) → List (List ℕ)
rems (i ∷ is) (p ∷ ps) = drop i p ∷ rems is ps
rems _ _ = []

pub Increasing-drop : (n : ℕ) (l : List ℕ) → Increasing l → Increasing (drop n l)
Increasing-drop zero l h = h
Increasing-drop (suc n) [] h = h
Increasing-drop (suc n) (x ∷ l) h = Increasing-drop n l h.1

-- A match: the chain of the heads, which ends in the head of the last list.
pub record Hit (n a : ℕ) (is : List ℕ) (ps : List (List ℕ)) (v : ℕ) : Type 1 where
  pub chain : (P : ℕ → Type 0) → P a → Chain n P (rems is ps) v
  pub behind : List ℕ
  pub ends : last_list (rems is ps) ≡ v ∷ behind

-- A miss: one position is dropped, and it is in no chain.
pub record Miss (n : ℕ) (is is' : List ℕ) (ps : List (List ℕ)) : Type 1 where
  pub keeps : Keeps n (rems is ps) (rems is' ps)
  pub sub : Sub (rems is' ps) (rems is ps)
  pub fewer : suc (total_length (rems is' ps)) ≡ total_length (rems is ps)
  pub same_length : length is' ≡ length is

abbrev pub Stepped : ℕ → ℕ → List ℕ → List (List ℕ) → Option ℕ → List ℕ → Type 1
Stepped n a is ps none is' = Miss n is is' ps
Stepped n a is ps (some v) is' = (is' ≡ is) × Hit n a is ps v

Stepped-cons :
    (n a b i : ℕ) (p : List ℕ) (is : List ℕ) (ps : List (List ℕ)) (j : ℕ) (q : List ℕ)
    → drop i p ≡ a ∷ drop (i + 1) p
    → a < b
    → b ≤ a + n
    → (m : Option ℕ) (is' : List ℕ) → Stepped n b (j ∷ is) (q ∷ ps) m is'
    → Stepped n a (i ∷ j ∷ is) (p ∷ q ∷ ps) m (i ∷ is')
Stepped-cons n a b i p is ps j q e lt le (some v) is' (same, hit) = (
  ap (◌∷◌ i) same,
  record {
    chain = λ P pa. rw e (a, inl refl, pa, hit.chain (λ y. (a < y) × (y ≤ a + n)) (lt, le));
    behind = hit.behind;
    ends = hit.ends;
  },
)
Stepped-cons n a b i p is ps j q e lt le none [] miss = absurd (omega (arith, miss.same_length))
Stepped-cons n a b i p is ps j q e lt le none (j' ∷ is') miss = record {
  keeps = Keeps-cons n (drop i p) (drop j q) (drop j' q) (rems is ps) (rems is' ps) miss.keeps;
  sub = (λ x m. m, miss.sub);
  fewer = omega (arith, miss.fewer);
  same_length = omega (arith, miss.same_length);
}

find_match_from-Stepped :
    (n i : ℕ) (p js : List ℕ) (qs : List (List ℕ))
    → length js ≡ length qs
    → All Increasing (p ∷ qs)
    → out_of_doc (i ∷ js) (p ∷ qs) ≡ false
    → (a : ℕ) × (m : Option ℕ) × (is' : List ℕ) × (get_elem? p i ≡ some a)
      × (drop i p ≡ a ∷ drop (i + 1) p)
      × (find_match_from n i p js qs ≡ some (m, is'))
      × Stepped n a (i ∷ js) (p ∷ qs) m is'
unfolding find_match_from out_of_doc
find_match_from-Stepped n i p [] [] len inc out =
    let (a, found, split) = drop_of_lt p i (ground arith) in
    (
      a,
      some a,
      i ∷ [],
      found,
      split,
      rw found,
      (
        refl,
        record { chain = λ P pa. rw split (inl refl, pa); behind = drop (i + 1) p; ends = split },
      ),
    )
find_match_from-Stepped n i p [] (q ∷ qs) len inc out = absurd (omega arith)
find_match_from-Stepped n i p (j ∷ js) [] len inc out = absurd (omega arith)
find_match_from-Stepped n i p (j ∷ js) (q ∷ qs) len inc out =
    let (a, found, split) = drop_of_lt p i (ground arith) in
    let (b, m, is', found', split', runs, stepped) =
      find_match_from-Stepped n j q js qs (omega arith) inc.1 (ground arith) in
    elim (Bool-cases (leb b a)) [
      | inl early ↦ (
        a,
        none,
        i ∷ (j + 1) ∷ js,
        found,
        split,
        rw (found', found, early),
        record {
          keeps =
              Keeps-second n a b (drop i p) (drop (i + 1) p) (drop j q) (drop (j + 1) q)
                (rems js qs) split split' (Increasing-drop i p inc.0) (ground arith);
          sub = (λ x m. m, (λ x m. rw split' (inr m), Sub-refl (rems js qs)));
          fewer = omega (arith, ap length split');
          same_length = refl;
        },
      )
      | inr after ↦ elim (Bool-cases (ltb n (b - a))) [
        | inl wide ↦ (
          a,
          none,
          (i + 1) ∷ j ∷ js,
          found,
          split,
          rw (found', found, after, wide),
          record {
            keeps =
                Keeps-first n a b (drop i p) (drop (i + 1) p) (drop j q) (drop (j + 1) q)
                  (rems js qs) split split' (Increasing-drop j q inc.1.0) (ground arith);
            sub = (λ x m. rw split (inr m), (λ x m. m, Sub-refl (rems js qs)));
            fewer = omega (arith, ap length split);
            same_length = refl;
          },
        )
        | inr near ↦ (
          a,
          m,
          i ∷ is',
          found,
          split,
          rw (found', found, after, near, runs),
          Stepped-cons n a b i p js qs j q split (ground arith) (ground arith) m is' stepped,
        )
      ]
    ]

-- On position lists that increase and indices in range, the search for a match never raises.
pub find_match-Stepped :
    (n i : ℕ) (p js : List ℕ) (qs : List (List ℕ))
    → length js ≡ length qs
    → All Increasing (p ∷ qs)
    → out_of_doc (i ∷ js) (p ∷ qs) ≡ false
    → (a : ℕ) × (m : Option ℕ) × (is' : List ℕ) × (find_match n (i ∷ js) (p ∷ qs) ≡ some (m, is'))
      × Stepped n a (i ∷ js) (p ∷ qs) m is'
unfolding find_match
find_match-Stepped n i p js qs len inc out =
    let (a, m, is', found, split, runs, stepped) =
      find_match_from-Stepped n i p js qs len inc out in
    (a, m, is', runs, stepped)
