-- ===== src/Passages/Covers.antt =====
-- What the windows over a body cover.
use qry_eval_plus.Prelude.{
  Bool-cases, In, List, Option, [], ap, arith, drop, drop_of_le, inl, inr, length, ltb, ltb→le,
  ltb→lt, min, none, refl, some, subst, suc, sym, take, true, zero, ℕ, ◌+◌, ◌-◌, ◌<◌, ◌∙◌, ◌∷◌, ◌≡◌,
  ◌≤◌, ◌⊎◌,
}
use qry_eval_plus.Text.{Text}
use qry_eval_plus.Passages.{body_passages, Settings, slice, not_beyond, windows}

-- The end of the passage before, and where the next one starts.
abbrev end_of : Option ℕ → ℕ
end_of none = 0
end_of (some p) = p

abbrev IsBehind : Settings → ℕ → Option ℕ → ℕ → Type 0
IsBehind c start none n = start ≡ 0
IsBehind c start (some p) n =
    (p ≡ n) ⊎ ((start ≤ p) × (p ≤ n) × (p + c.psg_stride ≡ start + c.psg_len))

next-IsBehind :
    (c : Settings) (start n : ℕ)
    → c.psg_stride ≤ c.psg_len
    → IsBehind c (start + c.psg_stride) (some (min (start + c.psg_len) n)) n
next-IsBehind c start n le = elim (Bool-cases (ltb (start + c.psg_len) n)) [
  | inl lt ↦ let l = ltb→lt (start + c.psg_len) n lt in inr (omega arith, omega arith, omega arith)
  | inr ge ↦ let l = ltb→le (start + c.psg_len) n ge in inl (omega arith)
]

module _ {A : Type 0} where
  In-drop-le : (s p : ℕ) (t : A) (xs : List A) → s ≤ p → In t (drop p xs) → In t (drop s xs)
  In-drop-le zero zero t xs h i = i
  In-drop-le (suc s) zero t xs h i = absurd (omega arith)
  In-drop-le s (suc p) t [] h i = absurd i
  In-drop-le zero (suc p) t (x ∷ xs) h i = inr (In-drop-le zero p t xs (omega arith) i)
  In-drop-le (suc s) (suc p) t (x ∷ xs) h i = In-drop-le s p t xs (omega arith) i

  In-take-or-drop : (k : ℕ) (t : A) (xs : List A) → In t xs → In t (take k xs) ⊎ In t (drop k xs)
  In-take-or-drop zero t xs i = inr i
  In-take-or-drop (suc k) t [] i = absurd i
  In-take-or-drop (suc k) t (x ∷ xs) (inl e) = inl (inl e)
  In-take-or-drop (suc k) t (x ∷ xs) (inr i) = elim (In-take-or-drop k t xs i) [
    | inl j ↦ inl (inr j)
    | inr j ↦ inr j
  ]

  drop_eq : {m n : ℕ} (xs : List A) → m ≡ n → drop m xs ≡ drop n xs
  drop_eq xs e = ap (λ n. drop n xs) e

  drop-drop : (a b : ℕ) (xs : List A) → drop a (drop b xs) ≡ drop (b + a) xs
  drop-drop a zero xs = drop_eq xs (omega arith)
  drop-drop a (suc b) [] =
      drop_of_le [] a (omega arith) ∙ sym (drop_of_le [] (suc b + a) (omega arith))
  drop-drop a (suc b) (x ∷ xs) = drop-drop a b xs ∙ drop_eq {m = suc (b + a)} (x ∷ xs) (omega arith)

  -- An element beyond the start is in the slice or beyond its end.
  slice-covers :
      (s e p : ℕ) (t : A) (xs : List A)
      → s ≤ p
      → s ≤ e
      → In t (drop p xs)
      → In t (slice s e xs) ⊎ In t (drop e xs)
  slice-covers s e p t xs h l i =
      elim (In-take-or-drop (e - s) t (drop s xs) (In-drop-le s p t xs h i)) [
        | inl j ↦ inl j
        | inr j ↦ inr (subst (In t) (drop-drop (e - s) s xs ∙ drop_eq xs (omega arith)) j)
      ]

  -- Some passage has it.
  abbrev pub Covered : A → List (List A) → Type 0
  Covered t [] = ⊥
  Covered t (p ∷ ps) = In t p ⊎ Covered t ps

  not-In-drop_all : (n : ℕ) (t : A) (xs : List A) → n ≡ length xs → ¬ In t (drop n xs)
  not-In-drop_all n t xs e i = subst (In t) (drop_of_le xs n (omega arith)) i

  abbrev Suffices : Settings → ℕ → ℕ → List A → List (List A) → Type 0
  Suffices c p count xs ps =
      (length ps + count ≤ c.psg_cnt)
      × ((length ps + count ≡ c.psg_cnt) ⊎ ((t : A) → In t (drop p xs) → Covered t ps))

  -- Where the next passage starts at the end, or the passage before ends there, nothing is left.
  nothing_left :
      (c : Settings) (start : ℕ) (previous : Option ℕ) (xs : List A) (t : A)
      → IsBehind c start previous (length xs)
      → length xs ≤ start
      → ¬ In t (drop (end_of previous) xs)
  nothing_left c start none xs t e h = not-In-drop_all 0 t xs (omega arith)
  nothing_left c start (some p) xs t (inl e) h = not-In-drop_all p t xs e
  nothing_left c start (some p) xs t (inr (a, b, d)) h = not-In-drop_all p t xs (omega arith)

  stopped :
      (c : Settings) (start : ℕ) (previous : Option ℕ) (xs : List A) (t : A)
      → 0 < c.psg_stride
      → IsBehind c start previous (length xs)
      → not_beyond (min (start + c.psg_len) (length xs)) previous ≡ true
      → ¬ In t (drop (end_of previous) xs)
  stopped c start none xs t pos e h = cc
  stopped c start (some p) xs t pos (inl e) h = not-In-drop_all p t xs e
  stopped c start (some p) xs t pos (inr (a, b, d)) h =
      let le : min (start + c.psg_len) (length xs) ≤ p = ground arith in
      not-In-drop_all p t xs (omega arith)

  covered_here :
      (c : Settings) (start : ℕ) (previous : Option ℕ) (xs : List A) (t : A)
      → IsBehind c start previous (length xs)
      → start < length xs
      → In t (drop (end_of previous) xs)
      → In t (slice start (min (start + c.psg_len) (length xs)) xs)
        ⊎ In t (drop (min (start + c.psg_len) (length xs)) xs)
  covered_here c start none xs t e h i =
      slice-covers start (min (start + c.psg_len) (length xs)) 0 t xs (omega arith) (omega arith) i
  covered_here c start (some p) xs t (inl e) h i = absurd (not-In-drop_all p t xs e i)
  covered_here c start (some p) xs t (inr (a, b, d)) h i =
      slice-covers start (min (start + c.psg_len) (length xs)) p t xs a (omega arith) i

  windows-Suffices :
      (c : Settings) (fuel start : ℕ) (previous : Option ℕ) (count : ℕ) (xs : List A)
      → 0 < c.psg_stride
      → c.psg_stride ≤ c.psg_len
      → count ≤ c.psg_cnt
      → c.psg_cnt < count + fuel
      → IsBehind c start previous (length xs)
      → (ps : List (List A)) × (windows c fuel start previous count xs ≡ some ps)
        × Suffices c (end_of previous) count xs ps
  unfolding windows
  windows-Suffices c zero start previous count xs pos le few enough behind = absurd (omega arith)
  windows-Suffices c (suc fuel) start previous count xs pos le few enough behind =
      elim (Bool-cases (ltb start (length xs))) [
        | inr past ↦ (
          [],
          rw past refl,
          (
            omega arith,
            inr (λ t i.
                absurd
                  (nothing_left c start previous xs t behind (ltb→le start (length xs) past) i)),
          ),
        )
        | inl before ↦ elim (Bool-cases (ltb count c.psg_cnt)) [
          | inr full ↦
              let ge = ltb→le count c.psg_cnt full in
              ([], rw (before, full) refl, (omega arith, inl (omega arith)))
          | inl more_ ↦
              elim (Bool-cases (not_beyond (min (start + c.psg_len) (length xs)) previous)) [
                | inl stop ↦ (
                  [],
                  rw (before, more_, stop) refl,
                  (
                    omega arith,
                    inr (λ t i. absurd (stopped c start previous xs t pos behind stop i)),
                  ),
                )
                | inr go ↦
                    let lt = ltb→lt count c.psg_cnt more_ in
                    let end_ = min (start + c.psg_len) (length xs) in
                    let (ps, runs, (short, covers)) =
                      windows-Suffices c fuel (start + c.psg_stride) (some end_) (count + 1) xs pos
                        le (omega arith) (omega arith) (next-IsBehind c start (length xs) le) in
                    (
                      slice start end_ xs ∷ ps,
                      rw (before, more_, go, runs) refl,
                      (
                        omega arith,
                        elim covers [
                          | inl full ↦ inl (omega arith)
                          | inr rest ↦ inr (λ t i.
                              elim (covered_here c start previous xs t behind
                                (ltb→lt start (length xs) before) i) [
                                  | inl here ↦ inl here
                                  | inr later ↦ inr (rest t later)
                                ])
                        ],
                      ),
                    )
              ]
        ]
      ]

-- For a stride that is not zero and no longer than a passage: the windows over a body that has tokens
-- end, and are at most as many as the settings allow. Unless they are just as many, every token of
-- the body is in one of them.
pub body_passages-Covered :
    (c : Settings) (title : List Text) (b : Text) (body : List Text)
    → 0 < c.psg_stride
    → c.psg_stride ≤ c.psg_len
    → (ps : List (List Text)) × (body_passages c title (b ∷ body) ≡ some ps)
      × (length ps ≤ c.psg_cnt)
      × ((length ps ≡ c.psg_cnt) ⊎ ((t : Text) → In t (b ∷ body) → Covered t ps))
unfolding body_passages
body_passages-Covered c title b body pos le =
    let (ps, runs, (short, covers)) =
      windows-Suffices c (suc c.psg_cnt) 0 none 0 (b ∷ body) pos le (omega arith) (omega arith)
        refl in
    (
      ps,
      by_title title runs,
      omega arith,
      elim covers [ inl full ↦ inl (omega arith) | inr h ↦ inr h ],
    )
  where
    by_title :
        {ps : List (List Text)} (title' : List Text)
        → windows c (suc c.psg_cnt) 0 none 0 (b ∷ body) ≡ some ps
        → body_passages c title' (b ∷ body) ≡ some ps
    by_title [] e = e
    by_title (t ∷ ts) e = e
