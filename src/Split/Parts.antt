-- ===== src/Split/Parts.antt =====
-- The two parts of the questions.
use qry_eval_plus.Prelude.{
  &&-true, ==_refl, >>=-some, Bool-cases, In, List, Option-cases, [], ap, arith, false, if-some,
  inl, inr, length, length-map, map, refl, some, some_eq, subst, sym, true, ◌&&◌, ◌==◌, ◌∙◌, ◌∷◌,
  ◌≡◌, ◌≢◌, ◌⊎◌,
}
use qry_eval_plus.Text.{Text, same_text}
use qry_eval_plus.Split.{
  Row, id_of, mem, distinct, row_by_id, rows_by_id, others, triviaqa_questions, Payload,
  build_split, expected_dev_count, expected_test_count, expected_question_count,
}

same_text-eq : (s t : Text) → same_text s t ≡ true → s ≡ t
unfolding same_text
same_text-eq [] [] h = refl
same_text-eq [] (b ∷ t) h = cc
same_text-eq (a ∷ s) [] h = cc
same_text-eq (a ∷ s) (b ∷ t) h = elim (Bool-cases (a == b)) [
  | inr n ↦ cc (rw n at h)
  | inl e ↦ let a_b : a ≡ b = ground arith in λ i. a_b i ∷ same_text-eq s t (rw e at h) i
]

same_text_refl : (s : Text) → same_text s s ≡ true
unfolding same_text
same_text_refl [] = refl
same_text_refl (a ∷ s) = rw (==_refl a) (same_text_refl s)

mem-In : (id : Text) (ids : List Text) → mem id ids ≡ true → In id ids
unfolding mem
mem-In id [] h = cc
mem-In id (i ∷ ids) h = elim (Bool-cases (same_text i id)) [
  | inl e ↦ inl (same_text-eq i id e)
  | inr n ↦ inr (mem-In id ids (rw n at h))
]

In-mem : (id : Text) (ids : List Text) → In id ids → mem id ids ≡ true
unfolding mem
In-mem id [] i = absurd i
In-mem id (j ∷ ids) (inl e) = rw (e, same_text_refl id)
In-mem id (j ∷ ids) (inr i) = ground (arith, In-mem id ids i)

-- The development rows are the rows of their ids, in the order of the ids.
row_by_id-found :
    (id : Text) (rows : List Row) (r : Row) → row_by_id id rows ≡ some r → In r rows × (r.0 ≡ id)
unfolding row_by_id
row_by_id-found id [] r h = cc
row_by_id-found id (q ∷ rows) r h = elim (Bool-cases (same_text q.0 id)) [
  | inl e ↦
      let q_r : q ≡ r = some_eq (rw e at h) in
      (inl q_r, sym (ap (λ (x : Row). x.0) q_r) ∙ same_text-eq q.0 id e)
  | inr n ↦ let (i, e) = row_by_id-found id rows r (rw n at h) in (inr i, e)
]

rows_by_id-found :
    (ids : List Text) (rows dev : List Row)
    → rows_by_id ids rows ≡ some dev
    → (map id_of dev ≡ ids) × ((r : Row) → In r dev → In r rows × In r.0 ids)
unfolding rows_by_id
rows_by_id-found [] rows dev h = (
  ap (map id_of) (sym (some_eq h)),
  λ r i. let gone : In r [] = rw (sym (some_eq h)) at i in absurd gone,
)
rows_by_id-found (id ∷ ids) rows dev h = elim (Option-cases (row_by_id id rows)) [
  | inl n ↦ cc (rw n at h)
  | inr (r, f) ↦ elim (Option-cases (rows_by_id ids rows)) [
    | inl n ↦ cc (rw (f, n) at h)
    | inr (rs, g) ↦
        let (order, from) = rows_by_id-found ids rows rs g in
        let (found, same) = row_by_id-found id rows r f in
        let dev_eq : r ∷ rs ≡ dev = some_eq (rw (f, g) at h) in
        (
          ap (map id_of) (sym dev_eq) ∙ (λ i. same i ∷ order i),
          λ q i. elim (subst (In q) (sym dev_eq) i) [
            | inl e ↦ (subst (λ x. In x rows) e found, inl (sym same ∙ ap (λ (x : Row). x.0) e))
            | inr j ↦ let (a, b) = from q j in (a, inr b)
          ],
        )
  ]
]

others-In :
    (ids : List Text) (rows : List Row) (r : Row)
    → In r (others ids rows)
    → In r rows × (mem r.0 ids ≡ false)
unfolding others
others-In ids [] r i = absurd i
others-In ids (q ∷ rows) r i = elim (Bool-cases (mem q.0 ids)) [
  | inl h ↦ let (a, b) = others-In ids rows r (rw h at i) in (inr a, b)
  | inr h ↦ elim (rw h at i) [
    | inl e ↦ (inl e, subst (λ (x : Row). mem x.0 ids ≡ false) e h)
    | inr j ↦ let (a, b) = others-In ids rows r j in (inr a, b)
  ]
]

In-others :
    (ids : List Text) (rows : List Row) (r : Row)
    → In r rows
    → mem r.0 ids ≡ false
    → In r (others ids rows)
unfolding others
In-others ids [] r i h = absurd i
In-others ids (q ∷ rows) r (inl e) h =
    rw (subst (λ (x : Row). mem x.0 ids ≡ false) (sym e) h) (inl e)
In-others ids (q ∷ rows) r (inr i) h = elim (Bool-cases (mem q.0 ids)) [
  | inl k ↦ rw k (In-others ids rows r i h)
  | inr k ↦ rw k (inr (In-others ids rows r i h))
]

In-map : (r : Row) (rows : List Row) → In r rows → In r.0 (map id_of rows)
In-map r [] i = absurd i
In-map r (q ∷ rows) (inl e) = inl (ap (λ (x : Row). x.0) e)
In-map r (q ∷ rows) (inr i) = inr (In-map r rows i)

In-ids : (id : Text) (rows : List Row) → In id (map id_of rows) → (r : Row) × In r rows × (r.0 ≡ id)
In-ids id [] i = absurd i
In-ids id (q ∷ rows) (inl e) = (q, inl refl, e)
In-ids id (q ∷ rows) (inr i) = let (r, j, e) = In-ids id rows i in (r, inr j, e)

distinct_head :
    (x y : Row) (rows : List Row) → distinct (map id_of (x ∷ rows)) ≡ true → In y rows → x.0 ≢ y.0
unfolding distinct
distinct_head x y rows d m f =
    let seen =
      In-mem x.0 (map id_of rows) (subst (λ t. In t (map id_of rows)) (sym f) (In-map y rows m)) in
    ground arith

distinct_tail :
    (x : Row) (rows : List Row)
    → distinct (map id_of (x ∷ rows)) ≡ true
    → distinct (map id_of rows) ≡ true
unfolding distinct
distinct_tail x rows d = ground arith

-- Rows with distinct ids are told apart by them.
unique :
    (rows : List Row) (q r : Row)
    → distinct (map id_of rows) ≡ true
    → In q rows
    → In r rows
    → q.0 ≡ r.0
    → q ≡ r
unique [] q r d i j e = absurd i
unique (x ∷ rows) q r d (inl a) (inl b) e = sym a ∙ b
unique (x ∷ rows) q r d (inl a) (inr b) e =
    absurd (distinct_head x r rows d b (ap (λ (y : Row). y.0) a ∙ e))
unique (x ∷ rows) q r d (inr a) (inl b) e =
    absurd (distinct_head x q rows d a (ap (λ (y : Row). y.0) b ∙ sym e))
unique (x ∷ rows) q r d (inr a) (inr b) e = unique rows q r (distinct_tail x rows d) a b e

pub record IsSplit (gold dev_rows : List Row) (p : Payload) : Type 0 where
  pub all_rows : p.all ≡ gold
  pub dev_order : map id_of p.dev ≡ map id_of dev_rows
  pub dev_count : length p.dev ≡ expected_dev_count
  pub test_count : length p.test ≡ expected_test_count
  pub covers : (r : Row) → In r gold → In r p.dev ⊎ In r p.test
  pub dev_from : (r : Row) → In r p.dev → In r gold
  pub test_from : (r : Row) → In r p.test → In r gold
  pub disjoint : (q r : Row) → In q p.dev → In r p.test → q.0 ≢ r.0

-- What the checks of `build_split` say where it returns.
record Passed (gold dev_rows : List Row) (p : Payload) : Type 0 where
  distinct_ids : distinct (map id_of gold) ≡ true
  dev_ids : length (map id_of dev_rows) ≡ expected_dev_count
  found : rows_by_id (map id_of dev_rows) gold ≡ some p.dev
  rest : p.test ≡ others (map id_of dev_rows) gold
  same : p.all ≡ gold
  rest_count : length p.test ≡ expected_test_count

build_split-Passed :
    (gold dev_rows : List Row) (p : Payload)
    → build_split gold dev_rows ≡ some p
    → Passed gold dev_rows p
unfolding build_split triviaqa_questions
build_split-Passed gold dev_rows p h =
    let (all, checked, h1) = >>=-some (triviaqa_questions gold) _ h in
    let (right, same) =
      if-some (length gold == expected_question_count && distinct (map id_of gold)) (some gold)
        checked in
    let ids = map id_of dev_rows in
    let (counted, h2) = if-some (length ids == expected_dev_count && distinct ids) _ h1 in
    let (dev, found, h3) = >>=-some (rows_by_id (map id_of dev_rows) all) _ h2 in
    let (test_right, built) = if-some (length (others ids all) == expected_test_count) _ h3 in
    let gold_all : gold ≡ all = some_eq same in
    let p_eq = some_eq built in
    record {
      distinct_ids =
          (&&-true (length gold == expected_question_count) (distinct (map id_of gold)) right).1;
      dev_ids =
          ground (arith, (&&-true (length ids == expected_dev_count) (distinct ids) counted).0);
      found =
          subst (λ rows. rows_by_id (map id_of dev_rows) rows ≡ some p.dev) (sym gold_all)
            (found ∙ ap (λ (x : Payload). some x.dev) p_eq);
      rest =
          sym (ap (λ (x : Payload). x.test) p_eq) ∙ ap (others (map id_of dev_rows)) (sym gold_all);
      same = sym (ap (λ (x : Payload). x.all) p_eq) ∙ sym gold_all;
      rest_count = ap (λ (x : Payload). length x.test) (sym p_eq) ∙ ground arith;
    }

-- Where the split is accepted, every question of the gold file is in exactly one of the parts and
-- the parts hold no other: 40 for development, in the order of the query file, and 278 for the test.
pub build_split-IsSplit :
    (gold dev_rows : List Row) (p : Payload)
    → build_split gold dev_rows ≡ some p
    → IsSplit gold dev_rows p
build_split-IsSplit gold dev_rows p h =
    let c = build_split-Passed gold dev_rows p h in
    let ids = map id_of dev_rows in
    let (order, from) = rows_by_id-found ids gold p.dev c.found in
    record {
      all_rows = c.same;
      dev_order = order;
      dev_count = sym (length-map id_of p.dev) ∙ ap length order ∙ c.dev_ids;
      test_count = c.rest_count;
      covers = λ r i. elim (Bool-cases (mem r.0 ids)) [
        | inr k ↦ inr (subst (In r) (sym c.rest) (In-others ids gold r i k))
        | inl k ↦
            let (d, j, e) = In-ids r.0 p.dev (subst (In r.0) (sym order) (mem-In r.0 ids k)) in
            inl (subst (λ x. In x p.dev) (unique gold d r c.distinct_ids (from d j).0 i e) j)
      ];
      dev_from = λ r i. (from r i).0;
      test_from = λ r i. (others-In ids gold r (subst (In r) c.rest i)).0;
      disjoint = λ q r i j e.
          let out = (others-In ids gold r (subst (In r) c.rest j)).1 in
          let seen = In-mem q.0 ids (from q i).1 in
          let same_mem = ap (λ t. mem t ids) e in ground arith;
    }
