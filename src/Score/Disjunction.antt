-- ===== src/Score/Disjunction.antt =====
-- Trees of SCORE, OR, SUM and WSUM operators match the smallest document that a leaf still holds.
use qry_eval_plus.Prelude.{
  All-In, Bool, Bool-cases, In, List, Option, [], ap, arith, false, inl, inr, ltb, ltb→le, ltb→lt,
  none, refl, some, some_eq, subst, suc, sym, true, zero, ℕ, ◌<◌, ◌∙◌, ◌∷◌, ◌≡◌, ◌≤◌, ◌⊎◌,
}
use qry_eval_plus.InvList.{DocPosting}
use qry_eval_plus.InvList.Order.{Ascending}
use qry_eval_plus.Cursor.{Cursor}
use qry_eval_plus.Cursor.Advance.{rest, IsReady, View, view, rest-Ascending}
use qry_eval_plus.Score.{
  Kind, and_, Sop, leaf, branch, Sops, nil, cons, get_match, smaller_docid, match_min, has_match,
  report, or_, sum, wsum,
}

abbrev pub AllSops : (Sop → Type 0) → Sops → Type 0
AllSops P nil = Unit
AllSops P (cons q qs) = P q × AllSops P qs

abbrev pub NotAnd : Kind → Type 0
NotAnd and_ = ⊥
NotAnd k = Unit

-- A tree without AND, over ready cursors, of at most the given height.
unfoldable pub IsDisjunction : ℕ → Sop → Type 0
IsDisjunction zero q = ⊥
IsDisjunction (suc height) (leaf cache c) = IsReady c
IsDisjunction (suc height) (branch k cache args) =
    NotAnd k × AllSops (λ q. IsDisjunction height q) args

-- A document that a leaf still holds.
unfoldable mutual
  pub Holds : ℕ → Sop → Type 0
  Holds d (leaf cache c) = (p : DocPosting) × In p (rest c) × (p.docid ≡ d)
  Holds d (branch k cache args) = HoldsSome d args

  pub HoldsSome : ℕ → Sops → Type 0
  HoldsSome d nil = ⊥
  HoldsSome d (cons q qs) = Holds d q ⊎ HoldsSome d qs

-- The tree without its cached documents.
unfoldable mutual
  pub clear : Sop → Sop
  clear (leaf cache c) = leaf none c
  clear (branch k cache args) = branch k none (clear_all args)

  pub clear_all : Sops → Sops
  clear_all nil = nil
  clear_all (cons q qs) = cons (clear q) (clear_all qs)

-- The smallest document is reported and cached, or there is none; the cursors do not move.
pub data Matched (q q' : Sop) (b : Bool) : Type 0 where
  no_match : b ≡ false → ((d : ℕ) → ¬ Holds d q) → clear q' ≡ clear q → Matched q q' b
  match_at :
      (d : ℕ)
      → b ≡ true
      → get_match q' ≡ some d
      → Holds d q
      → ((e : ℕ) → Holds e q → d ≤ e)
      → clear q' ≡ clear q
      → Matched q q' b

abbrev pub Matches : ℕ → Sop → Type 0
Matches fuel q = (q' : Sop) × (b : Bool) × (has_match fuel q ≡ some (q', b)) × Matched q q' b

pub In-ge :
    (p : DocPosting) (ps : List DocPosting) (q : DocPosting)
    → Ascending (p ∷ ps)
    → In q (p ∷ ps)
    → p.docid ≤ q.docid
In-ge p ps q a (inl e) = omega (arith, ap (λ r. r.docid) e)
In-ge p ps q a (inr i) = let lt = All-In (λ r. p.docid < r.docid) ps q a.0 i in omega (arith, lt)

leaf-Matches :
    (fuel : ℕ) (cache : Option ℕ) (c : Cursor) → IsReady c → Matches (suc fuel) (leaf cache c)
unfolding has_match Holds clear
leaf-Matches fuel cache c r = elim (view c r) [
  | View.over done empty ↦ (
    leaf cache c,
    false,
    rw done refl,
    no_match refl (λ d (p, i, e). let gone : In p [] = rw empty at i in absurd gone) refl,
  )
  | View.at p ps more here posting split ↦
      let order : Ascending (p ∷ ps) = rw split at (rest-Ascending c r) in
      (
        leaf (some p.docid) c,
        true,
        rw (more, here) refl,
        match_at p.docid refl refl (p, subst (In p) (sym split) (inl refl), refl)
            (λ e (q, i, same). omega (arith, same, In-ge p ps q order (subst (In q) split i))) refl,
      )
]

-- The smallest of a document and the ones that the arguments hold.
abbrev Candidate : Option ℕ → Sops → ℕ → Type 0
Candidate best args d = (best ≡ some d) ⊎ HoldsSome d args

Least : Option ℕ → Sops → Option ℕ → Type 0
Least best args none = (d : ℕ) → ¬ Candidate best args d
Least best args (some d) = Candidate best args d × ((e : ℕ) → Candidate best args e → d ≤ e)

Least-move :
    (best best' : Option ℕ) (args args' : Sops) (m : Option ℕ)
    → ((d : ℕ) → Candidate best' args' d → Candidate best args d)
    → ((d : ℕ) → Candidate best args d → (e : ℕ) × Candidate best' args' e × (e ≤ d))
    → Least best' args' m
    → Least best args m
unfolding Least
Least-move best best' args args' none back forth h = λ d c. let (e, c', le) = forth d c in h e c'
Least-move best best' args args' (some d) back forth h =
    (back d h.0, λ e c. let (x, c', le) = forth e c in let low = h.1 x c' in omega (arith, low, le))

smaller_docid-cases :
    (best : Option ℕ) (d : ℕ)
    → ((some (smaller_docid best d) ≡ best) ⊎ (smaller_docid best d ≡ d))
      × (smaller_docid best d ≤ d)
      × ((e : ℕ) → best ≡ some e → smaller_docid best d ≤ e)
smaller_docid-cases none d = (inr refl, omega arith, λ e h. cc)
smaller_docid-cases (some b) d = elim (Bool-cases (ltb d b)) [
  | inl lt ↦ rw lt (inr refl, omega arith, λ e h. omega (arith, some_eq h, ltb→lt d b lt))
  | inr ge ↦ rw ge (inl refl, ltb→le d b ge, λ e h. omega (arith, some_eq h))
]

match_min-Least :
    (fuel : ℕ) (best : Option ℕ) (args : Sops)
    → AllSops (Matches fuel) args
    → (args' : Sops) × (m : Option ℕ) × (match_min (λ q. has_match fuel q) best args
        ≡ some (args', m))
      × Least best args m
      × (clear_all args' ≡ clear_all args)
unfolding match_min Holds Least clear
match_min-Least fuel none nil h =
    (nil, none, refl, (λ d c. elim c [ inl e ↦ cc | inr x ↦ x ]), refl)
match_min-Least fuel (some b) nil h = (
  nil,
  some b,
  refl,
  (inl refl, λ e c. elim c [ inl x ↦ omega (arith, some_eq x) | inr x ↦ absurd x ]),
  refl,
)
match_min-Least fuel best (cons q qs) ((q', b, runs, no_match e absent same), h) =
    let (qs', m, runs', least, same') = match_min-Least fuel best qs h in
    (
      cons q' qs',
      m,
      rw (runs, e, runs') refl,
      Least-move best best (cons q qs) qs m (λ d c. elim c [ inl x ↦ inl x | inr x ↦ inr (inr x) ])
          (λ d c. elim c [
            | inl x ↦ (d, inl x, omega arith)
            | inr (inl x) ↦ absurd (absent d x)
            | inr (inr x) ↦ (d, inr x, omega arith)
          ])
          least,
      ap (λ x. cons x (clear_all qs')) same ∙ ap (cons (clear q)) same',
    )
match_min-Least fuel best (cons q qs) ((q', b, runs, match_at d e here holds low same), h) =
    let (kind, le, le') = smaller_docid-cases best d in
    let (qs', m, runs', least, same') = match_min-Least fuel (some (smaller_docid best d)) qs h in
    (
      cons q' qs',
      m,
      rw (runs, e, here, runs') refl,
      Least-move best (some (smaller_docid best d)) (cons q qs) qs m
          (λ x c. elim c [
            | inr y ↦ inr (inr y)
            | inl y ↦ elim kind [
              | inl k ↦ inl (sym k ∙ y)
              | inr k ↦ inr (inl (subst (λ z. Holds z q) (sym k ∙ some_eq y) holds))
            ]
          ])
          (λ x c. elim c [
            | inl y ↦ (smaller_docid best d, inl refl, le' x y)
            | inr (inl y) ↦
                let under = low x y in (smaller_docid best d, inl refl, omega (arith, le, under))
            | inr (inr y) ↦ (x, inr y, omega arith)
          ])
          least,
      ap (λ x. cons x (clear_all qs')) same ∙ ap (cons (clear q)) same',
    )

AllSops-map :
    (P Q : Sop → Type 0) → ((q : Sop) → P q → Q q) → (args : Sops) → AllSops P args → AllSops Q args
AllSops-map P Q f nil h = tt
AllSops-map P Q f (cons q qs) (p, h) = (f q p, AllSops-map P Q f qs h)

report-Matched :
    (k : Kind) (cache : Option ℕ) (args args' : Sops) (m : Option ℕ)
    → Least none args m
    → clear_all args' ≡ clear_all args
    → Matched (branch k cache args) (report k cache args' m).0 (report k cache args' m).1
unfolding Holds clear Least
report-Matched k cache args args' none least same =
    no_match refl (λ d h. least d (inr h)) (ap (branch k none) same)
report-Matched k cache args args' (some d) least same =
    match_at d refl refl (held least.0) (λ e h. least.1 e (inr h)) (ap (branch k none) same)
  where
    held : {d : ℕ} → Candidate none args d → HoldsSome d args
    held (inl e) = cc
    held (inr h) = h

branch-Matches :
    (fuel : ℕ) (k : Kind) (cache : Option ℕ) (args : Sops)
    → NotAnd k
    → AllSops (Matches fuel) args
    → Matches (suc fuel) (branch k cache args)
unfolding has_match
branch-Matches fuel k cache args other h =
    let (args', m, runs, least, same) = match_min-Least fuel none args h in
    let matched = report-Matched k cache args args' m least same in
    ((report k cache args' m).0, (report k cache args' m).1, run k other runs, matched)
  where
    run :
        (k : Kind)
        → NotAnd k
        → {args' : Sops} {m : Option ℕ}
        → match_min (λ q. has_match fuel q) none args ≡ some (args', m)
        → has_match (suc fuel) (branch k cache args) ≡ some (report k cache args' m)
    run or_ o e = rw e refl
    run and_ o e = absurd o
    run sum o e = rw e refl
    run wsum o e = rw e refl

-- A query of SCORE, OR, SUM and WSUM operators over ready cursors, of a height that the fuel
-- allows, always answers whether it has a match. It has one exactly if a leaf still holds some
-- document, and then it caches the smallest such document; no cursor moves.
pub has_match-Matched :
    (fuel : ℕ) (q : Sop)
    → IsDisjunction fuel q
    → (q' : Sop) × (b : Bool) × (has_match fuel q ≡ some (q', b)) × Matched q q' b
unfolding IsDisjunction
has_match-Matched zero q h = absurd h
has_match-Matched (suc fuel) (leaf cache c) h = leaf-Matches fuel cache c h
has_match-Matched (suc fuel) (branch k cache args) (other, h) =
    branch-Matches fuel k cache args other
      (AllSops-map (IsDisjunction fuel) (Matches fuel) (λ q d. has_match-Matched fuel q d) args h)
