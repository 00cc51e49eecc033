-- ===== src/Window/Says.antt =====
-- What the list of WINDOW/n says of a document, and what storing the matches of one adds.
use qry_eval_plus.Prelude.{
  All, All-append, All-map, List, Option, [], ap, append-nil, arith, inl, inr, none, order-cases,
  refl, some, subst, suc, sym, ℕ, ◌++◌, ◌+◌, ◌<◌, ◌∙◌, ◌∷◌, ◌≡◌, ◌≢◌, ◌≤◌, ◌⊎◌,
}
use qry_eval_plus.InvList.{InvList}
use qry_eval_plus.InvList.Order.{Increasing, IsValid}
use qry_eval_plus.Cursor.{Cursor}
use qry_eval_plus.MatchAll.Join.{find, find_all}
use qry_eval_plus.MatchAll.Scan.{rests}
use qry_eval_plus.MatchAll.Left.{find_above, find-snoc, find-snoc_self}
use qry_eval_plus.Near.{store}
use qry_eval_plus.Near.Evaluate.{posting_if, store-posting_if}
use qry_eval_plus.Window.Spans.{Spans, Windows}
use qry_eval_plus.Window.Moves.{AllKept, AllKept-find_all}

-- What the list says of a document, given its positions in all arguments if they all hold it.
abbrev pub MeetsWindow : ℕ → Option (List (List ℕ)) → Option (List ℕ) → Type 0
MeetsWindow n none o = o ≡ none
MeetsWindow n (some pss) o =
    ((o ≡ none) × ((lo hi : ℕ) → hi < lo + n → ¬ Spans lo hi pss))
    ⊎ ((matches : List ℕ) × (o ≡ some matches)
        × (matches ≢ [])
        × All (λ e. Windows n pss e) matches
        × Increasing matches)

-- What a list `inv'` adds to `inv` from the document `k` on.
abbrev pub Says : ℕ → ℕ → List Cursor → InvList → InvList → Type 0
Says n k cs inv inv' =
    ((e : ℕ) → e < k → find e inv'.postings ≡ find e inv.postings)
    × ((e : ℕ) → k ≤ e → MeetsWindow n (find_all e (rests cs)) (find e inv'.postings))

-- No document before `m` is common.
pub Says-raise :
    (n k m : ℕ) (cs : List Cursor) (inv inv' : InvList)
    → k ≤ m
    → All (λ q. q.docid < k) inv.postings
    → ((x : ℕ) → x < m → find_all x (rests cs) ≡ none)
    → Says n m cs inv inv'
    → Says n k cs inv inv'
Says-raise n k m cs inv inv' le below absent (before, after) = (
  λ e lt. before e (omega arith),
  λ e ge. elim (order-cases e m) [
    | inl lt ↦
        subst (λ o. MeetsWindow n o (find e inv'.postings)) (sym (absent e lt))
          (before e lt ∙ find_above e k inv.postings below ge)
    | inr (inl same) ↦ after e (omega arith)
    | inr (inr gt) ↦ after e (omega arith)
  ],
)

pub Says-nothing :
    (n k : ℕ) (cs : List Cursor) (inv : InvList)
    → All (λ q. q.docid < k) inv.postings
    → ((x : ℕ) → k ≤ x → find_all x (rests cs) ≡ none)
    → Says n k cs inv inv
Says-nothing n k cs inv below absent = (
  λ e lt. refl,
  λ e ge.
      subst (λ o. MeetsWindow n o (find e inv.postings)) (sym (absent e ge))
        (find_above e k inv.postings below ge),
)

pub Says-moved :
    (n k m : ℕ) (cs cs' : List Cursor) (inv inv' : InvList)
    → AllKept m cs cs'
    → m ≤ k
    → Says n k cs' inv inv'
    → Says n k cs inv inv'
Says-moved n k m cs cs' inv inv' kept le (before, after) = (
  before,
  λ e ge.
      subst (λ o. MeetsWindow n o (find e inv'.postings)) (AllKept-find_all kept e (omega arith))
        (after e ge),
)

abbrev pub if_any : List ℕ → Option (List ℕ)
if_any [] = none
if_any (x ∷ xs) = some (x ∷ xs)

-- What storing the matches of a document does.
pub record Stored (d : ℕ) (matches : List ℕ) (inv inv' : InvList) : Type 0 where
  pub runs : store d matches inv ≡ some inv'
  pub valid : IsValid inv'
  pub below : All (λ q. q.docid < suc d) inv'.postings
  pub others : (e : ℕ) → e ≢ d → find e inv'.postings ≡ find e inv.postings
  pub there : find d inv'.postings ≡ if_any matches

pub store-Stored :
    (d : ℕ) (matches : List ℕ) (inv : InvList)
    → IsValid inv
    → All (λ q. q.docid < d) inv.postings
    → (inv' : InvList) × Stored d matches inv inv'
store-Stored d matches inv v below =
    let (inv', stores, v', same) = store-posting_if d matches inv v below in
    let below' : All (λ q. q.docid < suc d) inv.postings =
      All-map (λ q. q.docid < d) (λ q. q.docid < suc d) (λ q l. omega arith) inv.postings below in
    (
      inv',
      record {
        runs = stores;
        valid = v';
        below =
            subst (All (λ q. q.docid < suc d)) (sym same)
              (All-append _ inv.postings (posting_if d (some matches)) below' (small matches));
        others = λ e ne. ap (find e) same ∙ other e ne matches;
        there = ap (find d) same ∙ here matches;
      },
    )
  where
    small : (xs : List ℕ) → All (λ q. q.docid < suc d) (posting_if d (some xs))
    small [] = tt
    small (x ∷ xs) = (omega arith, tt)

    other :
        (e : ℕ)
        → e ≢ d
        → (xs : List ℕ) → find e (inv.postings ++ posting_if d (some xs)) ≡ find e inv.postings
    other e ne [] = ap (find e) (append-nil inv.postings)
    other e ne (x ∷ xs) = find-snoc e d (x ∷ xs) inv.postings ne

    here : (xs : List ℕ) → find d (inv.postings ++ posting_if d (some xs)) ≡ if_any xs
    here [] =
        ap (find d) (append-nil inv.postings) ∙ find_above d d inv.postings below (omega arith)
    here (x ∷ xs) = find-snoc_self d (x ∷ xs) inv.postings below

pub document-Meets :
    (n : ℕ) (pss : List (List ℕ)) (matches : List ℕ)
    → All (λ e. Windows n pss e) matches
    → Increasing matches
    → (matches ≢ []) ⊎ ((lo hi : ℕ) → hi < lo + n → ¬ Spans lo hi pss)
    → MeetsWindow n (some pss) (if_any matches)
document-Meets n pss [] sound order (inl ne) = absurd (ne refl)
document-Meets n pss [] sound order (inr none_) = inl (refl, none_)
document-Meets n pss (x ∷ xs) sound order complete = inr (x ∷ xs, refl, (λ e. cc), sound, order)
