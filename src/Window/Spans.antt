-- ===== src/Window/Spans.antt =====
-- What WINDOW/n means: an interval shorter than `n` that holds a position of each term.
use qry_eval_plus.Prelude.{
  All, In, List, [], arith, inl, inr, refl, subst, sym, ℕ, ◌+◌, ◌<◌, ◌∷◌, ◌≡◌, ◌≤◌, ◌⊎◌,
}
use qry_eval_plus.Near.Chain.{Sub, In-tail, head-le}
use qry_eval_plus.InvList.Order.{Increasing}

abbrev pub Hits : ℕ → ℕ → List ℕ → Type 0
Hits lo hi l = (x : ℕ) × In x l × (lo ≤ x) × (x ≤ hi)

-- The interval from `lo` to `hi` holds a position of each list.
abbrev pub Spans : ℕ → ℕ → List (List ℕ) → Type 0
Spans lo hi ls = All (Hits lo hi) ls

-- It is a position of some list.
abbrev pub Touches : ℕ → List (List ℕ) → Type 0
Touches e [] = ⊥
Touches e (l ∷ ls) = In e l ⊎ Touches e ls

-- A position `e` that ends a window with a position of each term.
abbrev pub Windows : ℕ → List (List ℕ) → ℕ → Type 0
Windows n ls e = (lo : ℕ) × (e < lo + n) × Spans lo e ls × Touches e ls

-- The first positions of the lists.
abbrev pub Heads : List ℕ → List (List ℕ) → Type 0
Heads [] [] = Unit
Heads (h ∷ hs) (l ∷ ls) = ((t : List ℕ) × (l ≡ h ∷ t)) × Heads hs ls
Heads _ _ = ⊥

Sub-Spans : (lo hi : ℕ) (ls ms : List (List ℕ)) → Sub ls ms → Spans lo hi ls → Spans lo hi ms
Sub-Spans lo hi [] [] s h = tt
Sub-Spans lo hi [] (m ∷ ms) s h = absurd s
Sub-Spans lo hi (l ∷ ls) [] s h = tt
Sub-Spans lo hi (l ∷ ls) (m ∷ ms) s ((x, i, le, ge), h) =
    ((x, s.0 x i, le, ge), Sub-Spans lo hi ls ms s.1 h)

Sub-Touches : (e : ℕ) (ls ms : List (List ℕ)) → Sub ls ms → Touches e ls → Touches e ms
Sub-Touches e [] ms s t = absurd t
Sub-Touches e (l ∷ ls) [] s t = absurd s
Sub-Touches e (l ∷ ls) (m ∷ ms) s (inl i) = inl (s.0 e i)
Sub-Touches e (l ∷ ls) (m ∷ ms) s (inr t) = inr (Sub-Touches e ls ms s.1 t)

pub Sub-Windows : (n e : ℕ) (ls ms : List (List ℕ)) → Sub ls ms → Windows n ls e → Windows n ms e
Sub-Windows n e ls ms s (lo, lt, h, t) = (lo, lt, Sub-Spans lo e ls ms s h, Sub-Touches e ls ms s t)

-- A window reaches every first position.
pub Spans-above :
    (lo hi : ℕ) (hs : List ℕ) (ls : List (List ℕ))
    → Heads hs ls
    → All Increasing ls
    → Spans lo hi ls
    → All (λ h. h ≤ hi) hs
Spans-above lo hi [] ls g inc s = tt
Spans-above lo hi (h ∷ hs) [] g inc s = absurd g
Spans-above lo hi (h ∷ hs) (l ∷ ls) ((t, e), g) inc ((x, i, le, ge), s) = (
  omega (arith, head-le x h t (subst Increasing e inc.0) (subst (In x) e i), ge),
  Spans-above lo hi hs ls g inc.1 s,
)

-- The first positions span an interval that holds them all.
pub Heads-Spans :
    (lo hi : ℕ) (hs : List ℕ) (ls : List (List ℕ))
    → Heads hs ls
    → All (λ h. lo ≤ h) hs
    → All (λ h. h ≤ hi) hs
    → Spans lo hi ls
Heads-Spans lo hi [] [] g a b = tt
Heads-Spans lo hi [] (l ∷ ls) g a b = absurd g
Heads-Spans lo hi (h ∷ hs) [] g a b = tt
Heads-Spans lo hi (h ∷ hs) (l ∷ ls) ((t, e), g) a b =
    ((h, subst (In h) (sym e) (inl refl), a.0, b.0), Heads-Spans lo hi hs ls g a.1 b.1)

pub Heads-Touches :
    (e : ℕ) (hs : List ℕ) (ls : List (List ℕ)) → Heads hs ls → In e hs → Touches e ls
Heads-Touches e [] ls g i = absurd i
Heads-Touches e (h ∷ hs) [] g i = absurd g
Heads-Touches e (h ∷ hs) (l ∷ ls) ((t, s), g) (inl i) = inl (subst (In e) (sym s) (inl i))
Heads-Touches e (h ∷ hs) (l ∷ ls) (_, g) (inr i) = inr (Heads-Touches e hs ls g i)

-- A window that begins behind a list's first position meets the list without it.
pub Hits-tail : (lo hi h : ℕ) (l t : List ℕ) → l ≡ h ∷ t → h < lo → Hits lo hi l → Hits lo hi t
Hits-tail lo hi h l t e lt (x, i, le, ge) =
    (x, In-tail x h t (subst (In x) e i) (omega (arith, le, lt)), le, ge)
