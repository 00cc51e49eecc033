-- ===== src/Text/Words.antt =====
-- How the text methods of Text behave on a text that is put together from words and spaces.
use qry_eval_plus.Prelude.{
  ==_refl, All, Bool-cases, [], ap, arith, false, inl, inr, refl, some, sym, true, ℕ, ◌++◌, ◌+◌,
  ◌==◌, ◌∙◌, ◌∷◌, ◌≡◌, ◌≢◌,
}
use qry_eval_plus.Text.{
  Text, is_space, lstrip, cons_stripped, rstrip, strip, count, split_once, rsplit_once, split_word,
}

abbrev pub IsSolid : ℕ → Type 0
IsSolid c = is_space c ≡ false

pub lstrip_solid : (c : ℕ) (s : Text) → IsSolid c → lstrip (c ∷ s) ≡ c ∷ s
unfolding lstrip
lstrip_solid c s h = rw h

cons_stripped-ne : (c : ℕ) (s : Text) → s ≢ [] → cons_stripped c s ≡ c ∷ s
cons_stripped-ne c [] h = absurd (h refl)
cons_stripped-ne c (d ∷ s) h = refl

pub append-ne-nil : (s t : Text) → t ≢ [] → s ++ t ≢ []
append-ne-nil [] t h = h
append-ne-nil (c ∷ s) t h = λ e. cc

-- What ends in no space stays, and so does all that stands before it.
pub rstrip-append : (s t : Text) → t ≢ [] → rstrip t ≡ t → rstrip (s ++ t) ≡ s ++ t
unfolding rstrip
rstrip-append [] t h e = e
rstrip-append (c ∷ s) t h e =
    ap (cons_stripped c) (rstrip-append s t h e) ∙ cons_stripped-ne c (s ++ t) (append-ne-nil s t h)

pub rstrip_solid : (s : Text) → All IsSolid s → rstrip s ≡ s
unfolding rstrip
rstrip_solid [] h = refl
rstrip_solid (c ∷ []) h = rw h.0
rstrip_solid (c ∷ d ∷ s) h = ap (cons_stripped c) (rstrip_solid (d ∷ s) h.1)

pub strip-lstrip : (s : Text) → strip (lstrip s) ≡ strip s
unfolding strip lstrip rstrip
strip-lstrip [] = refl
strip-lstrip (c ∷ s) = elim (Bool-cases (is_space c)) [
  | inl space ↦ rw space (strip-lstrip s ∙ sym (strip_space c (rstrip s) space))
  | inr solid ↦ rw solid
]
  where
    strip_space : (d : ℕ) (t : Text) → is_space d ≡ true → lstrip (cons_stripped d t) ≡ lstrip t
    strip_space d [] h = rw h
    strip_space d (e ∷ t) h = rw h

-- `split(maxsplit=1)` of a word before a text that is empty or starts with a space.
abbrev pub StartsApart : Text → Type 0
StartsApart [] = Unit
StartsApart (c ∷ s) = is_space c ≡ true

pub split_word-append :
    (w rest : Text) → All IsSolid w → StartsApart rest → split_word (w ++ rest) ≡ (w, lstrip rest)
unfolding split_word lstrip
split_word-append [] [] h a = refl
split_word-append [] (c ∷ s) h a = rw a
split_word-append (c ∷ w) rest h a = rw (h.0, split_word-append w rest h.1 a)

module _ (c : ℕ) where
  abbrev pub Lacks : Text → Type 0
  Lacks = All (λ d. (d == c) ≡ false)

  pub split_once-append : (s t : Text) → Lacks s → split_once c (s ++ c ∷ t) ≡ some (s, t)
  unfolding split_once
  split_once-append [] t h = rw (==_refl c)
  split_once-append (d ∷ s) t h = rw (h.0, split_once-append s t h.1)

  pub rsplit_once-snoc : (s : Text) → rsplit_once c (s ++ c ∷ []) ≡ some (s, [])
  unfolding rsplit_once
  rsplit_once-snoc [] = rw (==_refl c)
  rsplit_once-snoc (d ∷ s) = rw (rsplit_once-snoc s)

  pub count-append : (s t : Text) → count c (s ++ t) ≡ count c s + count c t
  unfolding count
  count-append [] t = omega arith
  count-append (d ∷ s) t = elim (Bool-cases (d == c)) [
    | inl e ↦ rw e (omega (arith, count-append s t))
    | inr n ↦ rw n (count-append s t)
  ]

  pub count-Lacks : (s : Text) → Lacks s → count c s ≡ 0
  unfolding count
  count-Lacks [] h = refl
  count-Lacks (d ∷ s) h = rw h.0 (count-Lacks s h.1)
