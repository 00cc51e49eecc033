-- ===== src/Grounding/Supported.antt =====
-- What an answer's support does when passages are added.
use qry_eval_plus.Prelude.{
  Bool, Bool-cases, List, [], ap, append-nil, append_assoc, arith, false, if◌then◌else◌, inl, inr,
  leb, length, map, not, refl, subst, sym, true, ℕ, ◌*◌, ◌++◌, ◌∙◌, ◌∷◌, ◌≡◌, ◌≢◌, ◌≤◌,
}
use mathlib.Core.List.{map-append}
use native.Mathlib.Nat.{mul-le-mul_left}
use qry_eval_plus.Grounding.{
  answered, compare_texts, contains, drop_stopwords, enough, find_tokens, grounding_status,
  is_token_char, is_punctuation, join_words, mem_text, normalize_text, runs, split_words,
  starts_with, supported, Status, clean, underscore_to_space,
}
use qry_eval_plus.Text.{Text, is_space}

runs_kept :
    (keep : ℕ → Bool) (d : ℕ) (s : Text)
    → keep d ≡ true
    → runs keep [] (d ∷ s) ≡ runs keep (d ∷ []) s
unfolding runs
runs_kept keep d s k = rw (runs, k) refl

runs_dropped :
    (keep : ℕ → Bool) (d : ℕ) (s : Text) → keep d ≡ false → runs keep [] (d ∷ s) ≡ runs keep [] s
unfolding runs
runs_dropped keep d s k = rw (runs, k) refl

runs_longer :
    (keep : ℕ → Bool) (r : ℕ) (run : Text) (d : ℕ) (s : Text)
    → keep d ≡ true
    → runs keep (r ∷ run) (d ∷ s) ≡ runs keep (r ∷ run ++ d ∷ []) s
unfolding runs
runs_longer keep r run d s k = rw (runs, k) refl

runs_ended :
    (keep : ℕ → Bool) (r : ℕ) (run : Text) (d : ℕ) (s : Text)
    → keep d ≡ false
    → runs keep (r ∷ run) (d ∷ s) ≡ (r ∷ run) ∷ runs keep [] s
unfolding runs
runs_ended keep r run d s k = rw (runs, k) refl

-- A character that is not kept ends a run.
runs-append :
    (keep : ℕ → Bool) (run s t : Text) (c : ℕ)
    → keep c ≡ false
    → runs keep run (s ++ c ∷ t) ≡ runs keep run s ++ runs keep [] t
unfolding runs
runs-append keep [] [] t c h = rw h refl
runs-append keep (r ∷ run) [] t c h = rw h refl
runs-append keep [] (d ∷ s) t c h = elim (Bool-cases (keep d)) [
  | inl k ↦
      runs_kept keep d (s ++ c ∷ t) k
      ∙ runs-append keep (d ∷ []) s t c h
      ∙ ap (◌++ runs keep [] t) (sym (runs_kept keep d s k))
  | inr k ↦
      runs_dropped keep d (s ++ c ∷ t) k
      ∙ runs-append keep [] s t c h
      ∙ ap (◌++ runs keep [] t) (sym (runs_dropped keep d s k))
]
runs-append keep (r ∷ run) (d ∷ s) t c h = elim (Bool-cases (keep d)) [
  | inl k ↦
      runs_longer keep r run d (s ++ c ∷ t) k
      ∙ runs-append keep (r ∷ run ++ d ∷ []) s t c h
      ∙ ap (◌++ runs keep [] t) (sym (runs_longer keep r run d s k))
  | inr k ↦
      runs_ended keep r run d (s ++ c ∷ t) k
      ∙ ap (λ x. (r ∷ run) ∷ x) (runs-append keep [] s t c h)
      ∙ ap (◌++ runs keep [] t) (sym (runs_ended keep r run d s k))
]

join_words-append :
    (a : Text) (ws : List Text) (b : Text) (vs : List Text)
    → join_words ((a ∷ ws) ++ b ∷ vs) ≡ join_words (a ∷ ws) ++ b' ' ∷ join_words (b ∷ vs)
unfolding join_words
join_words-append a [] b vs = refl
join_words-append a (w ∷ ws) b vs =
    ap (λ x. a ++ b' ' ∷ x) (join_words-append w ws b vs)
    ∙ sym (append_assoc a (b' ' ∷ join_words (w ∷ ws)) (b' ' ∷ join_words (b ∷ vs)))

starts_with-append : (p s t : Text) → starts_with p s ≡ true → starts_with p (s ++ t) ≡ true
unfolding starts_with
starts_with-append [] s t h = refl
starts_with-append (c ∷ p) [] t h = cc
starts_with-append (c ∷ p) (d ∷ s) t h = ground (arith, starts_with-append p s t)

contains-append : (p s t : Text) → contains p s ≡ true → contains p (s ++ t) ≡ true
unfolding contains
contains-append p [] [] h = h
contains-append p [] (d ∷ t) h = rw (starts_with-append p [] (d ∷ t) h) refl
contains-append p (c ∷ s) t h = elim (Bool-cases (starts_with p (c ∷ s))) [
  | inl k ↦ rw (starts_with-append p (c ∷ s) t k) refl
  | inr k ↦ ground (arith, contains-append p s t (rw k at h))
]

mem_text-append :
    (x : Text) (us vs : List Text) → mem_text x us ≡ true → mem_text x (us ++ vs) ≡ true
unfolding mem_text
mem_text-append x [] vs h = cc
mem_text-append x (u ∷ us) vs h = ground (arith, mem_text-append x us vs)

supported-append : (us vs ts : List Text) → supported us ts ≤ supported (us ++ vs) ts
unfolding supported
supported-append us vs [] = omega arith
supported-append us vs (x ∷ ts) = ground (arith, supported-append us vs ts, mem_text-append x us vs)

-- A text that goes on after a space, or does not go on.
IsContinuation : Text → Type 0
IsContinuation [] = Unit
IsContinuation (c ∷ s) = c ≡ b' '

find_tokens-append :
    (s rest : Text)
    → IsContinuation rest
    → (more : List Text) × (find_tokens (s ++ rest) ≡ find_tokens s ++ more)
unfolding IsContinuation find_tokens is_token_char
find_tokens-append s [] h = ([], rw (append-nil s, append-nil (find_tokens s)) refl)
find_tokens-append s (c ∷ t) h = (find_tokens t, runs-append is_token_char [] s t c (rw h refl))

join_words_more :
    (w : Text) (ws vs : List Text)
    → (rest : Text) × IsContinuation rest
      × (join_words ((w ∷ ws) ++ vs) ≡ join_words (w ∷ ws) ++ rest)
unfolding IsContinuation
join_words_more w ws [] =
    ([], tt, ap join_words (append-nil (w ∷ ws)) ∙ sym (append-nil (join_words (w ∷ ws))))
join_words_more w ws (v ∷ vs) = (b' ' ∷ join_words (v ∷ vs), refl, join_words-append w ws v vs)

leb_scale : (a k m n : ℕ) → m ≤ n → leb a (k * m) ≡ true → leb a (k * n) ≡ true
leb_scale a k m n h e = let scaled = mul-le-mul_left k h in ground arith

enough-append :
    (num den : ℕ) (us vs ts : List Text)
    → enough num den us ts ≡ answered
    → enough num den (us ++ vs) ts ≡ answered
enough-append num den us vs [] h = cc
enough-append num den us vs (x ∷ ts) h =
    elim (Bool-cases (leb (num * length (x ∷ ts)) (den * supported us (x ∷ ts)))) [
      | inl k ↦
          rw
            (leb_scale (num * length (x ∷ ts)) den (supported us (x ∷ ts))
              (supported (us ++ vs) (x ∷ ts)) (supported-append us vs (x ∷ ts)) k)
            refl
      | inr k ↦ cc (rw k at h)
    ]

if_either : (b : Bool) {x : Status} → x ≡ answered → (if b then answered else x) ≡ answered
if_either true h = refl
if_either false h = h

compare_texts-append :
    (num den : ℕ) (answer evidence rest : Text)
    → IsContinuation rest
    → compare_texts num den answer evidence ≡ answered
    → compare_texts num den answer (evidence ++ rest) ≡ answered
compare_texts-append num den [] evidence rest a h = cc
compare_texts-append num den (c ∷ s) [] rest a h = cc
compare_texts-append num den (c ∷ s) (e ∷ t) rest a h =
    let tokens = drop_stopwords (find_tokens (c ∷ s)) in
    elim (Bool-cases (contains (c ∷ s) (e ∷ t))) [
      | inl k ↦ rw (contains-append (c ∷ s) (e ∷ t) rest k) refl
      | inr k ↦
          let (more, found) = find_tokens-append (e ∷ t) rest a in
          let counted : enough num den (find_tokens (e ∷ t)) tokens ≡ answered = rw k at h in
          let still =
            subst (λ x. enough num den x tokens ≡ answered) (sym found)
              (enough-append num den (find_tokens (e ∷ t)) more tokens counted) in
          if_either (contains (c ∷ s) (e ∷ t ++ rest)) still
    ]

not_from_nothing : (num den : ℕ) (answer : Text) → compare_texts num den answer [] ≢ answered
not_from_nothing num den [] = λ h. cc
not_from_nothing num den (c ∷ s) = λ h. cc

more_words :
    (num den : ℕ) (answer : Text) (ws vs : List Text)
    → compare_texts num den answer (join_words ws) ≡ answered
    → compare_texts num den answer (join_words (ws ++ vs)) ≡ answered
unfolding join_words
more_words num den answer [] vs h = absurd (not_from_nothing num den answer h)
more_words num den answer (w ∷ ws) vs h =
    let (rest, a, e) = join_words_more w ws vs in
    subst (λ x. compare_texts num den answer x ≡ answered) (sym e)
      (compare_texts-append num den answer (join_words (w ∷ ws)) rest a h)

module _ (lowercase : Text → Text) where
  -- What a change to lower case does: a space ends the context that a letter's case depends on.
  pub record IsLowercase : Type 0 where
    pub empty : lowercase [] ≡ []
    pub apart : (s t : Text) → lowercase (s ++ b' ' ∷ t) ≡ lowercase s ++ b' ' ∷ lowercase t

  abbrev words : Text → List Text
  words s = split_words (map clean (lowercase (map underscore_to_space s)))

  words-append : IsLowercase → (s t : Text) → words (s ++ b' ' ∷ t) ≡ words s ++ words t
  unfolding split_words is_space is_punctuation
  words-append low s t =
      ap (λ x. split_words (map clean (lowercase x))) (map-append underscore_to_space s (b' ' ∷ t))
      ∙ ap (λ x. split_words (map clean x))
          (low.apart (map underscore_to_space s) (map underscore_to_space t))
      ∙ ap split_words (
          map-append clean (lowercase (map underscore_to_space s))
            (b' ' ∷ lowercase (map underscore_to_space t)))
      ∙ runs-append (λ c. not (is_space c)) [] (map clean (lowercase (map underscore_to_space s)))
          (map clean (lowercase (map underscore_to_space t))) b' ' refl

  -- For a change to lower case that keeps the empty text and works on both sides of a space apart:
  -- an answer that is found supported by passages is found supported when further ones are added.
  pub grounding_status-append :
      IsLowercase
      → (num den : ℕ) (answer : Text) (passages more : List Text)
      → grounding_status lowercase num den answer passages ≡ answered
      → grounding_status lowercase num den answer (passages ++ more) ≡ answered
  unfolding grounding_status normalize_text
  grounding_status-append low num den answer passages [] h = rw (append-nil passages) h
  grounding_status-append low num den answer [] (q ∷ more) h =
      absurd (not_from_nothing num den (normalize_text lowercase answer) (rw low.empty at h))
  grounding_status-append low num den answer (p ∷ passages) (q ∷ more) h =
      let first = join_words (p ∷ passages) in
      let second = join_words (q ∷ more) in
      subst (λ x. compare_texts num den (normalize_text lowercase answer) x ≡ answered)
        (sym (
          ap (λ x. join_words (words x)) (join_words-append p passages q more)
          ∙ ap join_words (words-append low first second)))
        (more_words num den (normalize_text lowercase answer) (words first) (words second) h)
