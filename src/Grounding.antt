-- ===== src/Grounding.antt =====
-- The check of an answer against its passages: src/qryeval_plus/grounding.py. The lower case of a
-- text is a parameter, and the threshold is a fraction.
mod Tests
pub mod Supported
use qry_eval_plus.Prelude.{
  Bool, List, [], false, if◌then◌else◌, leb, length, map, not, true, ℕ, ◌&&◌, ◌*◌, ◌++◌, ◌+◌, ◌==◌,
  ◌∷◌, ◌||◌,
}
use qry_eval_plus.Text.{Text, codes, is_space, same_text}

-- `string.punctuation` and four more characters.
unfoldable pub is_punctuation : ℕ → Bool
is_punctuation c =
    (leb 33 c && leb c 47)
    || ((leb 58 c && leb c 64)
        || ((leb 91 c && leb c 96)
            || ((leb 123 c && leb c 126) || (c == 180 || (c == 8216 || c == 8217)))))

-- The maximal runs of characters that are kept, from the run `run` on.
unfoldable pub runs : (ℕ → Bool) → Text → Text → List Text
runs keep [] [] = []
runs keep (r ∷ run) [] = (r ∷ run) ∷ []
runs keep [] (c ∷ s) = elim (keep c) [ true ↦ runs keep (c ∷ []) s | false ↦ runs keep [] s ]
runs keep (r ∷ run) (c ∷ s) = elim (keep c) [
  | true ↦ runs keep (r ∷ run ++ c ∷ []) s
  | false ↦ (r ∷ run) ∷ runs keep [] s
]

-- `split()` without an argument.
unfoldable pub split_words : Text → List Text
unfolding runs is_space
split_words = runs (λ c. not (is_space c)) []

unfoldable pub join_words : List Text → Text
join_words [] = []
join_words (w ∷ []) = w
join_words (w ∷ v ∷ ws) = w ++ b' ' ∷ join_words (v ∷ ws)

abbrev clean : ℕ → ℕ
clean c = if is_punctuation c then b' ' else c

abbrev underscore_to_space : ℕ → ℕ
underscore_to_space c = if c == b'_' then b' ' else c

-- The characters of `[a-z0-9]+`.
unfoldable pub is_token_char : ℕ → Bool
is_token_char c = (leb b'a' c && leb c b'z') || (leb b'0' c && leb c b'9')

unfoldable pub find_tokens : Text → List Text
unfolding runs is_token_char
find_tokens = runs is_token_char []

unfoldable pub starts_with : Text → Text → Bool
starts_with [] s = true
starts_with (c ∷ p) [] = false
starts_with (c ∷ p) (d ∷ s) = c == d && starts_with p s

-- `p in s`
unfoldable pub contains : Text → Text → Bool
unfolding starts_with
contains p [] = starts_with p []
contains p (c ∷ s) = starts_with p (c ∷ s) || contains p s

unfoldable pub mem_text : Text → List Text → Bool
unfolding same_text
mem_text t [] = false
mem_text t (u ∷ us) = same_text u t || mem_text t us

abbrev pub stopwords : List Text
stopwords =
    codes "a"
    ∷ codes "an"
    ∷ codes "and"
    ∷ codes "are"
    ∷ codes "as"
    ∷ codes "at"
    ∷ codes "be"
    ∷ codes "by"
    ∷ codes "for"
    ∷ codes "from"
    ∷ codes "in"
    ∷ codes "is"
    ∷ codes "it"
    ∷ codes "of"
    ∷ codes "on"
    ∷ codes "or"
    ∷ codes "that"
    ∷ codes "the"
    ∷ codes "to"
    ∷ codes "was"
    ∷ codes "were"
    ∷ codes "with"
    ∷ []

unfoldable pub drop_stopwords : List Text → List Text
unfolding mem_text
drop_stopwords [] = []
drop_stopwords (t ∷ ts) =
    let rest = drop_stopwords ts in if mem_text t stopwords then rest else t ∷ rest

unfoldable pub supported : List Text → List Text → ℕ
unfolding mem_text
supported evidence [] = 0
supported evidence (t ∷ ts) = (if mem_text t evidence then 1 else 0) + supported evidence ts

pub data Status : Type 0 where
  answered needs_review abstained : Status

-- The threshold is `num / den`.
abbrev pub enough : ℕ → ℕ → List Text → List Text → Status
enough num den evidence [] = needs_review
enough num den evidence (t ∷ ts) =
    if leb (num * length (t ∷ ts)) (den * supported evidence (t ∷ ts))
    then answered
    else needs_review

abbrev pub compare_texts : ℕ → ℕ → Text → Text → Status
compare_texts num den [] evidence = abstained
compare_texts num den (a ∷ answer) [] = abstained
compare_texts num den (a ∷ answer) (e ∷ evidence) =
    if contains (a ∷ answer) (e ∷ evidence)
    then answered
    else enough num den (find_tokens (e ∷ evidence)) (drop_stopwords (find_tokens (a ∷ answer)))

module _ (lowercase : Text → Text) where
  unfoldable pub normalize_text : Text → Text
  unfolding is_punctuation split_words join_words
  normalize_text value =
      join_words (split_words (map clean (lowercase (map underscore_to_space value))))

  unfoldable pub grounding_status : ℕ → ℕ → Text → List Text → Status
  unfolding normalize_text contains supported find_tokens drop_stopwords
  grounding_status num den answer passages =
      compare_texts num den (normalize_text answer) (normalize_text (join_words passages))
