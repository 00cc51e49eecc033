-- ===== src/Passages.antt =====
-- The passages of a document: src/qryeval_plus/rag/PassageBuilder.py. A text that is `None` is
-- `none`, as is the end -1 of the passage before the first. The four settings are not negative.
pub mod Covers
mod Tests
use qry_eval_plus.Prelude.{
  Bool, List, Option, [], drop, false, if◌then◌else◌, leb, length, ltb, min, none, some, suc, take,
  zero, ℕ, ◌&&◌, ◌++◌, ◌+◌, ◌-◌, ◌>>=◌, ◌∷◌,
}
use qry_eval_plus.Text.{Text, strip}
use qry_eval_plus.Grounding.{split_words, join_words}

pub record Settings : Type 0 where
  pub psg_len : ℕ
  pub psg_stride : ℕ
  pub psg_cnt : ℕ
  pub max_title_length : ℕ

-- `_truncate_tokens`
abbrev tokens_of : Option Text → List Text
tokens_of none = []
tokens_of (some text) = split_words text

unfoldable pub truncate_tokens : Option Text → Option ℕ → List Text
unfolding split_words
truncate_tokens text none = tokens_of text
truncate_tokens text (some max_tokens) = take max_tokens (tokens_of text)

-- `tokens[start:end]`
abbrev pub slice : {A : Type 0} → ℕ → ℕ → List A → List A
slice start end_ tokens = take (end_ - start) (drop start tokens)

-- `end <= previous_end`
abbrev pub not_beyond : ℕ → Option ℕ → Bool
not_beyond end_ none = false
not_beyond end_ (some previous_end) = leb end_ previous_end

-- The `while` loop, on fuel, with the number of passages that it has appended.
unfoldable pub windows :
    {A : Type 0} → Settings → ℕ → ℕ → Option ℕ → ℕ → List A → Option (List (List A))
windows c zero start previous_end count tokens = none
windows c (suc fuel) start previous_end count tokens =
    let end_ = min (start + c.psg_len) (length tokens) in
    let rest = windows c fuel (start + c.psg_stride) (some end_) (count + 1) tokens in
    if ltb start (length tokens) && ltb count c.psg_cnt
    then (if not_beyond end_ previous_end
        then some []
        else (rest >>= λ passages. some (slice start end_ tokens ∷ passages)))
    else some []

-- Each round appends a passage, or is the last.
unfoldable pub body_passages : Settings → List Text → List Text → Option (List (List Text))
unfolding windows
body_passages c [] [] = some []
body_passages c (t ∷ title) [] = some ([] ∷ [])
body_passages c title (b ∷ body) = windows c (suc c.psg_cnt) 0 none 0 (b ∷ body)

abbrev pub passage_of : Text → Text → List Text
passage_of [] [] = []
passage_of (t ∷ title) [] = (t ∷ title) ∷ []
passage_of [] (b ∷ body) = (b ∷ body) ∷ []
passage_of (t ∷ title) (b ∷ body) = (t ∷ title ++ b' ' ∷ b ∷ body) ∷ []

unfoldable pub passages_of : Text → List (List Text) → List Text
unfolding join_words strip
passages_of title_prefix [] = []
passages_of title_prefix (body ∷ bodies) =
    passage_of title_prefix (strip (join_words body)) ++ passages_of title_prefix bodies

abbrev title_tokens : Settings → Option Text → List Text
title_tokens c title_text =
    if ltb 0 c.max_title_length then truncate_tokens title_text (some c.max_title_length) else []

unfoldable pub build : Settings → Option Text → Option Text → Option (List Text)
unfolding truncate_tokens body_passages passages_of join_words strip
build c title_text body_text =
    let title = title_tokens c title_text in
    body_passages c title (truncate_tokens body_text none) >>= λ bodies.
    some (passages_of (strip (join_words title)) (take c.psg_cnt bodies))
