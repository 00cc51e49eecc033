-- ===== src/Split.antt =====
-- The development and test questions: read_query_file, triviaqa_questions and build_split_payload
-- of src/qryeval_plus/protocol.py. The lines of the query file and the rows of the JSON file are
-- given. A raised ConfigError is `none`.
pub mod Parts
mod Tests
use qry_eval_plus.Prelude.{
  Bool, List, Option, [], false, if◌then◌else◌, length, map, none, not, some, true, ℕ, ◌&&◌, ◌==◌,
  ◌>>=◌, ◌∷◌, ◌||◌,
}
use qry_eval_plus.Text.{Text, same_text, strip, split_once}

abbrev pub Row : Type 0
Row = Text × Text

abbrev pub expected_question_count : ℕ
expected_question_count = 318

abbrev pub expected_dev_count : ℕ
expected_dev_count = 40

abbrev pub expected_test_count : ℕ
expected_test_count = 278

abbrev is_empty : Text → Bool
is_empty [] = true
is_empty (c ∷ s) = false

abbrev read_row : Option (Text × Text) → Option Row
read_row none = none
read_row (some (qid, question)) =
    if is_empty (strip qid) || is_empty (strip question)
    then none
    else some (strip qid, strip question)

-- A blank line is passed over.
unfoldable pub read_query_lines : List Text → Option (List Row)
unfolding strip split_once
read_query_lines [] = some []
read_query_lines (line ∷ lines) =
    let rest = read_query_lines lines in
    if is_empty (strip line)
    then rest
    else (read_row (split_once b':' line) >>= λ row. rest >>= λ rows. some (row ∷ rows))

-- `qid in by_id`, and `qid in set(dev_ids)`.
unfoldable pub mem : Text → List Text → Bool
unfolding same_text
mem id [] = false
mem id (i ∷ ids) = same_text i id || mem id ids

-- Whether a set of the ids has as many elements.
unfoldable pub distinct : List Text → Bool
unfolding mem
distinct [] = true
distinct (i ∷ ids) = not (mem i ids) && distinct ids

abbrev pub id_of : Row → Text
id_of r = r.0

unfoldable pub triviaqa_questions : List Row → Option (List Row)
unfolding distinct
triviaqa_questions rows =
    if length rows == expected_question_count && distinct (map id_of rows) then some rows else none

-- `by_id[qid]`, a KeyError if it is not there.
unfoldable pub row_by_id : Text → List Row → Option Row
unfolding same_text
row_by_id id [] = none
row_by_id id (r ∷ rows) = if same_text r.0 id then some r else row_by_id id rows

unfoldable pub rows_by_id : List Text → List Row → Option (List Row)
unfolding row_by_id
rows_by_id [] rows = some []
rows_by_id (i ∷ ids) rows = row_by_id i rows >>= λ r. rows_by_id ids rows >>= λ rs. some (r ∷ rs)

unfoldable pub others : List Text → List Row → List Row
unfolding mem
others ids [] = []
others ids (r ∷ rows) = if mem r.0 ids then others ids rows else r ∷ others ids rows

pub record Payload : Type 0 where
  pub all : List Row
  pub dev : List Row
  pub test : List Row

-- `build_split_payload`, from the rows of both files. A development id that is missing is refused,
-- as is a wrong count.
unfoldable pub build_split : List Row → List Row → Option Payload
unfolding triviaqa_questions distinct rows_by_id others
build_split gold dev_rows = triviaqa_questions gold >>= λ all.
    let ids = map id_of dev_rows in
    if length ids == expected_dev_count && distinct ids
    then (rows_by_id ids all >>= λ dev.
        if length (others ids all) == expected_test_count
        then some (record { all = all; dev = dev; test = others ids all })
        else none)
    else none
