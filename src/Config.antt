-- ===== src/Config.antt =====
-- The tasks of an experiment: ordered_tasks of src/qryeval_plus/config.py. The parameters are the
-- entries of the JSON object; a value that is no object is `none`. A raised ConfigError is `none`.
-- The digits of a key are ASCII digits.
pub mod Sort
pub mod Order
mod Tests
use qry_eval_plus.Prelude.{
  Bool, List, Option, [], drop, false, if◌then◌else◌, leb, ltb, none, some, true, ℕ, ◌&&◌, ◌*◌, ◌+◌,
  ◌-◌, ◌==◌, ◌>>=◌, ◌∷◌, ◌||◌,
}
use qry_eval_plus.Text.{Text, codes}
use qry_eval_plus.Grounding.{starts_with}

abbrev pub task_prefix : Text
task_prefix = codes "task_"

-- The leading digits and what follows them.
unfoldable pub span_digits : Text → Text × Text
span_digits [] = ([], [])
span_digits (c ∷ s) =
    let (digits, after) = span_digits s in
    if leb b'0' c && leb c b'9' then (c ∷ digits, after) else ([], c ∷ s)

unfoldable pub number_from : ℕ → Text → ℕ
number_from n [] = n
number_from n (c ∷ s) = number_from (n * 10 + (c - b'0')) s

unfoldable pub is_role : Text → Bool
is_role [] = true
is_role (c ∷ s) = (leb b'a' c && leb c b'z') && is_role s

-- `\d+` before `:([a-z]+)`.
abbrev pub match_parts : Text × Text → Option (ℕ × Text)
match_parts ([], after) = none
match_parts (d ∷ digits, []) = none
match_parts (d ∷ digits, c ∷ []) = none
match_parts (d ∷ digits, c ∷ x ∷ role) =
    if c == b':' && is_role (x ∷ role) then some (number_from 0 (d ∷ digits), x ∷ role) else none

-- `_TASK_RE.fullmatch`, of a key that starts with the prefix.
unfoldable pub match_task : Text → Option (ℕ × Text)
unfolding span_digits number_from is_role
match_task key = match_parts (span_digits (drop 5 key))

pub record Task (T : Type 0) : Type 0 where
  pub number : ℕ
  pub key : Text
  pub role : Text
  pub value : T

unfoldable pub seen_before : ℕ → List ℕ → Bool
seen_before n [] = false
seen_before n (m ∷ ms) = m == n || seen_before n ms

module _ {T : Type 0} where
  -- One entry under a task key.
  abbrev pub read_task : List ℕ → Text → Option T → Option (Task T)
  read_task seen key value = match_task key >>= λ (number, role).
      if seen_before number seen
      then none
      else (value >>= λ v. some (record { number = number; key = key; role = role; value = v }))

  unfoldable pub read_tasks : List ℕ → List (Text × Option T) → Option (List (Task T))
  unfolding match_task seen_before starts_with
  read_tasks seen [] = some []
  read_tasks seen ((key, value) ∷ entries) = elim (starts_with task_prefix key) [
    | false ↦ read_tasks seen entries
    | true ↦ read_task seen key value >>= λ t.
        read_tasks (t.number ∷ seen) entries >>= λ ts. some (t ∷ ts)
  ]

  -- `sorted(tasks)`: the numbers differ, so nothing else is compared.
  unfoldable pub insert_task : Task T → List (Task T) → List (Task T)
  insert_task t [] = t ∷ []
  insert_task t (u ∷ us) =
      let rest = insert_task t us in if ltb t.number u.number then t ∷ u ∷ us else u ∷ rest

  unfoldable pub sort_tasks : List (Task T) → List (Task T)
  unfolding insert_task
  sort_tasks [] = []
  sort_tasks (t ∷ ts) = insert_task t (sort_tasks ts)

  unfoldable pub ordered_tasks : List (Text × Option T) → Option (List (Task T))
  unfolding read_tasks sort_tasks
  ordered_tasks parameters = read_tasks [] parameters >>= λ tasks. some (sort_tasks tasks)
