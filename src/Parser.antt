-- ===== src/Parser.antt =====
-- The query parser: src/qryeval_plus/query/QryParser.py, getQuery and what it calls. A raised
-- exception is `none`. The Lucene analyzer behind `tokenizeString` and the reading of a float are
-- parameters. The calls of `parse_string` run on fuel: the length of the query.
pub mod Printed
pub mod Balance
pub mod Pieces
pub mod Shape
pub mod Head
pub mod Lengths
pub mod Fuel
mod Tests
pub mod RoundTrip
use qry_eval_plus.Prelude.{
  Bool, List, Option, [], drop, false, if◌then◌else◌, length, map, none, not, some, suc, take, true,
  zero, ℕ, ◌+◌, ◌==◌, ◌>>=◌, ◌∷◌, ◌||◌,
}
use Prim.Native.String.{String}
use qry_eval_plus.Text.{
  Text, codes, same_text, lstrip, strip, count, split_once, rsplit_once, split_word, lower, int, ℤ,
}
use qry_eval_plus.Tree.{
  Operator, near, window, syn, or_, and_, score, sum, wsum, Weight, counted, Qry, term, node, nil,
  append_arg, optimize,
}

abbrev pub with_distance : Text → ℤ → Option Operator
with_distance kind n =
    if same_text kind (codes "#near")
    then some (near n)
    else (if same_text kind (codes "#window") then some (window n) else none)

abbrev pub without_distance : Text → Option Operator
without_distance name =
    if same_text name (codes "#or")
    then some or_
    else (if same_text name (codes "#and")
        then some and_
        else (if same_text name (codes "#syn")
            then some syn
            else (if same_text name (codes "#score")
                then some score
                else (if same_text name (codes "#sum")
                    then some sum
                    else (if same_text name (codes "#wsum") then some (wsum []) else none)))))

-- `parts[1]`, which ends at the next slash.
abbrev pub first_part : Text → Text
first_part s = elim (split_once b'/' s) [ some (part, rest) ↦ part | none ↦ s ]

abbrev pub operator_of : Text → Option (Text × Text) → Option Operator
operator_of name none = without_distance name
operator_of name (some (kind, rest)) = int (first_part rest) >>= λ n. with_distance kind n

unfoldable pub create_operator : Text → Option Operator
unfolding same_text split_once lower int
create_operator name = operator_of (map lower name) (split_once b'/' (map lower name))

abbrev pub known_field : Text → Option String
known_field f =
    if same_text f (codes "body")
    then some "body"
    else (if same_text f (codes "title")
        then some "title"
        else (if same_text f (codes "url")
            then some "url"
            else (if same_text f (codes "keywords")
                then some "keywords"
                else (if same_text f (codes "inlink") then some "inlink" else none))))

-- The term and the field of a token.
abbrev pub term_and_field : Text → Option (Text × Text) → Text × String
term_and_field token none = (token, "body")
term_and_field token (some ([], candidate)) = (token, "body")
term_and_field token (some (c ∷ s, candidate)) = elim (known_field (map lower candidate)) [
  | some f ↦ (c ∷ s, f)
  | none ↦ (token, "body")
]

-- `__indexOfBalancingParen`, from the index `i` on: none inside is its -1.
unfoldable pub balance : ℕ → ℕ → Text → Option (Option ℕ)
balance i depth [] = some none
balance i depth (c ∷ s) = elim (c == b'(') [
  | true ↦ balance (i + 1) (suc depth) s
  | false ↦ elim (c == b')') [
    | true ↦ elim depth [
      | zero ↦ none
      | suc d ↦ elim d [ zero ↦ some (some i) | suc e ↦ balance (i + 1) (suc e) s ]
    ]
    | false ↦ balance (i + 1) depth s
  ]
]

unfoldable pub index_of_balancing_paren : Text → Option (Option ℕ)
unfolding balance
index_of_balancing_paren s = balance 0 0 s

abbrev pub pop_at : Text → Option ℕ → Text × Text
pop_at s none = (s, [])
pop_at s (some i) = (take (i + 1) s, drop (i + 1) s)

unfoldable pub pop_subquery : Text → Option (Text × Text)
unfolding index_of_balancing_paren
pop_subquery s = index_of_balancing_paren s >>= λ i. some (pop_at s i)

abbrev pub pop_word : Text → Option (Text × Text)
pop_word [] = none
pop_word (c ∷ s) = some (split_word (c ∷ s))

unfoldable pub pop_term : Text → Option (Text × Text)
unfolding lstrip split_word
pop_term s = pop_word (lstrip s)

-- Whether the parentheses are there, as many of each kind, and the last character closes the first.
unfoldable pub well_placed : Text → Option Bool
unfolding count index_of_balancing_paren
well_placed s =
    if count b'(' s == 0 || not (count b'(' s == count b')' s)
    then some false
    else (index_of_balancing_paren s >>= λ i.
        some (elim i [ none ↦ false | some j ↦ j + 1 == length s ]))

abbrev pub is_weighted : Qry → Bool
is_weighted (node (wsum ws) args) = true
is_weighted _ = false

unfoldable pub append_all : Qry → Weight → List Qry → Option Qry
unfolding append_arg
append_all tree w [] = some tree
append_all tree w (q ∷ qs) = append_arg tree w q >>= λ t. append_all t w qs

abbrev pub starts_subquery : Text → Bool
starts_subquery [] = false
starts_subquery (c ∷ s) = c == b'#'

module _ (tokenize_string : Text → List String) (float : Text → Option Weight) where
  unfoldable pub create_terms : Text → List Qry
  unfolding rsplit_once same_text lower
  create_terms token =
      let (word, field) = term_and_field token (rsplit_once b'.' token) in
      map (λ t. term t field) (tokenize_string word)

  -- The weight before an argument of a WSUM; the other operators take none.
  unfoldable pub pop_weight : Bool → Text → Option (Weight × Text)
  unfolding pop_term
  pop_weight false s = some (counted 1, s)
  pop_weight true s = pop_term s >>= λ (word, rest). float word >>= λ w. some (w, rest)

  -- What an argument makes: one subquery, or the terms of a token.
  unfoldable pub pop_argument : (Text → Option Qry) → Text → Option (List Qry × Text)
  unfolding pop_subquery pop_term create_terms
  pop_argument parse s =
      if starts_subquery s
      then (pop_subquery s >>= λ (subquery, rest). parse subquery >>= λ q. some (q ∷ [], rest))
      else (pop_term s >>= λ (token, rest). some (create_terms token, rest))

  -- The body of `parseString`, where `args` is its loop over the arguments.
  unfoldable pub parse_stripped : (Qry → Text → Option Qry) → Text → Option Qry
  unfolding strip split_once rsplit_once well_placed create_operator
  parse_stripped args s = well_placed s >>= λ placed.
      if placed
      then (split_once b'(' s >>= λ (name, rest). create_operator (strip name) >>= λ op.
          rsplit_once b')' rest >>= λ (body, end). args (node op nil) (strip body))
      else none

  unfoldable mutual
    unfolding parse_stripped pop_weight pop_argument append_all strip

    pub parse_string : ℕ → Text → Option Qry
    parse_string zero s = none
    parse_string (suc fuel) s = parse_stripped (parse_args fuel) (strip s)

    pub parse_args : ℕ → Qry → Text → Option Qry
    parse_args fuel tree [] = some tree
    parse_args zero tree (c ∷ s) = none
    parse_args (suc fuel) tree (c ∷ s) = pop_weight (is_weighted tree) (c ∷ s) >>= λ (w, s').
        pop_argument (parse_string fuel) s' >>= λ (qs, rest).
        append_all tree w qs >>= λ t. parse_args fuel t (strip rest)

  unfoldable pub get_query : Text → Option Qry
  unfolding parse_string optimize
  get_query s = parse_string (length s) s >>= λ q. optimize q
