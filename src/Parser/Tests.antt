-- ===== src/Parser/Tests.antt =====
-- The parser on concrete queries, with an analyzer that splits nothing and keeps no stopword.
use qry_eval_plus.Prelude.{
  List, Option, [], arith, if◌then◌else◌, length, none, refl, some, ◌>>=◌, ◌∷◌, ◌≡◌,
}
use Prim.Native.String.{String}
use qry_eval_plus.Text.{Text, codes, is_space, same_text, pos, negsuc, int}
use qry_eval_plus.Tree.{near, score, wsum, Weight, parsed, term, node, nil, cons, optimize}
use qry_eval_plus.Parser.{create_operator, parse_string, get_query}
use qry_eval_plus.Parser.Printed.{
  Source, query, end, token, subquery, print, build, takes_weights, IsSource,
}
use qry_eval_plus.Parser.RoundTrip.{get_query-print}
use qry_eval_plus.Parser.Fuel.{parse_string-fuel}

-- A stand-in for the analyzer, on the words of the tests.
abbrev analyze : Text → List String
unfolding same_text
analyze t =
    if same_text t (codes "apple")
    then "apple" ∷ []
    else (if same_text t (codes "near-death") then "near" ∷ "death" ∷ [] else [])

abbrev read_float : Text → Option Weight
unfolding same_text
read_float t = if same_text t (codes "0.5") then some (parsed "0.5") else none

-- #wsum( 0.5 apple.title 0.5 #near/2( near-death))
abbrev sample : Source
sample = query (codes "wsum") (
    token (codes "0.5") (codes "apple.title")
      (subquery (codes "0.5") (query (codes "near/2") (token [] (codes "near-death") end)) end))

sample-IsSource : IsSource sample
unfolding IsSource is_space takes_weights create_operator
sample-IsSource = ground arith

get_query-print_example :
    get_query analyze read_float (print sample)
    ≡ (build analyze read_float sample >>= λ t. optimize t)
get_query-print_example = get_query-print analyze read_float sample sample-IsSource

parse_string-fuel_example :
    parse_string analyze read_float 100 (print sample)
    ≡ parse_string analyze read_float (length (print sample)) (print sample)
parse_string-fuel_example =
    parse_string-fuel analyze read_float (print sample) 100
      (unfold print takes_weights create_operator in omega arith)

sample_tree :
    get_query analyze read_float (print sample)
    ≡ some (
        node (wsum (parsed "0.5" ∷ parsed "0.5" ∷ [])) (
          cons (node score (cons (term "apple" "title") nil)) (
            cons
              (node score (
                cons
                  (node (near (pos 2)) (cons (term "near" "body") (cons (term "death" "body") nil)))
                  nil))
              nil)))
unfolding get_query print takes_weights
sample_tree = refl

slashes : create_operator (codes "#near/2/3") ≡ some (near (pos 2))
unfolding create_operator
slashes = refl

negative : int (codes " -1_0 ") ≡ some (negsuc 9)
unfolding int is_space
negative = refl
