-- ===== src/Parser/Head.antt =====
-- The head of `parseString` on a printed query: its checks pass, and the text is cut at the
-- parentheses.
use qry_eval_plus.Prelude.{
  All, List, Option, [], ap, append-nil, arith, false, length, refl, some, sym, true, ◌++◌, ◌+◌,
  ◌==◌, ◌>>=◌, ◌∙◌, ◌∷◌, ◌≡◌,
}
use Prim.Native.String.{String}
use qry_eval_plus.Text.{Text, is_space, lstrip, strip, count}
use qry_eval_plus.Text.Words.{count-append, rstrip_solid, split_once-append, rsplit_once-snoc}
use qry_eval_plus.Tree.{Operator, near, wsum, Weight, Qry, node, nil}
use qry_eval_plus.Parser.{
  create_operator, is_weighted, parse_stripped, well_placed, index_of_balancing_paren,
}
use qry_eval_plus.Parser.Balance.{
  IsBalanced, plain-Lacks, enclosed, enclosed-IsBalanced, balance-enclosed, length-enclosed,
}
use qry_eval_plus.Parser.Pieces.{plain-IsSolid}
use qry_eval_plus.Parser.Shape.{hash-IsPlain, print_inputs-IsBalanced, print-rstrip}
use qry_eval_plus.Parser.Printed.{
  Source, query, Inputs, takes_weights, weighs, print, print_inputs, IsPlain, IsSource,
}

well_placed-enclosed :
    (w s : Text) → All IsPlain w → IsBalanced s → well_placed (enclosed w s) ≡ some true
unfolding well_placed count
well_placed-enclosed w s plain inner =
    let whole = enclosed-IsBalanced w s plain inner in
    let opened = count-append b'(' w (b'(' ∷ (s ++ b')' ∷ [])) in
    let found : index_of_balancing_paren (enclosed w s) ≡ some (some (length w + 1 + length s)) =
      rw append-nil at (balance-enclosed w s plain inner []) in
    let first : (count b'(' (enclosed w s) == 0) ≡ false = ground (arith, opened) in
    let same : (count b'(' (enclosed w s) == count b')' (enclosed w s)) ≡ true =
      ground (arith, whole.even) in
    let last : (length w + 1 + length s + 1 == length (enclosed w s)) ≡ true =
      ground (arith, length-enclosed w s plain inner) in
    rw (first, same, found, last)

strip_name : (name : Text) → All IsPlain name → strip (b'#' ∷ name) ≡ b'#' ∷ name
unfolding strip lstrip is_space
strip_name name h =
    ap lstrip (rstrip_solid (b'#' ∷ name) (plain-IsSolid (b'#' ∷ name) (hash-IsPlain, h)))

pub strip-print : (q : Source) → strip (print q) ≡ print q
unfolding strip lstrip is_space print
strip-print (query name xs) = ap lstrip (print-rstrip (query name xs))

node_weighted : (op : Operator) → is_weighted (node op nil) ≡ weighs (some op)
node_weighted (wsum ws) = refl
node_weighted (near n) = refl
node_weighted _ = refl

pub node_takes :
    (name : Text) (op : Operator)
    → create_operator (b'#' ∷ name) ≡ some op
    → is_weighted (node op nil) ≡ takes_weights name
unfolding takes_weights
node_takes name op e = node_weighted op ∙ ap weighs (sym e)

module _ (tokenize_string : Text → List String) (float : Text → Option Weight) where
  -- The checks at the head of `parseString` pass, and the text is cut at the parentheses.
  pub parse_stripped-print :
      (args : Qry → Text → Option Qry) (name : Text) (xs : Inputs)
      → IsSource (query name xs)
      → parse_stripped tokenize_string float args (print (query name xs)) ≡ (
          create_operator (b'#' ∷ name) >>= λ op.
          args (node op nil) (strip (print_inputs (takes_weights name) xs)))
  unfolding parse_stripped print IsSource
  parse_stripped-print args name xs h =
      let inputs = print_inputs (takes_weights name) xs in
      let plain : All IsPlain (b'#' ∷ name) = (hash-IsPlain, h.0) in
      rw
        (well_placed-enclosed (b'#' ∷ name) inputs plain
          (print_inputs-IsBalanced xs (takes_weights name) h.1))
        (rw
          (split_once-append b'(' (b'#' ∷ name) (inputs ++ b')' ∷ [])
            (plain-Lacks (b'#' ∷ name) plain).0)
          (rw (strip_name name h.0, rsplit_once-snoc b')' inputs)))
