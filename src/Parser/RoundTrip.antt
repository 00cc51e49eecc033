-- ===== src/Parser/RoundTrip.antt =====
-- What a printed query parses to: the tree that it stands for.
use qry_eval_plus.Prelude.{
  >>=-assoc, >>=-cong, Bool, List, Option, Option-cases, [], ap, arith, inl, inr, length,
  length-append, refl, some, some_eq, suc, sym, zero, ℕ, ◌++◌, ◌+◌, ◌<◌, ◌>>=◌, ◌∙◌, ◌∷◌, ◌≡◌, ◌≤◌,
}
use Prim.Native.String.{String}
use qry_eval_plus.Text.{Text, lstrip, strip}
use qry_eval_plus.Text.Words.{rstrip_solid, StartsApart, strip-lstrip}
use qry_eval_plus.Tree.{
  near, window, syn, or_, and_, score, sum, wsum, Weight, Qry, term, node, nil, cons, append_arg,
  optimize,
}
use qry_eval_plus.Parser.{
  get_query, create_operator, create_terms, append_all, is_weighted, parse_string, parse_stripped,
  parse_args, pop_argument,
}
use qry_eval_plus.Parser.Head.{strip-print, node_takes, parse_stripped-print}
use qry_eval_plus.Parser.Pieces.{
  plain-IsSolid, pop_term-append, pop_subquery-enclosed, parse_args_round,
}
use qry_eval_plus.Parser.Shape.{
  hash-IsPlain, print_inputs-IsBalanced, print-rstrip, rstrip_piece, print_inputs-rstrip,
  print_inputs-StartsApart,
}
use qry_eval_plus.Parser.Printed.{
  Source, query, Inputs, end, token, subquery, takes_weights, print_weight, print, print_inputs,
  IsToken, IsSource, IsInputs, weigh, build, build_inputs,
}

append_arg-is_weighted :
    (tree q t : Qry) (w : Weight) → append_arg tree w q ≡ some t → is_weighted t ≡ is_weighted tree
unfolding append_arg
append_arg-is_weighted (term n f) q t w e = cc
append_arg-is_weighted (node score nil) q t w e = ground arith
append_arg-is_weighted (node score (cons p ps)) q t w e = cc
append_arg-is_weighted (node (near n) nil) q t w e = ground arith
append_arg-is_weighted (node (near n) (cons p ps)) q t w e = ground arith
append_arg-is_weighted (node (window n) nil) q t w e = ground arith
append_arg-is_weighted (node (window n) (cons p ps)) q t w e = ground arith
append_arg-is_weighted (node syn nil) q t w e = ground arith
append_arg-is_weighted (node syn (cons p ps)) q t w e = ground arith
append_arg-is_weighted (node or_ args) q t w e = ground arith
append_arg-is_weighted (node and_ args) q t w e = ground arith
append_arg-is_weighted (node sum args) q t w e = ground arith
append_arg-is_weighted (node (wsum ws) args) q t w e = ground arith

append_all-is_weighted :
    (tree : Qry) (w : Weight) (qs : List Qry) (t : Qry)
    → append_all tree w qs ≡ some t
    → is_weighted t ≡ is_weighted tree
unfolding append_all
append_all-is_weighted tree w [] t e = ap is_weighted (sym (some_eq e))
append_all-is_weighted tree w (q ∷ qs) t e = elim (Option-cases (append_arg tree w q)) [
  | inl none_ ↦ cc (rw none_ at e)
  | inr (t', e') ↦
      append_all-is_weighted t' w qs t (rw e' at e) ∙ append_arg-is_weighted tree q t' w e'
]

module _ (tokenize_string : Text → List String) (float : Text → Option Weight) where
  abbrev parses : ℕ → Text → Option Qry
  parses = parse_string tokenize_string float

  pop_argument-token :
      (parse : Text → Option Qry) (t rest : Text)
      → IsToken t
      → StartsApart rest
      → pop_argument tokenize_string float parse (t ++ rest)
        ≡ some (create_terms tokenize_string float t, lstrip rest)
  unfolding pop_argument
  pop_argument-token parse [] rest h a = absurd h
  pop_argument-token parse (c ∷ t) rest h a =
      rw (h.1, pop_term-append c t rest (plain-IsSolid (c ∷ t) h.0) a)

  pop_argument-subquery :
      (parse : Text → Option Qry) (q : Source) (rest : Text)
      → IsSource q
      → pop_argument tokenize_string float parse (print q ++ rest)
        ≡ (parse (print q) >>= λ q'. some (q' ∷ [], rest))
  unfolding pop_argument print IsSource
  pop_argument-subquery parse (query name xs) rest h =
      let inputs = print_inputs (takes_weights name) xs in
      rw (
        pop_subquery-enclosed (b'#' ∷ name) inputs rest (hash-IsPlain, h.0)
          (print_inputs-IsBalanced xs (takes_weights name) h.1))

  abbrev after_argument : ℕ → Qry → Weight → List Qry → Text → Option Qry
  after_argument fuel tree k qs rest =
      append_all tree k qs >>= λ t. parse_args tokenize_string float fuel t (strip rest)

  length_print :
      (name inputs : Text)
      → length (b'#' ∷ (name ++ b'(' ∷ (inputs ++ b')' ∷ []))) ≡ length name + length inputs + 3
  length_print name inputs =
      omega
        (arith, length-append name (b'(' ∷ (inputs ++ b')' ∷ [])), length-append inputs (b')' ∷ []))

  mutual
    unfolding parse_string build build_inputs IsSource IsInputs print print_inputs

    parse_string-print :
        (q : Source) (fuel : ℕ)
        → IsSource q
        → length (print q) ≤ fuel
        → parses fuel (print q) ≡ build tokenize_string float q
    parse_string-print (query name xs) zero h f = absurd (omega arith)
    parse_string-print (query name xs) (suc fuel) h f =
        ap (parse_stripped tokenize_string float (parse_args tokenize_string float fuel))
          (strip-print (query name xs))
        ∙ parse_stripped-print tokenize_string float (parse_args tokenize_string float fuel) name xs
            h
        ∙ (>>=-cong (create_operator (b'#' ∷ name)) _ _ (λ op e.
            parse_args-print xs (takes_weights name) (node op nil) fuel h.1 (node_takes name op e)
              (omega (arith, length_print name (print_inputs (takes_weights name) xs)))))

    parse_args-print :
        (xs : Inputs) (b : Bool) (tree : Qry) (fuel : ℕ)
        → IsInputs b xs
        → is_weighted tree ≡ b
        → length (print_inputs b xs) < fuel
        → parse_args tokenize_string float fuel tree (strip (print_inputs b xs))
          ≡ build_inputs tokenize_string float tree xs
    parse_args-print end b tree fuel h t f = refl
    parse_args-print (token w x xs) b tree zero h t f = absurd (omega arith)
    parse_args-print (token w [] xs) b tree (suc fuel) (hw, hx, hs) t f = absurd hx
    parse_args-print (token w (c ∷ x) xs) b tree (suc fuel) (hw, hx, hs) t f =
        let rest = print_inputs b xs in
        let piece = rstrip_solid (c ∷ x) (plain-IsSolid (c ∷ x) hx.0) in
        parse_args_round tokenize_string float b w c (x ++ rest) fuel tree hw hx.0.0.0
          (rstrip_piece c x rest piece (print_inputs-rstrip xs b hs)) t
        ∙ rw t (
            >>=-cong (weigh tokenize_string float b w) _ _ (λ k e.
              rw (pop_argument-token (parses fuel) (c ∷ x) rest hx (print_inputs-StartsApart xs b))
                (>>=-cong (append_all tree k (create_terms tokenize_string float (c ∷ x))) _ _
                  (λ t' e'. rw (strip-lstrip rest) (
                    parse_args-print xs b t' fuel hs
                      (append_all-is_weighted tree k (create_terms tokenize_string float (c ∷ x)) t'
                          e'
                        ∙ t)
                      (omega (
                        arith,
                        length-append (print_weight b w) (b' ' ∷ (c ∷ x ++ rest)),
                        length-append (c ∷ x) rest,
                      )))))))
    parse_args-print (subquery w (query name ys) xs) b tree zero h t f = absurd (omega arith)
    parse_args-print (subquery w (query name ys) xs) b tree (suc fuel) (hw, hq, hs) t f =
        let rest = print_inputs b xs in
        let q = query name ys in
        let enough = length-append (print_weight b w) (b' ' ∷ (print q ++ rest)) in
        parse_args_round tokenize_string float b w b'#' _ fuel tree hw refl
          (rstrip_piece b'#' _ rest (print-rstrip q) (print_inputs-rstrip xs b hs)) t
        ∙ rw t (
            >>=-cong (weigh tokenize_string float b w) _ _ (λ k e.
              ap (λ (o : Option (List Qry × Text)). o >>= λ x. after_argument fuel tree k x.0 x.1)
                (pop_argument-subquery (parses fuel) q rest hq
                  ∙ ap (λ (o : Option Qry). o >>= λ q'. some (q' ∷ [], rest))
                      (parse_string-print q fuel hq
                        (omega (arith, enough, length-append (print q) rest))))
              ∙ >>=-assoc (build tokenize_string float q) (λ q'. some (q' ∷ [], rest))
                  (λ x. after_argument fuel tree k x.0 x.1)
              ∙ >>=-cong (build tokenize_string float q) _ _ (λ q' e'.
                >>=-cong (append_all tree k (q' ∷ [])) _ _ (λ t' e''.
                  parse_args-print xs b t' fuel hs
                    (append_all-is_weighted tree k (q' ∷ []) t' e'' ∙ t)
                    (omega (arith, enough, length-append (print q) rest))))))

  -- A query that is written with names, weights and tokens without spaces and parentheses, tokens
  -- starting with no `#`, is read by getQuery as the optimized tree that it stands for, and raises
  -- an exception or is deleted exactly where that tree does or is.
  pub get_query-print :
      (q : Source)
      → IsSource q
      → get_query tokenize_string float (print q)
        ≡ (build tokenize_string float q >>= λ t. optimize t)
  unfolding get_query
  get_query-print q h =
      ap (λ (o : Option Qry). o >>= λ t. optimize t)
        (parse_string-print q (length (print q)) h (omega arith))
