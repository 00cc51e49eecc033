-- ===== src/Parser/Printed.antt =====
-- Queries as they are written, with operators, tokens and weights apart: their text, and the tree
-- that they stand for, with no reference to the way the parser cuts a text up.
use qry_eval_plus.Prelude.{
  All, Bool, List, Option, [], false, some, true, ℕ, ◌++◌, ◌==◌, ◌>>=◌, ◌∷◌, ◌≡◌,
}
use Prim.Native.String.{String}
use qry_eval_plus.Text.{Text}
use qry_eval_plus.Text.Words.{IsSolid}
use qry_eval_plus.Tree.{Operator, wsum, Weight, counted, Qry, node, nil}
use qry_eval_plus.Parser.{create_operator, create_terms, is_weighted, append_all}

-- An operator's name is written after its `#`. A weight is written where the operator takes one.
mutual
  pub data Source : Type 0 where
    query : Text → Inputs → Source

  pub data Inputs : Type 0 where
    end : Inputs
    token : (weight : Text) → Text → Inputs → Inputs
    subquery : (weight : Text) → Source → Inputs → Inputs

abbrev pub weighs : Option Operator → Bool
weighs (some (wsum ws)) = true
weighs _ = false

unfoldable pub takes_weights : Text → Bool
takes_weights name = weighs (create_operator (b'#' ∷ name))

abbrev pub print_weight : Bool → Text → Text
print_weight true w = b' ' ∷ w
print_weight false w = []

unfoldable mutual
  pub print : Source → Text
  print (query name xs) =
      b'#' ∷ (name ++ b'(' ∷ (print_inputs (takes_weights name) xs ++ b')' ∷ []))

  pub print_inputs : Bool → Inputs → Text
  print_inputs b end = []
  print_inputs b (token w t xs) = print_weight b w ++ b' ' ∷ (t ++ print_inputs b xs)
  print_inputs b (subquery w q xs) = print_weight b w ++ b' ' ∷ (print q ++ print_inputs b xs)

abbrev pub IsPlain : ℕ → Type 0
IsPlain c = IsSolid c × ((c == b'(') ≡ false) × ((c == b')') ≡ false)

abbrev pub IsWeight : Bool → Text → Type 0
IsWeight true [] = ⊥
IsWeight true (c ∷ w) = All IsPlain (c ∷ w)
IsWeight false w = Unit

abbrev pub IsToken : Text → Type 0
IsToken [] = ⊥
IsToken (c ∷ t) = All IsPlain (c ∷ t) × ((c == b'#') ≡ false)

-- Names, tokens and weights have no space and no parenthesis, and a token starts with no `#`.
unfoldable mutual
  pub IsSource : Source → Type 0
  IsSource (query name xs) = All IsPlain name × IsInputs (takes_weights name) xs

  pub IsInputs : Bool → Inputs → Type 0
  IsInputs b end = Unit
  IsInputs b (token w t xs) = IsWeight b w × IsToken t × IsInputs b xs
  IsInputs b (subquery w q xs) = IsWeight b w × IsSource q × IsInputs b xs

module _ (tokenize_string : Text → List String) (float : Text → Option Weight) where
  abbrev pub weigh : Bool → Text → Option Weight
  weigh true w = float w
  weigh false w = some (counted 1)

  unfoldable mutual
    pub build : Source → Option Qry
    build (query name xs) = create_operator (b'#' ∷ name) >>= λ op. build_inputs (node op nil) xs

    pub build_inputs : Qry → Inputs → Option Qry
    build_inputs tree end = some tree
    build_inputs tree (token w t xs) = weigh (is_weighted tree) w >>= λ k.
        append_all tree k (create_terms tokenize_string float t) >>= λ t'. build_inputs t' xs
    build_inputs tree (subquery w q xs) = weigh (is_weighted tree) w >>= λ k.
        build q >>= λ q'. append_all tree k (q' ∷ []) >>= λ t'. build_inputs t' xs
