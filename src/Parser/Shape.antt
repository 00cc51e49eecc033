-- ===== src/Parser/Shape.antt =====
-- The shape of a printed query: its parentheses match, and it ends in no space.
use qry_eval_plus.Prelude.{All, Bool, [], append-nil, false, refl, true, ℕ, ◌++◌, ◌∷◌, ◌≡◌}
use qry_eval_plus.Text.{Text, is_space, rstrip, count}
use qry_eval_plus.Text.Words.{rstrip-append, rstrip_solid, StartsApart}
use qry_eval_plus.Parser.{balance}
use qry_eval_plus.Parser.Balance.{
  IsBalanced, plain-IsBalanced, append-IsBalanced, enclosed-IsBalanced,
}
use qry_eval_plus.Parser.Pieces.{plain-IsSolid, rstrip_gap}
use qry_eval_plus.Parser.Printed.{
  Source, query, Inputs, end, token, subquery, takes_weights, print_weight, print, print_inputs,
  IsPlain, IsWeight, IsToken, IsSource, IsInputs,
}

pub hash-IsPlain : IsPlain b'#'
unfolding is_space
hash-IsPlain = (refl, refl, refl)

space-IsBalanced : IsBalanced (b' ' ∷ [])
unfolding count balance
space-IsBalanced = record { passes = λ i depth rest. refl; even = refl }

gap-IsBalanced :
    (b : Bool) (w s : Text)
    → IsWeight b w
    → IsBalanced s
    → IsBalanced (print_weight b w ++ b' ' ∷ s)
gap-IsBalanced false w s h i = append-IsBalanced (b' ' ∷ []) s space-IsBalanced i
gap-IsBalanced true [] s h i = absurd h
gap-IsBalanced true (c ∷ w) s h i =
    append-IsBalanced (b' ' ∷ []) (c ∷ w ++ b' ' ∷ s) space-IsBalanced (
      append-IsBalanced (c ∷ w) (b' ' ∷ s) (plain-IsBalanced (c ∷ w) h)
        (append-IsBalanced (b' ' ∷ []) s space-IsBalanced i))

token-IsPlain : (t : Text) → IsToken t → All IsPlain t
token-IsPlain [] h = absurd h
token-IsPlain (c ∷ t) h = h.0

mutual
  unfolding print IsSource

  pub print-IsBalanced : (q : Source) → IsSource q → IsBalanced (print q)
  print-IsBalanced (query name xs) h =
      enclosed-IsBalanced (b'#' ∷ name) (print_inputs (takes_weights name) xs) (hash-IsPlain, h.0)
        (print_inputs-IsBalanced xs (takes_weights name) h.1)

  pub print_inputs-IsBalanced :
      (xs : Inputs) (b : Bool) → IsInputs b xs → IsBalanced (print_inputs b xs)
  print_inputs-IsBalanced end b h = plain-IsBalanced [] tt
  print_inputs-IsBalanced (token w t xs) b (hw, ht, hx) =
      gap-IsBalanced b w (t ++ print_inputs b xs) hw (
        append-IsBalanced t (print_inputs b xs) (plain-IsBalanced t (token-IsPlain t ht))
          (print_inputs-IsBalanced xs b hx))
  print_inputs-IsBalanced (subquery w q xs) b (hw, hq, hx) =
      gap-IsBalanced b w (print q ++ print_inputs b xs) hw (
        append-IsBalanced (print q) (print_inputs b xs) (print-IsBalanced q hq)
          (print_inputs-IsBalanced xs b hx))

-- A piece that ends in no space, before inputs that do not either.
pub rstrip_piece :
    (c : ℕ) (p s : Text) → rstrip (c ∷ p) ≡ c ∷ p → rstrip s ≡ s → rstrip (c ∷ p ++ s) ≡ c ∷ p ++ s
rstrip_piece c p [] e f = rw append-nil e
rstrip_piece c p (d ∷ s) e f = rstrip-append (c ∷ p) (d ∷ s) (λ g. cc) f

pub print-rstrip : (q : Source) → rstrip (print q) ≡ print q
unfolding print rstrip is_space
print-rstrip (query name xs) =
    let inputs = print_inputs (takes_weights name) xs in
    rstrip-append (b'#' ∷ name) (b'(' ∷ inputs ++ b')' ∷ []) (λ g. cc)
      (rstrip-append (b'(' ∷ inputs) (b')' ∷ []) (λ g. cc) refl)

gap-rstrip :
    (b : Bool) (w : Text) (c : ℕ) (s : Text)
    → rstrip (c ∷ s) ≡ c ∷ s
    → rstrip (print_weight b w ++ b' ' ∷ c ∷ s) ≡ print_weight b w ++ b' ' ∷ c ∷ s
gap-rstrip b w c s e = rstrip_gap (print_weight b w) c s e

pub print_inputs-rstrip :
    (xs : Inputs) (b : Bool) → IsInputs b xs → rstrip (print_inputs b xs) ≡ print_inputs b xs
unfolding print print_inputs rstrip IsInputs
print_inputs-rstrip end b h = refl
print_inputs-rstrip (token w [] xs) b (hw, ht, hx) = absurd ht
print_inputs-rstrip (token w (c ∷ t) xs) b (hw, ht, hx) =
    gap-rstrip b w c (t ++ print_inputs b xs) (
      rstrip_piece c t (print_inputs b xs) (rstrip_solid (c ∷ t) (plain-IsSolid (c ∷ t) ht.0))
        (print_inputs-rstrip xs b hx))
print_inputs-rstrip (subquery w (query name ys) xs) b (hw, hq, hx) = gap-rstrip b w b'#' _ (
    rstrip_piece b'#' _ (print_inputs b xs) (print-rstrip (query name ys))
      (print_inputs-rstrip xs b hx))

pub print_inputs-StartsApart : (xs : Inputs) (b : Bool) → StartsApart (print_inputs b xs)
unfolding print_inputs is_space
print_inputs-StartsApart end b = tt
print_inputs-StartsApart (token w t xs) true = refl
print_inputs-StartsApart (token w t xs) false = refl
print_inputs-StartsApart (subquery w q xs) true = refl
print_inputs-StartsApart (subquery w q xs) false = refl
