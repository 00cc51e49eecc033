-- ===== src/Parser/Pieces.antt =====
-- What the parser pops off the front of a printed text: a weight, a token, a subquery.
use qry_eval_plus.Prelude.{
  >>=-assoc, All, Bool, List, Option, [], ap, arith, drop, false, length, refl, some, suc, take,
  true, ℕ, ◌++◌, ◌+◌, ◌>>=◌, ◌∙◌, ◌∷◌, ◌≡◌, ◌≢◌,
}
use Prim.Native.String.{String}
use qry_eval_plus.Text.{Text, lstrip, rstrip, strip}
use qry_eval_plus.Text.Words.{IsSolid, lstrip_solid, rstrip-append, StartsApart, split_word-append}
use qry_eval_plus.Tree.{Weight, Qry}
use qry_eval_plus.Parser.{
  pop_term, pop_subquery, pop_weight, pop_argument, append_all, is_weighted, parse_string,
  parse_args,
}
use qry_eval_plus.Parser.Balance.{IsBalanced, enclosed, balance-enclosed, length-enclosed}
use qry_eval_plus.Parser.Printed.{IsPlain, IsWeight, print_weight, weigh}

pub plain-IsSolid : (s : Text) → All IsPlain s → All IsSolid s
plain-IsSolid [] h = tt
plain-IsSolid (c ∷ s) h = (h.0.0, plain-IsSolid s h.1)

cons-ne-nil : (c : ℕ) (s : Text) → c ∷ s ≢ []
cons-ne-nil c s e = cc

pub rstrip_gap :
    (before : Text) (c : ℕ) (s : Text)
    → rstrip (c ∷ s) ≡ c ∷ s
    → rstrip (before ++ b' ' ∷ c ∷ s) ≡ before ++ b' ' ∷ c ∷ s
rstrip_gap before c s e =
    rstrip-append before (b' ' ∷ c ∷ s) (cons-ne-nil b' ' (c ∷ s))
      (rstrip-append (b' ' ∷ []) (c ∷ s) (cons-ne-nil c s) e)

pub strip_gap :
    (c : ℕ) (s : Text) → IsSolid c → rstrip (c ∷ s) ≡ c ∷ s → strip (b' ' ∷ c ∷ s) ≡ c ∷ s
unfolding strip lstrip
strip_gap c s h e = ap lstrip (rstrip_gap [] c s e) ∙ lstrip_solid c s h

pub pop_term-append :
    (c : ℕ) (w rest : Text)
    → All IsSolid (c ∷ w)
    → StartsApart rest
    → pop_term (c ∷ w ++ rest) ≡ some (c ∷ w, lstrip rest)
unfolding pop_term
pop_term-append c w rest h a =
    rw (lstrip_solid c (w ++ rest) h.0) (ap some (split_word-append (c ∷ w) rest h a))

take_front : (t u : Text) → take (length t) (t ++ u) ≡ t
take_front [] u = refl
take_front (c ∷ t) u = ap (λ v. c ∷ v) (take_front t u)

drop_front : (t u : Text) → drop (length t) (t ++ u) ≡ u
drop_front [] u = refl
drop_front (c ∷ t) u = drop_front t u

-- `(s)` after plain characters is popped as one subquery.
pub pop_subquery-enclosed :
    (w s rest : Text)
    → All IsPlain w
    → IsBalanced s
    → pop_subquery (enclosed w s ++ rest) ≡ some (enclosed w s, rest)
unfolding pop_subquery
pop_subquery-enclosed w s rest plain inner =
    let e : length w + 1 + length s + 1 ≡ length (enclosed w s) =
      omega (arith, length-enclosed w s plain inner) in
    rw (balance-enclosed w s plain inner rest, e)
      (rw (take_front (enclosed w s) rest, drop_front (enclosed w s) rest))

module _ (tokenize_string : Text → List String) (float : Text → Option Weight) where
  pop_weight-append :
      (d : ℕ) (w : Text) (c : ℕ) (s : Text)
      → All IsSolid (d ∷ w)
      → IsSolid c
      → pop_weight tokenize_string float true (d ∷ w ++ b' ' ∷ c ∷ s)
        ≡ (float (d ∷ w) >>= λ k. some (k, c ∷ s))
  unfolding pop_weight
  pop_weight-append d w c s iw h =
      rw (pop_term-append d w (b' ' ∷ c ∷ s) iw refl)
        (ap (λ (v : Text). float (d ∷ w) >>= λ k. some (k, v)) (lstrip_solid c s h))

  -- A round of the loop over the arguments, behind the weight.
  abbrev pub after_weight : ℕ → Qry → Weight → Text → Option Qry
  after_weight fuel tree k s =
      pop_argument tokenize_string float (parse_string tokenize_string float fuel) s
      >>= λ (qs, rest).
          append_all tree k qs >>= λ t. parse_args tokenize_string float fuel t (strip rest)

  -- A round of the loop at a printed weight and the input behind it.
  pub parse_args_round :
      (b : Bool) (w : Text) (c : ℕ) (s : Text) (fuel : ℕ) (tree : Qry)
      → IsWeight b w
      → IsSolid c
      → rstrip (c ∷ s) ≡ c ∷ s
      → is_weighted tree ≡ b
      → parse_args tokenize_string float (suc fuel) tree (strip (print_weight b w ++ b' ' ∷ c ∷ s))
        ≡ (weigh tokenize_string float b w >>= λ k. after_weight fuel tree k (c ∷ s))
  unfolding parse_args pop_weight
  parse_args_round false w c s fuel tree iw h e t = rw (strip_gap c s h e, t)
  parse_args_round true [] c s fuel tree iw h e t = absurd iw
  parse_args_round true (d ∷ w) c s fuel tree iw h e t =
      rw (strip_gap d (w ++ b' ' ∷ c ∷ s) iw.0.0 (rstrip_gap (d ∷ w) c s e), t)
        (ap (λ (o : Option (Weight × Text)). o >>= λ x. after_weight fuel tree x.0 x.1)
            (pop_weight-append d w c s (plain-IsSolid (d ∷ w) iw) h)
          ∙ >>=-assoc (float (d ∷ w)) (λ k. some (k, c ∷ s)) (λ x. after_weight fuel tree x.0 x.1))
