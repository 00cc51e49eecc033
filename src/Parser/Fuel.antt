-- ===== src/Parser/Fuel.antt =====
-- The fuel of the parser: more than the length of a query changes nothing.
use qry_eval_plus.Prelude.{
  >>=-cong, Bool, Bool-cases, List, Option, [], ap, arith, if◌then◌else◌, inl, inr, length, none,
  refl, some, suc, sym, zero, ℕ, ◌+◌, ◌<◌, ◌==◌, ◌>>=◌, ◌∙◌, ◌∷◌, ◌≡◌, ◌≤◌,
}
use Prim.Native.String.{String}
use qry_eval_plus.Text.{Text, strip, split_once, rsplit_once}
use qry_eval_plus.Tree.{Weight, Qry, node, nil}
use qry_eval_plus.Parser.{
  create_operator, pop_subquery, well_placed, append_all, is_weighted, pop_weight, pop_argument,
  parse_stripped, parse_string, parse_args,
}
use qry_eval_plus.Parser.Lengths.{
  length-strip, length-split_once, length-rsplit_once, pop_subquery-shorter, pop_weight-shorter,
  pop_argument-shorter,
}

if-then {ℓ} :
    {A : Type ℓ} (b : Bool) (x y z : A) → x ≡ y → (if b then x else z) ≡ (if b then y else z)
if-then b x y z h = ap (λ v. if b then v else z) h

nil_of_le : (s : Text) → length s ≤ 0 → s ≡ []
nil_of_le [] h = refl
nil_of_le (c ∷ s) h = absurd (omega arith)

module _ (tokenize_string : Text → List String) (float : Text → Option Weight) where
  -- Where two parsers agree on all texts that are no longer, an argument is read alike.
  pop_argument-cong :
      (parse parse' : Text → Option Qry) (s : Text)
      → ((u : Text) → length u ≤ length s → parse u ≡ parse' u)
      → pop_argument tokenize_string float parse s ≡ pop_argument tokenize_string float parse' s
  unfolding pop_argument
  pop_argument-cong parse parse' [] h = refl
  pop_argument-cong parse parse' (c ∷ s) h = elim (Bool-cases (c == b'#')) [
    | inl hash ↦ rw hash (
        >>=-cong (pop_subquery (c ∷ s)) _ _ (λ x e.
          ap (λ (o : Option Qry). o >>= λ q. some (q ∷ [], x.1))
            (h x.0 (pop_subquery-shorter c s x.0 x.1 e).0)))
    | inr other ↦ rw other
  ]

  parse_stripped-cong :
      (args args' : Qry → Text → Option Qry) (s : Text)
      → ((tree : Qry) (u : Text) → length u + 1 < length s → args tree u ≡ args' tree u)
      → parse_stripped tokenize_string float args s ≡ parse_stripped tokenize_string float args' s
  unfolding parse_stripped
  parse_stripped-cong args args' s h = >>=-cong (well_placed s) _ _ (λ placed _.
      if-then placed _ _ none (
        >>=-cong (split_once b'(' s) _ _ (λ x e.
          >>=-cong (create_operator (strip x.0)) _ _ (λ op e'.
            >>=-cong (rsplit_once b')' x.1) _ _ (λ y e''. h (node op nil) (strip y.0) (
              omega (
                arith,
                length-split_once b'(' s x.0 x.1 e,
                length-rsplit_once b')' x.1 y.0 y.1 e'',
                length-strip y.0,
              )))))))

  abbrev EnoughString : ℕ → ℕ → Type 0
  EnoughString f g =
      (s : Text)
      → length s ≤ f
      → length s ≤ g
      → parse_string tokenize_string float f s ≡ parse_string tokenize_string float g s

  abbrev EnoughArgs : ℕ → ℕ → Type 0
  EnoughArgs f g =
      (tree : Qry) (s : Text)
      → length s < f
      → length s < g
      → parse_args tokenize_string float f tree s ≡ parse_args tokenize_string float g tree s

  parse_string_empty : (g : ℕ) → parse_string tokenize_string float g [] ≡ none
  unfolding parse_string
  parse_string_empty zero = refl
  parse_string_empty (suc g) = refl

  -- By the fuel of both calls.
  parse_args-enough : (f g : ℕ) → EnoughString f g → EnoughArgs f g → EnoughArgs (suc f) (suc g)
  unfolding parse_args
  parse_args-enough f g string args tree [] p q = refl
  parse_args-enough f g string args tree (c ∷ s) p q =
      >>=-cong (pop_weight tokenize_string float (is_weighted tree) (c ∷ s)) _ _ (λ x e.
        let shorter =
          pop_weight-shorter tokenize_string float (is_weighted tree) (c ∷ s) x.1 x.0 e in
        ap
          (λ (o : Option (List Qry × Text)). o >>= λ y.
            append_all tree x.0 y.0 >>= λ t. parse_args tokenize_string float f t (strip y.1))
          (pop_argument-cong (parse_string tokenize_string float f)
            (parse_string tokenize_string float g) x.1
            (λ u h. string u (omega arith) (omega arith)))
        ∙ >>=-cong (pop_argument tokenize_string float (parse_string tokenize_string float g) x.1) _
            _
            (λ y e'.
              let rest =
                pop_argument-shorter tokenize_string float (parse_string tokenize_string float g)
                  x.1 y.1 y.0 e' in
              >>=-cong (append_all tree x.0 y.0) _ _ (λ t e''.
                args t (strip y.1) (omega (arith, length-strip y.1))
                  (omega (arith, length-strip y.1)))))

  parse_string-enough : (f g : ℕ) → EnoughArgs f g → EnoughString (suc f) (suc g)
  unfolding parse_string
  parse_string-enough f g args s p q =
      parse_stripped-cong (parse_args tokenize_string float f) (parse_args tokenize_string float g)
        (strip s)
        (λ tree u h. args tree u (omega (arith, length-strip s)) (omega (arith, length-strip s)))

  both-enough : (f g : ℕ) → EnoughString f g × EnoughArgs f g
  both-enough zero g = (
    λ s p q. rw (nil_of_le s p) (parse_string_empty 0 ∙ sym (parse_string_empty g)),
    λ tree s p q. absurd (omega arith),
  )
  both-enough (suc f) zero = (
    λ s p q. rw (nil_of_le s q) (parse_string_empty (suc f) ∙ sym (parse_string_empty 0)),
    λ tree s p q. absurd (omega arith),
  )
  both-enough (suc f) (suc g) =
      let (string, args) = both-enough f g in
      (parse_string-enough f g args, parse_args-enough f g string args)

  -- Whatever fuel the parser is given beyond the length of a query, it reads the query alike: it
  -- never fails for want of fuel.
  pub parse_string-fuel :
      (s : Text) (fuel : ℕ)
      → length s ≤ fuel
      → parse_string tokenize_string float fuel s ≡ parse_string tokenize_string float (length s) s
  parse_string-fuel s fuel h = (both-enough fuel (length s)).0 s h (omega arith)
