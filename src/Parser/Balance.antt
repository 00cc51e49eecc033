-- ===== src/Parser/Balance.antt =====
-- The search for the balancing parenthesis in a text whose parentheses match.
use qry_eval_plus.Prelude.{
  All, [], ap, append_assoc, arith, length, length-append, some, suc, sym, ℕ, ◌++◌, ◌+◌, ◌∙◌, ◌∷◌,
  ◌≡◌,
}
use qry_eval_plus.Text.{Text, count}
use qry_eval_plus.Text.Words.{Lacks, count-append, count-Lacks}
use qry_eval_plus.Parser.{balance}
use qry_eval_plus.Parser.Printed.{IsPlain}

-- Inside of parentheses the search runs past such a text.
pub record IsBalanced (s : Text) : Type 0 where
  pub passes :
      (i depth : ℕ) (rest : Text)
      → balance i (suc depth) (s ++ rest) ≡ balance (i + length s) (suc depth) rest
  pub even : count b'(' s ≡ count b')' s

pub plain-Lacks : (s : Text) → All IsPlain s → Lacks b'(' s × Lacks b')' s
plain-Lacks [] h = (tt, tt)
plain-Lacks (c ∷ s) h = let (l, r) = plain-Lacks s h.1 in ((h.0.1, l), (h.0.2, r))

balance_step :
    (c i depth : ℕ) (s : Text) → IsPlain c → balance i depth (c ∷ s) ≡ balance (i + 1) depth s
unfolding balance
balance_step c i depth s h = ground arith

-- Plain characters are passed at any depth.
pub balance-plain :
    (s : Text) (i depth : ℕ) (rest : Text)
    → All IsPlain s
    → balance i depth (s ++ rest) ≡ balance (i + length s) depth rest
unfolding balance
balance-plain [] i depth rest h = ap (λ j. balance j depth rest) (omega arith)
balance-plain (c ∷ s) i depth rest h =
    balance_step c i depth (s ++ rest) h.0
    ∙ balance-plain s (i + 1) depth rest h.1
    ∙ ap (λ j. balance j depth rest) (omega arith)

pub plain-IsBalanced : (s : Text) → All IsPlain s → IsBalanced s
plain-IsBalanced s h = record {
  passes = λ i depth rest. balance-plain s i (suc depth) rest h;
  even = count-Lacks b'(' s (plain-Lacks s h).0 ∙ sym (count-Lacks b')' s (plain-Lacks s h).1);
}

pub append-IsBalanced : (s t : Text) → IsBalanced s → IsBalanced t → IsBalanced (s ++ t)
append-IsBalanced s t b c = record {
  passes = λ i depth rest.
      ap (balance i (suc depth)) (append_assoc s t rest)
      ∙ b.passes i depth (t ++ rest)
      ∙ c.passes (i + length s) depth rest
      ∙ ap (λ j. balance j (suc depth) rest) (omega (arith, length-append s t));
  even = omega (arith, count-append b'(' s t, count-append b')' s t, b.even, c.even);
}

abbrev pub enclosed : Text → Text → Text
enclosed w s = w ++ b'(' ∷ (s ++ b')' ∷ [])

-- `(s)` after plain characters: balanced, and closed at its last character.
module _ (w s : Text) (plain : All IsPlain w) (inner : IsBalanced s) where
  balance_inner :
      (i depth : ℕ) (rest : Text)
      → balance i depth (b'(' ∷ ((s ++ b')' ∷ []) ++ rest))
        ≡ balance (i + 1 + length s) (suc depth) (b')' ∷ rest)
  unfolding balance
  balance_inner i depth rest =
      ap (balance (i + 1) (suc depth)) (append_assoc s (b')' ∷ []) rest)
      ∙ inner.passes (i + 1) depth (b')' ∷ rest)

  balance_up_to_end :
      (i depth : ℕ) (rest : Text)
      → balance i depth (enclosed w s ++ rest)
        ≡ balance (i + length w + 1 + length s) (suc depth) (b')' ∷ rest)
  balance_up_to_end i depth rest =
      ap (balance i depth) (append_assoc w (b'(' ∷ (s ++ b')' ∷ [])) rest)
      ∙ balance-plain w i depth (b'(' ∷ ((s ++ b')' ∷ []) ++ rest)) plain
      ∙ balance_inner (i + length w) depth rest

  pub balance-enclosed :
      (rest : Text) → balance 0 0 (enclosed w s ++ rest) ≡ some (some (length w + 1 + length s))
  unfolding balance
  balance-enclosed rest = balance_up_to_end 0 0 rest ∙ ap (λ j. some (some j)) (omega arith)

  pub length-enclosed : length (enclosed w s) ≡ length w + 2 + length s
  length-enclosed =
      omega (arith, length-append w (b'(' ∷ (s ++ b')' ∷ [])), length-append s (b')' ∷ []))

  pub enclosed-IsBalanced : IsBalanced (enclosed w s)
  unfolding balance count
  enclosed-IsBalanced = record {
    passes = λ i depth rest.
        balance_up_to_end i (suc depth) rest
        ∙ ap (λ j. balance j (suc depth) rest) (omega (arith, length-enclosed));
    even = omega (
      arith,
      count-append b'(' w (b'(' ∷ (s ++ b')' ∷ [])),
      count-append b')' w (b'(' ∷ (s ++ b')' ∷ [])),
      count-append b'(' s (b')' ∷ []),
      count-append b')' s (b')' ∷ []),
      (plain-IsBalanced w plain).even,
      inner.even,
    );
  }
