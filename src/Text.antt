-- ===== src/Text.antt =====
-- Texts as lists of code points, with the methods of Python's `str` and the call of `int` that
-- src/qryeval_plus makes: strip, split, rsplit, count, lower and the like.
pub mod Words
use qry_eval_plus.Prelude.{
  Bool, List, Option, [], false, if◌then◌else◌, leb, none, some, suc, true, zero, ℕ, ◌&&◌, ◌*◌, ◌+◌,
  ◌-◌, ◌==◌, ◌>>=◌, ◌∷◌, ◌||◌,
}
use Prim.Native.Char.{code}
use Prim.Native.String.{String}

abbrev pub Text : Type 0
Text = List ℕ

-- The code points of a literal.
abbrev pub codes : String → Text
codes String.[] = []
codes (String.◌∷◌ c s) = code c ∷ codes s

unfoldable pub same_text : Text → Text → Bool
same_text [] [] = true
same_text (a ∷ s) (b ∷ t) = a == b && same_text s t
same_text _ _ = false

-- The code points for which `str.isspace` holds.
unfoldable pub is_space : ℕ → Bool
is_space c =
    (leb 9 c && leb c 13)
    || ((leb 28 c && leb c 32)
        || (c == 133
            || (c == 160
                || (c == 5760
                    || ((leb 8192 c && leb c 8202)
                        || (c == 8232
                            || (c == 8233 || (c == 8239 || (c == 8287 || c == 12288)))))))))

unfoldable pub lstrip : Text → Text
unfolding is_space
lstrip [] = []
lstrip (c ∷ s) = if is_space c then lstrip s else c ∷ s

-- A space at the end goes, with all that are behind it.
abbrev pub cons_stripped : ℕ → Text → Text
cons_stripped c [] = if is_space c then [] else c ∷ []
cons_stripped c (d ∷ s) = c ∷ d ∷ s

unfoldable pub rstrip : Text → Text
unfolding is_space
rstrip [] = []
rstrip (c ∷ s) = cons_stripped c (rstrip s)

unfoldable pub strip : Text → Text
unfolding lstrip rstrip
strip s = lstrip (rstrip s)

unfoldable pub count : ℕ → Text → ℕ
count c [] = 0
count c (d ∷ s) = let n = count c s in if d == c then suc n else n

-- `s.split(c, 1)`: what stands before the first `c`, and what stands behind it.
unfoldable pub split_once : ℕ → Text → Option (Text × Text)
split_once c [] = none
split_once c (d ∷ s) =
    let rest = split_once c s >>= λ (before, after). some (d ∷ before, after) in
    if d == c then some ([], s) else rest

-- The same at the last `c`: `s.rsplit(c, 1)`, or `s[0 : s.rindex(c)]`.
unfoldable pub rsplit_once : ℕ → Text → Option (Text × Text)
rsplit_once c [] = none
rsplit_once c (d ∷ s) = elim (rsplit_once c s) [
  | some (before, after) ↦ some (d ∷ before, after)
  | none ↦ if d == c then some ([], s) else none
]

-- The text up to the first space, and the rest without the spaces before it:
-- `s.split(maxsplit=1)` of a text that starts with no space.
unfoldable pub split_word : Text → Text × Text
unfolding is_space lstrip
split_word [] = ([], [])
split_word (c ∷ s) =
    let (word, rest) = split_word s in if is_space c then ([], lstrip s) else (c ∷ word, rest)

-- `lower`, as far as a comparison with an English word can tell: beside the capitals, only the
-- Kelvin sign becomes a letter of the alphabet.
unfoldable pub lower : ℕ → ℕ
lower c = if leb b'A' c && leb c b'Z' then c + 32 else (if c == 8490 then b'k' else c)

pub data ℤ : Type 0 where
  pos : ℕ → ℤ
  negsuc : ℕ → ℤ

abbrev pub negate : ℕ → ℤ
negate zero = pos 0
negate (suc n) = negsuc n

abbrev pub is_digit : ℕ → Bool
is_digit c = leb b'0' c && leb c b'9'

-- The digits of `int`, in ASCII, with `_` allowed between two of them; the flag says that the last
-- character was a digit.
unfoldable pub digits : Text → Bool → ℕ → Option ℕ
digits [] after_digit n = if after_digit then some n else none
digits (c ∷ s) after_digit n = elim (is_digit c) [
  | true ↦ digits s true (n * 10 + (c - b'0'))
  | false ↦ elim (c == b'_' && after_digit) [ true ↦ digits s false n | false ↦ none ]
]

abbrev signed : Text → Option ℤ
signed [] = none
signed (c ∷ s) =
    if c == b'-'
    then (digits s false 0 >>= λ n. some (negate n))
    else (if c == b'+'
        then (digits s false 0 >>= λ n. some (pos n))
        else (digits (c ∷ s) false 0 >>= λ n. some (pos n)))

unfoldable pub int : Text → Option ℤ
unfolding digits strip
int s = signed (strip s)
