-- ===== src/Passages/Tests.antt =====
-- The passages of a body of five tokens.
use qry_eval_plus.Prelude.{In, List, [], arith, length, refl, some, ◌∷◌, ◌≡◌, ◌≤◌, ◌⊎◌}
use qry_eval_plus.Text.{Text, codes}
use qry_eval_plus.Passages.{Settings, body_passages, build}
use qry_eval_plus.Passages.Covers.{Covered, body_passages-Covered}

abbrev settings : Settings
settings = record { psg_len = 3; psg_stride = 2; psg_cnt = 4; max_title_length = 1 }

abbrev tokens : List Text
tokens = codes "a" ∷ codes "b" ∷ codes "c" ∷ codes "d" ∷ codes "e" ∷ []

-- The third window would start at the last token and reach no further.
two_passages :
    build settings (some (codes "Letters of old")) (some (codes "a b c  d e"))
    ≡ some (codes "Letters a b c" ∷ codes "Letters c d e" ∷ [])
unfolding build
two_passages = refl

body_passages-Covered_example :
    (ps : List (List Text)) × (body_passages settings [] tokens ≡ some ps)
    × (length ps ≤ 4)
    × ((length ps ≡ 4) ⊎ ((t : Text) → In t tokens → Covered t ps))
body_passages-Covered_example =
    body_passages-Covered settings [] (codes "a")
      (codes "b" ∷ codes "c" ∷ codes "d" ∷ codes "e" ∷ []) (omega arith) (omega arith)
