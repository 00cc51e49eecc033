-- ===== src/Statistics/Tests.antt =====
-- Three p-values in units of a thousandth.
use qry_eval_plus.Prelude.{List, [], arith, refl, ℕ, ◌∷◌, ◌≡◌}
use Prim.Native.String.{String}
use mathlib.Core.List.{Perm}
use qry_eval_plus.Statistics.{holm_adjust}
use qry_eval_plus.Statistics.Holm.{IsSorted, Adjusted, holm_adjust-Adjusted}

abbrev three : List (String × ℕ)
three = ("a", 40) ∷ ("b", 10) ∷ ("c", 30) ∷ []

holm_adjust-Adjusted_example :
    (ordered : List (String × ℕ)) × Perm ordered three
    × IsSorted ordered
    × Adjusted 1000 0 ordered (holm_adjust 1000 three)
holm_adjust-Adjusted_example = holm_adjust-Adjusted 1000 three (omega arith)

adjusted : holm_adjust 1000 three ≡ ("b", 30) ∷ ("c", 60) ∷ ("a", 60) ∷ []
unfolding holm_adjust
adjusted = refl
