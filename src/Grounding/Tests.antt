-- ===== src/Grounding/Tests.antt =====
-- Answers against passages, with the lower case of ASCII letters.
use qry_eval_plus.Prelude.{List, [], map, refl, ◌++◌, ◌∷◌, ◌≡◌}
use qry_eval_plus.Grounding.{answered, abstained, grounding_status, needs_review}
use qry_eval_plus.Grounding.Supported.{IsLowercase, grounding_status-append}
use qry_eval_plus.Text.{Text, codes, lower}
use mathlib.Core.List.{map-append}

abbrev lower_text : Text → Text
lower_text = map lower

abbrev river : List Text
river = codes "The Nile, it is said," ∷ codes "flows through Egypt." ∷ []

lower_text-IsLowercase : IsLowercase lower_text
unfolding lower
lower_text-IsLowercase = record { empty = refl; apart = λ s t. map-append lower s (b' ' ∷ t) }

-- Four of five tokens are in the passages.
river_status :
    grounding_status lower_text 4 5 (codes "the Nile flows through northern Egypt") river ≡ answered
unfolding grounding_status lower
river_status = refl

other_status : grounding_status lower_text 4 5 (codes "Amazon river") river ≡ needs_review
unfolding grounding_status lower
other_status = refl

no_passage : grounding_status lower_text 4 5 (codes "Amazon") [] ≡ abstained
unfolding grounding_status lower
no_passage = refl

grounding_status-append_example :
    grounding_status lower_text 4 5
      (codes "the Nile flows through northern Egypt")
      (river ++ codes "It is long." ∷ [])
    ≡ answered
grounding_status-append_example =
    grounding_status-append lower_text lower_text-IsLowercase 4 5
      (codes "the Nile flows through northern Egypt") river (codes "It is long." ∷ []) river_status
