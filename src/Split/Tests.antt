-- ===== src/Split/Tests.antt =====
-- A gold file of the expected size, and lines of a query file.
use qry_eval_plus.Prelude.{List, Option, [], none, refl, some, suc, zero, ℕ, ◌∷◌, ◌≡◌}
use qry_eval_plus.Text.{codes}
use qry_eval_plus.Split.{Row, Payload, read_query_lines, build_split}
use qry_eval_plus.Split.Parts.{IsSplit, build_split-IsSplit}

-- `n` rows, whose ids count down.
abbrev rows : ℕ → List Row
rows zero = []
rows (suc n) = (n ∷ [], codes "why?") ∷ rows n

abbrev get : Option Payload → Payload
get none = record { all = []; dev = []; test = [] }
get (some p) = p

abbrev parts : Payload
unfolding build_split
parts = get (build_split (rows 318) (rows 40))

accepted : build_split (rows 318) (rows 40) ≡ some parts
unfolding build_split parts
accepted = refl

build_split-IsSplit_example : IsSplit (rows 318) (rows 40) parts
build_split-IsSplit_example = build_split-IsSplit (rows 318) (rows 40) parts accepted

two_lines :
    read_query_lines (codes "q1: who? " ∷ codes "  " ∷ codes "q2:a:b" ∷ [])
    ≡ some ((codes "q1", codes "who?") ∷ (codes "q2", codes "a:b") ∷ [])
unfolding read_query_lines
two_lines = refl

no_colon : read_query_lines (codes "q1 who?" ∷ []) ≡ none
unfolding read_query_lines
no_colon = refl
