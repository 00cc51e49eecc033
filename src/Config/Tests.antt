-- ===== src/Config/Tests.antt =====
-- Three entries, two of them tasks, and keys that are refused.
use qry_eval_plus.Prelude.{List, [], none, refl, some, ℕ, ◌∷◌, ◌≡◌}
use qry_eval_plus.Text.{codes}
use qry_eval_plus.Config.{match_task, Task, ordered_tasks}
use qry_eval_plus.Config.Sort.{Ascending}
use qry_eval_plus.Config.Order.{Entry, Lists, Stems, ordered_tasks-Ascending}

abbrev entries : List (Entry ℕ)
entries =
    (codes "task_10:output", some 7)
    ∷ (codes "indexPath", none)
    ∷ (codes "task_2:ranker", some 5)
    ∷ []

abbrev tasks : List (Task ℕ)
tasks =
    record { number = 2; key = codes "task_2:ranker"; role = codes "ranker"; value = 5 }
    ∷ record { number = 10; key = codes "task_10:output"; role = codes "output"; value = 7 }
    ∷ []

two_tasks : ordered_tasks entries ≡ some tasks
unfolding ordered_tasks
two_tasks = refl

-- The numbers are compared, not their digits.
same_number :
    ordered_tasks {T = ℕ} ((codes "task_1:ranker", some 7) ∷ (codes "task_01:agent", some 5) ∷ [])
    ≡ none
unfolding ordered_tasks
same_number = refl

no_role : match_task (codes "task_1:") ≡ none
unfolding match_task
no_role = refl

ordered_tasks-Ascending_example : Ascending tasks × Lists entries tasks × Stems entries tasks
ordered_tasks-Ascending_example = ordered_tasks-Ascending entries tasks two_tasks
