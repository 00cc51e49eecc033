-- ===== src/Config/Order.antt =====
-- What ordered_tasks returns.
use qry_eval_plus.Prelude.{
  >>=-some, All, Bool-cases, In, List, Option, [], ap, arith, false, inl, inr, refl, some, some_eq,
  subst, sym, true, ℕ, ◌∙◌, ◌∷◌, ◌≡◌, ◌≢◌,
}
use qry_eval_plus.Text.{Text}
use qry_eval_plus.Grounding.{starts_with}
use qry_eval_plus.Config.{
  task_prefix, match_task, Task, seen_before, read_task, read_tasks, ordered_tasks,
}
use qry_eval_plus.Config.Sort.{Differ, Ascending, sort_tasks-Ascending}

not-In_unseen : (n : ℕ) (ms : List ℕ) → seen_before n ms ≡ false → ¬ In n ms
unfolding seen_before
not-In_unseen n [] h i = i
not-In_unseen n (m ∷ ms) h (inl e) = ground arith
not-In_unseen n (m ∷ ms) h (inr i) = not-In_unseen n ms (ground arith) i

abbrev pub Entry : Type 0 → Type 0
Entry T = Text × Option T

module _ {T : Type 0} where
  -- The task is the reading of an entry.
  record IsRead (seen : List ℕ) (key : Text) (value : Option T) (t : Task T) : Type 0 where
    same_key : t.key ≡ key
    same_value : value ≡ some t.value
    matches : match_task key ≡ some (t.number, t.role)
    fresh : seen_before t.number seen ≡ false

  read_task-IsRead :
      (seen : List ℕ) (key : Text) (value : Option T) (t : Task T)
      → read_task seen key value ≡ some t
      → IsRead seen key value t
  read_task-IsRead seen key value t h =
      let ((number, role), matched, h1) = >>=-some (match_task key) _ h in
      elim (Bool-cases (seen_before number seen)) [
        | inl again ↦ cc (rw again at h1)
        | inr fresh ↦
            let (v, given, h2) = >>=-some value _ (rw fresh at h1) in
            let e = some_eq h2 in
            record {
              same_key = ap (λ (x : Task T). x.key) (sym e);
              same_value = given ∙ ap (λ (x : Task T). some x.value) e;
              matches = matched ∙ ap (λ (x : Task T). some (x.number, x.role)) e;
              fresh = subst (λ (x : Task T). seen_before x.number seen ≡ false) e fresh;
            }
      ]

  -- Each entry under a task key is a task.
  abbrev pub Lists : List (Entry T) → List (Task T) → Type 0
  Lists entries ts =
      (key : Text) (value : Option T)
      → In (key, value) entries
      → starts_with task_prefix key ≡ true
      → (t : Task T) × In t ts
        × (t.key ≡ key)
        × (value ≡ some t.value)
        × (match_task key ≡ some (t.number, t.role))

  -- Each task is an entry under a task key.
  abbrev pub Stems : List (Entry T) → List (Task T) → Type 0
  Stems entries ts =
      (t : Task T)
      → In t ts
      → In (t.key, some t.value) entries × (starts_with task_prefix t.key ≡ true)

  abbrev Avoid : List ℕ → List (Task T) → Type 0
  Avoid seen ts = All (λ u. ¬ In u.number seen) ts

  record IsTaskList (seen : List ℕ) (entries : List (Entry T)) (ts : List (Task T)) : Type 0 where
    lists : Lists entries ts
    stems : Stems entries ts
    differ : Differ ts
    avoid : Avoid seen ts

  Avoid-tail :
      (n : ℕ) (seen : List ℕ) (ts : List (Task T))
      → Avoid (n ∷ seen) ts
      → All (λ u. n ≢ u.number) ts × Avoid seen ts
  Avoid-tail n seen [] h = (tt, tt)
  Avoid-tail n seen (t ∷ ts) h =
      let (a, b) = Avoid-tail n seen ts h.1 in (((λ e. h.0 (inl e)), a), ((λ i. h.0 (inr i)), b))

  read_tasks-IsTaskList :
      (seen : List ℕ) (entries : List (Entry T)) (ts : List (Task T))
      → read_tasks seen entries ≡ some ts
      → IsTaskList seen entries ts
  unfolding read_tasks
  read_tasks-IsTaskList seen [] ts h = subst (IsTaskList seen []) (some_eq h) (record {
    lists = λ key value i p. absurd i;
    stems = λ t i. absurd i;
    differ = tt;
    avoid = tt;
  })
  read_tasks-IsTaskList seen ((key, value) ∷ entries) ts h =
      elim (Bool-cases (starts_with task_prefix key)) [
        | inr other ↦
            let l = read_tasks-IsTaskList seen entries ts (rw other at h) in
            record {
              lists = λ k v i p. elim i [
                | inl e ↦
                    let same : key ≡ k = ap (λ (x : Entry T). x.0) e in
                    let clash = subst (λ x. starts_with task_prefix x ≡ false) same other in cc
                | inr j ↦ l.lists k v j p
              ];
              stems = λ t i. let (a, b) = l.stems t i in (inr a, b);
              differ = l.differ;
              avoid = l.avoid;
            }
        | inl task ↦
            let (t, reads, h1) = >>=-some (read_task seen key value) _ (rw task at h) in
            let (us, later, h2) = >>=-some (read_tasks (t.number ∷ seen) entries) _ h1 in
            let l = read_tasks-IsTaskList (t.number ∷ seen) entries us later in
            let r = read_task-IsRead seen key value t reads in
            let (apart, avoid) = Avoid-tail t.number seen us l.avoid in
            subst (IsTaskList seen ((key, value) ∷ entries)) (some_eq h2) (record {
              lists = λ k v i p. elim i [
                | inl e ↦
                    let same : key ≡ k = ap (λ (x : Entry T). x.0) e in
                    (
                      t,
                      inl refl,
                      r.same_key ∙ same,
                      ap (λ (x : Entry T). x.1) (sym e) ∙ r.same_value,
                      subst (λ x. match_task x ≡ some (t.number, t.role)) same r.matches,
                    )
                | inr j ↦ let (u, m, a, b, d) = l.lists k v j p in (u, inr m, a, b, d)
              ];
              stems = λ u i. elim i [
                | inl e ↦
                    subst
                      (λ (x : Task T).
                        In (x.key, some x.value) ((key, value) ∷ entries)
                        × (starts_with task_prefix x.key ≡ true))
                      e
                      (
                        inl (λ i'. (sym r.same_key i', r.same_value i')),
                        ap (starts_with task_prefix) r.same_key ∙ task,
                      )
                | inr j ↦ let (a, b) = l.stems u j in (inr a, b)
              ];
              differ = (apart, l.differ);
              avoid = (not-In_unseen t.number seen r.fresh, avoid);
            })
      ]

  -- Where the tasks are accepted, they ascend by number, no number twice; each is an entry under a
  -- task key, and each entry under a task key is one, with the number and the role of its key.
  pub ordered_tasks-Ascending :
      (entries : List (Entry T)) (ts : List (Task T))
      → ordered_tasks entries ≡ some ts
      → Ascending ts × Lists entries ts × Stems entries ts
  unfolding ordered_tasks
  ordered_tasks-Ascending entries ts h =
      let (us, reads, h1) = >>=-some (read_tasks [] entries) _ h in
      let l = read_tasks-IsTaskList [] entries us reads in
      let (order, same) = sort_tasks-Ascending us l.differ in
      subst (λ vs. Ascending vs × Lists entries vs × Stems entries vs) (some_eq h1)
        (
          order,
          (λ key value i p.
              let (t, m, a, b, d) = l.lists key value i p in (t, (same t).1 m, a, b, d)),
          λ t i. l.stems t ((same t).0 i),
        )
