-- ===== src/Queue/Drain.antt =====
-- The worker serves every job that waits.
use qry_eval_plus.Prelude.{
  In, List, Option, [], ap, arith, false, inl, inr, length, none, refl, some, subst, suc, sym, zero,
  ℕ, ◌*◌, ◌+◌, ◌<◌, ◌∙◌, ◌∷◌, ◌≡◌, ◌≤◌,
}
use qry_eval_plus.Queue.{
  Job, Item, job, stop, Outcome, State, take_item, take, finish_job, serve, keep_on, work,
}
use qry_eval_plus.Queue.Consistent.{
  IsConsistent, jobs, entries, with_running, take_item-IsConsistent, finish_job-IsConsistent,
}

-- Nothing stops the worker.
abbrev pub NoStop : List Item → Type 0
NoStop [] = Unit
NoStop (job j ∷ q) = NoStop q
NoStop (stop ∷ q) = ⊥

abbrev pub busy : Option Job → ℕ
busy (some j) = 1
busy none = 0

-- Everything is served: every future that was created is resolved.
pub record IsServed {A : Type 0} (s s' : State A) : Type 0 where
  pub queue_empty : s'.queue ≡ []
  pub free : s'.running ≡ none
  pub none_inflight : s'.inflight ≡ []
  pub same_futures : s'.next_future ≡ s.next_future
  pub all_resolved :
      (f : ℕ) → f < s.next_future → (o : Outcome A) × In {A = ℕ × Outcome A} (f, o) s'.resolved

module _ {A : Type 0} (answer : Job → Outcome A) where
  idle-IsServed : (s : State A) → IsConsistent s → s.queue ≡ [] → s.running ≡ none → IsServed s s
  idle-IsServed s h e free =
      let nothing : s.inflight ≡ [] =
        h.tracked
        ∙ ap (λ o. entries (with_running o (jobs s.queue))) free
        ∙ ap (λ q. entries (jobs q)) e in
      record {
        queue_empty = e;
        free = free;
        none_inflight = nothing;
        same_futures = refl;
        all_resolved = λ f lt. elim (h.served f lt) [
          | inr r ↦ r
          | inl (k, i) ↦
              let gone : In {A = ℕ × ℕ} (k, f) [] = subst (In (k, f)) nothing i in absurd gone
        ];
      }

  -- By the worker's next step.
  abbrev Serves : ℕ → State A → Type 0
  Serves rounds s = IsServed s (work answer rounds s)

  serve-free :
      (q : List Item) (s : State A)
      → s.running ≡ none
      → s.queue ≡ q
      → s.stopped ≡ false
      → serve answer s.running s ≡ take_item none false q s
  unfolding serve take
  serve-free q s free e open_ =
      ap (λ o. serve answer o s) free
      ∙ ap (λ o. take_item o s.stopped s.queue s) free
      ∙ ap (λ b. take_item none b s.queue s) open_
      ∙ ap (λ p. take_item none false p s) e

  -- A round with something to do.
  work-next :
      (rounds : ℕ) (s s' : State A)
      → serve answer s.running s ≡ some s'
      → s'.next_future ≡ s.next_future
      → Serves rounds s'
      → Serves (suc rounds) s
  unfolding work
  work-next rounds s s' e same h =
      subst (IsServed s) (ap (keep_on s (λ t. work answer rounds t)) (sym e)) (record {
        queue_empty = h.queue_empty;
        free = h.free;
        none_inflight = h.none_inflight;
        same_futures = h.same_futures ∙ same;
        all_resolved = λ f lt. h.all_resolved f (omega (arith, same, lt));
      })

  work-Serves :
      (rounds : ℕ) (o : Option Job) (q : List Item) (s : State A)
      → IsConsistent s
      → s.running ≡ o
      → s.queue ≡ q
      → s.stopped ≡ false
      → NoStop q
      → 2 * length q + busy o ≤ rounds
      → Serves rounds s
  unfolding work take_item
  work-Serves zero none [] s h free e open_ n le = idle-IsServed s h e free
  work-Serves zero none (i ∷ q) s h free e open_ n le = absurd (omega arith)
  work-Serves zero (some j) q s h free e open_ n le = absurd (omega arith)
  work-Serves (suc rounds) none [] s h free e open_ n le =
      subst (IsServed s)
        (ap (keep_on s (λ t. work answer rounds t)) (sym (serve-free [] s free e open_)))
        (idle-IsServed s h e free)
  work-Serves (suc rounds) none (stop ∷ q) s h free e open_ n le = absurd n
  work-Serves (suc rounds) none (job j ∷ q) s h free e open_ n le =
      let s' : State A = record s { queue = q; running = some j } in
      let h' = take_item-IsConsistent none false (job j ∷ q) s s' h free e refl in
      work-next rounds s s' (serve-free (job j ∷ q) s free e open_) refl
        (work-Serves rounds (some j) q s' h' refl refl open_ n (omega arith))
  work-Serves (suc rounds) (some j) q s h free e open_ n le =
      let s' = finish_job j (answer j) s in
      let h' = finish_job-IsConsistent s j (answer j) h free in
      work-next rounds s s' (ap (λ o. serve answer o s) free ∙ unfold serve in refl)
        (unfold finish_job in refl)
        (work-Serves rounds none q s' h' (unfold finish_job in refl) (unfold finish_job in e)
          (unfold finish_job in open_) n (omega arith))

  -- Left alone with a consistent state that nothing stops, the worker ends with an empty queue and
  -- nothing in flight, and every future that was created is resolved, within two rounds for each
  -- job that waits and one for the job that runs.
  pub work-IsServed :
      (s : State A)
      → IsConsistent s
      → s.stopped ≡ false
      → NoStop s.queue
      → IsServed s (work answer (2 * length s.queue + busy s.running) s)
  work-IsServed s h open_ n =
      work-Serves (2 * length s.queue + busy s.running) s.running s.queue s h refl refl open_ n
        (omega arith)
