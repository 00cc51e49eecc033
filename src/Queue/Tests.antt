-- ===== src/Queue/Tests.antt =====
-- Runs of service/queue.py, and its theorems at them.
use qry_eval_plus.Prelude.{[], ap, false, length, none, refl, some, subst, ℕ, ◌*◌, ◌+◌, ◌≡◌}
use qry_eval_plus.Queue.{
  result, Engine, State, waits_for, done, then_, submits, initial, submit, submit_uncached,
  submit_key, lookup, enqueue, work,
}
use qry_eval_plus.Queue.Consistent.{IsConsistent, Steps-IsConsistent}
use qry_eval_plus.Queue.Drain.{IsServed, work-IsServed, busy}
use qry_eval_plus.Queue.Coalesce.{submit_coalesces}

abbrev by_length : Engine ℕ
by_length = record { cached = λ question policy. none; cache_key = λ question policy. 7 }

abbrev empty_queue : State ℕ
empty_queue = record {
  capacity = 1;
  queue = [];
  inflight = [];
  running = none;
  resolved = [];
  next_future = 0;
  stopped = false;
}

abbrev one_job : State ℕ
one_job = enqueue 7 "who?" "bm25" empty_queue

starts : initial 1 ≡ some empty_queue
unfolding initial
starts = refl

submits_one : submit by_length "who?" "bm25" empty_queue ≡ (one_job, waits_for 0)
unfolding submit submit_uncached submit_key lookup
submits_one = refl

Steps-IsConsistent_example : IsConsistent (submit by_length "who?" "bm25" empty_queue).0
Steps-IsConsistent_example =
    Steps-IsConsistent by_length 1 empty_queue (submit by_length "who?" "bm25" empty_queue).0 starts
      (then_ empty_queue empty_queue (submit by_length "who?" "bm25" empty_queue).0
        (done empty_queue) (submits empty_queue "who?" "bm25"))

one_job-IsConsistent : IsConsistent one_job
one_job-IsConsistent = subst IsConsistent (ap (λ r. r.0) submits_one) Steps-IsConsistent_example

work-IsServed_example :
    IsServed one_job
      (work (λ j. result 42) (2 * length one_job.queue + busy one_job.running) one_job)
work-IsServed_example = work-IsServed (λ j. result 42) one_job one_job-IsConsistent refl tt

submit_coalesces_example : submit by_length "Who?" "bm25" one_job ≡ (one_job, waits_for 0)
submit_coalesces_example =
    submit_coalesces by_length "who?" "bm25" "Who?" "bm25" empty_queue one_job 0 submits_one refl
      refl
