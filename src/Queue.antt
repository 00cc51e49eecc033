-- ===== src/Queue.antt =====
-- The inference queue: src/qryeval_plus/service/queue.py. One step is what runs between two awaits:
-- a submission under the lock, the worker's taking of an item, its last lines after an answer, and
-- the `None` that `close` puts. Cache keys and futures are numbers; a future is created with the
-- next number. Clocks, request ids and cancelled futures are left out.
pub mod Consistent
pub mod Drain
pub mod Coalesce
mod Tests
use qry_eval_plus.Prelude.{
  Bool, List, Option, [], false, if◌then◌else◌, leb, length, none, some, suc, true, zero, ℕ, ◌++◌,
  ◌+◌, ◌==◌, ◌∷◌, ◌≡◌,
}
use Prim.Native.String.{String}

pub record Job : Type 0 where
  pub key : ℕ
  pub question : String
  pub policy : String
  pub future : ℕ

-- `None` in the queue stops the worker.
pub data Item : Type 0 where
  job : Job → Item
  stop : Item

-- What the future is set to.
pub data Outcome (A : Type 0) : Type 0 where
  result : A → Outcome A
  exception : String → Outcome A

pub record Engine (A : Type 0) : Type 0 where
  pub cached : (question policy : String) → Option A
  pub cache_key : (question policy : String) → ℕ

pub record State (A : Type 0) : Type 0 where
  pub capacity : ℕ
  pub queue : List Item
  pub inflight : List (ℕ × ℕ)
  pub running : Option Job
  pub resolved : List (ℕ × Outcome A)
  pub next_future : ℕ
  pub stopped : Bool

pub data Reply (A : Type 0) : Type 0 where
  from_cache : A → Reply A
  waits_for : (future : ℕ) → Reply A
  overloaded : Reply A

unfoldable pub lookup : ℕ → List (ℕ × ℕ) → Option ℕ
lookup k [] = none
lookup k ((j, f) ∷ m) = if j == k then some f else lookup k m

unfoldable pub pop : ℕ → List (ℕ × ℕ) → List (ℕ × ℕ)
pop k [] = []
pop k ((j, f) ∷ m) = if j == k then m else (j, f) ∷ pop k m

module _ {A : Type 0} where
  -- The constructor.
  unfoldable pub initial : ℕ → Option (State A)
  initial capacity =
      if leb capacity 0
      then none
      else some (record {
        capacity = capacity;
        queue = [];
        inflight = [];
        running = none;
        resolved = [];
        next_future = 0;
        stopped = false;
      })

  -- A new future, its entry and its job.
  abbrev pub enqueue : ℕ → String → String → State A → State A
  enqueue key question policy s = record s {
    queue =
        s.queue
        ++ job (record { key = key; question = question; policy = policy; future = s.next_future })
          ∷ [];
    inflight = s.inflight ++ (key, s.next_future) ∷ [];
    next_future = s.next_future + 1;
  }

  -- The body of the lock, for a key that has a future or has none.
  unfoldable pub submit_key : Option ℕ → ℕ → String → String → State A → State A × Reply A
  submit_key (some future) key question policy s = (s, waits_for future)
  submit_key none key question policy s =
      if leb s.capacity (length s.queue)
      then (s, overloaded)
      else (enqueue key question policy s, waits_for s.next_future)

  unfoldable pub submit_uncached : Option A → ℕ → String → String → State A → State A × Reply A
  unfolding lookup submit_key
  submit_uncached (some a) key question policy s = (s, from_cache a)
  submit_uncached none key question policy s =
      submit_key (lookup key s.inflight) key question policy s

  unfoldable pub submit : Engine A → String → String → State A → State A × Reply A
  unfolding submit_uncached
  submit engine question policy s =
      submit_uncached (engine.cached question policy) (engine.cache_key question policy) question
        policy s

  -- The worker gets an item, if it is free and there is one.
  unfoldable pub take_item : Option Job → Bool → List Item → State A → Option (State A)
  take_item none false (stop ∷ q) s = some (record s { queue = q; stopped = true })
  take_item none false (job j ∷ q) s = some (record s { queue = q; running = some j })
  take_item _ _ _ s = none

  unfoldable pub take : State A → Option (State A)
  unfolding take_item
  take s = take_item s.running s.stopped s.queue s

  -- The answer or the exception is set, and the key leaves the map.
  unfoldable pub finish_job : Job → Outcome A → State A → State A
  unfolding pop
  finish_job j o s = record s {
    running = none;
    inflight = pop j.key s.inflight;
    resolved = (j.future, o) ∷ s.resolved;
  }

  -- The worker's next step, if there is something to do.
  unfoldable pub serve : (Job → Outcome A) → Option Job → State A → Option (State A)
  unfolding take finish_job
  serve answer (some j) s = some (finish_job j (answer j) s)
  serve answer none s = take s

  abbrev pub keep_on : State A → (State A → State A) → Option (State A) → State A
  keep_on s f none = s
  keep_on s f (some s') = f s'

  -- The worker alone, for a number of rounds of its loop.
  unfoldable pub work : (Job → Outcome A) → ℕ → State A → State A
  unfolding serve
  work answer zero s = s
  work answer (suc rounds) s = keep_on s (λ s'. work answer rounds s') (serve answer s.running s)

  -- `close` puts `None` once there is room for it.
  unfoldable pub put_stop : State A → Option (State A)
  put_stop s =
      if leb s.capacity (length s.queue)
      then none
      else some (record s { queue = s.queue ++ stop ∷ [] })

  -- The interleavings of callers and worker.
  pub data Step (engine : Engine A) : State A → State A → Type 0 where
    submits :
        (s : State A) (question policy : String) → Step engine s (submit engine question policy s).0
    takes : (s s' : State A) → take s ≡ some s' → Step engine s s'
    finishes :
        (s : State A) (j : Job) (o : Outcome A)
        → s.running ≡ some j
        → Step engine s (finish_job j o s)
    closes : (s s' : State A) → put_stop s ≡ some s' → Step engine s s'

  pub data Steps (engine : Engine A) : State A → State A → Type 0 where
    done : (s : State A) → Steps engine s s
    then_ : (s t u : State A) → Steps engine s t → Step engine t u → Steps engine s u
