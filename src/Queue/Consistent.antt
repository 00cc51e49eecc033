-- ===== src/Queue/Consistent.antt =====
-- The queue's invariant, kept by every step.
use qry_eval_plus.Prelude.{
  ==_refl, All, All-append, Bool, Bool-cases, In, List, Option, [], ap, arith, false, inl, inr, leb,
  length, length-append, none, refl, some, some_eq, subst, sym, true, ℕ, ◌++◌, ◌<◌, ◌==◌, ◌∙◌, ◌∷◌,
  ◌≡◌, ◌≢◌, ◌≤◌, ◌⊎◌,
}
use qry_eval_plus.Queue.{
  Job, Item, job, stop, Outcome, Engine, State, lookup, pop, initial, enqueue, submit_key, submit,
  take_item, take, finish_job, put_stop, Step, submits, takes, finishes, closes, Steps, done, then_,
  String, submit_uncached,
}

abbrev pub jobs : List Item → List Job
jobs [] = []
jobs (job j ∷ q) = j ∷ jobs q
jobs (stop ∷ q) = jobs q

abbrev pub entries : List Job → List (ℕ × ℕ)
entries [] = []
entries (j ∷ js) = (j.key, j.future) ∷ entries js

abbrev pub with_running : Option Job → List Job → List Job
with_running (some j) js = j ∷ js
with_running none js = js

abbrev pub HasKey : ℕ → List (ℕ × ℕ) → Type 0
HasKey k m = (f : ℕ) × In (k, f) m

abbrev pub DistinctKeys : List (ℕ × ℕ) → Type 0
DistinctKeys [] = Unit
DistinctKeys (e ∷ m) = All (λ d. e.0 ≢ d.0) m × DistinctKeys m

-- The queue holds at most its capacity; the jobs of the worker and the queue, in this order, are
-- the entries in flight, with different keys; and every future is in flight or resolved.
pub record IsConsistent {A : Type 0} (s : State A) : Type 0 where
  pub bounded : length s.queue ≤ s.capacity
  pub tracked : s.inflight ≡ entries (with_running s.running (jobs s.queue))
  pub distinct : DistinctKeys s.inflight
  pub served :
      (f : ℕ)
      → f < s.next_future
      → ((k : ℕ) × In (k, f) s.inflight) ⊎ ((o : Outcome A) × In (f, o) s.resolved)

jobs-snoc : (q : List Item) (j : Job) → jobs (q ++ job j ∷ []) ≡ jobs q ++ j ∷ []
jobs-snoc [] j = refl
jobs-snoc (job i ∷ q) j = ap (◌∷◌ i) (jobs-snoc q j)
jobs-snoc (stop ∷ q) j = jobs-snoc q j

jobs-snoc_stop : (q : List Item) → jobs (q ++ stop ∷ []) ≡ jobs q
jobs-snoc_stop [] = refl
jobs-snoc_stop (job i ∷ q) = ap (◌∷◌ i) (jobs-snoc_stop q)
jobs-snoc_stop (stop ∷ q) = jobs-snoc_stop q

entries-snoc :
    (js : List Job) (j : Job) → entries (js ++ j ∷ []) ≡ entries js ++ (j.key, j.future) ∷ []
entries-snoc [] j = refl
entries-snoc (i ∷ js) j = ap (◌∷◌ (i.key, i.future)) (entries-snoc js j)

with_running-snoc :
    (o : Option Job) (js : List Job) (j : Job)
    → with_running o (js ++ j ∷ []) ≡ with_running o js ++ j ∷ []
with_running-snoc none js j = refl
with_running-snoc (some i) js j = refl

lookup-absent : (k : ℕ) (m : List (ℕ × ℕ)) → lookup k m ≡ none → All (λ d. d.0 ≢ k) m
unfolding lookup
lookup-absent k [] e = tt
lookup-absent k ((j, f) ∷ m) e = elim (Bool-cases (j == k)) [
  | inl same ↦ let no : some f ≡ none = rw same at e in cc
  | inr apart ↦ (ground arith, lookup-absent k m (rw apart at e))
]

DistinctKeys-snoc :
    (m : List (ℕ × ℕ)) (k f : ℕ)
    → DistinctKeys m
    → All (λ d. d.0 ≢ k) m
    → DistinctKeys (m ++ (k, f) ∷ [])
DistinctKeys-snoc [] k f h a = (tt, tt)
DistinctKeys-snoc (e ∷ m) k f h a =
    (All-append _ m ((k, f) ∷ []) h.0 (a.0, tt), DistinctKeys-snoc m k f h.1 a.1)

In-append : {A : Type 0} (x : A) (xs ys : List A) → In x xs → In x (xs ++ ys)
In-append x [] ys i = absurd i
In-append x (y ∷ xs) ys (inl e) = inl e
In-append x (y ∷ xs) ys (inr i) = inr (In-append x xs ys i)

In-snoc : {A : Type 0} (x : A) (xs : List A) → In x (xs ++ x ∷ [])
In-snoc x [] = inl refl
In-snoc x (y ∷ xs) = inr (In-snoc x xs)

pop-head : (k f : ℕ) (m : List (ℕ × ℕ)) → pop k ((k, f) ∷ m) ≡ m
unfolding pop
pop-head k f m = rw (==_refl k)

module _ {A : Type 0} where
  enqueue-IsConsistent :
      (key : ℕ) (question policy : String) (s : State A)
      → IsConsistent s
      → lookup key s.inflight ≡ none
      → length s.queue < s.capacity
      → IsConsistent (enqueue key question policy s)
  enqueue-IsConsistent key question policy s h absent room =
      let new : Job = record {
        key = key;
        question = question;
        policy = policy;
        future = s.next_future;
      } in
      record {
        bounded = omega (arith, room, length-append s.queue (job new ∷ []));
        tracked =
            ap (λ m. m ++ (key, s.next_future) ∷ []) h.tracked
            ∙ sym (entries-snoc (with_running s.running (jobs s.queue)) new)
            ∙ ap entries (sym (with_running-snoc s.running (jobs s.queue) new))
            ∙ ap (λ js. entries (with_running s.running js)) (sym (jobs-snoc s.queue new));
        distinct =
            DistinctKeys-snoc s.inflight key s.next_future h.distinct
              (lookup-absent key s.inflight absent);
        served = λ f lt. elim (Bool-cases (f == s.next_future)) [
          | inl e ↦
              let same : s.next_future ≡ f = ground arith in
              inl (
                key,
                subst (λ g. In (key, g) (s.inflight ++ (key, s.next_future) ∷ [])) same
                    (In-snoc (key, s.next_future) s.inflight),
              )
          | inr e ↦ elim (h.served f (ground arith)) [
            | inl (k, i) ↦ inl (k, In-append (k, f) s.inflight ((key, s.next_future) ∷ []) i)
            | inr r ↦ inr r
          ]
        ];
      }

  submit_key-IsConsistent :
      (o : Option ℕ) (key : ℕ) (question policy : String) (s : State A)
      → IsConsistent s
      → lookup key s.inflight ≡ o
      → IsConsistent (submit_key o key question policy s).0
  unfolding submit_key
  submit_key-IsConsistent (some f) key question policy s h e = h
  submit_key-IsConsistent none key question policy s h e =
      elim (Bool-cases (leb s.capacity (length s.queue))) [
        | inl full ↦ rw full h
        | inr room ↦ rw room (enqueue-IsConsistent key question policy s h e (ground arith))
      ]

  submit_uncached-IsConsistent :
      (o : Option A) (key : ℕ) (question policy : String) (s : State A)
      → IsConsistent s
      → IsConsistent (submit_uncached o key question policy s).0
  unfolding submit_uncached
  submit_uncached-IsConsistent (some a) key question policy s h = h
  submit_uncached-IsConsistent none key question policy s h =
      submit_key-IsConsistent (lookup key s.inflight) key question policy s h refl

  pub take_item-IsConsistent :
      (o : Option Job) (b : Bool) (q : List Item) (s s' : State A)
      → IsConsistent s
      → s.running ≡ o
      → s.queue ≡ q
      → take_item o b q s ≡ some s'
      → IsConsistent s'
  unfolding take_item
  take_item-IsConsistent (some j) b q s s' h free e runs = cc
  take_item-IsConsistent none true q s s' h free e runs = cc
  take_item-IsConsistent none false [] s s' h free e runs = cc
  take_item-IsConsistent none false (stop ∷ q) s s' h free e runs =
      subst IsConsistent (some_eq runs) (record {
        bounded = omega (arith, h.bounded, ap length e);
        tracked = h.tracked ∙ ap (λ p. entries (with_running s.running (jobs p))) e;
        distinct = h.distinct;
        served = h.served;
      })
  take_item-IsConsistent none false (job j ∷ q) s s' h free e runs =
      subst IsConsistent (some_eq runs) (record {
        bounded = omega (arith, h.bounded, ap length e);
        tracked =
            h.tracked
            ∙ ap (λ o. entries (with_running o (jobs s.queue))) free
            ∙ ap (λ p. entries (jobs p)) e;
        distinct = h.distinct;
        served = h.served;
      })

  pub finish_job-IsConsistent :
      (s : State A) (j : Job) (o : Outcome A)
      → IsConsistent s
      → s.running ≡ some j
      → IsConsistent (finish_job j o s)
  unfolding finish_job
  finish_job-IsConsistent s j o h busy =
      let all : s.inflight ≡ (j.key, j.future) ∷ entries (jobs s.queue) =
        h.tracked ∙ ap (λ r. entries (with_running r (jobs s.queue))) busy in
      let left : pop j.key s.inflight ≡ entries (jobs s.queue) =
        ap (pop j.key) all ∙ pop-head j.key j.future (entries (jobs s.queue)) in
      let different : DistinctKeys ((j.key, j.future) ∷ entries (jobs s.queue)) =
        subst DistinctKeys all h.distinct in
      record {
        bounded = h.bounded;
        tracked = left;
        distinct = subst DistinctKeys (sym left) different.1;
        served = λ f lt. elim (h.served f lt) [
          | inr (p, i) ↦ inr (p, inr i)
          | inl (k, i) ↦
              elim (split_In k f j.key j.future (entries (jobs s.queue))
                (subst (In (k, f)) all i)) [
                  | inl same ↦ inr (o, inl (ap (λ g. (g, o)) same))
                  | inr later ↦ inl (k, subst (In (k, f)) (sym left) later)
                ]
        ];
      }
    where
      split_In :
          (k f k' f' : ℕ) (m : List (ℕ × ℕ)) → In (k, f) ((k', f') ∷ m) → (f' ≡ f) ⊎ In (k, f) m
      split_In k f k' f' m (inl e) = inl (ap (λ d. d.1) e)
      split_In k f k' f' m (inr i) = inr i

  put_stop-IsConsistent : (s s' : State A) → IsConsistent s → put_stop s ≡ some s' → IsConsistent s'
  unfolding put_stop
  put_stop-IsConsistent s s' h e = elim (Bool-cases (leb s.capacity (length s.queue))) [
    | inl full ↦ let no : none ≡ some s' = rw full at e in cc
    | inr room ↦
        let yes : some (record s { queue = s.queue ++ stop ∷ [] }) ≡ some s' = rw room at e in
        subst IsConsistent (some_eq yes) (record {
          bounded = ground (arith, length-append s.queue (stop ∷ []));
          tracked =
              h.tracked
              ∙ ap (λ js. entries (with_running s.running js)) (sym (jobs-snoc_stop s.queue));
          distinct = h.distinct;
          served = h.served;
        })
  ]

  initial-IsConsistent : (capacity : ℕ) (s : State A) → initial capacity ≡ some s → IsConsistent s
  unfolding initial
  initial-IsConsistent capacity s e = elim (Bool-cases (leb capacity 0)) [
    | inl none_ ↦ let no : none ≡ some s = rw none_ at e in cc
    | inr some_ ↦ subst IsConsistent (some_eq (rw some_ at e)) (record {
      bounded = omega arith;
      tracked = refl;
      distinct = tt;
      served = λ f lt. absurd (omega arith);
    })
  ]

  Step-IsConsistent :
      (engine : Engine A) (s s' : State A) → Step engine s s' → IsConsistent s → IsConsistent s'
  unfolding submit take
  Step-IsConsistent engine s s' (submits _ question policy) h =
      submit_uncached-IsConsistent (engine.cached question policy)
        (engine.cache_key question policy) question policy s h
  Step-IsConsistent engine s s' (takes _ _ e) h =
      take_item-IsConsistent s.running s.stopped s.queue s s' h refl refl e
  Step-IsConsistent engine s s' (finishes _ j o busy) h = finish_job-IsConsistent s j o h busy
  Step-IsConsistent engine s s' (closes _ _ e) h = put_stop-IsConsistent s s' h e

  -- Whatever callers and worker do, in whatever order, from the start on the queue never holds more
  -- than its capacity, the jobs of the worker and the queue are in this order the entries in
  -- flight, their keys differ, and every future that was created is in flight or resolved.
  pub Steps-IsConsistent :
      (engine : Engine A) (capacity : ℕ) (s s' : State A)
      → initial capacity ≡ some s
      → Steps engine s s'
      → IsConsistent s'
  Steps-IsConsistent engine capacity s s' start (done _) = initial-IsConsistent capacity s start
  Steps-IsConsistent engine capacity s s' start (then_ _ t _ before last) =
      Step-IsConsistent engine t s' last (Steps-IsConsistent engine capacity s t start before)
