-- ===== src/Budget/Bounded.antt =====
-- How far the request budget is kept.
use qry_eval_plus.Prelude.{
  Bool-cases, In, List, Option-cases, [], ap, arith, inl, inr, length, ℕ, ◌++◌, ◌+◌, ◌<◌, ◌==◌, ◌∷◌,
  ◌≡◌, ◌≤◌,
}
use qry_eval_plus.Budget.{
  Event, Tables, Settings, Response, State, Step, begins, succeeds, fails, Steps, start, next,
  admit, admitted, settle, lookup, insert_event, event_of, requests, tokens, remove_key,
}

requests-snoc :
    (ns : ℕ) (rows : List Event) (e : Event) → requests ns (rows ++ e ∷ []) ≤ requests ns rows + 1
unfolding requests
requests-snoc ns [] e = ground arith
requests-snoc ns (f ∷ rows) e = omega (arith, requests-snoc ns rows e)

requests-insert_event :
    (ns : ℕ) (e : Event) (rows : List Event)
    → requests ns (insert_event e rows) ≤ requests ns rows + 1
unfolding insert_event
requests-insert_event ns e rows = ground (arith, requests-snoc ns rows e)

requests-settle :
    (c : Settings) (key : ℕ) (r : Response) (t : Tables)
    → requests c.namespace (settle c key r t).events ≤ requests c.namespace t.events + 1
unfolding settle
requests-settle c key r t = requests-insert_event c.namespace (event_of c key r) t.events

admit-lt :
    (c : Settings) (key : ℕ) (t : Tables)
    → admit c key t ≡ admitted
    → (requests c.namespace t.events < c.max_requests)
      × (tokens c.namespace t.events < c.max_tokens)
unfolding admit
admit-lt c key t e = elim (Option-cases (lookup key t.cache)) [
  | inr (r, f) ↦ cc (rw f at e)
  | inl f ↦ ground (arith, f)
]

length-remove_key : (key : ℕ) (ks : List ℕ) → In key ks → length (remove_key key ks) + 1 ≡ length ks
length-remove_key key [] i = absurd i
length-remove_key key (k ∷ ks) i = elim (Bool-cases (k == key)) [
  | inl same ↦ rw same (omega arith)
  | inr other ↦ elim i [
    | inl e ↦ ground arith
    | inr j ↦ rw other (omega (arith, length-remove_key key ks j))
  ]
]

-- With the calls in flight counted, the requests go beyond the budget by the other threads at most.
abbrev pub IsBounded : Settings → ℕ → State → Type 0
IsBounded c threads s =
    requests c.namespace s.tables.events + length s.in_flight + 1 ≤ c.max_requests + threads

Step-IsBounded :
    (c : Settings) (threads : ℕ) {s t : State}
    → Step c threads s t
    → IsBounded c threads s
    → IsBounded c threads t
Step-IsBounded c threads (begins key s ok free) h = omega (arith, admit-lt c key s.tables ok)
Step-IsBounded c threads (succeeds key r s i) h =
    omega (arith, requests-settle c key r s.tables, length-remove_key key s.in_flight i)
Step-IsBounded c threads (fails key s i) h = omega (arith, length-remove_key key s.in_flight i)

Steps-IsBounded :
    (c : Settings) (threads : ℕ) {s t : State}
    → Steps c threads s t
    → IsBounded c threads s
    → IsBounded c threads t
Steps-IsBounded c threads start h = h
Steps-IsBounded c threads (next steps step) h =
    Step-IsBounded c threads step (Steps-IsBounded c threads steps h)

-- Whatever callers and model do, in whatever order, with no more than `threads` calls in flight at
-- a time: from a ledger within the request budget and nothing in flight, the requests in the
-- ledger and those in flight exceed the budget by less than `threads`. One caller keeps it.
pub Steps-requests :
    (c : Settings) (threads : ℕ) (s t : State)
    → Steps c threads s t
    → 0 < threads
    → s.in_flight ≡ []
    → requests c.namespace s.tables.events ≤ c.max_requests
    → requests c.namespace t.tables.events + length t.in_flight < c.max_requests + threads
Steps-requests c threads s t steps some_thread idle within =
    let h = Steps-IsBounded c threads steps (omega (arith, ap length idle)) in omega (arith, h)
