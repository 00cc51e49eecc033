-- ===== src/Budget.antt =====
-- The cache and the budget around a language model: CachedBudgetProvider of
-- src/qryeval_plus/llm/cached.py. The two SQLite tables are lists of rows; a cache key is a number,
-- which stands for the hash of a request. Prices and costs are natural numbers, costs in units
-- a millionth of the prices'. The model behind it is what a call gives, none where it raises.
pub mod Bounded
pub mod Cached
mod Tests
use qry_eval_plus.Prelude.{
  Bool, In, List, Option, [], false, if◌then◌else◌, leb, length, ltb, none, some, true, ℕ, ◌&&◌,
  ◌*◌, ◌++◌, ◌+◌, ◌<◌, ◌==◌, ◌∷◌, ◌≡◌, ◌||◌,
}
use Prim.Native.String.{String}

-- An entry of a dictionary that is read with a default: a null is not an absent one.
pub data Entry : Type 0 where
  absent null : Entry
  counted : ℕ → Entry

-- `usage` of a response: the entries that are read.
pub record Usage : Type 0 where
  pub prompt_tokens : Option ℕ
  pub completion_tokens : Option ℕ
  pub total_tokens : Entry

-- `blank` says whether the content is empty but for spaces.
pub record Response : Type 0 where
  pub content : String
  pub blank : Bool
  pub usage : Usage
  pub cache_hit : Bool
  pub estimated_cost : ℕ

pub record Event : Type 0 where
  pub namespace : ℕ
  pub cache_key : ℕ
  pub input_tokens : ℕ
  pub output_tokens : ℕ
  pub total_tokens : ℕ
  pub cost : ℕ

pub record Tables : Type 0 where
  pub cache : List (ℕ × Response)
  pub events : List Event

pub record Settings : Type 0 where
  pub namespace : ℕ
  pub max_requests : ℕ
  pub max_tokens : ℕ
  pub input_price : ℕ
  pub output_price : ℕ

-- The constructor's check of the budgets.
abbrev pub valid_budgets : Settings → Bool
valid_budgets c = ltb 0 c.max_requests && ltb 0 c.max_tokens

abbrev or_zero : Option ℕ → ℕ
or_zero none = 0
or_zero (some n) = n

-- `get` with a default, then `or 0`.
abbrev or_else : Entry → ℕ → ℕ
or_else absent d = d
or_else null d = 0
or_else (counted n) d = n

unfoldable pub lookup : ℕ → List (ℕ × Response) → Option Response
lookup key [] = none
lookup key ((k, r) ∷ rows) = if k == key then some r else lookup key rows

-- `INSERT OR IGNORE` into the cache.
abbrev pub insert_response :
    ℕ → Response → Option Response → List (ℕ × Response) → List (ℕ × Response)
insert_response key r none rows = rows ++ (key, r) ∷ []
insert_response key r (some old) rows = rows

abbrev same_row : Event → Event → Bool
same_row e f = e.namespace == f.namespace && e.cache_key == f.cache_key

unfoldable pub has_row : Event → List Event → Bool
has_row e [] = false
has_row e (f ∷ rows) = same_row f e || has_row e rows

-- `INSERT OR IGNORE` into the ledger, whose key is the namespace with the cache key.
unfoldable pub insert_event : Event → List Event → List Event
unfolding has_row
insert_event e rows = if has_row e rows then rows else rows ++ e ∷ []

-- `budget_snapshot`: COUNT and SUM over the rows of a namespace.
unfoldable pub requests : ℕ → List Event → ℕ
requests ns [] = 0
requests ns (e ∷ rows) = (if e.namespace == ns then 1 else 0) + requests ns rows

unfoldable pub tokens : ℕ → List Event → ℕ
tokens ns [] = 0
tokens ns (e ∷ rows) = (if e.namespace == ns then e.total_tokens else 0) + tokens ns rows

-- What `complete` does under its first lock.
pub data Admission : Type 0 where
  hit : Response → Admission
  requests_exhausted tokens_exhausted admitted : Admission

-- `_decode_response` of a cached row.
abbrev pub from_cache : Response → Response
from_cache r = record r { cache_hit = true; estimated_cost = 0 }

abbrev admit_uncached : Settings → List Event → Admission
admit_uncached c events =
    if leb c.max_requests (requests c.namespace events)
    then requests_exhausted
    else (if leb c.max_tokens (tokens c.namespace events) then tokens_exhausted else admitted)

abbrev admit_row : Settings → List Event → Option Response → Admission
admit_row c events (some r) = hit (from_cache r)
admit_row c events none = admit_uncached c events

unfoldable pub admit : Settings → ℕ → Tables → Admission
unfolding lookup requests tokens
admit c key t = admit_row c t.events (lookup key t.cache)

-- The event and the response that are stored after a call of the model.
abbrev pub event_of : Settings → ℕ → Response → Event
event_of c key r =
    let input = or_zero r.usage.prompt_tokens in
    let output = or_zero r.usage.completion_tokens in
    record {
      namespace = c.namespace;
      cache_key = key;
      input_tokens = input;
      output_tokens = output;
      total_tokens = or_else r.usage.total_tokens (input + output);
      cost = input * c.input_price + output * c.output_price;
    }

abbrev pub stored : Settings → ℕ → Response → Response
stored c key r = record r { cache_hit = false; estimated_cost = (event_of c key r).cost }

-- What `complete` does under its second lock.
unfoldable pub settle : Settings → ℕ → Response → Tables → Tables
unfolding lookup insert_event
settle c key r t = record {
  cache = insert_response key (stored c key r) (lookup key t.cache) t.cache;
  events = insert_event (event_of c key r) t.events;
}

pub data Outcome : Type 0 where
  answered : Response → Outcome
  budget_exceeded provider_failed : Outcome

abbrev pub call : Settings → ℕ → Option Response → Tables → Tables × Outcome
call c key none t = (t, provider_failed)
call c key (some r) t = (settle c key r t, answered (stored c key r))

abbrev pub go_on : Settings → ℕ → Option Response → Tables → Admission → Tables × Outcome
go_on c key reply t (hit r) = (t, answered r)
go_on c key reply t requests_exhausted = (t, budget_exceeded)
go_on c key reply t tokens_exhausted = (t, budget_exceeded)
go_on c key reply t admitted = call c key reply t

-- `complete`, with nothing in between.
unfoldable pub complete : Settings → ℕ → Option Response → Tables → Tables × Outcome
unfolding admit settle
complete c key reply t = go_on c key reply t (admit c key t)

-- `generate` refuses an empty answer, which stays in the cache.
abbrev pub not_blank : Outcome → Outcome
not_blank (answered r) = if r.blank then provider_failed else answered r
not_blank o = o

unfoldable pub generate : Settings → ℕ → Option Response → Tables → Tables × Outcome
unfolding complete
generate c key reply t = let (t', o) = complete c key reply t in (t', not_blank o)

-- Calls of several threads: each is admitted under the first lock and settled under the second,
-- and until then it is among the calls in flight. At most `threads` are in flight at a time.
pub record State : Type 0 where
  pub tables : Tables
  pub in_flight : List ℕ

abbrev pub remove_key : ℕ → List ℕ → List ℕ
remove_key key [] = []
remove_key key (k ∷ ks) = let rest = remove_key key ks in if k == key then ks else k ∷ rest

pub data Step (c : Settings) (threads : ℕ) : State → State → Type 0 where
  begins :
      (key : ℕ) (s : State)
      → admit c key s.tables ≡ admitted
      → length s.in_flight < threads
      → Step c threads s (record s { in_flight = key ∷ s.in_flight })
  succeeds :
      (key : ℕ) (r : Response) (s : State)
      → In key s.in_flight
      → Step c threads s
          (record { tables = settle c key r s.tables; in_flight = remove_key key s.in_flight })
  fails :
      (key : ℕ) (s : State)
      → In key s.in_flight
      → Step c threads s (record s { in_flight = remove_key key s.in_flight })

pub data Steps (c : Settings) (threads : ℕ) (s : State) : State → Type 0 where
  start : Steps c threads s s
  next : {t u : State} → Steps c threads s t → Step c threads t u → Steps c threads s u
