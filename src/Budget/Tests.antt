-- ===== src/Budget/Tests.antt =====
-- The budget with one caller and with two.
use qry_eval_plus.Prelude.{[], arith, false, inl, inr, length, none, refl, some, ◌+◌, ◌<◌, ◌∷◌, ◌≡◌}
use qry_eval_plus.Budget.{
  Response, Tables, Settings, State, begins, succeeds, Steps, start, next, answered, admit, settle,
  complete, from_cache, stored, requests, absent,
}
use qry_eval_plus.Budget.Bounded.{Steps-requests}
use qry_eval_plus.Budget.Cached.{complete_again}

-- One request, and tokens enough.
abbrev one_request : Settings
one_request = record {
  namespace = 0;
  max_requests = 1;
  max_tokens = 100;
  input_price = 1;
  output_price = 2;
}

abbrev reply : Response
reply = record {
  content = "Paris";
  blank = false;
  usage = record { prompt_tokens = some 7; completion_tokens = some 3; total_tokens = absent };
  cache_hit = false;
  estimated_cost = 0;
}

abbrev no_rows : Tables
no_rows = record { cache = []; events = [] }

abbrev idle : State
idle = record { tables = no_rows; in_flight = [] }

-- Two callers are admitted before either is settled.
abbrev both_begun : State
both_begun = record idle { in_flight = 2 ∷ 1 ∷ [] }

abbrev both_settled : State
both_settled = record {
  tables = settle one_request 2 reply (settle one_request 1 reply no_rows);
  in_flight = [];
}

race : Steps one_request 2 idle both_settled
unfolding admit
race =
    next
      (next (next (next start (begins 1 idle refl (omega arith))) (begins 2 _ refl (omega arith)))
        (succeeds 1 reply both_begun (inr (inl refl))))
      (succeeds 2 reply _ (inl refl))

Steps-requests_example :
    requests 0 both_settled.tables.events + length both_settled.in_flight < 1 + 2
Steps-requests_example =
    Steps-requests one_request 2 idle both_settled race (omega arith) refl
      (unfold requests in omega arith)

-- Both requests were made, with a budget of one.
race_exceeds : requests 0 both_settled.tables.events ≡ 2
unfolding requests settle
race_exceeds = refl

complete_again_example :
    complete one_request 5 none (complete one_request 5 (some reply) no_rows).0 ≡ (
      (complete one_request 5 (some reply) no_rows).0,
      answered (from_cache (stored one_request 5 reply)),
    )
complete_again_example =
    complete_again one_request 5 (some reply) none no_rows (stored one_request 5 reply)
      (unfold complete in refl)
