-- ===== src/Budget/Cached.antt =====
-- A request that was answered once is answered again from the cache.
use qry_eval_plus.Prelude.{
  ==_refl, Bool-cases, List, Option, Option-cases, [], ap, false, inl, inr, leb, none, some, ℕ,
  ◌++◌, ◌==◌, ◌∙◌, ◌∷◌, ◌≡◌,
}
use qry_eval_plus.Budget.{
  Admission, admitted, go_on, call, admit, Response, Tables, Settings, Admission, admitted,
  answered, admit, settle, lookup, from_cache, stored, complete, go_on, call, requests, tokens,
}

lookup-snoc :
    (key : ℕ) (r : Response) (rows : List (ℕ × Response))
    → lookup key rows ≡ none
    → lookup key (rows ++ (key, r) ∷ []) ≡ some r
unfolding lookup
lookup-snoc key r [] e = rw (==_refl key)
lookup-snoc key r ((k, q) ∷ rows) e = elim (Bool-cases (k == key)) [
  | inl same ↦ cc (rw same at e)
  | inr other ↦ rw other (lookup-snoc key r rows (rw other at e))
]

-- A row is found and nothing else changes the answer.
hit_of_lookup :
    (c : Settings) (key : ℕ) (reply : Option Response) (t : Tables) (r : Response)
    → lookup key t.cache ≡ some r
    → complete c key reply t ≡ (t, answered (from_cache r))
unfolding complete
hit_of_lookup c key reply t r e = rw e

-- What a lookup says of the rows after a call.
lookup-settle :
    (c : Settings) (key : ℕ) (r : Response) (t : Tables)
    → lookup key t.cache ≡ none
    → lookup key (settle c key r t).cache ≡ some (stored c key r)
unfolding settle
lookup-settle c key r t e = rw e (lookup-snoc key (stored c key r) t.cache e)

admitted_eq :
    (c : Settings) (key : ℕ) (t : Tables)
    → lookup key t.cache ≡ none
    → leb c.max_requests (requests c.namespace t.events) ≡ false
    → leb c.max_tokens (tokens c.namespace t.events) ≡ false
    → admit c key t ≡ admitted
unfolding admit
admitted_eq c key t f room left = rw (f, room, left)

-- An answer to a request with no row comes from the model, and is stored.
fresh_answer :
    (c : Settings) (key : ℕ) (reply : Option Response) (t : Tables) (a : Response)
    → lookup key t.cache ≡ none
    → (complete c key reply t).1 ≡ answered a
    → (r : Response) × (complete c key reply t ≡ (settle c key r t, answered (stored c key r)))
unfolding complete
fresh_answer c key reply t a f e =
    elim (Bool-cases (leb c.max_requests (requests c.namespace t.events))) [
      | inl full ↦ cc (rw (f, full) at e)
      | inr room ↦ elim (Bool-cases (leb c.max_tokens (tokens c.namespace t.events))) [
        | inl full ↦ cc (rw (f, room, full) at e)
        | inr left ↦ elim (Option-cases reply) [
          | inl failed ↦ cc (rw (f, room, left, failed) at e)
          | inr (r, given) ↦ (
            r,
            ap (λ (x : Admission). go_on c key reply t x) (admitted_eq c key t f room left)
                ∙ ap (λ (o : Option Response). call c key o t) given,
          )
        ]
      ]
    ]

answered_eq : (a b : Response) → answered a ≡ answered b → a ≡ b
answered_eq a b e = cc

-- After a request was answered, the same request is answered by the same content at no cost and
-- without the model, and neither the cache nor the ledger changes any more.
pub complete_again :
    (c : Settings) (key : ℕ) (reply reply' : Option Response) (t : Tables) (a : Response)
    → (complete c key reply t).1 ≡ answered a
    → complete c key reply' (complete c key reply t).0
      ≡ ((complete c key reply t).0, answered (from_cache a))
complete_again c key reply reply' t a e = elim (Option-cases (lookup key t.cache)) [
  | inr (r, f) ↦
      let first = hit_of_lookup c key reply t r f in
      rw first (
        hit_of_lookup c key reply' t r f
        ∙ ap (λ x. (t, answered (from_cache x))) (answered_eq (from_cache r) a (rw first at e)))
  | inl f ↦
      let (r, first) = fresh_answer c key reply t a f e in
      rw first (
        hit_of_lookup c key reply' (settle c key r t) (stored c key r) (lookup-settle c key r t f)
        ∙ ap (λ x. (settle c key r t, answered (from_cache x)))
            (answered_eq (stored c key r) a (rw first at e)))
]
