-- ===== src/Queue/Coalesce.antt =====
-- Submissions with one key share a future while it is in flight.
use qry_eval_plus.Prelude.{
  ==_refl, Bool-cases, List, Option, [], ap, inl, inr, leb, length, none, refl, some, subst, ℕ,
  ◌++◌, ◌==◌, ◌∙◌, ◌∷◌, ◌≡◌,
}
use qry_eval_plus.Queue.{
  Engine, State, from_cache, waits_for, overloaded, lookup, enqueue, submit_key, submit_uncached,
  submit, Reply,
}
use Prim.Native.String.{String}

lookup-snoc :
    (k f : ℕ) (m : List (ℕ × ℕ)) → lookup k m ≡ none → lookup k (m ++ (k, f) ∷ []) ≡ some f
unfolding lookup
lookup-snoc k f [] e = rw (==_refl k)
lookup-snoc k f ((j, g) ∷ m) e = elim (Bool-cases (j == k)) [
  | inl same ↦ let no : some g ≡ none = rw same at e in cc
  | inr apart ↦ rw apart (lookup-snoc k f m (rw apart at e))
]

module _ {A : Type 0} where
  -- A caller that waits has the future of its key.
  submit_key-lookup :
      (o : Option ℕ) (key : ℕ) (question policy : String) (s s' : State A) (f : ℕ)
      → lookup key s.inflight ≡ o
      → submit_key o key question policy s ≡ (s', waits_for f)
      → lookup key s'.inflight ≡ some f
  unfolding submit_key
  submit_key-lookup (some g) key question policy s s' f e h =
      let same : s ≡ s' = ap (λ r. r.0) h in
      let future : g ≡ f = waits_eq (ap (λ r. r.1) h) in
      subst (λ t. lookup key t.inflight ≡ some f) same (e ∙ ap some future)
    where
      waits_eq : {a b : ℕ} → ◌≡◌ {A = Reply A} (waits_for a) (waits_for b) → a ≡ b
      waits_eq e = cc
  submit_key-lookup none key question policy s s' f e h =
      elim (Bool-cases (leb s.capacity (length s.queue))) [
        | inl full ↦
            let over : Reply A = overloaded in
            let no : (s, over) ≡ (s', waits_for f) = rw full at h in
            absurd (not_waits (ap (λ r. r.1) no))
        | inr room ↦
            let w : Reply A = waits_for s.next_future in
            let yes : (enqueue key question policy s, w) ≡ (s', waits_for f) = rw room at h in
            let same : enqueue key question policy s ≡ s' = ap (λ r. r.0) yes in
            let future : s.next_future ≡ f = waits_eq (ap (λ r. r.1) yes) in
            subst (λ t. lookup key t.inflight ≡ some f) same
              (lookup-snoc key s.next_future s.inflight e ∙ ap some future)
      ]
    where
      waits_eq : {a b : ℕ} → ◌≡◌ {A = Reply A} (waits_for a) (waits_for b) → a ≡ b
      waits_eq e = cc

      not_waits : {a : ℕ} → ◌≡◌ {A = Reply A} overloaded (waits_for a) → ⊥
      not_waits e = cc

  submit_uncached-lookup :
      (o : Option A) (key : ℕ) (question policy : String) (s s' : State A) (f : ℕ)
      → submit_uncached o key question policy s ≡ (s', waits_for f)
      → lookup key s'.inflight ≡ some f
  unfolding submit_uncached
  submit_uncached-lookup (some a) key question policy s s' f h =
      absurd (not_waits (ap (λ r. r.1) h))
    where
      not_waits : {a : A} {b : ℕ} → from_cache a ≡ waits_for b → ⊥
      not_waits e = cc
  submit_uncached-lookup none key question policy s s' f h =
      submit_key-lookup (lookup key s.inflight) key question policy s s' f refl h

  -- After a submission that waits for a future, another one with the same cache key and no cached
  -- answer waits for the same future and adds nothing to the queue.
  pub submit_coalesces :
      (engine : Engine A) (question policy question' policy' : String) (s s' : State A) (f : ℕ)
      → submit engine question policy s ≡ (s', waits_for f)
      → engine.cache_key question' policy' ≡ engine.cache_key question policy
      → engine.cached question' policy' ≡ none
      → submit engine question' policy' s' ≡ (s', waits_for f)
  unfolding submit submit_uncached submit_key
  submit_coalesces engine question policy question' policy' s s' f h same fresh =
      let there =
        submit_uncached-lookup (engine.cached question policy) (engine.cache_key question policy)
          question policy s s' f h in
      rw (fresh, same, there) refl
