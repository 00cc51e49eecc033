-- ===== src/Statistics.antt =====
-- Two functions of src/qryeval_plus/statistics.py: `holm_adjust`, on p-values that are multiples of
-- one unit, so that 1.0 is the number `one`, and `classify_error`, on metrics of any type with the
-- comparisons that the code makes of them.
pub mod Holm
mod Tests
use qry_eval_plus.Prelude.{
  Bool, List, Option, [], false, if◌then◌else◌, length, ltb, max, min, none, some, suc, ℕ, ◌&&◌,
  ◌*◌, ◌∷◌,
}
use Prim.Native.String.{String}
use text.Mathlib.Text.{◌==◌ as str_eq}

data ErrorClass : Type 0 where
  retrieval_miss : ErrorClass
  generation_or_passage_error : ErrorClass
  unsupported_generation : ErrorClass
  possible_gold_alias_or_time_sensitive : ErrorClass
  beneficial_rewrite : ErrorClass
  harmful_rewrite : ErrorClass
  ineffective_rewrite : ErrorClass
  retrieval_generation_mismatch : ErrorClass
  unchanged_or_other : ErrorClass

-- `grounding_status == status`
abbrev is_status : Option String → String → Bool
is_status none status = false
is_status (some given) status = str_eq given status

module _ {F : Type 0} (null : F) (same less at_most : F → F → Bool) where
  unfoldable classify_error : F → F → F → F → Bool → Option String → ErrorClass
  classify_error baseline_f1 candidate_f1 baseline_mrr candidate_mrr rewritten grounding_status =
      if same candidate_mrr null
      then retrieval_miss
      else (if less null candidate_mrr && same candidate_f1 null
          then generation_or_passage_error
          else (if is_status grounding_status "needs_review"
              then unsupported_generation
              else (if is_status grounding_status "answered"
                    && (less candidate_f1 baseline_f1 && at_most baseline_mrr candidate_mrr)
                  then possible_gold_alias_or_time_sensitive
                  else (if rewritten && less baseline_f1 candidate_f1
                      then beneficial_rewrite
                      else (if rewritten && less candidate_f1 baseline_f1
                          then harmful_rewrite
                          else (if rewritten && same candidate_f1 baseline_f1
                              then ineffective_rewrite
                              else (if less baseline_mrr candidate_mrr
                                    && less candidate_f1 baseline_f1
                                  then retrieval_generation_mismatch
                                  else unchanged_or_other)))))))

-- `sorted` by value is stable: an item stays behind those before it with an equal value.
unfoldable pub insert_item : String × ℕ → List (String × ℕ) → List (String × ℕ)
insert_item p [] = p ∷ []
insert_item p (q ∷ qs) = let rest = insert_item p qs in if ltb p.1 q.1 then p ∷ q ∷ qs else q ∷ rest

unfoldable pub sort_items : List (String × ℕ) → List (String × ℕ) → List (String × ℕ)
unfolding insert_item
sort_items done [] = done
sort_items done (p ∷ ps) = sort_items (insert_item p done) ps

-- The loop of `holm_adjust`: `count - index` is the length of what is left.
unfoldable pub holm_loop : ℕ → ℕ → List (String × ℕ) → List (String × ℕ)
holm_loop one running [] = []
holm_loop one running ((name, value) ∷ rest) =
    let adjusted = max running (min one (suc (length rest) * value)) in
    (name, adjusted) ∷ holm_loop one adjusted rest

unfoldable pub holm_adjust : ℕ → List (String × ℕ) → List (String × ℕ)
unfolding sort_items holm_loop
holm_adjust one pvalues = holm_loop one 0 (sort_items [] pvalues)
