-- ===== src/InvList/Tests.antt =====
-- Runs of core/InvList.py, and its theorems at them.
use qry_eval_plus.Prelude.{
  All, Bool, [], arith, false, if◌then◌else◌, refl, some, true, ◌<◌, ◌↔◌, ◌∷◌, ◌≡◌,
}
use qry_eval_plus.InvList.{doc_posting, InvList, append_posting, out_of_order}
use qry_eval_plus.InvList.Order.{
  IsValid, Ascending, extended, append_posting-IsValid, append_posting-second, total_tf,
}

abbrev pub cats : InvList
cats = record {
  field = "body";
  ctf = 3;
  df = 2;
  postings = doc_posting 1 (4 ∷ 9 ∷ []) ∷ doc_posting 5 (2 ∷ []) ∷ [];
}

abbrev pub dogs : InvList
dogs = record { field = "body"; ctf = 2; df = 1; postings = doc_posting 5 (3 ∷ 8 ∷ []) ∷ [] }

pub cats-IsValid : IsValid cats
unfolding total_tf
cats-IsValid = record {
  df_counts = refl;
  ctf_counts = refl;
  tf_counts = (refl, (refl, tt));
  ascending = ((omega arith, tt), (tt, tt));
}

pub dogs-IsValid : IsValid dogs
unfolding total_tf
dogs-IsValid = record {
  df_counts = refl;
  ctf_counts = refl;
  tf_counts = (refl, tt);
  ascending = (tt, tt);
}

refuses_late : append_posting 5 (1 ∷ []) cats ≡ some (cats, false)
unfolding append_posting out_of_order
refuses_late = refl

append_posting-IsValid_example :
    (inv' : InvList) × (accepted : Bool) × (append_posting 4 (1 ∷ []) cats ≡ some (inv', accepted))
    × IsValid inv'
    × ((accepted ≡ true) ↔ All (λ p. p.docid < 4) cats.postings)
    × (inv' ≡ (if accepted then extended cats 4 (1 ∷ []) else cats))
append_posting-IsValid_example =
    append_posting-IsValid cats 4 (1 ∷ []) cats-IsValid (λ e. omega arith)

append_posting-second_example :
    (append_posting 2 (6 ∷ []) dogs ≡ some (extended dogs 2 (6 ∷ []), true))
    × (¬ Ascending (extended dogs 2 (6 ∷ [])).postings)
append_posting-second_example =
    append_posting-second dogs (doc_posting 5 (3 ∷ 8 ∷ [])) 2 (6 ∷ []) refl refl (omega arith)
