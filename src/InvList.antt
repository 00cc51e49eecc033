-- ===== src/InvList.antt =====
-- Inverted lists: src/qryeval_plus/core/InvList.py. A list is a record of the fields of the class;
-- reading a posting out of range is `none` (an `IndexError`). The constructor's branch that reads
-- postings from Lucene is not modelled: what it builds is any list that `IsValid` accepts.
pub mod Order
pub mod Tests
use qry_eval_plus.Prelude.{
  Bool, List, Option, [], false, get_elem?, if◌then◌else◌, leb, length, ltb, some, true, ℕ, ◌++◌,
  ◌+◌, ◌-◌, ◌>>=◌, ◌∷◌,
}
use Prim.Native.String.{String}

pub record DocPosting : Type 0 where
  pub docid : ℕ
  pub tf : ℕ
  pub positions : List ℕ

abbrev pub doc_posting : ℕ → List ℕ → DocPosting
doc_posting d locations = record { docid = d; tf = length locations; positions = locations }

pub record InvList : Type 0 where
  pub field : String
  pub ctf : ℕ
  pub df : ℕ
  pub postings : List DocPosting

-- The constructor with no term.
abbrev pub empty : String → InvList
empty field = record { field = field; ctf = 0; df = 0; postings = [] }

-- The guard's two tests are joined by `and`: the last posting is read only when `df > 1`.
unfoldable pub out_of_order : ℕ → InvList → Option Bool
out_of_order docid inv =
    if ltb 1 inv.df
    then (get_elem? inv.postings (inv.df - 1) >>= λ last. some (leb docid last.docid))
    else some false

unfoldable pub append_posting : ℕ → List ℕ → InvList → Option (InvList × Bool)
unfolding out_of_order
append_posting docid positions inv = do
  refused ← out_of_order docid inv
  let posting = doc_posting docid positions
  some (
      if refused then (inv, false) else (
        record inv {
          postings = inv.postings ++ posting ∷ [];
          df = inv.df + 1;
          ctf = inv.ctf + posting.tf;
        },
        true,
      ))

unfoldable pub get_docid : InvList → ℕ → Option ℕ
get_docid inv n = get_elem? inv.postings n >>= λ p. some p.docid

unfoldable pub get_tf : InvList → ℕ → Option ℕ
get_tf inv n = get_elem? inv.postings n >>= λ p. some p.tf
