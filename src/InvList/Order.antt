-- ===== src/InvList/Order.antt =====
-- The order of postings and the two counters, and what `append_posting` keeps of them.
use qry_eval_plus.Prelude.{
  All, All-append, Bool, Bool-cases, List, [], arith, false, get_elem?, if◌then◌else◌, inl, inr,
  leb, length, length-append, ltb, ltb→lt, refl, some, suc, true, zero, ℕ, ◌++◌, ◌+◌, ◌-◌, ◌<◌, ◌↔◌,
  ◌∷◌, ◌≡◌, ◌≢◌, ◌≤◌, ◌⊎◌,
}
use Prim.Native.String.{String}
use qry_eval_plus.InvList.{DocPosting, doc_posting, InvList, empty, out_of_order, append_posting}

-- Positions in strictly increasing order.
abbrev pub Increasing : List ℕ → Type 0
Increasing [] = Unit
Increasing (x ∷ xs) = All (λ y. x < y) xs × Increasing xs

-- Document ids in strictly increasing order.
abbrev pub Ascending : List DocPosting → Type 0
Ascending [] = Unit
Ascending (p ∷ ps) = All (λ q. p.docid < q.docid) ps × Ascending ps

-- The sum of the term frequencies.
unfoldable pub total_tf : List DocPosting → ℕ
total_tf [] = 0
total_tf (p ∷ ps) = p.tf + total_tf ps

-- The class's promise: the counters count, and the documents ascend.
pub record IsValid (inv : InvList) : Type 0 where
  pub df_counts : inv.df ≡ length inv.postings
  pub ctf_counts : inv.ctf ≡ total_tf inv.postings
  pub tf_counts : All (λ p. p.tf ≡ length p.positions) inv.postings
  pub ascending : Ascending inv.postings

pub total_tf-append : (ps qs : List DocPosting) → total_tf (ps ++ qs) ≡ total_tf ps + total_tf qs
unfolding total_tf
total_tf-append [] qs = omega arith
total_tf-append (p ∷ ps) qs = omega (arith, total_tf-append ps qs)

pub Ascending-snoc :
    (ps : List DocPosting) (q : DocPosting)
    → Ascending ps
    → All (λ p. p.docid < q.docid) ps
    → Ascending (ps ++ q ∷ [])
Ascending-snoc [] q a h = (tt, tt)
Ascending-snoc (p ∷ ps) q a h =
    (All-append _ ps (q ∷ []) a.0 (h.0, tt), Ascending-snoc ps q a.1 h.1)

-- The last posting has the largest document id.
All-le_last :
    (ps : List DocPosting) (k : ℕ) (last : DocPosting)
    → Ascending ps
    → length ps ≡ suc k
    → get_elem? ps k ≡ some last
    → All (λ p. p.docid ≤ last.docid) ps
All-le_last [] k last a e g = tt
All-le_last (p ∷ []) zero last a e g = (ground arith, tt)
All-le_last (p ∷ []) (suc k) last a e g = absurd (omega arith)
All-le_last (p ∷ q ∷ ps) zero last a e g = absurd (omega arith)
All-le_last (p ∷ q ∷ ps) (suc k) last a e g =
    let rest = All-le_last (q ∷ ps) k last a.1 (omega arith) g in (omega arith, rest)

-- The list with one more posting.
abbrev pub extended : InvList → ℕ → List ℕ → InvList
extended inv d locations = record inv {
  postings = inv.postings ++ doc_posting d locations ∷ [];
  df = inv.df + 1;
  ctf = inv.ctf + length locations;
}

pub extended-IsValid :
    (inv : InvList) (d : ℕ) (locations : List ℕ)
    → IsValid inv
    → All (λ p. p.docid < d) inv.postings
    → IsValid (extended inv d locations)
extended-IsValid inv d locations v h =
    let q = doc_posting d locations in
    record {
      df_counts = omega (arith, v.df_counts, length-append inv.postings (q ∷ []));
      ctf_counts =
          unfold total_tf in omega (arith, v.ctf_counts, total_tf-append inv.postings (q ∷ []));
      tf_counts = All-append _ inv.postings (q ∷ []) v.tf_counts (refl, tt);
      ascending = Ascending-snoc inv.postings q v.ascending h;
    }

pub empty-IsValid : (field : String) → IsValid (empty field)
unfolding total_tf
empty-IsValid field = record { df_counts = refl; ctf_counts = refl; tf_counts = tt; ascending = tt }

All-lt_trans :
    (ps : List DocPosting) (m d : ℕ) → All (λ p. p.docid ≤ m) ps → m < d → All (λ p. p.docid < d) ps
All-lt_trans [] m d h l = tt
All-lt_trans (p ∷ ps) m d h l = (omega arith, All-lt_trans ps m d h.1 l)

not-All_last :
    (ps : List DocPosting) (k d : ℕ) (last : DocPosting)
    → get_elem? ps k ≡ some last
    → d ≤ last.docid
    → ¬ All (λ p. p.docid < d) ps
not-All_last [] k d last g l h = cc
not-All_last (p ∷ ps) zero d last g l h = ground arith
not-All_last (p ∷ ps) (suc k) d last g l h = not-All_last ps k d last g l h.1

All-short : (ps : List DocPosting) (d : ℕ) → length ps ≡ 0 → All (λ p. p.docid < d) ps
All-short [] d h = tt
All-short (p ∷ ps) d h = absurd (omega arith)

get_elem?_last :
    (ps : List DocPosting) (k : ℕ)
    → length ps ≡ suc k
    → (p : DocPosting) × (get_elem? ps k ≡ some p)
get_elem?_last [] k h = absurd (omega arith)
get_elem?_last (p ∷ []) zero h = (p, refl)
get_elem?_last (p ∷ []) (suc k) h = absurd (omega arith)
get_elem?_last (p ∷ q ∷ ps) zero h = absurd (omega arith)
get_elem?_last (p ∷ q ∷ ps) (suc k) h = get_elem?_last (q ∷ ps) k (omega arith)

-- What the guard decides on a valid list of any length but one.
out_of_order-cases :
    (inv : InvList) (d : ℕ)
    → IsValid inv
    → inv.df ≢ 1
    → ((out_of_order d inv ≡ some false) × All (λ p. p.docid < d) inv.postings)
      ⊎ ((out_of_order d inv ≡ some true) × (¬ All (λ p. p.docid < d) inv.postings))
unfolding out_of_order
out_of_order-cases inv d v other = elim (Bool-cases (ltb 1 inv.df)) [
  | inl long ↦
      let k = inv.df - 1 in
      let size : length inv.postings ≡ suc k = omega (arith, v.df_counts, ltb→lt 1 inv.df long) in
      let (last, found) = get_elem?_last inv.postings k size in
      elim (Bool-cases (leb d last.docid)) [
        | inl late ↦
            inr (rw (long, found, late), not-All_last inv.postings k d last found (ground arith))
        | inr fresh ↦ inl (
          rw (long, found, fresh),
          All-lt_trans inv.postings last.docid d
              (All-le_last inv.postings k last v.ascending size found) (ground arith),
        )
      ]
  | inr short ↦ inl (rw short, All-short inv.postings d (ground (arith, v.df_counts)))
]

-- On a valid list that does not hold exactly one posting, appending never raises, is accepted
-- exactly when the document id is larger than every stored one, stores the posting then and
-- changes nothing otherwise, and leaves a valid list.
pub append_posting-IsValid :
    (inv : InvList) (d : ℕ) (locations : List ℕ)
    → IsValid inv
    → inv.df ≢ 1
    → (inv' : InvList) × (accepted : Bool) × (append_posting d locations inv
        ≡ some (inv', accepted))
      × IsValid inv'
      × ((accepted ≡ true) ↔ All (λ p. p.docid < d) inv.postings)
      × (inv' ≡ (if accepted then extended inv d locations else inv))
unfolding append_posting
append_posting-IsValid inv d locations v other = elim (out_of_order-cases inv d v other) [
  | inl (open_, h) ↦ (
    extended inv d locations,
    true,
    rw open_,
    extended-IsValid inv d locations v h,
    (λ _. h, λ _. refl),
    refl,
  )
  | inr (shut, h) ↦ (inv, false, rw shut, v, (λ e. cc, λ all. absurd (h all)), refl)
]

out_of_order-in_order :
    (inv : InvList) (d : ℕ)
    → IsValid inv
    → All (λ p. p.docid < d) inv.postings
    → out_of_order d inv ≡ some false
unfolding out_of_order
out_of_order-in_order inv d v h = elim (Bool-cases (ltb 1 inv.df)) [
  | inl long ↦
      let k = inv.df - 1 in
      let size : length inv.postings ≡ suc k = omega (arith, v.df_counts, ltb→lt 1 inv.df long) in
      let (last, found) = get_elem?_last inv.postings k size in
      elim (Bool-cases (leb d last.docid)) [
        | inl late ↦ absurd (not-All_last inv.postings k d last found (ground arith) h)
        | inr fresh ↦ rw (long, found, fresh)
      ]
  | inr short ↦ rw short
]

-- In order, a posting is always stored, whatever the length of the list.
pub append_posting-in_order :
    (inv : InvList) (d : ℕ) (locations : List ℕ)
    → IsValid inv
    → All (λ p. p.docid < d) inv.postings
    → append_posting d locations inv ≡ some (extended inv d locations, true)
unfolding append_posting
append_posting-in_order inv d locations v h = rw (out_of_order-in_order inv d v h)

-- The guard tests `df > 1`, so the second posting is stored without a look at the first: a list
-- of one posting takes a document id that is not larger, and its documents no longer ascend.
pub append_posting-second :
    (inv : InvList) (p : DocPosting) (d : ℕ) (locations : List ℕ)
    → inv.df ≡ 1
    → inv.postings ≡ p ∷ []
    → d ≤ p.docid
    → (append_posting d locations inv ≡ some (extended inv d locations, true))
      × (¬ Ascending (extended inv d locations).postings)
unfolding append_posting out_of_order
append_posting-second inv p d locations one e h = (rw one, λ a. ground arith)
