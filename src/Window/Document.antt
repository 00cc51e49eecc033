-- ===== src/Window/Document.antt =====
-- The document that all arguments of WINDOW/n hold.
use qry_eval_plus.Prelude.{
  >>=-some, All, All-map, Bool, List, Option, [], ap, arith, false, inl, inr, order-cases, refl,
  some, some_eq, subst, suc, sym, true, ℕ, ◌<◌, ◌∙◌, ◌∷◌, ◌≡◌, ◌≢◌, ◌≤◌,
}
use qry_eval_plus.InvList.{DocPosting, InvList}
use qry_eval_plus.InvList.Order.{Increasing, IsValid}
use qry_eval_plus.Cursor.{Cursor}
use qry_eval_plus.Cursor.Advance.{rest, IsReady}
use qry_eval_plus.MatchAll.Join.{find, find_all, From}
use qry_eval_plus.MatchAll.Scan.{rests}
use qry_eval_plus.MatchAll.Left.{postings_left}
use qry_eval_plus.Window.{evaluate_loop, take_document}
use qry_eval_plus.Window.Within.{window_doc-Windows}
use qry_eval_plus.Window.Moves.{PointsTo, AllKept, done, more, AllKept-IsReady, AllKept-find_all}
use qry_eval_plus.Window.Align.{HasPosting, Advances, advance_all-Advances, posting_lists-found}
use qry_eval_plus.Window.Says.{
  MeetsWindow, Says, Says-nothing, Says-moved, if_any, Stored, store-Stored, document-Meets,
}

-- The positions of the common documents increase.
abbrev pub Orderly : ℕ → List Cursor → Type 0
Orderly k cs =
    (x : ℕ) (pss : List (List ℕ)) → k ≤ x → find_all x (rests cs) ≡ some pss → All Increasing pss

pub record Ready (k : ℕ) (cs : List Cursor) (inv : InvList) : Type 0 where
  pub ready : All IsReady cs
  pub pointing : All HasPosting cs
  pub some_left : cs ≢ []
  pub from : All (λ c. From k (rest c)) cs
  pub orderly : Orderly k cs
  pub valid : IsValid inv
  pub below : All (λ q. q.docid < k) inv.postings

pub AllKept-some_left : {m : ℕ} {cs cs' : List Cursor} → AllKept m cs cs' → cs ≢ [] → cs' ≢ []
AllKept-some_left done ne = ne
AllKept-some_left (more k ks) ne = λ e. cc

pub AllKept-From :
    {m : ℕ} {cs cs' : List Cursor} → AllKept m cs cs' → All (λ c. From m (rest c)) cs'
AllKept-From done = tt
AllKept-From (more k ks) = (k.from, AllKept-From ks)

pub Orderly-moved :
    {k m : ℕ} {cs cs' : List Cursor} → AllKept m cs cs' → k ≤ m → Orderly k cs → Orderly m cs'
Orderly-moved kept le orderly =
    λ x pss ge found. orderly x pss (omega arith) (sym (AllKept-find_all kept x ge) ∙ found)

find_all-cons :
    (x : ℕ) (c : Cursor) (cs : List Cursor) (pss : List (List ℕ))
    → find_all x (rests (c ∷ cs)) ≡ some pss
    → (p : List ℕ) × (ps : List (List ℕ)) × (pss ≡ p ∷ ps)
find_all-cons x c cs pss e =
    let (p, here, e') = >>=-some (find x (rest c)) _ e in
    let (ps, there, e'') = >>=-some (find_all x (rests cs)) _ e' in (p, ps, sym (some_eq e''))

pub raised :
    (k m : ℕ) (ps : List DocPosting) → k ≤ m → All (λ q. q.docid < k) ps → All (λ q. q.docid < m) ps
raised k m ps le h = All-map (λ q. q.docid < k) (λ q. q.docid < m) (λ q l. omega arith) ps h

module _ (n : ℕ) where
  -- What the loop builds from the document `k` on.
  abbrev pub Builds : ℕ → ℕ → List Cursor → InvList → Type 0
  Builds fuel k cs inv =
      (inv' : InvList) × (evaluate_loop n fuel cs inv ≡ some inv')
      × IsValid inv'
      × Says n k cs inv inv'

  abbrev pub Continues : ℕ → List Cursor → Type 0
  Continues fuel cs =
      (k : ℕ) (cs' : List Cursor) (inv' : InvList)
      → Ready k cs' inv'
      → postings_left cs' < postings_left cs
      → Builds fuel k cs' inv'

  -- The document `m`, given what the list says of later ones.
  Says-document :
      (m : ℕ) (cs : List Cursor) (pss : List (List ℕ)) (matches : List ℕ) (inv inv' final : InvList)
      → find_all m (rests cs) ≡ some pss
      → Stored m matches inv inv'
      → MeetsWindow n (some pss) (if_any matches)
      → Says n (suc m) cs inv' final
      → Says n m cs inv final
  Says-document m cs pss matches inv inv' final found stored meets (before, after) = (
    λ e lt. before e (omega arith) ∙ stored.others e (λ f. omega arith),
    λ e ge. elim (order-cases e m) [
      | inl lt ↦ absurd (omega arith)
      | inr (inr gt) ↦ after e (omega arith)
      | inr (inl same) ↦
          subst (λ x. MeetsWindow n (find_all x (rests cs)) (find x final.postings)) (sym same)
            (subst (λ o. MeetsWindow n o (find m final.postings)) (sym found)
              (subst (MeetsWindow n (some pss)) (sym (before m (omega arith) ∙ stored.there))
                meets))
    ],
  )

  -- The rounds after a document, or the end if an argument is exhausted.
  abbrev pub goes_on : ℕ → Bool → List Cursor → InvList → Option InvList
  goes_on fuel true cs inv = evaluate_loop n fuel cs inv
  goes_on fuel false cs inv = some inv

  advanced-Builds :
      (fuel m : ℕ) (cs cs' : List Cursor) (inv inv' : InvList) (b : Bool) (matches : List ℕ)
      → Ready m cs inv
      → All (PointsTo m) cs
      → Stored m matches inv inv'
      → Advances m cs cs' b
      → Continues fuel cs
      → (final : InvList) × (goes_on fuel b cs' inv' ≡ some final)
        × IsValid final
        × Says n (suc m) cs inv' final
  advanced-Builds fuel m cs cs' inv inv' false matches r at stored absent again = (
    inv',
    refl,
    stored.valid,
    Says-nothing n (suc m) cs inv' stored.below (λ x le. absent x (omega arith)),
  )
  advanced-Builds fuel m cs cs' inv inv' true matches r at stored (kept, pointing, fewer) again =
      let (final, ends, v, says) =
        again (suc m) cs' inv'
          (record {
            ready = AllKept-IsReady kept;
            pointing = pointing;
            some_left = AllKept-some_left kept r.some_left;
            from = AllKept-From kept;
            orderly = Orderly-moved kept (omega arith) r.orderly;
            valid = stored.valid;
            below = stored.below;
          })
          (fewer at r.some_left) in
      (final, ends, v, Says-moved n (suc m) (suc m) cs cs' inv' final kept (omega arith) says)

  -- A document that all arguments hold.
  pub take_document-Builds :
      (fuel m : ℕ) (cs : List Cursor) (inv : InvList)
      → Ready m cs inv
      → All (PointsTo m) cs
      → Continues fuel cs
      → (cs' : List Cursor) × (inv' : InvList) × (b : Bool) × (take_document n m cs inv
          ≡ some (cs', inv', b))
        × (final : InvList) × (goes_on fuel b cs' inv' ≡ some final)
        × IsValid final
        × Says n m cs inv final
  unfolding take_document
  take_document-Builds fuel m [] inv r at again = absurd (r.some_left refl)
  take_document-Builds fuel m (c ∷ cs) inv r at again =
      let (pss, lists, found) = posting_lists-found m (c ∷ cs) r.ready at in
      let (p, ps, split) = find_all-cons m c cs pss found in
      let inc : All Increasing (p ∷ ps) =
        subst (All Increasing) split (r.orderly m pss (omega arith) found) in
      let (matches, runs, sound, order, complete) = window_doc-Windows n p ps inc in
      let (inv', stored) = store-Stored m matches inv r.valid r.below in
      let (cs', b, advances, adv) = advance_all-Advances m (c ∷ cs) r.ready in
      let (final, ends, v, says) =
        advanced-Builds fuel m (c ∷ cs) cs' inv inv' b matches r at stored adv again in
      (
        cs',
        inv',
        b,
        rw (lists, split, runs, stored.runs, advances) refl,
        final,
        ends,
        v,
        Says-document m (c ∷ cs) (p ∷ ps) matches inv inv' final (found ∙ ap some split) stored
            (document-Meets n (p ∷ ps) matches sound order complete) says,
      )
