-- ===== src/Score.antt =====
-- Document matching by the score operators: the iterators of src/qryeval_plus/query/Qry.py and the
-- operators of src/qryeval_plus/query/QrySopScore.py, QrySopOr.py, QrySopAnd.py, QrySopSum.py and
-- QrySopWsum.py. A SCORE operator is a leaf over the cursor of its argument; each operator has its
-- cached document: none once the cache is cleared. A cache that was never set is not told apart from a
-- cleared one, while the source would raise on reading it; the theorems read a score only after a
-- match, which sets it. An exception is `none`. The calls run on fuel, since an AND searches in a
-- loop.
pub mod Disjunction
pub mod Tests
use qry_eval_plus.Prelude.{
  Bool, Option, false, if◌then◌else◌, ltb, none, some, suc, true, zero, ℕ, ◌&&◌, ◌==◌, ◌>>=◌,
}
use qry_eval_plus.Cursor.{
  Cursor, has_match as cursor_has_match, get_match as cursor_get_match, get_match_posting,
  advance_to as cursor_advance_to, advance_past as cursor_advance_past,
}

pub data Kind : Type 0 where
  or_ and_ sum wsum : Kind

mutual
  pub data Sop : Type 0 where
    leaf : (cache : Option ℕ) → Cursor → Sop
    branch : Kind → (cache : Option ℕ) → Sops → Sop

  pub data Sops : Type 0 where
    nil : Sops
    cons : Sop → Sops → Sops

-- `docIteratorGetMatch`: the cached document.
abbrev pub get_match : Sop → Option ℕ
get_match (leaf cache c) = cache
get_match (branch k cache args) = cache

unfoldable mutual
  unfolding cursor_advance_to

  pub advance_to : ℕ → Sop → Option Sop
  advance_to docid (leaf cache c) = cursor_advance_to docid c >>= λ c'. some (leaf none c')
  advance_to docid (branch k cache args) =
      all_advance_to docid args >>= λ args'. some (branch k none args')

  pub all_advance_to : ℕ → Sops → Option Sops
  all_advance_to docid nil = some nil
  all_advance_to docid (cons q qs) =
      advance_to docid q >>= λ q'. all_advance_to docid qs >>= λ qs'. some (cons q' qs')

unfoldable mutual
  unfolding cursor_advance_past

  pub advance_past : ℕ → Sop → Option Sop
  advance_past docid (leaf cache c) = cursor_advance_past docid c >>= λ c'. some (leaf none c')
  advance_past docid (branch k cache args) =
      all_advance_past docid args >>= λ args'. some (branch k none args')

  pub all_advance_past : ℕ → Sops → Option Sops
  all_advance_past docid nil = some nil
  all_advance_past docid (cons q qs) =
      advance_past docid q >>= λ q'. all_advance_past docid qs >>= λ qs'. some (cons q' qs')

-- The match that an operator reports, and caches if there is one.
abbrev pub report : Kind → Option ℕ → Sops → Option ℕ → Sop × Bool
report k cache args (some docid) = (branch k (some docid) args, true)
report k cache args none = (branch k cache args, false)

-- `minDocid` after an argument with the match `docid`.
abbrev pub smaller_docid : Option ℕ → ℕ → ℕ
smaller_docid none docid = docid
smaller_docid (some best) docid = if ltb docid best then docid else best

-- `minDocid` after an argument.
abbrev pub lower : Bool → Sop → Option ℕ → Option (Option ℕ)
lower false q best = some best
lower true q best = get_match q >>= λ docid. some (some (smaller_docid best docid))

-- `docIteratorHasMatchFirst`, over the argument of a SCORE operator.
abbrev pub match_first : Option ℕ → Cursor → Option (Sop × Bool)
match_first cache c =
    if cursor_has_match c
    then (cursor_get_match c >>= λ docid. some (leaf (some docid) c, true))
    else some (leaf cache c, false)

-- How the loop over the other arguments of an AND ends.
pub data Search : Type 0 where
  agreed exhausted : Search
  moved : ℕ → Search

-- The three loops call `docIteratorHasMatch` of an argument, the function `matches`.
module _ (matches : Sop → Option (Sop × Bool)) where
  -- `docIteratorHasMatchMin`
  unfoldable pub match_min : Option ℕ → Sops → Option (Sops × Option ℕ)
  match_min best nil = some (nil, best)
  match_min best (cons q qs) = matches q >>= λ (q', b).
      lower b q' best >>= λ best'. match_min best' qs >>= λ (qs', m). some (cons q' qs', m)

  unfoldable pub scan : ℕ → Sops → Option (Sops × Search)
  unfolding advance_to
  scan docid nil = some (nil, agreed)
  scan docid (cons q qs) = advance_to docid q >>= λ q'. matches q' >>= λ (q'', b). elim b [
    | false ↦ some (cons q'' qs, exhausted)
    | true ↦ get_match q'' >>= λ docid_i. elim (docid == docid_i) [
      | true ↦ scan docid qs >>= λ (qs', o). some (cons q'' qs', o)
      | false ↦ some (cons q'' qs, moved docid_i)
    ]
  ]

  -- `docIteratorHasMatchAll`, for a number of rounds.
  unfoldable pub match_all : ℕ → Sops → Option (Sops × Option ℕ)
  unfolding scan advance_to
  match_all rounds nil = none
  match_all zero (cons q qs) = none
  match_all (suc rounds) (cons q qs) = matches q >>= λ (q', b). elim b [
    | false ↦ some (cons q' qs, none)
    | true ↦ get_match q' >>= λ docid_0. scan docid_0 qs >>= λ (qs', o). elim o [
      | agreed ↦ some (cons q' qs', some docid_0)
      | exhausted ↦ some (cons q' qs', none)
      | moved docid_i ↦ advance_to docid_i q' >>= λ q''. match_all rounds (cons q'' qs')
    ]
  ]

-- `docIteratorHasMatch` of each operator.
unfoldable pub has_match : ℕ → Sop → Option (Sop × Bool)
unfolding cursor_has_match cursor_get_match match_min match_all
has_match zero q = none
has_match (suc fuel) (leaf cache c) = match_first cache c
has_match (suc fuel) (branch and_ cache args) =
    match_all (λ q. has_match fuel q) fuel args >>= λ (args', m). some (report and_ cache args' m)
has_match (suc fuel) (branch k cache args) =
    match_min (λ q. has_match fuel q) none args >>= λ (args', m). some (report k cache args' m)

-- `RetrievalModelUnrankedBoolean` and `RetrievalModelRankedBoolean`.
pub data RetrievalModel : Type 0 where
  unranked_boolean ranked_boolean : RetrievalModel

abbrev cached_score : Option ℕ → ℕ
cached_score (some docid) = 1
cached_score none = 0

-- The scores of a SCORE operator.
abbrev leaf_score : RetrievalModel → Option ℕ → Cursor → Option ℕ
leaf_score unranked_boolean cache c = some (cached_score cache)
leaf_score ranked_boolean none c = some 0
leaf_score ranked_boolean (some docid) c = get_match_posting c >>= λ p. some p.tf

abbrev pub same_docid : Option ℕ → ℕ → Bool
same_docid (some d) docid = d == docid
same_docid none docid = false

-- `min` with the infinity that an AND starts from.
abbrev lower_score : Option ℕ → ℕ → ℕ
lower_score none s = s
lower_score (some t) s = if ltb s t then s else t

-- The loops of OR and AND call `docIteratorHasMatch` and `getScore` of an argument.
module _ (matches : Sop → Option (Sop × Bool)) (score : Sop → Option (Sop × ℕ)) where
  -- The best score after an argument of an OR: only those that match the document have a say.
  abbrev pub raise : Bool → ℕ → Sop → Option (Sop × ℕ)
  raise true best q = score q >>= λ (q', s). some (q', if ltb best s then s else best)
  raise false best q = some (q, best)

  -- The loop of an OR.
  unfoldable pub highest : ℕ → ℕ → Sops → Option (Sops × ℕ)
  highest docid best nil = some (nil, best)
  highest docid best (cons q qs) = matches q >>= λ (q', b).
      raise (b && same_docid (get_match q') docid) best q' >>= λ (q'', best').
      highest docid best' qs >>= λ (qs', t). some (cons q'' qs', t)

  -- The loop of an AND.
  unfoldable pub lowest : ℕ → Option ℕ → Sops → Option (Sops × Option ℕ)
  lowest docid best nil = some (nil, best)
  lowest docid best (cons q qs) = get_match q >>= λ d. elim (d == docid) [
    | true ↦ score q >>= λ (q', s).
        lowest docid (some (lower_score best s)) qs >>= λ (qs', t). some (cons q' qs', t)
    | false ↦ lowest docid best qs >>= λ (qs', t). some (cons q qs', t)
  ]

-- `getScore` of the Boolean models; SUM and WSUM do not support them. The infinity that an AND
-- without a matching argument would return has no number here, and is `none`.
unfoldable pub get_score : ℕ → RetrievalModel → Sop → Option (Sop × ℕ)
unfolding get_match_posting has_match highest lowest
get_score zero r q = none
get_score (suc fuel) r (leaf cache c) = leaf_score r cache c >>= λ s. some (leaf cache c, s)
get_score (suc fuel) r (branch sum cache args) = none
get_score (suc fuel) r (branch wsum cache args) = none
get_score (suc fuel) unranked_boolean (branch k cache args) =
    some (branch k cache args, cached_score cache)
get_score (suc fuel) ranked_boolean (branch or_ cache args) = cache >>= λ docid.
    highest (λ q. has_match fuel q) (λ q. get_score fuel ranked_boolean q) docid 0 args
    >>= λ (args', s). some (branch or_ cache args', s)
get_score (suc fuel) ranked_boolean (branch and_ cache args) = cache >>= λ docid.
    lowest (λ q. has_match fuel q) (λ q. get_score fuel ranked_boolean q) docid none args
    >>= λ (args', s). s >>= λ score. some (branch and_ cache args', score)
