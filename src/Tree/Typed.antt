-- ===== src/Tree/Typed.antt =====
-- The well-formed trees that `appendArg` builds, and the weights that deletion leaves behind.
use qry_eval_plus.Prelude.{
  Bool, Bool-cases, List, Option, [], ap, arith, false, if◌then◌else◌, inl, inr, length,
  length-append, none, refl, some, suc, true, ℕ, ◌&&◌, ◌++◌, ◌∷◌, ◌≡◌,
}
use Prim.Native.String.{String}
use qry_eval_plus.Tree.{
  Operator, near, window, syn, or_, and_, score, sum, wsum, Qry, term, node, Args, nil, cons, snoc,
  is_iop, is_iop_operator, field_of, same_field, scored, count_args, Weight, append_arg,
}

abbrev pub AllScores : Args → Type 0
AllScores nil = Unit
AllScores (cons q qs) = (is_iop q ≡ false) × AllScores qs

abbrev pub InField : Option String → Args → Type 0
InField f nil = Unit
InField f (cons q qs) = (is_iop q ≡ true) × (same_field f (field_of q) ≡ true) × InField f qs

abbrev pub InOneField : Args → Type 0
InOneField nil = Unit
InOneField (cons p ps) = (is_iop p ≡ true) × InField (field_of p) ps

-- One inverted-list argument of a SCORE; inverted-list arguments in one field; score arguments,
-- with as many weights of a WSUM.
abbrev pub Fits : Operator → Args → Type 0
Fits score nil = Unit
Fits score (cons p nil) = is_iop p ≡ true
Fits score (cons p (cons q qs)) = ⊥
Fits (near n) args = InOneField args
Fits (window n) args = InOneField args
Fits syn args = InOneField args
Fits or_ args = AllScores args
Fits and_ args = AllScores args
Fits sum args = AllScores args
Fits (wsum ws) args = AllScores args × (length ws ≡ count_args args)

unfoldable mutual
  -- The arguments fit the operator, here and below.
  pub IsTyped : Qry → Type 0
  IsTyped (term name field) = Unit
  IsTyped (node op args) = AllTyped args × Fits op args

  pub AllTyped : Args → Type 0
  AllTyped nil = Unit
  AllTyped (cons q qs) = IsTyped q × AllTyped qs

-- What may be appended, as the comments of `appendArg` say it.
abbrev pub admits : Qry → Qry → Bool
admits (term name field) q = false
admits (node score nil) q = is_iop q
admits (node score (cons p ps)) q = false
admits (node op nil) q = if is_iop_operator op then is_iop q else true
admits (node op (cons p ps)) q =
    if is_iop_operator op then is_iop q && same_field (field_of p) (field_of q) else true

abbrev pub arity : Qry → ℕ
arity (term name field) = 0
arity (node op args) = count_args args

abbrev pub Appended : Bool → Qry → Option Qry → Type 0
Appended false s o = o ≡ none
Appended true s o = (s' : Qry) × (o ≡ some s') × IsTyped s' × (arity s' ≡ suc (arity s))

snoc-AllTyped : (ps : Args) (q : Qry) → AllTyped ps → IsTyped q → AllTyped (snoc ps q)
unfolding snoc IsTyped
snoc-AllTyped nil q h t = (t, tt)
snoc-AllTyped (cons p ps) q h t = (h.0, snoc-AllTyped ps q h.1 t)

snoc-AllScores : (ps : Args) (q : Qry) → AllScores ps → is_iop q ≡ false → AllScores (snoc ps q)
unfolding snoc
snoc-AllScores nil q h t = (t, tt)
snoc-AllScores (cons p ps) q h t = (h.0, snoc-AllScores ps q h.1 t)

snoc-InField :
    (f : Option String) (ps : Args) (q : Qry)
    → InField f ps
    → is_iop q ≡ true
    → same_field f (field_of q) ≡ true
    → InField f (snoc ps q)
unfolding snoc
snoc-InField f nil q h t e = (t, e, tt)
snoc-InField f (cons p ps) q (i, k, h) t e = (i, k, snoc-InField f ps q h t e)

snoc-count : (ps : Args) (q : Qry) → count_args (snoc ps q) ≡ suc (count_args ps)
unfolding snoc
snoc-count nil q = refl
snoc-count (cons p ps) q = ap suc (snoc-count ps q)

-- An inserted SCORE makes a score argument of any.
scored-IsTyped : (q : Qry) → IsTyped q → IsTyped (scored q) × (is_iop (scored q) ≡ false)
unfolding IsTyped
scored-IsTyped q h = elim (Bool-cases (is_iop q)) [
  | inl e ↦ rw e (((h, tt), e), refl)
  | inr e ↦ rw e (h, e)
]

and_true : (a b : Bool) → (a && b) ≡ true → (a ≡ true) × (b ≡ true)
and_true true true e = (refl, refl)
and_true true false e = cc
and_true false b e = cc

-- The two ways of appending to an inverted-list operator.
first_iop :
    (op : Operator) (q : Qry)
    → ((is_iop q ≡ true) → Fits op (cons q nil))
    → IsTyped q
    → Appended (is_iop q) (node op nil) (if is_iop q then some (node op (cons q nil)) else none)
unfolding IsTyped
first_iop op q fits t = elim (Bool-cases (is_iop q)) [
  | inl e ↦ rw e (node op (cons q nil), refl, ((t, tt), fits e), refl)
  | inr e ↦ rw e refl
]

next_iop :
    (op : Operator) (p : Qry) (ps : Args) (q : Qry)
    → ((args : Args) → InOneField args → Fits op args)
    → InOneField (cons p ps)
    → AllTyped (cons p ps)
    → IsTyped q
    → Appended (is_iop q && same_field (field_of p) (field_of q)) (node op (cons p ps)) (
        if is_iop q && same_field (field_of p) (field_of q)
        then some (node op (snoc (cons p ps) q))
        else none)
unfolding IsTyped snoc
next_iop op p ps q fits h ts t =
    elim (Bool-cases (is_iop q && same_field (field_of p) (field_of q))) [
      | inl e ↦
          let (iop, same) = and_true (is_iop q) (same_field (field_of p) (field_of q)) e in
          rw e (
            node op (cons p (snoc ps q)),
            refl,
            (
              (ts.0, snoc-AllTyped ps q ts.1 t),
              fits (cons p (snoc ps q)) (h.0, snoc-InField (field_of p) ps q h.1 iop same),
            ),
            ap suc (snoc-count ps q),
          )
      | inr e ↦ rw e refl
    ]

next_sop :
    (op op' : Operator) (args : Args) (q : Qry)
    → AllScores args
    → (AllScores (snoc args (scored q)) → Fits op' (snoc args (scored q)))
    → AllTyped args
    → IsTyped q
    → Appended true (node op args) (some (node op' (snoc args (scored q))))
unfolding IsTyped
next_sop op op' args q h fits ts t =
    let (typed, sop) = scored-IsTyped q t in
    (
      node op' (snoc args (scored q)),
      refl,
      (snoc-AllTyped args (scored q) ts typed, fits (snoc-AllScores args (scored q) h sop)),
      snoc-count args (scored q),
    )

next_wsum :
    (ws : List Weight) (w : Weight) (args : Args) (q : Qry)
    → AllScores args
    → length ws ≡ count_args args
    → AllTyped args
    → IsTyped q
    → Appended true (node (wsum ws) args) (some (node (wsum (ws ++ w ∷ [])) (snoc args (scored q))))
next_wsum ws w args q h len =
    next_sop (wsum ws) (wsum (ws ++ w ∷ [])) args q h
      (λ k. (k, omega (arith, len, length-append ws (w ∷ []), snoc-count args (scored q))))

-- Appending a well-formed argument to a well-formed operator raises exactly if the operator does
-- not admit it, and else gives a well-formed operator with one argument more.
pub append_arg-IsTyped :
    (s q : Qry) (w : Weight) → IsTyped s → IsTyped q → Appended (admits s q) s (append_arg s w q)
unfolding append_arg IsTyped
append_arg-IsTyped (term name field) q w h t = refl
append_arg-IsTyped (node score nil) q w h t = first_iop score q (λ e. e) t
append_arg-IsTyped (node score (cons p ps)) q w h t = refl
append_arg-IsTyped (node (near n) nil) q w h t = first_iop (near n) q (λ e. (e, tt)) t
append_arg-IsTyped (node (near n) (cons p ps)) q w (ts, h) t =
    next_iop (near n) p ps q (λ args k. k) h ts t
append_arg-IsTyped (node (window n) nil) q w h t = first_iop (window n) q (λ e. (e, tt)) t
append_arg-IsTyped (node (window n) (cons p ps)) q w (ts, h) t =
    next_iop (window n) p ps q (λ args k. k) h ts t
append_arg-IsTyped (node syn nil) q w h t = first_iop syn q (λ e. (e, tt)) t
append_arg-IsTyped (node syn (cons p ps)) q w (ts, h) t = next_iop syn p ps q (λ args k. k) h ts t
append_arg-IsTyped (node or_ nil) q w (ts, h) t = next_sop or_ or_ nil q h (λ k. k) ts t
append_arg-IsTyped (node or_ (cons p ps)) q w (ts, h) t =
    next_sop or_ or_ (cons p ps) q h (λ k. k) ts t
append_arg-IsTyped (node and_ nil) q w (ts, h) t = next_sop and_ and_ nil q h (λ k. k) ts t
append_arg-IsTyped (node and_ (cons p ps)) q w (ts, h) t =
    next_sop and_ and_ (cons p ps) q h (λ k. k) ts t
append_arg-IsTyped (node sum nil) q w (ts, h) t = next_sop sum sum nil q h (λ k. k) ts t
append_arg-IsTyped (node sum (cons p ps)) q w (ts, h) t =
    next_sop sum sum (cons p ps) q h (λ k. k) ts t
append_arg-IsTyped (node (wsum ws) nil) q w (ts, (h, len)) t = next_wsum ws w nil q h len ts t
append_arg-IsTyped (node (wsum ws) (cons p ps)) q w (ts, (h, len)) t =
    next_wsum ws w (cons p ps) q h len ts t
