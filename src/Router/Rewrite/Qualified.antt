-- ===== src/Router/Rewrite/Qualified.antt =====
-- Qualifiers do not change what a criterion says of a row.
use kingshard.Prelude.{
  ℤ, Bytes, eqb_bytes, ◌≡◌, refl, sym, ◌∙◌, subst, ◌↔◌, ◌⊎◌, inl, inr, Option, some, none,
  if_either,
}
use kingshard.Sqlparser.Ast.{
  CompareOp, eq, lt, gt, le, ge, ne, nse, in_list, not_in, like, not_like, ValExpr, ValExprs,
  col_name, val_tuple, nil, cons,
}
use kingshard.Router.Rule.{Rule}
use kingshard.Router.Plan.Values.{get_value_type, is_value}
use kingshard.Router.Plan.Qualifiers.{text, unqualified, unqualified_tuple}
use kingshard.Router.Plan.Meaning.{Meaning, eval, HoldsOf, Decided, Rel, AnyOf, NoneOf}
use kingshard.Router.Rewrite.{reset_qualifier}

Decided-mono :
    {o o' : Type 0} (f : o → o') (r : ℤ → ℤ → Type 0) (x y : Option ℤ)
    → Decided o r x y
    → Decided o' r x y
Decided-mono f r (some a) (some b) d = d
Decided-mono f r (some a) none d = f d
Decided-mono f r none y d = f d

AnyOf-mono :
    {o o' : Type 0} (f : o → o') (ev : ValExpr → Option ℤ) (x : Option ℤ) (es : ValExprs)
    → AnyOf ev o x es
    → AnyOf ev o' x es
AnyOf-mono f ev x nil h = h
AnyOf-mono f ev x (cons e es) (inl d) = inl (Decided-mono f (Rel in_list) x (ev e) d)
AnyOf-mono f ev x (cons e es) (inr h) = inr (AnyOf-mono f ev x es h)

NoneOf-mono :
    {o o' : Type 0} (f : o → o') (ev : ValExpr → Option ℤ) (x : Option ℤ) (es : ValExprs)
    → NoneOf ev o x es
    → NoneOf ev o' x es
NoneOf-mono f ev x nil h = h
NoneOf-mono f ev x (cons e es) (d, h) =
    (Decided-mono f (Rel not_in) x (ev e) d, NoneOf-mono f ev x es h)

module _ (rule : Rule) (m : Meaning) where
  HoldsOf-mono :
      {o o' : Type 0} (f : o → o') (op : CompareOp) (l r : ValExpr)
      → HoldsOf rule m o op l r
      → HoldsOf rule m o' op l r
  HoldsOf-mono f in_list l (val_tuple es) h = AnyOf-mono f (eval rule m) (eval rule m l) es h
  HoldsOf-mono f in_list l _ h = f h
  HoldsOf-mono f not_in l (val_tuple es) h = NoneOf-mono f (eval rule m) (eval rule m l) es h
  HoldsOf-mono f not_in l _ h = f h
  HoldsOf-mono f eq l r h = Decided-mono f (Rel eq) (eval rule m l) (eval rule m r) h
  HoldsOf-mono f nse l r h = Decided-mono f (Rel nse) (eval rule m l) (eval rule m r) h
  HoldsOf-mono f lt l r h = Decided-mono f (Rel lt) (eval rule m l) (eval rule m r) h
  HoldsOf-mono f le l r h = Decided-mono f (Rel le) (eval rule m l) (eval rule m r) h
  HoldsOf-mono f gt l r h = Decided-mono f (Rel gt) (eval rule m l) (eval rule m r) h
  HoldsOf-mono f ge l r h = Decided-mono f (Rel ge) (eval rule m l) (eval rule m r) h
  HoldsOf-mono f ne l r h = Decided-mono f (Rel ne) (eval rule m l) (eval rule m r) h
  HoldsOf-mono f like l r h = f h
  HoldsOf-mono f not_like l r h = f h

  -- The same operand, but for qualifiers.
  abbrev pub SameTuple : ValExprs → ValExprs → Type 0
  SameTuple nil nil = Unit {0}
  SameTuple (cons a as') (cons b bs) = (eval rule m a ≡ eval rule m b) × SameTuple as' bs
  SameTuple _ _ = ⊥

  abbrev pub NotTuple : ValExpr → Type 0
  NotTuple (val_tuple es) = ⊥
  NotTuple _ = Unit {0}

  abbrev pub SameRight : ValExpr → ValExpr → Type 0
  SameRight a b =
      (NotTuple a × NotTuple b)
      ⊎ ((es : ValExprs) × (fs : ValExprs) × (a ≡ val_tuple es)
          × (b ≡ val_tuple fs)
          × SameTuple es fs)

  AnyOf-same :
      (o : Type 0) (x : Option ℤ) (es fs : ValExprs)
      → SameTuple es fs
      → AnyOf (eval rule m) o x es ≡ AnyOf (eval rule m) o x fs
  AnyOf-same o x nil nil s = refl
  AnyOf-same o x (cons a as') (cons b bs) (e, s) = rw (e, AnyOf-same o x as' bs s) refl
  AnyOf-same o x nil (cons b bs) s = absurd s
  AnyOf-same o x (cons a as') nil s = absurd s

  NoneOf-same :
      (o : Type 0) (x : Option ℤ) (es fs : ValExprs)
      → SameTuple es fs
      → NoneOf (eval rule m) o x es ≡ NoneOf (eval rule m) o x fs
  NoneOf-same o x nil nil s = refl
  NoneOf-same o x (cons a as') (cons b bs) (e, s) = rw (e, NoneOf-same o x as' bs s) refl
  NoneOf-same o x nil (cons b bs) s = absurd s
  NoneOf-same o x (cons a as') nil s = absurd s

  in_list-other : (o : Type 0) (l r : ValExpr) → NotTuple r → HoldsOf rule m o in_list l r ≡ o
  in_list-other o l (val_tuple es) n = absurd n
  in_list-other o l _ n = refl

  not_in-other : (o : Type 0) (l r : ValExpr) → NotTuple r → HoldsOf rule m o not_in l r ≡ o
  not_in-other o l (val_tuple es) n = absurd n
  not_in-other o l _ n = refl

  in_list-same :
      (o : Type 0) (a a' b b' : ValExpr)
      → eval rule m a ≡ eval rule m a'
      → SameRight b b'
      → HoldsOf rule m o in_list a b ≡ HoldsOf rule m o in_list a' b'
  in_list-same o a a' b b' p (inl (n, n')) = in_list-other o a b n ∙ sym (in_list-other o a' b' n')
  in_list-same o a a' b b' p (inr (es, fs, q, q', s)) =
      rw (q, q', p) (AnyOf-same o (eval rule m a') es fs s)

  not_in-same :
      (o : Type 0) (a a' b b' : ValExpr)
      → eval rule m a ≡ eval rule m a'
      → SameRight b b'
      → HoldsOf rule m o not_in a b ≡ HoldsOf rule m o not_in a' b'
  not_in-same o a a' b b' p (inl (n, n')) = not_in-other o a b n ∙ sym (not_in-other o a' b' n')
  not_in-same o a a' b b' p (inr (es, fs, q, q', s)) =
      rw (q, q', p) (NoneOf-same o (eval rule m a') es fs s)

  -- Two comparisons of the same operands.
  HoldsOf-same :
      (o : Type 0) (op : CompareOp) (a a' b b' : ValExpr)
      → eval rule m a ≡ eval rule m a'
      → eval rule m b ≡ eval rule m b'
      → SameRight b b'
      → HoldsOf rule m o op a b ≡ HoldsOf rule m o op a' b'
  HoldsOf-same o in_list a a' b b' p q s = in_list-same o a a' b b' p s
  HoldsOf-same o not_in a a' b b' p q s = not_in-same o a a' b b' p s
  HoldsOf-same o like a a' b b' p q s = refl
  HoldsOf-same o not_like a a' b b' p q s = refl
  HoldsOf-same o eq a a' b b' p q s = rw (p, q) refl
  HoldsOf-same o nse a a' b b' p q s = rw (p, q) refl
  HoldsOf-same o lt a a' b b' p q s = rw (p, q) refl
  HoldsOf-same o le a a' b b' p q s = rw (p, q) refl
  HoldsOf-same o gt a a' b b' p q s = rw (p, q) refl
  HoldsOf-same o ge a a' b b' p q s = rw (p, q) refl
  HoldsOf-same o ne a a' b b' p q s = rw (p, q) refl

  SameTuple-refl : (es : ValExprs) → SameTuple es es
  SameTuple-refl nil = tt
  SameTuple-refl (cons e es) = (refl, SameTuple-refl es)

  SameRight-refl : (e : ValExpr) → SameRight e e
  SameRight-refl (val_tuple es) = inr (es, es, refl, refl, SameTuple-refl es)
  SameRight-refl _ = inl (tt, tt)

  -- What the two rewritings do to an operand.
  abbrev pub SameOperand : ValExpr → ValExpr → Type 0
  SameOperand a b = (eval rule m a ≡ eval rule m b) × SameRight a b

  SameOperand-refl : (e : ValExpr) → SameOperand e e
  SameOperand-refl e = (refl, SameRight-refl e)

  eval-unqualified : (e : ValExpr) → eval rule m (unqualified rule e) ≡ eval rule m e
  unfolding unqualified
  eval-unqualified (col_name c) =
      if_either (λ (z : ValExpr). eval rule m z ≡ eval rule m (col_name c))
        (eqb_bytes (text c.qualifier) rule.table) _ _ (λ t. refl) (λ f. refl)
  eval-unqualified _ = refl

  unqualified_tuple-SameTuple : (es : ValExprs) → SameTuple (unqualified_tuple rule es) es
  unfolding unqualified_tuple
  unqualified_tuple-SameTuple nil = tt
  unqualified_tuple-SameTuple (cons e es) =
      if_either (λ (z : ValExprs). SameTuple z (cons e es)) (is_value (get_value_type rule e)) _ _
        (λ t. (refl, unqualified_tuple-SameTuple es)) (λ f. (eval-unqualified e, SameTuple-refl es))

  pub unqualified-SameOperand : (e : ValExpr) → SameOperand (unqualified rule e) e
  unfolding unqualified
  unqualified-SameOperand (col_name c) =
      if_either (λ (z : ValExpr). SameOperand z (col_name c))
        (eqb_bytes (text c.qualifier) rule.table) _ _ (λ t. (refl, inl (tt, tt)))
        (λ f. (refl, inl (tt, tt)))
  unqualified-SameOperand (val_tuple es) =
      (refl, inr (unqualified_tuple rule es, es, refl, refl, unqualified_tuple-SameTuple es))
  unqualified-SameOperand _ = (refl, inl (tt, tt))

  pub reset_qualifier-SameOperand :
      (table : Bytes) (i : ℤ) (e : ValExpr) → SameOperand (reset_qualifier table i e) e
  unfolding reset_qualifier
  reset_qualifier-SameOperand table i (col_name c) =
      if_either (λ (z : ValExpr). SameOperand z (col_name c)) (eqb_bytes (text c.qualifier) table) _
        _ (λ t. (refl, inl (tt, tt))) (λ f. (refl, inl (tt, tt)))
  reset_qualifier-SameOperand table i (val_tuple es) = SameOperand-refl (val_tuple es)
  reset_qualifier-SameOperand table i _ = (refl, inl (tt, tt))

  -- A comparison whose operands are the same but for qualifiers says the same.
  pub compared_same :
      {o o' : Type 0} (op : CompareOp) (a a' b b' : ValExpr)
      → o ↔ o'
      → SameOperand a a'
      → SameOperand b b'
      → HoldsOf rule m o op a b ↔ HoldsOf rule m o' op a' b'
  compared_same {o} {o'} op a a' b b' w (p, s) (q, s') = (
    λ h.
        HoldsOf-mono w.0 op a' b'
          (subst (λ (T : Type 0). T) (HoldsOf-same o op a a' b b' p q s') h),
    λ h.
        subst (λ (T : Type 0). T) (sym (HoldsOf-same o op a a' b b' p q s'))
          (HoldsOf-mono w.1 op a' b' h),
  )

  pub between_same :
      {o o' : Type 0} (r : ℤ → ℤ → Type 0) (a a' b b' : ValExpr)
      → o ↔ o'
      → SameOperand a a'
      → SameOperand b b'
      → Decided o r (eval rule m a) (eval rule m b) ↔ Decided o' r (eval rule m a') (eval rule m b')
  between_same r a a' b b' w (p, s) (q, s') =
      rw (p, q)
        (
          λ h. Decided-mono w.0 r (eval rule m a') (eval rule m b') h,
          λ h. Decided-mono w.1 r (eval rule m a') (eval rule m b') h,
        )
