-- ===== src/Router/Rewrite/Unchanged.antt =====
-- A criterion without the table's name, or with a sub-table's name, says the same of a row.
use kingshard.Prelude.{ℕ, ℤ, Bytes, ◌⊎◌, ◌↔◌, inl, inr, if_either}
use kingshard.Sqlparser.Ast.{
  BoolExpr, and_expr, or_expr, not_expr, paren_bool_expr, comparison_expr, range_cond, null_check,
  exists_expr, CompareOp, lt, gt, le, ge, RangeOp, between, not_between, ValExpr,
}
use kingshard.Router.Rule.{Rule}
use kingshard.Router.Plan.Qualifiers.{unqualified, is_looked_at, looked_at}
use kingshard.Router.Plan.Meaning.{Meaning, Holds, Rel}
use kingshard.Router.Rewrite.{reset_qualifier, rewrite_where_qualifier}
use kingshard.Router.Rewrite.Qualified.{
  unqualified-SameOperand, reset_qualifier-SameOperand, SameOperand, compared_same, between_same,
}

-- What the key does not decide is left as it is by a change of criteria.
abbrev pub Ignores : Meaning → (BoolExpr → BoolExpr) → Type 0
Ignores m f = (c : BoolExpr) → m.undecided (f c) ↔ m.undecided c

pub both : {A B A' B' : Type 0} → A ↔ A' → B ↔ B' → (A × B) ↔ (A' × B')
both a b = (λ (x, y). (a.0 x, b.0 y), λ (x, y). (a.1 x, b.1 y))

pub either : {A B A' B' : Type 0} → A ↔ A' → B ↔ B' → (A ⊎ B) ↔ (A' ⊎ B')
either a b = (
  λ s. elim s [ inl x ↦ inl (a.0 x) | inr y ↦ inr (b.0 y) ],
  λ s. elim s [ inl x ↦ inl (a.1 x) | inr y ↦ inr (b.1 y) ],
)

module _ (rule : Rule) (m : Meaning) where
  comparison-looked_at :
      (addr : ℕ) (op : CompareOp) (l r : ValExpr)
      → Ignores m (looked_at rule)
      → Holds rule m (looked_at rule (comparison_expr addr op l r))
        ↔ Holds rule m (comparison_expr addr op l r)
  unfolding looked_at
  comparison-looked_at addr op l r w =
      if_either (λ z. Holds rule m z ↔ Holds rule m (comparison_expr addr op l r)) (is_looked_at op)
        _ _
        (λ t.
          compared_same rule m op (unqualified rule l) l (unqualified rule r) r
            (rw (t, looked_at) at (w (comparison_expr addr op l r)))
            (unqualified-SameOperand rule m l) (unqualified-SameOperand rule m r))
        (λ f. (λ h. h, λ h. h))

  Holds-range :
      (op : RangeOp) (a b c a' b' c' : ValExpr)
      → m.undecided (range_cond op a b c) ↔ m.undecided (range_cond op a' b' c')
      → SameOperand rule m a a'
      → SameOperand rule m b b'
      → SameOperand rule m c c'
      → Holds rule m (range_cond op a b c) ↔ Holds rule m (range_cond op a' b' c')
  Holds-range between a b c a' b' c' w p q r =
      both (between_same rule m (Rel ge) a a' b b' w p q)
        (between_same rule m (Rel le) a a' c c' w p r)
  Holds-range not_between a b c a' b' c' w p q r =
      either (between_same rule m (Rel lt) a a' b b' w p q)
        (between_same rule m (Rel gt) a a' c c' w p r)

  -- The criterion that routing leaves behind says the same.
  pub Holds-looked_at :
      (e : BoolExpr) → Ignores m (looked_at rule) → Holds rule m (looked_at rule e) ↔ Holds rule m e
  unfolding looked_at
  Holds-looked_at (and_expr l r) w = both (Holds-looked_at l w) (Holds-looked_at r w)
  Holds-looked_at (or_expr l r) w = either (Holds-looked_at l w) (Holds-looked_at r w)
  Holds-looked_at (paren_bool_expr e) w = Holds-looked_at e w
  Holds-looked_at (comparison_expr addr op l r) w = comparison-looked_at addr op l r w
  Holds-looked_at (range_cond op a b c) w =
      Holds-range op (unqualified rule a) (unqualified rule b) (unqualified rule c) a b c
        (w (range_cond op a b c)) (unqualified-SameOperand rule m a)
        (unqualified-SameOperand rule m b) (unqualified-SameOperand rule m c)
  Holds-looked_at (not_expr e) w = (λ h. h, λ h. h)
  Holds-looked_at (null_check op e) w = (λ h. h, λ h. h)
  Holds-looked_at (exists_expr s) w = (λ h. h, λ h. h)

  -- The criterion with the sub-table's name says the same.
  pub Holds-rewrite_where_qualifier :
      (table : Bytes) (i : ℤ) (e : BoolExpr)
      → Ignores m (rewrite_where_qualifier table i)
      → Holds rule m (rewrite_where_qualifier table i e) ↔ Holds rule m e
  unfolding rewrite_where_qualifier
  Holds-rewrite_where_qualifier table i (and_expr l r) w =
      both (Holds-rewrite_where_qualifier table i l w) (Holds-rewrite_where_qualifier table i r w)
  Holds-rewrite_where_qualifier table i (or_expr l r) w =
      either (Holds-rewrite_where_qualifier table i l w) (Holds-rewrite_where_qualifier table i r w)
  Holds-rewrite_where_qualifier table i (paren_bool_expr e) w =
      Holds-rewrite_where_qualifier table i e w
  Holds-rewrite_where_qualifier table i (comparison_expr addr op l r) w =
      compared_same rule m op (reset_qualifier table i l) l (reset_qualifier table i r) r
        (w (comparison_expr addr op l r)) (reset_qualifier-SameOperand rule m table i l)
        (reset_qualifier-SameOperand rule m table i r)
  Holds-rewrite_where_qualifier table i (not_expr e) w = w (not_expr e)
  Holds-rewrite_where_qualifier table i (range_cond op a b c) w = (λ h. h, λ h. h)
  Holds-rewrite_where_qualifier table i (null_check op e) w = (λ h. h, λ h. h)
  Holds-rewrite_where_qualifier table i (exists_expr s) w = (λ h. h, λ h. h)
