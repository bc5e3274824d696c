-- ===== src/Router/Rewrite/Renamed.antt =====
-- The names of tables in the criterion of a sub-table: whatever was named by the table is named by
-- the sub-table, or by nothing, and every other name is left alone.
use kingshard.Prelude.{
  ℕ, ℤ, Bytes, eqb_bytes, eqb_bytes→eq, eqb_bytes_refl, [], ◌≡◌, refl, ap, ◌∙◌, Bool-cases, true,
  false, if◌then◌else◌, if_either, none, inl, inr,
}
use kingshard.Sqlparser.Ast.{
  BoolExpr, and_expr, or_expr, not_expr, paren_bool_expr, comparison_expr, range_cond, null_check,
  exists_expr, CompareOp, ColName, ValExpr, ValExprs, col_name, val_tuple, nil, cons,
}
use kingshard.Router.Rule.{Rule}
use kingshard.Router.Plan.Values.{all_values}
use kingshard.Router.Plan.Located.Keys.{first_value, other_values}
use kingshard.Router.Plan.Qualifiers.{text, unqualified, unqualified_tuple, is_looked_at, looked_at}
use kingshard.Router.Rewrite.{sub_table, reset_qualifier, rewrite_where_qualifier}

-- A column without a name that stands for the table at hand.
abbrev pub unnamed : Bytes → ValExpr → ValExpr
unnamed name (col_name c) =
    if eqb_bytes (text c.qualifier) name
    then col_name (record c { qualifier = none })
    else col_name c
unnamed name e = e

-- A criterion without that name at the operands of its comparisons and ranges.
abbrev pub without_name : Bytes → BoolExpr → BoolExpr
without_name name (and_expr l r) = and_expr (without_name name l) (without_name name r)
without_name name (or_expr l r) = or_expr (without_name name l) (without_name name r)
without_name name (paren_bool_expr e) = paren_bool_expr (without_name name e)
without_name name (comparison_expr a op l r) =
    comparison_expr a op (unnamed name l) (unnamed name r)
without_name name (range_cond op e f t) =
    range_cond op (unnamed name e) (unnamed name f) (unnamed name t)
without_name name e = e

module _ (rule : Rule) (i : ℤ) where
  -- No column has the name of the sub-table yet, and lists hold literals.
  abbrev pub IsPlain : ValExpr → Type 0
  IsPlain (col_name c) = eqb_bytes (text c.qualifier) (sub_table rule.table i) ≡ false
  IsPlain (val_tuple es) = all_values rule es ≡ true
  IsPlain e = Unit {0}

  abbrev pub AllPlain : BoolExpr → Type 0
  AllPlain (and_expr l r) = AllPlain l × AllPlain r
  AllPlain (or_expr l r) = AllPlain l × AllPlain r
  AllPlain (paren_bool_expr e) = AllPlain e
  AllPlain (comparison_expr a op l r) = IsPlain l × IsPlain r
  AllPlain (range_cond op e f t) = IsPlain e × IsPlain f × IsPlain t
  AllPlain (not_expr e) = ⊥
  AllPlain _ = Unit {0}

  literals_stay : (es : ValExprs) → all_values rule es ≡ true → unqualified_tuple rule es ≡ es
  unfolding unqualified_tuple all_values
  literals_stay nil v = refl
  literals_stay (cons e es) v =
      rw (first_value _ _ v) (ap (λ l. cons e l) (literals_stay es (other_values _ _ v)))

  name_free :
      (name : Bytes) (c : ColName)
      → unnamed name (col_name (record c { qualifier = none }))
        ≡ col_name (record c { qualifier = none })
  name_free name c =
      if_either (λ (z : ValExpr). z ≡ col_name (record c { qualifier = none })) (eqb_bytes [] name)
        _ _ (λ t. refl) (λ f. refl)

  -- An operand that routing has looked at.
  looked_at-unnamed :
      (e : ValExpr)
      → IsPlain e
      → unnamed (sub_table rule.table i) (unqualified rule e) ≡ unnamed rule.table e
  unfolding unqualified
  looked_at-unnamed (col_name c) p = elim (Bool-cases (eqb_bytes (text c.qualifier) rule.table)) [
    | inl t ↦ rw t (name_free (sub_table rule.table i) c)
    | inr f ↦ rw f (rw p refl)
  ]
  looked_at-unnamed (val_tuple es) p = ap val_tuple (literals_stay es p)
  looked_at-unnamed _ p = refl

  -- An operand that gets the name of the sub-table.
  reset-unnamed :
      (e : ValExpr)
      → IsPlain e
      → unnamed (sub_table rule.table i) (reset_qualifier rule.table i e) ≡ unnamed rule.table e
  unfolding reset_qualifier
  reset-unnamed (col_name c) p = elim (Bool-cases (eqb_bytes (text c.qualifier) rule.table)) [
    | inl t ↦ rw t (
        rw (eqb_bytes→eq (text c.qualifier) rule.table t)
          (rw (eqb_bytes_refl (sub_table rule.table i)) refl))
    | inr f ↦ rw f (rw p refl)
  ]
  reset-unnamed _ p = refl

  -- An operand that routing has looked at, and then gets the name.
  both-unnamed :
      (e : ValExpr)
      → eqb_bytes [] rule.table ≡ false
      → IsPlain e
      → unnamed (sub_table rule.table i) (reset_qualifier rule.table i (unqualified rule e))
        ≡ unnamed rule.table e
  unfolding unqualified reset_qualifier
  both-unnamed (col_name c) named p = elim (Bool-cases (eqb_bytes (text c.qualifier) rule.table)) [
    | inl t ↦ rw t (rw named (name_free (sub_table rule.table i) c))
    | inr f ↦ rw f (rw f (rw p refl))
  ]
  both-unnamed (val_tuple es) named p = ap val_tuple (literals_stay es p)
  both-unnamed _ named p = refl

  comparison-renamed :
      (a : ℕ) (op : CompareOp) (l r : ValExpr)
      → eqb_bytes [] rule.table ≡ false
      → IsPlain l
      → IsPlain r
      → without_name
          (sub_table rule.table i)
          (rewrite_where_qualifier rule.table i (looked_at rule (comparison_expr a op l r)))
        ≡ without_name rule.table (comparison_expr a op l r)
  unfolding looked_at rewrite_where_qualifier
  comparison-renamed a op l r named p q =
      if_either
        (λ (z : BoolExpr).
          without_name (sub_table rule.table i) (rewrite_where_qualifier rule.table i z)
          ≡ without_name rule.table (comparison_expr a op l r))
        (is_looked_at op) (comparison_expr a op (unqualified rule l) (unqualified rule r))
        (comparison_expr a op l r)
        (λ t.
          ap
            (λ x. comparison_expr a op x (
              unnamed (sub_table rule.table i) (reset_qualifier rule.table i (unqualified rule r))))
            (both-unnamed l named p)
          ∙ ap (λ x. comparison_expr a op (unnamed rule.table l) x) (both-unnamed r named q))
        (λ f.
          ap
            (λ x.
              comparison_expr a op x
                (unnamed (sub_table rule.table i) (reset_qualifier rule.table i r)))
            (reset-unnamed l p)
          ∙ ap (λ x. comparison_expr a op (unnamed rule.table l) x) (reset-unnamed r q))

  pub looked_at-renamed :
      (e : BoolExpr)
      → eqb_bytes [] rule.table ≡ false
      → AllPlain e
      → without_name
          (sub_table rule.table i)
          (rewrite_where_qualifier rule.table i (looked_at rule e))
        ≡ without_name rule.table e
  unfolding looked_at rewrite_where_qualifier
  looked_at-renamed (and_expr l r) named h =
      ap
        (λ x. and_expr x (
          without_name (sub_table rule.table i)
            (rewrite_where_qualifier rule.table i (looked_at rule r))))
        (looked_at-renamed l named h.0)
      ∙ ap (λ x. and_expr (without_name rule.table l) x) (looked_at-renamed r named h.1)
  looked_at-renamed (or_expr l r) named h =
      ap
        (λ x. or_expr x (
          without_name (sub_table rule.table i)
            (rewrite_where_qualifier rule.table i (looked_at rule r))))
        (looked_at-renamed l named h.0)
      ∙ ap (λ x. or_expr (without_name rule.table l) x) (looked_at-renamed r named h.1)
  looked_at-renamed (paren_bool_expr e) named h = ap paren_bool_expr (looked_at-renamed e named h)
  looked_at-renamed (comparison_expr a op l r) named h = comparison-renamed a op l r named h.0 h.1
  looked_at-renamed (range_cond op e f t) named (p, q, s) =
      ap
        (λ x.
          range_cond op x (unnamed (sub_table rule.table i) (unqualified rule f))
            (unnamed (sub_table rule.table i) (unqualified rule t)))
        (looked_at-unnamed e p)
      ∙ ap
          (λ x.
            range_cond op (unnamed rule.table e) x
              (unnamed (sub_table rule.table i) (unqualified rule t)))
          (looked_at-unnamed f q)
      ∙ ap (λ x. range_cond op (unnamed rule.table e) (unnamed rule.table f) x)
          (looked_at-unnamed t s)
  looked_at-renamed (not_expr e) named h = absurd h
  looked_at-renamed (null_check op e) named h = refl
  looked_at-renamed (exists_expr q) named h = refl
