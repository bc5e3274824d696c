-- ===== src/Router/Rewrite/Marked.antt =====
-- Where the IN list that a plan remembers stands in the criterion, before routing and after it.
use kingshard.Prelude.{
  ℕ, ◌≡◌, refl, sym, ap, ◌∙◌, subst, Bool, true, ◌&&◌, some, if_either, arith, eqb_bytes,
}
use kingshard.Sqlparser.Ast.{
  BoolExpr, and_expr, or_expr, not_expr, paren_bool_expr, comparison_expr, range_cond, null_check,
  exists_expr, CompareOp, ValExpr, ValExprs, val_tuple, col_name, nil, cons,
}
use kingshard.Router.Shard.{LocalTime}
use kingshard.Router.Rule.{Rule}
use kingshard.Router.Plan.Values.{is_value, get_value_type, all_values}
use kingshard.Router.Plan.Qualifiers.{text, unqualified, unqualified_tuple, is_looked_at, looked_at}
use kingshard.Router.Plan.Tuples.{Groups}
use kingshard.Router.Plan.Leaves.{is_eid, is_list}
use kingshard.Router.Plan.Finds.{EachLeaf}
use kingshard.Router.Plan.Located.Keys.{other_values, list-IsTuple, tuple_values}
use kingshard.Router.Rewrite.Recorded.{Store, IsStored, Grouped, RecordedAt}

first_true : (a b : Bool) → (a && b) ≡ true → a ≡ true
first_true a b h = ground arith

-- A comparison at the address that the plan remembers is the IN list that was grouped.
abbrev pub IsMarked : LocalTime → Rule → Groups → ℕ → BoolExpr → Type 0
IsMarked time rule gs at (comparison_expr a op l r) = a ≡ at → Grouped time rule op l r gs
IsMarked time rule gs at _ = Unit {0}

module _ (time : LocalTime) (rule : Rule) (gs : Groups) (at : ℕ) where
  pub stored-IsMarked :
      (store : Store) (e : BoolExpr)
      → EachLeaf (IsStored store) e
      → RecordedAt time store rule gs (some at)
      → EachLeaf (IsMarked time rule gs at) e
  stored-IsMarked store (and_expr l r) h g =
      (stored-IsMarked store l h.0 g, stored-IsMarked store r h.1 g)
  stored-IsMarked store (or_expr l r) h g =
      (stored-IsMarked store l h.0 g, stored-IsMarked store r h.1 g)
  stored-IsMarked store (paren_bool_expr e) h g = stored-IsMarked store e h g
  stored-IsMarked store (comparison_expr a op l r) h g = λ same.
      subst (λ (z : CompareOp × ValExpr × ValExpr). Grouped time rule z.0 z.1 z.2 gs)
        (sym (ap store same) ∙ h) g
  stored-IsMarked store (range_cond op e f u) h g = tt
  stored-IsMarked store (not_expr e) h g = tt
  stored-IsMarked store (null_check op e) h g = tt
  stored-IsMarked store (exists_expr s) h g = tt

  eid-unqualified :
      (e : ValExpr)
      → is_eid (get_value_type rule e) ≡ true
      → is_eid (get_value_type rule (unqualified rule e)) ≡ true
  unfolding unqualified get_value_type
  eid-unqualified (col_name c) h =
      if_either (λ (z : ValExpr). is_eid (get_value_type rule z) ≡ true)
        (eqb_bytes (text c.qualifier) rule.table) _ _ (λ t. h) (λ f. h)
  eid-unqualified (val_tuple es) h = ground arith
  eid-unqualified _ h = h

  literals-unqualified :
      (es : ValExprs) → all_values rule es ≡ true → unqualified_tuple rule es ≡ es
  unfolding unqualified_tuple all_values
  literals-unqualified nil h = refl
  literals-unqualified (cons e es) h =
      rw (first_true (is_value (get_value_type rule e)) (all_values rule es) h)
        (ap (cons e) (literals-unqualified es (other_values _ _ h)))

  tuple-unqualified :
      (e : ValExpr) → is_list (get_value_type rule e) ≡ true → unqualified rule e ≡ e
  unfolding unqualified
  tuple-unqualified (val_tuple es) h =
      ap val_tuple (literals-unqualified es (tuple_values rule es h))
  tuple-unqualified (col_name c) h = absurd (list-IsTuple rule (col_name c) h)
  tuple-unqualified _ h = refl

  Grouped-unqualified :
      (op : CompareOp) (l r : ValExpr)
      → Grouped time rule op l r gs
      → Grouped time rule op (unqualified rule l) (unqualified rule r) gs
  Grouped-unqualified op l r (o, (k, v), t) =
      subst (λ (z : ValExpr). Grouped time rule op (unqualified rule l) z gs)
        (sym (tuple-unqualified r v)) (o, (eid-unqualified l k, v), t)

  pub looked_at-IsMarked :
      (e : BoolExpr)
      → EachLeaf (IsMarked time rule gs at) e
      → EachLeaf (IsMarked time rule gs at) (looked_at rule e)
  unfolding looked_at
  looked_at-IsMarked (and_expr l r) h = (looked_at-IsMarked l h.0, looked_at-IsMarked r h.1)
  looked_at-IsMarked (or_expr l r) h = (looked_at-IsMarked l h.0, looked_at-IsMarked r h.1)
  looked_at-IsMarked (paren_bool_expr e) h = looked_at-IsMarked e h
  looked_at-IsMarked (comparison_expr a op l r) h =
      if_either (EachLeaf (IsMarked time rule gs at)) (is_looked_at op) _ _
        (λ t same. Grouped-unqualified op l r (h same)) (λ f. h)
  looked_at-IsMarked (range_cond op e f u) h = tt
  looked_at-IsMarked (not_expr e) h = tt
  looked_at-IsMarked (null_check op e) h = tt
  looked_at-IsMarked (exists_expr s) h = tt
