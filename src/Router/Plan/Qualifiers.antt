-- ===== src/Router/Plan/Qualifiers.antt =====
-- What `getValueType` of proxy/router/planbuilder.go does to the tree besides returning a type: a
-- column that is qualified by the sharded table loses its qualifier.
use kingshard.Prelude.{Bytes, eqb_bytes, [], Option, none, some, Bool, true, false, if◌then◌else◌}
use kingshard.Sqlparser.Ast.{
  BoolExpr, and_expr, or_expr, not_expr, paren_bool_expr, comparison_expr, range_cond, null_check,
  exists_expr, CompareOp, ne, like, not_like, ValExpr, ValExprs, col_name, val_tuple, nil, cons,
}
use kingshard.Router.Rule.{Rule}
use kingshard.Router.Plan.Values.{get_value_type, is_value}

-- `string(qualifier)`
abbrev pub text : Option Bytes → Bytes
text none = []
text (some q) = q

-- A tuple is read up to its first element that is no literal.
unfoldable mutual
  pub unqualified : Rule → ValExpr → ValExpr
  unqualified rule (col_name c) =
      if eqb_bytes (text c.qualifier) rule.table
      then col_name (record c { qualifier = none })
      else col_name c
  unqualified rule (val_tuple es) = val_tuple (unqualified_tuple rule es)
  unqualified rule e = e

  pub unqualified_tuple : Rule → ValExprs → ValExprs
  unqualified_tuple rule nil = nil
  unqualified_tuple rule (cons e es) =
      let rest = unqualified_tuple rule es in
      if is_value (get_value_type rule e) then cons e rest else cons (unqualified rule e) es

-- The operators at which `getTableIndexByBoolExpr` looks at the two sides.
unfoldable pub is_looked_at : CompareOp → Bool
is_looked_at ne = false
is_looked_at like = false
is_looked_at not_like = false
is_looked_at _ = true

-- The criterion that `getTableIndexByBoolExpr` leaves behind.
unfoldable pub looked_at : Rule → BoolExpr → BoolExpr
looked_at rule (and_expr l r) = and_expr (looked_at rule l) (looked_at rule r)
looked_at rule (or_expr l r) = or_expr (looked_at rule l) (looked_at rule r)
looked_at rule (paren_bool_expr e) = paren_bool_expr (looked_at rule e)
looked_at rule (comparison_expr addr op l r) =
    if is_looked_at op
    then comparison_expr addr op (unqualified rule l) (unqualified rule r)
    else comparison_expr addr op l r
looked_at rule (range_cond op l from to) =
    range_cond op (unqualified rule l) (unqualified rule from) (unqualified rule to)
looked_at rule (not_expr e) = not_expr e
looked_at rule (null_check op e) = null_check op e
looked_at rule (exists_expr s) = exists_expr s
