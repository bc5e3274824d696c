-- ===== src/Router/Rewrite.antt =====
-- The statement of one sub-table: `rewriteSelectSql`, `resetQualifier` and `rewriteWhereQualifier`
-- of proxy/router/router.go, and `rewriteWhereIn` of proxy/router/planbuilder.go. The source changes
-- the tree, prints it and restores it; here the changed tree is a value of its own.
pub mod Names
pub mod Qualified
pub mod Unchanged
pub mod Recorded
pub mod Marked
pub mod Renamed
pub mod Refines
use kingshard.Prelude.{
  ℕ, ℤ, Bytes, codes, eqb_bytes, eqb_ℤ, List, [], ◌∷◌, ◌++◌, Option, none, some, ◌==◌,
  if◌then◌else◌,
}
use kingshard.Outcome.{Result, ok, err, panic, ◌>>=◌}
use kingshard.Outcome.Panic.{index_out_of_range}
use kingshard.Strconv.Decimal.{format_04d}
use kingshard.Sqlparser.Ast.{
  BoolExpr, and_expr, or_expr, not_expr, paren_bool_expr, comparison_expr, range_cond, null_check,
  exists_expr, ValExpr, ValExprs, nil, cons, col_name, val_tuple, ColName, val_expr, SelectExpr,
  star_expr, non_star_expr, SelectExprs, no_exprs, select_exprs, TableExpr, aliased_table_expr,
  paren_table_expr, join_table_expr, TableExprs, no_tables, table_exprs, Where, no_where,
  where_clause, OrderBy, no_order, order, Limit,
}
use kingshard.Sqlparser.Format.{
  format_comments, format_val_expr, format_val_exprs, format_select_expr, format_as,
  format_table_expr, format_table_exprs, format_simple_table, format_on, format_where,
  format_order_by, format_limit,
}
use kingshard.Sqlparser.Statements.{Select}
use kingshard.Sqlparser.Limits.{rewrite_limit}
use kingshard.Router.Plan.Values.{Plan}
use kingshard.Router.Plan.Tuples.{Groups}
use kingshard.Router.Plan.Qualifiers.{text}

-- `%s_%04d`
unfoldable pub sub_table : Bytes → ℤ → Bytes
sub_table table i = table ++ (b'_' ∷ format_04d i)

-- `plan.SubTableValueGroups[tableIndex]`: nil for a table that has none.
unfoldable pub group_at : ℤ → Groups → Option (List ValExpr)
group_at i [] = none
group_at i ((j, es) ∷ gs) = if eqb_ℤ j i then some es else group_at i gs

unfoldable pub tuple_of : List ValExpr → ValExprs
tuple_of [] = nil
tuple_of (e ∷ es) = cons e (tuple_of es)

-- The right side of the comparison at an address is another one. The router remembers no comparison
-- below a NOT.
unfoldable pub replace_right : ℕ → ValExpr → BoolExpr → BoolExpr
replace_right at v (and_expr l r) = and_expr (replace_right at v l) (replace_right at v r)
replace_right at v (or_expr l r) = or_expr (replace_right at v l) (replace_right at v r)
replace_right at v (not_expr e) = not_expr e
replace_right at v (paren_bool_expr e) = paren_bool_expr (replace_right at v e)
replace_right at v (comparison_expr addr op l r) =
    comparison_expr addr op l (if addr == at then v else r)
replace_right at v (range_cond op l from to) = range_cond op l from to
replace_right at v (null_check op e) = null_check op e
replace_right at v (exists_expr s) = exists_expr s

unfoldable pub rewrite_where_in : Plan → ℤ → BoolExpr → BoolExpr
rewrite_where_in plan i e = elim plan.in_right_to_replace [
  | none ↦ e
  | some at ↦ elim (group_at i plan.sub_table_value_groups) [
    | none ↦ e
    | some es ↦ replace_right at (val_tuple (tuple_of es)) e
  ]
]

unfoldable pub reset_qualifier : Bytes → ℤ → ValExpr → ValExpr
reset_qualifier table i (col_name c) =
    if eqb_bytes (text c.qualifier) table
    then col_name (record c { qualifier = some (sub_table (text c.qualifier) i) })
    else col_name c
reset_qualifier table i e = e

unfoldable pub rewrite_where_qualifier : Bytes → ℤ → BoolExpr → BoolExpr
rewrite_where_qualifier table i (and_expr l r) =
    and_expr (rewrite_where_qualifier table i l) (rewrite_where_qualifier table i r)
rewrite_where_qualifier table i (or_expr l r) =
    or_expr (rewrite_where_qualifier table i l) (rewrite_where_qualifier table i r)
rewrite_where_qualifier table i (not_expr e) = not_expr (rewrite_where_qualifier table i e)
rewrite_where_qualifier table i (paren_bool_expr e) =
    paren_bool_expr (rewrite_where_qualifier table i e)
rewrite_where_qualifier table i (comparison_expr addr op l r) =
    comparison_expr addr op (reset_qualifier table i l) (reset_qualifier table i r)
rewrite_where_qualifier table i (range_cond op l from to) = range_cond op l from to
rewrite_where_qualifier table i (null_check op e) = null_check op e
rewrite_where_qualifier table i (exists_expr s) = exists_expr s

unfoldable pub rewrite_order : Bytes → ℤ → OrderBy → OrderBy
rewrite_order table i no_order = no_order
rewrite_order table i (order e direction os) =
    order (reset_qualifier table i e) direction (rewrite_order table i os)

-- The WHERE of one sub-table.
unfoldable pub rewrite_where : Plan → ℤ → Where → Where
rewrite_where plan i no_where = no_where
rewrite_where plan i (where_clause kind e) =
    where_clause kind (rewrite_where_qualifier plan.rule.table i (rewrite_where_in plan i e))

-- One expression of the select list, where columns of the table get the name of the sub-table.
unfoldable pub rewrite_select_expr : Bytes → ℤ → SelectExpr → Bytes
rewrite_select_expr table i (star_expr q) =
    if eqb_bytes (text q) table
    then sub_table table i ++ codes ".*"
    else format_select_expr (star_expr q)
rewrite_select_expr table i (non_star_expr (val_expr (col_name c)) alias) =
    if eqb_bytes (text c.qualifier) table
    then sub_table table i ++ (b'.' ∷ (c.name ++ format_as alias))
    else format_val_expr (col_name c) ++ format_as alias
rewrite_select_expr table i e = format_select_expr e

unfoldable pub rewrite_select_exprs : Bytes → ℤ → Bytes → SelectExprs → Bytes
rewrite_select_exprs table i prefix no_exprs = []
rewrite_select_exprs table i prefix (select_exprs e es) =
    prefix ++ (rewrite_select_expr table i e ++ rewrite_select_exprs table i (codes ", ") es)

-- The columns of GROUP BY are selected, too.
unfoldable pub group_columns : ValExprs → Bytes
group_columns nil = []
group_columns (cons e es) = b',' ∷ (format_val_expr e ++ group_columns es)

-- An alias, where there is one that is not empty.
unfoldable pub named_as : Option Bytes → Bytes
named_as none = []
named_as (some []) = []
named_as (some (c ∷ cs)) = codes " as " ++ (c ∷ cs)

-- The left side of a join, and the first table.
unfoldable pub rewrite_left : ℤ → TableExpr → Bytes
rewrite_left i (aliased_table_expr e alias hints) =
    sub_table (format_simple_table e) i ++ named_as alias
rewrite_left i e = sub_table (format_table_expr e) i

unfoldable pub rewrite_first : ℤ → TableExpr → Bytes
rewrite_first i (join_table_expr l join r on) =
    rewrite_left i l ++ (b' ' ∷ (join ++ (b' ' ∷ (format_table_expr r ++ format_on on))))
rewrite_first i e = rewrite_left i e

unfoldable pub rewrite_tables : ℤ → TableExprs → Result Bytes
rewrite_tables i no_tables = panic index_out_of_range
rewrite_tables i (table_exprs t ts) = ok (rewrite_first i t ++ format_table_exprs (codes ", ") ts)

-- A limit that cannot be rewritten stays.
unfoldable pub new_limit : Limit → Limit
new_limit l = elim (rewrite_limit l) [ ok l' ↦ l' | err why ↦ l | panic why ↦ l ]

unfoldable pub rewrite_select_sql : Plan → Select → ℤ → Result Bytes
rewrite_select_sql plan s i = do
  tables ← rewrite_tables i s.tables
  ok (
      codes "select "
      ++ (format_comments s.comments
          ++ (s.distinct
              ++ (rewrite_select_exprs plan.rule.table i [] s.exprs
                  ++ (group_columns s.group_by
                      ++ (codes " from "
                          ++ (tables
                              ++ (format_where (rewrite_where plan i s.condition)
                                  ++ (format_val_exprs (codes " group by ") s.group_by
                                      ++ (format_where s.having
                                          ++ (format_order_by (codes " order by ")
                                                (rewrite_order plan.rule.table i s.order_by)
                                              ++ (format_limit (new_limit s.bound)
                                                  ++ s.lock))))))))))))
