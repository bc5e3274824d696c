-- ===== src/Router/Build.antt =====
-- What the plan builders of proxy/router/router.go send to each node: generateSelectSql,
-- generateInsertSql, generateUpdateSql, generateDeleteSql, generateReplaceSql and
-- generateTruncateSql.
pub mod Plans
pub mod Sends
pub mod Counts
pub mod Delivers
pub mod Served
pub mod Inserted
use kingshard.Prelude.{
  ℕ, ℤ, pos, Bytes, codes, eqb_bytes, List, [], ◌∷◌, ◌++◌, map, Option, none, some, Bool, true,
  false, ◌&&◌, not, if◌then◌else◌, length,
}
use kingshard.Outcome.{Result, ok, err, panic, ◌>>=◌}
use kingshard.Outcome.Error.{no_route_node, no_criteria, select_in_insert, ir_no_columns, no_plan}
use kingshard.Outcome.Panic.{index_out_of_range, parser_error}
use kingshard.Strconv.Decimal.{format_04d}
use kingshard.Sqlparser.Ast.{
  BoolExpr, SelectExprs, TableName, TableExpr, aliased_table_expr, paren_table_expr,
  join_table_expr, TableExprs, no_tables, table_exprs, Where, no_where, where_clause, Tuple,
  tuple_row, UpdateExpr,
}
use kingshard.Sqlparser.Format.{
  format_comments, format_simple_table, format_table_expr, format_select,
}
use kingshard.Sqlparser.Statements.{
  Select, Insert, Replace, Update, Delete, Truncate, InsertRows, select_rows, values, Statement,
  insert_statement, replace_statement, select_statement, update_statement, delete_statement,
  truncate_statement, other_statement, select_node, format_table_name, format_columns,
  format_values, format_update_exprs, format_on_dup, format_insert, format_replace, format_update,
  format_delete, format_truncate, format_clauses,
}
use kingshard.Router.IntList.{make_list}
use kingshard.Router.Shard.{LocalTime, index}
use kingshard.Router.Rule.{Rule, map_get}
use kingshard.Router.Registry.{Router, get_rule, is_default, check_update_exprs}
use kingshard.Router.Plan.Values.{Plan, new_plan}
use kingshard.Router.Plan.Qualifiers.{looked_at}
use kingshard.Router.Plan.Routes.{
  of_bool, of_values, cal_route_indexs, check_values_type, get_ir_key_index,
}
use kingshard.Router.Plan.Routes.Inserts.{rows_at}
use kingshard.Router.Rewrite.{sub_table, rewrite_select_sql}

-- `plan.RewrittenSqls`: the statements of every node, in the order in which they are appended.
abbrev pub Sqls : Type 0
Sqls = List (Bytes × List Bytes)

unfoldable pub append_sql : Bytes → Bytes → Sqls → Sqls
append_sql node sql [] = (node, sql ∷ []) ∷ []
append_sql node sql ((n, ss) ∷ sqls) =
    if eqb_bytes n node then (n, ss ++ (sql ∷ [])) ∷ sqls else (n, ss) ∷ append_sql node sql sqls

-- The loop over the tables of the route, with the statement of one table as a parameter.
unfoldable pub generate_loop : List Bytes → Rule → (ℤ → Result Bytes) → List ℤ → Sqls → Result Sqls
generate_loop nodes rule render [] sqls = ok sqls
generate_loop nodes rule render (t ∷ ts) sqls = do
  node ← index nodes (map_get t rule.table_to_node)
  sql ← render t
  generate_loop nodes rule render ts (append_sql node sql sqls)

-- A plan without tables sends the whole statement to the first node of the router.
unfoldable pub send_whole : List Bytes → Bytes → Result Sqls
send_whole nodes whole = do node ← index nodes (pos 0); ok ((node, whole ∷ []) ∷ [])

-- What the six functions generateSelectSql, ..., generateTruncateSql have in common.
unfoldable pub generate : List Bytes → Plan → Bytes → (ℤ → Result Bytes) → Result Sqls
generate nodes plan whole render = elim plan.route_node_indexs [
  | [] ↦ err no_route_node
  | n ∷ ns ↦ elim plan.route_table_indexs [
    | [] ↦ send_whole nodes whole
    | t ∷ ts ↦ generate_loop nodes plan.rule render (t ∷ ts) []
  ]
]

-- A plan, with the statements that it sends.
abbrev pub Built : Type 0
Built = Plan × Sqls

unfoldable pub planned : Plan → Result Sqls → Result Built
planned plan sqls = sqls >>= λ m. ok (plan, m)

-- The statements of one table.
unfoldable pub insert_sql : Plan → Insert → ℤ → Bytes
insert_sql plan s i =
    codes "insert "
    ++ (format_comments s.comments
        ++ (s.ignore
            ++ (codes " into "
                ++ (sub_table (format_table_name s.table) i
                    ++ (format_columns s.columns
                        ++ (b' '
                            ∷ (format_values (codes "values ") (map tuple_row (rows_at i plan.rows))
                                ++ format_on_dup s.on_dup)))))))

unfoldable pub replace_sql : Plan → Replace → ℤ → Bytes
replace_sql plan s i =
    codes "replace "
    ++ (format_comments s.comments
        ++ (codes "into "
            ++ (sub_table (format_table_name s.table) i
                ++ (format_columns s.columns
                    ++ (b' '
                        ∷ format_values (codes "values ") (map tuple_row (rows_at i plan.rows)))))))

unfoldable pub update_sql : Update → ℤ → Bytes
update_sql s i =
    codes "update "
    ++ (format_comments s.comments
        ++ (sub_table (format_table_name s.table) i
            ++ (codes " set "
                ++ (format_update_exprs [] s.exprs
                    ++ format_clauses s.condition s.order_by s.bound))))

unfoldable pub delete_sql : Delete → ℤ → Bytes
delete_sql s i =
    codes "delete "
    ++ (format_comments s.comments
        ++ (codes "from "
            ++ (sub_table (format_table_name s.table) i
                ++ format_clauses s.condition s.order_by s.bound)))

unfoldable pub truncate_sql : Truncate → ℤ → Bytes
truncate_sql s i =
    codes "truncate "
    ++ (format_comments s.comments ++ (s.table_opt ++ sub_table (format_table_name s.table) i))

unfoldable pub generate_select_sql : List Bytes → Plan → Select → Result Sqls
generate_select_sql nodes plan s =
    generate nodes plan (format_select (select_node s)) (rewrite_select_sql plan s)

unfoldable pub generate_insert_sql : List Bytes → Plan → Insert → Result Sqls
generate_insert_sql nodes plan s =
    generate nodes plan (format_insert s) (λ i. ok (insert_sql plan s i))

unfoldable pub generate_update_sql : List Bytes → Plan → Update → Result Sqls
generate_update_sql nodes plan s = generate nodes plan (format_update s) (λ i. ok (update_sql s i))

unfoldable pub generate_delete_sql : List Bytes → Plan → Delete → Result Sqls
generate_delete_sql nodes plan s = generate nodes plan (format_delete s) (λ i. ok (delete_sql s i))

unfoldable pub generate_replace_sql : List Bytes → Plan → Replace → Result Sqls
generate_replace_sql nodes plan s =
    generate nodes plan (format_replace s) (λ i. ok (replace_sql plan s i))

unfoldable pub generate_truncate_sql : List Bytes → Plan → Truncate → Result Sqls
generate_truncate_sql nodes plan s =
    generate nodes plan (format_truncate s) (λ i. ok (truncate_sql s i))
