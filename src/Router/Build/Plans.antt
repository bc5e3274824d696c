-- ===== src/Router/Build/Plans.antt =====
-- `BuildPlan` of proxy/router/router.go, and the builder of each statement.
use kingshard.Prelude.{
  ℤ, pos, Bytes, List, [], ◌∷◌, Option, none, some, Bool, true, false, ◌&&◌, not, if◌then◌else◌,
  length,
}
use kingshard.Outcome.{Result, ok, err, panic, ◌>>=◌}
use kingshard.Outcome.Error.{no_criteria, select_in_insert, ir_no_columns, no_plan}
use kingshard.Outcome.Panic.{index_out_of_range, parser_error}
use kingshard.Sqlparser.Ast.{
  SelectExprs, aliased_table_expr, join_table_expr, TableExprs, no_tables, table_exprs, Where,
  no_where, where_clause, Tuple, UpdateExpr,
}
use kingshard.Sqlparser.Format.{format_simple_table, format_table_expr}
use kingshard.Sqlparser.Statements.{
  Select, Insert, Replace, Update, Delete, Truncate, InsertRows, select_rows, values, Statement,
  insert_statement, replace_statement, select_statement, update_statement, delete_statement,
  truncate_statement, other_statement, format_table_name,
}
use kingshard.Router.IntList.{make_list}
use kingshard.Router.Shard.{LocalTime}
use kingshard.Router.Rule.{Rule}
use kingshard.Router.Registry.{Router, get_rule, is_default, check_update_exprs}
use kingshard.Router.Plan.Values.{Plan, new_plan}
use kingshard.Router.Plan.Qualifiers.{looked_at}
use kingshard.Router.Plan.Routes.{
  of_bool, of_values, cal_route_indexs, check_values_type, get_ir_key_index,
}
use kingshard.Router.Build.{
  Built, planned, generate_select_sql, generate_insert_sql, generate_update_sql,
  generate_delete_sql, generate_replace_sql, generate_truncate_sql,
}

-- The table by which a SELECT is routed.
unfoldable pub first_table : TableExprs → Result Bytes
first_table no_tables = panic index_out_of_range
first_table (table_exprs (aliased_table_expr e alias hints) ts) = ok (format_simple_table e)
first_table (table_exprs (join_table_expr (aliased_table_expr e alias hints) join r on) ts) =
    ok (format_simple_table e)
first_table (table_exprs t ts) = ok (format_table_expr t)

-- All tables and all nodes of the rule.
unfoldable pub all_tables : Plan → Result Plan
all_tables plan = do
  nodes ← make_list (pos 0) (pos (length plan.rule.nodes))
  ok (record plan { route_table_indexs = plan.rule.sub_table_indexs; route_node_indexs = nodes })

abbrev pub is_empty : List ℤ → Bool
is_empty [] = true
is_empty (t ∷ ts) = false

-- A statement that is not routed anywhere is refused, but for the default rule.
unfoldable pub has_tables : Plan → Result (Unit {0})
has_tables plan =
    if not (is_default plan.rule.kind) && is_empty plan.route_table_indexs
    then err no_criteria
    else ok tt

-- The rule of a table, and what is done with it; the router keeps the database that `GetRule` sets.
unfoldable pub with_rule : Router → Bytes → Bytes → (Rule → Result Built) → Result Built × Router
with_rule r db table build = let (rule, r') = get_rule r db table in (build rule, r')

unfoldable pub check_on_dup : Rule → Option (List UpdateExpr) → Result (Unit {0})
check_on_dup rule none = ok tt
check_on_dup rule (some es) = check_update_exprs rule es

module _ (time : LocalTime) (order : List ℤ → List ℤ) where
  -- The route of a WHERE, and the WHERE that it leaves behind.
  unfoldable pub routed : Plan → Where → Result (Plan × Where)
  routed plan no_where = do plan' ← all_tables plan; ok (plan', no_where)
  routed plan (where_clause kind e) = do
    plan' ← cal_route_indexs time order plan (of_bool e)
    ok (plan', where_clause kind (if is_default plan.rule.kind then e else looked_at plan.rule e))

  unfoldable pub select_plan : List Bytes → Select → Rule → Result Built
  select_plan nodes s rule = do
    (plan, w) ← routed (new_plan rule) s.condition
    u ← has_tables plan
    let s' = record s { condition = w }
    planned plan (generate_select_sql nodes plan s')

  unfoldable pub select_named : Router → Bytes → Select → Result Bytes → Result Built × Router
  select_named r db s (ok name) = with_rule r db name (select_plan r.nodes s)
  select_named r db s (err why) = (err why, r)
  select_named r db s (panic why) = (panic why, r)

  unfoldable pub build_select_plan : Router → Bytes → Select → Result Built × Router
  unfolding select_named
  build_select_plan r db s = select_named r db s (first_table s.tables)

  unfoldable pub update_plan : List Bytes → Update → Rule → Result Built
  update_plan nodes s rule = do
    u ← check_update_exprs rule s.exprs
    (plan, w) ← routed (new_plan rule) s.condition
    u' ← has_tables plan
    let s' = record s { condition = w }
    planned plan (generate_update_sql nodes plan s')

  unfoldable pub delete_plan : List Bytes → Delete → Rule → Result Built
  delete_plan nodes s rule = do
    (plan, w) ← routed (new_plan rule) s.condition
    u ← has_tables plan
    let s' = record s { condition = w }
    planned plan (generate_delete_sql nodes plan s')

  unfoldable pub truncate_plan : List Bytes → Truncate → Rule → Result Built
  truncate_plan nodes s rule = do
    plan ← all_tables (new_plan rule)
    u ← has_tables plan
    planned plan (generate_truncate_sql nodes plan s)

  unfoldable pub insert_plan : List Bytes → Insert → SelectExprs → List Tuple → Rule → Result Built
  insert_plan nodes s columns vals rule = do
    keyed ← get_ir_key_index (new_plan rule) columns
    u ← check_on_dup rule s.on_dup
    u' ← check_values_type rule vals
    plan ← cal_route_indexs time order keyed (of_values vals)
    planned plan (generate_insert_sql nodes plan s)

  unfoldable pub insert_values :
      Router → Bytes → Insert → InsertRows → Option SelectExprs → Result Built × Router
  insert_values r db s (select_rows q) columns = (err select_in_insert, r)
  insert_values r db s (values vals) none = (err ir_no_columns, r)
  insert_values r db s (values vals) (some columns) =
      with_rule r db (format_table_name s.table) (insert_plan r.nodes s columns vals)

  unfoldable pub build_insert_plan : Router → Bytes → Insert → Result Built × Router
  unfolding insert_values
  build_insert_plan r db s = insert_values r db s s.rows s.columns

  unfoldable pub replace_plan :
      List Bytes → Replace → SelectExprs → List Tuple → Rule → Result Built
  replace_plan nodes s columns vals rule = do
    keyed ← get_ir_key_index (new_plan rule) columns
    u ← check_values_type rule vals
    plan ← cal_route_indexs time order keyed (of_values vals)
    planned plan (generate_replace_sql nodes plan s)

  unfoldable pub replace_values :
      Router → Bytes → Replace → InsertRows → Option SelectExprs → Result Built × Router
  replace_values r db s (select_rows q) columns = (panic parser_error, r)
  replace_values r db s (values vals) none = (err ir_no_columns, r)
  replace_values r db s (values vals) (some columns) =
      with_rule r db (format_table_name s.table) (replace_plan r.nodes s columns vals)

  unfoldable pub build_replace_plan : Router → Bytes → Replace → Result Built × Router
  unfolding replace_values
  build_replace_plan r db s = replace_values r db s s.rows s.columns

  unfoldable pub build_update_plan : Router → Bytes → Update → Result Built × Router
  build_update_plan r db s = with_rule r db (format_table_name s.table) (update_plan r.nodes s)

  unfoldable pub build_delete_plan : Router → Bytes → Delete → Result Built × Router
  build_delete_plan r db s = with_rule r db (format_table_name s.table) (delete_plan r.nodes s)

  unfoldable pub build_truncate_plan : Router → Bytes → Truncate → Result Built × Router
  build_truncate_plan r db s = with_rule r db (format_table_name s.table) (truncate_plan r.nodes s)

  -- `BuildPlan`
  unfoldable pub build_plan : Router → Bytes → Statement → Result Built × Router
  build_plan r db (insert_statement s) = build_insert_plan r db s
  build_plan r db (replace_statement s) = build_replace_plan r db s
  build_plan r db (select_statement s) = build_select_plan r db s
  build_plan r db (update_statement s) = build_update_plan r db s
  build_plan r db (delete_statement s) = build_delete_plan r db s
  build_plan r db (truncate_statement s) = build_truncate_plan r db s
  build_plan r db other_statement = (err no_plan, r)
