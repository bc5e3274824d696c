-- ===== src/Tests/Built.antt =====
-- Plans that are built for the table of a configuration.
use kingshard.Prelude.{
  ℤ, pos, ◌+ℤ◌, ◌-ℤ◌, Bytes, codes, eqb_bytes, List, [], ◌∷◌, In, All, ◌≡◌, refl, arith, none, some,
  split_on,
}
use kingshard.Outcome.{Result, ok}
use kingshard.Strconv.Decimal.{format_04d, format_uint, digits_of, zero_padded}
use kingshard.Sqlparser.Ast.{
  SelectExprs, no_exprs, select_exprs, non_star_expr, val_expr, col_name, nil, cons, num_val,
  str_val, Tuple, tuple_row, TableName, table_name, aliased_table_expr, no_tables, table_exprs,
  where_clause, no_where, no_order, limit, no_val,
}
use kingshard.Sqlparser.Keywords.{escape, has_entry, keywords}
use kingshard.Sqlparser.Format.{format_qualified, format_simple_table, format_comments}
use kingshard.Sqlparser.Statements.{
  Select, Insert, values, Truncate, select_statement, truncate_statement, format_table_name,
}
use kingshard.Router.IntList.{make_list, count_from}
use kingshard.Router.Shard.{index}
use kingshard.Router.Rule.{map_get}
use kingshard.Router.Registry.{
  get_rule, get_rule_at, find_rule, lookup, qualified, split_dots, is_default,
}
use kingshard.Router.Plan.Values.{Plan, new_plan}
use kingshard.Router.Plan.Located.Hash.{hash_table}
use kingshard.Router.Rewrite.{sub_table, rewrite_select_sql}
use kingshard.Router.Build.{
  Sqls, append_sql, generate_loop, generate, planned, generate_truncate_sql, truncate_sql,
}
use kingshard.Router.Build.Plans.{
  first_table, all_tables, has_tables, with_rule, truncate_plan, build_truncate_plan, build_plan,
}
use kingshard.Router.Build.Sends.{sqls_at, Sent, statements_for, generate-sends}
use kingshard.Router.Build.Counts.Builders.{Sends, build_plan-Sends}
use kingshard.Router.Build.Served.{routed_select, build_plan-serves_row}
use kingshard.Tests.Constants.{utc, id, five}
use kingshard.Tests.Setup.{
  december, orders, orders_rule, orders_parsed, as_put, as_put-IsRangeOrder, five-ReadableLeaf,
  five-OwnLeaf, five-Selects, is_hash, four_in_total, shop_router,
}

abbrev t : TableName
t = record { name = codes "t"; qualifier = none }

abbrev truncate_t : Truncate
truncate_t = record { comments = []; table_opt = codes " table "; table = t }

abbrev all_of_t : Plan
all_of_t = record (new_plan orders_rule) {
  route_table_indexs = pos 0 ∷ pos 1 ∷ pos 2 ∷ pos 3 ∷ [];
  route_node_indexs = pos 0 ∷ pos 1 ∷ [];
}

abbrev truncates : Sqls
truncates =
    (codes "node1", codes "truncate  table t_0000" ∷ codes "truncate  table t_0001" ∷ [])
    ∷ (codes "node2", codes "truncate  table t_0002" ∷ codes "truncate  table t_0003" ∷ [])
    ∷ []

t_found : (get_rule shop_router (codes "kingshard") (codes "t")).0 ≡ orders_rule
unfolding get_rule get_rule_at find_rule lookup qualified split_dots split_on eqb_bytes
t_found = refl

truncated :
    (build_plan utc as_put shop_router (codes "kingshard") (truncate_statement truncate_t)).0
    ≡ ok (all_of_t, truncates)
unfolding build_plan build_truncate_plan with_rule truncate_plan all_tables make_list count_from
    has_tables is_default planned generate_truncate_sql generate generate_loop append_sql
    truncate_sql sub_table format_04d format_uint digits_of zero_padded index map_get eqb_bytes
    format_table_name format_qualified escape has_entry keywords format_comments get_rule
    get_rule_at find_rule lookup qualified split_dots split_on ◌-ℤ◌ ◌+ℤ◌
truncated = refl

build_plan-Sends_example :
    Sends utc as_put as_put-IsRangeOrder shop_router.nodes
      (truncate_statement truncate_t)
      (all_of_t, truncates)
build_plan-Sends_example =
    build_plan-Sends utc as_put as_put-IsRangeOrder shop_router (codes "kingshard")
      (truncate_statement truncate_t) (all_of_t, truncates) truncated

abbrev render : ℤ → Result Bytes
render i = ok (truncate_sql truncate_t i)

each-Sent : All (Sent orders_rule.nodes orders_rule render) all_of_t.route_table_indexs
unfolding index map_get
each-Sent = (
  (codes "node1", refl, truncate_sql truncate_t (pos 0), refl),
  (
    (codes "node1", refl, truncate_sql truncate_t (pos 1), refl),
    (
      (codes "node2", refl, truncate_sql truncate_t (pos 2), refl),
      ((codes "node2", refl, truncate_sql truncate_t (pos 3), refl), tt),
    ),
  ),
)

generate-sends_example :
    (sqls : Sqls) × (generate orders_rule.nodes all_of_t [] render ≡ ok sqls)
    × ((node : Bytes)
        → sqls_at node sqls
          ≡ statements_for orders_rule.nodes orders_rule render node all_of_t.route_table_indexs)
generate-sends_example =
    generate-sends orders_rule.nodes all_of_t [] render (λ e. cc e) (λ e. cc e) each-Sent

-- select id from t where id = 5 and id in (6, 5) limit 10
abbrev select_five : Select
select_five = record {
  comments = [];
  distinct = [];
  exprs = select_exprs (non_star_expr (val_expr id) none) no_exprs;
  tables = table_exprs (aliased_table_expr (table_name t) none none) no_tables;
  condition = where_clause (codes "where") five;
  group_by = nil;
  having = no_where;
  order_by = no_order;
  bound = limit no_val (num_val (codes "10"));
  lock = [];
}

t_first : first_table select_five.tables ≡ ok (codes "t")
unfolding first_table format_simple_table format_qualified escape has_entry keywords eqb_bytes
t_first = refl

build_plan-serves_row_example :
    (plan : Plan) × (sqls : Sqls) × (node : Bytes) × (sql : Bytes) × ((build_plan utc as_put
        shop_router
        (codes "kingshard")
        (select_statement select_five)).0
      ≡ ok (plan, sqls))
    × (index orders_rule.nodes (map_get (hash_table 4 (pos 5)) orders_rule.table_to_node) ≡ ok node)
    × (rewrite_select_sql plan
          (routed_select select_five orders_rule (codes "where") five)
          (hash_table 4 (pos 5))
        ≡ ok sql)
    × In sql (sqls_at node sqls)
build_plan-serves_row_example =
    build_plan-serves_row utc december as_put orders shop_router (codes "kingshard") (codes "t")
      select_five orders_rule 3 (pos 5) (λ e. Unit {0}) (codes "where") five as_put-IsRangeOrder
      (omega arith, (omega arith, tt)) is_hash four_in_total orders_parsed refl t_first t_found refl
      five-ReadableLeaf five-OwnLeaf five-Selects

abbrev row : Bytes → Tuple
row key = tuple_row (cons (num_val key) (cons (str_val (codes "a")) nil))

abbrev two_rows : List Tuple
two_rows = row (codes "5") ∷ row (codes "7") ∷ []

abbrev id_and_name : SelectExprs
id_and_name = select_exprs (non_star_expr (val_expr id) none) (
    select_exprs
      (non_star_expr (val_expr (col_name (record { name = codes "name"; qualifier = none }))) none)
      no_exprs)

-- insert into t(id, name) values (5, 'a'), (7, 'a')
abbrev insert_two : Insert
insert_two = record {
  comments = [];
  ignore = [];
  table = t;
  columns = some id_and_name;
  rows = values two_rows;
  on_dup = none;
}
