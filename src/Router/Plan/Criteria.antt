-- ===== src/Router/Plan/Criteria.antt =====
-- From a boolean criterion to the sub-tables it selects: `getTableIndexs` and
-- `getTableIndexByBoolExpr` of proxy/router/planbuilder.go.
use kingshard.Prelude.{ℕ, ℤ, List, ◌&&◌, ◌||◌, if◌then◌else◌, Option, some}
use kingshard.Outcome.{Result, ◌>>=◌}
use kingshard.Sqlparser.Ast.{
  BoolExpr, and_expr, or_expr, not_expr, paren_bool_expr, comparison_expr, range_cond, null_check,
  exists_expr, CompareOp, eq, lt, gt, le, ge, ne, nse, in_list, not_in, like, not_like, RangeOp,
  ValExpr,
}
use kingshard.Router.IntList.{inter_list, union_list}
use kingshard.Router.Shard.{LocalTime}
use kingshard.Router.Rule.{RuleType, default, hash, range, date_year, date_month, date_day, other}
use kingshard.Router.Plan.Values.{Plan, get_value_type}
use kingshard.Router.Plan.Leaves.{
  is_eid, is_list, is_literal, keep, get_hash_shard_table_index, get_range_shard_table_index,
  get_date_shard_table_index,
}

module _ (time : LocalTime) where
  -- The switch of `getTableIndexs` over the type of the rule.
  unfoldable pub get_table_indexs : RuleType → Plan → BoolExpr → Result (List ℤ × Plan)
  unfolding get_hash_shard_table_index get_range_shard_table_index get_date_shard_table_index
  get_table_indexs hash plan e = get_hash_shard_table_index time plan e
  get_table_indexs range plan e = get_range_shard_table_index time plan e
  get_table_indexs date_year plan e = get_date_shard_table_index time plan e
  get_table_indexs date_month plan e = get_date_shard_table_index time plan e
  get_table_indexs date_day plan e = get_date_shard_table_index time plan e
  get_table_indexs default plan e = keep plan plan.rule.sub_table_indexs
  get_table_indexs (other s) plan e = keep plan plan.rule.sub_table_indexs

  -- A comparison by an order or an equation: the key against a literal, on either side.
  unfoldable pub route_compared : Plan → ℕ → CompareOp → ValExpr → ValExpr → Result (List ℤ × Plan)
  route_compared plan addr op l r =
      let left = get_value_type plan.rule l in
      let right = get_value_type plan.rule r in
      if (is_eid left && is_literal right) || (is_literal left && is_eid right)
      then get_table_indexs plan.rule.kind plan (comparison_expr addr op l r)
      else keep plan plan.rule.sub_table_indexs

  unfoldable pub route_listed :
      Plan → Option ℕ → ℕ → CompareOp → ValExpr → ValExpr → Result (List ℤ × Plan)
  route_listed plan replaced addr op l r =
      if is_eid (get_value_type plan.rule l) && is_list (get_value_type plan.rule r)
      then get_table_indexs plan.rule.kind (record plan { in_right_to_replace = replaced })
          (comparison_expr addr op l r)
      else keep plan plan.rule.sub_table_indexs

  unfoldable pub route_comparison :
      Plan → ℕ → CompareOp → ValExpr → ValExpr → Result (List ℤ × Plan)
  unfolding route_compared route_listed
  route_comparison plan addr eq l r = route_compared plan addr eq l r
  route_comparison plan addr lt l r = route_compared plan addr lt l r
  route_comparison plan addr gt l r = route_compared plan addr gt l r
  route_comparison plan addr le l r = route_compared plan addr le l r
  route_comparison plan addr ge l r = route_compared plan addr ge l r
  route_comparison plan addr nse l r = route_compared plan addr nse l r
  route_comparison plan addr in_list l r = route_listed plan (some addr) addr in_list l r
  route_comparison plan addr not_in l r = route_listed plan plan.in_right_to_replace addr not_in l r
  route_comparison plan addr ne l r = keep plan plan.rule.sub_table_indexs
  route_comparison plan addr like l r = keep plan plan.rule.sub_table_indexs
  route_comparison plan addr not_like l r = keep plan plan.rule.sub_table_indexs

  unfoldable pub route_range : Plan → RangeOp → ValExpr → ValExpr → ValExpr → Result (List ℤ × Plan)
  route_range plan op left from to =
      if is_eid (get_value_type plan.rule left)
        && (is_literal (get_value_type plan.rule from) && is_literal (get_value_type plan.rule to))
      then get_table_indexs plan.rule.kind plan (range_cond op left from to)
      else keep plan plan.rule.sub_table_indexs

  unfoldable pub get_table_index_by_bool_expr : BoolExpr → Plan → Result (List ℤ × Plan)
  get_table_index_by_bool_expr (and_expr l r) plan = do
    (left, plan1) ← get_table_index_by_bool_expr l plan
    (right, plan2) ← get_table_index_by_bool_expr r plan1
    keep plan2 (inter_list left right)
  get_table_index_by_bool_expr (or_expr l r) plan = do
    (left, plan1) ← get_table_index_by_bool_expr l plan
    (right, plan2) ← get_table_index_by_bool_expr r plan1
    keep plan2 (union_list left right)
  get_table_index_by_bool_expr (paren_bool_expr e) plan = get_table_index_by_bool_expr e plan
  get_table_index_by_bool_expr (comparison_expr addr op l r) plan =
      route_comparison plan addr op l r
  get_table_index_by_bool_expr (range_cond op left from to) plan = route_range plan op left from to
  get_table_index_by_bool_expr (not_expr e) plan = keep plan plan.rule.sub_table_indexs
  get_table_index_by_bool_expr (null_check op e) plan = keep plan plan.rule.sub_table_indexs
  get_table_index_by_bool_expr (exists_expr s) plan = keep plan plan.rule.sub_table_indexs
