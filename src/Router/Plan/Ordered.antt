-- ===== src/Router/Plan/Ordered.antt =====
-- Every route is a strictly rising list of table indexes, and routing leaves the rule alone.
pub mod Rules
pub mod Conditions
use kingshard.Prelude.{
  ℕ, ℤ, pos, ◌+ℤ◌, List, [], ◌∷◌, IsSorted, ◌≡◌, refl, ◌∙◌, ltb_ℤ, Bool, true, false, Bool-cases,
  inl, inr, if◌then◌else◌, some,
}
use kingshard.Outcome.{Result, ok, err, panic, ◌>>=◌}
use kingshard.Sqlparser.Ast.{
  BoolExpr, and_expr, or_expr, not_expr, paren_bool_expr, comparison_expr, range_cond, null_check,
  exists_expr, CompareOp, eq, lt, gt, le, ge, ne, nse, in_list, not_in, like, not_like, RangeOp,
  between, not_between, ValExpr,
}
use kingshard.Router.IntList.{make_list, make_between_list}
use kingshard.Router.IntList.Merge.{
  inter_list-intersection, union_list-union, different_list-difference,
}
use kingshard.Router.IntList.Slices.{
  count_from-IsSorted, make_le_list-IsSorted, make_ge_list-IsSorted,
}
use kingshard.Router.IntList.Between.{make_between_list-IsSorted}
use kingshard.Router.Shard.{LocalTime}
use kingshard.Router.Rule.{RuleType, default, hash, range, date_year, date_month, date_day, other}
use kingshard.Router.Plan.Values.{Plan, get_table_index_by_value, get_value_type}
use kingshard.Router.Plan.Tuples.{tuple_groups, get_table_indexs_by_tuple}
use kingshard.Router.Plan.Groups.{sorted_keys-IsSorted, tuple_groups-Distinct}
use kingshard.Router.Plan.Leaves.{
  keep, not_list, is_eid, adjust_shard_index, table_count, key_index_of, hash_comparison,
  tables_below, tables_above, range_comparison, range_between, dates_below, dates_above,
  date_comparison, date_between,
}
use kingshard.Router.Plan.Criteria.{
  get_table_indexs, route_comparison, route_range, get_table_index_by_bool_expr,
}
pub use kingshard.Router.Plan.Ordered.Rules.{Ordered}
use kingshard.Router.Plan.Ordered.Rules.{
  >>=-Ordered, bind-Ordered, side, then-Ordered, then-Ordered', make_list-Ordered,
}
use kingshard.Router.Plan.Ordered.Conditions.{OnKey, get_table_indexs-Ordered}

module _ (time : LocalTime) where
  -- A test that falls back on all tables.
  guarded-Ordered :
      (plan : Plan) (b : Bool) (m : Result (List ℤ × Plan))
      → IsSorted plan.rule.sub_table_indexs
      → Ordered plan m
      → Ordered plan (if b then m else keep plan plan.rule.sub_table_indexs)
  guarded-Ordered plan true m s o = o
  guarded-Ordered plan false m s o = (s, refl, refl)

  comparison-Ordered :
      (plan : Plan) (a : ℕ) (op : CompareOp) (l r : ValExpr)
      → IsSorted plan.rule.sub_table_indexs
      → IsSorted plan.route_table_indexs
      → Ordered plan (route_comparison time plan a op l r)
  unfolding route_comparison
  comparison-Ordered plan a in_list l r s t = guarded-Ordered plan _ _ s (
      get_table_indexs-Ordered time plan.rule.kind (record plan { in_right_to_replace = some a })
        (comparison_expr a in_list l r) tt s t)
  comparison-Ordered plan a not_in l r s t =
      guarded-Ordered plan _ _ s
        (get_table_indexs-Ordered time plan.rule.kind plan (comparison_expr a not_in l r) tt s t)
  comparison-Ordered plan a ne l r s t = (s, refl, refl)
  comparison-Ordered plan a like l r s t = (s, refl, refl)
  comparison-Ordered plan a not_like l r s t = (s, refl, refl)
  comparison-Ordered plan a op l r s t =
      guarded-Ordered plan _ _ s
        (get_table_indexs-Ordered time plan.rule.kind plan (comparison_expr a op l r) tt s t)

  -- From a plan whose sub-table indexes and earlier route are in strictly rising order, routing a
  -- criterion returns an index list in strictly rising order, where it returns one, and keeps the
  -- rule and the earlier route.
  pub route-Ordered :
      (e : BoolExpr) (plan : Plan)
      → IsSorted plan.rule.sub_table_indexs
      → IsSorted plan.route_table_indexs
      → Ordered plan (get_table_index_by_bool_expr time e plan)
  unfolding get_table_index_by_bool_expr
  route-Ordered (and_expr l r) plan s t =
      then-Ordered plan (get_table_index_by_bool_expr time l plan) _ (route-Ordered l plan s t)
        (λ x p sx e f.
          then-Ordered' plan p (get_table_index_by_bool_expr time r p) _ e f
            (route-Ordered r p (rw e s) (rw f t))
            (λ y q sy e' f'. ((inter_list-intersection x y sx sy).0, e', f')))
  route-Ordered (or_expr l r) plan s t =
      then-Ordered plan (get_table_index_by_bool_expr time l plan) _ (route-Ordered l plan s t)
        (λ x p sx e f.
          then-Ordered' plan p (get_table_index_by_bool_expr time r p) _ e f
            (route-Ordered r p (rw e s) (rw f t))
            (λ y q sy e' f'. ((union_list-union x y sx sy).0, e', f')))
  route-Ordered (paren_bool_expr e) plan s t = route-Ordered e plan s t
  route-Ordered (comparison_expr a op l r) plan s t = comparison-Ordered plan a op l r s t
  route-Ordered (range_cond op l f u) plan s t =
      unfold route_range in
      guarded-Ordered plan _ _ s
        (get_table_indexs-Ordered time plan.rule.kind plan (range_cond op l f u) tt s t)
  route-Ordered (not_expr e) plan s t = (s, refl, refl)
  route-Ordered (null_check o e) plan s t = (s, refl, refl)
  route-Ordered (exists_expr e) plan s t = (s, refl, refl)
