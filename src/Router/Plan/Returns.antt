-- ===== src/Router/Plan/Returns.antt =====
-- Routing on a hash rule returns: a criterion whose literals can be read is never an error or a
-- panic.
pub mod Literals
use kingshard.Prelude.{
  ℕ, suc, to_u64, ◌%◌, ℤ, pos, List, [], ◌∷◌, ◌≡◌, refl, sym, subst, ap, ◌∙◌, inl, inr, arith, ◌==◌,
  Bool, Bool-cases, true, false, ◌&&◌, ◌||◌, if◌then◌else◌, some, Option-cases,
}
use kingshard.Outcome.{Result, ok, ◌>>=◌}
use kingshard.Strconv.{parse_int, parse_uint, checksum_ieee}
use kingshard.Sqlparser.Ast.{
  BoolExpr, and_expr, or_expr, not_expr, paren_bool_expr, comparison_expr, range_cond, null_check,
  exists_expr, CompareOp, eq, lt, gt, le, ge, ne, nse, in_list, not_in, like, not_like, ValExpr,
  ValExprs, str_val, num_val, val_arg, null_val, col_name, val_tuple, subquery, binary_expr,
  unary_expr, func_expr, case_expr, nil, cons,
}
use kingshard.Router.IntList.{inter_list, union_list}
use kingshard.Router.Shard.{LocalTime, Key, string, int64, hash_shard, find_for_key, hash_value}
use kingshard.Router.Rule.{Rule, RuleType, hash, find_table_index}
use kingshard.Router.Plan.Values.{
  Plan, NodeType, eid_node, value_node, list_node, other_node, get_value_type, all_values,
  get_bound_value, get_table_index_by_value,
}
use kingshard.Router.Plan.Tuples.{
  Groups, sorted_keys, add_value, group_values, tuple_groups, get_table_indexs_by_tuple,
}
use kingshard.Router.Plan.Leaves.{
  keep, is_eid, is_list, is_literal, key_index_of, hash_comparison, get_hash_shard_table_index,
}
use kingshard.Router.Plan.Criteria.{
  get_table_indexs, route_compared, route_listed, route_comparison, route_range,
  get_table_index_by_bool_expr,
}
use kingshard.Router.Plan.Finds.{EachLeaf}
use kingshard.Router.Plan.Located.Keys.{
  no_column, no_tuple, tuple_values, first_value, other_values, list-IsTuple,
}
pub use kingshard.Router.Plan.Returns.Literals.{Returns, Readable, AllReadable, ReadableLeaf}
use kingshard.Router.Plan.Returns.Literals.{
  BesideKey, ReadableList, list_beside, first_true, second_true, key_index_returns, tuple-Returns,
  keeps, guarded,
}

module _ (time : LocalTime) (n : ℕ) (plan : Plan) (sh : plan.rule.shard ≡ hash_shard (suc n))
    (kind : plan.rule.kind ≡ hash) where
  -- The switch of a hash rule.
  switched :
      (e : BoolExpr)
      → Returns plan (get_hash_shard_table_index time plan e)
      → Returns plan (get_table_indexs time plan.rule.kind plan e)
  unfolding get_table_indexs
  switched e h =
      subst (λ (k : RuleType). Returns plan (get_table_indexs time k plan e)) (sym kind) h

  equal-Returns :
      (l r : ValExpr)
      → ((is_eid (get_value_type plan.rule l) && is_literal (get_value_type plan.rule r))
          || (is_literal (get_value_type plan.rule l) && is_eid (get_value_type plan.rule r)))
        ≡ true
      → BesideKey (get_value_type plan.rule l) r
      → BesideKey (get_value_type plan.rule r) l
      → Returns plan (key_index_of time plan l r >>= λ i. keep plan (i ∷ []))
  equal-Returns l r g rl rr =
      let (i, e) = key_index_returns time n plan sh l r g rl rr in (i ∷ [], plan, rw e refl, refl)

module _ (time : LocalTime) (n : ℕ) (plan : Plan) (sh : plan.rule.shard ≡ hash_shard (suc n))
    (kind : plan.rule.kind ≡ hash) where
  comparison-Returns :
      (a : ℕ) (op : CompareOp) (l r : ValExpr)
      → ReadableLeaf plan.rule (comparison_expr a op l r)
      → Returns plan (route_comparison time plan a op l r)
  unfolding route_comparison route_compared get_hash_shard_table_index hash_comparison route_listed
  comparison-Returns a eq l r (rl, rr) = guarded time n plan sh _ _ (λ g.
      switched time n plan sh kind (comparison_expr a eq l r)
        (equal-Returns time n plan sh kind l r g rl rr))
  comparison-Returns a nse l r (rl, rr) = guarded time n plan sh _ _ (λ g.
      switched time n plan sh kind (comparison_expr a nse l r)
        (equal-Returns time n plan sh kind l r g rl rr))
  comparison-Returns a lt l r h = guarded time n plan sh _ _ (λ g.
      switched time n plan sh kind (comparison_expr a lt l r)
        (keeps time n plan sh plan.rule.sub_table_indexs))
  comparison-Returns a gt l r h = guarded time n plan sh _ _ (λ g.
      switched time n plan sh kind (comparison_expr a gt l r)
        (keeps time n plan sh plan.rule.sub_table_indexs))
  comparison-Returns a le l r h = guarded time n plan sh _ _ (λ g.
      switched time n plan sh kind (comparison_expr a le l r)
        (keeps time n plan sh plan.rule.sub_table_indexs))
  comparison-Returns a ge l r h = guarded time n plan sh _ _ (λ g.
      switched time n plan sh kind (comparison_expr a ge l r)
        (keeps time n plan sh plan.rule.sub_table_indexs))
  comparison-Returns a ne l r h = keeps time n plan sh plan.rule.sub_table_indexs
  comparison-Returns a like l r h = keeps time n plan sh plan.rule.sub_table_indexs
  comparison-Returns a not_like l r h = keeps time n plan sh plan.rule.sub_table_indexs
  comparison-Returns a in_list l r h = guarded time n plan sh _ _ (λ g.
      switched time n (record plan { in_right_to_replace = some a }) sh kind
        (comparison_expr a in_list l r)
        (tuple-Returns time n (record plan { in_right_to_replace = some a }) sh r
          (second_true _ _ g) (list_beside _ r (first_true _ _ g) h)))
  comparison-Returns a not_in l r h = guarded time n plan sh _ _ (λ g.
      switched time n plan sh kind (comparison_expr a not_in l r)
        (keeps time n plan sh plan.rule.sub_table_indexs))

-- A connective over two routes that return.
both_return :
    (plan : Plan) (m : Result (List ℤ × Plan)) (f : Plan → Result (List ℤ × Plan))
    (join : List ℤ → List ℤ → List ℤ)
    → Returns plan m
    → ((p : Plan) → p.rule ≡ plan.rule → Returns p (f p))
    → Returns plan (m >>= λ (x, p). f p >>= λ (y, q). keep q (join x y))
both_return plan m f join (x, p, e, same) h =
    let (y, q, e', same') = h p same in (join x y, q, rw e (rw e' refl), same' ∙ same)

pub hash_route-Returns :
    (time : LocalTime) (n : ℕ) (e : BoolExpr) (plan : Plan)
    → plan.rule.kind ≡ hash
    → plan.rule.shard ≡ hash_shard (suc n)
    → EachLeaf (ReadableLeaf plan.rule) e
    → Returns plan (get_table_index_by_bool_expr time e plan)
unfolding get_table_index_by_bool_expr route_range get_hash_shard_table_index
hash_route-Returns time n (and_expr l r) plan kind sh h =
    both_return plan (get_table_index_by_bool_expr time l plan)
      (λ p. get_table_index_by_bool_expr time r p) inter_list
      (hash_route-Returns time n l plan kind sh h.0)
      (λ p same.
        hash_route-Returns time n r p (ap (λ (z : Rule). z.kind) same ∙ kind)
          (ap (λ (z : Rule). z.shard) same ∙ sh)
          (subst (λ (z : Rule). EachLeaf (ReadableLeaf z) r) (sym same) h.1))
hash_route-Returns time n (or_expr l r) plan kind sh h =
    both_return plan (get_table_index_by_bool_expr time l plan)
      (λ p. get_table_index_by_bool_expr time r p) union_list
      (hash_route-Returns time n l plan kind sh h.0)
      (λ p same.
        hash_route-Returns time n r p (ap (λ (z : Rule). z.kind) same ∙ kind)
          (ap (λ (z : Rule). z.shard) same ∙ sh)
          (subst (λ (z : Rule). EachLeaf (ReadableLeaf z) r) (sym same) h.1))
hash_route-Returns time n (paren_bool_expr e) plan kind sh h =
    hash_route-Returns time n e plan kind sh h
hash_route-Returns time n (comparison_expr a op l r) plan kind sh h =
    comparison-Returns time n plan sh kind a op l r h
hash_route-Returns time n (range_cond op l f t) plan kind sh h = guarded time n plan sh _ _ (λ g.
    switched time n plan sh kind (range_cond op l f t)
      (keeps time n plan sh plan.rule.sub_table_indexs))
hash_route-Returns time n (not_expr e) plan kind sh h =
    keeps time n plan sh plan.rule.sub_table_indexs
hash_route-Returns time n (null_check o e) plan kind sh h =
    keeps time n plan sh plan.rule.sub_table_indexs
hash_route-Returns time n (exists_expr q) plan kind sh h =
    keeps time n plan sh plan.rule.sub_table_indexs
