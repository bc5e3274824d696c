-- ===== src/Router/Plan/Leaves.antt =====
-- From one comparison or range condition on the key to sub-tables: the functions
-- `get...ShardTableIndex` and `adjustShardIndex` of proxy/router/planbuilder.go.
use kingshard.Prelude.{
  ℤ, pos, ◌+ℤ◌, ◌-ℤ◌, List, [], ◌∷◌, Bool, true, false, if◌then◌else◌, ltb_ℤ, length,
}
use kingshard.Outcome.{Result, ok, panic, ◌>>=◌}
use kingshard.Outcome.Panic.{parser_error}
use kingshard.Sqlparser.Ast.{
  BoolExpr, comparison_expr, range_cond, CompareOp, eq, lt, gt, le, ge, ne, nse, in_list, not_in,
  like, not_like, RangeOp, between, not_between, ValExpr,
}
use kingshard.Router.IntList.{
  make_list, make_le_list, make_ge_list, make_between_list, union_list, different_list,
}
use kingshard.Router.Shard.{
  LocalTime, Shard, Key, hash_shard, num_range_shard, date_year_shard, date_month_shard,
  date_day_shard, default_shard, equal_start, NumKeyRange,
}
use kingshard.Router.Plan.Values.{
  Plan, NodeType, eid_node, value_node, list_node, get_value_type, get_bound_value,
  get_table_index_by_value,
}
use kingshard.Router.Plan.Tuples.{get_table_indexs_by_tuple}

abbrev pub is_eid : NodeType → Bool
is_eid eid_node = true
is_eid _ = false

abbrev pub is_list : NodeType → Bool
is_list list_node = true
is_list _ = false

abbrev pub is_literal : NodeType → Bool
is_literal value_node = true
is_literal _ = false

unfoldable pub not_list : Plan → List ℤ → List ℤ
not_list plan l = different_list plan.rule.sub_table_indexs l

-- What `adjustShardIndex` does once the shard is known to be a RangeShard.
unfoldable pub adjust_range : List NumKeyRange → Key → ℤ → Result ℤ
adjust_range shards value i = do
  at_start ← equal_start shards value i
  if at_start
      then (if ltb_ℤ (i -ℤ pos 1) (pos 0) then panic parser_error else ok (i -ℤ pos 1))
      else ok i

unfoldable pub adjust_shard : Shard → Key → ℤ → Result ℤ
unfolding adjust_range
adjust_shard (num_range_shard shards) value i = adjust_range shards value i
adjust_shard (hash_shard n) value i = ok i
adjust_shard date_year_shard value i = ok i
adjust_shard date_month_shard value i = ok i
adjust_shard date_day_shard value i = ok i
adjust_shard default_shard value i = ok i

unfoldable pub adjust_shard_index : Plan → ValExpr → ℤ → Result ℤ
unfolding adjust_shard
adjust_shard_index plan e i = do value ← get_bound_value e; adjust_shard plan.rule.shard value i

-- `len(plan.Rule.SubTableIndexs)`
unfoldable pub table_count : Plan → ℤ
table_count plan = pos (length plan.rule.sub_table_indexs)

-- A result that leaves the plan as it is.
abbrev pub keep : Plan → List ℤ → Result (List ℤ × Plan)
keep plan l = ok (l, plan)

module _ (time : LocalTime) where
  -- The side of a comparison that is not the sharding key.
  unfoldable pub key_index_of : Plan → ValExpr → ValExpr → Result ℤ
  key_index_of plan left right =
      if is_eid (get_value_type plan.rule left)
      then get_table_index_by_value time plan right
      else get_table_index_by_value time plan left

  unfoldable pub hash_comparison : Plan → CompareOp → ValExpr → ValExpr → Result (List ℤ × Plan)
  unfolding key_index_of
  hash_comparison plan eq left right = do i ← key_index_of plan left right; keep plan (i ∷ [])
  hash_comparison plan nse left right = do i ← key_index_of plan left right; keep plan (i ∷ [])
  hash_comparison plan lt left right = keep plan plan.rule.sub_table_indexs
  hash_comparison plan le left right = keep plan plan.rule.sub_table_indexs
  hash_comparison plan gt left right = keep plan plan.rule.sub_table_indexs
  hash_comparison plan ge left right = keep plan plan.rule.sub_table_indexs
  hash_comparison plan not_in left right = keep plan plan.rule.sub_table_indexs
  hash_comparison plan in_list left right = get_table_indexs_by_tuple time plan right
  hash_comparison plan ne left right = keep plan plan.route_table_indexs
  hash_comparison plan like left right = keep plan plan.route_table_indexs
  hash_comparison plan not_like left right = keep plan plan.route_table_indexs

  unfoldable pub get_hash_shard_table_index : Plan → BoolExpr → Result (List ℤ × Plan)
  unfolding hash_comparison
  get_hash_shard_table_index plan (comparison_expr a op l r) = hash_comparison plan op l r
  get_hash_shard_table_index plan (range_cond op l f t) = keep plan plan.rule.sub_table_indexs
  get_hash_shard_table_index plan _ = keep plan plan.rule.sub_table_indexs

  -- Tables up to the one of the literal, which is left out if a strict bound is its first key.
  unfoldable pub tables_below : Plan → Bool → ValExpr → Result (List ℤ × Plan)
  unfolding adjust_shard_index
  tables_below plan strict e = do
    i ← get_table_index_by_value time plan e
    j ← (if strict then adjust_shard_index plan e i else ok i)
    l ← make_list (pos 0) (j +ℤ pos 1)
    keep plan l

  unfoldable pub tables_above : Plan → ValExpr → Result (List ℤ × Plan)
  unfolding table_count
  tables_above plan e = do
    i ← get_table_index_by_value time plan e
    l ← make_list i (table_count plan)
    keep plan l

  unfoldable pub range_comparison : Plan → CompareOp → ValExpr → ValExpr → Result (List ℤ × Plan)
  unfolding key_index_of tables_below tables_above
  range_comparison plan eq left right = do i ← key_index_of plan left right; keep plan (i ∷ [])
  range_comparison plan nse left right = do i ← key_index_of plan left right; keep plan (i ∷ [])
  range_comparison plan lt left right =
      if is_eid (get_value_type plan.rule left)
      then tables_below plan true right
      else tables_above plan left
  range_comparison plan le left right =
      if is_eid (get_value_type plan.rule left)
      then tables_below plan false right
      else tables_above plan left
  range_comparison plan gt left right =
      if is_eid (get_value_type plan.rule left)
      then tables_above plan right
      else tables_below plan true left
  range_comparison plan ge left right =
      if is_eid (get_value_type plan.rule left)
      then tables_above plan right
      else tables_below plan false left
  range_comparison plan in_list left right = get_table_indexs_by_tuple time plan right
  range_comparison plan not_in left right = keep plan plan.rule.sub_table_indexs
  range_comparison plan ne left right = keep plan plan.route_table_indexs
  range_comparison plan like left right = keep plan plan.route_table_indexs
  range_comparison plan not_like left right = keep plan plan.route_table_indexs

  unfoldable pub range_between : Plan → RangeOp → ValExpr → ValExpr → Result (List ℤ × Plan)
  unfolding adjust_shard_index table_count
  range_between plan between from to = do
    start ← get_table_index_by_value time plan from
    last ← get_table_index_by_value time plan to
    l ←
        (if ltb_ℤ last start
          then make_list last (start +ℤ pos 1)
          else make_list start (last +ℤ pos 1))
    keep plan l
  range_between plan not_between from to = do
    start ← get_table_index_by_value time plan from
    last ← get_table_index_by_value time plan to
    low ←
        (if ltb_ℤ last start
          then adjust_shard_index plan to last
          else adjust_shard_index plan from start)
    l1 ← make_list (pos 0) (low +ℤ pos 1)
    l2 ← make_list (if ltb_ℤ last start then start else last) (table_count plan)
    keep plan (union_list l1 l2)

  unfoldable pub get_range_shard_table_index : Plan → BoolExpr → Result (List ℤ × Plan)
  unfolding range_comparison range_between
  get_range_shard_table_index plan (comparison_expr a op l r) = range_comparison plan op l r
  get_range_shard_table_index plan (range_cond op l f t) = range_between plan op f t
  get_range_shard_table_index plan _ = keep plan plan.rule.sub_table_indexs

  unfoldable pub dates_below : Plan → ValExpr → Result (List ℤ × Plan)
  dates_below plan e = do
    i ← get_table_index_by_value time plan e
    keep plan (make_le_list i plan.rule.sub_table_indexs)

  unfoldable pub dates_above : Plan → ValExpr → Result (List ℤ × Plan)
  dates_above plan e = do
    i ← get_table_index_by_value time plan e
    keep plan (make_ge_list i plan.rule.sub_table_indexs)

  unfoldable pub date_comparison : Plan → CompareOp → ValExpr → ValExpr → Result (List ℤ × Plan)
  unfolding key_index_of dates_below dates_above not_list
  date_comparison plan eq left right = do i ← key_index_of plan left right; keep plan (i ∷ [])
  date_comparison plan nse left right = do i ← key_index_of plan left right; keep plan (i ∷ [])
  date_comparison plan lt left right =
      if is_eid (get_value_type plan.rule left)
      then dates_below plan right
      else dates_above plan left
  date_comparison plan le left right =
      if is_eid (get_value_type plan.rule left)
      then dates_below plan right
      else dates_above plan left
  date_comparison plan gt left right =
      if is_eid (get_value_type plan.rule left)
      then dates_above plan right
      else dates_below plan left
  date_comparison plan ge left right =
      if is_eid (get_value_type plan.rule left)
      then dates_above plan right
      else dates_below plan left
  date_comparison plan in_list left right = get_table_indexs_by_tuple time plan right
  date_comparison plan not_in left right = do
    (l, plan') ← get_table_indexs_by_tuple time plan right
    keep plan' (not_list plan' l)
  date_comparison plan ne left right = keep plan plan.route_table_indexs
  date_comparison plan like left right = keep plan plan.route_table_indexs
  date_comparison plan not_like left right = keep plan plan.route_table_indexs

  unfoldable pub date_between : Plan → RangeOp → ValExpr → ValExpr → Result (List ℤ × Plan)
  unfolding not_list
  date_between plan op from to = do
    start ← get_table_index_by_value time plan from
    last ← get_table_index_by_value time plan to
    let l =
        if ltb_ℤ last start
        then make_between_list last start plan.rule.sub_table_indexs
        else make_between_list start last plan.rule.sub_table_indexs
    elim op [ between ↦ keep plan l | not_between ↦ keep plan (not_list plan l) ]

  unfoldable pub get_date_shard_table_index : Plan → BoolExpr → Result (List ℤ × Plan)
  unfolding date_comparison date_between
  get_date_shard_table_index plan (comparison_expr a op l r) = date_comparison plan op l r
  get_date_shard_table_index plan (range_cond op l f t) = date_between plan op f t
  get_date_shard_table_index plan _ = keep plan plan.rule.sub_table_indexs
