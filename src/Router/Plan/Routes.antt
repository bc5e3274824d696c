-- ===== src/Router/Plan/Routes.antt =====
-- From a plan's criterion to its tables and nodes: `calRouteIndexs`, `getInsertTableIndex`,
-- `checkValuesType`, `GetIRKeyIndex`, `cleanList` and `TindexsToNindexs` of
-- proxy/router/planbuilder.go.
pub mod Nodes
pub mod Inserts
pub mod Whole
use kingshard.Prelude.{
  ℕ, zero, suc, ◌+◌, ℤ, pos, negsuc, ◌+ℤ◌, eqb_ℤ, ltb_ℤ, Bytes, eqb_bytes, List, [], ◌∷◌, ◌++◌, map,
  Bool, true, false, ◌||◌, if◌then◌else◌, Option, none, some, length,
}
use kingshard.Outcome.{Result, ok, err, panic, ◌>>=◌, Error, Panic}
use kingshard.Outcome.Error.{
  no_criteria, insert_too_complex, cols_len_not_match, ir_no_sharding_key,
}
use kingshard.Outcome.Panic.{type_assertion, index_out_of_range}
use kingshard.Sqlparser.Ast.{
  BoolExpr, ValExpr, ValExprs, nil, cons, col_name, Tuple, tuple_row, tuple_subquery, Expr,
  val_expr, SelectExpr, SelectExprs, non_star_expr, star_expr, no_exprs, select_exprs,
}
use kingshard.Router.IntList.{make_list}
use kingshard.Router.Shard.{LocalTime}
use kingshard.Router.Rule.{Rule, RuleType, default, map_get}
use kingshard.Router.Plan.Values.{
  Plan, get_value_type, is_value, to_lower, get_table_index_by_value,
}
use kingshard.Router.Plan.Criteria.{get_table_index_by_bool_expr}

unfoldable pub mem : ℤ → List ℤ → Bool
mem a [] = false
mem a (x ∷ xs) = eqb_ℤ x a || mem a xs

-- The keys of the set that `cleanList` fills, each once.
unfoldable pub distinct : List ℤ → List ℤ
unfolding mem
distinct [] = []
distinct (x ∷ xs) = let rest = distinct xs in if mem x rest then rest else x ∷ rest

-- `cleanList` returns them in the order in which Go ranges over that map: any order.
unfoldable pub clean_list : (List ℤ → List ℤ) → List ℤ → List ℤ
unfolding distinct
clean_list order l = order (distinct l)

unfoldable pub tindexs_to_nindexs : (List ℤ → List ℤ) → Plan → List ℤ → List ℤ
unfolding clean_list
tindexs_to_nindexs order plan ts =
    clean_list order (map (λ t. map_get t plan.rule.table_to_node) ts)

-- The first value of every row must be a literal.
unfoldable pub check_row : Rule → Tuple → Result (Unit {0})
check_row rule (tuple_row nil) = panic index_out_of_range
check_row rule (tuple_row (cons e es)) =
    if is_value (get_value_type rule e) then ok tt else err insert_too_complex
check_row rule (tuple_subquery s) = err insert_too_complex

unfoldable pub check_values_type : Rule → List Tuple → Result (Unit {0})
unfolding check_row
check_values_type rule [] = ok tt
check_values_type rule (v ∷ vs) = check_row rule v >>= λ _. check_values_type rule vs

-- The search for the sharding key among the columns, from position `i` on.
unfoldable pub key_position : Bytes → ℕ → SelectExprs → Result (Option ℕ)
key_position key i no_exprs = ok none
key_position key i (select_exprs (non_star_expr (val_expr (col_name c)) alias) cs) =
    let rest = key_position key (suc i) cs in
    if eqb_bytes (to_lower c.name) key then ok (some i) else rest
key_position key i (select_exprs _ cs) = panic type_assertion

unfoldable pub get_ir_key_index : Plan → SelectExprs → Result Plan
unfolding key_position
get_ir_key_index plan cols = do
  found ← key_position plan.rule.key 0 cols
  elim found [ none ↦ err ir_no_sharding_key | some i ↦ ok (record plan { key_index = pos i }) ]

unfoldable pub tuple_length : ValExprs → ℕ
tuple_length nil = 0
tuple_length (cons e es) = suc (tuple_length es)

unfoldable pub tuple_at : ValExprs → ℤ → Result ValExpr
tuple_at nil i = panic index_out_of_range
tuple_at (cons e es) (pos zero) = ok e
tuple_at (cons e es) (pos (suc i)) = tuple_at es (pos i)
tuple_at (cons e es) (negsuc i) = panic index_out_of_range

abbrev pub RowGroups : Type 0
RowGroups = List (ℤ × List ValExprs)

-- `rowsToTindex[tableIndex] = append(rowsToTindex[tableIndex], row)`
unfoldable pub add_row : ℤ → ValExprs → RowGroups → RowGroups
add_row i r [] = (i, r ∷ []) ∷ []
add_row i r ((j, rs) ∷ gs) =
    if eqb_ℤ j i then (j, rs ++ (r ∷ [])) ∷ gs else (j, rs) ∷ add_row i r gs

unfoldable pub put_row : ℤ → List ValExprs → RowGroups → RowGroups
put_row k v [] = (k, v) ∷ []
put_row k v ((j, w) ∷ m) = if eqb_ℤ j k then (k, v) ∷ m else (j, w) ∷ put_row k v m

-- The loop that writes `rowsToTindex` into `plan.Rows`. Its keys are distinct, so that the order of
-- the writes does not matter.
unfoldable pub put_rows : RowGroups → RowGroups → RowGroups
unfolding put_row
put_rows [] m = m
put_rows ((k, v) ∷ gs) m = put_row k v (put_rows gs m)

-- `plan.Criteria`: nil, the values of an INSERT, a condition, or another node.
pub data Criteria : Type 0 where
  no_criterion other_node : Criteria
  of_values : List Tuple → Criteria
  of_bool : BoolExpr → Criteria

module _ (time : LocalTime) where
  -- The table of one row.
  unfoldable pub row_table : Plan → ValExprs → Result ℤ
  unfolding tuple_length tuple_at
  row_table plan r =
      if ltb_ℤ (pos (tuple_length r)) (plan.key_index +ℤ pos 1)
      then err cols_len_not_match
      else (tuple_at r plan.key_index >>= λ e. get_table_index_by_value time plan e)

  unfoldable pub insert_loop : Plan → List Tuple → RowGroups → Result (List ℤ × RowGroups)
  unfolding row_table add_row
  insert_loop plan [] gs = ok ([], gs)
  insert_loop plan (tuple_subquery s ∷ vs) gs = panic type_assertion
  insert_loop plan (tuple_row r ∷ vs) gs = do
    t ← row_table plan r
    (ts, gs') ← insert_loop plan vs (add_row t r gs)
    ok (t ∷ ts, gs')

  module _ (order : List ℤ → List ℤ) where
    unfoldable pub get_insert_table_index : Plan → List Tuple → Result (List ℤ × Plan)
    unfolding insert_loop put_rows clean_list
    get_insert_table_index plan vals = do
      (ts, gs) ← insert_loop plan vals []
      ok (clean_list order ts, record plan { rows = put_rows gs plan.rows })

    unfoldable pub with_nodes : Result (List ℤ × Plan) → Result Plan
    unfolding tindexs_to_nindexs
    with_nodes route = do
      (ts, plan) ← route
      ok (record plan {
        route_table_indexs = ts;
        route_node_indexs = tindexs_to_nindexs order plan ts;
      })

    unfoldable pub route_criteria : Plan → Criteria → Result Plan
    unfolding with_nodes get_insert_table_index
    route_criteria plan no_criterion = err no_criteria
    route_criteria plan (of_values vals) = with_nodes (get_insert_table_index plan vals)
    route_criteria plan (of_bool e) = with_nodes (get_table_index_by_bool_expr time e plan)
    route_criteria plan other_node = do
      nodes ← make_list (pos 0) (pos (length plan.rule.nodes))
      ok (record plan {
        route_table_indexs = plan.rule.sub_table_indexs;
        route_node_indexs = nodes;
      })

    unfoldable pub cal_route_indexs : Plan → Criteria → Result Plan
    unfolding route_criteria
    cal_route_indexs plan c = elim plan.rule.kind [
      | default ↦ ok (record plan { route_node_indexs = pos 0 ∷ [] })
      | _ ↦ route_criteria plan c
    ]
