-- ===== src/Router/Plan/Values.antt =====
-- The plan, and the value expressions of a criterion: what they are to the sharding key, and the
-- key and sub-table of a literal.
use kingshard.Prelude.{
  ℕ, ◌+◌, ℤ, Bytes, List, [], pos, map, Bool, true, false, ◌&&◌, if◌then◌else◌, leb, eqb_bytes,
  Option, none, some,
}
use kingshard.Outcome.{Result, ok, panic, ◌>>=◌}
use kingshard.Outcome.Panic.{parser_error, unexpected_token}
use kingshard.Strconv.{parse_int}
use kingshard.Sqlparser.Ast.{
  ValExpr, ValExprs, str_val, num_val, val_arg, null_val, col_name, val_tuple, subquery,
  binary_expr, unary_expr, func_expr, case_expr, nil, cons,
}
use kingshard.Router.Shard.{Key, LocalTime, string, int64}
use kingshard.Router.Rule.{Rule, find_table_index}

-- A slice of tuples or of values as a list.
pub record Plan : Type 0 where
  pub rule : Rule
  pub key_index : ℤ
  pub rows : List (ℤ × List ValExprs)
  pub sub_table_value_groups : List (ℤ × List ValExpr)
  pub in_right_to_replace : Option ℕ
  pub route_table_indexs : List ℤ
  pub route_node_indexs : List ℤ

-- `&Plan{}` with its rule.
abbrev pub new_plan : Rule → Plan
new_plan rule = record {
  rule = rule;
  key_index = pos 0;
  rows = [];
  sub_table_value_groups = [];
  in_right_to_replace = none;
  route_table_indexs = [];
  route_node_indexs = [];
}

-- EID_NODE, VALUE_NODE, LIST_NODE and OTHER_NODE
pub data NodeType : Type 0 where
  eid_node value_node list_node other_node : NodeType

-- `strings.ToLower` on ASCII text.
unfoldable pub lower : ℕ → ℕ
lower c = if leb b'A' c && leb c b'Z' then c + 32 else c

unfoldable pub to_lower : Bytes → Bytes
unfolding lower
to_lower s = map lower s

abbrev pub is_value : NodeType → Bool
is_value value_node = true
is_value _ = false

-- The type that is returned. What the method does to the tree is in Qualifiers.
unfoldable mutual
  pub get_value_type : Rule → ValExpr → NodeType
  get_value_type rule (col_name c) =
      if eqb_bytes (to_lower c.name) rule.key then eid_node else other_node
  get_value_type rule (val_tuple es) = if all_values rule es then list_node else other_node
  get_value_type rule (str_val s) = value_node
  get_value_type rule (num_val s) = value_node
  get_value_type rule (val_arg s) = value_node
  get_value_type rule null_val = other_node
  get_value_type rule (subquery s) = other_node
  get_value_type rule (binary_expr o l r) = other_node
  get_value_type rule (unary_expr o e) = other_node
  get_value_type rule (func_expr n d es) = other_node
  get_value_type rule (case_expr e ws d) = other_node

  pub all_values : Rule → ValExprs → Bool
  all_values rule nil = true
  all_values rule (cons e es) = is_value (get_value_type rule e) && all_values rule es

-- `getBoundValue`
unfoldable pub get_bound_value : ValExpr → Result Key
get_bound_value (val_tuple (cons e nil)) = get_bound_value e
get_bound_value (val_tuple _) = panic parser_error
get_bound_value (str_val s) = ok (string s)
get_bound_value (num_val s) = elim (parse_int s) [
  | none ↦ panic parser_error
  | some v ↦ ok (int64 v)
]
get_bound_value _ = panic unexpected_token

module _ (time : LocalTime) where
  unfoldable pub get_table_index_by_value : Plan → ValExpr → Result ℤ
  get_table_index_by_value plan e = do
    value ← get_bound_value e
    find_table_index time plan.rule value
