-- ===== src/Tests/Constants.antt =====
-- The rules, plans and criteria that the runs share.
use kingshard.Prelude.{pos, codes, [], ◌∷◌, some, none}
use kingshard.Sqlparser.Ast.{
  BoolExpr, and_expr, or_expr, comparison_expr, range_cond, eq, ge, in_list, between, ValExpr,
  num_val, col_name, val_tuple, cons, nil,
}
use kingshard.Router.Shard.{Shard, LocalTime, hash_shard, num_range_shard, ranges_from}
use kingshard.Router.Rule.{Rule, RuleType, hash, range}
use kingshard.Router.Plan.Values.{Plan}

abbrev pub utc : LocalTime
utc = record { year = λ v. pos 1970; format_date = λ v. codes "1970-01-01" }

abbrev pub four_tables : RuleType → Shard → Rule
four_tables kind shard = record {
  db = codes "kingshard";
  table = codes "t";
  key = codes "id";
  kind = kind;
  nodes = codes "node1" ∷ codes "node2" ∷ [];
  sub_table_indexs = pos 0 ∷ pos 1 ∷ pos 2 ∷ pos 3 ∷ [];
  table_to_node = (pos 0, pos 0) ∷ (pos 1, pos 0) ∷ (pos 2, pos 1) ∷ (pos 3, pos 1) ∷ [];
  shard = shard;
}

abbrev pub plan_of : Rule → Plan
plan_of rule = record {
  rule = rule;
  key_index = pos 0;
  rows = [];
  sub_table_value_groups = [];
  in_right_to_replace = none;
  route_table_indexs = [];
  route_node_indexs = [];
}

abbrev pub hash_plan : Plan
hash_plan = plan_of (four_tables hash (hash_shard 4))

abbrev pub range_plan : Plan
range_plan = plan_of (four_tables range (num_range_shard (ranges_from 0 4 (pos 100))))

abbrev pub id : ValExpr
id = col_name (record { name = codes "id"; qualifier = none })

-- id = 5 and id in (6, 5)
abbrev pub five : BoolExpr
five = and_expr (comparison_expr 1 eq id (num_val (codes "5"))) (
    comparison_expr 2 in_list id
      (val_tuple (cons (num_val (codes "6")) (cons (num_val (codes "5")) nil))))

-- id between 50 and 150 or id >= 300
abbrev pub spans : BoolExpr
spans =
    or_expr (range_cond between id (num_val (codes "50")) (num_val (codes "150")))
      (comparison_expr 1 ge id (num_val (codes "300")))

-- The plan that routing the first of these leaves behind.
abbrev pub five_after : Plan
five_after = record hash_plan {
  in_right_to_replace = some 2;
  sub_table_value_groups =
      (pos 2, num_val (codes "6") ∷ []) ∷ (pos 1, num_val (codes "5") ∷ []) ∷ [];
}
