-- ===== src/Router/Setup.antt =====
-- From the configuration of a table to its rule: parseRule and parseShard of
-- proxy/router/router.go.
pub mod Tables
pub mod Filled
pub mod Reach
pub mod Whole
use kingshard.Prelude.{
  ℕ, zero, suc, ◌+◌, ℤ, pos, negsuc, ◌+ℤ◌, pos_part, leb_ℤ, Bytes, codes, eqb_bytes, List, [], ◌∷◌,
  ◌++◌, Option, none, some, Bool, true, false, ◌==◌, ◌||◌, not, if◌then◌else◌, length,
}
use kingshard.Outcome.{Result, ok, err, panic, ◌>>=◌}
use kingshard.Outcome.Error.{
  locations_count, date_range_count, date_illegal, range_space_not_equal_tables, node_not_in_schema,
  duplicate_default_rule, duplicate_table_rule, update_key,
}
use kingshard.Outcome.Panic.{index_out_of_range}
use kingshard.Config.{ShardConfig, SchemaConfig}
use kingshard.Sqlparser.Ast.{UpdateExpr}
use kingshard.Router.IntList.{count_from}
use kingshard.Router.Shard.{
  Shard, hash_shard, num_range_shard, date_year_shard, date_month_shard, date_day_shard,
  default_shard, parse_num_sharding,
}
use kingshard.Router.Rule.{
  Rule, RuleType, default, hash, range, date_year, date_month, date_day, other, map_put,
}
use kingshard.Router.DateRange.{Calendar, parse_day_range, parse_month_range, parse_year_range}
use kingshard.Router.Plan.Values.{to_lower}

-- The type that a text names.
unfoldable pub rule_type : Bytes → RuleType
rule_type s =
    if eqb_bytes s (codes "default")
    then default
    else if eqb_bytes s (codes "hash")
    then hash
    else if eqb_bytes s (codes "range")
    then range
    else if eqb_bytes s (codes "date_year")
    then date_year
    else if eqb_bytes s (codes "date_month")
    then date_month
    else if eqb_bytes s (codes "date_day")
    then date_day
    else other s

-- SubTableIndexs and TableToNode, while they are filled.
abbrev pub Tables : Type 0
Tables = List ℤ × List (ℤ × ℤ)

-- The inner loop: the tables of one node.
unfoldable pub add_tables : ℕ → List ℤ → Tables → Tables
add_tables i [] (subs, m) = (subs, m)
add_tables i (t ∷ ts) (subs, m) = add_tables i ts (subs ++ (t ∷ []), map_put t (pos i) m)

-- The outer loop over Locations, from the node `i` on, with `sumTables`.
unfoldable pub locate : ℕ → ℤ → List ℤ → Tables → Tables
unfolding add_tables
locate i sum [] st = st
locate i sum (l ∷ ls) st =
    locate (suc i) (sum +ℤ l) ls (add_tables i (count_from sum (pos_part l)) st)

unfoldable pub last : List ℤ → Option ℤ
last [] = none
last (x ∷ []) = some x
last (x ∷ y ∷ ys) = last (y ∷ ys)

-- The test that the dates of a node come behind those of the nodes before it; `numbers[0]` is read
-- only if there is a table already.
unfoldable pub follows : List ℤ → List ℤ → Result Bool
unfolding last
follows subs numbers = elim (last subs) [
  | none ↦ ok true
  | some x ↦ elim numbers [ [] ↦ panic index_out_of_range | n ∷ ns ↦ ok (not (leb_ℤ n x)) ]
]

-- The loop over DateRange, which stands three times in the source, for the three parsers.
unfoldable pub add_dates : (Bytes → Result (List ℤ)) → ℕ → List Bytes → Tables → Result Tables
unfolding follows add_tables
add_dates parse i [] st = ok st
add_dates parse i (d ∷ ds) (subs, m) = do
  numbers ← parse d
  fits ← follows subs numbers
  let rest = add_dates parse (suc i) ds (add_tables i numbers (subs, m))
  if fits then rest else err date_illegal

unfoldable pub parse_shard : RuleType → Tables → ShardConfig → Result Shard
parse_shard hash (subs, m) cfg = ok (hash_shard (length m))
parse_shard range (subs, m) cfg = do
  rs ← parse_num_sharding cfg.locations cfg.table_row_limit
  if length rs == length m then ok (num_range_shard rs) else err range_space_not_equal_tables
parse_shard date_day st cfg = ok date_day_shard
parse_shard date_month st cfg = ok date_month_shard
parse_shard date_year st cfg = ok date_year_shard
parse_shard default st cfg = ok default_shard
parse_shard (other s) st cfg = ok default_shard

module _ (cal : Calendar) where
  unfoldable pub parse_tables : RuleType → ShardConfig → Result Tables
  unfolding locate add_dates
  parse_tables hash cfg =
      if length cfg.locations == length cfg.nodes
      then ok (locate 0 (pos 0) cfg.locations ([], []))
      else err locations_count
  parse_tables range cfg =
      if length cfg.locations == length cfg.nodes
      then ok (locate 0 (pos 0) cfg.locations ([], []))
      else err locations_count
  parse_tables date_day cfg =
      if length cfg.date_range == length cfg.nodes
      then add_dates (parse_day_range cal) 0 cfg.date_range ([], [])
      else err date_range_count
  parse_tables date_month cfg =
      if length cfg.date_range == length cfg.nodes
      then add_dates parse_month_range 0 cfg.date_range ([], [])
      else err date_range_count
  parse_tables date_year cfg =
      if length cfg.date_range == length cfg.nodes
      then add_dates parse_year_range 0 cfg.date_range ([], [])
      else err date_range_count
  parse_tables default cfg = ok ([], [])
  parse_tables (other s) cfg = ok ([], [])

  unfoldable pub parse_rule : ShardConfig → Result Rule
  unfolding rule_type parse_tables parse_shard to_lower
  parse_rule cfg = do
    st ← parse_tables (rule_type cfg.kind) cfg
    shard ← parse_shard (rule_type cfg.kind) st cfg
    ok (record {
      db = cfg.db;
      table = cfg.table;
      key = to_lower cfg.key;
      kind = rule_type cfg.kind;
      nodes = cfg.nodes;
      sub_table_indexs = st.0;
      table_to_node = st.1;
      shard = shard;
    })
