-- ===== src/Router/Registry.antt =====
-- The rules of a router: NewRouter, includeNode, NewDefaultRule, GetRule and checkUpdateExprs of
-- proxy/router/router.go.
pub mod Finds
use kingshard.Prelude.{
  ℕ, zero, suc, ◌+◌, ℤ, pos, negsuc, ◌+ℤ◌, pos_part, leb_ℤ, Bytes, codes, eqb_bytes, List, [], ◌∷◌,
  ◌++◌, Option, none, some, Bool, true, false, ◌==◌, ◌||◌, not, if◌then◌else◌, length, trim,
  split_on,
}
use kingshard.Outcome.{Result, ok, err, panic, ◌>>=◌}
use kingshard.Outcome.Error.{
  locations_count, date_range_count, date_illegal, range_space_not_equal_tables, node_not_in_schema,
  duplicate_default_rule, duplicate_table_rule, update_key,
}
use kingshard.Outcome.Panic.{index_out_of_range}
use kingshard.Config.{ShardConfig, SchemaConfig}
use kingshard.Sqlparser.Ast.{UpdateExpr}
use kingshard.Router.IntList.{count_from}
use kingshard.Router.Shard.{
  Shard, hash_shard, num_range_shard, date_year_shard, date_month_shard, date_day_shard,
  default_shard, parse_num_sharding,
}
use kingshard.Router.Rule.{
  Rule, RuleType, default, hash, range, date_year, date_month, date_day, other, map_put,
}
use kingshard.Router.DateRange.{Calendar, parse_day_range, parse_month_range, parse_year_range}
use kingshard.Router.Plan.Values.{to_lower}
use kingshard.Router.Setup.{parse_rule}

unfoldable pub include_node : List Bytes → Bytes → Bool
include_node [] node = false
include_node (n ∷ ns) node = eqb_bytes n node || include_node ns node

unfoldable pub new_default_rule : Bytes → Rule
new_default_rule node = record {
  db = [];
  table = [];
  key = [];
  kind = default;
  nodes = node ∷ [];
  sub_table_indexs = [];
  table_to_node = [];
  shard = default_shard;
}

-- `map[db]map[table_name]*Rule`
abbrev pub Rules : Type 0
Rules = List (Bytes × List (Bytes × Rule))

-- A read of either of these maps.
unfoldable pub lookup {ℓ} : {A : Type ℓ} → Bytes → List (Bytes × A) → Option A
lookup k [] = none
lookup k ((j, a) ∷ m) = if eqb_bytes j k then some a else lookup k m

-- A write.
unfoldable pub put {ℓ} : {A : Type ℓ} → Bytes → A → List (Bytes × A) → List (Bytes × A)
put k a [] = (k, a) ∷ []
put k a ((j, b) ∷ m) = if eqb_bytes j k then (k, a) ∷ m else (j, b) ∷ put k a m

-- `rt.Rules[db][table]`: nil for a missing database, too.
unfoldable pub find_rule : Bytes → Bytes → Rules → Option Rule
unfolding lookup
find_rule db table rules = elim (lookup db rules) [ none ↦ none | some m ↦ lookup table m ]

unfoldable pub add_rule : Rule → Rules → Result Rules
unfolding lookup put
add_rule r rules = elim (lookup r.db rules) [
  | none ↦ ok (put r.db ((r.table, r) ∷ []) rules)
  | some m ↦ elim (lookup r.table m) [
    | some old ↦ err duplicate_table_rule
    | none ↦ ok (put r.db (put r.table r m) rules)
  ]
]

pub record Router : Type 0 where
  pub rules : Rules
  pub default_rule : Rule
  pub nodes : List Bytes

unfoldable pub check_nodes : List Bytes → List Bytes → Result (Unit {0})
unfolding include_node
check_nodes nodes [] = ok tt
check_nodes nodes (n ∷ ns) =
    let rest = check_nodes nodes ns in if include_node nodes n then rest else err node_not_in_schema

unfoldable pub is_default : RuleType → Bool
is_default default = true
is_default _ = false

module _ (cal : Calendar) where
  -- One round of the loop over the shards of a schema.
  unfoldable pub add_shard : List Bytes → ShardConfig → Rules → Result Rules
  unfolding check_nodes parse_rule add_rule is_default
  add_shard nodes cfg rules = check_nodes nodes cfg.nodes >>= λ u. parse_rule cal cfg >>= λ rule.
      if is_default rule.kind then err duplicate_default_rule else add_rule rule rules

  unfoldable pub add_shards : List Bytes → List ShardConfig → Rules → Result Rules
  unfolding add_shard
  add_shards nodes [] rules = ok rules
  add_shards nodes (cfg ∷ cfgs) rules =
      add_shard nodes cfg rules >>= λ rules'. add_shards nodes cfgs rules'

  unfoldable pub new_router : SchemaConfig → Result Router
  unfolding add_shards include_node new_default_rule
  new_router schema =
      if include_node schema.nodes schema.default_node
      then (add_shards schema.nodes schema.shard_rule [] >>= λ rules. ok (record {
        rules = rules;
        default_rule = new_default_rule schema.default_node;
        nodes = schema.nodes;
      }))
      else err node_not_in_schema

-- `strings.Split(s, ".")`
unfoldable pub split_dots : Bytes → Bytes × List Bytes
unfolding split_on
split_dots s = split_on b'.' s

-- The cutset "`".
abbrev pub is_backquote : ℕ → Bool
is_backquote c = c == b'`'

abbrev qualified_parts : Bytes × Bytes → Bytes → List Bytes → Bytes × Bytes
unfolding trim
qualified_parts given a [] = given
qualified_parts given a (b ∷ []) = (trim is_backquote a, trim is_backquote b)
qualified_parts given a (b ∷ c ∷ cs) = given

-- The database and the table that `GetRule` looks for.
unfoldable pub qualified : Bytes → Bytes → Bytes × Bytes
unfolding split_dots qualified_parts
qualified db table = let (a, parts) = split_dots table in qualified_parts (db, table) a parts

-- The rule, and the router, whose default rule takes on the database.
unfoldable pub get_rule_at : Router → Bytes × Bytes → Rule × Router
unfolding find_rule
get_rule_at r (db, table) = elim (find_rule db table r.rules) [
  | some rule ↦ (rule, r)
  | none ↦ (
    record r.default_rule { db = db },
    record r { default_rule = record r.default_rule { db = db } },
  )
]

unfoldable pub get_rule : Router → Bytes → Bytes → Rule × Router
unfolding qualified get_rule_at
get_rule r db table = get_rule_at r (qualified db table)

unfoldable pub sets_key : Bytes → List UpdateExpr → Bool
sets_key key [] = false
sets_key key (e ∷ es) = eqb_bytes e.name.name key || sets_key key es

unfoldable pub check_update_exprs : Rule → List UpdateExpr → Result (Unit {0})
unfolding sets_key is_default
check_update_exprs r exprs =
    if is_default r.kind
    then ok tt
    else if length r.nodes == 1
    then ok tt
    else if sets_key r.key exprs
    then err update_key
    else ok tt
