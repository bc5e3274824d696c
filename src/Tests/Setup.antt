-- ===== src/Tests/Setup.antt =====
-- From a configuration to a router and a plan.
use kingshard.Prelude.{
  ℕ, zero, suc, ◌+ℤ◌, ◌-ℤ◌, ltb_bytes, ℤ, pos, ◌<ℤ◌, Bytes, eqb_bytes, codes, List, [], ◌∷◌, In,
  IsSorted, ◌≡◌, refl, subst, inl, inr, arith, none, some, if◌then◌else◌, to_u64,
}
use kingshard.Outcome.{ok}
use kingshard.Config.{ShardConfig, SchemaConfig}
use kingshard.Strconv.{parse_int}
use kingshard.Router.Shard.{hash_shard, hash_value}
use kingshard.Router.Rule.{Rule, hash, map_get, map_put}
use kingshard.Router.IntList.{count_from}
use kingshard.Router.DateRange.{
  Calendar, atoi, parse_day_range, split_range, check_lengths, in_order, parse_date, days_from,
  days_count,
}
use kingshard.Router.DateRange.Rises.{NextRises, date_ranges_rise}
use kingshard.Router.Setup.{rule_type, parse_rule, parse_tables, parse_shard, locate, add_tables}
use kingshard.Router.Setup.Tables.{IsFilled, IsNode}
use kingshard.Router.Setup.Filled.{total}
use kingshard.Router.Setup.Reach.{parse_rule-IsFilled}
use kingshard.Router.Setup.Whole.{configured_hash}
use kingshard.Router.Registry.{
  Router, new_router, add_shards, add_shard, add_rule, check_nodes, include_node, is_default,
  lookup, put, get_rule, split_dots, new_default_rule,
}
use kingshard.Router.Registry.Finds.{router_knows}
use kingshard.Router.Plan.Values.{Plan, new_plan, to_lower}
use kingshard.Router.Plan.Finds.{EachLeaf}
use kingshard.Router.Plan.Values.{get_value_type}
use kingshard.Router.Plan.Qualifiers.{text}
use kingshard.Router.Plan.Meaning.Owned.{OwnLeaf, Selects}
use kingshard.Router.Plan.Returns.{ReadableLeaf}
use kingshard.Router.Plan.Meaning.{Holds}
use kingshard.Router.Plan.Located.Hash.{hash_of, hash_table}
use kingshard.Router.Plan.Routes.{of_bool, cal_route_indexs}
use kingshard.Router.Plan.Routes.Nodes.{IsRangeOrder}
use kingshard.Tests.Constants.{utc, five}

abbrev first_day : Bytes
first_day = codes "20151201"

abbrev second_day : Bytes
second_day = codes "20151202"

unfoldable pub two_days : ℕ → Bytes
two_days zero = first_day
two_days (suc zero) = second_day
two_days (suc (suc d)) = []

-- A calendar of two days.
abbrev pub december : Calendar
december = record {
  parse_day = λ s.
      if eqb_bytes s first_day then some 0 else if eqb_bytes s second_day then some 1 else none;
  format_day = two_days;
}

december-NextRises : NextRises december
unfolding atoi parse_int two_days
december-NextRises zero a b e e' = rises a b (same e) (same e')
  where
    same : {x y : ℤ} → ok x ≡ ok y → x ≡ y
    same q = cc

    rises : (x y : ℤ) → pos 20151201 ≡ x → pos 20151202 ≡ y → x <ℤ y
    rises x y p q =
        subst (λ (z : ℤ). z <ℤ y) p (subst (λ (z : ℤ). pos 20151201 <ℤ z) q (omega arith))
december-NextRises (suc zero) a b e e' = cc e'
december-NextRises (suc (suc d)) a b e e' = cc e'

abbrev days_text : Bytes
days_text = codes "20151201-20151202"

two_days_parsed : parse_day_range december days_text ≡ ok (pos 20151201 ∷ pos 20151202 ∷ [])
unfolding parse_day_range split_range check_lengths in_order parse_date days_from days_count atoi
    parse_int two_days eqb_bytes ltb_bytes ◌+ℤ◌ ◌-ℤ◌
two_days_parsed = refl

date_ranges_rise_example : IsSorted (pos 20151201 ∷ pos 20151202 ∷ [])
date_ranges_rise_example =
    date_ranges_rise december december-NextRises days_text (pos 20151201 ∷ pos 20151202 ∷ [])
      (inl two_days_parsed)

abbrev pub orders : ShardConfig
orders = record {
  db = codes "kingshard";
  table = codes "t";
  key = codes "ID";
  nodes = codes "node1" ∷ codes "node2" ∷ [];
  locations = pos 2 ∷ pos 2 ∷ [];
  kind = codes "hash";
  table_row_limit = pos 0;
  date_range = [];
}

abbrev pub orders_rule : Rule
orders_rule = record {
  db = codes "kingshard";
  table = codes "t";
  key = codes "id";
  kind = hash;
  nodes = codes "node1" ∷ codes "node2" ∷ [];
  sub_table_indexs = pos 0 ∷ pos 1 ∷ pos 2 ∷ pos 3 ∷ [];
  table_to_node = (pos 0, pos 0) ∷ (pos 1, pos 0) ∷ (pos 2, pos 1) ∷ (pos 3, pos 1) ∷ [];
  shard = hash_shard 4;
}

pub orders_parsed : parse_rule december orders ≡ ok orders_rule
unfolding parse_rule rule_type parse_tables parse_shard locate add_tables count_from map_put
    to_lower eqb_bytes ◌+ℤ◌
orders_parsed = refl

parse_rule-IsFilled_example : IsFilled 2 (orders_rule.sub_table_indexs, orders_rule.table_to_node)
parse_rule-IsFilled_example =
    parse_rule-IsFilled december december-NextRises orders (omega arith, (omega arith, tt))
      orders_rule orders_parsed

abbrev pub as_put : List ℤ → List ℤ
as_put l = l

pub as_put-IsRangeOrder : IsRangeOrder as_put
as_put-IsRangeOrder l a = (λ m. m, λ m. m)

pub five-ReadableLeaf : EachLeaf (ReadableLeaf orders_rule) five
unfolding parse_int get_value_type to_lower eqb_bytes
five-ReadableLeaf = (((pos 5, refl), tt), ((pos 6, refl), ((pos 5, refl), tt)))

pub five-OwnLeaf : EachLeaf (OwnLeaf orders_rule) five
unfolding eqb_bytes to_lower text
five-OwnLeaf = ((refl, tt, tt), (refl, tt, (tt, (tt, tt))))

pub five-Selects :
    Selects orders_rule (record { row = pos 5; value_of = hash_of; undecided = λ e. Unit {0} }) five
unfolding eqb_bytes to_lower parse_int hash_value to_u64 text
five-Selects = (refl, inr (inl refl))

pub five-Holds :
    Holds orders_rule (record { row = pos 5; value_of = hash_of; undecided = λ e. Unit {0} }) five
unfolding eqb_bytes to_lower parse_int hash_value to_u64
five-Holds = (refl, inr (inl refl))

pub is_hash : rule_type orders.kind ≡ hash
unfolding rule_type eqb_bytes
is_hash = refl

pub four_in_total : total orders.locations ≡ 4
four_in_total = refl

configured_hash_example :
    (plan : Plan) × (cal_route_indexs utc as_put (new_plan orders_rule) (of_bool five) ≡ ok plan)
    × In (hash_table 4 (pos 5)) plan.route_table_indexs
    × In (map_get (hash_table 4 (pos 5)) orders_rule.table_to_node) plan.route_node_indexs
    × IsNode 2 (hash_table 4 (pos 5), map_get (hash_table 4 (pos 5)) orders_rule.table_to_node)
configured_hash_example =
    configured_hash utc december as_put orders orders_rule 3 (pos 5) (λ e. Unit {0}) five
      as_put-IsRangeOrder (omega arith, (omega arith, tt)) is_hash four_in_total orders_parsed
      five-ReadableLeaf five-Holds

abbrev pub shop : SchemaConfig
shop = record {
  user = codes "root";
  nodes = codes "node1" ∷ codes "node2" ∷ [];
  default_node = codes "node1";
  shard_rule = orders ∷ [];
}

abbrev pub shop_router : Router
shop_router = record {
  rules = (codes "kingshard", (codes "t", orders_rule) ∷ []) ∷ [];
  default_rule = new_default_rule (codes "node1");
  nodes = codes "node1" ∷ codes "node2" ∷ [];
}

pub shop_made : new_router december shop ≡ ok shop_router
unfolding new_router add_shards add_shard add_rule check_nodes include_node is_default lookup put
    new_default_rule parse_rule rule_type parse_tables parse_shard locate add_tables count_from
    map_put to_lower eqb_bytes ◌+ℤ◌
shop_made = refl

router_knows_example :
    ((cfg : ShardConfig)
      → In cfg shop.shard_rule
      → (split_dots cfg.table).1 ≡ []
      → (r : Rule) × (parse_rule december cfg ≡ ok r)
        × (get_rule shop_router cfg.db cfg.table ≡ (r, shop_router)))
    × ((db table : Bytes)
        → ((cfg : ShardConfig) → In cfg shop.shard_rule → ¬ ((cfg.db ≡ db) × (cfg.table ≡ table)))
        → (split_dots table).1 ≡ []
        → (get_rule shop_router db table).0 ≡ record shop_router.default_rule { db = db })
router_knows_example = router_knows december shop shop_router shop_made
