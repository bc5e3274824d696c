-- ===== src/Tests/Plans.antt =====
-- The tables, nodes and rows of plans on the hash rule of four tables.
use kingshard.Prelude.{
  ℤ, pos, codes, List, [], ◌∷◌, In, ◌≡◌, ◌↔◌, refl, inl, inr, arith, eqb_bytes, to_u64,
}
use kingshard.Outcome.{ok}
use kingshard.Strconv.{parse_int}
use kingshard.Sqlparser.Ast.{ValExprs, Tuple, tuple_row, num_val, str_val, cons, nil}
use kingshard.Router.Shard.{hash_value, find_for_key}
use kingshard.Router.Rule.{map_get, find_table_index}
use kingshard.Router.IntList.{inter_list, inter_loop}
use kingshard.Router.Plan.Values.{
  Plan, get_value_type, to_lower, get_table_index_by_value, get_bound_value,
}
use kingshard.Router.Plan.Tuples.{get_table_indexs_by_tuple}
use kingshard.Router.Plan.Criteria.{
  get_table_index_by_bool_expr, route_comparison, get_table_indexs,
}
use kingshard.Router.Plan.Located.Hash.{hash_of}
use kingshard.Router.Plan.Meaning.{Holds}
use kingshard.Router.Plan.Routes.{of_bool, cal_route_indexs, tindexs_to_nindexs}
use kingshard.Router.Plan.Routes.Nodes.{IsRangeOrder, nodes_of_tables}
use kingshard.Router.Plan.Qualifiers.{text}
use kingshard.Router.Plan.Meaning.Owned.{OwnLeaf, Selects}
use kingshard.Router.Plan.Routes.Whole.{hash_reaches_node}
use kingshard.Router.Plan.Finds.{EachLeaf}
use kingshard.Router.Plan.Returns.{Returns}
use kingshard.Tests.Constants.{utc, hash_plan, five, five_after}

-- Go may well range over the keys in the order they were put in.
abbrev as_put : List ℤ → List ℤ
as_put l = l

as_put-IsRangeOrder : IsRangeOrder as_put
as_put-IsRangeOrder l a = (λ m. m, λ m. m)

nodes_of_tables_example :
    In (pos 1) (tindexs_to_nindexs as_put hash_plan (pos 1 ∷ pos 2 ∷ []))
    ↔ ((t : ℤ) × In t (pos 1 ∷ pos 2 ∷ []) × (pos 1 ≡ map_get t hash_plan.rule.table_to_node))
nodes_of_tables_example =
    nodes_of_tables as_put hash_plan (pos 1 ∷ pos 2 ∷ []) (pos 1) as_put-IsRangeOrder

abbrev row : ValExprs
row = cons (num_val (codes "7")) (cons (str_val (codes "x")) nil)

abbrev one_row : List Tuple
one_row = tuple_row row ∷ []

five-Holds :
    Holds hash_plan.rule
      (record { row = pos 5; value_of = hash_of; undecided = λ e. Unit {0} })
      five
unfolding eqb_bytes to_lower parse_int hash_value to_u64
five-Holds = (refl, inr (inl refl))

five-OwnLeaf : EachLeaf (OwnLeaf hash_plan.rule) five
unfolding eqb_bytes to_lower text
five-OwnLeaf = ((refl, tt, tt), (refl, tt, (tt, (tt, tt))))

five-Selects :
    Selects hash_plan.rule
      (record { row = pos 5; value_of = hash_of; undecided = λ e. Unit {0} })
      five
unfolding eqb_bytes to_lower parse_int hash_value to_u64 text
five-Selects = (refl, inr (inl refl))

abbrev five_planned : Plan
five_planned = record five_after { route_table_indexs = pos 1 ∷ []; route_node_indexs = pos 0 ∷ [] }

five_plan : cal_route_indexs utc as_put hash_plan (of_bool five) ≡ ok five_planned
unfolding cal_route_indexs get_table_index_by_bool_expr route_comparison get_value_type eqb_bytes
    to_lower get_table_indexs get_table_index_by_value get_bound_value parse_int find_table_index
    find_for_key hash_value get_table_indexs_by_tuple to_u64 inter_list inter_loop map_get
five_plan = refl

hash_reaches_node_example : In (pos 1) (pos 1 ∷ []) × In (pos 0) (pos 0 ∷ [])
unfolding map_get
hash_reaches_node_example =
    hash_reaches_node utc as_put hash_plan five_planned 4 (pos 5) (λ e. Unit {0}) five
      as_put-IsRangeOrder refl refl (omega arith) tt (inr (inl refl)) five-OwnLeaf five-Selects
      five_plan
