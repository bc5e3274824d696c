-- ===== src/Tests/Routes.antt =====
-- Routes of criteria at a hash rule and a range rule of four tables.
use kingshard.Prelude.{
  wrap_i64, ◌*ℤ◌, ◌+ℤ◌, ◌-ℤ◌, eqb_bytes, to_u64, pos, [], ◌∷◌, In, IsSorted, ◌≡◌, refl, arith, inl,
  inr,
}
use kingshard.Outcome.{ok}
use kingshard.Router.Plan.Values.{
  get_value_type, to_lower, get_table_index_by_value, get_bound_value,
}
use kingshard.Router.Plan.Tuples.{get_table_indexs_by_tuple}
use kingshard.Strconv.{parse_int}
use kingshard.Router.Shard.{hash_value, num_value, find_for_key, find_range, ranges_from}
use kingshard.Router.Rule.{find_table_index}
use kingshard.Router.IntList.{
  inter_list, inter_loop, union_list, union_loop, count_from, make_list, make_between_list,
}
use kingshard.Router.Plan.Criteria.{
  route_comparison, route_range, get_table_indexs, get_table_index_by_bool_expr,
}
use kingshard.Router.Plan.Meaning.{Holds}
use kingshard.Router.Plan.Ordered.{Ordered, route-Ordered}
use kingshard.Router.Plan.Located.Hash.{hash_of, hash_route_complete}
use kingshard.Router.Plan.Located.Numeric.{number_of, numeric_route_complete}
use kingshard.Tests.Constants.{five_after, utc, hash_plan, range_plan, five, spans}

tables-IsSorted : IsSorted hash_plan.rule.sub_table_indexs
tables-IsSorted = omega arith

route-Ordered_example : Ordered range_plan (get_table_index_by_bool_expr utc spans range_plan)
route-Ordered_example = route-Ordered utc spans range_plan tables-IsSorted tt

five_meaning :
    Holds hash_plan.rule
      (record { row = pos 5; value_of = hash_of; undecided = λ e. Unit {0} })
      five
unfolding eqb_bytes to_lower parse_int hash_value to_u64
five_meaning = (refl, inr (inl refl))

pub five_route : get_table_index_by_bool_expr utc five hash_plan ≡ ok (pos 1 ∷ [], five_after)
unfolding get_table_index_by_bool_expr route_comparison get_value_type eqb_bytes to_lower
    get_table_indexs get_table_index_by_value get_bound_value parse_int find_table_index
    find_for_key hash_value get_table_indexs_by_tuple inter_list to_u64 inter_loop
five_route = refl

hash_route_complete_example : In (pos 1) (pos 1 ∷ [])
hash_route_complete_example =
    hash_route_complete utc hash_plan five_after 4 (pos 5) (λ e. Unit {0}) five (pos 1 ∷ []) refl
      refl tables-IsSorted tt (inr (inl refl)) five_meaning five_route

spans_meaning :
    Holds range_plan.rule
      (record { row = pos 120; value_of = number_of; undecided = λ e. Unit {0} })
      spans
unfolding eqb_bytes to_lower parse_int num_value
spans_meaning = inl (omega arith, omega arith)

spans_route :
    get_table_index_by_bool_expr utc spans range_plan ≡ ok (pos 0 ∷ pos 1 ∷ pos 3 ∷ [], range_plan)
unfolding get_table_index_by_bool_expr route_comparison route_range get_value_type eqb_bytes
    to_lower get_table_indexs get_table_index_by_value get_bound_value parse_int find_table_index
    find_for_key num_value find_range union_list union_loop make_list make_between_list ranges_from
    wrap_i64 ◌*ℤ◌ ◌+ℤ◌ count_from ◌-ℤ◌
spans_route = refl

numeric_route_complete_example : In (pos 1) (pos 0 ∷ pos 1 ∷ pos 3 ∷ [])
numeric_route_complete_example =
    numeric_route_complete utc range_plan range_plan 4 100 120 (λ e. Unit {0}) spans
      (pos 0 ∷ pos 1 ∷ pos 3 ∷ []) refl refl (omega arith) refl tables-IsSorted tt (inr (inl refl))
      (omega arith) (tt, tt) spans_meaning spans_route
