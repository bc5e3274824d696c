-- ===== src/Router/Plan/Routes/Whole.antt =====
-- The route of a condition as a whole: its tables, and the nodes that the statement goes to.
use kingshard.Prelude.{ℤ, List, In, IsSorted, ◌≡◌, ◌≢◌, refl, sym, subst, ◌∙◌, ◌↔◌, ℕ}
use kingshard.Outcome.{Result, ok, both_returned}
use kingshard.Sqlparser.Ast.{BoolExpr}
use kingshard.Router.Shard.{LocalTime, hash_shard}
use kingshard.Router.Rule.{
  Rule, RuleType, default, hash, range, date_year, date_month, date_day, other, map_get,
}
use kingshard.Router.Plan.Values.{Plan}
use kingshard.Router.Plan.Criteria.{get_table_index_by_bool_expr}
use kingshard.Router.Plan.Ordered.{Ordered, route-Ordered}
use kingshard.Router.Plan.Finds.{EachLeaf}
use kingshard.Router.Plan.Meaning.Owned.{OwnLeaf, Selects, Selects-Holds}
use kingshard.Router.Plan.Meaning.{Holds}
use kingshard.Router.Plan.Located.Hash.{hash_of, hash_table, hash_route_complete}
use kingshard.Router.Plan.Routes.{
  of_bool, with_nodes, route_criteria, cal_route_indexs, tindexs_to_nindexs,
}
use kingshard.Router.Plan.Routes.Nodes.{IsRangeOrder, nodes_of_tables}

pub by_kind :
    (a b : Result Plan) (k : RuleType)
    → k ≢ default
    → (elim k as (λ x. Result Plan) [ default ↦ a | _ ↦ b ]) ≡ b
by_kind a b default n = absurd (n refl)
by_kind a b hash n = refl
by_kind a b range n = refl
by_kind a b date_year n = refl
by_kind a b date_month n = refl
by_kind a b date_day n = refl
by_kind a b (other s) n = refl

Ordered-rule :
    (plan p : Plan) (ts : List ℤ) (m : Result (List ℤ × Plan))
    → Ordered plan m
    → m ≡ ok (ts, p)
    → p.rule ≡ plan.rule
Ordered-rule plan p ts m o e = (subst (λ (z : Result (List ℤ × Plan)). Ordered plan z) e o).1

-- For a rule that is not the default one, with its sub-tables in order, and a plan with no route
-- yet: where `calRouteIndexs` returns for a condition, the tables it sets are those of the
-- condition, and the nodes it sets are the nodes of these tables, all of them and no other.
pub route_nodes :
    (time : LocalTime) (order : List ℤ → List ℤ) (plan plan' : Plan) (e : BoolExpr)
    → IsRangeOrder order
    → plan.rule.kind ≢ default
    → IsSorted plan.rule.sub_table_indexs
    → IsSorted plan.route_table_indexs
    → cal_route_indexs time order plan (of_bool e) ≡ ok plan'
    → ((p : Plan) × (get_table_index_by_bool_expr time e plan ≡ ok (plan'.route_table_indexs, p)))
      × ((n : ℤ)
          → In n plan'.route_node_indexs
            ↔ ((t : ℤ) × In t plan'.route_table_indexs × (n ≡ map_get t plan.rule.table_to_node)))
unfolding cal_route_indexs route_criteria with_nodes
route_nodes time order plan plan' e v sharded s t h =
    let ((ts, p), found, done) =
      both_returned (get_table_index_by_bool_expr time e plan) _
        (sym (by_kind _ _ plan.rule.kind sharded) ∙ h) in
    subst
      (λ (z : Plan).
        ((q : Plan) × (get_table_index_by_bool_expr time e plan ≡ ok (z.route_table_indexs, q)))
        × ((n : ℤ)
            → In n z.route_node_indexs
              ↔ ((t : ℤ) × In t z.route_table_indexs × (n ≡ map_get t plan.rule.table_to_node))))
      (same_plan done)
      (
        (p, found),
        λ n.
            subst
              (λ (r : Rule).
                In n (tindexs_to_nindexs order p ts)
                ↔ ((t : ℤ) × In t ts × (n ≡ map_get t r.table_to_node)))
              (Ordered-rule plan p ts _ (route-Ordered time e plan s t) found)
              (nodes_of_tables order p ts n v),
      )
  where
    same_plan : {a b : Plan} → ok a ≡ ok b → a ≡ b
    same_plan q = cc

-- The tables and the nodes of a route, for a condition on the key of a row.
pub hash_routes_row :
    (time : LocalTime) (order : List ℤ → List ℤ) (plan plan' : Plan) (n : ℕ) (row : ℤ)
    (undecided : BoolExpr → Type 0) (e : BoolExpr)
    → IsRangeOrder order
    → plan.rule.kind ≡ hash
    → plan.rule.shard ≡ hash_shard n
    → IsSorted plan.rule.sub_table_indexs
    → IsSorted plan.route_table_indexs
    → In (hash_table n row) plan.rule.sub_table_indexs
    → Holds plan.rule (record { row = row; value_of = hash_of; undecided = undecided }) e
    → cal_route_indexs time order plan (of_bool e) ≡ ok plan'
    → In (hash_table n row) plan'.route_table_indexs
      × In (map_get (hash_table n row) plan.rule.table_to_node) plan'.route_node_indexs
hash_routes_row time order plan plan' n row undecided e v kind shard s u member h r =
    let ((p, found), nodes) = route_nodes time order plan plan' e v (not_default kind) s u r in
    let m =
      hash_route_complete time plan p n row undecided e plan'.route_table_indexs kind shard s u
        member h found in
    (m, (nodes (map_get (hash_table n row) plan.rule.table_to_node)).1 (hash_table n row, m, refl))
  where
    not_default : plan.rule.kind ≡ hash → plan.rule.kind ≢ default
    not_default e d = cc

-- A SELECT, an UPDATE or a DELETE on a hash rule goes to the node of every row of the sharded table
-- that it is about. Take a plan for a rule of type hash with `n` tables, whose sub-table indexes and
-- earlier route are sorted, a condition whose columns with the name of the key have no qualifier
-- but the table's name, (joined tables have no such column), and a row that satisfies the condition,
-- where literals stand for the 64-bit hashes of their keys and the row's table, its hash modulo
-- `n`, is a sub-table of the rule. Whatever the order in which Go ranges over a map, where
-- `calRouteIndexs` returns, the plan's tables hold the row's table, and its nodes hold the node of
-- that table.
pub hash_reaches_node :
    (time : LocalTime) (order : List ℤ → List ℤ) (plan plan' : Plan) (n : ℕ) (row : ℤ)
    (undecided : BoolExpr → Type 0) (e : BoolExpr)
    → IsRangeOrder order
    → plan.rule.kind ≡ hash
    → plan.rule.shard ≡ hash_shard n
    → IsSorted plan.rule.sub_table_indexs
    → IsSorted plan.route_table_indexs
    → In (hash_table n row) plan.rule.sub_table_indexs
    → EachLeaf (OwnLeaf plan.rule) e
    → Selects plan.rule (record { row = row; value_of = hash_of; undecided = undecided }) e
    → cal_route_indexs time order plan (of_bool e) ≡ ok plan'
    → In (hash_table n row) plan'.route_table_indexs
      × In (map_get (hash_table n row) plan.rule.table_to_node) plan'.route_node_indexs
hash_reaches_node time order plan plan' n row undecided e v kind shard s u member own h r =
    hash_routes_row time order plan plan' n row undecided e v kind shard s u member
      (Selects-Holds plan.rule (record { row = row; value_of = hash_of; undecided = undecided }) e
        own h)
      r
