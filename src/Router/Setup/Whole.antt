-- ===== src/Router/Setup/Whole.antt =====
-- From the configuration of a table to the nodes that its rows are found on.
use kingshard.Prelude.{
  ℕ, suc, ◌%◌, ℤ, pos, negsuc, ◌≤ℤ◌, List, [], ◌∷◌, In, All, ◌≡◌, ◌≢◌, refl, sym, subst, ap, ◌∙◌,
  arith, length,
}
use kingshard.Outcome.{ok}
use kingshard.Config.{ShardConfig}
use kingshard.Sqlparser.Ast.{BoolExpr}
use kingshard.Router.IntList.{count_from}
use kingshard.Router.IntList.Slices.{count_from-In}
use kingshard.Router.Shard.{LocalTime, hash_shard}
use kingshard.Router.Rule.{Rule, default, hash, map_get}
use kingshard.Router.DateRange.{Calendar}
use kingshard.Router.Setup.{rule_type, parse_rule}
use kingshard.Router.Setup.Tables.{IsNode, map_get-IsNode}
use kingshard.Router.Setup.Filled.{total}
use kingshard.Router.Setup.Reach.{hash_rule}
use kingshard.Router.Plan.Values.{Plan, new_plan}
use kingshard.Router.Plan.Criteria.{get_table_index_by_bool_expr}
use kingshard.Router.Plan.Meaning.{Holds}
use kingshard.Router.Plan.Finds.{EachLeaf}
use kingshard.Router.Plan.Returns.{ReadableLeaf, hash_route-Returns}
use kingshard.Router.Plan.Located.Hash.{hash_of, hash_table}
use kingshard.Router.Plan.Routes.{
  of_bool, cal_route_indexs, with_nodes, route_criteria, tindexs_to_nindexs,
}
use kingshard.Router.Plan.Routes.Nodes.{IsRangeOrder}
use kingshard.Router.Plan.Routes.Whole.{by_kind, hash_routes_row}

-- A route that returns gives a plan.
cal_route-returns :
    (time : LocalTime) (order : List ℤ → List ℤ) (plan p : Plan) (e : BoolExpr) (l : List ℤ)
    → plan.rule.kind ≢ default
    → get_table_index_by_bool_expr time e plan ≡ ok (l, p)
    → (plan' : Plan) × (cal_route_indexs time order plan (of_bool e) ≡ ok plan')
unfolding cal_route_indexs route_criteria with_nodes
cal_route-returns time order plan p e l sharded q = (
  record p { route_table_indexs = l; route_node_indexs = tindexs_to_nindexs order p l },
  by_kind (ok (record plan { route_node_indexs = pos 0 ∷ [] }))
        (route_criteria time order plan (of_bool e)) plan.rule.kind sharded
      ∙ rw q refl,
)

hash_table-In : (n : ℕ) (row : ℤ) → In (hash_table (suc n) row) (count_from (pos 0) (suc n))
hash_table-In n (pos h) =
    count_from-In (pos (h % suc n)) (pos 0) (suc n) (omega arith) (omega arith)
hash_table-In n (negsuc h) = count_from-In (pos 0) (pos 0) (suc n) (omega arith) (omega arith)

-- A hash table that is configured serves its rows. Take a configuration of type hash that
-- `parseRule` accepts, with table counts that are not negative and not all 0, and a condition whose
-- literals can be read and which a row satisfies, where literals stand for the 64-bit hashes of
-- their keys. Then `calRouteIndexs` returns, whatever the order in which Go ranges over a map: the
-- plan's tables hold the table of the row, the plan's nodes hold the node of that table, and that
-- node is one of those which the configuration lists.
pub configured_hash :
    (time : LocalTime) (cal : Calendar) (order : List ℤ → List ℤ) (cfg : ShardConfig) (r : Rule)
    (n : ℕ) (row : ℤ) (undecided : BoolExpr → Type 0) (e : BoolExpr)
    → IsRangeOrder order
    → All (λ l. pos 0 ≤ℤ l) cfg.locations
    → rule_type cfg.kind ≡ hash
    → total cfg.locations ≡ suc n
    → parse_rule cal cfg ≡ ok r
    → EachLeaf (ReadableLeaf r) e
    → Holds r (record { row = row; value_of = hash_of; undecided = undecided }) e
    → (plan : Plan) × (cal_route_indexs time order (new_plan r) (of_bool e) ≡ ok plan)
      × In (hash_table (suc n) row) plan.route_table_indexs
      × In (map_get (hash_table (suc n) row) r.table_to_node) plan.route_node_indexs
      × IsNode
          (length r.nodes)
          (hash_table (suc n) row, map_get (hash_table (suc n) row) r.table_to_node)
configured_hash time cal order cfg r n row undecided e v counts k t q readable holds =
    let (kind, shard, tables, filled) = hash_rule cal cfg counts r k q in
    let shard' = shard ∙ ap hash_shard t in
    let member : In (hash_table (suc n) row) r.sub_table_indexs =
      subst (λ (l : List ℤ). In (hash_table (suc n) row) l)
        (sym (tables ∙ ap (λ (j : ℕ). count_from (pos 0) j) t)) (hash_table-In n row) in
    let (l, p, found, same) = hash_route-Returns time n e (new_plan r) kind shard' readable in
    let (plan, done) = cal_route-returns time order (new_plan r) p e l (not_default kind) found in
    let (m, at_node) =
      hash_routes_row time order (new_plan r) plan (suc n) row undecided e v kind shard'
        filled.sorted tt member holds done in
    (
      plan,
      done,
      m,
      at_node,
      map_get-IsNode (length r.nodes) (hash_table (suc n) row) r.table_to_node
          (subst (λ (xs : List ℤ). In (hash_table (suc n) row) xs) (sym filled.keyed) member)
          filled.nodes,
    )
  where
    not_default : r.kind ≡ hash → r.kind ≢ default
    not_default e d = cc
