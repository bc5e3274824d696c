-- ===== src/Router/Build/Counts.antt =====
-- What a plan that is built always sends: a statement for every table of its route. Builders has
-- the builder of each statement.
pub mod Builders
use kingshard.Prelude.{
  All, ℕ, zero, suc, ◌+◌, ℤ, Bytes, List, [], ◌∷◌, ◌++◌, ◌≡◌, ◌≢◌, refl, sym, ap, ◌∙◌, subst, arith,
  if◌then◌else◌, ◌⊎◌, inl, inr, length, length-append, Bool, true, false, not, ◌&&◌, none, some,
  Option, In, pos,
}
use kingshard.Outcome.{Result, ok, err, panic, both_returned, ◌>>=◌}
use kingshard.Outcome.Error.{no_route_node, no_criteria}
use kingshard.Sqlparser.Ast.{SelectExprs, Tuple, Where}
use kingshard.Sqlparser.Statements.{
  Select, Insert, Replace, Update, Delete, Truncate, InsertRows, select_rows, values, Statement,
  insert_statement, replace_statement, select_statement, update_statement, delete_statement,
  truncate_statement, other_statement, format_table_name,
}
use kingshard.Router.Shard.{LocalTime, index}
use kingshard.Router.Rule.{
  Rule, RuleType, default, hash, range, date_year, date_month, date_day, other, map_get,
}
use kingshard.Router.Registry.{Router, get_rule, is_default, check_update_exprs}
use kingshard.Router.Plan.Values.{Plan, new_plan}
use kingshard.Router.Plan.Routes.{
  Criteria, of_values, cal_route_indexs, route_criteria, with_nodes, tindexs_to_nindexs, clean_list,
  distinct, get_insert_table_index, get_ir_key_index, check_values_type,
}
use kingshard.Router.Plan.Routes.Nodes.{IsRangeOrder}
use kingshard.Router.Plan.Routes.Whole.{by_kind}
use kingshard.Router.Build.{
  Sqls, append_sql, generate_loop, send_whole, generate, Built, planned, generate_select_sql,
  generate_insert_sql, generate_update_sql, generate_delete_sql, generate_replace_sql,
  generate_truncate_sql,
}
use kingshard.Router.Build.Sends.{sqls_at, Sent, statements_for, generate_loop-sends}
use kingshard.Router.Build.Plans.{
  first_table, is_empty, all_tables, check_on_dup, has_tables, routed, with_rule, select_plan,
  update_plan, delete_plan, truncate_plan, insert_plan, replace_plan, select_named, insert_values,
  replace_values, build_select_plan, build_insert_plan, build_replace_plan, build_update_plan,
  build_delete_plan, build_truncate_plan, build_plan,
}

-- The number of statements.
unfoldable pub count : Sqls → ℕ
count [] = 0
count ((n, ss) ∷ sqls) = length ss + count sqls

-- One statement for every table, and one for a plan without tables.
abbrev pub expected : List ℤ → ℕ
expected [] = 1
expected (t ∷ ts) = suc (length ts)

-- The statements of the tables of a route, each on the node of its table and in the order of the
-- route; the whole statement on the first node, where there are no tables.
abbrev pub Placed : List Bytes → Rule → Bytes → (ℤ → Result Bytes) → List ℤ → Sqls → Type 0
Placed nodes rule whole render [] sqls =
    (node : Bytes) × (index nodes (pos 0) ≡ ok node) × (sqls ≡ (node, whole ∷ []) ∷ [])
Placed nodes rule whole render (t ∷ ts) sqls =
    (node : Bytes) → sqls_at node sqls ≡ statements_for nodes rule render node (t ∷ ts)

-- The statement of every table of the route, which only the default rule leaves empty.
abbrev pub OnePerTable : List Bytes → Bytes → (ℤ → Result Bytes) → Built → Type 0
OnePerTable nodes whole render (plan, sqls) =
    (count sqls ≡ expected plan.route_table_indexs)
    × ((is_default plan.rule.kind ≡ false) → plan.route_table_indexs ≢ [])
    × Placed nodes plan.rule whole render plan.route_table_indexs sqls

count-append_sql :
    (node sql : Bytes) (sqls : Sqls) → count (append_sql node sql sqls) ≡ suc (count sqls)
unfolding count append_sql
count-append_sql node sql [] = refl
count-append_sql node sql ((n, ss) ∷ sqls) =
    ground (arith, count-append_sql node sql sqls, length-append ss (sql ∷ []))

count-generate_loop :
    (nodes : List Bytes) (rule : Rule) (render : ℤ → Result Bytes) (ts : List ℤ) (sqls sqls' : Sqls)
    → generate_loop nodes rule render ts sqls ≡ ok sqls'
    → count sqls' ≡ length ts + count sqls
unfolding generate_loop
count-generate_loop nodes rule render [] sqls sqls' e = omega (arith, ap count (same e))
  where
    same : ok sqls ≡ ok sqls' → sqls' ≡ sqls
    same q = cc
count-generate_loop nodes rule render (t ∷ ts) sqls sqls' e =
    let (n, p, e1) = both_returned (index nodes (map_get t rule.table_to_node)) _ e in
    let (sql, q, e2) = both_returned (render t) _ e1 in
    omega (
      arith,
      count-generate_loop nodes rule render ts (append_sql n sql sqls) sqls' e2,
      count-append_sql n sql sqls,
    )

-- Where the loop returns, every table has a node and a statement.
loop-Sent :
    (nodes : List Bytes) (rule : Rule) (render : ℤ → Result Bytes) (ts : List ℤ) (sqls sqls' : Sqls)
    → generate_loop nodes rule render ts sqls ≡ ok sqls'
    → All (Sent nodes rule render) ts
unfolding generate_loop
loop-Sent nodes rule render [] sqls sqls' e = tt
loop-Sent nodes rule render (t ∷ ts) sqls sqls' e =
    let (n, p, e1) = both_returned (index nodes (map_get t rule.table_to_node)) _ e in
    let (sql, q, e2) = both_returned (render t) _ e1 in
    ((n, p, sql, q), loop-Sent nodes rule render ts (append_sql n sql sqls) sqls' e2)

same_sqls : {a b : Sqls} → ok a ≡ ok b → a ≡ b
same_sqls q = cc

loop-Placed :
    (nodes : List Bytes) (rule : Rule) (render : ℤ → Result Bytes) (t : ℤ) (ts : List ℤ)
    (sqls : Sqls)
    → generate_loop nodes rule render (t ∷ ts) [] ≡ ok sqls
    → (node : Bytes) → sqls_at node sqls ≡ statements_for nodes rule render node (t ∷ ts)
unfolding sqls_at
loop-Placed nodes rule render t ts sqls e node =
    let (sqls', done, at) =
      generate_loop-sends nodes rule render (t ∷ ts) []
        (loop-Sent nodes rule render (t ∷ ts) [] sqls e) in
    ap (sqls_at node) (same_sqls (sym e ∙ done)) ∙ at node

count-send_whole :
    (nodes : List Bytes) (whole : Bytes) (sqls : Sqls)
    → send_whole nodes whole ≡ ok sqls
    → count sqls ≡ 1
unfolding send_whole count
count-send_whole nodes whole sqls e =
    let (n, p, q) = both_returned (index nodes (pos 0)) _ e in sym (ap count (same n q))
  where
    same : (n : Bytes) → ok ((n, whole ∷ []) ∷ []) ≡ ok sqls → (n, whole ∷ []) ∷ [] ≡ sqls
    same n q = cc

-- Without nodes nothing is generated.
count-generate :
    (nodes : List Bytes) (plan : Plan) (whole : Bytes) (render : ℤ → Result Bytes) (sqls : Sqls)
    → generate nodes plan whole render ≡ ok sqls
    → (count sqls ≡ expected plan.route_table_indexs)
      × (plan.route_node_indexs ≢ [])
      × Placed nodes plan.rule whole render plan.route_table_indexs sqls
unfolding generate count send_whole
count-generate nodes plan whole render sqls e =
    by_route plan.route_node_indexs plan.route_table_indexs e
  where
    first_node :
        send_whole nodes whole ≡ ok sqls
        → (node : Bytes) × (index nodes (pos 0) ≡ ok node) × (sqls ≡ (node, whole ∷ []) ∷ [])
    first_node q =
        let (n, p, q') = both_returned (index nodes (pos 0)) _ q in (n, p, same_sqls (sym q'))

    by_route :
        (ns ts : List ℤ)
        → (elim ns as (λ _. Result Sqls) [
          | [] ↦ err no_route_node
          | n ∷ ns' ↦ elim ts [
            | [] ↦ send_whole nodes whole
            | t ∷ ts' ↦ generate_loop nodes plan.rule render (t ∷ ts') []
          ]
        ])
          ≡ ok sqls
        → (count sqls ≡ expected ts) × (ns ≢ []) × Placed nodes plan.rule whole render ts sqls
    by_route [] ts q = cc q
    by_route (n ∷ ns) [] q = (count-send_whole nodes whole sqls q, λ z. cc z, first_node q)
    by_route (n ∷ ns) (t ∷ ts) q = (
      omega (arith, count-generate_loop nodes plan.rule render (t ∷ ts) [] sqls q),
      λ z. cc z,
      loop-Placed nodes plan.rule render t ts sqls q,
    )

-- Where a route without tables has no nodes either, or is refused.
pub generated-OnePerTable :
    (nodes : List Bytes) (plan : Plan) (whole : Bytes) (render : ℤ → Result Bytes) (b : Built)
    → ((is_default plan.rule.kind ≡ false)
        → plan.route_table_indexs ≡ []
        → plan.route_node_indexs ≡ [])
    → planned plan (generate nodes plan whole render) ≡ ok b
    → (sqls : Sqls) × ((plan, sqls) ≡ b) × OnePerTable nodes whole render (plan, sqls)
unfolding planned
generated-OnePerTable nodes plan whole render b h e =
    let (sqls, p, q) = both_returned (generate nodes plan whole render) _ e in
    let (n, some_node, placed) = count-generate nodes plan whole render sqls p in
    (sqls, same sqls q, (n, λ d none_left. some_node (h d none_left), placed))
  where
    same : (sqls : Sqls) → ok (plan, sqls) ≡ ok b → (plan, sqls) ≡ b
    same sqls q = cc
