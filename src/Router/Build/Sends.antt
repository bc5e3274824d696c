-- ===== src/Router/Build/Sends.antt =====
-- The statements that each node gets are those of its tables, in the order of the route.
use kingshard.Prelude.{
  ℤ, Bytes, eqb_bytes, eqb_bytes→eq, eqb_bytes_refl, List, [], ◌∷◌, ◌++◌, ◌≡◌, ◌≢◌, refl, sym, ◌∙◌,
  arith, append_assoc, append-nil, All, if◌then◌else◌,
}
use kingshard.Outcome.{Result, ok, err}
use kingshard.Outcome.Error.{no_route_node}
use kingshard.Router.Shard.{index}
use kingshard.Router.Rule.{Rule, map_get}
use kingshard.Router.Plan.Values.{Plan}
use kingshard.Router.Build.{Sqls, append_sql, generate_loop, send_whole, generate}

-- The statements that a node gets: none where the map has no entry.
unfoldable pub sqls_at : Bytes → Sqls → List Bytes
sqls_at node [] = []
sqls_at node ((n, ss) ∷ sqls) = if eqb_bytes n node then ss else sqls_at node sqls

sqls_at-append_sql :
    (node n sql : Bytes) (sqls : Sqls)
    → sqls_at node (append_sql n sql sqls)
      ≡ (if eqb_bytes n node then sqls_at node sqls ++ (sql ∷ []) else sqls_at node sqls)
unfolding sqls_at append_sql
sqls_at-append_sql node n sql [] = ground arith
sqls_at-append_sql node n sql ((k, ss) ∷ sqls) = ground (
  arith,
  sqls_at-append_sql node n sql sqls,
  eqb_bytes→eq k n,
  eqb_bytes→eq k node,
  eqb_bytes→eq n node,
  eqb_bytes_refl n,
  eqb_bytes_refl node,
)

module _ (nodes : List Bytes) (rule : Rule) (render : ℤ → Result Bytes) where
  -- The node of a table, and its statement.
  abbrev pub Sent : ℤ → Type 0
  Sent t =
      (node : Bytes) × (index nodes (map_get t rule.table_to_node) ≡ ok node)
      × (sql : Bytes) × (render t ≡ ok sql)

  -- The statements of the tables that are on a node, in the order of the tables.
  unfoldable pub statements_for : Bytes → List ℤ → List Bytes
  statements_for node [] = []
  statements_for node (t ∷ ts) =
      let rest = statements_for node ts in
      elim (index nodes (map_get t rule.table_to_node)) [
        | ok n ↦ elim (render t) [
          | ok sql ↦ if eqb_bytes n node then sql ∷ rest else rest
          | _ ↦ rest
        ]
        | _ ↦ rest
      ]

  pub statements_for-sent :
      (node n sql : Bytes) (t : ℤ) (ts : List ℤ)
      → index nodes (map_get t rule.table_to_node) ≡ ok n
      → render t ≡ ok sql
      → statements_for node (t ∷ ts)
        ≡ (if eqb_bytes n node then sql ∷ statements_for node ts else statements_for node ts)
  unfolding statements_for
  statements_for-sent node n sql t ts e q = rw (e, statements_for) (rw q refl)

  pub generate_loop-sends :
      (ts : List ℤ) (sqls : Sqls)
      → All Sent ts
      → (sqls' : Sqls) × (generate_loop nodes rule render ts sqls ≡ ok sqls')
        × ((node : Bytes) → sqls_at node sqls' ≡ sqls_at node sqls ++ statements_for node ts)
  unfolding generate_loop statements_for
  generate_loop-sends [] sqls h = (sqls, refl, λ node. sym (append-nil (sqls_at node sqls)))
  generate_loop-sends (t ∷ ts) sqls ((n, e, sql, q), h) =
      let (sqls', done, at) = generate_loop-sends ts (append_sql n sql sqls) h in
      (sqls', rw e (rw q done), λ node. at node ∙ joined node)
    where
      joined :
          (node : Bytes)
          → sqls_at node (append_sql n sql sqls) ++ statements_for node ts
            ≡ sqls_at node sqls ++ statements_for node (t ∷ ts)
      joined node = ground (
        arith,
        statements_for-sent node n sql t ts e q,
        sqls_at-append_sql node n sql sqls,
        append_assoc (sqls_at node sqls) (sql ∷ []) (statements_for node ts),
      )

pub generate-loops :
    (nodes : List Bytes) (plan : Plan) (whole : Bytes) (render : ℤ → Result Bytes)
    → plan.route_node_indexs ≢ []
    → plan.route_table_indexs ≢ []
    → generate nodes plan whole render
      ≡ generate_loop nodes plan.rule render plan.route_table_indexs []
unfolding generate
generate-loops nodes plan whole render h h' =
    by_route plan.route_node_indexs plan.route_table_indexs h h'
  where
    by_route :
        (ns ts : List ℤ)
        → ns ≢ []
        → ts ≢ []
        → (elim ns as (λ _. Result Sqls) [
          | [] ↦ err no_route_node
          | n ∷ ns' ↦ elim ts [
            | [] ↦ send_whole nodes whole
            | t ∷ ts' ↦ generate_loop nodes plan.rule render (t ∷ ts') []
          ]
        ])
          ≡ generate_loop nodes plan.rule render ts []
    by_route [] ts n m = absurd (n refl)
    by_route (k ∷ ns) [] n m = absurd (m refl)
    by_route (k ∷ ns) (t ∷ ts) n m = refl

-- Each node gets exactly the statements of its tables. Take a plan whose nodes and tables are not
-- empty, where every table of the route has a node of the router and a statement. Then the
-- statements are generated, and what any node gets is the list of the statements of those tables
-- of the route that are on it, in the order of the route, and nothing for a node without a table.
pub generate-sends :
    (nodes : List Bytes) (plan : Plan) (whole : Bytes) (render : ℤ → Result Bytes)
    → plan.route_node_indexs ≢ []
    → plan.route_table_indexs ≢ []
    → All (Sent nodes plan.rule render) plan.route_table_indexs
    → (sqls : Sqls) × (generate nodes plan whole render ≡ ok sqls)
      × ((node : Bytes)
          → sqls_at node sqls ≡ statements_for nodes plan.rule render node plan.route_table_indexs)
unfolding sqls_at
generate-sends nodes plan whole render ns ts h =
    let (sqls, done, at) =
      generate_loop-sends nodes plan.rule render plan.route_table_indexs [] h in
    (sqls, generate-loops nodes plan whole render ns ts ∙ done, at)
