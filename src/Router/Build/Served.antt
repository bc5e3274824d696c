-- ===== src/Router/Build/Served.antt =====
-- From the configuration of a table to the statement that a row's node gets.
use kingshard.Prelude.{
  ℕ, suc, ◌<◌, ℤ, pos, ◌≤ℤ◌, Bytes, codes, List, [], ◌∷◌, ◌++◌, In, All, IsSorted, length, ◌≡◌, ◌≢◌,
  refl, sym, ap, ◌∙◌, subst, arith, Bool, true, false, not, ◌&&◌, if◌then◌else◌,
}
use kingshard.Outcome.{Result, ok, err, ◌>>=◌, both_returned}
use kingshard.Outcome.Error.{no_criteria}
use kingshard.Config.{ShardConfig}
use kingshard.Sqlparser.Ast.{BoolExpr, where_clause, TableExprs, no_tables, table_exprs}
use kingshard.Sqlparser.Format.{format_select, format_table_exprs}
use kingshard.Sqlparser.Statements.{Select, select_statement, select_node}
use kingshard.Router.Shard.{LocalTime, index}
use kingshard.Router.Rule.{Rule, default, hash, map_get}
use kingshard.Router.DateRange.{Calendar}
use kingshard.Router.Setup.{rule_type, parse_rule}
use kingshard.Router.Setup.Filled.{total}
use kingshard.Router.Setup.Reach.{hash_rule}
use kingshard.Router.Setup.Whole.{configured_hash}
use kingshard.Router.Registry.{Router, get_rule, is_default}
use kingshard.Router.Plan.Values.{Plan, new_plan}
use kingshard.Router.Plan.Qualifiers.{looked_at}
use kingshard.Router.Plan.Criteria.{get_table_index_by_bool_expr}
use kingshard.Router.Plan.Ordered.{Ordered, route-Ordered}
use kingshard.Router.Plan.Finds.{EachLeaf}
use kingshard.Router.Plan.Returns.{ReadableLeaf}
use kingshard.Router.Plan.Meaning.Owned.{OwnLeaf, Selects, Selects-Holds}
use kingshard.Router.Plan.Located.Hash.{hash_of, hash_table}
use kingshard.Router.Plan.Routes.{of_bool, cal_route_indexs, with_nodes, route_criteria}
use kingshard.Router.Plan.Routes.Nodes.{IsRangeOrder}
use kingshard.Router.Plan.Routes.Whole.{by_kind}
use kingshard.Router.Rewrite.{rewrite_first, rewrite_tables, rewrite_select_sql}
use kingshard.Router.Build.{Sqls, Built, generate, planned, generate_select_sql}
use kingshard.Router.Build.Plans.{
  first_table, is_empty, has_tables, routed, select_plan, select_named, build_select_plan,
  with_rule, build_plan,
}
use kingshard.Router.Build.Sends.{sqls_at, Sent}
use kingshard.Router.Build.Delivers.{node_of, All-of, In-some, generate-delivers}

-- A route that returns keeps the rule.
cal_route-rule :
    (time : LocalTime) (order : List ℤ → List ℤ) (plan plan' : Plan) (e : BoolExpr)
    → plan.rule.kind ≢ default
    → IsSorted plan.rule.sub_table_indexs
    → IsSorted plan.route_table_indexs
    → cal_route_indexs time order plan (of_bool e) ≡ ok plan'
    → plan'.rule ≡ plan.rule
unfolding cal_route_indexs route_criteria with_nodes
cal_route-rule time order plan plan' e sharded s t h =
    let ((ts, p), found, done) =
      both_returned (get_table_index_by_bool_expr time e plan) _
        (sym (by_kind _ _ plan.rule.kind sharded) ∙ h) in
    subst (λ (z : Plan). z.rule ≡ plan.rule) (same_plan done)
      ((subst (λ (m : Result (List ℤ × Plan)). Ordered plan m) found
        (route-Ordered time e plan s t)).1)
  where
    same_plan : {a b : Plan} → ok a ≡ ok b → a ≡ b
    same_plan q = cc

has_tables-In : (plan : Plan) (t : ℤ) → In t plan.route_table_indexs → has_tables plan ≡ ok tt
unfolding has_tables
has_tables-In plan t m = allowed (is_default plan.rule.kind) plan.route_table_indexs m
  where
    allowed :
        (d : Bool) (ts : List ℤ)
        → In t ts
        → ◌≡◌ {A = Result (Unit {0})}
            (if not d && is_empty ts then err no_criteria else ok tt)
            (ok tt)
    allowed d [] i = absurd i
    allowed true (u ∷ ts) i = refl
    allowed false (u ∷ ts) i = refl

rewrite_tables-returns :
    (i : ℤ) (tables : TableExprs) (name : Bytes)
    → first_table tables ≡ ok name
    → (text : Bytes) × (rewrite_tables i tables ≡ ok text)
unfolding first_table rewrite_tables
rewrite_tables-returns i no_tables name h = cc h
rewrite_tables-returns i (table_exprs t ts) name h =
    (rewrite_first i t ++ format_table_exprs (codes ", ") ts, refl)

bind_ok :
    {A B : Type 0} (m : Result A) (f : A → B) (a : A)
    → m ≡ ok a
    → (b : B) × ((m >>= λ x. ok (f x)) ≡ ok b)
bind_ok m f a e = (f a, rw e refl)

-- A SELECT that names a table has a statement for every sub-table.
rewrite_select_sql-returns :
    (plan : Plan) (s : Select) (name : Bytes) (i : ℤ)
    → first_table s.tables ≡ ok name
    → (sql : Bytes) × (rewrite_select_sql plan s i ≡ ok sql)
unfolding rewrite_select_sql
rewrite_select_sql-returns plan s name i h =
    let (text, e) = rewrite_tables-returns i s.tables name h in
    bind_ok (rewrite_tables i s.tables) _ text e

not_default : (r : Rule) → r.kind ≡ hash → r.kind ≢ default
not_default r e d = cc

-- The SELECT that routing leaves behind.
abbrev pub routed_select : Select → Rule → Bytes → BoolExpr → Select
routed_select s r kind e = record s { condition = where_clause kind (looked_at r e) }

not_first : (d : Bool) (x y : BoolExpr) → d ≡ false → (if d then x else y) ≡ y
not_first d x y e = rw e refl

hash-is_default : (r : Rule) → r.kind ≡ hash → is_default r.kind ≡ false
unfolding is_default
hash-is_default r k = ap is_default k

routed-runs :
    (time : LocalTime) (order : List ℤ → List ℤ) (r : Rule) (kind : Bytes) (e : BoolExpr)
    (plan : Plan)
    → r.kind ≡ hash
    → cal_route_indexs time order (new_plan r) (of_bool e) ≡ ok plan
    → routed time order (new_plan r) (where_clause kind e)
      ≡ ok (plan, where_clause kind (looked_at r e))
unfolding routed
routed-runs time order r kind e plan k done = rw done (
    ap (λ (c : BoolExpr). ok (plan, where_clause kind c))
      (not_first (is_default r.kind) e (looked_at r e) (hash-is_default r k)))

-- Where the route of the criterion returns, so does the plan, with the statements of the route.
select_plan-returns :
    (time : LocalTime) (order : List ℤ → List ℤ) (nodes : List Bytes) (s : Select) (r : Rule)
    (kind : Bytes) (e : BoolExpr) (plan : Plan) (t : ℤ) (sqls : Sqls)
    → r.kind ≡ hash
    → s.condition ≡ where_clause kind e
    → cal_route_indexs time order (new_plan r) (of_bool e) ≡ ok plan
    → In t plan.route_table_indexs
    → generate nodes plan
        (format_select (select_node (routed_select s r kind e)))
        (rewrite_select_sql plan (routed_select s r kind e))
      ≡ ok sqls
    → select_plan time order nodes s r ≡ ok (plan, sqls)
unfolding select_plan planned generate_select_sql
select_plan-returns time order nodes s r kind e plan t sqls k c done m g =
    rw (ap (routed time order (new_plan r)) c ∙ routed-runs time order r kind e plan k done)
      (rw (has_tables-In plan t m) (rw g refl))

-- The plan of a SELECT is that of the rule which the router has for its table.
build_plan-by_rule :
    (time : LocalTime) (order : List ℤ → List ℤ) (router : Router) (db name : Bytes) (s : Select)
    (r : Rule) (b : Built)
    → router.nodes ≡ r.nodes
    → first_table s.tables ≡ ok name
    → (get_rule router db name).0 ≡ r
    → select_plan time order r.nodes s r ≡ ok b
    → (build_plan time order router db (select_statement s)).0 ≡ ok b
unfolding build_plan build_select_plan select_named with_rule
build_plan-by_rule time order router db name s r b nodes named found e =
    ap (λ (x : Result Bytes). (select_named time order router db s x).0) named
    ∙ ap (λ (x : List Bytes). select_plan time order x s (get_rule router db name).0) nodes
    ∙ ap (select_plan time order r.nodes s) found
    ∙ e

-- A SELECT is delivered to the node of every row of the sharded table that it may find. Take a configuration of type
-- hash that `parseRule` accepts, with table counts that are not negative and not all 0, and a
-- router that has the resulting rule for the table of the SELECT and whose nodes are those of the
-- rule. Take a SELECT with a WHERE in which the literals that are equal to the key can be read and the
-- columns with the name of the key have no qualifier but the table's name (joined tables have no
-- such column), and a row of the table that satisfies it, where literals stand for the 64-bit hashes
-- of their keys. Then `BuildPlan` returns, whatever the order
-- in which Go ranges over a map, and the node that serves the row's table gets the SELECT that is
-- rewritten for that table.
pub build_plan-serves_row :
    (time : LocalTime) (cal : Calendar) (order : List ℤ → List ℤ) (cfg : ShardConfig)
    (router : Router) (db name : Bytes) (s : Select) (r : Rule) (n : ℕ) (row : ℤ)
    (undecided : BoolExpr → Type 0) (kind : Bytes) (e : BoolExpr)
    → IsRangeOrder order
    → All (λ l. pos 0 ≤ℤ l) cfg.locations
    → rule_type cfg.kind ≡ hash
    → total cfg.locations ≡ suc n
    → parse_rule cal cfg ≡ ok r
    → router.nodes ≡ r.nodes
    → first_table s.tables ≡ ok name
    → (get_rule router db name).0 ≡ r
    → s.condition ≡ where_clause kind e
    → EachLeaf (ReadableLeaf r) e
    → EachLeaf (OwnLeaf r) e
    → Selects r (record { row = row; value_of = hash_of; undecided = undecided }) e
    → (plan : Plan) × (sqls : Sqls) × (node : Bytes) × (sql : Bytes) × ((build_plan time order
          router db
          (select_statement s)).0
        ≡ ok (plan, sqls))
      × (index r.nodes (map_get (hash_table (suc n) row) r.table_to_node) ≡ ok node)
      × (rewrite_select_sql plan (routed_select s r kind e) (hash_table (suc n) row) ≡ ok sql)
      × In sql (sqls_at node sqls)
build_plan-serves_row time cal order cfg router db name s r n row undecided kind e v counts k t q
      nodes named found condition readable own selected =
    let (k', shard, tables, filled) = hash_rule cal cfg counts r k q in
    let (plan, done, m, at_node, is_node) =
      configured_hash time cal order cfg r n row undecided e v counts k t q readable (
        Selects-Holds r (record { row = row; value_of = hash_of; undecided = undecided }) e own
          selected) in
    let rule =
      cal_route-rule time order (new_plan r) plan e (not_default r k') filled.sorted tt done in
    let at = hash_table (suc n) row in
    let some_node : 0 < length r.nodes = omega (arith, is_node.0) in
    let render = rewrite_select_sql plan (routed_select s r kind e) in
    let (node, held) = node_of r.nodes r at some_node filled.nodes in
    let (sql, shown) = rewrite_select_sql-returns plan (routed_select s r kind e) name at named in
    let (sqls, sent, delivered) =
      generate-delivers r.nodes plan (format_select (select_node (routed_select s r kind e))) render
        node sql at (In-some _ plan.route_node_indexs at_node)
        (All-of
          (λ u.
            subst (λ (z : Rule). Sent r.nodes z render u) (sym rule)
              (each_sent u render (node_of r.nodes r u some_node filled.nodes)
                (rewrite_select_sql-returns plan (routed_select s r kind e) name u named)))
          plan.route_table_indexs)
        m (ap (λ (z : Rule). index r.nodes (map_get at z.table_to_node)) rule ∙ held) shown in
    (
      plan,
      sqls,
      node,
      sql,
      build_plan-by_rule time order router db name s r (plan, sqls) nodes named found
          (select_plan-returns time order r.nodes s r kind e plan at sqls k' condition done m sent),
      held,
      shown,
      delivered,
    )
  where
    each_sent :
        (u : ℤ) (render : ℤ → Result Bytes)
        → (x : Bytes) × (index r.nodes (map_get u r.table_to_node) ≡ ok x)
        → (y : Bytes) × (render u ≡ ok y)
        → Sent r.nodes r render u
    each_sent u render (x, a) (y, b) = (x, a, y, b)
