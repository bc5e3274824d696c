-- ===== src/Router/Build/Counts/Builders.antt =====
-- Every builder of proxy/router/router.go returns a plan with a statement for every table.
use kingshard.Prelude.{
  ℤ, Bytes, List, [], ◌∷◌, ◌≡◌, ◌≢◌, refl, subst, if◌then◌else◌, ◌⊎◌, inl, inr, Bool, false, not,
  ◌&&◌, none, some, Option, In, pos,
}
use kingshard.Outcome.{Result, ok, err, panic, both_returned}
use kingshard.Outcome.Error.{no_criteria}
use kingshard.Sqlparser.Ast.{SelectExprs, Tuple, Where}
use kingshard.Sqlparser.Format.{format_select}
use kingshard.Router.Rewrite.{rewrite_select_sql}
use kingshard.Sqlparser.Statements.{
  Select, Insert, Replace, Update, Delete, Truncate, InsertRows, select_rows, values, Statement,
  insert_statement, replace_statement, select_statement, update_statement, delete_statement,
  truncate_statement, other_statement, format_table_name, select_node, format_insert,
  format_replace, format_update, format_delete, format_truncate,
}
use kingshard.Router.Shard.{LocalTime}
use kingshard.Router.Rule.{
  Rule, RuleType, default, hash, range, date_year, date_month, date_day, other,
}
use kingshard.Router.Registry.{Router, get_rule, is_default, check_update_exprs}
use kingshard.Router.Plan.Values.{Plan, new_plan}
use kingshard.Router.Plan.Routes.{
  of_values, cal_route_indexs, route_criteria, with_nodes, tindexs_to_nindexs, clean_list, distinct,
  get_insert_table_index, get_ir_key_index, check_values_type,
}
use kingshard.Router.Plan.Routes.Nodes.{IsRangeOrder}
use kingshard.Router.Build.{
  Built, insert_sql, replace_sql, update_sql, delete_sql, truncate_sql, generate_select_sql,
  generate_insert_sql, generate_update_sql, generate_delete_sql, generate_replace_sql,
  generate_truncate_sql,
}
use kingshard.Router.Build.Plans.{
  first_table, is_empty, all_tables, check_on_dup, has_tables, routed, with_rule, select_plan,
  update_plan, delete_plan, truncate_plan, insert_plan, replace_plan, select_named, insert_values,
  replace_values, build_select_plan, build_insert_plan, build_replace_plan, build_update_plan,
  build_delete_plan, build_truncate_plan, build_plan,
}
use kingshard.Router.Build.Counts.{OnePerTable, generated-OnePerTable}

has_tables-some :
    (plan : Plan) (u : Unit {0})
    → has_tables plan ≡ ok u
    → is_default plan.rule.kind ≡ false
    → plan.route_table_indexs ≢ []
unfolding has_tables
has_tables-some plan u e d n = cc (subst (λ (z : Bool). Refused z) d e, n)
  where
    Refused : Bool → Type 0
    Refused z =
        (if not z && is_empty plan.route_table_indexs then err no_criteria else ok tt) ≡ ok u

order-nothing : (order : List ℤ → List ℤ) → IsRangeOrder order → order [] ≡ []
order-nothing order v = nothing_in (order []) (λ a. (v [] a).0)
  where
    nothing_in : (l : List ℤ) → ((a : ℤ) → In a l → In a []) → l ≡ []
    nothing_in [] h = refl
    nothing_in (x ∷ xs) h = absurd (h x (inl refl))

-- The two branches of a switch over the type of a rule.
kind_either :
    (a b : Result Plan) (k : RuleType) (plan : Plan)
    → (elim k as (λ x. Result Plan) [ default ↦ a | _ ↦ b ]) ≡ ok plan
    → ((k ≡ default) × (a ≡ ok plan)) ⊎ (b ≡ ok plan)
kind_either a b default plan e = inl (refl, e)
kind_either a b hash plan e = inr e
kind_either a b range plan e = inr e
kind_either a b date_year plan e = inr e
kind_either a b date_month plan e = inr e
kind_either a b date_day plan e = inr e
kind_either a b (other s) plan e = inr e

-- A route without tables has no nodes, but for the default rule.
abbrev Unrouted : Plan → Type 0
Unrouted plan =
    (is_default plan.rule.kind ≡ false) → plan.route_table_indexs ≡ [] → plan.route_node_indexs ≡ []

same_plan : {a b : Plan} → ok a ≡ ok b → a ≡ b
same_plan q = cc

default-Unrouted : (plan : Plan) → plan.rule.kind ≡ default → Unrouted plan
unfolding is_default
default-Unrouted plan k d n = cc (subst (λ (z : RuleType). is_default z ≡ false) k d)

module _ (time : LocalTime) (order : List ℤ → List ℤ) (v : IsRangeOrder order) where
  tindexs-nothing : (plan : Plan) (ts : List ℤ) → ts ≡ [] → tindexs_to_nindexs order plan ts ≡ []
  unfolding tindexs_to_nindexs clean_list distinct
  tindexs-nothing plan ts n = rw n (order-nothing order v)

  -- Rows that have no table have no node.
  rows-Unrouted :
      (plan plan' : Plan) (vals : List Tuple)
      → cal_route_indexs time order plan (of_values vals) ≡ ok plan'
      → Unrouted plan'
  unfolding cal_route_indexs route_criteria with_nodes
  rows-Unrouted plan plan' vals e = elim (kind_either _ _ plan.rule.kind plan' e) [
    | inl (k, q) ↦
        subst Unrouted (same_plan q)
          (default-Unrouted (record plan { route_node_indexs = pos 0 ∷ [] }) k)
    | inr q ↦
        let ((ts, p), found, done) =
          both_returned (get_insert_table_index time order plan vals) _ q in
        subst Unrouted (same_plan done) (λ d n. tindexs-nothing p ts n)
  ]

  refused-Unrouted : (plan : Plan) (u : Unit {0}) → has_tables plan ≡ ok u → Unrouted plan
  refused-Unrouted plan u e d n = absurd (has_tables-some plan u e d n)

  -- What a built plan sends: the statement of every table of its route. A WHERE is the one that
  -- routing leaves behind.
  abbrev pub Sends : List Bytes → Statement → Built → Type 0
  Sends nodes (select_statement s) b =
      (rule : Rule) × (w : Where) × (routed time order (new_plan rule) s.condition ≡ ok (b.0, w))
      × OnePerTable nodes (format_select (select_node (record s { condition = w })))
          (rewrite_select_sql b.0 (record s { condition = w })) b
  Sends nodes (update_statement s) b =
      (rule : Rule) × (w : Where) × (routed time order (new_plan rule) s.condition ≡ ok (b.0, w))
      × OnePerTable nodes (format_update (record s { condition = w }))
          (λ i. ok (update_sql (record s { condition = w }) i)) b
  Sends nodes (delete_statement s) b =
      (rule : Rule) × (w : Where) × (routed time order (new_plan rule) s.condition ≡ ok (b.0, w))
      × OnePerTable nodes (format_delete (record s { condition = w }))
          (λ i. ok (delete_sql (record s { condition = w }) i)) b
  Sends nodes (truncate_statement s) b =
      OnePerTable nodes (format_truncate s) (λ i. ok (truncate_sql s i)) b
  Sends nodes (insert_statement s) b =
      OnePerTable nodes (format_insert s) (λ i. ok (insert_sql b.0 s i)) b
  Sends nodes (replace_statement s) b =
      OnePerTable nodes (format_replace s) (λ i. ok (replace_sql b.0 s i)) b
  Sends nodes other_statement b = ⊥

  module _ (nodes : List Bytes) (rule : Rule) (b : Built) where
    select-OnePerTable :
        (s : Select)
        → select_plan time order nodes s rule ≡ ok b
        → Sends nodes (select_statement s) b
    unfolding select_plan generate_select_sql
    select-OnePerTable s e =
        let ((plan, w), p, e1) =
          both_returned (routed time order (new_plan rule) s.condition) _ e in
        let (u, q, e2) = both_returned (has_tables plan) _ e1 in
        let (sqls, same, one) =
          generated-OnePerTable nodes plan _ _ b (refused-Unrouted plan u q) e2 in
        subst (λ (z : Built). Sends nodes (select_statement s) z) same (rule, w, p, one)

    update-OnePerTable :
        (s : Update)
        → update_plan time order nodes s rule ≡ ok b
        → Sends nodes (update_statement s) b
    unfolding update_plan generate_update_sql
    update-OnePerTable s e =
        let (u', p', e') = both_returned (check_update_exprs rule s.exprs) _ e in
        let ((plan, w), p, e1) =
          both_returned (routed time order (new_plan rule) s.condition) _ e' in
        let (u, q, e2) = both_returned (has_tables plan) _ e1 in
        let (sqls, same, one) =
          generated-OnePerTable nodes plan _ _ b (refused-Unrouted plan u q) e2 in
        subst (λ (z : Built). Sends nodes (update_statement s) z) same (rule, w, p, one)

    delete-OnePerTable :
        (s : Delete)
        → delete_plan time order nodes s rule ≡ ok b
        → Sends nodes (delete_statement s) b
    unfolding delete_plan generate_delete_sql
    delete-OnePerTable s e =
        let ((plan, w), p, e1) =
          both_returned (routed time order (new_plan rule) s.condition) _ e in
        let (u, q, e2) = both_returned (has_tables plan) _ e1 in
        let (sqls, same, one) =
          generated-OnePerTable nodes plan _ _ b (refused-Unrouted plan u q) e2 in
        subst (λ (z : Built). Sends nodes (delete_statement s) z) same (rule, w, p, one)

    truncate-OnePerTable :
        (s : Truncate)
        → truncate_plan time order nodes s rule ≡ ok b
        → Sends nodes (truncate_statement s) b
    unfolding truncate_plan generate_truncate_sql
    truncate-OnePerTable s e =
        let (plan, p, e1) = both_returned (all_tables (new_plan rule)) _ e in
        let (u, q, e2) = both_returned (has_tables plan) _ e1 in
        let (sqls, same, one) =
          generated-OnePerTable nodes plan _ _ b (refused-Unrouted plan u q) e2 in
        subst (λ (z : Built). Sends nodes (truncate_statement s) z) same one

    insert-OnePerTable :
        (s : Insert) (columns : SelectExprs) (vals : List Tuple)
        → insert_plan time order nodes s columns vals rule ≡ ok b
        → Sends nodes (insert_statement s) b
    unfolding insert_plan generate_insert_sql
    insert-OnePerTable s columns vals e =
        let (keyed, p, e1) = both_returned (get_ir_key_index (new_plan rule) columns) _ e in
        let (u, q, e2) = both_returned (check_on_dup rule s.on_dup) _ e1 in
        let (u', q', e3) = both_returned (check_values_type rule vals) _ e2 in
        let (plan, r, e4) =
          both_returned (cal_route_indexs time order keyed (of_values vals)) _ e3 in
        let (sqls, same, one) =
          generated-OnePerTable nodes plan _ _ b (rows-Unrouted keyed plan vals r) e4 in
        subst (λ (z : Built). Sends nodes (insert_statement s) z) same one

    replace-OnePerTable :
        (s : Replace) (columns : SelectExprs) (vals : List Tuple)
        → replace_plan time order nodes s columns vals rule ≡ ok b
        → Sends nodes (replace_statement s) b
    unfolding replace_plan generate_replace_sql
    replace-OnePerTable s columns vals e =
        let (keyed, p, e1) = both_returned (get_ir_key_index (new_plan rule) columns) _ e in
        let (u', q', e3) = both_returned (check_values_type rule vals) _ e1 in
        let (plan, r, e4) =
          both_returned (cal_route_indexs time order keyed (of_values vals)) _ e3 in
        let (sqls, same, one) =
          generated-OnePerTable nodes plan _ _ b (rows-Unrouted keyed plan vals r) e4 in
        subst (λ (z : Built). Sends nodes (replace_statement s) z) same one

  select_named-OnePerTable :
      (r : Router) (db : Bytes) (s : Select) (name : Result Bytes) (b : Built)
      → (select_named time order r db s name).0 ≡ ok b
      → Sends r.nodes (select_statement s) b
  unfolding select_named with_rule
  select_named-OnePerTable r db s (ok name) b e =
      select-OnePerTable r.nodes (get_rule r db name).0 b s e
  select_named-OnePerTable r db s (err why) b e = cc e
  select_named-OnePerTable r db s (panic why) b e = cc e

  insert_values-OnePerTable :
      (r : Router) (db : Bytes) (s : Insert) (rows : InsertRows) (columns : Option SelectExprs)
      (b : Built)
      → (insert_values time order r db s rows columns).0 ≡ ok b
      → Sends r.nodes (insert_statement s) b
  unfolding insert_values with_rule
  insert_values-OnePerTable r db s (select_rows q) columns b e = cc e
  insert_values-OnePerTable r db s (values vals) none b e = cc e
  insert_values-OnePerTable r db s (values vals) (some columns) b e =
      insert-OnePerTable r.nodes (get_rule r db (format_table_name s.table)).0 b s columns vals e

  replace_values-OnePerTable :
      (r : Router) (db : Bytes) (s : Replace) (rows : InsertRows) (columns : Option SelectExprs)
      (b : Built)
      → (replace_values time order r db s rows columns).0 ≡ ok b
      → Sends r.nodes (replace_statement s) b
  unfolding replace_values with_rule
  replace_values-OnePerTable r db s (select_rows q) columns b e = cc e
  replace_values-OnePerTable r db s (values vals) none b e = cc e
  replace_values-OnePerTable r db s (values vals) (some columns) b e =
      replace-OnePerTable r.nodes (get_rule r db (format_table_name s.table)).0 b s columns vals e

  -- A plan that is built sends the statement of each table of its route, and nothing else. Whatever
  -- statement `BuildPlan` returns a plan for, and in whatever order Go ranges over a map, the plan
  -- sends as many statements as its route has tables, and what a node of the router gets is exactly
  -- the list of the statements of those tables of the route that are on it, each rewritten for its
  -- table, in the order of the route; a route without tables, which only the default rule leaves,
  -- sends the whole statement to the first node. For a SELECT, an UPDATE and a DELETE the statement
  -- has the WHERE that routing leaves behind.
  pub build_plan-Sends :
      (r : Router) (db : Bytes) (s : Statement) (b : Built)
      → (build_plan time order r db s).0 ≡ ok b
      → Sends r.nodes s b
  unfolding build_plan build_select_plan build_update_plan build_delete_plan build_truncate_plan
      build_insert_plan build_replace_plan with_rule
  build_plan-Sends r db (select_statement s) b e =
      select_named-OnePerTable r db s (first_table s.tables) b e
  build_plan-Sends r db (update_statement s) b e =
      update-OnePerTable r.nodes (get_rule r db (format_table_name s.table)).0 b s e
  build_plan-Sends r db (delete_statement s) b e =
      delete-OnePerTable r.nodes (get_rule r db (format_table_name s.table)).0 b s e
  build_plan-Sends r db (truncate_statement s) b e =
      truncate-OnePerTable r.nodes (get_rule r db (format_table_name s.table)).0 b s e
  build_plan-Sends r db (insert_statement s) b e =
      insert_values-OnePerTable r db s s.rows s.columns b e
  build_plan-Sends r db (replace_statement s) b e =
      replace_values-OnePerTable r db s s.rows s.columns b e
  build_plan-Sends r db other_statement b e = cc e
