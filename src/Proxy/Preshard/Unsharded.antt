-- ===== src/Proxy/Preshard/Unsharded.antt =====
-- A statement about another table goes to the default node.
use kingshard.Prelude.{
  ℕ, ℤ, Bytes, eqb_bytes, List, [], ◌∷◌, ◌++◌, In, ◌≡◌, refl, sym, subst, ap, ◌∙◌, inl, inr, Option,
  none, some, Bool, true, false, Bool-cases, ==_iff, not, ◌==◌, if◌then◌else◌,
}
use kingshard.Outcome.{Result, ok, ◌>>=◌}
use kingshard.Config.{ShardConfig, SchemaConfig}
use kingshard.Router.Rule.{Rule}
use kingshard.Router.DateRange.{Calendar}
use kingshard.Router.Registry.{
  Router, Rules, find_rule, new_router, new_default_rule, split_dots, get_rule, get_rule_at,
}
use kingshard.Router.Registry.Finds.{find_unknown, new_router_lem, plain_name}
use kingshard.Router.Plan.Values.{to_lower, lower}
use kingshard.Proxy.Tokens.{
  get_db_table, get_insert_db_table, Keyword, insert, replace, delete, update, select, parse_token,
}
use kingshard.Proxy.Preshard.{
  Session, ExecuteDb, Routed, node_named, asked, is_sharded, guarded, with_hint, or_default,
  set_execute_node, routed_update, route, on_master, master_hint, get_select_exec_db,
  get_delete_exec_db, get_insert_exec_db, get_update_exec_db,
}
use kingshard.Proxy.Preshard.Dispatch.{get_exec_db, handled}
use kingshard.Proxy.Preshard.Sharded.{
  Names, selects, deletes, inserts, updates, select_scanned, delete_scanned, insert_scanned,
  update_scanned,
}

-- No keyword begins with an asterisk.
not_hint :
    (c : ℕ) (cs : Bytes) (k : Keyword)
    → parse_token (to_lower (c ∷ cs)) ≡ some k
    → (c == 42) ≡ false
unfolding parse_token to_lower lower eqb_bytes
not_hint c cs k e = elim (Bool-cases (c == 42)) [
  | inl same ↦ cc (
      starred cs
      ∙ subst (λ (x : ℕ). parse_token (to_lower (x ∷ cs)) ≡ some k) ((==_iff c 42).0 same) e)
  | inr other ↦ other
]
  where
    starred : (cs : Bytes) → none ≡ parse_token (to_lower (42 ∷ cs))
    starred cs = refl

module _ (s : Session) (n : Bytes) where
  -- The statement goes to this node.
  abbrev GoesTo : Routed → Type 0
  GoesTo routed =
      (e : ExecuteDb) × (routed.0 ≡ ok (some e)) × (e.exec_node ≡ node_named s.proxy_nodes n)

  no_hint :
      (first : Bytes) (rest : List Bytes) (k : Keyword) (e : ExecuteDb)
      → parse_token (to_lower first) ≡ some k
      → with_hint s (first ∷ rest) e ≡ ok e
  unfolding with_hint parse_token to_lower eqb_bytes
  no_hint [] [] k e q = refl
  no_hint [] (t ∷ ts) k e q = cc q
  no_hint (c ∷ cs) [] k e q = refl
  no_hint (c ∷ cs) (t ∷ ts) k e q = rw (not_hint c cs k q) refl

  route_default :
      (first : Bytes) (rest : List Bytes) (k : Keyword) (e : ExecuteDb) (found : Bool × Router)
      → parse_token (to_lower first) ≡ some k
      → e.exec_node ≡ none
      → found.0 ≡ false
      → found.1.default_rule.nodes ≡ n ∷ []
      → GoesTo (route s (first ∷ rest) e found)
  unfolding route set_execute_node or_default
  route_default first rest k e (true, r) q i f d = cc f
  route_default first rest k e (false, r) q i f d = (
    record e { exec_node = node_named s.proxy_nodes n },
    ap (λ (x : Result ExecuteDb). x >>= λ e'. ok (some e')) (chosen _ (no_hint first rest k e q)),
    refl,
  )
    where
      chosen :
          (hint : Result ExecuteDb)
          → hint ≡ ok e
          → (hint >>= λ e'. or_default s r e')
            ≡ ok (record e { exec_node = node_named s.proxy_nodes n })
      chosen hint h = rw (h, i, d, or_default) refl

  -- A scan that found no sharded table, and left the default node alone.
  abbrev IsPlain : Bool × Router → Type 0
  IsPlain found = (found.0 ≡ false) × (found.1.default_rule.nodes ≡ n ∷ [])

  guarded-IsPlain :
      (r : Router) (found : Bool × Router)
      → r.default_rule.nodes ≡ n ∷ []
      → IsPlain found
      → IsPlain (guarded r found)
  guarded-IsPlain r found d p = passed r.rules
    where
      passed :
          (rules : Rules)
          → IsPlain (elim rules as (λ z. Bool × Router) [ [] ↦ (false, r) | m ∷ ms ↦ found ])
      passed [] = (refl, d)
      passed (m ∷ ms) = p

  module _ (sprintf : Bytes → ℤ → Bytes) (sql : Bytes) where
    scanned-GoesTo :
        (first : Bytes) (rest : List Bytes) (k : Keyword) (slave : Bool) (dt : Bytes × Bytes)
        (found : Bool × Router)
        → parse_token (to_lower first) ≡ some k
        → found ≡ asked s.db s.rule dt
        → s.rule.default_rule.nodes ≡ n ∷ []
        → IsPlain (asked s.db s.rule dt)
        → GoesTo (
            route s
              (first ∷ rest)
              (record { exec_node = none; is_slave = slave; sql = sql })
              (guarded s.rule found))
    scanned-GoesTo first rest k slave dt found q same d p =
        let (f, nodes) =
          guarded-IsPlain s.rule found d (subst (λ (z : Bool × Router). IsPlain z) (sym same) p) in
        route_default first rest k (record { exec_node = none; is_slave = slave; sql = sql })
          (guarded s.rule found) q refl f nodes

    Names-plain :
        (tokens : List Bytes) (dt : Bytes × Bytes)
        → Names tokens dt
        → s.rule.default_rule.nodes ≡ n ∷ []
        → IsPlain (asked s.db s.rule dt)
        → GoesTo (get_exec_db sprintf s sql tokens)
    unfolding get_exec_db handled get_select_exec_db get_delete_exec_db get_insert_exec_db
        get_update_exec_db routed_update
    Names-plain _ _ (selects first word token pre post k m f) d p =
        let tokens : List Bytes = first ∷ pre ++ (word ∷ token ∷ post) in
        rw (k, handled)
          (scanned-GoesTo first (pre ++ (word ∷ token ∷ post)) select (not (master_hint tokens))
            (get_db_table token) _ k (select_scanned s.db s.rule word token pre post m f) d p)
    Names-plain _ _ (deletes first word token pre post k m f) d p =
        rw (k, handled)
          (scanned-GoesTo first (pre ++ (word ∷ token ∷ post)) delete false (get_db_table token) _ k
            (delete_scanned s.db s.rule word token pre post m f) d p)
    Names-plain _ _ (inserts first word token pre post (inl k) m f) d p =
        rw (k, handled)
          (scanned-GoesTo first (pre ++ (word ∷ token ∷ post)) insert false
            (get_insert_db_table token) _ k
            (insert_scanned s.db s.rule word token (first ∷ pre) post m f) d p)
    Names-plain _ _ (inserts first word token pre post (inr k) m f) d p =
        rw (k, handled)
          (scanned-GoesTo first (pre ++ (word ∷ token ∷ post)) replace false
            (get_insert_db_table token) _ k
            (insert_scanned s.db s.rule word token (first ∷ pre) post m f) d p)
    Names-plain _ _ (updates first word token pre post k m o f) d p =
        rw (k, handled)
          (either s.rule.rules _ _
            (route_default first (pre ++ (token ∷ word ∷ post)) update (on_master sql)
              (false, s.rule) k refl refl d)
            (subst
              (λ (z : Result (Bool × Router)).
                GoesTo (routed_update s sql (first ∷ pre ++ (token ∷ word ∷ post)) z))
              (sym (update_scanned s.db s.rule none word token (first ∷ pre) post m o f))
              (route_default first (pre ++ (token ∷ word ∷ post)) update (on_master sql)
                (asked s.db s.rule (get_db_table token)) k refl p.0 p.1)))
      where
        either :
            (rules : Rules) (x y : Routed)
            → GoesTo x
            → GoesTo y
            → GoesTo (elim rules as (λ z. Routed) [ [] ↦ x | r ∷ rs ↦ y ])
        either [] x y gx gy = gx
        either (r ∷ rs) x y gx gy = gy

default_kept :
    (rt : Router) (q : Bytes × Bytes)
    → (get_rule_at rt q).1.default_rule.nodes ≡ rt.default_rule.nodes
unfolding get_rule_at
default_kept rt (db, table) = kept (find_rule db table rt.rules)
  where
    kept :
        (o : Option Rule)
        → (elim o as (λ z. Rule × Router) [
          | some rule ↦ (rule, rt)
          | none ↦ (
            record rt.default_rule { db = db },
            record rt { default_rule = record rt.default_rule { db = db } },
          )
        ]).1.default_rule.nodes
          ≡ rt.default_rule.nodes
    kept none = refl
    kept (some rule) = refl

is_sharded-unknown :
    (rt : Router) (db table : Bytes)
    → (split_dots table).1 ≡ []
    → find_rule db table rt.rules ≡ none
    → (is_sharded rt db table).0 ≡ false
unfolding is_sharded
is_sharded-unknown rt db table p f =
    subst
      (λ (q : Bytes × Bytes).
        elim (find_rule q.0 q.1 rt.rules) as (λ o. Bool) [ none ↦ false | some x ↦ true ] ≡ false)
      (sym (plain_name db table p)) (rw f refl)

-- A statement whose first table is not configured goes to the default node. Let the session's router
-- be one that `NewRouter` made of a schema, and let a statement begin with the word SELECT, DELETE,
-- INSERT, REPLACE or UPDATE, without a hint in front of it, and name a table that the schema does
-- not have in the word behind the first FROM (of a SELECT or DELETE), behind the first INTO (of an
-- INSERT or REPLACE) or in front of the first SET (of an UPDATE); a SELECT has no
-- `last_insert_id()` before its FROM. Then `GetExecDB` returns a target, not nil and no error, and its
-- node is the server's node of the schema's default. The table's name has no dot in it.
pub others_to_default :
    (cal : Calendar) (schema : SchemaConfig) (s : Session) (sprintf : Bytes → ℤ → Bytes)
    (sql : Bytes) (tokens : List Bytes) (db table : Bytes)
    → new_router cal schema ≡ ok s.rule
    → ((cfg : ShardConfig)
        → In cfg schema.shard_rule
        → ¬ ((cfg.db ≡ (if eqb_bytes db [] then s.db else db)) × (cfg.table ≡ table)))
    → (split_dots table).1 ≡ []
    → Names tokens (db, table)
    → (e : ExecuteDb) × ((get_exec_db sprintf s sql tokens).0 ≡ ok (some e))
      × (e.exec_node ≡ node_named s.proxy_nodes schema.default_node)
unfolding asked is_sharded get_rule new_default_rule
others_to_default cal schema s sprintf sql tokens db table e n p names =
    let d = ap (λ (r : Rule). r.nodes) (new_router_lem cal schema s.rule e).1 in
    Names-plain s schema.default_node sprintf sql tokens (db, table) names d
      (
        is_sharded-unknown s.rule _ table p (find_unknown cal schema s.rule _ table e n),
        default_kept s.rule _ ∙ d,
      )
