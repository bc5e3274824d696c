-- ===== src/Proxy/Preshard/Sharded.antt =====
-- A statement about a sharded table is not sent as it stands.
use Prim.Native.String.{String}
use kingshard.Prelude.{
  ℤ, Bytes, codes, eqb_bytes, List, [], ◌∷◌, ◌++◌, All, In, ◌≡◌, ◌≢◌, refl, sym, subst, ◌∙◌, ◌⊎◌,
  inl, inr, Option, none, some, Bool, true, false, not, if◌then◌else◌,
}
use kingshard.Outcome.{Result, ok}
use kingshard.Config.{ShardConfig, SchemaConfig}
use kingshard.Router.Rule.{Rule}
use kingshard.Router.DateRange.{Calendar}
use kingshard.Router.Registry.{Router, Rules, find_rule, new_router, split_dots}
use kingshard.Router.Registry.Finds.{find_configured, plain_name, nothing_yet}
use kingshard.Router.Plan.Values.{to_lower}
use kingshard.Proxy.Tokens.{
  get_db_table, get_insert_db_table, insert, replace, delete, update, select, parse_token,
}
use kingshard.Proxy.Preshard.{
  Session, ExecuteDb, Routed, asked, is_sharded, guarded, scan_select, scan_delete, scan_insert,
  scan_update, routed_update, route, on_master, master_hint, get_select_exec_db, get_delete_exec_db,
  get_insert_exec_db, get_update_exec_db,
}
use kingshard.Proxy.Preshard.Dispatch.{get_exec_db, handled}

-- The token is not this word.
abbrev pub IsNot : String → Bytes → Type 0
IsNot word token = eqb_bytes (to_lower token) (codes word) ≡ false

abbrev pub Is : String → Bytes → Type 0
Is word token = eqb_bytes (to_lower token) (codes word) ≡ true

-- Where a statement names the table that it is about, and what stands before the name.
pub data Names : List Bytes → Bytes × Bytes → Type 0 where
  selects :
      (first word token : Bytes) (pre post : List Bytes)
      → parse_token (to_lower first) ≡ some select
      → All (λ t. IsNot "from" t × IsNot "last_insert_id()" t) pre
      → Is "from" word
      → Names (first ∷ pre ++ (word ∷ token ∷ post)) (get_db_table token)
  deletes :
      (first word token : Bytes) (pre post : List Bytes)
      → parse_token (to_lower first) ≡ some delete
      → All (IsNot "from") pre
      → Is "from" word
      → Names (first ∷ pre ++ (word ∷ token ∷ post)) (get_db_table token)
  inserts :
      (first word token : Bytes) (pre post : List Bytes)
      → (parse_token (to_lower first) ≡ some insert) ⊎ (parse_token (to_lower first) ≡ some replace)
      → All (IsNot "into") (first ∷ pre)
      → Is "into" word
      → Names ((first ∷ pre) ++ (word ∷ token ∷ post)) (get_insert_db_table token)
  updates :
      (first word token : Bytes) (pre post : List Bytes)
      → parse_token (to_lower first) ≡ some update
      → All (IsNot "set") (first ∷ pre)
      → IsNot "set" token
      → Is "set" word
      → Names ((first ∷ pre) ++ (token ∷ word ∷ post)) (get_db_table token)

module _ (db : Bytes) (r : Router) where
  pub select_scanned :
      (word token : Bytes) (pre post : List Bytes)
      → All (λ t. IsNot "from" t × IsNot "last_insert_id()" t) pre
      → Is "from" word
      → scan_select db r (pre ++ (word ∷ token ∷ post)) ≡ asked db r (get_db_table token)
  unfolding scan_select
  select_scanned word token [] post n f = rw f refl
  select_scanned word token (t ∷ pre) post ((a, b), n) f =
      rw (a, b) (select_scanned word token pre post n f)

  pub delete_scanned :
      (word token : Bytes) (pre post : List Bytes)
      → All (IsNot "from") pre
      → Is "from" word
      → scan_delete db r (pre ++ (word ∷ token ∷ post)) ≡ asked db r (get_db_table token)
  unfolding scan_delete
  delete_scanned word token [] post n f = rw f refl
  delete_scanned word token (t ∷ pre) post (a, n) f = rw a (delete_scanned word token pre post n f)

  pub insert_scanned :
      (word token : Bytes) (pre post : List Bytes)
      → All (IsNot "into") pre
      → Is "into" word
      → scan_insert db r (pre ++ (word ∷ token ∷ post)) ≡ asked db r (get_insert_db_table token)
  unfolding scan_insert
  insert_scanned word token [] post n f = rw f refl
  insert_scanned word token (t ∷ pre) post (a, n) f = rw a (insert_scanned word token pre post n f)

  pub update_scanned :
      (previous : Option Bytes) (word token : Bytes) (pre post : List Bytes)
      → All (IsNot "set") pre
      → IsNot "set" token
      → Is "set" word
      → scan_update db r previous (pre ++ (token ∷ word ∷ post))
        ≡ ok (asked db r (get_db_table token))
  unfolding scan_update
  update_scanned previous word token [] post n o f = rw (o, f) refl
  update_scanned previous word token (t ∷ pre) post (a, n) o f =
      rw a (update_scanned (some t) word token pre post n o f)

module _ (s : Session) (sprintf : Bytes → ℤ → Bytes) (sql : Bytes) where
  -- A table that has a rule makes the router look it up, and the handler return nil.
  sharded_route :
      (tokens : List Bytes) (dt : Bytes × Bytes) (e : ExecuteDb)
      → (asked s.db s.rule dt).0 ≡ true
      → (route s tokens e (asked s.db s.rule dt)).0 ≡ ok none
  unfolding route
  sharded_route tokens dt e h = ends (asked s.db s.rule dt) h
    where
      ends : (found : Bool × Router) → found.0 ≡ true → (route s tokens e found).0 ≡ ok none
      ends (true, r) h = refl
      ends (false, r) h = cc h

  -- The guard lets the scan through where there are rules.
  guard_passed : (found : Bool × Router) → s.rule.rules ≢ [] → guarded s.rule found ≡ found
  guard_passed found h = passed s.rule.rules h
    where
      passed :
          (rules : Rules)
          → rules ≢ []
          → elim rules [ [] ↦ (false, s.rule) | m ∷ ms ↦ found ] ≡ found
      passed [] h = absurd (h refl)
      passed (m ∷ ms) h = refl

  -- The same, for what a scan found.
  scanned_route :
      (tokens : List Bytes) (dt : Bytes × Bytes) (e : ExecuteDb) (found : Bool × Router)
      → found ≡ asked s.db s.rule dt
      → s.rule.rules ≢ []
      → (asked s.db s.rule dt).0 ≡ true
      → (route s tokens e (guarded s.rule found)).0 ≡ ok none
  scanned_route tokens dt e found q h a =
      subst (λ (z : Bool × Router). (route s tokens e z).0 ≡ ok none)
        (sym (guard_passed found h ∙ q)) (sharded_route tokens dt e a)

  Names-sharded :
      (tokens : List Bytes) (dt : Bytes × Bytes)
      → Names tokens dt
      → s.rule.rules ≢ []
      → (asked s.db s.rule dt).0 ≡ true
      → (get_exec_db sprintf s sql tokens).0 ≡ ok none
  unfolding get_exec_db handled get_select_exec_db get_delete_exec_db get_insert_exec_db
      get_update_exec_db routed_update
  Names-sharded _ _ (selects first word token pre post k n f) h a =
      let tokens : List Bytes = first ∷ pre ++ (word ∷ token ∷ post) in
      rw (k, handled)
        (scanned_route tokens (get_db_table token)
          (record { exec_node = none; is_slave = not (master_hint tokens); sql = sql }) _
          (select_scanned s.db s.rule word token pre post n f) h a)
  Names-sharded _ _ (deletes first word token pre post k n f) h a =
      rw (k, handled)
        (scanned_route (first ∷ pre ++ (word ∷ token ∷ post)) (get_db_table token) (on_master sql) _
          (delete_scanned s.db s.rule word token pre post n f) h a)
  Names-sharded _ _ (inserts first word token pre post (inl k) n f) h a =
      rw (k, handled)
        (scanned_route (first ∷ pre ++ (word ∷ token ∷ post)) (get_insert_db_table token)
          (on_master sql) _ (insert_scanned s.db s.rule word token (first ∷ pre) post n f) h a)
  Names-sharded _ _ (inserts first word token pre post (inr k) n f) h a =
      rw (k, handled)
        (scanned_route (first ∷ pre ++ (word ∷ token ∷ post)) (get_insert_db_table token)
          (on_master sql) _ (insert_scanned s.db s.rule word token (first ∷ pre) post n f) h a)
  Names-sharded _ _ (updates first word token pre post k n o f) h a =
      rw (k, handled)
        (passed s.rule.rules h _ _ (
          subst
            (λ (z : Result (Bool × Router)).
              (routed_update s sql (first ∷ pre ++ (token ∷ word ∷ post)) z).0 ≡ ok none)
            (sym (update_scanned s.db s.rule none word token (first ∷ pre) post n o f))
            (sharded_route (first ∷ pre ++ (token ∷ word ∷ post)) (get_db_table token)
              (on_master sql) a)))
    where
      passed :
          (rules : Rules)
          → rules ≢ []
          → (x y : Routed) → y.0 ≡ ok none
          → (elim rules as (λ z. Routed) [ [] ↦ x | m ∷ ms ↦ y ]).0 ≡ ok none
      passed [] h x y e = absurd (h refl)
      passed (m ∷ ms) h x y e = e

is_sharded-known :
    (rt : Router) (db table : Bytes) (r : Rule)
    → (split_dots table).1 ≡ []
    → find_rule db table rt.rules ≡ some r
    → (is_sharded rt db table).0 ≡ true
unfolding is_sharded
is_sharded-known rt db table r p f =
    subst
      (λ (q : Bytes × Bytes).
        elim (find_rule q.0 q.1 rt.rules) as (λ o. Bool) [ none ↦ false | some x ↦ true ] ≡ true)
      (sym (plain_name db table p)) (rw f refl)

some_rules :
    (db table : Bytes) (r : Rule) (rules : Rules) → find_rule db table rules ≡ some r → rules ≢ []
some_rules db table r rules f e =
    cc (sym (nothing_yet db table) ∙ subst (λ (z : Rules). find_rule db table z ≡ some r) e f)

-- A statement whose first table is a configured one goes to the planner. Let the session's router be
-- one that `NewRouter` made of a schema, and let a statement begin with the word SELECT, DELETE,
-- INSERT, REPLACE or UPDATE, without a hint in front of it, and name a table of the schema in the
-- word behind the first FROM (of a SELECT or DELETE), behind the first INTO (of an INSERT or
-- REPLACE) or in front of the first SET (of an UPDATE); a SELECT has no `last_insert_id()` before
-- its FROM. The word gives the table's database or leaves it to that of the session, and the
-- table's name has no dot in it. Then `GetExecDB` returns nil, so that the statement is parsed and
-- planned. Nothing is said of tables that are named further on.
pub configured_is_planned :
    (cal : Calendar) (schema : SchemaConfig) (s : Session) (cfg : ShardConfig)
    (sprintf : Bytes → ℤ → Bytes) (sql : Bytes) (tokens : List Bytes) (db : Bytes)
    → new_router cal schema ≡ ok s.rule
    → In cfg schema.shard_rule
    → (split_dots cfg.table).1 ≡ []
    → (if eqb_bytes db [] then s.db else db) ≡ cfg.db
    → Names tokens (db, cfg.table)
    → (get_exec_db sprintf s sql tokens).0 ≡ ok none
unfolding asked is_sharded
configured_is_planned cal schema s cfg sprintf sql tokens db e m p d names =
    let (r, q, f) = find_configured cal schema s.rule cfg e m in
    Names-sharded s sprintf sql tokens (db, cfg.table) names
      (some_rules cfg.db cfg.table r s.rule.rules f)
      (subst (λ (z : Bytes). (is_sharded s.rule z cfg.table).0 ≡ true) (sym d)
        (is_sharded-known s.rule cfg.db cfg.table r p f))
