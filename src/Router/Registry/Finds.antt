-- ===== src/Router/Registry/Finds.antt =====
-- The router finds the rule of every table that is configured, and no other rule.
use kingshard.Prelude.{
  Bytes, eqb_bytes, eqb_bytes→eq, eqb_bytes_refl, List, [], ◌∷◌, In, ◌≡◌, refl, sym, subst, ◌∙◌,
  ◌⊎◌, inl, inr, arith, Bool, Bool-cases, true, false, ◌&&◌, if◌then◌else◌, Option-cases, none,
  some,
}
use kingshard.Outcome.{Result, Error, ok, err, both_returned}
use kingshard.Config.{ShardConfig, SchemaConfig}
use kingshard.Router.Rule.{Rule}
use kingshard.Router.DateRange.{Calendar}
use kingshard.Router.Setup.{parse_rule, parse_tables, parse_shard, rule_type}
use kingshard.Router.Registry.{
  Rules, Router, lookup, put, find_rule, add_rule, check_nodes, include_node, is_default, add_shard,
  add_shards, new_default_rule, new_router, split_dots, qualified, get_rule_at, get_rule,
}

pub lookup-put {ℓ} :
    {A : Type ℓ} (k j : Bytes) (a : A) (m : List (Bytes × A))
    → lookup k (put j a m) ≡ (if eqb_bytes j k then some a else lookup k m)
unfolding lookup put
lookup-put k j a [] = refl
lookup-put k j a ((i, b) ∷ m) = ground (
  arith,
  lookup-put k j a m,
  eqb_bytes→eq i j,
  eqb_bytes→eq i k,
  eqb_bytes→eq j k,
  eqb_bytes_refl i,
  eqb_bytes_refl j,
  eqb_bytes_refl k,
)

find_rule-put :
    (db table d : Bytes) (m : List (Bytes × Rule)) (rules : Rules)
    → find_rule db table (put d m rules)
      ≡ (if eqb_bytes d db then lookup table m else find_rule db table rules)
unfolding find_rule
find_rule-put db table d m rules = rw (lookup-put db d m rules, find_rule) (ground arith)

find_rule-some :
    (db table : Bytes) (m : List (Bytes × Rule)) (rules : Rules)
    → lookup db rules ≡ some m
    → find_rule db table rules ≡ lookup table m
unfolding find_rule
find_rule-some db table m rules e = rw (e, find_rule) refl

find_rule-none :
    (db table : Bytes) (rules : Rules) → lookup db rules ≡ none → find_rule db table rules ≡ none
unfolding find_rule
find_rule-none db table rules e = rw (e, find_rule) refl

-- What the two writes of `add_rule` leave behind.
added_to_new :
    (db table : Bytes) (r : Rule) (rules : Rules)
    → lookup r.db rules ≡ none
    → (if eqb_bytes r.db db then lookup table ((r.table, r) ∷ []) else find_rule db table rules)
      ≡ (if eqb_bytes r.db db && eqb_bytes r.table table then some r else find_rule db table rules)
unfolding lookup
added_to_new db table r rules e = elim (Bool-cases (eqb_bytes r.db db)) [
  | inl same ↦
      rw
        (
          same,
          find_rule-none db table rules
              (subst (λ (d : Bytes). lookup d rules ≡ none) (eqb_bytes→eq r.db db same) e),
        )
        refl
  | inr differs ↦ rw differs refl
]

added_to_old :
    (db table : Bytes) (r : Rule) (m : List (Bytes × Rule)) (rules : Rules)
    → lookup r.db rules ≡ some m
    → (if eqb_bytes r.db db then lookup table (put r.table r m) else find_rule db table rules)
      ≡ (if eqb_bytes r.db db && eqb_bytes r.table table then some r else find_rule db table rules)
added_to_old db table r m rules e = elim (Bool-cases (eqb_bytes r.db db)) [
  | inl same ↦
      rw
        (
          same,
          lookup-put table r.table r m,
          find_rule-some db table m rules
              (subst (λ (d : Bytes). lookup d rules ≡ some m) (eqb_bytes→eq r.db db same) e),
        )
        refl
  | inr differs ↦ rw differs refl
]

same_rules : {a b : Rules} → ok a ≡ ok b → a ≡ b
same_rules q = cc

-- The rule that is added was not there, and is found from then on, beside those that were there.
find_rule-add_rule :
    (db table : Bytes) (r : Rule) (rules rules' : Rules)
    → add_rule r rules ≡ ok rules'
    → (find_rule r.db r.table rules ≡ none)
      × (find_rule db table rules' ≡ (
          if eqb_bytes r.db db && eqb_bytes r.table table
          then some r
          else find_rule db table rules))
unfolding add_rule
find_rule-add_rule db table r rules rules' e = elim (Option-cases (lookup r.db rules)) [
  | inl n ↦ (
    find_rule-none r.db r.table rules n,
    subst
        (λ (z : Rules). find_rule db table z ≡ (
          if eqb_bytes r.db db && eqb_bytes r.table table
          then some r
          else find_rule db table rules))
        (same_rules (rw (n, add_rule) at e))
        (find_rule-put db table r.db ((r.table, r) ∷ []) rules ∙ added_to_new db table r rules n),
  )
  | inr (m, s) ↦ elim (Option-cases (lookup r.table m)) [
    | inl n ↦ (
      find_rule-some r.db r.table m rules s ∙ n,
      subst
          (λ (z : Rules). find_rule db table z ≡ (
            if eqb_bytes r.db db && eqb_bytes r.table table
            then some r
            else find_rule db table rules))
          (same_rules (rw (s, n, add_rule) at e))
          (find_rule-put db table r.db (put r.table r m) rules ∙ added_to_old db table r m rules s),
    )
    | inr (old, o) ↦ cc (rw (s, o, add_rule) at e)
  ]
]

module _ (cal : Calendar) (nodes : List Bytes) where
  -- A shard that was added: its rule was parsed, and its place was free.
  add_shard_lem :
      (cfg : ShardConfig) (rules rules' : Rules)
      → add_shard cal nodes cfg rules ≡ ok rules'
      → (r : Rule) × (parse_rule cal cfg ≡ ok r) × (add_rule r rules ≡ ok rules')
  unfolding add_shard
  add_shard_lem cfg rules rules' e =
      let (u, _, e') = both_returned (check_nodes nodes cfg.nodes) _ e in
      let (r, q, e'') = both_returned (parse_rule cal cfg) _ e' in
      (r, q, not_default (is_default r.kind) _ _ e'')
    where
      not_default :
          (b : Bool) (x : Result Rules) (er : Error)
          → (if b then err er else x) ≡ ok rules'
          → x ≡ ok rules'
      not_default b x er h = ground arith

  -- What is found stays found.
  found_stays :
      (db table : Bytes) (r : Rule) (cfg : ShardConfig) (rules rules' : Rules)
      → find_rule db table rules ≡ some r
      → add_shard cal nodes cfg rules ≡ ok rules'
      → find_rule db table rules' ≡ some r
  found_stays db table r cfg rules rules' f e =
      let (r', q, a) = add_shard_lem cfg rules rules' e in
      let (free, g) = find_rule-add_rule db table r' rules rules' a in
      g
      ∙ kept r'.db r'.table r' (Bool-cases (eqb_bytes r'.db db))
          (Bool-cases (eqb_bytes r'.table table)) free
    where
      kept :
          (d t : Bytes) (r' : Rule)
          → ((eqb_bytes d db ≡ true) ⊎ (eqb_bytes d db ≡ false))
          → ((eqb_bytes t table ≡ true) ⊎ (eqb_bytes t table ≡ false))
          → find_rule d t rules ≡ none
          → (if eqb_bytes d db && eqb_bytes t table then some r' else find_rule db table rules)
            ≡ some r
      kept d t r' (inl a) (inl b) free =
          cc (sym f ∙ rw (eqb_bytes→eq d db a, eqb_bytes→eq t table b) at free)
      kept d t r' (inl a) (inr b) free = rw (a, b) f
      kept d t r' (inr a) b free = rw a f

  -- A rule has the names of its configuration.
  parse_rule-names :
      (cfg : ShardConfig) (r : Rule)
      → parse_rule cal cfg ≡ ok r
      → (r.db ≡ cfg.db) × (r.table ≡ cfg.table)
  unfolding parse_rule
  parse_rule-names cfg r e =
      let (st, _, e') = both_returned (parse_tables cal (rule_type cfg.kind) cfg) _ e in
      let (sh, _, e'') = both_returned (parse_shard (rule_type cfg.kind) st cfg) _ e' in
      subst (λ (z : Rule). (z.db ≡ cfg.db) × (z.table ≡ cfg.table)) (same_rule e'') (refl, refl)
    where
      same_rule : {a b : Rule} → ok a ≡ ok b → a ≡ b
      same_rule q = cc

  -- The shard that is added last is found.
  found_new :
      (cfg : ShardConfig) (rules rules' : Rules)
      → add_shard cal nodes cfg rules ≡ ok rules'
      → (r : Rule) × (parse_rule cal cfg ≡ ok r) × (find_rule cfg.db cfg.table rules' ≡ some r)
  found_new cfg rules rules' e =
      let (r, q, a) = add_shard_lem cfg rules rules' e in
      let (d, t) = parse_rule-names cfg r q in
      let (free, g) = find_rule-add_rule cfg.db cfg.table r rules rules' a in
      (r, q, g ∙ rw (d, t, eqb_bytes_refl cfg.db, eqb_bytes_refl cfg.table) refl)

  -- A name that no shard has is not found.
  absent_stays :
      (db table : Bytes) (cfg : ShardConfig) (rules rules' : Rules)
      → ¬ ((cfg.db ≡ db) × (cfg.table ≡ table))
      → find_rule db table rules ≡ none
      → add_shard cal nodes cfg rules ≡ ok rules'
      → find_rule db table rules' ≡ none
  absent_stays db table cfg rules rules' n f e =
      let (r, q, a) = add_shard_lem cfg rules rules' e in
      let (d, t) = parse_rule-names cfg r q in
      let (free, g) = find_rule-add_rule db table r rules rules' a in
      g
      ∙ not_this r (Bool-cases (eqb_bytes r.db db)) (Bool-cases (eqb_bytes r.table table))
          (λ (x, y). n (sym d ∙ x, sym t ∙ y))
    where
      not_this :
          (r : Rule)
          → ((eqb_bytes r.db db ≡ true) ⊎ (eqb_bytes r.db db ≡ false))
          → ((eqb_bytes r.table table ≡ true) ⊎ (eqb_bytes r.table table ≡ false))
          → ¬ ((r.db ≡ db) × (r.table ≡ table))
          → (if eqb_bytes r.db db && eqb_bytes r.table table
              then some r
              else find_rule db table rules)
            ≡ none
      not_this r (inl a) (inl b) m =
          absurd (m (eqb_bytes→eq r.db db a, eqb_bytes→eq r.table table b))
      not_this r (inl a) (inr b) m = rw (a, b) f
      not_this r (inr a) b m = rw a f

  all_stay :
      (db table : Bytes) (r : Rule) (cfgs : List ShardConfig) (rules rules' : Rules)
      → find_rule db table rules ≡ some r
      → add_shards cal nodes cfgs rules ≡ ok rules'
      → find_rule db table rules' ≡ some r
  unfolding add_shards
  all_stay db table r [] rules rules' f e =
      subst (λ (z : Rules). find_rule db table z ≡ some r) (same_rules e) f
  all_stay db table r (cfg ∷ cfgs) rules rules' f e =
      let (next, a, e') = both_returned (add_shard cal nodes cfg rules) _ e in
      all_stay db table r cfgs next rules' (found_stays db table r cfg rules next f a) e'

  all_found :
      (cfgs : List ShardConfig) (rules rules' : Rules) (cfg : ShardConfig)
      → add_shards cal nodes cfgs rules ≡ ok rules'
      → In cfg cfgs
      → (r : Rule) × (parse_rule cal cfg ≡ ok r) × (find_rule cfg.db cfg.table rules' ≡ some r)
  unfolding add_shards
  all_found [] rules rules' cfg e m = absurd m
  all_found (c ∷ cfgs) rules rules' cfg e (inl same) =
      let (next, a, e') = both_returned (add_shard cal nodes c rules) _ e in
      let (r, q, f) = found_new c rules next a in
      subst
        (λ (z : ShardConfig).
          (r : Rule) × (parse_rule cal z ≡ ok r) × (find_rule z.db z.table rules' ≡ some r))
        (sym same) (r, q, all_stay c.db c.table r cfgs next rules' f e')
  all_found (c ∷ cfgs) rules rules' cfg e (inr m) =
      let (next, a, e') = both_returned (add_shard cal nodes c rules) _ e in
      all_found cfgs next rules' cfg e' m

  none_found :
      (db table : Bytes) (cfgs : List ShardConfig) (rules rules' : Rules)
      → ((cfg : ShardConfig) → In cfg cfgs → ¬ ((cfg.db ≡ db) × (cfg.table ≡ table)))
      → find_rule db table rules ≡ none
      → add_shards cal nodes cfgs rules ≡ ok rules'
      → find_rule db table rules' ≡ none
  unfolding add_shards
  none_found db table [] rules rules' n f e =
      subst (λ (z : Rules). find_rule db table z ≡ none) (same_rules e) f
  none_found db table (c ∷ cfgs) rules rules' n f e =
      let (next, a, e') = both_returned (add_shard cal nodes c rules) _ e in
      none_found db table cfgs next rules' (λ cfg m. n cfg (inr m))
        (absent_stays db table c rules next (n c (inl refl)) f a) e'

pub plain_name : (db table : Bytes) → (split_dots table).1 ≡ [] → qualified db table ≡ (db, table)
unfolding qualified
plain_name db table e = rw e refl

get_rule-some :
    (rt : Router) (db table : Bytes) (r : Rule)
    → (split_dots table).1 ≡ []
    → find_rule db table rt.rules ≡ some r
    → get_rule rt db table ≡ (r, rt)
unfolding get_rule get_rule_at
get_rule-some rt db table r p f =
    subst (λ (q : Bytes × Bytes). get_rule_at rt q ≡ (r, rt)) (sym (plain_name db table p))
      (rw (f, get_rule_at) refl)

get_rule-none :
    (rt : Router) (db table : Bytes)
    → (split_dots table).1 ≡ []
    → find_rule db table rt.rules ≡ none
    → (get_rule rt db table).0 ≡ record rt.default_rule { db = db }
unfolding get_rule get_rule_at
get_rule-none rt db table p f =
    subst (λ (q : Bytes × Bytes). (get_rule_at rt q).0 ≡ record rt.default_rule { db = db })
      (sym (plain_name db table p)) (rw (f, get_rule_at) refl)

-- What `NewRouter` keeps of a schema.
pub new_router_lem :
    (cal : Calendar) (schema : SchemaConfig) (rt : Router)
    → new_router cal schema ≡ ok rt
    → (add_shards cal schema.nodes schema.shard_rule [] ≡ ok rt.rules)
      × (rt.default_rule ≡ new_default_rule schema.default_node)
unfolding new_router
new_router_lem cal schema rt e =
    let (rules, a, e') =
      both_returned (add_shards cal schema.nodes schema.shard_rule []) _
        (in_schema (include_node schema.nodes schema.default_node) _ _ e) in
    subst
      (λ (z : Router).
        (add_shards cal schema.nodes schema.shard_rule [] ≡ ok z.rules)
        × (z.default_rule ≡ new_default_rule schema.default_node))
      (same_router e') (a, refl)
  where
    in_schema :
        (b : Bool) (x : Result Router) (er : Error) → (if b then x else err er) ≡ ok rt → x ≡ ok rt
    in_schema b x er h = ground arith

    same_router : {a b : Router} → ok a ≡ ok b → a ≡ b
    same_router q = cc

pub nothing_yet : (db table : Bytes) → find_rule db table [] ≡ none
unfolding find_rule lookup
nothing_yet db table = refl

-- The rule of a table that is configured is in the router's map.
pub find_configured :
    (cal : Calendar) (schema : SchemaConfig) (rt : Router) (cfg : ShardConfig)
    → new_router cal schema ≡ ok rt
    → In cfg schema.shard_rule
    → (r : Rule) × (parse_rule cal cfg ≡ ok r) × (find_rule cfg.db cfg.table rt.rules ≡ some r)
find_configured cal schema rt cfg e m =
    all_found cal schema.nodes schema.shard_rule [] rt.rules cfg (new_router_lem cal schema rt e).0
      m

-- A table that is not configured is not in the map.
pub find_unknown :
    (cal : Calendar) (schema : SchemaConfig) (rt : Router) (db table : Bytes)
    → new_router cal schema ≡ ok rt
    → ((cfg : ShardConfig) → In cfg schema.shard_rule → ¬ ((cfg.db ≡ db) × (cfg.table ≡ table)))
    → find_rule db table rt.rules ≡ none
find_unknown cal schema rt db table e n =
    none_found cal schema.nodes db table schema.shard_rule [] rt.rules n (nothing_yet db table)
      (new_router_lem cal schema rt e).0

-- A router that `NewRouter` makes of a schema knows its tables. `GetRule`, asked for a database and
-- a table that stands in the schema under a name with no dot, returns the rule that `parseRule`
-- gives for it, and leaves the router alone; asked for a table with no dot in its name that the
-- schema does not have, it returns the default rule with the database put in.
pub router_knows :
    (cal : Calendar) (schema : SchemaConfig) (rt : Router)
    → new_router cal schema ≡ ok rt
    → ((cfg : ShardConfig)
        → In cfg schema.shard_rule
        → (split_dots cfg.table).1 ≡ []
        → (r : Rule) × (parse_rule cal cfg ≡ ok r) × (get_rule rt cfg.db cfg.table ≡ (r, rt)))
      × ((db table : Bytes)
          → ((cfg : ShardConfig)
              → In cfg schema.shard_rule
              → ¬ ((cfg.db ≡ db) × (cfg.table ≡ table)))
          → (split_dots table).1 ≡ []
          → (get_rule rt db table).0 ≡ record rt.default_rule { db = db })
router_knows cal schema rt e = (
  λ cfg m p.
      let (r, q, f) = find_configured cal schema rt cfg e m in
      (r, q, get_rule-some rt cfg.db cfg.table r p f),
  λ db table n p. get_rule-none rt db table p (find_unknown cal schema rt db table e n),
)
