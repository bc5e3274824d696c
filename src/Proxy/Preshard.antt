-- ===== src/Proxy/Preshard.antt =====
-- Where a statement goes before it is parsed: proxy/server/conn_preshard.go. A node is its name; a
-- name that a map of nodes does not have is nil.
pub mod Dispatch
pub mod Sharded
pub mod Unsharded
use kingshard.Prelude.{
  ℕ, zero, suc, ◌/◌, ◌%◌, ℤ, Bytes, codes, eqb_bytes, List, [], ◌∷◌, ◌++◌, Option, none, some, Bool,
  true, false, ◌==◌, ◌&&◌, ◌||◌, not, leb, ltb, if◌then◌else◌, length, trim, before, split_on, join,
  get_elem?,
}
use kingshard.Outcome.{Result, Error, ok, err, panic, ◌>>=◌}
use kingshard.Outcome.Error.{no_default_node, trans_in_multi, ignore_sql, cmd_unsupport}
use kingshard.Outcome.Panic.{index_out_of_range}
use kingshard.Router.Rule.{Rule, map_get}
use kingshard.Router.Registry.{
  Router, Rules, find_rule, get_rule, qualified, is_default, is_backquote,
}
use kingshard.Router.Plan.Values.{to_lower}
use kingshard.Proxy.Tokens.{
  get_db_table, get_insert_db_table, Keyword, insert, update, delete, replace, set, select, show,
  truncate, parse_token, member, set_key_words, fields_func,
}

-- The fields of ClientConn and of its schema that are read: `nodes` are the keys of schema.nodes,
-- `proxy_nodes` those of the server, and `tx_conns` the nodes of txConns.
pub record Session : Type 0 where
  pub status : ℕ
  pub db : Bytes
  pub nodes : List Bytes
  pub proxy_nodes : List Bytes
  pub rule : Router
  pub tx_conns : List Bytes

pub record ExecuteDb : Type 0 where
  pub exec_node : Option Bytes
  pub is_slave : Bool
  pub sql : Bytes

-- The result, and the router, whose default rule may have taken on a database. `none` stands for
-- nil: the statement has to be parsed and planned.
abbrev pub Routed : Type 0
Routed = Result (Option ExecuteDb) × Router

unfoldable pub node_named : List Bytes → Bytes → Option Bytes
unfolding member
node_named nodes name = if member name nodes then some name else none

-- `GetRule(db, table) != DefaultRule`, and the router after it.
unfoldable pub is_sharded : Router → Bytes → Bytes → Bool × Router
unfolding find_rule get_rule qualified
is_sharded r db table =
    let (d, t) = qualified db table in
    (elim (find_rule d t r.rules) [ none ↦ false | some rule ↦ true ], (get_rule r db table).1)

-- The database of the token, or that of the session.
unfoldable pub asked : Bytes → Router → Bytes × Bytes → Bool × Router
unfolding is_sharded
asked db r (d, table) = is_sharded r (if eqb_bytes d [] then db else d) table

-- setExecuteNode, where the tokens begin with the node's name in a comment.
abbrev pub hinted : Session → Bytes → Bytes → ExecuteDb → ExecuteDb
unfolding node_named
hinted s first second e =
    let e' : ExecuteDb = elim (node_named s.nodes (trim (λ c. c == 42) first)) [
      | none ↦ e
      | some n ↦ record e { exec_node = some n }
    ] in
    if eqb_bytes (to_lower second) (codes "select") then record e' { is_slave = true } else e'

unfoldable pub with_hint : Session → List Bytes → ExecuteDb → Result ExecuteDb
unfolding hinted
with_hint s ([] ∷ second ∷ rest) e = panic index_out_of_range
with_hint s ((c ∷ cs) ∷ second ∷ rest) e = ok (if c == 42 then hinted s (c ∷ cs) second e else e)
with_hint s tokens e = ok e

unfoldable pub or_default : Session → Router → ExecuteDb → Result ExecuteDb
unfolding node_named
or_default s r e = elim e.exec_node [
  | some n ↦ ok e
  | none ↦ elim r.default_rule.nodes [
    | [] ↦ err no_default_node
    | n ∷ ns ↦ ok (record e { exec_node = node_named s.proxy_nodes n })
  ]
]

unfoldable pub set_execute_node : Session → Router → List Bytes → ExecuteDb → Result ExecuteDb
unfolding with_hint or_default
set_execute_node s r tokens e = with_hint s tokens e >>= λ e'. or_default s r e'

-- How the handlers of the statements end: nil for a sharded table.
unfoldable pub route : Session → List Bytes → ExecuteDb → Bool × Router → Routed
unfolding set_execute_node
route s tokens e (true, r) = (ok none, r)
route s tokens e (false, r) = (set_execute_node s r tokens e >>= λ e'. ok (some e'), r)

-- `if len(rules) != 0`
abbrev pub guarded : Router → Bool × Router → Bool × Router
guarded r found = elim r.rules [ [] ↦ (false, r) | m ∷ ms ↦ found ]

-- The loop of getSelectExecDB.
unfoldable pub scan_select : Bytes → Router → List Bytes → Bool × Router
unfolding asked get_db_table
scan_select db r [] = (false, r)
scan_select db r (token ∷ rest) =
    let others = scan_select db r rest in
    if eqb_bytes (to_lower token) (codes "from")
    then elim rest [ [] ↦ others | next ∷ more ↦ asked db r (get_db_table next) ]
    else if eqb_bytes (to_lower token) (codes "last_insert_id()")
    then (true, r)
    else others

-- The loop of getDeleteExecDB.
unfoldable pub scan_delete : Bytes → Router → List Bytes → Bool × Router
unfolding asked get_db_table
scan_delete db r [] = (false, r)
scan_delete db r (token ∷ rest) =
    let others = scan_delete db r rest in
    if eqb_bytes (to_lower token) (codes "from")
    then elim rest [ [] ↦ others | next ∷ more ↦ asked db r (get_db_table next) ]
    else others

-- The loop of getInsertOrReplaceExecDB.
unfoldable pub scan_insert : Bytes → Router → List Bytes → Bool × Router
unfolding asked get_insert_db_table
scan_insert db r [] = (false, r)
scan_insert db r (token ∷ rest) =
    let others = scan_insert db r rest in
    if eqb_bytes (to_lower token) (codes "into")
    then elim rest [ [] ↦ others | next ∷ more ↦ asked db r (get_insert_db_table next) ]
    else others

-- The loop of getUpdateExecDB, behind the token before; its first round reads tokens[-1] if the
-- first token is SET.
unfoldable pub scan_update : Bytes → Router → Option Bytes → List Bytes → Result (Bool × Router)
unfolding asked get_db_table
scan_update db r previous [] = ok (false, r)
scan_update db r previous (token ∷ rest) =
    let others = scan_update db r (some token) rest in
    if eqb_bytes (to_lower token) (codes "set")
    then elim previous [
      | none ↦ panic index_out_of_range
      | some p ↦ ok (asked db r (get_db_table p))
    ]
    else others

abbrev tail : List Bytes → List Bytes
tail [] = []
tail (t ∷ ts) = ts

-- /*master*/ behind SELECT, where a third token follows.
unfoldable pub master_hint : List Bytes → Bool
master_hint (t ∷ u ∷ v ∷ rest) = eqb_bytes (to_lower u) (codes "*master*")
master_hint _ = false

unfoldable pub get_select_exec_db : Session → Bytes → List Bytes → Routed
unfolding scan_select master_hint route
get_select_exec_db s sql tokens =
    route s tokens (record { exec_node = none; is_slave = not (master_hint tokens); sql = sql })
      (guarded s.rule (scan_select s.db s.rule (tail tokens)))

abbrev pub on_master : Bytes → ExecuteDb
on_master sql = record { exec_node = none; is_slave = false; sql = sql }

unfoldable pub get_delete_exec_db : Session → Bytes → List Bytes → Routed
unfolding scan_delete route
get_delete_exec_db s sql tokens =
    route s tokens (on_master sql) (guarded s.rule (scan_delete s.db s.rule (tail tokens)))

unfoldable pub get_insert_exec_db : Session → Bytes → List Bytes → Routed
unfolding scan_insert route
get_insert_exec_db s sql tokens =
    route s tokens (on_master sql) (guarded s.rule (scan_insert s.db s.rule tokens))

unfoldable pub routed_update : Session → Bytes → List Bytes → Result (Bool × Router) → Routed
unfolding route
routed_update s sql tokens (ok found) = route s tokens (on_master sql) found
routed_update s sql tokens (err e) = (err e, s.rule)
routed_update s sql tokens (panic p) = (panic p, s.rule)

unfoldable pub get_update_exec_db : Session → Bytes → List Bytes → Routed
unfolding scan_update routed_update route
get_update_exec_db s sql tokens = elim s.rule.rules [
  | [] ↦ route s tokens (on_master sql) (false, s.rule)
  | m ∷ ms ↦ routed_update s sql tokens (scan_update s.db s.rule none tokens)
]

-- SET of a session variable is parsed; SET TRANSACTION is ignored. The word behind SET is read
-- without a test that there is a space before it.
unfoldable pub set_words : Bytes → Result (Bytes × Option Bytes)
unfolding before split_on
set_words sql = elim (split_on 32 (before 61 sql)).1 [
  | [] ↦ panic index_out_of_range
  | w ∷ [] ↦ ok (to_lower w, none)
  | w ∷ v ∷ rest ↦ ok (to_lower w, some (to_lower v))
]

abbrev is_transaction : Bytes → Option Bytes → Bool
unfolding eqb_bytes
is_transaction w none = false
is_transaction w (some v) = eqb_bytes w (codes "transaction") || eqb_bytes v (codes "transaction")

abbrev routed_set : Session → Bytes → List Bytes → Result (Bytes × Option Bytes) → Routed
unfolding route is_transaction member
routed_set s sql tokens (ok (w, v)) =
    if member w set_key_words
    then (ok none, s.rule)
    else if is_transaction w v
    then (err ignore_sql, s.rule)
    else route s tokens (on_master sql) (false, s.rule)
routed_set s sql tokens (err e) = (err e, s.rule)
routed_set s sql tokens (panic p) = (panic p, s.rule)

unfoldable pub get_set_exec_db : Session → Bytes → List Bytes → Routed
unfolding set_words routed_set route
get_set_exec_db s sql tokens =
    if leb 2 (length tokens)
    then routed_set s sql tokens (set_words sql)
    else route s tokens (on_master sql) (false, s.rule)

abbrev last_token : List Bytes → Option Bytes
last_token [] = none
last_token (t ∷ []) = some t
last_token (t ∷ u ∷ rest) = last_token (u ∷ rest)

unfoldable pub truncated_table : Session → List Bytes → Bool × Router
unfolding asked get_db_table
truncated_table s tokens =
    if leb 2 (length tokens)
    then elim (last_token tokens) [
      | none ↦ (false, s.rule)
      | some t ↦ asked s.db s.rule (get_db_table t)
    ]
    else (false, s.rule)

unfoldable pub get_truncate_exec_db : Session → Bytes → List Bytes → Routed
unfolding truncated_table route
get_truncate_exec_db s sql tokens =
    route s tokens (on_master sql) (guarded s.rule (truncated_table s tokens))
