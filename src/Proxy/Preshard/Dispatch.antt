-- ===== src/Proxy/Preshard/Dispatch.antt =====
-- SHOW COLUMNS, and the choice of the handler: handleShowColumns, getShowExecDB, GetExecDB and
-- GetTransExecDB of proxy/server/conn_preshard.go, and the status of proxy/server/conn_tx.go.
use kingshard.Prelude.{
  ◌/◌, ◌%◌, ℤ, Bytes, codes, eqb_bytes, List, [], ◌∷◌, ◌++◌, Option, none, some, Bool, true, false,
  ◌==◌, ◌&&◌, ◌||◌, not, if◌then◌else◌, length, trim, join,
}
use kingshard.Outcome.{Result, ok, err, panic, ◌>>=◌}
use kingshard.Outcome.Panic.{index_out_of_range}
use kingshard.Outcome.Error.{trans_in_multi, cmd_unsupport}
use kingshard.Router.Rule.{Rule, map_get}
use kingshard.Router.Shard.{index}
use kingshard.Router.Registry.{Router, get_rule, is_default, is_backquote}
use kingshard.Router.Plan.Values.{to_lower}
use kingshard.Proxy.Tokens.{
  get_db_table, Keyword, insert, update, delete, replace, set, select, show, truncate, parse_token,
  member, fields_func,
}
use kingshard.Proxy.Preshard.{
  Session, Routed, node_named, set_execute_node, route, on_master, get_select_exec_db,
  get_delete_exec_db, get_insert_exec_db, get_update_exec_db, get_set_exec_db, get_truncate_exec_db,
}

-- The database behind a second FROM, or that of the session, whatever the token of the table says.
abbrev show_db : Bytes → List Bytes → Bytes
show_db db (x ∷ y ∷ rest) = trim is_backquote y
show_db db _ = db

-- The tokens as the loop leaves them, with the statement and the node of a sharded table.
abbrev Shown : Type 0
Shown = Result (List Bytes × Option (Bytes × Option Bytes)) × Router

-- SERVER_STATUS_IN_TRANS is 1, SERVER_STATUS_AUTOCOMMIT is 2.
unfoldable pub is_auto_commit : Session → Bool
is_auto_commit s = (s.status / 2) % 2 == 1

unfoldable pub is_in_transaction : Session → Bool
unfolding is_auto_commit
is_in_transaction s = s.status % 2 == 1 || not (is_auto_commit s)

-- `fmt.Sprintf("%s_%04d", table, i)`
module _ (sprintf : Bytes → ℤ → Bytes) where
  -- The first sub-table of a rule, if it has one, and the statement about it.
  abbrev first_table :
      Session → List Bytes → Bytes → List Bytes → Rule → Option (Result (Bytes × Option Bytes))
  unfolding is_default index map_get join node_named
  first_table s done table more rule =
      if is_default rule.kind then none else elim rule.sub_table_indexs [
        | [] ↦ none
        | i ∷ is' ↦ some (
            index rule.nodes (map_get i rule.table_to_node) >>= λ name.
            ok (join 32 (done ++ (sprintf table i ∷ more)), node_named s.nodes name))
      ]

  -- The round of a token COLUMNS or FIELDS that FROM follows.
  abbrev show_round :
      Session → List Bytes → List Bytes → Router → Option (Result (Bytes × Option Bytes)) × Router
  unfolding first_table get_rule get_db_table
  show_round s done (f ∷ t ∷ more) r =
      if eqb_bytes (to_lower f) (codes "from")
      then (let (db, table) = get_db_table t in
          let (rule, r') = get_rule r (show_db s.db more) table in
          (first_table s (done ++ (f ∷ [])) table more rule, r'))
      else (none, r)
  show_round s done _ r = (none, r)

  -- The loop of handleShowColumns, behind the tokens that it has written in lower case.
  unfoldable pub show_columns : Session → List Bytes → List Bytes → Router → Shown
  unfolding show_round
  show_columns s done [] r = (ok (done, none), r)
  show_columns s done (token ∷ rest) r =
      let low = to_lower token in
      let (found, r') =
        if eqb_bytes low (codes "fields") || eqb_bytes low (codes "columns")
        then show_round s (done ++ (low ∷ [])) rest r
        else (none, r) in
      elim found [
        | none ↦ show_columns s (done ++ (low ∷ [])) rest r'
        | some (ok (sql, node)) ↦ (ok (done ++ (low ∷ rest), some (sql, node)), r')
        | some (err e) ↦ (err e, r')
        | some (panic p) ↦ (panic p, r')
      ]

  abbrev shown : Session → Bytes → Shown → Routed
  unfolding set_execute_node
  shown s sql (ok (tokens, none), r) = (
    set_execute_node s r tokens (record { exec_node = none; is_slave = true; sql = sql }) >>= λ e.
        ok (some e),
    r,
  )
  shown s sql (ok (tokens, some (sql', node)), r) = (
    set_execute_node s r tokens (record { exec_node = node; is_slave = true; sql = sql' }) >>= λ e.
        ok (some e),
    r,
  )
  shown s sql (err e, r) = (err e, r)
  shown s sql (panic p, r) = (panic p, r)

  unfoldable pub get_show_exec_db : Session → Bytes → List Bytes → Routed
  unfolding show_columns shown
  get_show_exec_db s sql tokens = shown s sql (show_columns s [] tokens s.rule)

  unfoldable pub handled : Session → Bytes → List Bytes → Option Keyword → Routed
  unfolding get_select_exec_db get_delete_exec_db get_insert_exec_db get_update_exec_db
      get_set_exec_db get_show_exec_db get_truncate_exec_db route
  handled s sql tokens none = route s tokens (on_master sql) (false, s.rule)
  handled s sql tokens (some select) = get_select_exec_db s sql tokens
  handled s sql tokens (some delete) = get_delete_exec_db s sql tokens
  handled s sql tokens (some insert) = get_insert_exec_db s sql tokens
  handled s sql tokens (some replace) = get_insert_exec_db s sql tokens
  handled s sql tokens (some update) = get_update_exec_db s sql tokens
  handled s sql tokens (some set) = get_set_exec_db s sql tokens
  handled s sql tokens (some show) = get_show_exec_db s sql tokens
  handled s sql tokens (some truncate) = get_truncate_exec_db s sql tokens
  handled s sql tokens (some _) = (ok none, s.rule)

  unfoldable pub get_exec_db : Session → Bytes → List Bytes → Routed
  unfolding handled parse_token
  get_exec_db s sql [] = handled s sql [] none
  get_exec_db s sql (t ∷ ts) = handled s sql (t ∷ ts) (parse_token (to_lower t))

  -- The node that a comment before the statement names.
  unfoldable pub hinted_node : Session → List Bytes → Result (Option Bytes)
  unfolding node_named
  hinted_node s ([] ∷ second ∷ rest) = panic index_out_of_range
  hinted_node s ((c ∷ cs) ∷ second ∷ rest) =
      ok (if c == 42 then node_named s.nodes (trim (λ d. d == 42) (c ∷ cs)) else none)
  hinted_node s _ = ok none

  abbrev in_transaction : Session → Bytes → List Bytes → Result (Option Bytes) → Routed
  unfolding get_exec_db member
  in_transaction s sql tokens (ok none) = get_exec_db s sql tokens
  in_transaction s sql tokens (ok (some n)) =
      if length s.tx_conns == 1 && not (member n s.tx_conns)
      then (err trans_in_multi, s.rule)
      else (ok (some (record { exec_node = some n; is_slave = false; sql = sql })), s.rule)
  in_transaction s sql tokens (err e) = (err e, s.rule)
  in_transaction s sql tokens (panic p) = (panic p, s.rule)

  unfoldable pub get_trans_exec_db : Session → Bytes → List Bytes → Routed
  unfolding in_transaction hinted_node
  get_trans_exec_db s sql tokens = in_transaction s sql tokens (hinted_node s tokens)

  -- What preHandleShard decides of a statement that is not in the blacklist.
  unfoldable pub pre_handle_shard : Session → Bytes → Routed
  unfolding get_exec_db get_trans_exec_db fields_func is_in_transaction
  pre_handle_shard s sql = elim (fields_func sql) [
    | [] ↦ (err cmd_unsupport, s.rule)
    | t ∷ ts ↦
        if is_in_transaction s then get_trans_exec_db s sql (t ∷ ts) else get_exec_db s sql (t ∷ ts)
  ]
