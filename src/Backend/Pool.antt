-- ===== src/Backend/Pool.antt =====
-- The connection pool of backend/db.go. A channel is the list of what it holds, the oldest first.
-- Calls do not interleave inside: each runs to its end.
use kingshard.Prelude.{
  ℕ, zero, suc, ◌+◌, ◌/◌, ◌-◌, ℤ, pos, ◌-ℤ◌, pos_part, ltb_ℤ, codes, Bytes, eqb_bytes, List, [],
  ◌∷◌, ◌++◌, Option, none, some, Bool, true, false, ltb, not, if◌then◌else◌, length,
}
use kingshard.Outcome.{Result, Error, ok, err}
use kingshard.Outcome.Error.{database_close, bad_conn}
use kingshard.Backend.Conn.{
  Server, Charsets, Conn, blank, Reply, close, is_in_transaction, is_auto_commit, default_charset,
  default_collation_id, exec, rollback, set_charset, send_ping, connect_to, next,
}
pub mod Balance
pub mod Runs
pub mod Reuse
pub mod Served
pub mod Closed

pub data State : Type 0 where
  is_up is_down is_manual_down is_unknown : State

-- A channel is `none` while its field is nil. The counters are 64 bits wide, and taken to fit.
pub record Db : Type 0 where
  pub addr : Bytes
  pub db : Bytes
  pub state : State
  pub max_conn_num : ℕ
  pub init_conn_num : ℕ
  pub idle_conns : Option (List Conn)
  pub cache_conns : Option (List Conn)
  pub check_conn : Option Conn
  pub last_ping : ℤ
  pub push_conn_count : ℕ
  pub pop_conn_count : ℕ

-- A send in a select with a default case: what does not fit in is dropped.
unfoldable pub offer : ℕ → Conn → List Conn → List Conn
offer room c held = if ltb (length held) room then held ++ (c ∷ []) else held

unfoldable pub offer_to : ℕ → Conn → Option (List Conn) → Option (List Conn)
unfolding offer
offer_to room c none = none
offer_to room c (some held) = some (offer room c held)

unfoldable pub add_idle_conn : Db → Db
add_idle_conn d = record d { idle_conns = offer_to d.max_conn_num blank d.idle_conns }

unfoldable pub close_conn_not_add : Db → Option Conn → Db
unfolding add_idle_conn close
close_conn_not_add d (some co) = record d {
  idle_conns = offer_to d.max_conn_num (close co) d.idle_conns;
}
close_conn_not_add d none = add_idle_conn d

-- `closeConn` is the same, with the connection counted as pushed.
unfoldable pub close_conn : Db → Option Conn → Db
unfolding close_conn_not_add
close_conn d co = close_conn_not_add (record d { push_conn_count = suc d.push_conn_count }) co

-- The counter of pushes after Close, which closes what the pool holds: `closeConn` counts each
-- connection, and finds the channel of idle ones gone. A pool without a channel stays as it is.
unfoldable pub closed_count : Option (List Conn) → Option (List Conn) → ℕ → ℕ
closed_count (some cache) (some idle) n = n + length cache
closed_count (some cache) none n = n
closed_count none idle n = n

unfoldable pub close_db : Db → Db
unfolding closed_count
close_db d = record d {
  cache_conns = none;
  idle_conns = none;
  push_conn_count = closed_count d.cache_conns d.idle_conns d.push_conn_count;
}

abbrev pub Popped : Type 0
Popped = Option Conn × Db × ℕ

-- What a call for a connection comes to: it waits at a select, or returns.
pub data Taken : Type 0 where
  waits : Taken
  fails : Error → Taken
  gets : Conn → Taken

abbrev pub Pop : Type 0
Pop = Taken × Db × ℕ

-- A connection that a ping left in the state of a reply: it is returned, or closed, with the error
-- that the caller gives.
unfoldable pub alive : Db → Error → Reply → Pop
unfolding close_conn
alive d e (none, co, t) = (gets co, d, t)
alive d e (some why, co, t) = (fails e, close_conn d (some co), t)

-- A connection is closed if it cannot be reused, and the error of `tryReuse` returned.
unfoldable pub reused : Db → Reply → Pop
unfolding close_conn
reused d (none, co, t) = (gets co, d, t)
reused d (some e, co, t) = (fails e, close_conn d (some co), t)

abbrev pub contents : Option (List Conn) → List Conn
contents none = []
contents (some held) = held

module _ (server : Server) where
  -- `co.Ping()` where the connection has not been used for more than PingPeroid seconds.
  unfoldable pub check_alive : Conn → ℕ → Reply
  unfolding send_ping
  check_alive co t =
      if ltb_ℤ (pos 4) (server.now t -ℤ co.push_timestamp)
      then send_ping server co (suc t)
      else (none, co, suc t)

  -- A round of the loop of GetConnFromCache, with the rounds that follow; closed connections go to
  -- the idle ones.
  unfoldable pub cached : (Db → ℕ → Popped) → Db → Reply → Popped
  unfolding close_conn
  cached others d (none, co, t) = (some co, d, t)
  cached others d (some e, co, t) = others (close_conn d (some co)) t

  -- The loop, on what the channel holds.
  unfoldable pub get_conn_from_cache : List Conn → Db → ℕ → Popped
  unfolding check_alive cached
  get_conn_from_cache [] d t = (none, d, t)
  get_conn_from_cache (co ∷ rest) d t =
      cached (get_conn_from_cache rest)
        (record d { cache_conns = some rest; pop_conn_count = suc d.pop_conn_count })
        (check_alive co t)

  -- The connection is of no meaning beside an error.
  abbrev pub connected : Reply → Reply
  connected (none, co, t) = (none, record co { push_timestamp = server.now t }, suc t)
  connected (some e, co, t) = (some e, co, t)

  unfoldable pub new_conn : Bytes → ℕ → Reply
  unfolding connect_to
  new_conn name t = connected (connect_to server name blank t)

  unfoldable pub pinged_new : Db → Reply → Pop
  unfolding close_conn send_ping
  pinged_new d (none, co, t) = alive d bad_conn (send_ping server co t)
  pinged_new d (some e, co, t) = (fails e, close_conn d none, t)

  -- The case of a connection from `idleConns`, whose other ones are given.
  unfoldable pub take_idle : List Conn → Db → ℕ → Pop
  unfolding new_conn pinged_new
  take_idle rest d t =
      pinged_new (record d { idle_conns = some rest; pop_conn_count = suc d.pop_conn_count })
        (new_conn d.db t)

  -- The case of a connection from `cacheConns`.
  unfoldable pub take_cached : Conn → List Conn → Db → ℕ → Pop
  unfolding check_alive alive
  take_cached co rest d t =
      alive (record d { cache_conns = some rest; pop_conn_count = suc d.pop_conn_count }) bad_conn
        (check_alive co t)

  -- Which of two ready channels a select takes is the choice of the runtime.
  unfoldable pub get_conn_from_idle : Bool → List Conn → List Conn → Db → ℕ → Pop
  unfolding take_idle take_cached
  get_conn_from_idle choice [] [] d t = (waits, d, t)
  get_conn_from_idle choice [] (i ∷ idle) d t = take_idle idle d t
  get_conn_from_idle choice (c ∷ cache) [] d t = take_cached c cache d t
  get_conn_from_idle true (c ∷ cache) (i ∷ idle) d t = take_idle idle d t
  get_conn_from_idle false (c ∷ cache) (i ∷ idle) d t = take_cached c cache d t

  unfoldable pub after_cache : Bool → Popped → Pop
  unfolding get_conn_from_idle
  after_cache choice (some co, d, t) = (gets co, d, t)
  after_cache choice (none, d, t) =
      get_conn_from_idle choice (contents d.cache_conns) (contents d.idle_conns) d t

  -- A connection of Open, and what follows it.
  abbrev pub opened : (Conn → ℕ → Result Db) → Reply → Result Db
  opened others (none, co, t) = others co t
  opened others (some e, co, t) = err e

  -- The loop of Open, with `n` rounds left.
  unfoldable pub open_conns : ℕ → ℕ → List Conn → List Conn → Db → ℕ → Result Db
  unfolding new_conn
  open_conns zero i cache idle d t =
      ok (record d { cache_conns = some cache; idle_conns = some idle; last_ping = server.now t })
  open_conns (suc n) i cache idle d t =
      let counted = record d { push_conn_count = suc d.push_conn_count } in
      elim (ltb i d.init_conn_num) [
        | true ↦
            opened (λ co t'. open_conns n (suc i) (cache ++ (co ∷ [])) idle counted t')
              (new_conn d.db t)
        | false ↦ open_conns n (suc i) cache (idle ++ (blank ∷ [])) counted t
      ]

unfoldable pub max_conns : ℤ → ℕ
max_conns n = if ltb_ℤ (pos 0) n then pos_part n else 1024

unfoldable pub init_conns : ℤ → ℕ
init_conns n =
    if ltb_ℤ (pos 0) n then (if ltb (pos_part n) 16 then pos_part n else pos_part n / 4) else 16

-- The pool that Open begins with; the channels are made before the loop.
abbrev pub new_db : Bytes → Bytes → ℤ → Conn → Db
new_db addr name n co = record {
  addr = addr;
  db = name;
  state = is_unknown;
  max_conn_num = max_conns n;
  init_conn_num = init_conns n;
  idle_conns = some [];
  cache_conns = some [];
  check_conn = some co;
  last_ping = pos 0;
  push_conn_count = 0;
  pop_conn_count = 0;
}

unfoldable pub filled : Server → Bytes → Bytes → ℤ → Reply → Result Db
unfolding open_conns max_conns init_conns
filled server addr name n (none, co, t) =
    open_conns server (max_conns n) 0 [] [] (new_db addr name n co) t
filled server addr name n (some e, co, t) = err e

-- Open, for a number of connections; the user and the password are the server's business.
unfoldable pub open_db : Server → Bytes → Bytes → ℤ → ℕ → Result Db
unfolding new_conn filled
open_db server addr name n t = filled server addr name n (new_conn server name t)

module _ (server : Server) (charsets : Charsets) where
  unfoldable pub try_reuse : Conn → ℕ → Reply
  unfolding rollback exec set_charset is_in_transaction is_auto_commit
  try_reuse co t =
      next
        (next (if is_in_transaction co then rollback server co t else (none, co, t)) (λ c t'.
          if not (is_auto_commit c)
          then exec server (codes "set autocommit = 1") c t'
          else (none, c, t')))
        (λ c t'.
          if not (eqb_bytes c.charset default_charset)
          then set_charset server charsets default_charset default_collation_id c t'
          else (none, c, t'))

  unfoldable pub then_reused : Pop → Pop
  unfolding reused try_reuse
  then_reused (gets co, d, t) = reused d (try_reuse co t)
  then_reused (fails e, d, t) = (fails e, d, t)
  then_reused (waits, d, t) = (waits, d, t)

  unfoldable pub pop_conn : Bool → Db → ℕ → Pop
  unfolding get_conn_from_cache after_cache then_reused
  pop_conn choice d t = elim d.cache_conns [
    | none ↦ (fails database_close, d, t)
    | some cache ↦ elim d.idle_conns [
      | none ↦ (fails database_close, d, t)
      | some idle ↦ then_reused (after_cache server choice (get_conn_from_cache server cache d t))
    ]
  ]

-- A send to `cacheConns` that finds no room closes the connection.
unfoldable pub keep_conn : Db → Conn → List Conn → Db
unfolding close_conn_not_add
keep_conn d co held =
    if ltb (length held) d.max_conn_num
    then record d { cache_conns = some (held ++ (co ∷ [])) }
    else close_conn_not_add d (some co)

-- PushConn, at a time.
unfoldable pub push_conn : ℤ → Db → Option Conn → Option Error → Db
unfolding add_idle_conn close_conn_not_add keep_conn
push_conn now d none why = add_idle_conn (record d { push_conn_count = suc d.push_conn_count })
push_conn now d (some co) why =
    let counted = record d { push_conn_count = suc d.push_conn_count } in
    elim d.cache_conns [
      | none ↦ counted
      | some held ↦ elim why [
        | some e ↦ close_conn_not_add counted (some co)
        | none ↦ keep_conn counted (record co { push_timestamp = now }) held
      ]
    ]

-- BackendConn.Close
unfoldable pub give_back : ℤ → Db → Conn → Db
unfolding push_conn close_conn
give_back now d co = if co.pkg_err then close_conn d (some co) else push_conn now d (some co) none
