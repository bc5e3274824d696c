-- ===== src/Tests/Pool.antt =====
-- A pool of two connections, on a server that accepts everything.
use kingshard.Prelude.{
  ℕ, pos, ◌-ℤ◌, Bytes, codes, eqb_bytes, List, [], ◌∷◌, ◌≡◌, ◌↔◌, refl, arith, ◌<◌, if_either, none,
  some, true, false, ◌||◌, if◌then◌else◌,
}
use kingshard.Outcome.{ok}
use kingshard.Outcome.Error.{database_close}
use kingshard.Backend.Conn.{
  Server, Charsets, Conn, Command, connect, ping, init_db, query, Answer, accepted, default_charset,
  is_in_transaction, is_auto_commit, connect_to, reconnect, request, exec,
}
use kingshard.Backend.Pool.{
  Db, is_unknown, gets, waits, fails, open_db, filled, open_conns, new_conn, max_conns, init_conns,
  pop_conn, get_conn_from_cache, check_alive, cached, after_cache, then_reused, try_reuse, reused,
  close_db,
}
use kingshard.Backend.Pool.Balance.{IsPool}
use kingshard.Backend.Pool.Runs.{Run, opens, pops, Run-IsPool, pop_conn-waits}
use kingshard.Backend.Pool.Reuse.{KeepsFlags, IsFresh, popped-IsFresh}
use kingshard.Backend.Pool.Served.{Serves, pop_conn-gets}
use kingshard.Backend.Pool.Closed.{pushed, returned, closed_refuses}

unfoldable sent : Bytes → ℕ → Answer
unfolding eqb_bytes
sent sql s =
    if eqb_bytes sql (codes "rollback") || eqb_bytes sql (codes "set autocommit = 1")
    then accepted 2
    else accepted s

unfoldable answers : Command → ℕ → Answer
unfolding sent
answers connect s = accepted 2
answers ping s = accepted s
answers (init_db name) s = accepted s
answers (query sql) s = sent sql s

abbrev willing : Server
willing = record { answer = λ t command s. answers command s; now = λ t. pos 100 }

abbrev tables : Charsets
tables = record {
  default_collation = λ charset. 33;
  has_charset = λ charset. true;
  collation_name = λ id. some (codes "utf8_general_ci");
}

told : {a b : ℕ} → accepted a ≡ accepted b → a ≡ b
told e = cc

willing-KeepsFlags : KeepsFlags willing
unfolding answers sent eqb_bytes
willing-KeepsFlags = record {
  rolled_back = λ t s s' e. omega (arith, told e);
  set_on = λ t s s' e. (omega (arith, told e), λ h. omega (arith, told e));
  names_set = λ t s s' names e. (omega (arith, told e), omega (arith, told e));
}

willing-Serves : Serves willing tables
unfolding answers sent
willing-Serves = record {
  accepts = λ t command s. accepted_by command s;
  has_default = refl;
  has_collation = (codes "utf8_general_ci", refl);
}
  where
    accepted_by : (command : Command) (s : ℕ) → (s' : ℕ) × (answers command s ≡ accepted s')
    accepted_by connect s = (2, refl)
    accepted_by ping s = (s, refl)
    accepted_by (init_db name) s = (s, refl)
    accepted_by (query sql) s =
        if_either (λ (a : Answer). (s' : ℕ) × (a ≡ accepted s'))
          (eqb_bytes sql (codes "rollback") || eqb_bytes sql (codes "set autocommit = 1")) _ _
          (λ either. (2, refl)) (λ other. (s, refl))

abbrev session : Conn
session = record {
  up = true;
  db = [];
  status = 2;
  collation = 33;
  charset = default_charset;
  push_timestamp = pos 100;
  pkg_err = false;
}

abbrev pool : List Conn → ℕ → Db
pool cache popped = record {
  addr = codes "127.0.0.1:3306";
  db = [];
  state = is_unknown;
  max_conn_num = 2;
  init_conn_num = 2;
  idle_conns = some [];
  cache_conns = some cache;
  check_conn = some session;
  last_ping = pos 100;
  push_conn_count = 2;
  pop_conn_count = popped;
}

pool_opened :
    open_db willing (codes "127.0.0.1:3306") [] (pos 2) 0 ≡ ok (pool (session ∷ session ∷ []) 0)
unfolding open_db filled open_conns new_conn max_conns init_conns connect_to reconnect request exec
    answers sent eqb_bytes
pool_opened = refl

conn_popped :
    pop_conn willing tables true (pool (session ∷ session ∷ []) 0) 9
    ≡ (gets session, pool (session ∷ []) 1, 10)
unfolding pop_conn get_conn_from_cache check_alive cached after_cache then_reused try_reuse reused
    is_in_transaction is_auto_commit eqb_bytes ◌-ℤ◌
conn_popped = refl

one_out : Run willing tables (pos 2) (pool (session ∷ []) 1) 1
one_out =
    pops _ _ 0 true 9 10 session (opens (codes "127.0.0.1:3306") [] 0 _ pool_opened) conn_popped

Run-IsPool_example : IsPool (max_conns (pos 2)) 1 (pool (session ∷ []) 1)
Run-IsPool_example = Run-IsPool willing tables (pos 2) (pool (session ∷ []) 1) 1 one_out

pop_conn-waits_example :
    ((pop_conn willing tables true (pool (session ∷ []) 1) 10).0 ≡ waits) ↔ (1 ≡ max_conns (pos 2))
pop_conn-waits_example =
    pop_conn-waits willing tables (pos 2) (pool (session ∷ []) 1) 1 true 10 one_out

popped-IsFresh_example : IsFresh session
popped-IsFresh_example =
    popped-IsFresh willing tables willing-KeepsFlags true (pool (session ∷ session ∷ []) 0)
      (pool (session ∷ []) 1) 9 10 session conn_popped

pop_conn-gets_example :
    (co : Conn) × (d' : Db) × (t' : ℕ) × (pop_conn willing tables true (pool (session ∷ []) 1) 10
      ≡ (gets co, d', t'))
unfolding max_conns
pop_conn-gets_example =
    pop_conn-gets willing tables willing-Serves (pos 2) (pool (session ∷ []) 1) 1 true 10 one_out
      one_left
  where
    one_left : 1 < max_conns (pos 2)
    one_left = omega arith

closed_refuses_example :
    pop_conn willing tables true
      (returned (pushed (pos 5) (some session) none ∷ []) (close_db (pool (session ∷ []) 1)))
      10
    ≡ (
      fails database_close,
      returned (pushed (pos 5) (some session) none ∷ []) (close_db (pool (session ∷ []) 1)),
      10,
    )
closed_refuses_example =
    closed_refuses willing tables true (pool (session ∷ []) 1)
      (pushed (pos 5) (some session) none ∷ []) 10
