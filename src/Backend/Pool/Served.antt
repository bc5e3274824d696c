-- ===== src/Backend/Pool/Served.antt =====
-- A pool whose server answers gives a connection.
use kingshard.Prelude.{
  ℕ, suc, ◌-ℤ◌, ltb_ℤ, ◌<◌, ℤ, pos, ◌==◌, ◌&&◌, Bytes, codes, eqb_bytes, List, [], ◌∷◌, ◌++◌, ◌≡◌,
  ◌≢◌, refl, sym, ap, ◌∙◌, inl, inr, arith, Option, Option-cases, none, some, Bool, true, false,
  not, if_either, if◌then◌else◌, trim,
}
use kingshard.Outcome.{Error}
use kingshard.Outcome.Error.{bad_conn, invalid_charset, invalid_collation}
use kingshard.Backend.Conn.{
  Server, Charsets, Conn, Command, connect, ping, query, Answer, accepted, refused, broken, Reply,
  answered, stamped, request, exec, rollback, set_names, set_charset, named, next, send_ping,
  reconnect, connect_to, is_in_transaction, is_auto_commit, default_charset, default_collation_id,
}
use kingshard.Backend.Pool.{
  Db, Pop, Popped, waits, fails, gets, alive, check_alive, connected, new_conn, pinged_new,
  take_idle, take_cached, get_conn_from_idle, contents, try_reuse, reused, then_reused, after_cache,
  get_conn_from_cache, pop_conn, max_conns,
}
use kingshard.Backend.Pool.Balance.{IsPool, cache_is, no_idle}
use kingshard.Backend.Pool.Runs.{Run, Run-IsPool, pop_conn-waits}

-- The server accepts whatever is asked, and the default character set is in the tables.
pub record Serves (server : Server) (charsets : Charsets) : Type 0 where
  pub accepts :
      (t : ℕ) (command : Command) (s : ℕ) → (s' : ℕ) × (server.answer t command s ≡ accepted s')
  pub has_default : charsets.has_charset default_charset ≡ true
  pub has_collation : (name : Bytes) × (charsets.collation_name default_collation_id ≡ some name)

abbrev IsFine : Reply → Type 0
IsFine (none, co, t) = Unit {0}
IsFine (some e, co, t) = ⊥

next-IsFine :
    (r : Reply) (f : Conn → ℕ → Reply)
    → IsFine r
    → ((co : Conn) (t : ℕ) → IsFine (f co t))
    → IsFine (next r f)
next-IsFine (none, co, t) f p h = h co t
next-IsFine (some e, co, t) f p h = absurd p

-- No error: a connection, or a wait.
abbrev pub IsServed : Pop → Type 0
IsServed (gets co, d, t) = Unit {0}
IsServed (waits, d, t) = Unit {0}
IsServed (fails e, d, t) = ⊥

alive-IsServed : (d : Db) (e : Error) (r : Reply) → IsFine r → IsServed (alive d e r)
unfolding alive
alive-IsServed d e (none, co, t) p = tt
alive-IsServed d e (some why, co, t) p = absurd p

module _ (server : Server) (charsets : Charsets) (serves : Serves server charsets) where
  request-IsFine : (command : Command) (co : Conn) (t : ℕ) → IsFine (request server command co t)
  unfolding request
  request-IsFine command co t = told _ refl (serves.accepts t command co.status)
    where
      told :
          (a : Answer)
          → server.answer t command co.status ≡ a
          → ((s' : ℕ) × (server.answer t command co.status ≡ accepted s'))
          → IsFine (answered server a co (suc t))
      told (accepted s) e h = tt
      told (refused why) e (s, q) = cc (sym e ∙ q)
      told (broken why) e (s, q) = cc (sym e ∙ q)

  exec-IsFine : (sql : Bytes) (co : Conn) (t : ℕ) → IsFine (exec server sql co t)
  unfolding exec
  exec-IsFine sql co t = request-IsFine (query sql) co t

  ping-IsFine : (co : Conn) (t : ℕ) → IsFine (send_ping server co t)
  unfolding send_ping
  ping-IsFine co t = timed _ (request-IsFine ping co t)
    where
      timed : (r : Reply) → IsFine r → IsFine (stamped server r)
      timed (none, c, t') p = p
      timed (some e, c, t') p = p

  check_alive-IsFine : (co : Conn) (t : ℕ) → IsFine (check_alive server co t)
  unfolding check_alive
  check_alive-IsFine co t =
      if_either IsFine (ltb_ℤ (pos 4) (server.now t -ℤ co.push_timestamp))
        (send_ping server co (suc t)) (none, co, suc t) (λ stale. ping-IsFine co (suc t))
        (λ recent. tt)

  new_conn-IsFine : (name : Bytes) (t : ℕ) → IsFine (new_conn server name t)
  unfolding new_conn connect_to reconnect
  new_conn-IsFine name t = timed _ (
      next-IsFine _ _ (request-IsFine connect _ t)
        (λ c t'. exec-IsFine (codes "set autocommit = 1") c t'))
    where
      timed : (r : Reply) → IsFine r → IsFine (connected server r)
      timed (none, c, t') p = p
      timed (some e, c, t') p = p

  charset-IsFine :
      (co : Conn) (t : ℕ)
      → IsFine (set_charset server charsets default_charset default_collation_id co t)
  unfolding set_charset set_names trim
  charset-IsFine co t =
      if_either IsFine
        (eqb_bytes co.charset default_charset && co.collation == default_collation_id) (none, co, t)
        (if not (charsets.has_charset default_charset)
          then (some invalid_charset, co, t)
          else with_name (charsets.collation_name default_collation_id))
        (λ same. tt) (λ other. rw (serves.has_default) (by_name _ serves.has_collation))
    where
      with_name : Option Bytes → Reply
      with_name o = elim o [
        | none ↦ (some invalid_collation, co, t)
        | some name ↦
            named server charsets default_collation_id default_charset (
              exec server (codes "SET NAMES " ++ default_charset ++ codes " COLLATE " ++ name) co t)
      ]

      named-IsFine :
          (r : Reply)
          → IsFine r
          → IsFine (named server charsets default_collation_id default_charset r)
      named-IsFine (none, c, t') p = p
      named-IsFine (some e, c, t') p = p

      by_name : (o : Option Bytes) → ((name : Bytes) × (o ≡ some name)) → IsFine (with_name o)
      by_name none (name, e) = cc e
      by_name (some name) h = named-IsFine _ (exec-IsFine _ co t)

  reuse-IsFine : (co : Conn) (t : ℕ) → IsFine (try_reuse server charsets co t)
  unfolding try_reuse rollback
  reuse-IsFine co t =
      next-IsFine _ _
        (next-IsFine _ _
          (if_either IsFine (is_in_transaction co) _ (none, co, t)
            (λ within. exec-IsFine (codes "rollback") co t) (λ outside. tt))
          (λ c t'.
            if_either IsFine (not (is_auto_commit c)) _ (none, c, t')
              (λ off. exec-IsFine (codes "set autocommit = 1") c t') (λ on. tt)))
        (λ c t'.
          if_either IsFine (not (eqb_bytes c.charset default_charset)) _ (none, c, t')
            (λ other. charset-IsFine c t') (λ same. tt))

  take_idle-IsServed : (rest : List Conn) (d : Db) (t : ℕ) → IsServed (take_idle server rest d t)
  unfolding take_idle pinged_new
  take_idle-IsServed rest d t = pinged _ (new_conn server d.db t) (new_conn-IsFine d.db t)
    where
      pinged : (d' : Db) (r : Reply) → IsFine r → IsServed (pinged_new server d' r)
      pinged d' (none, co, t') p = alive-IsServed d' bad_conn _ (ping-IsFine co t')
      pinged d' (some e, co, t') p = absurd p

  take_cached-IsServed :
      (co : Conn) (rest : List Conn) (d : Db) (t : ℕ) → IsServed (take_cached server co rest d t)
  unfolding take_cached
  take_cached-IsServed co rest d t = alive-IsServed _ bad_conn _ (check_alive-IsFine co t)

  idle-IsServed :
      (choice : Bool) (cache idle : List Conn) (d : Db) (t : ℕ)
      → IsServed (get_conn_from_idle server choice cache idle d t)
  unfolding get_conn_from_idle
  idle-IsServed choice [] [] d t = tt
  idle-IsServed choice [] (i ∷ idle) d t = take_idle-IsServed idle d t
  idle-IsServed choice (c ∷ cache) [] d t = take_cached-IsServed c cache d t
  idle-IsServed true (c ∷ cache) (i ∷ idle) d t = take_idle-IsServed idle d t
  idle-IsServed false (c ∷ cache) (i ∷ idle) d t = take_cached-IsServed c cache d t

  cache-IsServed : (choice : Bool) (r : Popped) → IsServed (after_cache server choice r)
  unfolding after_cache
  cache-IsServed choice (some co, d, t) = tt
  cache-IsServed choice (none, d, t) =
      idle-IsServed choice (contents d.cache_conns) (contents d.idle_conns) d t

  reused-IsServed : (r : Pop) → IsServed r → IsServed (then_reused server charsets r)
  unfolding then_reused reused
  reused-IsServed (gets co, d, t) p = given _ (reuse-IsFine co t)
    where
      given : (r : Reply) → IsFine r → IsServed (reused d r)
      given (none, c, t') q = tt
      given (some e, c, t') q = absurd q
  reused-IsServed (waits, d, t) p = tt
  reused-IsServed (fails e, d, t) p = absurd p

  pop_conn-IsServed :
      (max out : ℕ) (choice : Bool) (d : Db) (t : ℕ)
      → IsPool max out d
      → IsServed (pop_conn server charsets choice d t)
  unfolding pop_conn
  pop_conn-IsServed max out choice d t p = elim (Option-cases d.cache_conns) [
    | inl n ↦ absurd (cache_is max out d none n p)
    | inr (cache, c) ↦ elim (Option-cases d.idle_conns) [
      | inl n ↦ absurd (no_idle max out d n p)
      | inr (idle, i) ↦
          rw (c, i, pop_conn)
            (reused-IsServed _ (cache-IsServed choice (get_conn_from_cache server cache d t)))
    ]
  ]

  -- While not all of its connections are out, a call of PopConn on an open pool comes back with a
  -- connection, if the server accepts what it is asked and the tables of character sets have the
  -- default one.
  pub pop_conn-gets :
      (n : ℤ) (d : Db) (out : ℕ) (choice : Bool) (t : ℕ)
      → Run server charsets n d out
      → out < max_conns n
      → (co : Conn) × (d' : Db) × (t' : ℕ) × (pop_conn server charsets choice d t
          ≡ (gets co, d', t'))
  pop_conn-gets n d out choice t r left =
      got _ refl
        (pop_conn-IsServed (max_conns n) out choice d t (Run-IsPool server charsets n d out r))
        (λ e. omega (arith, (pop_conn-waits server charsets n d out choice t r).0 e))
    where
      got :
          (r : Pop)
          → pop_conn server charsets choice d t ≡ r
          → IsServed r
          → ((pop_conn server charsets choice d t).0 ≢ waits)
          → (co : Conn) × (d' : Db) × (t' : ℕ) × (pop_conn server charsets choice d t
              ≡ (gets co, d', t'))
      got (gets co, d', t') e p w = (co, d', t', e)
      got (waits, d', t') e p w = absurd (w (ap (λ (x : Pop). x.0) e))
      got (fails why, d', t') e p w = absurd p
