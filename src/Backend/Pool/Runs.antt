-- ===== src/Backend/Pool/Runs.antt =====
-- What happens to a pool from Open on.
use kingshard.Prelude.{
  ℕ, zero, suc, ◌+◌, ℤ, Bytes, List, [], ◌∷◌, ◌++◌, ◌≡◌, ◌↔◌, refl, subst, arith, length,
  length-append, Option, none, some, Bool, true, false, ltb,
}
use kingshard.Outcome.{Result, Error, ok}
use kingshard.Backend.Conn.{Server, Charsets, Conn, Reply, blank}
use kingshard.Backend.Pool.{
  Db, Pop, waits, fails, gets, new_conn, opened, open_conns, open_db, new_db, filled, max_conns,
  pop_conn, get_conn_from_cache, get_conn_from_idle, after_cache, then_reused, contents, push_conn,
  give_back,
}
use kingshard.Backend.Pool.Balance.{
  IsPool, Sizes, Leaves, pop_conn-Leaves, push_conn-IsPool, give_back-IsPool,
}

same_db : {a b : Db} → ok a ≡ ok b → a ≡ b
same_db q = cc

module _ (server : Server) where
  opened-IsPool :
      (max : ℕ) (others : Conn → ℕ → Result Db) (r : Reply) (d' : Db)
      → ((co : Conn) (t : ℕ) → others co t ≡ ok d' → IsPool max 0 d')
      → opened server others r ≡ ok d'
      → IsPool max 0 d'
  opened-IsPool max others (none, co, t) d' h e = h co t e
  opened-IsPool max others (some why, co, t) d' h e = cc e

  open_conns-IsPool :
      (n i : ℕ) (cache idle : List Conn) (d d' : Db) (t : ℕ)
      → d.pop_conn_count ≡ 0
      → d.push_conn_count ≡ length idle + length cache
      → length idle + length cache + n ≡ d.max_conn_num
      → open_conns server n i cache idle d t ≡ ok d'
      → IsPool d.max_conn_num 0 d'
  unfolding open_conns
  open_conns-IsPool zero i cache idle d d' t popped pushed room e =
      subst (λ (z : Db). IsPool d.max_conn_num 0 z) (same_db e) (refl, omega arith, omega arith)
  open_conns-IsPool (suc n) i cache idle d d' t popped pushed room e =
      elim (ltb i d.init_conn_num)
          as (λ b.
            elim b [
              | true ↦
                  opened server
                    (λ co t'. open_conns server n (suc i) (cache ++ (co ∷ [])) idle counted t')
                    (new_conn server d.db t)
              | false ↦ open_conns server n (suc i) cache (idle ++ (blank ∷ [])) counted t
            ]
              ≡ ok d'
            → IsPool d.max_conn_num 0 d') [
              | true ↦ λ e'.
                  opened-IsPool d.max_conn_num _ (new_conn server d.db t) d'
                    (λ co t' e''.
                      open_conns-IsPool n (suc i) (cache ++ (co ∷ [])) idle counted d' t' popped
                        (omega (arith, length-append cache (co ∷ [])))
                        (omega (arith, length-append cache (co ∷ []))) e'')
                    e'
              | false ↦ λ e'.
                  open_conns-IsPool n (suc i) cache (idle ++ (blank ∷ [])) counted d' t popped
                    (omega (arith, length-append idle (blank ∷ [])))
                    (omega (arith, length-append idle (blank ∷ []))) e'
            ]
        e
    where
      counted : Db
      counted = record d { push_conn_count = suc d.push_conn_count }

  open_db-IsPool :
      (addr name : Bytes) (n : ℤ) (t : ℕ) (d : Db)
      → open_db server addr name n t ≡ ok d
      → IsPool (max_conns n) 0 d
  unfolding open_db filled
  open_db-IsPool addr name n t d e = from (new_conn server name t) e
    where
      from : (r : Reply) → filled server addr name n r ≡ ok d → IsPool (max_conns n) 0 d
      from (none, co, t') e =
          open_conns-IsPool (max_conns n) 0 [] [] (new_db addr name n co) d t' refl refl
            (omega arith) e
      from (some why, co, t') e = cc e

-- The pools that come about from `Open`, and how many of their connections are out: a call of
-- PopConn returns a connection or an error, or a connection that is out comes back, by PushConn or
-- by BackendConn.Close.
pub data Run (server : Server) (charsets : Charsets) (n : ℤ) : Db → ℕ → Type 0 where
  opens :
      (addr name : Bytes) (t : ℕ) (d : Db)
      → open_db server addr name n t ≡ ok d
      → Run server charsets n d 0
  pops :
      (d d' : Db) (out : ℕ) (choice : Bool) (t t' : ℕ) (co : Conn)
      → Run server charsets n d out
      → pop_conn server charsets choice d t ≡ (gets co, d', t')
      → Run server charsets n d' (suc out)
  pop_fails :
      (d d' : Db) (out : ℕ) (choice : Bool) (t t' : ℕ) (e : Error)
      → Run server charsets n d out
      → pop_conn server charsets choice d t ≡ (fails e, d', t')
      → Run server charsets n d' out
  pushes :
      (d : Db) (out : ℕ) (now : ℤ) (co : Option Conn) (why : Option Error)
      → Run server charsets n d (suc out)
      → Run server charsets n (push_conn now d co why) out
  gives_back :
      (d : Db) (out : ℕ) (now : ℤ) (co : Conn)
      → Run server charsets n d (suc out)
      → Run server charsets n (give_back now d co) out

all_out : (max out : ℕ) (r : Pop) → Leaves max out r → r.0 ≡ waits → out ≡ max
all_out max out (waits, d, t) (p, full) e = full
all_out max out (gets co, d, t) p e = cc e
all_out max out (fails why, d, t) p e = cc e

drained :
    (max out room pushed popped : ℕ) (cache idle : Option (List Conn))
    → Sizes max out room pushed popped cache idle
    → out ≡ max
    → (cache ≡ some []) × (idle ≡ some [])
drained max out room pushed popped (some []) (some []) s e = (refl, refl)
drained max out room pushed popped (some (c ∷ cache)) (some idle) s e =
    let no : ⊥ = omega (arith, s.1) in absurd no
drained max out room pushed popped (some []) (some (i ∷ idle)) s e =
    let no : ⊥ = omega (arith, s.1) in absurd no
drained max out room pushed popped none idle s e = absurd s
drained max out room pushed popped (some cache) none s e = absurd s

nothing_left :
    (server : Server) (charsets : Charsets) (choice : Bool) (d : Db) (t : ℕ)
    → d.cache_conns ≡ some []
    → d.idle_conns ≡ some []
    → (pop_conn server charsets choice d t).0 ≡ waits
unfolding pop_conn get_conn_from_cache after_cache then_reused get_conn_from_idle
nothing_left server charsets choice d t c i =
    rw (c, i, pop_conn) (idle_empty d.cache_conns d.idle_conns c i)
  where
    idle_empty :
        (cache idle : Option (List Conn))
        → cache ≡ some []
        → idle ≡ some []
        → (then_reused server charsets
            (get_conn_from_idle server choice (contents cache) (contents idle) d t)).0
          ≡ waits
    idle_empty cache idle c i = rw (c, i) refl

module _ (server : Server) (charsets : Charsets) (n : ℤ) where
  -- However the calls of an open pool follow each other, its connections are accounted for: those in
  -- its two channels and those that are out are as many as the pool was opened with, so that no
  -- channel holds more than its capacity, no connection is lost, and no more are out than the pool
  -- has; and the counters of pushes and pops differ by what the channels hold.
  pub Run-IsPool : (d : Db) (out : ℕ) → Run server charsets n d out → IsPool (max_conns n) out d
  Run-IsPool _ _ (opens addr name t d e) = open_db-IsPool server addr name n t d e
  Run-IsPool _ _ (pops d d' out choice t t' co r e) =
      subst (Leaves (max_conns n) out) e
        (pop_conn-Leaves server charsets (max_conns n) out choice d t (Run-IsPool d out r))
  Run-IsPool _ _ (pop_fails d d' out choice t t' why r e) =
      subst (Leaves (max_conns n) out) e
        (pop_conn-Leaves server charsets (max_conns n) out choice d t (Run-IsPool d out r))
  Run-IsPool _ _ (pushes d out now co why r) =
      push_conn-IsPool (max_conns n) out now d co why (Run-IsPool d (suc out) r)
  Run-IsPool _ _ (gives_back d out now co r) =
      give_back-IsPool (max_conns n) out now d co (Run-IsPool d (suc out) r)

  -- A call of PopConn on an open pool waits exactly while all the connections are out.
  pub pop_conn-waits :
      (d : Db) (out : ℕ) (choice : Bool) (t : ℕ)
      → Run server charsets n d out
      → ((pop_conn server charsets choice d t).0 ≡ waits) ↔ (out ≡ max_conns n)
  pop_conn-waits d out choice t r = (
    all_out (max_conns n) out (pop_conn server charsets choice d t)
        (pop_conn-Leaves server charsets (max_conns n) out choice d t (Run-IsPool d out r)),
    λ e.
        let (c, i) =
          drained (max_conns n) out _ _ _ d.cache_conns d.idle_conns (Run-IsPool d out r) e in
        nothing_left server charsets choice d t c i,
  )
