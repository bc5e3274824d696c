-- ===== src/Backend/Pool/Balance.antt =====
-- The pool keeps its number of connections: those in its two channels and those that are out.
use kingshard.Prelude.{
  ℕ, ℤ, suc, ◌+◌, ◌<◌, List, [], ◌∷◌, ◌++◌, ◌≡◌, refl, subst, inl, inr, arith, length,
  length-append, Option, none, some, Bool, true, false, Option-cases, lt→ltb, if◌then◌else◌,
}
use kingshard.Outcome.{Error}
use kingshard.Outcome.Error.{bad_conn}
use kingshard.Backend.Conn.{Server, Charsets, Conn, Reply, close, blank}
use kingshard.Backend.Pool.{
  Db, offer, offer_to, close_conn, close_conn_not_add, add_idle_conn, cached, Popped, Pop, waits,
  fails, gets, alive, check_alive, get_conn_from_cache, new_conn, pinged_new, take_idle,
  take_cached, get_conn_from_idle, contents, reused, then_reused, after_cache, pop_conn, push_conn,
  give_back, keep_conn,
}

-- The sizes of an open pool of `max` connections, `out` of which are out.
abbrev pub Sizes : ℕ → ℕ → ℕ → ℕ → ℕ → Option (List Conn) → Option (List Conn) → Type 0
Sizes max out room pushed popped (some cache) (some idle) =
    (room ≡ max)
    × (length idle + length cache + out ≡ max)
    × (pushed ≡ popped + length idle + length cache)
Sizes max out room pushed popped _ _ = ⊥

-- An open pool of `max` connections, `out` of which are out.
abbrev pub IsPool : ℕ → ℕ → Db → Type 0
IsPool max out d =
    Sizes max out d.max_conn_num d.push_conn_count d.pop_conn_count d.cache_conns d.idle_conns

length-offer :
    (room : ℕ) (c : Conn) (held : List Conn)
    → length held < room
    → length (offer room c held) ≡ suc (length held)
unfolding offer
length-offer room c held h = ground (arith, length-append held (c ∷ []))

offered-Sizes :
    (max out room pushed popped : ℕ) (c : Conn) (cache idle : Option (List Conn))
    → Sizes max (suc out) room pushed popped cache idle
    → Sizes max out room (suc pushed) popped cache (offer_to room c idle)
unfolding offer_to
offered-Sizes max out room pushed popped c (some cache) (some idle) (r, w, p) = (
  r,
  omega (arith, length-offer room c idle (omega arith)),
  omega (arith, length-offer room c idle (omega arith)),
)
offered-Sizes max out room pushed popped c (some cache) none s = absurd s
offered-Sizes max out room pushed popped c none idle s = absurd s

pub close_conn-IsPool :
    (max out : ℕ) (d : Db) (co : Option Conn)
    → IsPool max (suc out) d
    → IsPool max out (close_conn d co)
unfolding close_conn close_conn_not_add add_idle_conn
close_conn-IsPool max out d (some co) p = offered-Sizes max out _ _ _ _ _ _ p
close_conn-IsPool max out d none p = offered-Sizes max out _ _ _ _ _ _ p

-- What a pop leaves: the connection that is got is out, and nothing else changes.
abbrev pub Leaves : ℕ → ℕ → Pop → Type 0
Leaves max out (gets co, d, t) = IsPool max (suc out) d
Leaves max out (fails e, d, t) = IsPool max out d
Leaves max out (waits, d, t) = IsPool max out d × (out ≡ max)

abbrev LeavesCache : ℕ → ℕ → Popped → Type 0
LeavesCache max out (some co, d, t) = IsPool max (suc out) d
LeavesCache max out (none, d, t) = IsPool max out d × (d.cache_conns ≡ some [])

alive-Leaves :
    (max out : ℕ) (d : Db) (e : Error) (r : Reply)
    → IsPool max (suc out) d
    → Leaves max out (alive d e r)
unfolding alive
alive-Leaves max out d e (none, co, t) p = p
alive-Leaves max out d e (some why, co, t) p = close_conn-IsPool max out d (some co) p

reused-Leaves :
    (max out : ℕ) (d : Db) (r : Reply) → IsPool max (suc out) d → Leaves max out (reused d r)
unfolding reused
reused-Leaves max out d (none, co, t) p = p
reused-Leaves max out d (some why, co, t) p = close_conn-IsPool max out d (some co) p

pub cache_is :
    (max out : ℕ) (d : Db) (z : Option (List Conn))
    → d.cache_conns ≡ z
    → IsPool max out d
    → Sizes max out d.max_conn_num d.push_conn_count d.pop_conn_count z d.idle_conns
cache_is max out d z e p =
    subst
      (λ (y : Option (List Conn)).
        Sizes max out d.max_conn_num d.push_conn_count d.pop_conn_count y d.idle_conns)
      e p

idle_is :
    (max out : ℕ) (d : Db) (z : Option (List Conn))
    → d.idle_conns ≡ z
    → IsPool max out d
    → Sizes max out d.max_conn_num d.push_conn_count d.pop_conn_count d.cache_conns z
idle_is max out d z e p =
    subst
      (λ (y : Option (List Conn)).
        Sizes max out d.max_conn_num d.push_conn_count d.pop_conn_count d.cache_conns y)
      e p

took_cached :
    (max out room pushed popped : ℕ) (c : Conn) (rest : List Conn) (idle : Option (List Conn))
    → Sizes max out room pushed popped (some (c ∷ rest)) idle
    → Sizes max (suc out) room pushed (suc popped) (some rest) idle
took_cached max out room pushed popped c rest (some idle) (r, w, p) = (r, omega arith, omega arith)
took_cached max out room pushed popped c rest none s = absurd s

took_idle :
    (max out room pushed popped : ℕ) (c : Conn) (rest : List Conn) (cache : Option (List Conn))
    → Sizes max out room pushed popped cache (some (c ∷ rest))
    → Sizes max (suc out) room pushed (suc popped) cache (some rest)
took_idle max out room pushed popped c rest (some cache) (r, w, p) = (r, omega arith, omega arith)
took_idle max out room pushed popped c rest none s = absurd s

module _ (server : Server) where
  cached-Leaves :
      (max out : ℕ) (others : Db → ℕ → Popped) (d : Db) (r : Reply) (rest : List Conn)
      → ((d' : Db) (t : ℕ)
          → d'.cache_conns ≡ some rest
          → IsPool max out d'
          → LeavesCache max out (others d' t))
      → d.cache_conns ≡ some rest
      → IsPool max (suc out) d
      → LeavesCache max out (cached server others d r)
  unfolding cached close_conn close_conn_not_add
  cached-Leaves max out others d (none, co, t) rest h e p = p
  cached-Leaves max out others d (some why, co, t) rest h e p =
      h (close_conn d (some co)) t e (close_conn-IsPool max out d (some co) p)

  cache-Leaves :
      (max out : ℕ) (cache : List Conn) (d : Db) (t : ℕ)
      → d.cache_conns ≡ some cache
      → IsPool max out d
      → LeavesCache max out (get_conn_from_cache server cache d t)
  unfolding get_conn_from_cache
  cache-Leaves max out [] d t e p = (p, e)
  cache-Leaves max out (co ∷ rest) d t e p =
      cached-Leaves max out (get_conn_from_cache server rest) _ (check_alive server co t) rest
        (cache-Leaves max out rest) refl
        (took_cached max out _ _ _ co rest d.idle_conns (cache_is max out d _ e p))

  new_conn-Leaves :
      (max out : ℕ) (d : Db) (r : Reply)
      → IsPool max (suc out) d
      → Leaves max out (pinged_new server d r)
  unfolding pinged_new
  new_conn-Leaves max out d (none, co, t) p = alive-Leaves max out d bad_conn _ p
  new_conn-Leaves max out d (some e, co, t) p = close_conn-IsPool max out d none p

  take_idle-Leaves :
      (max out : ℕ) (d : Db) (t : ℕ) (i : Conn) (idle : List Conn)
      → d.idle_conns ≡ some (i ∷ idle)
      → IsPool max out d
      → Leaves max out (take_idle server idle d t)
  unfolding take_idle
  take_idle-Leaves max out d t i idle e p =
      new_conn-Leaves max out _ (new_conn server d.db t)
        (took_idle max out _ _ _ i idle d.cache_conns (idle_is max out d _ e p))

  take_cached-Leaves :
      (max out : ℕ) (d : Db) (t : ℕ) (c : Conn) (cache : List Conn)
      → d.cache_conns ≡ some (c ∷ cache)
      → IsPool max out d
      → Leaves max out (take_cached server c cache d t)
  unfolding take_cached
  take_cached-Leaves max out d t c cache e p =
      alive-Leaves max out _ bad_conn (check_alive server c t)
        (took_cached max out _ _ _ c cache d.idle_conns (cache_is max out d _ e p))

  -- A select on two channels that hold these connections.
  idle-Leaves :
      (max out : ℕ) (choice : Bool) (d : Db) (t : ℕ) (cache idle : Option (List Conn))
      → d.cache_conns ≡ cache
      → d.idle_conns ≡ idle
      → IsPool max out d
      → Sizes max out d.max_conn_num d.push_conn_count d.pop_conn_count cache idle
      → Leaves max out (get_conn_from_idle server choice (contents cache) (contents idle) d t)
  unfolding get_conn_from_idle
  idle-Leaves max out choice d t (some []) (some []) ec ei p s = (p, omega (arith, s.1))
  idle-Leaves max out choice d t (some []) (some (i ∷ idle)) ec ei p s =
      take_idle-Leaves max out d t i idle ei p
  idle-Leaves max out choice d t (some (c ∷ cache)) (some []) ec ei p s =
      take_cached-Leaves max out d t c cache ec p
  idle-Leaves max out true d t (some (c ∷ cache)) (some (i ∷ idle)) ec ei p s =
      take_idle-Leaves max out d t i idle ei p
  idle-Leaves max out false d t (some (c ∷ cache)) (some (i ∷ idle)) ec ei p s =
      take_cached-Leaves max out d t c cache ec p
  idle-Leaves max out choice d t (some cache) none ec ei p s = absurd s
  idle-Leaves max out choice d t none idle ec ei p s = absurd s

  after-Leaves :
      (max out : ℕ) (choice : Bool) (r : Popped)
      → LeavesCache max out r
      → Leaves max out (after_cache server choice r)
  unfolding after_cache
  after-Leaves max out choice (some co, d, t) p = p
  after-Leaves max out choice (none, d, t) (p, e) =
      idle-Leaves max out choice d t d.cache_conns d.idle_conns refl refl p p

pub no_idle : (max out : ℕ) (d : Db) → d.idle_conns ≡ none → IsPool max out d → ⊥
no_idle max out d n p = neither d.cache_conns (idle_is max out d none n p)
  where
    neither :
        (c : Option (List Conn))
        → Sizes max out d.max_conn_num d.push_conn_count d.pop_conn_count c none
        → ⊥
    neither none s = s
    neither (some cache) s = s

module _ (server : Server) (charsets : Charsets) where
  then-Leaves :
      (max out : ℕ) (r : Pop) → Leaves max out r → Leaves max out (then_reused server charsets r)
  unfolding then_reused
  then-Leaves max out (gets co, d, t) p = reused-Leaves max out d _ p
  then-Leaves max out (fails e, d, t) p = p
  then-Leaves max out (waits, d, t) p = p

  pub pop_conn-Leaves :
      (max out : ℕ) (choice : Bool) (d : Db) (t : ℕ)
      → IsPool max out d
      → Leaves max out (pop_conn server charsets choice d t)
  unfolding pop_conn
  pop_conn-Leaves max out choice d t p = elim (Option-cases d.cache_conns) [
    | inl n ↦ absurd (cache_is max out d none n p)
    | inr (cache, c) ↦ elim (Option-cases d.idle_conns) [
      | inl n ↦ absurd (no_idle max out d n p)
      | inr (idle, i) ↦
          rw (c, i, pop_conn)
            (then-Leaves max out (after_cache server choice (get_conn_from_cache server cache d t))
              (after-Leaves server max out choice (get_conn_from_cache server cache d t)
                (cache-Leaves server max out cache d t c p)))
    ]
  ]

-- A connection that comes back to a channel that has room, or is closed.
kept-Sizes :
    (max out room pushed popped : ℕ) (co : Conn) (held : List Conn) (idle : Option (List Conn))
    → Sizes max (suc out) room pushed popped (some held) idle
    → (length held < room) × Sizes max out room (suc pushed) popped (some (held ++ (co ∷ []))) idle
kept-Sizes max out room pushed popped co held (some idle) (r, w, p) = (
  omega arith,
  (r, omega (arith, length-append held (co ∷ [])), omega (arith, length-append held (co ∷ []))),
)
kept-Sizes max out room pushed popped co held none s = absurd s

pushed-IsPool :
    (max out : ℕ) (now : ℤ) (d : Db) (co : Conn) (why : Option Error) (cache : Option (List Conn))
    → d.cache_conns ≡ cache
    → IsPool max (suc out) d
    → IsPool max out (push_conn now d (some co) why)
unfolding push_conn close_conn_not_add
pushed-IsPool max out now d co why none e p = absurd (cache_is max (suc out) d none e p)
pushed-IsPool max out now d co (some why) (some held) e p =
    rw (e, push_conn) (offered-Sizes max out _ _ _ (close co) d.cache_conns d.idle_conns p)
pushed-IsPool max out now d co none (some held) e p =
    let (room, s) =
      kept-Sizes max out _ _ _ (record co { push_timestamp = now }) held d.idle_conns
        (cache_is max (suc out) d (some held) e p) in
    rw (e, push_conn) (rw (lt→ltb (length held) d.max_conn_num room, keep_conn) s)

pub push_conn-IsPool :
    (max out : ℕ) (now : ℤ) (d : Db) (co : Option Conn) (why : Option Error)
    → IsPool max (suc out) d
    → IsPool max out (push_conn now d co why)
unfolding push_conn add_idle_conn
push_conn-IsPool max out now d none why p = offered-Sizes max out _ _ _ blank _ _ p
push_conn-IsPool max out now d (some co) why p =
    pushed-IsPool max out now d co why d.cache_conns refl p

pub give_back-IsPool :
    (max out : ℕ) (now : ℤ) (d : Db) (co : Conn)
    → IsPool max (suc out) d
    → IsPool max out (give_back now d co)
unfolding give_back
give_back-IsPool max out now d co p =
    either co.pkg_err _ _ (close_conn-IsPool max out d (some co) p)
      (push_conn-IsPool max out now d (some co) none p)
  where
    either :
        (b : Bool) (x y : Db)
        → IsPool max out x
        → IsPool max out y
        → IsPool max out (if b then x else y)
    either true x y px py = px
    either false x y px py = py
