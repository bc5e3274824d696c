-- ===== src/Backend/Pool/Reuse.antt =====
-- The session of a connection that the pool hands out.
use kingshard.Prelude.{
  ℕ, suc, ◌/◌, ◌%◌, ◌==◌, Bytes, codes, eqb_bytes, eqb_bytes→eq, ◌++◌, ◌≡◌, refl, subst, ◌∙◌, inl,
  inr, arith, Option, Option-cases, none, some, Bool, true, false, not, ◌&&◌, if_either,
  if◌then◌else◌, trim,
}
use kingshard.Outcome.Error.{invalid_charset, invalid_collation}
use kingshard.Backend.Conn.{
  Server, Charsets, Conn, Command, query, Answer, accepted, refused, broken, Reply, answered,
  request, exec, rollback, set_names, set_charset, named, next, is_in_transaction, is_auto_commit,
  default_charset, default_collation_id,
}
use kingshard.Backend.Pool.{
  Db, Pop, waits, fails, gets, try_reuse, reused, then_reused, after_cache, get_conn_from_cache,
  pop_conn,
}

-- A call that returns no error leaves such a connection.
abbrev pub Leads : (Conn → Type 0) → Reply → Type 0
Leads P (none, co, t) = P co
Leads P (some e, co, t) = Unit {0}

pub next-Leads :
    (P Q : Conn → Type 0) (r : Reply) (f : Conn → ℕ → Reply)
    → Leads P r
    → ((co : Conn) (t : ℕ) → P co → Leads Q (f co t))
    → Leads Q (next r f)
next-Leads P Q (none, co, t) f p h = h co t p
next-Leads P Q (some e, co, t) f p h = tt

-- The status after the request is the one that was answered.
request-Leads :
    (server : Server) (P : Conn → Type 0) (command : Command) (co : Conn) (t : ℕ)
    → ((s : ℕ)
        → server.answer t command co.status ≡ accepted s
        → P (record co { status = s; pkg_err = false }))
    → Leads P (request server command co t)
unfolding request
request-Leads server P command co t h = told (server.answer t command co.status) refl
  where
    told :
        (a : Answer)
        → server.answer t command co.status ≡ a
        → Leads P (answered server a co (suc t))
    told (accepted s) e = h s e
    told (refused why) e = tt
    told (broken why) e = tt

-- What the documentation of MySQL says of the status in an OK packet. A ROLLBACK ends the
-- transaction and leaves autocommit as it is; with autocommit set a session outside a transaction
-- stays outside; SET NAMES leaves both flags.
pub record KeepsFlags (server : Server) : Type 0 where
  pub rolled_back :
      (t s s' : ℕ) → server.answer t (query (codes "rollback")) s ≡ accepted s' → s' % 2 ≡ 0
  pub set_on :
      (t s s' : ℕ)
      → server.answer t (query (codes "set autocommit = 1")) s ≡ accepted s'
      → ((s' / 2) % 2 ≡ 1) × (s % 2 ≡ 0 → s' % 2 ≡ 0)
  pub names_set :
      (t s s' : ℕ) (names : Bytes)
      → server.answer t (query (codes "SET NAMES " ++ names)) s ≡ accepted s'
      → (s' % 2 ≡ s % 2) × ((s' / 2) % 2 ≡ (s / 2) % 2)

-- A session with nothing left over from its last user.
pub record IsFresh (co : Conn) : Type 0 where
  pub no_transaction : is_in_transaction co ≡ false
  pub autocommits : is_auto_commit co ≡ true
  pub names : co.charset ≡ default_charset

abbrev Outside : Conn → Type 0
Outside co = co.status % 2 ≡ 0

abbrev Ready : Conn → Type 0
Ready co = (co.status % 2 ≡ 0) × ((co.status / 2) % 2 ≡ 1)

not_one : (n : ℕ) → (n % 2 == 1) ≡ false → n % 2 ≡ 0
not_one n h = ground arith

is_one : (n : ℕ) → (not (n % 2 == 1)) ≡ false → n % 2 ≡ 1
is_one n h = ground arith

both_true : (a b : Bool) → (a && b) ≡ true → a ≡ true
both_true a b h = ground arith

is_true : (b : Bool) → not b ≡ false → b ≡ true
is_true b h = ground arith

module _ (server : Server) (charsets : Charsets) (keeps : KeepsFlags server) where
  fresh : (co : Conn) → Ready co → co.charset ≡ default_charset → IsFresh co
  unfolding is_in_transaction is_auto_commit
  fresh co (s, a) names = record {
    no_transaction = ground (arith, s);
    autocommits = ground (arith, a);
    names = names;
  }

  out_of_transaction :
      (co : Conn) (t : ℕ)
      → Leads Outside (if is_in_transaction co then rollback server co t else (none, co, t))
  unfolding is_in_transaction rollback exec
  out_of_transaction co t =
      if_either (Leads Outside) _ _ _
        (λ within.
          request-Leads server Outside (query (codes "rollback")) co t
            (λ s e. keeps.rolled_back t co.status s e))
        (λ outside. not_one co.status outside)

  auto_committing :
      (co : Conn) (t : ℕ)
      → Outside co
      → Leads Ready (
          if not (is_auto_commit co)
          then exec server (codes "set autocommit = 1") co t
          else (none, co, t))
  unfolding is_auto_commit exec
  auto_committing co t s =
      if_either (Leads Ready) (not (is_auto_commit co))
        (exec server (codes "set autocommit = 1") co t) (none, co, t)
        (λ off.
          request-Leads server Ready (query (codes "set autocommit = 1")) co t
            (λ s' e. let (on, outside) = keeps.set_on t co.status s' e in (outside s, on)))
        (λ on. (s, is_one (co.status / 2) on))

  named-Leads :
      (names : Bytes) (co : Conn) (t : ℕ)
      → Ready co
      → Leads IsFresh (
          named server charsets default_collation_id default_charset
            (exec server (codes "SET NAMES " ++ names) co t))
  unfolding exec
  named-Leads names co t ready = given _ (
      request-Leads server Ready (query (codes "SET NAMES " ++ names)) co t (λ s e.
        let (same, same') = keeps.names_set t co.status s names e in
        (same ∙ ready.0, same' ∙ ready.1)))
    where
      given :
          (r : Reply)
          → Leads Ready r
          → Leads IsFresh (named server charsets default_collation_id default_charset r)
      given (none, c, t') p =
          fresh (record c { collation = default_collation_id; charset = default_charset }) p refl
      given (some e, c, t') p = tt

  charset_set :
      (co : Conn) (t : ℕ)
      → Ready co
      → Leads IsFresh (set_charset server charsets default_charset default_collation_id co t)
  unfolding set_charset set_names trim
  charset_set co t ready =
      if_either (Leads IsFresh)
        (eqb_bytes co.charset default_charset && co.collation == default_collation_id) (none, co, t)
        (if not (charsets.has_charset default_charset)
          then (some invalid_charset, co, t)
          else with_name (charsets.collation_name default_collation_id))
        (λ same. fresh co ready (
          eqb_bytes→eq co.charset default_charset
            (both_true _ (co.collation == default_collation_id) same)))
        (λ other.
          if_either (Leads IsFresh) (not (charsets.has_charset default_charset))
            (some invalid_charset, co, t) (with_name (charsets.collation_name default_collation_id))
            (λ unknown. tt) (λ known. by_name (charsets.collation_name default_collation_id)))
    where
      with_name : Option Bytes → Reply
      with_name o = elim o [
        | none ↦ (some invalid_collation, co, t)
        | some name ↦
            named server charsets default_collation_id default_charset (
              exec server (codes "SET NAMES " ++ default_charset ++ codes " COLLATE " ++ name) co t)
      ]

      by_name : (o : Option Bytes) → Leads IsFresh (with_name o)
      by_name none = tt
      by_name (some name) = named-Leads (default_charset ++ codes " COLLATE " ++ name) co t ready

  names_default :
      (co : Conn) (t : ℕ)
      → Ready co
      → Leads IsFresh (
          if not (eqb_bytes co.charset default_charset)
          then set_charset server charsets default_charset default_collation_id co t
          else (none, co, t))
  names_default co t ready =
      if_either (Leads IsFresh) _ _ _ (λ other. charset_set co t ready)
        (λ same. fresh co ready (eqb_bytes→eq co.charset default_charset (is_true _ same)))

  try_reuse-Leads : (co : Conn) (t : ℕ) → Leads IsFresh (try_reuse server charsets co t)
  unfolding try_reuse
  try_reuse-Leads co t =
      next-Leads Ready IsFresh _ _
        (next-Leads Outside Ready _ _ (out_of_transaction co t) auto_committing) names_default

  -- What a pop hands out is fresh.
  abbrev GivesFresh : Pop → Type 0
  GivesFresh (gets co, d, t) = IsFresh co
  GivesFresh (fails e, d, t) = Unit {0}
  GivesFresh (waits, d, t) = Unit {0}

  then_reused-GivesFresh : (r : Pop) → GivesFresh (then_reused server charsets r)
  unfolding then_reused
  then_reused-GivesFresh (gets co, d, t) =
      given d (try_reuse server charsets co t) (try_reuse-Leads co t)
    where
      given : (d : Db) (r : Reply) → Leads IsFresh r → GivesFresh (reused d r)
      given d (none, c, t') p = p
      given d (some e, c, t') p = tt
  then_reused-GivesFresh (fails e, d, t) = tt
  then_reused-GivesFresh (waits, d, t) = tt

  -- A connection that PopConn returns is in no transaction, commits by itself and talks in the
  -- default character set, whatever its last user left it in, provided that the status flags which
  -- the server answers with mean what MySQL documents.
  pub popped-IsFresh :
      (choice : Bool) (d d' : Db) (t t' : ℕ) (co : Conn)
      → pop_conn server charsets choice d t ≡ (gets co, d', t')
      → IsFresh co
  unfolding pop_conn
  popped-IsFresh choice d d' t t' co e = subst GivesFresh e (elim (Option-cases d.cache_conns) [
    | inl n ↦ rw (n, pop_conn) tt
    | inr (cache, c) ↦ elim (Option-cases d.idle_conns) [
      | inl n ↦ rw (c, n, pop_conn) tt
      | inr (idle, i) ↦
          rw (c, i, pop_conn)
            (then_reused-GivesFresh
              (after_cache server choice (get_conn_from_cache server cache d t)))
    ]
  ])
