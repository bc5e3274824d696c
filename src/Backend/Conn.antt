-- ===== src/Backend/Conn.antt =====
-- A connection to a database, as backend/backend_conn.go keeps it: its session, and the requests
-- that change it.
use kingshard.Prelude.{
  ℕ, suc, ◌/◌, ◌%◌, ℤ, pos, Bytes, codes, eqb_bytes, [], ◌++◌, Bool, true, false, ◌==◌, ◌&&◌, ◌||◌,
  not, length, trim, Option, none, some, if◌then◌else◌,
}
use kingshard.Outcome.{Error}
use kingshard.Outcome.Error.{invalid_charset, invalid_collation}

pub data Command : Type 0 where
  connect ping : Command
  query init_db : Bytes → Command

-- What comes back for a request: an OK packet with its status, an error packet, or a failure to
-- write or to read, which stays in pkgErr.
pub data Answer : Type 0 where
  accepted : ℕ → Answer
  refused broken : Error → Answer

-- The network and the clock. Requests and readings of the clock are counted, and what comes back
-- may depend on their number; `answer` sees the status that the session had.
pub record Server : Type 0 where
  pub answer : ℕ → Command → ℕ → Answer
  pub now : ℕ → ℤ

-- `up` holds if the field conn is not nil; the fields addr, user and password do not change.
pub record Conn : Type 0 where
  pub up : Bool
  pub db : Bytes
  pub status : ℕ
  pub collation : ℕ
  pub charset : Bytes
  pub push_timestamp : ℤ
  pub pkg_err : Bool

-- `new(Conn)`
abbrev pub blank : Conn
blank = record {
  up = false;
  db = [];
  status = 0;
  collation = 0;
  charset = [];
  push_timestamp = pos 0;
  pkg_err = false;
}

unfoldable pub close : Conn → Conn
close c = if c.up then record c { up = false; pkg_err = false } else c

-- SERVER_STATUS_IN_TRANS is 1, SERVER_STATUS_AUTOCOMMIT is 2.
unfoldable pub is_in_transaction : Conn → Bool
is_in_transaction c = c.status % 2 == 1

unfoldable pub is_auto_commit : Conn → Bool
is_auto_commit c = (c.status / 2) % 2 == 1

-- DEFAULT_CHARSET and DEFAULT_COLLATION_ID.
abbrev pub default_charset : Bytes
default_charset = codes "utf8"

abbrev pub default_collation_id : ℕ
default_collation_id = 33

-- The error of a request, `none` for nil, the connection, and the number of requests so far.
abbrev pub Reply : Type 0
Reply = Option Error × Conn × ℕ

-- The next request, if the one before was accepted.
abbrev pub next : Reply → (Conn → ℕ → Reply) → Reply
next (none, c, t) f = f c t
next (some e, c, t) f = (some e, c, t)

module _ (server : Server) where
  abbrev pub answered : Answer → Conn → ℕ → Reply
  answered (accepted s) c t = (none, record c { status = s; pkg_err = false }, t)
  answered (refused e) c t = (some e, record c { pkg_err = false }, t)
  answered (broken e) c t = (some e, record c { pkg_err = true }, t)

  unfoldable pub request : Command → Conn → ℕ → Reply
  request command c t = answered (server.answer t command c.status) c (suc t)

  unfoldable pub exec : Bytes → Conn → ℕ → Reply
  unfolding request
  exec sql c t = request (query sql) c t

  -- The time of the answer is kept, if there is no error.
  abbrev pub stamped : Reply → Reply
  stamped (none, c, t) = (none, record c { push_timestamp = server.now t }, suc t)
  stamped (some e, c, t) = (some e, c, t)

  unfoldable pub send_ping : Conn → ℕ → Reply
  unfolding request
  send_ping c t = stamped (request ping c t)

  unfoldable pub begin_trans : Conn → ℕ → Reply
  unfolding exec
  begin_trans c t = exec (codes "begin") c t

  unfoldable pub commit : Conn → ℕ → Reply
  unfolding exec
  commit c t = exec (codes "commit") c t

  unfoldable pub rollback : Conn → ℕ → Reply
  unfolding exec
  rollback c t = exec (codes "rollback") c t

  unfoldable pub reconnect : Conn → ℕ → Reply
  unfolding request exec
  reconnect c t =
      next (request connect (record c { up = true }) t)
        (λ c' t'. exec (codes "set autocommit = 1") c' t')

  unfoldable pub connect_to : Bytes → Conn → ℕ → Reply
  unfolding reconnect
  connect_to db c t =
      reconnect (record c { db = db; collation = default_collation_id; charset = default_charset })
        t

  abbrev used : Bytes → Reply → Reply
  used db (none, c, t) = (none, record c { db = db }, t)
  used db (some e, c, t) = (some e, c, t)

  unfoldable pub use_db : Bytes → Conn → ℕ → Reply
  unfolding request
  use_db name c t =
      if eqb_bytes c.db name || length name == 0
      then (none, c, t)
      else used name (request (init_db name) c t)

  -- The socket that SetAutoCommit closes after an error stays in the connection.
  unfoldable pub set_auto_commit : Bool → Conn → ℕ → Reply
  unfolding exec
  set_auto_commit on c t =
      exec (if on then codes "set autocommit = 1" else codes "set autocommit = 0") c t

-- The maps of mysql/charset.go: Charsets with CollationNames, CharsetIds, and Collations.
pub record Charsets : Type 0 where
  pub default_collation : Bytes → ℕ
  pub has_charset : Bytes → Bool
  pub collation_name : ℕ → Option Bytes

-- The cutset "\"'`".
abbrev pub is_quote : ℕ → Bool
is_quote c = c == 34 || c == 39 || c == 96

module _ (server : Server) (charsets : Charsets) where
  abbrev pub named : ℕ → Bytes → Reply → Reply
  named collation charset (none, c, t) =
      (none, record c { collation = collation; charset = charset }, t)
  named collation charset (some e, c, t) = (some e, c, t)

  -- With the two arguments as SetCharset has changed them.
  unfoldable pub set_names : Bytes → ℕ → Conn → ℕ → Reply
  unfolding exec
  set_names charset collation c t =
      if eqb_bytes c.charset charset && c.collation == collation
      then (none, c, t)
      else if not (charsets.has_charset charset)
      then (some invalid_charset, c, t)
      else elim (charsets.collation_name collation) [
        | none ↦ (some invalid_collation, c, t)
        | some name ↦
            named collation charset
              (exec server (codes "SET NAMES " ++ charset ++ codes " COLLATE " ++ name) c t)
      ]

  unfoldable pub set_charset : Bytes → ℕ → Conn → ℕ → Reply
  unfolding set_names trim
  set_charset charset collation c t =
      let trimmed = trim is_quote charset in
      set_names trimmed (if collation == 0 then charsets.default_collation trimmed else collation) c
        t
