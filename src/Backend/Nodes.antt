-- ===== src/Backend/Nodes.antt =====
-- The master and the slaves of a node: backend/node.go. A slave is nil where UpSlave has put the
-- result of a failed UpDB, and slave_made is false where the field Slave itself is nil. OpenDB is a
-- parameter, the answer of its call with a number.
pub mod Balanced
use kingshard.Prelude.{
  ℕ, zero, suc, ◌+◌, ℤ, pos, Bytes, eqb_bytes, List, [], ◌∷◌, ◌++◌, length, Option, none, some,
  Bool, true, false, if◌then◌else◌, split_on, trim, ◌==◌,
}
use kingshard.Outcome.{Result, Error, ok, err, panic, ◌>>=◌}
use kingshard.Outcome.Error.{
  address_null, slave_exist, no_slave_db, slave_not_exist, no_master_db, no_master_conn,
  master_down, slave_down, strconv_syntax,
}
use kingshard.Outcome.Panic.{nil_dereference, index_out_of_range}
use kingshard.Strconv.{parse_int}
use kingshard.Backend.Pool.{Db, State, is_up, is_down, close_db}
use kingshard.Backend.Balancer.{build_queue}

pub record Managed : Type 0 where
  pub master : Option Db
  pub slave_made : Bool
  pub slave : List (Option Db)
  pub last_slave_index : ℕ
  pub round_robin_q : List ℕ
  pub slave_weights : List ℤ

-- An error that is returned, and the node that is left behind.
abbrev pub Change : Type 0
Change = Option Error × Managed

-- `InitBalancer`
unfoldable pub balance : List ℕ → Managed → Result Change
balance draws n = do
  q ← build_queue draws n.slave_weights
  ok (none, record n { last_slave_index = 0; round_robin_q = q })

-- The parts of a text at "@": the address, and what is behind it.
unfoldable pub address : Bytes → Bytes
address s = (split_on b'@' s).0

-- The weight is the second of two parts, and 1 for any other number of parts.
unfoldable pub weight : List Bytes → Option ℤ
weight (w ∷ []) = parse_int w
weight _ = some (pos 1)

unfoldable pub has_slave : Bytes → List (Option Db) → Result Bool
has_slave addr [] = ok false
has_slave addr (none ∷ ss) = panic nil_dereference
has_slave addr (some d ∷ ss) =
    let rest = has_slave addr ss in
    if eqb_bytes (address d.addr) (address addr) then ok true else rest

-- Whether a slave has exactly the address.
unfoldable pub at_address : Bytes → List (Option Db) → Result Bool
at_address addr [] = ok false
at_address addr (none ∷ ss) = panic nil_dereference
at_address addr (some d ∷ ss) =
    let rest = at_address addr ss in if eqb_bytes d.addr addr then ok true else rest

-- The slaves that have another address, with their weights.
unfoldable pub others : Bytes → List (Option Db) → List ℤ → Result (List (Option Db) × List ℤ)
others addr [] ws = ok ([], [])
others addr (none ∷ ss) ws = panic nil_dereference
others addr (some d ∷ ss) [] =
    let rest = others addr ss [] in if eqb_bytes d.addr addr then rest else panic index_out_of_range
others addr (some d ∷ ss) (w ∷ ws) =
    let rest = others addr ss ws in
    if eqb_bytes d.addr addr then rest else (rest >>= λ (ss', ws'). ok (some d ∷ ss', w ∷ ws'))

-- What is left of a node with several slaves.
unfoldable pub without : List ℕ → Bytes → Managed → Result Change
without draws addr n = others addr n.slave n.slave_weights >>= λ (ss, ws).
    balance draws (record n { slave_made = true; slave = ss; slave_weights = ws })

unfoldable pub delete_slave : List ℕ → Bytes → Managed → Result Change
delete_slave draws addr n =
    let several = without draws addr n in
    let cleared = record n {
      slave_made = false;
      slave = [];
      slave_weights = [];
      round_robin_q = [];
    } in
    let deleted =
      (at_address addr n.slave >>= λ found.
      if found
      then (if length n.slave == 1 then ok (none, cleared) else several)
      else ok (some slave_not_exist, n)) in
    if length n.slave == 0 then ok (some no_slave_db, n) else deleted

-- The state of the first slave with the address; the channels of a closed one are nil.
unfoldable pub down_first : Bytes → State → List (Option Db) → Result (List (Option Db))
down_first addr state [] = ok []
down_first addr state (none ∷ ss) = panic nil_dereference
down_first addr state (some d ∷ ss) =
    let rest = down_first addr state ss in
    if eqb_bytes d.addr addr
    then ok (some (record (close_db d) { state = state }) ∷ ss)
    else (rest >>= λ ss'. ok (some d ∷ ss'))

unfoldable pub down_slave : Bytes → State → Managed → Result Change
down_slave addr state n =
    let closed = (down_first addr state n.slave >>= λ ss. ok (none, record n { slave = ss })) in
    if n.slave_made then closed else ok (some no_slave_db, n)

unfoldable pub down_master : Bytes → State → Managed → Change
down_master addr state n = elim n.master [
  | none ↦ (some no_master_db, n)
  | some d ↦
      if eqb_bytes d.addr addr
      then (none, record n { master = some (record (close_db d) { state = state }) })
      else (some no_master_db, n)
]

-- Whether a slave has the address, and the slaves with another one in its place, or behind them.
unfoldable pub put_first : Bytes → Option Db → List (Option Db) → Result (Bool × List (Option Db))
put_first addr db [] = ok (false, db ∷ [])
put_first addr db (none ∷ ss) = panic nil_dereference
put_first addr db (some d ∷ ss) =
    let rest = put_first addr db ss in
    if eqb_bytes d.addr addr
    then ok (true, db ∷ ss)
    else (rest >>= λ (found, ss'). ok (found, some d ∷ ss'))

-- The error of UpDB is lost where the slave is found.
unfoldable pub put_slave : Bytes → Option Error → Option Db → Managed → Result Change
put_slave addr why db n = do
  (found, ss) ← put_first addr db n.slave
  ok (if found then none else why, record n { slave_made = true; slave = ss })

-- The guards of GetMasterConn, before it asks the pool.
unfoldable pub usable_master : Managed → Result Db
usable_master n = elim n.master [
  | none ↦ err no_master_conn
  | some d ↦ elim d.state [ is_down ↦ err master_down | _ ↦ ok d ]
]

module _ (open_at : Bytes → ℕ → Result Db) where
  -- The slave is appended behind its weight: where OpenDB fails, the weight stays.
  unfoldable pub opened_slave : List ℕ → Bytes → Managed → Result Change
  opened_slave draws addr n = elim (open_at addr 0) [
    | ok d ↦ balance draws (record n { slave_made = true; slave = n.slave ++ (some d ∷ []) })
    | err e ↦ ok (some e, n)
    | panic why ↦ panic why
  ]

  unfoldable pub new_slave : List ℕ → Bytes → Managed → Result Change
  new_slave draws addr n = elim (weight (split_on b'@' addr).1) [
    | none ↦ ok (some strconv_syntax, n)
    | some w ↦
        opened_slave draws (address addr) (record n { slave_weights = n.slave_weights ++ (w ∷ []) })
  ]

  unfoldable pub add_slave : List ℕ → Bytes → Managed → Result Change
  add_slave draws [] n = ok (some address_null, n)
  add_slave draws (c ∷ cs) n = has_slave (c ∷ cs) n.slave >>= λ found.
      if found then ok (some slave_exist, n) else new_slave draws (c ∷ cs) n

  -- The loop over the texts of the slaves.
  unfoldable pub parse_loop : ℕ → List Bytes → Managed → Result Change
  parse_loop i [] n = ok (none, n)
  parse_loop i (s ∷ ss) n = elim (weight (split_on b'@' s).1) [
    | none ↦ ok (some strconv_syntax, n)
    | some w ↦ elim (open_at (address s) i) [
      | ok d ↦ parse_loop (suc i) ss (record n {
        slave = n.slave ++ (some d ∷ []);
        slave_weights = n.slave_weights ++ (w ∷ []);
      })
      | err e ↦ ok (some e, record n { slave_weights = n.slave_weights ++ (w ∷ []) })
      | panic why ↦ panic why
    ]
  ]

  unfoldable pub parsed : List ℕ → Change → Result Change
  parsed draws (none, n) = balance draws n
  parsed draws (some e, n) = ok (some e, n)

  unfoldable pub parse_slave : List ℕ → Bytes → Managed → Result Change
  parse_slave draws [] n = ok (none, n)
  parse_slave draws (c ∷ cs) n =
      let (s, ss) = split_on b',' (trim (λ x. x == b',') (c ∷ cs)) in
      parse_loop 0 (s ∷ ss) (record n { slave_made = true; slave = []; slave_weights = [] })
      >>= λ r. parsed draws r

  unfoldable pub parse_master : Bytes → Managed → Result Change
  parse_master [] n = ok (some no_master_db, n)
  parse_master (c ∷ cs) n = elim (open_at (c ∷ cs) 0) [
    | ok d ↦ ok (none, record n { master = some d })
    | err e ↦ ok (some e, record n { master = none })
    | panic why ↦ panic why
  ]

  -- UpDB, for the answer of the ping.
  unfoldable pub up_db : Option Error → Bytes → Result Db
  up_db ping addr = do
    d ← open_at addr 0
    elim ping [ some e ↦ err e | none ↦ ok (record d { state = is_up }) ]

  unfoldable pub up_master : Option Error → Bytes → Managed → Result Change
  up_master ping addr n = elim (up_db ping addr) [
    | ok d ↦ ok (none, record n { master = some d })
    | err e ↦ ok (some e, n)
    | panic why ↦ panic why
  ]

  unfoldable pub up_slave : Option Error → Bytes → Managed → Result Change
  up_slave ping addr n = elim (up_db ping addr) [
    | ok d ↦ put_slave addr none (some d) n
    | err e ↦ put_slave addr (some e) none n
    | panic why ↦ panic why
  ]
