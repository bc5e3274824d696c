-- ===== src/Proxy/Execute.antt =====
-- The execution of a plan's statements: executeInMultiNodes and mergeExecResult of
-- proxy/server/conn_query.go. A map is the list of its entries in the order of its iteration. What
-- a connection does with a statement is a parameter.
pub mod Slots
pub mod Replies
pub mod Merged
use kingshard.Prelude.{
  ℕ, zero, suc, ◌+◌, ◌*◌, ◌/◌, ◌%◌, ◌^◌, ℤ, Bytes, eqb_bytes, List, [], ◌∷◌, ◌++◌, map, length, set,
  replicate, Option, none, some, Bool, true, false, if◌then◌else◌, ltb, ◌==◌, to_i64,
}
use kingshard.Outcome.{Result, Error, ok, err, panic, ◌>>=◌}
use kingshard.Outcome.Error.{no_plan, conn_not_equal}
use kingshard.Outcome.Panic.{index_out_of_range, nil_dereference}

pub record ExecResult : Type 0 where
  pub status : ℕ
  pub insert_id : ℕ
  pub affected_rows : ℕ

pub data Executed : Type 0 where
  failed : Error → Executed
  returned : ExecResult → Executed

abbrev pub Sqls : Type 0
Sqls = List (Bytes × List Bytes)

-- The length of `rs`.
unfoldable pub result_count : Sqls → ℕ
result_count [] = 0
result_count ((name, ss) ∷ sqls) = length ss + result_count sqls

-- `sqls[nodeName]`, nil for a missing key.
unfoldable pub sqls_of : Bytes → Sqls → List Bytes
sqls_of name [] = []
sqls_of name ((n, ss) ∷ sqls) =
    let rest = sqls_of name sqls in if eqb_bytes n name then ss else rest

unfoldable pub put_slot : List (Option Executed) → ℕ → Executed → Result (List (Option Executed))
put_slot rs i r = if ltb i (length rs) then ok (set rs i (some r)) else panic index_out_of_range

-- The loop over `rs`: nothing is collected behind the first error.
unfoldable pub collect : List (Option Executed) → List (Option ExecResult) × Option Error
collect [] = ([], none)
collect (none ∷ rs) = let (out, e) = collect rs in (none ∷ out, e)
collect (some (returned r) ∷ rs) = let (out, e) = collect rs in (some r ∷ out, e)
collect (some (failed e) ∷ rs) = (replicate (suc (length rs)) none, some e)

module _ {Co : Type 0} (execute : Co → Bytes → Executed × Co) where
  -- One goroutine.
  unfoldable pub run_node :
      List (Option Executed) → ℕ → List Bytes → Co → Result (List (Option Executed))
  run_node rs i [] co = ok rs
  run_node rs i (v ∷ vs) co =
      let (r, co') = execute co v in put_slot rs i r >>= λ rs'. run_node rs' (suc i) vs co'

  -- The goroutines write to slots of their own, so that they run one behind the other here.
  unfoldable pub run_nodes :
      List (Bytes × Co) → Sqls → ℕ → List (Option Executed) → Result (List (Option Executed))
  run_nodes [] sqls offset rs = ok rs
  run_nodes ((name, co) ∷ conns) sqls offset rs =
      let s = sqls_of name sqls in
      run_node rs offset s co >>= λ rs'. run_nodes conns sqls (offset + length s) rs'

  unfoldable pub execute_in_multi_nodes :
      List (Bytes × Co) → Sqls → Result (List (Option ExecResult) × Option Error)
  execute_in_multi_nodes conns sqls =
      let ran =
        (run_nodes conns sqls 0 (replicate (result_count sqls) none) >>= λ rs. ok (collect rs)) in
      if length conns == length sqls
      then (if length conns == 0 then err no_plan else ran)
      else err conn_not_equal

-- The bitwise or of two numbers of `n` bits.
unfoldable pub bit_or : ℕ → ℕ → ℕ → ℕ
bit_or zero a b = 0
bit_or (suc n) a b =
    let rest = 2 * bit_or n (a / 2) (b / 2) in if a % 2 == 0 then b % 2 + rest else 1 + rest

-- The least of two insert ids, where 0 gives way in front and wins behind.
unfoldable pub merge_id : ℕ → ℕ → ℕ
merge_id i j = if i == 0 then j else if ltb j i then j else i

unfoldable pub merge_result : ExecResult → ExecResult → ExecResult
merge_result r v = record {
  status = bit_or 16 r.status v.status;
  insert_id = merge_id r.insert_id v.insert_id;
  affected_rows = (r.affected_rows + v.affected_rows) % 2 ^ 64;
}

unfoldable pub merge_loop : ExecResult → List (Option ExecResult) → Result ExecResult
merge_loop r [] = ok r
merge_loop r (none ∷ vs) = panic nil_dereference
merge_loop r (some v ∷ vs) = merge_loop (merge_result r v) vs

-- What the session remembers: lastInsertId and affectedRows.
pub record Remembered : Type 0 where
  pub last_insert_id : ℤ
  pub affected_rows : ℤ

-- The answer that is written, and what is remembered.
unfoldable pub merge_exec_result :
    List (Option ExecResult) → Remembered → Result (ExecResult × Remembered)
merge_exec_result rs c = do
  r ← merge_loop (record { status = 0; insert_id = 0; affected_rows = 0 }) rs
  let id = if ltb 0 r.insert_id then to_i64 r.insert_id else c.last_insert_id
  ok (r, record { last_insert_id = id; affected_rows = to_i64 r.affected_rows })
