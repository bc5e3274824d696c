-- ===== src/Tests/Executed.antt =====
-- An INSERT that two nodes execute.
use mathlib.Core.List.{Permᴰ}
use kingshard.Prelude.{
  Option, ℕ, pos, ◌+◌, Bytes, codes, eqb_bytes, List, [], ◌∷◌, map, none, some, ◌≡◌, refl, arith,
}
use kingshard.Outcome.{Error, ok}
use kingshard.Proxy.Execute.{
  ExecResult, Executed, returned, Sqls, Remembered, result_count, sqls_of, collect, run_nodes,
  run_node, put_slot, execute_in_multi_nodes, merge_exec_result, merge_loop, merge_result, merge_id,
  bit_or,
}
use kingshard.Proxy.Execute.Replies.{
  HasKeysOnce, IsOutcome, conns_of, entries_of, all_replies, execute_in_multi_nodes-replies,
}
use kingshard.Proxy.Execute.Merged.{merge_exec_result-order}

abbrev inserted : ℕ → ExecResult
inserted id = record { status = 2; insert_id = id; affected_rows = 1 }

-- A connection is the next insert id of its server.
abbrev next_id : ℕ → Bytes → Executed × ℕ
next_id id sql = (returned (inserted id), id + 1)

abbrev two_jobs : List (Bytes × ℕ × List Bytes)
two_jobs =
    (codes "n2", 20, codes "insert c" ∷ [])
    ∷ (codes "n1", 10, codes "insert a" ∷ codes "insert b" ∷ [])
    ∷ []

-- The map of the statements, in another order.
abbrev two_nodes : Sqls
two_nodes =
    (codes "n1", codes "insert a" ∷ codes "insert b" ∷ [])
    ∷ (codes "n2", codes "insert c" ∷ [])
    ∷ []

two_names : HasKeysOnce (entries_of next_id two_jobs)
unfolding eqb_bytes
two_names = ((refl, tt), (tt, tt))

execute_in_multi_nodes-replies_example :
    (out : List (Option ExecResult) × Option Error) × (execute_in_multi_nodes next_id
        (conns_of next_id two_jobs)
        two_nodes
      ≡ ok out)
    × IsOutcome (all_replies next_id two_jobs) out
execute_in_multi_nodes-replies_example =
    execute_in_multi_nodes-replies next_id two_jobs two_nodes (omega arith) two_names
      (Permᴰ.swap refl refl)

collected :
    execute_in_multi_nodes next_id (conns_of next_id two_jobs) two_nodes
    ≡ ok (some (inserted 20) ∷ some (inserted 10) ∷ some (inserted 11) ∷ [], none)
unfolding execute_in_multi_nodes run_nodes run_node put_slot result_count sqls_of collect eqb_bytes
collected = refl

abbrev nothing_yet : Remembered
nothing_yet = record { last_insert_id = pos 0; affected_rows = pos 0 }

merge_exec_result-order_example :
    merge_exec_result (map some (inserted 20 ∷ inserted 10 ∷ [])) nothing_yet
    ≡ merge_exec_result (map some (inserted 10 ∷ inserted 20 ∷ [])) nothing_yet
merge_exec_result-order_example =
    merge_exec_result-order (inserted 20 ∷ inserted 10 ∷ []) (inserted 10 ∷ inserted 20 ∷ [])
      nothing_yet (Permᴰ.swap refl refl) (omega arith, (omega arith, tt))

-- A result without an insert id takes the one before it away.
id_is_lost :
    merge_loop (inserted 5) (some (inserted 0) ∷ [])
    ≡ ok (record { status = 2; insert_id = 0; affected_rows = 2 })
unfolding merge_loop merge_result merge_id bit_or
id_is_lost = refl
