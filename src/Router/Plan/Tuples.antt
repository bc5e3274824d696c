-- ===== src/Router/Plan/Tuples.antt =====
-- The values of an IN list, grouped by the sub-table that they fall in.
use kingshard.Prelude.{ℤ, List, [], ◌∷◌, ◌++◌, if◌then◌else◌, eqb_ℤ, ltb_ℤ}
use kingshard.Outcome.{Result, ok, ◌>>=◌}
use kingshard.Sqlparser.Ast.{ValExpr, ValExprs, val_tuple, nil, cons, str_val}
use kingshard.Router.Shard.{LocalTime}
use kingshard.Router.Plan.Values.{Plan, get_table_index_by_value}

abbrev pub Groups : Type 0
Groups = List (ℤ × List ValExpr)

-- `shardset[index] = append(shardset[index], n)`
unfoldable pub add_value : ℤ → ValExpr → Groups → Groups
add_value i n [] = (i, n ∷ []) ∷ []
add_value i n ((j, ns) ∷ gs) =
    if eqb_ℤ j i then (j, ns ++ (n ∷ [])) ∷ gs else (j, ns) ∷ add_value i n gs

-- The insertion of a key into the sorted key list.
unfoldable pub insert_key : ℤ → List ℤ → List ℤ
insert_key k [] = k ∷ []
insert_key k (j ∷ js) = if ltb_ℤ k j then k ∷ j ∷ js else j ∷ insert_key k js

-- The keys of the map, through `sort.Ints`.
unfoldable pub sorted_keys : Groups → List ℤ
unfolding insert_key
sorted_keys [] = []
sorted_keys ((k, ns) ∷ gs) = insert_key k (sorted_keys gs)

module _ (time : LocalTime) where
  -- The range loop over the tuple.
  unfoldable pub group_values : Plan → ValExprs → Groups → Result Groups
  unfolding add_value
  group_values plan nil shardset = ok shardset
  group_values plan (cons n ns) shardset = do
    i ← get_table_index_by_value time plan n
    group_values plan ns (add_value i n shardset)

  unfoldable pub tuple_groups : Plan → ValExpr → Result Groups
  unfolding group_values
  tuple_groups plan (val_tuple ns) = group_values plan ns []
  tuple_groups plan (str_val s) = ok []
  tuple_groups plan _ = ok []

  unfoldable pub get_table_indexs_by_tuple : Plan → ValExpr → Result (List ℤ × Plan)
  unfolding tuple_groups sorted_keys
  get_table_indexs_by_tuple plan e = do
    shardset ← tuple_groups plan e
    ok (sorted_keys shardset, record plan { sub_table_value_groups = shardset })
