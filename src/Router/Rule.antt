-- ===== src/Router/Rule.antt =====
-- The routing rule of a table: `Rule` of proxy/router/router.go, and its methods.
use kingshard.Prelude.{ℤ, pos, Bytes, List, [], ◌∷◌, if◌then◌else◌, eqb_ℤ}
use kingshard.Outcome.{Result, ok, ◌>>=◌}
use kingshard.Router.Shard.{Shard, Key, LocalTime, find_for_key, index}

-- The names of the rule types; `other` is any other text.
pub data RuleType : Type 0 where
  default hash range date_year date_month date_day : RuleType
  other : Bytes → RuleType

pub record Rule : Type 0 where
  pub db : Bytes
  pub table : Bytes
  pub key : Bytes
  pub kind : RuleType
  pub nodes : List Bytes
  pub sub_table_indexs : List ℤ
  pub table_to_node : List (ℤ × ℤ)
  pub shard : Shard

-- A read of a `map[int]int`: 0 for a key that is not there.
unfoldable pub map_get : ℤ → List (ℤ × ℤ) → ℤ
map_get k [] = pos 0
map_get k ((j, v) ∷ m) = if eqb_ℤ j k then v else map_get k m

-- A write: the value of a key that is there is replaced.
unfoldable pub map_put : ℤ → ℤ → List (ℤ × ℤ) → List (ℤ × ℤ)
map_put k v [] = (k, v) ∷ []
map_put k v ((j, w) ∷ m) = if eqb_ℤ j k then (k, v) ∷ m else (j, w) ∷ map_put k v m

module _ (time : LocalTime) where
  unfoldable pub find_table_index : Rule → Key → Result ℤ
  find_table_index r key = find_for_key time r.shard key

  unfoldable pub find_node_index : Rule → Key → Result ℤ
  find_node_index r key = do
    table_index ← find_for_key time r.shard key
    ok (map_get table_index r.table_to_node)

  unfoldable pub find_node : Rule → Key → Result Bytes
  find_node r key = do
    table_index ← find_for_key time r.shard key
    index r.nodes (map_get table_index r.table_to_node)
