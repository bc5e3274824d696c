-- ===== src/Config.antt =====
-- The parts of config/config.go that the router reads: SchemaConfig and ShardConfig.
use kingshard.Prelude.{ℤ, Bytes, List}

pub record ShardConfig : Type 0 where
  pub db : Bytes
  pub table : Bytes
  pub key : Bytes
  pub nodes : List Bytes
  pub locations : List ℤ
  pub kind : Bytes
  pub table_row_limit : ℤ
  pub date_range : List Bytes

-- `default_node` is the field Default.
pub record SchemaConfig : Type 0 where
  pub user : Bytes
  pub nodes : List Bytes
  pub default_node : Bytes
  pub shard_rule : List ShardConfig
