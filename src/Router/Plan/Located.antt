-- ===== src/Router/Plan/Located.antt =====
-- What routing needs of a shard: the table of a literal is the table of its value.
pub mod Hash
pub mod Range
pub mod Keys
pub mod Numeric
