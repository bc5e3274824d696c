-- ===== src/Router.antt =====
-- The router: proxy/router.
pub mod IntList
pub mod Shard
pub mod DateRange
pub mod Rule
pub mod Plan
pub mod Setup
pub mod Registry
pub mod Rewrite
pub mod Build
