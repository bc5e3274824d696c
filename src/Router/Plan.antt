-- ===== src/Router/Plan.antt =====
-- The route of a statement: `Plan` of proxy/router/planbuilder.go.
pub mod Values
pub mod Tuples
pub mod Qualifiers
pub mod Leaves
pub mod Criteria
pub mod Groups
pub mod Ordered
pub mod Meaning
pub mod Finds
pub mod Located
pub mod Routes
pub mod Returns
