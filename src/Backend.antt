-- ===== src/Backend.antt =====
-- The connections to the databases: backend.
pub mod Balancer
pub mod Nodes
pub mod Conn
pub mod Pool
