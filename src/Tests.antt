-- ===== src/Tests.antt =====
-- Runs of the definitions at concrete inputs, and the theorems applied to such inputs.
pub mod Constants
pub mod Lists
pub mod Executed
pub mod Nodes
pub mod Wire
pub mod Turns
pub mod Routes
pub mod Plans
pub mod Setup
pub mod Pool
pub mod Statements
pub mod Packets
pub mod Rewrites
pub mod Built
