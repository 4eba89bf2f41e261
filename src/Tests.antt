-- ===== src/Tests.antt =====
-- Concrete databases and operations: the theorems of the library applied to them.
pub mod Sample
pub mod Leases
pub mod Masters
pub mod Marks
pub mod Capacities
pub mod Plans
pub mod Types
pub mod Runs
pub mod Logs
pub mod Clients
pub mod Limits
