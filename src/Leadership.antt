-- ===== src/Leadership.antt =====
-- Leadership of the master (internal/db/leadership.go): a lease on the one row of master_leadership,
-- whose epoch numbers the terms, and the fence that keeps a master of an older term from writing.
pub mod Row
pub mod Terms
pub mod Fence
pub mod Controller
