-- ===== src/Boundary.antt =====
-- Boundaries of the high-water mark (internal/hwmboundary): an incremental run reads again the rows at
-- the last cursor value, and drops those that earlier runs exported. A cursor value is a number: the
-- value in the order of its domain (internal/connectors/source.go, CompareCursorValues); a blank one is
-- none. A row hash is a number too.
pub mod Counts
pub mod Tracker
pub mod Kept
pub mod Largest
pub mod Observed
pub mod State
pub mod Exact
