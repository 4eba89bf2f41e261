-- ===== src/Planning.antt =====
-- Partition planning (internal/planner, internal/connectors): the cursor range of a run is split into
-- the ranges of its tasks.
pub mod Split
pub mod Ranges
