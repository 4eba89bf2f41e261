-- ===== src/Runs.antt =====
-- The life of a run (internal/db/run_admission.go, store_runs.go, commit_reconciliation.go): it is
-- created PLANNING, admitted to RUNNING, moved to COMMITTING when its tasks have succeeded, and ends
-- SUCCEEDED, FAILED or CANCELED.
pub mod Admit
pub mod Life
pub mod Consistent
pub mod Cancel
pub mod Finalize
pub mod Register
pub mod Commit
pub mod Claim
pub mod Refine
pub mod RefineCommit
pub mod Leases
pub mod Steps
pub mod Capacity
pub mod CancelLaws
pub mod Exclusive
pub mod Decide
pub mod Outcomes
pub mod Completion
