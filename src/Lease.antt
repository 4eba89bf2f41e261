-- ===== src/Lease.antt =====
-- Task leases: the operations of internal/db/attempts.go on the tables of Store.antt, one child for
-- each operation, and what they keep true of the database.
pub mod Policy
pub mod Select
pub mod Assign
pub mod Renew
pub mod Expire
pub mod Classes
pub mod Judge
pub mod Complete
pub mod Abandon
pub mod Reject
pub mod CompleteParts
pub mod Candidates
pub mod WellFormed
pub mod Preserve
pub mod PreserveResults
pub mod PreserveAssign
pub mod Extends
pub mod ExtendsSteps
pub mod Steps
pub mod Fencing
pub mod Stale
pub mod Accepted
pub mod Once
pub mod SweepRounds
pub mod Sweep
pub mod Given
pub mod Serving
pub mod AssignLaws
