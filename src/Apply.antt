-- ===== src/Apply.antt =====
-- The pure parts of the apply orchestration of src/apply.rs.
pub mod Reconcile
pub mod Accounts
pub mod Groups
pub mod Touched
pub mod Exec
pub mod Phases
pub mod Prepare
pub mod Run
pub mod Seams
pub mod Rollback
pub mod Schedule
pub mod Admitted
