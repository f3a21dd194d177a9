-- ===== src/Coordinator.antt =====
-- coordinator.py
pub mod Tables
pub mod Exec
pub mod Rows
pub mod Votes
pub mod Bundles
pub mod Configure
pub mod Propose
pub mod Submit
pub mod Requests
pub mod Dispatching
pub mod Commit
pub mod Deliver
pub mod Reconcile
pub mod Quiet
pub mod Consuming
pub mod Once
pub mod Steps
pub mod Commits
pub mod Atomic
mod Tests
