-- ===== src/Silo.antt =====
-- protocols/silo/include: the optimistic protocol, one transaction at a time.
pub mod Word
pub mod Defs
pub mod Access
pub mod Scan
pub mod Commit
pub mod Phases
pub mod Locking
pub mod Validation
pub mod Finish
pub mod Serial
pub mod Order
pub mod Isolation
pub mod Threads
pub mod Snapshot
pub mod Atomic
pub mod Withdrawal
pub mod Listing
pub mod WriteSet
