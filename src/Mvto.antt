-- ===== src/Mvto.antt =====
-- protocols/mvto/include: multi-version timestamp ordering.
pub mod Chain
pub mod Defs
pub mod Access
pub mod Scan
pub mod ScanLocks
pub mod Commit
pub mod Snapshot
pub mod Ordering
pub mod Install
pub mod Locks
pub mod Finish
