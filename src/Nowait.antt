-- ===== src/Nowait.antt =====
-- protocols/nowait/include: strict two-phase locking that aborts instead of waiting.
pub mod Defs
pub mod Access
pub mod Locks
pub mod Calls
pub mod Release
pub mod Visible
pub mod Isolation
pub mod Gap
pub mod Scan
pub mod Finish
