-- ===== src/Examples.antt =====
-- Runs at concrete inputs: tests of the definitions and instances of the theorems.
mod Locks
mod ListIndex
mod Locking
mod Time
mod Versions
mod Waiting
mod Optimistic
mod Snapshots
mod Batches
mod Dying
