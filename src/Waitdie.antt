-- ===== src/Waitdie.antt =====
-- protocols/waitdie/include: the lock of the WaitDie values, with its owners and its queue of
-- waiters, where each call runs under the latch and is one step (waitdielock.hpp); and the calls
-- of a transaction over it (waitdie.hpp, readwriteset.hpp, value.hpp).
pub mod SortedList
pub mod Lock
pub mod Sound
pub mod Promote
pub mod Calls
pub mod Upgrade
pub mod Release
pub mod History
pub mod Deadlock
pub mod Store
pub mod Access
pub mod Finish
pub mod Scan
pub mod Own
