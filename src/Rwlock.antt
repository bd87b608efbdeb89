-- ===== src/Rwlock.antt =====
-- protocols/common/readwritelock.hpp: the reader-writer lock of the NoWait, MVTO and WaitDie
-- values. `Calls` has the calls as one thread sees them when no other thread touches the count
-- between its load and its compare-exchange; `Threads` interleaves the shared accesses of any
-- number of threads. The `int64_t` count is an integer: it stays between -1 and the number of
-- threads.
pub mod Calls
pub mod Threads
pub mod Exclusion
pub mod Solo
