-- ===== src/Lib.antt =====
-- tpcc-runner runs the TPC-C and YCSB benchmarks over concurrency control protocols. This
-- development models the parts that the protocols share and the protocols themselves: the code in
-- which threads meet.
--
-- Base has the shared vocabulary: lists and Boolean tests over the native numbers, signed
-- integers, `std::multimap` (Base/Multimap), and the tables that a transaction touches with their
-- entries (Base/Tables, the `std::set<TableID>` with the `std::unordered_map` of each table).
--
-- Rwlock models protocols/common/readwritelock.hpp. Calls has each call as a function on the
-- count, as it is when no other thread comes between its load and its compare-exchange; Threads
-- has one shared access of one thread as a step, and any number of threads in any order. An
-- atomic access is one step, and the memory is sequentially consistent.
--
-- Timestamp models protocols/common/timestamp_manager.hpp: Defs the workers, their timestamps, the
-- one-sided synchronisation and the manager's pass, Collector the two maps of detached values.
-- Epoch models protocols/common/epoch_manager.hpp. A call of a worker is one step and so is the
-- manager's pass; a history is a list of events. Words wrap as in the code; the theorems state the
-- bound under which they do not.
--
-- Waitdie models protocols/waitdie/include/waitdielock.hpp: SortedList and Lock the code, Sound,
-- Promote, Calls, Upgrade and Release what a call makes of a lock, History the histories of calls,
-- Deadlock who waits for whom. A call runs under the latch and is one step; a call that spins
-- answers `waits`, and who is woken is in the result of the unlock that wakes it. Store, Access,
-- Scan and Finish model protocols/waitdie/include/waitdie.hpp with its elements and values: the
-- calls of a transaction, its scans and its end. A call that waits goes on in the store that the
-- others leave when they wake it, a parameter; Own is about what a transaction reads of its writes.
--
-- Silo models protocols/silo/include: Word the bit fields, Defs the state that one transaction
-- sees, Access and Scan the calls, Commit `precommit` and `abort`; Locking, Phases, Validation and
-- Finish what each phase leaves, Serial the phases together, Order the numbers of commits,
-- Withdrawal what `abort` leaves, Isolation, Listing and WriteSet what the calls leave. A call
-- waits while a value is locked; its read of a record and a word is one step. Threads has the
-- accesses of that read, of `lock` and of the owner of a lock as steps of any number of threads;
-- Snapshot and Atomic are about those. A store of a commit's word is a step only with a number
-- above the old one.
--
-- Nowait models protocols/nowait/include and Mvto models protocols/mvto/include. In each, Defs has
-- the state that one transaction sees (the shared memory, the thread's collector, and its own
-- read-write set), Access the calls on one key, Finish or Commit the end of the transaction; Scan
-- has the two scans. A call is a function from state to state with the pointer that it
-- returns, 0 for null; what the other transactions do happens between the calls. Pointers are
-- numbers and the allocator counts up, so a record is never reused; the list of freed pointers
-- stands for `MemoryAllocator`. A record's contents are one number. The asserts of the code are
-- compiled out. A chain of versions is the list of its versions, newest first.
--
-- The index is a parameter, the record `Index` of a protocol's Defs, and for the scans of MVTO
-- `Ranges` of Mvto/Scan: the code that it wraps is the masstree library, which the repository does
-- not hold. What a theorem needs of it is a
-- hypothesis, and Examples/ListIndex is an index over plain lists that meets them.
--
-- Serval models protocols/serval/include and the utils/bitmap.hpp that it stands on: Bitmap the
-- words, GlobalArray, CoreArray and Region the version arrays, Defs the rows and their store,
-- Reads, Appends and Install the calls of a transaction. A pointer to a version is its address, and
-- a region in the store has a number. Bits and Find are about the words, Rank, Search, Cores,
-- Visible and Ascending about searches, Append, Insertion, Written and Moved about what is
-- appended, Final and Begin about the change of an epoch; Rows, Refine, Whole and Installed set the
-- row that readers see against the two ways in which the code keeps it. Other threads act in the
-- rounds of the two waiting loops, whose number is given and whose end is reported where it is not
-- reached. Here too the asserts are compiled out.
--
-- There is no fuel: every loop goes over a list, and a loop that waits for a lock has the result
-- `none` or `waits` where it would go on.
--
-- Not modelled: the benchmarks and their adapters, the indexes, the utilities, the drivers;
-- Caracal, Serval RC and the naive protocol; of the modelled files the clock loops `start` of the
-- two managers.
pub mod Base
pub mod Rwlock
pub mod Timestamp
pub mod Epoch
pub mod Nowait
pub mod Mvto
pub mod Waitdie
pub mod Silo
pub mod Serval
mod Examples
