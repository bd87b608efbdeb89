-- ===== src/Examples/Locks.antt =====
-- Runs of the reader-writer lock.
use tpcc_runner.Base.{◌≤◌, ◌≡◌, refl, arith, pos_part, neg_part, sum_of}
use tpcc_runner.Rwlock.Calls.{unlocked, write_locked}
use tpcc_runner.Rwlock.Threads.{
  lock, free, writes, start, cas, call, step, System, after, Reach, here, next, move,
}
use tpcc_runner.Rwlock.Exclusion.{fresh, reader, writer, mutual_exclusion, count_tells_holders}

-- Thread 1 of two takes the lock.
abbrev entering : System
entering = after (fresh 2) 1 (unlocked, start lock)

abbrev testing : System
testing = after entering 1 (unlocked, cas lock unlocked)

abbrev taken : System
taken = after testing 1 (write_locked, writes)

taken-Reach : Reach (fresh 2) taken
unfolding step
taken-Reach =
    next
      (next (next here (move 1 (call lock) free refl refl))
        (move 1 (call lock) (start lock) refl refl))
      (move 1 (call lock) (cas lock unlocked) refl refl)

mutual_exclusion_example : (reader free ≡ 0) × (writer free ≡ 0)
mutual_exclusion_example = mutual_exclusion 2 taken-Reach 1 0 refl refl (omega arith)

count_tells_holders_example :
    (pos_part taken.cnt ≡ sum_of reader taken.threads)
    × (neg_part taken.cnt ≡ sum_of writer taken.threads)
    × (sum_of writer taken.threads ≤ 1)
count_tells_holders_example = count_tells_holders 2 taken-Reach
