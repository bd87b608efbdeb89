-- ===== src/Rwlock/Solo.antt =====
-- readwritelock.hpp: the calls of `Rwlock.Calls` beside the steps of `Rwlock.Threads`.
use tpcc_runner.Base.{◌≡◌, ℤ, if◌then◌else◌, some, none, arith}
use tpcc_runner.Rwlock.Calls
use tpcc_runner.Rwlock.Threads.{
  Call, lock_shared, try_lock_shared, lock, try_lock, lock_upgrade, try_lock_upgrade, Pc, free,
  reads, writes, start, cas, call, step,
}

-- The compare-exchange, if the call has come to it.
finish : ℤ × Pc → ℤ × Pc
finish (cnt, cas c e) = step (cas c e) (call c) cnt
finish r = r

-- One round of a call's loop with nothing between its load and its compare-exchange.
pub alone : Call → ℤ → ℤ × Pc
unfolding finish
alone c cnt = finish (step (start c) (call c) cnt)

-- What the call of `Rwlock.Calls` leaves: the count, and where the thread stands.
pub left : Call → ℤ → ℤ × Pc
left try_lock_shared cnt =
    let (won, c) = Calls.try_lock_shared cnt in (c, if won then reads else free)
left try_lock cnt = let (won, c) = Calls.try_lock cnt in (c, if won then writes else free)
left try_lock_upgrade cnt =
    let (won, c) = Calls.try_lock_upgrade cnt in (c, if won then writes else reads)
left lock_shared cnt = elim (Calls.lock_shared cnt) [
  | some c ↦ (c, reads)
  | none ↦ (cnt, start lock_shared)
]
left lock cnt = elim (Calls.lock cnt) [ some c ↦ (c, writes) | none ↦ (cnt, start lock) ]
left lock_upgrade cnt = elim (Calls.lock_upgrade cnt) [
  | some c ↦ (c, writes)
  | none ↦ (cnt, start lock_upgrade)
]

-- Each of the six calls, run with no other thread between its load and its compare-exchange, has
-- the result of its function: the same new count, and the lock gained, refused or still awaited.
alone-left : (c : Call) (cnt : ℤ) → alone c cnt ≡ left c cnt
unfolding alone left step Calls.try_lock_shared Calls.try_lock Calls.try_lock_upgrade
    Calls.lock_shared Calls.lock Calls.lock_upgrade
alone-left lock_shared cnt = ground arith
alone-left c cnt = ground arith
