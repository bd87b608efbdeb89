-- ===== src/Rwlock/Threads.antt =====
-- readwritelock.hpp, one shared access at a time, for any number of threads in any order.
use tpcc_runner.Base.{
  ℕ, Bool, ℤ, pos, ◌+ℤ◌, ◌==ℤ◌, is_nonneg, if◌then◌else◌, List, some, ◌≡◌, get_elem?, set,
}
use tpcc_runner.Rwlock.Calls.{write_locked, unlock_shared, unlock}

-- The six calls that acquire. `lock_upgrade` and `try_lock_upgrade` are made by a reader.
pub data Call : Type 0 where
  lock_shared try_lock_shared lock try_lock lock_upgrade try_lock_upgrade : Call

-- Where a thread stands. `start` is the head of a call's loop, before its load; `cas` is before
-- the compare-exchange, with the local variable `expected`.
pub data Pc : Type 0 where
  free reads writes : Pc
  start : Call → Pc
  cas : Call → (expected : ℤ) → Pc

-- What a thread that runs no call does next.
pub data Request : Type 0 where
  call : Call → Request
  release : Request

-- The test on `expected` before the compare-exchange.
unfoldable pub wants : Call → ℤ → Bool
wants lock_shared e = is_nonneg e
wants try_lock_shared e = is_nonneg e
wants lock e = e ==ℤ pos 0
wants try_lock e = e ==ℤ pos 0
wants lock_upgrade e = e ==ℤ pos 1
wants try_lock_upgrade e = e ==ℤ pos 1

-- The value that the compare-exchange stores.
unfoldable pub target : Call → ℤ → ℤ
unfolding ◌+ℤ◌
target lock_shared e = e +ℤ pos 1
target try_lock_shared e = e +ℤ pos 1
target _ e = write_locked

-- Where the thread stands after the compare-exchange has stored.
unfoldable pub acquired : Call → Pc
acquired lock_shared = reads
acquired try_lock_shared = reads
acquired _ = writes

-- Where the thread stands when the test fails: the blocking calls go round, the others return.
unfoldable pub refused : Call → Pc
refused lock_shared = start lock_shared
refused lock = start lock
refused lock_upgrade = start lock_upgrade
refused try_lock_shared = free
refused try_lock = free
refused try_lock_upgrade = reads

unfoldable pub tested : Call → ℤ → Pc
unfolding wants refused
tested c e = if wants c e then cas c e else refused c

-- A failed compare-exchange. That of `try_lock_shared` leaves the count it found in `expected`,
-- and its loop tests that; the blocking calls load again, and the other two return false.
unfoldable pub lost : Call → ℤ → Pc
unfolding tested
lost try_lock_shared found = tested try_lock_shared found
lost c found = refused c

-- A thread may call only what its place allows: an upgrade from a shared lock, all else from none.
unfoldable pub enter : Pc → Request → ℤ → ℤ × Pc
unfolding unlock_shared unlock
enter free (call lock_upgrade) cnt = (cnt, free)
enter free (call try_lock_upgrade) cnt = (cnt, free)
enter free (call c) cnt = (cnt, start c)
enter reads (call lock_upgrade) cnt = (cnt, start lock_upgrade)
enter reads (call try_lock_upgrade) cnt = (cnt, start try_lock_upgrade)
enter reads release cnt = (unlock_shared cnt, free)
enter writes release cnt = (unlock cnt, free)
enter pc r cnt = (cnt, pc)

-- One shared access of one thread.
unfoldable pub step : Pc → Request → ℤ → ℤ × Pc
unfolding tested lost target acquired enter
step (start c) r cnt = (cnt, tested c cnt)
step (cas c e) r cnt = if cnt ==ℤ e then (target c e, acquired c) else (cnt, lost c cnt)
step pc r cnt = enter pc r cnt

-- The lock and the threads that use it.
pub record System : Type 0 where
  pub cnt : ℤ
  pub threads : List Pc

abbrev pub after : System → ℕ → ℤ × Pc → System
after s i (cnt, pc) = record { cnt = cnt; threads = set s.threads i pc }

-- Any thread may move next, with any request.
pub data Step (s t : System) : Type 0 where
  move :
      (i : ℕ) (r : Request) (pc : Pc)
      → get_elem? s.threads i ≡ some pc
      → t ≡ after s i (step pc r s.cnt)
      → Step s t

pub data Reach (s : System) : System → Type 0 where
  here : Reach s s
  next : {t u : System} → Reach s t → Step t u → Reach s u
