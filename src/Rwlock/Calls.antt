-- ===== src/Rwlock/Calls.antt =====
-- readwritelock.hpp: each call when no other thread comes between its load and its
-- compare-exchange. The blocking calls return `none` where their loop would go on.
use tpcc_runner.Base.{
  Option, none, some, Bool, true, false, ℤ, pos, negsuc, ◌+ℤ◌, ◌==ℤ◌, is_nonneg, if◌then◌else◌,
}

-- The count of a new lock: the constructor and `initialize`.
abbrev pub unlocked : ℤ
unlocked = pos 0

abbrev pub write_locked : ℤ
write_locked = negsuc 0

unfoldable pub try_lock_shared : ℤ → Bool × ℤ
unfolding ◌+ℤ◌
try_lock_shared cnt = if is_nonneg cnt then (true, cnt +ℤ pos 1) else (false, cnt)

unfoldable pub try_lock_upgrade : ℤ → Bool × ℤ
try_lock_upgrade cnt = if cnt ==ℤ pos 1 then (true, write_locked) else (false, cnt)

unfoldable pub try_lock : ℤ → Bool × ℤ
try_lock cnt = if cnt ==ℤ pos 0 then (true, write_locked) else (false, cnt)

unfoldable pub lock : ℤ → Option ℤ
lock cnt = if cnt ==ℤ pos 0 then some write_locked else none

unfoldable pub lock_shared : ℤ → Option ℤ
unfolding ◌+ℤ◌
lock_shared cnt = if is_nonneg cnt then some (cnt +ℤ pos 1) else none

unfoldable pub lock_upgrade : ℤ → Option ℤ
lock_upgrade cnt = if cnt ==ℤ pos 1 then some write_locked else none

unfoldable pub unlock_shared : ℤ → ℤ
unfolding ◌+ℤ◌
unlock_shared cnt = cnt +ℤ negsuc 0

unfoldable pub unlock : ℤ → ℤ
unfolding ◌+ℤ◌
unlock cnt = cnt +ℤ pos 1
