-- ===== src/Silo/Threads.antt =====
-- silo.hpp: the threads that use one value, one shared access at a time: `get_record_pointer`,
-- `lock`, and what the owner of the lock does in `precommit` and `abort`.
use tpcc_runner.Base.{ℕ, ◌<◌, ◌≡◌, true, false, some, List, get_elem?, set, if◌then◌else◌}
use tpcc_runner.Silo.Word.{TidWord, IsWord, is_same}

-- The value, and the record of its last commit, which no thread reads.
pub record Shared : Type 0 where
  pub word : TidWord
  pub rec : ℕ
  pub committed : ℕ

-- Where a thread stands. A reader has loaded its `expected`, then the record; a writer has loaded
-- its `expected`, then the lock, and then has exchanged the record.
pub data Pc : Type 0 where
  idle load lock_load holds swapped : Pc
  loaded : (expected : TidWord) → Pc
  fetched : (expected : TidWord) (rec : ℕ) → Pc
  returned : (rec : ℕ) (tw : TidWord) → Pc
  lock_loaded : (expected : TidWord) → Pc

-- What a thread does where it has a choice: begin a call, give the lock back as it was, withdraw an
-- insert, exchange the record, or store the word of its commit.
pub data Request : Type 0 where
  get_record_pointer lock give_up withdraw : Request
  exchange : (rec : ℕ) → Request
  store : (new_tw : TidWord) → Request

-- The loop of `get_record_pointer` after a load of `expected`, with its next access.
unfoldable pub read_loop : TidWord → Shared → Shared × Pc
read_loop e s = if e.lock then (s, loaded s.word) else (s, fetched e s.rec)

-- Its last load, and the comparison.
unfoldable pub read_check : TidWord → ℕ → Shared → Shared × Pc
unfolding is_same
read_check e rec s = if is_same s.word e then (s, returned rec s.word) else (s, loaded s.word)

-- The loop of `lock`: a failed compare-exchange leaves the word that it found in `expected`.
unfoldable pub lock_loop : TidWord → Shared → Shared × Pc
unfolding is_same
lock_loop e s =
    if e.lock
    then (s, lock_loaded s.word)
    else (if is_same s.word e
        then (record s { word = record e { lock = true } }, holds)
        else (s, lock_loaded s.word))

-- What the owner of the lock does.
unfoldable pub own_step : Request → Shared → Shared × Pc
own_step give_up s = (record s { word = record (s.word) { lock = false } }, idle)
own_step withdraw s =
    (record s { word = record (s.word) { lock = false; latest = false; absent = true } }, idle)
own_step (exchange rec) s = (record s { rec = rec }, swapped)
own_step r s = (s, holds)

unfoldable pub swapped_step : Request → Shared → Shared × Pc
swapped_step (store w) s = (record s { word = record w { lock = false }; committed = s.rec }, idle)
swapped_step r s = (s, swapped)

unfoldable pub begin : Request → Shared → Shared × Pc
begin get_record_pointer s = (s, load)
begin lock s = (s, lock_load)
begin r s = (s, idle)

-- One shared access of one thread.
unfoldable pub step : Pc → Request → Shared → Shared × Pc
unfolding read_loop read_check lock_loop own_step swapped_step begin
step idle r s = begin r s
step load r s = (s, loaded s.word)
step (loaded e) r s = read_loop e s
step (fetched e rec) r s = read_check e rec s
step (returned rec tw) r s = (s, idle)
step lock_load r s = (s, lock_loaded s.word)
step (lock_loaded e) r s = lock_loop e s
step holds r s = own_step r s
step swapped r s = swapped_step r s

-- The number of a commit is above that of the word that it replaces.
abbrev pub IsAllowed : Request → Shared → Type 0
IsAllowed (store w) s = (s.word.tid < w.tid) × IsWord w
IsAllowed r s = Unit {0}

pub record System : Type 0 where
  pub shared : Shared
  pub threads : List Pc

abbrev pub after : System → ℕ → Shared × Pc → System
after s i (shared, pc) = record { shared = shared; threads = set s.threads i pc }

-- Any thread may move next, with any request.
pub data Step (s t : System) : Type 0 where
  move :
      (i : ℕ) (r : Request) (pc : Pc)
      → get_elem? s.threads i ≡ some pc
      → IsAllowed r s.shared
      → t ≡ after s i (step pc r s.shared)
      → Step s t

pub data Reach (s : System) : System → Type 0 where
  here : Reach s s
  next : {t u : System} → Reach s t → Step t u → Reach s u
