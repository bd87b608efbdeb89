-- ===== src/Examples/Snapshots.antt =====
-- Runs of two threads that use one Silo value.
use tpcc_runner.Base.{◌≡◌, refl, arith, true, false, [], ◌∷◌}
use tpcc_runner.Silo.Word.{TidWord, is_same, obj}
use tpcc_runner.Silo.Threads
use tpcc_runner.Silo.Threads.{
  Shared, Pc, idle, load, lock_load, holds, loaded, fetched, returned, lock_loaded,
  get_record_pointer, lock, give_up, read_check, step, System, Reach, here, next, move,
}
use tpcc_runner.Silo.Snapshot.{holder}
use tpcc_runner.Silo.Atomic.{fresh, one_owner, returns_what_is_there}

abbrev word : TidWord
word = record { lock = false; latest = true; absent = false; tid = 5; epoch = 3 }

abbrev locked : TidWord
locked = record word { lock = true }

abbrev value : Shared
value = record { word = word; rec = 40; committed = 40 }

abbrev with_threads : TidWord → Pc → Pc → System
with_threads w reader writer = record {
  shared = record { word = w; rec = 40; committed = 40 };
  threads = reader ∷ writer ∷ [];
}

-- Thread 1 takes the lock between the loads of thread 0, and gives it back.
taken-Reach : Reach (fresh 2 word 40) (with_threads locked (fetched word 40) holds)
unfolding step Threads.begin Threads.read_loop Threads.lock_loop is_same obj
taken-Reach =
    let started : Reach (fresh 2 word 40) (with_threads word (loaded word) idle) =
      next (next here (move 0 get_record_pointer idle refl tt refl))
        (move 0 lock load refl tt refl) in
    let locking : Reach (fresh 2 word 40) (with_threads word (loaded word) (lock_loaded word)) =
      next (next started (move 1 lock idle refl tt refl)) (move 1 lock lock_load refl tt refl) in
    next (next locking (move 1 lock (lock_loaded word) refl tt refl))
      (move 0 lock (loaded word) refl tt refl)

disturbed-Reach : Reach (fresh 2 word 40) (with_threads word (fetched word 40) idle)
unfolding step Threads.own_step
disturbed-Reach = next taken-Reach (move 1 give_up holds refl tt refl)

one_owner_example : holder (fetched word 40) ≡ 0
one_owner_example =
    one_owner 2 word 40 (omega arith, omega arith) refl taken-Reach 1 0 refl refl (omega arith) refl

returns_what_is_there_example :
    (word ≡ value.word)
    × (value.rec ≡ value.rec)
    × (value.word.lock ≡ false)
    × (value.rec ≡ value.committed)
unfolding step read_check is_same obj
returns_what_is_there_example =
    returns_what_is_there 2 word 40 (omega arith, omega arith) refl disturbed-Reach 0 word 40 refl
      value 40 word refl
