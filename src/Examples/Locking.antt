-- ===== src/Examples/Locking.antt =====
-- Runs of a NoWait transaction over a small index: table 0 has key 5 and key 9.
use tpcc_runner.Base.{ℕ, ◌+◌, ◌≡◌, refl, Option, none, some, [], ◌∷◌, ℤ, pos, negsuc, arith, sum_of}
use tpcc_runner.Base.Tables.{Tables, get_table, touch, assign_entry, find_entry}
use tpcc_runner.Rwlock.Calls.{write_locked}
use tpcc_runner.Nowait.Defs.{Index, State}
use tpcc_runner.Nowait.Access.{read, insert}
use tpcc_runner.Nowait.Finish.{abort}
use tpcc_runner.Nowait.Locks.{IsHeld}
use tpcc_runner.Nowait.Calls.{reads, updates, perform, IsUsable, IsAllocated, perform-IsHeld}
use tpcc_runner.Nowait.Visible.{read_own_write}
use tpcc_runner.Nowait.Release.{abort-count}
use tpcc_runner.Nowait.Isolation.{IsUntouched, perform-IsUntouched}
use tpcc_runner.Nowait.Gap.{insert_leaks_next_lock}
use tpcc_runner.Examples.ListIndex.{list_index, insert_missing-some}

abbrev two_keys : Tables ℕ
two_keys = (0, (5, 1) ∷ (9, 2) ∷ []) ∷ []

-- No lock is taken; the records of values 1 and 2 are 11 and 12.
abbrev begun : State (Tables ℕ)
begun = record {
  index = two_keys;
  cnt = λ v. pos 0;
  rec_of = λ v. v + 10;
  bytes = λ p. p;
  next = 20;
  freed = [];
  gc_container = [];
  starting_epoch = 3;
  tables = [];
}

abbrev idle : ℕ → ℤ
idle v = pos 0

begun-IsHeld : IsHeld idle begun
unfolding sum_of
begun-IsHeld = record { balance = λ v. refl; fresh = λ v h. (refl, refl, refl) }

allocated : (t k : ℕ) (o : Option ℕ) → find_entry t k two_keys ≡ o → IsAllocated begun o
unfolding get_table touch
allocated t k none e = tt
allocated t k (some v) e = ground arith

begun-IsUsable : IsUsable list_index begun
unfolding get_table touch
begun-IsUsable = record {
  inserts_missing = λ t k v e. insert_missing-some two_keys t k v e;
  finds_allocated = λ t k. allocated t k _ refl;
  next_allocated = λ t k nk nv e. ground arith;
}

-- The transaction writes key 5: value 1 is locked, and record 20 is a copy of record 11.
abbrev written : State (Tables ℕ)
written = (perform list_index (updates 0 5) begun).0

update_runs :
    ((perform list_index (updates 0 5) begun).1 ≡ 20)
    × (written.cnt 1 ≡ negsuc 0)
    × (written.bytes 20 ≡ 11)
unfolding perform get_table touch assign_entry
update_runs = (refl, refl, refl)

perform-IsHeld_example : IsHeld idle written
perform-IsHeld_example =
    perform-IsHeld list_index (updates 0 5) idle begun begun-IsHeld begun-IsUsable tt

written-IsHeld : IsHeld idle written
written-IsHeld = perform-IsHeld list_index (updates 0 5) idle begun begun-IsHeld begun-IsUsable tt

read_own_write_example :
    (read list_index 0 5 written).1 ≡ (perform list_index (updates 0 5) begun).1
unfolding perform get_table touch assign_entry
read_own_write_example = read_own_write list_index (updates 0 5) begun refl (λ e. omega arith)

perform-IsUntouched_example : IsUntouched begun written
perform-IsUntouched_example = perform-IsUntouched list_index (updates 0 5) begun

abort-count_example : (abort list_index written).cnt 1 ≡ pos 0
unfolding perform get_table touch assign_entry
abort-count_example = abort-count list_index idle written written-IsHeld 1 (((λ e. cc), tt), tt)

-- The transaction reads key 9 and then inserts key 7, whose next key is 9.
abbrev read_nine : State (Tables ℕ)
read_nine = (perform list_index (reads 0 9) begun).0

-- An index in which another transaction has just put the key.
abbrev lost_race : Index
lost_race = record list_index { insert = λ T t k v. none }

insert_leaks_next_lock_example :
    ((insert lost_race 0 7 begun).1 ≡ 0)
    × ((insert lost_race 0 7 begun).0.cnt 2 ≡ write_locked)
    × (find_entry 0 9 (insert lost_race 0 7 begun).0.tables ≡ none)
unfolding get_table touch
insert_leaks_next_lock_example =
    insert_leaks_next_lock lost_race idle 0 7 9 2 begun refl refl refl refl (omega arith) refl refl
