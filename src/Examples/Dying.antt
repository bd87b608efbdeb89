-- ===== src/Examples/Dying.antt =====
-- Runs of a WaitDie transaction over a small index: table 0 has key 5 and key 9.
use tpcc_runner.Base.{ℕ, ◌+◌, ◌≡◌, refl, [], ◌∷◌, arith}
use tpcc_runner.Base.Tables.{Tables, get_table, touch, assign_entry}
use tpcc_runner.Waitdie.Lock.{unlocked, try_lock}
use tpcc_runner.Waitdie.Store.{State, pointer}
use tpcc_runner.Waitdie.Access.{read}
use tpcc_runner.Waitdie.Own.{updates, perform, read_after_write}
use tpcc_runner.Examples.ListIndex.{list_index}

-- No lock is taken; the records of values 1 and 2 are 11 and 12.
abbrev begun : State (Tables ℕ)
begun = record {
  index = (0, (5, 1) ∷ (9, 2) ∷ []) ∷ [];
  wdl = λ v. unlocked;
  rec_of = λ v. v + 10;
  bytes = λ p. p;
  next = 20;
  freed = [];
  woken = [];
  collector = record { gc_map = []; temp_gc_map = [] };
  start_ts = 7;
  smallest_ts = 3;
  largest_ts = 9;
  tables = [];
}

abbrev undisturbed : State (Tables ℕ) → State (Tables ℕ)
undisturbed s = s

update_runs : (perform list_index undisturbed 0 5 updates begun).1 ≡ pointer 20
unfolding perform get_table touch assign_entry try_lock
update_runs = refl

read_after_write_example :
    (read list_index undisturbed 0 5 (perform list_index undisturbed 0 5 updates begun).0).1
    ≡ pointer 20
read_after_write_example =
    read_after_write list_index undisturbed 0 5 updates begun 20 update_runs (λ e. omega arith)
