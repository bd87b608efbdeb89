-- ===== src/Examples/Time.antt =====
-- Runs of the timestamp manager, the epoch manager and the collectors.
use tpcc_runner.Base.{
  ℕ, suc, zero, ◌+◌, ◌≤◌, ◌<◌, ◌^◌, ◌≡◌, refl, some, List, [], ◌∷◌, arith, get_elem?, All, leb,
  if◌then◌else◌,
}
use tpcc_runner.Base.Multimap.{occurrences, entries, emplace, until, beyond}
use tpcc_runner.Timestamp.Defs.{
  Manager, Worker, new_worker, get_ts, Event, begins, retries, collects, run, begin_tx, step,
  get_abort_boosted_ts, set_gc_ts, synchronize, catch_up, next_worker,
}
use tpcc_runner.Timestamp.Unique.{IsReady, AllDistinct, run-AllDistinct}
use tpcc_runner.Timestamp.Horizon.{IsHeld, smallest_ts-lt-start_ts}
use tpcc_runner.Timestamp.Collector
use tpcc_runner.Timestamp.Collector.{Collector, IsSorted, merged, remove-entries, remove-conserves}
use tpcc_runner.Epoch.Defs
use tpcc_runner.Epoch.Defs.{Epochs}
use tpcc_runner.Epoch.Advance.{IsClose, remove-after-grace}

-- Two workers that have just been set; each synchronises at every second transaction.
abbrev pair : Manager
pair = record { num_workers = 2; workers = some (new_worker 0 2) ∷ some (new_worker 1 2) ∷ [] }

pair-IsReady : IsReady 1 pair
unfolding new_worker
pair-IsReady = record { placed = placed }
  where
    placed :
        (j : ℕ) (w : Worker)
        → get_elem? pair.workers j ≡ some (some w)
        → (w.worker_id ≡ j) × (j < 2 ^ 8) × (w.txn_cnt ≤ 1)
    placed zero w e = ground arith
    placed (suc zero) w e = ground arith
    placed (suc (suc j)) w e = cc

pair-IsHeld : IsHeld 0 pair
unfolding new_worker
pair-IsHeld = record {
  behind = λ i j u w e f. (omega (arith, one i u e, one j w f), omega (arith, one j w f));
}
  where
    one :
        (i : ℕ) (u : Worker)
        → get_elem? pair.workers i ≡ some (some u)
        → (u.smallest_txn_cnt ≤ 1) × (u.txn_cnt ≡ 1)
    one zero u e = ground arith
    one (suc zero) u e = ground arith
    one (suc (suc i)) u e = cc

abbrev history : List Event
history = begins 0 ∷ begins 0 ∷ retries 0 ∷ begins 1 ∷ collects ∷ begins 1 ∷ []

-- Worker 0 issues 1, 2 and 3; worker 1 issues 1 and 2.
history_runs : (run pair history).1 ≡ 256 ∷ 512 ∷ 768 ∷ 257 ∷ 513 ∷ []
unfolding run new_worker step get_ts get_abort_boosted_ts set_gc_ts synchronize catch_up next_worker
history_runs = refl

run-AllDistinct_example : AllDistinct (run pair history).1
run-AllDistinct_example = run-AllDistinct history 1 pair pair-IsReady (omega arith)

-- Both workers have begun two transactions when the manager makes its pass.
abbrev both_twice : List Event
both_twice = begins 0 ∷ begins 0 ∷ begins 1 ∷ begins 1 ∷ []

abbrev after_pass : Manager
after_pass = (run (run pair both_twice).0 (collects ∷ begins 1 ∷ [])).0

abbrev waiting_worker : (id txn_cnt offset tx_counter : ℕ) → Worker
waiting_worker id c offset n = record {
  txn_cnt = c;
  smallest_txn_cnt = 2;
  largest_txn_cnt = 3;
  synchronize_cnt = 2;
  abort_cnt = 0;
  worker_id = id;
  next_worker_offset = offset;
  tx_counter = n;
}

after_pass_runs :
    after_pass.workers ≡ some (waiting_worker 0 3 1 3) ∷ some (waiting_worker 1 4 1 4) ∷ []
unfolding run new_worker step get_ts set_gc_ts synchronize catch_up next_worker
after_pass_runs = refl

smallest_ts-lt-start_ts_example :
    (begin_tx after_pass (waiting_worker 1 4 1 4)).1.smallest_ts
    < (begin_tx after_pass (waiting_worker 0 3 1 3)).1.start_ts
unfolding run new_worker step get_ts set_gc_ts synchronize catch_up next_worker
smallest_ts-lt-start_ts_example =
    smallest_ts-lt-start_ts both_twice (begins 1 ∷ []) 1 pair pair-IsReady (omega arith) pair-IsHeld
      1 0 (waiting_worker 1 4 1 4) (waiting_worker 0 3 1 3) refl refl

-- One value waits under key 4, two under 6 and 9 in the second map.
abbrev some_garbage : Collector
some_garbage = record { gc_map = (4, 100) ∷ []; temp_gc_map = (6, 101) ∷ (9, 102) ∷ [] }

remove-conserves_example :
    let (c', freed) = Collector.remove 7 8 some_garbage in
    occurrences 101 freed + occurrences 101 c'.gc_map + occurrences 101 c'.temp_gc_map
    ≡ occurrences 101 some_garbage.gc_map + occurrences 101 some_garbage.temp_gc_map
remove-conserves_example = remove-conserves 101 7 8 some_garbage

-- Under key 8 the main map has got what was under 6, and it frees what is up to 7.
remove_runs :
    ((Collector.remove 7 8 some_garbage).0.gc_map ≡ (8, 101) ∷ [])
    × ((Collector.remove 7 8 some_garbage).0.temp_gc_map ≡ (9, 102) ∷ [])
    × ((Collector.remove 7 8 some_garbage).1 ≡ (4, 100) ∷ [])
unfolding emplace until beyond Collector.remove
remove_runs = (refl, refl, refl)

remove-entries_example :
    let (c', freed) = Collector.remove 7 8 some_garbage in
    ((k p : ℕ) → entries k p freed ≡ (if leb k 7 then merged 8 k p some_garbage else 0))
    × ((k p : ℕ) → entries k p c'.gc_map ≡ (if leb k 7 then 0 else merged 8 k p some_garbage))
    × ((k p : ℕ)
        → entries k p c'.temp_gc_map
          ≡ (if leb k 8 then 0 else entries k p some_garbage.temp_gc_map))
    × IsSorted c'
remove-entries_example =
    remove-entries 7 8 some_garbage (record { main = omega arith; temp = omega arith })

-- Two workers in the epoch before the global one, and in it.
abbrev two_epochs : Epochs
two_epochs = record {
  global = 6;
  workers =
      some (record { worker_id = 0; tx_counter = 1; worker_epoch = 5 })
      ∷ some (record { worker_id = 1; tx_counter = 1; worker_epoch = 6 })
      ∷ [];
}

two_epochs-IsClose : IsClose two_epochs
two_epochs-IsClose = record { close = close }
  where
    close :
        (i : ℕ) (w : Defs.Worker)
        → get_elem? two_epochs.workers i ≡ some (some w)
        → (w.worker_epoch ≤ 6) × (6 ≤ w.worker_epoch + 1)
    close zero w e = ground arith
    close (suc zero) w e = ground arith
    close (suc (suc i)) w e = cc

abbrev epoch_history : List Defs.Event
epoch_history = Defs.ticks ∷ Defs.begins 0 ∷ Defs.ticks ∷ []

remove-after-grace_example :
    All (λ e. e.0 < 5) (Defs.remove 6 ((3, 100) ∷ (4, 101) ∷ (5, 102) ∷ [])).1
unfolding Defs.run
remove-after-grace_example =
    remove-after-grace [] two_epochs (omega arith) two_epochs-IsClose
      ((3, 100) ∷ (4, 101) ∷ (5, 102) ∷ []) 1 0
      (record { worker_id = 1; tx_counter = 1; worker_epoch = 6 })
      (record { worker_id = 0; tx_counter = 1; worker_epoch = 5 }) refl refl
