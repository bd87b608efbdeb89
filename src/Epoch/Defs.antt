-- ===== src/Epoch/Defs.antt =====
-- epoch_manager.hpp: `EpochManager`, `Worker` and `GarbageCollector`.
use tpcc_runner.Base.{
  ℕ, ◌+◌, ◌-◌, ◌%◌, ◌^◌, min, Bool, true, false, Option, none, some, List, [], ◌∷◌, leb, ◌==◌,
  if◌then◌else◌, get_elem?, set,
}
use tpcc_runner.Base.Multimap.{Multimap, emplace, until, beyond}

abbrev pub u32_mod : ℕ
u32_mod = 2 ^ 32

-- `worker_epoch` has no initialiser: its first value is whatever the caller gives.
pub record Worker : Type 0 where
  pub worker_id : ℕ
  pub tx_counter : ℕ  -- uint32_t, as the epoch
  pub worker_epoch : ℕ

-- The static `e` of `get_global_epoch`, and the manager's `workers`, null until `set_worker`.
pub record Epochs : Type 0 where
  pub global : ℕ
  pub workers : List (Option Worker)

unfoldable pub set_worker : ℕ → Worker → Epochs → Epochs
set_worker i w s = record s { workers = set s.workers i (some w) }

unfoldable pub smallest_from : ℕ → List (Option Worker) → ℕ
smallest_from smallest [] = smallest
smallest_from smallest (none ∷ ws) = smallest_from smallest ws
smallest_from smallest (some w ∷ ws) = smallest_from (min w.worker_epoch smallest) ws

unfoldable pub get_smallest_worker_epoch : Epochs → ℕ
unfolding smallest_from
get_smallest_worker_epoch s = smallest_from 0xFFFFFFFF s.workers

unfoldable pub increment_epoch : Epochs → Epochs × Bool
unfolding get_smallest_worker_epoch
increment_epoch s =
    if s.global == get_smallest_worker_epoch s
    then (record s { global = (s.global + 1) % u32_mod }, true)
    else (s, false)

-- The new worker, the two halves of the `TxID`, and the epoch of the transaction.
unfoldable pub begin_tx : (global : ℕ) → Worker → Worker × (ℕ × ℕ) × ℕ
begin_tx global w = (
  record w { tx_counter = (w.tx_counter + 1) % u32_mod; worker_epoch = global },
  (w.worker_id, w.tx_counter),
  global,
)

-- `GarbageCollector::collect`, on the container of one thread.
unfoldable pub collect : (current_epoch ptr : ℕ) → Multimap → Multimap
collect current_epoch ptr gc_container = emplace current_epoch ptr gc_container

-- `GarbageCollector::remove`: what stays, and what is freed.
unfoldable pub remove : (current_epoch : ℕ) → Multimap → Multimap × Multimap
remove current_epoch gc_container =
    if leb 2 current_epoch
    then (beyond (current_epoch - 2) gc_container, until (current_epoch - 2) gc_container)
    else (gc_container, [])

-- Steps of the threads: the manager tries to advance, or a worker begins a transaction.
pub data Event : Type 0 where
  ticks : Event
  begins : ℕ → Event

unfoldable pub begins_at : Epochs → ℕ → Epochs
unfolding begin_tx
begins_at s i = elim (get_elem? s.workers i) [
  | some (some w) ↦ record s { workers = set s.workers i (some (begin_tx s.global w).0) }
  | _ ↦ s
]

unfoldable pub step : Epochs → Event → Epochs
unfolding increment_epoch begins_at
step s ticks = (increment_epoch s).0
step s (begins i) = begins_at s i

unfoldable pub run : Epochs → List Event → Epochs
unfolding step
run s [] = s
run s (e ∷ es) = run (step s e) es
