-- ===== src/Timestamp/Defs.antt =====
-- timestamp_manager.hpp: `TimeStampManager` and `Worker`.
use tpcc_runner.Base.{
  ℕ, ◌+◌, ◌-◌, ◌*◌, ◌%◌, ◌^◌, min, max, Option, none, some, List, [], ◌∷◌, ltb, ◌==◌, if◌then◌else◌,
  get_elem?, set,
}

abbrev pub u8_mod : ℕ
u8_mod = 2 ^ 8

abbrev pub u32_mod : ℕ
u32_mod = 2 ^ 32

abbrev pub u64_mod : ℕ
u64_mod = 2 ^ 64

pub record Worker : Type 0 where
  pub txn_cnt : ℕ  -- uint64_t, as the next four
  pub smallest_txn_cnt : ℕ
  pub largest_txn_cnt : ℕ
  pub synchronize_cnt : ℕ
  pub abort_cnt : ℕ
  pub worker_id : ℕ  -- uint8_t
  pub next_worker_offset : ℕ  -- uint8_t
  pub tx_counter : ℕ  -- uint32_t

-- The constructor and the member initialisers.
unfoldable pub new_worker : (worker_id synchronize_cnt : ℕ) → Worker
new_worker worker_id synchronize_cnt = record {
  txn_cnt = 1;
  smallest_txn_cnt = 1;
  largest_txn_cnt = 1;
  synchronize_cnt = synchronize_cnt;
  abort_cnt = 0;
  worker_id = worker_id % u8_mod;
  next_worker_offset = 0;
  tx_counter = 1;
}

-- `workers` has `num_workers` places; a place is a null pointer until `set_worker`.
pub record Manager : Type 0 where
  pub num_workers : ℕ
  pub workers : List (Option Worker)

unfoldable pub set_worker : Manager → ℕ → Worker → Manager
set_worker m i w = record m { workers = set m.workers i (some w) }

-- `cnt << 8 | worker_id`. The low eight bits of the shifted counter are 0, so the `|` is a sum.
unfoldable pub get_ts : (worker_id cnt : ℕ) → ℕ
get_ts worker_id cnt = (cnt * 2 ^ 8) % u64_mod + worker_id

unfoldable pub get_smallest_ts : Worker → ℕ
get_smallest_ts w = get_ts w.worker_id w.smallest_txn_cnt

unfoldable pub get_largest_ts : Worker → ℕ
get_largest_ts w = get_ts w.worker_id w.largest_txn_cnt

-- The worker that `synchronize` looks at, if there is one.
unfoldable pub next_worker : Manager → (worker_id next_worker_offset : ℕ) → Option Worker
next_worker m worker_id next_worker_offset =
    let max_worker_id = m.num_workers - 1 in
    let offset = next_worker_offset % max_worker_id + 1 in
    if max_worker_id == 0
    then none
    else (elim (get_elem? m.workers ((worker_id + offset) % m.num_workers)) [
      | some w ↦ w
      | none ↦ none
    ])

-- A worker that is behind the next one catches up with its counter.
unfoldable pub catch_up : Option Worker → ℕ → ℕ
catch_up none txn_cnt = txn_cnt
catch_up (some next) txn_cnt = if ltb txn_cnt next.txn_cnt then next.txn_cnt else txn_cnt

unfoldable pub synchronize : Manager → Worker → Worker
synchronize m w = record w {
  txn_cnt = catch_up (next_worker m w.worker_id w.next_worker_offset) w.txn_cnt;
  next_worker_offset = (w.next_worker_offset + 1) % u8_mod;
}

-- `fetch_add(txn_cnt, k)`, then the synchronisation that falls due at the old counter.
unfoldable pub advance : Manager → ℕ → Worker → Worker
advance m k w =
    let added = record w { txn_cnt = (w.txn_cnt + k) % u64_mod } in
    if w.txn_cnt % w.synchronize_cnt == 0 then synchronize m added else added

unfoldable pub get_new_ts : Manager → Worker → Worker × ℕ
unfolding advance
get_new_ts m w = (advance m 1 (record w { abort_cnt = 0 }), get_ts w.worker_id w.txn_cnt)

unfoldable pub get_abort_boosted_ts : Manager → Worker → Worker × ℕ
unfolding advance
get_abort_boosted_ts m w =
    let aborts = (w.abort_cnt + 1) % u64_mod in
    (advance m (2 ^ min aborts 2) (record w { abort_cnt = aborts }), get_ts w.worker_id w.txn_cnt)

-- What `begin_tx` gives the protocol: the two halves of the `TxID`, then the three timestamps.
pub record Begun : Type 0 where
  pub thread_id : ℕ
  pub counter : ℕ
  pub start_ts : ℕ
  pub smallest_ts : ℕ
  pub largest_ts : ℕ

unfoldable pub begin_tx : Manager → Worker → Worker × Begun
unfolding get_new_ts
begin_tx m w =
    let (w', ts) = get_new_ts m (record w { tx_counter = (w.tx_counter + 1) % u32_mod }) in
    (
      w',
      record {
        thread_id = w.worker_id;
        counter = w.tx_counter;
        start_ts = ts;
        smallest_ts = get_smallest_ts w;
        largest_ts = get_largest_ts w;
      },
    )

-- The least and greatest counter of the workers that are set.
unfoldable pub get_gc_txn_cnt : List (Option Worker) → (smallest largest : ℕ) → ℕ × ℕ
get_gc_txn_cnt [] smallest largest = (smallest, largest)
get_gc_txn_cnt (none ∷ ws) smallest largest = get_gc_txn_cnt ws smallest largest
get_gc_txn_cnt (some w ∷ ws) smallest largest =
    get_gc_txn_cnt ws (min w.txn_cnt smallest) (max w.txn_cnt largest)

-- The bounds that the pass leaves in a worker.
unfoldable pub published : (smallest largest : ℕ) → Worker → Worker
published smallest largest w = record w {
  smallest_txn_cnt = (smallest + u64_mod - 1) % u64_mod;
  largest_txn_cnt = largest;
}

unfoldable pub publish : (smallest largest : ℕ) → List (Option Worker) → List (Option Worker)
unfolding published
publish smallest largest [] = []
publish smallest largest (none ∷ ws) = none ∷ publish smallest largest ws
publish smallest largest (some w ∷ ws) =
    some (published smallest largest w) ∷ publish smallest largest ws

unfoldable pub set_gc_ts : Manager → Manager
unfolding get_gc_txn_cnt publish
set_gc_ts m =
    let (smallest, largest) = get_gc_txn_cnt m.workers (u64_mod - 1) 0 in
    record m { workers = publish smallest largest m.workers }

-- What happens to the workers: a transaction begins or is started anew after an abort, in the
-- worker with the given number, or the manager makes its pass.
pub data Event : Type 0 where
  begins retries : ℕ → Event
  collects : Event

-- A call of worker i, with the timestamp that it hands out.
unfoldable pub on_worker : (Manager → Worker → Worker × ℕ) → Manager → ℕ → Manager × Option ℕ
unfolding set_worker
on_worker f m i = elim (get_elem? m.workers i) [
  | some (some w) ↦ let (w', ts) = f m w in (set_worker m i w', some ts)
  | _ ↦ (m, none)
]

unfoldable pub start_of : Worker × Begun → Worker × ℕ
start_of (w, b) = (w, b.start_ts)

unfoldable pub step : Manager → Event → Manager × Option ℕ
unfolding on_worker begin_tx start_of
step m (begins i) = on_worker (λ m w. start_of (begin_tx m w)) m i
step m (retries i) = on_worker get_abort_boosted_ts m i
step m collects = (set_gc_ts m, none)

unfoldable pub handed_out : Option ℕ → List ℕ → List ℕ
handed_out none later = later
handed_out (some ts) later = ts ∷ later

-- A history, with all timestamps that it hands out in order.
unfoldable pub run : Manager → List Event → Manager × List ℕ
unfolding handed_out
run m [] = (m, [])
run m (e ∷ es) =
    let (m', issued) = step m e in let (m'', later) = run m' es in (m'', handed_out issued later)
