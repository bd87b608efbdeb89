-- ===== src/Timestamp/Order.antt =====
-- timestamp_manager.hpp: the order of timestamps, and how a call moves its worker's counter.
use tpcc_runner.Base.{
  ℕ, zero, suc, ◌+◌, ◌*◌, ◌%◌, ◌^◌, ◌≤◌, ◌<◌, min, ◌≡◌, ◌⊎◌, ◌↔◌, Option, some, none, arith, refl,
  dec_lt, ◌-◌, get_elem?, inl, inr,
}
use tpcc_runner.Timestamp.Defs.{
  u32_mod, u64_mod, Worker, Manager, get_ts, catch_up, synchronize, next_worker, advance,
  get_new_ts, get_abort_boosted_ts, begin_tx,
}

-- Below 2^56 the counter is not cut off.
pub get_ts_parts : (id cnt : ℕ) → id < 2 ^ 8 → cnt < 2 ^ 56 → get_ts id cnt ≡ cnt * 256 + id
unfolding get_ts
get_ts_parts id cnt h k = omega arith

-- Timestamps order transactions by counter first and by worker second: no two calls agree unless
-- both do.
get_ts-lt_iff :
    (i j c d : ℕ)
    → i < 2 ^ 8
    → j < 2 ^ 8
    → c < 2 ^ 56
    → d < 2 ^ 56
    → (get_ts i c < get_ts j d) ↔ ((c < d) ⊎ ((c ≡ d) × (i < j)))
unfolding get_ts
get_ts-lt_iff i j c d a b p q = (
  (λ h. elim (dec_lt c d) [ yes below ↦ inl below | no above ↦ inr (omega arith, omega arith) ]),
  (λ h. omega arith),
)

-- A synchronisation only moves a counter forward, up to the counter of the worker it looks at.
pub catch_up_bounds :
    (next : Option Worker) (c b : ℕ)
    → ((w : Worker) → next ≡ some w → w.txn_cnt ≤ b)
    → c ≤ b
    → (c ≤ catch_up next c) × (catch_up next c ≤ b)
unfolding catch_up
catch_up_bounds none c b h k = omega arith
catch_up_bounds (some w) c b h k = ground (arith, h w refl)

pub next_worker-In :
    (m : Manager) (i k : ℕ) (w : Worker)
    → next_worker m i k ≡ some w
    → (j : ℕ) × (get_elem? m.workers j ≡ some (some w))
unfolding next_worker
next_worker-In m i k w h = ((i + (k % (m.num_workers - 1) + 1)) % m.num_workers, ground arith)

-- What a call of worker w leaves, when every counter is at most b and nothing overflows.
pub record Advanced (m : Manager) (b : ℕ) (w w' : Worker) : Type 0 where
  pub forward : w.txn_cnt < w'.txn_cnt
  pub bounded : w'.txn_cnt ≤ b + 4
  pub same_id : w'.worker_id ≡ w.worker_id
  pub same_smallest : w'.smallest_txn_cnt ≡ w.smallest_txn_cnt

abbrev pub IsBelow : ℕ → Manager → Type 0
IsBelow b m = (j : ℕ) (w : Worker) → get_elem? m.workers j ≡ some (some w) → w.txn_cnt ≤ b

-- The boost after aborts is 2 or 4.
boost_bounds : (k : ℕ) → k ≤ 2 → (0 < 2 ^ k) × (2 ^ k ≤ 4)
boost_bounds zero h = omega arith
boost_bounds (suc zero) h = omega arith
boost_bounds (suc (suc zero)) h = omega arith
boost_bounds (suc (suc (suc k))) h = absurd (omega arith)

-- The fields that the calls set first do not matter.
Advanced-from :
    {m : Manager} {b : ℕ} (w v : Worker) {w' : Worker}
    → v.txn_cnt ≡ w.txn_cnt
    → v.worker_id ≡ w.worker_id
    → v.smallest_txn_cnt ≡ w.smallest_txn_cnt
    → Advanced m b v w'
    → Advanced m b w w'
Advanced-from w v e f g a = ground arith

module _ (m : Manager) (b : ℕ) (below : IsBelow b m) (room : b + 4 < u64_mod) where
  next_worker-le : (i k : ℕ) (w : Worker) → next_worker m i k ≡ some w → w.txn_cnt ≤ b
  next_worker-le i k w e = let (j, at) = next_worker-In m i k w e in below j w at

  advance-Advanced :
      (k : ℕ) (w : Worker) → 0 < k → k ≤ 4 → w.txn_cnt ≤ b → Advanced m b w (advance m k w)
  unfolding advance synchronize
  advance-Advanced k w pos small le =
      let (up, fits) =
        catch_up_bounds (next_worker m w.worker_id w.next_worker_offset) ((w.txn_cnt + k) % u64_mod)
          (b + 4) (λ v e. omega (arith, next_worker-le w.worker_id w.next_worker_offset v e))
          (omega arith) in
      ground arith

  pub get_new_ts-Advanced : (w : Worker) → w.txn_cnt ≤ b → Advanced m b w (get_new_ts m w).0
  unfolding get_new_ts
  get_new_ts-Advanced w le =
      Advanced-from w (record w { abort_cnt = 0 }) refl refl refl
        (advance-Advanced 1 (record w { abort_cnt = 0 }) (omega arith) (omega arith) le)

  pub get_abort_boosted_ts-Advanced :
      (w : Worker) → w.txn_cnt ≤ b → Advanced m b w (get_abort_boosted_ts m w).0
  unfolding get_abort_boosted_ts
  get_abort_boosted_ts-Advanced w le =
      let aborts = (w.abort_cnt + 1) % u64_mod in
      let (pos, small) = boost_bounds (min aborts 2) (omega arith) in
      Advanced-from w (record w { abort_cnt = aborts }) refl refl refl
        (advance-Advanced (2 ^ min aborts 2) (record w { abort_cnt = aborts }) pos small le)

  pub begin_tx-Advanced : (w : Worker) → w.txn_cnt ≤ b → Advanced m b w (begin_tx m w).0
  unfolding begin_tx
  begin_tx-Advanced w le =
      let counted = record w { tx_counter = (w.tx_counter + 1) % u32_mod } in
      Advanced-from w counted refl refl refl (get_new_ts-Advanced counted le)
