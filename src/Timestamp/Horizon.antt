-- ===== src/Timestamp/Horizon.antt =====
-- timestamp_manager.hpp: the counters that the manager publishes for garbage collection.
use mathlib.Core.Option.{some-injective}
use tpcc_runner.Base.{
  ℕ, zero, suc, ◌+◌, ◌-◌, ◌*◌, ◌^◌, ◌≤◌, ◌<◌, ◌≡◌, refl, sym, Option, none, some, List, [], ◌∷◌,
  arith, get_elem?, get_elem?-set, length, min, max,
}
use tpcc_runner.Timestamp.Defs.{
  u64_mod, Worker, Manager, get_ts, begin_tx, set_worker, Event, begins, retries, collects,
  on_worker, start_of, step, run, published, publish, get_gc_txn_cnt, set_gc_ts, get_smallest_ts,
  get_abort_boosted_ts, get_new_ts,
}
use tpcc_runner.Timestamp.Order.{Advanced, begin_tx-Advanced, get_abort_boosted_ts-Advanced}
use tpcc_runner.Timestamp.Unique.{IsReady, step-Stepped}

-- The pass finds a bound below every counter, and one above.
pub get_gc_txn_cnt_bounds :
    (ws : List (Option Worker)) (s l : ℕ)
    → ((get_gc_txn_cnt ws s l).0 ≤ s)
      × (l ≤ (get_gc_txn_cnt ws s l).1)
      × ((j : ℕ) (w : Worker)
          → get_elem? ws j ≡ some (some w)
          → ((get_gc_txn_cnt ws s l).0 ≤ w.txn_cnt) × (w.txn_cnt ≤ (get_gc_txn_cnt ws s l).1))
unfolding get_gc_txn_cnt
get_gc_txn_cnt_bounds [] s l = (omega arith, omega arith, λ j w e. cc)
get_gc_txn_cnt_bounds (none ∷ ws) s l =
    let (a, b, h) = get_gc_txn_cnt_bounds ws s l in (a, b, λ j w e. later h j w e)
  where
    later :
        ((j : ℕ) (w : Worker)
          → get_elem? ws j ≡ some (some w)
          → ((get_gc_txn_cnt ws s l).0 ≤ w.txn_cnt) × (w.txn_cnt ≤ (get_gc_txn_cnt ws s l).1))
        → (j : ℕ) (w : Worker) → get_elem? (none ∷ ws) j ≡ some (some w)
        → ((get_gc_txn_cnt ws s l).0 ≤ w.txn_cnt) × (w.txn_cnt ≤ (get_gc_txn_cnt ws s l).1)
    later h zero w e = absurd (ground arith)
    later h (suc j) w e = h j w e
get_gc_txn_cnt_bounds (some v ∷ ws) s l =
    let (a, b, h) = get_gc_txn_cnt_bounds ws (min v.txn_cnt s) (max v.txn_cnt l) in
    (omega (arith, a), omega (arith, b), λ j w e. here_or_later a b h j w e)
  where
    here_or_later :
        (get_gc_txn_cnt ws (min v.txn_cnt s) (max v.txn_cnt l)).0 ≤ min v.txn_cnt s
        → max v.txn_cnt l ≤ (get_gc_txn_cnt ws (min v.txn_cnt s) (max v.txn_cnt l)).1
        → ((j : ℕ) (w : Worker)
            → get_elem? ws j ≡ some (some w)
            → ((get_gc_txn_cnt ws (min v.txn_cnt s) (max v.txn_cnt l)).0 ≤ w.txn_cnt)
              × (w.txn_cnt ≤ (get_gc_txn_cnt ws (min v.txn_cnt s) (max v.txn_cnt l)).1))
        → (j : ℕ) (w : Worker) → get_elem? (some v ∷ ws) j ≡ some (some w)
        → ((get_gc_txn_cnt ws (min v.txn_cnt s) (max v.txn_cnt l)).0 ≤ w.txn_cnt)
          × (w.txn_cnt ≤ (get_gc_txn_cnt ws (min v.txn_cnt s) (max v.txn_cnt l)).1)
    here_or_later a b h zero w e = ground arith
    here_or_later a b h (suc j) w e = h j w e

-- Every published bound is behind every worker's counter, by so much.
pub record IsHeld (gap : ℕ) (m : Manager) : Type 0 where
  pub behind :
      (i j : ℕ) (u w : Worker)
      → get_elem? m.workers i ≡ some (some u)
      → get_elem? m.workers j ≡ some (some w)
      → (u.smallest_txn_cnt + gap ≤ w.txn_cnt) × (1 ≤ w.txn_cnt)

set_worker-IsHeld :
    (gap b : ℕ) (m : Manager) (i : ℕ) (w w' : Worker)
    → IsHeld gap m
    → get_elem? m.workers i ≡ some (some w)
    → Advanced m b w w'
    → IsHeld gap (set_worker m i w')
unfolding set_worker
set_worker-IsHeld gap b m i w w' v at a = record {
  behind = λ j k u x e f. ground (
    arith,
    a.forward,
    a.same_smallest,
    v.behind j k u x,
    v.behind i k w x,
    v.behind j i u w,
    v.behind i i w w,
    get_elem?-set m.workers i j (some w'),
    get_elem?-set m.workers i k (some w'),
  );
}

-- What stands in the list after the pass was there before it, with other bounds.
publish-from :
    (s l : ℕ) (ws : List (Option Worker)) (j : ℕ) (w : Worker)
    → get_elem? (publish s l ws) j ≡ some (some w)
    → (v : Worker) × (get_elem? ws j ≡ some (some v)) × (w ≡ published s l v)
unfolding publish
publish-from s l [] j w e = absurd (ground arith)
publish-from s l (none ∷ ws) zero w e = absurd (ground arith)
publish-from s l (some v ∷ ws) zero w e = (v, refl, sym (some-injective _ _ (some-injective _ _ e)))
publish-from s l (none ∷ ws) (suc j) w e = publish-from s l ws j w e
publish-from s l (some v ∷ ws) (suc j) w e = publish-from s l ws j w e

get_gc_txn_cnt-pos :
    (ws : List (Option Worker)) (s l : ℕ)
    → 1 ≤ s
    → ((j : ℕ) (w : Worker) → get_elem? ws j ≡ some (some w) → 1 ≤ w.txn_cnt)
    → 1 ≤ (get_gc_txn_cnt ws s l).0
unfolding get_gc_txn_cnt
get_gc_txn_cnt-pos [] s l h p = h
get_gc_txn_cnt-pos (none ∷ ws) s l h p = get_gc_txn_cnt-pos ws s l h (λ j. p (suc j))
get_gc_txn_cnt-pos (some v ∷ ws) s l h p =
    get_gc_txn_cnt-pos ws _ _ (omega (arith, h, p 0 v refl)) (λ j. p (suc j))

publish-IsHeld :
    (gap s l : ℕ) (m : Manager)
    → IsHeld gap m
    → ((j : ℕ) (w : Worker) → get_elem? m.workers j ≡ some (some w) → s ≤ w.txn_cnt)
    → 1 ≤ s
    → s < u64_mod
    → IsHeld 1 (record m { workers = publish s l m.workers })
unfolding published
publish-IsHeld gap s l m v low pos fits = record {
  behind = λ i j u w e f.
      go i j u w (publish-from s l m.workers i u e) (publish-from s l m.workers j w f);
}
  where
    go :
        (i j : ℕ) (u w : Worker)
        → ((x : Worker) × (get_elem? m.workers i ≡ some (some x)) × (u ≡ published s l x))
        → ((x : Worker) × (get_elem? m.workers j ≡ some (some x)) × (w ≡ published s l x))
        → (u.smallest_txn_cnt + 1 ≤ w.txn_cnt) × (1 ≤ w.txn_cnt)
    go i j u w (x, at_i, e) (y, at_j, f) = ground (arith, low j y at_j, v.behind j j y y at_j at_j)

-- A pass leaves every bound one behind the least counter.
set_gc_ts-IsHeld : (gap : ℕ) (m : Manager) → IsHeld gap m → IsHeld 1 (set_gc_ts m)
unfolding set_gc_ts
set_gc_ts-IsHeld gap m v =
    let found = get_gc_txn_cnt m.workers (u64_mod - 1) 0 in
    let (le, _, all) = get_gc_txn_cnt_bounds m.workers (u64_mod - 1) 0 in
    publish-IsHeld gap found.0 found.1 m v (λ j w at. (all j w at).0)
      (get_gc_txn_cnt-pos m.workers (u64_mod - 1) 0 (omega arith)
        (λ j w at. (v.behind j j w w at at).1))
      (omega (arith, le))

on_worker-IsHeld :
    (f : Manager → Worker → Worker × ℕ) (gap b : ℕ) (m : Manager) (i : ℕ)
    → IsReady b m
    → IsHeld gap m
    → ((w : Worker) → w.txn_cnt ≤ b → Advanced m b w (f m w).0)
    → (o : Option (Option Worker)) → get_elem? m.workers i ≡ o
    → IsHeld gap (on_worker f m i).0
unfolding on_worker
on_worker-IsHeld f gap b m i r v adv none at = rw (at, on_worker) v
on_worker-IsHeld f gap b m i r v adv (some none) at = rw (at, on_worker) v
on_worker-IsHeld f gap b m i r v adv (some (some w)) at =
    rw (at, on_worker)
      (set_worker-IsHeld gap b m i w (f m w).0 v at (adv w (omega (arith, r.placed i w at))))

step-IsHeld :
    (gap b : ℕ) (m : Manager) (e : Event)
    → gap ≤ 1
    → IsReady b m
    → b < 2 ^ 56
    → IsHeld gap m
    → IsHeld gap (step m e).0
unfolding step start_of
step-IsHeld gap b m (begins i) le r small v =
    on_worker-IsHeld (λ m w. start_of (begin_tx m w)) gap b m i r v
      (begin_tx-Advanced m b (λ j w at. (r.placed j w at).2) (omega arith)) (get_elem? m.workers i)
      refl
step-IsHeld gap b m (retries i) le r small v =
    on_worker-IsHeld get_abort_boosted_ts gap b m i r v
      (get_abort_boosted_ts-Advanced m b (λ j w at. (r.placed j w at).2) (omega arith))
      (get_elem? m.workers i) refl
step-IsHeld gap b m collects le r small v =
    let after = set_gc_ts-IsHeld gap m v in
    record {
      behind = λ i j u w e f. let (held, pos) = after.behind i j u w e f in (omega arith, pos);
    }

run-IsHeld :
    (es : List Event) (gap b : ℕ) (m : Manager)
    → gap ≤ 1
    → IsReady b m
    → b + 4 * length es < 2 ^ 56
    → IsHeld gap m
    → IsReady (b + 4 * length es) (run m es).0 × IsHeld gap (run m es).0
unfolding run
run-IsHeld [] gap b m le r h v = (record { placed = λ j w at. omega (arith, r.placed j w at) }, v)
run-IsHeld (e ∷ es) gap b m le r h v =
    let st = step-Stepped b m e r (omega arith) in
    let (r', v') =
      run-IsHeld es gap (b + 4) (step m e).0 le st.ready (omega arith)
        (step-IsHeld gap b m e le r (omega arith) v) in
    (record { placed = λ j w at. omega (arith, r'.placed j w at) }, v')

-- After every history of transactions and retries, a pass of the manager, and every history after
-- it: the collection bound that the next transaction of any worker receives is below the
-- timestamp of the next transaction of every worker, itself included. At first the workers stand
-- at their own numbers, with positive counters that no bound is above; the last condition says
-- that no counter reaches 2^56.
pub smallest_ts-lt-start_ts :
    (before after : List Event) (b : ℕ) (m : Manager)
    → IsReady b m
    → b + 4 * length before + 4 * length (collects ∷ after) < 2 ^ 56
    → IsHeld 0 m
    → (i j : ℕ) (u w : Worker)
    → let m' = (run (run m before).0 (collects ∷ after)).0 in
      get_elem? m'.workers i ≡ some (some u)
      → get_elem? m'.workers j ≡ some (some w)
      → (begin_tx m' u).1.smallest_ts < (begin_tx m' w).1.start_ts
unfolding begin_tx get_new_ts get_smallest_ts get_ts run step
smallest_ts-lt-start_ts before after b m r h v i j u w at_i at_j =
    let (ready, held) = run-IsHeld before 0 b m (omega arith) r (omega arith) v in
    let passed = set_gc_ts-IsHeld 0 (run m before).0 held in
    let st = step-Stepped (b + 4 * length before) (run m before).0 collects ready (omega arith) in
    let (ready', held') =
      run-IsHeld after 1 (b + 4 * length before + 4) (set_gc_ts (run m before).0) (omega arith)
        st.ready (omega arith) passed in
    omega (arith, ready'.placed i u at_i, ready'.placed j w at_j, held'.behind i j u w at_i at_j)
