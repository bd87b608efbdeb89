-- ===== src/Epoch/Advance.antt =====
-- epoch_manager.hpp: how far apart the epochs of the workers are, and what `remove` frees.
use tpcc_runner.Base.{
  ℕ, zero, suc, ◌+◌, ◌≤◌, ◌<◌, ◌≡◌, refl, Option, none, some, List, [], ◌∷◌, arith, get_elem?,
  length, get_elem?-set, All, All-map, leb→le, ◌-◌, min, inl, inr, Bool-cases, leb,
}
use tpcc_runner.Base.Multimap.{Multimap, until, All-until}
use tpcc_runner.Epoch.Defs.{
  u32_mod, Worker, Epochs, smallest_from, get_smallest_worker_epoch, increment_epoch, begin_tx,
  remove, Event, ticks, begins, begins_at, step, run,
}

-- Every worker's epoch is the global one or the one before.
pub record IsClose (s : Epochs) : Type 0 where
  pub close :
      (i : ℕ) (w : Worker)
      → get_elem? s.workers i ≡ some (some w)
      → (w.worker_epoch ≤ s.global) × (s.global ≤ w.worker_epoch + 1)

smallest_from-le : (ws : List (Option Worker)) (s : ℕ) → smallest_from s ws ≤ s
unfolding smallest_from
smallest_from-le [] s = omega arith
smallest_from-le (none ∷ ws) s = smallest_from-le ws s
smallest_from-le (some v ∷ ws) s = omega (arith, smallest_from-le ws (min v.worker_epoch s))

smallest_from-le_worker :
    (ws : List (Option Worker)) (s i : ℕ) (w : Worker)
    → get_elem? ws i ≡ some (some w)
    → smallest_from s ws ≤ w.worker_epoch
unfolding smallest_from
smallest_from-le_worker [] s i w e = absurd (ground arith)
smallest_from-le_worker (none ∷ ws) s zero w e = absurd (ground arith)
smallest_from-le_worker (none ∷ ws) s (suc i) w e = smallest_from-le_worker ws s i w e
smallest_from-le_worker (some v ∷ ws) s zero w e =
    ground (arith, smallest_from-le ws (min v.worker_epoch s))
smallest_from-le_worker (some v ∷ ws) s (suc i) w e = smallest_from-le_worker ws _ i w e

increment_epoch-IsClose :
    (s : Epochs) → s.global + 1 < u32_mod → IsClose s → IsClose (increment_epoch s).0
unfolding increment_epoch get_smallest_worker_epoch
increment_epoch-IsClose s room v = record {
  close = λ i w at. ground (arith, v.close i w, smallest_from-le_worker s.workers 0xFFFFFFFF i w);
}

begins_at-IsClose :
    (s : Epochs) (i : ℕ) (o : Option (Option Worker))
    → get_elem? s.workers i ≡ o
    → IsClose s
    → IsClose (begins_at s i)
unfolding begins_at begin_tx
begins_at-IsClose s i none e v = rw (e, begins_at) v
begins_at-IsClose s i (some none) e v = rw (e, begins_at) v
begins_at-IsClose s i (some (some u)) e v =
    rw (e, begins_at)
      record {
        close = λ j w at.
            ground (arith, v.close j w, get_elem?-set s.workers i j (some (begin_tx s.global u).0));
      }

step-IsClose : (s : Epochs) (e : Event) → s.global + 1 < u32_mod → IsClose s → IsClose (step s e)
unfolding step
step-IsClose s ticks room v = increment_epoch-IsClose s room v
step-IsClose s (begins i) room v = begins_at-IsClose s i (get_elem? s.workers i) refl v

step-global : (s : Epochs) (e : Event) → s.global + 1 < u32_mod → (step s e).global ≤ s.global + 1
unfolding step increment_epoch begins_at
step-global s ticks room = ground arith
step-global s (begins i) room = ground arith

-- In every history of epoch advances and transaction starts, from workers whose epoch is the
-- global one or the one before, no worker falls more than one epoch behind or runs ahead. The
-- bound says that the 32-bit epoch does not wrap.
run-IsClose :
    (es : List Event) (s : Epochs)
    → s.global + length es + 1 < u32_mod
    → IsClose s
    → IsClose (run s es)
unfolding run
run-IsClose [] s room v = v
run-IsClose (e ∷ es) s room v =
    run-IsClose es (step s e) (omega (arith, step-global s e (omega arith)))
      (step-IsClose s e (omega arith) v)

remove-below : (c : ℕ) (gc : Multimap) → All (λ e. e.0 + 2 ≤ c) (remove c gc).1
unfolding remove
remove-below c gc = elim (Bool-cases (leb 2 c)) [
  | inl h ↦ rw h (
      All-map (λ e. e.0 ≤ c - 2) (λ e. e.0 + 2 ≤ c) (λ e le. omega (arith, leb→le 2 c h))
        (until (c - 2) gc) (All-until (c - 2) gc))
  | inr h ↦ rw h tt
]

-- After every such history: what a worker frees at the end of its transaction was collected in an
-- epoch before that of the latest transaction of every worker.
pub remove-after-grace :
    (es : List Event) (s : Epochs)
    → s.global + length es + 1 < u32_mod
    → IsClose s
    → (gc : Multimap) (i j : ℕ) (u w : Worker) → get_elem? (run s es).workers i ≡ some (some u)
    → get_elem? (run s es).workers j ≡ some (some w)
    → All (λ e. e.0 < w.worker_epoch) (remove u.worker_epoch gc).1
remove-after-grace es s room v gc i j u w at_i at_j =
    let c = run-IsClose es s room v in
    let (le, _) = c.close i u at_i in
    let (_, near) = c.close j w at_j in
    All-map (λ e. e.0 + 2 ≤ u.worker_epoch) (λ e. e.0 < w.worker_epoch) (λ e h. omega arith)
      (remove u.worker_epoch gc).1 (remove-below u.worker_epoch gc)
