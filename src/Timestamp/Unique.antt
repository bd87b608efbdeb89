-- ===== src/Timestamp/Unique.antt =====
-- timestamp_manager.hpp: the timestamps that a history of the workers hands out.
use mathlib.Core.Option
use mathlib.Core.Option.{some-injective}
use tpcc_runner.Base.{
  ℕ, zero, suc, ◌+◌, ◌*◌, ◌%◌, ◌^◌, ◌≤◌, ◌<◌, ◌≡◌, ◌≢◌, refl, Option, none, some, List, [], ◌∷◌,
  All, arith, get_elem?, set, get_elem?-set, length, subst, sym, ◌-◌, ap, ◌∙◌, ◌==◌, if◌then◌else◌,
}
use tpcc_runner.Timestamp.Defs.{
  u64_mod, Worker, Manager, get_ts, get_abort_boosted_ts, begin_tx, set_worker, Event, begins,
  retries, collects, on_worker, start_of, handed_out, step, run, published, publish, get_gc_txn_cnt,
  set_gc_ts,
}
use tpcc_runner.Timestamp.Order.{
  Advanced, get_ts_parts, begin_tx-Advanced, get_abort_boosted_ts-Advanced,
}

abbrev pub counter : Option (Option Worker) → ℕ
counter (some (some w)) = w.txn_cnt
counter _ = 0

abbrev pub count_of : Manager → ℕ → ℕ
count_of m j = counter (get_elem? m.workers j)

-- Each worker stands at its own number, of eight bits, and no counter is above b.
pub record IsReady (b : ℕ) (m : Manager) : Type 0 where
  pub placed :
      (j : ℕ) (w : Worker)
      → get_elem? m.workers j ≡ some (some w)
      → (w.worker_id ≡ j) × (j < 2 ^ 8) × (w.txn_cnt ≤ b)

-- A timestamp made from the counter of its worker in m, which has moved on in m'.
abbrev pub IsIssued : Manager → Manager → ℕ → Type 0
IsIssued m m' ts =
    (ts ≡ count_of m (ts % 256) * 256 + ts % 256) × (count_of m (ts % 256) < count_of m' (ts % 256))

pub record Stepped (b : ℕ) (m : Manager) (r : Manager × Option ℕ) : Type 0 where
  pub ready : IsReady (b + 4) r.0
  pub grows : (j : ℕ) → count_of m j ≤ count_of r.0 j
  pub issued : (ts : ℕ) → r.1 ≡ some ts → IsIssued m r.0 ts

pub set_worker-IsReady :
    (b : ℕ) (m : Manager) (i : ℕ) (w w' : Worker)
    → IsReady b m
    → get_elem? m.workers i ≡ some (some w)
    → Advanced m b w w'
    → IsReady (b + 4) (set_worker m i w')
unfolding set_worker
set_worker-IsReady b m i w w' v at a = record {
  placed = λ j u e. go j u e (get_elem?-set m.workers i j (some w'));
}
  where
    go :
        (j : ℕ) (u : Worker)
        → get_elem? (set m.workers i (some w')) j ≡ some (some u)
        → get_elem? (set m.workers i (some w')) j ≡ (
            if i == j
            then Option.map (λ _. some w') (get_elem? m.workers j)
            else get_elem? m.workers j)
        → (u.worker_id ≡ j) × (j < 2 ^ 8) × (u.txn_cnt ≤ b + 4)
    go j u e law = ground (arith, v.placed i w at, v.placed j u, a.bounded, a.same_id)

counts-set :
    (b : ℕ) (m : Manager) (i : ℕ) (w w' : Worker)
    → get_elem? m.workers i ≡ some (some w)
    → w.txn_cnt < w'.txn_cnt
    → (j : ℕ) → count_of m j ≤ count_of (set_worker m i w') j
unfolding set_worker
counts-set b m i w w' at h j = ground (arith, get_elem?-set m.workers i j (some w'))

count_of-set_worker :
    (m : Manager) (i : ℕ) (w w' : Worker)
    → get_elem? m.workers i ≡ some (some w)
    → count_of (set_worker m i w') i ≡ w'.txn_cnt
unfolding set_worker
count_of-set_worker m i w w' at = ground (arith, get_elem?-set m.workers i i (some w'))

pub unmoved-Stepped : (b : ℕ) (m : Manager) → IsReady b m → Stepped b m (m, none)
unmoved-Stepped b m v = record {
  ready = record { placed = λ j w e. omega (arith, v.placed j w e) };
  grows = λ j. omega arith;
  issued = λ ts e. cc;
}

moved-Stepped :
    (b : ℕ) (m : Manager) (i ts : ℕ) (w w' : Worker)
    → IsReady b m
    → b < 2 ^ 56
    → get_elem? m.workers i ≡ some (some w)
    → Advanced m b w w'
    → ts ≡ get_ts w.worker_id w.txn_cnt
    → Stepped b m (set_worker m i w', some ts)
moved-Stepped b m i ts w w' v small at a stamp = record {
  ready = set_worker-IsReady b m i w w' v at a;
  grows = counts-set b m i w w' at a.forward;
  issued = λ x e.
      subst (IsIssued m (set_worker m i w')) (some-injective _ _ e) (issued_at (ts % 256) slot);
}
  where
    slot : ts % 256 ≡ i
    slot = omega (
      arith,
      stamp,
      v.placed i w at,
      get_ts_parts w.worker_id w.txn_cnt (omega (arith, v.placed i w at))
          (omega (arith, v.placed i w at)),
    )

    issued_here :
        get_elem? m.workers i ≡ some (some w)
        → (ts ≡ count_of m i * 256 + i) × (count_of m i < count_of (set_worker m i w') i)
    issued_here at = (
      omega (
        arith,
        ap counter at,
        stamp,
        v.placed i w at,
        get_ts_parts w.worker_id w.txn_cnt (omega (arith, v.placed i w at))
            (omega (arith, v.placed i w at)),
      ),
      omega (arith, ap counter at, a.forward, count_of-set_worker m i w w' at),
    )

    issued_at :
        (k : ℕ)
        → k ≡ i
        → (ts ≡ count_of m k * 256 + k) × (count_of m k < count_of (set_worker m i w') k)
    issued_at k e =
        subst
          (λ (k : ℕ).
            (ts ≡ count_of m k * 256 + k) × (count_of m k < count_of (set_worker m i w') k))
          (sym e) (issued_here at)

on_worker-Stepped :
    (f : Manager → Worker → Worker × ℕ) (b : ℕ) (m : Manager) (i : ℕ)
    → IsReady b m
    → b < 2 ^ 56
    → ((w : Worker) → w.txn_cnt ≤ b → Advanced m b w (f m w).0)
    → ((w : Worker) → (f m w).1 ≡ get_ts w.worker_id w.txn_cnt)
    → (o : Option (Option Worker)) → get_elem? m.workers i ≡ o
    → Stepped b m (on_worker f m i)
unfolding on_worker
on_worker-Stepped f b m i v small adv stamp none at = rw (at, on_worker) (unmoved-Stepped b m v)
on_worker-Stepped f b m i v small adv stamp (some none) at =
    rw (at, on_worker) (unmoved-Stepped b m v)
on_worker-Stepped f b m i v small adv stamp (some (some w)) at =
    rw (at, on_worker)
      (moved-Stepped b m i (f m w).1 w (f m w).0 v small at (adv w (omega (arith, v.placed i w at)))
        (stamp w))

pub get_elem?-publish :
    (s l : ℕ) (ws : List (Option Worker)) (j : ℕ)
    → get_elem? (publish s l ws) j ≡ Option.map (Option.map (published s l)) (get_elem? ws j)
unfolding publish
get_elem?-publish s l [] j = refl
get_elem?-publish s l (none ∷ ws) zero = refl
get_elem?-publish s l (some w ∷ ws) zero = refl
get_elem?-publish s l (none ∷ ws) (suc j) = get_elem?-publish s l ws j
get_elem?-publish s l (some w ∷ ws) (suc j) = get_elem?-publish s l ws j

publish-placed :
    (s l b : ℕ) (m : Manager) (j : ℕ) (w : Worker)
    → IsReady b m
    → (o : Option (Option Worker)) → get_elem? m.workers j ≡ o
    → Option.map (Option.map (published s l)) o ≡ some (some w)
    → (w.worker_id ≡ j) × (j < 2 ^ 8) × (w.txn_cnt ≤ b + 4)
unfolding published
publish-placed s l b m j w v none at e = absurd (ground arith)
publish-placed s l b m j w v (some none) at e = absurd (ground arith)
publish-placed s l b m j w v (some (some u)) at e = ground (arith, v.placed j u at)

pub publish-counter :
    (s l : ℕ) (o : Option (Option Worker))
    → counter (Option.map (Option.map (published s l)) o) ≡ counter o
unfolding published
publish-counter s l none = refl
publish-counter s l (some none) = refl
publish-counter s l (some (some w)) = refl

-- The manager's pass leaves every counter as it was.
pub count_of-set_gc_ts : (m : Manager) (j : ℕ) → count_of (set_gc_ts m) j ≡ count_of m j
unfolding set_gc_ts
count_of-set_gc_ts m j =
    let (s, l) = get_gc_txn_cnt m.workers (u64_mod - 1) 0 in
    ap counter (get_elem?-publish s l m.workers j) ∙ publish-counter s l (get_elem? m.workers j)

set_gc_ts-Stepped : (b : ℕ) (m : Manager) → IsReady b m → Stepped b m (set_gc_ts m, none)
unfolding set_gc_ts
set_gc_ts-Stepped b m v =
    let (s, l) = get_gc_txn_cnt m.workers (u64_mod - 1) 0 in
    record {
      ready = record {
        placed = λ j w e.
            publish-placed s l b m j w v (get_elem? m.workers j) refl
              (sym (get_elem?-publish s l m.workers j) ∙ e);
      };
      grows = λ j. omega (arith, count_of-set_gc_ts m j);
      issued = λ ts e. cc;
    }

pub step-Stepped :
    (b : ℕ) (m : Manager) (e : Event) → IsReady b m → b < 2 ^ 56 → Stepped b m (step m e)
unfolding step start_of get_ts get_abort_boosted_ts
step-Stepped b m (begins i) v small =
    on_worker-Stepped (λ m w. start_of (begin_tx m w)) b m i v small
      (begin_tx-Advanced m b below (omega arith)) (λ w. refl) (get_elem? m.workers i) refl
  where
    below : (j : ℕ) (w : Worker) → get_elem? m.workers j ≡ some (some w) → w.txn_cnt ≤ b
    below j w at = (v.placed j w at).2
step-Stepped b m (retries i) v small =
    on_worker-Stepped get_abort_boosted_ts b m i v small
      (get_abort_boosted_ts-Advanced m b below (omega arith)) (λ w. refl) (get_elem? m.workers i)
      refl
  where
    below : (j : ℕ) (w : Worker) → get_elem? m.workers j ≡ some (some w) → w.txn_cnt ≤ b
    below j w at = (v.placed j w at).2
step-Stepped b m collects v small = set_gc_ts-Stepped b m v

-- Every entry differs from all later ones.
abbrev pub AllDistinct : List ℕ → Type 0
AllDistinct [] = Unit {0}
AllDistinct (x ∷ xs) = All (λ y. x ≢ y) xs × AllDistinct xs

-- A timestamp that is not older than the counter of its worker.
abbrev IsLater : Manager → ℕ → Type 0
IsLater m ts = count_of m (ts % 256) * 256 ≤ ts

IsLater-grows :
    (m m' : Manager)
    → ((j : ℕ) → count_of m j ≤ count_of m' j)
    → (l : List ℕ) → All (IsLater m') l
    → All (IsLater m) l
IsLater-grows m m' g [] h = tt
IsLater-grows m m' g (x ∷ l) h = (omega (arith, g (x % 256), h.0), IsLater-grows m m' g l h.1)

issued-ne-later :
    (m m' : Manager) (x : ℕ)
    → IsIssued m m' x
    → (l : List ℕ) → All (IsLater m') l
    → All (λ y. x ≢ y) l
issued-ne-later m m' x i [] h = tt
issued-ne-later m m' x i (y ∷ l) h = (λ e. distinct e, issued-ne-later m m' x i l h.1)
  where
    distinct : x ≡ y → ⊥
    distinct e = absurd (omega (arith, i.0, i.1, subst (IsLater m') (sym e) h.0))

handed_out-AllDistinct :
    (b : ℕ) (m m' : Manager) (o : Option ℕ) (later : List ℕ)
    → Stepped b m (m', o)
    → All (IsLater m') later
    → AllDistinct later
    → AllDistinct (handed_out o later) × All (IsLater m) (handed_out o later)
unfolding handed_out
handed_out-AllDistinct b m m' none later st h d = (d, IsLater-grows m m' st.grows later h)
handed_out-AllDistinct b m m' (some x) later st h d =
    let i = st.issued x refl in
    (
      (issued-ne-later m m' x i later h, d),
      (omega (arith, i.0), IsLater-grows m m' st.grows later h),
    )

run-distinct :
    (es : List Event) (b : ℕ) (m : Manager)
    → IsReady b m
    → b + 4 * length es < 2 ^ 56
    → AllDistinct (run m es).1 × All (IsLater m) (run m es).1
unfolding run
run-distinct [] b m v h = (tt, tt)
run-distinct (e ∷ es) b m v h =
    let st = step-Stepped b m e v (omega arith) in
    let (d, l) = run-distinct es (b + 4) (step m e).0 st.ready (omega arith) in
    handed_out-AllDistinct b m (step m e).0 (step m e).1 (run (step m e).0 es).1 st l d

-- In every history of new transactions, retries after aborts and passes of the manager, over
-- workers that stand at their own numbers, all timestamps that are handed out are different. The
-- bound says that no counter reaches 2^56, from where the shift would drop bits: a call moves a
-- counter by four at most.
pub run-AllDistinct :
    (es : List Event) (b : ℕ) (m : Manager)
    → IsReady b m
    → b + 4 * length es < 2 ^ 56
    → AllDistinct (run m es).1
run-AllDistinct es b m v h = (run-distinct es b m v h).0
