-- ===== src/Rwlock/Exclusion.antt =====
-- readwritelock.hpp: the holders of the lock and its count, over the steps of `Rwlock.Threads`.
use tpcc_runner.Base.{
  ℕ, ◌+◌, ◌≤◌, ◌≡◌, ◌≢◌, refl, true, ℤ, pos_part, neg_part, some, arith, get_elem?, sum_of,
  sum_of-set, weight-le-sum_of, weights-le-sum_of, All, All-set, All-get_elem?, sym, subst,
  replicate, sum_of-replicate, All-replicate, parts_disjoint,
}
use tpcc_runner.Rwlock.Calls.{unlocked}
use tpcc_runner.Rwlock.Threads.{
  lock_upgrade, try_lock_upgrade, Pc, free, reads, writes, start, cas, Request, wants, step, System,
  Step, move, Reach, here, next,
}

-- Whether a thread holds the lock shared: an upgrading reader still does.
abbrev pub reader : Pc → ℕ
reader reads = 1
reader (start lock_upgrade) = 1
reader (start try_lock_upgrade) = 1
reader (cas lock_upgrade e) = 1
reader (cas try_lock_upgrade e) = 1
reader _ = 0

abbrev pub writer : Pc → ℕ
writer writes = 1
writer _ = 0

-- Before a compare-exchange the test on `expected` has passed.
abbrev pub IsTested : Pc → Type 0
IsTested (cas c e) = wants c e ≡ true
IsTested _ = Unit {0}

pub record IsSound (s : System) : Type 0 where
  pub readers : pos_part s.cnt ≡ sum_of reader s.threads
  pub writers : neg_part s.cnt ≡ sum_of writer s.threads
  pub one_writer : neg_part s.cnt ≤ 1
  pub all_tested : All IsTested s.threads

record Kept (pc : Pc) (cnt : ℤ) (r : ℤ × Pc) : Type 0 where
  readers : pos_part r.0 + reader pc ≡ pos_part cnt + reader r.1
  writers : neg_part r.0 + writer pc ≡ neg_part cnt + writer r.1
  one_writer : neg_part r.0 ≤ 1
  is_tested : IsTested r.1

step-Kept :
    (pc : Pc) (r : Request) (cnt : ℤ)
    → IsTested pc
    → reader pc ≤ pos_part cnt
    → writer pc ≤ neg_part cnt
    → neg_part cnt ≤ 1
    → Kept pc cnt (step pc r cnt)
unfolding step wants
step-Kept pc r cnt t a b c = ground arith

-- Every step of every thread keeps the count and the holders in step.
pub Step-IsSound : {s t : System} → Step s t → IsSound s → IsSound t
Step-IsSound {s} {t} (move i r pc at e) v = subst IsSound (sym e) record {
  readers =
      omega (arith, k.readers, v.readers, sum_of-set reader s.threads i (step pc r s.cnt).1 at);
  writers =
      omega (arith, k.writers, v.writers, sum_of-set writer s.threads i (step pc r s.cnt).1 at);
  one_writer = k.one_writer;
  all_tested = All-set IsTested s.threads i (step pc r s.cnt).1 v.all_tested k.is_tested;
}
  where
    k : Kept pc s.cnt (step pc r s.cnt)
    k =
        step-Kept pc r s.cnt (All-get_elem? IsTested s.threads i v.all_tested at)
          (omega (arith, weight-le-sum_of reader s.threads i at, v.readers))
          (omega (arith, weight-le-sum_of writer s.threads i at, v.writers)) v.one_writer

Reach-IsSound : {s t : System} → IsSound s → Reach s t → IsSound t
Reach-IsSound v here = v
Reach-IsSound v (next r st) = Step-IsSound st (Reach-IsSound v r)

-- n threads at the start of a program, and a new lock.
abbrev pub fresh : ℕ → System
fresh n = record { cnt = unlocked; threads = replicate n free }

fresh-IsSound : (n : ℕ) → IsSound (fresh n)
fresh-IsSound n = record {
  readers = sym (sum_of-replicate reader n free refl);
  writers = sym (sum_of-replicate writer n free refl);
  one_writer = omega arith;
  all_tested = All-replicate IsTested n free tt;
}

-- In every interleaving of any number of threads that start without the lock: a thread that holds
-- it exclusively excludes every other holder, shared or exclusive.
pub mutual_exclusion :
    (n : ℕ) {s : System}
    → Reach (fresh n) s
    → (i j : ℕ) {p : Pc} → get_elem? s.threads i ≡ some writes
    → get_elem? s.threads j ≡ some p
    → i ≢ j
    → (reader p ≡ 0) × (writer p ≡ 0)
mutual_exclusion n {s} r i j {p} at_i at_j ne =
    let v = Reach-IsSound (fresh-IsSound n) r in
    let w = weights-le-sum_of writer s.threads i j at_i at_j ne in
    let own = weight-le-sum_of writer s.threads i at_i in
    let other = weight-le-sum_of reader s.threads j at_j in
    (exclusive_readers v own other, omega (arith, v.writers, v.one_writer))
  where
    exclusive_readers :
        IsSound s → 1 ≤ sum_of writer s.threads → reader p ≤ sum_of reader s.threads → reader p ≡ 0
    exclusive_readers v own other = omega (arith, v.readers, v.writers, parts_disjoint s.cnt)

-- The count tells the holders: it is the number of shared holders when it is not negative, and it
-- is -1 exactly while one thread holds the lock exclusively.
pub count_tells_holders :
    (n : ℕ) {s : System}
    → Reach (fresh n) s
    → (pos_part s.cnt ≡ sum_of reader s.threads)
      × (neg_part s.cnt ≡ sum_of writer s.threads)
      × (sum_of writer s.threads ≤ 1)
count_tells_holders n r =
    let v = Reach-IsSound (fresh-IsSound n) r in
    (v.readers, v.writers, omega (arith, v.writers, v.one_writer))
