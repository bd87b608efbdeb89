-- ===== src/Mvto/ScanLocks.antt =====
-- mvto.hpp: the locks that the two scans take on their way.
use tpcc_runner.Base.{
  ℕ, ◌≡◌, refl, Bool, Option, none, some, List, [], ◌∷◌, ℤ, arith, ap, ◌∙◌, Bool-cases,
  Option-cases, inl, inr, subst, ◌+ℤ◌, get_elem?,
}
use tpcc_runner.Base.Tables.{find_entry}
use tpcc_runner.Rwlock.Calls.{unlock}
use tpcc_runner.Mvto.Chain.{Version, is_empty, get_correct_version, gc_kept, gc_freed}
use tpcc_runner.Mvto.Defs.{
  Element, Index, State, put, read_type, update_type, insert_type, delete_type, ReadWriteType,
  set_chain, deallocate_version, lock_val, unlock_val, free_versions, gc_version_chain, touch_table,
}
use tpcc_runner.Mvto.Access.{Seen, see_at, see, under_lock, use_to_read, copy_to_write, write_read}
use tpcc_runner.Mvto.Scan.{
  Visit, at_leaf, at_key, Ranges, Step, takes, passes, raises, spins, ScanResult, returns, throws,
  waits, emplace, is_full, taken, use_seen, after_step, look_at, read_at, update_at, raise_leaf,
  scan_loop, visits_of, read_scan, update_scan,
}

-- A result of a scan that leaves the lock of v with the count c.
unfoldable pub HasCount : {tree : Type 0} (v : ℕ) (c : ℤ) → ScanResult tree → Type 0
HasCount v c (returns s m) = s.cnt v ≡ c
HasCount v c (throws s m) = s.cnt v ≡ c
HasCount v c waits = Unit {0}

unfoldable StepCount : {tree : Type 0} (v : ℕ) (c : ℤ) → Step tree → Type 0
StepCount v c (takes s p) = s.cnt v ≡ c
StepCount v c (passes s) = s.cnt v ≡ c
StepCount v c (raises s) = s.cnt v ≡ c
StepCount v c spins = Unit {0}

module _ {tree : Type 0} where
  free_versions-cnt : (vs : List Version) (s : State tree) → (free_versions vs s).cnt ≡ s.cnt
  unfolding free_versions
  free_versions-cnt [] s = refl
  free_versions-cnt (x ∷ vs) s = free_versions-cnt vs (deallocate_version x s)

  collected-cnt : (val : ℕ) (s : State tree) → (gc_version_chain val s).cnt ≡ s.cnt
  unfolding gc_version_chain
  collected-cnt val s =
      free_versions-cnt (gc_freed s.smallest_ts (s.chain val))
        (set_chain val (gc_kept s.smallest_ts (s.chain val)) s)

  -- Only the counts matter to an unlock.
  unlock_val-cnt :
      (val : ℕ) (s s' : State tree)
      → s.cnt ≡ s'.cnt
      → (unlock_val val s).cnt ≡ (unlock_val val s').cnt
  unfolding unlock_val
  unlock_val-cnt val s s' e = ap (λ c. put c val (unlock (c val))) e

  see-cnt :
      (val : ℕ) (vs : List Version) (o : Option ℕ) (s : State tree)
      → (see val vs o s).0.cnt ≡ (unlock_val val s).cnt
  unfolding see see_at unlock_val
  see-cnt val vs none s = refl
  see-cnt val vs (some i) s = elim (Option-cases (get_elem? vs i)) [
    | inl e ↦ rw (e, see) refl
    | inr (x, e) ↦ rw (e, see) refl
  ]

  -- Whatever the critical section finds, it gives the lock back and touches no other.
  under_lock-cnt :
      (removed : tree) (val : ℕ) (vs : List Version) (s : State tree)
      → (under_lock removed val vs s).0.cnt ≡ (unlock_val val s).cnt
  unfolding under_lock
  under_lock-cnt removed val [] s = refl
  under_lock-cnt removed val (x ∷ vs) s = elim (Bool-cases (is_empty (x ∷ vs))) [
    | inl e ↦ rw (e, under_lock) refl
    | inr e ↦
        rw (e, under_lock)
          (see-cnt val (x ∷ vs) (get_correct_version s.start_ts (x ∷ vs)) (gc_version_chain val s)
            ∙ unlock_val-cnt val (gc_version_chain val s) s (collected-cnt val s))
  ]

module _ {tree : Type 0} (v : ℕ) where
  lock_val-unlock_val :
      (val : ℕ) (s l : State tree) → lock_val val s ≡ some l → (unlock_val val l).cnt v ≡ s.cnt v
  unfolding lock_val unlock_val ◌+ℤ◌
  lock_val-unlock_val val s l h = ground arith

  use_to_read-cnt :
      (t k val : ℕ) (x : Seen) (l : State tree) → (use_to_read t k val x l).0.cnt ≡ l.cnt
  unfolding use_to_read
  use_to_read-cnt t k val x l = elim (Bool-cases x.version.deleted) [
    | inl d ↦ rw d refl
    | inr d ↦ rw d refl
  ]

  taken-Count :
      (s : State tree) (r : State tree × ℕ) → r.0.cnt ≡ s.cnt → StepCount v (s.cnt v) (taken r)
  unfolding StepCount
  taken-Count s (s', p) e = ap (λ c. c v) e

  use_seen-Count :
      (c : ℤ) (f : Seen → State tree → State tree × ℕ)
      → ((x : Seen) (l : State tree) → (f x l).0.cnt ≡ l.cnt)
      → (r : State tree × Option Seen) → r.0.cnt v ≡ c
      → StepCount v c (use_seen f r)
  unfolding use_seen StepCount
  use_seen-Count c f keeps (l, none) e = e
  use_seen-Count c f keeps (l, some x) e = elim (Bool-cases x.version.deleted) [
    | inl d ↦ rw d e
    | inr d ↦ rw d (ap (λ g. g v) (keeps _ l) ∙ e)
  ]

  after_step-HasCount :
      (c : ℤ) (rest : State tree → List (ℕ × ℕ) → ScanResult tree)
      → ((s : State tree) (m : List (ℕ × ℕ)) → HasCount v (s.cnt v) (rest s m))
      → (count : ℤ) (k : ℕ) (m : List (ℕ × ℕ)) (step : Step tree) → StepCount v c step
      → HasCount v c (after_step rest count k m step)
  unfolding after_step HasCount StepCount
  after_step-HasCount c rest keeps count k m spins h = tt
  after_step-HasCount c rest keeps count k m (raises s) h = h
  after_step-HasCount c rest keeps count k m (passes s) h =
      subst (λ d. HasCount v d (rest s m)) h (keeps s m)
  after_step-HasCount c rest keeps count k m (takes s p) h =
      elim (Bool-cases (is_full count (emplace k p m))) [
        | inl e ↦ rw e h
        | inr e ↦
            rw e (subst (λ d. HasCount v d (rest s (emplace k p m))) h (keeps s (emplace k p m)))
      ]

module _ (ix : Index) (ranges : Ranges ix.Tree) (v : ℕ) where
  open ix use {Tree}

  look_at-Count :
      (t k val : ℕ) (f : Seen → State Tree → State Tree × ℕ)
      → ((x : Seen) (l : State Tree) → (f x l).0.cnt ≡ l.cnt)
      → (s : State Tree) → StepCount v (s.cnt v) (look_at ix ranges t k val f s)
  unfolding look_at StepCount
  look_at-Count t k val f keeps s = elim (Option-cases (lock_val val s)) [
    | inl e ↦ rw (e, look_at) tt
    | inr (l, e) ↦
        rw (e, look_at)
          (use_seen-Count v (s.cnt v) f keeps
            (under_lock (ix.remove l.index t k) val (l.chain val) l)
            (ap (λ c. c v) (under_lock-cnt (ix.remove l.index t k) val (l.chain val) l)
              ∙ lock_val-unlock_val v val s l e))
  ]

  read_at-Count :
      (t k val : ℕ) (o : Option Element) (s : State Tree)
      → StepCount v (s.cnt v) (read_at ix ranges t k val o s)
  unfolding read_at StepCount
  read_at-Count t k val none s =
      look_at-Count t k val (use_to_read t k val) (use_to_read-cnt v t k val) s
  read_at-Count t k val (some e) s = by_type e.rwt refl
    where
      by_type :
          (w : ReadWriteType)
          → e.rwt ≡ w
          → StepCount v (s.cnt v) (read_at ix ranges t k val (some e) s)
      by_type read_type r = rw r refl
      by_type update_type r = rw r refl
      by_type insert_type r = rw r refl
      by_type delete_type r = rw r refl

  update_at-Count :
      (t k val : ℕ) (o : Option Element) (s : State Tree)
      → StepCount v (s.cnt v) (update_at ix ranges t k val o s)
  unfolding update_at StepCount copy_to_write write_read
  update_at-Count t k val none s =
      look_at-Count t k val (λ x. copy_to_write t k val x.version.rec) (λ x l. refl) s
  update_at-Count t k val (some e) s = by_type e.rwt refl
    where
      by_type :
          (w : ReadWriteType)
          → e.rwt ≡ w
          → StepCount v (s.cnt v) (update_at ix ranges t k val (some e) s)
      by_type read_type r = rw r (taken-Count v s (write_read t k e s) refl)
      by_type update_type r = rw r refl
      by_type insert_type r = rw r refl
      by_type delete_type r = rw r refl

  -- A loop whose rounds leave the count leaves it as well, as far as it gets.
  scan_loop-HasCount :
      (round : (t k val : ℕ) → Option Element → State Tree → Step Tree)
      → ((t k val : ℕ) (o : Option Element) (s : State Tree)
          → StepCount v (s.cnt v) (round t k val o s))
      → (t : ℕ) (count : ℤ) (visits : List Visit) (s : State Tree) (m : List (ℕ × ℕ))
      → HasCount v (s.cnt v) (scan_loop ix ranges round t count visits s m)
  unfolding scan_loop HasCount
  scan_loop-HasCount round keeps t count [] s m = refl
  scan_loop-HasCount round keeps t count (at_leaf leaf ∷ visits) s m =
      scan_loop-HasCount round keeps t count visits (raise_leaf ix ranges leaf s) m
  scan_loop-HasCount round keeps t count (at_key k val ∷ visits) s m =
      after_step-HasCount v (s.cnt v) (scan_loop ix ranges round t count visits)
        (λ s' m'. scan_loop-HasCount round keeps t count visits s' m') count k m
        (round t k val (find_entry t k s.tables) s) (keeps t k val (find_entry t k s.tables) s)

  -- When a scan returns or throws, every lock is as it was before the scan: all that it has taken
  -- on its way, on values that it passed over too, are given back.
  pub scans-HasCount :
      (t lkey rkey : ℕ) (count : ℤ) (rev : Bool) (s : State Tree) (m : List (ℕ × ℕ))
      → HasCount v (s.cnt v) (read_scan ix ranges t lkey rkey count rev s m)
        × HasCount v (s.cnt v) (update_scan ix ranges t lkey rkey count rev s m)
  unfolding read_scan update_scan
  scans-HasCount t lkey rkey count rev s m =
      let visits = visits_of ix ranges t lkey rkey rev s in
      (
        scan_loop-HasCount (read_at ix ranges) read_at-Count t count visits (touch_table t s) m,
        scan_loop-HasCount (update_at ix ranges) update_at-Count t count visits (touch_table t s) m,
      )
