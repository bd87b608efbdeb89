-- ===== src/Mvto/Defs.antt =====
-- mvto/include/readwriteset.hpp and the members of `MVTO`: what one transaction sees and changes.
-- Pointers are numbers, 0 the null pointer.
use tpcc_runner.Base.{ℕ, ◌+◌, Bool, Option, none, some, List, [], ◌∷◌, ◌++◌, ℤ, ◌==◌, if◌then◌else◌}
use tpcc_runner.Base.Tables.{Tables, touch, assign_entry}
use tpcc_runner.Rwlock.Calls.{lock, unlock}
use tpcc_runner.Timestamp.Collector.{Collector, collect}
use tpcc_runner.Mvto.Chain.{Version, gc_kept, gc_freed}

pub data ReadWriteType : Type 0 where
  read_type update_type insert_type delete_type : ReadWriteType

-- `ReadWriteElement`.
pub record Element : Type 0 where
  pub read_rec : ℕ
  pub write_rec : ℕ
  pub rwt : ReadWriteType
  pub is_new : Bool
  pub val : ℕ

-- The template parameter `Index`. A granted insert also tells the timestamp of the leaf node that
-- took the key, which scans raise; `none` is any result but OK.
pub record Index : Type 1 where
  pub Tree : Type 0
  pub find : Tree → (table_id key : ℕ) → Option ℕ
  pub insert : Tree → (table_id key val : ℕ) → Option (Tree × ℕ)
  pub remove : Tree → (table_id key : ℕ) → Tree

-- The shared memory, the collector of the thread, and the transaction. `ws` has the keys of the
-- write set of each table; an entry's iterator is the element of its key in `tables`.
pub record State (tree : Type 0) : Type 0 where
  pub index : tree
  pub cnt : ℕ → ℤ  -- `val->rwl`
  pub chain : ℕ → List Version  -- `val->version`
  pub bytes : ℕ → ℕ
  pub next : ℕ  -- the allocator's next pointer
  pub freed : List ℕ  -- latest first
  pub collector : Collector
  pub start_ts : ℕ
  pub smallest_ts : ℕ
  pub largest_ts : ℕ
  pub tables : Tables Element
  pub ws : ℕ → List ℕ

abbrev pub put {ℓ} : {A : Type ℓ} → (ℕ → A) → ℕ → A → ℕ → A
put f p a q = if p == q then a else f q

module _ {tree : Type 0} where
  abbrev pub set_cnt : ℕ → ℤ → State tree → State tree
  set_cnt p c s = record s { cnt = put s.cnt p c }

  abbrev pub set_chain : ℕ → List Version → State tree → State tree
  set_chain p vs s = record s { chain = put s.chain p vs }

  abbrev pub deallocate : ℕ → State tree → State tree
  deallocate p s = record s { freed = if p == 0 then s.freed else p ∷ s.freed }

  -- A version and its record.
  abbrev pub deallocate_version : Version → State tree → State tree
  deallocate_version v s = deallocate v.addr (deallocate v.rec s)

  -- A new record with a copy of another's bytes.
  abbrev pub copy_rec : ℕ → State tree → State tree
  copy_rec p s = record s { next = s.next + 1; bytes = put s.bytes s.next (s.bytes p) }

  abbrev pub place : ℕ → ℕ → Element → State tree → State tree
  place t k e s = record s { tables = assign_entry t k e s.tables }

  -- `w_table.emplace_back(key, iter)`.
  abbrev pub push_write : ℕ → ℕ → State tree → State tree
  push_write t k s = record s { ws = put s.ws t (s.ws t ++ k ∷ []) }

  abbrev pub touch_table : ℕ → State tree → State tree
  touch_table t s = record s { tables = touch t s.tables }

  -- `val->lock()`: `none` while somebody else has the lock.
  unfoldable pub lock_val : ℕ → State tree → Option (State tree)
  unfolding lock
  lock_val v s = elim (lock (s.cnt v)) [ none ↦ none | some c ↦ some (set_cnt v c s) ]

  unfoldable pub unlock_val : ℕ → State tree → State tree
  unfolding unlock
  unlock_val v s = set_cnt v (unlock (s.cnt v)) s

  -- `GarbageCollector::collect(largest_ts, val)`.
  unfoldable pub collect_val : ℕ → State tree → State tree
  unfolding collect
  collect_val v s = record s { collector = collect s.largest_ts v s.collector }

  -- The last loop of `gc_version_chain`.
  unfoldable pub free_versions : List Version → State tree → State tree
  free_versions [] s = s
  free_versions (v ∷ vs) s = free_versions vs (deallocate_version v s)

  unfoldable pub gc_version_chain : ℕ → State tree → State tree
  unfolding gc_kept gc_freed free_versions
  gc_version_chain val s =
      free_versions (gc_freed s.smallest_ts (s.chain val))
        (set_chain val (gc_kept s.smallest_ts (s.chain val)) s)

  -- The constructor and `set_new_ts`.
  unfoldable pub set_new_ts : (start_ts smallest_ts largest_ts : ℕ) → State tree → State tree
  set_new_ts start smallest largest s = record s {
    start_ts = start;
    smallest_ts = smallest;
    largest_ts = largest;
  }
