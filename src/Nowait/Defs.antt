-- ===== src/Nowait/Defs.antt =====
-- nowait/include/readwriteset.hpp, value.hpp and the members of `NoWait`: what one transaction
-- sees and changes. Pointers are numbers, 0 the null pointer; `bytes` is what a record holds.
use tpcc_runner.Base.{ℕ, ◌+◌, Bool, Option, List, ◌∷◌, ℤ, ◌==◌, if◌then◌else◌}
use tpcc_runner.Base.Multimap.{Multimap}
use tpcc_runner.Base.Tables.{Tables, touch, assign_entry}
use tpcc_runner.Rwlock.Calls.{write_locked}

pub data ReadWriteType : Type 0 where
  read_type update_type insert_type delete_type : ReadWriteType

-- `ReadWriteElement`.
pub record Element : Type 0 where
  pub rec : ℕ  -- null when the type is read or delete; else the local record
  pub rwt : ReadWriteType
  pub is_new : Bool
  pub val : ℕ

-- The template parameter `Index`, which the masstree wrapper implements over the masstree library.
-- `none` is any result but OK.
pub record Index : Type 1 where
  pub Tree : Type 0
  pub find : Tree → (table_id key : ℕ) → Option ℕ
  pub insert : Tree → (table_id key val : ℕ) → Option Tree
  pub remove : Tree → (table_id key : ℕ) → Tree
  pub get_next_kv : Tree → (table_id key : ℕ) → Option (ℕ × ℕ)
  pub get_kv_in_range : Tree → (table_id lkey rkey : ℕ) (count : ℤ) → List (ℕ × ℕ)

-- The shared memory, the collector of the thread, and the transaction.
pub record State (tree : Type 0) : Type 0 where
  pub index : tree
  pub cnt : ℕ → ℤ  -- `val->rwl`
  pub rec_of : ℕ → ℕ  -- `val->rec`
  pub bytes : ℕ → ℕ
  pub next : ℕ  -- the allocator's next pointer
  pub freed : List ℕ  -- latest first
  pub gc_container : Multimap
  pub starting_epoch : ℕ
  pub tables : Tables Element

abbrev pub put {ℓ} : {A : Type ℓ} → (ℕ → A) → ℕ → A → ℕ → A
put f p a q = if p == q then a else f q

module _ {tree : Type 0} where
  abbrev pub set_cnt : ℕ → ℤ → State tree → State tree
  set_cnt p c s = record s { cnt = put s.cnt p c }

  -- A new record; the size that the schema gives is not modelled.
  abbrev pub allocate_rec : State tree → State tree
  allocate_rec s = record s { next = s.next + 1 }

  -- A new record with a copy of another's bytes.
  abbrev pub copy_rec : ℕ → State tree → State tree
  copy_rec p s = record s { next = s.next + 1; bytes = put s.bytes s.next (s.bytes p) }

  -- A new value, locked for writing, with no record.
  abbrev pub allocate_val : State tree → State tree
  allocate_val s = record s {
    next = s.next + 1;
    cnt = put s.cnt s.next write_locked;
    rec_of = put s.rec_of s.next 0;
  }

  -- Freeing the null pointer does nothing.
  abbrev pub deallocate : ℕ → State tree → State tree
  deallocate p s = record s { freed = if p == 0 then s.freed else p ∷ s.freed }

  -- `emplace_hint` of a new element, or a write through the iterator.
  abbrev pub place : ℕ → ℕ → Element → State tree → State tree
  place t k e s = record s { tables = assign_entry t k e s.tables }

  abbrev pub touch_table : ℕ → State tree → State tree
  touch_table t s = record s { tables = touch t s.tables }
