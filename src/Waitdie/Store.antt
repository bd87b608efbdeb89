-- ===== src/Waitdie/Store.antt =====
-- waitdie/include/readwriteset.hpp, value.hpp and the members of `WaitDie`: what one transaction
-- sees and changes. Pointers are numbers, 0 the null pointer.
use tpcc_runner.Base.{ℕ, ◌+◌, Bool, Option, none, some, List, ◌∷◌, ◌++◌, ◌==◌, if◌then◌else◌}
use tpcc_runner.Base.Tables.{Tables, touch, assign_entry}
use tpcc_runner.Timestamp.Collector.{Collector}
use tpcc_runner.Waitdie.Lock.{
  Lock, unlocked, Answer, granted, refused, waits, thrown, unlock_shared, unlock,
}

pub data ReadWriteType : Type 0 where
  read_type update_type insert_type delete_type : ReadWriteType

-- `ReadWriteElement`.
pub record Element : Type 0 where
  pub rec : ℕ  -- null when the type is read or delete; else the local record
  pub rwt : ReadWriteType
  pub is_new : Bool
  pub val : ℕ

-- The shared memory, the collector of the thread, and the transaction. `woken` has the
-- transactions whose spin variables this one has cleared.
pub record State (tree : Type 0) : Type 0 where
  pub index : tree
  pub wdl : ℕ → Lock  -- `val->wdl`
  pub rec_of : ℕ → ℕ  -- `val->rec`
  pub bytes : ℕ → ℕ
  pub next : ℕ  -- the allocator's next pointer
  pub freed : List ℕ  -- latest first
  pub woken : List ℕ
  pub collector : Collector
  pub start_ts : ℕ
  pub smallest_ts : ℕ
  pub largest_ts : ℕ
  pub tables : Tables Element

-- What a call of the protocol comes to: the pointer that it returns, or an exception.
pub data Reply : Type 0 where
  pointer : ℕ → Reply
  exception : Reply

abbrev pub put {ℓ} : {A : Type ℓ} → (ℕ → A) → ℕ → A → ℕ → A
put f p a q = if p == q then a else f q

module _ {tree : Type 0} where
  abbrev pub set_lock : ℕ → Lock → State tree → State tree
  set_lock p l s = record s { wdl = put s.wdl p l }

  -- A new record; the size that the schema gives is not modelled.
  abbrev pub allocate_rec : State tree → State tree
  allocate_rec s = record s { next = s.next + 1 }

  -- A new record with a copy of another's bytes.
  abbrev pub copy_rec : ℕ → State tree → State tree
  copy_rec p s = record s { next = s.next + 1; bytes = put s.bytes s.next (s.bytes p) }

  -- A new value with a new lock and no record.
  abbrev pub allocate_val : State tree → State tree
  allocate_val s = record s {
    next = s.next + 1;
    wdl = put s.wdl s.next unlocked;
    rec_of = put s.rec_of s.next 0;
  }

  -- Freeing the null pointer does nothing.
  abbrev pub deallocate : ℕ → State tree → State tree
  deallocate p s = record s { freed = if p == 0 then s.freed else p ∷ s.freed }

  abbrev pub place : ℕ → ℕ → Element → State tree → State tree
  place t k e s = record s { tables = assign_entry t k e s.tables }

  abbrev pub touch_table : ℕ → State tree → State tree
  touch_table t s = record s { tables = touch t s.tables }

  -- `is_detached_from_tree`.
  abbrev pub is_detached_from_tree : ℕ → State tree → Bool
  is_detached_from_tree val s = s.rec_of val == 0

  -- What a lock gives back, and whom it wakes; `none` where the lock throws.
  abbrev pub released : ℕ → Option (Lock × List ℕ) → State tree → Option (State tree)
  released val none s = none
  released val (some (l, out)) s = some (record (set_lock val l s) { woken = s.woken ++ out })

  unfoldable pub unlock_val : ℕ → State tree → Option (State tree)
  unfolding unlock
  unlock_val val s = released val (unlock s.start_ts (s.wdl val)) s

  unfoldable pub unlock_shared_val : ℕ → State tree → Option (State tree)
  unfolding unlock_shared
  unlock_shared_val val s = released val (unlock_shared s.start_ts (s.wdl val)) s

-- A lock that is taken, perhaps after waiting for it; one that is refused; one that throws.
pub data Grant (tree : Type 0) : Type 0 where
  held : State tree → Grant tree
  dies : State tree → Grant tree
  fails : State tree → Grant tree

-- `wake` is what the other transactions do to the store from when the call waits until it is woken.
module _ {tree : Type 0} (wake : State tree → State tree) where
  unfoldable pub acquire : (ℕ → Lock → Lock × Answer) → ℕ → State tree → Grant tree
  acquire call val s = by_answer (call s.start_ts (s.wdl val))
    where
      by_answer : Lock × Answer → Grant tree
      by_answer (l, granted) = held (set_lock val l s)
      by_answer (l, waits) = held (wake (set_lock val l s))
      by_answer (l, refused) = dies (set_lock val l s)
      by_answer (l, thrown) = fails (set_lock val l s)
