-- ===== src/Silo/Defs.antt =====
-- silo/include/readwriteset.hpp, value.hpp and the members of `Silo`: what one transaction sees and
-- changes. Pointers are numbers, 0 the null pointer; `bytes` is what a record holds.
use tpcc_runner.Base.{ℕ, ◌+◌, Bool, Option, none, some, List, [], ◌∷◌, ◌++◌, ℤ, ◌==◌, if◌then◌else◌}
use tpcc_runner.Base.Multimap.{Multimap}
use tpcc_runner.Base.Tables.{Tables, touch, assign_entry}
use tpcc_runner.Silo.Word.{TidWord}

pub data ReadWriteType : Type 0 where
  read_type update_type insert_type delete_type : ReadWriteType

-- `ReadWriteElement`.
pub record Element : Type 0 where
  pub rec : ℕ  -- null when the type is read or delete; else the local record
  pub tw : TidWord  -- the word when the data is read first
  pub rwt : ReadWriteType
  pub is_new : Bool
  pub val : ℕ

-- `Index::NodeMap`: the leaf nodes that the transaction relies on, with their versions.
abbrev pub NodeMap : Type 0
NodeMap = List (ℕ × ℕ)

-- `Index::Result` of an insert.
pub data Inserted : Type 0 where
  ok not_inserted bad_insert : Inserted

-- The template parameter `Index`. The calls that take a node map may add to it.
pub record Index : Type 1 where
  pub Tree : Type 0
  pub find : Tree → (table_id key : ℕ) → Option ℕ
  pub find_noting : Tree → (table_id key : ℕ) → NodeMap → Option ℕ × NodeMap
  pub insert : Tree → (table_id key val : ℕ) → NodeMap → Inserted × Tree × NodeMap
  pub remove : Tree → (table_id key : ℕ) → Tree
  -- `none` is BAD_SCAN.
  pub get_kv_in_range :
      Tree
      → (table_id lkey rkey : ℕ) (count : ℤ) (rev : Bool) → NodeMap
      → Option (List (ℕ × ℕ)) × NodeMap
  pub get_version_value : Tree → (table_id node : ℕ) → ℕ

abbrev pub Words : Type 0
Words = ℕ → TidWord

-- The shared memory, the collector of the thread, and the transaction.
pub record State (tree : Type 0) : Type 0 where
  pub index : tree
  pub word : Words  -- `val->tidword`
  pub rec_of : ℕ → ℕ  -- `val->rec`
  pub bytes : ℕ → ℕ
  pub next : ℕ  -- the allocator's next pointer
  pub freed : List ℕ  -- latest first
  pub gc_container : Multimap
  pub global_epoch : ℕ
  pub starting_epoch : ℕ
  pub tables : Tables Element
  pub ws : ℕ → List ℕ  -- the keys of each table's write set; the iterators are the elements
  pub ns : ℕ → NodeMap

abbrev pub put {ℓ} : {A : Type ℓ} → (ℕ → A) → ℕ → A → ℕ → A
put f p a q = if p == q then a else f q

module _ {tree : Type 0} where
  -- Freeing the null pointer does nothing.
  abbrev pub deallocate : ℕ → State tree → State tree
  deallocate p s = record s { freed = if p == 0 then s.freed else p ∷ s.freed }

  -- A new record, of the size that the schema gives.
  abbrev pub allocate_rec : State tree → State tree
  allocate_rec s = record s { next = s.next + 1 }

  abbrev pub place : ℕ → ℕ → Element → State tree → State tree
  place t k e s = record s { tables = assign_entry t k e s.tables }

  -- `w_table.emplace_back(key, iter)`.
  abbrev pub push_write : ℕ → ℕ → State tree → State tree
  push_write t k s = record s { ws = put s.ws t (s.ws t ++ k ∷ []) }

  abbrev pub touch_table : ℕ → State tree → State tree
  touch_table t s = record s { tables = touch t s.tables }

  -- `get_record_pointer`: `none` while somebody has the value locked.
  unfoldable pub get_record_pointer : ℕ → State tree → Option (ℕ × TidWord)
  get_record_pointer val s = if (s.word val).lock then none else some (s.rec_of val, s.word val)

  -- `copy_record`, into a new record: the state with the copy, and the word.
  unfoldable pub copy_record : ℕ → State tree → Option (State tree × TidWord)
  copy_record val s =
      if (s.word val).lock
      then none
      else some (
        record s {
          next = s.next + 1;
          bytes =
              (if s.rec_of val == 0 then s.bytes else put s.bytes s.next (s.bytes (s.rec_of val)));
        },
        s.word val,
      )
