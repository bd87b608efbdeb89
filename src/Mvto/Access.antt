-- ===== src/Mvto/Access.antt =====
-- mvto.hpp: `read`, `insert`, `update`, `write`, `upsert` and `remove`. A call returns the new
-- state and a pointer, null to make the caller abort; `none` means that it still waits for the
-- lock of a value, or that it throws. What other transactions do happens between the calls.
use tpcc_runner.Base.{
  ℕ, ◌+◌, Bool, true, false, not, ◌&&◌, Option, none, some, List, [], ◌∷◌, ◌==◌, if◌then◌else◌,
  get_elem?, set,
}
use mathlib.Core.Option
use tpcc_runner.Base.Tables.{find_entry, get_table, put_table}
use tpcc_runner.Rwlock.Calls.{unlocked}
use tpcc_runner.Mvto.Chain.{Version, update_readts, is_empty, get_correct_version}
use tpcc_runner.Mvto.Defs.{
  read_type, update_type, insert_type, delete_type, Element, Index, State, set_cnt, set_chain,
  deallocate, deallocate_version, copy_rec, place, push_write, touch_table, lock_val, unlock_val,
  collect_val, gc_version_chain,
}

-- The version that a transaction finds under a value's lock, and whether it was the head.
pub record Seen : Type 0 where
  pub version : Version
  pub is_head : Bool

-- A write through a pointer to the version that stood at a place of the chain. Should the version
-- have been freed, the chain stays as it is.
abbrev pub write_at : ℕ → Version → List Version → List Version
write_at i v vs = set vs i v

abbrev pub read_element : (rec val : ℕ) → Element
read_element rec val = record {
  read_rec = rec;
  write_rec = 0;
  rwt = read_type;
  is_new = false;
  val = val;
}

abbrev pub without : ℕ → List (ℕ × Element) → List (ℕ × Element)
without k [] = []
without k ((j, e) ∷ m) = let rest = without k m in if j == k then rest else (j, e) ∷ rest

module _ {tree : Type 0} where
  -- `update_readts` on the version found, once the chain has been collected; then the unlock.
  unfoldable pub see_at : (val i : ℕ) → Version → State tree → State tree × Option Seen
  unfolding update_readts unlock_val
  see_at val i v s = (
    unlock_val val (set_chain val (write_at i (update_readts s.start_ts v) (s.chain val)) s),
    some (record { version = v; is_head = i == 0 }),
  )

  -- The version at a place of the chain as it was before the collection.
  unfoldable pub see : (val : ℕ) → List Version → Option ℕ → State tree → State tree × Option Seen
  unfolding see_at
  see val vs none s = (unlock_val val s, none)
  see val vs (some i) s = elim (get_elem? vs i) [
    | none ↦ (unlock_val val s, none)
    | some v ↦ see_at val i v s
  ]

  -- `delete_from_tree`, given the only version of the value.
  unfoldable pub detach : (index : tree) → ℕ → Version → State tree → State tree
  unfolding collect_val
  detach index val v s =
      deallocate_version v (collect_val val (set_chain val [] (record s { index = index })))

  -- The critical section that all calls have in common. `removed` is the index without the key.
  unfoldable pub under_lock :
      (removed : tree) → (val : ℕ) → List Version → State tree → State tree × Option Seen
  unfolding see detach is_empty get_correct_version gc_version_chain
  under_lock removed val [] s = (unlock_val val s, none)
  under_lock removed val (v ∷ vs) s =
      if is_empty (v ∷ vs)
      then (unlock_val val (detach removed val v s), none)
      else see val (v ∷ vs) (get_correct_version s.start_ts (v ∷ vs)) (gc_version_chain val s)

  -- What a call does with what it finds: a new state and the pointer that it returns.
  abbrev pub found :
      (Seen → State tree → State tree × ℕ) → State tree × Option Seen → State tree × ℕ
  found f (s, none) = (s, 0)
  found f (s, some x) = f x s

  unfoldable pub use_to_read : (t k val : ℕ) → Seen → State tree → State tree × ℕ
  use_to_read t k val x s =
      if x.version.deleted
      then (s, 0)
      else (place t k (read_element x.version.rec val) s, x.version.rec)

  unfoldable pub copy_to_write : (t k val rec : ℕ) → State tree → State tree × ℕ
  copy_to_write t k val rec s = (
    push_write t k (
        place t k
          (record {
            read_rec = rec;
            write_rec = s.next;
            rwt = update_type;
            is_new = false;
            val = val;
          })
          (copy_rec rec s)),
    s.next,
  )

  unfoldable pub use_to_update : (t k val : ℕ) → Seen → State tree → State tree × ℕ
  unfolding copy_to_write
  use_to_update t k val x s =
      if x.version.deleted then (s, 0) else copy_to_write t k val x.version.rec s

  -- An insert over a deleted version.
  unfoldable pub insert_over : (t k val : ℕ) → State tree → State tree × ℕ
  insert_over t k val s = (
    push_write t k (
        place t k
          (record {
            read_rec = 0;
            write_rec = s.next;
            rwt = insert_type;
            is_new = false;
            val = val;
          })
          (record s { next = s.next + 1 })),
    s.next,
  )

  unfoldable pub use_to_insert : (t k val : ℕ) → Seen → State tree → State tree × ℕ
  unfolding insert_over
  use_to_insert t k val x s =
      if x.is_head && x.version.deleted then insert_over t k val s else (s, 0)

  unfoldable pub use_to_upsert : (t k val : ℕ) → Seen → State tree → State tree × ℕ
  unfolding insert_over copy_to_write
  use_to_upsert t k val x s =
      if x.is_head && x.version.deleted
      then insert_over t k val s
      else (if not x.version.deleted then copy_to_write t k val x.version.rec s else (s, 0))

  unfoldable pub use_to_remove : (t k val : ℕ) → Seen → State tree → State tree × ℕ
  use_to_remove t k val x s = if x.version.deleted then (s, 0) else (
    push_write t k (
        place t k
          (record {
            read_rec = x.version.rec;
            write_rec = 0;
            rwt = delete_type;
            is_new = false;
            val = val;
          })
          s),
    x.version.rec,
  )

  -- A key that is not in the index: a new value, version and record, unknown to the others.
  unfoldable pub create : (t k : ℕ) → State tree → State tree × ℕ
  create t k s =
      let v : Version = record {
        read_ts = s.start_ts;
        write_ts = s.start_ts;
        rec = s.next + 2;
        deleted = false;
        addr = s.next + 1;
      } in
      (
        push_write t k (
            place t k
              (record {
                read_rec = 0;
                write_rec = s.next + 2;
                rwt = insert_type;
                is_new = true;
                val = s.next;
              })
              (set_chain s.next (v ∷ [])
                (set_cnt s.next unlocked (record s { next = s.next + 3 })))),
        s.next + 2,
      )

  -- A key that the transaction read and now writes.
  unfoldable pub write_read : (t k : ℕ) → Element → State tree → State tree × ℕ
  write_read t k e s = (
    push_write t k
        (place t k (record e { write_rec = s.next; rwt = update_type }) (copy_rec e.read_rec s)),
    s.next,
  )

  -- A key that the transaction deleted and now writes: the element's record is returned as it is.
  unfoldable pub write_deleted : (t k : ℕ) → Element → State tree → State tree × ℕ
  write_deleted t k e s = (place t k (record e { rwt = update_type }) s, e.write_rec)

  unfoldable pub read_own : Element → State tree → State tree × ℕ
  read_own e s = elim e.rwt [
    | read_type ↦ (s, e.read_rec)
    | update_type ↦ (s, e.write_rec)
    | insert_type ↦ (s, e.write_rec)
    | delete_type ↦ (s, 0)
  ]

  unfoldable pub insert_own : (t k : ℕ) → Element → State tree → State tree × ℕ
  unfolding write_deleted
  insert_own t k e s = elim e.rwt [ delete_type ↦ write_deleted t k e s | _ ↦ (s, 0) ]

  unfoldable pub update_own : (t k : ℕ) → Element → State tree → State tree × ℕ
  unfolding write_read
  update_own t k e s = elim e.rwt [
    | read_type ↦ write_read t k e s
    | update_type ↦ (s, e.write_rec)
    | insert_type ↦ (s, e.write_rec)
    | delete_type ↦ (s, 0)
  ]

  unfoldable pub upsert_own : (t k : ℕ) → Element → State tree → State tree × ℕ
  unfolding write_read write_deleted
  upsert_own t k e s = elim e.rwt [
    | read_type ↦ write_read t k e s
    | update_type ↦ (s, e.write_rec)
    | insert_type ↦ (s, e.write_rec)
    | delete_type ↦ write_deleted t k e s
  ]

  -- `remove` of a key in the read-write set. A delete element throws: no result.
  unfoldable pub remove_own : (t k : ℕ) → Element → State tree → Option (State tree × ℕ)
  remove_own t k e s = elim e.rwt [
    | read_type ↦ some (push_write t k (place t k (record e { rwt = delete_type }) s), e.read_rec)
    | update_type ↦
        some (place t k (record e { write_rec = 0 }) (deallocate e.write_rec s), e.read_rec)
    | insert_type ↦
        let s' = deallocate e.write_rec s in
        some (record s' { tables = put_table t (without k (get_table t s'.tables)) s'.tables }, 0)
    | delete_type ↦ none
  ]

module _ (ix : Index) where
  open ix use {Tree}

  -- A value found in the index: lock it, look for the version, and go on with that.
  unfoldable pub visit :
      (t k val : ℕ) → (Seen → State Tree → State Tree × ℕ) → State Tree → Option (State Tree × ℕ)
  unfolding lock_val under_lock
  visit t k val f s =
      Option.map (λ l. found f (under_lock (ix.remove l.index t k) val (l.chain val) l))
        (lock_val val s)

  -- A call: the table is touched; a key in the read-write set is served from there, another one
  -- from the index, if that has it.
  unfoldable pub call :
      ((t k : ℕ) → Element → State Tree → Option (State Tree × ℕ))
      → ((t k val : ℕ) → Seen → State Tree → State Tree × ℕ)
      → ((t k : ℕ) → State Tree → State Tree × ℕ)
      → (t k : ℕ) → State Tree
      → Option (State Tree × ℕ)
  unfolding visit
  call own seen missing t k s =
      let s' = touch_table t s in
      elim (find_entry t k s'.tables) [
        | some e ↦ own t k e s'
        | none ↦ elim (ix.find s'.index t k) [
          | none ↦ some (missing t k s')
          | some val ↦ visit t k val (seen t k val) s'
        ]
      ]

  unfoldable pub refuse : (t k : ℕ) → State Tree → State Tree × ℕ
  refuse t k s = (s, 0)

  unfoldable pub read : (t k : ℕ) → State Tree → Option (State Tree × ℕ)
  unfolding call read_own use_to_read refuse
  read = call (λ t k e s. some (read_own e s)) use_to_read refuse

  unfoldable pub insert : (t k : ℕ) → State Tree → Option (State Tree × ℕ)
  unfolding call insert_own use_to_insert create
  insert = call (λ t k e s. some (insert_own t k e s)) use_to_insert create

  unfoldable pub update : (t k : ℕ) → State Tree → Option (State Tree × ℕ)
  unfolding call update_own use_to_update refuse
  update = call (λ t k e s. some (update_own t k e s)) use_to_update refuse

  unfoldable pub upsert : (t k : ℕ) → State Tree → Option (State Tree × ℕ)
  unfolding call upsert_own use_to_upsert create
  upsert = call (λ t k e s. some (upsert_own t k e s)) use_to_upsert create

  unfoldable pub write : (t k : ℕ) → State Tree → Option (State Tree × ℕ)
  unfolding upsert
  write = upsert

  unfoldable pub remove : (t k : ℕ) → State Tree → Option (State Tree × ℕ)
  unfolding call remove_own use_to_remove refuse
  remove = call remove_own use_to_remove refuse
