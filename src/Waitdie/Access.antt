-- ===== src/Waitdie/Access.antt =====
-- waitdie.hpp: `read`, `insert`, `update`, `write`, `upsert` and `remove`. A call returns the new
-- state and a pointer, the null pointer makes the caller abort; or it throws.
use tpcc_runner.Base.{ℕ, true, false, Option, none, some, if◌then◌else◌}
use tpcc_runner.Base.Tables.{find_entry}
use tpcc_runner.Nowait.Defs.{Index}
use tpcc_runner.Waitdie.Lock.{try_lock_shared, try_lock, try_lock_upgrade}
use tpcc_runner.Waitdie.Store.{
  read_type, update_type, insert_type, delete_type, Element, State, Reply, pointer, exception,
  allocate_rec, copy_rec, allocate_val, deallocate, place, touch_table, is_detached_from_tree,
  unlock_val, unlock_shared_val, Grant, held, dies, fails, acquire,
}

module _ {tree : Type 0} where
  -- The lock is not taken: the null pointer, or the exception of the lock.
  abbrev pub when_held : (State tree → State tree × Reply) → Grant tree → State tree × Reply
  when_held f (held s) = f s
  when_held f (dies s) = (s, pointer 0)
  when_held f (fails s) = (s, exception)

  -- The lock is given back for a value that has been detached meanwhile, and the call is refused.
  abbrev pub give_back : State tree → Option (State tree) → State tree × Reply
  give_back s none = (s, exception)
  give_back s (some s') = (s', pointer 0)

  -- A key that was deleted by the transaction and is written again.
  unfoldable pub write_again : (t k : ℕ) → Element → State tree → State tree × Reply
  write_again t k e s =
      (place t k (record e { rec = s.next; rwt = update_type }) (allocate_rec s), pointer s.next)

  unfoldable pub drop_write : (t k : ℕ) → Element → State tree → State tree × Reply
  drop_write t k e s = (
    place t k (record e { rec = 0; rwt = delete_type }) (deallocate e.rec s),
    pointer (s.rec_of e.val),
  )

  -- Under the lock of a value that is still in the tree.
  unfoldable pub place_read : (t k val : ℕ) → State tree → State tree × Reply
  unfolding unlock_shared_val
  place_read t k val s =
      if is_detached_from_tree val s then give_back s (unlock_shared_val val s) else (
        place t k (record { rec = 0; rwt = read_type; is_new = false; val = val }) s,
        pointer (s.rec_of val),
      )

  unfoldable pub place_update : (t k val : ℕ) → State tree → State tree × Reply
  unfolding unlock_val
  place_update t k val s = if is_detached_from_tree val s then give_back s (unlock_val val s) else (
    place t k (record { rec = s.next; rwt = update_type; is_new = false; val = val })
        (copy_rec (s.rec_of val) s),
    pointer s.next,
  )

  unfoldable pub place_remove : (t k val : ℕ) → State tree → State tree × Reply
  unfolding unlock_val
  place_remove t k val s = if is_detached_from_tree val s then give_back s (unlock_val val s) else (
    place t k (record { rec = 0; rwt = delete_type; is_new = false; val = val }) s,
    pointer (s.rec_of val),
  )

  unfoldable pub place_upgrade : (t k : ℕ) → Element → State tree → State tree × Reply
  place_upgrade t k e s = (
    place t k (record e { rec = s.next; rwt = update_type }) (copy_rec (s.rec_of e.val) s),
    pointer s.next,
  )

module _ (ix : Index) (wake : State ix.Tree → State ix.Tree) where
  open ix use {Tree}

  unfoldable pub read_entry :
      (t k : ℕ) → Option Element → Option ℕ → State Tree → State Tree × Reply
  unfolding acquire place_read
  read_entry t k none none s = (s, pointer 0)
  read_entry t k none (some val) s =
      when_held (place_read t k val) (acquire wake try_lock_shared val s)
  read_entry t k (some e) found s = elim e.rwt [
    | read_type ↦ (s, pointer (s.rec_of e.val))
    | update_type ↦ (s, pointer e.rec)
    | insert_type ↦ (s, pointer e.rec)
    | delete_type ↦ (s, pointer 0)
  ]

  unfoldable pub lock_for_update : (t k val : ℕ) → State Tree → State Tree × Reply
  unfolding acquire place_update
  lock_for_update t k val s = when_held (place_update t k val) (acquire wake try_lock val s)

  unfoldable pub upgrade_for_update : (t k : ℕ) → Element → State Tree → State Tree × Reply
  unfolding acquire place_upgrade
  upgrade_for_update t k e s =
      when_held (place_upgrade t k e) (acquire wake try_lock_upgrade e.val s)

  unfoldable pub update_entry :
      (t k : ℕ) → Option Element → Option ℕ → State Tree → State Tree × Reply
  unfolding lock_for_update upgrade_for_update
  update_entry t k none none s = (s, pointer 0)
  update_entry t k none (some val) s = lock_for_update t k val s
  update_entry t k (some e) found s = elim e.rwt [
    | read_type ↦ upgrade_for_update t k e s
    | update_type ↦ (s, pointer e.rec)
    | insert_type ↦ (s, pointer e.rec)
    | delete_type ↦ (s, pointer 0)
  ]

  unfoldable pub remove_entry :
      (t k : ℕ) → Option Element → Option ℕ → State Tree → State Tree × Reply
  unfolding acquire place_remove drop_write
  remove_entry t k none none s = (s, pointer 0)
  remove_entry t k none (some val) s =
      when_held (place_remove t k val) (acquire wake try_lock val s)
  remove_entry t k (some e) found s = elim e.rwt [
    | read_type ↦
        when_held (λ s'. (place t k (record e { rwt = delete_type }) s', pointer (s'.rec_of e.val)))
          (acquire wake try_lock_upgrade e.val s)
    | update_type ↦ drop_write t k e s
    | insert_type ↦ drop_write t k e s
    | delete_type ↦ (s, pointer 0)
  ]

  -- The lock of the next key: what the transaction has locked for writing is not locked again.
  unfoldable pub lock_next : Option Element → (next_val : ℕ) → State Tree → Grant Tree
  unfolding acquire
  lock_next none next_val s = acquire wake try_lock next_val s
  lock_next (some e) next_val s = elim e.rwt [
    | read_type ↦ acquire wake try_lock_upgrade next_val s
    | _ ↦ held s
  ]

  -- The index holds the new value: the next key is unlocked and the local record is made.
  unfoldable pub placed_new :
      (t k new_val : ℕ) → Option (State Tree) → State Tree → State Tree × Reply
  placed_new t k new_val none s = (s, exception)
  placed_new t k new_val (some s') s = (
    place t k (record { rec = s'.next; rwt = insert_type; is_new = true; val = new_val })
        (allocate_rec s'),
    pointer s'.next,
  )

  -- Under the locks of the next key and of the new value.
  unfoldable pub insert_at : (t k next_val new_val : ℕ) → State Tree → State Tree × Reply
  unfolding placed_new unlock_val
  insert_at t k next_val new_val s = elim (ix.insert s.index t k new_val) [
    | none ↦ (deallocate new_val s, pointer 0)
    | some index ↦
        let indexed : State Tree = record s { index = index } in
        placed_new t k new_val (unlock_val next_val indexed) indexed
  ]

  -- The new value is locked, as nobody else can have locked it.
  unfoldable pub insert_under : (t k next_val : ℕ) → State Tree → State Tree × Reply
  unfolding acquire insert_at
  insert_under t k next_val s =
      when_held (insert_at t k next_val s.next) (acquire wake try_lock s.next (allocate_val s))

  unfoldable pub insert_new : (t k : ℕ) → State Tree → State Tree × Reply
  unfolding insert_under lock_next
  insert_new t k s = by_next (ix.get_next_kv s.index t k)
    where
      by_next : Option (ℕ × ℕ) → State Tree × Reply
      by_next none = (s, pointer 0)
      by_next (some (next_key, next_val)) =
          when_held (insert_under t k next_val)
            (lock_next (find_entry t next_key s.tables) next_val s)

  unfoldable pub insert_entry :
      (t k : ℕ) → Option Element → Option ℕ → State Tree → State Tree × Reply
  unfolding insert_new write_again
  insert_entry t k none none s = insert_new t k s
  insert_entry t k none (some val) s = (s, pointer 0)
  insert_entry t k (some e) found s = elim e.rwt [
    | delete_type ↦ write_again t k e s
    | _ ↦ (s, pointer 0)
  ]

  unfoldable pub upsert_entry :
      (t k : ℕ) → Option Element → Option ℕ → State Tree → State Tree × Reply
  unfolding insert_new lock_for_update upgrade_for_update write_again
  upsert_entry t k none none s = insert_new t k s
  upsert_entry t k none (some val) s = lock_for_update t k val s
  upsert_entry t k (some e) found s = elim e.rwt [
    | read_type ↦ upgrade_for_update t k e s
    | update_type ↦ (s, pointer e.rec)
    | insert_type ↦ (s, pointer e.rec)
    | delete_type ↦ write_again t k e s
  ]

  -- The handlers: the table is touched, then the element and the index are looked up.
  unfoldable pub dispatch :
      ((t k : ℕ) → Option Element → Option ℕ → State Tree → State Tree × Reply)
      → (t k : ℕ) → State Tree
      → State Tree × Reply
  dispatch handler t k s =
      let s' = touch_table t s in handler t k (find_entry t k s'.tables) (ix.find s.index t k) s'

  unfoldable pub read : (t k : ℕ) → State Tree → State Tree × Reply
  unfolding dispatch read_entry
  read = dispatch read_entry

  unfoldable pub insert : (t k : ℕ) → State Tree → State Tree × Reply
  unfolding dispatch insert_entry
  insert = dispatch insert_entry

  unfoldable pub update : (t k : ℕ) → State Tree → State Tree × Reply
  unfolding dispatch update_entry
  update = dispatch update_entry

  unfoldable pub upsert : (t k : ℕ) → State Tree → State Tree × Reply
  unfolding dispatch upsert_entry
  upsert = dispatch upsert_entry

  unfoldable pub write : (t k : ℕ) → State Tree → State Tree × Reply
  unfolding upsert
  write = upsert

  unfoldable pub remove : (t k : ℕ) → State Tree → State Tree × Reply
  unfolding dispatch remove_entry
  remove = dispatch remove_entry
