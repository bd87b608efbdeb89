-- ===== src/Nowait/Access.antt =====
-- nowait.hpp: `read`, `insert`, `update`, `write`, `upsert` and `remove`. A call returns the new
-- state and a pointer; the null pointer makes the caller abort. What other transactions do happens
-- between the calls.
use tpcc_runner.Base.{ℕ, Bool, true, false, Option, none, some, ℤ, if◌then◌else◌}
use tpcc_runner.Base.Tables.{find_entry}
use tpcc_runner.Rwlock.Calls.{try_lock_shared, try_lock, try_lock_upgrade, unlock}
use tpcc_runner.Nowait.Defs.{
  read_type, update_type, insert_type, delete_type, Element, Index, State, set_cnt, allocate_rec,
  copy_rec, allocate_val, deallocate, place, touch_table,
}

-- The lock on the next key, which guards the gap: what the transaction has locked for writing
-- is not locked again.
unfoldable pub lock_next : Option Element → ℤ → Bool × ℤ
unfolding try_lock try_lock_upgrade
lock_next none c = try_lock c
lock_next (some e) c = elim e.rwt [ read_type ↦ try_lock_upgrade c | _ ↦ (true, c) ]

module _ {tree : Type 0} where
  -- A key that the transaction has not touched: take the shared lock and remember the value.
  unfoldable pub lock_for_read : (t k val : ℕ) → State tree → State tree × ℕ
  unfolding try_lock_shared
  lock_for_read t k val s =
      let (won, c) = try_lock_shared (s.cnt val) in
      if won
      then (
        place t k (record { rec = 0; rwt = read_type; is_new = false; val = val })
            (set_cnt val c s),
        s.rec_of val,
      )
      else (s, 0)

  -- The same for a write: take the exclusive lock and copy the record.
  unfoldable pub lock_for_update : (t k val : ℕ) → State tree → State tree × ℕ
  unfolding try_lock
  lock_for_update t k val s =
      let (won, c) = try_lock (s.cnt val) in
      if won
      then (
        place t k (record { rec = s.next; rwt = update_type; is_new = false; val = val })
            (copy_rec (s.rec_of val) (set_cnt val c s)),
        s.next,
      )
      else (s, 0)

  -- A key that was read: upgrade the lock and copy the record.
  unfoldable pub upgrade_for_update : (t k : ℕ) → Element → State tree → State tree × ℕ
  unfolding try_lock_upgrade
  upgrade_for_update t k e s =
      let (won, c) = try_lock_upgrade (s.cnt e.val) in
      if won
      then (
        place t k (record e { rec = s.next; rwt = update_type })
            (copy_rec (s.rec_of e.val) (set_cnt e.val c s)),
        s.next,
      )
      else (s, 0)

  -- A key that the transaction deleted and writes again.
  unfoldable pub write_again : (t k : ℕ) → Element → State tree → State tree × ℕ
  write_again t k e s =
      (place t k (record e { rec = s.next; rwt = update_type }) (allocate_rec s), s.next)

  -- The handlers, given the element of the key and what the index has under it.
  unfoldable pub read_entry : (t k : ℕ) → Option Element → Option ℕ → State tree → State tree × ℕ
  unfolding lock_for_read
  read_entry t k none none s = (s, 0)
  read_entry t k none (some val) s = lock_for_read t k val s
  read_entry t k (some e) found s = elim e.rwt [
    | read_type ↦ (s, s.rec_of e.val)
    | update_type ↦ (s, e.rec)
    | insert_type ↦ (s, e.rec)
    | delete_type ↦ (s, 0)
  ]

  unfoldable pub update_entry : (t k : ℕ) → Option Element → Option ℕ → State tree → State tree × ℕ
  unfolding lock_for_update upgrade_for_update
  update_entry t k none none s = (s, 0)
  update_entry t k none (some val) s = lock_for_update t k val s
  update_entry t k (some e) found s = elim e.rwt [
    | read_type ↦ upgrade_for_update t k e s
    | update_type ↦ (s, e.rec)
    | insert_type ↦ (s, e.rec)
    | delete_type ↦ (s, 0)
  ]

  -- `remove` of a key that the transaction has not touched.
  unfoldable pub lock_for_remove : (t k val : ℕ) → State tree → State tree × ℕ
  unfolding try_lock
  lock_for_remove t k val s =
      let (won, c) = try_lock (s.cnt val) in
      if won
      then (
        place t k (record { rec = 0; rwt = delete_type; is_new = false; val = val })
            (set_cnt val c s),
        s.rec_of val,
      )
      else (s, 0)

  unfoldable pub upgrade_for_remove : (t k : ℕ) → Element → State tree → State tree × ℕ
  unfolding try_lock_upgrade
  upgrade_for_remove t k e s =
      let (won, c) = try_lock_upgrade (s.cnt e.val) in
      if won
      then (place t k (record e { rwt = delete_type }) (set_cnt e.val c s), s.rec_of e.val)
      else (s, 0)

  -- A local record is given up.
  unfoldable pub drop_write : (t k : ℕ) → Element → State tree → State tree × ℕ
  drop_write t k e s =
      (place t k (record e { rec = 0; rwt = delete_type }) (deallocate e.rec s), s.rec_of e.val)

  unfoldable pub remove_entry : (t k : ℕ) → Option Element → Option ℕ → State tree → State tree × ℕ
  unfolding lock_for_remove upgrade_for_remove drop_write
  remove_entry t k none none s = (s, 0)
  remove_entry t k none (some val) s = lock_for_remove t k val s
  remove_entry t k (some e) found s = elim e.rwt [
    | read_type ↦ upgrade_for_remove t k e s
    | update_type ↦ drop_write t k e s
    | insert_type ↦ drop_write t k e s
    | delete_type ↦ (s, 0)
  ]

module _ (ix : Index) where
  open ix use {Tree}

  -- The index holds the new value: unlock the next key, and make the local record.
  unfoldable pub placed_new : (t k next_val new_val : ℕ) → Tree → State Tree → State Tree × ℕ
  unfolding unlock
  placed_new t k next_val new_val index s =
      let s' = set_cnt next_val (unlock (s.cnt next_val)) (record s { index = index }) in
      (
        place t k (record { rec = s.next; rwt = insert_type; is_new = true; val = new_val })
            (allocate_rec s'),
        s.next,
      )

  -- Under the lock of the next key, a new value goes to the index.
  unfoldable pub insert_under : (t k next_val : ℕ) → State Tree → State Tree × ℕ
  unfolding placed_new
  insert_under t k next_val s = elim (ix.insert s.index t k s.next) [
    | none ↦ (deallocate s.next (allocate_val s), 0)
    | some index ↦ placed_new t k next_val s.next index (allocate_val s)
  ]

  unfoldable pub insert_before : (t k next_key next_val : ℕ) → State Tree → State Tree × ℕ
  unfolding insert_under lock_next
  insert_before t k next_key next_val s =
      let (won, c) = lock_next (find_entry t next_key s.tables) (s.cnt next_val) in
      if won then insert_under t k next_val (set_cnt next_val c s) else (s, 0)

  unfoldable pub insert_new : (t k : ℕ) → State Tree → State Tree × ℕ
  unfolding insert_before
  insert_new t k s = elim (ix.get_next_kv s.index t k) [
    | none ↦ (s, 0)
    | some (next_key, next_val) ↦ insert_before t k next_key next_val s
  ]

  unfoldable pub insert_entry : (t k : ℕ) → Option Element → Option ℕ → State Tree → State Tree × ℕ
  unfolding insert_new write_again
  insert_entry t k none none s = insert_new t k s
  insert_entry t k none (some val) s = (s, 0)
  insert_entry t k (some e) found s = elim e.rwt [ delete_type ↦ write_again t k e s | _ ↦ (s, 0) ]

  unfoldable pub upsert_entry : (t k : ℕ) → Option Element → Option ℕ → State Tree → State Tree × ℕ
  unfolding insert_new lock_for_update upgrade_for_update write_again
  upsert_entry t k none none s = insert_new t k s
  upsert_entry t k none (some val) s = lock_for_update t k val s
  upsert_entry t k (some e) found s = elim e.rwt [
    | read_type ↦ upgrade_for_update t k e s
    | update_type ↦ (s, e.rec)
    | insert_type ↦ (s, e.rec)
    | delete_type ↦ write_again t k e s
  ]

  -- The five handlers: the table is touched, then the element and the index are looked up.
  unfoldable pub dispatch :
      ((t k : ℕ) → Option Element → Option ℕ → State Tree → State Tree × ℕ)
      → (t k : ℕ) → State Tree
      → State Tree × ℕ
  dispatch handler t k s =
      let s' = touch_table t s in handler t k (find_entry t k s'.tables) (ix.find s.index t k) s'

  unfoldable pub read : (t k : ℕ) → State Tree → State Tree × ℕ
  unfolding dispatch read_entry
  read = dispatch read_entry

  unfoldable pub insert : (t k : ℕ) → State Tree → State Tree × ℕ
  unfolding dispatch insert_entry
  insert = dispatch insert_entry

  unfoldable pub update : (t k : ℕ) → State Tree → State Tree × ℕ
  unfolding dispatch update_entry
  update = dispatch update_entry

  unfoldable pub upsert : (t k : ℕ) → State Tree → State Tree × ℕ
  unfolding dispatch upsert_entry
  upsert = dispatch upsert_entry

  unfoldable pub write : (t k : ℕ) → State Tree → State Tree × ℕ
  unfolding upsert
  write = upsert

  unfoldable pub remove : (t k : ℕ) → State Tree → State Tree × ℕ
  unfolding dispatch remove_entry
  remove = dispatch remove_entry
