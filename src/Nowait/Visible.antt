-- ===== src/Nowait/Visible.antt =====
-- nowait.hpp: what a transaction reads of its own writes.
use tpcc_runner.Base.{
  ℕ, ◌+◌, ◌≡◌, ◌≢◌, refl, Bool, true, false, Option, none, some, arith, ◌∙◌, sym, ap,
}
use tpcc_runner.Base.Tables.{find_entry, find_entry-assign_entry, find_entry-touch}
use tpcc_runner.Nowait.Defs.{
  ReadWriteType, read_type, update_type, insert_type, delete_type, Element, Index, State,
  touch_table,
}
use tpcc_runner.Nowait.Access.{
  lock_for_update, upgrade_for_update, write_again, lock_for_remove, upgrade_for_remove, drop_write,
  read_entry, update_entry, remove_entry, insert_entry, upsert_entry, insert_new, dispatch, read,
  update, remove,
}
use tpcc_runner.Nowait.Calls.{Call, reads, inserts, updates, upserts, removes, perform}

-- The local record of an element that was written, and whether the element was deleted.
abbrev pub local_rec : Option Element → ℕ
local_rec none = 0
local_rec (some e) = elim e.rwt [ update_type ↦ e.rec | insert_type ↦ e.rec | _ ↦ 0 ]

abbrev pub is_deleted : Option Element → Bool
is_deleted none = false
is_deleted (some e) = elim e.rwt [ delete_type ↦ true | _ ↦ false ]

-- A call that returns a record has it as the key's local record.
abbrev Wrote : {tree : Type 0} (t k : ℕ) → State tree × ℕ → Type 0
Wrote t k r = r.1 ≢ 0 → local_rec (find_entry t k r.0.tables) ≡ r.1

abbrev Deleted : {tree : Type 0} (t k : ℕ) → State tree × ℕ → Type 0
Deleted t k r = r.1 ≢ 0 → is_deleted (find_entry t k r.0.tables) ≡ true

module _ {tree : Type 0} (t k : ℕ) (s : State tree) where
  lock_for_update-Wrote : (val : ℕ) → Wrote t k (lock_for_update t k val s)
  unfolding lock_for_update
  lock_for_update-Wrote val ne = ground (
    arith,
    find_entry-assign_entry t k t k
        (record { rec = s.next; rwt = update_type; is_new = false; val = val }) s.tables,
  )

  upgrade_for_update-Wrote : (e : Element) → Wrote t k (upgrade_for_update t k e s)
  unfolding upgrade_for_update
  upgrade_for_update-Wrote e ne = ground (
    arith,
    find_entry-assign_entry t k t k (record e { rec = s.next; rwt = update_type }) s.tables,
  )

  write_again-Wrote : (e : Element) → Wrote t k (write_again t k e s)
  unfolding write_again
  write_again-Wrote e ne = ground (
    arith,
    find_entry-assign_entry t k t k (record e { rec = s.next; rwt = update_type }) s.tables,
  )

  update_entry-Wrote :
      (o : Option Element) (found : Option ℕ)
      → find_entry t k s.tables ≡ o
      → Wrote t k (update_entry t k o found s)
  unfolding update_entry
  update_entry-Wrote none none at ne = absurd (ne refl)
  update_entry-Wrote none (some val) at ne = lock_for_update-Wrote val ne
  update_entry-Wrote (some e) found at ne = by_type e.rwt refl ne
    where
      by_type : (w : ReadWriteType) → e.rwt ≡ w → Wrote t k (update_entry t k (some e) found s)
      by_type read_type r = rw (r, update_entry) (upgrade_for_update-Wrote e)
      by_type update_type r = rw (r, update_entry) (λ n. ground arith)
      by_type insert_type r = rw (r, update_entry) (λ n. ground arith)
      by_type delete_type r = rw (r, update_entry) (λ n. absurd (n refl))

  remove_entry-Deleted :
      (o : Option Element) (found : Option ℕ)
      → find_entry t k s.tables ≡ o
      → Deleted t k (remove_entry t k o found s)
  unfolding remove_entry lock_for_remove upgrade_for_remove drop_write
  remove_entry-Deleted none none at ne = absurd (ne refl)
  remove_entry-Deleted none (some val) at ne = ground (
    arith,
    find_entry-assign_entry t k t k
        (record { rec = 0; rwt = delete_type; is_new = false; val = val }) s.tables,
  )
  remove_entry-Deleted (some e) found at ne = ground (
    arith,
    find_entry-assign_entry t k t k (record e { rwt = delete_type }) s.tables,
    find_entry-assign_entry t k t k (record e { rec = 0; rwt = delete_type }) s.tables,
  )

module _ (ix : Index) (t k : ℕ) (s : State ix.Tree) where
  insert_new-Wrote : Wrote t k (insert_new ix t k s)
  unfolding insert_new
  insert_new-Wrote ne = ground (
    arith,
    find_entry-assign_entry t k t k
        (record { rec = s.next + 1; rwt = insert_type; is_new = true; val = s.next }) s.tables,
  )

  insert_entry-Wrote :
      (o : Option Element) (found : Option ℕ)
      → find_entry t k s.tables ≡ o
      → Wrote t k (insert_entry ix t k o found s)
  unfolding insert_entry
  insert_entry-Wrote none none at ne = insert_new-Wrote ne
  insert_entry-Wrote none (some val) at ne = absurd (ne refl)
  insert_entry-Wrote (some e) found at ne = ground (arith, write_again-Wrote t k s e)

  upsert_entry-Wrote :
      (o : Option Element) (found : Option ℕ)
      → find_entry t k s.tables ≡ o
      → Wrote t k (upsert_entry ix t k o found s)
  unfolding upsert_entry
  upsert_entry-Wrote none none at ne = insert_new-Wrote ne
  upsert_entry-Wrote none (some val) at ne = lock_for_update-Wrote t k s val ne
  upsert_entry-Wrote (some e) found at ne = by_type e.rwt refl ne
    where
      by_type : (w : ReadWriteType) → e.rwt ≡ w → Wrote t k (upsert_entry ix t k (some e) found s)
      by_type read_type r = rw (r, upsert_entry) (upgrade_for_update-Wrote t k s e)
      by_type update_type r = rw (r, upsert_entry) (λ n. ground arith)
      by_type insert_type r = rw (r, upsert_entry) (λ n. ground arith)
      by_type delete_type r = rw (r, upsert_entry) (write_again-Wrote t k s e)

abbrev table_of : Call → ℕ
table_of (reads t k) = t
table_of (inserts t k) = t
table_of (updates t k) = t
table_of (upserts t k) = t
table_of (removes t k) = t

abbrev key_of : Call → ℕ
key_of (reads t k) = k
key_of (inserts t k) = k
key_of (updates t k) = k
key_of (upserts t k) = k
key_of (removes t k) = k

abbrev writes : Call → Bool
writes (reads t k) = false
writes (removes t k) = false
writes _ = true

module _ (ix : Index) where
  perform-Wrote :
      (c : Call) (s : State ix.Tree)
      → writes c ≡ true
      → Wrote (table_of c) (key_of c) (perform ix c s)
  unfolding perform dispatch
  perform-Wrote (reads t k) s w = cc
  perform-Wrote (removes t k) s w = cc
  perform-Wrote (inserts t k) s w = insert_entry-Wrote ix t k (touch_table t s) _ _ refl
  perform-Wrote (updates t k) s w = update_entry-Wrote t k (touch_table t s) _ _ refl
  perform-Wrote (upserts t k) s w = upsert_entry-Wrote ix t k (touch_table t s) _ _ refl

  read-local :
      (t k p : ℕ) (s : State ix.Tree)
      → local_rec (find_entry t k s.tables) ≡ p
      → p ≢ 0
      → (read ix t k s).1 ≡ p
  unfolding read dispatch
  read-local t k p s e ne = rw (find_entry-touch t k t s.tables) (own (find_entry t k s.tables) e)
    where
      own :
          (o : Option Element)
          → local_rec o ≡ p
          → (read_entry t k o (ix.find s.index t k) (touch_table t s)).1 ≡ p
      own none e = absurd (ne (sym e))
      own (some x) e = ground arith

  -- Read your own writes: when an insert, update or upsert is granted, a read of the key that
  -- follows returns the very record that the call handed out.
  pub read_own_write :
      (c : Call) (s : State ix.Tree)
      → writes c ≡ true
      → (perform ix c s).1 ≢ 0
      → (read ix (table_of c) (key_of c) (perform ix c s).0).1 ≡ (perform ix c s).1
  read_own_write c s w ne =
      read-local (table_of c) (key_of c) _ (perform ix c s).0 (perform-Wrote c s w ne) ne

  deleted-refused :
      (t k : ℕ) (o : Option Element) (found : Option ℕ) (s : State ix.Tree)
      → is_deleted o ≡ true
      → ((read_entry t k o found s).1 ≡ 0)
        × ((update_entry t k o found s).1 ≡ 0)
        × ((remove_entry t k o found s).1 ≡ 0)
  unfolding read_entry update_entry remove_entry
  deleted-refused t k none found s d = cc
  deleted-refused t k (some e) found s d = ground arith

  -- After a removal that is granted, a read, an update and a second removal of the key are refused.
  removed_is_gone :
      (t k : ℕ) (s : State ix.Tree)
      → (remove ix t k s).1 ≢ 0
      → let s' = (remove ix t k s).0 in
        ((read ix t k s').1 ≡ 0) × ((update ix t k s').1 ≡ 0) × ((remove ix t k s').1 ≡ 0)
  unfolding read update remove dispatch
  removed_is_gone t k s ne =
      let s' = (remove ix t k s).0 in
      deleted-refused t k _ _ (touch_table t s') (
        ap is_deleted (find_entry-touch t k t s'.tables)
        ∙ remove_entry-Deleted t k (touch_table t s) _ _ refl ne)
