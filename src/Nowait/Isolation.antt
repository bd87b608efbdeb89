-- ===== src/Nowait/Isolation.antt =====
-- nowait.hpp: what the calls before the commit leave as it was.
use tpcc_runner.Base.{ℕ, ◌≤◌, ◌<◌, ◌≡◌, Option, none, some, arith}
use tpcc_runner.Nowait.Defs.{Element, Index, State, touch_table}
use tpcc_runner.Nowait.Access.{
  read_entry, update_entry, remove_entry, insert_entry, upsert_entry, insert_new, dispatch,
  lock_for_read, lock_for_update, upgrade_for_update, write_again, lock_for_remove,
  upgrade_for_remove, drop_write,
}
use tpcc_runner.Nowait.Calls.{Call, reads, inserts, updates, upserts, removes, perform}

-- What s had allocated is as it was: the bytes of its records, and the record of each value.
pub record IsUntouched {tree : Type 0} (s s' : State tree) : Type 0 where
  pub grows : s.next ≤ s'.next
  pub same_bytes : (p : ℕ) → p < s.next → s'.bytes p ≡ s.bytes p
  pub same_rec : (p : ℕ) → p < s.next → s'.rec_of p ≡ s.rec_of p

module _ {tree : Type 0} (t k : ℕ) (s : State tree) where
  lock_for_read-IsUntouched : (val : ℕ) → IsUntouched s (lock_for_read t k val s).0
  unfolding lock_for_read
  lock_for_read-IsUntouched val = ground arith

  lock_for_update-IsUntouched : (val : ℕ) → IsUntouched s (lock_for_update t k val s).0
  unfolding lock_for_update
  lock_for_update-IsUntouched val = ground arith

  lock_for_remove-IsUntouched : (val : ℕ) → IsUntouched s (lock_for_remove t k val s).0
  unfolding lock_for_remove
  lock_for_remove-IsUntouched val = ground arith

  upgrade_for_update-IsUntouched : (e : Element) → IsUntouched s (upgrade_for_update t k e s).0
  unfolding upgrade_for_update
  upgrade_for_update-IsUntouched e = ground arith

  upgrade_for_remove-IsUntouched : (e : Element) → IsUntouched s (upgrade_for_remove t k e s).0
  unfolding upgrade_for_remove
  upgrade_for_remove-IsUntouched e = ground arith

  write_again-IsUntouched : (e : Element) → IsUntouched s (write_again t k e s).0
  unfolding write_again
  write_again-IsUntouched e = ground arith

  drop_write-IsUntouched : (e : Element) → IsUntouched s (drop_write t k e s).0
  unfolding drop_write
  drop_write-IsUntouched e = ground arith

  untouched : IsUntouched s s
  untouched = ground arith

  read_entry-IsUntouched :
      (o : Option Element) (found : Option ℕ) → IsUntouched s (read_entry t k o found s).0
  unfolding read_entry
  read_entry-IsUntouched none none = untouched
  read_entry-IsUntouched none (some val) = lock_for_read-IsUntouched val
  read_entry-IsUntouched (some e) found = ground arith

  update_entry-IsUntouched :
      (o : Option Element) (found : Option ℕ) → IsUntouched s (update_entry t k o found s).0
  unfolding update_entry
  update_entry-IsUntouched none none = untouched
  update_entry-IsUntouched none (some val) = lock_for_update-IsUntouched val
  update_entry-IsUntouched (some e) found = ground arith

  remove_entry-IsUntouched :
      (o : Option Element) (found : Option ℕ) → IsUntouched s (remove_entry t k o found s).0
  unfolding remove_entry
  remove_entry-IsUntouched none none = untouched
  remove_entry-IsUntouched none (some val) = lock_for_remove-IsUntouched val
  remove_entry-IsUntouched (some e) found = ground arith

module _ (ix : Index) (t k : ℕ) (s : State ix.Tree) where
  insert_new-IsUntouched : IsUntouched s (insert_new ix t k s).0
  unfolding insert_new
  insert_new-IsUntouched = ground arith

  insert_entry-IsUntouched :
      (o : Option Element) (found : Option ℕ) → IsUntouched s (insert_entry ix t k o found s).0
  unfolding insert_entry
  insert_entry-IsUntouched none none = insert_new-IsUntouched
  insert_entry-IsUntouched none (some val) = untouched t k s
  insert_entry-IsUntouched (some e) found = ground arith

  upsert_entry-IsUntouched :
      (o : Option Element) (found : Option ℕ) → IsUntouched s (upsert_entry ix t k o found s).0
  unfolding upsert_entry
  upsert_entry-IsUntouched none none = insert_new-IsUntouched
  upsert_entry-IsUntouched none (some val) = lock_for_update-IsUntouched t k s val
  upsert_entry-IsUntouched (some e) found = ground arith

from_touch :
    {tree : Type 0} (t : ℕ) (s s' : State tree)
    → IsUntouched (touch_table t s) s'
    → IsUntouched s s'
from_touch t s s' u = record { grows = u.grows; same_bytes = u.same_bytes; same_rec = u.same_rec }

-- No dirty write: whatever a call does, granted or refused, the bytes of every record and the
-- record of every value that were allocated before the call are as they were, so the others read
-- what they would have read.
pub perform-IsUntouched :
    (ix : Index) (c : Call) (s : State ix.Tree) → IsUntouched s (perform ix c s).0
unfolding perform dispatch
perform-IsUntouched ix (reads t k) s =
    from_touch t s _ (read_entry-IsUntouched t k (touch_table t s) _ _)
perform-IsUntouched ix (updates t k) s =
    from_touch t s _ (update_entry-IsUntouched t k (touch_table t s) _ _)
perform-IsUntouched ix (removes t k) s =
    from_touch t s _ (remove_entry-IsUntouched t k (touch_table t s) _ _)
perform-IsUntouched ix (inserts t k) s =
    from_touch t s _ (insert_entry-IsUntouched ix t k (touch_table t s) _ _)
perform-IsUntouched ix (upserts t k) s =
    from_touch t s _ (upsert_entry-IsUntouched ix t k (touch_table t s) _ _)
