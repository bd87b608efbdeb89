-- ===== src/Nowait/Calls.antt =====
-- nowait.hpp: the calls of one transaction in sequence, and the locks that they take.
use tpcc_runner.Base.{ℕ, ◌+◌, ◌<◌, ◌≡◌, refl, true, Option, none, some, ℤ, ◌+ℤ◌, arith, ◌∙◌}
use tpcc_runner.Base.Tables.{find_entry, weight-assign_entry, weight-touch, find_entry-touch}
use tpcc_runner.Rwlock.Calls.{try_lock, unlock}
use tpcc_runner.Nowait.Defs.{
  ReadWriteType, read_type, update_type, insert_type, delete_type, Element, Index, State,
  touch_table,
}
use tpcc_runner.Nowait.Access.{
  read_entry, update_entry, remove_entry, insert_entry, upsert_entry, insert_new, insert_before,
  dispatch, read, insert, update, upsert, remove,
}
use tpcc_runner.Nowait.Locks.{
  shares, owns, IsHeld, lock_for_read-IsHeld, lock_for_update-IsHeld, lock_for_remove-IsHeld,
  upgrade_for_update-IsHeld, upgrade_for_remove-IsHeld, drop_write-IsHeld, write_again-IsHeld,
}

-- One call of a transaction, on a table and a key.
pub data Call : Type 0 where
  reads inserts updates upserts removes : (t k : ℕ) → Call

pub touch-IsHeld :
    {tree : Type 0} (env : ℕ → ℤ) (t : ℕ) (s : State tree)
    → IsHeld env s
    → IsHeld env (touch_table t s)
touch-IsHeld env t s h = record {
  balance = λ v.
      omega
        (arith, h.balance v, weight-touch (owns v) t s.tables, weight-touch (shares v) t s.tables);
  fresh = λ v le.
      let (e, o, x) = h.fresh v le in
      (
        e,
        omega (arith, o, weight-touch (owns v) t s.tables),
        omega (arith, x, weight-touch (shares v) t s.tables),
      );
}

-- The value found, if any, is one that has been allocated.
abbrev pub IsAllocated : {tree : Type 0} → State tree → Option ℕ → Type 0
IsAllocated s none = Unit {0}
IsAllocated s (some val) = val < s.next

module _ {tree : Type 0} (env : ℕ → ℤ) (t k : ℕ) (s : State tree) (h : IsHeld env s) where
  pub read_entry-IsHeld :
      (o : Option Element)
      → find_entry t k s.tables ≡ o
      → (found : Option ℕ) → IsAllocated s found
      → IsHeld env (read_entry t k o found s).0
  unfolding read_entry
  read_entry-IsHeld none at none a = h
  read_entry-IsHeld none at (some val) a = lock_for_read-IsHeld env t k s h val at a
  read_entry-IsHeld (some e) at found a = by_type e.rwt refl
    where
      by_type : (w : ReadWriteType) → e.rwt ≡ w → IsHeld env (read_entry t k (some e) found s).0
      by_type read_type r = rw (r, read_entry) h
      by_type w r = rw (r, read_entry) h

  pub update_entry-IsHeld :
      (o : Option Element)
      → find_entry t k s.tables ≡ o
      → (found : Option ℕ) → IsAllocated s found
      → IsHeld env (update_entry t k o found s).0
  unfolding update_entry
  update_entry-IsHeld none at none a = h
  update_entry-IsHeld none at (some val) a = lock_for_update-IsHeld env t k s h val at a
  update_entry-IsHeld (some e) at found a = by_type e.rwt refl
    where
      by_type : (w : ReadWriteType) → e.rwt ≡ w → IsHeld env (update_entry t k (some e) found s).0
      by_type read_type r = rw (r, update_entry) (upgrade_for_update-IsHeld env t k s h e at r)
      by_type w r = rw (r, update_entry) h

  pub remove_entry-IsHeld :
      (o : Option Element)
      → find_entry t k s.tables ≡ o
      → (found : Option ℕ) → IsAllocated s found
      → IsHeld env (remove_entry t k o found s).0
  unfolding remove_entry
  remove_entry-IsHeld none at none a = h
  remove_entry-IsHeld none at (some val) a = lock_for_remove-IsHeld env t k s h val at a
  remove_entry-IsHeld (some e) at found a = by_type e.rwt refl
    where
      by_type : (w : ReadWriteType) → e.rwt ≡ w → IsHeld env (remove_entry t k (some e) found s).0
      by_type read_type r = rw (r, remove_entry) (upgrade_for_remove-IsHeld env t k s h e at r)
      by_type update_type r =
          rw (r, remove_entry) (drop_write-IsHeld env t k s h e at (λ x. ground arith))
      by_type insert_type r =
          rw (r, remove_entry) (drop_write-IsHeld env t k s h e at (λ x. ground arith))
      by_type delete_type r = rw (r, remove_entry) h

-- What the calls need of the index: a key that it does not have can be inserted, and the values it
-- returns are allocated. The key after an inserted one must not be one of the transaction's own.
pub record IsUsable (ix : Index) (s : State ix.Tree) : Type 0 where
  pub inserts_missing :
      (t k val : ℕ)
      → ix.find s.index t k ≡ none
      → (index : ix.Tree) × (ix.insert s.index t k val ≡ some index)
  pub finds_allocated : (t k : ℕ) → IsAllocated s (ix.find s.index t k)
  pub next_allocated : (t k nk nv : ℕ) → ix.get_next_kv s.index t k ≡ some (nk, nv) → nv < s.next

abbrev pub HasGap : (ix : Index) → (t k : ℕ) → State ix.Tree → Type 0
HasGap ix t k s =
    (nk nv : ℕ) → ix.get_next_kv s.index t k ≡ some (nk, nv) → find_entry t nk s.tables ≡ none

module _ (ix : Index) (env : ℕ → ℤ) (t k : ℕ) (s : State ix.Tree) (h : IsHeld env s) where
  insert_before-IsHeld :
      (nk nv : ℕ) (index : ix.Tree)
      → find_entry t k s.tables ≡ none
      → find_entry t nk s.tables ≡ none
      → nv < s.next
      → ix.insert s.index t k s.next ≡ some index
      → IsHeld env (insert_before ix t k nk nv s).0
  unfolding insert_before try_lock unlock ◌+ℤ◌
  insert_before-IsHeld nk nv index new gap old took =
      let e : Element = record {
        rec = s.next + 1;
        rwt = insert_type;
        is_new = true;
        val = s.next;
      } in
      record {
        balance = λ v. ground (
          arith,
          h.balance v,
          h.fresh v,
          weight-assign_entry (shares v) t k e s.tables,
          weight-assign_entry (owns v) t k e s.tables,
        );
        fresh = λ v le. ground (
          arith,
          h.fresh v,
          weight-assign_entry (shares v) t k e s.tables,
          weight-assign_entry (owns v) t k e s.tables,
        );
      }

  insert_new-IsHeld :
      (o : Option (ℕ × ℕ))
      → ix.get_next_kv s.index t k ≡ o
      → IsUsable ix s
      → ix.find s.index t k ≡ none
      → find_entry t k s.tables ≡ none
      → HasGap ix t k s
      → IsHeld env (insert_new ix t k s).0
  unfolding insert_new
  insert_new-IsHeld none e u missing new gap = rw (e, insert_new) h
  insert_new-IsHeld (some (nk, nv)) e u missing new gap =
      let (index, took) = u.inserts_missing t k s.next missing in
      rw (e, insert_new)
        (insert_before-IsHeld nk nv index new (gap nk nv e) (u.next_allocated t k nk nv e) took)

  insert_entry-IsHeld :
      (o : Option Element)
      → find_entry t k s.tables ≡ o
      → (found : Option ℕ) → ix.find s.index t k ≡ found
      → IsUsable ix s
      → HasGap ix t k s
      → IsHeld env (insert_entry ix t k o found s).0
  unfolding insert_entry
  insert_entry-IsHeld none at none missing u gap =
      insert_new-IsHeld (ix.get_next_kv s.index t k) refl u missing at gap
  insert_entry-IsHeld none at (some val) f u gap = h
  insert_entry-IsHeld (some e) at found f u gap = by_type e.rwt refl
    where
      by_type :
          (w : ReadWriteType) → e.rwt ≡ w → IsHeld env (insert_entry ix t k (some e) found s).0
      by_type delete_type r = rw (r, insert_entry) (write_again-IsHeld env t k s h e at r)
      by_type w r = rw (r, insert_entry) h

  upsert_entry-IsHeld :
      (o : Option Element)
      → find_entry t k s.tables ≡ o
      → (found : Option ℕ) → ix.find s.index t k ≡ found
      → IsAllocated s found
      → IsUsable ix s
      → HasGap ix t k s
      → IsHeld env (upsert_entry ix t k o found s).0
  unfolding upsert_entry
  upsert_entry-IsHeld none at none missing a u gap =
      insert_new-IsHeld (ix.get_next_kv s.index t k) refl u missing at gap
  upsert_entry-IsHeld none at (some val) f a u gap = lock_for_update-IsHeld env t k s h val at a
  upsert_entry-IsHeld (some e) at found f a u gap = by_type e.rwt refl
    where
      by_type :
          (w : ReadWriteType) → e.rwt ≡ w → IsHeld env (upsert_entry ix t k (some e) found s).0
      by_type read_type r = rw (r, upsert_entry) (upgrade_for_update-IsHeld env t k s h e at r)
      by_type delete_type r = rw (r, upsert_entry) (write_again-IsHeld env t k s h e at r)
      by_type w r = rw (r, upsert_entry) h

module _ (ix : Index) where
  unfoldable pub perform : Call → State ix.Tree → State ix.Tree × ℕ
  unfolding read insert update upsert remove
  perform (reads t k) = read ix t k
  perform (inserts t k) = insert ix t k
  perform (updates t k) = update ix t k
  perform (upserts t k) = upsert ix t k
  perform (removes t k) = remove ix t k

  -- Only a call that may insert looks at the next key.
  abbrev pub GapFor : Call → State ix.Tree → Type 0
  GapFor (inserts t k) s = HasGap ix t k s
  GapFor (upserts t k) s = HasGap ix t k s
  GapFor _ s = Unit {0}

  gap_of_touch : (t k : ℕ) (s : State ix.Tree) → HasGap ix t k s → HasGap ix t k (touch_table t s)
  gap_of_touch t k s gap nk nv e = find_entry-touch t nk t s.tables ∙ gap nk nv e

  IsUsable-touch : (t : ℕ) (s : State ix.Tree) → IsUsable ix s → IsUsable ix (touch_table t s)
  IsUsable-touch t s u = record {
    inserts_missing = u.inserts_missing;
    finds_allocated = u.finds_allocated;
    next_allocated = u.next_allocated;
  }

  -- Whatever the others hold: over an index that takes every key that it did not find, and whose
  -- values are allocated, a call leaves every lock count equal to what the others hold and what the
  -- transaction's elements stand for, whether it is granted or refused; so every lock that it has
  -- taken is recorded or given back. The further condition is on inserting calls: the key after the
  -- new one is not one that the transaction has touched.
  pub perform-IsHeld :
      (c : Call) (env : ℕ → ℤ) (s : State ix.Tree)
      → IsHeld env s
      → IsUsable ix s
      → GapFor c s
      → IsHeld env (perform c s).0
  unfolding perform dispatch
  perform-IsHeld (reads t k) env s h u g =
      read_entry-IsHeld env t k _ (touch-IsHeld env t s h) _ refl _ (u.finds_allocated t k)
  perform-IsHeld (updates t k) env s h u g =
      update_entry-IsHeld env t k _ (touch-IsHeld env t s h) _ refl _ (u.finds_allocated t k)
  perform-IsHeld (removes t k) env s h u g =
      remove_entry-IsHeld env t k _ (touch-IsHeld env t s h) _ refl _ (u.finds_allocated t k)
  perform-IsHeld (inserts t k) env s h u g =
      insert_entry-IsHeld ix env t k _ (touch-IsHeld env t s h) _ refl _ refl (IsUsable-touch t s u)
        (gap_of_touch t k s g)
  perform-IsHeld (upserts t k) env s h u g =
      upsert_entry-IsHeld ix env t k _ (touch-IsHeld env t s h) _ refl _ refl
        (u.finds_allocated t k) (IsUsable-touch t s u) (gap_of_touch t k s g)
