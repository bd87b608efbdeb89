-- ===== src/Silo/WriteSet.antt =====
-- silo.hpp: over the calls of a transaction, the write set lists what it writes, each key once.
use tpcc_runner.Base.{ℕ, ◌≡◌, refl, Option, none, some, ap, sym, ◌∙◌}
use tpcc_runner.Base.Tables.{find_entry, find_entry-touch}
use tpcc_runner.Silo.Defs.{
  ReadWriteType, read_type, update_type, insert_type, delete_type, Element, NodeMap, Inserted, ok,
  not_inserted, bad_insert, Index, State, put, touch_table, get_record_pointer,
}
use tpcc_runner.Silo.Access.{
  if_latest, insert_own, upsert_own, remove_own, allocate_val, inserted, create, call, read_index,
  read, insert, update, write, upsert, remove, refuse,
}
use tpcc_runner.Silo.Isolation.{Call, reads, inserts, updates, writes, upserts, removes, perform}
use tpcc_runner.Silo.Listing.{
  written, wanted, IsListed, Listed, push-IsListed, read_value-Listed, remove_value-Listed,
  write_value-Listed, latest-Listed, own, write_read-Listed, write_deleted-Listed,
  drop_write-Listed, read_own-Listed, update_own-Listed,
}

module _ {tree : Type 0} (t k : ℕ) (s : State tree) (h : IsListed s) (e : Element)
    (at : find_entry t k s.tables ≡ some e) where
  insert_own-Listed : Listed (insert_own t k e s)
  unfolding insert_own
  insert_own-Listed = by_type e.rwt refl
    where
      by_type : (w : ReadWriteType) → e.rwt ≡ w → Listed (insert_own t k e s)
      by_type delete_type r = rw (r, insert_own) (write_deleted-Listed t k s h e at r)
      by_type w r = rw (r, insert_own) h

  upsert_own-Listed : Listed (upsert_own t k e s)
  unfolding upsert_own
  upsert_own-Listed = by_type e.rwt refl
    where
      by_type : (w : ReadWriteType) → e.rwt ≡ w → Listed (upsert_own t k e s)
      by_type read_type r = rw (r, upsert_own) (write_read-Listed t k s h e at r)
      by_type update_type r = rw (r, upsert_own) (own t k s h e (λ rec. e.rec))
      by_type insert_type r = rw (r, upsert_own) (own t k s h e (λ rec. e.rec))
      by_type delete_type r = rw (r, upsert_own) (write_deleted-Listed t k s h e at r)

  remove_own-Listed : Listed (remove_own t k e s)
  unfolding remove_own if_latest
  remove_own-Listed = by_type e.rwt refl
    where
      by_type : (w : ReadWriteType) → e.rwt ≡ w → Listed (remove_own t k e s)
      by_type read_type r =
          rw (r, remove_own)
            (latest-Listed t k s h e _
              (λ rec.
                push-IsListed t k (record e { rwt = delete_type }) s h (ap wanted at ∙ ap written r)
                  refl)
              (get_record_pointer e.val s))
      by_type update_type r = rw (r, remove_own) (drop_write-Listed t k s h e at (ap written r))
      by_type insert_type r = rw (r, remove_own) (drop_write-Listed t k s h e at (ap written r))
      by_type delete_type r = rw (r, remove_own) h

touch-IsListed : {tree : Type 0} (t : ℕ) (s : State tree) → IsListed s → IsListed (touch_table t s)
touch-IsListed t s h u j = h u j ∙ ap wanted (sym (find_entry-touch u j t s.tables))

module _ (ix : Index) where
  open ix use {Tree}

  inserted-Listed :
      (t k val : ℕ) (s : State Tree) (r : Inserted × Tree × NodeMap)
      → IsListed s
      → wanted (find_entry t k s.tables) ≡ 0
      → IsListed (inserted t k val r s).0
  unfolding inserted
  inserted-Listed t k val s (ok, index, nm) h a = push-IsListed t k _ s h a refl
  inserted-Listed t k val s (not_inserted, index, nm) h a = h
  inserted-Listed t k val s (bad_insert, index, nm) h a = push-IsListed t k _ s h a refl

  create-Listed :
      (t k : ℕ) (s : State Tree)
      → IsListed s
      → wanted (find_entry t k s.tables) ≡ 0
      → IsListed (create ix t k s).0
  unfolding create allocate_val
  create-Listed t k s h a = inserted-Listed t k s.next _ (ix.insert s.index t k s.next (s.ns t)) h a

  call-Listed :
      (own : (t k : ℕ) → Element → State Tree → Option (State Tree × ℕ))
      (found : (t k val : ℕ) → State Tree → Option (State Tree × ℕ))
      (missing : (t k : ℕ) → State Tree → Option (State Tree × ℕ))
      → ((t k : ℕ) (s : State Tree)
          → IsListed s
          → (e : Element) → find_entry t k s.tables ≡ some e
          → Listed (own t k e s))
      → ((t k : ℕ) (s : State Tree)
          → IsListed s
          → (val : ℕ) → wanted (find_entry t k s.tables) ≡ 0
          → Listed (found t k val s))
      → ((t k : ℕ) (s : State Tree)
          → IsListed s
          → wanted (find_entry t k s.tables) ≡ 0
          → Listed (missing t k s))
      → (t k : ℕ) (s : State Tree) → IsListed s
      → Listed (call ix own found missing t k s)
  unfolding call
  call-Listed own found missing a b c t k s h =
      by_entry (touch-IsListed t s h) (find_entry t k (touch_table t s).tables) refl
        (ix.find s.index t k) refl
    where
      by_entry :
          IsListed (touch_table t s)
          → (o : Option Element) → find_entry t k (touch_table t s).tables ≡ o
          → (p : Option ℕ) → ix.find s.index t k ≡ p
          → Listed (call ix own found missing t k s)
      by_entry g (some e) at p f = rw (at, call) (a t k (touch_table t s) g e at)
      by_entry g none at (some val) f =
          rw (at, f, call) (b t k (touch_table t s) g val (ap wanted at))
      by_entry g none at none f = rw (at, f, call) (c t k (touch_table t s) g (ap wanted at))

  read_index-Listed :
      (t k : ℕ) (s : State Tree)
      → IsListed s
      → wanted (find_entry t k s.tables) ≡ 0
      → (r : Option ℕ × NodeMap) → Listed (read_index t k r s)
  unfolding read_index
  read_index-Listed t k s h a (none, nm) = h
  read_index-Listed t k s h a (some val, nm) =
      read_value-Listed t k (record s { ns = put s.ns t nm }) h val a

  read-Listed : (t k : ℕ) (s : State Tree) → IsListed s → Listed (read ix t k s)
  unfolding read
  read-Listed t k s h =
      by_entry (touch-IsListed t s h) (find_entry t k (touch_table t s).tables) refl
    where
      by_entry :
          IsListed (touch_table t s)
          → (o : Option Element) → find_entry t k (touch_table t s).tables ≡ o
          → Listed (read ix t k s)
      by_entry g (some e) at = rw (at, read) (read_own-Listed t k (touch_table t s) g e at)
      by_entry g none at =
          rw (at, read)
            (read_index-Listed t k (touch_table t s) g (ap wanted at)
              (ix.find_noting s.index t k (s.ns t)))

  abbrev creates : (t k : ℕ) → State Tree → Option (State Tree × ℕ)
  creates t k s = some (create ix t k s)

  -- If the write set lists the keys of the elements that are written, each of them once, and no
  -- other, then so it does after every call, granted or refused.
  pub perform-Listed : (c : Call) (s : State Tree) → IsListed s → Listed (perform ix c s)
  unfolding perform insert update write upsert remove
  perform-Listed (reads t k) s h = read-Listed t k s h
  perform-Listed (inserts t k) s h =
      call-Listed _ (λ t k val s. some (s, 0)) creates insert_own-Listed (λ t k s g val a. g)
        create-Listed t k s h
  perform-Listed (updates t k) s h =
      call-Listed _ _ (refuse ix) update_own-Listed
        (λ t k s g. write_value-Listed t k s g update_type refl) (λ t k s g a. g) t k s h
  perform-Listed (writes t k) s h =
      call-Listed _ _ creates upsert_own-Listed
        (λ t k s g. write_value-Listed t k s g insert_type refl) create-Listed t k s h
  perform-Listed (upserts t k) s h =
      call-Listed _ _ creates upsert_own-Listed
        (λ t k s g. write_value-Listed t k s g update_type refl) create-Listed t k s h
  perform-Listed (removes t k) s h =
      call-Listed _ _ (refuse ix) remove_own-Listed remove_value-Listed (λ t k s g a. g) t k s h
