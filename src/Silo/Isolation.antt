-- ===== src/Silo/Isolation.antt =====
-- silo.hpp: what the calls before the commit leave as it was.
use tpcc_runner.Base.{
  ℕ, ◌≤◌, ◌<◌, ◌≡◌, refl, Option, none, some, arith, Bool-cases, inl, inr, if◌then◌else◌,
}
use mathlib.Core.Option
use tpcc_runner.Base.Tables.{find_entry}
use tpcc_runner.Silo.Word.{TidWord, is_same}
use tpcc_runner.Silo.Defs.{
  ReadWriteType, read_type, update_type, insert_type, delete_type, Element, NodeMap, Inserted, ok,
  not_inserted, bad_insert, Index, State, touch_table, get_record_pointer, copy_record,
}
use tpcc_runner.Silo.Access.{
  if_latest, read_value, read_own, write_value, write_read, write_deleted, update_own, insert_own,
  upsert_own, remove_value, drop_write, remove_own, allocate_val, inserted, create, call,
  read_index, read, insert, update, write, upsert, remove, refuse,
}

-- One call of a transaction, on a table and a key.
pub data Call : Type 0 where
  reads inserts updates writes upserts removes : (t k : ℕ) → Call

unfoldable pub perform : (ix : Index) → Call → State ix.Tree → Option (State ix.Tree × ℕ)
unfolding read insert update write upsert remove
perform ix (reads t k) = read ix t k
perform ix (inserts t k) = insert ix t k
perform ix (updates t k) = update ix t k
perform ix (writes t k) = write ix t k
perform ix (upserts t k) = upsert ix t k
perform ix (removes t k) = remove ix t k

-- What s had allocated is as it was: the words and the records of its values, and the bytes of its
-- records.
pub record IsUntouched {tree : Type 0} (s s' : State tree) : Type 0 where
  pub grows : s.next ≤ s'.next
  pub same_word : (p : ℕ) → p < s.next → s'.word p ≡ s.word p
  pub same_rec : (p : ℕ) → p < s.next → s'.rec_of p ≡ s.rec_of p
  pub same_bytes : (p : ℕ) → p < s.next → s'.bytes p ≡ s.bytes p

-- The same of a call, if it does not wait.
abbrev pub Untouched : {tree : Type 0} → State tree → Option (State tree × ℕ) → Type 0
Untouched s none = Unit {0}
Untouched s (some r) = IsUntouched s r.0

module _ {tree : Type 0} (t k : ℕ) (s : State tree) where
  untouched : IsUntouched s s
  untouched = ground arith

  read_value-Untouched : (val : ℕ) → Untouched s (read_value t k val s)
  unfolding read_value get_record_pointer
  read_value-Untouched val = ground arith

  write_value-Untouched : (rwt : ReadWriteType) (val : ℕ) → Untouched s (write_value rwt t k val s)
  unfolding write_value copy_record
  write_value-Untouched rwt val = ground arith

  write_read-Untouched : (e : Element) → Untouched s (write_read t k e s)
  unfolding write_read copy_record
  write_read-Untouched e = ground arith

  latest-Untouched :
      (e : Element) (f : ℕ → State tree × ℕ)
      → ((rec : ℕ) → IsUntouched s (f rec).0)
      → (o : Option (ℕ × TidWord))
      → Untouched s (Option.map (λ r. if is_same r.1 e.tw then f r.0 else (s, 0)) o)
  latest-Untouched e f h none = tt
  latest-Untouched e f h (some r) = elim (Bool-cases (is_same r.1 e.tw)) [
    | inl m ↦ rw m (h r.0)
    | inr m ↦ rw m untouched
  ]

  if_latest-Untouched :
      (e : Element) (f : ℕ → State tree × ℕ)
      → ((rec : ℕ) → IsUntouched s (f rec).0)
      → Untouched s (if_latest e f s)
  unfolding if_latest
  if_latest-Untouched e f h = latest-Untouched e f h (get_record_pointer e.val s)

  write_deleted-Untouched : (e : Element) → Untouched s (write_deleted t k e s)
  unfolding write_deleted
  write_deleted-Untouched e = if_latest-Untouched e _ (λ rec. ground arith)

  drop_write-Untouched : (e : Element) → Untouched s (drop_write t k e s)
  unfolding drop_write
  drop_write-Untouched e = if_latest-Untouched e _ (λ rec. ground arith)

  remove_value-Untouched : (val : ℕ) → Untouched s (remove_value t k val s)
  unfolding remove_value get_record_pointer
  remove_value-Untouched val = ground arith

  own : (e : Element) (p : ℕ → ℕ) → Untouched s (if_latest e (λ rec. (s, p rec)) s)
  own e p = if_latest-Untouched e (λ rec. (s, p rec)) (λ rec. untouched)

  -- A call on a key in the read-write set goes by the element's type.
  by_type :
      (a b c d : Option (State tree × ℕ))
      → Untouched s a
      → Untouched s b
      → Untouched s c
      → Untouched s d
      → (w : ReadWriteType)
      → Untouched s (elim w [ read_type ↦ a | update_type ↦ b | insert_type ↦ c | delete_type ↦ d ])
  by_type a b c d pa pb pc pd read_type = pa
  by_type a b c d pa pb pc pd update_type = pb
  by_type a b c d pa pb pc pd insert_type = pc
  by_type a b c d pa pb pc pd delete_type = pd

  read_own-Untouched : (e : Element) → Untouched s (read_own e s)
  unfolding read_own
  read_own-Untouched e =
      by_type _ _ _ _ (own e (λ rec. rec)) (own e (λ rec. e.rec)) (own e (λ rec. e.rec)) untouched
        e.rwt

  update_own-Untouched : (e : Element) → Untouched s (update_own t k e s)
  unfolding update_own
  update_own-Untouched e =
      by_type _ _ _ _ (write_read-Untouched e) (own e (λ rec. e.rec)) (own e (λ rec. e.rec))
        untouched e.rwt

  insert_own-Untouched : (e : Element) → Untouched s (insert_own t k e s)
  unfolding insert_own
  insert_own-Untouched e =
      by_type _ _ _ _ untouched untouched untouched (write_deleted-Untouched e) e.rwt

  upsert_own-Untouched : (e : Element) → Untouched s (upsert_own t k e s)
  unfolding upsert_own
  upsert_own-Untouched e =
      by_type _ _ _ _ (write_read-Untouched e) (own e (λ rec. e.rec)) (own e (λ rec. e.rec))
        (write_deleted-Untouched e) e.rwt

  remove_own-Untouched : (e : Element) → Untouched s (remove_own t k e s)
  unfolding remove_own
  remove_own-Untouched e =
      by_type _ _ _ _ (if_latest-Untouched e _ (λ rec. ground arith)) (drop_write-Untouched e)
        (drop_write-Untouched e) untouched e.rwt

module _ (ix : Index) where
  open ix use {Tree}

  inserted-IsUntouched :
      (t k : ℕ) (s : State Tree) (r : Inserted × Tree × NodeMap)
      → IsUntouched s (inserted t k s.next r (allocate_val s)).0
  unfolding inserted allocate_val
  inserted-IsUntouched t k s (ok, i, nm) = ground arith
  inserted-IsUntouched t k s (not_inserted, i, nm) = ground arith
  inserted-IsUntouched t k s (bad_insert, i, nm) = ground arith

  create-IsUntouched : (t k : ℕ) (s : State Tree) → IsUntouched s (create ix t k s).0
  unfolding create
  create-IsUntouched t k s = inserted-IsUntouched t k s (ix.insert s.index t k s.next (s.ns t))

  from_touch :
      (t : ℕ) (s : State Tree) (o : Option (State Tree × ℕ))
      → Untouched (touch_table t s) o
      → Untouched s o
  from_touch t s none u = tt
  from_touch t s (some r) u = record {
    grows = u.grows;
    same_word = u.same_word;
    same_rec = u.same_rec;
    same_bytes = u.same_bytes;
  }

  call-Untouched :
      (own : (t k : ℕ) → Element → State Tree → Option (State Tree × ℕ))
      (found : (t k val : ℕ) → State Tree → Option (State Tree × ℕ))
      (missing : (t k : ℕ) → State Tree → Option (State Tree × ℕ))
      → ((t k : ℕ) (s : State Tree) (e : Element) → Untouched s (own t k e s))
      → ((t k : ℕ) (s : State Tree) (val : ℕ) → Untouched s (found t k val s))
      → ((t k : ℕ) (s : State Tree) → Untouched s (missing t k s))
      → (t k : ℕ) (s : State Tree) → Untouched s (call ix own found missing t k s)
  unfolding call
  call-Untouched own found missing a b c t k s =
      from_touch t s (call ix own found missing t k s)
        (by_entry (find_entry t k (touch_table t s).tables) refl (ix.find s.index t k) refl)
    where
      by_entry :
          (o : Option Element)
          → find_entry t k (touch_table t s).tables ≡ o
          → (p : Option ℕ) → ix.find s.index t k ≡ p
          → Untouched (touch_table t s) (call ix own found missing t k s)
      by_entry (some e) at p f = rw (at, call) (a t k (touch_table t s) e)
      by_entry none at (some val) f = rw (at, f, call) (b t k (touch_table t s) val)
      by_entry none at none f = rw (at, f, call) (c t k (touch_table t s))

  read_index-Untouched :
      (t k : ℕ) (s : State Tree) (r : Option ℕ × NodeMap) → Untouched s (read_index t k r s)
  unfolding read_index read_value get_record_pointer
  read_index-Untouched t k s (none, nm) = ground arith
  read_index-Untouched t k s (some val, nm) = ground arith

  read-Untouched : (t k : ℕ) (s : State Tree) → Untouched s (read ix t k s)
  unfolding read
  read-Untouched t k s =
      from_touch t s (read ix t k s) (by_entry (find_entry t k (touch_table t s).tables) refl)
    where
      by_entry :
          (o : Option Element)
          → find_entry t k (touch_table t s).tables ≡ o
          → Untouched (touch_table t s) (read ix t k s)
      by_entry (some e) at = rw (at, read) (read_own-Untouched t k (touch_table t s) e)
      by_entry none at =
          rw (at, read)
            (read_index-Untouched t k (touch_table t s) (ix.find_noting s.index t k (s.ns t)))

  abbrev creates : (t k : ℕ) → State Tree → Option (State Tree × ℕ)
  creates t k s = some (create ix t k s)

  -- No dirty write: whatever a call does, granted, refused or waiting, the words and the records of
  -- all values and the bytes of all records that were allocated before are as they were.
  pub perform-Untouched : (c : Call) (s : State Tree) → Untouched s (perform ix c s)
  unfolding perform insert update write upsert remove
  perform-Untouched (reads t k) s = read-Untouched t k s
  perform-Untouched (inserts t k) s =
      call-Untouched _ (λ t k val s. some (s, 0)) creates insert_own-Untouched
        (λ t k s val. untouched t k s) create-IsUntouched t k s
  perform-Untouched (updates t k) s =
      call-Untouched _ _ (refuse ix) update_own-Untouched
        (λ t k s. write_value-Untouched t k s update_type) untouched t k s
  perform-Untouched (writes t k) s =
      call-Untouched _ _ creates upsert_own-Untouched
        (λ t k s. write_value-Untouched t k s insert_type) create-IsUntouched t k s
  perform-Untouched (upserts t k) s =
      call-Untouched _ _ creates upsert_own-Untouched
        (λ t k s. write_value-Untouched t k s update_type) create-IsUntouched t k s
  perform-Untouched (removes t k) s =
      call-Untouched _ _ (refuse ix) remove_own-Untouched remove_value-Untouched untouched t k s
