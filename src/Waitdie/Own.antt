-- ===== src/Waitdie/Own.antt =====
-- waitdie.hpp: what a transaction reads of its own writes.
use tpcc_runner.Base.{
  ℕ, ◌≡◌, ◌≢◌, refl, true, false, Option, none, some, arith, ◌∙◌, sym, ap, Bool-cases, Option-cases,
  inl, inr,
}
use tpcc_runner.Base.Tables.{find_entry, find_entry-assign_entry, find_entry-touch}
use tpcc_runner.Nowait.Defs.{Index}
use tpcc_runner.Waitdie.Lock.{try_lock, try_lock_upgrade}
use tpcc_runner.Waitdie.Store.{
  ReadWriteType, read_type, update_type, insert_type, delete_type, Element, State, Reply, pointer,
  exception, touch_table, is_detached_from_tree, unlock_val, Grant, held, dies, fails, place,
  allocate_rec, copy_rec, allocate_val, acquire,
}
use tpcc_runner.Waitdie.Access.{
  when_held, give_back, write_again, place_update, place_upgrade, lock_for_update,
  upgrade_for_update, placed_new, insert_at, lock_next, insert_under, insert_new, update_entry,
  insert_entry, upsert_entry, read_entry, dispatch, read, insert, update, upsert,
}

-- The local record of an element that was written.
abbrev local_rec : Option Element → ℕ
local_rec none = 0
local_rec (some e) = elim e.rwt [ update_type ↦ e.rec | insert_type ↦ e.rec | _ ↦ 0 ]

-- A call that returns a record has it as the key's local record.
unfoldable Wrote : {tree : Type 0} (t k : ℕ) → State tree × Reply → Type 0
Wrote t k (s, pointer p) = p ≢ 0 → local_rec (find_entry t k s.tables) ≡ p
Wrote t k (s, exception) = Unit {0}

module _ {tree : Type 0} (t k : ℕ) where
  when_held-Wrote :
      (f : State tree → State tree × Reply)
      → ((l : State tree) → Wrote t k (f l))
      → (g : Grant tree) → Wrote t k (when_held f g)
  unfolding Wrote
  when_held-Wrote f h (held l) = h l
  when_held-Wrote f h (dies l) = λ ne. absurd (ne refl)
  when_held-Wrote f h (fails l) = tt

  give_back-Wrote : (s : State tree) (o : Option (State tree)) → Wrote t k (give_back s o)
  unfolding Wrote
  give_back-Wrote s none = tt
  give_back-Wrote s (some s') = λ ne. absurd (ne refl)

  -- The element that was placed has the record that is returned.
  placed-Wrote :
      (e : Element) (s : State tree)
      → local_rec (some e) ≡ e.rec
      → Wrote t k (place t k e s, pointer e.rec)
  unfolding Wrote
  placed-Wrote e s h ne = ground (arith, h, find_entry-assign_entry t k t k e s.tables)

  write_again-Wrote : (e : Element) (s : State tree) → Wrote t k (write_again t k e s)
  unfolding write_again Wrote
  write_again-Wrote e s =
      placed-Wrote (record e { rec = s.next; rwt = update_type }) (allocate_rec s) refl

  place_upgrade-Wrote : (e : Element) (s : State tree) → Wrote t k (place_upgrade t k e s)
  unfolding place_upgrade Wrote
  place_upgrade-Wrote e s =
      placed-Wrote (record e { rec = s.next; rwt = update_type }) (copy_rec (s.rec_of e.val) s) refl

  place_update-Wrote : (val : ℕ) (s : State tree) → Wrote t k (place_update t k val s)
  unfolding place_update
  place_update-Wrote val s = elim (Bool-cases (is_detached_from_tree val s)) [
    | inl d ↦ rw d (give_back-Wrote s (unlock_val val s))
    | inr d ↦ rw d (
        placed-Wrote (record { rec = s.next; rwt = update_type; is_new = false; val = val })
          (copy_rec (s.rec_of val) s) refl)
  ]

-- The record of a reply.
abbrev address : Reply → ℕ
address (pointer p) = p
address exception = 0

Wrote-rec :
    {tree : Type 0} (t k p : ℕ) (r : State tree × Reply)
    → Wrote t k r
    → r.1 ≡ pointer p
    → p ≢ 0
    → local_rec (find_entry t k r.0.tables) ≡ p
unfolding Wrote
Wrote-rec t k p (s, pointer q) w e ne =
    let same : q ≡ p = ap address e in w (λ z. ne (sym same ∙ z)) ∙ same
Wrote-rec t k p (s, exception) w e ne = absurd (ne (sym (ap address e)))

-- The calls that write.
pub data Writing : Type 0 where
  inserts updates upserts : Writing

module _ (ix : Index) (wake : State ix.Tree → State ix.Tree) (t k : ℕ) where
  lock_for_update-Wrote :
      (val : ℕ) (s : State ix.Tree) → Wrote t k (lock_for_update ix wake t k val s)
  unfolding lock_for_update
  lock_for_update-Wrote val s =
      when_held-Wrote t k (place_update t k val) (place_update-Wrote t k val)
        (acquire wake try_lock val s)

  upgrade_for_update-Wrote :
      (e : Element) (s : State ix.Tree) → Wrote t k (upgrade_for_update ix wake t k e s)
  unfolding upgrade_for_update
  upgrade_for_update-Wrote e s =
      when_held-Wrote t k (place_upgrade t k e) (place_upgrade-Wrote t k e)
        (acquire wake try_lock_upgrade e.val s)

  placed_new-Wrote :
      (new_val : ℕ) (o : Option (State ix.Tree)) (s : State ix.Tree)
      → Wrote t k (placed_new ix wake t k new_val o s)
  unfolding placed_new Wrote
  placed_new-Wrote new_val none s = tt
  placed_new-Wrote new_val (some s') s =
      placed-Wrote t k (record { rec = s'.next; rwt = insert_type; is_new = true; val = new_val })
        (allocate_rec s') refl

  insert_at-Wrote :
      (next_val new_val : ℕ) (s : State ix.Tree)
      → Wrote t k (insert_at ix wake t k next_val new_val s)
  unfolding insert_at Wrote
  insert_at-Wrote next_val new_val s = elim (Option-cases (ix.insert s.index t k new_val)) [
    | inl e ↦ rw (e, insert_at) (λ ne. absurd (ne refl))
    | inr (index, e) ↦
        let indexed : State ix.Tree = record s { index = index } in
        rw (e, insert_at) (placed_new-Wrote new_val (unlock_val next_val indexed) indexed)
  ]

  insert_under-Wrote :
      (next_val : ℕ) (s : State ix.Tree) → Wrote t k (insert_under ix wake t k next_val s)
  unfolding insert_under
  insert_under-Wrote next_val s =
      when_held-Wrote t k (insert_at ix wake t k next_val s.next) (insert_at-Wrote next_val s.next)
        (acquire wake try_lock s.next (allocate_val s))

  insert_new-Wrote : (s : State ix.Tree) → Wrote t k (insert_new ix wake t k s)
  unfolding insert_new Wrote
  insert_new-Wrote s = elim (Option-cases (ix.get_next_kv s.index t k)) [
    | inl e ↦ rw e (λ ne. absurd (ne refl))
    | inr ((next_key, next_val), e) ↦ rw e (
        when_held-Wrote t k (insert_under ix wake t k next_val) (insert_under-Wrote next_val)
          (lock_next ix wake (find_entry t next_key s.tables) next_val s))
  ]

  update_entry-Wrote :
      (o : Option Element) (found : Option ℕ) (s : State ix.Tree)
      → find_entry t k s.tables ≡ o
      → Wrote t k (update_entry ix wake t k o found s)
  unfolding update_entry Wrote
  update_entry-Wrote none none s at = λ ne. absurd (ne refl)
  update_entry-Wrote none (some val) s at = lock_for_update-Wrote val s
  update_entry-Wrote (some e) found s at = by_type e.rwt refl
    where
      by_type :
          (w : ReadWriteType) → e.rwt ≡ w → Wrote t k (update_entry ix wake t k (some e) found s)
      by_type read_type r = rw r (upgrade_for_update-Wrote e s)
      by_type update_type r = rw r (λ n. ground arith)
      by_type insert_type r = rw r (λ n. ground arith)
      by_type delete_type r = rw r (λ n. absurd (n refl))

  insert_entry-Wrote :
      (o : Option Element) (found : Option ℕ) (s : State ix.Tree)
      → Wrote t k (insert_entry ix wake t k o found s)
  unfolding insert_entry Wrote
  insert_entry-Wrote none none s = insert_new-Wrote s
  insert_entry-Wrote none (some val) s = λ ne. absurd (ne refl)
  insert_entry-Wrote (some e) found s = by_type e.rwt refl
    where
      by_type :
          (w : ReadWriteType) → e.rwt ≡ w → Wrote t k (insert_entry ix wake t k (some e) found s)
      by_type read_type r = rw r (λ n. absurd (n refl))
      by_type update_type r = rw r (λ n. absurd (n refl))
      by_type insert_type r = rw r (λ n. absurd (n refl))
      by_type delete_type r = rw r (write_again-Wrote t k e s)

  upsert_entry-Wrote :
      (o : Option Element) (found : Option ℕ) (s : State ix.Tree)
      → find_entry t k s.tables ≡ o
      → Wrote t k (upsert_entry ix wake t k o found s)
  unfolding upsert_entry Wrote
  upsert_entry-Wrote none none s at = insert_new-Wrote s
  upsert_entry-Wrote none (some val) s at = lock_for_update-Wrote val s
  upsert_entry-Wrote (some e) found s at = by_type e.rwt refl
    where
      by_type :
          (w : ReadWriteType) → e.rwt ≡ w → Wrote t k (upsert_entry ix wake t k (some e) found s)
      by_type read_type r = rw r (upgrade_for_update-Wrote e s)
      by_type update_type r = rw r (λ n. ground arith)
      by_type insert_type r = rw r (λ n. ground arith)
      by_type delete_type r = rw r (write_again-Wrote t k e s)

  unfoldable pub perform : Writing → State ix.Tree → State ix.Tree × Reply
  unfolding insert update upsert
  perform inserts s = insert ix wake t k s
  perform updates s = update ix wake t k s
  perform upserts s = upsert ix wake t k s

  perform-Wrote : (c : Writing) (s : State ix.Tree) → Wrote t k (perform c s)
  unfolding perform insert update upsert dispatch
  perform-Wrote inserts s = insert_entry-Wrote _ _ (touch_table t s)
  perform-Wrote updates s = update_entry-Wrote _ _ (touch_table t s) refl
  perform-Wrote upserts s = upsert_entry-Wrote _ _ (touch_table t s) refl

  read-local :
      (p : ℕ) (s : State ix.Tree)
      → local_rec (find_entry t k s.tables) ≡ p
      → p ≢ 0
      → (read ix wake t k s).1 ≡ pointer p
  unfolding read dispatch
  read-local p s e ne = rw (find_entry-touch t k t s.tables) (own (find_entry t k s.tables) e)
    where
      own :
          (o : Option Element)
          → local_rec o ≡ p
          → (read_entry ix wake t k o (ix.find s.index t k) (touch_table t s)).1 ≡ pointer p
      own none e = absurd (ne (sym e))
      own (some x) e = ground arith

  -- Read your own writes: when an insert, update or upsert has returned a record, whatever it
  -- waited for on the way, a read of the key that follows returns this very record.
  pub read_after_write :
      (c : Writing) (s : State ix.Tree) (p : ℕ)
      → (perform c s).1 ≡ pointer p
      → p ≢ 0
      → (read ix wake t k (perform c s).0).1 ≡ pointer p
  read_after_write c s p e ne =
      read-local p (perform c s).0 (Wrote-rec t k p (perform c s) (perform-Wrote c s) e ne) ne
