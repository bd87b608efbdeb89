-- ===== src/Silo/Access.antt =====
-- silo.hpp: `read`, `insert`, `update`, `write`, `upsert` and `remove`. A call returns the new
-- state and a pointer, null to make the caller abort; `none` means that it still waits for the
-- lock of a value. What other transactions do happens between the calls.
use tpcc_runner.Base.{ℕ, ◌+◌, true, false, Option, none, some, if◌then◌else◌}
use mathlib.Core.Option
use tpcc_runner.Base.Tables.{find_entry}
use tpcc_runner.Silo.Word.{TidWord, is_same, is_readable}
use tpcc_runner.Silo.Defs.{
  ReadWriteType, read_type, update_type, insert_type, delete_type, Element, NodeMap, Inserted, ok,
  not_inserted, Index, State, put, deallocate, allocate_rec, place, push_write, touch_table,
  get_record_pointer, copy_record,
}

-- The word of a value that is new in the index.
abbrev pub new_word : TidWord
new_word = record { lock = false; latest = true; absent = true; tid = 0; epoch = 0 }

module _ {tree : Type 0} where
  -- What to do with a key in the read-write set, if the word stored there is the latest.
  unfoldable pub if_latest : Element → (ℕ → State tree × ℕ) → State tree → Option (State tree × ℕ)
  unfolding get_record_pointer is_same
  if_latest e f s =
      Option.map (λ r. if is_same r.1 e.tw then f r.0 else (s, 0)) (get_record_pointer e.val s)

  -- A key that the transaction has not touched.
  unfoldable pub read_value : (t k val : ℕ) → State tree → Option (State tree × ℕ)
  unfolding get_record_pointer is_readable
  read_value t k val s =
      Option.map
        (λ r.
          if is_readable r.1
          then (
            place t k (record { rec = 0; tw = r.1; rwt = read_type; is_new = false; val = val }) s,
            r.0,
          )
          else (s, 0))
        (get_record_pointer val s)

  -- The find of `read` notes the leaf, whether it has the key or not.
  unfoldable pub read_index : (t k : ℕ) → Option ℕ × NodeMap → State tree → Option (State tree × ℕ)
  unfolding read_value
  read_index t k (none, nm) s = some (record s { ns = put s.ns t nm }, 0)
  read_index t k (some val, nm) s = read_value t k val (record s { ns = put s.ns t nm })

  unfoldable pub read_own : Element → State tree → Option (State tree × ℕ)
  unfolding if_latest
  read_own e s = elim e.rwt [
    | read_type ↦ if_latest e (λ rec. (s, rec)) s
    | update_type ↦ if_latest e (λ rec. (s, e.rec)) s
    | insert_type ↦ if_latest e (λ rec. (s, e.rec)) s
    | delete_type ↦ some (s, 0)
  ]

  -- A local copy of a value that is not in the read-write set, under the given type.
  unfoldable pub write_value : ReadWriteType → (t k val : ℕ) → State tree → Option (State tree × ℕ)
  unfolding copy_record is_readable
  write_value rwt t k val s =
      Option.map
        (λ r.
          if is_readable r.1
          then (
            push_write t k (
                place t k (record { rec = s.next; tw = r.1; rwt = rwt; is_new = false; val = val })
                  r.0),
            s.next,
          )
          else (deallocate s.next r.0, 0))
        (copy_record val s)

  -- A key that was read and is written now.
  unfoldable pub write_read : (t k : ℕ) → Element → State tree → Option (State tree × ℕ)
  unfolding copy_record is_same
  write_read t k e s =
      Option.map
        (λ r.
          if is_same r.1 e.tw
          then (
            push_write t k (place t k (record e { rec = s.next; rwt = update_type }) r.0),
            s.next,
          )
          else (deallocate s.next r.0, 0))
        (copy_record e.val s)

  -- A key that the transaction deleted and now writes.
  unfoldable pub write_deleted : (t k : ℕ) → Element → State tree → Option (State tree × ℕ)
  unfolding if_latest
  write_deleted t k e s =
      if_latest e
        (λ rec. (place t k (record e { rec = s.next; rwt = update_type }) (allocate_rec s), s.next))
        s

  unfoldable pub update_own : (t k : ℕ) → Element → State tree → Option (State tree × ℕ)
  unfolding write_read if_latest
  update_own t k e s = elim e.rwt [
    | read_type ↦ write_read t k e s
    | update_type ↦ if_latest e (λ rec. (s, e.rec)) s
    | insert_type ↦ if_latest e (λ rec. (s, e.rec)) s
    | delete_type ↦ some (s, 0)
  ]

  unfoldable pub insert_own : (t k : ℕ) → Element → State tree → Option (State tree × ℕ)
  unfolding write_deleted
  insert_own t k e s = elim e.rwt [ delete_type ↦ write_deleted t k e s | _ ↦ some (s, 0) ]

  unfoldable pub upsert_own : (t k : ℕ) → Element → State tree → Option (State tree × ℕ)
  unfolding write_read if_latest write_deleted
  upsert_own t k e s = elim e.rwt [
    | read_type ↦ write_read t k e s
    | update_type ↦ if_latest e (λ rec. (s, e.rec)) s
    | insert_type ↦ if_latest e (λ rec. (s, e.rec)) s
    | delete_type ↦ write_deleted t k e s
  ]

  unfoldable pub remove_value : (t k val : ℕ) → State tree → Option (State tree × ℕ)
  unfolding get_record_pointer is_readable
  remove_value t k val s =
      Option.map
        (λ r.
          if is_readable r.1
          then (
            push_write t k (
                place t k
                  (record { rec = 0; tw = r.1; rwt = delete_type; is_new = false; val = val }) s),
            r.0,
          )
          else (s, 0))
        (get_record_pointer val s)

  -- A local record is given up.
  unfoldable pub drop_write : (t k : ℕ) → Element → State tree → Option (State tree × ℕ)
  unfolding if_latest
  drop_write t k e s =
      if_latest e
        (λ rec. (place t k (record e { rec = 0; rwt = delete_type }) (deallocate e.rec s), rec)) s

  unfoldable pub remove_own : (t k : ℕ) → Element → State tree → Option (State tree × ℕ)
  unfolding if_latest drop_write
  remove_own t k e s = elim e.rwt [
    | read_type ↦
        if_latest e (λ rec. (place t k (record e { rwt = delete_type }) (push_write t k s), rec)) s
    | update_type ↦ drop_write t k e s
    | insert_type ↦ drop_write t k e s
    | delete_type ↦ some (s, 0)
  ]

  -- A new value that others can find but not read.
  unfoldable pub allocate_val : State tree → State tree
  allocate_val s = record s {
    next = s.next + 1;
    word = put s.word s.next new_word;
    rec_of = put s.rec_of s.next 0;
  }

  -- The new value has gone to the index, perhaps to a leaf that has changed since it was noted.
  unfoldable pub inserted : (t k val : ℕ) → Inserted × tree × NodeMap → State tree → State tree × ℕ
  inserted t k val (not_inserted, index, nm) s =
      (deallocate val (record s { index = index; ns = put s.ns t nm }), 0)
  inserted t k val (result, index, nm) s = (
    push_write t k (
        place t k
          (record { rec = s.next; tw = s.word val; rwt = insert_type; is_new = true; val = val })
          (record s { next = s.next + 1; index = index; ns = put s.ns t nm })),
    elim result [ ok ↦ s.next | _ ↦ 0 ],
  )

module _ (ix : Index) where
  open ix use {Tree}

  unfoldable pub create : (t k : ℕ) → State Tree → State Tree × ℕ
  unfolding inserted allocate_val
  create t k s = inserted t k s.next (ix.insert s.index t k s.next (s.ns t)) (allocate_val s)

  -- A call: the table is touched; a key in the read-write set is served from there, another one
  -- from the index, if that has it.
  unfoldable pub call :
      ((t k : ℕ) → Element → State Tree → Option (State Tree × ℕ))
      → ((t k val : ℕ) → State Tree → Option (State Tree × ℕ))
      → ((t k : ℕ) → State Tree → Option (State Tree × ℕ))
      → (t k : ℕ) → State Tree
      → Option (State Tree × ℕ)
  call own found missing t k s =
      let s' = touch_table t s in
      elim (find_entry t k s'.tables) [
        | some e ↦ own t k e s'
        | none ↦ elim (ix.find s'.index t k) [ none ↦ missing t k s' | some val ↦ found t k val s' ]
      ]

  abbrev pub refuse : (t k : ℕ) → State Tree → Option (State Tree × ℕ)
  refuse t k s = some (s, 0)

  unfoldable pub read : (t k : ℕ) → State Tree → Option (State Tree × ℕ)
  unfolding read_own read_index
  read t k s =
      let s' = touch_table t s in
      elim (find_entry t k s'.tables) [
        | some e ↦ read_own e s'
        | none ↦ read_index t k (ix.find_noting s'.index t k (s'.ns t)) s'
      ]

  unfoldable pub insert : (t k : ℕ) → State Tree → Option (State Tree × ℕ)
  unfolding call insert_own create
  insert = call insert_own (λ t k val s. some (s, 0)) (λ t k s. some (create t k s))

  unfoldable pub update : (t k : ℕ) → State Tree → Option (State Tree × ℕ)
  unfolding call update_own write_value
  update = call update_own (write_value update_type) refuse

  -- A value that `write` finds counts as inserted, so its word is not validated.
  unfoldable pub write : (t k : ℕ) → State Tree → Option (State Tree × ℕ)
  unfolding call upsert_own write_value create
  write = call upsert_own (write_value insert_type) (λ t k s. some (create t k s))

  unfoldable pub upsert : (t k : ℕ) → State Tree → Option (State Tree × ℕ)
  unfolding call upsert_own write_value create
  upsert = call upsert_own (write_value update_type) (λ t k s. some (create t k s))

  unfoldable pub remove : (t k : ℕ) → State Tree → Option (State Tree × ℕ)
  unfolding call remove_own remove_value
  remove = call remove_own remove_value refuse
