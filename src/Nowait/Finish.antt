-- ===== src/Nowait/Finish.antt =====
-- nowait.hpp: `precommit`, `abort` and the destructor.
use tpcc_runner.Base.{ℕ, Bool, true, List, [], ◌∷◌, ◌++◌, if◌then◌else◌}
use mathlib.Core.List.{map, reverse}
use tpcc_runner.Base.Tables.{Tables}
use tpcc_runner.Rwlock.Calls.{unlock_shared, unlock}
use tpcc_runner.Epoch.Defs.{collect, remove}
use tpcc_runner.Nowait.Defs.{
  read_type, update_type, insert_type, delete_type, Element, Index, State, put, set_cnt, deallocate,
}

-- `for (table_id : tables) for (rw_iter …)`.
module _ {tree : Type 0} (f : (t k : ℕ) → Element → State tree → State tree) where
  unfoldable pub each_entry : ℕ → List (ℕ × Element) → State tree → State tree
  each_entry t [] s = s
  each_entry t ((k, e) ∷ m) s = each_entry t m (f t k e s)

  unfoldable pub each : Tables Element → State tree → State tree
  unfolding each_entry
  each [] s = s
  each ((t, m) ∷ ts) s = each ts (each_entry t m s)

module _ (ix : Index) where
  open ix use {Tree}

  abbrev pub drop_key : (t k : ℕ) → State Tree → State Tree
  drop_key t k s = record s { index = ix.remove s.index t k }

  -- `GarbageCollector::collect(starting_epoch, val)`.
  unfoldable pub collect_val : ℕ → State Tree → State Tree
  unfolding collect
  collect_val val s = record s { gc_container = collect s.starting_epoch val s.gc_container }

  -- The first loop of `precommit`.
  unfoldable pub unlock_read : (t k : ℕ) → Element → State Tree → State Tree
  unfolding unlock_shared
  unlock_read t k e s = elim e.rwt [
    | read_type ↦ set_cnt e.val (unlock_shared (s.cnt e.val)) s
    | _ ↦ s
  ]

  -- A write is installed: the local record takes the place of the old one, which is freed.
  unfoldable pub install : Element → State Tree → State Tree
  unfolding unlock
  install e s =
      let old = s.rec_of e.val in
      let s' = record s { rec_of = put s.rec_of e.val e.rec } in
      deallocate old (set_cnt e.val (unlock (s'.cnt e.val)) s')

  -- The second loop of `precommit`. A deleted value stays locked.
  unfoldable pub apply_write : (t k : ℕ) → Element → State Tree → State Tree
  unfolding install collect_val
  apply_write t k e s = elim e.rwt [
    | read_type ↦ s
    | update_type ↦ install e s
    | insert_type ↦ install e s
    | delete_type ↦ collect_val e.val (deallocate (s.rec_of e.val) (drop_key t k s))
  ]

  unfoldable pub precommit : State Tree → State Tree × Bool
  unfolding each unlock_read apply_write
  precommit s = (each apply_write s.tables (each unlock_read s.tables s), true)

  -- The body of the loop of `abort`: first what a failed insert left in the index.
  unfoldable pub withdraw : (t k : ℕ) → Element → State Tree → State Tree
  unfolding collect_val
  withdraw t k e s = if e.is_new then collect_val e.val (drop_key t k s) else s

  unfoldable pub unlock_old : Element → State Tree → State Tree
  unfolding unlock
  unlock_old e s = if e.is_new then s else set_cnt e.val (unlock (s.cnt e.val)) s

  unfoldable pub release : Element → State Tree → State Tree
  unfolding unlock_shared unlock_old
  release e s = elim e.rwt [
    | read_type ↦ set_cnt e.val (unlock_shared (s.cnt e.val)) s
    | update_type ↦ unlock_old e (deallocate e.rec s)
    | insert_type ↦ unlock_old e (deallocate e.rec s)
    | delete_type ↦ unlock_old e s
  ]

  unfoldable pub undo : (t k : ℕ) → Element → State Tree → State Tree
  unfolding withdraw release
  undo t k e s = release e (withdraw t k e s)

  unfoldable pub abort : State Tree → State Tree
  unfolding each undo
  abort s = record (each undo s.tables s) { tables = [] }

  -- The destructor: the elements are dropped, and the thread's collector frees old values.
  unfoldable pub destroy : State Tree → State Tree
  unfolding remove
  destroy s =
      let (kept, old) = remove s.starting_epoch s.gc_container in
      record s { tables = []; gc_container = kept; freed = reverse (map (λ e. e.1) old) ++ s.freed }
