-- ===== src/Waitdie/Finish.antt =====
-- waitdie.hpp: `precommit`, `abort` and the destructor. `none` is an exception of a lock.
use tpcc_runner.Base.{ℕ, Bool, true, Option, none, some, List, [], ◌∷◌, ◌++◌, if◌then◌else◌}
use mathlib.Core.List.{map, reverse}
use mathlib.Core.Option
use tpcc_runner.Base.Tables.{Tables}
use tpcc_runner.Timestamp.Collector.{collect, remove}
use tpcc_runner.Nowait.Defs.{Index}
use tpcc_runner.Waitdie.Store.{
  read_type, update_type, insert_type, delete_type, Element, State, put, deallocate, unlock_val,
  unlock_shared_val,
}

-- `for (table_id : tables) for (rw_iter …)`, as far as no call throws.
module _ {tree : Type 0} (f : (t k : ℕ) → Element → State tree → Option (State tree)) where
  unfoldable pub each_entry : ℕ → List (ℕ × Element) → State tree → Option (State tree)
  each_entry t [] s = some s
  each_entry t ((k, e) ∷ m) s = elim (f t k e s) [ none ↦ none | some s' ↦ each_entry t m s' ]

  unfoldable pub each : Tables Element → State tree → Option (State tree)
  unfolding each_entry
  each [] s = some s
  each ((t, m) ∷ ts) s = elim (each_entry t m s) [ none ↦ none | some s' ↦ each ts s' ]

module _ (ix : Index) where
  open ix use {Tree}

  abbrev pub drop_key : (t k : ℕ) → State Tree → State Tree
  drop_key t k s = record s { index = ix.remove s.index t k }

  -- `GarbageCollector::collect(largest_ts, val)`.
  unfoldable pub collect_val : ℕ → State Tree → State Tree
  unfolding collect
  collect_val val s = record s { collector = collect s.largest_ts val s.collector }

  -- The first loop of `precommit`.
  unfoldable pub unlock_read : (t k : ℕ) → Element → State Tree → Option (State Tree)
  unfolding unlock_shared_val
  unlock_read t k e s = elim e.rwt [ read_type ↦ unlock_shared_val e.val s | _ ↦ some s ]

  -- The record of a value is exchanged for another, its lock given back, and the old one freed.
  unfoldable pub install : (val rec : ℕ) → State Tree → Option (State Tree)
  unfolding unlock_val
  install val rec s =
      Option.map (deallocate (s.rec_of val))
        (unlock_val val (record s { rec_of = put s.rec_of val rec }))

  -- The second loop of `precommit`.
  unfoldable pub apply_write : (t k : ℕ) → Element → State Tree → Option (State Tree)
  unfolding install collect_val
  apply_write t k e s = elim e.rwt [
    | read_type ↦ some s
    | update_type ↦ install e.val e.rec s
    | insert_type ↦ install e.val e.rec s
    | delete_type ↦ Option.map (collect_val e.val) (install e.val 0 (drop_key t k s))
  ]

  unfoldable pub precommit : State Tree → Option (State Tree × Bool)
  unfolding each unlock_read apply_write
  precommit s = elim (each unlock_read s.tables s) [
    | none ↦ none
    | some s' ↦ Option.map (λ r. (r, true)) (each apply_write s.tables s')
  ]

  -- The body of the loop of `abort`: first what a failed insert left in the index.
  unfoldable pub withdraw : (t k : ℕ) → Element → State Tree → State Tree
  unfolding collect_val
  withdraw t k e s = if e.is_new then collect_val e.val (drop_key t k s) else s

  unfoldable pub give_up : Element → State Tree → Option (State Tree)
  unfolding unlock_val unlock_shared_val
  give_up e s = elim e.rwt [
    | read_type ↦ unlock_shared_val e.val s
    | update_type ↦ unlock_val e.val (deallocate e.rec s)
    | insert_type ↦ unlock_val e.val (deallocate e.rec s)
    | delete_type ↦ unlock_val e.val s
  ]

  unfoldable pub undo : (t k : ℕ) → Element → State Tree → Option (State Tree)
  unfolding withdraw give_up
  undo t k e s = give_up e (withdraw t k e s)

  abbrev emptied : State Tree → State Tree
  emptied s = record s { tables = [] }

  unfoldable pub abort : State Tree → Option (State Tree)
  unfolding each undo
  abort s = Option.map emptied (each undo s.tables s)

  -- The destructor: the elements are dropped, and the thread's collector frees old values.
  unfoldable pub destroy : State Tree → State Tree
  unfolding remove
  destroy s =
      let (kept, old) = remove s.smallest_ts s.largest_ts s.collector in
      record s { tables = []; collector = kept; freed = reverse (map (λ e. e.1) old) ++ s.freed }

  -- A retry takes new timestamps.
  abbrev pub set_new_ts : (start_ts smallest_ts largest_ts : ℕ) → State Tree → State Tree
  set_new_ts a b c s = record s { start_ts = a; smallest_ts = b; largest_ts = c }
