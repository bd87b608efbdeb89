-- ===== src/Nowait/Gap.antt =====
-- nowait.hpp: what `insert` does to the lock of the next key.
use tpcc_runner.Base.{ℕ, ◌<◌, ◌≡◌, refl, none, some, arith, ℤ, pos, ◌∙◌}
use tpcc_runner.Base.Tables.{find_entry, find_entry-touch}
use tpcc_runner.Rwlock.Calls.{try_lock, write_locked}
use tpcc_runner.Nowait.Defs.{Index, State, touch_table}
use tpcc_runner.Nowait.Access.{insert_entry, insert_new, insert_before, dispatch, insert}

module _ (ix : Index) (env : ℕ → ℤ) (t k nk nv : ℕ) (s : State ix.Tree)
    (missing : ix.find s.index t k ≡ none) (next : ix.get_next_kv s.index t k ≡ some (nk, nv)) where
  leaked_next :
      (s' : State ix.Tree)
      → nv < s'.next
      → s'.cnt nv ≡ pos 0
      → find_entry t nk s'.tables ≡ none
      → ix.insert s'.index t k s'.next ≡ none
      → ((insert_before ix t k nk nv s').1 ≡ 0)
        × ((insert_before ix t k nk nv s').0.cnt nv ≡ write_locked)
        × (find_entry t nk (insert_before ix t k nk nv s').0.tables ≡ none)
  unfolding insert_before try_lock
  leaked_next s' old free gap refused = ground arith

  -- A granted insert of a missing key went through the lock of the next key.
  insert-before :
      find_entry t k s.tables ≡ none
      → insert ix t k s ≡ insert_before ix t k nk nv (touch_table t s)
  unfolding insert dispatch insert_entry insert_new
  insert-before new =
      rw (find_entry-touch t k t s.tables, new, missing) (rw (next, insert_entry, insert_new) refl)

  -- When the index refuses a key that it did not have a moment before, the insert is refused and
  -- leaves the next key, which was free and which the transaction does not know, locked for
  -- writing.
  pub insert_leaks_next_lock :
      find_entry t k s.tables ≡ none
      → find_entry t nk s.tables ≡ none
      → nv < s.next
      → s.cnt nv ≡ pos 0
      → ix.insert s.index t k s.next ≡ none
      → ((insert ix t k s).1 ≡ 0)
        × ((insert ix t k s).0.cnt nv ≡ write_locked)
        × (find_entry t nk (insert ix t k s).0.tables ≡ none)
  insert_leaks_next_lock new gap old free refused =
      rw (insert-before new)
        (leaked_next (touch_table t s) old free (find_entry-touch t nk t s.tables ∙ gap) refused)
