-- ===== src/Nowait/Scan.antt =====
-- nowait.hpp: `read_scan` and `update_scan` over what the index has in the range. The map of the
-- caller is filled as far as the scan gets.
use tpcc_runner.Base.{ℕ, Bool, false, Option, none, some, List, [], ◌∷◌, ℤ, if◌then◌else◌}
use tpcc_runner.Base.Tables.{find_entry, lookup, assign}
use tpcc_runner.Rwlock.Calls.{try_lock_shared, try_lock, try_lock_upgrade}
use tpcc_runner.Nowait.Defs.{
  read_type, update_type, insert_type, delete_type, Element, Index, State, set_cnt, copy_rec, place,
  touch_table,
}

-- A reverse scan throws; else the scan returns false or true.
pub data Outcome : Type 0 where
  thrown aborted scanned : Outcome

-- `std::map::emplace`: a key that is there keeps its entry.
unfoldable pub emplace : ℕ → ℕ → List (ℕ × ℕ) → List (ℕ × ℕ)
unfolding assign
emplace k p m = elim (lookup k m) [ none ↦ assign k p m | some q ↦ m ]

module _ {tree : Type 0} where
  -- One round of the loop of `read_scan`; `none` returns false.
  unfoldable pub read_at : (t k val : ℕ) → Option Element → State tree → State tree × Option ℕ
  unfolding try_lock_shared
  read_at t k val none s =
      let (won, c) = try_lock_shared (s.cnt val) in
      if won
      then (
        place t k (record { rec = 0; rwt = read_type; is_new = false; val = val })
            (set_cnt val c s),
        some (s.rec_of val),
      )
      else (s, none)
  read_at t k val (some e) s = elim e.rwt [
    | read_type ↦ (s, some (s.rec_of e.val))
    | update_type ↦ (s, some e.rec)
    | insert_type ↦ (s, some e.rec)
    | delete_type ↦ (s, none)
  ]

  unfoldable pub upgrade_at : (t k : ℕ) → Element → State tree → State tree × Option ℕ
  unfolding try_lock_upgrade
  upgrade_at t k e s =
      let (won, c) = try_lock_upgrade (s.cnt e.val) in
      if won
      then (
        place t k (record e { rec = s.next; rwt = update_type })
            (copy_rec (s.rec_of e.val) (set_cnt e.val c s)),
        some s.next,
      )
      else (s, none)

  -- One round of the loop of `update_scan`.
  unfoldable pub update_at : (t k val : ℕ) → Option Element → State tree → State tree × Option ℕ
  unfolding try_lock upgrade_at
  update_at t k val none s =
      let (won, c) = try_lock (s.cnt val) in
      if won
      then (
        place t k (record { rec = s.next; rwt = update_type; is_new = false; val = val })
            (copy_rec (s.rec_of val) (set_cnt val c s)),
        some s.next,
      )
      else (s, none)
  update_at t k val (some e) s = elim e.rwt [
    | read_type ↦ upgrade_at t k e s
    | update_type ↦ (s, some e.rec)
    | insert_type ↦ (s, some e.rec)
    | delete_type ↦ (s, none)
  ]

  -- The loop over the keys found.
  unfoldable pub scan_loop :
      ((t k val : ℕ) → Option Element → State tree → State tree × Option ℕ)
      → (t : ℕ) → List (ℕ × ℕ)
      → State tree
      → List (ℕ × ℕ)
      → State tree × List (ℕ × ℕ) × Outcome
  unfolding emplace
  scan_loop round t [] s kr_map = (s, kr_map, scanned)
  scan_loop round t ((k, val) ∷ kvs) s kr_map =
      let r = round t k val (find_entry t k s.tables) s in
      elim r.1 [
        | none ↦ (r.0, kr_map, aborted)
        | some p ↦ scan_loop round t kvs r.0 (emplace k p kr_map)
      ]

module _ (ix : Index) where
  open ix use {Tree}

  unfoldable pub read_scan :
      (t lkey rkey : ℕ) (count : ℤ) (rev : Bool)
      → State Tree
      → List (ℕ × ℕ)
      → State Tree × List (ℕ × ℕ) × Outcome
  unfolding scan_loop read_at
  read_scan t lkey rkey count rev s kr_map =
      if rev
      then (s, kr_map, thrown)
      else scan_loop read_at t (ix.get_kv_in_range s.index t lkey rkey count) (touch_table t s)
          kr_map

  unfoldable pub update_scan :
      (t lkey rkey : ℕ) (count : ℤ) (rev : Bool)
      → State Tree
      → List (ℕ × ℕ)
      → State Tree × List (ℕ × ℕ) × Outcome
  unfolding scan_loop update_at
  update_scan t lkey rkey count rev s kr_map =
      if rev
      then (s, kr_map, thrown)
      else scan_loop update_at t (ix.get_kv_in_range s.index t lkey rkey count) (touch_table t s)
          kr_map
