-- ===== src/Silo/Scan.antt =====
-- silo.hpp: `read_scan` and `update_scan`. The map of the caller is filled as far as the scan gets;
-- no result means that the scan still waits for the lock of a value.
use tpcc_runner.Base.{ℕ, Bool, true, false, Option, none, some, List, [], ◌∷◌, ℤ, if◌then◌else◌}
use mathlib.Core.Option
use tpcc_runner.Base.Tables.{find_entry, lookup, assign}
use tpcc_runner.Silo.Word.{is_same, is_readable}
use tpcc_runner.Silo.Defs.{
  read_type, update_type, insert_type, delete_type, Element, NodeMap, Index, State, put, deallocate,
  place, push_write, touch_table, get_record_pointer, copy_record,
}

-- `std::map::emplace`: a key that is there keeps its entry.
unfoldable pub emplace : ℕ → ℕ → List (ℕ × ℕ) → List (ℕ × ℕ)
unfolding assign
emplace k p m = elim (lookup k m) [ none ↦ assign k p m | some q ↦ m ]

module _ {tree : Type 0} where
  -- A record, if the word stored in the element is the latest; `none` returns false.
  unfoldable pub latest_at : Element → (ℕ → ℕ) → State tree → Option (State tree × Option ℕ)
  unfolding get_record_pointer is_same
  latest_at e f s =
      Option.map (λ r. (s, if is_same r.1 e.tw then some (f r.0) else none))
        (get_record_pointer e.val s)

  -- One round of the loop of `read_scan`.
  unfoldable pub read_at :
      (t k val : ℕ) → Option Element → State tree → Option (State tree × Option ℕ)
  unfolding get_record_pointer is_readable latest_at
  read_at t k val none s =
      Option.map
        (λ r.
          if is_readable r.1
          then (
            place t k (record { rec = 0; tw = r.1; rwt = read_type; is_new = false; val = val }) s,
            some r.0,
          )
          else (s, none))
        (get_record_pointer val s)
  read_at t k val (some e) s = elim e.rwt [
    | read_type ↦ latest_at e (λ rec. rec) s
    | update_type ↦ latest_at e (λ rec. e.rec) s
    | insert_type ↦ latest_at e (λ rec. e.rec) s
    | delete_type ↦ some (s, none)
  ]

  unfoldable pub copy_at : (t k val : ℕ) → State tree → Option (State tree × Option ℕ)
  unfolding copy_record is_readable
  copy_at t k val s =
      Option.map
        (λ r.
          if is_readable r.1
          then (
            push_write t k (
                place t k
                  (record { rec = s.next; tw = r.1; rwt = update_type; is_new = false; val = val })
                  r.0),
            some s.next,
          )
          else (deallocate s.next r.0, none))
        (copy_record val s)

  unfoldable pub copy_read_at : (t k : ℕ) → Element → State tree → Option (State tree × Option ℕ)
  unfolding copy_record is_same
  copy_read_at t k e s =
      Option.map
        (λ r.
          if is_same r.1 e.tw
          then (
            push_write t k (place t k (record e { rec = s.next; rwt = update_type }) r.0),
            some s.next,
          )
          else (deallocate s.next r.0, none))
        (copy_record e.val s)

  -- One round of the loop of `update_scan`.
  unfoldable pub update_at :
      (t k val : ℕ) → Option Element → State tree → Option (State tree × Option ℕ)
  unfolding copy_at copy_read_at latest_at
  update_at t k val none s = copy_at t k val s
  update_at t k val (some e) s = elim e.rwt [
    | read_type ↦ copy_read_at t k e s
    | update_type ↦ latest_at e (λ rec. e.rec) s
    | insert_type ↦ latest_at e (λ rec. e.rec) s
    | delete_type ↦ some (s, none)
  ]

  -- The loop over the keys found, with what to do after a round.
  unfoldable pub after_round :
      (ℕ → State tree → Option (State tree × List (ℕ × ℕ) × Bool))
      → List (ℕ × ℕ)
      → State tree × Option ℕ
      → Option (State tree × List (ℕ × ℕ) × Bool)
  after_round go kr_map (s, none) = some (s, kr_map, false)
  after_round go kr_map (s, some p) = go p s

  unfoldable pub scan_loop :
      ((t k val : ℕ) → Option Element → State tree → Option (State tree × Option ℕ))
      → (t : ℕ) → List (ℕ × ℕ)
      → State tree
      → List (ℕ × ℕ)
      → Option (State tree × List (ℕ × ℕ) × Bool)
  unfolding emplace after_round
  scan_loop round t [] s kr_map = some (s, kr_map, true)
  scan_loop round t ((k, val) ∷ kvs) s kr_map =
      let rest = scan_loop round t kvs in
      Option.bind (round t k val (find_entry t k s.tables) s)
        (after_round (λ p s'. rest s' (emplace k p kr_map)) kr_map)

  -- What the index has found, and the leaves that it has noted on the way.
  unfoldable pub scan_found :
      ((t k val : ℕ) → Option Element → State tree → Option (State tree × Option ℕ))
      → (t : ℕ) → Option (List (ℕ × ℕ)) × NodeMap
      → State tree
      → List (ℕ × ℕ)
      → Option (State tree × List (ℕ × ℕ) × Bool)
  unfolding scan_loop
  scan_found round t (none, nm) s kr_map = some (record s { ns = put s.ns t nm }, kr_map, false)
  scan_found round t (some kvs, nm) s kr_map =
      scan_loop round t kvs (record s { ns = put s.ns t nm }) kr_map

module _ (ix : Index) where
  open ix use {Tree}

  unfoldable pub read_scan :
      (t lkey rkey : ℕ) (count : ℤ) (rev : Bool)
      → State Tree
      → List (ℕ × ℕ)
      → Option (State Tree × List (ℕ × ℕ) × Bool)
  unfolding scan_found read_at
  read_scan t lkey rkey count rev s kr_map =
      scan_found read_at t (ix.get_kv_in_range s.index t lkey rkey count rev (s.ns t))
        (touch_table t s) kr_map

  unfoldable pub update_scan :
      (t lkey rkey : ℕ) (count : ℤ) (rev : Bool)
      → State Tree
      → List (ℕ × ℕ)
      → Option (State Tree × List (ℕ × ℕ) × Bool)
  unfolding scan_found update_at
  update_scan t lkey rkey count rev s kr_map =
      scan_found update_at t (ix.get_kv_in_range s.index t lkey rkey count rev (s.ns t))
        (touch_table t s) kr_map
