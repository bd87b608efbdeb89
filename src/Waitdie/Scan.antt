-- ===== src/Waitdie/Scan.antt =====
-- waitdie.hpp: `read_scan` and `update_scan` over the keys and values that the index has in the
-- range, of which a scan takes as many as its count asks for. The caller's map is filled as far as
-- the scan gets.
use tpcc_runner.Base.{
  ℕ, Bool, true, false, ◌&&◌, not, Option, none, some, List, [], ◌∷◌, ℤ, negsuc, ◌==ℤ◌, pos_part,
  neg_part, leb, ◌+◌, length, if◌then◌else◌,
}
use tpcc_runner.Base.Tables.{find_entry}
use tpcc_runner.Nowait.Defs.{Index}
use tpcc_runner.Nowait.Scan.{emplace}
use tpcc_runner.Waitdie.Lock.{try_lock_shared, try_lock, try_lock_upgrade}
use tpcc_runner.Waitdie.Store.{
  read_type, update_type, insert_type, delete_type, Element, State, copy_rec, place, touch_table,
  is_detached_from_tree, unlock_val, unlock_shared_val, Grant, held, dies, fails, acquire,
}

-- The scan has put the record under the key; passes over a detached value; stops and aborts;
-- throws.
pub data Step (tree : Type 0) : Type 0 where
  found : State tree → ℕ → Step tree
  passed : State tree → Step tree
  aborts : State tree → Step tree
  raises : State tree → Step tree

pub data ScanResult (tree : Type 0) : Type 0 where
  returns : State tree → List (ℕ × ℕ) → Bool → ScanResult tree
  throws : State tree → List (ℕ × ℕ) → ScanResult tree

-- `count != -1 && kr_map.size() >= count`.
abbrev pub is_full : ℤ → List (ℕ × ℕ) → Bool
is_full count kr_map =
    not (count ==ℤ negsuc 0) && leb (pos_part count) (length kr_map + neg_part count)

module _ {tree : Type 0} where
  abbrev pub when_held : (State tree → Step tree) → Grant tree → Step tree
  when_held f (held s) = f s
  when_held f (dies s) = aborts s
  when_held f (fails s) = raises s

  abbrev pub pass : State tree → Option (State tree) → Step tree
  pass s none = raises s
  pass s (some s') = passed s'

module _ {tree : Type 0} (wake : State tree → State tree) where
  -- `per_kv_func` of `read_scan`, for one key.
  unfoldable pub read_at : (t k val : ℕ) → Option Element → State tree → Step tree
  unfolding acquire unlock_shared_val
  read_at t k val none s = when_held under_lock (acquire wake try_lock_shared val s)
    where
      under_lock : State tree → Step tree
      under_lock l =
          if is_detached_from_tree val l
          then pass l (unlock_shared_val val l)
          else found (place t k (record { rec = 0; rwt = read_type; is_new = false; val = val }) l)
              (l.rec_of val)
  read_at t k val (some e) s = elim e.rwt [
    | read_type ↦ found s (s.rec_of e.val)
    | update_type ↦ found s e.rec
    | insert_type ↦ found s e.rec
    | delete_type ↦ raises s
  ]

  -- `per_kv_func` of `update_scan`.
  unfoldable pub update_at : (t k val : ℕ) → Option Element → State tree → Step tree
  unfolding acquire unlock_val
  update_at t k val none s = when_held under_lock (acquire wake try_lock val s)
    where
      under_lock : State tree → Step tree
      under_lock l =
          if is_detached_from_tree val l
          then pass l (unlock_val val l)
          else found
              (place t k (record { rec = l.next; rwt = update_type; is_new = false; val = val })
                (copy_rec (l.rec_of val) l))
              l.next
  update_at t k val (some e) s = elim e.rwt [
    | read_type ↦
        when_held
          (λ l.
            found
              (place t k (record e { rec = l.next; rwt = update_type })
                (copy_rec (l.rec_of e.val) l))
              l.next)
          (acquire wake try_lock_upgrade e.val s)
    | update_type ↦ found s e.rec
    | insert_type ↦ found s e.rec
    | delete_type ↦ raises s
  ]

module _ {tree : Type 0} where
  -- The calls of `per_kv_func`; a detached value is passed over without the test of the count.
  unfoldable pub scan_loop :
      ((t k val : ℕ) → Option Element → State tree → Step tree)
      → (t : ℕ) (count : ℤ) → List (ℕ × ℕ)
      → State tree
      → List (ℕ × ℕ)
      → ScanResult tree
  unfolding emplace
  scan_loop round t count [] s kr_map = returns s kr_map true
  scan_loop round t count ((k, val) ∷ kvs) s kr_map =
      elim (round t k val (find_entry t k s.tables) s) [
        | aborts s' ↦ returns s' kr_map false
        | raises s' ↦ throws s' kr_map
        | passed s' ↦ scan_loop round t count kvs s' kr_map
        | found s' p ↦ elim (is_full count (emplace k p kr_map)) [
          | true ↦ returns s' (emplace k p kr_map) true
          | false ↦ scan_loop round t count kvs s' (emplace k p kr_map)
        ]
      ]

module _ (ix : Index) (wake : State ix.Tree → State ix.Tree) where
  open ix use {Tree}

  -- All that the index has in the range; it stops when a call clears its flag.
  abbrev in_range : (t lkey rkey : ℕ) → State Tree → List (ℕ × ℕ)
  in_range t lkey rkey s = ix.get_kv_in_range s.index t lkey rkey (negsuc 0)

  unfoldable pub read_scan :
      (t lkey rkey : ℕ) (count : ℤ) (rev : Bool) → State Tree → List (ℕ × ℕ) → ScanResult Tree
  unfolding scan_loop read_at
  read_scan t lkey rkey count rev s kr_map =
      if rev
      then throws s kr_map
      else scan_loop (read_at wake) t count (in_range t lkey rkey s) (touch_table t s) kr_map

  unfoldable pub update_scan :
      (t lkey rkey : ℕ) (count : ℤ) (rev : Bool) → State Tree → List (ℕ × ℕ) → ScanResult Tree
  unfolding scan_loop update_at
  update_scan t lkey rkey count rev s kr_map =
      if rev
      then throws s kr_map
      else scan_loop (update_at wake) t count (in_range t lkey rkey s) (touch_table t s) kr_map
