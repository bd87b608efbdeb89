-- ===== src/Mvto/Scan.antt =====
-- mvto.hpp: `read_scan` and `update_scan`. The index passes by the leaves and keys of the range, of
-- which a scan takes as many as its count asks for; it raises the timestamp of each leaf, so that a
-- later insert into it by an earlier transaction is refused. What has no visible version is passed
-- over.
use tpcc_runner.Base.{
  ℕ, Bool, ◌&&◌, not, Option, none, some, List, [], ◌∷◌, ℤ, negsuc, ◌==ℤ◌, pos_part, neg_part, leb,
  ◌+◌, length, if◌then◌else◌,
}
use tpcc_runner.Base.Tables.{find_entry, lookup, assign}
use tpcc_runner.Mvto.Defs.{
  read_type, update_type, insert_type, delete_type, Element, Index, State, lock_val, touch_table,
}
use tpcc_runner.Mvto.Access.{Seen, under_lock, use_to_read, copy_to_write, write_read}

pub data Visit : Type 0 where
  at_leaf : ℕ → Visit
  at_key : (k val : ℕ) → Visit

-- The scans of the index, and the timestamp that it keeps for a leaf.
pub record Ranges (tree : Type 0) : Type 0 where
  pub get_kv_in_range : tree → (table_id lkey rkey : ℕ) → List Visit
  pub get_kv_in_rev_range : tree → (table_id lkey rkey : ℕ) → List Visit
  pub update_ts : tree → (leaf ts : ℕ) → tree

-- At one key: the scan takes the record; passes over the key; throws; waits for the lock.
pub data Step (tree : Type 0) : Type 0 where
  takes : State tree → ℕ → Step tree
  passes : State tree → Step tree
  raises : State tree → Step tree
  spins : Step tree

pub data ScanResult (tree : Type 0) : Type 0 where
  returns : State tree → List (ℕ × ℕ) → ScanResult tree
  throws : State tree → List (ℕ × ℕ) → ScanResult tree
  waits : ScanResult tree

-- `std::map::emplace`: a key that is there keeps its entry.
unfoldable pub emplace : ℕ → ℕ → List (ℕ × ℕ) → List (ℕ × ℕ)
unfolding assign
emplace k p m = elim (lookup k m) [ none ↦ assign k p m | some q ↦ m ]

-- `count != -1 && kr_map.size() >= count`.
abbrev pub is_full : ℤ → List (ℕ × ℕ) → Bool
is_full count kr_map =
    not (count ==ℤ negsuc 0) && leb (pos_part count) (length kr_map + neg_part count)

module _ {tree : Type 0} where
  abbrev pub taken : State tree × ℕ → Step tree
  taken (s, p) = takes s p

  -- Once the lock is given back: a version that is there and not deleted is used.
  unfoldable pub use_seen :
      (Seen → State tree → State tree × ℕ) → State tree × Option Seen → Step tree
  use_seen f (s, none) = passes s
  use_seen f (s, some x) = if x.version.deleted then passes s else taken (f x s)

  -- How the scan goes on; a key that is passed over is not followed by the test of the count.
  unfoldable pub after_step :
      (State tree → List (ℕ × ℕ) → ScanResult tree)
      → ℤ
      → (k : ℕ) → List (ℕ × ℕ)
      → Step tree
      → ScanResult tree
  unfolding emplace
  after_step rest count k kr_map spins = waits
  after_step rest count k kr_map (raises s) = throws s kr_map
  after_step rest count k kr_map (passes s) = rest s kr_map
  after_step rest count k kr_map (takes s p) =
      let kr_map' = emplace k p kr_map in
      if is_full count kr_map' then returns s kr_map' else rest s kr_map'

module _ (ix : Index) (ranges : Ranges ix.Tree) where
  open ix use {Tree}

  -- A key that is not in the read-write set.
  unfoldable pub look_at :
      (t k val : ℕ) → (Seen → State Tree → State Tree × ℕ) → State Tree → Step Tree
  unfolding lock_val under_lock use_seen
  look_at t k val f s = elim (lock_val val s) [
    | none ↦ spins
    | some l ↦ use_seen f (under_lock (ix.remove l.index t k) val (l.chain val) l)
  ]

  -- `per_kv_func` of `read_scan`, for one key.
  unfoldable pub read_at : (t k val : ℕ) → Option Element → State Tree → Step Tree
  unfolding look_at use_to_read
  read_at t k val none s = look_at t k val (use_to_read t k val) s
  read_at t k val (some e) s = elim e.rwt [
    | read_type ↦ takes s e.read_rec
    | update_type ↦ takes s e.write_rec
    | insert_type ↦ takes s e.write_rec
    | delete_type ↦ raises s
  ]

  -- `per_kv_func` of `update_scan`.
  unfoldable pub update_at : (t k val : ℕ) → Option Element → State Tree → Step Tree
  unfolding look_at copy_to_write write_read
  update_at t k val none s = look_at t k val (λ x. copy_to_write t k val x.version.rec) s
  update_at t k val (some e) s = elim e.rwt [
    | read_type ↦ taken (write_read t k e s)
    | update_type ↦ takes s e.write_rec
    | insert_type ↦ takes s e.write_rec
    | delete_type ↦ raises s
  ]

  -- `per_node_func`.
  abbrev pub raise_leaf : ℕ → State Tree → State Tree
  raise_leaf leaf s = record s { index = ranges.update_ts s.index leaf s.start_ts }

  unfoldable pub scan_loop :
      ((t k val : ℕ) → Option Element → State Tree → Step Tree)
      → (t : ℕ) (count : ℤ) → List Visit
      → State Tree
      → List (ℕ × ℕ)
      → ScanResult Tree
  unfolding after_step
  scan_loop round t count [] s kr_map = returns s kr_map
  scan_loop round t count (at_leaf leaf ∷ visits) s kr_map =
      scan_loop round t count visits (raise_leaf leaf s) kr_map
  scan_loop round t count (at_key k val ∷ visits) s kr_map =
      let rest = scan_loop round t count visits in
      after_step rest count k kr_map (round t k val (find_entry t k s.tables) s)

  abbrev pub visits_of : (t lkey rkey : ℕ) (rev : Bool) → State Tree → List Visit
  visits_of t lkey rkey rev s =
      if rev
      then ranges.get_kv_in_rev_range s.index t lkey rkey
      else ranges.get_kv_in_range s.index t lkey rkey

  unfoldable pub read_scan :
      (t lkey rkey : ℕ) (count : ℤ) (rev : Bool) → State Tree → List (ℕ × ℕ) → ScanResult Tree
  unfolding scan_loop read_at
  read_scan t lkey rkey count rev s kr_map =
      scan_loop read_at t count (visits_of t lkey rkey rev s) (touch_table t s) kr_map

  unfoldable pub update_scan :
      (t lkey rkey : ℕ) (count : ℤ) (rev : Bool) → State Tree → List (ℕ × ℕ) → ScanResult Tree
  unfolding scan_loop update_at
  update_scan t lkey rkey count rev s kr_map =
      scan_loop update_at t count (visits_of t lkey rkey rev s) (touch_table t s) kr_map
