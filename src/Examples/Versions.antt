-- ===== src/Examples/Versions.antt =====
-- Runs of MVTO on the chain of one value, with versions of times 8, 5 and 2.
use tpcc_runner.Base.{
  ℕ, ℕ, ◌+◌, ◌≡◌, refl, Bool, true, false, Option, none, some, List, [], ◌∷◌, pos, negsuc, arith,
  if◌then◌else◌, ltb, ◌==◌,
}
use tpcc_runner.Base.Tables.{get_table, touch, assign_entry}
use mathlib.Core.Option
use tpcc_runner.Mvto.Chain.{Version, get_correct_version, gc_kept}
use tpcc_runner.Mvto.Defs.{State, Element, update_type}
use tpcc_runner.Mvto.Access.{under_lock}
use tpcc_runner.Mvto.Commit.{refused, check_head, new_version, apply_element, precommit}
use tpcc_runner.Mvto.Scan.{
  at_leaf, at_key, Ranges, ScanResult, returns, throws, waits, read_scan, update_scan,
}
use tpcc_runner.Mvto.ScanLocks.{HasCount, scans-HasCount}
use tpcc_runner.Mvto.Finish.{precommit-returns_locks}
use tpcc_runner.Mvto.Defs.{Index, insert_type}
use tpcc_runner.Mvto.Snapshot.{
  IsDescending, version_for, IsLatest, version_for-gc_kept, version_for-IsLatest,
}
use tpcc_runner.Mvto.Ordering.{look_blocks_earlier_writes}
use tpcc_runner.Mvto.Install.{version_for-apply_element}

abbrev version : (read_ts write_ts addr : ℕ) → Version
version r w a = record { read_ts = r; write_ts = w; rec = a + 100; deleted = false; addr = a }

abbrev oldest : Version
oldest = version 4 2 31

abbrev middle : Version
middle = version 6 5 32

abbrev newest : Version
newest = version 9 8 33

abbrev versions : List Version
versions = newest ∷ middle ∷ oldest ∷ []

versions-IsDescending : IsDescending versions
versions-IsDescending = ((omega arith, (omega arith, tt)), ((omega arith, tt), (tt, tt)))

-- The transaction of time 10; the collection bound is 5.
abbrev at_ten : State (List ℕ)
at_ten = record {
  index = [];
  cnt = λ v. pos 0;
  chain = λ v. versions;
  bytes = λ p. p;
  next = 40;
  freed = [];
  collector = record { gc_map = []; temp_gc_map = [] };
  start_ts = 10;
  smallest_ts = 5;
  largest_ts = 12;
  tables = [];
  ws = λ t. [];
}

abbrev updated : Element
updated = record { read_rec = 133; write_rec = 39; rwt = update_type; is_new = false; val = 1 }

-- The commit adds the version 40 and frees the version 31 with its record.
apply_runs :
    ((apply_element updated at_ten).chain 1 ≡ new_version updated at_ten ∷ newest ∷ middle ∷ [])
    × ((apply_element updated at_ten).freed ≡ 31 ∷ 131 ∷ [])
unfolding apply_element
apply_runs = (refl, refl)

version_for-IsLatest_example : IsLatest 7 versions (version_for 7 versions)
version_for-IsLatest_example = version_for-IsLatest 7 versions versions-IsDescending

version_for-gc_kept_example :
    (get_correct_version 7 (gc_kept 5 versions) ≡ get_correct_version 7 versions)
    × (version_for 7 (gc_kept 5 versions) ≡ version_for 7 versions)
version_for-gc_kept_example = version_for-gc_kept 5 7 versions (omega arith)

look_blocks_earlier_writes_example :
    check_head false 9 ((under_lock [] 1 versions at_ten).0.chain 1) ≡ refused true
look_blocks_earlier_writes_example = look_blocks_earlier_writes 1 [] at_ten false 9 (omega arith)

version_for-apply_element_example :
    version_for 7 ((apply_element updated at_ten).chain 1)
    ≡ (if ltb 7 10 then version_for 7 versions else some (new_version updated at_ten))
version_for-apply_element_example = version_for-apply_element updated at_ten refl 7 (omega arith)

-- An index in which the insert of key 3 succeeds, on a leaf that a scan of time 11 has seen.
abbrev seen_leaf : Index
seen_leaf = record {
  Tree = List ℕ;
  find = λ T t k. none;
  insert = λ T t k v. some (k ∷ T, 11);
  remove = λ T t k. [];
}

abbrev inserted : Element
inserted = record { read_rec = 0; write_rec = 38; rwt = insert_type; is_new = true; val = 2 }

-- The write set has an update of key 4 of table 0 and an insert of key 3, which comes first.
abbrev two_writes : State (List ℕ)
two_writes = record at_ten {
  tables = (0, (3, inserted) ∷ (4, updated) ∷ []) ∷ [];
  ws = λ t. if t == 0 then 4 ∷ 3 ∷ [] else [];
}

abbrev or_nothing : Option (State (List ℕ) × Bool) → State (List ℕ) × Bool
or_nothing none = (two_writes, true)
or_nothing (some r) = r

-- It is refused, with the lock of value 2 given back and the key out of the index again.
abbrev after_refusal : State (List ℕ) × Bool
after_refusal = or_nothing (precommit seen_leaf two_writes)

refusal_runs :
    (after_refusal.1 ≡ false) × (after_refusal.0.index ≡ []) × (after_refusal.0.cnt 2 ≡ pos 0)
unfolding precommit get_table Option.bind
refusal_runs = (refl, refl, refl)

precommit-returns_locks_example : after_refusal.0.cnt 2 ≡ pos 0
unfolding precommit get_table Option.bind
precommit-returns_locks_example =
    precommit-returns_locks seen_leaf 2 two_writes after_refusal ((refl, tt), (tt, tt)) refl

-- A range with one leaf and the values 1 and 2 under the keys 3 and 4; a leaf's timestamp is kept
-- as the only number of the index.
abbrev two_in_range : Ranges (List ℕ)
two_in_range = record {
  get_kv_in_range = λ T t l r. at_leaf 0 ∷ at_key 3 1 ∷ at_key 4 2 ∷ [];
  get_kv_in_rev_range = λ T t l r. at_leaf 0 ∷ at_key 4 2 ∷ at_key 3 1 ∷ [];
  update_ts = λ T leaf ts. ts ∷ [];
}

abbrev results : ScanResult (List ℕ) → List (ℕ × ℕ)
results (returns s m) = m
results (throws s m) = []
results waits = []

-- A scan takes the versions of time 8, and one record where the count is 1.
scan_runs :
    (results (read_scan seen_leaf two_in_range 0 3 9 (negsuc 0) false at_ten [])
      ≡ (3, 133) ∷ (4, 133) ∷ [])
    × (results (read_scan seen_leaf two_in_range 0 3 9 (pos 1) true at_ten []) ≡ (4, 133) ∷ [])
    × (results (update_scan seen_leaf two_in_range 0 3 9 (negsuc 0) false at_ten [])
        ≡ (3, 40) ∷ (4, 41) ∷ [])
unfolding read_scan update_scan get_table touch assign_entry
scan_runs = (refl, refl, refl)

scans-HasCount_example :
    HasCount 1 (pos 0) (read_scan seen_leaf two_in_range 0 3 9 (pos 1) false at_ten [])
    × HasCount 1 (pos 0) (update_scan seen_leaf two_in_range 0 3 9 (pos 1) false at_ten [])
scans-HasCount_example = scans-HasCount seen_leaf two_in_range 1 0 3 9 (pos 1) false at_ten []
