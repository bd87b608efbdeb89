-- ===== src/Serval/Reads.antt =====
-- serval.hpp: `read`, and the write into a pending version.
use tpcc_runner.Base.{ℕ, ◌+◌, Bool, true, false, Option, none, some, ◌==◌, if◌then◌else◌}
use tpcc_runner.Serval.GlobalArray
use tpcc_runner.Serval.CoreArray
use tpcc_runner.Serval.Region
use tpcc_runner.Serval.Region.{RowRegion}
use tpcc_runner.Serval.Defs.{
  pending, stable, Value, Store, Transaction, Find, get_tx_serial, put, has_dirty_region,
}

-- What a read comes to: a record; a version that is pending, on which it spins; the null pointer;
-- an exception.
pub data ReadResult : Type 0 where
  record_of : ℕ → ReadResult
  spins : ℕ → ReadResult
  null_pointer : ReadResult
  throws : ReadResult

unfoldable pub execute_read : ℕ → Store → ReadResult
execute_read visible s = record_of (s.versions visible).rec

-- One round of the loop: the version is stable, or the read goes on waiting.
unfoldable pub wait_stable_and_execute_read : ℕ → Store → ReadResult
unfolding execute_read
wait_stable_and_execute_read visible s = elim (s.versions visible).status [
  | pending ↦ spins visible
  | stable ↦ execute_read visible s
]

-- The version that a read takes, and whether it waits for it to be stable. `none` for a row with
-- no version of the epoch it claims, and for a slot beyond its array.
unfoldable pub find_visible : Transaction → Value → (ℕ → RowRegion) → Option (Bool × ℕ)
unfolding GlobalArray.is_dirty GlobalArray.search_visible_version has_dirty_region
    Region.identify_visible_version CoreArray.get
find_visible tx val regions =
    if val.epoch == tx.epoch
    then (if GlobalArray.is_dirty val.global_array
        then by_search (GlobalArray.search_visible_version tx.serial_id val.global_array)
        else (if has_dirty_region val regions then by_region val.row_region else none))
    else some (false, val.master)
  where
    by_search : Option (ℕ × ℕ) → Option (Bool × ℕ)
    by_search none = some (false, val.master)
    by_search (some (id, v)) = some (true, v)

    by_slot : Option ℕ → Option (Bool × ℕ)
    by_slot none = none
    by_slot (some v) = some (true, v)

    by_place : RowRegion → Option (ℕ × ℕ) → Option (Bool × ℕ)
    by_place region none = some (false, val.master)
    by_place region (some (core, t)) = by_slot (CoreArray.get t (region.arrays core))

    by_region : Option ℕ → Option (Bool × ℕ)
    by_region none = none
    by_region (some q) =
        by_place (regions q)
          (Region.identify_visible_version tx.core (get_tx_serial tx.serial_id) (regions q))

unfoldable pub read : Find → ℕ → ℕ → Transaction → Store → ReadResult
unfolding find_visible execute_read wait_stable_and_execute_read
read find table_id key tx s = by_value (find table_id key)
  where
    by_version : Option (Bool × ℕ) → ReadResult
    by_version none = null_pointer
    by_version (some (true, v)) = wait_stable_and_execute_read v s
    by_version (some (false, v)) = execute_read v s

    by_value : Option ℕ → ReadResult
    by_value none = throws
    by_value (some p) = by_version (find_visible tx (s.rows p) s.regions)

-- `write` and `upsert`: the new record, and the version is stable from then on.
unfoldable pub upsert : ℕ → Store → Store
upsert version s = record s {
  versions = put s.versions version (record (s.versions version) { rec = s.next; status = stable });
  next = s.next + 1;
}
