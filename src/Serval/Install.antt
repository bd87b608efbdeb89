-- ===== src/Serval/Install.antt =====
-- serval.hpp: the installation of a region in a crowded row, and the append as a whole.
use tpcc_runner.Base.{
  ℕ, suc, Bool, true, false, Option, none, some, List, [], ◌∷◌, ◌++◌, leb, ◌==◌, if◌then◌else◌,
}
use tpcc_runner.Serval.Defs.{Store, Transaction, Find, set_row, put}
use tpcc_runner.Serval.Appends.{
  Outcome, returns, throws, waits, Round, append_to_unconted_row, append_to_contented_row,
  move_global_array_to_row_region, unlock_row, try_lock_row, epoch_guard,
}

-- Under the lock of the row, by its region: the test of `may_be_contented` and its two branches.
unfoldable pub append_to_row : Transaction → ℕ → Option ℕ → Store → ℕ × Store
unfolding append_to_contented_row append_to_unconted_row
append_to_row tx p (some q) locked = append_to_contented_row tx q locked
append_to_row tx p none locked = append_to_unconted_row tx p locked

-- `NUM_REGIONS`.
module _ (num_regions : ℕ) where
  -- `RowRegionController::fetch_new_region`; none for the exception.
  unfoldable pub fetch_new_region : Store → Option (ℕ × Store)
  fetch_new_region s =
      if leb num_regions s.used then none else some (s.used, record s { used = suc s.used })

  -- With the lock of the row: the region that is there, or a new one with the versions moved to it.
  unfoldable pub install_region : ℕ → Store → Outcome (ℕ × Store)
  unfolding fetch_new_region move_global_array_to_row_region
  install_region p s = by_region (s.rows p).row_region
    where
      by_new : Option (ℕ × Store) → Outcome (ℕ × Store)
      by_new none = throws
      by_new (some (q, fetched)) =
          let moved = move_global_array_to_row_region p q fetched in
          returns
            (q, unlock_row p (set_row p (record (moved.rows p) { row_region = some q }) moved))

      by_region : Option ℕ → Outcome (ℕ × Store)
      by_region (some q) = returns (q, unlock_row p s)
      by_region none = by_new (fetch_new_region s)

  -- One round of the loop of `wait_region_installation`; none to go on.
  unfoldable pub installation_round : ℕ → (Store → Store) → Store → Option (Outcome (ℕ × Store))
  unfolding try_lock_row install_region
  installation_round p between s = by_region (s.rows p).row_region
    where
      by_lock : Option Store → Option (Outcome (ℕ × Store))
      by_lock none = none
      by_lock (some locked) = some (install_region p locked)

      by_region : Option ℕ → Option (Outcome (ℕ × Store))
      by_region (some q) = some (returns (q, s))
      by_region none = by_lock (try_lock_row p (between s))

  unfoldable pub wait_region_installation : ℕ → List Round → Store → Outcome (ℕ × Store)
  unfolding installation_round
  wait_region_installation p [] s = waits s
  wait_region_installation p (round ∷ rounds) s =
      ended (installation_round p round.between (round.before s))
        (wait_region_installation p rounds (round.between (round.before s)))
    where
      ended : Option (Outcome (ℕ × Store)) → Outcome (ℕ × Store) → Outcome (ℕ × Store)
      ended none rest = rest
      ended (some end) rest = end

  -- The new version and the store. The rounds are those of the two loops.
  unfoldable pub do_append_pending_version :
      Transaction → ℕ → (guard installation : List Round) → Store → Outcome (ℕ × Store)
  unfolding epoch_guard try_lock_row append_to_contented_row append_to_row wait_region_installation
  do_append_pending_version tx p guard installation s = by_guard (epoch_guard tx p guard s)
    where
      by_installation : Outcome (ℕ × Store) → Outcome (ℕ × Store)
      by_installation (returns (q, installed)) = returns (append_to_contented_row tx q installed)
      by_installation throws = throws
      by_installation (waits w) = waits w

      by_lock : Option Store → Store → Outcome (ℕ × Store)
      by_lock (some locked) guarded =
          let appended = append_to_row tx p (locked.rows p).row_region locked in
          returns (appended.0, unlock_row p appended.1)
      by_lock none guarded = by_installation (wait_region_installation p installation guarded)

      by_guard : Outcome Store → Outcome (ℕ × Store)
      by_guard (returns guarded) = by_lock (try_lock_row p guarded) guarded
      by_guard throws = throws
      by_guard (waits w) = waits w

  abbrev has_key : ℕ → List ℕ → Bool
  has_key key [] = false
  has_key key (k ∷ keys) = let rest = has_key key keys in if k == key then true else rest

  -- `append_pending_version`: nothing for a key of the write set; an exception for a key that the
  -- index does not have.
  unfoldable pub append_pending_version :
      Find
      → (table_id key : ℕ) → (guard installation : List Round) → Transaction
      → Store
      → Outcome (Option ℕ × Transaction × Store)
  unfolding do_append_pending_version
  append_pending_version find table_id key guard installation tx s =
      if has_key key (tx.ws table_id)
      then returns (none, touched, s)
      else by_value (find table_id key)
    where
      touched : Transaction
      touched = record tx {
        tables = if has_key table_id tx.tables then tx.tables else table_id ∷ tx.tables;
      }

      by_append : Outcome (ℕ × Store) → Outcome (Option ℕ × Transaction × Store)
      by_append (returns (version, appended)) = returns (
        some version,
        record touched { ws = put tx.ws table_id (tx.ws table_id ++ key ∷ []) },
        appended,
      )
      by_append throws = throws
      by_append (waits w) = waits w

      by_value : Option ℕ → Outcome (Option ℕ × Transaction × Store)
      by_value none = throws
      by_value (some p) = by_append (do_append_pending_version tx p guard installation s)

-- `terminate_transaction`: the write set of every table that was touched is cleared.
unfoldable pub terminate_transaction : Transaction → Transaction
terminate_transaction tx = cleared tx.tables
  where
    cleared : List ℕ → Transaction
    cleared [] = record tx { tables = [] }
    cleared (table_id ∷ rest) =
        let after = cleared rest in record after { ws = put after.ws table_id [] }
