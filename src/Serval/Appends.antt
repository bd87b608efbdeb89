-- ===== src/Serval/Appends.antt =====
-- serval.hpp: the append of a pending version to a row. What the other threads do to the store
-- comes in the rounds of the loops: before the test of a round, and between the test and the lock.
use tpcc_runner.Base.{ℕ, ◌+◌, false, Option, none, some, List, [], ◌∷◌, ltb, if◌then◌else◌}
use tpcc_runner.Rwlock.Calls.{try_lock, unlock}
use tpcc_runner.Serval.GlobalArray
use tpcc_runner.Serval.GlobalArray.{IdsSlots}
use tpcc_runner.Serval.Region
use tpcc_runner.Serval.Region.{RowRegion}
use tpcc_runner.Serval.Defs.{
  pending, Value, Store, Transaction, get_core_serial, get_tx_serial, put, set_row, set_region,
  free_all, has_dirty_region,
}

-- How a call ends: with a result, by an exception, or not in the rounds that it was given.
pub data Outcome {ℓ} (A : Type ℓ) : Type ℓ where
  returns : A → Outcome A
  throws : Outcome A
  waits : Store → Outcome A

pub record Round : Type 0 where
  pub before : Store → Store
  pub between : Store → Store

-- The address of the new version and the store with it.
unfoldable pub create_pending_version : Store → ℕ × Store
create_pending_version s = (
  s.next,
  record s {
    versions = put s.versions s.next (record { rec = 0; status = pending; deleted = false });
    next = s.next + 1;
  },
)

unfoldable pub append_to_unconted_row : Transaction → ℕ → Store → ℕ × Store
unfolding create_pending_version GlobalArray.append
append_to_unconted_row tx p s =
    let created = create_pending_version s in
    let val = created.1.rows p in
    (
      created.0,
      set_row p
          (record val { global_array = GlobalArray.append created.0 tx.serial_id val.global_array })
          created.1,
    )

-- `region->append` on a region in the store.
unfoldable pub append_in : ℕ → ℕ → ℕ → ℕ → Store → Store
unfolding Region.append
append_in q core version tx s =
    let appended = Region.append core version tx (s.regions q) in
    free_all appended.1 (set_region q appended.0 s)

unfoldable pub append_to_contented_row : Transaction → ℕ → Store → ℕ × Store
unfolding create_pending_version append_in
append_to_contented_row tx q s =
    let created = create_pending_version s in
    (created.0, append_in q tx.core created.0 (get_tx_serial tx.serial_id) created.1)

unfoldable pub move_versions : IdsSlots → ℕ → Store → Store
unfolding append_in
move_versions [] q s = s
move_versions ((serial_id, version) ∷ ids_slots) q s =
    move_versions ids_slots q
      (append_in q (get_core_serial serial_id) version (get_tx_serial serial_id) s)

-- The array of the row is empty afterwards.
unfoldable pub move_global_array_to_row_region : ℕ → ℕ → Store → Store
unfolding move_versions
move_global_array_to_row_region p q s =
    let moved = move_versions (s.rows p).global_array q s in
    set_row p (record (moved.rows p) { global_array = [] }) moved

abbrev pub unlock_row : ℕ → Store → Store
unlock_row p s = set_row p (record (s.rows p) { rwl = unlock (s.rows p).rwl }) s

-- The row with its lock taken, where `try_lock` takes it.
unfoldable pub try_lock_row : ℕ → Store → Option Store
unfolding try_lock
try_lock_row p s =
    let locked = try_lock (s.rows p).rwl in
    if locked.0 then some (set_row p (record (s.rows p) { rwl = locked.1 }) s) else none

-- `gc_master_version`: the old master is freed.
unfoldable pub gc_master_version : ℕ → ℕ → Store → Store
gc_master_version p latest s =
    set_row p (record (s.rows p) { master = latest }) (free_all ((s.rows p).master ∷ []) s)

-- The final state of the epoch before becomes the master version, and the row is the epoch's.
unfoldable pub initialize_the_row : Transaction → ℕ → Store → Store
unfolding GlobalArray.is_dirty GlobalArray.pop_final_state GlobalArray.clear_memory has_dirty_region
    Region.pop_final_state Region.initialize_core_bitmap gc_master_version
initialize_the_row tx p s = in_epoch (final_state (s.rows p))
  where
    by_array : Option (ℕ × ℕ) × IdsSlots → Store
    by_array (none, rest) = s
    by_array (some (id, latest), rest) =
        let cleared = GlobalArray.clear_memory rest in
        gc_master_version p latest
          (free_all cleared.1 (set_row p (record (s.rows p) { global_array = cleared.0 }) s))

    by_popped : ℕ → Option (ℕ × ℕ) × RowRegion → Store
    by_popped q (none, region) = s
    by_popped q (some (id, latest), region) =
        gc_master_version p latest (set_region q (Region.initialize_core_bitmap region) s)

    by_region : Option ℕ → Store
    by_region none = s
    by_region (some q) = by_popped q (Region.pop_final_state (s.regions q))

    final_state : Value → Store
    final_state val =
        if GlobalArray.is_dirty val.global_array
        then by_array (GlobalArray.pop_final_state val.global_array)
        else (if has_dirty_region val s.regions then by_region val.row_region else s)

    in_epoch : Store → Store
    in_epoch final = set_row p (record (final.rows p) { epoch = tx.epoch }) final

-- One round of the loop of `epoch_guard`: the store with which it ends, or none to go on.
unfoldable pub guard_round : Transaction → ℕ → (Store → Store) → Store → Option Store
unfolding try_lock_row initialize_the_row
guard_round tx p between s =
    if ltb (s.rows p).epoch tx.epoch then by_lock (try_lock_row p (between s)) else some s
  where
    by_lock : Option Store → Option Store
    by_lock none = none
    by_lock (some locked) = some (
        unlock_row p
          (if ltb (locked.rows p).epoch tx.epoch then initialize_the_row tx p locked else locked))

unfoldable pub epoch_guard : Transaction → ℕ → List Round → Store → Outcome Store
unfolding guard_round
epoch_guard tx p [] s = waits s
epoch_guard tx p (round ∷ rounds) s =
    ended (guard_round tx p round.between (round.before s))
      (epoch_guard tx p rounds (round.between (round.before s)))
  where
    ended : Option Store → Outcome Store → Outcome Store
    ended none rest = rest
    ended (some end) rest = returns end
