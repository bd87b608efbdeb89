-- ===== src/Serval/Installed.antt =====
-- serval.hpp: the installation of a region in a crowded row.
use tpcc_runner.Base.{
  ℕ, suc, ◌/◌, ◌%◌, ◌<◌, ◌≡◌, refl, subst, ◌∙◌, true, false, none, some, [], ◌∷◌, leb, arith, ◌==◌,
  ◌+ℤ◌,
}
use tpcc_runner.Rwlock.Calls.{unlocked, write_locked, unlock}
use tpcc_runner.Serval.GlobalArray.{IdsSlots}
use tpcc_runner.Serval.Region.{new_region}
use tpcc_runner.Serval.Moved.{move_versions-IsInstalled}
use tpcc_runner.Serval.Defs.{Store}
use tpcc_runner.Serval.Appends.{
  Outcome, returns, throws, waits, append_in, move_versions, move_global_array_to_row_region,
}
use tpcc_runner.Serval.Install.{fetch_new_region, install_region}
use tpcc_runner.Serval.Rows.{versions_in, IsRow, IsPlaced}
use tpcc_runner.Serval.Refine.{View, view, rows-append_in}

rows-move_versions :
    (ids_slots : IdsSlots) (q : ℕ) (s : Store) → (move_versions ids_slots q s).rows ≡ s.rows
unfolding move_versions
rows-move_versions [] q s = refl
rows-move_versions ((id, v) ∷ ids_slots) q s =
    rows-move_versions ids_slots q (append_in q (id / 64) v (id % 64) s)
    ∙ rows-append_in q (id / 64) v (id % 64) s

-- A row that has its region: seen as before, well formed, and with its lock free.
pub record HasRegion (p q : ℕ) (before : View) (t : Store) : Type 0 where
  pub region : (t.rows p).row_region ≡ some q
  pub same : view p t ≡ before
  pub row : IsRow (t.rows p) t.regions
  pub rwl : (t.rows p).rwl ≡ unlocked

unfoldable pub Installs : ℕ → ℕ → View → Outcome (ℕ × Store) → Type 0
Installs p q before (returns (r, t)) = (r ≡ q) × HasRegion p q before t
Installs p q before throws = ⊥
Installs p q before (waits w) = ⊥

-- On a row without a region whose lock is held by the caller, with a region left that is new, the
-- installation returns that region; the row has it, its readers see the same epoch, master version
-- and versions as before, it is well formed, and its lock is free.
pub install_region-same :
    (num_regions p : ℕ) (s : Store)
    → (s.rows p).row_region ≡ none
    → (s.rows p).rwl ≡ write_locked
    → IsRow (s.rows p) s.regions
    → s.used < num_regions
    → s.regions s.used ≡ new_region
    → Installs p s.used (view p s) (install_region num_regions p s)
unfolding Installs install_region fetch_new_region move_global_array_to_row_region versions_in
    unlock ◌+ℤ◌
install_region-same num p s n f w u fresh =
    let here : (p == p) ≡ true = ground arith in
    let left : leb num s.used ≡ false = ground (arith, u) in
    let fetched = record s { used = suc s.used } in
    let ids = (s.rows p).global_array in
    let placed = subst (IsPlaced (s.rows p) s.regions) n w in
    let moved = move_versions-IsInstalled ids s.used fetched fresh placed.0 placed.1 in
    rw (n, left)
      (
        refl,
        record {
          region = rw here refl;
          same = rw (here, rows-move_versions ids s.used fetched, moved.same) refl;
          row = rw here (refl, moved.region);
          rwl = rw (here, rows-move_versions ids s.used fetched, f) refl;
        },
      )
