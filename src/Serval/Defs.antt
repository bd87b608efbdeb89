-- ===== src/Serval/Defs.antt =====
-- serval/include/value.hpp, row_region.hpp and the members of `Serval`: rows, their store and one
-- transaction. Pointers are numbers; the assertions are switched off.
use tpcc_runner.Base.{
  ℕ, ◌/◌, ◌%◌, Bool, false, Option, none, some, List, [], ◌∷◌, ℤ, ◌==◌, if◌then◌else◌,
}
use tpcc_runner.Serval.GlobalArray.{IdsSlots}
use tpcc_runner.Serval.Region
use tpcc_runner.Serval.Region.{RowRegion}

pub data VersionStatus : Type 0 where
  pending stable : VersionStatus

pub record Version : Type 0 where
  pub rec : ℕ
  pub status : VersionStatus
  pub deleted : Bool

-- `Value`: a row. `row_region` is none for the null pointer.
pub record Value : Type 0 where
  pub rwl : ℤ
  pub epoch : ℕ
  pub master : ℕ
  pub global_array : IdsSlots
  pub row_region : Option ℕ

-- The shared memory: rows and versions by address, and the regions with the number of those in use,
-- `used_` of `RowRegionController`. `freed` has the versions that are freed, latest first.
pub record Store : Type 0 where
  pub rows : ℕ → Value
  pub regions : ℕ → RowRegion
  pub used : ℕ
  pub versions : ℕ → Version
  pub next : ℕ
  pub freed : List ℕ

-- `Serval`: `core_`, `serial_id_`, `epoch_`, and the write set by tables.
pub record Transaction : Type 0 where
  pub core : ℕ
  pub serial_id : ℕ
  pub epoch : ℕ
  pub ws : ℕ → List ℕ
  pub tables : List ℕ

-- The lookup of the template parameter `Index`: `none` for `NOT_FOUND`.
abbrev pub Find : Type 0
Find = (table_id key : ℕ) → Option ℕ

abbrev pub get_core_serial : ℕ → ℕ
get_core_serial serial_id = serial_id / 64

abbrev pub get_tx_serial : ℕ → ℕ
get_tx_serial serial_id = serial_id % 64

abbrev pub put {ℓ} : {A : Type ℓ} → (ℕ → A) → ℕ → A → ℕ → A
put f p a q = if q == p then a else f q

abbrev pub set_row : ℕ → Value → Store → Store
set_row p val s = record s { rows = put s.rows p val }

abbrev pub set_region : ℕ → RowRegion → Store → Store
set_region q region s = record s { regions = put s.regions q region }

abbrev pub free_all : List ℕ → Store → Store
free_all [] s = s
free_all (v ∷ vs) s = let rest = free_all vs s in record rest { freed = v ∷ rest.freed }

-- `has_dirty_region`.
unfoldable pub has_dirty_region : Value → (ℕ → RowRegion) → Bool
unfolding Region.is_dirty
has_dirty_region val regions = by_region val.row_region
  where
    by_region : Option ℕ → Bool
    by_region none = false
    by_region (some q) = Region.is_dirty (regions q)
