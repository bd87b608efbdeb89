-- ===== src/Serval/Rows.antt =====
-- serval.hpp, value.hpp: a row as its readers see it, which is the same for a row with a global
-- version array and for one with a region.
use tpcc_runner.Base.{
  ℕ, suc, ◌+◌, ◌*◌, ◌<◌, ◌≡◌, ◌≢◌, refl, sym, ap, subst, ◌∙◌, Bool, true, false, not, Option, none,
  some, List, [], ◌∷◌, ◌++◌, length, arith, ◌==◌, if◌then◌else◌, Option-cases, inl, inr, ◌⊎◌,
}
use mathlib.Core.Option
use tpcc_runner.Serval.Bitmap.{Bits, is_nonzero, count_bits}
use tpcc_runner.Serval.Bits.{last_set}
use tpcc_runner.Serval.GlobalArray
use tpcc_runner.Serval.GlobalArray.{IdsSlots, search_visible_version}
use tpcc_runner.Serval.CoreArray
use tpcc_runner.Serval.CoreArray.{PerCoreVersionArray}
use tpcc_runner.Serval.Region
use tpcc_runner.Serval.Region.{RowRegion, identify_visible_version}
use tpcc_runner.Serval.Rank.{entries, last_below}
use tpcc_runner.Serval.Search.{IsAscending, listing_from, listing, search-last_below}
use tpcc_runner.Serval.Cores.{IsUsed, AreUsed, first_in_use, later_in_use}
use tpcc_runner.Serval.Visible.{IsRegion, version_of, identify-last_below, identify-IsFound}
use tpcc_runner.Serval.Moved.{AreSerial}
use tpcc_runner.Serval.Defs.{Value, Transaction, has_dirty_region, get_tx_serial}
use tpcc_runner.Serval.Reads.{find_visible}

-- The versions of a row, with their serial identifiers in ascending order.
unfoldable pub versions_in : Value → (ℕ → RowRegion) → IdsSlots
versions_in val regions = by_region val.row_region
  where
    by_region : Option ℕ → IdsSlots
    by_region none = val.global_array
    by_region (some q) = listing (regions q)

-- A row that has a region keeps nothing in its array.
abbrev pub IsPlaced : Value → (ℕ → RowRegion) → Option ℕ → Type 0
IsPlaced val regions none = IsAscending val.global_array × AreSerial val.global_array
IsPlaced val regions (some q) = (val.global_array ≡ []) × IsRegion (regions q)

abbrev pub IsRow : Value → (ℕ → RowRegion) → Type 0
IsRow val regions = IsPlaced val regions val.row_region

-- What a reader takes: the last version before it, or the master version, for which it does not
-- wait. A row of the reader's epoch has a version.
unfoldable pub spec_visible : Transaction → (epoch master : ℕ) → IdsSlots → Option (Bool × ℕ)
unfolding last_below
spec_visible tx epoch master versions =
    if epoch == tx.epoch then by_versions versions else some (false, master)
  where
    by_latest : Option (ℕ × ℕ) → Option (Bool × ℕ)
    by_latest none = some (false, master)
    by_latest (some (id, v)) = some (true, v)

    by_versions : IdsSlots → Option (Bool × ℕ)
    by_versions [] = none
    by_versions (p ∷ ps) = by_latest (last_below tx.serial_id (p ∷ ps))

entries-dirty :
    (i : ℕ) (bs : Bits) (vs : List ℕ)
    → count_bits bs ≡ length vs
    → last_set bs ≢ none
    → GlobalArray.is_empty (entries i bs vs) ≡ false
unfolding entries count_bits
entries-dirty i [] vs e h = absurd (h refl)
entries-dirty i (true ∷ bs) [] e h = absurd (omega (arith, e))
entries-dirty i (true ∷ bs) (v ∷ vs) e h = refl
entries-dirty i (false ∷ bs) vs e h =
    entries-dirty (suc i) bs vs (omega (arith, e)) (λ n. h (rw n refl))

is_empty-append :
    (xs ys : IdsSlots) → GlobalArray.is_empty xs ≡ false → GlobalArray.is_empty (xs ++ ys) ≡ false
is_empty-append [] ys h = absurd (ground (arith, h))
is_empty-append (x ∷ xs) ys h = refl

-- The region is dirty when it has a version.
listing-dirty :
    (c : ℕ) (bs : Bits) (arrays : ℕ → PerCoreVersionArray)
    → AreUsed c arrays bs
    → not (GlobalArray.is_empty (listing_from c bs arrays)) ≡ is_nonzero bs
unfolding listing_from is_nonzero
listing-dirty c [] arrays u = refl
listing-dirty c (false ∷ bs) arrays u =
    listing-dirty (suc c) bs arrays (later_in_use c arrays false bs u)
listing-dirty c (true ∷ bs) arrays u =
    let a = arrays c in
    let used = first_in_use c arrays true bs u refl in
    ap not (
      is_empty-append (entries (c * 64) a.transaction_bitmap a.slots)
        (listing_from (suc c) bs arrays)
        (entries-dirty (c * 64) a.transaction_bitmap a.slots used.0.1 used.1))

pub region-dirty :
    (r : RowRegion) → IsRegion r → not (GlobalArray.is_empty (listing r)) ≡ is_nonzero r.core_bitmap
region-dirty r w =
    listing-dirty 0 r.core_bitmap r.arrays
      (λ f b. subst (λ i. IsUsed (r.arrays i)) (omega arith) (w.used f b))

module _ (tx : Transaction) (val : Value) (regions : ℕ → RowRegion) where
  array-refines :
      (versions : IdsSlots)
      → val.global_array ≡ versions
      → val.row_region ≡ none
      → IsAscending versions
      → find_visible tx val regions ≡ spec_visible tx val.epoch val.master versions
  unfolding find_visible spec_visible GlobalArray.is_dirty has_dirty_region
  array-refines [] e n a = rw (e, n) refl
  array-refines (p ∷ ps) e n a = rw (e, n, search-last_below tx.serial_id (p ∷ ps) a) refl

  abbrev slot_read : Option ℕ → Option (Bool × ℕ)
  slot_read none = none
  slot_read (some v) = some (true, v)

  abbrev place_read : RowRegion → Option (ℕ × ℕ) → Option (Bool × ℕ)
  place_read r none = some (false, val.master)
  place_read r (some (c, t)) = slot_read (CoreArray.get t (r.arrays c))

  abbrev entry_read : Option (ℕ × ℕ) → Option (Bool × ℕ)
  entry_read none = some (false, val.master)
  entry_read (some (id, v)) = some (true, v)

  -- The read at a place that has a version is the read of that version.
  place_read_lem :
      (r : RowRegion) (o : Option (ℕ × ℕ))
      → (o ≡ none) ⊎ ((p : ℕ × ℕ) × (version_of r o ≡ some p))
      → place_read r o ≡ entry_read (version_of r o)
  unfolding version_of
  place_read_lem r none f = refl
  place_read_lem r (some (c, t)) (inl e) = absurd (ground (arith, e))
  place_read_lem r (some (c, t)) (inr (p, e)) = elim (Option-cases (CoreArray.get t (r.arrays c))) [
    | inl g ↦ absurd (ground (arith, sym (ap (Option.map (λ v. (c * 64 + t, v))) g) ∙ e))
    | inr (v, g) ↦ rw g refl
  ]

  region-refines :
      (q : ℕ)
      → val.global_array ≡ []
      → val.row_region ≡ some q
      → IsRegion (regions q)
      → tx.core < 64
      → tx.serial_id ≡ tx.core * 64 + get_tx_serial tx.serial_id
      → (versions : IdsSlots) → listing (regions q) ≡ versions
      → find_visible tx val regions ≡ spec_visible tx val.epoch val.master versions
  unfolding find_visible spec_visible GlobalArray.is_dirty has_dirty_region Region.is_dirty
  region-refines q e n w lc serial [] l =
      let clean : is_nonzero (regions q).core_bitmap ≡ false =
        sym (region-dirty (regions q) w) ∙ ap (λ xs. not (GlobalArray.is_empty xs)) l in
      rw (e, n, clean) refl
  region-refines q e n w lc serial (p ∷ ps) l =
      let tx_serial = get_tx_serial tx.serial_id in
      let dirty : is_nonzero (regions q).core_bitmap ≡ true =
        sym (region-dirty (regions q) w) ∙ ap (λ xs. not (GlobalArray.is_empty xs)) l in
      let same : version_of (regions q) (identify_visible_version tx.core tx_serial (regions q))
          ≡ last_below tx.serial_id (p ∷ ps) =
        identify-last_below (regions q) w tx.core tx_serial lc (omega arith)
        ∙ rw⁻¹ serial (ap (last_below tx.serial_id) l) in
      rw (e, n, dirty)
        (ap (λ x. if val.epoch == tx.epoch then x else some (false, val.master))
          (place_read_lem (regions q) (identify_visible_version tx.core tx_serial (regions q))
              (identify-IsFound (regions q) w tx.core tx_serial lc (omega arith))
            ∙ ap entry_read same))

-- A read of a well-formed row, by a transaction of a core below 64 whose serial identifier is made
-- of that core and a number below 64, takes what the specification says of the versions of the
-- row: in a row with a region by the bitmaps, and in a row with a global version array by the
-- search.
pub find_visible-refines :
    (tx : Transaction) (val : Value) (regions : ℕ → RowRegion)
    → IsRow val regions
    → tx.core < 64
    → tx.serial_id ≡ tx.core * 64 + get_tx_serial tx.serial_id
    → find_visible tx val regions ≡ spec_visible tx val.epoch val.master (versions_in val regions)
unfolding versions_in
find_visible-refines tx val regions w lc serial = by_region val.row_region refl w
  where
    by_region :
        (o : Option ℕ)
        → val.row_region ≡ o
        → IsPlaced val regions o
        → find_visible tx val regions
          ≡ spec_visible tx val.epoch val.master
              (elim o [ none ↦ val.global_array | some q ↦ listing (regions q) ])
    by_region none n p = array-refines tx val regions val.global_array refl n p.0
    by_region (some q) n p =
        region-refines tx val regions q p.0 n p.1 lc serial (listing (regions q)) refl
