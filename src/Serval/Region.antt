-- ===== src/Serval/Region.antt =====
-- serval/include/row_region.hpp: `RowRegion`. Core numbers are below 64.
use tpcc_runner.Base.{ℕ, Bool, not, Option, none, some, List, [], ◌==◌, if◌then◌else◌}
use tpcc_runner.Serval.Bitmap.{
  Bits, zero_word, is_bit_set_at_the_position, find_the_largest, find_the_largest_among_less_than,
  find_the_two_largest_among_or_less_than, is_nonzero, bit_or, set_bit_at_the_given_location,
}
use tpcc_runner.Serval.CoreArray
use tpcc_runner.Serval.CoreArray.{PerCoreVersionArray, new_array}

-- `core_bitmap_` and `arrays_`.
pub record RowRegion : Type 0 where
  pub core_bitmap : Bits
  pub arrays : ℕ → PerCoreVersionArray

abbrev pub new_region : RowRegion
new_region = record { core_bitmap = zero_word; arrays = λ core. new_array }

-- The core and the transaction of the latest version before the reader's.
unfoldable pub identify_visible_version : ℕ → ℕ → RowRegion → Option (ℕ × ℕ)
unfolding find_the_two_largest_among_or_less_than find_the_largest_among_less_than find_the_largest
identify_visible_version core tx r =
    by_cores (find_the_two_largest_among_or_less_than r.core_bitmap core)
  where
    final_of : ℕ → ℕ × ℕ
    final_of c = (c, find_the_largest (r.arrays c).transaction_bitmap)

    by_transaction : ℕ → Option ℕ → Option ℕ → Option (ℕ × ℕ)
    by_transaction first_core second_core (some first_tx) = some (first_core, first_tx)
    by_transaction first_core (some second_core) none = some (final_of second_core)
    by_transaction first_core none none = none

    by_cores : Option ℕ × Option ℕ → Option (ℕ × ℕ)
    by_cores (second_core, none) = none
    by_cores (second_core, some first_core) =
        if first_core == core
        then by_transaction first_core second_core
            (find_the_largest_among_less_than (r.arrays first_core).transaction_bitmap tx)
        else some (final_of first_core)

unfoldable pub is_dirty : RowRegion → Bool
unfolding is_nonzero
is_dirty r = is_nonzero r.core_bitmap

unfoldable pub initialize_core_bitmap : RowRegion → RowRegion
initialize_core_bitmap r = record r { core_bitmap = zero_word }

abbrev pub set_array : ℕ → PerCoreVersionArray → RowRegion → RowRegion
set_array core a r = record r { arrays = λ c. if c == core then a else r.arrays c }

unfoldable pub pop_final_state : RowRegion → Option (ℕ × ℕ) × RowRegion
unfolding find_the_largest CoreArray.pop_latest
pop_final_state r =
    let core = find_the_largest r.core_bitmap in
    let popped = CoreArray.pop_latest (r.arrays core) in (popped.0, set_array core popped.1 r)

unfoldable pub is_first_write : ℕ → RowRegion → Bool
unfolding is_bit_set_at_the_position
is_first_write core r = not (is_bit_set_at_the_position r.core_bitmap core)

-- The region and the versions that `clear_memory` frees, which are those of an earlier epoch.
unfoldable pub append : ℕ → ℕ → ℕ → RowRegion → RowRegion × List ℕ
unfolding is_first_write CoreArray.append bit_or set_bit_at_the_given_location
append core version tx r =
    let cleared = CoreArray.clear_memory (r.arrays core) in
    if is_first_write core r
    then (
      set_array core (CoreArray.append version tx cleared.0)
          (record r { core_bitmap = bit_or r.core_bitmap (set_bit_at_the_given_location core) }),
      cleared.1,
    )
    else (set_array core (CoreArray.append version tx (r.arrays core)) r, [])
