-- ===== src/Serval/CoreArray.antt =====
-- serval/include/row_region.hpp: `PerCoreVersionArray`. Transaction numbers are below 64.
use tpcc_runner.Base.{ℕ, ◌-◌, Option, List, [], get_elem?}
use mathlib.Core.Option
use tpcc_runner.Serval.Bitmap.{
  Bits, zero_word, count_bits, bit_and, set_bit_in, find_the_largest,
  fill_the_left_side_until_the_given_position,
}
use tpcc_runner.Serval.Vector.{insert_at, back, pop_back}

pub record PerCoreVersionArray : Type 0 where
  pub transaction_bitmap : Bits
  pub slots : List ℕ

abbrev pub new_array : PerCoreVersionArray
new_array = record { transaction_bitmap = zero_word; slots = [] }

-- The empty array and the versions that `minor_gc` frees.
abbrev pub clear_memory : PerCoreVersionArray → PerCoreVersionArray × List ℕ
clear_memory a = (new_array, a.slots)

unfoldable pub size : PerCoreVersionArray → ℕ
unfolding count_bits
size a = count_bits a.transaction_bitmap

-- A read out of the vector is undefined behaviour: `none`.
unfoldable pub get : ℕ → PerCoreVersionArray → Option ℕ
unfolding count_bits bit_and fill_the_left_side_until_the_given_position
get tx a =
    get_elem? a.slots (
      count_bits (bit_and a.transaction_bitmap (fill_the_left_side_until_the_given_position tx))
      - 1)

unfoldable pub latest : PerCoreVersionArray → Option ℕ
unfolding size
latest a = get_elem? a.slots (size a - 1)

-- The bitmap stays as it is.
unfoldable pub pop_latest : PerCoreVersionArray → Option (ℕ × ℕ) × PerCoreVersionArray
unfolding back pop_back find_the_largest
pop_latest a = (
  Option.map (λ v. (find_the_largest a.transaction_bitmap, v)) (back a.slots),
  record a { slots = pop_back a.slots },
)

unfoldable pub update_transaction_bitmap : ℕ → PerCoreVersionArray → PerCoreVersionArray
unfolding set_bit_in
update_transaction_bitmap tx_id a = record a {
  transaction_bitmap = set_bit_in a.transaction_bitmap tx_id;
}

unfoldable pub append : ℕ → ℕ → PerCoreVersionArray → PerCoreVersionArray
unfolding size insert_at update_transaction_bitmap
append version tx_id a =
    update_transaction_bitmap tx_id (record a { slots = insert_at (size a) version a.slots })
