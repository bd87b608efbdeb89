-- ===== src/Serval/Bitmap.antt =====
-- utils/bitmap.hpp. A `uint64_t` is the list of its 64 bits, the most significant first, so that
-- the position of a bit, which the code counts from the left, is its index. -1 is `none`.
use tpcc_runner.Base.{
  ℕ, zero, suc, ◌+◌, ◌-◌, Bool, true, false, not, ◌&&◌, ◌||◌, Option, none, some, List, [], ◌∷◌,
  length, replicate, ◌==◌, if◌then◌else◌,
}

-- The operators of the language on words.
abbrev pub Bits : Type 0
Bits = List Bool

unfoldable pub complement : Bits → Bits
complement [] = []
complement (b ∷ bs) = not b ∷ complement bs

unfoldable pub bit_and : Bits → Bits → Bits
bit_and [] cs = []
bit_and (b ∷ bs) [] = []
bit_and (b ∷ bs) (c ∷ cs) = (b && c) ∷ bit_and bs cs

unfoldable pub bit_or : Bits → Bits → Bits
bit_or [] cs = []
bit_or (b ∷ bs) [] = []
bit_or (b ∷ bs) (c ∷ cs) = (b || c) ∷ bit_or bs cs

-- A shift to the right by one, with the bit that comes in on the left.
unfoldable pub shift_in : Bool → Bits → Bits
shift_in b [] = []
shift_in b (c ∷ bs) = b ∷ shift_in c bs

unfoldable pub shift_right : Bool → ℕ → Bits → Bits
shift_right b zero bs = bs
shift_right b (suc n) bs = shift_in b (shift_right b n bs)

unfoldable pub is_nonzero : Bits → Bool
is_nonzero [] = false
is_nonzero (b ∷ bs) = b || is_nonzero bs

-- `__builtin_popcountll`, which `count_bits` calls.
unfoldable pub count_bits : Bits → ℕ
count_bits [] = 0
count_bits (b ∷ bs) = (if b then 1 else 0) + count_bits bs

-- `__builtin_ffsll`: one more than the number of bits to the right of the last one set, or 0.
unfoldable pub find_the_location_of_first_bit_from_right : Bits → ℕ
find_the_location_of_first_bit_from_right [] = 0
find_the_location_of_first_bit_from_right (b ∷ bs) =
    let rest = find_the_location_of_first_bit_from_right bs in
    if rest == 0 then (if b then length bs + 1 else 0) else rest

abbrev pub zero_word : Bits
zero_word = replicate 64 false

-- `~(~0ULL >> 1)`, read as unsigned or as signed.
unfoldable pub set_upper_bit : Bits
unfolding complement shift_right shift_in
set_upper_bit = complement (shift_right false 1 (complement zero_word))

unfoldable pub set_bit_at_the_given_location : ℕ → Bits
unfolding shift_right set_upper_bit
set_bit_at_the_given_location pos = shift_right false pos set_upper_bit

-- The overload with a bitmap.
unfoldable pub set_bit_in : Bits → ℕ → Bits
unfolding bit_or set_bit_at_the_given_location
set_bit_in bitmap pos = bit_or bitmap (set_bit_at_the_given_location pos)

-- A signed value with its upper bit set brings in ones.
unfoldable pub fill_the_left_side_until_before_the_given_position : ℕ → Bits
unfolding shift_right set_upper_bit
fill_the_left_side_until_before_the_given_position pos =
    if pos == 0 then zero_word else shift_right true (pos - 1) set_upper_bit

unfoldable pub fill_the_left_side_until_the_given_position : ℕ → Bits
unfolding shift_right set_upper_bit
fill_the_left_side_until_the_given_position pos = shift_right true pos set_upper_bit

unfoldable pub is_bit_set_at_the_position : Bits → ℕ → Bool
unfolding is_nonzero bit_and set_bit_at_the_given_location
is_bit_set_at_the_position bitmap pos =
    is_nonzero (bit_and bitmap (set_bit_at_the_given_location pos))

unfoldable pub find_the_largest : Bits → ℕ
unfolding find_the_location_of_first_bit_from_right
find_the_largest bits = 64 - find_the_location_of_first_bit_from_right bits

unfoldable pub find_the_largest_among_or_less_than : Bits → ℕ → Option ℕ
unfolding bit_and is_nonzero find_the_largest fill_the_left_side_until_the_given_position
find_the_largest_among_or_less_than bitmap pos =
    let smallers = bit_and bitmap (fill_the_left_side_until_the_given_position pos) in
    if is_nonzero smallers then some (find_the_largest smallers) else none

-- The second largest and the largest.
unfoldable pub find_the_two_largest_among_or_less_than : Bits → ℕ → Option ℕ × Option ℕ
unfolding bit_and is_nonzero find_the_largest fill_the_left_side_until_the_given_position count_bits
    complement set_bit_at_the_given_location
find_the_two_largest_among_or_less_than bitmap pos =
    let smallers = bit_and bitmap (fill_the_left_side_until_the_given_position pos) in
    let largest_pos = find_the_largest smallers in
    let others = bit_and (complement (set_bit_at_the_given_location largest_pos)) smallers in
    if is_nonzero smallers
    then (if count_bits smallers == 1
        then (none, some largest_pos)
        else (some (find_the_largest others), some largest_pos))
    else (none, none)

unfoldable pub find_the_largest_among_less_than : Bits → ℕ → Option ℕ
unfolding bit_and is_nonzero find_the_largest fill_the_left_side_until_before_the_given_position
find_the_largest_among_less_than bitmap pos =
    let smallers = bit_and bitmap (fill_the_left_side_until_before_the_given_position pos) in
    if is_nonzero smallers then some (find_the_largest smallers) else none
