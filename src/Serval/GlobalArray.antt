-- ===== src/Serval/GlobalArray.antt =====
-- serval/include/row_region.hpp: `GlobalVersionArray`. A `Version*` is its address; what it points
-- to is in the store of the protocol.
use tpcc_runner.Base.{
  ℕ, ◌-◌, Bool, true, false, not, Option, none, List, [], ◌∷◌, get_elem?, ltb, leb, ◌==◌,
  if◌then◌else◌,
}
use tpcc_runner.Serval.Vector.{upper_bound, insert_at, back, pop_back}

-- `ids_slots_`: serial identifiers with their versions, ascending.
abbrev pub IdsSlots : Type 0
IdsSlots = List (ℕ × ℕ)

unfoldable pub is_exist : ℕ → IdsSlots → Bool
is_exist tx [] = false
is_exist tx ((id, v) ∷ ids_slots) =
    let rest = is_exist tx ids_slots in if id == tx then true else rest

unfoldable pub search_visible_version : ℕ → IdsSlots → Option (ℕ × ℕ)
unfolding upper_bound
search_visible_version serial_id [] = none
search_visible_version serial_id ((id, v) ∷ ids_slots) =
    if leb serial_id id
    then none
    else get_elem? ((id, v) ∷ ids_slots)
        (upper_bound (λ p. leb serial_id p.0) ((id, v) ∷ ids_slots) - 1)

unfoldable pub append : ℕ → ℕ → IdsSlots → IdsSlots
unfolding upper_bound insert_at
append version serial_id ids_slots =
    insert_at (upper_bound (λ p. ltb serial_id p.0) ids_slots) (serial_id, version) ids_slots

-- The latest version and the array without it; nothing for an empty array.
unfoldable pub pop_final_state : IdsSlots → Option (ℕ × ℕ) × IdsSlots
unfolding back pop_back
pop_final_state ids_slots = (back ids_slots, pop_back ids_slots)

unfoldable pub latest : IdsSlots → Option (ℕ × ℕ)
unfolding back
latest ids_slots = back ids_slots

abbrev pub is_empty : IdsSlots → Bool
is_empty [] = true
is_empty (p ∷ ids_slots) = false

unfoldable pub is_dirty : IdsSlots → Bool
is_dirty ids_slots = not (is_empty ids_slots)

-- `minor_gc`: the versions that `clear_memory` frees.
unfoldable pub minor_gc : IdsSlots → List ℕ
minor_gc [] = []
minor_gc ((id, v) ∷ ids_slots) = v ∷ minor_gc ids_slots

-- The empty array and the versions freed.
unfoldable pub clear_memory : IdsSlots → IdsSlots × List ℕ
unfolding minor_gc
clear_memory ids_slots = ([], minor_gc ids_slots)
