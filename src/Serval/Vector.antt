-- ===== src/Serval/Vector.antt =====
-- What serval/include/row_region.hpp uses of `std::vector`.
use tpcc_runner.Base.{ℕ, zero, suc, Bool, Option, none, some, List, [], ◌∷◌, if◌then◌else◌}

-- `std::upper_bound`: the index of the first element that the test holds of, on a range where the
-- test, once it holds, holds of all the rest.
unfoldable pub upper_bound {ℓ} : {A : Type ℓ} → (A → Bool) → List A → ℕ
upper_bound before [] = 0
upper_bound before (x ∷ xs) = let rest = upper_bound before xs in if before x then 0 else suc rest

-- `std::vector::insert` at an index, and `pop_back`.
unfoldable pub insert_at {ℓ} : {A : Type ℓ} → ℕ → A → List A → List A
insert_at zero a xs = a ∷ xs
insert_at (suc i) a [] = a ∷ []
insert_at (suc i) a (x ∷ xs) = x ∷ insert_at i a xs

unfoldable pub back {ℓ} : {A : Type ℓ} → List A → Option A
back [] = none
back (x ∷ []) = some x
back (x ∷ y ∷ xs) = back (y ∷ xs)

unfoldable pub pop_back {ℓ} : {A : Type ℓ} → List A → List A
pop_back [] = []
pop_back (x ∷ []) = []
pop_back (x ∷ y ∷ xs) = x ∷ pop_back (y ∷ xs)
