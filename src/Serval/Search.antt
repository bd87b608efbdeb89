-- ===== src/Serval/Search.antt =====
-- serval/include/row_region.hpp: what `search_visible_version` finds, and the version list that a
-- row region stands for.
use tpcc_runner.Base.{
  ℕ, suc, ◌-◌, ◌*◌, ◌≤◌, ◌<◌, ◌≡◌, refl, sym, ◌∙◌, true, false, Option, none, some, [], ◌∷◌, ◌++◌,
  get_elem?, ltb, leb, All, if◌then◌else◌, arith, Bool-cases, inl, inr, leb→le,
}
use mathlib.Core.Option
use tpcc_runner.Serval.Bitmap.{Bits}
use tpcc_runner.Serval.Vector.{upper_bound}
use tpcc_runner.Serval.GlobalArray.{IdsSlots, search_visible_version}
use tpcc_runner.Serval.CoreArray.{PerCoreVersionArray}
use tpcc_runner.Serval.Region.{RowRegion}
use tpcc_runner.Serval.Rank.{entries, last_below, entries-from}

-- Every entry after k; the identifiers in ascending order.
abbrev pub Above : ℕ → IdsSlots → Type 0
Above k ids_slots = All (λ p. k < p.0) ids_slots

abbrev pub IsAscending : IdsSlots → Type 0
IsAscending [] = Unit {0}
IsAscending ((id, v) ∷ ids_slots) = Above id ids_slots × IsAscending ids_slots

pub or_else-none {ℓ} : {A : Type ℓ} (o : Option A) → Option.or_else o none ≡ o
unfolding Option.or_else
or_else-none none = refl
or_else-none (some a) = refl

pub or_else_assoc {ℓ} :
    {A : Type ℓ} (o p q : Option A)
    → Option.or_else (Option.or_else o p) q ≡ Option.or_else o (Option.or_else p q)
unfolding Option.or_else
or_else_assoc none p q = refl
or_else_assoc (some a) p q = refl

last_below-Above : (s k : ℕ) (xs : IdsSlots) → s ≤ k → Above k xs → last_below s xs ≡ none
unfolding last_below Option.or_else
last_below-Above s k [] le h = refl
last_below-Above s k ((id, v) ∷ xs) le h =
    let above : ltb id s ≡ false = ground (arith, le, h.0) in
    rw (last_below-Above s k xs le h.1, above) refl

-- The element in front of the bound is the last one below it.
before_bound :
    (s id v : ℕ) (xs : IdsSlots)
    → IsAscending xs
    → get_elem? ((id, v) ∷ xs) (upper_bound (λ p. leb s p.0) xs)
      ≡ Option.or_else (last_below s xs) (some (id, v))
unfolding upper_bound last_below Option.or_else
before_bound s id v [] a = refl
before_bound s id v ((id', v') ∷ xs) a = elim (Bool-cases (leb s id')) [
  | inl h ↦
      let above : ltb id' s ≡ false = ground (arith, leb→le s id' h) in
      rw (h, above, last_below-Above s id' xs (leb→le s id' h) a.0) refl
  | inr h ↦
      let below : ltb id' s ≡ true = ground (arith, h) in
      rw (h, below)
        (before_bound s id' v' xs a.1
          ∙ sym (or_else_assoc (last_below s xs) (some (id', v')) (some (id, v))))
]

-- In an ascending list the search finds the last version below the reader.
pub search-last_below :
    (s : ℕ) (xs : IdsSlots) → IsAscending xs → search_visible_version s xs ≡ last_below s xs
unfolding search_visible_version upper_bound last_below Option.or_else
search-last_below s [] a = refl
search-last_below s ((id, v) ∷ xs) a = elim (Bool-cases (leb s id)) [
  | inl h ↦
      let above : ltb id s ≡ false = ground (arith, leb→le s id h) in
      rw (h, above, last_below-Above s id xs (leb→le s id h) a.0) refl
  | inr h ↦
      let below : ltb id s ≡ true = ground (arith, h) in
      let first : suc (upper_bound (λ p. leb s p.0) xs) - 1 ≡ upper_bound (λ p. leb s p.0) xs =
        omega arith in
      rw (h, below, first) (before_bound s id v xs a.1)
]

pub last_below-append :
    (s : ℕ) (xs ys : IdsSlots)
    → last_below s (xs ++ ys) ≡ Option.or_else (last_below s ys) (last_below s xs)
unfolding last_below
last_below-append s [] ys = sym (or_else-none (last_below s ys))
last_below-append s ((id, v) ∷ xs) ys =
    rw (last_below-append s xs ys)
      (or_else_assoc (last_below s ys) (last_below s xs) (if ltb id s then some (id, v) else none))

-- The versions of the cores whose bit is set, from core c on, with their serial identifiers.
unfoldable pub listing_from : ℕ → Bits → (ℕ → PerCoreVersionArray) → IdsSlots
unfolding entries
listing_from c [] arrays = []
listing_from c (false ∷ bs) arrays = listing_from (suc c) bs arrays
listing_from c (true ∷ bs) arrays =
    entries (c * 64) (arrays c).transaction_bitmap (arrays c).slots
    ++ listing_from (suc c) bs arrays

abbrev pub listing : RowRegion → IdsSlots
listing r = listing_from 0 r.core_bitmap r.arrays

pub listing-from :
    (s c : ℕ) (bs : Bits) (arrays : ℕ → PerCoreVersionArray)
    → s ≤ c * 64
    → last_below s (listing_from c bs arrays) ≡ none
unfolding listing_from last_below Option.or_else
listing-from s c [] arrays h = refl
listing-from s c (false ∷ bs) arrays h = listing-from s (suc c) bs arrays (omega (arith, h))
listing-from s c (true ∷ bs) arrays h =
    let a = arrays c in
    rw
      (
        last_below-append s (entries (c * 64) a.transaction_bitmap a.slots)
            (listing_from (suc c) bs arrays),
        listing-from s (suc c) bs arrays (omega (arith, h)),
        entries-from s (c * 64) a.transaction_bitmap a.slots h,
      )
      refl
