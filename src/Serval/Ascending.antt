-- ===== src/Serval/Ascending.antt =====
-- serval/include/row_region.hpp: the versions of a region stand in the order of their serial
-- identifiers.
use tpcc_runner.Base.{
  ℕ, suc, ◌+◌, ◌*◌, ◌≤◌, ◌<◌, ◌≡◌, refl, sym, subst, ◌∙◌, true, false, List, [], ◌∷◌, ◌++◌, length,
  All, arith,
}
use tpcc_runner.Serval.Bitmap.{Bits}
use tpcc_runner.Serval.GlobalArray.{IdsSlots, search_visible_version}
use tpcc_runner.Serval.CoreArray.{PerCoreVersionArray}
use tpcc_runner.Serval.Region.{RowRegion, identify_visible_version}
use tpcc_runner.Serval.Rank.{entries}
use tpcc_runner.Serval.Search.{Above, IsAscending, listing_from, listing, search-last_below}
use tpcc_runner.Serval.Cores.{IsUsed, AreUsed, first_in_use, later_in_use}
use tpcc_runner.Serval.Visible.{IsRegion, version_of, identify-last_below}

-- Every identifier in a range, its end not included.
abbrev pub Within : ℕ → ℕ → IdsSlots → Type 0
Within i n ids_slots = All (λ p. (i ≤ p.0) × (p.0 < n)) ids_slots

Within-Above : (k i n : ℕ) (xs : IdsSlots) → k < i → Within i n xs → Above k xs
Within-Above k i n [] h w = tt
Within-Above k i n (x ∷ xs) h w = (omega (arith, h, w.0.0), Within-Above k i n xs h w.1)

Within-weaken : (i j n : ℕ) (xs : IdsSlots) → j ≤ i → Within i n xs → Within j n xs
Within-weaken i j n [] h w = tt
Within-weaken i j n (x ∷ xs) h w = ((omega (arith, h, w.0.0), w.0.1), Within-weaken i j n xs h w.1)

pub entries-Within :
    (i n : ℕ) (bs : Bits) (vs : List ℕ) → i + length bs ≤ n → Within i n (entries i bs vs)
unfolding entries
entries-Within i n [] vs h = tt
entries-Within i n (false ∷ bs) vs h =
    Within-weaken (suc i) i n (entries (suc i) bs vs) (omega arith)
      (entries-Within (suc i) n bs vs (omega (arith, h)))
entries-Within i n (true ∷ bs) [] h = tt
entries-Within i n (true ∷ bs) (v ∷ vs) h = (
  (omega arith, omega (arith, h)),
  Within-weaken (suc i) i n (entries (suc i) bs vs) (omega arith)
      (entries-Within (suc i) n bs vs (omega (arith, h))),
)

entries-IsAscending : (i : ℕ) (bs : Bits) (vs : List ℕ) → IsAscending (entries i bs vs)
unfolding entries
entries-IsAscending i [] vs = tt
entries-IsAscending i (false ∷ bs) vs = entries-IsAscending (suc i) bs vs
entries-IsAscending i (true ∷ bs) [] = tt
entries-IsAscending i (true ∷ bs) (v ∷ vs) = (
  Within-Above i (suc i) (suc i + length bs) (entries (suc i) bs vs) (omega arith)
      (entries-Within (suc i) (suc i + length bs) bs vs (omega arith)),
  entries-IsAscending (suc i) bs vs,
)

-- Two ascending lists, all of the first before all of the second.
abbrev pub From : ℕ → IdsSlots → Type 0
From n ids_slots = All (λ p. n ≤ p.0) ids_slots

From-weaken : (i j : ℕ) (xs : IdsSlots) → j ≤ i → From i xs → From j xs
From-weaken i j [] h w = tt
From-weaken i j (x ∷ xs) h w = (omega (arith, h, w.0), From-weaken i j xs h w.1)

From-append : (i n : ℕ) (xs ys : IdsSlots) → i ≤ n → Within i n xs → From n ys → From i (xs ++ ys)
From-append i n [] ys h w f = From-weaken n i ys h f
From-append i n (x ∷ xs) ys h w f = (w.0.0, From-append i n xs ys h w.1 f)

Above-append : (k i n : ℕ) (xs ys : IdsSlots) → Above k xs → k < n → From n ys → Above k (xs ++ ys)
Above-append k i n [] [] a h f = tt
Above-append k i n [] (y ∷ ys) a h f = (omega (arith, h, f.0), Above-append k i n [] ys tt h f.1)
Above-append k i n (x ∷ xs) ys a h f = (a.0, Above-append k i n xs ys a.1 h f)

append-IsAscending :
    (i n : ℕ) (xs ys : IdsSlots)
    → Within i n xs
    → IsAscending xs
    → From n ys
    → IsAscending ys
    → IsAscending (xs ++ ys)
append-IsAscending i n [] ys w a f b = b
append-IsAscending i n ((id, v) ∷ xs) ys w a f b =
    (Above-append id i n xs ys a.0 w.0.1 f, append-IsAscending i n xs ys w.1 a.1 f b)

module _ (arrays : ℕ → PerCoreVersionArray) where
  pub array-Within :
      (c : ℕ)
      → IsUsed (arrays c)
      → Within
          (c * 64)
          ((suc c) * 64)
          (entries (c * 64) (arrays c).transaction_bitmap (arrays c).slots)
  array-Within c u =
      entries-Within (c * 64) ((suc c) * 64) (arrays c).transaction_bitmap (arrays c).slots
        (omega (arith, u.0.0))

  pub listing-From :
      (c : ℕ) (bs : Bits) → AreUsed c arrays bs → From (c * 64) (listing_from c bs arrays)
  unfolding listing_from
  listing-From c [] u = tt
  listing-From c (false ∷ bs) u =
      From-weaken ((suc c) * 64) (c * 64) (listing_from (suc c) bs arrays) (omega arith)
        (listing-From (suc c) bs (later_in_use c arrays false bs u))
  listing-From c (true ∷ bs) u =
      From-append (c * 64) ((suc c) * 64)
        (entries (c * 64) (arrays c).transaction_bitmap (arrays c).slots)
        (listing_from (suc c) bs arrays) (omega arith)
        (array-Within c (first_in_use c arrays true bs u refl))
        (listing-From (suc c) bs (later_in_use c arrays true bs u))

  listing-IsAscending :
      (c : ℕ) (bs : Bits) → AreUsed c arrays bs → IsAscending (listing_from c bs arrays)
  unfolding listing_from
  listing-IsAscending c [] u = tt
  listing-IsAscending c (false ∷ bs) u =
      listing-IsAscending (suc c) bs (later_in_use c arrays false bs u)
  listing-IsAscending c (true ∷ bs) u =
      append-IsAscending (c * 64) ((suc c) * 64)
        (entries (c * 64) (arrays c).transaction_bitmap (arrays c).slots)
        (listing_from (suc c) bs arrays) (array-Within c (first_in_use c arrays true bs u refl))
        (entries-IsAscending (c * 64) (arrays c).transaction_bitmap (arrays c).slots)
        (listing-From (suc c) bs (later_in_use c arrays true bs u))
        (listing-IsAscending (suc c) bs (later_in_use c arrays true bs u))

module _ (r : RowRegion) (w : IsRegion r) where
  pub region-IsAscending : IsAscending (listing r)
  region-IsAscending =
      listing-IsAscending r.arrays 0 r.core_bitmap
        (λ f b. subst (λ i. IsUsed (r.arrays i)) (omega arith) (w.used f b))

  -- For every reader with a core and a number below 64, of a region that keeps one version for each
  -- bit that is set: the version that the searches of the two bitmaps and the count of the bits lead
  -- to is the one that the search of a global version array finds in the list of all versions of the
  -- region.
  pub identify-search :
      (core tx : ℕ)
      → core < 64
      → tx < 64
      → version_of r (identify_visible_version core tx r)
        ≡ search_visible_version (core * 64 + tx) (listing r)
  identify-search core tx le lt =
      identify-last_below r w core tx le lt
      ∙ sym (search-last_below (core * 64 + tx) (listing r) region-IsAscending)
