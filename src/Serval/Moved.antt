-- ===== src/Serval/Moved.antt =====
-- serval.hpp: the versions of a global version array are moved to a region, and every reader finds
-- there what it found in the array.
use tpcc_runner.Base.{
  ℕ, suc, ◌+◌, ◌*◌, ◌/◌, ◌%◌, ◌≤◌, ◌<◌, ◌≡◌, refl, sym, ap, subst, ◌∙◌, true, false, List, [], ◌∷◌,
  ◌++◌, All, arith, ◌==◌,
}
use mathlib.Core.List.{append_assoc, append-nil}
use tpcc_runner.Serval.Bitmap.{Bits}
use tpcc_runner.Serval.Bits.{bit}
use tpcc_runner.Serval.GlobalArray
use tpcc_runner.Serval.GlobalArray.{IdsSlots, search_visible_version}
use tpcc_runner.Serval.CoreArray.{PerCoreVersionArray}
use tpcc_runner.Serval.Region
use tpcc_runner.Serval.Region.{RowRegion, new_region, identify_visible_version}
use tpcc_runner.Serval.Rank.{entries}
use tpcc_runner.Serval.Search.{Above, IsAscending, listing_from, listing}
use tpcc_runner.Serval.Visible.{IsRegion, version_of}
use tpcc_runner.Serval.Ascending.{From, identify-search}
use tpcc_runner.Serval.Insertion.{Until, entries-Until, append-after}
use tpcc_runner.Serval.Written.{
  AllBefore, AllBefore-IsNext, append-listing, append-IsRegion, append-AllBefore,
  new_region-IsRegion, new_region-AllBefore,
}
use tpcc_runner.Serval.Vector.{insert_at, upper_bound}
use tpcc_runner.Serval.Defs.{Store, free_all, set_region, put}
use tpcc_runner.Serval.Appends.{append_in, move_versions}

Until-append : (n : ℕ) (xs ys : IdsSlots) → Until n xs → Until n ys → Until n (xs ++ ys)
Until-append n [] ys u w = w
Until-append n (x ∷ xs) ys u w = (u.0, Until-append n xs ys u.1 w)

-- Every version of a core is before n.
abbrev CoreBefore : ℕ → (ℕ → PerCoreVersionArray) → ℕ → Type 0
CoreBefore n arrays c = (q : ℕ) → bit (arrays c).transaction_bitmap q ≡ true → c * 64 + q < n

listing-Until :
    (n c : ℕ) (bs : Bits) (arrays : ℕ → PerCoreVersionArray)
    → ((f : ℕ) → bit bs f ≡ true → CoreBefore n arrays (c + f))
    → Until n (listing_from c bs arrays)
unfolding listing_from
listing-Until n c [] arrays h = tt
listing-Until n c (true ∷ bs) arrays h =
    let a = arrays c in
    Until-append n (entries (c * 64) a.transaction_bitmap a.slots) (listing_from (suc c) bs arrays)
      (entries-Until (c * 64) n a.transaction_bitmap a.slots
        (subst (CoreBefore n arrays) (omega arith) (h 0 refl)))
      (listing-Until n (suc c) bs arrays
        (λ f b. subst (CoreBefore n arrays) (omega arith) (h (suc f) b)))
listing-Until n c (false ∷ bs) arrays h =
    listing-Until n (suc c) bs arrays
      (λ f b. subst (CoreBefore n arrays) (omega arith) (h (suc f) b))

pub AllBefore-Until : (n : ℕ) (r : RowRegion) → AllBefore n r → Until n (listing r)
AllBefore-Until n r f =
    listing-Until n 0 r.core_bitmap r.arrays
      (λ c b. subst (CoreBefore n r.arrays) (omega arith) (λ q h. f c q b h))

append_empty : (v s : ℕ) (xs : IdsSlots) → xs ++ GlobalArray.append v s [] ≡ xs ++ (s, v) ∷ []
unfolding GlobalArray.append upper_bound insert_at
append_empty v s xs = refl

-- Behind all other versions, the ordered insertion is at the end.
append-last : (v s : ℕ) (xs : IdsSlots) → Until s xs → GlobalArray.append v s xs ≡ xs ++ (s, v) ∷ []
append-last v s xs u =
    ap (GlobalArray.append v s) (sym (append-nil xs))
    ∙ append-after v s xs [] u
    ∙ append_empty v s xs

-- What the move does to the region.
abbrev append_all : IdsSlots → RowRegion → RowRegion
append_all [] r = r
append_all ((serial_id, version) ∷ ids_slots) r =
    append_all ids_slots (Region.append (serial_id / 64) version (serial_id % 64) r).0

regions-free_all : (vs : List ℕ) (s : Store) → (free_all vs s).regions ≡ s.regions
regions-free_all [] s = refl
regions-free_all (v ∷ vs) s = regions-free_all vs s

pub regions-append_in :
    (q core version tx : ℕ) (s : Store)
    → (append_in q core version tx s).regions
      ≡ put s.regions q (Region.append core version tx (s.regions q)).0
unfolding append_in
regions-append_in q core version tx s =
    let appended = Region.append core version tx (s.regions q) in
    regions-free_all appended.1 (set_region q appended.0 s)

regions-move_versions :
    (ids_slots : IdsSlots) (q : ℕ) (s : Store)
    → (move_versions ids_slots q s).regions q ≡ append_all ids_slots (s.regions q)
unfolding move_versions
regions-move_versions [] q s = refl
regions-move_versions ((id, v) ∷ ids_slots) q s =
    let here : (q == q) ≡ true = ground arith in
    regions-move_versions ids_slots q (append_in q (id / 64) v (id % 64) s)
    ∙ ap (append_all ids_slots)
        (ap (λ f. f q) (regions-append_in q (id / 64) v (id % 64) s) ∙ rw here refl)

-- Serial identifiers of 64 cores with 64 transactions each.
abbrev pub AreSerial : IdsSlots → Type 0
AreSerial ids_slots = All (λ p. p.0 < 4096) ids_slots

Above-From : (k n : ℕ) (xs : IdsSlots) → n ≤ suc k → Above k xs → From n xs
Above-From k n [] h f = tt
Above-From k n (x ∷ xs) h f = (omega (arith, h, f.0), Above-From k n xs h f.1)

record IsMoved (ids_slots : IdsSlots) (r moved : RowRegion) : Type 0 where
  same : listing moved ≡ listing r ++ ids_slots
  region : IsRegion moved

append_all-IsMoved :
    (n : ℕ) (ids_slots : IdsSlots) (r : RowRegion)
    → IsRegion r
    → AllBefore n r
    → IsAscending ids_slots
    → From n ids_slots
    → AreSerial ids_slots
    → IsMoved ids_slots r (append_all ids_slots r)
append_all-IsMoved n [] r w f a g l = record { same = sym (append-nil (listing r)); region = w }
append_all-IsMoved n ((id, v) ∷ ids_slots) r w f a g l =
    let core = id / 64 in
    let tx = id % 64 in
    let whole : core * 64 + tx ≡ id = omega arith in
    let in_cores : core < 64 = omega (arith, l.0) in
    let in_word : tx < 64 = omega arith in
    let before : AllBefore (core * 64 + tx) r = λ c q b h. omega (arith, f c q b h, g.0, whole) in
    let next = AllBefore-IsNext core tx r before in
    let appended = (Region.append core v tx r).0 in
    let rest =
      append_all-IsMoved (suc (core * 64 + tx)) ids_slots appended
        (append-IsRegion core v tx r w in_cores in_word next)
        (append-AllBefore core v tx r w in_cores in_word (core * 64 + tx) before (omega arith)) a.1
        (Above-From id (suc (core * 64 + tx)) ids_slots (omega (arith, whole)) a.0) l.1 in
    record {
      same =
          rest.same
          ∙ ap (λ xs. xs ++ ids_slots)
              (append-listing core v tx r w in_cores in_word next
                ∙ append-last v (core * 64 + tx) (listing r)
                    (AllBefore-Until (core * 64 + tx) r before)
                ∙ ap (λ i. listing r ++ (i, v) ∷ []) whole)
          ∙ append_assoc (listing r) ((id, v) ∷ []) ids_slots;
      region = rest.region;
    }

-- The versions of a global version array, ascending, have been moved to a new region: the region
-- is well formed, it has exactly these versions, and every reader finds in it the version that the
-- search of the array found.
pub record IsInstalled (ids_slots : IdsSlots) (moved : RowRegion) : Type 0 where
  pub same : listing moved ≡ ids_slots
  pub region : IsRegion moved
  pub found :
      (core tx : ℕ)
      → core < 64
      → tx < 64
      → version_of moved (identify_visible_version core tx moved)
        ≡ search_visible_version (core * 64 + tx) ids_slots

From-zero : (xs : IdsSlots) → From 0 xs
From-zero [] = tt
From-zero (x ∷ xs) = (omega arith, From-zero xs)

pub move_versions-IsInstalled :
    (ids_slots : IdsSlots) (q : ℕ) (s : Store)
    → s.regions q ≡ new_region
    → IsAscending ids_slots
    → AreSerial ids_slots
    → IsInstalled ids_slots ((move_versions ids_slots q s).regions q)
unfolding listing_from
move_versions-IsInstalled ids_slots q s new a l =
    let moved =
      append_all-IsMoved 0 ids_slots new_region new_region-IsRegion (new_region-AllBefore 0) a
        (From-zero ids_slots) l in
    let target : (move_versions ids_slots q s).regions q ≡ append_all ids_slots new_region =
      regions-move_versions ids_slots q s ∙ ap (append_all ids_slots) new in
    rw target (record {
      same = moved.same;
      region = moved.region;
      found = λ core tx lc lt.
          identify-search (append_all ids_slots new_region) moved.region core tx lc lt
          ∙ ap (search_visible_version (core * 64 + tx)) moved.same;
    })
