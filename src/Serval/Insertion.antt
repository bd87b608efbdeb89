-- ===== src/Serval/Insertion.antt =====
-- serval/include/row_region.hpp: an append to a region is the ordered insertion that the append to
-- a global version array is.
use tpcc_runner.Base.{
  ℕ, zero, suc, ◌+◌, ◌*◌, ◌≤◌, ◌<◌, ◌≡◌, refl, ap, Bool, true, false, List, [], ◌∷◌, ◌++◌, length,
  set, ltb, ◌==◌, if◌then◌else◌, All, arith,
}
use mathlib.Core.List.{append_assoc}
use tpcc_runner.Serval.Bitmap.{Bits}
use tpcc_runner.Serval.Bits.{bit}
use tpcc_runner.Serval.Vector.{insert_at, upper_bound}
use tpcc_runner.Serval.GlobalArray
use tpcc_runner.Serval.GlobalArray.{IdsSlots}
use tpcc_runner.Serval.CoreArray.{PerCoreVersionArray}
use tpcc_runner.Serval.Rank.{entries}
use tpcc_runner.Serval.Search.{Above, listing_from}
use tpcc_runner.Serval.Cores.{AreUsed, first_in_use, later_in_use}
use tpcc_runner.Serval.Ascending.{Within, From, array-Within, listing-From}

abbrev pub Until : ℕ → IdsSlots → Type 0
Until s ids_slots = All (λ p. p.0 < s) ids_slots

-- A version goes behind all before it and in front of all after it.
pub append-after :
    (v s : ℕ) (xs ys : IdsSlots)
    → Until s xs
    → GlobalArray.append v s (xs ++ ys) ≡ xs ++ GlobalArray.append v s ys
unfolding GlobalArray.append upper_bound insert_at
append-after v s [] ys u = refl
append-after v s (x ∷ xs) ys u =
    let behind : ltb s x.0 ≡ false = ground (arith, u.0) in
    rw behind (ap (λ r. x ∷ r) (append-after v s xs ys u.1))

append-before : (v s : ℕ) (ys : IdsSlots) → Above s ys → GlobalArray.append v s ys ≡ (s, v) ∷ ys
unfolding GlobalArray.append upper_bound insert_at
append-before v s [] a = refl
append-before v s (y ∷ ys) a = let front : ltb s y.0 ≡ true = ground (arith, a.0) in rw front refl

From-Above : (s n : ℕ) (xs : IdsSlots) → s < n → From n xs → Above s xs
From-Above s n [] h f = tt
From-Above s n (x ∷ xs) h f = (omega (arith, h, f.0), From-Above s n xs h f.1)

Within-Until : (i n s : ℕ) (xs : IdsSlots) → n ≤ s → Within i n xs → Until s xs
Within-Until i n s [] h w = tt
Within-Until i n s (x ∷ xs) h w = (omega (arith, h, w.0.1), Within-Until i n s xs h w.1)

Until-weaken : (r s : ℕ) (xs : IdsSlots) → r ≤ s → Until r xs → Until s xs
Until-weaken r s [] h w = tt
Until-weaken r s (x ∷ xs) h w = (omega (arith, h, w.0), Until-weaken r s xs h w.1)

pub entries-Until :
    (i s : ℕ) (bs : Bits) (vs : List ℕ)
    → ((q : ℕ) → bit bs q ≡ true → i + q < s)
    → Until s (entries i bs vs)
unfolding entries
entries-Until i s [] vs f = tt
entries-Until i s (true ∷ bs) [] f = tt
entries-Until i s (true ∷ bs) (v ∷ vs) f =
    (omega (arith, f 0 refl), entries-Until (suc i) s bs vs (λ q b. omega (arith, f (suc q) b)))
entries-Until i s (false ∷ bs) vs f =
    entries-Until (suc i) s bs vs (λ q b. omega (arith, f (suc q) b))

abbrev pub updated : ℕ → PerCoreVersionArray → (ℕ → PerCoreVersionArray) → ℕ → PerCoreVersionArray
updated core a arrays c = if c == core then a else arrays c

-- A core that is not among those listed may change.
listing-updated :
    (c core : ℕ) (a : PerCoreVersionArray) (bs : Bits) (arrays : ℕ → PerCoreVersionArray)
    → core < c
    → listing_from c bs (updated core a arrays) ≡ listing_from c bs arrays
unfolding listing_from
listing-updated c core a [] arrays h = refl
listing-updated c core a (false ∷ bs) arrays h =
    listing-updated (suc c) core a bs arrays (omega (arith, h))
listing-updated c core a (true ∷ bs) arrays h =
    let other : (c == core) ≡ false = ground (arith, h) in
    rw (other, listing-updated (suc c) core a bs arrays (omega (arith, h))) refl

-- What the core of the new version has of this epoch.
abbrev pub own_entries : Bool → ℕ → PerCoreVersionArray → IdsSlots
own_entries false core a = []
own_entries true core a = entries (core * 64) a.transaction_bitmap a.slots

insert_between :
    (v s : ℕ) (es xs rest : IdsSlots)
    → Until s xs
    → Above s rest
    → es ≡ xs ++ (s, v) ∷ []
    → es ++ rest ≡ GlobalArray.append v s (xs ++ rest)
insert_between v s es xs rest before above new =
    rw (new, append-after v s xs rest before, append-before v s rest above)
      (append_assoc xs ((s, v) ∷ []) rest)

pub listing-set :
    (v s tx core c k : ℕ) (a : PerCoreVersionArray) (bs : Bits) (arrays : ℕ → PerCoreVersionArray)
    → s ≡ core * 64 + tx
    → tx < 64
    → core ≡ c + k
    → k < length bs
    → AreUsed c arrays bs
    → Until s (own_entries (bit bs k) core (arrays core))
    → entries (core * 64) a.transaction_bitmap a.slots
      ≡ own_entries (bit bs k) core (arrays core) ++ (s, v) ∷ []
    → listing_from c (set bs k true) (updated core a arrays)
      ≡ GlobalArray.append v s (listing_from c bs arrays)
unfolding listing_from
listing-set v s tx core c k a [] arrays h lt e le u before new = absurd (omega (arith, le))
listing-set v s tx core c zero a (true ∷ bs) arrays h lt e le u before new =
    let same : c ≡ core = omega (arith, e) in
    let here : (c == core) ≡ true = ground (arith, e) in
    let rest = listing_from (suc c) bs arrays in
    let above =
      From-Above s ((suc c) * 64) rest (omega (arith, h, lt, e))
        (listing-From arrays (suc c) bs (later_in_use c arrays true bs u)) in
    rw (listing-updated (suc c) core a bs arrays (omega (arith, e)), here)
      (insert_between v s (entries (c * 64) a.transaction_bitmap a.slots)
        (entries (c * 64) (arrays c).transaction_bitmap (arrays c).slots) rest (rw same before)
        above (rw same new))
listing-set v s tx core c zero a (false ∷ bs) arrays h lt e le u before new =
    let same : c ≡ core = omega (arith, e) in
    let here : (c == core) ≡ true = ground (arith, e) in
    let rest = listing_from (suc c) bs arrays in
    let above =
      From-Above s ((suc c) * 64) rest (omega (arith, h, lt, e))
        (listing-From arrays (suc c) bs (later_in_use c arrays false bs u)) in
    rw (listing-updated (suc c) core a bs arrays (omega (arith, e)), here)
      (insert_between v s (entries (c * 64) a.transaction_bitmap a.slots) [] rest tt above
        (rw same new))
listing-set v s tx core c (suc k) a (true ∷ bs) arrays h lt e le u before new =
    let other : (c == core) ≡ false = ground (arith, e) in
    let first = entries (c * 64) (arrays c).transaction_bitmap (arrays c).slots in
    let earlier =
      Within-Until (c * 64) ((suc c) * 64) s first (omega (arith, h, e))
        (array-Within arrays c (first_in_use c arrays true bs u refl)) in
    rw (other, append-after v s first (listing_from (suc c) bs arrays) earlier)
      (ap (λ rest. first ++ rest)
        (listing-set v s tx core (suc c) k a bs arrays h lt (omega (arith, e)) (omega (arith, le))
          (later_in_use c arrays true bs u) before new))
listing-set v s tx core c (suc k) a (false ∷ bs) arrays h lt e le u before new =
    listing-set v s tx core (suc c) k a bs arrays h lt (omega (arith, e)) (omega (arith, le))
      (later_in_use c arrays false bs u) before new
