-- ===== src/Serval/Rank.antt =====
-- serval/include/row_region.hpp: a per-core version array keeps only the bitmap of its
-- transactions and the versions in their order; the versions by their serial identifiers are the
-- list that the two stand for.
use tpcc_runner.Base.{
  ℕ, zero, suc, ◌+◌, ◌-◌, ◌≤◌, ◌<◌, ◌≡◌, refl, ap, ◌∙◌, true, false, Option, none, some, List, [],
  ◌∷◌, length, get_elem?, ltb, if◌then◌else◌, arith,
}
use mathlib.Core.Option
use tpcc_runner.Serval.Bitmap.{Bits, count_bits}
use tpcc_runner.Serval.Bits.{keep, later, last_set}
use tpcc_runner.Serval.GlobalArray.{IdsSlots}

-- The versions of the positions that are set, from position i on.
unfoldable pub entries : ℕ → Bits → List ℕ → IdsSlots
entries i [] vs = []
entries i (false ∷ bs) vs = entries (suc i) bs vs
entries i (true ∷ bs) [] = []
entries i (true ∷ bs) (v ∷ vs) = (i, v) ∷ entries (suc i) bs vs

-- The last of the entries with an identifier below s, in a list of any order.
unfoldable pub last_below : ℕ → IdsSlots → Option (ℕ × ℕ)
unfolding Option.or_else
last_below s [] = none
last_below s ((id, v) ∷ ids_slots) =
    Option.or_else (last_below s ids_slots) (if ltb id s then some (id, v) else none)

-- The version that an array has at a position, found by counting.
abbrev pub version_at : ℕ → Bits → List ℕ → Option ℕ → Option (ℕ × ℕ)
version_at i bs vs none = none
version_at i bs vs (some q) =
    Option.map (λ v. (i + q, v)) (get_elem? vs (count_bits (keep (suc q) bs) - 1))

get_elem?-in :
    {A : Type 0} (xs : List A) (i : ℕ) → i < length xs → (a : A) × (get_elem? xs i ≡ some a)
get_elem?-in [] i h = absurd (omega (arith, h))
get_elem?-in (x ∷ xs) zero h = (x, refl)
get_elem?-in (x ∷ xs) (suc i) h = get_elem?-in xs i (omega (arith, h))

count_bits-keep : (n : ℕ) (bs : Bits) → count_bits (keep n bs) ≤ count_bits bs
unfolding count_bits
count_bits-keep n [] = omega arith
count_bits-keep zero (b ∷ bs) = ground (arith, count_bits-keep zero bs)
count_bits-keep (suc n) (b ∷ bs) = omega (arith, count_bits-keep n bs)

pub count_bits-keep_zero : (bs : Bits) → count_bits (keep 0 bs) ≡ 0
unfolding count_bits
count_bits-keep_zero [] = refl
count_bits-keep_zero (b ∷ bs) = omega (arith, count_bits-keep_zero bs)

pub last_set-keep_zero : (bs : Bits) → last_set (keep 0 bs) ≡ none
last_set-keep_zero [] = refl
last_set-keep_zero (b ∷ bs) = rw (last_set-keep_zero bs) refl

-- The position that is last among those kept is counted.
count_bits-last_kept :
    (p : ℕ) (bs : Bits) (q : ℕ) → last_set (keep p bs) ≡ some q → 1 ≤ count_bits (keep (suc q) bs)
unfolding count_bits
count_bits-last_kept p [] q h = absurd (ground (arith, h))
count_bits-last_kept zero (b ∷ bs) q h = absurd (ground (arith, h, last_set-keep_zero bs))
count_bits-last_kept (suc p) (b ∷ bs) q h =
    by_last (count_bits-last_kept p bs) (last_set (keep p bs)) refl q h
  where
    by_last :
        ((r : ℕ) → last_set (keep p bs) ≡ some r → 1 ≤ count_bits (keep (suc r) bs))
        → (o : Option ℕ) → last_set (keep p bs) ≡ o
        → (r : ℕ) → later b o ≡ some r
        → 1 ≤ count_bits (keep (suc r) (b ∷ bs))
    by_last below none e r k = ground (arith, k)
    by_last below (some j) e zero k = absurd (ground (arith, k))
    by_last below (some j) e (suc r) k = omega (arith, below r (ground (arith, e, k)))

-- There is a version at every position that is set, where there is a slot for each.
pub version_at-some :
    (i p : ℕ) (bs : Bits) (vs : List ℕ) (q : ℕ)
    → last_set (keep p bs) ≡ some q
    → count_bits bs ≡ length vs
    → (r : ℕ × ℕ) × (version_at i bs vs (some q) ≡ some r)
version_at-some i p bs vs q h e =
    let n = count_bits (keep (suc q) bs) in
    let found =
      get_elem?-in vs (n - 1)
        (omega (arith, count_bits-last_kept p bs q h, count_bits-keep (suc q) bs, e)) in
    ((i + q, found.0), ap (Option.map (λ v. (i + q, v))) found.1)

-- One more position in front moves every position, and every index after a position set.
version_at-false :
    (i : ℕ) (bs : Bits) (vs : List ℕ) (o : Option ℕ)
    → version_at (suc i) bs vs o ≡ version_at i (false ∷ bs) vs (later false o)
unfolding count_bits
version_at-false i bs vs none = refl
version_at-false i bs vs (some q) =
    let place : i + suc q ≡ suc i + q = omega arith in
    let index : 0 + count_bits (keep (suc q) bs) - 1 ≡ count_bits (keep (suc q) bs) - 1 =
      omega arith in
    rw (place, index) refl

version_at-true :
    (i p : ℕ) (bs : Bits) (v : ℕ) (vs : List ℕ) (o : Option ℕ)
    → last_set (keep p bs) ≡ o
    → count_bits bs ≡ length vs
    → Option.or_else (version_at (suc i) bs vs o) (some (i, v))
      ≡ version_at i (true ∷ bs) (v ∷ vs) (later true o)
unfolding count_bits Option.or_else
version_at-true i p bs v vs none h e =
    let place : i + 0 ≡ i = omega arith in rw (count_bits-keep_zero bs, place) refl
version_at-true i p bs v vs (some q) h e =
    let n = count_bits (keep (suc q) bs) in
    let counted = count_bits-last_kept p bs q h in
    let place : i + suc q ≡ suc i + q = omega arith in
    let index : 1 + n - 1 ≡ suc (n - 1) = omega (arith, counted) in
    let found = get_elem?-in vs (n - 1) (omega (arith, counted, count_bits-keep (suc q) bs, e)) in
    rw (place, index, found.1) refl

-- No entry stands below the first position.
pub entries-from :
    (s i : ℕ) (bs : Bits) (vs : List ℕ) → s ≤ i → last_below s (entries i bs vs) ≡ none
unfolding entries last_below Option.or_else
entries-from s i [] vs h = refl
entries-from s i (false ∷ bs) vs h = entries-from s (suc i) bs vs (omega (arith, h))
entries-from s i (true ∷ bs) [] h = refl
entries-from s i (true ∷ bs) (v ∷ vs) h =
    let above : ltb i s ≡ false = ground (arith, h) in
    rw (entries-from s (suc i) bs vs (omega (arith, h)), above) refl

-- The last entry below a place is the one that counting the positions before it finds.
pub entries-below :
    (s i p : ℕ) (bs : Bits) (vs : List ℕ)
    → s ≡ i + p
    → count_bits bs ≡ length vs
    → last_below s (entries i bs vs) ≡ version_at i bs vs (last_set (keep p bs))
unfolding entries last_below count_bits
entries-below s i p [] vs h e = refl
entries-below s i zero (b ∷ bs) vs h e =
    rw (entries-from s i (b ∷ bs) vs (omega (arith, h)), last_set-keep_zero bs) refl
entries-below s i (suc p) (false ∷ bs) vs h e =
    entries-below s (suc i) p bs vs (omega (arith, h)) (omega (arith, e))
    ∙ version_at-false i bs vs (last_set (keep p bs))
entries-below s i (suc p) (true ∷ bs) [] h e = absurd (omega (arith, e))
entries-below s i (suc p) (true ∷ bs) (v ∷ vs) h e =
    let below : ltb i s ≡ true = ground (arith, h) in
    rw (entries-below s (suc i) p bs vs (omega (arith, h)) (omega (arith, e)), below)
      (version_at-true i p bs v vs (last_set (keep p bs)) refl (omega (arith, e)))
