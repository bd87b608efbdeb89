-- ===== src/Serval/Written.antt =====
-- serval/include/row_region.hpp: what `RowRegion::append` does to the versions of the region.
use tpcc_runner.Base.{
  ℕ, suc, ◌+◌, ◌*◌, ◌≤◌, ◌<◌, ◌≡◌, refl, sym, ap, subst, ◌∙◌, Bool, true, false, set, ◌==◌,
  if◌then◌else◌, arith, Bool-cases, inl, inr, ==_iff,
}
use tpcc_runner.Serval.Bitmap.{zero_word, set_bit_in, count_bits}
use tpcc_runner.Serval.Bits.{bit}
use tpcc_runner.Serval.Find.{is_bit_set_lem, set_bit_in_lem}
use tpcc_runner.Serval.GlobalArray
use tpcc_runner.Serval.GlobalArray.{IdsSlots}
use tpcc_runner.Serval.CoreArray
use tpcc_runner.Serval.CoreArray.{PerCoreVersionArray, new_array}
use tpcc_runner.Serval.Region
use tpcc_runner.Serval.Region.{RowRegion, set_array}
use tpcc_runner.Serval.Rank.{entries}
use tpcc_runner.Serval.Search.{listing}
use tpcc_runner.Serval.Cores.{IsArray, IsUsed}
use tpcc_runner.Serval.Visible.{IsRegion}
use tpcc_runner.Serval.Append.{
  SetBefore, length-set, bit-set, bit-zeros, set-same, append-IsUsed, append-entries,
}
use tpcc_runner.Serval.Insertion.{updated, own_entries, entries-Until, listing-set}

-- The transaction comes after those that its core has appended in this epoch.
abbrev pub IsNext : ℕ → ℕ → RowRegion → Type 0
IsNext core tx r = bit r.core_bitmap core ≡ true → SetBefore tx (r.arrays core).transaction_bitmap

new_array-IsArray : IsArray new_array
unfolding count_bits
new_array-IsArray = (refl, refl)

new_array-SetBefore : (tx : ℕ) → SetBefore tx zero_word
new_array-SetBefore tx q h = absurd (ground (arith, h, bit-zeros 64 q))

pub new_region-IsRegion : IsRegion Region.new_region
new_region-IsRegion = record {
  width = refl;
  used = λ c h. absurd (ground (arith, h, bit-zeros 64 c));
}

-- The array that the version is appended to: emptied when the core writes first in the epoch.
abbrev kept_array : Bool → PerCoreVersionArray → PerCoreVersionArray
kept_array b a = if b then a else new_array

own_entries_lem :
    (core : ℕ) (b : Bool) (a : PerCoreVersionArray)
    → own_entries b core a
      ≡ entries (core * 64) (kept_array b a).transaction_bitmap (kept_array b a).slots
unfolding entries
own_entries_lem core true a = refl
own_entries_lem core false a = refl

-- Every version of the region is before n.
abbrev pub AllBefore : ℕ → RowRegion → Type 0
AllBefore n r =
    (c q : ℕ)
    → bit r.core_bitmap c ≡ true
    → bit (r.arrays c).transaction_bitmap q ≡ true
    → c * 64 + q < n

module _ (core v tx : ℕ) (r : RowRegion) (w : IsRegion r) (lc : core < 64) (lt : tx < 64) where
  abbrev target : Bool → RowRegion
  target b = record {
    core_bitmap = set r.core_bitmap core true;
    arrays = updated core (CoreArray.append v tx (kept_array b (r.arrays core))) r.arrays;
  }

  -- `append` leaves the region with the bit set and the version in the array.
  append-target : (Region.append core v tx r).0 ≡ target (bit r.core_bitmap core)
  unfolding Region.append Region.is_first_write set_bit_in
  append-target =
      let set_core = set_bit_in_lem r.core_bitmap core w.width lc in
      elim (Bool-cases (bit r.core_bitmap core)) [
        | inl b ↦
            rw (is_bit_set_lem r.core_bitmap core w.width lc, b, set-same r.core_bitmap core b) refl
        | inr b ↦ rw (is_bit_set_lem r.core_bitmap core w.width lc, b, set_core) refl
      ]

  kept_array-IsArray :
      (b : Bool) → bit r.core_bitmap core ≡ b → IsArray (kept_array b (r.arrays core))
  kept_array-IsArray true e = (w.used core e).0
  kept_array-IsArray false e = new_array-IsArray

  module _ (n : IsNext core tx r) where
    kept_array-SetBefore :
        (b : Bool)
        → bit r.core_bitmap core ≡ b
        → SetBefore tx (kept_array b (r.arrays core)).transaction_bitmap
    kept_array-SetBefore true e = n e
    kept_array-SetBefore false e = new_array-SetBefore tx

    target-listing :
        (b : Bool)
        → bit r.core_bitmap core ≡ b
        → listing (target b) ≡ GlobalArray.append v (core * 64 + tx) (listing r)
    target-listing b e =
        let a = kept_array b (r.arrays core) in
        let before = kept_array-SetBefore b e in
        listing-set v (core * 64 + tx) tx core 0 core (CoreArray.append v tx a) r.core_bitmap
          r.arrays refl lt (omega arith) (omega (arith, w.width, lc))
          (λ f k. subst (λ i. IsUsed (r.arrays i)) (omega arith) (w.used f k))
          (rw (e, own_entries_lem core b (r.arrays core))
            (entries-Until (core * 64) (core * 64 + tx) a.transaction_bitmap a.slots
              (λ q k. omega (arith, before q k))))
          (rw (e, own_entries_lem core b (r.arrays core))
            (append-entries (core * 64) v tx a (kept_array-IsArray b e) lt before))

    target-IsRegion : (b : Bool) → bit r.core_bitmap core ≡ b → IsRegion (target b)
    target-IsRegion b e = record {
      width = length-set r.core_bitmap core true ∙ w.width;
      used = λ c h.
          let a = kept_array b (r.arrays core) in
          elim (Bool-cases (c == core)) [
            | inl k ↦
                rw k (append-IsUsed v tx a (kept_array-IsArray b e) lt (kept_array-SetBefore b e))
            | inr k ↦ rw k (elim (bit-set r.core_bitmap core c h) [
              | inl same ↦ absurd (ground (arith, k, same))
              | inr old ↦ w.used c old
            ])
          ];
    }

    -- An append by a transaction after those of its core is the ordered insertion of the version
    -- into the list of all versions of the region.
    pub append-listing :
        listing (Region.append core v tx r).0 ≡ GlobalArray.append v (core * 64 + tx) (listing r)
    append-listing = ap listing append-target ∙ target-listing (bit r.core_bitmap core) refl

    pub append-IsRegion : IsRegion (Region.append core v tx r).0
    append-IsRegion =
        subst IsRegion (sym append-target) (target-IsRegion (bit r.core_bitmap core) refl)

  kept_array-before :
      (n : ℕ)
      → AllBefore n r
      → (b : Bool) → bit r.core_bitmap core ≡ b
      → (q : ℕ) → bit (kept_array b (r.arrays core)).transaction_bitmap q ≡ true
      → core * 64 + q < n
  kept_array-before n f true e q h = f core q e h
  kept_array-before n f false e q h = absurd (ground (arith, h, bit-zeros 64 q))

  target-AllBefore :
      (n : ℕ)
      → AllBefore n r
      → n ≤ core * 64 + tx
      → (b : Bool) → bit r.core_bitmap core ≡ b
      → AllBefore (suc (core * 64 + tx)) (target b)
  unfolding CoreArray.append CoreArray.update_transaction_bitmap
  target-AllBefore n f le b e c q h = by_core (c == core) refl
    where
      old : PerCoreVersionArray
      old = kept_array b (r.arrays core)

      by_core :
          (d : Bool)
          → (c == core) ≡ d
          → bit (if d then CoreArray.append v tx old else r.arrays c).transaction_bitmap q ≡ true
          → c * 64 + q < suc (core * 64 + tx)
      by_core true k g =
          elim (bit-set old.transaction_bitmap tx q
            (rw⁻¹ (set_bit_in_lem old.transaction_bitmap tx (kept_array-IsArray b e).0 lt) g)) [
              | inl same ↦ omega (arith, same, (==_iff c core).0 k)
              | inr before ↦
                  omega (arith, kept_array-before n f b e q before, le, (==_iff c core).0 k)
            ]
      by_core false k g = elim (bit-set r.core_bitmap core c h) [
        | inl same ↦ absurd (ground (arith, k, same))
        | inr before ↦ omega (arith, f c q before g, le)
      ]

  -- Versions are appended behind those before them.
  pub append-AllBefore :
      (n : ℕ)
      → AllBefore n r
      → n ≤ core * 64 + tx
      → AllBefore (suc (core * 64 + tx)) (Region.append core v tx r).0
  append-AllBefore n f le =
      subst (AllBefore (suc (core * 64 + tx))) (sym append-target)
        (target-AllBefore n f le (bit r.core_bitmap core) refl)

pub new_region-AllBefore : (n : ℕ) → AllBefore n Region.new_region
new_region-AllBefore n c q h g = absurd (ground (arith, h, bit-zeros 64 c))

pub AllBefore-IsNext :
    (core tx : ℕ) (r : RowRegion) → AllBefore (core * 64 + tx) r → IsNext core tx r
AllBefore-IsNext core tx r f b q h = omega (arith, f core q b h)
