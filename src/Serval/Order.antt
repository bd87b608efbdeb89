-- ===== src/Serval/Order.antt =====
-- serval.hpp: the transactions of a core append in their order, and what that says of a row.
use tpcc_runner.Base.{
  ℕ, zero, suc, ◌+◌, ◌*◌, ◌/◌, ◌≤◌, ◌<◌, ◌≡◌, ◌≢◌, refl, ap, subst, ◌∙◌, true, false, List, [], ◌∷◌,
  ◌++◌, length, ltb, All, arith, Bool-cases, inl, inr,
}
use tpcc_runner.Serval.Bitmap.{Bits, count_bits}
use tpcc_runner.Serval.Bits.{bit}
use tpcc_runner.Serval.Vector.{insert_at, upper_bound}
use tpcc_runner.Serval.GlobalArray
use tpcc_runner.Serval.GlobalArray.{IdsSlots}
use tpcc_runner.Serval.CoreArray.{PerCoreVersionArray}
use tpcc_runner.Serval.Region.{RowRegion}
use tpcc_runner.Serval.Rank.{entries}
use tpcc_runner.Serval.Search.{Above, IsAscending, listing_from, listing}
use tpcc_runner.Serval.Cores.{IsUsed, AreUsed, first_in_use, later_in_use}
use tpcc_runner.Serval.Visible.{IsRegion, bit-bound}
use tpcc_runner.Serval.Written.{IsNext}
use tpcc_runner.Serval.Moved.{AreSerial}

-- Every version of the core is before s.
abbrev pub InOrder : ℕ → ℕ → IdsSlots → Type 0
InOrder core s versions = All (λ p. p.0 / 64 ≡ core → p.0 < s) versions

-- What holds of all identifiers of the list holds of every position that is set.
module _ (P : ℕ → Type 0) where
  abbrev AllIds : IdsSlots → Type 0
  AllIds xs = All (λ p. P p.0) xs

  All-left : (xs ys : IdsSlots) → AllIds (xs ++ ys) → AllIds xs × AllIds ys
  All-left [] ys h = (tt, h)
  All-left (x ∷ xs) ys h = let rest = All-left xs ys h.1 in ((h.0, rest.0), rest.1)

  entries-All :
      (i : ℕ) (bs : Bits) (vs : List ℕ)
      → count_bits bs ≡ length vs
      → AllIds (entries i bs vs)
      → (q : ℕ) → bit bs q ≡ true
      → P (i + q)
  unfolding entries count_bits
  entries-All i [] vs e h q b = absurd (ground (arith, b))
  entries-All i (true ∷ bs) [] e h q b = absurd (omega (arith, e))
  entries-All i (true ∷ bs) (v ∷ vs) e h zero b = subst P (omega arith) h.0
  entries-All i (true ∷ bs) (v ∷ vs) e h (suc q) b =
      subst P (omega arith) (entries-All (suc i) bs vs (omega (arith, e)) h.1 q b)
  entries-All i (false ∷ bs) vs e h zero b = absurd (ground (arith, b))
  entries-All i (false ∷ bs) vs e h (suc q) b =
      subst P (omega arith) (entries-All (suc i) bs vs (omega (arith, e)) h q b)

  listing-All :
      (c : ℕ) (bs : Bits) (arrays : ℕ → PerCoreVersionArray)
      → AreUsed c arrays bs
      → AllIds (listing_from c bs arrays)
      → (f : ℕ) → bit bs f ≡ true
      → (q : ℕ) → bit (arrays (c + f)).transaction_bitmap q ≡ true
      → P ((c + f) * 64 + q)
  unfolding listing_from
  listing-All c [] arrays u h f b = absurd (ground (arith, b))
  listing-All c (true ∷ bs) arrays u h zero b =
      let a = arrays c in
      let own =
        (All-left (entries (c * 64) a.transaction_bitmap a.slots) (listing_from (suc c) bs arrays)
          h).0 in
      subst (λ i. (q : ℕ) → bit (arrays i).transaction_bitmap q ≡ true → P (i * 64 + q))
        (omega arith)
        (entries-All (c * 64) a.transaction_bitmap a.slots
          (first_in_use c arrays true bs u refl).0.1 own)
  listing-All c (true ∷ bs) arrays u h (suc f) b =
      let a = arrays c in
      let rest =
        (All-left (entries (c * 64) a.transaction_bitmap a.slots) (listing_from (suc c) bs arrays)
          h).1 in
      subst (λ i. (q : ℕ) → bit (arrays i).transaction_bitmap q ≡ true → P (i * 64 + q))
        (omega arith) (listing-All (suc c) bs arrays (later_in_use c arrays true bs u) rest f b)
  listing-All c (false ∷ bs) arrays u h zero b = absurd (ground (arith, b))
  listing-All c (false ∷ bs) arrays u h (suc f) b =
      subst (λ i. (q : ℕ) → bit (arrays i).transaction_bitmap q ≡ true → P (i * 64 + q))
        (omega arith) (listing-All (suc c) bs arrays (later_in_use c arrays false bs u) h f b)

-- The transaction is the next one of its core in the region.
pub InOrder-IsNext :
    (core tx : ℕ) (r : RowRegion)
    → IsRegion r
    → InOrder core (core * 64 + tx) (listing r)
    → IsNext core tx r
InOrder-IsNext core tx r w h b q k =
    let before =
      listing-All (λ id. id / 64 ≡ core → id < core * 64 + tx) 0 r.core_bitmap r.arrays
        (λ f b. subst (λ i. IsUsed (r.arrays i)) (omega arith) (w.used f b)) h core b q
        (subst (λ i. bit (r.arrays i).transaction_bitmap q ≡ true) (omega arith) k) in
    let in_word = bit-bound q (r.arrays core).transaction_bitmap k in
    omega (arith, before (omega (arith, in_word, (w.used core b).0.0)))

Above-append_one :
    (k v s : ℕ) (xs : IdsSlots) → k < s → Above k xs → Above k (GlobalArray.append v s xs)
unfolding GlobalArray.append upper_bound insert_at
Above-append_one k v s [] h a = (h, tt)
Above-append_one k v s (x ∷ xs) h a = elim (Bool-cases (ltb s x.0)) [
  | inl e ↦ rw e (h, a)
  | inr e ↦ rw e (a.0, Above-append_one k v s xs h a.1)
]

Above-weaken : (i k : ℕ) (xs : IdsSlots) → i ≤ k → Above k xs → Above i xs
Above-weaken i k [] h a = tt
Above-weaken i k (x ∷ xs) h a = (omega (arith, h, a.0), Above-weaken i k xs h a.1)

-- The ordered insertion of a version whose identifier is new.
pub append-IsAscending :
    (core v s : ℕ) (xs : IdsSlots)
    → s / 64 ≡ core
    → InOrder core s xs
    → IsAscending xs
    → IsAscending (GlobalArray.append v s xs)
unfolding GlobalArray.append upper_bound insert_at
append-IsAscending core v s [] e o a = (tt, tt)
append-IsAscending core v s (x ∷ xs) e o a = elim (Bool-cases (ltb s x.0)) [
  | inl h ↦
      let front : s < x.0 = ground (arith, h) in
      rw h ((front, Above-weaken s x.0 xs (omega (arith, front)) a.0), a)
  | inr h ↦
      let other : x.0 ≢ s = λ same. omega (arith, o.0 (ap (λ i. i / 64) same ∙ e), same) in
      let behind : x.0 < s = ground (arith, h, other) in
      rw h (Above-append_one x.0 v s xs behind a.0, append-IsAscending core v s xs e o.1 a.1)
]

pub append-AreSerial :
    (v s : ℕ) (xs : IdsSlots) → s < 4096 → AreSerial xs → AreSerial (GlobalArray.append v s xs)
unfolding GlobalArray.append upper_bound insert_at
append-AreSerial v s [] h a = (h, tt)
append-AreSerial v s (x ∷ xs) h a = elim (Bool-cases (ltb s x.0)) [
  | inl e ↦ rw e (h, a)
  | inr e ↦ rw e (a.0, append-AreSerial v s xs h a.1)
]
