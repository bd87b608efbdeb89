-- ===== src/Serval/Cores.antt =====
-- serval/include/row_region.hpp: the latest version below a reader, by cores. It is the reader's
-- own core's version before it or else the final version of the nearest core before.
use tpcc_runner.Base.{
  ℕ, zero, suc, ◌+◌, ◌-◌, ◌*◌, ◌≤◌, ◌<◌, ◌≡◌, ◌≢◌, refl, sym, ap, subst, ◌∙◌, Bool, true, false,
  Option, none, some, [], ◌∷◌, length, arith,
}
use mathlib.Core.Option
use tpcc_runner.Serval.Bitmap.{Bits, count_bits}
use tpcc_runner.Serval.Bits.{bit, keep, later, last_set}
use tpcc_runner.Serval.CoreArray.{PerCoreVersionArray}
use tpcc_runner.Serval.Rank.{
  entries, last_below, version_at, entries-below, version_at-some, last_set-keep_zero,
}
use tpcc_runner.Serval.Search.{
  listing_from, listing-from, last_below-append, or_else-none, or_else_assoc,
}

-- One slot for each bit of a word of 64.
abbrev pub IsArray : PerCoreVersionArray → Type 0
IsArray a = (length a.transaction_bitmap ≡ 64) × (count_bits a.transaction_bitmap ≡ length a.slots)

-- An array that a transaction of the epoch has written.
abbrev pub IsUsed : PerCoreVersionArray → Type 0
IsUsed a = IsArray a × (last_set a.transaction_bitmap ≢ none)

abbrev pub in_array : ℕ → PerCoreVersionArray → Option ℕ → Option (ℕ × ℕ)
in_array c a o = version_at (c * 64) a.transaction_bitmap a.slots o

abbrev pub final_in : ℕ → PerCoreVersionArray → Option (ℕ × ℕ)
final_in c a = in_array c a (last_set a.transaction_bitmap)

abbrev pub final_of : ℕ → (ℕ → PerCoreVersionArray) → Option ℕ → Option (ℕ × ℕ)
final_of c arrays none = none
final_of c arrays (some f) = final_in (c + f) (arrays (c + f))

abbrev pub own_of : Bool → ℕ → PerCoreVersionArray → ℕ → Option (ℕ × ℕ)
own_of false core a tx = none
own_of true core a tx = in_array core a (last_set (keep tx a.transaction_bitmap))

pub keep-all : (n : ℕ) (bs : Bits) → length bs ≤ n → keep n bs ≡ bs
keep-all n [] h = refl
keep-all zero (b ∷ bs) h = absurd (omega (arith, h))
keep-all (suc n) (b ∷ bs) h = ap (λ cs. b ∷ cs) (keep-all n bs (omega (arith, h)))

-- A core that is used has a final version.
pub final_in-some :
    (c : ℕ) (a : PerCoreVersionArray) → IsUsed a → (p : ℕ × ℕ) × (final_in c a ≡ some p)
final_in-some c a u = by_last (last_set a.transaction_bitmap) refl
  where
    by_last :
        (o : Option ℕ) → last_set a.transaction_bitmap ≡ o → (p : ℕ × ℕ) × (in_array c a o ≡ some p)
    by_last none e = absurd (u.1 e)
    by_last (some q) e =
        version_at-some (c * 64) 64 a.transaction_bitmap a.slots q
          (ap last_set (keep-all 64 a.transaction_bitmap (omega (arith, u.0.0))) ∙ e) u.0.1

-- A core before all the reader's is read to its end.
entries-final :
    (s c : ℕ) (a : PerCoreVersionArray)
    → (suc c) * 64 ≤ s
    → IsArray a
    → last_below s (entries (c * 64) a.transaction_bitmap a.slots) ≡ final_in c a
entries-final s c a h w =
    entries-below s (c * 64) (s - c * 64) a.transaction_bitmap a.slots (omega (arith, h)) w.1
    ∙ ap (λ bs. in_array c a (last_set bs))
        (keep-all (s - c * 64) a.transaction_bitmap (omega (arith, h, w.0)))

-- A core in front that is used is read only when no later one is.
final_of-false :
    (c : ℕ) (arrays : ℕ → PerCoreVersionArray) (o : Option ℕ)
    → final_of (suc c) arrays o ≡ final_of c arrays (later false o)
final_of-false c arrays none = refl
final_of-false c arrays (some f) = ap (λ i. final_in i (arrays i)) (omega arith)

final_of-true :
    (c : ℕ) (arrays : ℕ → PerCoreVersionArray) (o : Option ℕ)
    → ((f : ℕ) → o ≡ some f → IsUsed (arrays (suc c + f)))
    → Option.or_else (final_of (suc c) arrays o) (final_in c (arrays c))
      ≡ final_of c arrays (later true o)
unfolding Option.or_else
final_of-true c arrays none u = ap (λ i. final_in i (arrays i)) (omega arith)
final_of-true c arrays (some f) u =
    let found = final_in-some (suc c + f) (arrays (suc c + f)) (u f refl) in
    let place : c + suc f ≡ suc c + f = omega arith in rw (place, found.1) refl

-- The last position kept is set.
pub bit-last_kept :
    (n : ℕ) (bs : Bits) (f : ℕ) → last_set (keep n bs) ≡ some f → (bit bs f ≡ true) × (f < n)
bit-last_kept n [] f h = absurd (ground (arith, h))
bit-last_kept zero (b ∷ bs) f h = absurd (ground (arith, h, last_set-keep_zero bs))
bit-last_kept (suc n) (b ∷ bs) f h = by_last (bit-last_kept n bs) b (last_set (keep n bs)) refl f h
  where
    by_last :
        ((g : ℕ) → last_set (keep n bs) ≡ some g → (bit bs g ≡ true) × (g < n))
        → (c : Bool) (o : Option ℕ) → last_set (keep n bs) ≡ o
        → (g : ℕ) → later c o ≡ some g
        → (bit (c ∷ bs) g ≡ true) × (g < suc n)
    by_last below true none e zero k = (refl, omega arith)
    by_last below true none e (suc g) k = absurd (ground (arith, k))
    by_last below false none e g k = absurd (ground (arith, k))
    by_last below c (some j) e zero k = absurd (ground (arith, k))
    by_last below c (some j) e (suc g) k =
        let w = below g (ground (arith, e, k)) in (w.0, omega (arith, w.1))

-- The cores in use, from the first one and from the next.
abbrev pub AreUsed : ℕ → (ℕ → PerCoreVersionArray) → Bits → Type 0
AreUsed c arrays bs = (f : ℕ) → bit bs f ≡ true → IsUsed (arrays (c + f))

module _ (c : ℕ) (arrays : ℕ → PerCoreVersionArray) (b : Bool) (bs : Bits) where
  pub first_in_use : AreUsed c arrays (b ∷ bs) → b ≡ true → IsUsed (arrays c)
  first_in_use u e = subst (λ i. IsUsed (arrays i)) (omega arith) (u 0 e)

  pub later_in_use : AreUsed c arrays (b ∷ bs) → AreUsed (suc c) arrays bs
  later_in_use u f e = subst (λ i. IsUsed (arrays i)) (omega arith) (u (suc f) e)

pub cores-below :
    (s tx core c k : ℕ) (bs : Bits) (arrays : ℕ → PerCoreVersionArray)
    → s ≡ core * 64 + tx
    → tx < 64
    → core ≡ c + k
    → AreUsed c arrays bs
    → last_below s (listing_from c bs arrays)
      ≡ Option.or_else
          (own_of (bit bs k) core (arrays core) tx)
          (final_of c arrays (last_set (keep k bs)))
unfolding listing_from last_below Option.or_else
cores-below s tx core c k [] arrays h le e u = refl
cores-below s tx core c zero (false ∷ bs) arrays h le e u =
    rw (listing-from s (suc c) bs arrays (omega (arith, h, le, e)), last_set-keep_zero bs) refl
cores-below s tx core c zero (true ∷ bs) arrays h le e u =
    let a = arrays c in
    let same : core ≡ c = omega (arith, e) in
    rw
      (
        same,
        last_below-append s (entries (c * 64) a.transaction_bitmap a.slots)
            (listing_from (suc c) bs arrays),
        listing-from s (suc c) bs arrays (omega (arith, h, le, e)),
        last_set-keep_zero bs,
        entries-below s (c * 64) tx a.transaction_bitmap a.slots (omega (arith, h, same))
            (first_in_use c arrays true bs u refl).0.1,
      )
      (sym (or_else-none (in_array c a (last_set (keep tx a.transaction_bitmap)))))
cores-below s tx core c (suc k) (false ∷ bs) arrays h le e u =
    cores-below s tx core (suc c) k bs arrays h le (omega (arith, e))
      (later_in_use c arrays false bs u)
    ∙ ap (Option.or_else (own_of (bit bs k) core (arrays core) tx))
        (final_of-false c arrays (last_set (keep k bs)))
cores-below s tx core c (suc k) (true ∷ bs) arrays h le e u =
    let a = arrays c in
    let o = last_set (keep k bs) in
    let own = own_of (bit bs k) core (arrays core) tx in
    rw
      (
        last_below-append s (entries (c * 64) a.transaction_bitmap a.slots)
            (listing_from (suc c) bs arrays),
        cores-below s tx core (suc c) k bs arrays h le (omega (arith, e))
            (later_in_use c arrays true bs u),
        entries-final s c a (omega (arith, h, e)) (first_in_use c arrays true bs u refl).0,
      )
      (or_else_assoc own (final_of (suc c) arrays o) (final_in c a)
        ∙ ap (Option.or_else own) (
            final_of-true c arrays o
              (λ f g. later_in_use c arrays true bs u f (bit-last_kept k bs f g).0)))
