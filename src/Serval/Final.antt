-- ===== src/Serval/Final.antt =====
-- serval/include/row_region.hpp: the final state of an epoch is the last version of the row.
use tpcc_runner.Base.{
  ℕ, zero, suc, ◌+◌, ◌-◌, ◌*◌, ◌≡◌, refl, sym, ap, subst, ◌∙◌, true, false, Option, none, some,
  List, [], ◌∷◌, length, get_elem?, ltb, arith, Bool-cases, Option-cases, inl, inr,
}
use mathlib.Core.Option
use tpcc_runner.Serval.Bitmap.{Bits}
use tpcc_runner.Serval.Bits.{bit, keep, last_set}
use tpcc_runner.Serval.Find.{find_the_largest_lem, keep-none, later-zero, later-suc}
use tpcc_runner.Serval.Vector.{back}
use tpcc_runner.Serval.GlobalArray.{IdsSlots}
use tpcc_runner.Serval.CoreArray
use tpcc_runner.Serval.CoreArray.{PerCoreVersionArray}
use tpcc_runner.Serval.Region
use tpcc_runner.Serval.Region.{RowRegion}
use tpcc_runner.Serval.Rank.{last_below}
use tpcc_runner.Serval.Search.{listing}
use tpcc_runner.Serval.Cores.{IsUsed, final_in, final_of, cores-below, keep-all, bit-last_kept}
use tpcc_runner.Serval.Visible.{IsRegion, bit-bound}
use tpcc_runner.Serval.Insertion.{Until}
use tpcc_runner.Serval.Written.{AllBefore}
use tpcc_runner.Serval.Moved.{AllBefore-Until}

get_elem?-last : {A : Type 0} (xs : List A) → get_elem? xs (length xs - 1) ≡ back xs
unfolding back
get_elem?-last [] = refl
get_elem?-last (x ∷ []) = refl
get_elem?-last (x ∷ y ∷ xs) =
    let index : suc (suc (length xs)) - 1 ≡ suc (suc (length xs) - 1) = omega arith in
    rw index (get_elem?-last (y ∷ xs))

back-some : {A : Type 0} (x : A) (xs : List A) → (z : A) × (back (x ∷ xs) ≡ some z)
unfolding back
back-some x [] = (x, refl)
back-some x (y ∷ xs) = back-some y xs

-- Below an identifier that is after all, the last version is at the back.
last_below-Until : (s : ℕ) (xs : IdsSlots) → Until s xs → last_below s xs ≡ back xs
unfolding last_below back Option.or_else
last_below-Until s [] u = refl
last_below-Until s (x ∷ []) u = let below : ltb x.0 s ≡ true = ground (arith, u.0) in rw below refl
last_below-Until s (x ∷ y ∷ xs) u = rw (last_below-Until s (y ∷ xs) u.1, (back-some y xs).1) refl

keep-last : (bs : Bits) (q : ℕ) → last_set bs ≡ some q → keep (suc q) bs ≡ bs
keep-last [] q h = refl
keep-last (b ∷ bs) zero h = ap (λ cs. b ∷ cs) (keep-none zero bs (later-zero b (last_set bs) h).1)
keep-last (b ∷ bs) (suc q) h = ap (λ cs. b ∷ cs) (keep-last bs q (later-suc b (last_set bs) q h))

map-twice :
    {A B C : Type 0} (o : Option A) (f : A → B) (g : B → C)
    → Option.map g (Option.map f o) ≡ Option.map (λ a. g (f a)) o
map-twice none f g = refl
map-twice (some a) f g = refl

-- The latest version of a core.
pop_latest-final :
    (c : ℕ) (a : PerCoreVersionArray)
    → IsUsed a
    → Option.map (λ p. (c * 64 + p.0, p.1)) (CoreArray.pop_latest a).0 ≡ final_in c a
unfolding CoreArray.pop_latest
pop_latest-final c a u =
    let bs = a.transaction_bitmap in
    elim (Option-cases (last_set bs)) [
      | inl e ↦ absurd (u.1 e)
      | inr (q, e) ↦
          rw (find_the_largest_lem bs q u.0.0 e, e, keep-last bs q e, u.0.1, get_elem?-last a.slots)
            (map-twice (back a.slots) (λ v. (q, v)) (λ p. (c * 64 + p.0, p.1)))
    ]

module _ (r : RowRegion) (w : IsRegion r) where
  in_serial_range : AllBefore 4096 r
  in_serial_range c q b h = omega (
    arith,
    bit-bound c r.core_bitmap b,
    w.width,
    bit-bound q (r.arrays c).transaction_bitmap h,
    (w.used c b).0.0,
  )

  beyond_cores : bit r.core_bitmap 64 ≡ false
  beyond_cores = elim (Bool-cases (bit r.core_bitmap 64)) [
    | inl b ↦ absurd (omega (arith, bit-bound 64 r.core_bitmap b, w.width))
    | inr b ↦ b
  ]

  pub listing-final : back (listing r) ≡ final_of 0 r.arrays (last_set r.core_bitmap)
  unfolding Option.or_else
  listing-final =
      let below =
        cores-below 4096 0 64 0 64 r.core_bitmap r.arrays refl (omega arith) refl
          (λ f b. subst (λ i. IsUsed (r.arrays i)) (omega arith) (w.used f b)) in
      let kept = keep-all 64 r.core_bitmap (omega (arith, w.width)) in
      sym (last_below-Until 4096 (listing r) (AllBefore-Until 4096 r in_serial_range))
      ∙ below
      ∙ rw (beyond_cores, kept) refl

  -- The version that `pop_final_state` takes off is the last one of the region.
  pub pop_final_state-last :
      (c : ℕ)
      → last_set r.core_bitmap ≡ some c
      → Option.map (λ p. (c * 64 + p.0, p.1)) (Region.pop_final_state r).0 ≡ back (listing r)
  unfolding Region.pop_final_state
  pop_final_state-last c e =
      let place : 0 + c ≡ c = omega arith in
      let set =
        bit-last_kept 64 r.core_bitmap c
          (ap last_set (keep-all 64 r.core_bitmap (omega (arith, w.width))) ∙ e) in
      rw (find_the_largest_lem r.core_bitmap c w.width e) (
        pop_latest-final c (r.arrays c) (w.used c set.0) ∙ sym (listing-final ∙ rw (e, place) refl))
