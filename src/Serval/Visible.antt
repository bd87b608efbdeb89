-- ===== src/Serval/Visible.antt =====
-- serval/include/row_region.hpp: the region finds for each reader the version that the list of all
-- versions of the row has for it.
use tpcc_runner.Base.{
  ℕ, zero, suc, ◌+◌, ◌-◌, ◌*◌, ◌<◌, ◌≡◌, refl, ap, ◌∙◌, subst, true, false, Option, none, some, [],
  ◌∷◌, length, ◌==◌, if◌then◌else◌, arith, Bool-cases, Option-cases, inl, inr, ◌⊎◌,
}
use mathlib.Core.Option
use tpcc_runner.Serval.Bitmap.{Bits, find_the_largest}
use tpcc_runner.Serval.Bits.{bit, keep, last_set, fill_until_lem, bit_and-ones}
use tpcc_runner.Serval.Find.{two_largest_lem, among_less_than_lem, find_the_largest_lem}
use tpcc_runner.Serval.CoreArray
use tpcc_runner.Serval.CoreArray.{PerCoreVersionArray}
use tpcc_runner.Serval.Region.{RowRegion, identify_visible_version}
use tpcc_runner.Serval.Rank.{last_below, version_at-some, last_set-keep_zero}
use tpcc_runner.Serval.Search.{listing}
use tpcc_runner.Serval.Cores.{
  IsArray, IsUsed, in_array, final_in, final_of, own_of, bit-last_kept, cores-below, keep-all,
  final_in-some,
}

-- Words of 64 bits, and a version for each bit that is set.
pub record IsRegion (r : RowRegion) : Type 0 where
  pub width : length r.core_bitmap ≡ 64
  pub used : (c : ℕ) → bit r.core_bitmap c ≡ true → IsUsed (r.arrays c)

-- The version at the place that the search of a region returns, with its serial identifier.
unfoldable pub version_of : RowRegion → Option (ℕ × ℕ) → Option (ℕ × ℕ)
unfolding CoreArray.get
version_of r none = none
version_of r (some (c, t)) = Option.map (λ v. (c * 64 + t, v)) (CoreArray.get t (r.arrays c))

last_set-keep-suc :
    (k : ℕ) (bs : Bits)
    → last_set (keep (suc k) bs) ≡ (if bit bs k then some k else last_set (keep k bs))
last_set-keep-suc k [] = refl
last_set-keep-suc zero (b ∷ bs) = rw (last_set-keep_zero bs) refl
last_set-keep-suc (suc k) (b ∷ bs) =
    rw (last_set-keep-suc k bs)
      (elim (Bool-cases (bit bs k)) [ inl h ↦ rw h refl | inr h ↦ rw h refl ])

keep-keep_zero : (bs : Bits) → keep 0 (keep 0 bs) ≡ keep 0 bs
keep-keep_zero [] = refl
keep-keep_zero (b ∷ bs) = ap (λ cs. false ∷ cs) (keep-keep_zero bs)

keep-keep-suc : (k : ℕ) (bs : Bits) → keep k (keep (suc k) bs) ≡ keep k bs
keep-keep-suc k [] = refl
keep-keep-suc zero (b ∷ bs) = ap (λ cs. false ∷ cs) (keep-keep_zero bs)
keep-keep-suc (suc k) (b ∷ bs) = ap (λ cs. b ∷ cs) (keep-keep-suc k bs)

pub bit-bound : (i : ℕ) (bs : Bits) → bit bs i ≡ true → i < length bs
bit-bound i [] h = absurd (ground (arith, h))
bit-bound zero (b ∷ bs) h = omega arith
bit-bound (suc i) (b ∷ bs) h = omega (arith, bit-bound i bs h)

module _ (r : RowRegion) (w : IsRegion r) where
  -- Counting the bits up to a position that is set finds its slot.
  version_of-at :
      (c t : ℕ)
      → IsArray (r.arrays c)
      → t < 64
      → version_of r (some (c, t)) ≡ in_array c (r.arrays c) (some t)
  unfolding version_of CoreArray.get
  version_of-at c t a le =
      rw
        (
          fill_until_lem t le,
          bit_and-ones (suc t) (63 - t) (r.arrays c).transaction_bitmap (omega (arith, le, a.0)),
        )
        refl

  -- The final version of a core that is used.
  version_of-final :
      (c : ℕ)
      → bit r.core_bitmap c ≡ true
      → version_of r (some (c, find_the_largest (r.arrays c).transaction_bitmap))
        ≡ final_in c (r.arrays c)
  version_of-final c b =
      let u = w.used c b in
      let a = r.arrays c in
      elim (Option-cases (last_set a.transaction_bitmap)) [
        | inl e ↦ absurd (u.1 e)
        | inr (q, e) ↦
            let bound =
              bit-last_kept 64 a.transaction_bitmap q
                (ap last_set (keep-all 64 a.transaction_bitmap (omega (arith, u.0.0))) ∙ e) in
            rw (find_the_largest_lem a.transaction_bitmap q u.0.0 e, e)
              (version_of-at c q u.0 bound.1)
      ]

  identify-own :
      (core tx : ℕ)
      → core < 64
      → tx < 64
      → bit r.core_bitmap core ≡ true
      → version_of r (identify_visible_version core tx r)
        ≡ Option.or_else
            (in_array core (r.arrays core) (last_set (keep tx (r.arrays core).transaction_bitmap)))
            (final_of 0 r.arrays (last_set (keep core r.core_bitmap)))
  unfolding identify_visible_version Option.or_else version_of
  identify-own core tx le lt b =
      let cb = r.core_bitmap in
      let a = r.arrays core in
      let here : (core == core) ≡ true = ground arith in
      rw
        (
          two_largest_lem cb core w.width le,
          last_set-keep-suc core cb,
          b,
          keep-keep-suc core cb,
          here,
          among_less_than_lem (r.arrays core).transaction_bitmap tx (w.used core b).0.0 lt,
        )
        (elim (Option-cases (last_set (keep tx a.transaction_bitmap))) [
          | inr (t, e) ↦
              let found =
                version_at-some (core * 64) tx a.transaction_bitmap a.slots t e
                  (w.used core b).0.1 in
              let bound = bit-last_kept tx a.transaction_bitmap t e in
              rw (e, version_of-at core t (w.used core b).0 (omega (arith, bound.1, lt)), found.1)
                refl
          | inl e ↦ elim (Option-cases (last_set (keep core cb))) [
            | inl g ↦ rw (e, g) refl
            | inr (f, g) ↦
                let place : 0 + f ≡ f = omega arith in
                rw (e, g, place) (version_of-final f (bit-last_kept core cb f g).0)
          ]
        ])

  identify-other :
      (core tx : ℕ)
      → core < 64
      → tx < 64
      → bit r.core_bitmap core ≡ false
      → version_of r (identify_visible_version core tx r)
        ≡ final_of 0 r.arrays (last_set (keep core r.core_bitmap))
  unfolding identify_visible_version version_of
  identify-other core tx le lt b =
      let cb = r.core_bitmap in
      rw (two_largest_lem cb core w.width le, last_set-keep-suc core cb, b)
        (elim (Option-cases (last_set (keep core cb))) [
          | inl e ↦ rw e refl
          | inr (f, e) ↦
              let found = bit-last_kept core cb f e in
              let before : (f == core) ≡ false = ground (arith, found.1) in
              let place : 0 + f ≡ f = omega arith in
              rw (e, before, place) (version_of-final f found.0)
        ])

  listing-below :
      (core tx : ℕ)
      → tx < 64
      → last_below (core * 64 + tx) (listing r)
        ≡ Option.or_else
            (own_of (bit r.core_bitmap core) core (r.arrays core) tx)
            (final_of 0 r.arrays (last_set (keep core r.core_bitmap)))
  listing-below core tx lt =
      cores-below (core * 64 + tx) tx core 0 core r.core_bitmap r.arrays refl lt (omega arith)
        (λ f b. subst (λ i. IsUsed (r.arrays i)) (omega arith) (w.used f b))

  -- The two searches of the bitmaps and the count of the bits lead to the last version below the
  -- reader.
  pub identify-last_below :
      (core tx : ℕ)
      → core < 64
      → tx < 64
      → version_of r (identify_visible_version core tx r) ≡ last_below (core * 64 + tx) (listing r)
  unfolding Option.or_else
  identify-last_below core tx le lt = elim (Bool-cases (bit r.core_bitmap core)) [
    | inl b ↦ rw (listing-below core tx lt, b) (identify-own core tx le lt b)
    | inr b ↦ rw (listing-below core tx lt, b) (identify-other core tx le lt b)
  ]

  -- The search returns a place only where there is a version.
  abbrev pub IsFound : ℕ → ℕ → Type 0
  IsFound core tx =
      (identify_visible_version core tx r ≡ none)
      ⊎ ((p : ℕ × ℕ) × (version_of r (identify_visible_version core tx r) ≡ some p))

  own_place : (core tx : ℕ) → core < 64 → tx < 64 → bit r.core_bitmap core ≡ true → IsFound core tx
  unfolding identify_visible_version
  own_place core tx le lt b =
      let cb = r.core_bitmap in
      let a = r.arrays core in
      let here : (core == core) ≡ true = ground arith in
      rw
        (
          two_largest_lem cb core w.width le,
          last_set-keep-suc core cb,
          b,
          keep-keep-suc core cb,
          here,
          among_less_than_lem a.transaction_bitmap tx (w.used core b).0.0 lt,
        )
        (elim (Option-cases (last_set (keep tx a.transaction_bitmap))) [
          | inr (t, e) ↦
              let found =
                version_at-some (core * 64) tx a.transaction_bitmap a.slots t e
                  (w.used core b).0.1 in
              let bound = bit-last_kept tx a.transaction_bitmap t e in
              rw e (
                inr (
                  found.0,
                  version_of-at core t (w.used core b).0 (omega (arith, bound.1, lt)) ∙ found.1,
                ))
          | inl e ↦ elim (Option-cases (last_set (keep core cb))) [
            | inl g ↦ rw (e, g) (inl refl)
            | inr (f, g) ↦
                let set = (bit-last_kept core cb f g).0 in
                let found = final_in-some f (r.arrays f) (w.used f set) in
                rw (e, g) (inr (found.0, version_of-final f set ∙ found.1))
          ]
        ])

  other_place :
      (core tx : ℕ) → core < 64 → tx < 64 → bit r.core_bitmap core ≡ false → IsFound core tx
  unfolding identify_visible_version
  other_place core tx le lt b =
      let cb = r.core_bitmap in
      rw (two_largest_lem cb core w.width le, last_set-keep-suc core cb, b)
        (elim (Option-cases (last_set (keep core cb))) [
          | inl e ↦ rw e (inl refl)
          | inr (f, e) ↦
              let bound = bit-last_kept core cb f e in
              let before : (f == core) ≡ false = ground (arith, bound.1) in
              let found = final_in-some f (r.arrays f) (w.used f bound.0) in
              rw (e, before) (inr (found.0, version_of-final f bound.0 ∙ found.1))
        ])

  pub identify-IsFound : (core tx : ℕ) → core < 64 → tx < 64 → IsFound core tx
  identify-IsFound core tx le lt = elim (Bool-cases (bit r.core_bitmap core)) [
    | inl b ↦ own_place core tx le lt b
    | inr b ↦ other_place core tx le lt b
  ]
