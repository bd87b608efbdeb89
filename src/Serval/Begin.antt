-- ===== src/Serval/Begin.antt =====
-- serval.hpp: `initialize_the_row` begins an epoch of a row: the last version of the epoch before
-- becomes the master version, and the row has no version yet.
use tpcc_runner.Base.{
  ℕ, ℤ, ◌+◌, ◌*◌, ◌≡◌, refl, sym, ap, ◌∙◌, true, not, Option, none, some, List, [], ◌∷◌, arith,
  ◌==◌, Option-cases, Bool-cases, inl, inr,
}
use mathlib.Core.Option
use tpcc_runner.Serval.Bitmap.{is_nonzero}
use tpcc_runner.Serval.Bits.{last_set}
use tpcc_runner.Serval.Vector.{back}
use tpcc_runner.Serval.GlobalArray
use tpcc_runner.Serval.GlobalArray.{IdsSlots}
use tpcc_runner.Serval.Region
use tpcc_runner.Serval.Region.{RowRegion}
use tpcc_runner.Serval.Search.{listing_from, listing}
use tpcc_runner.Serval.Visible.{IsRegion}
use tpcc_runner.Serval.Final.{pop_final_state-last, listing-final}
use tpcc_runner.Serval.Cores.{final_of}
use tpcc_runner.Serval.Append.{bit-zeros}
use tpcc_runner.Serval.Defs.{Value, Store, Transaction, has_dirty_region, free_all, set_row}
use tpcc_runner.Serval.Appends.{initialize_the_row, gc_master_version}
use tpcc_runner.Serval.Rows.{versions_in, IsRow, IsPlaced, region-dirty}

-- The row after its epoch has begun: with the lock that it had, of the transaction's epoch, with this master version and no
-- other, and well formed.
pub record IsBegun (tx : Transaction) (latest : ℕ) (lock : ℤ) (val : Value)
    (regions : ℕ → RowRegion) : Type 0 where
  pub epoch : val.epoch ≡ tx.epoch
  pub master : val.master ≡ latest
  pub empty : versions_in val regions ≡ []
  pub row : IsRow val regions
  pub rwl : val.rwl ≡ lock

pub rows-free_all : (vs : List ℕ) (s : Store) → (free_all vs s).rows ≡ s.rows
rows-free_all [] s = refl
rows-free_all (v ∷ vs) s = rows-free_all vs s

pub regions-free_all : (vs : List ℕ) (s : Store) → (free_all vs s).regions ≡ s.regions
regions-free_all [] s = refl
regions-free_all (v ∷ vs) s = regions-free_all vs s

back-dirty : (xs : IdsSlots) {z : ℕ × ℕ} → back xs ≡ some z → not (GlobalArray.is_empty xs) ≡ true
unfolding back
back-dirty [] h = absurd (ground (arith, h))
back-dirty (x ∷ xs) h = refl

module _ (tx : Transaction) (p : ℕ) (s : Store) (id latest : ℕ) where
  popped :
      (q : ℕ)
      → IsRegion (s.regions q)
      → back (listing (s.regions q)) ≡ some (id, latest)
      → (i : ℕ) × ((Region.pop_final_state (s.regions q)).0 ≡ some (i, latest))
  popped q w b = elim (Option-cases (last_set (s.regions q).core_bitmap)) [
    | inl e ↦ absurd (
        ground
          (arith, sym b ∙ listing-final (s.regions q) w ∙ ap (final_of 0 (s.regions q).arrays) e))
    | inr (c, e) ↦
        by_pop c (Region.pop_final_state (s.regions q)).0
          (pop_final_state-last (s.regions q) w c e ∙ b)
  ]
    where
      by_pop :
          (c : ℕ) (o : Option (ℕ × ℕ))
          → Option.map {B = ℕ × ℕ} (λ z. (c * 64 + z.0, z.1)) o ≡ some (id, latest)
          → (i : ℕ) × (o ≡ some (i, latest))
      by_pop c none h = absurd (ground (arith, h))
      by_pop c (some (i, v)) h =
          let with_place : ℕ → ℕ × ℕ = λ z. (i, z) in
          (i, ap (Option.map with_place) (ap (Option.map (λ z. z.1)) h))

  from_array :
      (s.rows p).row_region ≡ none
      → (versions : IdsSlots) → (s.rows p).global_array ≡ versions
      → back versions ≡ some (id, latest)
      → (let t = initialize_the_row tx p s in IsBegun tx latest (s.rows p).rwl (t.rows p) t.regions)
  unfolding initialize_the_row GlobalArray.is_dirty GlobalArray.pop_final_state gc_master_version
      versions_in
  from_array n [] e b = absurd (ground (arith, b))
  from_array n (x ∷ xs) e b =
      let here : (p == p) ≡ true = ground arith in
      rw (e, b, here, rows-free_all, regions-free_all, here, n)
        (record { epoch = refl; master = refl; empty = refl; row = (tt, tt); rwl = refl })

  -- The region is emptied by its core bitmap alone.
  from_region :
      (q : ℕ)
      → (s.rows p).global_array ≡ []
      → (s.rows p).row_region ≡ some q
      → IsRegion (s.regions q)
      → back (listing (s.regions q)) ≡ some (id, latest)
      → (let t = initialize_the_row tx p s in IsBegun tx latest (s.rows p).rwl (t.rows p) t.regions)
  unfolding initialize_the_row GlobalArray.is_dirty has_dirty_region Region.is_dirty
      gc_master_version versions_in Region.initialize_core_bitmap listing_from
  from_region q e n w b =
      let here : (p == p) ≡ true = ground arith in
      let there : (q == q) ≡ true = ground arith in
      let dirty : is_nonzero (s.regions q).core_bitmap ≡ true =
        sym (region-dirty (s.regions q) w) ∙ back-dirty (listing (s.regions q)) b in
      let pop = popped q w b in
      rw (e, n, dirty, pop.1, here, n)
        (record {
          epoch = refl;
          master = refl;
          empty = rw there refl;
          row = (
            e,
            rw there
                (record { width = refl; used = λ c h. absurd (ground (arith, h, bit-zeros 64 c)) }),
          );
          rwl = refl;
        })

-- A row that is well formed and has a version begins the epoch of the transaction with the last of
-- its versions as the master version, no other version, well formed and with the
-- lock that it had.
pub initialize_the_row-begins :
    (tx : Transaction) (p : ℕ) (s : Store) (id latest : ℕ)
    → IsRow (s.rows p) s.regions
    → back (versions_in (s.rows p) s.regions) ≡ some (id, latest)
    → (let t = initialize_the_row tx p s in IsBegun tx latest (s.rows p).rwl (t.rows p) t.regions)
unfolding versions_in
initialize_the_row-begins tx p s id latest w b = by_region (s.rows p).row_region refl w b
  where
    by_region :
        (o : Option ℕ)
        → (s.rows p).row_region ≡ o
        → IsPlaced (s.rows p) s.regions o
        → back (elim o [ none ↦ (s.rows p).global_array | some q ↦ listing (s.regions q) ])
          ≡ some (id, latest)
        → (let t = initialize_the_row tx p s in
            IsBegun tx latest (s.rows p).rwl (t.rows p) t.regions)
    by_region none n w b = from_array tx p s id latest n (s.rows p).global_array refl b
    by_region (some q) n w b = from_region tx p s id latest q w.0 n w.1 b

-- Versions and the allocator are as they were.
abbrev pub IsKept : Store → Store → Type 0
IsKept s t = (t.versions ≡ s.versions) × (t.next ≡ s.next)

pub free_all-IsKept : (vs : List ℕ) (s : Store) → IsKept s (free_all vs s)
free_all-IsKept [] s = (refl, refl)
free_all-IsKept (v ∷ vs) s = free_all-IsKept vs s

pub initialize_the_row-IsKept :
    (tx : Transaction) (p : ℕ) (s : Store) → IsKept s (initialize_the_row tx p s)
unfolding initialize_the_row gc_master_version has_dirty_region
initialize_the_row-IsKept tx p s =
    elim (Bool-cases (GlobalArray.is_dirty (s.rows p).global_array)) [
      | inl d ↦ elim (Option-cases (GlobalArray.pop_final_state (s.rows p).global_array).0) [
        | inl e ↦ rw (d, e) (refl, refl)
        | inr (last, e) ↦
            rw (d, e)
              (free_all-IsKept
                (GlobalArray.clear_memory (GlobalArray.pop_final_state (s.rows p).global_array).1).1
                (set_row p (record (s.rows p) { global_array = [] }) s))
      ]
      | inr d ↦ elim (Option-cases (s.rows p).row_region) [
        | inl n ↦ rw (d, n) (refl, refl)
        | inr (q, n) ↦ elim (Bool-cases (Region.is_dirty (s.regions q))) [
          | inr c ↦ rw (d, n, c) (refl, refl)
          | inl c ↦ elim (Option-cases (Region.pop_final_state (s.regions q)).0) [
            | inl e ↦ rw (d, n, c, e) (refl, refl)
            | inr (last, e) ↦ rw (d, n, c, e) (refl, refl)
          ]
        ]
      ]
    ]
