-- ===== src/Base/Tables.antt =====
-- The per-transaction maps of the protocols: a `std::set<TableID>` of touched tables together with
-- `std::unordered_map<TableID, Table>` of their entries. A table that is touched stands in the
-- list, in the order of the identifiers; the entries of a table stand in the order of insertion,
-- which for an unordered map is one of the orders that are allowed.
use mathlib.Core.Path.{◌≡◌, refl}
use mathlib.Core.List.{List, [], ◌∷◌}
use mathlib.Core.Logic.{inl, inr}
use mathlib.Core.Option.{Option, none, some}
use Prim.Native.Nat.{ℕ, ◌+◌}
use native.Mathlib.Omega.{arith}
use tpcc_runner.Base.Tests.{ltb, ◌==◌, ==_iff, if◌then◌else◌, Bool-cases}
use tpcc_runner.Base.Lists.{sum_of}

abbrev pub Tables {ℓ} : Type ℓ → Type ℓ
Tables E = List (ℕ × List (ℕ × E))

module _ {ℓ} {E : Type ℓ} where
  -- `find` on a table.
  abbrev pub lookup : ℕ → List (ℕ × E) → Option E
  lookup k [] = none
  lookup k ((j, e) ∷ m) = let rest = lookup k m in if j == k then some e else rest

  -- A new entry, or a write through an iterator.
  unfoldable pub assign : ℕ → E → List (ℕ × E) → List (ℕ × E)
  assign k e [] = (k, e) ∷ []
  assign k e ((j, f) ∷ m) = let rest = assign k e m in if j == k then (k, e) ∷ m else (j, f) ∷ rest

  pub lookup-assign :
      (i k : ℕ) (e : E) (m : List (ℕ × E))
      → lookup i (assign k e m) ≡ (if k == i then some e else lookup i m)
  unfolding assign
  lookup-assign i k e [] = refl
  lookup-assign i k e ((j, f) ∷ m) = ground (arith, lookup-assign i k e m)

  -- `get_table`: an empty table where there is none.
  unfoldable pub get_table : ℕ → Tables E → List (ℕ × E)
  get_table t [] = []
  get_table t ((u, m) ∷ ts) =
      let rest = get_table t ts in if t == u then m else (if ltb t u then [] else rest)

  unfoldable pub put_table : ℕ → List (ℕ × E) → Tables E → Tables E
  put_table t n [] = (t, n) ∷ []
  put_table t n ((u, m) ∷ ts) =
      let rest = put_table t n ts in
      if t == u then (t, n) ∷ ts else (if ltb t u then (t, n) ∷ (u, m) ∷ ts else (u, m) ∷ rest)

  pub get_table-put_table :
      (s t : ℕ) (n : List (ℕ × E)) (ts : Tables E)
      → get_table s (put_table t n ts) ≡ (if t == s then n else get_table s ts)
  unfolding get_table put_table
  get_table-put_table s t n [] = ground arith
  get_table-put_table s t n ((u, m) ∷ ts) = ground (arith, get_table-put_table s t n ts)

  -- The entry of a key in a table, and its assignment.
  abbrev pub find_entry : ℕ → ℕ → Tables E → Option E
  find_entry t k ts = lookup k (get_table t ts)

  unfoldable pub assign_entry : ℕ → ℕ → E → Tables E → Tables E
  unfolding assign get_table put_table
  assign_entry t k e ts = put_table t (assign k e (get_table t ts)) ts

  -- `tables.insert(t)` and `get_table(t)`.
  unfoldable pub touch : ℕ → Tables E → Tables E
  unfolding get_table put_table
  touch t ts = put_table t (get_table t ts) ts

  pub find_entry-assign_entry :
      (s i t k : ℕ) (e : E) (ts : Tables E)
      → find_entry s i (assign_entry t k e ts)
        ≡ (if t == s then (if k == i then some e else find_entry s i ts) else find_entry s i ts)
  unfolding assign_entry
  find_entry-assign_entry s i t k e ts = elim (Bool-cases (t == s)) [
    | inl h ↦
        rw (get_table-put_table s t (assign k e (get_table t ts)) ts, h, (==_iff t s).0 h)
          (lookup-assign i k e (get_table s ts))
    | inr h ↦ rw (get_table-put_table s t (assign k e (get_table t ts)) ts, h)
  ]

  pub find_entry-touch :
      (s i t : ℕ) (ts : Tables E) → find_entry s i (touch t ts) ≡ find_entry s i ts
  unfolding touch
  find_entry-touch s i t ts = elim (Bool-cases (t == s)) [
    | inl h ↦ rw (get_table-put_table s t (get_table t ts) ts, h, (==_iff t s).0 h)
    | inr h ↦ rw (get_table-put_table s t (get_table t ts) ts, h)
  ]

-- The sum of a weight over all entries of all tables.
module _ {ℓ} {E : Type ℓ} (w : E → ℕ) where
  abbrev pub table_weight : List (ℕ × E) → ℕ
  table_weight m = sum_of (λ e. w e.1) m

  abbrev pub weight : Tables E → ℕ
  weight ts = sum_of (λ t. table_weight t.1) ts

  abbrev pub weight? : Option E → ℕ
  weight? none = 0
  weight? (some e) = w e

  table_weight-assign :
      (k : ℕ) (e : E) (m : List (ℕ × E))
      → table_weight (assign k e m) + weight? (lookup k m) ≡ table_weight m + w e
  unfolding assign sum_of
  table_weight-assign k e [] = omega arith
  table_weight-assign k e ((j, f) ∷ m) = ground (arith, table_weight-assign k e m)

  weight-put_table :
      (t : ℕ) (n : List (ℕ × E)) (ts : Tables E)
      → weight (put_table t n ts) + table_weight (get_table t ts) ≡ weight ts + table_weight n
  unfolding put_table get_table sum_of
  weight-put_table t n [] = omega arith
  weight-put_table t n ((u, m) ∷ ts) = ground (arith, weight-put_table t n ts)

  -- An assignment exchanges the weight of the old entry, if there was one, for that of the new.
  pub weight-assign_entry :
      (t k : ℕ) (e : E) (ts : Tables E)
      → weight (assign_entry t k e ts) + weight? (find_entry t k ts) ≡ weight ts + w e
  unfolding assign_entry
  weight-assign_entry t k e ts = omega (
    arith,
    weight-put_table t (assign k e (get_table t ts)) ts,
    table_weight-assign k e (get_table t ts),
  )

  pub weight-touch : (t : ℕ) (ts : Tables E) → weight (touch t ts) ≡ weight ts
  unfolding touch
  weight-touch t ts = omega (arith, weight-put_table t (get_table t ts) ts)
