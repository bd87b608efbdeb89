-- ===== src/Mvto/Snapshot.antt =====
-- mvto.hpp: `get_correct_version` and `gc_version_chain` on one chain.
use tpcc_runner.Base.{
  ℕ, suc, ◌≤◌, ◌<◌, ◌≡◌, refl, Option, none, some, List, [], ◌∷◌, arith, All, All-map, get_elem?,
  ltb, if◌then◌else◌, inl, inr, Bool-cases, ltb→lt,
}
use mathlib.Core.Option
use tpcc_runner.Mvto.Chain.{Version, get_correct_version, gc_kept}

-- Newest first: every version is at least as new as those behind it.
abbrev pub IsDescending : List Version → Type 0
IsDescending [] = Unit {0}
IsDescending (v ∷ vs) = All (λ w. w.write_ts ≤ v.write_ts) vs × IsDescending vs

-- The version found.
unfoldable pub version_for : ℕ → List Version → Option Version
version_for ts vs = Option.bind (get_correct_version ts vs) (get_elem? vs)

pub version_for-cons :
    (ts : ℕ) (v : Version) (vs : List Version)
    → version_for ts (v ∷ vs) ≡ (if ltb ts v.write_ts then version_for ts vs else some v)
unfolding version_for get_correct_version Option.bind
version_for-cons ts v vs = elim (Bool-cases (ltb ts v.write_ts)) [
  | inl h ↦ rw h (later (get_correct_version ts vs))
  | inr h ↦ rw h
]
  where
    later :
        (o : Option ℕ)
        → Option.bind (Option.map suc o) (get_elem? (v ∷ vs)) ≡ Option.bind o (get_elem? vs)
    later none = refl
    later (some i) = refl

version_for-nil : (ts : ℕ) → version_for ts [] ≡ none
unfolding version_for get_correct_version Option.bind
version_for-nil ts = refl

-- The collection keeps what a transaction finds whose timestamp is not below the collection bound,
-- at the same place of the chain.
pub version_for-gc_kept :
    (smallest_ts start_ts : ℕ) (vs : List Version)
    → smallest_ts ≤ start_ts
    → (get_correct_version start_ts (gc_kept smallest_ts vs) ≡ get_correct_version start_ts vs)
      × (version_for start_ts (gc_kept smallest_ts vs) ≡ version_for start_ts vs)
unfolding get_correct_version gc_kept
version_for-gc_kept g s [] h = (refl, refl)
version_for-gc_kept g s (v ∷ vs) h = ground (
  arith,
  version_for-gc_kept g s vs h,
  version_for-cons s v vs,
  version_for-cons s v (gc_kept g vs),
  version_for-cons s v [],
)

-- The latest version of a chain that is not after a time, or none.
abbrev pub IsLatest : ℕ → List Version → Option Version → Type 0
IsLatest ts vs none = All (λ w. ts < w.write_ts) vs
IsLatest ts vs (some v) =
    (v.write_ts ≤ ts)
    × ((i : ℕ) × (get_elem? vs i ≡ some v))
    × All (λ w. w.write_ts ≤ ts → w.write_ts ≤ v.write_ts) vs

IsLatest-cons :
    (ts : ℕ) (v : Version) (vs : List Version) (o : Option Version)
    → ts < v.write_ts
    → IsLatest ts vs o
    → IsLatest ts (v ∷ vs) o
IsLatest-cons ts v vs none h l = (h, l)
IsLatest-cons ts v vs (some w) h (le, (i, at), l) =
    (le, (suc i, at), ((λ le. absurd (omega arith)), l))

-- What a transaction finds in a chain that is newest first is the latest version not after its
-- timestamp, and it finds none only where every version is after it.
pub version_for-IsLatest :
    (ts : ℕ) (vs : List Version) → IsDescending vs → IsLatest ts vs (version_for ts vs)
unfolding version_for get_correct_version Option.bind
version_for-IsLatest ts [] d = tt
version_for-IsLatest ts (v ∷ vs) d = elim (Bool-cases (ltb ts v.write_ts)) [
  | inl h ↦
      rw (version_for-cons ts v vs, h)
        (IsLatest-cons ts v vs (version_for ts vs) (ltb→lt ts v.write_ts h)
          (version_for-IsLatest ts vs d.1))
  | inr h ↦
      rw (version_for-cons ts v vs, h)
        (
          ground arith,
          (0, refl),
          (
            (λ le. omega arith),
            All-map (λ w. w.write_ts ≤ v.write_ts) (λ w. w.write_ts ≤ ts → w.write_ts ≤ v.write_ts)
                (λ w le h'. le) vs d.0,
          ),
        )
]
