-- ===== src/Base/Multimap.antt =====
-- `std::multimap<uint64_t, void*>` as the garbage collectors use it: entries in the order of
-- their keys, a new one behind those of its key, and the prefix up to `upper_bound`.
use mathlib.Core.Path.{◌≡◌, refl}
use mathlib.Core.List.{List, [], ◌∷◌}
use Prim.Native.Nat.{ℕ, ◌+◌, ◌≤◌, ◌<◌}
use native.Mathlib.Omega.{arith}
use tpcc_runner.Base.Tests.{leb, ◌==◌, if◌then◌else◌, Bool-cases, leb→le}
use mathlib.Core.Bool.{◌&&◌}
use tpcc_runner.Base.Lists.{All}
use mathlib.Core.Logic.{inl, inr}

abbrev pub Multimap : Type 0
Multimap = List (ℕ × ℕ)

unfoldable pub emplace : ℕ → ℕ → Multimap → Multimap
emplace k p [] = (k, p) ∷ []
emplace k p ((j, q) ∷ m) =
    let rest = emplace k p m in if leb j k then (j, q) ∷ rest else (k, p) ∷ (j, q) ∷ m

-- The entries before `upper_bound(k)`, and those from there on.
unfoldable pub until : ℕ → Multimap → Multimap
until k [] = []
until k ((j, q) ∷ m) = let rest = until k m in if leb j k then (j, q) ∷ rest else []

unfoldable pub beyond : ℕ → Multimap → Multimap
beyond k [] = []
beyond k ((j, q) ∷ m) = let rest = beyond k m in if leb j k then rest else (j, q) ∷ m

abbrev pub From : ℕ → Multimap → Type 0
From k m = All (λ e. k ≤ e.0) m

abbrev pub IsOrdered : Multimap → Type 0
IsOrdered [] = Unit {0}
IsOrdered ((k, p) ∷ m) = From k m × IsOrdered m

-- How often a pointer stands in the map.
unfoldable pub occurrences : ℕ → Multimap → ℕ
occurrences p [] = 0
occurrences p ((k, q) ∷ m) = (if p == q then 1 else 0) + occurrences p m

emplace-From : (i k p : ℕ) (m : Multimap) → i ≤ k → From i m → From i (emplace k p m)
unfolding emplace
emplace-From i k p [] h f = (h, tt)
emplace-From i k p ((j, q) ∷ m) h f = ground (arith, emplace-From i k p m h f.1)

From-weaken : (i k : ℕ) (m : Multimap) → i ≤ k → From k m → From i m
From-weaken i k [] h f = tt
From-weaken i k (e ∷ m) h f = (omega (arith, f.0), From-weaken i k m h f.1)

pub emplace-IsOrdered : (k p : ℕ) (m : Multimap) → IsOrdered m → IsOrdered (emplace k p m)
unfolding emplace
emplace-IsOrdered k p [] o = (tt, tt)
emplace-IsOrdered k p ((j, q) ∷ m) (f, o) = elim (Bool-cases (leb j k)) [
  | inl h ↦ rw h (emplace-From j k p m (leb→le j k h) f, emplace-IsOrdered k p m o)
  | inr h ↦ rw h ((ground arith, From-weaken k j m (ground arith) f), (f, o))
]

pub occurrences-emplace :
    (r k p : ℕ) (m : Multimap)
    → occurrences r (emplace k p m) ≡ (if r == p then 1 else 0) + occurrences r m
unfolding emplace occurrences
occurrences-emplace r k p [] = refl
occurrences-emplace r k p ((j, q) ∷ m) = ground (arith, occurrences-emplace r k p m)

pub occurrences-until-beyond :
    (r k : ℕ) (m : Multimap)
    → occurrences r (until k m) + occurrences r (beyond k m) ≡ occurrences r m
unfolding until beyond occurrences
occurrences-until-beyond r k [] = refl
occurrences-until-beyond r k ((j, q) ∷ m) = ground (arith, occurrences-until-beyond r k m)

pub All-until : (k : ℕ) (m : Multimap) → All (λ e. e.0 ≤ k) (until k m)
unfolding until
All-until k [] = tt
All-until k ((j, q) ∷ m) = ground (arith, All-until k m)

pub beyond-IsOrdered : (k : ℕ) (m : Multimap) → IsOrdered m → IsOrdered (beyond k m)
unfolding beyond
beyond-IsOrdered k [] o = tt
beyond-IsOrdered k ((j, q) ∷ m) o = ground (arith, beyond-IsOrdered k m o.1)

-- How often a pointer stands in the map under a key.
unfoldable pub entries : (k p : ℕ) → Multimap → ℕ
entries k p [] = 0
entries k p ((j, q) ∷ m) = (if k == j && p == q then 1 else 0) + entries k p m

-- How often a pointer stands in the map under the keys up to a bound.
unfoldable pub entries_until : (k p : ℕ) → Multimap → ℕ
entries_until k p [] = 0
entries_until k p ((j, q) ∷ m) = (if leb j k && p == q then 1 else 0) + entries_until k p m

pub entries-emplace :
    (i r k p : ℕ) (m : Multimap)
    → entries i r (emplace k p m) ≡ (if i == k && r == p then 1 else 0) + entries i r m
unfolding emplace entries
entries-emplace i r k p [] = refl
entries-emplace i r k p ((j, q) ∷ m) = ground (arith, entries-emplace i r k p m)

-- Below every key of the map nothing is found.
entries-From : (i j p : ℕ) (m : Multimap) → i < j → From j m → entries i p m ≡ 0
unfolding entries
entries-From i j p [] h f = refl
entries-From i j p ((k, q) ∷ m) h f = ground (arith, f.0, entries-From i j p m h f.1)

entries_until-From : (i j p : ℕ) (m : Multimap) → i < j → From j m → entries_until i p m ≡ 0
unfolding entries_until
entries_until-From i j p [] h f = refl
entries_until-From i j p ((k, q) ∷ m) h f = ground (arith, f.0, entries_until-From i j p m h f.1)

-- In an ordered map the entries up to a key, and those above it, are what the two parts hold.
pub entries-until :
    (i p k : ℕ) (m : Multimap)
    → IsOrdered m
    → entries i p (until k m) ≡ (if leb i k then entries i p m else 0)
unfolding until entries
entries-until i p k [] o = ground arith
entries-until i p k ((j, q) ∷ m) o =
    ground (arith, entries-until i p k m o.1, entries-From i j p m, o.0)

pub entries-beyond :
    (i p k : ℕ) (m : Multimap)
    → IsOrdered m
    → entries i p (beyond k m) ≡ (if leb i k then 0 else entries i p m)
unfolding beyond entries
entries-beyond i p k [] o = ground arith
entries-beyond i p k ((j, q) ∷ m) o =
    ground (arith, entries-beyond i p k m o.1, entries-From i j p m, o.0)

pub occurrences-until :
    (p k : ℕ) (m : Multimap) → IsOrdered m → occurrences p (until k m) ≡ entries_until k p m
unfolding until occurrences entries_until
occurrences-until p k [] o = refl
occurrences-until p k ((j, q) ∷ m) o =
    ground (arith, occurrences-until p k m o.1, entries_until-From k j p m, o.0)
