-- ===== src/Base/Lists.antt =====
-- Lists indexed and measured by native numbers, and a predicate on every element.
use Prim.Native.Nat.{ℕ, zero, suc, ◌+◌, ◌≤◌}
use mathlib.Core.Path.{◌≡◌, refl, ap, subst}
use mathlib.Core.Logic.{◌≢◌}
use mathlib.Core.List.{List, [], ◌∷◌, ◌++◌}
use mathlib.Core.Option
use mathlib.Core.Option.{Option, none, some, some-injective}
use native.Mathlib.Omega.{arith}
use tpcc_runner.Base.Tests.{◌==◌, if◌then◌else◌}

module _ {ℓ} {A : Type ℓ} where
  abbrev pub length : List A → ℕ
  length [] = 0
  length (x ∷ xs) = suc (length xs)

  abbrev pub get_elem? : List A → ℕ → Option A
  get_elem? [] i = none
  get_elem? (x ∷ xs) zero = some x
  get_elem? (x ∷ xs) (suc i) = get_elem? xs i

  -- A write out of bounds changes nothing.
  abbrev pub set : List A → ℕ → A → List A
  set [] i v = []
  set (x ∷ xs) zero v = v ∷ xs
  set (x ∷ xs) (suc i) v = x ∷ set xs i v

  abbrev pub All {κ} : (A → Type κ) → List A → Type κ
  All P [] = Unit
  All P (x ∷ xs) = P x × All P xs

-- The sum of a weight over a list.
module _ {ℓ} {A : Type ℓ} (w : A → ℕ) where
  unfoldable pub sum_of : List A → ℕ
  sum_of [] = 0
  sum_of (x ∷ xs) = w x + sum_of xs

  -- Writing at an index exchanges one weight for another.
  pub sum_of-set :
      (xs : List A) (i : ℕ) {old : A} (new : A)
      → get_elem? xs i ≡ some old
      → sum_of (set xs i new) + w old ≡ sum_of xs + w new
  unfolding sum_of
  sum_of-set [] i new h = absurd (ground arith)
  sum_of-set (x ∷ xs) zero new h = ground arith
  sum_of-set (x ∷ xs) (suc i) new h = omega (arith, sum_of-set xs i new h)

  -- One element weighs no more than the list, and neither do two elements at different places.
  pub weight-le-sum_of : (xs : List A) (i : ℕ) {a : A} → get_elem? xs i ≡ some a → w a ≤ sum_of xs
  unfolding sum_of
  weight-le-sum_of [] i h = absurd (ground arith)
  weight-le-sum_of (x ∷ xs) zero h = ground arith
  weight-le-sum_of (x ∷ xs) (suc i) h = omega (arith, weight-le-sum_of xs i h)

  pub weights-le-sum_of :
      (xs : List A) (i j : ℕ) {a b : A}
      → get_elem? xs i ≡ some a
      → get_elem? xs j ≡ some b
      → i ≢ j
      → w a + w b ≤ sum_of xs
  unfolding sum_of
  weights-le-sum_of [] i j h k ne = absurd (ground arith)
  weights-le-sum_of (x ∷ xs) zero zero h k ne = absurd (ne refl)
  weights-le-sum_of (x ∷ xs) zero (suc j) h k ne = ground (arith, weight-le-sum_of xs j k)
  weights-le-sum_of (x ∷ xs) (suc i) zero h k ne = ground (arith, weight-le-sum_of xs i h)
  weights-le-sum_of (x ∷ xs) (suc i) (suc j) h k ne =
      omega (arith, weights-le-sum_of xs i j h k (λ e. ne (ap suc e)))

module _ {ℓ κ} {A : Type ℓ} (P : A → Type κ) where
  pub All-set : (xs : List A) (i : ℕ) (a : A) → All P xs → P a → All P (set xs i a)
  All-set [] i a h p = h
  All-set (x ∷ xs) zero a h p = (p, h.1)
  All-set (x ∷ xs) (suc i) a h p = (h.0, All-set xs i a h.1 p)

  pub All-get_elem? : (xs : List A) (i : ℕ) {a : A} → All P xs → get_elem? xs i ≡ some a → P a
  All-get_elem? [] i h e = absurd (ground arith)
  All-get_elem? (x ∷ xs) zero h e = subst P (some-injective _ _ e) h.0
  All-get_elem? (x ∷ xs) (suc i) h e = All-get_elem? xs i h.1 e

module _ {ℓ} {A : Type ℓ} where
  abbrev pub replicate : ℕ → A → List A
  replicate zero a = []
  replicate (suc n) a = a ∷ replicate n a

  pub sum_of-replicate : (w : A → ℕ) (n : ℕ) (a : A) → w a ≡ 0 → sum_of w (replicate n a) ≡ 0
  unfolding sum_of
  sum_of-replicate w zero a h = refl
  sum_of-replicate w (suc n) a h = omega (arith, h, sum_of-replicate w n a h)

  pub All-replicate {κ} : (P : A → Type κ) (n : ℕ) (a : A) → P a → All P (replicate n a)
  All-replicate P zero a h = tt
  All-replicate P (suc n) a h = (h, All-replicate P n a h)

module _ {ℓ} {A : Type ℓ} where
  -- Reading after a write: the new value at the index written, if that is in the list.
  pub get_elem?-set :
      (xs : List A) (i j : ℕ) (v : A)
      → get_elem? (set xs i v) j
        ≡ (if i == j then Option.map (λ _. v) (get_elem? xs j) else get_elem? xs j)
  get_elem?-set [] i j v = ground arith
  get_elem?-set (x ∷ xs) zero zero v = ground arith
  get_elem?-set (x ∷ xs) zero (suc j) v = ground arith
  get_elem?-set (x ∷ xs) (suc i) zero v = ground arith
  get_elem?-set (x ∷ xs) (suc i) (suc j) v = ground (arith, get_elem?-set xs i j v)

module _ {ℓ κ} {A : Type ℓ} (P Q : A → Type κ) where
  pub All-map : ((a : A) → P a → Q a) → (xs : List A) → All P xs → All Q xs
  All-map f [] h = tt
  All-map f (x ∷ xs) h = (f x h.0, All-map f xs h.1)

module _ {ℓ} {A : Type ℓ} (w : A → ℕ) where
  pub sum_of-append : (xs ys : List A) → sum_of w (xs ++ ys) ≡ sum_of w xs + sum_of w ys
  unfolding sum_of
  sum_of-append [] ys = omega arith
  sum_of-append (x ∷ xs) ys = omega (arith, sum_of-append xs ys)

module _ {ℓ κ} {A : Type ℓ} (P : A → Type κ) where
  -- A property of all elements holds of one in the middle.
  pub All-middle : (xs : List A) (a : A) (ys : List A) → All P (xs ++ a ∷ ys) → P a
  All-middle [] a ys h = h.0
  All-middle (x ∷ xs) a ys h = All-middle xs a ys h.1
