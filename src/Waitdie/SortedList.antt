-- ===== src/Waitdie/SortedList.antt =====
-- waitdielock.hpp: `TimestampSortedList`, greatest timestamp first.
use tpcc_runner.Base.{
  ℕ, ◌+◌, ◌≤◌, ◌<◌, ◌≡◌, ◌≢◌, refl, Option, none, some, List, [], ◌∷◌, ltb, ◌==◌, if◌then◌else◌,
  arith, All, Bool-cases, inl, inr, length, false,
}
use mathlib.Core.Option

module _ {ℓ} {A : Type ℓ} (ts_of : A → ℕ) where
  unfoldable pub insert : A → List A → List A
  insert a [] = a ∷ []
  insert a (b ∷ l) =
      let rest = insert a l in if ltb (ts_of b) (ts_of a) then a ∷ b ∷ l else b ∷ rest

  -- `none` where the code throws.
  unfoldable pub remove : ℕ → List A → Option (List A)
  remove ts [] = none
  remove ts (a ∷ l) =
      let rest = remove ts l in if ts_of a == ts then some l else Option.map (◌∷◌ a) rest

  -- Undefined on an empty list; 0 here.
  unfoldable pub get_back_timestamp : List A → ℕ
  get_back_timestamp [] = 0
  get_back_timestamp (a ∷ []) = ts_of a
  get_back_timestamp (a ∷ b ∷ l) = get_back_timestamp (b ∷ l)

  -- Strictly falling timestamps, all below a bound.
  abbrev pub Falls : ℕ → List A → Type 0
  Falls n [] = Unit {0}
  Falls n (a ∷ l) = (ts_of a < n) × Falls (ts_of a) l

  abbrev pub IsSorted : List A → Type 0
  IsSorted [] = Unit {0}
  IsSorted (a ∷ l) = Falls (ts_of a) l

  abbrev pub IsMissing : ℕ → List A → Type 0
  IsMissing ts l = All (λ a. ts_of a ≢ ts) l

  -- How many elements have a timestamp.
  unfoldable pub count : ℕ → List A → ℕ
  count ts [] = 0
  count ts (a ∷ l) = (if ts_of a == ts then 1 else 0) + count ts l

  pub Falls-weaken : (m n : ℕ) (l : List A) → m ≤ n → Falls m l → Falls n l
  Falls-weaken m n [] h f = tt
  Falls-weaken m n (a ∷ l) h f = (omega arith, f.1)

  -- A new timestamp keeps the order.
  pub Falls-insert :
      (n : ℕ) (a : A) (l : List A)
      → ts_of a < n
      → IsMissing (ts_of a) l
      → Falls n l
      → Falls n (insert a l)
  unfolding insert
  Falls-insert n a [] h new f = (h, tt)
  Falls-insert n a (b ∷ l) h new f =
      ground (arith, new.0, Falls-insert (ts_of b) a l, new.1, f.0, f.1)

  pub IsSorted-insert :
      (a : A) (l : List A) → IsMissing (ts_of a) l → IsSorted l → IsSorted (insert a l)
  unfolding insert
  IsSorted-insert a [] new f = tt
  IsSorted-insert a (b ∷ l) new f = ground (arith, new.0, Falls-insert (ts_of b) a l, new.1)

  -- What `remove` leaves, if it finds the timestamp.
  abbrev pub Left {κ} : (List A → Type κ) → Option (List A) → Type κ
  Left P none = Unit
  Left P (some l) = P l

  Left-cons {κ} :
      (P Q : List A → Type κ) (a : A) (o : Option (List A))
      → ((l : List A) → P l → Q (a ∷ l))
      → Left P o
      → Left Q (Option.map (◌∷◌ a) o)
  Left-cons P Q a none f h = tt
  Left-cons P Q a (some l) f h = f l h

  pub Falls-remove : (n ts : ℕ) (l : List A) → Falls n l → Left (Falls n) (remove ts l)
  unfolding remove
  Falls-remove n ts [] f = tt
  Falls-remove n ts (a ∷ l) f = elim (Bool-cases (ts_of a == ts)) [
    | inl h ↦ rw h (Falls-weaken (ts_of a) n l (omega (arith, f.0)) f.1)
    | inr h ↦ rw h (
        Left-cons (Falls (ts_of a)) (Falls n) a (remove ts l) (λ l' g. (f.0, g))
          (Falls-remove (ts_of a) ts l f.1))
  ]

  IsSorted-Falls : (n : ℕ) (l : List A) → Falls n l → IsSorted l
  IsSorted-Falls n [] f = tt
  IsSorted-Falls n (a ∷ l) f = f.1

  pub IsSorted-remove : (ts : ℕ) (l : List A) → IsSorted l → Left IsSorted (remove ts l)
  unfolding remove
  IsSorted-remove ts [] f = tt
  IsSorted-remove ts (a ∷ l) f = elim (Bool-cases (ts_of a == ts)) [
    | inl h ↦ rw h (IsSorted-Falls (ts_of a) l f)
    | inr h ↦ rw h (
        Left-cons (Falls (ts_of a)) IsSorted a (remove ts l) (λ l' g. g)
          (Falls-remove (ts_of a) ts l f))
  ]

  pub All-insert : (P : A → Type 0) (a : A) (l : List A) → P a → All P l → All P (insert a l)
  unfolding insert
  All-insert P a [] p h = (p, tt)
  All-insert P a (b ∷ l) p h = elim (Bool-cases (ltb (ts_of b) (ts_of a))) [
    | inl e ↦ rw e (p, h)
    | inr e ↦ rw e (h.0, All-insert P a l p h.1)
  ]

  pub All-remove : (P : A → Type 0) (ts : ℕ) (l : List A) → All P l → Left (All P) (remove ts l)
  unfolding remove
  All-remove P ts [] h = tt
  All-remove P ts (a ∷ l) h = elim (Bool-cases (ts_of a == ts)) [
    | inl e ↦ rw e h.1
    | inr e ↦
        rw e (Left-cons (All P) (All P) a (remove ts l) (λ l' g. (h.0, g)) (All-remove P ts l h.1))
  ]

  pub count-insert :
      (ts : ℕ) (a : A) (l : List A)
      → count ts (insert a l) ≡ (if ts_of a == ts then 1 else 0) + count ts l
  unfolding insert count
  count-insert ts a [] = refl
  count-insert ts a (b ∷ l) = ground (arith, count-insert ts a l)

  pub length-insert : (a : A) (l : List A) → length (insert a l) ≡ length l + 1
  unfolding insert
  length-insert a [] = refl
  length-insert a (b ∷ l) = ground (arith, length-insert a l)

  -- `remove` takes one element with the timestamp, and throws only if there is none.
  abbrev pub IsTaken : ℕ → ℕ → List A → Option (List A) → Type 0
  IsTaken r ts l none = count ts l ≡ 0
  IsTaken r ts l (some l') =
      (count r l ≡ (if ts == r then 1 else 0) + count r l') × (length l ≡ length l' + 1)

  pub remove-IsTaken : (r ts : ℕ) (l : List A) → IsTaken r ts l (remove ts l)
  unfolding remove count
  remove-IsTaken r ts [] = refl
  remove-IsTaken r ts (a ∷ l) = elim (Bool-cases (ts_of a == ts)) [
    | inl e ↦ rw e (ground arith, ground arith)
    | inr e ↦ rw e (later (remove ts l) (remove-IsTaken r ts l) e)
  ]
    where
      later :
          (o : Option (List A))
          → IsTaken r ts l o
          → (ts_of a == ts) ≡ false
          → IsTaken r ts (a ∷ l) (Option.map (◌∷◌ a) o)
      later none h e = ground arith
      later (some l') h e = ground arith

  -- In a sorted list the back has the least timestamp.
  pub back-least : (l : List A) → IsSorted l → All (λ a. get_back_timestamp l ≤ ts_of a) l
  unfolding get_back_timestamp
  back-least [] f = tt
  back-least (a ∷ []) f = (omega arith, tt)
  back-least (a ∷ b ∷ l) f = let h = back-least (b ∷ l) f.1 in (omega (arith, h.0, f.0), h)

  pub count_of_missing : (ts : ℕ) (l : List A) → IsMissing ts l → count ts l ≡ 0
  unfolding count
  count_of_missing ts [] h = refl
  count_of_missing ts (a ∷ l) h = ground (arith, h.0, count_of_missing ts l h.1)

  pub IsMissing-of_count : (ts : ℕ) (l : List A) → count ts l ≡ 0 → IsMissing ts l
  unfolding count
  IsMissing-of_count ts [] h = tt
  IsMissing-of_count ts (a ∷ l) h = (ground arith, IsMissing-of_count ts l (ground arith))
