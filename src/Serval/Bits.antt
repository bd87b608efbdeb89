-- ===== src/Serval/Bits.antt =====
-- What the words of utils/bitmap.hpp are, position by position.
use tpcc_runner.Base.{
  ℕ, zero, suc, ◌+◌, ◌-◌, ◌<◌, ◌≡◌, refl, ap, ◌∙◌, Bool, true, false, Option, none, some, [], ◌∷◌,
  ◌++◌, length, replicate, set, ◌==◌, if◌then◌else◌, arith, inl, inr, ◌⊎◌,
}
use tpcc_runner.Serval.Bitmap.{
  Bits, complement, bit_and, bit_or, shift_in, shift_right, is_nonzero,
  find_the_location_of_first_bit_from_right, set_upper_bit, set_bit_at_the_given_location,
  fill_the_left_side_until_before_the_given_position, fill_the_left_side_until_the_given_position,
}

-- The bit at a position; beyond the word there is none set.
abbrev pub bit : Bits → ℕ → Bool
bit [] i = false
bit (b ∷ bs) zero = b
bit (b ∷ bs) (suc i) = bit bs i

-- The word with only its first positions kept.
abbrev pub keep : ℕ → Bits → Bits
keep n [] = []
keep zero (b ∷ bs) = false ∷ keep zero bs
keep (suc n) (b ∷ bs) = b ∷ keep n bs

abbrev pub later : Bool → Option ℕ → Option ℕ
later b none = if b then some 0 else none
later b (some i) = some (suc i)

-- The last position that is set.
abbrev pub last_set : Bits → Option ℕ
last_set [] = none
last_set (b ∷ bs) = later b (last_set bs)

-- The words that the masks are: ones and then zeros, and a single one.
abbrev pub ones : ℕ → ℕ → Bits
ones a c = replicate a true ++ replicate c false

abbrev pub single : ℕ → ℕ → Bits
single a c = replicate a false ++ true ∷ replicate c false

shift_in-zeros : (c : ℕ) → shift_in false (replicate c false) ≡ replicate c false
unfolding shift_in
shift_in-zeros zero = refl
shift_in-zeros (suc c) = ap (λ bs. false ∷ bs) (shift_in-zeros c)

shift_in-ones : (a c : ℕ) → shift_in true (ones a (suc c)) ≡ ones (suc a) c
unfolding shift_in
shift_in-ones zero c = ap (λ bs. true ∷ bs) (shift_in-zeros c)
shift_in-ones (suc a) c = ap (λ bs. true ∷ bs) (shift_in-ones a c)

shift_in-single : (a c : ℕ) → shift_in false (single a (suc c)) ≡ single (suc a) c
unfolding shift_in
shift_in-single zero c = ap (λ bs. false ∷ true ∷ bs) (shift_in-zeros c)
shift_in-single (suc a) c = ap (λ bs. false ∷ bs) (shift_in-single a c)

shift_right-ones : (n m c : ℕ) → m ≡ n + c → shift_right true n (ones 1 m) ≡ ones (suc n) c
unfolding shift_right
shift_right-ones zero m c e = ap (ones 1) (omega (arith, e))
shift_right-ones (suc n) m c e =
    ap (shift_in true) (shift_right-ones n m (suc c) (omega (arith, e))) ∙ shift_in-ones (suc n) c

shift_right-single : (n m c : ℕ) → m ≡ n + c → shift_right false n (single 0 m) ≡ single n c
unfolding shift_right
shift_right-single zero m c e = ap (single 0) (omega (arith, e))
shift_right-single (suc n) m c e =
    ap (shift_in false) (shift_right-single n m (suc c) (omega (arith, e))) ∙ shift_in-single n c

set_upper_bit_lem : set_upper_bit ≡ single 0 63
unfolding set_upper_bit complement shift_right shift_in
set_upper_bit_lem = refl

-- The masks, for a position in the word.
pub fill_until_lem :
    (pos : ℕ)
    → pos < 64
    → fill_the_left_side_until_the_given_position pos ≡ ones (suc pos) (63 - pos)
unfolding fill_the_left_side_until_the_given_position
fill_until_lem pos le =
    rw set_upper_bit_lem (shift_right-ones pos 63 (63 - pos) (omega (arith, le)))

pub fill_before_lem :
    (pos : ℕ)
    → pos < 64
    → fill_the_left_side_until_before_the_given_position pos ≡ ones pos (64 - pos)
unfolding fill_the_left_side_until_before_the_given_position
fill_before_lem zero le = refl
fill_before_lem (suc pos) le =
    let same : suc pos - 1 ≡ pos = omega arith in
    let rest : 63 - pos ≡ 64 - suc pos = omega arith in
    let positive : (suc pos == 0) ≡ false = ground arith in
    rw (set_upper_bit_lem, positive, same)
      (shift_right-ones pos 63 (63 - pos) (omega (arith, le)) ∙ ap (ones (suc pos)) rest)

pub single_lem : (pos : ℕ) → pos < 64 → set_bit_at_the_given_location pos ≡ single pos (63 - pos)
unfolding set_bit_at_the_given_location
single_lem pos le = rw set_upper_bit_lem (shift_right-single pos 63 (63 - pos) (omega (arith, le)))

-- A mask of ones keeps a prefix; a single one reads, or sets, one position.
bit_and-zeros : (c : ℕ) (bs : Bits) → length bs ≡ c → bit_and bs (replicate c false) ≡ keep 0 bs
unfolding bit_and
bit_and-zeros c [] e = refl
bit_and-zeros zero (b ∷ bs) e = absurd (omega (arith, e))
bit_and-zeros (suc c) (true ∷ bs) e = ap (λ r. false ∷ r) (bit_and-zeros c bs (omega (arith, e)))
bit_and-zeros (suc c) (false ∷ bs) e = ap (λ r. false ∷ r) (bit_and-zeros c bs (omega (arith, e)))

pub bit_and-ones : (a c : ℕ) (bs : Bits) → length bs ≡ a + c → bit_and bs (ones a c) ≡ keep a bs
unfolding bit_and
bit_and-ones a c [] e = refl
bit_and-ones zero c (b ∷ bs) e = bit_and-zeros c (b ∷ bs) (omega (arith, e))
bit_and-ones (suc a) c (true ∷ bs) e = ap (λ r. true ∷ r) (bit_and-ones a c bs (omega (arith, e)))
bit_and-ones (suc a) c (false ∷ bs) e = ap (λ r. false ∷ r) (bit_and-ones a c bs (omega (arith, e)))

is_nonzero-keep_zero : (bs : Bits) → is_nonzero (keep 0 bs) ≡ false
unfolding is_nonzero
is_nonzero-keep_zero [] = refl
is_nonzero-keep_zero (b ∷ bs) = is_nonzero-keep_zero bs

pub bit_and-single :
    (a c : ℕ) (bs : Bits) → length bs ≡ a + suc c → is_nonzero (bit_and bs (single a c)) ≡ bit bs a
unfolding bit_and is_nonzero
bit_and-single a c [] e = absurd (omega (arith, e))
bit_and-single zero c (true ∷ bs) e = refl
bit_and-single zero c (false ∷ bs) e =
    ap is_nonzero (bit_and-zeros c bs (omega (arith, e))) ∙ is_nonzero-keep_zero bs
bit_and-single (suc a) c (true ∷ bs) e = bit_and-single a c bs (omega (arith, e))
bit_and-single (suc a) c (false ∷ bs) e = bit_and-single a c bs (omega (arith, e))

bit_or-zeros : (c : ℕ) (bs : Bits) → length bs ≡ c → bit_or bs (replicate c false) ≡ bs
unfolding bit_or
bit_or-zeros c [] e = refl
bit_or-zeros zero (b ∷ bs) e = absurd (omega (arith, e))
bit_or-zeros (suc c) (true ∷ bs) e = ap (λ r. true ∷ r) (bit_or-zeros c bs (omega (arith, e)))
bit_or-zeros (suc c) (false ∷ bs) e = ap (λ r. false ∷ r) (bit_or-zeros c bs (omega (arith, e)))

pub bit_or-single :
    (a c : ℕ) (bs : Bits) → length bs ≡ a + suc c → bit_or bs (single a c) ≡ set bs a true
unfolding bit_or
bit_or-single a c [] e = refl
bit_or-single zero c (true ∷ bs) e = ap (λ r. true ∷ r) (bit_or-zeros c bs (omega (arith, e)))
bit_or-single zero c (false ∷ bs) e = ap (λ r. true ∷ r) (bit_or-zeros c bs (omega (arith, e)))
bit_or-single (suc a) c (true ∷ bs) e = ap (λ r. true ∷ r) (bit_or-single a c bs (omega (arith, e)))
bit_or-single (suc a) c (false ∷ bs) e =
    ap (λ r. false ∷ r) (bit_or-single a c bs (omega (arith, e)))

-- The first bit from the right is the last position set.
abbrev pub IsLast : Bits → ℕ → Type 0
IsLast bs i =
    (last_set bs ≡ some i)
    × (i + find_the_location_of_first_bit_from_right bs ≡ length bs)
    × (i < length bs)
    × (is_nonzero bs ≡ true)

abbrev pub IsZero : Bits → Type 0
IsZero bs =
    (last_set bs ≡ none)
    × (find_the_location_of_first_bit_from_right bs ≡ 0)
    × (is_nonzero bs ≡ false)

pub word_cases : (bs : Bits) → IsZero bs ⊎ ((i : ℕ) × IsLast bs i)
unfolding find_the_location_of_first_bit_from_right is_nonzero
word_cases [] = inl (refl, refl, refl)
word_cases (b ∷ bs) = by_bit b (word_cases bs)
  where
    by_bit :
        (c : Bool)
        → IsZero bs ⊎ ((i : ℕ) × IsLast bs i)
        → IsZero (c ∷ bs) ⊎ ((i : ℕ) × IsLast (c ∷ bs) i)
    by_bit true (inl z) = inr (0, ground (arith, z))
    by_bit false (inl z) = inl (ground (arith, z))
    by_bit true (inr (i, l)) = inr (suc i, ground (arith, l))
    by_bit false (inr (i, l)) = inr (suc i, ground (arith, l))
