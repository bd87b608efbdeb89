-- ===== src/Serval/Find.antt =====
-- utils/bitmap.hpp: what the searches of a bitmap find.
use tpcc_runner.Base.{
  ℕ, zero, suc, ◌+◌, ◌-◌, ◌<◌, ◌≡◌, refl, sym, ap, ◌∙◌, Bool, true, false, Option, none, some, [],
  ◌∷◌, length, set, replicate, ◌==◌, if◌then◌else◌, arith, inl, inr, ◌⊎◌,
}
use tpcc_runner.Serval.Bitmap.{
  Bits, complement, bit_and, is_nonzero, count_bits, set_bit_at_the_given_location, set_bit_in,
  is_bit_set_at_the_position, find_the_largest, find_the_largest_among_less_than,
  find_the_largest_among_or_less_than, find_the_two_largest_among_or_less_than,
}
use tpcc_runner.Serval.Bits.{
  bit, keep, later, last_set, single, fill_until_lem, fill_before_lem, single_lem, bit_and-ones,
  bit_and-single, bit_or-single, IsLast, IsZero, word_cases,
}

pub length-keep : (n : ℕ) (bs : Bits) → length (keep n bs) ≡ length bs
length-keep n [] = refl
length-keep zero (b ∷ bs) = ap suc (length-keep zero bs)
length-keep (suc n) (b ∷ bs) = ap suc (length-keep n bs)

pub is_bit_set_lem :
    (bs : Bits) (pos : ℕ)
    → length bs ≡ 64
    → pos < 64
    → is_bit_set_at_the_position bs pos ≡ bit bs pos
unfolding is_bit_set_at_the_position
is_bit_set_lem bs pos e le =
    rw (single_lem pos le) (bit_and-single pos (63 - pos) bs (omega (arith, e, le)))

pub set_bit_in_lem :
    (bs : Bits) (pos : ℕ) → length bs ≡ 64 → pos < 64 → set_bit_in bs pos ≡ set bs pos true
unfolding set_bit_in
set_bit_in_lem bs pos e le =
    rw (single_lem pos le) (bit_or-single pos (63 - pos) bs (omega (arith, e, le)))

pub find_the_largest_lem :
    (bs : Bits) (i : ℕ) → length bs ≡ 64 → last_set bs ≡ some i → find_the_largest bs ≡ i
unfolding find_the_largest
find_the_largest_lem bs i e h = by_cases (word_cases bs)
  where
    by_cases : IsZero bs ⊎ ((j : ℕ) × IsLast bs j) → find_the_largest bs ≡ i
    by_cases (inl z) = absurd (ground (arith, z, h))
    by_cases (inr (j, l)) = ground (arith, l, h, e)

-- The searches all read the largest of the positions that a mask keeps.
largest_of :
    (bs : Bits)
    → length bs ≡ 64
    → (if is_nonzero bs then some (find_the_largest bs) else none) ≡ last_set bs
largest_of bs e = by_cases (word_cases bs)
  where
    by_cases :
        IsZero bs ⊎ ((j : ℕ) × IsLast bs j)
        → (if is_nonzero bs then some (find_the_largest bs) else none) ≡ last_set bs
    by_cases (inl z) = rw (z.0, z.2) refl
    by_cases (inr (j, l)) = rw (l.0, l.3, find_the_largest_lem bs j e l.0) refl

pub among_less_than_lem :
    (bs : Bits) (pos : ℕ)
    → length bs ≡ 64
    → pos < 64
    → find_the_largest_among_less_than bs pos ≡ last_set (keep pos bs)
unfolding find_the_largest_among_less_than
among_less_than_lem bs pos e le =
    rw (fill_before_lem pos le, bit_and-ones pos (64 - pos) bs (omega (arith, e, le)))
      (largest_of (keep pos bs) (length-keep pos bs ∙ e))

pub among_or_less_than_lem :
    (bs : Bits) (pos : ℕ)
    → length bs ≡ 64
    → pos < 64
    → find_the_largest_among_or_less_than bs pos ≡ last_set (keep (suc pos) bs)
unfolding find_the_largest_among_or_less_than
among_or_less_than_lem bs pos e le =
    rw (fill_until_lem pos le, bit_and-ones (suc pos) (63 - pos) bs (omega (arith, e, le)))
      (largest_of (keep (suc pos) bs) (length-keep (suc pos) bs ∙ e))

-- What the last position of a longer word says of the shorter one.
later-none : (b : Bool) (o : Option ℕ) → later b o ≡ none → (b ≡ false) × (o ≡ none)
later-none true none h = absurd (ground (arith, h))
later-none true (some i) h = absurd (ground (arith, h))
later-none false none h = (refl, refl)
later-none false (some i) h = absurd (ground (arith, h))

pub later-zero : (b : Bool) (o : Option ℕ) → later b o ≡ some 0 → (b ≡ true) × (o ≡ none)
later-zero true none h = (refl, refl)
later-zero true (some i) h = absurd (ground (arith, h))
later-zero false none h = absurd (ground (arith, h))
later-zero false (some i) h = absurd (ground (arith, h))

pub later-suc : (b : Bool) (o : Option ℕ) (i : ℕ) → later b o ≡ some (suc i) → o ≡ some i
later-suc true none i h = absurd (ground (arith, h))
later-suc true (some j) i h = ground (arith, h)
later-suc false none i h = absurd (ground (arith, h))
later-suc false (some j) i h = ground (arith, h)

-- A word with nothing set is all zeros.
pub keep-none : (n : ℕ) (bs : Bits) → last_set bs ≡ none → keep n bs ≡ bs
keep-none n [] h = refl
keep-none zero (b ∷ bs) h =
    let e = later-none b (last_set bs) h in rw e.0 (ap (λ cs. false ∷ cs) (keep-none zero bs e.1))
keep-none (suc n) (b ∷ bs) h = ap (λ cs. b ∷ cs) (keep-none n bs (later-none b (last_set bs) h).1)

count_bits-none : (bs : Bits) → last_set bs ≡ none → count_bits bs ≡ 0
unfolding count_bits
count_bits-none [] h = refl
count_bits-none (b ∷ bs) h =
    let e = later-none b (last_set bs) h in ground (arith, e.0, count_bits-none bs e.1)

bit_and-all : (c : ℕ) (bs : Bits) → length bs ≡ c → bit_and (complement (replicate c false)) bs ≡ bs
unfolding bit_and complement
bit_and-all zero [] e = refl
bit_and-all zero (b ∷ bs) e = absurd (omega (arith, e))
bit_and-all (suc c) [] e = refl
bit_and-all (suc c) (true ∷ bs) e = ap (λ cs. true ∷ cs) (bit_and-all c bs (omega (arith, e)))
bit_and-all (suc c) (false ∷ bs) e = ap (λ cs. false ∷ cs) (bit_and-all c bs (omega (arith, e)))

-- Without its last position, a word keeps what is before that position.
bit_and-complement :
    (bs : Bits) (i c : ℕ)
    → length bs ≡ i + suc c
    → last_set bs ≡ some i
    → bit_and (complement (single i c)) bs ≡ keep i bs
unfolding bit_and complement
bit_and-complement [] i c e h = absurd (omega (arith, e))
bit_and-complement (b ∷ bs) zero c e h =
    let l = later-zero b (last_set bs) h in
    ap (λ cs. false ∷ cs) (bit_and-all c bs (omega (arith, e)) ∙ sym (keep-none zero bs l.1))
bit_and-complement (b ∷ bs) (suc i) c e h =
    ap (λ cs. b ∷ cs) (bit_and-complement bs i c (omega (arith, e)) (later-suc b (last_set bs) i h))

-- One position alone is set when nothing is before the last.
count_bits-last :
    (bs : Bits) (i : ℕ) → last_set bs ≡ some i → count_bits bs ≡ suc (count_bits (keep i bs))
unfolding count_bits
count_bits-last [] i h = absurd (ground (arith, h))
count_bits-last (b ∷ bs) zero h =
    let l = later-zero b (last_set bs) h in
    ground (arith, l.0, count_bits-none bs l.1, ap count_bits (keep-none zero bs l.1))
count_bits-last (b ∷ bs) (suc i) h =
    omega (arith, count_bits-last bs i (later-suc b (last_set bs) i h))

-- The last position of a word that stands before a given one.
abbrev pub last_before : Option ℕ → Bits → Option ℕ
last_before none bs = none
last_before (some i) bs = last_set (keep i bs)

abbrev two_with : ℕ → Bits → Option ℕ × Option ℕ
two_with i bs = if count_bits bs == 1 then (none, some i) else (
  some (find_the_largest (bit_and (complement (set_bit_at_the_given_location i)) bs)),
  some i,
)

abbrev two_in : Bits → Option ℕ × Option ℕ
two_in bs = if is_nonzero bs then two_with (find_the_largest bs) bs else (none, none)

abbrev pub two_before : Bits → Option ℕ × Option ℕ
two_before bs = (last_before (last_set bs) bs, last_set bs)

two_of : (bs : Bits) → length bs ≡ 64 → two_in bs ≡ two_before bs
two_of bs e = by_cases (word_cases bs)
  where
    by_second :
        (i : ℕ)
        → i < 64
        → last_set bs ≡ some i
        → (o : Option ℕ) → last_set (keep i bs) ≡ o
        → two_with i bs ≡ (o, some i)
    by_second i le l none h =
        let one : (count_bits bs == 1) ≡ true =
          ground (arith, count_bits-last bs i l, count_bits-none (keep i bs) h) in
        rw one refl
    by_second i le l (some j) h =
        let many : (count_bits bs == 1) ≡ false =
          ground (arith, count_bits-last bs i l, count_bits-last (keep i bs) j h) in
        rw
          (
            many,
            single_lem i le,
            bit_and-complement bs i (63 - i) (omega (arith, le, e)) l,
            find_the_largest_lem (keep i bs) j (length-keep i bs ∙ e) h,
          )
          refl

    by_cases : IsZero bs ⊎ ((i : ℕ) × IsLast bs i) → two_in bs ≡ two_before bs
    by_cases (inl z) = rw (z.0, z.2) refl
    by_cases (inr (i, l)) =
        rw (l.0, l.3, find_the_largest_lem bs i e l.0)
          (by_second i (omega (arith, l.2, e)) l.0 (last_set (keep i bs)) refl)

pub two_largest_lem :
    (bs : Bits) (pos : ℕ)
    → length bs ≡ 64
    → pos < 64
    → find_the_two_largest_among_or_less_than bs pos ≡ two_before (keep (suc pos) bs)
unfolding find_the_two_largest_among_or_less_than
two_largest_lem bs pos e le =
    rw (fill_until_lem pos le, bit_and-ones (suc pos) (63 - pos) bs (omega (arith, e, le)))
      (two_of (keep (suc pos) bs) (length-keep (suc pos) bs ∙ e))
