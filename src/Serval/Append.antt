-- ===== src/Serval/Append.antt =====
-- serval/include/row_region.hpp: an append to a region, for a transaction after those that its core
-- has appended in the epoch.
use tpcc_runner.Base.{
  ℕ, zero, suc, ◌+◌, ◌<◌, ◌≡◌, ◌≢◌, refl, sym, ap, ◌∙◌, Bool, true, false, Option, none, some, List,
  [], ◌∷◌, ◌++◌, length, set, replicate, arith, Bool-cases, inl, inr, ◌⊎◌,
}
use tpcc_runner.Serval.Bitmap.{Bits, count_bits}
use tpcc_runner.Serval.Bits.{bit, later, last_set}
use tpcc_runner.Serval.Find.{set_bit_in_lem}
use tpcc_runner.Serval.Vector.{insert_at}
use tpcc_runner.Serval.CoreArray
use tpcc_runner.Serval.CoreArray.{PerCoreVersionArray, new_array}
use tpcc_runner.Serval.Rank.{entries}
use tpcc_runner.Serval.Cores.{IsArray, IsUsed}

-- Every position set is before p.
abbrev pub SetBefore : ℕ → Bits → Type 0
SetBefore p bs = (q : ℕ) → bit bs q ≡ true → q < p

SetBefore-tail : (p : ℕ) (b : Bool) (bs : Bits) → SetBefore (suc p) (b ∷ bs) → SetBefore p bs
SetBefore-tail p b bs h q k = omega (arith, h (suc q) k)

no_bits :
    (bs : Bits)
    → SetBefore 0 bs
    → (count_bits bs ≡ 0) × ((i : ℕ) (vs : List ℕ) → entries i bs vs ≡ [])
unfolding count_bits entries
no_bits [] h = (refl, λ i vs. refl)
no_bits (true ∷ bs) h = absurd (omega (arith, h 0 refl))
no_bits (false ∷ bs) h =
    let rest = no_bits bs (λ q k. absurd (omega (arith, h (suc q) k))) in
    (omega (arith, rest.0), λ i vs. rest.1 (suc i) vs)

pub length-set : {A : Type 0} (xs : List A) (i : ℕ) (a : A) → length (set xs i a) ≡ length xs
length-set [] i a = refl
length-set (x ∷ xs) zero a = refl
length-set (x ∷ xs) (suc i) a = ap suc (length-set xs i a)

length-insert_at :
    {A : Type 0} (i : ℕ) (a : A) (xs : List A) → length (insert_at i a xs) ≡ suc (length xs)
unfolding insert_at
length-insert_at zero a xs = refl
length-insert_at (suc i) a [] = refl
length-insert_at (suc i) a (x ∷ xs) = ap suc (length-insert_at i a xs)

count_bits-set :
    (bs : Bits) (p : ℕ)
    → p < length bs
    → bit bs p ≡ false
    → count_bits (set bs p true) ≡ suc (count_bits bs)
unfolding count_bits
count_bits-set [] p h e = absurd (omega (arith, h))
count_bits-set (b ∷ bs) zero h e = ground (arith, e)
count_bits-set (b ∷ bs) (suc p) h e = omega (arith, count_bits-set bs p (omega (arith, h)) e)

later-some : (b : Bool) (o : Option ℕ) → o ≢ none → later b o ≢ none
later-some b none h e = h refl
later-some b (some i) h e = absurd (ground (arith, e))

later-set : (o : Option ℕ) → later true o ≢ none
later-set none e = absurd (ground (arith, e))
later-set (some i) e = absurd (ground (arith, e))

last_set-set : (bs : Bits) (p : ℕ) → p < length bs → last_set (set bs p true) ≢ none
last_set-set [] p h = absurd (omega (arith, h))
last_set-set (b ∷ bs) zero h = later-set (last_set bs)
last_set-set (b ∷ bs) (suc p) h =
    later-some b (last_set (set bs p true)) (last_set-set bs p (omega (arith, h)))

pub bit-zeros : (n q : ℕ) → bit (replicate n false) q ≡ false
bit-zeros zero q = refl
bit-zeros (suc n) zero = refl
bit-zeros (suc n) (suc q) = bit-zeros n q

pub set-same : (bs : Bits) (p : ℕ) → bit bs p ≡ true → set bs p true ≡ bs
set-same [] p h = refl
set-same (b ∷ bs) zero h = ap (λ c. c ∷ bs) (sym h)
set-same (b ∷ bs) (suc p) h = ap (λ cs. b ∷ cs) (set-same bs p h)

pub bit-set : (bs : Bits) (p q : ℕ) → bit (set bs p true) q ≡ true → (q ≡ p) ⊎ (bit bs q ≡ true)
bit-set [] p q h = inr h
bit-set (b ∷ bs) zero zero h = inl refl
bit-set (b ∷ bs) zero (suc q) h = inr h
bit-set (b ∷ bs) (suc p) zero h = inr h
bit-set (b ∷ bs) (suc p) (suc q) h = elim (bit-set bs p q h) [
  | inl e ↦ inl (ap suc e)
  | inr e ↦ inr e
]

-- A version behind all others of its core is the last of the entries.
entries-set :
    (i p v : ℕ) (bs : Bits) (vs : List ℕ)
    → p < length bs
    → SetBefore p bs
    → count_bits bs ≡ length vs
    → entries i (set bs p true) (insert_at (count_bits bs) v vs)
      ≡ entries i bs vs ++ (i + p, v) ∷ []
unfolding entries count_bits insert_at
entries-set i p v [] vs h f e = absurd (omega (arith, h))
entries-set i zero v (true ∷ bs) vs h f e = absurd (omega (arith, f 0 refl))
entries-set i zero v (false ∷ bs) (w ∷ vs) h f e =
    absurd (omega (arith, e, (no_bits (false ∷ bs) f).0))
entries-set i zero v (false ∷ bs) [] h f e =
    let clear = no_bits bs (λ q k. absurd (omega (arith, f (suc q) k))) in
    let place : i + 0 ≡ i = omega arith in rw (clear.0, clear.1 (suc i) [], place) refl
entries-set i (suc p) v (true ∷ bs) [] h f e = absurd (omega (arith, e))
entries-set i (suc p) v (true ∷ bs) (w ∷ vs) h f e =
    let place : i + suc p ≡ suc i + p = omega arith in
    let index : 1 + count_bits bs ≡ suc (count_bits bs) = omega arith in
    rw (place, index)
      (ap (λ r. (i, w) ∷ r)
        (entries-set (suc i) p v bs vs (omega (arith, h)) (SetBefore-tail p true bs f)
          (omega (arith, e))))
entries-set i (suc p) v (false ∷ bs) vs h f e =
    let place : i + suc p ≡ suc i + p = omega arith in
    let index : 0 + count_bits bs ≡ count_bits bs = omega arith in
    rw (place, index)
      (entries-set (suc i) p v bs vs (omega (arith, h)) (SetBefore-tail p false bs f)
        (omega (arith, e)))

-- The array with one more version.
pub append-IsUsed :
    (v p : ℕ) (a : PerCoreVersionArray)
    → IsArray a
    → p < 64
    → SetBefore p a.transaction_bitmap
    → IsUsed (CoreArray.append v p a)
unfolding CoreArray.append CoreArray.update_transaction_bitmap CoreArray.size
append-IsUsed v p a w le f =
    let bs = a.transaction_bitmap in
    let in_word : p < length bs = omega (arith, w.0, le) in
    let clear : bit bs p ≡ false = elim (Bool-cases (bit bs p)) [
      | inl b ↦ absurd (omega (arith, f p b))
      | inr b ↦ b
    ] in
    rw (set_bit_in_lem bs p w.0 le) (
      (
        length-set bs p true ∙ w.0,
        count_bits-set bs p in_word clear
            ∙ ap suc w.1
            ∙ sym (length-insert_at (count_bits bs) v a.slots),
      ),
      last_set-set bs p in_word,
    )

pub append-entries :
    (i v p : ℕ) (a : PerCoreVersionArray)
    → IsArray a
    → p < 64
    → SetBefore p a.transaction_bitmap
    → (let b = CoreArray.append v p a in entries i b.transaction_bitmap b.slots)
      ≡ entries i a.transaction_bitmap a.slots ++ (i + p, v) ∷ []
unfolding CoreArray.append CoreArray.update_transaction_bitmap CoreArray.size
append-entries i v p a w le f =
    rw (set_bit_in_lem a.transaction_bitmap p w.0 le)
      (entries-set i p v a.transaction_bitmap a.slots (omega (arith, w.0, le)) f w.1)
