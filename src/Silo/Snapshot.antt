-- ===== src/Silo/Snapshot.antt =====
-- silo.hpp: what `get_record_pointer` returns, over the steps of `Silo.Threads`.
use tpcc_runner.Base.{
  ℕ, ◌+◌, ◌≤◌, ◌<◌, ◌≡◌, ◌⊎◌, inl, inr, refl, Bool, true, false, arith, sum_of, All, sym, subst, ap,
  Bool-cases, if◌then◌else◌,
}
use tpcc_runner.Silo.Word.{TidWord, IsWord, is_same, is_same_iff, bit, bit_bound}
use tpcc_runner.Silo.Threads.{
  Shared, Pc, idle, load, lock_load, holds, swapped, loaded, fetched, returned, lock_loaded,
  Request, get_record_pointer, lock, give_up, withdraw, exchange, store, read_loop, read_check,
  lock_loop, own_step, swapped_step, begin, step, IsAllowed, System,
}

-- Whether a thread has the lock, and whether it has exchanged the record.
abbrev pub holder : Pc → ℕ
holder holds = 1
holder swapped = 1
holder _ = 0

abbrev pub swapper : Pc → ℕ
swapper swapped = 1
swapper _ = 0

-- What a reader has fetched belongs to an older word, or to the last commit, or comes from a
-- writer that has not yet stored its word.
abbrev pub IsGood : TidWord → ℕ → ℕ → Pc → Type 0
IsGood w c n (loaded e) = IsWord e × (e.tid ≤ w.tid)
IsGood w c n (fetched e r) =
    IsWord e × (e.lock ≡ false) × (e.tid ≤ w.tid) × ((e.tid < w.tid) ⊎ ((r ≡ c) ⊎ (1 ≤ n)))
IsGood w c n (lock_loaded e) = IsWord e × (e.tid ≤ w.tid)
IsGood w c n _ = Unit {0}

pub record IsSound (s : System) : Type 0 where
  pub fits : IsWord s.shared.word
  pub locks : sum_of holder s.threads ≡ bit s.shared.word.lock
  pub settled : (s.shared.rec ≡ s.shared.committed) ⊎ (1 ≤ sum_of swapper s.threads)
  pub good : All (IsGood s.shared.word s.shared.committed (sum_of swapper s.threads)) s.threads

-- Either the number grows, or number and commit are the same and no exchanged record is taken back.
abbrev pub Moves : TidWord → ℕ → ℕ → TidWord → ℕ → ℕ → Type 0
Moves w c n w' c' n' = (w.tid < w'.tid) ⊎ ((w.tid ≡ w'.tid) × (c ≡ c') × (n ≤ n'))

pub IsGood-Moves :
    (w : TidWord) (c n : ℕ) (w' : TidWord) (c' n' : ℕ)
    → Moves w c n w' c' n'
    → (pc : Pc) → IsGood w c n pc
    → IsGood w' c' n' pc
IsGood-Moves w c n w' c' n' m pc g = ground arith

-- What one step of a thread does to the shared words, given the numbers of swappers and owners.
pub record Kept (pc : Pc) (s : Shared) (h n : ℕ) (r : Shared × Pc) : Type 0 where
  pub fits : IsWord r.0.word
  pub moves :
      (s.word.tid < r.0.word.tid)
      ⊎ ((s.word.tid ≡ r.0.word.tid) × (s.committed ≡ r.0.committed) × (swapper pc ≤ swapper r.1))
  pub locks : h + holder r.1 ≡ bit r.0.word.lock + holder pc
  pub settled : (r.0.rec ≡ r.0.committed) ⊎ (swapper pc + 1 ≤ n + swapper r.1)
  pub good : (m : ℕ) → m + swapper pc ≡ n + swapper r.1 → IsGood r.0.word r.0.committed m r.1

module _ (s : Shared) (h n : ℕ) where
  -- A step that changes nothing that is shared, by a thread that has not the lock.
  stays :
      (pc pc' : Pc)
      → IsWord s.word
      → h ≡ bit s.word.lock
      → (s.rec ≡ s.committed) ⊎ (1 ≤ n)
      → holder pc' ≡ holder pc
      → swapper pc' ≡ swapper pc
      → ((m : ℕ) → m ≡ n → IsGood s.word s.committed m pc')
      → Kept pc s h n (s, pc')
  stays pc pc' f l v a b g = record {
    fits = f;
    moves = inr (refl, refl, omega arith);
    locks = omega arith;
    settled = ground arith;
    good = λ m e. g m (omega arith);
  }

  module _ (f : IsWord s.word) (l : h ≡ bit s.word.lock) (v : (s.rec ≡ s.committed) ⊎ (1 ≤ n)) where
    begin-Kept : (r : Request) → Kept idle s h n (begin r s)
    unfolding begin
    begin-Kept get_record_pointer = stays idle load f l v refl refl (λ m e. tt)
    begin-Kept lock = stays idle lock_load f l v refl refl (λ m e. tt)
    begin-Kept give_up = stays idle idle f l v refl refl (λ m e. tt)
    begin-Kept withdraw = stays idle idle f l v refl refl (λ m e. tt)
    begin-Kept (exchange r) = stays idle idle f l v refl refl (λ m e. tt)
    begin-Kept (store w) = stays idle idle f l v refl refl (λ m e. tt)

    read_loop-Kept :
        (e : TidWord) → IsWord e → e.tid ≤ s.word.tid → Kept (loaded e) s h n (read_loop e s)
    unfolding read_loop
    read_loop-Kept e w t = elim (Bool-cases e.lock) [
      | inl b ↦
          subst
            (λ c. Kept (loaded e) s h n (if c then (s, loaded s.word) else (s, fetched e s.rec)))
            (sym b) (stays (loaded e) (loaded s.word) f l v refl refl (λ m i. (f, omega arith)))
      | inr b ↦
          subst
            (λ c. Kept (loaded e) s h n (if c then (s, loaded s.word) else (s, fetched e s.rec)))
            (sym b)
            (stays (loaded e) (fetched e s.rec) f l v refl refl
              (λ m i. (w, b, t, inr (ground arith))))
    ]

    read_check-Kept : (e : TidWord) (rec : ℕ) → Kept (fetched e rec) s h n (read_check e rec s)
    unfolding read_check
    read_check-Kept e rec = elim (Bool-cases (is_same s.word e)) [
      | inl b ↦
          subst
            (λ c.
              Kept (fetched e rec) s h n
                (if c then (s, returned rec s.word) else (s, loaded s.word)))
            (sym b) (stays (fetched e rec) (returned rec s.word) f l v refl refl (λ m i. tt))
      | inr b ↦
          subst
            (λ c.
              Kept (fetched e rec) s h n
                (if c then (s, returned rec s.word) else (s, loaded s.word)))
            (sym b)
            (stays (fetched e rec) (loaded s.word) f l v refl refl (λ m i. (f, omega arith)))
    ]

    lock-Kept :
        (e : TidWord)
        → IsWord e
        → e.lock ≡ false
        → s.word ≡ e
        → Kept (lock_loaded e) s h n (record s { word = record e { lock = true } }, holds)
    lock-Kept e w b same = record {
      fits = w;
      moves = inr (ap TidWord.tid same, refl, omega arith);
      locks = omega (arith, l, ap (λ u. bit (TidWord.lock u)) same, ap bit b);
      settled = ground arith;
      good = λ m i. tt;
    }

    lock_loop-Kept : (e : TidWord) → IsWord e → Kept (lock_loaded e) s h n (lock_loop e s)
    unfolding lock_loop
    lock_loop-Kept e w = by_tests e.lock refl (is_same s.word e) refl
      where
        by_tests :
            (b : Bool)
            → e.lock ≡ b
            → (c : Bool) → is_same s.word e ≡ c
            → Kept (lock_loaded e) s h n (
                if b
                then (s, lock_loaded s.word)
                else (if c
                    then (record s { word = record e { lock = true } }, holds)
                    else (s, lock_loaded s.word)))
        by_tests true d c g =
            stays (lock_loaded e) (lock_loaded s.word) f l v refl refl (λ m i. (f, omega arith))
        by_tests false d true g = lock-Kept e w d ((is_same_iff s.word e f w).0 g)
        by_tests false d false g =
            stays (lock_loaded e) (lock_loaded s.word) f l v refl refl (λ m i. (f, omega arith))

    own_step-Kept : 1 ≤ h → (r : Request) → IsAllowed r s → Kept holds s h n (own_step r s)
    unfolding own_step
    own_step-Kept o give_up a = record {
      fits = f;
      moves = inr (refl, refl, omega arith);
      locks = omega (arith, l, bit_bound s.word.lock);
      settled = ground arith;
      good = λ m i. tt;
    }
    own_step-Kept o withdraw a = record {
      fits = f;
      moves = inr (refl, refl, omega arith);
      locks = omega (arith, l, bit_bound s.word.lock);
      settled = ground arith;
      good = λ m i. tt;
    }
    own_step-Kept o (exchange rec) a = record {
      fits = f;
      moves = inr (refl, refl, omega arith);
      locks = omega (arith, l);
      settled = inr (omega arith);
      good = λ m i. tt;
    }
    own_step-Kept o get_record_pointer a = stays holds holds f l v refl refl (λ m i. tt)
    own_step-Kept o lock a = stays holds holds f l v refl refl (λ m i. tt)
    own_step-Kept o (store w) a = stays holds holds f l v refl refl (λ m i. tt)

    swapped_step-Kept :
        1 ≤ h → (r : Request) → IsAllowed r s → Kept swapped s h n (swapped_step r s)
    unfolding swapped_step
    swapped_step-Kept o (store w) a = record {
      fits = a.1;
      moves = inl a.0;
      locks = omega (arith, l, bit_bound s.word.lock);
      settled = inl refl;
      good = λ m i. tt;
    }
    swapped_step-Kept o give_up a = stays swapped swapped f l v refl refl (λ m i. tt)
    swapped_step-Kept o withdraw a = stays swapped swapped f l v refl refl (λ m i. tt)
    swapped_step-Kept o (exchange rec) a = stays swapped swapped f l v refl refl (λ m i. tt)
    swapped_step-Kept o get_record_pointer a = stays swapped swapped f l v refl refl (λ m i. tt)
    swapped_step-Kept o lock a = stays swapped swapped f l v refl refl (λ m i. tt)

    pub step-Kept :
        (pc : Pc) (r : Request)
        → IsAllowed r s
        → holder pc ≤ h
        → IsGood s.word s.committed n pc
        → Kept pc s h n (step pc r s)
    unfolding step
    step-Kept idle r a o g = begin-Kept r
    step-Kept load r a o g = stays load (loaded s.word) f l v refl refl (λ m i. (f, omega arith))
    step-Kept (loaded e) r a o g = read_loop-Kept e g.0 g.1
    step-Kept (fetched e rec) r a o g = read_check-Kept e rec
    step-Kept (returned rec tw) r a o g = stays (returned rec tw) idle f l v refl refl (λ m i. tt)
    step-Kept lock_load r a o g =
        stays lock_load (lock_loaded s.word) f l v refl refl (λ m i. (f, omega arith))
    step-Kept (lock_loaded e) r a o g = lock_loop-Kept e g.0
    step-Kept holds r a o g = own_step-Kept o r a
    step-Kept swapped r a o g = swapped_step-Kept o r a
