-- ===== src/Silo/Atomic.antt =====
-- silo.hpp: `get_record_pointer` reads a record and a word at one time, whatever the others do.
use tpcc_runner.Base.{
  ℕ, ◌+◌, ◌≤◌, ◌≡◌, ◌⊎◌, inl, inr, refl, Bool, true, false, some, List, [], ◌∷◌, arith, get_elem?,
  set, sum_of, sum_of-set, weight-le-sum_of, weights-le-sum_of, ◌≢◌, All-map, All-set,
  All-get_elem?, sym, subst, ap, ◌∙◌, Bool-cases, if◌then◌else◌, replicate, sum_of-replicate,
  All-replicate,
}
use mathlib.Core.Bool.{true≢false}
use tpcc_runner.Silo.Word.{TidWord, IsWord, is_same, is_same_iff, bit, bit_bound}
use tpcc_runner.Silo.Threads.{
  Shared, Pc, idle, loaded, fetched, returned, Request, read_check, step, System, after, Step, move,
  Reach, here, next,
}
use tpcc_runner.Silo.Snapshot.{
  holder, swapper, IsGood, IsSound, Moves, IsGood-Moves, Kept, step-Kept,
}

swapper-le-holder : (pc : Pc) → swapper pc ≤ holder pc
swapper-le-holder pc = ground arith

swappers-le-holders : (l : List Pc) → sum_of swapper l ≤ sum_of holder l
unfolding sum_of
swappers-le-holders [] = omega arith
swappers-le-holders (pc ∷ l) = omega (arith, swapper-le-holder pc, swappers-le-holders l)

Kept-IsSound :
    (s : System) (i : ℕ) (pc : Pc) (q : Shared × Pc)
    → IsSound s
    → get_elem? s.threads i ≡ some pc
    → Kept pc s.shared (sum_of holder s.threads) (sum_of swapper s.threads) q
    → IsSound (after s i q)
Kept-IsSound s i pc (sh, pc') v at k =
    let n = sum_of swapper s.threads in
    let m = sum_of swapper (set s.threads i pc') in
    let swaps : m + swapper pc ≡ n + swapper pc' = sum_of-set swapper s.threads i pc' at in
    let settled : (sh.rec ≡ sh.committed) ⊎ (1 ≤ m) = ground (arith, k.settled, swaps) in
    let moves : Moves s.shared.word s.shared.committed n sh.word sh.committed m =
      ground (arith, k.moves, swaps) in
    record {
      fits = k.fits;
      locks = omega (arith, k.locks, v.locks, sum_of-set holder s.threads i pc' at);
      settled = settled;
      good =
          All-set (IsGood sh.word sh.committed m) s.threads i pc'
            (All-map (IsGood s.shared.word s.shared.committed n) (IsGood sh.word sh.committed m)
              (IsGood-Moves s.shared.word s.shared.committed n sh.word sh.committed m moves)
              s.threads v.good)
            (k.good m swaps);
    }

-- Every step of every thread keeps the value sound.
pub Step-IsSound : {s t : System} → Step s t → IsSound s → IsSound t
Step-IsSound {s} {t} (move i r pc at a e) v = subst IsSound (sym e) (
    Kept-IsSound s i pc (step pc r s.shared) v at (
      step-Kept s.shared (sum_of holder s.threads) (sum_of swapper s.threads) v.fits v.locks
        v.settled pc r a (weight-le-sum_of holder s.threads i at)
        (All-get_elem? (IsGood s.shared.word s.shared.committed (sum_of swapper s.threads))
          s.threads i v.good at)))

Reach-IsSound : {s t : System} → IsSound s → Reach s t → IsSound t
Reach-IsSound v here = v
Reach-IsSound v (next r st) = Step-IsSound st (Reach-IsSound v r)

-- n threads at the start of a program, and a value that nobody has locked.
abbrev pub fresh : ℕ → TidWord → ℕ → System
fresh n w rec = record {
  shared = record { word = w; rec = rec; committed = rec };
  threads = replicate n idle;
}

fresh-IsSound :
    (n : ℕ) (w : TidWord) (rec : ℕ) → IsWord w → w.lock ≡ false → IsSound (fresh n w rec)
fresh-IsSound n w rec f e = record {
  fits = f;
  locks = sum_of-replicate holder n idle refl ∙ ap bit (sym e);
  settled = inl refl;
  good = All-replicate (IsGood w rec (sum_of swapper (replicate n idle))) n idle tt;
}

-- What a reader compares at its last load.
check-atomic :
    (s : System) (i : ℕ) (e : TidWord) (rec : ℕ)
    → IsSound s
    → get_elem? s.threads i ≡ some (fetched e rec)
    → is_same s.shared.word e ≡ true
    → (s.shared.word.lock ≡ false) × (s.shared.rec ≡ rec) × (s.shared.committed ≡ rec)
check-atomic s i e rec v at same =
    let g =
      All-get_elem? (IsGood s.shared.word s.shared.committed (sum_of swapper s.threads)) s.threads i
        v.good at in
    let eq : s.shared.word ≡ e = (is_same_iff s.shared.word e v.fits g.0).0 same in
    let free : s.shared.word.lock ≡ false = ap TidWord.lock eq ∙ g.1 in
    let nobody : sum_of swapper s.threads ≡ 0 =
      omega (arith, v.locks, ap bit free, swappers-le-holders s.threads) in
    let mine : rec ≡ s.shared.committed = ground (arith, g.3, nobody, ap TidWord.tid eq) in
    let there : s.shared.rec ≡ s.shared.committed = ground (arith, v.settled, nobody) in
    (free, there ∙ sym mine, sym mine)

abbrev has_returned : Shared × Pc → Bool
has_returned (s, returned rec tw) = true
has_returned _ = false

abbrev record_of : Shared × Pc → ℕ
record_of (s, returned rec tw) = rec
record_of (s, _) = s.rec

abbrev word_of : Shared × Pc → TidWord
word_of (s, returned rec tw) = tw
word_of (s, _) = s.word

-- The step at the last load, by its comparison.
abbrev Ends : Bool → Shared → ℕ → Shared × Pc → Type 0
Ends b s found r = (if b then (s, returned found s.word) else (s, loaded s.word)) ≡ r

-- In every interleaving of any number of threads that read, lock, refuse, withdraw and commit, where
-- each commit has a number above the one before: when the last load of `get_record_pointer` makes
-- it return a record and a word, then at that load the value has that word and that record, nobody
-- holds its lock, and the record is that of the last commit.
pub returns_what_is_there :
    (n : ℕ) (w : TidWord) (rec : ℕ) {s : System}
    → IsWord w
    → w.lock ≡ false
    → Reach (fresh n w rec) s
    → (i : ℕ) (e : TidWord) (fetched_rec : ℕ) → get_elem? s.threads i ≡ some (fetched e fetched_rec)
    → (after_load : Shared) (returned_rec : ℕ) (tw : TidWord)
    → step (fetched e fetched_rec) Request.give_up s.shared ≡ (after_load, returned returned_rec tw)
    → (tw ≡ s.shared.word)
      × (returned_rec ≡ s.shared.rec)
      × (s.shared.word.lock ≡ false)
      × (returned_rec ≡ s.shared.committed)
unfolding step read_check
returns_what_is_there n w rec {s} f free r i e found at sh result tw p =
    elim (Bool-cases (is_same s.shared.word e)) [
      | inl same ↦
          let (lock, there, last) =
            check-atomic s i e found (Reach-IsSound (fresh-IsSound n w rec f free) r) at same in
          let q : Ends true s.shared found (sh, returned result tw) =
            subst (λ b. Ends b s.shared found (sh, returned result tw)) same p in
          (
            sym (ap word_of q),
            sym (ap record_of q) ∙ sym there,
            lock,
            sym (ap record_of q) ∙ sym last,
          )
      | inr other ↦
          let q : Ends false s.shared found (sh, returned result tw) =
            subst (λ b. Ends b s.shared found (sh, returned result tw)) other p in
          absurd (true≢false (sym (ap has_returned q)))
    ]

-- In every such interleaving at most one thread has the lock.
pub one_owner :
    (n : ℕ) (w : TidWord) (rec : ℕ) {s : System}
    → IsWord w
    → w.lock ≡ false
    → Reach (fresh n w rec) s
    → (i j : ℕ) {p q : Pc} → get_elem? s.threads i ≡ some p
    → get_elem? s.threads j ≡ some q
    → i ≢ j
    → holder p ≡ 1
    → holder q ≡ 0
one_owner n w rec {s} f free r i j at_i at_j ne own =
    let v = Reach-IsSound (fresh-IsSound n w rec f free) r in
    omega (
      arith,
      own,
      v.locks,
      bit_bound s.shared.word.lock,
      weights-le-sum_of holder s.threads i j at_i at_j ne,
    )
