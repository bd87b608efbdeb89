-- ===== src/Silo/Serial.antt =====
-- silo.hpp: the three phases of `precommit` together, and its commit number.
use tpcc_runner.Base.{
  ℕ, ◌+◌, ◌%◌, ◌≤◌, ◌≡◌, refl, Bool, false, Option, none, some, List, [], All, All-map, Bool-cases,
  inl, inr, arith, sym, subst, ◌∙◌,
}
use mathlib.Core.Option
use mathlib.Core.Option.{some-injective}
use mathlib.Core.Bool.{true≢false}
use tpcc_runner.Silo.Word.{tid_mod}
use tpcc_runner.Silo.Defs.{Words, Index, State}
use tpcc_runner.Silo.Commit.{
  Entry, reads, sort_writes, lock_writes, unlock_writeset, validate_reads, validate_nodes, finish,
  proceed, precommit, uint64_max,
}
use tpcc_runner.Silo.Locking.{among, Held, unlock_all-restores}
use tpcc_runner.Silo.Phases.{Passed, IsSeen, Outcome, lock_writes-Outcome}
use tpcc_runner.Silo.Validation.{Checked, validate_reads-Checked}
use tpcc_runner.Silo.Finish.{
  order, IsReady, Restored, Ended, install_all-other, install_all-Installed,
}

module _ (ix : Index) where
  open ix use {Tree}

  abbrev sorted : State Tree → State Tree
  sorted s = record s { ws = sort_writes s.tables s.ws }

  Held-other :
      (all : List Entry) (w w' : Words) → Held all w w' → (v : ℕ) → among v all ≡ false → w' v ≡ w v
  Held-other all w w' h v e = h v ∙ rw e refl

  finish-refused :
      (s : State Tree) (w : Words)
      → IsReady s
      → Held (order s) s.word w
      → Restored s (record (sorted s) { word = unlock_writeset uint64_max uint64_max (order s) w })
  finish-refused s w r h = record {
    word = unlock_all-restores uint64_max uint64_max (order s) s.word w r.inner r.free h;
    rec_of = refl;
    index = refl;
    gc_container = refl;
    freed = refl;
  }

  Passed-weaken :
      (w : Words) (m n : ℕ) (l : List Entry) → m ≤ n → All (Passed w m) l → All (Passed w n) l
  Passed-weaken w m n l le =
      All-map (Passed w m) (Passed w n)
        (λ x p. record { not_after = omega (arith, p.not_after); readable = p.readable }) l

  finish-Ended :
      (s : State Tree) (w : Words) (m : ℕ) (o : Option ℕ)
      → IsReady s
      → Held (order s) s.word w
      → IsSeen s.word 0 m
      → All (Passed s.word m) (order s)
      → Checked (order s) (reads s.tables) s.word m o
      → Ended ix s (finish ix (order s) w o (sorted s))
  unfolding finish
  finish-Ended s w m none r h q p c = (finish-refused s w r h, λ k. c k.current)
  finish-Ended s w m (some n) r h q p c =
      elim (Bool-cases (validate_nodes ix s.index s.tables s.ns)) [
        | inl e ↦
            let before : State Tree = record (sorted s) { word = w } in
            rw e (
              n,
              record {
                reads = c.2;
                seen = λ b f t. c.1 b f (q b f t);
                writes = Passed-weaken s.word m n (order s) c.0 p;
                nodes = e;
                installed =
                    install_all-Installed ix ((n + 1) % tid_mod) s.global_epoch (order s) before
                      r.distinct;
                others = λ v no.
                    let a =
                      install_all-other ix ((n + 1) % tid_mod) s.global_epoch (order s) before v
                        no in
                    (a.0 ∙ Held-other (order s) s.word w h v no, a.1);
              },
            )
        | inr e ↦ rw e (finish-refused s w r h, λ k. true≢false (sym k.nodes ∙ e))
      ]

  proceed-Ended :
      (s : State Tree) (q : Words × Option ℕ)
      → IsReady s
      → Outcome (order s) s.word 0 (order s) (some q)
      → Ended ix s (proceed ix (order s) (sorted s) q)
  unfolding proceed
  proceed-Ended s (w, none) r o = (
    record { word = o.0; rec_of = refl; index = refl; gc_container = refl; freed = refl },
    λ k. o.1 k.writable,
  )
  proceed-Ended s (w, some m) r o =
      finish-Ended s w m (validate_reads (reads s.tables) w m) r o.0 o.2 o.3
        (validate_reads-Checked (order s) s.word w o.0 (reads s.tables) m)

  -- `precommit` has returned, and has refused or committed.
  abbrev pub Returned : State Tree → Option (State Tree × Bool) → Type 0
  Returned s none = ⊥
  Returned s (some q) = Ended ix s q

  -- If the entries of the write set have different keys and values, nobody holds their locks, and
  -- none stands at the greatest key of the greatest table, then `precommit` returns. If it refuses,
  -- all words, record pointers, the index, the collector and the freed records are as they were, and
  -- there is a reason: a value cannot be written, a read is out of date or locked, or a leaf has
  -- changed. If it commits, then every word that was read and not inserted is the same as when it
  -- was read, readable, and for a mere read not locked; every leaf that was noted has its version;
  -- every value written has the new word and record, under one number that follows the greatest
  -- number seen, and the epoch; and every other word and record pointer is as it was.
  pub precommit-Returned : (s : State Tree) → IsReady s → Returned s (precommit ix s)
  unfolding precommit
  precommit-Returned s r =
      by_locks (lock_writes (order s) (order s) s.word 0) refl
        (lock_writes-Outcome (order s) [] s.word s.word 0 tt r.distinct tt r.free (λ v. refl))
    where
      by_locks :
          (o : Option (Words × Option ℕ))
          → lock_writes (order s) (order s) s.word 0 ≡ o
          → Outcome (order s) s.word 0 (order s) o
          → Returned s (precommit ix s)
      by_locks none e h = absurd h
      by_locks (some q) e h =
          subst
            (λ (o : Option (Words × Option ℕ)).
              Returned s (Option.map (proceed ix (order s) (sorted s)) o))
            (sym e) (proceed-Ended s q r h)
