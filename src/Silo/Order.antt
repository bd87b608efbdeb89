-- ===== src/Silo/Order.antt =====
-- silo.hpp: what the phases of `precommit` mean for the order of transactions.
use tpcc_runner.Base.{
  ℕ, ◌+◌, ◌%◌, ◌<◌, ◌≡◌, refl, Bool, true, false, Option, none, some, List, [], ◌∷◌, ◌++◌, All,
  All-map, All-middle, arith, sym, subst, ◌∙◌,
}
use mathlib.Core.Bool.{true≢false}
use tpcc_runner.Silo.Word.{TidWord, tid_mod, is_valid}
use tpcc_runner.Silo.Defs.{Element, Index, State}
use tpcc_runner.Silo.Commit.{Entry, reads, new_tw, precommit, is_insert}
use tpcc_runner.Silo.Locking.{val_of}
use tpcc_runner.Silo.Phases.{Passed}
use tpcc_runner.Silo.Validation.{Validated, IsChecked}
use tpcc_runner.Silo.Finish.{order, IsReady, Restored, Installed, Committed}
use tpcc_runner.Silo.Serial.{Returned, precommit-Returned}

-- A written value: its old number is below the new one, and the word and the record are the new ones.
pub record Overwritten {tree : Type 0} (s s' : State tree) (number : ℕ) (x : Entry) : Type 0 where
  pub grows : (s.word (val_of x)).tid < number
  pub word : s'.word (val_of x) ≡ new_tw x.element.rwt number s.global_epoch
  pub rec : s'.rec_of (val_of x) ≡ x.element.rec

module _ (ix : Index) where
  open ix use {Tree}

  Committed-of :
      (s s' : State Tree)
      → IsReady s
      → precommit ix s ≡ some (s', true)
      → (n : ℕ) × Committed ix s s' n
  Committed-of s s' r e = subst (Returned ix s) e (precommit-Returned ix s r)

  -- Of a write set that is ready (`IsReady`: different keys and values, free locks), if no number in
  -- the store has reached the greatest: the number of a commit is above that of
  -- every value written and of every word that the transaction has read, and every value written
  -- has that number, the epoch of the commit, and the record that the transaction wrote.
  pub commit_number_grows :
      (s s' : State Tree)
      → IsReady s
      → ((v : ℕ) → (s.word v).tid + 1 < tid_mod)
      → precommit ix s ≡ some (s', true)
      → (number : ℕ) × All (Overwritten s s' number) (order s)
        × All (λ e. is_insert e.rwt ≡ false → e.tw.tid < number) (reads s.tables)
  commit_number_grows s s' r small e =
      let (n, c) = Committed-of s s' r e in
      let below : n + 1 < tid_mod =
        omega (arith, c.seen 0x1FFFFFFE (λ v. omega (arith, small v)) (omega arith)) in
      let exact : (n + 1) % tid_mod ≡ n + 1 = omega arith in
      (
        n + 1,
        overwritten s s' n (order s) c.writes
            (subst (λ t. All (Installed t s.global_epoch s') (order s)) exact c.installed),
        All-map (IsChecked s.word n) (λ e. is_insert e.rwt ≡ false → e.tw.tid < n + 1)
            (λ e f i. omega (arith, (f i).same_tid, (f i).not_after)) (reads s.tables) c.reads,
      )
    where
      overwritten :
          (s s' : State Tree) (n : ℕ) (l : List Entry)
          → All (Passed s.word n) l
          → All (Installed (n + 1) s.global_epoch s') l
          → All (Overwritten s s' (n + 1)) l
      overwritten s s' n [] p q = tt
      overwritten s s' n (x ∷ l) p q = (
        record { grows = omega (arith, p.0.not_after); word = q.0.word; rec = q.0.rec },
        overwritten s s' n l p.1 q.1,
      )

  Validated-IsValid : (u : TidWord) (n : ℕ) (e : Element) → Validated u n e → is_valid u e.tw ≡ true
  unfolding is_valid
  Validated-IsValid u n e v = ground (arith, v.same_epoch, v.same_tid, v.readable)

  -- Of a write set that is ready (`IsReady`): if the number or the epoch of a word that the
  -- transaction has read, and not inserted, has changed since, or its value has
  -- been deleted or is not there yet, then `precommit` returns, refuses, and leaves the store as it was.
  pub stale_read_is_refused :
      (s : State Tree) (l m : List Element) (e : Element)
      → IsReady s
      → reads s.tables ≡ l ++ e ∷ m
      → is_insert e.rwt ≡ false
      → is_valid (s.word e.val) e.tw ≡ false
      → (s' : State Tree) × (precommit ix s ≡ some (s', false)) × Restored s s'
  stale_read_is_refused s l m e r at i stale =
      by_outcome (precommit ix s) refl (precommit-Returned ix s r)
    where
      by_outcome :
          (o : Option (State Tree × Bool))
          → precommit ix s ≡ o
          → Returned ix s o
          → (s' : State Tree) × (precommit ix s ≡ some (s', false)) × Restored s s'
      by_outcome none p h = absurd h
      by_outcome (some (s', false)) p h = (s', p, h.0)
      by_outcome (some (s', true)) p (n, c) =
          let v =
            All-middle (IsChecked s.word n) l e m (subst (All (IsChecked s.word n)) at c.reads) i in
          absurd (true≢false (sym (Validated-IsValid (s.word e.val) n e v) ∙ stale))
