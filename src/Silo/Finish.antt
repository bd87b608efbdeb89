-- ===== src/Silo/Finish.antt =====
-- silo.hpp: what `precommit` does as a whole.
use tpcc_runner.Base.{
  ℕ, ◌+◌, ◌%◌, ◌≡◌, refl, Bool, true, false, List, [], ◌∷◌, ◌==◌, All, Bool-cases, inl, inr, arith,
  ◌∙◌,
}
use tpcc_runner.Silo.Word.{tid_mod}
use tpcc_runner.Silo.Defs.{Index, State, put}
use tpcc_runner.Silo.Commit.{
  Entry, writes, reads, sort_writes, validate_nodes, new_tw, install, install_all, uint64_max,
  is_delete,
}
use tpcc_runner.Silo.Locking.{val_of, among, Apart, IsDistinct, IsFree, IsInner, same_number}
use tpcc_runner.Silo.Phases.{Passed, IsSeen, IsWritable}
use tpcc_runner.Silo.Validation.{IsChecked, IsCurrent}

-- The write set in the order of `precommit`.
abbrev pub order : {tree : Type 0} → State tree → List Entry
order s = writes s.tables (sort_writes s.tables s.ws)

-- The entries have different keys and values, nobody holds a lock on one, and none has the
-- greatest key of the greatest table.
pub record IsReady {tree : Type 0} (s : State tree) : Type 0 where
  pub distinct : IsDistinct (order s)
  pub free : All (IsFree s.word) (order s)
  pub inner : All (IsInner uint64_max uint64_max) (order s)

-- A refusal leaves the shared memory as it was.
pub record Restored {tree : Type 0} (s s' : State tree) : Type 0 where
  pub word : (v : ℕ) → s'.word v ≡ s.word v
  pub rec_of : s'.rec_of ≡ s.rec_of
  pub index : s'.index ≡ s.index
  pub gc_container : s'.gc_container ≡ s.gc_container
  pub freed : s'.freed ≡ s.freed

-- What stands in a written value.
pub record Installed {tree : Type 0} (tid epoch : ℕ) (s' : State tree) (x : Entry) : Type 0 where
  pub word : s'.word (val_of x) ≡ new_tw x.element.rwt tid epoch
  pub rec : s'.rec_of (val_of x) ≡ x.element.rec

module _ (ix : Index) where
  open ix use {Tree}

  -- A commit, with the number from which its own follows.
  pub record Committed (s s' : State Tree) (n : ℕ) : Type 0 where
    pub reads : All (IsChecked s.word n) (reads s.tables)
    pub writes : All (Passed s.word n) (order s)
    pub seen : IsSeen s.word 0 n
    pub nodes : validate_nodes ix s.index s.tables s.ns ≡ true
    pub installed : All (Installed ((n + 1) % tid_mod) s.global_epoch s') (order s)
    pub others :
        (v : ℕ) → among v (order s) ≡ false → (s'.word v ≡ s.word v) × (s'.rec_of v ≡ s.rec_of v)

  -- Every value can be written, every read is still good, and every leaf has the version noted.
  pub record IsCommittable (s : State Tree) : Type 0 where
    pub writable : All (IsWritable s.word) (order s)
    pub current : All (IsCurrent (order s) s.word) (reads s.tables)
    pub nodes : validate_nodes ix s.index s.tables s.ns ≡ true

  abbrev pub Ended : State Tree → State Tree × Bool → Type 0
  Ended s (s', false) = Restored s s' × ¬ IsCommittable s
  Ended s (s', true) = (n : ℕ) × Committed s s' n

  install-at :
      (tid epoch : ℕ) (x : Entry) (s : State Tree) (v : ℕ)
      → ((install ix tid epoch x s).word v
          ≡ put s.word (val_of x) (new_tw x.element.rwt tid epoch) v)
        × ((install ix tid epoch x s).rec_of v ≡ put s.rec_of (val_of x) x.element.rec v)
  unfolding install
  install-at tid epoch x s v = elim (Bool-cases (is_delete x.element.rwt)) [
    | inl e ↦ rw e (refl, refl)
    | inr e ↦ rw e (refl, refl)
  ]

  install-other :
      (tid epoch : ℕ) (x : Entry) (s : State Tree) (v : ℕ)
      → (val_of x == v) ≡ false
      → ((install ix tid epoch x s).word v ≡ s.word v)
        × ((install ix tid epoch x s).rec_of v ≡ s.rec_of v)
  install-other tid epoch x s v e =
      let a = install-at tid epoch x s v in (a.0 ∙ rw e refl, a.1 ∙ rw e refl)

  pub install_all-other :
      (tid epoch : ℕ) (l : List Entry) (s : State Tree) (v : ℕ)
      → among v l ≡ false
      → ((install_all ix tid epoch l s).word v ≡ s.word v)
        × ((install_all ix tid epoch l s).rec_of v ≡ s.rec_of v)
  unfolding install_all
  install_all-other tid epoch [] s v e = (refl, refl)
  install_all-other tid epoch (x ∷ l) s v e =
      let i = install-other tid epoch x s v (ground arith) in
      let r = install_all-other tid epoch l (install ix tid epoch x s) v (ground arith) in
      (r.0 ∙ i.0, r.1 ∙ i.1)

  Apart-later : (x : Entry) (l : List Entry) → All (Apart x) l → among (val_of x) l ≡ false
  Apart-later x [] a = refl
  Apart-later x (y ∷ l) a = ground (arith, a.0.1, Apart-later x l a.1)

  pub install_all-Installed :
      (tid epoch : ℕ) (l : List Entry) (s : State Tree)
      → IsDistinct l
      → All (Installed tid epoch (install_all ix tid epoch l s)) l
  unfolding install_all
  install_all-Installed tid epoch [] s d = tt
  install_all-Installed tid epoch (x ∷ l) s d =
      let i = install-at tid epoch x s (val_of x) in
      let r =
        install_all-other tid epoch l (install ix tid epoch x s) (val_of x) (Apart-later x l d.0) in
      (
        record {
          word = r.0 ∙ i.0 ∙ rw (same_number (val_of x)) refl;
          rec = r.1 ∙ i.1 ∙ rw (same_number (val_of x)) refl;
        },
        install_all-Installed tid epoch l (install ix tid epoch x s) d.1,
      )
