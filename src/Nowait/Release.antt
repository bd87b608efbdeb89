-- ===== src/Nowait/Release.antt =====
-- nowait.hpp: the locks that `precommit` and `abort` give back.
use tpcc_runner.Base.{
  ℕ, ◌+◌, ◌≡◌, ◌≢◌, true, List, [], ◌∷◌, ℤ, pos_part, neg_part, ◌+ℤ◌, eq_of_parts, arith, All,
  sum_of,
}
use tpcc_runner.Base.Tables.{Tables, table_weight, weight}
use tpcc_runner.Nowait.Defs.{Element, Index, State}
use tpcc_runner.Nowait.Locks.{shares, owns, IsHeld}
use tpcc_runner.Nowait.Finish.{each_entry, each, undo, abort}

abbrev pub AllEntries : (Element → Type 0) → Tables Element → Type 0
AllEntries Q ts = All (λ t. All (λ e. Q e.1) t.1) ts

-- A loop over the elements whose body adds `gain` and takes `loss` from one lock count.
module _ {tree : Type 0} (v : ℕ) (gain loss : Element → ℕ) (Q : Element → Type 0)
    (f : (t k : ℕ) → Element → State tree → State tree)
    (one : (t k : ℕ) (e : Element) (s : State tree)
      → Q e
      → pos_part ((f t k e s).cnt v) + neg_part (s.cnt v) + loss e
        ≡ neg_part ((f t k e s).cnt v) + pos_part (s.cnt v) + gain e) where
  each_entry-count :
      (t : ℕ) (m : List (ℕ × Element)) (s : State tree)
      → All (λ e. Q e.1) m
      → pos_part ((each_entry f t m s).cnt v) + neg_part (s.cnt v) + table_weight loss m
        ≡ neg_part ((each_entry f t m s).cnt v) + pos_part (s.cnt v) + table_weight gain m
  unfolding each_entry sum_of
  each_entry-count t [] s q = omega arith
  each_entry-count t ((k, e) ∷ m) s q =
      omega (arith, one t k e s q.0, each_entry-count t m (f t k e s) q.1)

  each-count :
      (ts : Tables Element) (s : State tree)
      → AllEntries Q ts
      → pos_part ((each f ts s).cnt v) + neg_part (s.cnt v) + weight loss ts
        ≡ neg_part ((each f ts s).cnt v) + pos_part (s.cnt v) + weight gain ts
  unfolding each sum_of
  each-count [] s q = omega arith
  each-count ((t, m) ∷ ts) s q =
      omega (arith, each_entry-count t m s q.0, each-count ts (each_entry f t m s) q.1)

module _ (ix : Index) (v t k : ℕ) (e : Element) (s : State ix.Tree) where
  undo-count :
      (e.is_new ≡ true → e.val ≢ v)
      → pos_part ((undo ix t k e s).cnt v) + neg_part (s.cnt v) + shares v e
        ≡ neg_part ((undo ix t k e s).cnt v) + pos_part (s.cnt v) + owns v e
  unfolding undo ◌+ℤ◌
  undo-count q = ground arith

module _ (ix : Index) (env : ℕ → ℤ) (s : State ix.Tree) (h : IsHeld env s) (v : ℕ) where
  -- After an abort the lock count of a value is what the other transactions hold, for every value
  -- but those that the transaction itself put into the index.
  pub abort-count :
      AllEntries (λ e. e.is_new ≡ true → e.val ≢ v) s.tables → (abort ix s).cnt v ≡ env v
  unfolding abort
  abort-count others =
      let loop =
        each-count v (owns v) (shares v) (λ e. e.is_new ≡ true → e.val ≢ v) (undo ix)
          (undo-count ix v) s.tables s others in
      eq_of_parts _ _ (omega (arith, h.balance v, loop))
