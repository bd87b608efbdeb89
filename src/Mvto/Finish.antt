-- ===== src/Mvto/Finish.antt =====
-- mvto.hpp: the locks of a whole `precommit`.
use tpcc_runner.Base.{
  ℕ, ◌≡◌, refl, Bool, true, false, Option, none, some, List, [], arith, ℤ, eq_of_parts, sum_of,
  ◌==◌, if◌then◌else◌, ap, sym, ◌∙◌, subst, Bool-cases, inl, inr,
}
use mathlib.Core.Option
use mathlib.Core.Option.{some-injective}
use tpcc_runner.Mvto.Chain.{gc_freed, gc_kept}
use tpcc_runner.Mvto.Defs.{Element, Index, State, set_chain, gc_version_chain}
use tpcc_runner.Mvto.Commit.{
  write_order, lock_all, push_version, apply_element, apply_write, apply_all, precommit,
  sort_writes,
}
use tpcc_runner.Mvto.Locks.{
  Moves, Moves-trans, Moves-by, locks, unlock_val-Moves, free_versions-Moves, for_writes-Moves,
  IsUnique, Outcome, lock_all-Outcome,
}

module _ {tree : Type 0} (v : ℕ) where
  gc_version_chain-Moves : (val : ℕ) (s : State tree) → Moves v 0 0 s (gc_version_chain val s)
  unfolding gc_version_chain
  gc_version_chain-Moves val s =
      let m =
        free_versions-Moves v (gc_freed s.smallest_ts (s.chain val))
          (set_chain val (gc_kept s.smallest_ts (s.chain val)) s) in
      record { same_tables = m.same_tables; same_ws = m.same_ws; count = m.count }

  push_version-Moves :
      (e : Element) (s : State tree) → Moves v 0 0 s (if e.is_new then s else push_version e s)
  unfolding push_version
  push_version-Moves e s = elim (Bool-cases e.is_new) [
    | inl new ↦ rw new (record { same_tables = refl; same_ws = refl; count = omega arith })
    | inr old ↦ rw old (record { same_tables = refl; same_ws = refl; count = omega arith })
  ]

  apply_element-Moves :
      (e : Element) (s : State tree) → Moves v (if e.val == v then 1 else 0) 0 s (apply_element e s)
  unfolding apply_element
  apply_element-Moves e s =
      let pushed = if e.is_new then s else push_version e s in
      let two = Moves-trans v (push_version-Moves e s) (gc_version_chain-Moves e.val pushed) in
      Moves-by v (Moves-trans v two (unlock_val-Moves v e.val (gc_version_chain e.val pushed)))
        (omega arith) refl

abbrev sorted : {tree : Type 0} → State tree → State tree
sorted s = record s { ws = sort_writes s.tables s.ws }

abbrev order : {tree : Type 0} → State tree → List (ℕ × ℕ)
order s = write_order s.tables (sort_writes s.tables s.ws)

module _ (ix : Index) (v : ℕ) where
  apply_all-count :
      (base : ℤ) (s : State ix.Tree) (q : State ix.Tree × Bool)
      → Outcome ix v base (write_order s.tables s.ws) s q
      → (apply_all ix q).0.cnt v ≡ base
  unfolding apply_all apply_write
  apply_all-count base s (s', false) o = eq_of_parts _ _ (omega (arith, o.count))
  apply_all-count base s (s', true) o =
      let m =
        for_writes-Moves v (apply_write ix) (λ w e s. apply_element-Moves v e s)
          (write_order s'.tables s'.ws) s' in
      eq_of_parts _ _ (
        omega (
          arith,
          o.count,
          m.count,
          ap (λ ts. sum_of (locks v ts) (write_order ts s'.ws)) o.same_tables,
          ap (λ f. sum_of (locks v s.tables) (write_order s.tables f)) o.same_ws,
        ))

  -- When `precommit` returns, whether it has applied all writes or refused, the count of every lock
  -- is what it was before: each lock that was taken on the way is given back once, and no other.
  -- The condition is that no key is listed twice in the write set.
  pub precommit-returns_locks :
      (s : State ix.Tree) (r : State ix.Tree × Bool)
      → IsUnique (write_order s.tables (sort_writes s.tables s.ws))
      → precommit ix s ≡ some r
      → r.0.cnt v ≡ s.cnt v
  unfolding precommit sum_of
  precommit-returns_locks s r uniq h = by_loop (lock_all ix (order s) (sorted s)) refl
    where
      by_loop :
          (o : Option (State ix.Tree × Bool))
          → lock_all ix (order s) (sorted s) ≡ o
          → r.0.cnt v ≡ s.cnt v
      by_loop none at = absurd (ground arith)
      by_loop (some q) at =
          subst (λ (x : State ix.Tree × Bool). x.0.cnt v ≡ s.cnt v)
            (some-injective _ _ (sym (ap (Option.map (apply_all ix)) at) ∙ h))
            (apply_all-count (s.cnt v) (sorted s) q (
              lock_all-Outcome ix v (s.cnt v) (order s) [] (sorted s) q refl uniq (omega arith) at))
