-- ===== src/Mvto/Locks.antt =====
-- mvto.hpp: the locks in the loops of `precommit`.
use tpcc_runner.Base.{
  ℕ, ◌+◌, ◌≡◌, refl, Bool, false, Option, none, some, List, [], ◌∷◌, ◌++◌, arith, All, All-middle,
  sum_of-append, ℤ, pos_part, neg_part, ◌+ℤ◌, sum_of, ◌==◌, ◌&&◌, if◌then◌else◌, ap, sym, ◌∙◌,
  subst,
}
use mathlib.Core.List.{append_assoc, append-nil}
use mathlib.Core.Option
use mathlib.Core.Option.{some-injective}
use tpcc_runner.Base.Tables.{Tables, find_entry}
use tpcc_runner.Mvto.Chain.{Version}
use tpcc_runner.Mvto.Defs.{
  Element, Index, State, lock_val, unlock_val, deallocate_version, free_versions,
}
use tpcc_runner.Mvto.Commit.{
  Verdict, passed, refused, check_locked, lock_element, remove_inserted, unlock_write, for_writes,
  until_end, write_order, remove_already_inserted, unlock_writeset, proceed, lock_all,
}

-- How often the value v is locked by a list of the write set.
abbrev pub locks : ℕ → Tables Element → ℕ × ℕ → ℕ
locks v ts (t, k) = elim (find_entry t k ts) [ none ↦ 0 | some e ↦ (if e.val == v then 1 else 0) ]

-- A step changes neither the read-write set nor the write set, and moves the count of v by
-- `gained - lost`.
pub record Moves {tree : Type 0} (v gained lost : ℕ) (s s' : State tree) : Type 0 where
  pub same_tables : s'.tables ≡ s.tables
  pub same_ws : s'.ws ≡ s.ws
  pub count :
      pos_part (s'.cnt v) + neg_part (s.cnt v) + lost
      ≡ neg_part (s'.cnt v) + pos_part (s.cnt v) + gained

module _ {tree : Type 0} (v : ℕ) where
  pub unlock_val-Moves :
      (val : ℕ) (s : State tree) → Moves v (if val == v then 1 else 0) 0 s (unlock_val val s)
  unfolding unlock_val ◌+ℤ◌
  unlock_val-Moves val s = ground arith

  lock_val-Moves :
      (val : ℕ) (s s' : State tree)
      → lock_val val s ≡ some s'
      → Moves v 0 (if val == v then 1 else 0) s s'
  unfolding lock_val
  lock_val-Moves val s s' h = ground arith

  pub free_versions-Moves :
      (vs : List Version) (s : State tree) → Moves v 0 0 s (free_versions vs s)
  unfolding free_versions
  free_versions-Moves [] s = ground arith
  free_versions-Moves (x ∷ vs) s =
      let m = free_versions-Moves vs (deallocate_version x s) in
      record { same_tables = m.same_tables; same_ws = m.same_ws; count = m.count }

  pub Moves-trans :
      {a b c d : ℕ} {s s' s'' : State tree}
      → Moves v a b s s'
      → Moves v c d s' s''
      → Moves v (a + c) (b + d) s s''
  Moves-trans m n = record {
    same_tables = n.same_tables ∙ m.same_tables;
    same_ws = n.same_ws ∙ m.same_ws;
    count = omega (arith, m.count, n.count);
  }

  pub Moves-by :
      {a b c d : ℕ} {s s' : State tree} → Moves v a b s s' → a ≡ c → b ≡ d → Moves v c d s s'
  Moves-by m e f = record {
    same_tables = m.same_tables;
    same_ws = m.same_ws;
    count = omega (arith, m.count, e, f);
  }

  -- A loop over the write set whose body unlocks the element's value unlocks as often as it is listed.
  pub for_writes-Moves :
      (f : ℕ × ℕ → Element → State tree → State tree)
      → ((w : ℕ × ℕ) (e : Element) (s : State tree)
          → Moves v (if e.val == v then 1 else 0) 0 s (f w e s))
      → (l : List (ℕ × ℕ)) (s : State tree)
      → Moves v (sum_of (locks v s.tables) l) 0 s (for_writes f l s)
  unfolding for_writes sum_of
  for_writes-Moves f one [] s = ground arith
  for_writes-Moves f one ((t, k) ∷ l) s =
      at_entry (find_entry t k s.tables) refl (for_writes-Moves f one l)
    where
      at_entry :
          (q : Option Element)
          → find_entry t k s.tables ≡ q
          → ((s' : State tree) → Moves v (sum_of (locks v s'.tables) l) 0 s' (for_writes f l s'))
          → Moves v
              (locks v s.tables (t, k) + sum_of (locks v s.tables) l)
              0
              s
              (for_writes f ((t, k) ∷ l) s)
      at_entry none at rest = rw (at, for_writes) (Moves-by (rest s) (ground arith) refl)
      at_entry (some e) at rest =
          rw (at, for_writes)
            (Moves-by
              (Moves-trans (one (t, k) e s) (
                subst
                  (λ ts.
                    Moves v (sum_of (locks v ts) l) 0 (f (t, k) e s)
                      (for_writes f l (f (t, k) e s)))
                  (one (t, k) e s).same_tables (rest (f (t, k) e s))))
              (ground arith) refl)

module _ (ix : Index) (v : ℕ) where
  check_locked-Moves :
      (t k : ℕ) (e : Element) (vs : List Version) (s : State ix.Tree)
      → Moves v 0 0 s (check_locked ix t k e vs s).0
  unfolding check_locked
  check_locked-Moves t k e [] s = ground arith
  check_locked-Moves t k e (x ∷ vs) s = ground arith

  lock_element-Moves :
      (t k : ℕ) (e : Element) (s : State ix.Tree) (r : State ix.Tree × Verdict)
      → lock_element ix t k e s ≡ some r
      → Moves v 0 (if e.val == v then 1 else 0) s r.0
  unfolding lock_element
  lock_element-Moves t k e s r h = by_lock (lock_val e.val s) refl
    where
      by_lock :
          (o : Option (State ix.Tree))
          → lock_val e.val s ≡ o
          → Moves v 0 (if e.val == v then 1 else 0) s r.0
      by_lock none at = absurd (ground arith)
      by_lock (some l) at =
          subst (λ (x : State ix.Tree × Verdict). Moves v 0 (if e.val == v then 1 else 0) s x.0)
            (some-injective _ _
              (sym (ap (Option.map (λ l. check_locked ix t k e (l.chain e.val) l)) at) ∙ h))
            (Moves-by v
              (Moves-trans v (lock_val-Moves v e.val s l at)
                (check_locked-Moves t k e (l.chain e.val) l))
              refl (omega arith))

  remove_inserted-Moves :
      (w : ℕ × ℕ) (e : Element) (s : State ix.Tree) → Moves v 0 0 s (remove_inserted ix w e s)
  unfolding remove_inserted
  remove_inserted-Moves (t, k) e s = ground arith

  for_removed-Moves :
      (l : List (ℕ × ℕ)) (s : State ix.Tree) → Moves v 0 0 s (for_writes (remove_inserted ix) l s)
  unfolding for_writes
  for_removed-Moves [] s = ground arith
  for_removed-Moves ((t, k) ∷ l) s = at_entry (find_entry t k s.tables) refl (for_removed-Moves l)
    where
      at_entry :
          (q : Option Element)
          → find_entry t k s.tables ≡ q
          → ((s' : State ix.Tree) → Moves v 0 0 s' (for_writes (remove_inserted ix) l s'))
          → Moves v 0 0 s (for_writes (remove_inserted ix) ((t, k) ∷ l) s)
      at_entry none at rest = rw (at, for_writes) (rest s)
      at_entry (some e) at rest =
          rw (at, for_writes)
            (Moves-trans v (remove_inserted-Moves (t, k) e s)
              (rest (remove_inserted ix (t, k) e s)))

-- The pairs of a list are all different.
abbrev pub IsUnique : List (ℕ × ℕ) → Type 0
IsUnique [] = Unit {0}
IsUnique ((u, j) ∷ l) = All (λ w. (u == w.0 && j == w.1) ≡ false) l × IsUnique l

-- So the undoing loops return at the element that was locked last.
until_end-middle :
    (t k : ℕ) (p l : List (ℕ × ℕ))
    → IsUnique (p ++ (t, k) ∷ l)
    → until_end false t k (p ++ (t, k) ∷ l) ≡ p ++ (t, k) ∷ []
unfolding until_end
until_end-middle t k [] l h = ground arith
until_end-middle t k ((u, j) ∷ p) l h =
    rw (
      All-middle (λ w. (u == w.0 && j == w.1) ≡ false) p (t, k) l h.0,
      until_end-middle t k p l h.1,
    )

module _ (ix : Index) (v : ℕ) (base : ℤ) where
  -- What the locking loop leaves: all its locks, or none.
  pub record Outcome (l : List (ℕ × ℕ)) (s : State ix.Tree) (r : State ix.Tree × Bool)
      : Type 0 where
    pub same_tables : r.0.tables ≡ s.tables
    pub same_ws : r.0.ws ≡ s.ws
    pub count :
        pos_part (r.0.cnt v) + neg_part base + (if r.1 then sum_of (locks v s.tables) l else 0)
        ≡ neg_part (r.0.cnt v) + pos_part base

  abbrev IsOwned : List (ℕ × ℕ) → State ix.Tree → Type 0
  IsOwned p s =
      pos_part (s.cnt v) + neg_part base + sum_of (locks v s.tables) p
      ≡ neg_part (s.cnt v) + pos_part base

  give_up-Outcome :
      (t k : ℕ) (p l : List (ℕ × ℕ)) (x : Bool) (s : State ix.Tree)
      → write_order s.tables s.ws ≡ p ++ (t, k) ∷ l
      → IsUnique (p ++ (t, k) ∷ l)
      → IsOwned (p ++ (t, k) ∷ []) s
      → Outcome
          (p ++ (t, k) ∷ l)
          s
          (unlock_writeset ix t k false (remove_already_inserted ix t k x s), false)
  unfolding unlock_writeset remove_already_inserted unlock_write
  give_up-Outcome t k p l x s order uniq own =
      let s2 = remove_already_inserted ix t k x s in
      let m : Moves v 0 0 s s2 =
        for_removed-Moves ix v (until_end x t k (write_order s.tables s.ws)) s in
      let prefix : until_end false t k (write_order s2.tables s2.ws) ≡ p ++ (t, k) ∷ [] =
        rw (m.same_tables, m.same_ws, order) (until_end-middle t k p l uniq) in
      let u =
        for_writes-Moves v (unlock_write ix) (λ w e s. unlock_val-Moves v e.val s)
          (until_end false t k (write_order s2.tables s2.ws)) s2 in
      record {
        same_tables = u.same_tables ∙ m.same_tables;
        same_ws = u.same_ws ∙ m.same_ws;
        count = omega (
          arith,
          own,
          m.count,
          u.count,
          ap (λ ts. sum_of (locks v ts) (until_end false t k (write_order s2.tables s2.ws)))
              m.same_tables,
          ap (sum_of (locks v s.tables)) prefix,
        );
      }

  -- A lock that was taken counts.
  IsOwned-step :
      (t k : ℕ) (p : List (ℕ × ℕ)) (e : Element) (s s' : State ix.Tree)
      → find_entry t k s.tables ≡ some e
      → IsOwned p s
      → Moves v 0 (if e.val == v then 1 else 0) s s'
      → IsOwned (p ++ (t, k) ∷ []) s'
  unfolding sum_of
  IsOwned-step t k p e s s' at own m = omega (
    arith,
    own,
    m.count,
    sum_of-append (locks v s.tables) p ((t, k) ∷ []),
    one_lock at,
    ap (λ ts. sum_of (locks v ts) (p ++ (t, k) ∷ [])) m.same_tables,
  )
    where
      one_lock :
          find_entry t k s.tables ≡ some e → locks v s.tables (t, k) ≡ (if e.val == v then 1 else 0)
      one_lock at = ground arith

  IsOwned-skip :
      (t k : ℕ) (p : List (ℕ × ℕ)) (s : State ix.Tree)
      → find_entry t k s.tables ≡ none
      → IsOwned p s
      → IsOwned (p ++ (t, k) ∷ []) s
  unfolding sum_of
  IsOwned-skip t k p s gone own =
      omega (arith, own, sum_of-append (locks v s.tables) p ((t, k) ∷ []), no_lock gone)
    where
      no_lock : find_entry t k s.tables ≡ none → locks v s.tables (t, k) ≡ 0
      no_lock gone = ground arith

  -- The read-write set is the same at the start of the loop and later.
  Outcome-from :
      (l : List (ℕ × ℕ)) (s s' : State ix.Tree) (r : State ix.Tree × Bool)
      → s'.tables ≡ s.tables
      → s'.ws ≡ s.ws
      → Outcome l s' r
      → Outcome l s r
  Outcome-from l s s' r e f o = record {
    same_tables = o.same_tables ∙ e;
    same_ws = o.same_ws ∙ f;
    count =
        subst
          (λ ts.
            pos_part (r.0.cnt v) + neg_part base + (if r.1 then sum_of (locks v ts) l else 0)
            ≡ neg_part (r.0.cnt v) + pos_part base)
          e o.count;
  }

  -- One round of the locking loop, given what the later rounds do.
  round-Outcome :
      (t k : ℕ) (l p : List (ℕ × ℕ)) (s : State ix.Tree) (r : State ix.Tree × Bool) (e : Element)
      → ((s' : State ix.Tree)
          → write_order s'.tables s'.ws ≡ p ++ (t, k) ∷ l
          → IsOwned (p ++ (t, k) ∷ []) s'
          → lock_all ix l s' ≡ some r
          → Outcome (p ++ (t, k) ∷ l) s' r)
      → write_order s.tables s.ws ≡ p ++ (t, k) ∷ l
      → IsUnique (p ++ (t, k) ∷ l)
      → IsOwned p s
      → find_entry t k s.tables ≡ some e
      → (o : Option (State ix.Tree × Verdict)) → lock_element ix t k e s ≡ o
      → Option.bind o (proceed ix t k (lock_all ix l)) ≡ some r
      → Outcome (p ++ (t, k) ∷ l) s r
  unfolding proceed Option.bind
  round-Outcome t k l p s r e rest order uniq own here none locked h = cc
  round-Outcome t k l p s r e rest order uniq own here (some (s', passed)) locked h =
      let m = lock_element-Moves ix v t k e s (s', passed) locked in
      Outcome-from (p ++ (t, k) ∷ l) s s' r m.same_tables m.same_ws
        (rest s' (rw (m.same_tables, m.same_ws) order) (IsOwned-step t k p e s s' here own m) h)
  round-Outcome t k l p s r e rest order uniq own here (some (s', refused x)) locked h =
      let m = lock_element-Moves ix v t k e s (s', refused x) locked in
      Outcome-from (p ++ (t, k) ∷ l) s s' r m.same_tables m.same_ws (
        subst (Outcome (p ++ (t, k) ∷ l) s') (some-injective _ _ h) (
          give_up-Outcome t k p l x s' (rw (m.same_tables, m.same_ws) order) uniq
            (IsOwned-step t k p e s s' here own m)))

  pub lock_all-Outcome :
      (l p : List (ℕ × ℕ)) (s : State ix.Tree) (r : State ix.Tree × Bool)
      → write_order s.tables s.ws ≡ p ++ l
      → IsUnique (p ++ l)
      → IsOwned p s
      → lock_all ix l s ≡ some r
      → Outcome (p ++ l) s r
  unfolding lock_all
  lock_all-Outcome [] p s r order uniq own h =
      subst (Outcome (p ++ []) s) (some-injective _ _ h)
        (record { same_tables = refl; same_ws = refl; count = rw (append-nil p) own })
  lock_all-Outcome ((t, k) ∷ l) p s r order uniq own h =
      by_entry (find_entry t k s.tables) refl (λ s' o w e.
        subst (λ q. Outcome q s' r) (append_assoc p ((t, k) ∷ []) l)
          (lock_all-Outcome l (p ++ (t, k) ∷ []) s' r (o ∙ sym (append_assoc p ((t, k) ∷ []) l))
            (subst IsUnique (sym (append_assoc p ((t, k) ∷ []) l)) uniq) w e))
    where
      by_entry :
          (q : Option Element)
          → find_entry t k s.tables ≡ q
          → ((s' : State ix.Tree)
              → write_order s'.tables s'.ws ≡ p ++ (t, k) ∷ l
              → IsOwned (p ++ (t, k) ∷ []) s'
              → lock_all ix l s' ≡ some r
              → Outcome (p ++ (t, k) ∷ l) s' r)
          → Outcome (p ++ (t, k) ∷ l) s r
      by_entry none here rest =
          rest s order (IsOwned-skip t k p s here own) (rw (here, lock_all) at h)
      by_entry (some e) here rest =
          round-Outcome t k l p s r e rest order uniq own here (lock_element ix t k e s) refl
            (rw (here, lock_all) at h)
