-- ===== src/Mvto/Install.antt =====
-- mvto.hpp: what the last loop of `precommit` does to a chain.
use tpcc_runner.Base.{
  ℕ, ◌≤◌, ◌≡◌, Bool, false, some, List, [], ◌∷◌, arith, All, All-map, ltb, if◌then◌else◌,
  Bool-cases, inl, inr, ◌∙◌, ap,
}
use tpcc_runner.Mvto.Chain.{Version, gc_kept}
use tpcc_runner.Mvto.Defs.{Element, State, unlock_val}
use tpcc_runner.Mvto.Commit.{passed, check_head, new_version, push_version, apply_element}
use tpcc_runner.Mvto.Snapshot.{IsDescending, version_for, version_for-cons, version_for-gc_kept}
use tpcc_runner.Mvto.Ordering.{check_head_iff, gc_version_chain-chain, put_self}

module _ {κ} (P : Version → Type κ) (g : ℕ) where
  All-gc_kept : (vs : List Version) → All P vs → All P (gc_kept g vs)
  unfolding gc_kept
  All-gc_kept [] h = tt
  All-gc_kept (v ∷ vs) h = elim (Bool-cases (ltb g v.write_ts)) [
    | inl later ↦ rw later (h.0, All-gc_kept vs h.1)
    | inr kept ↦ rw kept (h.0, tt)
  ]

gc_kept-IsDescending : (g : ℕ) (vs : List Version) → IsDescending vs → IsDescending (gc_kept g vs)
unfolding gc_kept
gc_kept-IsDescending g [] d = tt
gc_kept-IsDescending g (v ∷ vs) d = elim (Bool-cases (ltb g v.write_ts)) [
  | inl later ↦
      rw later (All-gc_kept (λ w. w.write_ts ≤ v.write_ts) g vs d.0, gc_kept-IsDescending g vs d.1)
  | inr kept ↦ rw kept (tt, tt)
]

-- A head that passes the check is not later than the transaction, and neither is what is older.
passed-All :
    (b : Bool) (ts : ℕ) (vs : List Version)
    → check_head b ts vs ≡ passed
    → IsDescending vs
    → All (λ w. w.write_ts ≤ ts) vs
passed-All b ts [] h d = tt
passed-All b ts (v ∷ vs) h d =
    let ok = (check_head_iff b ts v vs).0 h in
    (
      ok.1,
      All-map (λ w. w.write_ts ≤ v.write_ts) (λ w. w.write_ts ≤ ts) (λ w le. omega (arith, ok)) vs
          d.0,
    )

module _ {tree : Type 0} (e : Element) (s : State tree) (old : e.is_new ≡ false) where
  apply_element-chain :
      (apply_element e s).chain e.val ≡ gc_kept s.smallest_ts (new_version e s ∷ s.chain e.val)
  unfolding apply_element push_version unlock_val
  apply_element-chain = rw old (
      gc_version_chain-chain e.val (push_version e s)
      ∙ ap (gc_kept s.smallest_ts) (put_self s.chain e.val (new_version e s ∷ s.chain e.val)))

  -- A commit keeps the chain of a value newest first, if the value passed its check.
  apply_element-IsDescending :
      (wants_deleted : Bool)
      → check_head wants_deleted s.start_ts (s.chain e.val) ≡ passed
      → IsDescending (s.chain e.val)
      → IsDescending ((apply_element e s).chain e.val)
  unfolding new_version
  apply_element-IsDescending b ok d = rw apply_element-chain (
      gc_kept-IsDescending s.smallest_ts (new_version e s ∷ s.chain e.val)
        (passed-All b s.start_ts (s.chain e.val) ok d, d))

  -- After a commit every transaction that is not earlier finds the new version, whose record is
  -- the one that the transaction wrote; one that is earlier, but not below the collection bound,
  -- finds what it found before.
  pub version_for-apply_element :
      (ts : ℕ)
      → s.smallest_ts ≤ ts
      → version_for ts ((apply_element e s).chain e.val)
        ≡ (if ltb ts s.start_ts then version_for ts (s.chain e.val) else some (new_version e s))
  unfolding new_version
  version_for-apply_element ts low = rw apply_element-chain (
      (version_for-gc_kept s.smallest_ts ts (new_version e s ∷ s.chain e.val) low).1
      ∙ version_for-cons ts (new_version e s) (s.chain e.val))
