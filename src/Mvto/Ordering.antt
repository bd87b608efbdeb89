-- ===== src/Mvto/Ordering.antt =====
-- mvto.hpp: the critical section of a call against the check of a commit.
use tpcc_runner.Base.{
  ℕ, zero, suc, ◌≤◌, ◌<◌, ◌≡◌, ◌↔◌, ◌⊎◌, refl, Bool, true, Option, none, some, List, [], ◌∷◌, arith,
  get_elem?, set, ltb, Bool-cases, inl, inr, ◌∙◌, ap,
}
use tpcc_runner.Mvto.Chain.{
  Version, get_correct_version, gc_kept, gc_freed, update_readts, is_empty,
}
use tpcc_runner.Mvto.Defs.{put, State, gc_version_chain, free_versions, unlock_val}
use tpcc_runner.Mvto.Access.{under_lock, see}
use tpcc_runner.Mvto.Commit.{passed, refused, check_head}

-- The check before a commit passes exactly when neither a read nor a write of the head version is
-- later than the transaction and the head is deleted as the operation wants it.
pub check_head_iff :
    (wants_deleted : Bool) (start_ts : ℕ) (v : Version) (vs : List Version)
    → (check_head wants_deleted start_ts (v ∷ vs) ≡ passed)
      ↔ ((v.read_ts ≤ start_ts) × (v.write_ts ≤ start_ts) × (v.deleted ≡ wants_deleted))
unfolding check_head
check_head_iff b ts v vs = ((λ h. ground arith), (λ h. ground arith))

free_versions-chain :
    {tree : Type 0} (vs : List Version) (s : State tree) → (free_versions vs s).chain ≡ s.chain
unfolding free_versions
free_versions-chain [] s = refl
free_versions-chain (v ∷ vs) s = free_versions-chain vs _

-- A chain whose head was read or written after a time.
abbrev IsPast : ℕ → List Version → Type 0
IsPast ts [] = Unit {0}
IsPast ts (v ∷ vs) = (ts ≤ v.read_ts) ⊎ (ts ≤ v.write_ts)

check_head-refused :
    (b : Bool) (w ts : ℕ) (vs : List Version)
    → w < ts
    → IsPast ts vs
    → check_head b w vs ≡ refused true
unfolding check_head
check_head-refused b w ts [] h p = refl
check_head-refused b w ts (v ∷ vs) h p = ground arith

-- Once a transaction has found its version, the head was read or written at its time or later.
seen-IsPast :
    (g ts i : ℕ) (v x : Version) (vs : List Version)
    → get_correct_version ts (v ∷ vs) ≡ some i
    → get_elem? (v ∷ vs) i ≡ some x
    → IsPast ts (set (gc_kept g (v ∷ vs)) i (update_readts ts x))
unfolding gc_kept update_readts get_correct_version
seen-IsPast g ts zero v x vs h at = elim (Bool-cases (ltb g v.write_ts)) [
  | inl later ↦ rw later (inl (ground arith))
  | inr kept ↦ rw kept (inl (ground arith))
]
seen-IsPast g ts (suc i) v x vs h at = elim (Bool-cases (ltb g v.write_ts)) [
  | inl later ↦ rw later (inr (ground arith))
  | inr kept ↦ rw kept (inr (ground arith))
]

unseen-IsPast :
    (g ts : ℕ) (v : Version) (vs : List Version)
    → get_correct_version ts (v ∷ vs) ≡ none
    → IsPast ts (gc_kept g (v ∷ vs))
unfolding gc_kept get_correct_version
unseen-IsPast g ts v vs h = elim (Bool-cases (ltb g v.write_ts)) [
  | inl later ↦ rw later (inr (ground arith))
  | inr kept ↦ rw kept (inr (ground arith))
]

-- A place behind the head is found only by a transaction that is earlier than the head.
behind-IsPast :
    (g ts i : ℕ) (v : Version) (vs : List Version)
    → get_correct_version ts (v ∷ vs) ≡ some i
    → get_elem? (v ∷ vs) i ≡ none
    → IsPast ts (gc_kept g (v ∷ vs))
unfolding gc_kept get_correct_version
behind-IsPast g ts zero v vs h at = cc
behind-IsPast g ts (suc i) v vs h at = elim (Bool-cases (ltb g v.write_ts)) [
  | inl later ↦ rw later (inr (ground arith))
  | inr kept ↦ rw kept (inr (ground arith))
]

free_versions-start_ts :
    {tree : Type 0} (vs : List Version) (s : State tree)
    → (free_versions vs s).start_ts ≡ s.start_ts
unfolding free_versions
free_versions-start_ts [] s = refl
free_versions-start_ts (v ∷ vs) s = free_versions-start_ts vs _

pub put_self : (f : ℕ → List Version) (p : ℕ) (a : List Version) → put f p a p ≡ a
put_self f p a = ground arith

module _ {tree : Type 0} (val : ℕ) where
  pub gc_version_chain-chain :
      (s : State tree) → (gc_version_chain val s).chain val ≡ gc_kept s.smallest_ts (s.chain val)
  unfolding gc_version_chain
  gc_version_chain-chain s =
      ap (λ f. f val) (free_versions-chain (gc_freed s.smallest_ts (s.chain val)) _)
      ∙ put_self s.chain val (gc_kept s.smallest_ts (s.chain val))

  gc_version_chain-start_ts : (s : State tree) → (gc_version_chain val s).start_ts ≡ s.start_ts
  unfolding gc_version_chain
  gc_version_chain-start_ts s = free_versions-start_ts (gc_freed s.smallest_ts (s.chain val)) _

  see-IsPast :
      (g ts : ℕ) (v : Version) (vs : List Version) (o : Option ℕ) (s : State tree)
      → get_correct_version ts (v ∷ vs) ≡ o
      → s.chain val ≡ gc_kept g (v ∷ vs)
      → s.start_ts ≡ ts
      → IsPast ts ((see val (v ∷ vs) o s).0.chain val)
  unfolding see unlock_val
  see-IsPast g ts v vs none s h c e = rw c (unseen-IsPast g ts v vs h)
  see-IsPast g ts v vs (some i) s h c e = at_place (get_elem? (v ∷ vs) i) refl
    where
      at_place :
          (q : Option Version)
          → get_elem? (v ∷ vs) i ≡ q
          → IsPast ts ((see val (v ∷ vs) (some i) s).0.chain val)
      at_place none at = rw (at, see, c) (behind-IsPast g ts i v vs h at)
      at_place (some x) at =
          rw (at, see)
            (rw (put_self s.chain val (set (s.chain val) i (update_readts s.start_ts x)), c, e)
              (seen-IsPast g ts i v x vs h at))

  under_lock-IsPast :
      (removed : tree) (vs : List Version) (s : State tree)
      → s.chain val ≡ vs
      → IsPast s.start_ts ((under_lock removed val vs s).0.chain val)
  unfolding under_lock
  under_lock-IsPast removed [] s c = rw c tt
  under_lock-IsPast removed (v ∷ vs) s c = elim (Bool-cases (is_empty (v ∷ vs))) [
    | inl only ↦ rw (only, under_lock) (rw (put_self s.chain val []) tt)
    | inr more ↦
        rw (more, under_lock)
          (see-IsPast s.smallest_ts s.start_ts v vs _ (gc_version_chain val s) refl
            (gc_version_chain-chain s ∙ ap (gc_kept s.smallest_ts) c) (gc_version_chain-start_ts s))
  ]

  -- After a transaction has looked at a value under its lock, whatever it found, the check of every
  -- transaction with an earlier timestamp is refused: nobody can write behind its back.
  pub look_blocks_earlier_writes :
      (removed : tree) (s : State tree) (wants_deleted : Bool) (earlier : ℕ)
      → earlier < s.start_ts
      → check_head wants_deleted earlier ((under_lock removed val (s.chain val) s).0.chain val)
        ≡ refused true
  look_blocks_earlier_writes removed s b w h =
      check_head-refused b w s.start_ts _ h (under_lock-IsPast removed (s.chain val) s refl)
