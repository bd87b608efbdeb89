-- ===== src/Waitdie/Release.antt =====
-- waitdielock.hpp: `unlock_shared` and `unlock` of a transaction that owns the lock.
use tpcc_runner.Base.{
  ℕ, ◌+◌, ◌≤◌, ◌<◌, ◌≡◌, inl, inr, refl, Option, none, some, List, [], ◌∷◌, length, All, arith,
  ◌==◌, if◌then◌else◌, sym, subst,
}
use tpcc_runner.Waitdie.SortedList.{
  remove, IsSorted, IsSorted-remove, IsMissing, count, IsTaken, remove-IsTaken, Left, All-remove,
}
use tpcc_runner.Waitdie.Lock.{
  Operation, invalid, shared, exclusive, upgrade, Waiter, waiter_ts, owner_ts, Lock,
  promote_waiters, release,
}
use tpcc_runner.Waitdie.Sound.{Matches, IsQueue, IsWaiting, IsSound, IsBlocked, plain_count}
use tpcc_runner.Waitdie.Promote.{Promotes, promote-plain, promote-upgrade}

-- An owner that does not wait for an upgrade.
pub record IsOwner (ts : ℕ) (l : Lock) : Type 0 where
  pub owner : count owner_ts ts l.owners ≡ 1
  pub not_waiting : IsMissing waiter_ts ts l.waiters

-- What is left when an owner goes: a sound lock whose first waiter is blocked. Exactly the
-- transaction that went is gone, and exactly those that are woken have left the queue.
pub record Released (ts : ℕ) (l : Lock) (r : Lock × List ℕ) : Type 0 where
  pub sound : IsSound r.0
  pub blocked : IsBlocked r.0 r.0.waiters
  pub woken :
      (t : ℕ) → count owner_ts t r.1 + count waiter_ts t r.0.waiters ≡ count waiter_ts t l.waiters
  pub kept :
      (t : ℕ)
      → count owner_ts t r.0.owners + plain_count t r.0.waiters + (if ts == t then 1 else 0)
        ≡ count owner_ts t l.owners + plain_count t l.waiters

abbrev pub Releases : ℕ → Lock → Option (Lock × List ℕ) → Type 0
Releases ts l none = ⊥
Releases ts l (some r) = Released ts l r

module _ (ts : ℕ) (l : Lock) (v : IsSound l) (h : IsOwner ts l) where
  released :
      (owners : List ℕ) (o : Option (Lock × List ℕ))
      → remove owner_ts ts l.owners ≡ some owners
      → Promotes owners l.waiters o
      → Releases ts l o
  released owners none e p = p
  released owners (some r) e p = record {
    sound = p.sound;
    blocked = p.blocked;
    woken = p.woken;
    kept = λ t. ground (
      arith,
      p.kept t,
      subst (IsTaken owner_ts t ts l.owners) e (remove-IsTaken owner_ts t ts l.owners),
    );
  }

  -- The last owner goes: whoever waited was no owner.
  last-IsQueue :
      (ws : List Waiter) → length l.owners ≡ 1 → IsWaiting l.op l.owners ws → IsQueue [] ws
  last-IsQueue [] one w = tt
  last-IsQueue (w ∷ ws) one (_, inl q) = (tt, q.1, q.2)
  last-IsQueue (w ∷ ws) one (_, inr u) = absurd (omega (arith, u.2))

  -- Other owners stay: the mode is shared, and the queue is as it was.
  rest_shared : (k : Operation) → Matches k l.owners → 2 ≤ length l.owners → k ≡ shared
  rest_shared invalid m two = absurd (omega arith)
  rest_shared shared m two = refl
  rest_shared exclusive m two = absurd (omega arith)
  rest_shared upgrade m two = absurd m

  rest-Promotes :
      (owners : List ℕ) (ws : List Waiter)
      → remove owner_ts ts l.owners ≡ some owners
      → 1 ≤ length owners
      → IsMissing waiter_ts ts ws
      → IsWaiting shared l.owners ws
      → Promotes owners ws (promote_waiters shared owners ws)
  rest-Promotes owners [] e some_left new w =
      promote-plain shared owners [] some_left
        (subst (Left owner_ts (IsSorted owner_ts)) e
          (IsSorted-remove owner_ts ts l.owners v.sorted))
        tt
  rest-Promotes owners (w ∷ ws) e some_left new (_, inl q) =
      promote-plain shared owners (w ∷ ws) some_left
        (subst (Left owner_ts (IsSorted owner_ts)) e
          (IsSorted-remove owner_ts ts l.owners v.sorted))
        (
          subst (Left owner_ts (All (λ o. w.ts < o))) e
              (All-remove owner_ts (λ o. w.ts < o) ts l.owners q.0),
          q.1,
          q.2,
        )
  rest-Promotes owners (w ∷ ws) e some_left new (_, inr u) =
      promote-upgrade owners w ws u.0 some_left
        (ground (
          arith,
          new.0,
          u.3,
          subst (IsTaken owner_ts w.ts ts l.owners) e (remove-IsTaken owner_ts w.ts ts l.owners),
        ))
        (subst (Left owner_ts (All (λ o. w.ts ≤ o))) e
          (All-remove owner_ts (λ o. w.ts ≤ o) ts l.owners u.4))
        u.5 u.6
        (subst (Left owner_ts (IsSorted owner_ts)) e
          (IsSorted-remove owner_ts ts l.owners v.sorted))

  -- An owner that does not wait can always go.
  pub release-Releases : Releases ts l (release ts l)
  unfolding release
  release-Releases =
      by_remove (remove owner_ts ts l.owners) refl (remove-IsTaken owner_ts ts ts l.owners)
    where
      by_remove :
          (o : Option (List ℕ))
          → remove owner_ts ts l.owners ≡ o
          → IsTaken owner_ts ts ts l.owners o
          → Releases ts l (release ts l)
      by_remove none e t = absurd (omega (arith, h.owner, t))
      by_remove (some []) e t =
          rw (e, release)
            (released [] (promote_waiters invalid [] l.waiters) e
              (promote-plain invalid [] l.waiters refl tt (last-IsQueue l.waiters t.1 v.waiting)))
      by_remove (some (o ∷ os)) e t =
          let mode : l.op ≡ shared = rest_shared l.op v.matches (omega (arith, t.1)) in
          rw (e, release)
            (subst (λ op. Releases ts l (promote_waiters op (o ∷ os) l.waiters)) (sym mode)
              (released (o ∷ os) (promote_waiters shared (o ∷ os) l.waiters) e (
                rest-Promotes (o ∷ os) l.waiters e (omega arith) h.not_waiting
                  (subst (λ op. IsWaiting op l.owners l.waiters) mode v.waiting))))
