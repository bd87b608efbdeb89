-- ===== src/Waitdie/Calls.antt =====
-- waitdielock.hpp: the calls of transactions that keep to the discipline of the protocol.
use tpcc_runner.Base.{
  ℕ, ◌≤◌, ◌<◌, ◌≡◌, ◌≢◌, inl, inr, refl, true, false, List, [], ◌∷◌, length, All, All-map, arith,
  ap, subst, ltb, ltb→lt, Bool-cases,
}
use tpcc_runner.Waitdie.SortedList.{
  insert, get_back_timestamp, IsSorted-insert, IsMissing, Falls-insert, count, length-insert,
  All-insert, back-least,
}
use tpcc_runner.Waitdie.Lock.{
  Operation, invalid, shared, exclusive, upgrade, Waiter, waiter_ts, owner_ts, Lock, Answer, thrown,
  own, enqueue, wait_or_die, get_min_timestamp, try_lock_shared, try_lock, no_waiter,
}
use tpcc_runner.Waitdie.Sound.{Matches, IsPlain, IsWaiting, IsSound}

-- A transaction that has nothing to do with the lock yet.
pub record IsNew (ts : ℕ) (l : Lock) : Type 0 where
  pub no_owner : IsMissing owner_ts ts l.owners
  pub not_waiting : IsMissing waiter_ts ts l.waiters

-- What a request leaves: a sound lock, and no exception.
pub record Requested (r : Lock × Answer) : Type 0 where
  pub sound : IsSound r.0
  pub no_throw : r.1 ≢ thrown

-- Below the least owner is below all.
below-back :
    (l : Lock) (ts : ℕ)
    → IsSound l
    → ltb ts (get_min_timestamp l) ≡ true
    → All (λ o. ts < o) l.owners
unfolding get_min_timestamp
below-back l ts v h =
    All-map (λ o. get_back_timestamp owner_ts l.owners ≤ o) (λ o. ts < o)
      (λ o le. omega (arith, ltb→lt ts (get_back_timestamp owner_ts l.owners) h)) l.owners
      (back-least owner_ts l.owners v.sorted)

-- A timestamp below all owners is below each of them.
pub lt-count :
    (t v : ℕ) (owners : List ℕ) → All (λ o. t < o) owners → 0 < count owner_ts v owners → t < v
unfolding count
lt-count t v [] a c = absurd (omega arith)
lt-count t v (o ∷ os) a c = ground (arith, a.0, lt-count t v os a.1)

-- A waiter that is older than all owners takes its place in the queue.
IsWaiting-insert :
    (op : Operation) (owners : List ℕ) (w : Waiter) (ws : List Waiter)
    → 0 < length owners
    → IsPlain w
    → All (λ o. w.ts < o) owners
    → IsMissing waiter_ts w.ts ws
    → IsWaiting op owners ws
    → IsWaiting op owners (insert waiter_ts w ws)
unfolding insert
IsWaiting-insert op owners w [] some_owner p low new h = (some_owner, inl (low, tt, (p, tt)))
IsWaiting-insert op owners w (v ∷ ws) some_owner p low new (_, inl q) =
    elim (Bool-cases (ltb v.ts w.ts)) [
      | inl e ↦ rw e (some_owner, inl (low, (ltb→lt v.ts w.ts e, q.1), (p, q.2)))
      | inr e ↦ rw e (
        some_owner,
        inl (
          q.0,
          Falls-insert waiter_ts v.ts w ws (ground (arith, new.0)) new.1 q.1,
          (q.2.0, All-insert waiter_ts IsPlain w ws p q.2.1),
        ),
      )
    ]
IsWaiting-insert op owners w (v ∷ ws) some_owner p low new (_, inr u) =
    let older : w.ts < v.ts = lt-count w.ts v.ts owners low (omega (arith, u.3)) in
    let after : ltb v.ts w.ts ≡ false = ground arith in
    rw after (
      some_owner,
      inr (
        u.0,
        u.1,
        u.2,
        u.3,
        u.4,
        Falls-insert waiter_ts v.ts w ws older new.1 u.5,
        All-insert waiter_ts IsPlain w ws p u.6,
      ),
    )

module _ (ts : ℕ) (l : Lock) (v : IsSound l) where
  enqueue-Requested :
      (op : Operation)
      → 0 < length l.owners
      → IsPlain (record { ts = ts; op = op })
      → All (λ o. ts < o) l.owners
      → IsMissing waiter_ts ts l.waiters
      → Requested (enqueue op ts l)
  unfolding enqueue
  enqueue-Requested op some_owner p low new = record {
    sound = record {
      matches = v.matches;
      sorted = v.sorted;
      waiting = IsWaiting-insert l.op l.owners _ l.waiters some_owner p low new v.waiting;
    };
    no_throw = λ e. cc;
  }

  wait_or_die-Requested :
      (op : Operation)
      → 0 < length l.owners
      → IsPlain (record { ts = ts; op = op })
      → IsMissing waiter_ts ts l.waiters
      → Requested (wait_or_die op ts l)
  unfolding wait_or_die
  wait_or_die-Requested op some_owner p new = elim (Bool-cases (ltb ts (get_min_timestamp l))) [
    | inl e ↦ rw e (enqueue-Requested op some_owner p (below-back l ts v e) new)
    | inr e ↦ rw e (record { sound = v; no_throw = λ e. cc })
  ]

  -- Only a lock without waiters is taken at once.
  own-Requested :
      (op : Operation)
      → Matches op (insert owner_ts ts l.owners)
      → l.waiters ≡ []
      → IsMissing owner_ts ts l.owners
      → Requested (own op ts l)
  unfolding own
  own-Requested op m none_waits new = record {
    sound = record {
      matches = m;
      sorted = IsSorted-insert owner_ts ts l.owners new v.sorted;
      waiting = rw none_waits tt;
    };
    no_throw = λ e. cc;
  }

  -- With no owner nobody waits.
  free_waiters : l.op ≡ invalid → l.waiters ≡ []
  free_waiters e =
      by_waiters l.waiters refl v.waiting (subst (λ op. Matches op l.owners) e v.matches)
    where
      by_waiters :
          (ws : List Waiter)
          → l.waiters ≡ ws
          → IsWaiting l.op l.owners ws
          → length l.owners ≡ 0
          → l.waiters ≡ []
      by_waiters [] f h m = f
      by_waiters (w ∷ ws) f h m = absurd (omega (arith, h.0))

  pub try_lock_shared-Requested : IsNew ts l → Requested (try_lock_shared ts l)
  unfolding try_lock_shared
  try_lock_shared-Requested new = by_op l.op refl l.waiters refl v.matches
    where
      by_op :
          (k : Operation)
          → l.op ≡ k
          → (ws : List Waiter) → l.waiters ≡ ws
          → Matches k l.owners
          → Requested (try_lock_shared ts l)
      by_op invalid e ws f m =
          rw (e, ap no_waiter (free_waiters e), try_lock_shared)
            (own-Requested shared (omega (arith, length-insert owner_ts ts l.owners))
              (free_waiters e) new.no_owner)
      by_op shared e [] f m =
          rw (e, ap no_waiter f, try_lock_shared)
            (own-Requested shared (omega (arith, length-insert owner_ts ts l.owners)) f
              new.no_owner)
      by_op shared e (w ∷ ws) f m =
          rw (e, ap no_waiter f, try_lock_shared)
            (wait_or_die-Requested shared m refl new.not_waiting)
      by_op exclusive e ws f m =
          rw (e, try_lock_shared)
            (wait_or_die-Requested shared (omega (arith, m)) refl new.not_waiting)
      by_op upgrade e ws f m = absurd m

  pub try_lock-Requested : IsNew ts l → Requested (try_lock ts l)
  unfolding try_lock
  try_lock-Requested new = by_op l.op refl v.matches
    where
      by_op : (k : Operation) → l.op ≡ k → Matches k l.owners → Requested (try_lock ts l)
      by_op invalid e m =
          rw (e, ap no_waiter (free_waiters e), try_lock)
            (own-Requested exclusive (omega (arith, m, length-insert owner_ts ts l.owners))
              (free_waiters e) new.no_owner)
      by_op shared e m = rw (e, try_lock) (wait_or_die-Requested exclusive m refl new.not_waiting)
      by_op exclusive e m =
          rw (e, try_lock) (wait_or_die-Requested exclusive (omega (arith, m)) refl new.not_waiting)
      by_op upgrade e m = absurd m
