-- ===== src/Waitdie/Upgrade.antt =====
-- waitdielock.hpp: `try_lock_upgrade` of a transaction that keeps to the discipline.
use tpcc_runner.Base.{
  ℕ, ◌≤◌, ◌<◌, ◌≡◌, inl, inr, refl, Bool, true, false, List, [], ◌∷◌, length, All, arith, ◌==◌, sym,
  subst, ltb, ltb→lt, ==_iff,
}
use tpcc_runner.Waitdie.SortedList.{insert, IsMissing, count, back-least}
use tpcc_runner.Waitdie.Lock.{
  shared, exclusive, upgrade, Waiter, waiter_ts, owner_ts, Lock, enqueue, get_min_timestamp,
  try_lock_upgrade, upgrade_shared,
}
use tpcc_runner.Waitdie.Sound.{IsWaiting, IsSound}
use tpcc_runner.Waitdie.Calls.{Requested, lt-count}

-- A transaction that owns the lock shared, and does not wait already.
pub record IsReader (ts : ℕ) (l : Lock) : Type 0 where
  pub mode : l.op ≡ shared
  pub owner : count owner_ts ts l.owners ≡ 1
  pub not_waiting : IsMissing waiter_ts ts l.waiters

pub le-count :
    (t v : ℕ) (owners : List ℕ) → All (λ o. t ≤ o) owners → 0 < count owner_ts v owners → t ≤ v
unfolding count
le-count t v [] a c = absurd (omega arith)
le-count t v (o ∷ os) a c = ground (arith, a.0, le-count t v os a.1)

-- The oldest owner goes to the head of the queue.
IsWaiting-upgrade :
    (ts : ℕ) (owners : List ℕ) (ws : List Waiter)
    → All (λ o. ts ≤ o) owners
    → count owner_ts ts owners ≡ 1
    → 2 ≤ length owners
    → IsMissing waiter_ts ts ws
    → IsWaiting shared owners ws
    → IsWaiting shared owners (insert waiter_ts (record { ts = ts; op = upgrade }) ws)
unfolding insert
IsWaiting-upgrade ts owners [] low one two new h =
    (omega arith, inr (refl, refl, two, one, low, tt, tt))
IsWaiting-upgrade ts owners (w ∷ ws) low one two new (_, inl q) =
    let older : w.ts < ts = lt-count w.ts ts owners q.0 (omega arith) in
    let before : ltb w.ts ts ≡ true = ground arith in
    rw before (omega arith, inr (refl, refl, two, one, low, (older, q.1), q.2))
IsWaiting-upgrade ts owners (w ∷ ws) low one two new (_, inr u) = absurd (
    new.0 (
      omega (
        arith,
        le-count ts w.ts owners low (omega (arith, u.3)),
        le-count w.ts ts owners u.4 (omega arith),
      )))

-- A single owner may become exclusive under those that wait.
IsWaiting-exclusive :
    (owners : List ℕ) (ws : List Waiter)
    → length owners ≡ 1
    → IsWaiting shared owners ws
    → IsWaiting exclusive owners ws
IsWaiting-exclusive owners [] one h = tt
IsWaiting-exclusive owners (w ∷ ws) one (some_owner, inl q) = (some_owner, inl q)
IsWaiting-exclusive owners (w ∷ ws) one (some_owner, inr u) = absurd (omega (arith, u.2))

module _ (ts : ℕ) (l : Lock) (v : IsSound l) where
  upgrade_shared-Requested : IsReader ts l → Requested (upgrade_shared ts l)
  unfolding upgrade_shared enqueue
  upgrade_shared-Requested r =
      by_tests (get_min_timestamp l == ts) refl (ltb 1 (length l.owners)) refl
        (length l.owners == 1) refl
    where
      low : (get_min_timestamp l == ts) ≡ true → All (λ o. ts ≤ o) l.owners
      low e =
          subst (λ t. All (λ o. t ≤ o) l.owners) ((==_iff (get_min_timestamp l) ts).0 e)
            (unfold get_min_timestamp in back-least owner_ts l.owners v.sorted)

      by_tests :
          (a : Bool)
          → (get_min_timestamp l == ts) ≡ a
          → (b : Bool) → ltb 1 (length l.owners) ≡ b
          → (c : Bool) → (length l.owners == 1) ≡ c
          → Requested (upgrade_shared ts l)
      by_tests false e b f c g = rw e (record { sound = v; no_throw = λ x. cc })
      by_tests true e true f c g =
          rw (e, f)
            record {
              sound = record {
                matches = v.matches;
                sorted = v.sorted;
                waiting =
                    subst
                      (λ op.
                        IsWaiting op l.owners
                          (insert waiter_ts (record { ts = ts; op = upgrade }) l.waiters))
                      (sym r.mode)
                      (IsWaiting-upgrade ts l.owners l.waiters (low e) r.owner
                        (ltb→lt 1 (length l.owners) f) r.not_waiting
                        (subst (λ op. IsWaiting op l.owners l.waiters) r.mode v.waiting));
              };
              no_throw = λ x. cc;
            }
      by_tests true e false f true g =
          let one : length l.owners ≡ 1 = (==_iff (length l.owners) 1).0 g in
          rw (e, f, g)
            record {
              sound = record {
                matches = one;
                sorted = v.sorted;
                waiting =
                    IsWaiting-exclusive l.owners l.waiters one
                      (subst (λ op. IsWaiting op l.owners l.waiters) r.mode v.waiting);
              };
              no_throw = λ x. cc;
            }
      by_tests true e false f false g = rw (e, f, g) (record { sound = v; no_throw = λ x. cc })

  pub try_lock_upgrade-Requested : IsReader ts l → Requested (try_lock_upgrade ts l)
  unfolding try_lock_upgrade
  try_lock_upgrade-Requested r = rw (r.mode, try_lock_upgrade) (upgrade_shared-Requested r)
