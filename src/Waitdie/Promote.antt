-- ===== src/Waitdie/Promote.antt =====
-- waitdielock.hpp: `promote_waiters`.
use mathlib.Core.Option
use tpcc_runner.Base.{
  ℕ, ◌+◌, ◌≤◌, ◌<◌, ◌≡◌, ◌⊎◌, inl, inr, refl, Option, none, some, List, [], ◌∷◌, length, All, ◌≢◌,
  All-map, arith, sym, subst,
}
use tpcc_runner.Waitdie.SortedList.{
  insert, IsSorted, IsSorted-insert, IsMissing, Falls, count, count-insert, length-insert,
  All-insert,
}
use tpcc_runner.Waitdie.Lock.{
  Operation, shared, exclusive, upgrade, Waiter, waiter_ts, owner_ts, Lock, Round, finish, error,
  promote, round, promote_waiters,
}
use tpcc_runner.Waitdie.Sound.{Matches, IsPlain, IsQueue, IsSound, IsBlocked, plain_count}

-- What the promotion makes of owners and waiters: a sound lock whose first waiter is blocked, with
-- everybody in it who was there; who is woken has left the queue.
pub record Promoted (owners : List ℕ) (ws : List Waiter) (r : Lock × List ℕ) : Type 0 where
  pub sound : IsSound r.0
  pub blocked : IsBlocked r.0 r.0.waiters
  pub woken : (t : ℕ) → count owner_ts t r.1 + count waiter_ts t r.0.waiters ≡ count waiter_ts t ws
  pub kept :
      (t : ℕ)
      → count owner_ts t r.0.owners + plain_count t r.0.waiters
        ≡ count owner_ts t owners + plain_count t ws

abbrev pub Promotes : List ℕ → List Waiter → Option (Lock × List ℕ) → Type 0
Promotes owners ws none = ⊥
Promotes owners ws (some r) = Promoted owners ws r

-- A plain waiter that is older than all owners stays, or becomes one of them.
abbrev Decided : Waiter → Operation → List ℕ → Round → Type 0
Decided w op owners finish =
    (0 < length owners) × ((op ≡ exclusive) ⊎ ((op ≡ shared) × (w.op ≡ exclusive)))
Decided w op owners error = ⊥
Decided w op owners (promote op' owners') =
    Matches op' owners' × (owners' ≡ insert owner_ts w.ts owners)

round-Decided :
    (w : Waiter) (op : Operation) (owners : List ℕ)
    → Matches op owners
    → IsPlain w
    → Decided w op owners (round w op owners)
unfolding round
round-Decided w op owners m p = ground (arith, length-insert owner_ts w.ts owners)

above-IsMissing : (t : ℕ) (l : List ℕ) → All (λ o. t < o) l → IsMissing owner_ts t l
above-IsMissing t = All-map (λ o. t < o) (λ o. o ≢ t) (λ o h. omega arith)

-- After a plain waiter has become an owner, the next one is older than all owners again.
IsQueue-insert :
    (owners : List ℕ) (w : Waiter) (ws : List Waiter)
    → IsQueue owners (w ∷ ws)
    → IsQueue (insert owner_ts w.ts owners) ws
IsQueue-insert owners w [] q = tt
IsQueue-insert owners w (v ∷ ws) (above, falls, plain) = (
  All-insert owner_ts (λ o. v.ts < o) w.ts owners falls.0
      (All-map (λ o. w.ts < o) (λ o. v.ts < o) (λ o h. omega (arith, falls.0)) owners above),
  falls.1,
  plain.1,
)

promoted :
    (w : Waiter) (owners owners' : List ℕ) (ws : List Waiter) (o : Option (Lock × List ℕ))
    → IsPlain w
    → owners' ≡ insert owner_ts w.ts owners
    → Promotes owners' ws o
    → Promotes owners (w ∷ ws) (Option.map (λ r. (r.0, w.ts ∷ r.1)) o)
unfolding count
promoted w owners owners' ws none p e h = h
promoted w owners owners' ws (some r) p e h = record {
  sound = h.sound;
  blocked = h.blocked;
  woken = λ t. ground (arith, h.woken t);
  kept = λ t. ground (arith, h.kept t, count-insert owner_ts t w.ts owners);
}

pub promote-plain :
    (op : Operation) (owners : List ℕ) (ws : List Waiter)
    → Matches op owners
    → IsSorted owner_ts owners
    → IsQueue owners ws
    → Promotes owners ws (promote_waiters op owners ws)
unfolding promote_waiters count
promote-plain op owners [] m s q = record {
  sound = record { matches = m; sorted = s; waiting = tt };
  blocked = tt;
  woken = λ t. refl;
  kept = λ t. refl;
}
promote-plain op owners (w ∷ ws) m s q =
    by_round (round w op owners) refl (round-Decided w op owners m q.2.0)
      (λ op' owners'. promote-plain op' owners' ws)
  where
    by_round :
        (r : Round)
        → round w op owners ≡ r
        → Decided w op owners r
        → ((op' : Operation) (owners' : List ℕ)
            → Matches op' owners'
            → IsSorted owner_ts owners'
            → IsQueue owners' ws
            → Promotes owners' ws (promote_waiters op' owners' ws))
        → Promotes owners (w ∷ ws) (promote_waiters op owners (w ∷ ws))
    by_round finish e d rest =
        rw (e, promote_waiters)
          record {
            sound = record { matches = m; sorted = s; waiting = (d.0, inl q) };
            blocked = ground arith;
            woken = λ t. omega arith;
            kept = λ t. refl;
          }
    by_round error e d rest = absurd d
    by_round (promote op' owners') e d rest =
        rw (e, promote_waiters)
          (promoted w owners owners' ws (promote_waiters op' owners' ws) q.2.0 d.1 (
            rest op' owners' d.0
              (subst (IsSorted owner_ts) (sym d.1)
                (IsSorted-insert owner_ts w.ts owners (above-IsMissing w.ts owners q.0) s))
              (subst (λ l. IsQueue l ws) (sym d.1) (IsQueue-insert owners w ws q))))

-- An upgrading waiter becomes the exclusive owner when it is the last one, and else stays.
Grown : Waiter → List ℕ → Round → Type 0
Grown w owners finish = 2 ≤ length owners
Grown w owners error = ⊥
Grown w owners (promote op' owners') = (op' ≡ exclusive) × (owners' ≡ owners) × (length owners ≡ 1)

round-Grown :
    (w : Waiter) (owners : List ℕ)
    → w.op ≡ upgrade
    → 1 ≤ length owners
    → Grown w owners (round w shared owners)
unfolding round Grown
round-Grown w owners u m = ground arith

grown :
    (w : Waiter) (owners : List ℕ) (ws : List Waiter) (o : Option (Lock × List ℕ))
    → w.op ≡ upgrade
    → Promotes owners ws o
    → Promotes owners (w ∷ ws) (Option.map (λ r. (r.0, w.ts ∷ r.1)) o)
unfolding count
grown w owners ws none u h = h
grown w owners ws (some r) u h = record {
  sound = h.sound;
  blocked = h.blocked;
  woken = λ t. ground (arith, h.woken t);
  kept = λ t. ground (arith, h.kept t);
}

IsQueue-of :
    (owners : List ℕ) (t : ℕ) (ws : List Waiter)
    → All (λ o. t ≤ o) owners
    → Falls waiter_ts t ws
    → All IsPlain ws
    → IsQueue owners ws
IsQueue-of owners t [] a f p = tt
IsQueue-of owners t (v ∷ ws) a f p =
    (All-map (λ o. t ≤ o) (λ o. v.ts < o) (λ o h. omega (arith, f.0)) owners a, f.1, p)

pub promote-upgrade :
    (owners : List ℕ) (w : Waiter) (ws : List Waiter)
    → w.op ≡ upgrade
    → 1 ≤ length owners
    → count owner_ts w.ts owners ≡ 1
    → All (λ o. w.ts ≤ o) owners
    → Falls waiter_ts w.ts ws
    → All IsPlain ws
    → IsSorted owner_ts owners
    → Promotes owners (w ∷ ws) (promote_waiters shared owners (w ∷ ws))
unfolding promote_waiters count Grown
promote-upgrade owners w ws u m one low falls plain s =
    by_round (round w shared owners) refl (round-Grown w owners u m)
  where
    by_round :
        (r : Round)
        → round w shared owners ≡ r
        → Grown w owners r
        → Promotes owners (w ∷ ws) (promote_waiters shared owners (w ∷ ws))
    by_round finish e g =
        rw (e, promote_waiters)
          record {
            sound = record {
              matches = m;
              sorted = s;
              waiting = (m, inr (u, refl, g, one, low, falls, plain));
            };
            blocked = inr (refl, inr (u, g));
            woken = λ t. omega arith;
            kept = λ t. refl;
          }
    by_round error e g = absurd g
    by_round (promote op' owners') e g =
        rw (e, promote_waiters)
          (rw (g.0, g.1)
            (grown w owners ws (promote_waiters exclusive owners ws) u (
              promote-plain exclusive owners ws g.2 s (IsQueue-of owners w.ts ws low falls plain))))
