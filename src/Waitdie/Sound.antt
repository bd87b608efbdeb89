-- ===== src/Waitdie/Sound.antt =====
-- waitdielock.hpp: what the owners and the waiters of a lock look like between two calls.
use tpcc_runner.Base.{
  ℕ, ◌≤◌, ◌<◌, ◌≡◌, ◌⊎◌, true, ◌||◌, List, [], ◌∷◌, length, All, if◌then◌else◌, ◌==◌, ◌+◌,
}
use tpcc_runner.Waitdie.SortedList.{IsSorted, Falls, count}
use tpcc_runner.Waitdie.Lock.{
  Operation, invalid, shared, exclusive, upgrade, is, Waiter, waiter_ts, owner_ts, Lock,
}

-- The mode says how many owners there are.
abbrev pub Matches : Operation → List ℕ → Type 0
Matches invalid owners = length owners ≡ 0
Matches shared owners = 0 < length owners
Matches exclusive owners = length owners ≡ 1
Matches upgrade owners = ⊥

-- A waiter that does not own the lock yet.
abbrev pub IsPlain : Waiter → Type 0
IsPlain w = (is w.op shared || is w.op exclusive) ≡ true

-- Waiters older than every owner, youngest first.
abbrev pub IsQueue : List ℕ → List Waiter → Type 0
IsQueue owners [] = Unit {0}
IsQueue owners (w ∷ ws) =
    All (λ o. w.ts < o) owners × Falls waiter_ts w.ts ws × All IsPlain (w ∷ ws)

-- A first waiter that is the oldest of several owners, and waits for the others to go.
abbrev pub IsUpgrading : Operation → List ℕ → Waiter → List Waiter → Type 0
IsUpgrading op owners w ws =
    (w.op ≡ upgrade)
    × (op ≡ shared)
    × (2 ≤ length owners)
    × (count owner_ts w.ts owners ≡ 1)
    × All (λ o. w.ts ≤ o) owners
    × Falls waiter_ts w.ts ws
    × All IsPlain ws

-- Nobody waits for a lock without an owner.
abbrev pub IsWaiting : Operation → List ℕ → List Waiter → Type 0
IsWaiting op owners [] = Unit {0}
IsWaiting op owners (w ∷ ws) =
    (0 < length owners) × (IsQueue owners (w ∷ ws) ⊎ IsUpgrading op owners w ws)

pub record IsSound (l : Lock) : Type 0 where
  pub matches : Matches l.op l.owners
  pub sorted : IsSorted owner_ts l.owners
  pub waiting : IsWaiting l.op l.owners l.waiters

-- The first waiter cannot have the lock yet.
abbrev pub IsBlocked : Lock → List Waiter → Type 0
IsBlocked l [] = Unit {0}
IsBlocked l (w ∷ ws) =
    (l.op ≡ exclusive)
    ⊎ ((l.op ≡ shared) × ((w.op ≡ exclusive) ⊎ ((w.op ≡ upgrade) × (2 ≤ length l.owners))))

-- How often a transaction stands in a lock: as an owner, or as a waiter that is not one yet.
abbrev pub plain_count : ℕ → List Waiter → ℕ
plain_count t [] = 0
plain_count t (w ∷ ws) =
    (if is w.op upgrade then 0 else (if w.ts == t then 1 else 0)) + plain_count t ws
