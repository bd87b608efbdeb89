-- ===== src/Examples/Waiting.antt =====
-- Runs of the WaitDie lock.
use tpcc_runner.Base.{ℕ, ◌≡◌, ◌≢◌, ◌<◌, refl, arith, none, some, [], ◌∷◌, inl, length}
use tpcc_runner.Waitdie.SortedList.{insert, remove, get_back_timestamp, count}
use tpcc_runner.Waitdie.Lock.{
  invalid, shared, exclusive, upgrade, Lock, unlock, unlock_shared, try_lock, try_lock_shared,
  try_lock_upgrade,
}
use tpcc_runner.Waitdie.Calls.{IsNew}
use tpcc_runner.Waitdie.Release.{IsOwner, Releases}
use tpcc_runner.Waitdie.History.{
  reads, writes, upgrades, step, Reach, fresh, next, allowed_does_not_throw, unlock-Releases,
  Reach-IsSound,
}
use tpcc_runner.Waitdie.Sound.{IsSound}
use tpcc_runner.Waitdie.Deadlock.{WaitsFor-younger, no_deadlock, mode_and_owners_agree, Chain}

-- Two readers, 20 and 10; 10 waits to upgrade, and 5 waits to write.
abbrev read_by_two : Lock
read_by_two = record { op = shared; owners = 20 ∷ 10 ∷ []; waiters = [] }

abbrev upgrading : Lock
upgrading = record {
  op = shared;
  owners = 20 ∷ 10 ∷ [];
  waiters = record { ts = 10; op = upgrade } ∷ [];
}

abbrev crowded : Lock
crowded = record {
  op = shared;
  owners = 20 ∷ 10 ∷ [];
  waiters = record { ts = 10; op = upgrade } ∷ record { ts = 5; op = exclusive } ∷ [];
}

read_by_two-Reach : Reach read_by_two
unfolding step try_lock_shared insert
read_by_two-Reach =
    next (reads 10) (next (reads 20) fresh (record { no_owner = tt; not_waiting = tt }) refl)
      (record { no_owner = (omega arith, tt); not_waiting = tt }) refl

upgrading-Reach : Reach upgrading
unfolding step try_lock_upgrade insert get_back_timestamp count
upgrading-Reach =
    next (upgrades 10) read_by_two-Reach (record { mode = refl; owner = refl; not_waiting = tt })
      refl

five-IsNew : IsNew 5 upgrading
five-IsNew = record { no_owner = (omega arith, (omega arith, tt)); not_waiting = (omega arith, tt) }

crowded-Reach : Reach crowded
unfolding step try_lock insert get_back_timestamp
crowded-Reach = next (writes 5) upgrading-Reach five-IsNew refl

twenty_owns : IsOwner 20 crowded
unfolding count
twenty_owns = record { owner = refl; not_waiting = (omega arith, (omega arith, tt)) }

-- When 20 goes, 10 writes alone and 5 still waits.
unlock_shared_wakes_upgrade :
    unlock_shared 20 crowded
    ≡ some (
      record { op = exclusive; owners = 10 ∷ []; waiters = record { ts = 5; op = exclusive } ∷ [] },
      10 ∷ [],
    )
unfolding unlock_shared remove
unlock_shared_wakes_upgrade = refl

Reach-IsSound_example : IsSound crowded
Reach-IsSound_example = Reach-IsSound crowded-Reach

allowed_does_not_throw_example : step (writes 5) upgrading ≢ none
allowed_does_not_throw_example = allowed_does_not_throw (writes 5) upgrading-Reach five-IsNew

unlock-Releases_example :
    ((crowded.op ≡ shared) → Releases 20 crowded (unlock_shared 20 crowded))
    × ((crowded.op ≡ exclusive) → Releases 20 crowded (unlock 20 crowded))
unlock-Releases_example = unlock-Releases 20 crowded-Reach twenty_owns

WaitsFor-younger_example : 5 < 20
unfolding count
WaitsFor-younger_example =
    WaitsFor-younger crowded-Reach 5 20 (inl (omega arith, omega arith, omega arith))

no_deadlock_example : ¬ Chain (λ (k : ℕ). crowded) 5 5
no_deadlock_example = no_deadlock (λ k. crowded) (λ k. crowded-Reach) 5

mode_and_owners_agree_example :
    ((crowded.op ≡ invalid) → length crowded.owners ≡ 0)
    × ((crowded.op ≡ shared) → 0 < length crowded.owners)
    × ((crowded.op ≡ exclusive) → length crowded.owners ≡ 1)
    × (crowded.op ≢ upgrade)
    × ((0 < length crowded.waiters) → 0 < length crowded.owners)
mode_and_owners_agree_example = mode_and_owners_agree crowded-Reach
