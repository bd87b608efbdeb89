-- ===== src/Waitdie/History.antt =====
-- waitdielock.hpp: histories of calls on one lock, by transactions that keep to the discipline.
use tpcc_runner.Base.{ℕ, ◌≡◌, ◌≢◌, Option, none, some, List, refl, sym, subst}
use tpcc_runner.Waitdie.Lock.{
  shared, exclusive, Lock, Answer, thrown, try_lock_shared, try_lock, try_lock_upgrade,
  unlock_shared, unlock, release, unlocked,
}
use tpcc_runner.Waitdie.Sound.{IsSound}
use tpcc_runner.Waitdie.Calls.{IsNew, Requested, try_lock_shared-Requested, try_lock-Requested}
use tpcc_runner.Waitdie.Upgrade.{IsReader, try_lock_upgrade-Requested}
use tpcc_runner.Waitdie.Release.{IsOwner, Releases, release-Releases}

-- A call, with the timestamp of its transaction.
pub data Event : Type 0 where
  reads writes upgrades unlocks_shared unlocks : (ts : ℕ) → Event

abbrev answered : Lock × Answer → Option Lock
answered (l, thrown) = none
answered (l, _) = some l

abbrev left : Option (Lock × List ℕ) → Option Lock
left none = none
left (some (l, woken)) = some l

-- The lock after a call; `none` where the code throws.
unfoldable pub step : Event → Lock → Option Lock
unfolding try_lock_shared try_lock try_lock_upgrade unlock_shared unlock
step (reads ts) l = answered (try_lock_shared ts l)
step (writes ts) l = answered (try_lock ts l)
step (upgrades ts) l = answered (try_lock_upgrade ts l)
step (unlocks_shared ts) l = left (unlock_shared ts l)
step (unlocks ts) l = left (unlock ts l)

-- A transaction locks what it neither holds nor waits for, upgrades what it holds shared, and
-- gives back what it holds, in the mode in which it holds it.
abbrev pub IsAllowed : Event → Lock → Type 0
IsAllowed (reads ts) l = IsNew ts l
IsAllowed (writes ts) l = IsNew ts l
IsAllowed (upgrades ts) l = IsReader ts l
IsAllowed (unlocks_shared ts) l = (l.op ≡ shared) × IsOwner ts l
IsAllowed (unlocks ts) l = (l.op ≡ exclusive) × IsOwner ts l

pub data Reach : Lock → Type 0 where
  fresh : Reach unlocked
  next : {l r : Lock} (e : Event) → Reach l → IsAllowed e l → step e l ≡ some r → Reach r

-- What a call leaves, if it does not throw.
abbrev pub Sound : Option Lock → Type 0
Sound none = ⊥
Sound (some l) = IsSound l

answered-Sound : (r : Lock × Answer) → Requested r → Sound (answered r)
answered-Sound (l, thrown) q = absurd (q.no_throw refl)
answered-Sound (l, Answer.granted) q = q.sound
answered-Sound (l, Answer.refused) q = q.sound
answered-Sound (l, Answer.waits) q = q.sound

left-Sound : (ts : ℕ) (l : Lock) (o : Option (Lock × List ℕ)) → Releases ts l o → Sound (left o)
left-Sound ts l none q = q
left-Sound ts l (some r) q = q.sound

pub step-Sound : (e : Event) (l : Lock) → IsSound l → IsAllowed e l → Sound (step e l)
unfolding step
step-Sound (reads ts) l v h = answered-Sound _ (try_lock_shared-Requested ts l v h)
step-Sound (writes ts) l v h = answered-Sound _ (try_lock-Requested ts l v h)
step-Sound (upgrades ts) l v h = answered-Sound _ (try_lock_upgrade-Requested ts l v h)
step-Sound (unlocks_shared ts) l v h =
    rw (h.0, unlock_shared) (left-Sound ts l _ (release-Releases ts l v h.1))
step-Sound (unlocks ts) l v h = rw (h.0, unlock) (left-Sound ts l _ (release-Releases ts l v h.1))

-- Every lock that a history reaches is sound: its mode matches its owners, and owners and waiters
-- are sorted and distinct.
pub Reach-IsSound : {l : Lock} → Reach l → IsSound l
Reach-IsSound fresh = record { matches = refl; sorted = tt; waiting = tt }
Reach-IsSound (next {l} e r a s) = subst Sound s (step-Sound e l (Reach-IsSound r) a)

-- In any history, a call that keeps to the discipline does not throw.
pub allowed_does_not_throw : {l : Lock} (e : Event) → Reach l → IsAllowed e l → step e l ≢ none
allowed_does_not_throw {l} e r a s = subst Sound s (step-Sound e l (Reach-IsSound r) a)

unlock_shared_of_shared : (ts : ℕ) (l : Lock) → l.op ≡ shared → unlock_shared ts l ≡ release ts l
unfolding unlock_shared
unlock_shared_of_shared ts l e = rw e refl

unlock_of_exclusive : (ts : ℕ) (l : Lock) → l.op ≡ exclusive → unlock ts l ≡ release ts l
unfolding unlock
unlock_of_exclusive ts l e = rw e refl

-- In any history, an owner that does not wait can give the lock back in the mode in which it
-- holds it. What is left is a sound lock whose first waiter is blocked; exactly this owner is gone,
-- and exactly the waiters that are woken have left the queue.
pub unlock-Releases :
    {l : Lock} (ts : ℕ)
    → Reach l
    → IsOwner ts l
    → ((l.op ≡ shared) → Releases ts l (unlock_shared ts l))
      × ((l.op ≡ exclusive) → Releases ts l (unlock ts l))
unlock-Releases {l} ts r h =
    let q = release-Releases ts l (Reach-IsSound r) h in
    (
      λ e. subst (Releases ts l) (sym (unlock_shared_of_shared ts l e)) q,
      λ e. subst (Releases ts l) (sym (unlock_of_exclusive ts l e)) q,
    )
