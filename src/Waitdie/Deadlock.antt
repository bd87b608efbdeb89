-- ===== src/Waitdie/Deadlock.antt =====
-- waitdielock.hpp: who waits for whom, over all locks.
use tpcc_runner.Base.{ℕ, ◌≡◌, ◌≢◌, ◌<◌, ◌⊎◌, inl, inr, List, [], ◌∷◌, length, arith, subst}
use tpcc_runner.Waitdie.SortedList.{count, Falls}
use tpcc_runner.Waitdie.Lock.{
  invalid, shared, exclusive, upgrade, Operation, Waiter, waiter_ts, owner_ts, Lock,
}
use tpcc_runner.Waitdie.Sound.{Matches, IsWaiting}
use tpcc_runner.Waitdie.Calls.{lt-count}
use tpcc_runner.Waitdie.Upgrade.{le-count}
use tpcc_runner.Waitdie.History.{Reach, Reach-IsSound}

-- One waiter stands before another in the queue.
abbrev pub Before : ℕ → ℕ → List Waiter → Type 0
Before u t [] = ⊥
Before u t (w ∷ ws) = ((w.ts ≡ u) × (0 < count waiter_ts t ws)) ⊎ Before u t ws

-- A waiter waits for every other owner, and for every waiter before it.
abbrev pub WaitsFor : Lock → ℕ → ℕ → Type 0
WaitsFor l t u =
    ((0 < count waiter_ts t l.waiters) × (0 < count owner_ts u l.owners) × (t ≢ u))
    ⊎ Before u t l.waiters

-- Who waits for a chain of transactions, each at some lock.
pub data Chain {ℓ} {K : Type ℓ} (locks : K → Lock) : ℕ → ℕ → Type ℓ where
  one : {t u : ℕ} (k : K) → WaitsFor (locks k) t u → Chain locks t u
  more : {t u v : ℕ} (k : K) → WaitsFor (locks k) t u → Chain locks u v → Chain locks t v

Falls-count : (n t : ℕ) (ws : List Waiter) → Falls waiter_ts n ws → 0 < count waiter_ts t ws → t < n
unfolding count
Falls-count n t [] f c = absurd (omega arith)
Falls-count n t (w ∷ ws) f c = ground (arith, f.0, Falls-count w.ts t ws f.1)

Before-lt : (n u t : ℕ) (ws : List Waiter) → Falls waiter_ts n ws → Before u t ws → t < u
Before-lt n u t [] f h = absurd h
Before-lt n u t (w ∷ ws) f (inl h) = omega (arith, h.0, Falls-count w.ts t ws f.1 h.1)
Before-lt n u t (w ∷ ws) f (inr h) = Before-lt w.ts u t ws f.1 h

waiting-lt :
    (op : Operation) (owners : List ℕ) (ws : List Waiter) (t u : ℕ)
    → IsWaiting op owners ws
    → ((0 < count waiter_ts t ws) × (0 < count owner_ts u owners) × (t ≢ u)) ⊎ Before u t ws
    → t < u
unfolding count
waiting-lt op owners [] t u q (inl h) = absurd (omega (arith, h.0))
waiting-lt op owners [] t u q (inr h) = absurd h
waiting-lt op owners (w ∷ ws) t u (_, inl q) (inl h) =
    ground (arith, lt-count w.ts u owners q.0 h.1, Falls-count w.ts t ws q.1, h.0)
waiting-lt op owners (w ∷ ws) t u (_, inr q) (inl h) =
    ground (arith, le-count w.ts u owners q.4 h.1, Falls-count w.ts t ws q.5, h.0, h.2)
waiting-lt op owners (w ∷ ws) t u (_, inl q) (inr h) =
    Before-lt (ℕ.suc w.ts) u t (w ∷ ws) (omega arith, q.1) h
waiting-lt op owners (w ∷ ws) t u (_, inr q) (inr h) =
    Before-lt (ℕ.suc w.ts) u t (w ∷ ws) (omega arith, q.5) h

-- In any history, a transaction waits only for younger ones.
pub WaitsFor-younger : {l : Lock} → Reach l → (t u : ℕ) → WaitsFor l t u → t < u
WaitsFor-younger {l} r t u = waiting-lt l.op l.owners l.waiters t u (Reach-IsSound r).waiting

Chain-lt {ℓ} :
    {K : Type ℓ} (locks : K → Lock)
    → ((k : K) → Reach (locks k))
    → {t u : ℕ} → Chain locks t u
    → t < u
Chain-lt locks r (one k w) = WaitsFor-younger (r k) _ _ w
Chain-lt locks r (more k w c) = omega (arith, WaitsFor-younger (r k) _ _ w, Chain-lt locks r c)

-- However many locks there are and whatever histories of disciplined calls they have had, no
-- transaction waits for itself through a chain of others.
pub no_deadlock {ℓ} :
    {K : Type ℓ} (locks : K → Lock) → ((k : K) → Reach (locks k)) → (t : ℕ) → ¬ Chain locks t t
no_deadlock locks r t c = omega (arith, Chain-lt locks r c)

has_owner :
    (op : Operation) (owners : List ℕ) (ws : List Waiter)
    → IsWaiting op owners ws
    → 0 < length ws
    → 0 < length owners
has_owner op owners [] h n = absurd (omega arith)
has_owner op owners (w ∷ ws) h n = h.0

-- In any history the mode of a lock and its owners agree: an invalid lock has no owner, a shared
-- one has at least one, an exclusive one has one, and the mode is never upgrade; and a lock that
-- somebody waits for has an owner.
pub mode_and_owners_agree :
    {l : Lock}
    → Reach l
    → ((l.op ≡ invalid) → length l.owners ≡ 0)
      × ((l.op ≡ shared) → 0 < length l.owners)
      × ((l.op ≡ exclusive) → length l.owners ≡ 1)
      × (l.op ≢ upgrade)
      × ((0 < length l.waiters) → 0 < length l.owners)
mode_and_owners_agree {l} r =
    let v = Reach-IsSound r in
    let by_mode : (op : Operation) → l.op ≡ op → Matches op l.owners =
      λ op e. subst (λ o. Matches o l.owners) e v.matches in
    (
      by_mode invalid,
      by_mode shared,
      by_mode exclusive,
      by_mode upgrade,
      has_owner l.op l.owners l.waiters v.waiting,
    )
