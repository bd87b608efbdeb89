-- ===== src/Waitdie/Lock.antt =====
-- waitdielock.hpp: `WaitDieLock`. A waiter's node is told by its timestamp: to clear its spin
-- variable is to name it among those woken.
use tpcc_runner.Base.{
  ℕ, Bool, true, false, ◌&&◌, ◌||◌, Option, none, some, List, [], ◌∷◌, ltb, ◌==◌, if◌then◌else◌,
  length,
}
use tpcc_runner.Waitdie.SortedList.{insert, remove, get_back_timestamp}
use mathlib.Core.Option

pub data Operation : Type 0 where
  invalid shared exclusive upgrade : Operation

abbrev pub is : Operation → Operation → Bool
is invalid invalid = true
is shared shared = true
is exclusive exclusive = true
is upgrade upgrade = true
is _ _ = false

-- `WaiterNode`.
pub record Waiter : Type 0 where
  pub ts : ℕ
  pub op : Operation

abbrev pub waiter_ts : Waiter → ℕ
waiter_ts w = w.ts

abbrev pub owner_ts : ℕ → ℕ
owner_ts ts = ts

-- The owners with their mode, and the waiters.
pub record Lock : Type 0 where
  pub op : Operation
  pub owners : List ℕ
  pub waiters : List Waiter

abbrev pub unlocked : Lock
unlocked = record { op = invalid; owners = []; waiters = [] }

-- A call that `waits` returns true when another call wakes it.
pub data Answer : Type 0 where
  granted refused waits thrown : Answer

abbrev pub no_waiter : List Waiter → Bool
no_waiter [] = true
no_waiter (w ∷ ws) = false

unfoldable pub get_min_timestamp : Lock → ℕ
unfolding get_back_timestamp
get_min_timestamp l = get_back_timestamp owner_ts l.owners

unfoldable pub own : Operation → ℕ → Lock → Lock × Answer
unfolding insert
own op ts l = (record l { op = op; owners = insert owner_ts ts l.owners }, granted)

unfoldable pub enqueue : Operation → ℕ → Lock → Lock × Answer
unfolding insert
enqueue op ts l =
    (record l { waiters = insert waiter_ts (record { ts = ts; op = op }) l.waiters }, waits)

-- An older transaction waits, a younger one dies.
unfoldable pub wait_or_die : Operation → ℕ → Lock → Lock × Answer
unfolding enqueue get_min_timestamp
wait_or_die op ts l = if ltb ts (get_min_timestamp l) then enqueue op ts l else (l, refused)

unfoldable pub try_lock_shared : ℕ → Lock → Lock × Answer
unfolding own enqueue wait_or_die
try_lock_shared ts l = elim l.op [
  | invalid ↦ if no_waiter l.waiters then own shared ts l else enqueue shared ts l
  | shared ↦ if no_waiter l.waiters then own shared ts l else wait_or_die shared ts l
  | exclusive ↦ wait_or_die shared ts l
  | upgrade ↦ (l, thrown)
]

unfoldable pub try_lock : ℕ → Lock → Lock × Answer
unfolding own enqueue wait_or_die
try_lock ts l = elim l.op [
  | invalid ↦ if no_waiter l.waiters then own exclusive ts l else enqueue exclusive ts l
  | shared ↦ wait_or_die exclusive ts l
  | exclusive ↦ wait_or_die exclusive ts l
  | upgrade ↦ (l, thrown)
]

unfoldable pub upgrade_shared : ℕ → Lock → Lock × Answer
unfolding enqueue get_min_timestamp
upgrade_shared ts l =
    if get_min_timestamp l == ts && ltb 1 (length l.owners)
    then enqueue upgrade ts l
    else (if get_min_timestamp l == ts && length l.owners == 1
        then (record l { op = exclusive }, granted)
        else (l, refused))

unfoldable pub try_lock_upgrade : ℕ → Lock → Lock × Answer
unfolding upgrade_shared
try_lock_upgrade ts l = elim l.op [ shared ↦ upgrade_shared ts l | _ ↦ (l, thrown) ]

-- What one round of `promote_waiters` decides about the first waiter.
pub data Round : Type 0 where
  finish error : Round
  promote : (op : Operation) (owners : List ℕ) → Round

unfoldable pub round : Waiter → Operation → List ℕ → Round
unfolding insert
round w o_op owners =
    let num_owners = length owners in
    let done =
      (is w.op shared && is o_op exclusive)
      || (is w.op exclusive && (is o_op shared || is o_op exclusive))
      || (is w.op upgrade && is o_op shared && ltb 1 num_owners) in
    let bad = is w.op upgrade && (is o_op invalid || is o_op exclusive) in
    if done
    then finish
    else (if bad
        then error
        else (if is w.op shared && (is o_op invalid || is o_op shared)
            then promote shared (insert owner_ts w.ts owners)
            else (if is w.op exclusive && is o_op invalid
                then promote exclusive (insert owner_ts w.ts owners)
                else (if is w.op upgrade && is o_op shared && num_owners == 1
                    then promote exclusive owners
                    else error))))

-- The new lock and the waiters that are woken, first woken first; `none` where the code throws.
unfoldable pub promote_waiters : Operation → List ℕ → List Waiter → Option (Lock × List ℕ)
unfolding round
promote_waiters op owners [] = some (record { op = op; owners = owners; waiters = [] }, [])
promote_waiters op owners (w ∷ ws) = elim (round w op owners) [
  | finish ↦ some (record { op = op; owners = owners; waiters = w ∷ ws }, [])
  | error ↦ none
  | promote op' owners' ↦ Option.map (λ r. (r.0, w.ts ∷ r.1)) (promote_waiters op' owners' ws)
]

-- `OwnerList::remove`, then the promotion.
unfoldable pub release : ℕ → Lock → Option (Lock × List ℕ)
unfolding remove promote_waiters
release ts l = elim (remove owner_ts ts l.owners) [
  | none ↦ none
  | some [] ↦ promote_waiters invalid [] l.waiters
  | some (o ∷ os) ↦ promote_waiters l.op (o ∷ os) l.waiters
]

unfoldable pub unlock_shared : ℕ → Lock → Option (Lock × List ℕ)
unfolding release
unlock_shared ts l = elim l.op [ shared ↦ release ts l | _ ↦ none ]

unfoldable pub unlock : ℕ → Lock → Option (Lock × List ℕ)
unfolding release
unlock ts l = elim l.op [ exclusive ↦ release ts l | _ ↦ none ]
