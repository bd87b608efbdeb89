-- ===== src/Nowait/Locks.antt =====
-- What a transaction's elements say of the locks. `env v` is the count that the other transactions
-- have given the lock of value v: shared holders less exclusive holders.
use tpcc_runner.Base.{
  ℕ, ◌+◌, ◌≤◌, ◌<◌, ◌≡◌, ◌≢◌, false, none, some, ℤ, pos, pos_part, neg_part, ◌+ℤ◌, ◌==◌,
  if◌then◌else◌, arith,
}
use tpcc_runner.Base.Tables.{weight, find_entry, weight-assign_entry}
use tpcc_runner.Rwlock.Calls.{try_lock_shared, try_lock, try_lock_upgrade}
use tpcc_runner.Nowait.Defs.{read_type, update_type, delete_type, Element, State}
use tpcc_runner.Nowait.Access.{
  lock_for_read, lock_for_update, upgrade_for_update, write_again, lock_for_remove,
  upgrade_for_remove, drop_write,
}

-- The shared and exclusive locks on a value that an element stands for.
abbrev pub shares : ℕ → Element → ℕ
shares v e = elim e.rwt [ read_type ↦ (if e.val == v then 1 else 0) | _ ↦ 0 ]

abbrev pub owns : ℕ → Element → ℕ
owns v e = elim e.rwt [ read_type ↦ 0 | _ ↦ (if e.val == v then 1 else 0) ]

-- Every lock count is that of the other transactions, with a shared lock for each read element and
-- an exclusive one for each other; values not yet allocated are unknown to all.
pub record IsHeld {tree : Type 0} (env : ℕ → ℤ) (s : State tree) : Type 0 where
  pub balance :
      (v : ℕ)
      → pos_part (s.cnt v) + neg_part (env v) + weight (owns v) s.tables
        ≡ neg_part (s.cnt v) + pos_part (env v) + weight (shares v) s.tables
  pub fresh :
      (v : ℕ)
      → s.next ≤ v
      → (env v ≡ pos 0) × (weight (owns v) s.tables ≡ 0) × (weight (shares v) s.tables ≡ 0)

module _ {tree : Type 0} (env : ℕ → ℤ) (t k : ℕ) (s : State tree) (h : IsHeld env s) where
  pub lock_for_read-IsHeld :
      (val : ℕ)
      → find_entry t k s.tables ≡ none
      → val < s.next
      → IsHeld env (lock_for_read t k val s).0
  unfolding lock_for_read try_lock_shared ◌+ℤ◌
  lock_for_read-IsHeld val new old =
      let e : Element = record { rec = 0; rwt = read_type; is_new = false; val = val } in
      record {
        balance = λ v. ground (
          arith,
          h.balance v,
          weight-assign_entry (shares v) t k e s.tables,
          weight-assign_entry (owns v) t k e s.tables,
        );
        fresh = λ v le. ground (
          arith,
          h.fresh v,
          weight-assign_entry (shares v) t k e s.tables,
          weight-assign_entry (owns v) t k e s.tables,
        );
      }

  pub lock_for_update-IsHeld :
      (val : ℕ)
      → find_entry t k s.tables ≡ none
      → val < s.next
      → IsHeld env (lock_for_update t k val s).0
  unfolding lock_for_update try_lock
  lock_for_update-IsHeld val new old =
      let e : Element = record { rec = s.next; rwt = update_type; is_new = false; val = val } in
      record {
        balance = λ v. ground (
          arith,
          h.balance v,
          weight-assign_entry (shares v) t k e s.tables,
          weight-assign_entry (owns v) t k e s.tables,
        );
        fresh = λ v le. ground (
          arith,
          h.fresh v,
          weight-assign_entry (shares v) t k e s.tables,
          weight-assign_entry (owns v) t k e s.tables,
        );
      }

  pub lock_for_remove-IsHeld :
      (val : ℕ)
      → find_entry t k s.tables ≡ none
      → val < s.next
      → IsHeld env (lock_for_remove t k val s).0
  unfolding lock_for_remove try_lock
  lock_for_remove-IsHeld val new old =
      let e : Element = record { rec = 0; rwt = delete_type; is_new = false; val = val } in
      record {
        balance = λ v. ground (
          arith,
          h.balance v,
          weight-assign_entry (shares v) t k e s.tables,
          weight-assign_entry (owns v) t k e s.tables,
        );
        fresh = λ v le. ground (
          arith,
          h.fresh v,
          weight-assign_entry (shares v) t k e s.tables,
          weight-assign_entry (owns v) t k e s.tables,
        );
      }

  module _ (e : Element) (at : find_entry t k s.tables ≡ some e) where
    pub upgrade_for_update-IsHeld : e.rwt ≡ read_type → IsHeld env (upgrade_for_update t k e s).0
    unfolding upgrade_for_update try_lock_upgrade
    upgrade_for_update-IsHeld r =
        let e' = record e { rec = s.next; rwt = update_type } in
        record {
          balance = λ v. ground (
            arith,
            h.balance v,
            weight-assign_entry (shares v) t k e' s.tables,
            weight-assign_entry (owns v) t k e' s.tables,
          );
          fresh = λ v le. ground (
            arith,
            h.fresh v,
            weight-assign_entry (shares v) t k e' s.tables,
            weight-assign_entry (owns v) t k e' s.tables,
          );
        }

    pub upgrade_for_remove-IsHeld : e.rwt ≡ read_type → IsHeld env (upgrade_for_remove t k e s).0
    unfolding upgrade_for_remove try_lock_upgrade
    upgrade_for_remove-IsHeld r =
        let e' = record e { rwt = delete_type } in
        record {
          balance = λ v. ground (
            arith,
            h.balance v,
            weight-assign_entry (shares v) t k e' s.tables,
            weight-assign_entry (owns v) t k e' s.tables,
          );
          fresh = λ v le. ground (
            arith,
            h.fresh v,
            weight-assign_entry (shares v) t k e' s.tables,
            weight-assign_entry (owns v) t k e' s.tables,
          );
        }

    pub drop_write-IsHeld : e.rwt ≢ read_type → IsHeld env (drop_write t k e s).0
    unfolding drop_write
    drop_write-IsHeld r =
        let e' = record e { rec = 0; rwt = delete_type } in
        record {
          balance = λ v. ground (
            arith,
            h.balance v,
            weight-assign_entry (shares v) t k e' s.tables,
            weight-assign_entry (owns v) t k e' s.tables,
          );
          fresh = λ v le. ground (
            arith,
            h.fresh v,
            weight-assign_entry (shares v) t k e' s.tables,
            weight-assign_entry (owns v) t k e' s.tables,
          );
        }

    pub write_again-IsHeld : e.rwt ≡ delete_type → IsHeld env (write_again t k e s).0
    unfolding write_again
    write_again-IsHeld r =
        let e' = record e { rec = s.next; rwt = update_type } in
        record {
          balance = λ v. ground (
            arith,
            h.balance v,
            weight-assign_entry (shares v) t k e' s.tables,
            weight-assign_entry (owns v) t k e' s.tables,
          );
          fresh = λ v le. ground (
            arith,
            h.fresh v,
            weight-assign_entry (shares v) t k e' s.tables,
            weight-assign_entry (owns v) t k e' s.tables,
          );
        }
