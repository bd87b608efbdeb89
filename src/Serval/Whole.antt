-- ===== src/Serval/Whole.antt =====
-- serval.hpp: `do_append_pending_version` on a row whose lock is free, when no other thread comes
-- between its steps.
use tpcc_runner.Base.{
  ℕ, ◌≡◌, refl, sym, ap, subst, ◌∙◌, true, false, Option, none, some, List, [], ◌∷◌, ltb, arith,
  ◌==◌, if◌then◌else◌, ◌+ℤ◌, inl, inr, ◌⊎◌,
}
use tpcc_runner.Rwlock.Calls.{unlocked, write_locked, try_lock, unlock}
use tpcc_runner.Serval.Vector.{back}
use tpcc_runner.Serval.Defs.{Version, Store, Transaction, set_row}
use tpcc_runner.Serval.Appends.{
  Outcome, returns, throws, waits, Round, try_lock_row, unlock_row, guard_round, epoch_guard,
  initialize_the_row, append_to_contented_row, append_to_unconted_row,
}
use tpcc_runner.Serval.Install.{do_append_pending_version, append_to_row}
use tpcc_runner.Serval.Rows.{versions_in, IsRow, IsPlaced}
use tpcc_runner.Serval.Begin.{IsBegun, initialize_the_row-begins, IsKept, initialize_the_row-IsKept}
use tpcc_runner.Serval.Order.{InOrder}
use tpcc_runner.Serval.Refine.{
  View, view, IsSerial, with_pending, IsAppended, uncontended, contended,
}

abbrev pub quiet : Round
quiet = record { before = λ s. s; between = λ s. s }

abbrev locked_row : ℕ → Store → Store
locked_row p s = set_row p (record (s.rows p) { rwl = write_locked }) s

try_lock_row-free :
    (p : ℕ) (s : Store) → (s.rows p).rwl ≡ unlocked → try_lock_row p s ≡ some (locked_row p s)
unfolding try_lock_row try_lock
try_lock_row-free p s f = rw f refl

-- The call has returned, from the store s, with a new version that is pending and appended to this
-- view of the row, no other version changed, and the lock free.
unfoldable pub Appends : Transaction → ℕ → View → Store → Outcome (ℕ × Store) → Type 0
Appends tx p before s (returns (v, t)) =
    (v ≡ s.next) × IsAppended tx p v unlocked before (with_pending s) t
Appends tx p before s throws = ⊥
Appends tx p before s (waits w) = ⊥

unlock-IsAppended :
    (tx : Transaction) (p v : ℕ) (before : View) (versions : ℕ → Version) (t : Store)
    → IsAppended tx p v write_locked before versions t
    → IsAppended tx p v unlocked before versions (unlock_row p t)
unfolding versions_in unlock ◌+ℤ◌
unlock-IsAppended tx p v before versions t a =
    let here : (p == p) ≡ true = ground arith in
    record {
      created = a.created;
      same = rw here a.same;
      row = rw here a.row;
      rwl = rw (here, a.rwl) refl;
    }

module _ (num_regions : ℕ) (tx : Transaction) (p : ℕ) (serial : IsSerial tx) where
  under_lock :
      (l : Store) (o : Option ℕ)
      → (l.rows p).row_region ≡ o
      → (l.rows p).rwl ≡ write_locked
      → IsRow (l.rows p) l.regions
      → InOrder tx.core tx.serial_id (versions_in (l.rows p) l.regions)
      → (let appended = append_to_row tx p o l in
          (appended.0 ≡ l.next)
          × IsAppended tx p appended.0 write_locked (view p l) (with_pending l) appended.1)
  unfolding versions_in append_to_row
  under_lock l none n f w o = (
    refl,
    subst
        (λ k.
          IsAppended tx p l.next k (view p l) (with_pending l) (append_to_unconted_row tx p l).1)
        f
        (uncontended tx p l serial n (subst (IsPlaced (l.rows p) l.regions) n w)
          (subst (InOrder tx.core tx.serial_id) (rw n refl) o)),
  )
  under_lock l (some q) n f w o = (
    refl,
    subst
        (λ k.
          IsAppended tx p l.next k (view p l) (with_pending l) (append_to_contented_row tx q l).1)
        f
        (contended tx p l serial q n (subst (IsPlaced (l.rows p) l.regions) n w)
          (subst (InOrder tx.core tx.serial_id) (rw n refl) o)),
  )

  -- After the loop that guards the epoch, whatever came in its rounds, on a row with a free lock.
  guarded :
      (guard installation : List Round) (s g : Store)
      → epoch_guard tx p guard s ≡ returns g
      → (g.rows p).rwl ≡ unlocked
      → IsRow (g.rows p) g.regions
      → InOrder tx.core tx.serial_id (versions_in (g.rows p) g.regions)
      → Appends tx p (view p g) g (do_append_pending_version num_regions tx p guard installation s)
  unfolding do_append_pending_version Appends versions_in
  guarded guard installation s g e f w o =
      let here : (p == p) ≡ true = ground arith in
      let l = locked_row p g in
      let appended = append_to_row tx p (l.rows p).row_region l in
      let same : view p l ≡ view p g = rw here refl in
      let (fresh, done) =
        under_lock l (l.rows p).row_region refl (rw here refl) (rw here w) (rw here o) in
      rw (e, try_lock_row-free p g f)
        (
          fresh,
          unlock-IsAppended tx p appended.0 (view p g) (with_pending g) appended.1 (
              subst (λ b. IsAppended tx p appended.0 write_locked b (with_pending g) appended.1)
                same done),
        )

  guard-current :
      (s : Store)
      → ltb (s.rows p).epoch tx.epoch ≡ false
      → epoch_guard tx p (quiet ∷ []) s ≡ returns s
  unfolding epoch_guard guard_round
  guard-current s e = rw e refl

  guard-begins :
      (s : Store)
      → (s.rows p).rwl ≡ unlocked
      → ltb (s.rows p).epoch tx.epoch ≡ true
      → epoch_guard tx p (quiet ∷ []) s
        ≡ returns (unlock_row p (initialize_the_row tx p (locked_row p s)))
  unfolding epoch_guard guard_round
  guard-begins s f e =
      let here : (p == p) ≡ true = ground arith in
      let inner : ltb ((locked_row p s).rows p).epoch tx.epoch ≡ true = rw here e in
      rw (e, try_lock_row-free p s f, inner) refl

  -- The row of an earlier epoch, which begins the epoch of the transaction.
  begun :
      (s : Store) (id latest : ℕ)
      → IsRow (s.rows p) s.regions
      → back (versions_in (s.rows p) s.regions) ≡ some (id, latest)
      → (let t = initialize_the_row tx p (locked_row p s) in
          IsBegun tx latest write_locked (t.rows p) t.regions)
  unfolding versions_in
  begun s id latest w b =
      let here : (p == p) ≡ true = ground arith in
      let l = locked_row p s in
      subst (λ k. let t = initialize_the_row tx p l in IsBegun tx latest k (t.rows p) t.regions)
        (rw here refl) (initialize_the_row-begins tx p l id latest (rw here w) (rw here b))

-- What the guard of the epoch does: a row of an earlier epoch begins the transaction's with its last
-- version as the master version.
unfoldable pub spec_begin : Transaction → View → View
unfolding back
spec_begin tx row = if ltb row.epoch tx.epoch then begin (back row.versions) else row
  where
    begin : Option (ℕ × ℕ) → View
    begin none = record { epoch = tx.epoch; master = row.master; versions = [] }
    begin (some (id, latest)) = record { epoch = tx.epoch; master = latest; versions = [] }

-- The row can be appended to: it is of an earlier epoch and has a version, or it is of this one and
-- the transaction is the next one of its core.
abbrev pub IsReady : Transaction → View → Type 0
IsReady tx row =
    ((ltb row.epoch tx.epoch ≡ true) × ((v : ℕ × ℕ) × (back row.versions ≡ some v)))
    ⊎ ((row.epoch ≡ tx.epoch) × InOrder tx.core tx.serial_id row.versions)

-- Only the versions and the allocator of the store before matter to the outcome.
Appends-kept :
    (tx : Transaction) (p : ℕ) (before : View) (s g : Store)
    → IsKept s g
    → (o : Outcome (ℕ × Store)) → Appends tx p before g o
    → Appends tx p before s o
unfolding Appends
Appends-kept tx p before s g (kept, fresh) (returns (v, t)) (new, a) = (
  new ∙ fresh,
  record { created = rw (a.created, kept, fresh) refl; same = a.same; row = a.row; rwl = a.rwl },
)
Appends-kept tx p before s g k throws a = a
Appends-kept tx p before s g k (waits w) a = a

-- The append to a row that has just begun its epoch.
guarded_start :
    (num_regions : ℕ) (tx : Transaction) (p : ℕ) (installation : List Round) (s : Store)
    → IsSerial tx
    → (latest : ℕ) (t : Store) → IsBegun tx latest write_locked (t.rows p) t.regions
    → epoch_guard tx p (quiet ∷ []) s ≡ returns (unlock_row p t)
    → IsKept s t
    → Appends tx p
        (record { epoch = tx.epoch; master = latest; versions = [] })
        s
        (do_append_pending_version num_regions tx p (quiet ∷ []) installation s)
unfolding versions_in unlock ◌+ℤ◌
guarded_start n tx p installation s serial latest t start e (kept, fresh) =
    let here : (p == p) ≡ true = ground arith in
    let g = unlock_row p t in
    let shown : view p g ≡ record { epoch = tx.epoch; master = latest; versions = [] } =
      rw (here, start.epoch, start.master, start.empty) refl in
    Appends-kept tx p (record { epoch = tx.epoch; master = latest; versions = [] }) s g
      (kept, fresh) (do_append_pending_version n tx p (quiet ∷ []) installation s)
      (subst (λ b. Appends tx p b g (do_append_pending_version n tx p (quiet ∷ []) installation s))
        shown
        (guarded n tx p serial (quiet ∷ []) installation s g e (rw (here, start.rwl) refl)
          (rw here start.row)
          (subst (InOrder tx.core tx.serial_id) (sym (ap (λ b. b.versions) shown)) tt)))

-- On a row that is well formed and either of an earlier epoch with a version, or of the epoch of
-- the transaction, which is the next one of its core, with its lock free and no other thread
-- between its steps, the append by a transaction of a core below 64, whose serial identifier is
-- made of that core and a number below 64, returns a new version, which is pending; no other
-- version has changed. The row is then what the specification makes of it, whether its versions
-- are in an array or in a region: the epoch begun where it was an earlier one, and the new version
-- at its place; it is well formed, and its lock is free.
pub do_append-refines :
    (num_regions : ℕ) (tx : Transaction) (p : ℕ) (installation : List Round) (s : Store)
    → IsSerial tx
    → (s.rows p).rwl ≡ unlocked
    → IsRow (s.rows p) s.regions
    → IsReady tx (view p s)
    → Appends tx p
        (spec_begin tx (view p s))
        s
        (do_append_pending_version num_regions tx p (quiet ∷ []) installation s)
unfolding spec_begin
do_append-refines n tx p installation s serial f w (inr (same, o)) =
    let e : ltb (s.rows p).epoch tx.epoch ≡ false = ground arith in
    rw e
      (guarded n tx p serial (quiet ∷ []) installation s s (guard-current n tx p serial s e) f w o)
do_append-refines n tx p installation s serial f w (inl (e, ((id, latest), b))) =
    let start = begun n tx p serial s id latest w b in
    rw (e, b)
      (guarded_start n tx p installation s serial latest (initialize_the_row tx p (locked_row p s))
        start (guard-begins n tx p serial s f e) (initialize_the_row-IsKept tx p (locked_row p s)))
