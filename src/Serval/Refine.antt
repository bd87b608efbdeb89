-- ===== src/Serval/Refine.antt =====
-- serval.hpp: the append of a pending version as an operation on the row that its readers see.
use tpcc_runner.Base.{
  ℕ, ◌+◌, ◌*◌, ◌<◌, ◌≡◌, refl, sym, ap, subst, ◌∙◌, true, false, none, some, [], arith, ◌==◌, ℤ,
}
use tpcc_runner.Serval.GlobalArray
use tpcc_runner.Serval.GlobalArray.{IdsSlots}
use tpcc_runner.Serval.Region
use tpcc_runner.Serval.Region.{RowRegion}
use tpcc_runner.Serval.Search.{listing}
use tpcc_runner.Serval.Visible.{IsRegion}
use tpcc_runner.Serval.Written.{append-listing, append-IsRegion}
use tpcc_runner.Serval.Moved.{regions-append_in}
use tpcc_runner.Serval.Defs.{pending, Version, Store, Transaction, get_tx_serial, put, set_region}
use tpcc_runner.Serval.Appends.{
  append_in, append_to_contented_row, append_to_unconted_row, create_pending_version,
}
use tpcc_runner.Serval.Rows.{versions_in, IsRow, IsPlaced}
use tpcc_runner.Serval.Begin.{rows-free_all, free_all-IsKept}
use tpcc_runner.Serval.Order.{InOrder, InOrder-IsNext, append-IsAscending, append-AreSerial}

-- A row as its readers see it.
pub record View : Type 0 where
  pub epoch : ℕ
  pub master : ℕ
  pub versions : IdsSlots

abbrev pub view : ℕ → Store → View
view p s = record {
  epoch = (s.rows p).epoch;
  master = (s.rows p).master;
  versions = versions_in (s.rows p) s.regions;
}

-- What an append does: the version stands at the place of its transaction.
unfoldable pub spec_append : Transaction → ℕ → View → View
unfolding GlobalArray.append
spec_append tx version row = record row {
  versions = GlobalArray.append version tx.serial_id row.versions;
}

-- The serial identifier is made of a core and a number below 64.
abbrev pub IsSerial : Transaction → Type 0
IsSerial tx = (tx.core < 64) × (tx.serial_id ≡ tx.core * 64 + get_tx_serial tx.serial_id)

-- The versions with a new one that is pending, without a record and not deleted, and no other change.
abbrev pub with_pending : Store → ℕ → Version
with_pending s = put s.versions s.next (record { rec = 0; status = pending; deleted = false })

-- The store after an append to a row: the view is that of the specification, the row is well formed
-- and has this lock, and the versions are these.
pub record IsAppended (tx : Transaction) (p version : ℕ) (lock : ℤ) (before : View)
    (versions : ℕ → Version) (t : Store) : Type 0 where
  pub created : t.versions ≡ versions
  pub same : view p t ≡ spec_append tx version before
  pub row : IsRow (t.rows p) t.regions
  pub rwl : (t.rows p).rwl ≡ lock

versions-append_in :
    (q core version tx : ℕ) (s : Store) → (append_in q core version tx s).versions ≡ s.versions
unfolding append_in
versions-append_in q core version tx s =
    let appended = Region.append core version tx (s.regions q) in
    (free_all-IsKept appended.1 (set_region q appended.0 s)).0

pub rows-append_in :
    (q core version tx : ℕ) (s : Store) → (append_in q core version tx s).rows ≡ s.rows
unfolding append_in
rows-append_in q core version tx s =
    let appended = Region.append core version tx (s.regions q) in
    rows-free_all appended.1 (set_region q appended.0 s)

module _ (tx : Transaction) (p : ℕ) (s : Store) (serial : IsSerial tx) where
  pub uncontended :
      (s.rows p).row_region ≡ none
      → IsPlaced (s.rows p) s.regions none
      → InOrder tx.core tx.serial_id (s.rows p).global_array
      → IsAppended tx p s.next
          (s.rows p).rwl
          (view p s)
          (with_pending s)
          (append_to_unconted_row tx p s).1
  unfolding append_to_unconted_row create_pending_version versions_in spec_append
  uncontended n w o =
      let here : (p == p) ≡ true = ground arith in
      record {
        created = refl;
        same = rw (here, n) refl;
        row =
            rw (here, n)
              (
                append-IsAscending tx.core s.next tx.serial_id (s.rows p).global_array
                    (omega (arith, serial)) o w.0,
                append-AreSerial s.next tx.serial_id (s.rows p).global_array (omega (arith, serial))
                    w.1,
              );
        rwl = rw here refl;
      }

  -- Any store with the rows as they were and this region appended to.
  contended_in :
      (q : ℕ) (r : RowRegion) (t : Store)
      → (s.rows p).row_region ≡ some q
      → (s.rows p).global_array ≡ []
      → t.rows ≡ s.rows
      → t.versions ≡ with_pending s
      → t.regions q ≡ r
      → IsRegion r
      → listing r ≡ GlobalArray.append s.next tx.serial_id (listing (s.regions q))
      → IsAppended tx p s.next (s.rows p).rwl (view p s) (with_pending s) t
  unfolding versions_in spec_append
  contended_in q r t n e same_rows new same_region w l = record {
    created = new;
    same = rw (same_rows, n, same_region, l) refl;
    row = rw (same_rows, n, same_region) (e, w);
    rwl = rw same_rows refl;
  }

  pub contended :
      (q : ℕ)
      → (s.rows p).row_region ≡ some q
      → IsPlaced (s.rows p) s.regions (some q)
      → InOrder tx.core tx.serial_id (listing (s.regions q))
      → IsAppended tx p s.next
          (s.rows p).rwl
          (view p s)
          (with_pending s)
          (append_to_contented_row tx q s).1
  unfolding append_to_contented_row create_pending_version
  contended q n w o =
      let t = get_tx_serial tx.serial_id in
      let r = s.regions q in
      let created = (create_pending_version s).1 in
      let there : (q == q) ≡ true = ground arith in
      let next =
        InOrder-IsNext tx.core t r w.1 (subst (λ i. InOrder tx.core i (listing r)) serial.1 o) in
      let in_word : t < 64 = omega arith in
      contended_in q (Region.append tx.core s.next t r).0 (append_to_contented_row tx q s).1 n w.0
        (rows-append_in q tx.core s.next t created) (versions-append_in q tx.core s.next t created)
        (ap (λ f. f q) (regions-append_in q tx.core s.next t created) ∙ rw there refl)
        (append-IsRegion tx.core s.next t r w.1 serial.0 in_word next)
        (append-listing tx.core s.next t r w.1 serial.0 in_word next
          ∙ ap (λ i. GlobalArray.append s.next i (listing r)) (sym serial.1))
