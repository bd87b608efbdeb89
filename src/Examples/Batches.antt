-- ===== src/Examples/Batches.antt =====
-- Runs of Serval: a row with a global version array, and one with a region.
use tpcc_runner.Base.{◌≡◌, refl, true, false, none, some, [], ◌∷◌, arith, ◌==◌, if◌then◌else◌, inl}
use tpcc_runner.Rwlock.Calls.{unlocked, write_locked}
use tpcc_runner.Serval.Vector.{back}
use tpcc_runner.Serval.GlobalArray
use tpcc_runner.Serval.GlobalArray.{IdsSlots}
use tpcc_runner.Serval.Region
use tpcc_runner.Serval.Region.{RowRegion, new_region, identify_visible_version}
use tpcc_runner.Serval.Rank.{last_below}
use tpcc_runner.Serval.Search.{listing_from}
use tpcc_runner.Serval.Visible.{IsRegion, version_of}
use tpcc_runner.Serval.Ascending.{identify-search}
use tpcc_runner.Serval.Written.{
  append-IsRegion, append-AllBefore, new_region-IsRegion, new_region-AllBefore, AllBefore-IsNext,
  AllBefore,
}
use tpcc_runner.Serval.Defs.{stable, Value, Store, Transaction}
use tpcc_runner.Serval.Reads.{find_visible}
use tpcc_runner.Serval.Appends.{initialize_the_row}
use tpcc_runner.Serval.Install.{do_append_pending_version, install_region}
use tpcc_runner.Serval.Rows.{find_visible-refines, spec_visible, versions_in}
use tpcc_runner.Serval.Begin.{IsBegun, initialize_the_row-begins}
use tpcc_runner.Serval.Refine.{view}
use tpcc_runner.Serval.Whole.{quiet, Appends, spec_begin, do_append-refines}
use tpcc_runner.Serval.Installed.{Installs, install_region-same}

-- Transaction 3 of core 0 has written version 10, and transaction 1 of core 1 version 11.
abbrev first_region : RowRegion
first_region = (Region.append 0 10 3 new_region).0

abbrev two_cores : RowRegion
two_cores = (Region.append 1 11 1 first_region).0

first_region-IsRegion : IsRegion first_region
first_region-IsRegion =
    append-IsRegion 0 10 3 new_region new_region-IsRegion (ground arith) (ground arith)
      (AllBefore-IsNext 0 3 new_region (new_region-AllBefore 3))

two_cores-IsRegion : IsRegion two_cores
two_cores-IsRegion =
    append-IsRegion 1 11 1 first_region first_region-IsRegion (ground arith) (ground arith)
      (AllBefore-IsNext 1 1 first_region (λ c q b h. omega (arith, before c q b h)))
  where
    before : AllBefore 4 first_region
    before =
        append-AllBefore 0 10 3 new_region new_region-IsRegion (ground arith) (ground arith) 0
          (new_region-AllBefore 0) (ground arith)

-- The transaction 2 of core 1.
abbrev reader : Transaction
reader = record { core = 1; serial_id = 66; epoch = 5; ws = λ t. []; tables = [] }

abbrev with_array : Value
with_array = record {
  rwl = unlocked;
  epoch = 4;
  master = 9;
  global_array = (3, 10) ∷ (65, 11) ∷ [];
  row_region = none;
}

abbrev with_region : Value
with_region = record {
  rwl = unlocked;
  epoch = 5;
  master = 9;
  global_array = [];
  row_region = some 0;
}

abbrev crowded : Value
crowded = record with_array { rwl = write_locked }

abbrev store : Value → Store
store val = record {
  rows = λ p. val;
  regions = λ q. if q == 0 then two_cores else new_region;
  used = 1;
  versions = λ v. record { rec = 0; status = stable; deleted = false };
  next = 20;
  freed = [];
}

identify-search_example :
    version_of two_cores (identify_visible_version 1 2 two_cores) ≡ some (65, 11)
unfolding GlobalArray.search_visible_version listing_from Region.append
identify-search_example =
    identify-search two_cores two_cores-IsRegion 1 2 (ground arith) (ground arith)

find_visible-refines_example :
    find_visible reader with_region (store with_region).regions ≡ some (true, 11)
unfolding spec_visible versions_in last_below listing_from Region.append
find_visible-refines_example =
    find_visible-refines reader with_region (store with_region).regions (refl, two_cores-IsRegion)
      (ground arith) refl

do_append-refines_example :
    Appends reader 1
      (spec_begin reader (view 1 (store with_array)))
      (store with_array)
      (do_append_pending_version 8 reader 1 (quiet ∷ []) [] (store with_array))
unfolding versions_in back
do_append-refines_example =
    do_append-refines 8 reader 1 [] (store with_array) (ground arith, refl) refl (ground arith)
      (inl (refl, ((65, 11), refl)))

initialize_the_row-begins_example :
    (let t = initialize_the_row reader 1 (store with_region) in
      IsBegun reader 11 unlocked (t.rows 1) t.regions)
unfolding versions_in back listing_from Region.append
initialize_the_row-begins_example =
    initialize_the_row-begins reader 1 (store with_region) 65 11 (refl, two_cores-IsRegion) refl

install_region-same_example :
    Installs 1 1 (view 1 (store crowded)) (install_region 8 1 (store crowded))
install_region-same_example =
    install_region-same 8 1 (store crowded) refl refl (ground arith) (ground arith) refl
