-- ===== src/Examples/Optimistic.antt =====
-- Runs of Silo, over an index that keeps one value for each key and counts its changes.
use tpcc_runner.Base.{
  ℕ, ◌+◌, ◌≡◌, ◌<◌, refl, arith, true, false, some, List, [], ◌∷◌, All, if◌then◌else◌, ◌==◌,
}
use tpcc_runner.Base.Tables.{lookup, assign, get_table, put_table, touch, assign_entry}
use mathlib.Core.Option
use tpcc_runner.Base.Multimap
use tpcc_runner.Silo.Word.{TidWord, is_valid, is_readable, tid_mod}
use tpcc_runner.Silo.Defs.{Index, State, ok, Element, read_type, update_type}
use tpcc_runner.Silo.Defs.{get_record_pointer, copy_record, put}
use tpcc_runner.Silo.Access.{
  read, update, read_own, read_index, read_value, call, update_own, write_value,
}
use tpcc_runner.Silo.Listing.{times, IsListed, Listed}
use tpcc_runner.Silo.WriteSet.{perform-Listed}
use tpcc_runner.Silo.Isolation.{updates, perform, Untouched, perform-Untouched}
use tpcc_runner.Silo.Commit.{
  writes, table_writes, sort_writes, sort_keys, insert_sorted, lock_writes, lock, unlock_writeset,
  unlock, validate_reads, validate_nodes, validate_nodemap, install, install_all, new_tw, finish,
  proceed,
}
use tpcc_runner.Silo.Finish.{order, IsReady, Restored}
use tpcc_runner.Silo.Serial.{Returned, precommit-Returned}
use tpcc_runner.Silo.Order.{Overwritten, commit_number_grows, stale_read_is_refused}
use tpcc_runner.Silo.Commit
use tpcc_runner.Silo.Commit.{abort}
use tpcc_runner.Silo.Access.{new_word}
use tpcc_runner.Silo.Defs.{insert_type}
use tpcc_runner.Silo.Locking.{IsDistinct, IsFree}
use tpcc_runner.Silo.Withdrawal.{Aborted, abort-Aborted}
use tpcc_runner.Silo.Commit.{precommit, Entry, is_insert}

-- A tree of one table: its keys and the version of its only leaf.
abbrev Tree : Type 0
Tree = List (ℕ × ℕ) × ℕ

abbrev one_leaf : Index
one_leaf = record {
  Tree = Tree;
  find = λ m t k. lookup k m.0;
  find_noting = λ m t k nm. (lookup k m.0, (0, m.1) ∷ nm);
  insert = λ m t k val nm. (ok, ((k, val) ∷ m.0, m.1 + 1), (0, m.1 + 1) ∷ []);
  remove = λ m t k. m;
  get_kv_in_range = λ m t lkey rkey count rev nm. (some m.0, (0, m.1) ∷ nm);
  get_version_value = λ m t node. m.1;
}

abbrev stored : ℕ → TidWord
stored tid = record { lock = false; latest = true; absent = false; tid = tid; epoch = 3 }

-- Key 7 has value 1 with record 10, key 8 has value 2 with record 20.
abbrev store : State Tree
store = record {
  index = ((7, 1) ∷ (8, 2) ∷ [], 0);
  word = λ v. if v == 1 then stored 5 else stored 9;
  rec_of = λ v. if v == 1 then 10 else 20;
  bytes = λ p. p;
  next = 100;
  freed = [];
  gc_container = [];
  global_epoch = 4;
  starting_epoch = 3;
  tables = [];
  ws = λ t. [];
  ns = λ t. [];
}

-- What stands after key 7 has been read and key 8 updated.
abbrev read_element : Element
read_element = record { rec = 0; tw = stored 5; rwt = read_type; is_new = false; val = 1 }

abbrev update_element : Element
update_element = record { rec = 100; tw = stored 9; rwt = update_type; is_new = false; val = 2 }

abbrev worked : State Tree
worked = record store {
  next = 101;
  tables = (0, (7, read_element) ∷ (8, update_element) ∷ []) ∷ [];
  ws = λ t. if t == 0 then 8 ∷ [] else [];
  ns = λ t. if t == 0 then (0, 0) ∷ [] else [];
}

read_then_update :
    Option.map
      (λ r. r.0.tables)
      (Option.bind (read one_leaf 0 7 store) (λ r. update one_leaf 0 8 r.0))
    ≡ some worked.tables
unfolding read update read_own read_index read_value call update_own write_value get_record_pointer
    copy_record get_table put_table assign touch assign_entry is_readable Option.bind
read_then_update = refl

worked-IsReady : IsReady worked
unfolding writes table_writes sort_writes sort_keys insert_sorted
worked-IsReady = record { distinct = (tt, tt); free = (refl, tt); inner = (refl, tt) }

abbrev committed : State Tree
committed = record worked {
  word =
      put (put worked.word 2 (record (stored 9) { lock = true })) 2
        (record { lock = false; latest = true; absent = false; tid = 10; epoch = 4 });
  rec_of = put worked.rec_of 2 100;
  gc_container = (4, 20) ∷ [];
  ws = put worked.ws 0 (8 ∷ []);
}

worked_commits : precommit one_leaf worked ≡ some (committed, true)
unfolding precommit writes table_writes sort_writes sort_keys insert_sorted lock_writes lock
    validate_reads validate_nodes validate_nodemap install install_all new_tw finish proceed
    Commit.reads is_valid is_readable Multimap.emplace Option.bind
worked_commits = refl

numbers_are_small : (v : ℕ) → (worked.word v).tid + 1 < tid_mod
numbers_are_small v = ground arith

commit_number_grows_example :
    (number : ℕ) × All (Overwritten worked committed number) (order worked)
    × All (λ e. is_insert e.rwt ≡ false → e.tw.tid < number) (Commit.reads worked.tables)
commit_number_grows_example =
    commit_number_grows one_leaf worked committed worked-IsReady numbers_are_small worked_commits

precommit-Returned_example : Returned one_leaf worked (precommit one_leaf worked)
precommit-Returned_example = precommit-Returned one_leaf worked worked-IsReady

-- Somebody else has written key 7 meanwhile.
abbrev overtaken : State Tree
overtaken = record worked { word = λ v. if v == 1 then stored 6 else stored 9 }

overtaken-IsReady : IsReady overtaken
unfolding writes table_writes sort_writes sort_keys insert_sorted
overtaken-IsReady = record { distinct = (tt, tt); free = (refl, tt); inner = (refl, tt) }

overtaken_reads : Commit.reads overtaken.tables ≡ read_element ∷ update_element ∷ []
unfolding Commit.reads
overtaken_reads = refl

overtaken-IsValid : is_valid (stored 6) (stored 5) ≡ false
unfolding is_valid
overtaken-IsValid = refl

stale_read_is_refused_example :
    (s' : State Tree) × (precommit one_leaf overtaken ≡ some (s', false)) × Restored overtaken s'
stale_read_is_refused_example =
    stale_read_is_refused one_leaf overtaken [] (update_element ∷ []) read_element overtaken-IsReady
      overtaken_reads refl overtaken-IsValid

perform-Untouched_example : Untouched store (perform one_leaf (updates 0 8) store)
perform-Untouched_example = perform-Untouched one_leaf (updates 0 8) store

-- Key 9 has been inserted, with value 100 and a local record 101.
abbrev inserting : State Tree
inserting = record store {
  index = ((9, 100) ∷ (7, 1) ∷ (8, 2) ∷ [], 1);
  word = λ v. if v == 100 then new_word else stored 9;
  next = 102;
  tables =
      (
        0,
        (9, record { rec = 101; tw = new_word; rwt = insert_type; is_new = true; val = 100 }) ∷ [],
      )
      ∷ [];
  ws = λ t. if t == 0 then 9 ∷ [] else [];
}

inserting-IsDistinct : IsDistinct (Commit.writes inserting.tables inserting.ws)
unfolding writes table_writes
inserting-IsDistinct = (tt, tt)

inserting-IsFree : All (IsFree inserting.word) (Commit.writes inserting.tables inserting.ws)
unfolding writes table_writes
inserting-IsFree = (refl, tt)

abort-Aborted_example : Aborted one_leaf inserting (abort one_leaf inserting)
abort-Aborted_example = abort-Aborted one_leaf inserting inserting-IsDistinct inserting-IsFree

abbrev left_by : State Tree → TidWord × List (ℕ × ℕ) × List ℕ
left_by s = (s.word 100, s.gc_container, s.freed)

-- The new value is withdrawn, collected, and its local record freed.
abort_of_insert :
    Option.map left_by (abort one_leaf inserting)
    ≡ some (
      record { lock = false; latest = false; absent = true; tid = 0; epoch = 0 },
      (3, 100) ∷ [],
      101 ∷ [],
    )
unfolding abort Commit.undo_all Commit.undo Commit.undo_insert Commit.free_write lock writes
    table_writes Multimap.emplace Option.bind
abort_of_insert = refl

store-IsListed : IsListed store
unfolding times get_table
store-IsListed t k = refl

perform-Listed_example : Listed (perform one_leaf (updates 0 8) store)
perform-Listed_example = perform-Listed one_leaf (updates 0 8) store store-IsListed
