-- ===== src/Mvto/Commit.antt =====
-- mvto.hpp: `precommit` with `remove_already_inserted` and `unlock_writeset`, and `abort`.
use tpcc_runner.Base.{
  ℕ, ◌+◌, Bool, true, false, not, ◌&&◌, ◌||◌, Option, none, some, List, [], ◌∷◌, ◌++◌, ltb, leb,
  ◌==◌, if◌then◌else◌,
}
use mathlib.Core.List.{map, reverse}
use mathlib.Core.Option
use tpcc_runner.Base.Tables.{Tables, find_entry}
use tpcc_runner.Timestamp.Collector.{remove}
use tpcc_runner.Mvto.Chain.{Version}
use tpcc_runner.Mvto.Defs.{
  read_type, update_type, insert_type, delete_type, Element, Index, State, put, set_chain,
  deallocate, deallocate_version, lock_val, unlock_val, collect_val, gc_version_chain,
}

-- `std::sort` by key; the keys of a write set are distinct.
unfoldable pub insert_sorted : ℕ → List ℕ → List ℕ
insert_sorted k [] = k ∷ []
insert_sorted k (j ∷ l) = let rest = insert_sorted k l in if leb k j then k ∷ j ∷ l else j ∷ rest

unfoldable pub sort_keys : List ℕ → List ℕ
unfolding insert_sorted
sort_keys [] = []
sort_keys (k ∷ l) = insert_sorted k (sort_keys l)

abbrev pub keys_of : ℕ → List ℕ → List (ℕ × ℕ)
keys_of t [] = []
keys_of t (k ∷ l) = (t, k) ∷ keys_of t l

-- `for (table_id : tables) for (w_iter …)`, as the pairs in the order of the loops.
unfoldable pub write_order : Tables Element → (ℕ → List ℕ) → List (ℕ × ℕ)
write_order [] ws = []
write_order ((t, m) ∷ ts) ws = keys_of t (ws t) ++ write_order ts ws

-- The pairs that the two undoing loops go through before they return at the given one.
unfoldable pub until_end : (end_exclusive : Bool) → (t k : ℕ) → List (ℕ × ℕ) → List (ℕ × ℕ)
until_end x t k [] = []
until_end x t k ((u, j) ∷ l) =
    let rest = until_end x t k l in
    if u == t && j == k then (if x then [] else (u, j) ∷ []) else (u, j) ∷ rest

-- Why `precommit` gives up at an element: whether what it inserted itself is in the index.
pub data Verdict : Type 0 where
  passed : Verdict
  refused : (end_exclusive : Bool) → Verdict

-- Sorts the write set of every touched table. The loop of `precommit` sorts a table when it comes
-- to it; it never looks at the later ones before.
unfoldable pub sort_writes : Tables Element → (ℕ → List ℕ) → ℕ → List ℕ
unfolding sort_keys
sort_writes [] ws = ws
sort_writes ((t, m) ∷ ts) ws = sort_writes ts (put ws t (sort_keys (ws t)))

-- The checks on the head version, for a write over a deleted version and for another write.
unfoldable pub check_head : (wants_deleted : Bool) → (start_ts : ℕ) → List Version → Verdict
check_head wants_deleted start_ts [] = refused true
check_head wants_deleted start_ts (v ∷ vs) =
    if ltb start_ts v.read_ts
      || ltb start_ts v.write_ts
      || (if wants_deleted then not v.deleted else v.deleted)
    then refused true
    else passed

module _ {tree : Type 0} where
  -- The version that an element adds to the chain of a value that is not new.
  unfoldable pub new_version : Element → State tree → Version
  new_version e s = record {
    read_ts = s.start_ts;
    write_ts = s.start_ts;
    rec = e.write_rec;
    deleted = (elim e.rwt [ delete_type ↦ true | _ ↦ false ]);
    addr = s.next;
  }

  unfoldable pub push_version : Element → State tree → State tree
  unfolding new_version
  push_version e s =
      set_chain e.val (new_version e s ∷ s.chain e.val) (record s { next = s.next + 1 })

  -- Then the chain is collected and the value unlocked.
  unfoldable pub apply_element : Element → State tree → State tree
  unfolding push_version gc_version_chain unlock_val
  apply_element e s =
      unlock_val e.val (gc_version_chain e.val (if e.is_new then s else push_version e s))

  -- A loop over the write set; an iterator finds the element of its key.
  unfoldable pub for_writes :
      (ℕ × ℕ → Element → State tree → State tree) → List (ℕ × ℕ) → State tree → State tree
  for_writes f [] s = s
  for_writes f ((t, k) ∷ l) s =
      for_writes f l (elim (find_entry t k s.tables) [ none ↦ s | some e ↦ f (t, k) e s ])

module _ (ix : Index) where
  open ix use {Tree}

  -- A new value goes to the index, and a leaf that a later scan has seen refuses it.
  unfoldable pub insert_value : (t k : ℕ) → Element → State Tree → State Tree × Verdict
  insert_value t k e s = elim (ix.insert s.index t k e.val) [
    | none ↦ (s, refused true)
    | some (index, leaf_ts) ↦
        (record s { index = index }, if ltb s.start_ts leaf_ts then refused false else passed)
  ]

  -- The checks on a locked value that is in the tree.
  unfoldable pub check_element : (t k : ℕ) → Element → State Tree → State Tree × Verdict
  unfolding insert_value check_head
  check_element t k e s = elim e.rwt [
    | insert_type ↦
        if e.is_new then insert_value t k e s else (s, check_head true s.start_ts (s.chain e.val))
    | update_type ↦ (s, check_head false s.start_ts (s.chain e.val))
    | delete_type ↦ (s, check_head false s.start_ts (s.chain e.val))
    | read_type ↦ (s, passed)
  ]

  unfoldable pub check_locked :
      (t k : ℕ) → Element → List Version → State Tree → State Tree × Verdict
  unfolding check_element
  check_locked t k e [] s = (s, refused true)
  check_locked t k e (v ∷ vs) s = check_element t k e s

  -- The body of the locking loop.
  unfoldable pub lock_element : (t k : ℕ) → Element → State Tree → Option (State Tree × Verdict)
  unfolding lock_val check_locked
  lock_element t k e s = Option.map (λ l. check_locked t k e (l.chain e.val) l) (lock_val e.val s)

  -- `remove_already_inserted`, at one element.
  unfoldable pub remove_inserted : ℕ × ℕ → Element → State Tree → State Tree
  unfolding collect_val
  remove_inserted (t, k) e s = elim e.rwt [
    | insert_type ↦
        if e.is_new
        then (elim (s.chain e.val) [
          | [] ↦ s
          | v ∷ vs ↦
              deallocate_version v (
                collect_val e.val (set_chain e.val [] (record s { index = ix.remove s.index t k })))
        ])
        else s
    | _ ↦ s
  ]

  unfoldable pub unlock_write : ℕ × ℕ → Element → State Tree → State Tree
  unfolding unlock_val
  unlock_write w e s = unlock_val e.val s

  unfoldable pub remove_already_inserted :
      (t k : ℕ) (end_exclusive : Bool) → State Tree → State Tree
  unfolding for_writes remove_inserted until_end write_order
  remove_already_inserted t k x s =
      for_writes remove_inserted (until_end x t k (write_order s.tables s.ws)) s

  unfoldable pub unlock_writeset : (t k : ℕ) (end_exclusive : Bool) → State Tree → State Tree
  unfolding for_writes unlock_write until_end write_order
  unlock_writeset t k x s = for_writes unlock_write (until_end x t k (write_order s.tables s.ws)) s

  -- What follows the check of one element: give up, or go on.
  unfoldable pub proceed :
      (t k : ℕ)
      → (State Tree → Option (State Tree × Bool))
      → State Tree × Verdict
      → Option (State Tree × Bool)
  unfolding remove_already_inserted unlock_writeset
  proceed t k go (s, passed) = go s
  proceed t k go (s, refused x) =
      some (unlock_writeset t k false (remove_already_inserted t k x s), false)

  -- The locking loop: `none` while it waits for a lock, else whether all elements have passed.
  unfoldable pub lock_all : List (ℕ × ℕ) → State Tree → Option (State Tree × Bool)
  unfolding lock_element proceed
  lock_all [] s = some (s, true)
  lock_all ((t, k) ∷ l) s = elim (find_entry t k s.tables) [
    | none ↦ lock_all l s
    | some e ↦ Option.bind (lock_element t k e s) (proceed t k (lock_all l))
  ]

  unfoldable pub apply_write : ℕ × ℕ → Element → State Tree → State Tree
  unfolding apply_element
  apply_write w e s = apply_element e s

  unfoldable pub apply_all : State Tree × Bool → State Tree × Bool
  unfolding for_writes apply_write write_order
  apply_all (s, false) = (s, false)
  apply_all (s, true) = (for_writes apply_write (write_order s.tables s.ws) s, true)

  unfoldable pub precommit : State Tree → Option (State Tree × Bool)
  unfolding lock_all apply_all sort_writes write_order
  precommit s =
      let sorted = record s { ws = sort_writes s.tables s.ws } in
      Option.map apply_all (lock_all (write_order sorted.tables sorted.ws) sorted)

  -- `abort`, at one element: a new value that never came to the index is freed with its version.
  unfoldable pub undo_write : ℕ × ℕ → Element → State Tree → State Tree
  undo_write w e s =
      if (elim e.rwt [ insert_type ↦ e.is_new | _ ↦ false ])
      then (elim (s.chain e.val) [ [] ↦ s | v ∷ vs ↦ deallocate e.val (deallocate_version v s) ])
      else deallocate e.write_rec s

  unfoldable pub abort : State Tree → State Tree
  unfolding for_writes undo_write write_order
  abort s = record (for_writes undo_write (write_order s.tables s.ws) s) {
    tables = [];
    ws = λ t. [];
  }

  -- The destructor: the elements are dropped, and the thread's collector frees old values.
  unfoldable pub destroy : State Tree → State Tree
  unfolding remove
  destroy s =
      let (kept, old) = remove s.smallest_ts s.largest_ts s.collector in
      record s {
        tables = [];
        ws = λ t. [];
        collector = kept;
        freed = reverse (map (λ e. e.1) old) ++ s.freed;
      }
