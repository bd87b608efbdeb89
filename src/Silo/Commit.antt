-- ===== src/Silo/Commit.antt =====
-- silo.hpp: `precommit` with `lock`, `unlock` and `unlock_writeset`, and `abort`.
use tpcc_runner.Base.{
  ℕ, ◌+◌, ◌%◌, Bool, true, false, not, ◌&&◌, ◌||◌, Option, none, some, List, [], ◌∷◌, ◌++◌, ltb,
  leb, ◌==◌, if◌then◌else◌,
}
use mathlib.Core.Option
use tpcc_runner.Base.Multimap.{emplace}
use tpcc_runner.Base.Tables.{Tables, lookup}
use tpcc_runner.Silo.Word.{TidWord, is_readable, is_valid, tid_mod}
use tpcc_runner.Silo.Defs.{
  ReadWriteType, read_type, update_type, insert_type, delete_type, Element, NodeMap, Words, Index,
  State, put, deallocate,
}

-- `std::sort` by key; the keys of a write set are distinct.
unfoldable pub insert_sorted : ℕ → List ℕ → List ℕ
insert_sorted k [] = k ∷ []
insert_sorted k (j ∷ l) = let rest = insert_sorted k l in if leb k j then k ∷ j ∷ l else j ∷ rest

unfoldable pub sort_keys : List ℕ → List ℕ
unfolding insert_sorted
sort_keys [] = []
sort_keys (k ∷ l) = insert_sorted k (sort_keys l)

-- An entry of the write set: its table, its key, and the element under its iterator.
pub record Entry : Type 0 where
  pub table : ℕ
  pub key : ℕ
  pub element : Element

abbrev pub with_element : ℕ → ℕ → Option Element → List Entry → List Entry
with_element t k none l = l
with_element t k (some e) l = record { table = t; key = k; element = e } ∷ l

unfoldable pub table_writes : ℕ → List ℕ → List (ℕ × Element) → List Entry
table_writes t [] m = []
table_writes t (k ∷ l) m = with_element t k (lookup k m) (table_writes t l m)

-- `for (table_id : tables) for (w_iter …)`.
unfoldable pub writes : Tables Element → (ℕ → List ℕ) → List Entry
unfolding table_writes
writes [] ws = []
writes ((t, m) ∷ ts) ws = table_writes t (ws t) m ++ writes ts ws

abbrev pub elements_of : List (ℕ × Element) → List Element
elements_of [] = []
elements_of ((k, e) ∷ m) = e ∷ elements_of m

-- `for (table_id : tables) for (rw_iter …)`.
unfoldable pub reads : Tables Element → List Element
reads [] = []
reads ((t, m) ∷ ts) = elements_of m ++ reads ts

unfoldable pub sort_writes : Tables Element → (ℕ → List ℕ) → ℕ → List ℕ
unfolding sort_keys
sort_writes [] ws = ws
sort_writes ((t, m) ∷ ts) ws = sort_writes ts (put ws t (sort_keys (ws t)))

-- `lock`: `none` while somebody else has the lock.
unfoldable pub lock : ℕ → Words → Option Words
lock v w = if (w v).lock then none else some (put w v (record (w v) { lock = true }))

unfoldable pub unlock : ℕ → Words → Words
unlock v w = put w v (record (w v) { lock = false })

-- `unlock_writeset`: up to the given key, and that included.
unfoldable pub unlock_writeset : (end_table end_key : ℕ) → List Entry → Words → Words
unfolding unlock
unlock_writeset t k [] w = w
unlock_writeset t k (x ∷ l) w =
    let w' = unlock x.element.val w in
    let rest = unlock_writeset t k l w' in if x.table == t && x.key == k then w' else rest

abbrev pub uint64_max : ℕ
uint64_max = 0xFFFFFFFFFFFFFFFF

-- `if (commit_tw.tid < current.tid) commit_tw.tid = current.tid`.
abbrev pub raise : ℕ → TidWord → ℕ
raise tid current = if ltb tid current.tid then current.tid else tid

-- Phase 1, with the whole write set for the way back: `none` while it waits for a lock, and no
-- number where it refuses.
unfoldable pub lock_writes : List Entry → List Entry → Words → ℕ → Option (Words × Option ℕ)
unfolding lock unlock_writeset is_readable
lock_writes all [] w tid = some (w, some tid)
lock_writes all (x ∷ l) w tid =
    let rest = lock_writes all l in
    Option.bind (lock x.element.val w) (λ w'.
      if not x.element.is_new && not (is_readable (w' x.element.val))
      then some (unlock_writeset x.table x.key all w', none)
      else rest w' (raise tid (w' x.element.val)))

abbrev pub is_read : ReadWriteType → Bool
is_read read_type = true
is_read _ = false

abbrev pub is_insert : ReadWriteType → Bool
is_insert insert_type = true
is_insert _ = false

abbrev pub is_delete : ReadWriteType → Bool
is_delete delete_type = true
is_delete _ = false

-- Phase 2.1: `none` where it refuses.
unfoldable pub validate_reads : List Element → Words → ℕ → Option ℕ
unfolding is_valid
validate_reads [] w tid = some tid
validate_reads (e ∷ l) w tid =
    let rest = validate_reads l w in
    if is_insert e.rwt
    then rest tid
    else (if not (is_valid (w e.val) e.tw) || ((w e.val).lock && is_read e.rwt)
        then none
        else rest (raise tid (w e.val)))

abbrev pub with_bit : Bool → Bool → (tid epoch : ℕ) → TidWord
with_bit latest absent tid epoch = record {
  lock = false;
  latest = latest;
  absent = absent;
  tid = tid;
  epoch = epoch;
}

-- The word that phase 3 stores.
unfoldable pub new_tw : ReadWriteType → (tid epoch : ℕ) → TidWord
new_tw rwt tid epoch = with_bit (not (is_delete rwt)) (is_delete rwt) tid epoch

module _ (ix : Index) where
  open ix use {Tree}

  -- Phase 2.2, for one table and for all.
  unfoldable pub validate_nodemap : Tree → ℕ → NodeMap → Bool
  validate_nodemap tree t [] = true
  validate_nodemap tree t ((node, version) ∷ nm) =
      version == ix.get_version_value tree t node && validate_nodemap tree t nm

  unfoldable pub validate_nodes : Tree → Tables Element → (ℕ → NodeMap) → Bool
  unfolding validate_nodemap
  validate_nodes tree [] ns = true
  validate_nodes tree ((t, m) ∷ ts) ns = validate_nodemap tree t (ns t) && validate_nodes tree ts ns

  -- Phase 3, at one entry.
  unfoldable pub install : (tid epoch : ℕ) → Entry → State Tree → State Tree
  unfolding new_tw
  install tid epoch x s =
      let e = x.element in
      let exchanged : State Tree = record s {
        rec_of = put s.rec_of e.val e.rec;
        word = put s.word e.val (new_tw e.rwt tid epoch);
        gc_container = emplace epoch (s.rec_of e.val) s.gc_container;
      } in
      if is_delete e.rwt
      then record exchanged {
        index = ix.remove s.index x.table x.key;
        gc_container = emplace epoch e.val exchanged.gc_container;
      }
      else exchanged

  unfoldable pub install_all : (tid epoch : ℕ) → List Entry → State Tree → State Tree
  unfolding install
  install_all tid epoch [] s = s
  install_all tid epoch (x ∷ l) s = install_all tid epoch l (install tid epoch x s)

  -- Phases 2.2 and 3, given the number that the validation has come to.
  unfoldable pub finish : List Entry → Words → Option ℕ → State Tree → State Tree × Bool
  unfolding validate_nodes install_all unlock_writeset
  finish all w none s = (record s { word = unlock_writeset uint64_max uint64_max all w }, false)
  finish all w (some tid) s =
      if validate_nodes s.index s.tables s.ns
      then (install_all ((tid + 1) % tid_mod) s.global_epoch all (record s { word = w }), true)
      else (record s { word = unlock_writeset uint64_max uint64_max all w }, false)

  -- What follows phase 1.
  unfoldable pub proceed : List Entry → State Tree → Words × Option ℕ → State Tree × Bool
  unfolding finish validate_reads reads
  proceed all s (w, none) = (record s { word = w }, false)
  proceed all s (w, some tid) = finish all w (validate_reads (reads s.tables) w tid) s

  unfoldable pub precommit : State Tree → Option (State Tree × Bool)
  unfolding lock_writes proceed writes sort_writes
  precommit s =
      let sorted : State Tree = record s { ws = sort_writes s.tables s.ws } in
      let all = writes s.tables sorted.ws in
      Option.map (proceed all sorted) (lock_writes all all s.word 0)

  -- `abort`, at a value that the transaction has put into the index.
  unfoldable pub undo_insert : Entry → Words → State Tree → State Tree
  undo_insert x w s = record s {
    word =
        put w x.element.val
          (record (w x.element.val) { lock = false; latest = false; absent = true });
    index = ix.remove s.index x.table x.key;
    gc_container = emplace s.starting_epoch x.element.val s.gc_container;
  }

  unfoldable pub free_write : Element → State Tree → State Tree
  free_write e s = elim e.rwt [
    | update_type ↦ deallocate e.rec s
    | insert_type ↦ deallocate e.rec s
    | _ ↦ s
  ]

  unfoldable pub undo : Entry → State Tree → Option (State Tree)
  unfolding lock undo_insert free_write
  undo x s =
      if x.element.is_new
      then Option.map (λ w. free_write x.element (undo_insert x w s)) (lock x.element.val s.word)
      else some (free_write x.element s)

  unfoldable pub undo_all : List Entry → State Tree → Option (State Tree)
  unfolding undo
  undo_all [] s = some s
  undo_all (x ∷ l) s = Option.bind (undo x s) (undo_all l)

  -- Only touched tables have entries, so to clear those is to clear all.
  unfoldable pub abort : State Tree → Option (State Tree)
  unfolding undo_all writes
  abort s =
      Option.map (λ (s' : State Tree). record s' { tables = []; ws = λ t. []; ns = λ t. [] })
        (undo_all (writes s.tables s.ws) s)
