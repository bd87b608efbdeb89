-- ===== src/Examples/ListIndex.antt =====
-- An index over plain lists, to run the protocols: keys and values of each table in a list.
use tpcc_runner.Base.{
  ℕ, ◌≡◌, refl, Option, none, some, List, [], ◌∷◌, ltb, leb, ◌==◌, ◌&&◌, if◌then◌else◌,
}
use tpcc_runner.Base.Tables.{Tables, find_entry, assign_entry, get_table, put_table}
use tpcc_runner.Nowait.Defs.{Index}

abbrev pub without : ℕ → List (ℕ × ℕ) → List (ℕ × ℕ)
without k [] = []
without k ((j, v) ∷ m) = let rest = without k m in if j == k then rest else (j, v) ∷ rest

-- The least key above k, with its value.
abbrev pub above : ℕ → List (ℕ × ℕ) → Option (ℕ × ℕ)
above k [] = none
above k ((j, v) ∷ m) =
    let rest = above k m in
    if ltb k j
    then (elim rest [
      | none ↦ some (j, v)
      | some (i, u) ↦ (if ltb i j then some (i, u) else some (j, v))
    ])
    else rest

abbrev pub within : ℕ → ℕ → List (ℕ × ℕ) → List (ℕ × ℕ)
within l r [] = []
within l r ((j, v) ∷ m) =
    let rest = within l r m in if leb l j && leb j r then (j, v) ∷ rest else rest

abbrev pub insert_missing : Tables ℕ → (t k v : ℕ) → Option (Tables ℕ)
insert_missing T t k v = elim (find_entry t k T) [
  | none ↦ some (assign_entry t k v T)
  | some _ ↦ none
]

abbrev pub list_index : Index
list_index = record {
  Tree = Tables ℕ;
  find = λ T t k. find_entry t k T;
  insert = insert_missing;
  remove = λ T t k. put_table t (without k (get_table t T)) T;
  get_next_kv = λ T t k. above k (get_table t T);
  get_kv_in_range = λ T t l r count. within l r (get_table t T);
}

pub insert_missing-some :
    (T : Tables ℕ) (t k v : ℕ)
    → find_entry t k T ≡ none
    → (index : Tables ℕ) × (insert_missing T t k v ≡ some index)
insert_missing-some T t k v e = (assign_entry t k v T, rw (e, insert_missing) refl)
