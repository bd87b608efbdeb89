-- ===== src/Timestamp/Collector.antt =====
-- timestamp_manager.hpp: `GarbageCollector`, the two maps of one thread. What the code frees is
-- returned, oldest key first.
use tpcc_runner.Base.{ℕ, ◌+◌, ◌≡◌, refl, ap, ◌∙◌, ◌==◌, leb, if◌then◌else◌, [], ◌∷◌, arith}
use tpcc_runner.Base.Multimap.{
  Multimap, emplace, until, beyond, IsOrdered, occurrences, occurrences-until-beyond,
  occurrences-emplace, emplace-IsOrdered, beyond-IsOrdered, entries, entries_until, entries-emplace,
  entries-until, entries-beyond, occurrences-until,
}

pub record Collector : Type 0 where
  pub gc_map : Multimap
  pub temp_gc_map : Multimap

unfoldable pub collect : (current_largest_ts ptr : ℕ) → Collector → Collector
collect current_largest_ts ptr c = record c {
  temp_gc_map = emplace current_largest_ts ptr c.temp_gc_map;
}

-- The loop of `attach_new_ts`: each entry taken out is put into the other map under the new key.
unfoldable pub rekey : (new_largest_ts : ℕ) → Multimap → Multimap → Multimap
rekey n [] gc = gc
rekey n ((k, p) ∷ taken) gc = rekey n taken (emplace n p gc)

unfoldable pub attach_new_ts : (new_largest_ts : ℕ) → Collector → Collector
unfolding rekey
attach_new_ts n c = record {
  gc_map = rekey n (until n c.temp_gc_map) c.gc_map;
  temp_gc_map = beyond n c.temp_gc_map;
}

-- The new maps, and the entries whose pointers are freed.
unfoldable pub remove : (smallest_ts new_largest_ts : ℕ) → Collector → Collector × Multimap
unfolding attach_new_ts
remove smallest_ts new_largest_ts c =
    let c' = attach_new_ts new_largest_ts c in
    (record c' { gc_map = beyond smallest_ts c'.gc_map }, until smallest_ts c'.gc_map)

occurrences-rekey :
    (r n : ℕ) (taken gc : Multimap)
    → occurrences r (rekey n taken gc) ≡ occurrences r taken + occurrences r gc
unfolding rekey occurrences
occurrences-rekey r n [] gc = omega arith
occurrences-rekey r n ((k, p) ∷ taken) gc =
    omega (arith, occurrences-rekey r n taken (emplace n p gc), occurrences-emplace r n p gc)

rekey-IsOrdered : (n : ℕ) (taken gc : Multimap) → IsOrdered gc → IsOrdered (rekey n taken gc)
unfolding rekey
rekey-IsOrdered n [] gc o = o
rekey-IsOrdered n ((k, p) ∷ taken) gc o = rekey-IsOrdered n taken _ (emplace-IsOrdered n p gc o)

-- A collection neither loses a pointer nor frees one twice: each pointer is freed as often as it
-- leaves the two maps.
pub remove-conserves :
    (r smallest_ts new_largest_ts : ℕ) (c : Collector)
    → let (c', freed) = remove smallest_ts new_largest_ts c in
      occurrences r freed + occurrences r c'.gc_map + occurrences r c'.temp_gc_map
      ≡ occurrences r c.gc_map + occurrences r c.temp_gc_map
unfolding remove attach_new_ts
remove-conserves r s n c = omega (
  arith,
  occurrences-until-beyond r s (rekey n (until n c.temp_gc_map) c.gc_map),
  occurrences-rekey r n (until n c.temp_gc_map) c.gc_map,
  occurrences-until-beyond r n c.temp_gc_map,
)

-- The maps of a thread are in key order, as a multimap is.
pub record IsSorted (c : Collector) : Type 0 where
  pub main : IsOrdered c.gc_map
  pub temp : IsOrdered c.temp_gc_map

pub collect-IsSorted : (ts ptr : ℕ) (c : Collector) → IsSorted c → IsSorted (collect ts ptr c)
unfolding collect
collect-IsSorted ts ptr c v = record {
  main = v.main;
  temp = emplace-IsOrdered ts ptr c.temp_gc_map v.temp;
}

pub remove-IsSorted : (s n : ℕ) (c : Collector) → IsSorted c → IsSorted (remove s n c).0
unfolding remove attach_new_ts
remove-IsSorted s n c v = record {
  main = beyond-IsOrdered s _ (rekey-IsOrdered n (until n c.temp_gc_map) c.gc_map v.main);
  temp = beyond-IsOrdered n c.temp_gc_map v.temp;
}

entries-rekey :
    (i r n : ℕ) (taken gc : Multimap)
    → entries i r (rekey n taken gc) ≡ (if i == n then occurrences r taken else 0) + entries i r gc
unfolding rekey occurrences
entries-rekey i r n [] gc = ground arith
entries-rekey i r n ((k, p) ∷ taken) gc =
    ground (arith, entries-rekey i r n taken (emplace n p gc), entries-emplace i r n p gc)

-- The entries of the main map once those of the second map up to the new largest timestamp have
-- been added to it under that timestamp.
abbrev pub merged : (new_largest_ts key ptr : ℕ) → Collector → ℕ
merged n k p c = (if k == n then entries_until n p c.temp_gc_map else 0) + entries k p c.gc_map

-- From sorted maps, a collection takes the entries of the second map with keys up to the new
-- largest timestamp, all of them, and puts them into the main map under that timestamp; of the main
-- map as it is then, it frees the entries with keys up to the smallest timestamp, all of them and
-- nothing else, and keeps the others as they are. The maps stay sorted.
pub remove-entries :
    (smallest_ts new_largest_ts : ℕ) (c : Collector)
    → IsSorted c
    → let (c', freed) = remove smallest_ts new_largest_ts c in
      ((k p : ℕ)
        → entries k p freed ≡ (if leb k smallest_ts then merged new_largest_ts k p c else 0))
      × ((k p : ℕ)
          → entries k p c'.gc_map ≡ (if leb k smallest_ts then 0 else merged new_largest_ts k p c))
      × ((k p : ℕ)
          → entries k p c'.temp_gc_map
            ≡ (if leb k new_largest_ts then 0 else entries k p c.temp_gc_map))
      × IsSorted c'
unfolding remove attach_new_ts
remove-entries s n c v =
    let taken = until n c.temp_gc_map in
    let main = rekey n taken c.gc_map in
    let sorted = rekey-IsOrdered n taken c.gc_map v.main in
    let found : (k p : ℕ) → entries k p main ≡ merged n k p c = λ k p.
      rw (entries-rekey k p n taken c.gc_map, occurrences-until p n c.temp_gc_map v.temp) refl in
    (
      (λ k p. entries-until k p s main sorted ∙ ap (λ a. if leb k s then a else 0) (found k p)),
      (λ k p. entries-beyond k p s main sorted ∙ ap (λ a. if leb k s then 0 else a) (found k p)),
      (λ k p. entries-beyond k p n c.temp_gc_map v.temp),
      remove-IsSorted s n c v,
    )
