-- ===== src/Mvto/Chain.antt =====
-- mvto/include/value.hpp and the walks along a version chain in mvto.hpp. A chain is the list of
-- its versions, newest first; the null pointer is the empty list. `addr` is a version's address.
use tpcc_runner.Base.{ℕ, suc, Bool, Option, none, some, List, [], ◌∷◌, ltb, if◌then◌else◌}
use mathlib.Core.Option

pub record Version : Type 0 where
  pub read_ts : ℕ
  pub write_ts : ℕ
  pub rec : ℕ  -- null if deleted
  pub deleted : Bool
  pub addr : ℕ

-- `update_readts`: the read timestamp never goes back.
unfoldable pub update_readts : ℕ → Version → Version
update_readts ts v = if ltb ts v.read_ts then v else record v { read_ts = ts }

-- `is_empty`, for a value that is not detached: one version, and that deleted.
unfoldable pub is_empty : List Version → Bool
is_empty [] = Bool.false
is_empty (v ∷ []) = v.deleted
is_empty (v ∷ w ∷ vs) = Bool.false

-- `get_correct_version`: how far from the head the latest version not after `start_ts` stands.
unfoldable pub get_correct_version : ℕ → List Version → Option ℕ
get_correct_version start_ts [] = none
get_correct_version start_ts (v ∷ vs) =
    let rest = get_correct_version start_ts vs in
    if ltb start_ts v.write_ts then Option.map suc rest else some 0

-- `gc_version_chain`: what stays is everything after `smallest_ts` and one version more; the rest
-- is freed.
unfoldable pub gc_kept : ℕ → List Version → List Version
gc_kept smallest_ts [] = []
gc_kept smallest_ts (v ∷ vs) =
    let rest = gc_kept smallest_ts vs in if ltb smallest_ts v.write_ts then v ∷ rest else v ∷ []

unfoldable pub gc_freed : ℕ → List Version → List Version
gc_freed smallest_ts [] = []
gc_freed smallest_ts (v ∷ vs) =
    let rest = gc_freed smallest_ts vs in if ltb smallest_ts v.write_ts then rest else vs
