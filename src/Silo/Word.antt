-- ===== src/Silo/Word.antt =====
-- silo/include/tidword.hpp, and the tests on words in silo.hpp.
use tpcc_runner.Base.{
  ℕ, ◌+◌, ◌*◌, ◌/◌, ◌%◌, ◌^◌, ◌<◌, ◌≤◌, ◌≡◌, ◌↔◌, Bool, true, false, not, ◌&&◌, ◌==◌, arith, ==_iff,
  ap,
}

-- The bit fields of the union. A stored `tid` is below 2^29 and an `epoch` below 2^32.
pub record TidWord : Type 0 where
  pub lock : Bool
  pub latest : Bool
  pub absent : Bool
  pub tid : ℕ
  pub epoch : ℕ

abbrev pub tid_mod : ℕ
tid_mod = 2 ^ 29

abbrev pub epoch_mod : ℕ
epoch_mod = 2 ^ 32

abbrev pub bit : Bool → ℕ
bit true = 1
bit false = 0

-- The union's other member, with the fields from the lowest bit on.
unfoldable pub obj : TidWord → ℕ
obj w = bit w.lock + 2 * bit w.latest + 4 * bit w.absent + 8 * w.tid + 2 ^ 32 * w.epoch

unfoldable pub of_obj : ℕ → TidWord
of_obj n = record {
  lock = n % 2 == 1;
  latest = n / 2 % 2 == 1;
  absent = n / 4 % 2 == 1;
  tid = n / 8 % 2 ^ 29;
  epoch = n / 2 ^ 32 % 2 ^ 32;
}

unfoldable pub is_same : TidWord → TidWord → Bool
unfolding obj
is_same lhs rhs = obj lhs == obj rhs

unfoldable pub is_readable : TidWord → Bool
is_readable tw = not tw.absent && tw.latest

unfoldable pub is_valid : TidWord → TidWord → Bool
unfolding is_readable
is_valid current expected =
    current.epoch == expected.epoch && current.tid == expected.tid && is_readable current

-- The fields are in their range.
abbrev pub IsWord : TidWord → Type 0
IsWord w = (w.tid < tid_mod) × (w.epoch < epoch_mod)

TidWord-≡ :
    (v w : TidWord)
    → v.lock ≡ w.lock
    → v.latest ≡ w.latest
    → v.absent ≡ w.absent
    → v.tid ≡ w.tid
    → v.epoch ≡ w.epoch
    → v ≡ w
TidWord-≡ v w a b c d e =
    λ i. record { lock = a i; latest = b i; absent = c i; tid = d i; epoch = e i }

pub bit_bound : (b : Bool) → bit b ≤ 1
bit_bound b = ground arith

-- The 64 bits give the fields back.
pub of_obj-obj : (w : TidWord) → IsWord w → of_obj (obj w) ≡ w
unfolding of_obj obj
of_obj-obj w h =
    TidWord-≡ _ w (ground arith) (ground arith) (ground arith)
      (omega (arith, bit_bound w.lock, bit_bound w.latest, bit_bound w.absent))
      (omega (arith, bit_bound w.lock, bit_bound w.latest, bit_bound w.absent))

-- The code's comparison of 64 bits is equality of the fields.
pub is_same_iff : (v w : TidWord) → IsWord v → IsWord w → (is_same v w ≡ true) ↔ (v ≡ w)
unfolding is_same
is_same_iff v w h k = (
  λ e. rw⁻¹ (of_obj-obj v h, of_obj-obj w k) (ap of_obj ((==_iff (obj v) (obj w)).0 e)),
  λ e. (==_iff (obj v) (obj w)).1 (ap obj e),
)
