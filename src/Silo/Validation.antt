-- ===== src/Silo/Validation.antt =====
-- silo.hpp: phase 2.1 of `precommit`, the validation of what was read.
use tpcc_runner.Base.{
  ℕ, ◌≤◌, ◌≡◌, refl, Bool, true, false, not, ◌&&◌, ◌||◌, Option, none, some, List, [], ◌∷◌,
  if◌then◌else◌, All, Bool-cases, inl, inr, arith, sym, subst, ◌∙◌,
}
use mathlib.Core.Bool.{true≢false}
use tpcc_runner.Silo.Word.{TidWord, is_readable, is_valid}
use tpcc_runner.Silo.Defs.{Element, Words}
use tpcc_runner.Silo.Commit.{Entry, raise, validate_reads, is_read, is_insert}
use tpcc_runner.Silo.Locking.{held, among, Held}
use tpcc_runner.Silo.Phases.{IsSeen, raise-below, raise_bounds}

-- A read that has been validated, given the word that stands there: it is what the transaction
-- saw, and nobody is writing the value.
pub record Validated (u : TidWord) (n : ℕ) (e : Element) : Type 0 where
  pub same_epoch : u.epoch ≡ e.tw.epoch
  pub same_tid : u.tid ≡ e.tw.tid
  pub readable : is_readable u ≡ true
  pub unlocked : is_read e.rwt ≡ true → u.lock ≡ false
  pub not_after : u.tid ≤ n

-- Elements under an insert are not validated.
abbrev pub IsChecked : Words → ℕ → Element → Type 0
IsChecked w n e = is_insert e.rwt ≡ false → Validated (w e.val) n e

-- A read that is still good: the word is the one that was read, and for a mere read the value is
-- neither locked nor in the write set.
abbrev pub IsCurrent : List Entry → Words → Element → Type 0
IsCurrent all w e =
    is_insert e.rwt ≡ false
    → (is_valid (w e.val) e.tw ≡ true)
      × (is_read e.rwt ≡ true → ((w e.val).lock ≡ false) × (among e.val all ≡ false))

-- The loop refuses only if a read is not good; what passes is validated.
abbrev pub Checked : List Entry → List Element → Words → ℕ → Option ℕ → Type 0
Checked all l w tid none = ¬ All (IsCurrent all w) l
Checked all l w tid (some n) = (tid ≤ n) × IsSeen w tid n × All (IsChecked w n) l

refuses : TidWord → Element → Bool
unfolding is_valid
refuses u e = not (is_valid u e.tw) || (u.lock && is_read e.rwt)

Validated-of :
    (u : TidWord) (tid n : ℕ) (e : Element)
    → refuses u e ≡ false
    → raise tid u ≤ n
    → Validated u n e
unfolding refuses is_valid is_readable
Validated-of u tid n e h m = record {
  same_epoch = ground arith;
  same_tid = ground arith;
  readable = ground arith;
  unlocked = λ r. ground arith;
  not_after = ground arith;
}

-- A lock that the transaction itself has taken makes no word better.
Validated-held :
    (u : TidWord) (b : Bool) (n : ℕ) (e : Element)
    → Validated (if b then held u else u) n e
    → Validated u n e
unfolding is_readable
Validated-held u true n e v = record {
  same_epoch = v.same_epoch;
  same_tid = v.same_tid;
  readable = v.readable;
  unlocked = λ r. absurd (true≢false (v.unlocked r));
  not_after = v.not_after;
}
Validated-held u false n e v = v

held-tid : (u : TidWord) (c : Bool) (b : ℕ) → u.tid ≤ b → (if c then held u else u).tid ≤ b
held-tid u true b h = h
held-tid u false b h = h

-- What the validation refuses is not good.
refuses-held :
    (u : TidWord) (b : Bool) (e : Element)
    → refuses (if b then held u else u) e ≡ true
    → is_valid u e.tw ≡ true
    → (is_read e.rwt ≡ true → (u.lock ≡ false) × (b ≡ false))
    → ⊥
unfolding refuses is_valid is_readable
refuses-held u true e r v k = by_read (is_read e.rwt) refl
  where
    by_read : (c : Bool) → is_read e.rwt ≡ c → ⊥
    by_read true i = true≢false (k i).1
    by_read false i = ground (arith, r, v, i)
refuses-held u false e r v k = by_read (is_read e.rwt) refl
  where
    by_read : (c : Bool) → is_read e.rwt ≡ c → ⊥
    by_read true i = ground (arith, r, v, i, (k i).0)
    by_read false i = ground (arith, r, v, i)

Checked-cons :
    (all : List Entry) (w : Words) (tid m : ℕ) (e : Element) (l : List Element) (o : Option ℕ)
    → tid ≤ m
    → IsSeen w tid m
    → ((n : ℕ) → m ≤ n → IsChecked w n e)
    → Checked all l w m o
    → Checked all (e ∷ l) w tid o
Checked-cons all w tid m e l none b q c h = λ k. h k.1
Checked-cons all w tid m e l (some n) b q c h =
    (omega (arith, h.0), λ x f t. h.1 x f (q x f t), (c n h.0, h.2))

-- Phase 2.1: what passes has been validated against the words that stood there before the locks.
pub validate_reads-Checked :
    (all : List Entry) (w w' : Words)
    → Held all w w'
    → (l : List Element) (tid : ℕ) → Checked all l w tid (validate_reads l w' tid)
unfolding validate_reads
validate_reads-Checked all w w' h [] tid = (omega arith, λ b f t. t, tt)
validate_reads-Checked all w w' h (e ∷ l) tid = elim (Bool-cases (is_insert e.rwt)) [
  | inl i ↦ rw i (
      Checked-cons all w tid tid e l (validate_reads l w' tid) (omega arith) (λ b f t. t)
        (λ n m no. absurd (true≢false (sym i ∙ no))) (validate_reads-Checked all w w' h l tid))
  | inr i ↦
      elim (Bool-cases (not (is_valid (w' e.val) e.tw) || ((w' e.val).lock && is_read e.rwt))) [
        | inl r ↦
            rw (i, r)
              (λ k.
                refuses-held (w e.val) (among e.val all) e
                  (subst (λ u. refuses u e ≡ true) (h e.val) (unfold refuses in r)) (k.0 i).0
                  (k.0 i).1)
        | inr r ↦
            rw (i, r)
              (Checked-cons all w tid (raise tid (w' e.val)) e l
                (validate_reads l w' (raise tid (w' e.val))) (raise_bounds tid (w' e.val)).0
                (λ b f t. raise-below tid b (w' e.val) t (
                  subst (λ (u : TidWord). u.tid ≤ b) (sym (h e.val))
                    (held-tid (w e.val) (among e.val all) b (f e.val))))
                (λ n m no. Validated-held (w e.val) (among e.val all) n e (
                  subst (λ u. Validated u n e) (h e.val)
                    (unfold refuses in Validated-of (w' e.val) tid n e r m)))
                (validate_reads-Checked all w w' h l (raise tid (w' e.val))))
      ]
]
