-- ===== src/Silo/Phases.antt =====
-- silo.hpp: phase 1 of `precommit`, the locking loop.
use tpcc_runner.Base.{
  ℕ, ◌≤◌, ◌≡◌, refl, Bool, true, false, not, ◌&&◌, ◌||◌, Option, none, some, List, [], ◌∷◌, ◌++◌,
  if◌then◌else◌, All, All-map, Bool-cases, inl, inr, arith, ap, sym, subst, ◌∙◌,
}
use mathlib.Core.Bool.{true≢false}
use mathlib.Core.Option
use mathlib.Core.List.{append_assoc, append-nil}
use tpcc_runner.Silo.Word.{TidWord, is_readable}
use tpcc_runner.Silo.Defs.{Words, put}
use tpcc_runner.Silo.Commit.{Entry, lock, unlock_writeset, lock_writes, raise}
use tpcc_runner.Silo.Locking.{
  held, val_of, Apart, IsDistinct, IsFree, Held, Held-lock, Apart-among, unlock-restores, lock-at,
  same_number,
}

-- What the locking loop has seen at an entry: a word that is not after the number that it has come
-- to, and one that can be read unless the transaction has made the value itself.
pub record Passed (w : Words) (n : ℕ) (x : Entry) : Type 0 where
  pub not_after : (w (val_of x)).tid ≤ n
  pub readable : (x.element.is_new || is_readable (w (val_of x))) ≡ true

-- A number that is one of those seen: it is below whatever they are all below.
abbrev pub IsSeen : Words → ℕ → ℕ → Type 0
IsSeen w tid n = (b : ℕ) → ((v : ℕ) → (w v).tid ≤ b) → tid ≤ b → n ≤ b

-- A value that can be written: it is the transaction's own, or it is there.
abbrev pub IsWritable : Words → Entry → Type 0
IsWritable w x = (x.element.is_new || is_readable (w (val_of x))) ≡ true

-- The loop returns. If it refuses, every word is as it was, and a value cannot be written; if not,
-- all entries are locked.
abbrev pub Outcome : List Entry → Words → ℕ → List Entry → Option (Words × Option ℕ) → Type 0
Outcome all w tid l none = ⊥
Outcome all w tid l (some (w', none)) = ((v : ℕ) → w' v ≡ w v) × ¬ All (IsWritable w) l
Outcome all w tid l (some (w', some n)) =
    Held all w w' × (tid ≤ n) × IsSeen w tid n × All (Passed w n) l

pub raise-below : (tid b : ℕ) (u : TidWord) → tid ≤ b → u.tid ≤ b → raise tid u ≤ b
raise-below tid b u h k = ground arith

pub raise_bounds : (tid : ℕ) (u : TidWord) → (tid ≤ raise tid u) × (u.tid ≤ raise tid u)
raise_bounds tid u = ground arith

Outcome-cons :
    (all : List Entry) (w : Words) (tid : ℕ) (x : Entry) (l : List Entry)
    (o : Option (Words × Option ℕ))
    → (x.element.is_new || is_readable (w (val_of x))) ≡ true
    → Outcome all w (raise tid (w (val_of x))) l o
    → Outcome all w tid (x ∷ l) o
Outcome-cons all w tid x l none r h = h
Outcome-cons all w tid x l (some (w', none)) r h = (h.0, λ c. h.1 c.1)
Outcome-cons all w tid x l (some (w', some n)) r (k, m, q, p) =
    let b = raise_bounds tid (w (val_of x)) in
    (
      k,
      omega (arith, m, b.0),
      λ c h t. q c h (raise-below tid c (w (val_of x)) t (h (val_of x))),
      (record { not_after = omega (arith, m, b.1); readable = r }, p),
    )

All-append {ℓ κ} :
    {A : Type ℓ} (P : A → Type κ) (l : List A) (x : A) → All P l → P x → All P (l ++ x ∷ [])
All-append P [] x h p = (p, tt)
All-append P (y ∷ l) x h p = (h.0, All-append P l x h.1 p)

-- The word under a lock that was taken just now.
lock-found :
    (done : List Entry) (x : Entry) (w w' : Words)
    → All (λ y. Apart y x) done
    → Held done w w'
    → w' (val_of x) ≡ w (val_of x)
lock-found done x w w' a h =
    h (val_of x) ∙ ap (λ b. if b then held (w (val_of x)) else w (val_of x)) (Apart-among done x a)

pub lock-free : (u : ℕ) (w : Words) → (w u).lock ≡ false → lock u w ≡ some (put w u (held (w u)))
unfolding lock
lock-free u w e = rw e refl

unwritable : (a b : Bool) → (not a && not b) ≡ true → (a || b) ≡ true → ⊥
unwritable true b h k = true≢false (sym h)
unwritable false true h k = true≢false (sym h)
unwritable false false h k = true≢false (sym k)

refused_readable : (a b : Bool) → (not a && not b) ≡ false → (a || b) ≡ true
refused_readable true b h = refl
refused_readable false true h = refl
refused_readable false false h = sym h

-- A value is locked: refuse, or go on.
lock-Outcome :
    (done : List Entry) (x : Entry) (l : List Entry) (w w' : Words) (tid : ℕ)
    → w' (val_of x) ≡ held (w (val_of x))
    → All (λ y. Apart y x) done
    → All (IsFree w) (done ++ x ∷ [])
    → Held (done ++ x ∷ []) w w'
    → (rest : Option (Words × Option ℕ))
    → Outcome (done ++ x ∷ l) w (raise tid (w (val_of x))) l rest
    → Outcome (done ++ x ∷ l) w tid (x ∷ l) (
        if not x.element.is_new && not (is_readable (w' (val_of x)))
        then some (unlock_writeset x.table x.key (done ++ x ∷ l) w', none)
        else rest)
unfolding is_readable
lock-Outcome done x l w w' tid found a f h rest r =
    elim (Bool-cases (not x.element.is_new && not (is_readable (w (val_of x))))) [
      | inl e ↦
          rw (found, e)
            (
              unlock-restores done x l w w' a f h,
              λ c. unwritable x.element.is_new (is_readable (w (val_of x))) e c.0,
            )
      | inr e ↦
          rw (found, e)
            (Outcome-cons (done ++ x ∷ l) w tid x l rest
              (refused_readable x.element.is_new (is_readable (w (val_of x))) e) r)
    ]

pub lock_writes-Outcome :
    (l done : List Entry) (w w' : Words) (tid : ℕ)
    → All (λ y. All (Apart y) l) done
    → IsDistinct l
    → All (IsFree w) done
    → All (IsFree w) l
    → Held done w w'
    → Outcome (done ++ l) w tid l (lock_writes (done ++ l) l w' tid)
unfolding lock_writes Option.bind
lock_writes-Outcome [] done w w' tid a d f g h =
    (subst (λ q. Held q w w') (sym (append-nil done)) h, omega arith, λ b h t. t, tt)
lock_writes-Outcome (x ∷ l) done w w' tid a d f g h =
    let apart : All (λ y. Apart y x) done =
      All-map (λ y. All (Apart y) (x ∷ l)) (λ y. Apart y x) (λ y p. p.0) done a in
    let same : w' (val_of x) ≡ w (val_of x) = lock-found done x w w' apart h in
    let w2 : Words = put w' (val_of x) (held (w' (val_of x))) in
    let found : w2 (val_of x) ≡ held (w (val_of x)) =
      lock-at (val_of x) (val_of x) w' ∙ rw (same_number (val_of x)) (ap held same) in
    let locked : Held (done ++ x ∷ []) w w2 = Held-lock done x w w' h in
    let free : All (IsFree w) (done ++ x ∷ []) = All-append (IsFree w) done x f g.0 in
    let later : All (λ y. All (Apart y) l) (done ++ x ∷ []) =
      All-append (λ y. All (Apart y) l) done x
        (All-map (λ y. All (Apart y) (x ∷ l)) (λ y. All (Apart y) l) (λ y p. p.1) done a) d.0 in
    rw (lock-free (val_of x) w' (ap TidWord.lock same ∙ g.0)) (
      lock-Outcome done x l w w2 tid found apart free locked
        (lock_writes (done ++ x ∷ l) l w2 (raise tid (w2 (val_of x))))
        (subst
          (λ u.
            Outcome (done ++ x ∷ l) w (raise tid u) l
              (lock_writes (done ++ x ∷ l) l w2 (raise tid (w2 (val_of x)))))
          found
          (subst
            (λ q.
              Outcome q w (raise tid (w2 (val_of x))) l
                (lock_writes q l w2 (raise tid (w2 (val_of x)))))
            (append_assoc done (x ∷ []) l)
            (lock_writes-Outcome l (done ++ x ∷ []) w w2 (raise tid (w2 (val_of x))) later d.1 free
              g.1 locked))))
