-- ===== src/Silo/Locking.antt =====
-- silo.hpp: what the locking loop of `precommit` leaves, on every branch.
use tpcc_runner.Base.{
  ℕ, ◌≡◌, ◌≢◌, refl, Bool, true, false, ◌&&◌, ◌||◌, List, [], ◌∷◌, ◌++◌, ◌==◌, ==_iff,
  if◌then◌else◌, All, Bool-cases, inl, inr, arith, ap, sym, subst, ◌∙◌,
}
use tpcc_runner.Silo.Word.{TidWord}
use tpcc_runner.Silo.Defs.{Words, put}
use tpcc_runner.Silo.Commit.{Entry, unlock, unlock_writeset}

abbrev pub held : TidWord → TidWord
held w = record w { lock = true }

abbrev pub cleared : TidWord → TidWord
cleared w = record w { lock = false }

abbrev pub val_of : Entry → ℕ
val_of x = x.element.val

-- Whether a value is written by one of the entries.
abbrev pub among : ℕ → List Entry → Bool
among v [] = false
among v (x ∷ l) = (val_of x == v) || among v l

-- Two entries have different keys and different values.
abbrev pub Apart : Entry → Entry → Type 0
Apart x y = ((x.table == y.table && x.key == y.key) ≡ false) × (val_of x ≢ val_of y)

abbrev pub IsDistinct : List Entry → Type 0
IsDistinct [] = Unit {0}
IsDistinct (x ∷ l) = All (Apart x) l × IsDistinct l

-- Nobody holds the lock of an entry's value.
abbrev pub IsFree : Words → Entry → Type 0
IsFree w x = (w (val_of x)).lock ≡ false

-- The entries are locked, and nothing else has changed.
abbrev pub Held : List Entry → Words → Words → Type 0
Held l w w' = (v : ℕ) → w' v ≡ (if among v l then held (w v) else w v)

cleared-same : (w : TidWord) → w.lock ≡ false → cleared w ≡ w
cleared-same w e = λ i. record w { lock = sym e i }

unlock-at : (u v : ℕ) (w : Words) → unlock u w v ≡ (if u == v then cleared (w v) else w v)
unfolding unlock
unlock-at u v w = elim (Bool-cases (u == v)) [
  | inl e ↦ rw (e, (==_iff u v).0 e) refl
  | inr e ↦ rw e refl
]

pub same_number : (n : ℕ) → (n == n) ≡ true
same_number n = ground arith

or_assoc : (a b c : Bool) → (a || (b || c)) ≡ ((a || b) || c)
or_assoc true b c = refl
or_assoc false b c = refl

cleared_twice :
    (w : TidWord) (b c d : Bool)
    → (if c || d then cleared (if b then cleared w else w) else (if b then cleared w else w))
      ≡ (if (b || c) || d then cleared w else w)
cleared_twice w true true d = refl
cleared_twice w true false true = refl
cleared_twice w true false false = refl
cleared_twice w false c d = refl

cleared_once :
    (w : TidWord) (b c : Bool)
    → (if c then cleared (if b then cleared w else w) else (if b then cleared w else w))
      ≡ (if b || c then cleared w else w)
cleared_once w true true = refl
cleared_once w true false = refl
cleared_once w false c = refl

-- On the way back, exactly the entries up to the given one are unlocked.
unlock_writeset-upto :
    (done : List Entry) (x : Entry) (l : List Entry) (w : Words)
    → All (λ y. Apart y x) done
    → (v : ℕ)
    → unlock_writeset x.table x.key (done ++ x ∷ l) w v
      ≡ (if among v done || (val_of x == v) then cleared (w v) else w v)
unfolding unlock_writeset
unlock_writeset-upto [] x l w a v =
    rw (same_number x.table, same_number x.key) (unlock-at (val_of x) v w)
unlock_writeset-upto (y ∷ done) x l w a v =
    rw (a.0.0, unlock_writeset-upto done x l (unlock (val_of y) w) a.1 v, unlock-at (val_of y) v w)
      (cleared_twice (w v) (val_of y == v) (among v done) (val_of x == v))

-- One more entry is locked.
held-among :
    (w : TidWord) (b c : Bool)
    → (if c then held (if b then held w else w) else (if b then held w else w))
      ≡ (if b || c then held w else w)
held-among w true true = refl
held-among w true false = refl
held-among w false c = refl

pub lock-at : (u v : ℕ) (w : Words) → put w u (held (w u)) v ≡ (if u == v then held (w v) else w v)
lock-at u v w = elim (Bool-cases (u == v)) [
  | inl e ↦ rw (e, (==_iff u v).0 e) refl
  | inr e ↦ rw e refl
]

among-append :
    (v : ℕ) (l : List Entry) (x : Entry) → among v (l ++ x ∷ []) ≡ (among v l || (val_of x == v))
among-append v [] x = elim (Bool-cases (val_of x == v)) [ inl e ↦ rw e refl | inr e ↦ rw e refl ]
among-append v (y ∷ l) x =
    rw (among-append v l x) (or_assoc (val_of y == v) (among v l) (val_of x == v))

-- A value that is not among those locked is as it was.
pub Apart-among :
    (done : List Entry) (x : Entry) → All (λ y. Apart y x) done → among (val_of x) done ≡ false
Apart-among [] x a = refl
Apart-among (y ∷ done) x a = ground (arith, a.0.1, Apart-among done x a.1)

pub Held-lock :
    (done : List Entry) (x : Entry) (w w' : Words)
    → Held done w w'
    → Held (done ++ x ∷ []) w (put w' (val_of x) (held (w' (val_of x))))
Held-lock done x w w' h v =
    rw (lock-at (val_of x) v w', h v, among-append v done x)
      (held-among (w v) (among v done) (val_of x == v))

-- All that was locked is given back.
restored :
    (w : TidWord) (b : Bool)
    → (b ≡ true → w.lock ≡ false)
    → (if b then cleared (if b then held w else w) else (if b then held w else w)) ≡ w
restored w true free = cleared-same w (free refl)
restored w false free = refl

among-IsFree :
    (w : Words) (l : List Entry) (v : ℕ) → All (IsFree w) l → among v l ≡ true → (w v).lock ≡ false
among-IsFree w [] v f h = absurd (ground arith)
among-IsFree w (x ∷ l) v f h = elim (Bool-cases (val_of x == v)) [
  | inl e ↦ subst (λ u. (w u).lock ≡ false) ((==_iff (val_of x) v).0 e) f.0
  | inr e ↦ among-IsFree w l v f.1 (subst (λ b. (b || among v l) ≡ true) e h)
]

pub unlock-restores :
    (done : List Entry) (x : Entry) (l : List Entry) (w w' : Words)
    → All (λ y. Apart y x) done
    → All (IsFree w) (done ++ x ∷ [])
    → Held (done ++ x ∷ []) w w'
    → (v : ℕ) → unlock_writeset x.table x.key (done ++ x ∷ l) w' v ≡ w v
unlock-restores done x l w w' a f h v =
    unlock_writeset-upto done x l w' a v
    ∙ ap (λ b. if b then cleared (w' v) else w' v) (sym (among-append v done x))
    ∙ ap (λ (u : TidWord). if among v (done ++ x ∷ []) then cleared u else u) (h v)
    ∙ restored (w v) (among v (done ++ x ∷ [])) (among-IsFree w (done ++ x ∷ []) v f)

-- No entry stands at the key that stops the walk.
abbrev pub IsInner : ℕ → ℕ → Entry → Type 0
IsInner t k x = (x.table == t && x.key == k) ≡ false

unlock_writeset-through :
    (t k : ℕ) (l : List Entry) (w : Words)
    → All (IsInner t k) l
    → (v : ℕ) → unlock_writeset t k l w v ≡ (if among v l then cleared (w v) else w v)
unfolding unlock_writeset
unlock_writeset-through t k [] w a v = refl
unlock_writeset-through t k (y ∷ l) w a v =
    rw (a.0, unlock_writeset-through t k l (unlock (val_of y) w) a.1 v, unlock-at (val_of y) v w)
      (cleared_once (w v) (val_of y == v) (among v l))

-- The other walk gives everything back.
pub unlock_all-restores :
    (t k : ℕ) (l : List Entry) (w w' : Words)
    → All (IsInner t k) l
    → All (IsFree w) l
    → Held l w w'
    → (v : ℕ) → unlock_writeset t k l w' v ≡ w v
unlock_all-restores t k l w w' a f h v =
    unlock_writeset-through t k l w' a v
    ∙ ap (λ (u : TidWord). if among v l then cleared u else u) (h v)
    ∙ restored (w v) (among v l) (among-IsFree w l v f)
