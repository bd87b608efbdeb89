-- ===== src/Silo/Withdrawal.antt =====
-- silo.hpp: what `abort` does to the values.
use tpcc_runner.Base.{
  ℕ, ◌≡◌, refl, Bool, true, false, ◌&&◌, ◌||◌, Option, none, some, List, [], ◌∷◌, ◌==◌, ==_iff,
  if◌then◌else◌, All, Bool-cases, inl, inr, arith, ap, sym, subst, ◌∙◌,
}
use mathlib.Core.Option
use tpcc_runner.Base.Multimap.{Multimap, emplace}
use tpcc_runner.Silo.Word.{TidWord}
use tpcc_runner.Silo.Defs.{
  ReadWriteType, read_type, update_type, insert_type, delete_type, Element, Words, Index, State,
  put,
}
use tpcc_runner.Silo.Commit.{Entry, writes, undo_insert, free_write, undo, undo_all, abort}
use tpcc_runner.Silo.Locking.{held, val_of, Apart, IsDistinct, IsFree, same_number}
use tpcc_runner.Silo.Phases.{lock-free}

-- A value that can no longer be found, read or written.
abbrev pub withdrawn : TidWord → TidWord
withdrawn w = record w { lock = false; latest = false; absent = true }

-- Whether a value was put into the index by one of the entries.
abbrev pub created : ℕ → List Entry → Bool
created v [] = false
created v (x ∷ l) = (x.element.is_new && val_of x == v) || created v l

-- The local record of an element that was written, or null.
abbrev pub local_rec : Element → ℕ
local_rec e = elim e.rwt [ update_type ↦ e.rec | insert_type ↦ e.rec | _ ↦ 0 ]

-- The local records of the entries are freed.
abbrev pub all_freed : List Entry → List ℕ → List ℕ
all_freed [] freed = freed
all_freed (x ∷ l) freed =
    all_freed l (if local_rec x.element == 0 then freed else local_rec x.element ∷ freed)

-- The values that the entries created go to the collector.
abbrev pub all_collected : (epoch : ℕ) → List Entry → Multimap → Multimap
all_collected epoch [] gc = gc
all_collected epoch (x ∷ l) gc =
    all_collected epoch l (if x.element.is_new then emplace epoch x.element.val gc else gc)

-- An index without the keys that the entries created.
abbrev pub all_removed : (ix : Index) → List Entry → ix.Tree → ix.Tree
all_removed ix [] index = index
all_removed ix (x ∷ l) index =
    all_removed ix l (if x.element.is_new then ix.remove index x.table x.key else index)

-- Exactly the values that the transaction created are withdrawn: their words, their keys in the
-- index, and their entries in the collector; the local records are freed, and nothing else of the
-- shared store has changed.
pub record Withdrawn (ix : Index) (s : State ix.Tree) (l : List Entry) (s' : State ix.Tree)
    : Type 0 where
  pub word : (v : ℕ) → s'.word v ≡ (if created v l then withdrawn (s.word v) else s.word v)
  pub rec_of : s'.rec_of ≡ s.rec_of
  pub bytes : s'.bytes ≡ s.bytes
  pub index : s'.index ≡ all_removed ix l s.index
  pub freed : s'.freed ≡ all_freed l s.freed
  pub epoch : s'.starting_epoch ≡ s.starting_epoch
  pub collected : s'.gc_container ≡ all_collected s.starting_epoch l s.gc_container

abbrev pub Undone : (ix : Index) → State ix.Tree → List Entry → Option (State ix.Tree) → Type 0
Undone ix s l none = ⊥
Undone ix s l (some s') = Withdrawn ix s l s'

withdrawn_twice :
    (w : TidWord) (b c : Bool)
    → (if c then withdrawn (if b then withdrawn w else w) else (if b then withdrawn w else w))
      ≡ (if b || c then withdrawn w else w)
withdrawn_twice w true true = refl
withdrawn_twice w true false = refl
withdrawn_twice w false c = refl

or_false : (b : Bool) → (b || false) ≡ b
or_false true = refl
or_false false = refl

or_false_assoc : (b c : Bool) → (b || c) ≡ ((b || false) || c)
or_false_assoc true c = refl
or_false_assoc false c = refl

module _ (ix : Index) where
  open ix use {Tree}

  free_write-same :
      (e : Element) (s : State Tree)
      → ((free_write ix e s).word ≡ s.word)
        × ((free_write ix e s).rec_of ≡ s.rec_of)
        × ((free_write ix e s).bytes ≡ s.bytes)
        × ((free_write ix e s).index ≡ s.index)
        × ((free_write ix e s).freed
            ≡ (if local_rec e == 0 then s.freed else local_rec e ∷ s.freed))
        × ((free_write ix e s).starting_epoch ≡ s.starting_epoch)
        × ((free_write ix e s).gc_container ≡ s.gc_container)
  unfolding free_write
  free_write-same e s = by_type e.rwt refl
    where
      by_type :
          (w : ReadWriteType)
          → e.rwt ≡ w
          → ((free_write ix e s).word ≡ s.word)
            × ((free_write ix e s).rec_of ≡ s.rec_of)
            × ((free_write ix e s).bytes ≡ s.bytes)
            × ((free_write ix e s).index ≡ s.index)
            × ((free_write ix e s).freed
                ≡ (if local_rec e == 0 then s.freed else local_rec e ∷ s.freed))
            × ((free_write ix e s).starting_epoch ≡ s.starting_epoch)
            × ((free_write ix e s).gc_container ≡ s.gc_container)
      by_type read_type r = rw (r, free_write) (refl, refl, refl, refl, refl, refl, refl)
      by_type update_type r = rw (r, free_write) (refl, refl, refl, refl, refl, refl, refl)
      by_type insert_type r = rw (r, free_write) (refl, refl, refl, refl, refl, refl, refl)
      by_type delete_type r = rw (r, free_write) (refl, refl, refl, refl, refl, refl, refl)

  -- The word of one value after the undoing of one entry.
  undo_insert-word :
      (x : Entry) (s : State Tree) (v : ℕ)
      → (undo_insert ix x (put s.word (val_of x) (held (s.word (val_of x)))) s).word v
        ≡ (if val_of x == v then withdrawn (s.word v) else s.word v)
  unfolding undo_insert
  undo_insert-word x s v = elim (Bool-cases (val_of x == v)) [
    | inl e ↦ rw (e, (==_iff (val_of x) v).0 e, same_number v) refl
    | inr e ↦ rw e refl
  ]

  abbrev undone_by : Entry → State Tree → Bool → Option Words → Option (State Tree)
  undone_by x s b o =
      if b
      then Option.map (λ w. free_write ix x.element (undo_insert ix x w s)) o
      else some (free_write ix x.element s)

  created-one :
      (x : Entry) (v : ℕ) (b : Bool)
      → x.element.is_new ≡ b
      → created v (x ∷ []) ≡ (b && val_of x == v)
  created-one x v true e = rw e (or_false (val_of x == v))
  created-one x v false e = rw e refl

  undo-Withdrawn :
      (x : Entry) (s : State Tree) → IsFree s.word x → Undone ix s (x ∷ []) (undo ix x s)
  unfolding undo undo_insert
  undo-Withdrawn x s f =
      subst (λ o. Undone ix s (x ∷ []) (undone_by x s x.element.is_new o))
        (sym (lock-free (val_of x) s.word f)) (by_new x.element.is_new refl)
    where
      locked : Words
      locked = put s.word (val_of x) (held (s.word (val_of x)))

      by_new :
          (b : Bool) → x.element.is_new ≡ b → Undone ix s (x ∷ []) (undone_by x s b (some locked))
      by_new true e =
          let same = free_write-same x.element (undo_insert ix x locked s) in
          record {
            word = λ v.
                ap (λ g. g v) same.0
                ∙ undo_insert-word x s v
                ∙ ap (λ b. if b then withdrawn (s.word v) else s.word v)
                    (sym (created-one x v true e));
            rec_of = same.1;
            bytes = same.2;
            index = same.3 ∙ rw e refl;
            freed = same.4;
            epoch = same.5;
            collected = same.6 ∙ rw e refl;
          }
      by_new false e =
          let same = free_write-same x.element s in
          record {
            word = λ v.
                ap (λ g. g v) same.0
                ∙ ap (λ b. if b then withdrawn (s.word v) else s.word v)
                    (sym (created-one x v false e));
            rec_of = same.1;
            bytes = same.2;
            index = same.3 ∙ rw e refl;
            freed = same.4;
            epoch = same.5;
            collected = same.6 ∙ rw e refl;
          }

  created_other : (x y : Entry) → Apart x y → created (val_of y) (x ∷ []) ≡ false
  created_other x y a = ground (arith, a.1)

  -- What is free stays free while other entries are undone.
  IsFree-Withdrawn :
      (x : Entry) (s s' : State Tree) (l : List Entry)
      → Withdrawn ix s (x ∷ []) s'
      → All (Apart x) l
      → All (IsFree s.word) l
      → All (IsFree s'.word) l
  IsFree-Withdrawn x s s' [] w a f = tt
  IsFree-Withdrawn x s s' (y ∷ l) w a f = (
    ap TidWord.lock (
          w.word (val_of y)
          ∙ ap (λ b. if b then withdrawn (s.word (val_of y)) else s.word (val_of y))
              (created_other x y a.0))
        ∙ f.0,
    IsFree-Withdrawn x s s' l w a.1 f.1,
  )

  created-cons :
      (x : Entry) (l : List Entry) (v : ℕ) → created v (x ∷ l) ≡ (created v (x ∷ []) || created v l)
  created-cons x l v = or_false_assoc (x.element.is_new && val_of x == v) (created v l)

  Withdrawn-trans :
      (x : Entry) (l : List Entry) (s s' : State Tree) (o : Option (State Tree))
      → Withdrawn ix s (x ∷ []) s'
      → Undone ix s' l o
      → Undone ix s (x ∷ l) o
  Withdrawn-trans x l s s' none w u = u
  Withdrawn-trans x l s s' (some t) w u = record {
    word = λ v.
        u.word v
        ∙ ap (λ (a : TidWord). if created v l then withdrawn a else a) (w.word v)
        ∙ withdrawn_twice (s.word v) (created v (x ∷ [])) (created v l)
        ∙ ap (λ b. if b then withdrawn (s.word v) else s.word v) (sym (created-cons x l v));
    rec_of = u.rec_of ∙ w.rec_of;
    bytes = u.bytes ∙ w.bytes;
    index = u.index ∙ ap (all_removed ix l) w.index;
    freed = u.freed ∙ ap (all_freed l) w.freed;
    epoch = u.epoch ∙ w.epoch;
    collected =
        u.collected
        ∙ ap (λ n. all_collected n l s'.gc_container) w.epoch
        ∙ ap (all_collected s.starting_epoch l) w.collected;
  }

  undo_all-Undone :
      (l : List Entry) (s : State Tree)
      → IsDistinct l
      → All (IsFree s.word) l
      → Undone ix s l (undo_all ix l s)
  unfolding undo_all Option.bind
  undo_all-Undone [] s d f = record {
    word = λ v. refl;
    rec_of = refl;
    bytes = refl;
    index = refl;
    freed = refl;
    epoch = refl;
    collected = refl;
  }
  undo_all-Undone (x ∷ l) s d f =
      by_first (undo ix x s) (undo-Withdrawn x s f.0) (λ s'. undo_all-Undone l s' d.1)
    where
      by_first :
          (o : Option (State Tree))
          → Undone ix s (x ∷ []) o
          → ((s' : State Tree) → All (IsFree s'.word) l → Undone ix s' l (undo_all ix l s'))
          → Undone ix s (x ∷ l) (Option.bind o (undo_all ix l))
      by_first none u rest = u
      by_first (some s') u rest =
          Withdrawn-trans x l s s' (undo_all ix l s') u
            (rest s' (IsFree-Withdrawn x s s' l u d.0 f.1))

  abbrev pub Aborted : State Tree → Option (State Tree) → Type 0
  Aborted s none = ⊥
  Aborted s (some s') =
      Withdrawn ix s (writes s.tables s.ws) s' × (s'.tables ≡ []) × ((t : ℕ) → s'.ws t ≡ [])

  -- If the entries of the write set have different keys and values and nobody holds their locks,
  -- then `abort` returns. Exactly the values that the transaction put into the index are withdrawn:
  -- unlocked, absent and no longer the latest, their keys are taken out of the index, and they are
  -- with the collector under the epoch of the transaction; the local records are freed, every other
  -- word and all records are as they were, and the read-write set is empty.
  pub abort-Aborted :
      (s : State Tree)
      → IsDistinct (writes s.tables s.ws)
      → All (IsFree s.word) (writes s.tables s.ws)
      → Aborted s (abort ix s)
  unfolding abort
  abort-Aborted s d f =
      cleared (undo_all ix (writes s.tables s.ws) s) (undo_all-Undone (writes s.tables s.ws) s d f)
    where
      cleared :
          (o : Option (State Tree))
          → Undone ix s (writes s.tables s.ws) o
          → Aborted s (
              Option.map
                (λ (s' : State Tree). record s' { tables = []; ws = λ t. []; ns = λ t. [] })
                o)
      cleared none u = u
      cleared (some s') u = (
        record {
          word = u.word;
          rec_of = u.rec_of;
          bytes = u.bytes;
          index = u.index;
          freed = u.freed;
          epoch = u.epoch;
          collected = u.collected;
        },
        refl,
        λ t. refl,
      )
