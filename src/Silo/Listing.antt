-- ===== src/Silo/Listing.antt =====
-- silo.hpp: the write set lists the keys that the transaction writes, each of them once.
use tpcc_runner.Base.{
  ℕ, ◌+◌, ◌≡◌, refl, Bool, true, false, Option, none, some, List, [], ◌∷◌, ◌++◌, ◌==◌, ==_iff,
  if◌then◌else◌, arith, Bool-cases, inl, inr, ap, sym, ◌∙◌,
}
use mathlib.Core.Option
use tpcc_runner.Base.Tables.{find_entry, find_entry-assign_entry}
use tpcc_runner.Silo.Word.{TidWord, is_same, is_readable}
use tpcc_runner.Silo.Defs.{
  ReadWriteType, read_type, update_type, insert_type, delete_type, Element, State, put, place,
  push_write, deallocate, get_record_pointer, copy_record,
}
use tpcc_runner.Silo.Access.{
  if_latest, read_value, read_own, write_value, write_read, write_deleted, update_own, remove_value,
  drop_write,
}

-- How often a key is listed.
unfoldable pub times : ℕ → List ℕ → ℕ
times k [] = 0
times k (j ∷ l) = (if j == k then 1 else 0) + times k l

times-append :
    (k j : ℕ) (l : List ℕ) → times k (l ++ j ∷ []) ≡ times k l + (if j == k then 1 else 0)
unfolding times
times-append k j [] = omega arith
times-append k j (i ∷ l) = omega (arith, times-append k j l)

-- An element that is written is listed once, and no other key is listed.
abbrev pub written : ReadWriteType → ℕ
written read_type = 0
written _ = 1

abbrev pub wanted : Option Element → ℕ
wanted none = 0
wanted (some e) = written e.rwt

abbrev pub IsListed : {tree : Type 0} → State tree → Type 0
IsListed s = (t k : ℕ) → times k (s.ws t) ≡ wanted (find_entry t k s.tables)

-- The same of the state that a call leaves, if it does not wait.
abbrev pub Listed : {tree : Type 0} → Option (State tree × ℕ) → Type 0
Listed none = Unit {0}
Listed (some r) = IsListed r.0

module _ {tree : Type 0} (t k : ℕ) where
  -- An element that changes, or is new, and is written neither more nor less than before.
  pub place-IsListed :
      (e : Element) (s : State tree)
      → IsListed s
      → written e.rwt ≡ wanted (find_entry t k s.tables)
      → IsListed (place t k e s)
  place-IsListed e s h w u j =
      rw (find_entry-assign_entry u j t k e s.tables) (by_key (t == u) refl (k == j) refl)
    where
      by_key :
          (b : Bool)
          → (t == u) ≡ b
          → (c : Bool) → (k == j) ≡ c
          → times j (s.ws u)
            ≡ wanted (
                if b
                then (if c then some e else find_entry u j s.tables)
                else find_entry u j s.tables)
      by_key true p true q = rw⁻¹ ((==_iff t u).0 p, (==_iff k j).0 q) (h t k ∙ sym w)
      by_key true p false q = h u j
      by_key false p c q = h u j

  -- An element that is written from now on is added to the write set.
  pub push-IsListed :
      (e : Element) (s : State tree)
      → IsListed s
      → wanted (find_entry t k s.tables) ≡ 0
      → written e.rwt ≡ 1
      → IsListed (push_write t k (place t k e s))
  push-IsListed e s h none_before w u j =
      rw (find_entry-assign_entry u j t k e s.tables) (by_key (t == u) refl (k == j) refl)
    where
      by_key :
          (b : Bool)
          → (t == u) ≡ b
          → (c : Bool) → (k == j) ≡ c
          → times j (if b then s.ws t ++ k ∷ [] else s.ws u)
            ≡ wanted (
                if b
                then (if c then some e else find_entry u j s.tables)
                else find_entry u j s.tables)
      by_key true p true q =
          times-append j k (s.ws t)
          ∙ ground (arith, q, w, none_before, h t k, ap (λ i. times i (s.ws t)) ((==_iff k j).0 q))
      by_key true p false q =
          times-append j k (s.ws t)
          ∙ ground (arith, q, h u j, ap (λ x. times j (s.ws x)) ((==_iff t u).0 p))
      by_key false p c q = h u j

  module _ (s : State tree) (h : IsListed s) where
    -- The copy into a new record touches neither set.
    pub read_value-Listed :
        (val : ℕ) → wanted (find_entry t k s.tables) ≡ 0 → Listed (read_value t k val s)
    unfolding read_value
    read_value-Listed val a = by_pointer (get_record_pointer val s)
      where
        by_pointer :
            (o : Option (ℕ × TidWord))
            → Listed (
                Option.map
                  (λ r.
                    if is_readable r.1
                    then (
                      place t k
                          (record { rec = 0; tw = r.1; rwt = read_type; is_new = false; val = val })
                          s,
                      r.0,
                    )
                    else (s, 0))
                  o)
        by_pointer none = tt
        by_pointer (some r) = elim (Bool-cases (is_readable r.1)) [
          | inl e ↦ rw e (place-IsListed _ s h (sym a))
          | inr e ↦ rw e h
        ]

    pub remove_value-Listed :
        (val : ℕ) → wanted (find_entry t k s.tables) ≡ 0 → Listed (remove_value t k val s)
    unfolding remove_value
    remove_value-Listed val a = by_pointer (get_record_pointer val s)
      where
        by_pointer :
            (o : Option (ℕ × TidWord))
            → Listed (
                Option.map
                  (λ r.
                    if is_readable r.1
                    then (
                      push_write t k (
                          place t k
                            (record {
                              rec = 0;
                              tw = r.1;
                              rwt = delete_type;
                              is_new = false;
                              val = val;
                            })
                            s),
                      r.0,
                    )
                    else (s, 0))
                  o)
        by_pointer none = tt
        by_pointer (some r) = elim (Bool-cases (is_readable r.1)) [
          | inl e ↦ rw e (push-IsListed _ s h a refl)
          | inr e ↦ rw e h
        ]

    -- A copy into a new record touches neither the elements nor the write set.
    abbrev Copied : Option (State tree × TidWord) → Type 0
    Copied none = Unit {0}
    Copied (some r) = IsListed r.0 × (find_entry t k r.0.tables ≡ find_entry t k s.tables)

    copy_record-Copied : (val : ℕ) → Copied (copy_record val s)
    unfolding copy_record
    copy_record-Copied val = by_lock (s.word val).lock
      where
        by_lock :
            (b : Bool)
            → Copied (
                if b
                then none
                else some (
                  record s {
                    next = s.next + 1;
                    bytes =
                        if s.rec_of val == 0
                        then s.bytes
                        else put s.bytes s.next (s.bytes (s.rec_of val));
                  },
                  s.word val,
                ))
        by_lock true = tt
        by_lock false = (h, refl)

    copied-Listed :
        (f : TidWord → Bool) (e : TidWord → Element)
        → ((w : TidWord) → written (e w).rwt ≡ 1)
        → wanted (find_entry t k s.tables) ≡ 0
        → (o : Option (State tree × TidWord)) → Copied o
        → Listed (
            Option.map
              (λ r.
                if f r.1
                then (push_write t k (place t k (e r.1) r.0), s.next)
                else (deallocate s.next r.0, 0))
              o)
    copied-Listed f e w a none c = tt
    copied-Listed f e w a (some r) c = elim (Bool-cases (f r.1)) [
      | inl y ↦ rw y (push-IsListed (e r.1) r.0 c.0 (ap wanted c.1 ∙ a) (w r.1))
      | inr y ↦ rw y c.0
    ]

    pub write_value-Listed :
        (rwt : ReadWriteType)
        → written rwt ≡ 1
        → (val : ℕ) → wanted (find_entry t k s.tables) ≡ 0
        → Listed (write_value rwt t k val s)
    unfolding write_value
    write_value-Listed rwt w val a =
        copied-Listed is_readable
          (λ u. record { rec = s.next; tw = u; rwt = rwt; is_new = false; val = val }) (λ u. w) a
          (copy_record val s) (copy_record-Copied val)

    pub latest-Listed :
        (e : Element) (f : ℕ → State tree × ℕ)
        → ((rec : ℕ) → IsListed (f rec).0)
        → (o : Option (ℕ × TidWord))
        → Listed (Option.map (λ r. if is_same r.1 e.tw then f r.0 else (s, 0)) o)
    latest-Listed e f g none = tt
    latest-Listed e f g (some r) = elim (Bool-cases (is_same r.1 e.tw)) [
      | inl m ↦ rw m (g r.0)
      | inr m ↦ rw m h
    ]

    pub own : (e : Element) (p : ℕ → ℕ) → Listed (if_latest e (λ rec. (s, p rec)) s)
    unfolding if_latest
    own e p = latest-Listed e (λ rec. (s, p rec)) (λ rec. h) (get_record_pointer e.val s)

    module _ (e : Element) (at : find_entry t k s.tables ≡ some e) where
      pub write_read-Listed : e.rwt ≡ read_type → Listed (write_read t k e s)
      unfolding write_read
      write_read-Listed r =
          copied-Listed (λ u. is_same u e.tw) (λ u. record e { rec = s.next; rwt = update_type })
            (λ u. refl) (ap wanted at ∙ ap written r) (copy_record e.val s)
            (copy_record-Copied e.val)

      pub write_deleted-Listed : e.rwt ≡ delete_type → Listed (write_deleted t k e s)
      unfolding write_deleted if_latest
      write_deleted-Listed r =
          latest-Listed e _ (λ rec. place-IsListed _ s h (sym (ap wanted at ∙ ap written r)))
            (get_record_pointer e.val s)

      pub drop_write-Listed : written e.rwt ≡ 1 → Listed (drop_write t k e s)
      unfolding drop_write if_latest
      drop_write-Listed r =
          latest-Listed e _ (λ rec. place-IsListed _ s h (sym (ap wanted at ∙ r)))
            (get_record_pointer e.val s)

      pub read_own-Listed : Listed (read_own e s)
      unfolding read_own
      read_own-Listed = by_type e.rwt refl
        where
          by_type : (w : ReadWriteType) → e.rwt ≡ w → Listed (read_own e s)
          by_type read_type r = rw (r, read_own) (own e (λ rec. rec))
          by_type update_type r = rw (r, read_own) (own e (λ rec. e.rec))
          by_type insert_type r = rw (r, read_own) (own e (λ rec. e.rec))
          by_type delete_type r = rw (r, read_own) h

      pub update_own-Listed : Listed (update_own t k e s)
      unfolding update_own
      update_own-Listed = by_type e.rwt refl
        where
          by_type : (w : ReadWriteType) → e.rwt ≡ w → Listed (update_own t k e s)
          by_type read_type r = rw (r, update_own) (write_read-Listed r)
          by_type update_type r = rw (r, update_own) (own e (λ rec. e.rec))
          by_type insert_type r = rw (r, update_own) (own e (λ rec. e.rec))
          by_type delete_type r = rw (r, update_own) h
