-- ===== src/Raid/Locate/LockTable.antt =====
-- What the lock calls of a locate leave in the table of locks.
use phobos.Base.{
  ℕ, zero, suc, ◌+◌, ◌≤◌, ◌≡◌, refl, ◌∙◌, ◌≢◌, ◌⊎◌, inl, inr, Bool, true, false, ◌||◌, List, [],
  ◌∷◌, ◌++◌, Option, none, some, arith, leb, if◌then◌else◌, Bool-cases, Option-cases, All,
  All-append,
}
use phobos.StringArray.CString.{Bytes, str_eq, str_eq_iff}
use phobos.Types.{PhoId}
use phobos.Raid.Locate.Splits.{count_range, count_range_mono}
use phobos.Raid.Locate.Hosts.{ExtentLocation, HostCapabilities, Compat, has_compatible_devices}
use phobos.Raid.Locate.Extents.{slot}
use phobos.Raid.Locate.Locks.{
  LockCode, locked, exists, failed, LockCalls, cleanup_locks, Taking, try_lock, lock_split,
}

-- The lock calls behave as a table of locks by lock id, which nobody else changes meanwhile: a lock
-- is granted only on a free id, an unlock frees what is freeable, and a refresh changes no owner.
-- What is freeable stays so under these calls.
pub record LockTable (calls : LockCalls) : Type 0 where
  pub id_of : PhoId → Bytes
  pub holder : calls.State → Bytes → Option Bytes
  pub freeable : calls.State → PhoId → Bool
  pub granted :
      (s s' : calls.State) (m : PhoId) (h : Bytes)
      → calls.lock_weak s m h ≡ (locked, s')
      → (holder s (id_of m) ≡ none)
        × (freeable s m ≡ true)
        × ((k : Bytes) → holder s' k ≡ (if str_eq k (id_of m) then some h else holder s k))
        × ((n : PhoId) → freeable s' n ≡ freeable s n)
  pub refused :
      (s s' : calls.State) (m : PhoId) (h : Bytes) (c : LockCode)
      → calls.lock_weak s m h ≡ (c, s')
      → c ≢ locked
      → ((k : Bytes) → holder s' k ≡ holder s k) × ((n : PhoId) → freeable s' n ≡ freeable s n)
  pub freed :
      (s : calls.State) (m : PhoId)
      → freeable s m ≡ true
      → ((k : Bytes)
          → holder (calls.unlock s m) k ≡ (if str_eq k (id_of m) then none else holder s k))
        × ((n : PhoId) → freeable (calls.unlock s m) n ≡ freeable s n)
  pub refreshed :
      (s : calls.State) (m : PhoId)
      → ((k : Bytes) → holder (calls.refresh s m) k ≡ holder s k)
        × ((n : PhoId) → freeable (calls.refresh s m) n ≡ freeable s n)

module _ (calls : LockCalls) (table : LockTable calls) (hostname : Bytes) where
  open calls use {State, lock_weak, unlock, refresh}
  open table use {id_of, holder, freeable, granted, refused, freed, refreshed}

  -- Whether a lock id is that of one of the media.
  abbrev pub is_among : List PhoId → Bytes → Bool
  is_among [] k = false
  is_among (m ∷ ms) k = str_eq k (id_of m) || is_among ms k

  is_among-snoc :
      (ms : List PhoId) (m : PhoId) (k : Bytes)
      → is_among (ms ++ m ∷ []) k ≡ is_among ms k || str_eq k (id_of m)
  is_among-snoc [] m k = ground arith
  is_among-snoc (n ∷ ms) m k = ground (arith, is_among-snoc ms m k)

  -- No two of the media have the same lock id.
  abbrev pub Distinct : List PhoId → Type 0
  Distinct [] = Unit {0}
  Distinct (m ∷ ms) = (is_among ms (id_of m) ≡ false) × Distinct ms

  Distinct-snoc :
      (ms : List PhoId) (m : PhoId)
      → Distinct ms
      → is_among ms (id_of m) ≡ false
      → Distinct (ms ++ m ∷ [])
  Distinct-snoc [] m d new = (refl, tt)
  Distinct-snoc (n ∷ ms) m (apart, d) new = (
    ground (
      arith,
      apart,
      new,
      is_among-snoc ms m (id_of n),
      str_eq_iff (id_of m) (id_of n),
      str_eq_iff (id_of n) (id_of m),
    ),
    Distinct-snoc ms m d (ground (arith, new)),
  )

  -- The table in `t` is that in `s` with the locks `taken` added for the host, one for each of them,
  -- all on media that were free.
  pub record Took (s : State) (taken : List PhoId) (t : State) : Type 0 where
    pub were_free : (k : Bytes) → is_among taken k ≡ true → holder s k ≡ none
    pub added : (k : Bytes) → holder t k ≡ (if is_among taken k then some hostname else holder s k)
    pub can_free : All (λ m. freeable t m ≡ true) taken
    pub distinct : Distinct taken

  All-freeable :
      (s t : State) (ms : List PhoId)
      → ((n : PhoId) → freeable t n ≡ freeable s n)
      → All (λ m. freeable s m ≡ true) ms
      → All (λ m. freeable t m ≡ true) ms
  All-freeable s t [] h a = tt
  All-freeable s t (m ∷ ms) h a = (h m ∙ a.0, All-freeable s t ms h a.1)

  cleanup_lem :
      (ms : List PhoId) (s : State) (k : Bytes)
      → All (λ m. freeable s m ≡ true) ms
      → holder (cleanup_locks calls ms s) k ≡ (if is_among ms k then none else holder s k)
  unfolding cleanup_locks
  cleanup_lem [] s k a = refl
  cleanup_lem (m ∷ ms) s k a =
      let (gone, same) = freed s m a.0 in
      ground
        (arith, cleanup_lem ms (unlock s m) k (All-freeable s (unlock s m) ms same a.1), gone k)

  -- Giving the locks back restores the table.
  pub Took-cleanup :
      (s : State) (taken : List PhoId) (t : State)
      → Took s taken t
      → (k : Bytes) → holder (cleanup_locks calls taken t) k ≡ holder s k
  Took-cleanup s taken t w k =
      ground (arith, cleanup_lem taken t k w.can_free, w.were_free k, w.added k)

  Took-snoc :
      (s : State) (taken : List PhoId) (t t' : State) (m : PhoId)
      → Took s taken t
      → lock_weak t m hostname ≡ (locked, t')
      → Took s (taken ++ m ∷ []) t'
  Took-snoc s taken t t' m w e =
      let (free, can, new, same) = granted t t' m hostname e in
      record {
        were_free = λ k h. ground (
          arith,
          is_among-snoc taken m k,
          str_eq_iff k (id_of m),
          w.were_free k,
          w.added (id_of m),
          free,
        );
        added = λ k. ground (arith, is_among-snoc taken m k, w.added k, new k);
        can_free =
            All-append (λ n. freeable t' n ≡ true) taken (m ∷ [])
              (All-freeable t t' taken same w.can_free) (same m ∙ can, tt);
        distinct = Distinct-snoc taken m w.distinct (ground (arith, w.added (id_of m), free));
      }

  Took-refused :
      (s : State) (taken : List PhoId) (t t' : State) (m : PhoId) (c : LockCode)
      → Took s taken t
      → lock_weak t m hostname ≡ (c, t')
      → c ≢ locked
      → Took s taken t'
  Took-refused s taken t t' m c w e n =
      let (old, same) = refused t t' m hostname c e n in
      record {
        were_free = w.were_free;
        added = λ k. old k ∙ w.added k;
        can_free = All-freeable t t' taken same w.can_free;
        distinct = w.distinct;
      }

  -- The host holds the medium's lock.
  abbrev pub holds : State → Bytes → Bool
  holds s m = elim (holder s m) [ none ↦ false | some h ↦ str_eq hostname h ]

  abbrev pub Grows : State → State → Type 0
  Grows s t = (m : Bytes) → holds s m ≡ true → holds t m ≡ true

  module _ (compat : Compat) (locs : List (Option ExtentLocation)) (n_data per_split : ℕ)
      (cap : HostCapabilities) where
    abbrev attempt : ExtentLocation → Taking calls → Taking calls
    attempt = try_lock calls compat locs n_data per_split hostname cap

    record Attempt (loc : ExtentLocation) (t t' : Taking calls) : Type 0 where
      took : (s : State) → Took s t.taken t.state → Took s t'.taken t'.state
      grows : Grows t.state t'.state
      counted :
          (t'.held ≡ t.held)
          ⊎ (t'.held ≡ t.held + 1)
            × (holds t.state (id_of loc.medium.id) ≡ false)
            × (holds t'.state (id_of loc.medium.id) ≡ true)

    refused-Attempt :
        (loc : ExtentLocation) (t : Taking calls) (c : LockCode) (s' : State)
        → lock_weak t.state loc.medium.id hostname ≡ (c, s')
        → c ≢ locked
        → Attempt loc t (record t { state = s' })
    refused-Attempt loc t c s' e n = record {
      took = λ s w. Took-refused s t.taken t.state s' loc.medium.id c w e n;
      grows = λ k g. ground (arith, (refused t.state s' loc.medium.id hostname c e n).0 k);
      counted = inl refl;
    }

    attempt_code :
        (loc : ExtentLocation) (t : Taking calls) (c : LockCode) (s' : State)
        → has_compatible_devices compat cap.devices loc ≡ true
        → lock_weak t.state loc.medium.id hostname ≡ (c, s')
        → Attempt loc t (attempt loc t)
    unfolding try_lock
    attempt_code loc t locked s' h e =
        let (free, can, new, same) = granted t.state s' loc.medium.id hostname e in
        let own = new (id_of loc.medium.id) in
        rw (h, e)
          (record {
            took = λ s w. Took-snoc s t.taken t.state s' loc.medium.id w e;
            grows = λ k g. ground (arith, free, new k, str_eq_iff hostname hostname);
            counted = inr (
              refl,
              ground (arith, own),
              ground (
                arith,
                own,
                str_eq_iff (id_of loc.medium.id) (id_of loc.medium.id),
                str_eq_iff hostname hostname,
              ),
            );
          })
    attempt_code loc t exists s' h e = rw (h, e) (refused-Attempt loc t exists s' e (ground arith))
    attempt_code loc t failed s' h e = rw (h, e) (refused-Attempt loc t failed s' e (ground arith))

    try_lock-Attempt : (loc : ExtentLocation) (t : Taking calls) → Attempt loc t (attempt loc t)
    unfolding try_lock
    try_lock-Attempt loc t = elim (Bool-cases (has_compatible_devices compat cap.devices loc)) [
      | inl h ↦
          attempt_code loc t (lock_weak t.state loc.medium.id hostname).0
            (lock_weak t.state loc.medium.id hostname).1 h refl
      | inr h ↦ rw h (record { took = λ s w. w; grows = λ k g. g; counted = inl refl })
    ]

    -- The host holds the lock of the slot's medium.
    abbrev pub slot_held : State → ℕ → Bool
    slot_held s i = elim (slot locs i) [ none ↦ false | some loc ↦ holds s (id_of loc.medium.id) ]

    pub record Locking (n i : ℕ) (t t' : Taking calls) : Type 0 where
      pub took : (s : State) → Took s t.taken t.state → Took s t'.taken t'.state
      pub grows : Grows t.state t'.state
      pub counted :
          t'.held + count_range n i (slot_held t.state)
          ≤ t.held + count_range n i (slot_held t'.state)

    pub slot_held_mono :
        (s t : State) → Grows s t → (i : ℕ) → slot_held s i ≡ true → slot_held t i ≡ true
    slot_held_mono s t g i h = elim (Option-cases (slot locs i)) [
      | inl e ↦ absurd (ground arith)
      | inr (loc, e) ↦ ground (arith, g (id_of loc.medium.id))
    ]

    pub count_mono :
        (n i : ℕ) (s t : State)
        → Grows s t
        → count_range n i (slot_held s) ≤ count_range n i (slot_held t)
    count_mono n i s t g = count_range_mono n i (slot_held s) (slot_held t) (slot_held_mono s t g)

    Locking-self : (n i : ℕ) (t : Taking calls) → Locking n i t t
    Locking-self n i t = record { took = λ s w. w; grows = λ m h. h; counted = omega arith }

    Locking-skip :
        (n i : ℕ) (t t' : Taking calls)
        → slot locs i ≡ none
        → Locking n (i + 1) t t'
        → Locking (suc n) i t t'
    unfolding count_range
    Locking-skip n i t t' e l = record {
      took = l.took;
      grows = l.grows;
      counted = ground (arith, l.counted);
    }

    Locking-Attempt :
        (n i : ℕ) (loc : ExtentLocation) (t u t' : Taking calls)
        → slot locs i ≡ some loc
        → Attempt loc t u
        → Locking n (i + 1) u t'
        → Locking (suc n) i t t'
    unfolding count_range
    Locking-Attempt n i loc t u t' e a l = record {
      took = λ s w. l.took s (a.took s w);
      grows = λ m h. l.grows m (a.grows m h);
      counted = ground (
        arith,
        a.counted,
        l.counted,
        count_mono n (i + 1) t.state u.state a.grows,
        a.grows (id_of loc.medium.id),
        l.grows (id_of loc.medium.id),
      );
    }

    pub lock_split-Locking :
        (n i : ℕ) (t : Taking calls)
        → Locking n i t (lock_split calls compat locs n_data per_split hostname cap n i t)
    unfolding lock_split
    lock_split-Locking zero i t = Locking-self zero i t
    lock_split-Locking (suc n) i t = elim (Option-cases (slot locs i)) [
      | inl e ↦ rw (e, lock_split) (Locking-skip n i t _ e (lock_split-Locking n (i + 1) t))
      | inr (loc, e) ↦ elim (Bool-cases (leb n_data (attempt loc t).held)) [
        | inl enough ↦
            rw (e, enough, lock_split)
              (Locking-Attempt n i loc t (attempt loc t) (attempt loc t) e (try_lock-Attempt loc t)
                (Locking-self n (i + 1) (attempt loc t)))
        | inr more ↦
            rw (e, more, lock_split)
              (Locking-Attempt n i loc t (attempt loc t) _ e (try_lock-Attempt loc t)
                (lock_split-Locking n (i + 1) (attempt loc t)))
      ]
    ]
