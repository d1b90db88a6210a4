-- ===== src/Dss/Lock/AllOrNothing.antt =====
-- The locking of several ids: what `_dss_lock` leaves when it succeeds, and after its rollback.
use phobos.Base.{
  ℕ, ◌≡◌, refl, sym, ap, ◌∙◌, inl, inr, true, ◌&&◌, ◌||◌, List, [], ◌∷◌, Option, none, some, arith,
  if◌then◌else◌, Bool-cases, Option-cases,
}
use phobos.Base.Results.{Errno}
use phobos.StringArray.CString.{Bytes, str_eq_iff, contains}
use phobos.Dss.Lock.{
  object, deprec, layout, extent, device, media, media_update, logs, full_layout, copy, media_stats,
  DssType, is_lock_type, type_eq, type_eq_iff, Row, Rows, put, Db, run, execute-cases, execute_calm,
  Flags, lock_type_of, new_row, insert_row, change_row, basic_lock, basic_unlock, forced,
  dss_lock_rollback, lock_loop, lock_ids, may_unlock,
}

abbrev drop_count : (Option Errno × ℕ) × Db → Option Errno × Db
drop_count ((rc, n), db) = (rc, db)

pub lock_type_of_lock : (t : DssType) → is_lock_type t ≡ true → lock_type_of t ≡ t
lock_type_of_lock deprec h = cc
lock_type_of_lock object h = refl
lock_type_of_lock layout h = refl
lock_type_of_lock extent h = refl
lock_type_of_lock device h = refl
lock_type_of_lock media h = refl
lock_type_of_lock media_update h = refl
lock_type_of_lock logs h = refl
lock_type_of_lock full_layout h = refl
lock_type_of_lock copy h = refl
lock_type_of_lock media_stats h = refl

module _ (t : DssType) (owner : ℕ) (hostname : Bytes) (flags : Flags) where
  -- The two outcomes of one lock.
  abbrev Inserts : Bytes → Db → Option Errno × Db → Type 0
  Inserts id db (some e, db') =
      ((u : DssType) (k : Bytes) → db'.rows u k ≡ db.rows u k) × (db'.now ≡ db.now)
  Inserts id db (none, db') =
      (db.rows t id ≡ none)
      × ((u : DssType) (k : Bytes)
          → db'.rows u k ≡ put db.rows t id (some (new_row db owner hostname flags)) u k)
      × (db'.now ≡ db.now)

  insert-Inserts :
      (id : Bytes) (db : Db) (fs : List (Option Errno))
      → Inserts id db (
          drop_count (
            run
              (insert_row t id (new_row db owner hostname flags) db.rows)
              (record db { failures = fs })))
  unfolding insert_row
  insert-Inserts id db fs = elim (Bool-cases (is_lock_type t)) [
    | inr no_lock ↦ rw (no_lock, insert_row) ((λ u k. refl), refl)
    | inl lock ↦ elim (Option-cases (db.rows t id)) [
      | inl e ↦ rw (lock, e, insert_row) (e, (λ u k. refl), refl)
      | inr (r, e) ↦ rw (lock, e, insert_row) ((λ u k. refl), refl)
    ]
  ]

  basic_lock-Inserts :
      (id : Bytes) (db : Db)
      → lock_type_of t ≡ t
      → Inserts id db (basic_lock t id owner hostname flags db)
  unfolding basic_lock
  basic_lock-Inserts id db same =
      rw (same, basic_lock)
        (execute-cases (λ r. Inserts id db (drop_count r))
          (insert_row t id (new_row db owner hostname flags)) db (λ e fs. ((λ u k. refl), refl))
          (insert-Inserts id db))

  -- A lock is granted only on a free id.
  pub Inserts_free :
      (id : Bytes) (db : Db)
      → lock_type_of t ≡ t
      → (basic_lock t id owner hostname flags db).0 ≡ none
      → db.rows t id ≡ none
  Inserts_free id db same =
      read (basic_lock t id owner hostname flags db) (basic_lock-Inserts id db same)
    where
      read : (r : Option Errno × Db) → Inserts id db r → r.0 ≡ none → db.rows t id ≡ none
      read (none, db') (free, s, n) q = free
      read (some e, db') s q = absurd (ground arith)

  -- The ids of the list are locked in `rows'`, and were free in `rows`.
  pub record Added (r : Row) (rows : Rows) (ids : List Bytes) (rows' : Rows) : Type 0 where
    pub were_free : (k : Bytes) → contains ids k ≡ true → rows t k ≡ none
    pub added :
        (u : DssType) (k : Bytes)
        → rows' u k ≡ (if type_eq u t && contains ids k then some r else rows u k)

  Added-cons :
      (r : Row) (rows : Rows) (ids : List Bytes) (id : Bytes) (rows' rows'' : Rows)
      → Added r rows ids rows'
      → rows' t id ≡ none
      → ((u : DssType) (k : Bytes) → rows'' u k ≡ put rows' t id (some r) u k)
      → Added r rows (id ∷ ids) rows''
  Added-cons r rows ids id rows' rows'' a free new = record {
    were_free = λ k h.
        ground
          (arith, str_eq_iff k id, a.were_free k, a.added t id, a.added t k, type_eq_iff t t, free);
    added = λ u k. ground (arith, new u k, a.added u k);
  }

  abbrev looped : List Bytes → List Bytes → Db → Option Errno × List Bytes × Db
  looped = lock_loop t owner hostname flags

  -- The locked ids are those of `taken`, and of all of the list if there is no error.
  abbrev Looped : Row → Db → List Bytes → List Bytes → Option Errno × List Bytes × Db → Type 0
  Looped r db₀ ids taken (rc, taken', db') =
      Added r db₀.rows taken' db'.rows
      × (rc ≡ none → (k : Bytes) → contains taken' k ≡ contains ids k || contains taken k)

  Looped-stop :
      (r : Row) (rows : Rows) (taken : List Bytes) (db db' : Db)
      → ((u : DssType) (k : Bytes) → db'.rows u k ≡ db.rows u k)
      → Added r rows taken db.rows
      → Added r rows taken db'.rows
  Looped-stop r rows taken db db' s a = record {
    were_free = a.were_free;
    added = λ u k. s u k ∙ a.added u k;
  }

  lock_loop-Looped :
      (ids taken : List Bytes) (db₀ db : Db)
      → lock_type_of t ≡ t
      → db.now ≡ db₀.now
      → Added (new_row db₀ owner hostname flags) db₀.rows taken db.rows
      → Looped (new_row db₀ owner hostname flags) db₀ ids taken (looped ids taken db)
  unfolding lock_loop
  lock_loop-Looped [] taken db₀ db same now a = (a, λ e k. refl)
  lock_loop-Looped (id ∷ ids) taken db₀ db same now a =
      after (basic_lock t id owner hostname flags db) refl (basic_lock-Inserts id db same)
        (λ db'. lock_loop-Looped ids (id ∷ taken) db₀ db' same)
    where
      r : Row
      r = new_row db₀ owner hostname flags

      after :
          (res : Option Errno × Db)
          → basic_lock t id owner hostname flags db ≡ res
          → Inserts id db res
          → ((db' : Db)
              → db'.now ≡ db₀.now
              → Added r db₀.rows (id ∷ taken) db'.rows
              → Looped r db₀ ids (id ∷ taken) (looped ids (id ∷ taken) db'))
          → Looped r db₀ (id ∷ ids) taken (looped (id ∷ ids) taken db)
      after (some e, db') q s ih =
          rw (ap (λ x. x.0) q, ap (λ x. x.1) q, lock_loop)
            (Looped-stop r db₀.rows taken db db' s.0 a, λ f. absurd (ground arith))
      after (none, db') q (free, new, now') ih =
          let row : new_row db owner hostname flags ≡ r = ground arith in
          let (a', all) = ih db' (now' ∙ now) (
            Added-cons r db₀.rows taken id db.rows db'.rows a free (λ u k. rw (← row) (new u k))) in
          rw (ap (λ x. x.0) q, ap (λ x. x.1) q, lock_loop) (a', λ e k. ground (arith, all e k))

  -- A forced unlock, when the statement does not fail.
  basic_unlock-forced :
      (id : Bytes) (db : Db)
      → is_lock_type t ≡ true
      → db.failures ≡ []
      → (((u : DssType) (k : Bytes)
            → (basic_unlock t id 0 [] forced db).1.rows u k ≡ put db.rows t id none u k)
          × ((basic_unlock t id 0 [] forced db).1.failures ≡ []))
  unfolding basic_unlock change_row
  basic_unlock-forced id db lock calm =
      rw (execute_calm (change_row t id (may_unlock 0 [] forced) (λ r. none)) db calm, basic_unlock)
        (elim (Option-cases (db.rows t id)) [
          | inl e ↦
              rw (lock, e, change_row)
                ((λ u k. ground (arith, e, type_eq_iff u t, str_eq_iff k id)), refl)
          | inr (r, e) ↦ rw (lock, e, change_row) ((λ u k. refl), refl)
        ])

  rollback_lem :
      (ids : List Bytes) (db : Db)
      → is_lock_type t ≡ true
      → db.failures ≡ []
      → (u : DssType) (k : Bytes)
      → (dss_lock_rollback t ids db).1.rows u k
        ≡ (if type_eq u t && contains ids k then none else db.rows u k)
  unfolding dss_lock_rollback
  rollback_lem [] db lock calm u k = ground arith
  rollback_lem (id ∷ ids) db lock calm u k =
      let (gone, calm') = basic_unlock-forced id db lock calm in
      ground (arith, rollback_lem ids (basic_unlock t id 0 [] forced db).1 lock calm' u k, gone u k)

  -- Exactly the ids of the list are locked, by new rows with the caller's owner, host and flags, and
  -- they were free; or with an error, all rows are as before.
  abbrev pub AllOrNothing : List Bytes → Db → Option Errno × Db → Type 0
  AllOrNothing ids db (none, db') = Added (new_row db owner hostname flags) db.rows ids db'.rows
  AllOrNothing ids db (some e, db') = (u : DssType) (k : Bytes) → db'.rows u k ≡ db.rows u k

  -- Locking several ids of a lock type takes all of them, which were free, or changes no row at all,
  -- whatever statements of the locking fail; those of the rollback do not.
  pub lock_ids-AllOrNothing :
      (ids : List Bytes) (db : Db)
      → is_lock_type t ≡ true
      → (looped ids [] db).2.failures ≡ []
      → AllOrNothing ids db (lock_ids t ids owner hostname flags db)
  unfolding lock_ids
  lock_ids-AllOrNothing ids db lock calm = after (looped ids [] db) refl (
      lock_loop-Looped ids [] db db (lock_type_of_lock t lock) refl
        (record { were_free = λ k h. absurd (ground arith); added = λ u k. ground arith }))
    where
      after :
          (res : Option Errno × List Bytes × Db)
          → looped ids [] db ≡ res
          → Looped (new_row db owner hostname flags) db ids [] res
          → AllOrNothing ids db (lock_ids t ids owner hostname flags db)
      after (none, taken, db') q (a, all) =
          rw (q, lock_ids)
            (record {
              were_free = λ k h. ground (arith, all refl k, a.were_free k);
              added = λ u k. ground (arith, all refl k, a.added u k);
            })
      after (some e, taken, db') q (a, all) =
          rw (q, lock_ids)
            (λ u k. ground (
              arith,
              rollback_lem taken db' lock (ap (λ x. x.2.failures) (sym q) ∙ calm) u k,
              a.added u k,
              a.were_free k,
              type_eq_iff u t,
            ))
