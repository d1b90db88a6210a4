-- ===== src/Dss/Lock/Owners.antt =====
-- A firm lock, which is not weak, against the calls of other processes.
use phobos.Base.{
  ℕ, ◌≡◌, refl, inl, inr, Bool, true, false, not, ◌&&◌, List, [], ◌∷◌, Option, none, some, arith,
  ◌==◌, Bool-cases, Option-cases,
}
use phobos.Base.Results.{Errno}
use phobos.StringArray.CString.{Bytes, str_eq, str_eq_iff, contains}
use phobos.Dss.Lock.AllOrNothing.{lock_type_of_lock, Inserts_free}
use phobos.Dss.Lock.{
  DssType, is_lock_type, type_eq, type_eq_iff, Row, Rows, Db, Answer, affected, refused, run,
  execute, execute-cases, Flags, lock_type_of, new_row, is_owned_by, may_unlock, none_is_enolck,
  insert_row, change_row, upsert_row, refresh_query, basic_lock, basic_refresh, basic_unlock,
  forced, first_error, dss_lock_rollback, lock_loop, lock_ids, try_all,
}

module _ (t : DssType) (id : Bytes) (hostname : Bytes) (owner : ℕ) where
  abbrev pub is_firm : Row → Bool
  is_firm r = not r.is_weak && is_owned_by hostname owner r

  abbrev pub holds_row : Option Row → Bool
  holds_row none = false
  holds_row (some r) = is_firm r

  -- The process holds a lock on the id that is not weak.
  abbrev pub Holds : Rows → Type 0
  Holds rows = holds_row (rows t id) ≡ true

  abbrev pub Keeps : Answer → Type 0
  Keeps (affected n rows) = Holds rows
  Keeps (refused e) = Unit {0}

  pub insert_row-Keeps :
      (u : DssType) (k : Bytes) (r : Row) (rows : Rows) → Holds rows → Keeps (insert_row u k r rows)
  unfolding insert_row
  insert_row-Keeps u k r rows h = elim (Bool-cases (is_lock_type u)) [
    | inr no_lock ↦ rw (no_lock, insert_row) tt
    | inl lock ↦ elim (Option-cases (rows u k)) [
      | inr (o, e) ↦ rw (lock, e, insert_row) tt
      | inl e ↦ rw (lock, e, insert_row) (ground (arith, type_eq_iff t u, str_eq_iff id k, e))
    ]
  ]

  pub change_row-Keeps :
      (u : DssType) (k : Bytes) (test : Row → Bool) (change : Row → Option Row) (rows : Rows)
      → ((r : Row) → is_firm r ≡ true → test r ≡ true → holds_row (change r) ≡ true)
      → Holds rows
      → Keeps (change_row u k test change rows)
  unfolding change_row
  change_row-Keeps u k test change rows ok h = elim (Bool-cases (is_lock_type u)) [
    | inr no_lock ↦ rw (no_lock, change_row) tt
    | inl lock ↦ elim (Option-cases (rows u k)) [
      | inl e ↦ rw (lock, e, change_row) h
      | inr (r, e) ↦ elim (Bool-cases (test r)) [
        | inr barred ↦ rw (lock, e, barred, change_row) h
        | inl passed ↦
            rw (lock, e, passed, change_row)
              (ground (arith, type_eq_iff t u, str_eq_iff id k, e, ok r))
      ]
    ]
  ]

  pub execute-Holds :
      (query : Rows → Answer) (db : Db)
      → Holds db.rows
      → Keeps (query db.rows)
      → Holds (execute query db).1.rows
  execute-Holds query db h k =
      execute-cases (λ r. Holds r.1.rows) query db (λ e fs. h)
        (λ fs. run_keeps fs (query db.rows) k)
    where
      run_keeps :
          (fs : List (Option Errno)) (a : Answer)
          → Keeps a
          → Holds (run a (record db { failures = fs })).1.rows
      run_keeps fs (affected n rows) k = k
      run_keeps fs (refused e) k = h

  pub enolck-rows : (r : (Option Errno × ℕ) × Db) → (none_is_enolck r).1 ≡ r.1
  enolck-rows ((none, n), db) = refl
  enolck-rows ((some e, n), db) = refl

  -- Another process, of the same host or of another.
  abbrev pub IsOther : Bytes → ℕ → Type 0
  IsOther h p = str_eq h hostname && p == owner ≡ false

  -- What the others may not change: a row that is theirs is not firm.
  not_owned :
      (h : Bytes) (p : ℕ) (r : Row) → IsOther h p → is_firm r ≡ true → is_owned_by h p r ≡ false
  not_owned h p r other firm =
      ground (arith, str_eq_iff r.hostname hostname, str_eq_iff r.hostname h, str_eq_iff h hostname)

  refresh_query-Keeps :
      (u : DssType) (k : Bytes) (p : ℕ) (h : Bytes) (flags : Flags) (now : ℕ) (rows : Rows)
      → IsOther h p
      → Holds rows
      → Keeps (refresh_query u k p h flags now rows)
  unfolding refresh_query upsert_row
  refresh_query-Keeps u k p h flags now rows other v = elim (Bool-cases flags.possess) [
    | inl possess ↦ elim (Option-cases (rows u k)) [
      | inl e ↦ rw (possess, e, refresh_query, upsert_row) (insert_row-Keeps u k _ rows v)
      | inr (r, e) ↦
          rw (possess, e, refresh_query, upsert_row)
            (change_row-Keeps u k _ _ rows (λ o firm test. ground arith) v)
    ]
    | inr kept ↦ elim (Bool-cases flags.locate) [
      | inl locate ↦
          rw (kept, locate, refresh_query)
            (change_row-Keeps u k (λ r. true) (λ r. some (record r { last_locate = some now })) rows
              (λ o firm test. firm) v)
      | inr plain ↦ elim (Bool-cases flags.weak) [
        | inl weak ↦
            rw (kept, plain, weak, refresh_query)
              (change_row-Keeps u k _ _ rows
                (λ o firm test. ground (arith, not_owned h p o other firm)) v)
        | inr stamp ↦
            rw (kept, plain, stamp, refresh_query)
              (change_row-Keeps u k _ _ rows
                (λ o firm test. ground (arith, not_owned h p o other firm)) v)
      ]
    ]
  ]

  basic_refresh-Holds :
      (u : DssType) (k : Bytes) (p : ℕ) (h : Bytes) (flags : Flags) (db : Db)
      → IsOther h p
      → Holds db.rows
      → Holds (basic_refresh u k p h flags db).1.rows
  unfolding basic_refresh
  basic_refresh-Holds u k p h flags db other v =
      rw (enolck-rows (execute (refresh_query u k p h flags db.now) db)) (
        execute-Holds (refresh_query u k p h flags db.now) db v
          (refresh_query-Keeps u k p h flags db.now db.rows other v))

  basic_unlock-Holds :
      (u : DssType) (k : Bytes) (p : ℕ) (h : Bytes) (flags : Flags) (db : Db)
      → flags.force ≡ false
      → IsOther h p
      → Holds db.rows
      → Holds (basic_unlock u k p h flags db).1.rows
  unfolding basic_unlock
  basic_unlock-Holds u k p h flags db gentle other v =
      rw (enolck-rows (execute (change_row u k (may_unlock p h flags) (λ r. none)) db)) (
        execute-Holds (change_row u k (may_unlock p h flags) (λ r. none)) db v (
          change_row-Keeps u k _ _ db.rows
            (λ o firm test. absurd (ground (arith, not_owned h p o other firm))) v))

  basic_lock-Holds :
      (u : DssType) (k : Bytes) (p : ℕ) (h : Bytes) (flags : Flags) (db : Db)
      → Holds db.rows
      → Holds (basic_lock u k p h flags db).1.rows
  unfolding basic_lock
  basic_lock-Holds u k p h flags db v =
      execute-Holds (insert_row (lock_type_of u) k (new_row db p h flags)) db v
        (insert_row-Keeps (lock_type_of u) k (new_row db p h flags) db.rows v)

  try_all-Holds :
      (step : Bytes → Db → Option Errno × Db)
      → ((k : Bytes) (db : Db) → Holds db.rows → Holds (step k db).1.rows)
      → (ids : List Bytes) (rc : Option Errno) (db : Db) → Holds db.rows
      → Holds (try_all step ids rc db).1.rows
  unfolding try_all
  try_all-Holds step keep [] rc db v = v
  try_all-Holds step keep (k ∷ ids) rc db v =
      try_all-Holds step keep ids (first_error rc (step k db).0) (step k db).1 (keep k db v)

  -- A forced unlock of ids that are not this one.
  change_row_elsewhere :
      (u : DssType) (k : Bytes) (test : Row → Bool) (change : Row → Option Row) (rows : Rows)
      → (is_lock_type u && (type_eq t u && str_eq id k)) ≡ false
      → Holds rows
      → Keeps (change_row u k test change rows)
  unfolding change_row
  change_row_elsewhere u k test change rows other h = elim (Bool-cases (is_lock_type u)) [
    | inr no_lock ↦ rw (no_lock, change_row) tt
    | inl lock ↦ elim (Option-cases (rows u k)) [
      | inl e ↦ rw (lock, e, change_row) h
      | inr (r, e) ↦ elim (Bool-cases (test r)) [
        | inr barred ↦ rw (lock, e, barred, change_row) h
        | inl passed ↦ rw (lock, e, passed, change_row) (ground arith)
      ]
    ]
  ]

  rollback-Holds :
      (u : DssType) (ids : List Bytes) (db : Db)
      → (is_lock_type u && (type_eq t u && contains ids id)) ≡ false
      → Holds db.rows
      → Holds (dss_lock_rollback u ids db).1.rows
  unfolding dss_lock_rollback basic_unlock
  rollback-Holds u [] db other v = v
  rollback-Holds u (k ∷ ids) db other v =
      rollback-Holds u ids (basic_unlock u k 0 [] forced db).1 (ground arith) (
        rw (enolck-rows (execute (change_row u k (may_unlock 0 [] forced) (λ r. none)) db)) (
          execute-Holds (change_row u k (may_unlock 0 [] forced) (λ r. none)) db v (
            change_row_elsewhere u k (may_unlock 0 [] forced) (λ r. none) db.rows (ground arith)
              v)))

  locked_free :
      (u : DssType) (k : Bytes) (p : ℕ) (h : Bytes) (flags : Flags) (db : Db)
      → Holds db.rows
      → (basic_lock u k p h flags db).0 ≡ none
      → (is_lock_type u && (type_eq t u && str_eq id k)) ≡ false
  locked_free u k p h flags db v q = elim (Bool-cases (is_lock_type u)) [
    | inr no_lock ↦ rw no_lock refl
    | inl lock ↦
        let free : db.rows u k ≡ none =
          Inserts_free u p h flags k db (lock_type_of_lock u lock) q in
        ground (arith, type_eq_iff t u, str_eq_iff id k, free)
  ]

  -- The loop locks no id that is held, so that the rollback does not unlock it.
  abbrev Spared : DssType → Option Errno × List Bytes × Db → Type 0
  Spared u (rc, taken, db) =
      Holds db.rows × ((is_lock_type u && (type_eq t u && contains taken id)) ≡ false)

  lock_loop-Spared :
      (u : DssType) (p : ℕ) (h : Bytes) (flags : Flags) (ids taken : List Bytes) (db : Db)
      → Holds db.rows
      → (is_lock_type u && (type_eq t u && contains taken id)) ≡ false
      → Spared u (lock_loop u p h flags ids taken db)
  unfolding lock_loop
  lock_loop-Spared u p h flags [] taken db v free = (v, free)
  lock_loop-Spared u p h flags (k ∷ ids) taken db v free =
      elim (Option-cases (basic_lock u k p h flags db).0) [
        | inr (e, q) ↦ rw (q, lock_loop) (basic_lock-Holds u k p h flags db v, free)
        | inl q ↦
            rw (q, lock_loop)
              (lock_loop-Spared u p h flags ids (k ∷ taken) (basic_lock u k p h flags db).1
                (basic_lock-Holds u k p h flags db v)
                (ground (arith, locked_free u k p h flags db v q)))
      ]

  lock_ids-Holds :
      (u : DssType) (ids : List Bytes) (p : ℕ) (h : Bytes) (flags : Flags) (db : Db)
      → Holds db.rows
      → Holds (lock_ids u ids p h flags db).1.rows
  unfolding lock_ids
  lock_ids-Holds u ids p h flags db v =
      let (w, free) = lock_loop-Spared u p h flags ids [] db v (ground arith) in
      elim (Option-cases (lock_loop u p h flags ids [] db).0) [
        | inl q ↦ rw (q, lock_ids) w
        | inr (e, q) ↦ rw (q, lock_ids) (rollback-Holds u _ _ free w)
      ]

  -- A call of another process, or time that passes: whatever fails, and on whatever resources.
  pub data Step (db : Db) : Db → Type 0 where
    locks :
        (u : DssType) (ids : List Bytes) (p : ℕ) (h : Bytes) (flags : Flags)
        → Step db (lock_ids u ids p h flags db).1
    refreshes :
        (u : DssType) (ids : List Bytes) (p : ℕ) (h : Bytes) (flags : Flags)
        → IsOther h p
        → Step db (try_all (λ k. basic_refresh u k p h flags) ids none db).1
    unlocks :
        (u : DssType) (ids : List Bytes) (p : ℕ) (h : Bytes) (flags : Flags)
        → IsOther h p
        → flags.force ≡ false
        → Step db (try_all (λ k. basic_unlock u k p h flags) ids none db).1
    waits :
        (now : ℕ) (failures : List (Option Errno))
        → Step db (record db { now = now; failures = failures })

  pub data Reach (db : Db) : Db → Type 0 where
    here : Reach db db
    next : {db' db'' : Db} → Reach db db' → Step db' db'' → Reach db db''

  Step-Holds : {db db' : Db} → Step db db' → Holds db.rows → Holds db'.rows
  Step-Holds {db} (locks u ids p h flags) v = lock_ids-Holds u ids p h flags db v
  Step-Holds {db} (refreshes u ids p h flags other) v =
      try_all-Holds (λ k. basic_refresh u k p h flags)
        (λ k db' w. basic_refresh-Holds u k p h flags db' other w) ids none db v
  Step-Holds {db} (unlocks u ids p h flags other gentle) v =
      try_all-Holds (λ k. basic_unlock u k p h flags)
        (λ k db' w. basic_unlock-Holds u k p h flags db' gentle other w) ids none db v
  Step-Holds (waits now failures) v = v

  -- A process that holds a lock which is not weak still holds it after any sequence of locks,
  -- refreshes and unforced unlocks of other processes, also where their statements fail or their
  -- locks are rolled back.
  pub Reach-Holds : {db db' : Db} → Reach db db' → Holds db.rows → Holds db'.rows
  Reach-Holds here v = v
  Reach-Holds (next r s) v = Step-Holds s (Reach-Holds r v)
