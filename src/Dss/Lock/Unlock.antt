-- ===== src/Dss/Lock/Unlock.antt =====
-- Unlocking and taking possession: what becomes of the rows.
use phobos.Base.{
  ℕ, ◌≡◌, refl, inl, inr, Bool, true, false, ◌&&◌, List, [], ◌∷◌, Option, none, some, arith,
  if◌then◌else◌, Bool-cases, Option-cases,
}
use phobos.Base.Results.{Errno, enolck}
use phobos.StringArray.CString.{Bytes, str_eq, str_eq_iff, contains}
use phobos.Dss.Lock.{
  DssType, is_lock_type, type_eq, type_eq_iff, Row, Db, execute_calm, Flags, may_unlock, change_row,
  basic_unlock, first_error, try_all, lock_ids, lock_loop, new_row,
}
use phobos.Dss.Lock.AllOrNothing.{AllOrNothing, Added, lock_ids-AllOrNothing}

module _ (t : DssType) (owner : ℕ) (hostname : Bytes) (flags : Flags) where
  abbrev unlock_one : Bytes → Db → Option Errno × Db
  unlock_one id = basic_unlock t id owner hostname flags

  -- A row that the caller may unlock.
  abbrev pub goes : Option Row → Bool
  goes none = false
  goes (some r) = may_unlock owner hostname flags r

  unlock_one_lem :
      (id : Bytes) (db : Db)
      → is_lock_type t ≡ true
      → db.failures ≡ []
      → ((u : DssType) (k : Bytes)
          → (unlock_one id db).1.rows u k
            ≡ (if (type_eq u t && str_eq k id) && goes (db.rows u k) then none else db.rows u k))
        × ((unlock_one id db).1.failures ≡ [])
        × ((unlock_one id db).0 ≡ (if goes (db.rows t id) then none else some enolck))
  unfolding basic_unlock change_row
  unlock_one_lem id db lock calm =
      rw
        (
          execute_calm (change_row t id (may_unlock owner hostname flags) (λ r. none)) db calm,
          basic_unlock,
        )
        (elim (Option-cases (db.rows t id)) [
          | inl e ↦
              rw (lock, e, change_row)
                ((λ u k. ground (arith, e, type_eq_iff u t, str_eq_iff k id)), refl, refl)
          | inr (r, e) ↦ elim (Bool-cases (may_unlock owner hostname flags r)) [
            | inl may ↦
                rw (lock, e, may, change_row)
                  ((λ u k. ground (arith, e, may, type_eq_iff u t, str_eq_iff k id)), refl, refl)
            | inr barred ↦
                rw (lock, e, barred, change_row)
                  ((λ u k. ground (arith, e, barred, type_eq_iff u t, str_eq_iff k id)), refl, refl)
          ]
        ])

  -- An unlock of several ids deletes just the rows of these ids that the caller may unlock: its own
  -- and the weak ones, or all if it is forced.
  try_all-basic_unlock :
      (ids : List Bytes) (rc : Option Errno) (db : Db)
      → is_lock_type t ≡ true
      → db.failures ≡ []
      → (u : DssType) (k : Bytes)
      → (try_all (λ id. basic_unlock t id owner hostname flags) ids rc db).1.rows u k
        ≡ (if (type_eq u t && contains ids k) && goes (db.rows u k) then none else db.rows u k)
  unfolding try_all
  try_all-basic_unlock [] rc db lock calm u k = ground arith
  try_all-basic_unlock (id ∷ ids) rc db lock calm u k =
      let (rows, calm', code) = unlock_one_lem id db lock calm in
      ground (
        arith,
        try_all-basic_unlock ids (first_error rc (unlock_one id db).0) (unlock_one id db).1 lock
            calm' u k,
        rows u k,
      )

  -- What a lock of several ids has locked, an unlock by the same process gives back, so that the
  -- table is as before. No statement fails.
  pub lock_ids-unlock :
      (ids : List Bytes) (db : Db) (locked : Flags)
      → is_lock_type t ≡ true
      → (lock_loop t owner hostname locked ids [] db).2.failures ≡ []
      → (lock_ids t ids owner hostname locked db).0 ≡ none
      → (lock_ids t ids owner hostname locked db).1.failures ≡ []
      → (u : DssType) (k : Bytes)
      → (try_all
            (λ id. basic_unlock t id owner hostname flags)
            ids
            none
            (lock_ids t ids owner hostname locked db).1).1.rows
          u k
        ≡ db.rows u k
  lock_ids-unlock ids db locked lock calm done calm' u k = ground (
    arith,
    try_all-basic_unlock ids none (lock_ids t ids owner hostname locked db).1 lock calm' u k,
    str_eq_iff hostname hostname,
    type_eq_iff u t,
    (added (lock_ids t ids owner hostname locked db) done
          (lock_ids-AllOrNothing t owner hostname locked ids db lock calm)).added
        u k,
    (added (lock_ids t ids owner hostname locked db) done
          (lock_ids-AllOrNothing t owner hostname locked ids db lock calm)).were_free
        k,
  )
    where
      added :
          (r : Option Errno × Db)
          → r.0 ≡ none
          → AllOrNothing t owner hostname locked ids db r
          → Added t owner hostname locked (new_row db owner hostname locked) db.rows ids r.1.rows
      added (none, db') e a = a
      added (some e, db') q a = absurd (ground arith)
