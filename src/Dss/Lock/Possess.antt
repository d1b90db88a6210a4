-- ===== src/Dss/Lock/Possess.antt =====
-- `dss_lock_take_ownership`: a process makes weak locks of its host, or free ones, its own.
use phobos.Base.{
  ℕ, ◌≡◌, ◌≢◌, refl, sym, subst, inl, inr, true, false, ◌&&◌, List, [], ◌∷◌, Option, none, some,
  arith, Bool-cases, Option-cases,
}
use phobos.Base.Results.{Errno}
use phobos.StringArray.CString.{Bytes, str_eq, str_eq_iff, contains}
use phobos.Dss.Lock.{
  DssType, is_lock_type, type_eq_iff, Rows, Db, execute, execute-cases, run, Flags, Answer,
  affected, refused, none_is_enolck, change_row, upsert_row, insert_row, refresh_query,
  basic_refresh, first_error, try_all,
}
use phobos.Dss.Lock.Owners.{Holds, insert_row-Keeps, change_row-Keeps, execute-Holds, enolck-rows}

module _ (t : DssType) (owner : ℕ) (hostname : Bytes) where
  abbrev pub possess : Flags
  possess = record { possess = true; weak = false; locate = false; force = false }

  abbrev query : Bytes → Db → Rows → Answer
  query id db = refresh_query t id owner hostname possess db.now

  -- A statement that ran and touched a row leaves a firm lock of the process.
  abbrev Owned : Bytes → Answer → Type 0
  Owned id (affected n rows) = n ≢ 0 → Holds t id hostname owner rows
  Owned id (refused e) = Unit {0}

  query-Owned : (id : Bytes) (db : Db) → Owned id (query id db db.rows)
  unfolding refresh_query upsert_row insert_row change_row
  query-Owned id db = elim (Option-cases (db.rows t id)) [
    | inl e ↦ elim (Bool-cases (is_lock_type t)) [
      | inl lock ↦
          rw (refresh_query, upsert_row, e, insert_row, lock, e)
            (λ n. ground (arith, type_eq_iff t t, str_eq_iff id id, str_eq_iff hostname hostname))
      | inr no_lock ↦ rw (refresh_query, upsert_row, e, insert_row, no_lock) tt
    ]
    | inr (r, e) ↦ elim (Bool-cases (is_lock_type t)) [
      | inl lock ↦ elim (Bool-cases (r.is_weak && str_eq r.hostname hostname)) [
        | inl may ↦
            rw (refresh_query, upsert_row, e, change_row, lock, e, may)
              (λ n. ground (arith, may, type_eq_iff t t, str_eq_iff id id))
        | inr barred ↦
            rw (refresh_query, upsert_row, e, change_row, lock, e, barred) (λ n. absurd (n refl))
      ]
      | inr no_lock ↦ rw (refresh_query, upsert_row, e, change_row, no_lock) tt
    ]
  ]

  abbrev take : Bytes → Db → Option Errno × Db
  take id = basic_refresh t id owner hostname possess

  take_owned :
      (id : Bytes) (db : Db) → (take id db).0 ≡ none → Holds t id hostname owner (take id db).1.rows
  unfolding basic_refresh
  take_owned id db =
      execute-cases
        (λ r. (none_is_enolck r).0 ≡ none → Holds t id hostname owner (none_is_enolck r).1.rows)
        (query id db) db (λ e fs q. absurd (ground arith))
        (λ fs. ran fs (query id db db.rows) (query-Owned id db))
    where
      ran :
          (fs : List (Option Errno)) (a : Answer)
          → Owned id a
          → (none_is_enolck (run a (record db { failures = fs }))).0 ≡ none
          → Holds t id hostname owner (none_is_enolck (run a (record db { failures = fs }))).1.rows
      ran fs (refused e) o q = absurd (ground arith)
      ran fs (affected n rows) o q = o (ground arith)

  take-Holds :
      (id k : Bytes) (db : Db)
      → Holds t id hostname owner db.rows
      → Holds t id hostname owner (take k db).1.rows
  unfolding basic_refresh refresh_query upsert_row
  take-Holds id k db v = rw (enolck-rows t id hostname owner (execute (query k db) db)) (
      execute-Holds t id hostname owner (query k db) db v (elim (Option-cases (db.rows t k)) [
        | inl e ↦
            rw (e, refresh_query, upsert_row) (insert_row-Keeps t id hostname owner t k _ db.rows v)
        | inr (r, e) ↦
            rw (e, refresh_query, upsert_row)
              (change_row-Keeps t id hostname owner t k _ _ db.rows (λ o firm test. ground arith) v)
      ]))

  -- The ids of the list are firm locks of the process.
  abbrev pub AllHeld : List Bytes → Rows → Type 0
  AllHeld ids rows = (k : Bytes) → contains ids k ≡ true → Holds t k hostname owner rows

  take-all-Holds :
      (ids : List Bytes) (rc : Option Errno) (db : Db) (k : Bytes)
      → Holds t k hostname owner db.rows
      → Holds t k hostname owner (try_all take ids rc db).1.rows
  unfolding try_all
  take-all-Holds [] rc db k v = v
  take-all-Holds (id ∷ ids) rc db k v =
      take-all-Holds ids (first_error rc (take id db).0) (take id db).1 k (take-Holds k id db v)

  take-all-first :
      (ids : List Bytes) (rc : Option Errno) (db : Db)
      → (try_all take ids rc db).0 ≡ none
      → rc ≡ none
  unfolding try_all
  take-all-first [] rc db q = q
  take-all-first (id ∷ ids) rc db q =
      first rc (take id db).0 (take-all-first ids (first_error rc (take id db).0) (take id db).1 q)
    where
      first : (a b : Option Errno) → first_error a b ≡ none → a ≡ none
      first none b q = refl
      first (some e) b q = q

  -- When taking possession of several ids succeeds, the process holds each of them with a lock that
  -- is not weak.
  pub try_all-AllHeld :
      (ids : List Bytes) (rc : Option Errno) (db : Db)
      → (try_all (λ id. basic_refresh t id owner hostname possess) ids rc db).0 ≡ none
      → AllHeld ids (try_all (λ id. basic_refresh t id owner hostname possess) ids rc db).1.rows
  unfolding try_all
  try_all-AllHeld [] rc db q k c = absurd (ground arith)
  try_all-AllHeld (id ∷ ids) rc db q k c =
      let e : first_error rc (take id db).0 ≡ none =
        take-all-first ids (first_error rc (take id db).0) (take id db).1 q in
      elim (Bool-cases (str_eq k id)) [
        | inr other ↦
            try_all-AllHeld ids (first_error rc (take id db).0) (take id db).1 q k (ground arith)
        | inl same ↦ take-all-Holds ids (first_error rc (take id db).0) (take id db).1 k (
            subst (λ j. Holds t j hostname owner (take id db).1.rows)
              (sym ((str_eq_iff k id).0 same)) (take_owned id db (ground arith)))
      ]
