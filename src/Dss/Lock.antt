-- ===== src/Dss/Lock.antt =====
-- The locks of the DSS: src/core/dss/dss_lock.c over the table `lock` of the database, with its SQL
-- statements as functions on the rows. A return code is none for 0. Which statements fail although
-- they could run (a lost connection) is an explicit list, one entry for each statement to come.
use phobos.Base.{
  ℕ, ◌+◌, ◌≡◌, refl, ◌↔◌, Bool, true, false, not, ◌&&◌, ◌||◌, List, [], ◌∷◌, ◌++◌, Option, none,
  some, arith, ◌==◌, ltb, if◌then◌else◌, length,
}
use phobos.Base.Results.{Errno, einval, eexist, enolck}
use phobos.StringArray.CString.{Bytes, str_eq}
use phobos.Types.{PhoId}
pub mod Calls
pub mod Clean
mod AllOrNothing
mod Owners
mod Unlock
mod Possess
mod Listed
pub mod Refine
mod Touched
mod Locate
mod Examples

-- `enum dss_type`; the database has lock types for five of them.
pub data DssType : Type 0 where
  object deprec layout extent device media media_update logs full_layout copy media_stats : DssType

abbrev pub is_lock_type : DssType → Bool
is_lock_type object = true
is_lock_type extent = true
is_lock_type device = true
is_lock_type media = true
is_lock_type media_update = true
is_lock_type _ = false

abbrev pub type_eq : DssType → DssType → Bool
type_eq object object = true
type_eq deprec deprec = true
type_eq layout layout = true
type_eq extent extent = true
type_eq device device = true
type_eq media media = true
type_eq media_update media_update = true
type_eq logs logs = true
type_eq full_layout full_layout = true
type_eq copy copy = true
type_eq media_stats media_stats = true
type_eq _ _ = false

pub type_eq_iff : (a b : DssType) → (type_eq a b ≡ true) ↔ (a ≡ b)
type_eq_iff a b = ground arith

-- A row of the table, which has the lock's type and id as its key.
pub record Row : Type 0 where
  pub hostname : Bytes
  pub owner : ℕ
  pub timestamp : ℕ
  pub is_weak : Bool
  pub last_locate : Option ℕ

abbrev pub Rows : Type 0
Rows = DssType → Bytes → Option Row

abbrev pub put : Rows → DssType → Bytes → Option Row → Rows
put rows t id r u k = if type_eq u t && str_eq k id then r else rows u k

-- `now` is the time of the statement.
pub record Db : Type 0 where
  pub rows : Rows
  pub now : ℕ
  pub failures : List (Option Errno)

-- What a statement does: it touches a number of rows, or is refused.
pub data Answer : Type 0 where
  affected : ℕ → Rows → Answer
  refused : Errno → Answer

-- `execute` and `get_nb_affected_rows`.
abbrev pub run : Answer → Db → (Option Errno × ℕ) × Db
run (affected n rows) db = ((none, n), record db { rows = rows })
run (refused e) db = ((some e, 0), db)

abbrev execute_with : (Rows → Answer) → Db → List (Option Errno) → (Option Errno × ℕ) × Db
execute_with query db [] = run (query db.rows) (record db { failures = [] })
execute_with query db (none ∷ fs) = run (query db.rows) (record db { failures = fs })
execute_with query db (some e ∷ fs) = ((some e, 0), record db { failures = fs })

unfoldable pub execute : (Rows → Answer) → Db → (Option Errno × ℕ) × Db
execute query db = execute_with query db db.failures

-- A statement fails with no effect, or it runs.
pub execute-cases {ℓ} :
    (P : (Option Errno × ℕ) × Db → Type ℓ) (query : Rows → Answer) (db : Db)
    → ((e : Errno) (fs : List (Option Errno)) → P ((some e, 0), record db { failures = fs }))
    → ((fs : List (Option Errno)) → P (run (query db.rows) (record db { failures = fs })))
    → P (execute query db)
unfolding execute
execute-cases P query db bad good = by_failures db.failures
  where
    by_failures : (fs : List (Option Errno)) → P (execute_with query db fs)
    by_failures [] = good []
    by_failures (none ∷ fs) = good fs
    by_failures (some e ∷ fs) = bad e fs

pub execute_calm :
    (query : Rows → Answer) (db : Db)
    → db.failures ≡ []
    → execute query db ≡ run (query db.rows) (record db { failures = [] })
unfolding execute
execute_calm query db h = rw h refl

pub record Flags : Type 0 where
  pub possess : Bool
  pub weak : Bool
  pub locate : Bool
  pub force : Bool

-- INSERT INTO lock ...; a type that is no lock type is a data exception.
unfoldable pub insert_row : DssType → Bytes → Row → Rows → Answer
insert_row t id r rows =
    if is_lock_type t
    then elim (rows t id) [ none ↦ affected 1 (put rows t id (some r)) | some o ↦ refused eexist ]
    else refused einval

-- UPDATE lock SET ... or DELETE FROM lock, WHERE type and id are these and the row passes the test.
unfoldable pub change_row : DssType → Bytes → (Row → Bool) → (Row → Option Row) → Rows → Answer
change_row t id test change rows =
    if is_lock_type t
    then elim (rows t id) [
      | none ↦ affected 0 rows
      | some r ↦ if test r then affected 1 (put rows t id (change r)) else affected 0 rows
    ]
    else refused einval

-- INSERT INTO lock ... ON CONFLICT (type, id) DO UPDATE SET ... WHERE ...
unfoldable pub upsert_row :
    DssType → Bytes → Row → (Row → Bool) → (Row → Option Row) → Rows → Answer
unfolding insert_row change_row
upsert_row t id new test change rows = elim (rows t id) [
  | none ↦ insert_row t id new rows
  | some r ↦ change_row t id test change rows
]

-- owner = ... AND hostname = ...
abbrev pub is_owned_by : Bytes → ℕ → Row → Bool
is_owned_by hostname owner r = r.owner == owner && str_eq r.hostname hostname

-- -ENOLCK when the statement ran and touched no row.
abbrev pub none_is_enolck : (Option Errno × ℕ) × Db → Option Errno × Db
none_is_enolck ((some e, n), db) = (some e, db)
none_is_enolck ((none, n), db) = (if n == 0 then some enolck else none, db)

abbrev pub lock_type_of : DssType → DssType
lock_type_of deprec = object
lock_type_of t = t

-- The row that a lock inserts.
abbrev pub new_row : Db → ℕ → Bytes → Flags → Row
new_row db owner hostname flags = record {
  hostname = hostname;
  owner = owner;
  timestamp = db.now;
  is_weak = flags.weak;
  last_locate = if flags.locate then some db.now else none;
}

unfoldable pub basic_lock : DssType → Bytes → ℕ → Bytes → Flags → Db → Option Errno × Db
unfolding execute insert_row
basic_lock t id owner hostname flags db =
    let ((rc, n), db') =
      execute (insert_row (lock_type_of t) id (new_row db owner hostname flags)) db in
    (rc, db')

-- The statement of a refresh.
unfoldable pub refresh_query : DssType → Bytes → ℕ → Bytes → Flags → ℕ → Rows → Answer
unfolding change_row upsert_row
refresh_query t id owner hostname flags now =
    if flags.possess
    then upsert_row t id
        (record {
          hostname = hostname;
          owner = owner;
          timestamp = now;
          is_weak = false;
          last_locate = none;
        })
        (λ r. r.is_weak && str_eq r.hostname hostname)
        (λ r. some (record r { timestamp = now; owner = owner; is_weak = false }))
    else if flags.locate
    then change_row t id (λ r. true) (λ r. some (record r { last_locate = some now }))
    else if flags.weak
    then change_row t id (is_owned_by hostname owner) (λ r. some (record r { is_weak = true }))
    else change_row t id (is_owned_by hostname owner) (λ r. some (record r { timestamp = now }))

unfoldable pub basic_refresh : DssType → Bytes → ℕ → Bytes → Flags → Db → Option Errno × Db
unfolding execute refresh_query
basic_refresh t id owner hostname flags db =
    none_is_enolck (execute (refresh_query t id owner hostname flags db.now) db)

-- The rows that an unlock may delete.
abbrev pub may_unlock : ℕ → Bytes → Flags → Row → Bool
may_unlock owner hostname flags r =
    if flags.force then true else is_owned_by hostname owner r || r.is_weak

unfoldable pub basic_unlock : DssType → Bytes → ℕ → Bytes → Flags → Db → Option Errno × Db
unfolding execute change_row
basic_unlock t id owner hostname flags db =
    none_is_enolck (execute (change_row t id (may_unlock owner hostname flags) (λ r. none)) db)

abbrev first_error : Option Errno → Option Errno → Option Errno
first_error (some e) rc = some e
first_error none rc = rc

abbrev forced : Flags
forced = record { possess = false; weak = false; locate = false; force = true }

-- `dss_lock_rollback` over the ids to unlock, the last locked first.
unfoldable pub dss_lock_rollback : DssType → List Bytes → Db → Option Errno × Db
dss_lock_rollback t [] db = (none, db)
dss_lock_rollback t (id ∷ ids) db =
    let (rc, db') = basic_unlock t id 0 [] forced db in
    let (rc', db'') = dss_lock_rollback t ids db' in (first_error rc rc', db'')

-- The loop of `_dss_lock`: the code, the ids that it locked, the last one first, and the database.
unfoldable pub lock_loop :
    DssType → ℕ → Bytes → Flags → List Bytes → List Bytes → Db → Option Errno × List Bytes × Db
lock_loop t owner hostname flags [] taken db = (none, taken, db)
lock_loop t owner hostname flags (id ∷ ids) taken db =
    let (rc, db') = basic_lock t id owner hostname flags db in
    elim rc [
      | some e ↦ (some e, taken, db')
      | none ↦ lock_loop t owner hostname flags ids (id ∷ taken) db'
    ]

-- `_dss_lock` on the list of ids.
unfoldable pub lock_ids : DssType → List Bytes → ℕ → Bytes → Flags → Db → Option Errno × Db
lock_ids t ids owner hostname flags db =
    let (rc, taken, db') = lock_loop t owner hostname flags ids [] db in
    elim rc [ none ↦ (none, db') | some e ↦ (some e, (dss_lock_rollback t taken db').1) ]

-- The loops of `_dss_lock_refresh` and `_dss_unlock`: every id is tried, the first error kept.
unfoldable pub try_all :
    (Bytes → Db → Option Errno × Db) → List Bytes → Option Errno → Db → Option Errno × Db
try_all step [] rc db = (rc, db)
try_all step (id ∷ ids) rc db =
    let (rc', db') = step id db in try_all step ids (first_error rc rc') db'
