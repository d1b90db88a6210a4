-- ===== src/Dss/Lock/Clean.antt =====
-- The statements of dss_lock.c that delete the locks of hosts and processes that are gone. How many
-- rows they delete is only logged, so the number of touched rows is not counted here.
use phobos.Base.{
  ℕ, Bool, true, false, not, ◌&&◌, ◌||◌, List, [], ◌∷◌, Option, none, some, ◌==◌, if◌then◌else◌,
}
use phobos.Base.Results.{Errno, einval}
use phobos.StringArray.CString.{Bytes, str_eq, contains}
use phobos.Dss.Lock.{
  DssType, device, media, media_update, is_lock_type, type_eq, Row, Rows, Db, affected, refused,
  execute,
}

-- DELETE FROM lock WHERE ...
unfoldable pub delete_rows : (DssType → Bytes → Row → Bool) → Rows → Rows
delete_rows test rows t id = elim (rows t id) [
  | none ↦ none
  | some r ↦ if test t id r then none else some r
]

abbrev rc_of : (Option Errno × ℕ) × Db → Option Errno × Db
rc_of ((rc, n), db) = (rc, db)

-- `host_of` is the host of the device of the family that has this lock id, if there is one.
abbrev pub is_stale_device : (Bytes → Option Bytes) → Bytes → ℕ → DssType → Bytes → Row → Bool
is_stale_device host_of hostname owner t id r = elim (host_of id) [
  | none ↦ false
  | some host ↦
      type_eq t device
      && str_eq r.hostname hostname
      && (not (str_eq r.hostname host) || not (r.owner == owner))
]

unfoldable pub dss_lock_device_clean : (Bytes → Option Bytes) → Bytes → ℕ → Db → Option Errno × Db
unfolding execute delete_rows
dss_lock_device_clean host_of hostname owner db =
    rc_of
      (execute (λ rows. affected 0 (delete_rows (is_stale_device host_of hostname owner) rows)) db)

-- `names` are the names of the media to keep.
abbrev pub is_stale_medium : List Bytes → Bytes → ℕ → DssType → Bytes → Row → Bool
is_stale_medium names hostname owner t id r =
    str_eq r.hostname hostname
    && not (r.owner == owner)
    && ((type_eq t media && not (contains names id)) || type_eq t media_update)

-- An empty list is the list of one empty name.
abbrev pub ids_of : List Bytes → List Bytes
ids_of [] = [] ∷ []
ids_of (n ∷ ns) = n ∷ ns

unfoldable pub dss_lock_media_clean : List Bytes → Bytes → ℕ → Db → Option Errno × Db
unfolding execute delete_rows
dss_lock_media_clean names hostname owner db = rc_of (
    execute (λ rows. affected 0 (delete_rows (is_stale_medium (ids_of names) hostname owner) rows))
      db)

-- What a selective clean asks for; `family` has the lock ids of the resources of a family.
pub record Selection : Type 0 where
  pub hostname : Option Bytes
  pub lock_type : Option DssType
  pub family : Option (Bytes → Bool)
  pub ids : List Bytes

abbrev pub matches {ℓ} : {A : Type ℓ} → (A → Bool) → Option A → Bool
matches test none = true
matches test (some a) = test a

-- A family counts only with a type.
abbrev pub is_selected : Selection → DssType → Bytes → Row → Bool
is_selected s t id r =
    matches (λ ids. contains ids id) (elim s.ids [ [] ↦ none | i ∷ is ↦ some (i ∷ is) ])
    && elim s.lock_type [ none ↦ true | some u ↦ type_eq t u && matches (λ f. f id) s.family ]
    && matches (λ h. str_eq r.hostname h) s.hostname

abbrev is_empty {ℓ} : {A : Type ℓ} → List A → Bool
is_empty [] = true
is_empty (x ∷ xs) = false

abbrev is_none {ℓ} : {A : Type ℓ} → Option A → Bool
is_none none = true
is_none (some a) = false

-- Without any criterion the statement ends after WHERE, which is a syntax error.
unfoldable pub dss_lock_clean_select : Selection → Db → Option Errno × Db
unfolding execute delete_rows
dss_lock_clean_select s db = rc_of (
    execute
      (λ rows.
        if is_empty s.ids && is_none s.lock_type && is_none s.hostname
        then refused einval
        else if not (matches is_lock_type s.lock_type)
        then refused einval
        else affected 0 (delete_rows (is_selected s) rows))
      db)

unfoldable pub dss_lock_clean_all : Db → Option Errno × Db
unfolding execute
dss_lock_clean_all db = rc_of (execute (λ rows. affected 0 (λ t id. none)) db)
