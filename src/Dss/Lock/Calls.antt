-- ===== src/Dss/Lock/Calls.antt =====
-- The calls that dss_lock.c offers: from the resources to the ids of their locks, and the loops
-- over these.
use mathlib.Core.Option
use phobos.Base.{
  ℕ, Bool, true, false, List, [], ◌∷◌, ◌++◌, Option, none, some, ltb, if◌then◌else◌, length,
}
use phobos.Base.Results.{Errno, einval, enolck}
use phobos.StringArray.CString.{Bytes}
use phobos.Types.{PhoId}
use phobos.Dss.Lock.{
  DssType, object, deprec, device, media, media_update, Row, Db, execute, Flags, forced, lock_ids,
  basic_refresh, basic_unlock, try_all, first_error, is_lock_type, affected, refused,
}

-- What an item of the list says: a device or a medium, or an object with its oid and uuid.
pub data Item : Type 0 where
  resource : PhoId → Item
  object_info : Bytes → Bytes → Item

unfoldable pub translate_prefix : DssType → Item → Option Bytes
translate_prefix device (resource r) = some r.name
translate_prefix media (resource r) = some r.name
translate_prefix media_update (resource r) = some r.name
translate_prefix object (object_info oid uuid) = some oid
translate_prefix deprec (object_info oid uuid) = some uuid
translate_prefix _ _ = none

unfoldable pub translate_suffix : DssType → Item → Option Bytes
translate_suffix device (resource r) = some r.library
translate_suffix media (resource r) = some r.library
translate_suffix media_update (resource r) = some r.library
translate_suffix _ _ = none

abbrev pub max_lock_id_len : ℕ
max_lock_id_len = 2048

-- The name and the library, with an underscore between them.
abbrev pub join_id : Bytes → Option Bytes → Bytes
join_id name none = name
join_id name (some library) = name ++ b'_' ∷ library

-- `fill_host_owner`: the host and the process, or the error of `get_hostname`.
pub data Self : Type 0 where
  known : Bytes → ℕ → Self
  unknown : Errno → Self

-- `escape` is that of the PostgreSQL client: the length is checked on the escaped id, and the
-- database stores the id itself.
module _ (escape : Bytes → Bytes) where
  unfoldable pub lock_id : DssType → Item → Option Bytes
  unfolding translate_prefix translate_suffix
  lock_id t item = elim (translate_prefix t item) [
    | none ↦ none
    | some name ↦
        if ltb max_lock_id_len
          (length (join_id (escape name) (Option.map escape (translate_suffix t item))))
        then none
        else some (join_id name (translate_suffix t item))
  ]

  unfoldable pub build_lock_id_list : DssType → List Item → Option (List Bytes)
  unfolding lock_id
  build_lock_id_list t [] = some []
  build_lock_id_list t (item ∷ items) = elim (lock_id t item) [
    | none ↦ none
    | some id ↦ Option.map (λ ids. id ∷ ids) (build_lock_id_list t items)
  ]

  abbrev with_ids :
      Option (List Bytes) → (List Bytes → Db → Option Errno × Db) → Db → Option Errno × Db
  with_ids none f db = (some einval, db)
  with_ids (some ids) f db = f ids db

  -- `_dss_lock`
  unfoldable pub lock_items : DssType → List Item → Bytes → ℕ → Bool → Bool → Db → Option Errno × Db
  unfolding build_lock_id_list lock_ids
  lock_items t items hostname owner is_weak is_locate =
      with_ids (build_lock_id_list t items) (λ ids.
        lock_ids t ids owner hostname
          (record { possess = false; weak = is_weak; locate = is_locate; force = false }))

  unfoldable pub dss_lock : Self → DssType → List Item → Db → Option Errno × Db
  unfolding lock_items
  dss_lock (unknown e) t items db = (some e, db)
  dss_lock (known hostname pid) t items db = lock_items t items hostname pid false false db

  unfoldable pub dss_lock_weak : ℕ → DssType → List Item → Bytes → Bool → Db → Option Errno × Db
  unfolding lock_items
  dss_lock_weak pid t items hostname is_locate = lock_items t items hostname pid true is_locate

  -- `_dss_lock_refresh`
  unfoldable pub refresh_items : DssType → List Item → Bytes → ℕ → Flags → Db → Option Errno × Db
  unfolding build_lock_id_list try_all basic_refresh
  refresh_items t items hostname owner flags =
      with_ids (build_lock_id_list t items)
        (λ ids. try_all (λ id. basic_refresh t id owner hostname flags) ids none)

  abbrev self_refresh : Flags → Self → DssType → List Item → Db → Option Errno × Db
  unfolding refresh_items
  self_refresh flags (unknown e) t items db = (some einval, db)
  self_refresh flags (known hostname pid) t items db = refresh_items t items hostname pid flags db

  unfoldable pub dss_lock_refresh : Bool → Self → DssType → List Item → Db → Option Errno × Db
  unfolding refresh_items
  dss_lock_refresh locate =
      self_refresh (record { possess = false; weak = false; locate = locate; force = false })

  unfoldable pub dss_lock_take_ownership : Self → DssType → List Item → Db → Option Errno × Db
  unfolding refresh_items
  dss_lock_take_ownership =
      self_refresh (record { possess = true; weak = false; locate = false; force = false })

  unfoldable pub dss_lock_set_weak : Self → DssType → List Item → Db → Option Errno × Db
  unfolding refresh_items
  dss_lock_set_weak =
      self_refresh (record { possess = false; weak = true; locate = false; force = false })

  -- `_dss_unlock`; no host and no owner force it.
  unfoldable pub unlock_items : DssType → List Item → Option (Bytes × ℕ) → Db → Option Errno × Db
  unfolding build_lock_id_list try_all basic_unlock
  unlock_items t items none =
      with_ids (build_lock_id_list t items)
        (λ ids. try_all (λ id. basic_unlock t id 0 [] forced) ids none)
  unlock_items t items (some (hostname, owner)) = with_ids (build_lock_id_list t items) (λ ids.
      try_all (λ id. basic_unlock t id owner hostname (record forced { force = false })) ids none)

  unfoldable pub dss_unlock : Bool → Self → DssType → List Item → Db → Option Errno × Db
  unfolding unlock_items
  dss_unlock true self t items db = unlock_items t items none db
  dss_unlock false (unknown e) t items db = (some einval, db)
  dss_unlock false (known hostname pid) t items db = unlock_items t items (some (hostname, pid)) db

-- `basic_status`: the row of the lock.
unfoldable pub basic_status : DssType → Bytes → Db → (Option Errno × Option Row) × Db
unfolding execute
basic_status t id db =
    let ((rc, n), db') =
      execute (λ rows. if is_lock_type t then affected 0 rows else refused einval) db in
    elim rc [
      | some e ↦ ((some e, none), db')
      | none ↦ elim (db.rows t id) [
        | none ↦ ((some enolck, none), db')
        | some r ↦ ((none, some r), db')
      ]
    ]

-- `dss_lock_status`: the first error, and the rows that were found.
unfoldable pub status_loop :
    DssType → List Bytes → Option Errno → Db → (Option Errno × List (Option Row)) × Db
unfolding basic_status
status_loop t [] rc db = ((rc, []), db)
status_loop t (id ∷ ids) rc db =
    let ((rc', r), db') = basic_status t id db in
    let ((rc'', rs), db'') = status_loop t ids (first_error rc rc') db' in ((rc'', r ∷ rs), db'')
