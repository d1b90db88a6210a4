-- ===== src/Dss/Lock/Listed.antt =====
-- The clean of media of src/core/dss/dss_lock.c after a lock of the media that its list has.
use phobos.Base.{
  ℕ, ◌≡◌, refl, sym, ap, ◌∙◌, inl, inr, Bool, true, false, not, ◌&&◌, ◌||◌, List, [], ◌∷◌, ◌++◌,
  Option, none, some, arith, ◌==◌, if◌then◌else◌, Option-cases, All,
}
use phobos.Base.Results.{Errno}
use phobos.StringArray.CString.{Bytes, str_eq, str_eq_iff, contains}
use phobos.Types.{PhoId}
use phobos.Dss.Lock.{
  DssType, media, Row, Rows, Db, Answer, affected, refused, run, execute_calm, Flags, new_row,
  lock_type_of, insert_row, basic_lock, lock_loop, lock_ids,
}
use phobos.Dss.Lock.Calls.{
  Item, resource, known, join_id, lock_id, build_lock_id_list, lock_items, dss_lock,
}
use phobos.Dss.Lock.AllOrNothing.{AllOrNothing, Added, lock_ids-AllOrNothing}
use phobos.Dss.Lock.Clean.{ids_of, is_stale_medium, delete_rows, dss_lock_media_clean}

abbrev pub items_of : List PhoId → List Item
items_of [] = []
items_of (m ∷ ms) = resource m ∷ items_of ms

abbrev pub names_of : List PhoId → List Bytes
names_of [] = []
names_of (m ∷ ms) = m.name ∷ names_of ms

-- The ids of the locks of the media.
abbrev pub media_ids : List PhoId → List Bytes
media_ids [] = []
media_ids (m ∷ ms) = join_id m.name (some m.library) ∷ media_ids ms

abbrev pub has_underscore : Bytes → Bool
has_underscore [] = false
has_underscore (c ∷ s) = (c == b'_') || has_underscore s

abbrev pub IsPlain : PhoId → Type 0
IsPlain m = has_underscore m.name ≡ false

join_id_underscore : (name library : Bytes) → has_underscore (name ++ b'_' ∷ library) ≡ true
join_id_underscore [] library = ground arith
join_id_underscore (c ∷ name) library = ground (arith, join_id_underscore name library)

contains-names_of :
    (ms : List PhoId) (k : Bytes)
    → All IsPlain ms
    → has_underscore k ≡ true
    → contains (names_of ms) k ≡ false
contains-names_of [] k a h = refl
contains-names_of (m ∷ ms) k (plain, a) h =
    ground (arith, contains-names_of ms k a h, str_eq_iff k m.name, plain, h)

contains-media_ids :
    (ms : List PhoId) (k : Bytes) → contains (media_ids ms) k ≡ true → has_underscore k ≡ true
contains-media_ids [] k h = absurd (ground arith)
contains-media_ids (m ∷ ms) k h = ground (
  arith,
  contains-media_ids ms k,
  join_id_underscore m.name m.library,
  str_eq_iff k (join_id m.name (some m.library)),
)

delete_listed :
    (names : List Bytes) (hostname : Bytes) (owner : ℕ) (rows : Rows) (k : Bytes) (r : Row)
    → rows media k ≡ some r
    → contains names k ≡ false
    → delete_rows (is_stale_medium names hostname owner) rows media k
      ≡ (if str_eq r.hostname hostname && not (r.owner == owner) then none else some r)
unfolding delete_rows
delete_listed names hostname owner rows k r e h = ground (arith, e, h)

delete_kept :
    (names : List Bytes) (hostname : Bytes) (owner : ℕ) (rows : Rows) (k : Bytes)
    → contains names k ≡ true
    → delete_rows (is_stale_medium names hostname owner) rows media k ≡ rows media k
unfolding delete_rows
delete_kept names hostname owner rows k h = elim (Option-cases (rows media k)) [
  | inl e ↦ ground (arith, e)
  | inr (r, e) ↦ ground (arith, e, h)
]

abbrev pub plain_flags : Flags
plain_flags = record { possess = false; weak = false; locate = false; force = false }

run_failures : (a : Answer) (db : Db) → (run a db).1.failures ≡ db.failures
run_failures (affected n rows) db = refl
run_failures (refused e) db = refl

module _ (owner : ℕ) (hostname : Bytes) (flags : Flags) where
  basic_lock-calm :
      (t : DssType) (id : Bytes) (db : Db)
      → db.failures ≡ []
      → (basic_lock t id owner hostname flags db).1.failures ≡ []
  unfolding basic_lock
  basic_lock-calm t id db calm =
      rw
        (
          execute_calm (insert_row (lock_type_of t) id (new_row db owner hostname flags)) db calm,
          basic_lock,
        )
        (run_failures (insert_row (lock_type_of t) id (new_row db owner hostname flags) db.rows)
          (record db { failures = [] }))

  lock_loop-calm :
      (t : DssType) (ids taken : List Bytes) (db : Db)
      → db.failures ≡ []
      → (lock_loop t owner hostname flags ids taken db).2.failures ≡ []
  unfolding lock_loop
  lock_loop-calm t [] taken db calm = calm
  lock_loop-calm t (id ∷ ids) taken db calm =
      let calm' = basic_lock-calm t id db calm in
      elim (Option-cases (basic_lock t id owner hostname flags db).0) [
        | inl e ↦
            rw (e, lock_loop)
              (lock_loop-calm t ids (id ∷ taken) (basic_lock t id owner hostname flags db).1 calm')
        | inr (c, e) ↦ rw (e, lock_loop) calm'
      ]

  lock_ids-calm :
      (t : DssType) (ids : List Bytes) (db : Db)
      → db.failures ≡ []
      → (lock_ids t ids owner hostname flags db).0 ≡ none
      → (lock_ids t ids owner hostname flags db).1.failures ≡ []
  unfolding lock_ids
  lock_ids-calm t ids db calm done =
      elim (Option-cases (lock_loop t owner hostname flags ids [] db).0) [
        | inl e ↦ rw (e, lock_ids) (lock_loop-calm t ids [] db calm)
        | inr (c, e) ↦ absurd (ground (arith, e, done))
      ]

  lock_ids-Added :
      (t : DssType) (ids : List Bytes) (db : Db)
      → AllOrNothing t owner hostname flags ids db (lock_ids t ids owner hostname flags db)
      → (lock_ids t ids owner hostname flags db).0 ≡ none
      → Added t owner hostname flags
          (new_row db owner hostname flags)
          db.rows
          ids
          (lock_ids t ids owner hostname flags db).1.rows
  lock_ids-Added t ids db a done = read (lock_ids t ids owner hostname flags db) a done
    where
      read :
          (r : Option Errno × Db)
          → AllOrNothing t owner hostname flags ids db r
          → r.0 ≡ none
          → Added t owner hostname flags (new_row db owner hostname flags) db.rows ids r.1.rows
      read (none, db') a q = a
      read (some e, db') a q = absurd (ground arith)

module _ (escape : Bytes → Bytes) where
  build_media_ids :
      (ms : List PhoId) (ids : List Bytes)
      → build_lock_id_list escape media (items_of ms) ≡ some ids
      → ids ≡ media_ids ms
  unfolding build_lock_id_list lock_id
  build_media_ids [] ids h = ground arith
  build_media_ids (m ∷ ms) ids h = elim (Option-cases (lock_id escape media (resource m))) [
    | inl e ↦ absurd (ground (arith, e, h))
    | inr (id, e) ↦ elim (Option-cases (build_lock_id_list escape media (items_of ms))) [
      | inl f ↦ absurd (ground (arith, e, f, h))
      | inr (is, f) ↦
          let rest = build_media_ids ms is f in
          let one : id ≡ join_id m.name (some m.library) = ground (arith, e) in
          ground (arith, e, f, h, rest, one)
    ]
  ]

  -- A lock of media that succeeds is one of their ids.
  dss_lock-ids :
      (host : Bytes) (pid : ℕ) (ms : List PhoId) (db : Db)
      → (dss_lock escape (known host pid) media (items_of ms) db).0 ≡ none
      → dss_lock escape (known host pid) media (items_of ms) db
        ≡ lock_ids media (media_ids ms) pid host plain_flags db
  unfolding dss_lock lock_items
  dss_lock-ids host pid ms db done =
      elim (Option-cases (build_lock_id_list escape media (items_of ms))) [
        | inl e ↦ absurd (ground (arith, e, done))
        | inr (ids, e) ↦
            let same = build_media_ids ms ids e in
            rw (e, dss_lock, lock_items) (ap (λ x. lock_ids media x pid host plain_flags db) same)
      ]

  clean_rows :
      (names : List Bytes) (hostname : Bytes) (owner : ℕ) (db : Db)
      → db.failures ≡ []
      → (dss_lock_media_clean names hostname owner db).1.rows
        ≡ delete_rows (is_stale_medium (ids_of names) hostname owner) db.rows
  unfolding dss_lock_media_clean
  clean_rows names hostname owner db calm =
      rw
        (
          execute_calm
              (λ rows.
                affected 0 (delete_rows (is_stale_medium (ids_of names) hostname owner) rows))
              db calm,
          dss_lock_media_clean,
        )
        refl

  abbrev with_lock : Bytes → ℕ → List PhoId → Db → Option Errno × Db
  with_lock host pid ms = dss_lock escape (known host pid) media (items_of ms)

  -- The locks of media after a clean by the process `owner` of `hostname`.
  abbrev cleaned : Bytes → ℕ → List PhoId → Db → Bytes → Option Row
  cleaned hostname owner ms db k =
      (dss_lock_media_clean (names_of ms) hostname owner db).1.rows media k

  -- A process has locked media, and a clean, by any process, has these media as its list to keep.
  -- The list saves none of these locks: the clean removes them all if another process of the same
  -- host makes it, and none of them otherwise. What the list keeps is a lock whose id is the bare
  -- name of a medium. No statement fails, and the names have no underscore, as the ids have.
  pub dss_lock-dss_lock_media_clean :
      (host : Bytes) (pid : ℕ) (ms : List PhoId) (db : Db) (hostname : Bytes) (owner : ℕ)
      → db.failures ≡ []
      → All IsPlain ms
      → (with_lock host pid ms db).0 ≡ none
      → (k : Bytes)
      → (contains (media_ids ms) k ≡ true
          → cleaned hostname owner ms (with_lock host pid ms db).1 k ≡ (
              if str_eq host hostname && not (pid == owner)
              then none
              else some (new_row db pid host plain_flags)))
        × (contains (names_of ms) k ≡ true
            → cleaned hostname owner ms (with_lock host pid ms db).1 k
              ≡ (with_lock host pid ms db).1.rows media k)
  dss_lock-dss_lock_media_clean host pid [] db hostname owner calm plain done k =
      ((λ h. absurd (ground arith)), λ h. absurd (ground arith))
  dss_lock-dss_lock_media_clean host pid (m ∷ ms) db hostname owner calm plain done k =
      let ids = media_ids (m ∷ ms) in
      let e = dss_lock-ids host pid (m ∷ ms) db done in
      let done' : (lock_ids media ids pid host plain_flags db).0 ≡ none =
        ap (λ x. x.0) (sym e) ∙ done in
      let calm' = lock_ids-calm pid host plain_flags media ids db calm done' in
      let a =
        lock_ids-Added pid host plain_flags media ids db
          (lock_ids-AllOrNothing media pid host plain_flags ids db refl
            (lock_loop-calm pid host plain_flags media ids [] db calm))
          done' in
      let names = names_of (m ∷ ms) in
      let rows = (lock_ids media ids pid host plain_flags db).1.rows in
      let c =
        ap (λ (rs : Rows). rs media k)
          (clean_rows names hostname owner (lock_ids media ids pid host plain_flags db).1 calm') in
      rw e (
        (λ h.
            c
            ∙ delete_listed names hostname owner rows k (new_row db pid host plain_flags)
                (ground (arith, a.added media k, h))
                (contains-names_of (m ∷ ms) k plain (contains-media_ids (m ∷ ms) k h))),
        λ h. c ∙ delete_kept names hostname owner rows k h,
      )
