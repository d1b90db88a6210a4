-- ===== src/Dss/Lock/Refine.antt =====
-- The locks of the DSS as the table of locks that a locate relies on.
use phobos.Base.{
  ℕ, ◌≡◌, ◌≢◌, refl, sym, ap, ◌∙◌, inl, inr, Bool, true, false, ◌&&◌, ◌||◌, List, [], ◌∷◌, Option,
  none, some, arith, if◌then◌else◌, Bool-cases, Option-cases,
}
use phobos.Base.Results.{Errno, eexist}
use phobos.StringArray.CString.{Bytes, str_eq, str_eq_iff}
use phobos.Types.{PhoId}
use phobos.Dss.Lock.{
  DssType, media, type_eq_iff, Row, Rows, put, Db, execute, Flags, is_owned_by, insert_row,
  change_row, refresh_query, basic_lock, basic_refresh, basic_unlock, dss_lock_rollback, lock_loop,
  lock_ids, try_all,
}
use phobos.Dss.Lock.Calls.{
  Item, resource, known, join_id, lock_id, build_lock_id_list, lock_items, dss_lock_weak,
  refresh_items, dss_lock_refresh, unlock_items, dss_unlock,
}
use phobos.Raid.Locate.Locks.{LockCode, locked, exists, failed, LockCalls}
use phobos.Raid.Locate.LockTable.{LockTable}

module _ (escape : Bytes → Bytes) (host : Bytes) (pid : ℕ) where
  -- A database whose statements run, at a time.
  abbrev calm : Rows × ℕ → Db
  calm (rows, now) = record { rows = rows; now = now; failures = [] }

  abbrev rest : Db → Rows × ℕ
  rest db = (db.rows, db.now)

  abbrev code_of : Option Errno → LockCode
  code_of none = locked
  code_of (some eexist) = exists
  code_of (some _) = failed

  abbrev one : PhoId → List Item
  one m = resource m ∷ []

  -- The calls of a locate by the process `pid` of `host`.
  abbrev pub locate_calls : LockCalls
  locate_calls = record {
    State = Rows × ℕ;
    lock_weak = λ s m h.
        let (rc, db) = dss_lock_weak escape pid media (one m) h true (calm s) in
        (code_of rc, rest db);
    unlock = λ s m. rest (dss_unlock escape false (known host pid) media (one m) (calm s)).1;
    refresh = λ s m. rest (dss_lock_refresh escape true (known host pid) media (one m) (calm s)).1;
  }

  abbrev pub media_id : PhoId → Bytes
  media_id m = join_id m.name (some m.library)

  abbrev pub fits : PhoId → Bool
  fits m = elim (lock_id escape media (resource m)) [ none ↦ false | some i ↦ true ]

  fits-lock_id : (m : PhoId) → fits m ≡ true → lock_id escape media (resource m) ≡ some (media_id m)
  unfolding lock_id
  fits-lock_id m h = ground arith

  pub ids-fits :
      (m : PhoId) → fits m ≡ true → build_lock_id_list escape media (one m) ≡ some (media_id m ∷ [])
  unfolding build_lock_id_list
  ids-fits m h = rw (fits-lock_id m h, build_lock_id_list) refl

  pub ids_unfit : (m : PhoId) → fits m ≡ false → build_lock_id_list escape media (one m) ≡ none
  unfolding build_lock_id_list
  ids_unfit m h =
      let e : lock_id escape media (resource m) ≡ none = ground arith in
      rw (e, build_lock_id_list) refl

  abbrev pub holder_of : Rows × ℕ → Bytes → Option Bytes
  holder_of (rows, now) k = elim (rows media k) [ none ↦ none | some r ↦ some r.hostname ]

  abbrev pub weak_or_own : Option Row → Bool
  weak_or_own none = true
  weak_or_own (some r) = is_owned_by host pid r || r.is_weak

  abbrev pub can_unlock : Rows × ℕ → PhoId → Bool
  can_unlock (rows, now) m = fits m && weak_or_own (rows media (media_id m))

  abbrev pub weak_row : Bytes → ℕ → Row
  weak_row h now = record {
    hostname = h;
    owner = pid;
    timestamp = now;
    is_weak = true;
    last_locate = some now;
  }

  pub lock_unfit :
      (rows : Rows) (now : ℕ) (m : PhoId) (h : Bytes)
      → fits m ≡ false
      → locate_calls.lock_weak (rows, now) m h ≡ (failed, (rows, now))
  unfolding dss_lock_weak lock_items
  lock_unfit rows now m h e = rw (ids_unfit m e, dss_lock_weak, lock_items) refl

  abbrev locate_flags : Flags
  locate_flags = record { possess = false; weak = true; locate = true; force = false }

  basic_lock_taken :
      (rows : Rows) (now : ℕ) (id h : Bytes) (r : Row)
      → rows media id ≡ some r
      → basic_lock media id pid h locate_flags (calm (rows, now)) ≡ (some eexist, calm (rows, now))
  unfolding basic_lock execute insert_row
  basic_lock_taken rows now id h r f = ground (arith, f)

  basic_lock_free :
      (rows : Rows) (now : ℕ) (id h : Bytes)
      → rows media id ≡ none
      → basic_lock media id pid h locate_flags (calm (rows, now))
        ≡ (none, calm (put rows media id (some (weak_row h now)), now))
  unfolding basic_lock execute insert_row
  basic_lock_free rows now id h f = ground (arith, f)

  pub lock_taken :
      (rows : Rows) (now : ℕ) (m : PhoId) (h : Bytes) (r : Row)
      → fits m ≡ true
      → rows media (media_id m) ≡ some r
      → locate_calls.lock_weak (rows, now) m h ≡ (exists, (rows, now))
  unfolding dss_lock_weak lock_items lock_ids lock_loop dss_lock_rollback
  lock_taken rows now m h r e f =
      let b = basic_lock_taken rows now (media_id m) h r f in
      rw (ids-fits m e, dss_lock_weak, lock_items, lock_ids, lock_loop) (ground (arith, b))

  pub lock_free :
      (rows : Rows) (now : ℕ) (m : PhoId) (h : Bytes)
      → fits m ≡ true
      → rows media (media_id m) ≡ none
      → locate_calls.lock_weak (rows, now) m h
        ≡ (locked, (put rows media (media_id m) (some (weak_row h now)), now))
  unfolding dss_lock_weak lock_items lock_ids lock_loop
  lock_free rows now m h e f =
      let b = basic_lock_free rows now (media_id m) h f in
      rw (ids-fits m e, dss_lock_weak, lock_items, lock_ids, lock_loop) (ground (arith, b))

  unlock_free :
      (rows : Rows) (now : ℕ) (m : PhoId)
      → can_unlock (rows, now) m ≡ true
      → (u : DssType) (k : Bytes)
      → (locate_calls.unlock (rows, now) m).0 u k ≡ put rows media (media_id m) none u k
  unfolding dss_unlock unlock_items try_all basic_unlock change_row execute
  unlock_free rows now m h u k =
      let e : fits m ≡ true = ground arith in
      rw (ids-fits m e, dss_unlock, unlock_items)
        (elim (Option-cases (rows media (media_id m))) [
          | inl f ↦ ground (arith, f, type_eq_iff u media, str_eq_iff k (media_id m))
          | inr (r, f) ↦ ground (arith, f)
        ])

  -- A refresh touches only the time of the last locate.
  refresh_same :
      (rows : Rows) (now : ℕ) (m : PhoId) (k : Bytes)
      → (holder_of (locate_calls.refresh (rows, now) m) k ≡ holder_of (rows, now) k)
        × (weak_or_own ((locate_calls.refresh (rows, now) m).0 media k)
            ≡ weak_or_own (rows media k))
  unfolding dss_lock_refresh refresh_items try_all basic_refresh refresh_query change_row execute
  refresh_same rows now m k = elim (Bool-cases (fits m)) [
    | inr e ↦ rw (ids_unfit m e, dss_lock_refresh, refresh_items) (refl, refl)
    | inl e ↦
        rw (ids-fits m e, dss_lock_refresh, refresh_items)
          (elim (Option-cases (rows media (media_id m))) [
            | inl f ↦ ground (arith, f)
            | inr (r, f) ↦ ground (arith, f, str_eq_iff k (media_id m))
          ])
  ]

  granted_lem :
      (s s' : Rows × ℕ) (m : PhoId) (h : Bytes)
      → locate_calls.lock_weak s m h ≡ (locked, s')
      → (holder_of s (media_id m) ≡ none)
        × (can_unlock s m ≡ true)
        × ((k : Bytes) → holder_of s' k ≡ (if str_eq k (media_id m) then some h else holder_of s k))
        × ((n : PhoId) → can_unlock s' n ≡ can_unlock s n)
  granted_lem (rows, now) s' m h q = elim (Bool-cases (fits m)) [
    | inr e ↦
        let z : failed ≡ locked = ap (λ x. x.0) (sym (lock_unfit rows now m h e) ∙ q) in
        absurd (ground arith)
    | inl e ↦ elim (Option-cases (rows media (media_id m))) [
      | inr (r, f) ↦
          let z : exists ≡ locked = ap (λ x. x.0) (sym (lock_taken rows now m h r e f) ∙ q) in
          absurd (ground arith)
      | inl f ↦
          let p : (put rows media (media_id m) (some (weak_row h now)), now) ≡ s' =
            ap (λ x. x.1) (sym (lock_free rows now m h e f) ∙ q) in
          rw (← p) (
            ground (arith, f),
            ground (arith, e, f),
            (λ k. ground arith),
            λ n. ground (arith, f, str_eq_iff (media_id n) (media_id m)),
          )
    ]
  ]

  refused_lem :
      (s s' : Rows × ℕ) (m : PhoId) (h : Bytes) (c : LockCode)
      → locate_calls.lock_weak s m h ≡ (c, s')
      → c ≢ locked
      → ((k : Bytes) → holder_of s' k ≡ holder_of s k)
        × ((n : PhoId) → can_unlock s' n ≡ can_unlock s n)
  refused_lem (rows, now) s' m h c q other = elim (Bool-cases (fits m)) [
    | inr e ↦
        let p : (rows, now) ≡ s' = ap (λ x. x.1) (sym (lock_unfit rows now m h e) ∙ q) in
        rw (← p) ((λ k. refl), λ n. refl)
    | inl e ↦ elim (Option-cases (rows media (media_id m))) [
      | inr (r, f) ↦
          let p : (rows, now) ≡ s' = ap (λ x. x.1) (sym (lock_taken rows now m h r e f) ∙ q) in
          rw (← p) ((λ k. refl), λ n. refl)
      | inl f ↦ absurd (other (ap (λ x. x.0) (sym q ∙ lock_free rows now m h e f)))
    ]
  ]

  -- Over a database whose statements run, the locks of the DSS are a table of locks as a locate
  -- relies on: an id is the name of the medium, an underscore and its library, and a lock can be
  -- given back that is weak or the caller's own.
  pub dss_LockTable : LockTable locate_calls
  dss_LockTable = record {
    id_of = media_id;
    holder = holder_of;
    freeable = can_unlock;
    granted = granted_lem;
    refused = refused_lem;
    freed = λ s m h. (
      (λ k. ground (arith, unlock_free s.0 s.1 m h media k)),
      λ n.
          ground (
            arith,
            unlock_free s.0 s.1 m h media (media_id n),
            str_eq_iff (media_id n) (media_id m),
          ),
    );
    refreshed = λ s m. (
      (λ k. (refresh_same s.0 s.1 m k).0),
      λ n. ap (λ b. fits n && b) (refresh_same s.0 s.1 m (media_id n)).1,
    );
  }
