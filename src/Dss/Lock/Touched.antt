-- ===== src/Dss/Lock/Touched.antt =====
-- The rows of the table of locks that the calls of a locate touch.
use phobos.Base.{
  ℕ, ◌≡◌, refl, ap, sym, subst, ◌∙◌, ◌⊎◌, inl, inr, true, false, Option, none, some, arith,
  Bool-cases, Option-cases,
}
use phobos.StringArray.CString.{Bytes, str_eq, str_eq_iff}
use phobos.Types.{PhoId}
use phobos.Raid.Locate.Keeps.{IsKept}
use phobos.Dss.Lock.{
  DssType, media, type_eq, Row, Rows, put, execute, change_row, refresh_query, basic_refresh,
  basic_unlock, try_all,
}
use phobos.Dss.Lock.Calls.{dss_lock_refresh, refresh_items, dss_unlock, unlock_items}
use phobos.Dss.Lock.Refine.{
  locate_calls, media_id, fits, weak_row, ids-fits, ids_unfit, lock_unfit, lock_taken, lock_free,
}

-- A row of a medium's lock that is weak and of the process, or that was there, but for the time of
-- the last locate.
abbrev pub Explained : ℕ → Option Row → Row → Type 0
Explained pid none r = (r.owner ≡ pid) × (r.is_weak ≡ true)
Explained pid (some o) r =
    (r.owner ≡ pid) × (r.is_weak ≡ true)
    ⊎ (r.hostname ≡ o.hostname)
      × (r.owner ≡ o.owner)
      × (r.timestamp ≡ o.timestamp)
      × (r.is_weak ≡ o.is_weak)

-- Only locks of media have changed, and each lock of a medium is explained.
pub record Touched (pid : ℕ) (s s' : Rows × ℕ) : Type 0 where
  pub others : (t : DssType) (k : Bytes) → type_eq t media ≡ false → s'.0 t k ≡ s.0 t k
  pub explained : (k : Bytes) (r : Row) → s'.0 media k ≡ some r → Explained pid (s.0 media k) r

Explained-old : (pid : ℕ) (o : Option Row) (r : Row) → o ≡ some r → Explained pid o r
Explained-old pid none r e = absurd (ground arith)
Explained-old pid (some o) r e = inr (ground arith, ground arith, ground arith, ground arith)

pub Touched-self : (pid : ℕ) (s : Rows × ℕ) → Touched pid s s
Touched-self pid s = record {
  others = λ t k e. refl;
  explained = λ k r e. Explained-old pid (s.0 media k) r e;
}

Explained-own :
    (pid : ℕ) (o : Option Row) (r : Row) → r.owner ≡ pid → r.is_weak ≡ true → Explained pid o r
Explained-own pid none r e w = (e, w)
Explained-own pid (some o) r e w = inl (e, w)

Explained-located :
    (pid : ℕ) (o : Option Row) (r : Row) (n : Option ℕ)
    → Explained pid o r
    → Explained pid o (record r { last_locate = n })
Explained-located pid none r n e = e
Explained-located pid (some o) r n e = e

module _ (escape : Bytes → Bytes) (host : Bytes) (pid : ℕ) where
  -- An unlock changes a row only by its removal, and a lock of a medium only.
  unlock-row :
      (rows : Rows) (now : ℕ) (m : PhoId) (t : DssType) (k : Bytes)
      → (((locate_calls escape host pid).unlock (rows, now) m).0 t k ≡ rows t k)
        ⊎ (type_eq t media ≡ true)
          × (((locate_calls escape host pid).unlock (rows, now) m).0 t k ≡ none)
  unfolding dss_unlock unlock_items try_all basic_unlock change_row execute
  unlock-row rows now m t k = elim (Bool-cases (fits escape host pid m)) [
    | inr e ↦ rw (ids_unfit escape host pid m e, dss_unlock, unlock_items) (inl refl)
    | inl e ↦
        rw (ids-fits escape host pid m e, dss_unlock, unlock_items)
          (elim (Option-cases (rows media (media_id escape host pid m))) [
            | inl f ↦ ground (arith, f)
            | inr (r, f) ↦ ground (arith, f)
          ])
  ]

  refresh-other :
      (rows : Rows) (now : ℕ) (m : PhoId) (t : DssType) (k : Bytes)
      → type_eq t media ≡ false
      → ((locate_calls escape host pid).refresh (rows, now) m).0 t k ≡ rows t k
  unfolding dss_lock_refresh refresh_items try_all basic_refresh refresh_query change_row execute
  refresh-other rows now m t k other = elim (Bool-cases (fits escape host pid m)) [
    | inr e ↦ rw (ids_unfit escape host pid m e, dss_lock_refresh, refresh_items) refl
    | inl e ↦
        rw (ids-fits escape host pid m e, dss_lock_refresh, refresh_items)
          (elim (Option-cases (rows media (media_id escape host pid m))) [
            | inl f ↦ ground (arith, f)
            | inr (r, f) ↦ ground (arith, f)
          ])
  ]

  refresh-row :
      (rows : Rows) (now : ℕ) (m : PhoId) (k : Bytes)
      → (((locate_calls escape host pid).refresh (rows, now) m).0 media k ≡ rows media k)
        ⊎ (r : Row) × (rows media k ≡ some r)
          × (((locate_calls escape host pid).refresh (rows, now) m).0 media k
              ≡ some (record r { last_locate = some now }))
  unfolding dss_lock_refresh refresh_items try_all basic_refresh refresh_query change_row execute
  refresh-row rows now m k = elim (Bool-cases (fits escape host pid m)) [
    | inr e ↦ rw (ids_unfit escape host pid m e, dss_lock_refresh, refresh_items) (inl refl)
    | inl e ↦
        rw (ids-fits escape host pid m e, dss_lock_refresh, refresh_items)
          (elim (Option-cases (rows media (media_id escape host pid m))) [
            | inl f ↦ inl (ground (arith, f))
            | inr (r, f) ↦ elim (Bool-cases (str_eq k (media_id escape host pid m))) [
              | inl here ↦
                  let same = (str_eq_iff k (media_id escape host pid m)).0 here in
                  inr (r, rw same f, ground (arith, f, here))
              | inr other ↦ inl (ground (arith, f, other))
            ]
          ])
  ]

  Touched-insert :
      (s₀ : Rows × ℕ) (rows : Rows) (now : ℕ) (id h : Bytes)
      → Touched pid s₀ (rows, now)
      → Touched pid s₀ (put rows media id (some (weak_row escape host pid h now)), now)
  Touched-insert s₀ rows now id h w = record {
    others = λ t k e. ground (arith, w.others t k e);
    explained = λ k r e. elim (Bool-cases (str_eq k id)) [
      | inl here ↦
          Explained-own pid (s₀.0 media k) r (ground (arith, e, here)) (ground (arith, e, here))
      | inr other ↦ w.explained k r (ground (arith, e, other))
    ];
  }

  by_lock_lem :
      (s₀ : Rows × ℕ) (rows : Rows) (now : ℕ) (m : PhoId) (h : Bytes)
      → Touched pid s₀ (rows, now)
      → Touched pid s₀ ((locate_calls escape host pid).lock_weak (rows, now) m h).1
  by_lock_lem s₀ rows now m h w = elim (Bool-cases (fits escape host pid m)) [
    | inr e ↦
        subst (λ s. Touched pid s₀ s)
          (sym (ap (λ x. x.1) (lock_unfit escape host pid rows now m h e))) w
    | inl e ↦ elim (Option-cases (rows media (media_id escape host pid m))) [
      | inr (r, f) ↦
          subst (λ s. Touched pid s₀ s)
            (sym (ap (λ x. x.1) (lock_taken escape host pid rows now m h r e f))) w
      | inl f ↦
          subst (λ s. Touched pid s₀ s)
            (sym (ap (λ x. x.1) (lock_free escape host pid rows now m h e f)))
            (Touched-insert s₀ rows now (media_id escape host pid m) h w)
    ]
  ]

  by_unlock_lem :
      (s₀ : Rows × ℕ) (rows : Rows) (now : ℕ) (m : PhoId)
      → Touched pid s₀ (rows, now)
      → Touched pid s₀ ((locate_calls escape host pid).unlock (rows, now) m)
  by_unlock_lem s₀ rows now m w = record {
    others = λ t k e. elim (unlock-row rows now m t k) [
      | inl same ↦ same ∙ w.others t k e
      | inr (med, gone) ↦ absurd (ground (arith, med, e))
    ];
    explained = λ k r e. elim (unlock-row rows now m media k) [
      | inl same ↦ w.explained k r (sym same ∙ e)
      | inr (med, gone) ↦ let z : none ≡ some r = sym gone ∙ e in absurd (ground arith)
    ];
  }

  by_refresh_lem :
      (s₀ : Rows × ℕ) (rows : Rows) (now : ℕ) (m : PhoId)
      → Touched pid s₀ (rows, now)
      → Touched pid s₀ ((locate_calls escape host pid).refresh (rows, now) m)
  by_refresh_lem s₀ rows now m w = record {
    others = λ t k e. refresh-other rows now m t k e ∙ w.others t k e;
    explained = λ k r e. elim (refresh-row rows now m k) [
      | inl same ↦ w.explained k r (sym same ∙ e)
      | inr (o, was, is) ↦
          let q : some (record o { last_locate = some now }) ≡ some r = sym is ∙ e in
          let p : record o { last_locate = some now } ≡ r = ground arith in
          subst (λ x. Explained pid (s₀.0 media k) x) p
            (Explained-located pid (s₀.0 media k) o (some now) (w.explained k o was))
    ];
  }

  -- The calls of a locate touch nothing else.
  pub Touched-IsKept :
      (s₀ : Rows × ℕ) → IsKept (locate_calls escape host pid) (λ s. Touched pid s₀ s)
  Touched-IsKept s₀ = record {
    by_lock = λ s m h w. by_lock_lem s₀ s.0 s.1 m h w;
    by_unlock = λ s m w. by_unlock_lem s₀ s.0 s.1 m w;
    by_refresh = λ s m w. by_refresh_lem s₀ s.0 s.1 m w;
  }
