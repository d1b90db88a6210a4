-- ===== src/Raid/Locate/LockSound.antt =====
-- What the locks of `lock_extents` and `reserve_locks` come to, split by split.
use phobos.Base.{
  ℕ, zero, suc, ◌+◌, ◌*◌, ◌/◌, ◌≤◌, ◌<◌, ◌≡◌, refl, ◌∙◌, inl, inr, true, List, [], Option, none,
  some, arith, ltb, leb, length, Bool-cases, Option-cases,
}
use native.Mathlib.Decide.{ℕ_discrete}
use phobos.StringArray.CString.{Bytes}
use phobos.Types.{PhoId}
use phobos.Raid.Locate.Splits.{count_range, EachSplit, count_range_mono}
use phobos.Raid.Locate.Hosts.{ExtentLocation, HostCapabilities, Compat}
use phobos.Raid.Locate.Extents.{slot}
use phobos.Raid.Locate.Choice.{is_locked_by}
use phobos.Raid.Locate.Locks.{
  LockCalls, Taking, lock_split, lock_extents, refresh_slots, reserve_locks,
}
use phobos.Raid.Locate.LockTable.{
  LockTable, Took, Took-cleanup, Grows, slot_held, slot_held_mono, count_mono, lock_split-Locking,
}

module _ (calls : LockCalls) (table : LockTable calls) (hostname : Bytes) (compat : Compat)
    (locs : List (Option ExtentLocation)) (n_data per_split : ℕ) (cap : HostCapabilities) where
  open calls use {State, refresh}
  open table use {holder, refreshed}

  abbrev pub Unchanged : State → State → Type 0
  Unchanged s t = (k : Bytes) → holder t k ≡ holder s k

  abbrev held_in : State → ℕ → ℕ
  held_in s i =
      count_range per_split (i * per_split)
        (slot_held calls table hostname compat locs n_data per_split cap s)

  -- Every split from `i` to before `i + n` has enough locks.
  abbrev Enough : State → ℕ → ℕ → Type 0
  Enough s n i = (k : ℕ) → i ≤ k → k < i + n → n_data ≤ held_in s k

  -- The locks that were counted before the locking are held.
  abbrev Counted : (ℕ → ℕ) → State → Type 0
  Counted reserved s = (k : ℕ) → reserved k ≤ held_in s k

  abbrev Ended : (ℕ → ℕ) → State → State → ℕ → ℕ → Option (List PhoId) × State → Type 0
  Ended reserved s₀ s n i (none, s') = Unchanged s₀ s'
  Ended reserved s₀ s n i (some ms, s') =
      Took calls table hostname s₀ ms s'
      × Grows calls table hostname s s'
      × (Counted reserved s → Enough s' n i)

  held_in_mono :
      (s t : State) → Grows calls table hostname s t → (k : ℕ) → held_in s k ≤ held_in t k
  held_in_mono s t g k =
      count_mono calls table hostname compat locs n_data per_split cap per_split (k * per_split) s t
        g

  Ended-step :
      (reserved : ℕ → ℕ) (s₀ s t : State) (n i : ℕ) (r : Option (List PhoId) × State)
      → Grows calls table hostname s t
      → (Counted reserved s → n_data ≤ held_in t i)
      → Ended reserved s₀ t n (i + 1) r
      → Ended reserved s₀ s (suc n) i r
  Ended-step reserved s₀ s t n i (none, s') g e d = d
  Ended-step reserved s₀ s t n i (some ms, s') g e (took, grows, enough) = (
    took,
    (λ m h. grows m (g m h)),
    λ c k lo hi. elim (ℕ_discrete i k) [
      | yes same ↦ rw (← same) (omega (arith, e c, held_in_mono t s' grows i))
      | no other ↦
          enough (λ j. omega (arith, c j, held_in_mono s t g j)) k (omega arith) (omega arith)
    ],
  )

  lock_extents-Ended :
      (reserved : ℕ → ℕ) (s₀ : State) (n i : ℕ) (taken : List PhoId) (s : State)
      → Took calls table hostname s₀ taken s
      → Ended reserved s₀ s n i
          (lock_extents calls compat locs n_data per_split hostname cap reserved n i taken s)
  unfolding lock_extents
  lock_extents-Ended reserved s₀ zero i taken s w =
      (w, (λ m e. e), λ c k lo hi. absurd (omega arith))
  lock_extents-Ended reserved s₀ (suc n) i taken s w =
      let t₀ : Taking calls = record { held = reserved i; taken = taken; state = s } in
      let t =
        lock_split calls compat locs n_data per_split hostname cap per_split (i * per_split) t₀ in
      let l =
        lock_split-Locking calls table hostname compat locs n_data per_split cap per_split
          (i * per_split) t₀ in
      elim (Bool-cases (leb n_data (reserved i))) [
        | inl already ↦
            rw (already, lock_extents)
              (Ended-step reserved s₀ s s n i _ (λ m e. e) (λ c. ground (arith, c i))
                (lock_extents-Ended reserved s₀ n (i + 1) taken s w))
        | inr more ↦ elim (Bool-cases (ltb t.held n_data)) [
          | inl short ↦
              rw (more, short, lock_extents)
                (Took-cleanup calls table hostname s₀ t.taken t.state (l.took s₀ w))
          | inr full ↦
              rw (more, full, lock_extents)
                (Ended-step reserved s₀ s t.state n i _ l.grows
                  (λ c. ground (arith, c i, l.counted))
                  (lock_extents-Ended reserved s₀ n (i + 1) t.taken t.state (l.took s₀ w)))
        ]
      ]

  refresh_slots-Unchanged :
      (n i : ℕ) (s : State)
      → Unchanged s (refresh_slots calls compat locs n_data per_split hostname cap n i s)
  unfolding refresh_slots
  refresh_slots-Unchanged zero i s k = refl
  refresh_slots-Unchanged (suc n) i s k = elim (Option-cases (slot locs i)) [
    | inl e ↦ rw (e, refresh_slots) (refresh_slots-Unchanged n (i + 1) s k)
    | inr (loc, e) ↦ elim (Bool-cases (is_locked_by locs hostname i)) [
      | inl own ↦
          rw (e, own, refresh_slots)
            (refresh_slots-Unchanged n (i + 1) (refresh s loc.medium.id) k
              ∙ (refreshed s loc.medium.id).0 k)
      | inr other ↦ rw (e, other, refresh_slots) (refresh_slots-Unchanged n (i + 1) s k)
    ]
  ]

  -- What the locate read of the host's own locks is still so.
  abbrev pub Current : State → Type 0
  Current s =
      (i : ℕ)
      → is_locked_by locs hostname i ≡ true
      → slot_held calls table hostname compat locs n_data per_split cap s i ≡ true

  abbrev nb_reserved : ℕ → ℕ
  nb_reserved i = count_range per_split (i * per_split) (is_locked_by locs hostname)

  refreshed_Took :
      (n : ℕ) (s : State)
      → Took calls table hostname s []
          (refresh_slots calls compat locs n_data per_split hostname cap n 0 s)
  refreshed_Took n s = record {
    were_free = λ k e. absurd (ground arith);
    added = refresh_slots-Unchanged n 0 s;
    can_free = tt;
    distinct = tt;
  }

  abbrev reserve : State → Option (List PhoId) × State
  reserve = reserve_locks calls compat locs n_data per_split hostname cap

  reserve_locks-Ended :
      (s : State)
      → Ended nb_reserved s
          (refresh_slots calls compat locs n_data per_split hostname cap
            (length locs / per_split * per_split)
            0
            s)
          (length locs / per_split)
          0
          (reserve s)
  unfolding reserve_locks
  reserve_locks-Ended s =
      lock_extents-Ended nb_reserved s (length locs / per_split) 0 [] _
        (refreshed_Took (length locs / per_split * per_split) s)

  -- If not all splits get their locks, no owner of a lock has changed when the call ends.
  pub reserve_locks-rollback : (s s' : State) → reserve s ≡ (none, s') → Unchanged s s'
  reserve_locks-rollback s s' e = let d = reserve_locks-Ended s in rw e at d

  Current-Counted : (s t : State) → Unchanged s t → Current s → Counted nb_reserved t
  Current-Counted s t u current k =
      count_range_mono per_split (k * per_split) (is_locked_by locs hostname)
        (slot_held calls table hostname compat locs n_data per_split cap t)
        (λ j own.
          slot_held_mono calls table hostname compat locs n_data per_split cap s t
            (λ m h. ground (arith, u m)) j (current j own))

  -- If the locks are reserved, the owners are as before but for the returned media, which were
  -- free and are now locked by the host.
  pub reserve_locks-Took :
      (s s' : State) (ms : List PhoId)
      → reserve s ≡ (some ms, s')
      → Took calls table hostname s ms s'
  reserve_locks-Took s s' ms e =
      let d = reserve_locks-Ended s in
      let w : Ended nb_reserved s _ (length locs / per_split) 0 (some ms, s') = rw e at d in w.0

  -- If moreover the host still held the locks that were counted for it, it ends with at least
  -- `n_data` locks in every split.
  pub reserve_locks-enough :
      (s s' : State) (ms : List PhoId)
      → Current s
      → reserve s ≡ (some ms, s')
      → EachSplit n_data per_split
          (slot_held calls table hostname compat locs n_data per_split cap s')
          (length locs / per_split)
  reserve_locks-enough s s' ms current e =
      let d = reserve_locks-Ended s in
      let w : Ended nb_reserved s _ (length locs / per_split) 0 (some ms, s') = rw e at d in
      λ k lt.
        w.2
          (Current-Counted s _ (refresh_slots-Unchanged (length locs / per_split * per_split) 0 s)
            current)
          k (omega arith) (omega arith)
