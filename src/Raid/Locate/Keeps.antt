-- ===== src/Raid/Locate/Keeps.antt =====
-- What the lock calls keep, `raid_locate` keeps: src/layout/raid_common_locate.c.
use phobos.Base.{
  ℕ, zero, suc, ◌+◌, ◌*◌, ◌/◌, inl, inr, List, [], ◌∷◌, Option, none, some, ltb, leb, length,
  Bool-cases, Option-cases,
}
use phobos.Base.Results.{Result-cases}
use phobos.StringArray.CString.{Bytes}
use phobos.Types.{PhoId}
use phobos.Raid.Locate.Hosts.{
  Extent, ExtentLocation, HostCapabilities, Hosts, Compat, lookup_host, has_compatible_devices,
}
use phobos.Raid.Locate.Extents.{slot}
use phobos.Raid.Locate.Choice.{is_locked_by, find_best_host}
use phobos.Raid.Locate.Locks.{
  LockCode, locked, exists, failed, LockCalls, cleanup_locks, Taking, after_lock, try_lock,
  lock_split, lock_extents, refresh_slots, reserve_locks,
}
use phobos.Raid.Locate.Run.{Env, candidates, choose_and_lock, locate_layout, raid_locate}

-- A property of the states of the DSS that each of its lock calls keeps.
pub record IsKept (calls : LockCalls) (P : calls.State → Type 0) : Type 0 where
  pub by_lock : (s : calls.State) (m : PhoId) (h : Bytes) → P s → P (calls.lock_weak s m h).1
  pub by_unlock : (s : calls.State) (m : PhoId) → P s → P (calls.unlock s m)
  pub by_refresh : (s : calls.State) (m : PhoId) → P s → P (calls.refresh s m)

module _ (calls : LockCalls) (P : calls.State → Type 0) (kept : IsKept calls P) where
  open calls use {State, lock_weak, unlock, refresh}

  cleanup_locks-keeps : (ms : List PhoId) (s : State) → P s → P (cleanup_locks calls ms s)
  unfolding cleanup_locks
  cleanup_locks-keeps [] s p = p
  cleanup_locks-keeps (m ∷ ms) s p = cleanup_locks-keeps ms (unlock s m) (kept.by_unlock s m p)

  after_lock-keeps :
      (t : Taking calls) (m : PhoId) (c : LockCode) (s : State)
      → P s
      → P (after_lock calls t m (c, s)).state
  unfolding after_lock
  after_lock-keeps t m locked s p = p
  after_lock-keeps t m exists s p = p
  after_lock-keeps t m failed s p = p

  module _ (compat : Compat) (locs : List (Option ExtentLocation)) (n_data per_split : ℕ)
      (hostname : Bytes) (cap : HostCapabilities) where
    abbrev attempt : ExtentLocation → Taking calls → Taking calls
    attempt = try_lock calls compat locs n_data per_split hostname cap

    try_lock-keeps : (loc : ExtentLocation) (t : Taking calls) → P t.state → P (attempt loc t).state
    unfolding try_lock
    try_lock-keeps loc t p = elim (Bool-cases (has_compatible_devices compat cap.devices loc)) [
      | inl h ↦ rw h (
          after_lock-keeps t loc.medium.id (lock_weak t.state loc.medium.id hostname).0
            (lock_weak t.state loc.medium.id hostname).1
            (kept.by_lock t.state loc.medium.id hostname p))
      | inr h ↦ rw h p
    ]

    lock_split-keeps :
        (n i : ℕ) (t : Taking calls)
        → P t.state
        → P (lock_split calls compat locs n_data per_split hostname cap n i t).state
    unfolding lock_split
    lock_split-keeps zero i t p = p
    lock_split-keeps (suc n) i t p = elim (Option-cases (slot locs i)) [
      | inl e ↦ rw (e, lock_split) (lock_split-keeps n (i + 1) t p)
      | inr (loc, e) ↦
          let p' = try_lock-keeps loc t p in
          elim (Bool-cases (leb n_data (attempt loc t).held)) [
            | inl enough ↦ rw (e, enough, lock_split) p'
            | inr more ↦ rw (e, more, lock_split) (lock_split-keeps n (i + 1) (attempt loc t) p')
          ]
    ]

    lock_extents-keeps :
        (reserved : ℕ → ℕ) (n i : ℕ) (taken : List PhoId) (s : State)
        → P s
        → P (lock_extents calls compat locs n_data per_split hostname cap reserved n i taken s).1
    unfolding lock_extents
    lock_extents-keeps reserved zero i taken s p = p
    lock_extents-keeps reserved (suc n) i taken s p =
        let t₀ : Taking calls = record { held = reserved i; taken = taken; state = s } in
        let t =
          lock_split calls compat locs n_data per_split hostname cap per_split (i * per_split) t₀ in
        let p' = lock_split-keeps per_split (i * per_split) t₀ p in
        elim (Bool-cases (leb n_data (reserved i))) [
          | inl already ↦
              rw (already, lock_extents) (lock_extents-keeps reserved n (i + 1) taken s p)
          | inr more ↦ elim (Bool-cases (ltb t.held n_data)) [
            | inl short ↦ rw (more, short, lock_extents) (cleanup_locks-keeps t.taken t.state p')
            | inr full ↦
                rw (more, full, lock_extents)
                  (lock_extents-keeps reserved n (i + 1) t.taken t.state p')
          ]
        ]

    refresh_slots-keeps :
        (n i : ℕ) (s : State)
        → P s
        → P (refresh_slots calls compat locs n_data per_split hostname cap n i s)
    unfolding refresh_slots
    refresh_slots-keeps zero i s p = p
    refresh_slots-keeps (suc n) i s p = elim (Option-cases (slot locs i)) [
      | inl e ↦ rw (e, refresh_slots) (refresh_slots-keeps n (i + 1) s p)
      | inr (loc, e) ↦ elim (Bool-cases (is_locked_by locs hostname i)) [
        | inl own ↦
            rw (e, own, refresh_slots)
              (refresh_slots-keeps n (i + 1) (refresh s loc.medium.id)
                (kept.by_refresh s loc.medium.id p))
        | inr other ↦ rw (e, other, refresh_slots) (refresh_slots-keeps n (i + 1) s p)
      ]
    ]

    reserve_locks-keeps :
        (s : State) → P s → P (reserve_locks calls compat locs n_data per_split hostname cap s).1
    unfolding reserve_locks
    reserve_locks-keeps s p =
        lock_extents-keeps _ (length locs / per_split) 0 [] _
          (refresh_slots-keeps (length locs / per_split * per_split) 0 s p)

module _ (env : Env) (P : env.calls.State → Type 0) (kept : IsKept env.calls P)
    (n_data n_parity : ℕ) where
  open env use {calls, usable_devices, compat, self_hostname, order}
  open calls use {State}

  choose_and_lock-keeps :
      (focus_host : Bytes) (hosts : Hosts) (locs : List (Option ExtentLocation)) (s : State)
      → P s
      → P (choose_and_lock env n_data n_parity focus_host hosts locs s).1
  unfolding choose_and_lock
  choose_and_lock-keeps focus_host hosts locs s p =
      elim (Option-cases
        (find_best_host locs n_data (n_data + n_parity) focus_host (order hosts))) [
          | inl e ↦ rw (e, choose_and_lock) p
          | inr (name, e) ↦ elim (Option-cases (lookup_host name hosts)) [
            | inl f ↦ rw (e, f, choose_and_lock) p
            | inr (cap, f) ↦
                let p' =
                  reserve_locks-keeps calls P kept compat locs n_data (n_data + n_parity) name cap s
                    p in
                elim (Option-cases
                  (reserve_locks calls compat locs n_data (n_data + n_parity) name cap s).0) [
                    | inl g ↦ rw (e, f, g, choose_and_lock) p'
                    | inr (ms, g) ↦ rw (e, f, g, choose_and_lock) p'
                  ]
          ]
        ]

  locate_layout-keeps :
      (extents : List Extent) (focus_host : Bytes) (s : State)
      → P s
      → P (locate_layout env n_data n_parity extents focus_host s).1
  unfolding locate_layout
  locate_layout-keeps [] focus_host s p = p
  locate_layout-keeps (e ∷ es) focus_host s p =
      elim (Result-cases (usable_devices e.media.family)) [
        | inr (inl (code, f)) ↦ rw (f, locate_layout) p
        | inr (inr f) ↦ rw (f, locate_layout) p
        | inl (devices, f) ↦
            elim (Result-cases (candidates env n_data n_parity (e ∷ es) devices focus_host)) [
              | inr (inl (code, g)) ↦ rw (f, g, locate_layout) p
              | inr (inr g) ↦ rw (f, g, locate_layout) p
              | inl ((hosts, locs), g) ↦
                  rw (f, g, locate_layout) (choose_and_lock-keeps focus_host hosts locs s p)
            ]
      ]

  pub raid_locate-keeps :
      (extents : List Extent) (focus_host : Option Bytes) (s : State)
      → P s
      → P (raid_locate env n_data n_parity extents focus_host s).1
  unfolding raid_locate
  raid_locate-keeps extents (some focus_host) s p = locate_layout-keeps extents focus_host s p
  raid_locate-keeps extents none s p = elim (Option-cases self_hostname) [
    | inl e ↦ rw (e, raid_locate) p
    | inr (name, e) ↦ rw (e, raid_locate) (locate_layout-keeps extents name s p)
  ]
