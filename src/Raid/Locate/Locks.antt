-- ===== src/Raid/Locate/Locks.antt =====
-- The locks that a locate takes for the chosen host, and gives back if they are not enough.
use phobos.Base.{
  ℕ, zero, suc, ◌+◌, ◌*◌, ◌/◌, true, false, List, [], ◌∷◌, ◌++◌, Option, none, some, ltb, leb,
  if◌then◌else◌, length,
}
use phobos.StringArray.CString.{Bytes}
use phobos.Types.{PhoId}
use phobos.Raid.Locate.Splits.{count_range}
use phobos.Raid.Locate.Hosts.{ExtentLocation, HostCapabilities, Compat, has_compatible_devices}
use phobos.Raid.Locate.Extents.{slot}
use phobos.Raid.Locate.Choice.{is_locked_by}

-- The return codes of `dss_lock_weak` that the code tells apart: success, `-EEXIST`, another error.
pub data LockCode : Type 0 where
  locked exists failed : LockCode

-- The lock calls of the DSS, over the state of its database.
pub record LockCalls : Type 1 where
  pub State : Type 0
  pub lock_weak : State → PhoId → Bytes → LockCode × State
  pub unlock : State → PhoId → State
  pub refresh : State → PhoId → State

module _ (calls : LockCalls) where
  open calls use {State, lock_weak, unlock, refresh}

  -- `cleanup_locks`: the return codes of the unlocks are only logged.
  unfoldable pub cleanup_locks : List PhoId → State → State
  cleanup_locks [] s = s
  cleanup_locks (m ∷ ms) s = cleanup_locks ms (unlock s m)

  -- What the loops of `lock_extents` carry along: the locks of this split, all locks taken so far,
  -- oldest first, and the state of the DSS.
  pub record Taking : Type 0 where
    pub held : ℕ
    pub taken : List PhoId
    pub state : State

  -- A lock that is refused, or that fails, is passed over.
  unfoldable pub after_lock : Taking → PhoId → LockCode × State → Taking
  after_lock t m (locked, s) = record { held = t.held + 1; taken = t.taken ++ m ∷ []; state = s }
  after_lock t m (exists, s) = record t { state = s }
  after_lock t m (failed, s) = record t { state = s }

  module _ (compat : Compat) (locs : List (Option ExtentLocation)) (n_data per_split : ℕ)
      (hostname : Bytes) (cap : HostCapabilities) where
    -- The body of the inner loop, at a located extent.
    unfoldable pub try_lock : ExtentLocation → Taking → Taking
    unfolding after_lock
    try_lock loc t =
        if has_compatible_devices compat cap.devices loc
        then after_lock t loc.medium.id (lock_weak t.state loc.medium.id hostname)
        else t

    -- The inner loop: it ends once the split has its locks.
    unfoldable pub lock_split : ℕ → ℕ → Taking → Taking
    lock_split zero i t = t
    lock_split (suc n) i t = elim (slot locs i) [
      | none ↦ lock_split n (i + 1) t
      | some loc ↦ elim (leb n_data (try_lock loc t).held) [
        | true ↦ try_lock loc t
        | false ↦ lock_split n (i + 1) (try_lock loc t)
      ]
    ]

    -- The outer loop over `n` splits from `i` on; `reserved` holds `nb_locks_per_split`. The result
    -- is the locks taken, or none for `-EAGAIN`, and the state of the DSS.
    unfoldable pub lock_extents : (ℕ → ℕ) → ℕ → ℕ → List PhoId → State → Option (List PhoId) × State
    lock_extents reserved zero i taken s = (some taken, s)
    lock_extents reserved (suc n) i taken s =
        let t =
          lock_split per_split (i * per_split)
            (record { held = reserved i; taken = taken; state = s }) in
        elim (leb n_data (reserved i)) [
          | true ↦ lock_extents reserved n (i + 1) taken s
          | false ↦ elim (ltb t.held n_data) [
            | true ↦ (none, cleanup_locks t.taken t.state)
            | false ↦ lock_extents reserved n (i + 1) t.taken t.state
          ]
        ]

    -- The locks that the host holds already are refreshed; an error of the refresh is only logged.
    unfoldable pub refresh_slots : ℕ → ℕ → State → State
    refresh_slots zero i s = s
    refresh_slots (suc n) i s = refresh_slots n (i + 1) (elim (slot locs i) [
      | none ↦ s
      | some loc ↦ if is_locked_by locs hostname i then refresh s loc.medium.id else s
    ])

    unfoldable pub reserve_locks : State → Option (List PhoId) × State
    reserve_locks s =
        lock_extents (λ i. count_range per_split (i * per_split) (is_locked_by locs hostname))
          (length locs / per_split) 0 [] (refresh_slots (length locs / per_split * per_split) 0 s)
