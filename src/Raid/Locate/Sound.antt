-- ===== src/Raid/Locate/Sound.antt =====
-- What `raid_locate` answers, and what it leaves in the table of locks.
use phobos.Base.{
  ℕ, ◌+◌, ◌/◌, ◌≡◌, refl, ◌≢◌, inl, inr, List, [], ◌∷◌, Option, none, some, arith, length,
  Bool-cases, Option-cases, All,
}
use phobos.Base.Results.{Result, ok, err, abort, Result-cases}
use phobos.StringArray.CString.{Bytes}
use phobos.Types.{PhoId}
use phobos.Raid.Locate.Splits.{short_split}
use phobos.Raid.Locate.Hosts.{
  Device, Extent, ExtentLocation, HostCapabilities, Hosts, lookup_host, setup_available_hosts,
  set_host_extent_accessibility, filter_inaccessible_extents,
}
use phobos.Raid.Locate.Extents.{setup_extent_location, locate_slots, is_present}
use phobos.Raid.Locate.Choice.{
  CanReadAll, filter_host-CanReadAll, lookup_host-All, find_best_host, find_best_host-Wins, IsHost,
  lookup_host-IsHost,
}
use phobos.Raid.Locate.Locks.{reserve_locks}
use phobos.Raid.Locate.LockTable.{LockTable, Took}
use phobos.Raid.Locate.LockSound.{reserve_locks-rollback, reserve_locks-Took}
use phobos.Raid.Locate.Run.{Env, Located, candidates, choose_and_lock, locate_layout, raid_locate}

module _ (env : Env) (table : LockTable env.calls) (n_data n_parity : ℕ) where
  open env use {calls, usable_devices, compat, self_hostname, order}
  open calls use {State}
  open table use {holder}

  -- An answer comes with as many new locks as it says, on lock ids that differ and were free, all
  -- of its host, and no other lock has changed; without an answer, every lock has the owner that it
  -- had.
  abbrev pub Leaves : State → Result Located × State → Type 0
  Leaves s (ok l, s') =
      (ms : List PhoId) × (length ms ≡ l.nb_new_locks) × Took calls table l.hostname s ms s'
  Leaves s (err code, s') = (k : Bytes) → holder s' k ≡ holder s k
  Leaves s (abort, s') = (k : Bytes) → holder s' k ≡ holder s k

  choose_and_lock-Leaves :
      (focus_host : Bytes) (hosts : Hosts) (locs : List (Option ExtentLocation)) (s : State)
      → Leaves s (choose_and_lock env n_data n_parity focus_host hosts locs s)
  unfolding choose_and_lock
  choose_and_lock-Leaves focus_host hosts locs s =
      elim (Option-cases
        (find_best_host locs n_data (n_data + n_parity) focus_host (order hosts))) [
          | inl e ↦ rw (e, choose_and_lock) (λ k. refl)
          | inr (name, e) ↦ elim (Option-cases (lookup_host name hosts)) [
            | inl f ↦ rw (e, f, choose_and_lock) (λ k. refl)
            | inr (cap, f) ↦
                elim (Option-cases
                  (reserve_locks calls compat locs n_data (n_data + n_parity) name cap s).0) [
                    | inl g ↦
                        rw (e, f, g, choose_and_lock)
                          (reserve_locks-rollback calls table name compat locs n_data
                            (n_data + n_parity) cap s _ (ground arith))
                    | inr (ms, g) ↦
                        rw (e, f, g, choose_and_lock)
                          (
                            ms,
                            refl,
                            reserve_locks-Took calls table name compat locs n_data
                                (n_data + n_parity) cap s _ ms (ground arith),
                          )
                  ]
          ]
        ]

  locate_layout-Leaves :
      (extents : List Extent) (focus_host : Bytes) (s : State)
      → Leaves s (locate_layout env n_data n_parity extents focus_host s)
  unfolding locate_layout
  locate_layout-Leaves [] focus_host s = (
    [],
    refl,
    record {
      were_free = λ k e. absurd (ground arith);
      added = λ k. refl;
      can_free = tt;
      distinct = tt;
    },
  )
  locate_layout-Leaves (e ∷ es) focus_host s = elim (Result-cases (usable_devices e.media.family)) [
    | inr (inl (code, f)) ↦ rw (f, locate_layout) (λ k. refl)
    | inr (inr f) ↦ rw (f, locate_layout) (λ k. refl)
    | inl (devices, f) ↦
        elim (Result-cases (candidates env n_data n_parity (e ∷ es) devices focus_host)) [
          | inr (inl (code, g)) ↦ rw (f, g, locate_layout) (λ k. refl)
          | inr (inr g) ↦ rw (f, g, locate_layout) (λ k. refl)
          | inl ((hosts, locs), g) ↦
              rw (f, g, locate_layout) (choose_and_lock-Leaves focus_host hosts locs s)
        ]
  ]

  -- An answer of `raid_locate` comes with as many new locks as it says: on that many different lock
  -- ids that were free, all of the host it names, and every other lock has the owner that it had.
  -- After an error or a failed assertion, every lock has the owner that it had.
  pub raid_locate-Leaves :
      (extents : List Extent) (focus_host : Option Bytes) (s : State)
      → Leaves s (raid_locate env n_data n_parity extents focus_host s)
  unfolding raid_locate
  raid_locate-Leaves extents (some focus_host) s = locate_layout-Leaves extents focus_host s
  raid_locate-Leaves extents none s = elim (Option-cases self_hostname) [
    | inl e ↦ rw (e, raid_locate) (λ k. refl)
    | inr (name, e) ↦ rw (e, raid_locate) (locate_layout-Leaves extents name s)
  ]

module _ (env : Env) (n_data n_parity : ℕ) where
  open env use {calls, usable_devices, compat, order}
  open calls use {State}

  -- The host that the answer names can read all splits, out of the candidates.
  abbrev Readable : Hosts → List (Option ExtentLocation) → Result Located × State → Type 0
  Readable hosts locs (ok l, s') =
      (cap : HostCapabilities) × (lookup_host l.hostname hosts ≡ some cap)
      × CanReadAll compat locs n_data (n_data + n_parity) cap
  Readable hosts locs (err code, s') = Unit {0}
  Readable hosts locs (abort, s') = Unit {0}

  choose_and_lock-Readable :
      (focus_host : Bytes) (hosts : Hosts) (locs : List (Option ExtentLocation)) (s : State)
      → All (λ e. CanReadAll compat locs n_data (n_data + n_parity) e.1) hosts
      → Readable hosts locs (choose_and_lock env n_data n_parity focus_host hosts locs s)
  unfolding choose_and_lock
  choose_and_lock-Readable focus_host hosts locs s a =
      elim (Option-cases
        (find_best_host locs n_data (n_data + n_parity) focus_host (order hosts))) [
          | inl e ↦ rw (e, choose_and_lock) tt
          | inr (name, e) ↦ elim (Option-cases (lookup_host name hosts)) [
            | inl f ↦ rw (e, f, choose_and_lock) tt
            | inr (cap, f) ↦
                elim (Option-cases
                  (reserve_locks calls compat locs n_data (n_data + n_parity) name cap s).0) [
                    | inl g ↦ rw (e, f, g, choose_and_lock) tt
                    | inr (ms, g) ↦
                        rw (e, f, g, choose_and_lock)
                          (
                            cap,
                            f,
                            lookup_host-All
                                (λ c. CanReadAll compat locs n_data (n_data + n_parity) c) hosts
                                name cap a f,
                          )
                  ]
          ]
        ]

  abbrev AllReadable : Result (Hosts × List (Option ExtentLocation)) → Type 0
  AllReadable (ok (hosts, locs)) =
      All (λ e. CanReadAll compat locs n_data (n_data + n_parity) e.1) hosts
  AllReadable (err code) = Unit {0}
  AllReadable abort = Unit {0}

  candidates-AllReadable :
      (extents : List Extent) (devices : List Device) (focus_host : Bytes)
      → AllReadable (candidates env n_data n_parity extents devices focus_host)
  unfolding candidates
  candidates-AllReadable extents devices focus_host =
      elim (Option-cases (setup_extent_location extents (n_data + n_parity))) [
        | inl e ↦ rw (e, candidates) tt
        | inr (slots, e) ↦
            let n = length slots / (n_data + n_parity) in
            let locs = locate_slots env.medium_locate slots in
            elim (Bool-cases (short_split n_data (n_data + n_parity) (is_present locs) n 0)) [
              | inl short ↦ rw (e, short, candidates) tt
              | inr full ↦
                  elim (Option-cases (
                    set_host_extent_accessibility compat 0 locs
                      (setup_available_hosts devices (length slots) focus_host))) [
                        | inl f ↦ rw (e, full, f, candidates) tt
                        | inr (hosts, f) ↦
                            let kept = filter_inaccessible_extents hosts 0 locs in
                            elim (Bool-cases
                              (short_split n_data (n_data + n_parity) (is_present kept) n 0)) [
                                | inl less ↦ rw (e, full, f, less, candidates) tt
                                | inr more ↦
                                    rw (e, full, f, more, candidates)
                                      (filter_host-CanReadAll compat kept n_data (n_data + n_parity)
                                        hosts)
                              ]
                      ]
            ]
      ]

  -- The answer for a layout with extents names a host that the DSS gave devices of, or the focus
  -- host, out of the candidates; of every split it can read at least `n_data` extents, each with
  -- at least `n_data` of its devices.
  pub locate_layout-readable :
      (e : Extent) (es : List Extent) (focus_host : Bytes) (s s' : State) (l : Located)
      → locate_layout env n_data n_parity (e ∷ es) focus_host s ≡ (ok l, s')
      → (devices : List Device) × (hosts : Hosts) × (locs : List (Option ExtentLocation))
        × (cap : HostCapabilities) × (usable_devices e.media.family ≡ ok devices)
        × (candidates env n_data n_parity (e ∷ es) devices focus_host ≡ ok (hosts, locs))
        × (lookup_host l.hostname hosts ≡ some cap)
        × CanReadAll compat locs n_data (n_data + n_parity) cap
  unfolding locate_layout
  locate_layout-readable e es focus_host s s' l q =
      elim (Result-cases (usable_devices e.media.family)) [
        | inr (inl (code, f)) ↦ absurd (ground arith)
        | inr (inr f) ↦ absurd (ground arith)
        | inl (devices, f) ↦
            elim (Result-cases (candidates env n_data n_parity (e ∷ es) devices focus_host)) [
              | inr (inl (code, g)) ↦ absurd (ground arith)
              | inr (inr g) ↦ absurd (ground arith)
              | inl ((hosts, locs), g) ↦
                  let a = candidates-AllReadable (e ∷ es) devices focus_host in
                  let r = choose_and_lock-Readable focus_host hosts locs s (rw g at a) in
                  let c : choose_and_lock env n_data n_parity focus_host hosts locs s ≡ (ok l, s') =
                    rw (f, g, locate_layout) at q in
                  let (cap, look, can) : Readable hosts locs (ok l, s') = rw c at r in
                  (devices, hosts, locs, cap, f, g, look, can)
            ]
      ]

  -- Once there are candidates, the search ends in an answer or an error: the host that wins is
  -- found among them, provided that the walk over the hash table shows no other host.
  pub choose_and_lock-found :
      (focus_host : Bytes) (hosts : Hosts) (locs : List (Option ExtentLocation)) (s : State)
      → ((name : Bytes) → IsHost name (order hosts) → IsHost name hosts)
      → (choose_and_lock env n_data n_parity focus_host hosts locs s).0 ≢ abort
  unfolding choose_and_lock
  choose_and_lock-found focus_host hosts locs s among =
      elim (find_best_host-Wins locs n_data (n_data + n_parity) focus_host (order hosts)) [
        | inl (_, e) ↦ rw (e, choose_and_lock) (ground arith)
        | inr (name, e, is, _) ↦
            let (cap, f) = lookup_host-IsHost name hosts (among name is) in
            elim (Option-cases
              (reserve_locks calls compat locs n_data (n_data + n_parity) name cap s).0) [
                | inl g ↦ rw (e, f, g, choose_and_lock) (ground arith)
                | inr (ms, g) ↦ rw (e, f, g, choose_and_lock) (ground arith)
              ]
      ]
