-- ===== src/Raid/Locate/Run.antt =====
-- `raid_locate`, from the layout to the host and the number of new locks.
use phobos.Base.{ℕ, ◌+◌, ◌/◌, List, [], ◌∷◌, Option, none, some, if◌then◌else◌, length}
use phobos.Base.Results.{Result, ok, err, abort, eagain, enodev, eaddrnotavail}
use phobos.StringArray.CString.{Bytes}
use phobos.Types.{Family}
use phobos.Raid.Locate.Splits.{short_split}
use phobos.Raid.Locate.Hosts.{
  Device, Extent, ExtentLocation, Hosts, Compat, lookup_host, setup_available_hosts,
  set_host_extent_accessibility, filter_inaccessible_extents,
}
use phobos.Raid.Locate.Extents.{MediumLocate, setup_extent_location, locate_slots, is_present}
use phobos.Raid.Locate.Choice.{filter_host_with_partial_access, find_best_host}
use phobos.Raid.Locate.Locks.{LockCalls, reserve_locks}

-- What a locate asks of the rest of the system: the DSS, the configuration, the machine's name and
-- the order in which GLib walks through a hash table.
pub record Env : Type 1 where
  pub calls : LockCalls
  pub usable_devices : Family → Result (List Device)
  pub medium_locate : MediumLocate
  pub compat : Compat
  pub self_hostname : Option Bytes
  pub order : Hosts → Hosts

-- The host to ask, and the number of locks taken for it.
pub record Located : Type 0 where
  pub hostname : Bytes
  pub nb_new_locks : ℕ

module _ (env : Env) (n_data n_parity : ℕ) where
  open env use {calls, usable_devices, medium_locate, compat, self_hostname, order}
  open calls use {State}

  -- The hosts that can read the object, and its extents, before a host is chosen.
  unfoldable pub candidates :
      List Extent → List Device → Bytes → Result (Hosts × List (Option ExtentLocation))
  candidates extents devices focus_host =
      let per_split = n_data + n_parity in
      elim (setup_extent_location extents per_split) [
        | none ↦ abort
        | some slots ↦
            let locs = locate_slots medium_locate slots in
            let n_split = length slots / per_split in
            if short_split n_data per_split (is_present locs) n_split 0
            then err enodev
            else elim (set_host_extent_accessibility compat 0 locs
                (setup_available_hosts devices (length slots) focus_host)) [
                  | none ↦ abort
                  | some hosts ↦
                      let kept = filter_inaccessible_extents hosts 0 locs in
                      if short_split n_data per_split (is_present kept) n_split 0
                      then err eagain
                      else ok
                          (filter_host_with_partial_access compat kept n_data per_split hosts, kept)
                ]
      ]

  -- From the candidates on; no host is left exactly when no best host is found.
  unfoldable pub choose_and_lock :
      Bytes → Hosts → List (Option ExtentLocation) → State → Result Located × State
  choose_and_lock focus_host hosts locs s =
      let per_split = n_data + n_parity in
      elim (find_best_host locs n_data per_split focus_host (order hosts)) [
        | none ↦ (err eagain, s)
        | some name ↦ elim (lookup_host name hosts) [
          | none ↦ (abort, s)
          | some cap ↦
              let (taken, s') = reserve_locks calls compat locs n_data per_split name cap s in
              elim taken [
                | none ↦ (err eagain, s')
                | some ms ↦ (ok (record { hostname = name; nb_new_locks = length ms }), s')
              ]
        ]
      ]

  unfoldable pub locate_layout : List Extent → Bytes → State → Result Located × State
  locate_layout [] focus_host s = (ok (record { hostname = focus_host; nb_new_locks = 0 }), s)
  locate_layout (e ∷ es) focus_host s = elim (usable_devices e.media.family) [
    | err code ↦ (err code, s)
    | abort ↦ (abort, s)
    | ok devices ↦ elim (candidates (e ∷ es) devices focus_host) [
      | err code ↦ (err code, s)
      | abort ↦ (abort, s)
      | ok (hosts, locs) ↦ choose_and_lock focus_host hosts locs s
    ]
  ]

  unfoldable pub raid_locate : List Extent → Option Bytes → State → Result Located × State
  raid_locate extents (some focus_host) s = locate_layout extents focus_host s
  raid_locate extents none s = elim self_hostname [
    | none ↦ (err eaddrnotavail, s)
    | some name ↦ locate_layout extents name s
  ]
