-- ===== src/Raid/Locate/Hosts.antt =====
-- The hosts of raid_common_locate.c: their devices, and the extents that each can read. The hash
-- table of hosts is an association list; its order is the order of iteration.
use phobos.Base.{
  ℕ, ◌+◌, Bool, true, false, not, List, [], ◌∷◌, ◌++◌, Option, none, some, if◌then◌else◌, get_elem?,
  set, replicate,
}
use phobos.StringArray.CString.{Bytes, str_eq}
use phobos.Types.{PhoId}

pub record Device : Type 0 where
  pub host : Bytes
  pub library : Bytes
  pub model : Option Bytes

pub record Medium : Type 0 where
  pub id : PhoId
  pub model : Bytes

pub record Extent : Type 0 where
  pub layout_idx : ℕ
  pub media : PhoId

-- A located extent; no host name means that its medium is not locked.
pub record ExtentLocation : Type 0 where
  pub extent : Extent
  pub medium : Medium
  pub hostname : Option Bytes

pub record HostCapabilities : Type 0 where
  pub devices : List Device
  pub accessible_extents : List Bool

abbrev pub Hosts : Type 0
Hosts = List (Bytes × HostCapabilities)

-- `tape_drive_compat_models` at a tape and a drive model; `none` is an error.
abbrev pub Compat : Type 0
Compat = Bytes → Bytes → Option Bool

module _ (compat : Compat) where
  -- The body of the two loops over the devices of a host.
  abbrev pub is_compatible : Device → ExtentLocation → Bool
  is_compatible device loc =
      if not (str_eq device.library loc.medium.id.library) then false else elim device.model [
        | none ↦ true
        | some drive ↦ elim (compat loc.medium.model drive) [ none ↦ false | some c ↦ c ]
      ]

  unfoldable pub count_compatible_devices : List Device → ExtentLocation → ℕ
  count_compatible_devices [] loc = 0
  count_compatible_devices (d ∷ ds) loc =
      let rest = count_compatible_devices ds loc in if is_compatible d loc then rest + 1 else rest

  unfoldable pub has_compatible_devices : List Device → ExtentLocation → Bool
  has_compatible_devices [] loc = false
  has_compatible_devices (d ∷ ds) loc =
      let rest = has_compatible_devices ds loc in if is_compatible d loc then true else rest

unfoldable pub lookup_host : Bytes → Hosts → Option HostCapabilities
lookup_host name [] = none
lookup_host name ((h, cap) ∷ hosts) = if str_eq name h then some cap else lookup_host name hosts

-- The body of the loop over the devices: a new host starts with no accessible extent.
unfoldable pub add_device : ℕ → Device → Hosts → Hosts
add_device ext_count d [] =
    (d.host, record { devices = d ∷ []; accessible_extents = replicate ext_count false }) ∷ []
add_device ext_count d ((h, cap) ∷ hosts) =
    if str_eq d.host h
    then (h, record cap { devices = cap.devices ++ d ∷ [] }) ∷ hosts
    else (h, cap) ∷ add_device ext_count d hosts

unfoldable pub add_devices : ℕ → List Device → Hosts → Hosts
add_devices ext_count [] hosts = hosts
add_devices ext_count (d ∷ ds) hosts = add_devices ext_count ds (add_device ext_count d hosts)

unfoldable pub setup_available_hosts : List Device → ℕ → Bytes → Hosts
setup_available_hosts devices ext_count focus_host =
    add_devices ext_count devices
      ((focus_host, record { devices = []; accessible_extents = replicate ext_count false }) ∷ [])

-- `host->accessible_extents[i] = b` at the host of that name.
unfoldable pub set_accessible : Bytes → ℕ → Bool → Hosts → Hosts
set_accessible name i b [] = []
set_accessible name i b ((h, cap) ∷ hosts) =
    if str_eq name h
    then (h, record cap { accessible_extents = set cap.accessible_extents i b }) ∷ hosts
    else (h, cap) ∷ set_accessible name i b hosts

module _ (compat : Compat) where
  unfoldable pub set_accessible_all : ℕ → ExtentLocation → Hosts → Hosts
  set_accessible_all i loc [] = []
  set_accessible_all i loc ((h, cap) ∷ hosts) =
      (
        h,
        record cap {
          accessible_extents =
              set cap.accessible_extents i (has_compatible_devices compat cap.devices loc);
        },
      )
      ∷ set_accessible_all i loc hosts

  -- The loop over the extents from the `i`-th on; `none` is the failed assertion that the host of
  -- a lock is known.
  unfoldable pub set_host_extent_accessibility :
      ℕ → List (Option ExtentLocation) → Hosts → Option Hosts
  set_host_extent_accessibility i [] hosts = some hosts
  set_host_extent_accessibility i (none ∷ locs) hosts =
      set_host_extent_accessibility (i + 1) locs hosts
  set_host_extent_accessibility i (some loc ∷ locs) hosts = elim loc.hostname [
    | none ↦ set_host_extent_accessibility (i + 1) locs (set_accessible_all i loc hosts)
    | some name ↦ elim (lookup_host name hosts) [
      | none ↦ none
      | some cap ↦ set_host_extent_accessibility (i + 1) locs (
          if has_compatible_devices compat cap.devices loc
          then set_accessible name i true hosts
          else hosts)
    ]
  ]

-- `host->accessible_extents[i]`
abbrev pub can_access : HostCapabilities → ℕ → Bool
can_access cap i = elim (get_elem? cap.accessible_extents i) [ none ↦ false | some b ↦ b ]

unfoldable pub some_host_can_access : Hosts → ℕ → Bool
some_host_can_access [] i = false
some_host_can_access ((h, cap) ∷ hosts) i =
    let rest = some_host_can_access hosts i in if can_access cap i then true else rest

-- The loop over the extents from the `i`-th on.
unfoldable pub filter_inaccessible_extents :
    Hosts → ℕ → List (Option ExtentLocation) → List (Option ExtentLocation)
filter_inaccessible_extents hosts i [] = []
filter_inaccessible_extents hosts i (none ∷ locs) =
    none ∷ filter_inaccessible_extents hosts (i + 1) locs
filter_inaccessible_extents hosts i (some loc ∷ locs) =
    (if some_host_can_access hosts i then some loc else none)
    ∷ filter_inaccessible_extents hosts (i + 1) locs
