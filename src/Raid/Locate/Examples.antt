-- ===== src/Raid/Locate/Examples.antt =====
-- Runs of the locate over concrete hosts and locks, and an instance of each of its theorems.
use phobos.Base.{
  ℕ, zero, suc, ◌≡◌, refl, ap, sym, ◌⊎◌, ◌≢◌, inl, inr, true, List, [], ◌∷◌, Option, none, some,
  arith, if◌then◌else◌, Option-cases,
}
use phobos.Base.Results.{ok}
use phobos.StringArray.CString.{Bytes, str_eq}
use phobos.Types.{tape, PhoId, pho_id_equal}
use phobos.Raid.Locate.Splits.{count_range, EachSplit, short_split}
use phobos.Raid.Locate.Hosts.{
  Device, Extent, ExtentLocation, HostCapabilities, Hosts, lookup_host, add_device, add_devices,
  setup_available_hosts, set_accessible_all, set_host_extent_accessibility, some_host_can_access,
  filter_inaccessible_extents, has_compatible_devices, count_compatible_devices,
}
use phobos.Raid.Locate.Extents.{last_layout_idx, fill_slots, setup_extent_location, locate_slots}
use phobos.Raid.Locate.Choice.{
  can_read, filter_host_with_partial_access, count_locks, best_from, find_best_host, IsHost, Wins,
  nb_locks, find_best_host-Wins,
}
use phobos.Raid.Locate.Locks.{
  LockCode, locked, exists, LockCalls, cleanup_locks, after_lock, try_lock, lock_split,
  lock_extents, refresh_slots, reserve_locks,
}
use phobos.Raid.Locate.LockTable.{LockTable, slot_held}
use phobos.Raid.Locate.LockSound.{Current, reserve_locks-enough}
use phobos.Raid.Locate.Run.{Env, Located, candidates, choose_and_lock, locate_layout, raid_locate}
use phobos.Raid.Locate.Sound.{Leaves, raid_locate-Leaves}

-- The locks as a function from the names of the media to their hosts.
abbrev Owners : Type 0
Owners = Bytes → Option Bytes

abbrev set : Owners → PhoId → Option Bytes → Owners
set s m o k = if str_eq k m.name then o else s k

abbrev lock_free : Owners → PhoId → Bytes → Option Bytes → LockCode × Owners
lock_free s m h none = (locked, set s m (some h))
lock_free s m h (some owner) = (exists, s)

abbrev owner_calls : LockCalls
owner_calls = record {
  State = Owners;
  lock_weak = λ s m h. lock_free s m h (s m.name);
  unlock = λ s m. set s m none;
  refresh = λ s m. s;
}

granted_owner :
    (s s' : Owners) (m : PhoId) (h : Bytes)
    → lock_free s m h (s m.name) ≡ (locked, s')
    → (s m.name ≡ none) × ((k : Bytes) → s' k ≡ (if str_eq k m.name then some h else s k))
granted_owner s s' m h e = elim (Option-cases (s m.name)) [
  | inl f ↦
      let q : (locked, set s m (some h)) ≡ (locked, s') = rw f at e in
      (f, λ k. ap (λ p. p.1 k) (sym q))
  | inr (o, f) ↦ absurd (let q : (exists, s) ≡ (locked, s') = rw f at e in ground arith)
]

refused_owner :
    (s s' : Owners) (m : PhoId) (h : Bytes) (c : LockCode)
    → lock_free s m h (s m.name) ≡ (c, s')
    → c ≢ locked
    → (k : Bytes) → s' k ≡ s k
refused_owner s s' m h c e n k = elim (Option-cases (s m.name)) [
  | inl f ↦
      let q : (locked, set s m (some h)) ≡ (c, s') = rw f at e in absurd (n (ap (λ p. p.0) (sym q)))
  | inr (o, f) ↦ let q : (exists, s) ≡ (c, s') = rw f at e in ap (λ p. p.1 k) (sym q)
]

abbrev owner_table : LockTable owner_calls
owner_table = record {
  id_of = λ m. m.name;
  holder = λ s. s;
  freeable = λ s m. true;
  granted =
      λ s s' m h e. ((granted_owner s s' m h e).0, refl, (granted_owner s s' m h e).1, λ n. refl);
  refused = λ s s' m h c e n. (refused_owner s s' m h c e n, λ n. refl);
  freed = λ s m e. ((λ k. refl), λ n. refl);
  refreshed = λ s m. ((λ k. refl), λ n. refl);
}

abbrev medium_id : ℕ → PhoId
medium_id n = record { family = tape; name = n ∷ []; library = 9 ∷ [] }

abbrev mirror : List Extent
mirror =
    record { layout_idx = 0; media = medium_id 1 }
    ∷ record { layout_idx = 1; media = medium_id 2 }
    ∷ []

-- Host 5 has a drive, and host 6 asks.
abbrev drives : List Device
drives = record { host = 5 ∷ []; library = 9 ∷ []; model = none } ∷ []

abbrev env : Env
env = record {
  calls = owner_calls;
  usable_devices = λ f. ok drives;
  medium_locate = λ m. some (none, record { id = m; model = 3 ∷ [] });
  compat = λ t d. some true;
  self_hostname = none;
  order = λ hosts. hosts;
}

abbrev nobody : Owners
nobody m = none

abbrev located : Located
located = record { hostname = 5 ∷ []; nb_new_locks = 1 }

locates : (raid_locate env 1 1 mirror (some (6 ∷ [])) nobody).0 ≡ ok located
unfolding raid_locate locate_layout candidates choose_and_lock setup_extent_location last_layout_idx
    fill_slots locate_slots setup_available_hosts add_devices add_device
    set_host_extent_accessibility set_accessible_all has_compatible_devices
    filter_inaccessible_extents some_host_can_access filter_host_with_partial_access short_split
    count_range can_read count_compatible_devices find_best_host best_from count_locks lookup_host
    reserve_locks lock_extents refresh_slots lock_split try_lock after_lock str_eq pho_id_equal
locates = refl

raid_locate-Leaves_example :
    Leaves env owner_table 1 1 nobody (raid_locate env 1 1 mirror (some (6 ∷ [])) nobody)
raid_locate-Leaves_example = raid_locate-Leaves env owner_table 1 1 mirror (some (6 ∷ [])) nobody

locates_layout :
    locate_layout env 1 1 mirror (6 ∷ []) nobody
    ≡ (ok located, (locate_layout env 1 1 mirror (6 ∷ []) nobody).1)
unfolding locate_layout candidates choose_and_lock setup_extent_location last_layout_idx fill_slots
    locate_slots setup_available_hosts add_devices add_device set_host_extent_accessibility
    set_accessible_all has_compatible_devices filter_inaccessible_extents some_host_can_access
    filter_host_with_partial_access short_split count_range can_read count_compatible_devices
    find_best_host best_from count_locks lookup_host reserve_locks lock_extents refresh_slots
    lock_split try_lock after_lock str_eq pho_id_equal
locates_layout = refl

-- The extents of the mirror, the first locked by `first`.
abbrev locs_of : Option Bytes → List (Option ExtentLocation)
locs_of first =
    some (record {
      extent = record { layout_idx = 0; media = medium_id 1 };
      medium = record { id = medium_id 1; model = 3 ∷ [] };
      hostname = first;
    })
    ∷ some (record {
      extent = record { layout_idx = 1; media = medium_id 2 };
      medium = record { id = medium_id 2; model = 3 ∷ [] };
      hostname = none;
    })
    ∷ []

abbrev reader : HostCapabilities
reader = record { devices = drives; accessible_extents = true ∷ true ∷ [] }

-- Host 7 has locked the second medium meanwhile.
abbrev second_taken : Owners
second_taken k = if str_eq k (2 ∷ []) then some (7 ∷ []) else none

abbrev first_own : Owners
first_own k = if str_eq k (1 ∷ []) then some (5 ∷ []) else none

abbrev reserve : Option Bytes → Owners → Option (List PhoId) × Owners
reserve first = reserve_locks owner_calls env.compat (locs_of first) 2 2 (5 ∷ []) reader

second_refused : reserve none second_taken ≡ (none, (reserve none second_taken).1)
unfolding reserve_locks lock_extents refresh_slots count_range lock_split try_lock after_lock str_eq
    pho_id_equal has_compatible_devices cleanup_locks
second_refused = refl

second_reserved :
    reserve (some (5 ∷ [])) first_own
    ≡ (some (medium_id 2 ∷ []), (reserve (some (5 ∷ [])) first_own).1)
unfolding reserve_locks lock_extents refresh_slots count_range lock_split try_lock after_lock str_eq
    pho_id_equal has_compatible_devices
second_reserved = refl

first-Current :
    Current owner_calls owner_table
      (5 ∷ [])
      env.compat
      (locs_of (some (5 ∷ [])))
      2
      2
      reader
      first_own
unfolding str_eq pho_id_equal
first-Current zero e = refl
first-Current (suc zero) e = absurd (ground arith)
first-Current (suc (suc i)) e = absurd (ground arith)

reserve_locks-enough_example :
    EachSplit 2 2
      (slot_held owner_calls owner_table
        (5 ∷ [])
        env.compat
        (locs_of (some (5 ∷ [])))
        2
        2
        reader
        (reserve (some (5 ∷ [])) first_own).1)
      1
reserve_locks-enough_example =
    reserve_locks-enough owner_calls owner_table (5 ∷ []) env.compat (locs_of (some (5 ∷ []))) 2 2
      reader first_own (reserve (some (5 ∷ [])) first_own).1 (medium_id 2 ∷ []) first-Current
      second_reserved

abbrev hosts : Hosts
hosts = (5 ∷ [], reader) ∷ (6 ∷ [], record { devices = []; accessible_extents = [] }) ∷ []

find_best_host-Wins_example :
    (hosts ≡ []) × (find_best_host (locs_of none) 1 2 (6 ∷ []) hosts ≡ none)
    ⊎ ((name : Bytes) × (find_best_host (locs_of none) 1 2 (6 ∷ []) hosts ≡ some name)
        × IsHost name hosts
        × Wins (locs_of none) 1 2 (6 ∷ []) name (nb_locks (locs_of none) 1 2 name) hosts)
find_best_host-Wins_example = find_best_host-Wins (locs_of none) 1 2 (6 ∷ []) hosts
