-- ===== src/Lrs/IoSched/Dispatch.antt =====
-- The dispatch of devices to the schedulers: src/lrs/io_schedulers/device_dispatch_algorithms.c, and
-- io_sched_count_device_per_techno of src/lrs/io_sched.c.
pub mod Take
pub mod Give
pub mod Listed
pub mod Moved
use phobos.Base.{
  ℕ, zero, suc, ◌+◌, ◌-◌, Bool, true, false, not, ◌&&◌, ◌||◌, List, [], ◌∷◌, ◌++◌, Option, none,
  some, ltb, leb, ◌==◌, if◌then◌else◌, length,
}
use phobos.Base.Results.{Result, ok, err, abort, ◌>>=◌, enodev}
use phobos.StringArray.CString.{Bytes}
use phobos.Lrs.IoSched.{IoType, read, write, format, ByType, at, put}
use phobos.Lrs.IoSched.Devices.{
  Fixed, Owners, popcount, set_types, is_device_shared_between_schedulers, gptr_array_contains,
  fifo_add_device, of_techno, take_techno, io_sched_claim_device,
}

-- The owners of the devices, with the list `devices_to_give`.
pub record Moving : Type 0 where
  pub owners : Owners
  pub to_give : List ℕ

-- The new numbers of devices of the schedulers.
abbrev pub Repartition : Type 0
Repartition = ByType ℕ

abbrev pub all_types : ByType Bool
all_types = record { reads = true; writes = true; formats = true }

unfoldable pub io_scheduler_no_dispatch : IoType → List ℕ → Owners → Owners
io_scheduler_no_dispatch k [] s = s
io_scheduler_no_dispatch k (d ∷ ds) s = io_scheduler_no_dispatch k ds (record {
  devices = put s.devices k (fifo_add_device (at s.devices k) d);
  ld_io_request_type = set_types d all_types s.ld_io_request_type;
})

unfoldable pub no_dispatch : List ℕ → Owners → Owners
no_dispatch ds s =
    io_scheduler_no_dispatch format ds
      (io_scheduler_no_dispatch write ds (io_scheduler_no_dispatch read ds s))

-- A device that was taken from the scheduler of type `k`.
unfoldable pub add_taken : IoType → ℕ → Moving → Moving
add_taken k d m =
    let shared = is_device_shared_between_schedulers (m.owners.ld_io_request_type d) in
    if not shared || (shared && not (gptr_array_contains m.to_give d))
    then record {
      owners = record m.owners {
        ld_io_request_type =
            set_types d (put (m.owners.ld_io_request_type d) k false) m.owners.ld_io_request_type;
      };
      to_give = m.to_give ++ d ∷ [];
    }
    else m

abbrev pub give_one : IoType → ℕ → Owners → Owners
give_one k d s = record {
  devices = put s.devices k (fifo_add_device (at s.devices k) d);
  ld_io_request_type = set_types d (put (s.ld_io_request_type d) k true) s.ld_io_request_type;
}

-- The devices of the list that no scheduler has.
unfoldable pub unowned : (ℕ → ByType Bool) → List ℕ → List ℕ
unowned types [] = []
unowned types (d ∷ ds) =
    let rest = unowned types ds in if popcount (types d) == 0 then d ∷ rest else rest

module _ (fixed : Fixed) (techno : Bytes) where
  unfoldable pub io_sched_count_device_per_techno : List ℕ → ℕ
  io_sched_count_device_per_techno [] = 0
  io_sched_count_device_per_techno (d ∷ ds) =
      let rest = io_sched_count_device_per_techno ds in
      if of_techno fixed techno d then suc rest else rest

  -- The loop takes `n` more devices.
  unfoldable pub take_loop : IoType → ℕ → Moving → Result Moving
  take_loop k zero m = ok m
  take_loop k (suc n) m = elim (io_sched_claim_device fixed k (take_techno techno) m.owners) [
    | ok (s, some d) ↦ take_loop k n (add_taken k d (record m { owners = s }))
    | ok (s, none) ↦ abort
    | err enodev ↦ ok m
    | err e ↦ err e
    | abort ↦ abort
  ]

  unfoldable pub take_devices : IoType → ℕ → Moving → Result Moving
  take_devices k target m =
      let current = io_sched_count_device_per_techno (at m.owners.devices k) in
      if leb current target then ok m else take_loop k (current - target) m

  -- The loop gives until the scheduler has `target` devices in all; an access to an empty list stops
  -- it.
  unfoldable pub give_loop : IoType → ℕ → List ℕ → Owners → Result Moving
  give_loop k target [] s =
      if ltb (length (at s.devices k)) target
      then abort
      else ok (record { owners = s; to_give = [] })
  give_loop k target (d ∷ ds) s =
      let rest = give_loop k target ds (give_one k d s) in
      if ltb (length (at s.devices k)) target
      then rest
      else ok (record { owners = s; to_give = d ∷ ds })

  unfoldable pub give_devices : IoType → ℕ → Moving → Result Moving
  give_devices k nb_devices m =
      let current = io_sched_count_device_per_techno (at m.owners.devices k) in
      if leb nb_devices current
      then ok m
      else if ltb (length m.to_give) (nb_devices - current)
      then abort
      else give_loop k (length (at m.owners.devices k) + (nb_devices - current)) m.to_give m.owners

  unfoldable pub fetch_devices_to_give : List ℕ → Repartition → Owners → Result Moving
  fetch_devices_to_give ds repartition s =
      take_devices read repartition.reads
        (record { owners = s; to_give = unowned s.ld_io_request_type ds })
      >>= take_devices write repartition.writes
      >>= take_devices format repartition.formats

  unfoldable pub dispatch_devices : Repartition → Moving → Result Moving
  dispatch_devices repartition m =
      give_devices read repartition.reads m
      >>= give_devices write repartition.writes
      >>= give_devices format repartition.formats

  -- The loop of a dispatch that shares the devices, with the current number.
  unfoldable pub shared_loop : IoType → ℕ → List ℕ → ℕ → Owners → Owners
  shared_loop k target [] current s = s
  shared_loop k target (d ∷ ds) current s =
      let more =
        if ltb (length (at s.devices k)) (length (at (give_one k d s).devices k))
        then suc current
        else current in
      let rest = shared_loop k target ds more (give_one k d s) in
      if ltb current target then rest else s

  unfoldable pub dispatch_shared_devices : IoType → ℕ → List ℕ → Owners → Owners
  dispatch_shared_devices k target ds s =
      shared_loop k target ds (io_sched_count_device_per_techno (at s.devices k)) s
