-- ===== src/Lrs/IoSched/FairShare.antt =====
-- The dispatch of the devices of one technology by the number of requests:
-- fair_share_number_of_requests_one_techno of src/lrs/io_schedulers/device_dispatch_algorithms.c.
use phobos.Base.{
  ℕ, ◌+◌, ◌-◌, ◌≡◌, ◌≤◌, ◌<◌, refl, false, ◌||◌, List, none, some, arith, ◌==◌, if◌then◌else◌,
  length, Bool-cases, inl, inr,
}
use phobos.Base.Results.{Result, ok, abort, ◌>>=◌}
use phobos.StringArray.CString.{Bytes}
use phobos.Lrs.IoSched.{IoType, read, write, format, ByType, at}
use phobos.Lrs.IoSched.Devices.{Fixed, Owners}
use phobos.Lrs.IoSched.Devices.Owned.{Owns}
use phobos.Lrs.IoSched.Dispatch.{
  Moving, Repartition, fetch_devices_to_give, dispatch_devices, dispatch_shared_devices,
}
use phobos.Lrs.IoSched.Dispatch.Take.{Held}
use phobos.Lrs.IoSched.Dispatch.Moved.{
  IsListed, counts, fetch_devices_to_give-Fetched, dispatch_devices-counted,
}
use phobos.Lrs.IoSched.Dispatch.Listed.{each_type}
use phobos.Lrs.IoSched.Share.{
  Doubles, Range, sum, min_devices, shrink, io_sched_compute_scheduler_weights,
  compute_number_of_devices,
}
use phobos.Lrs.IoSched.Share.Laws.{Laws}
use phobos.Lrs.IoSched.Share.Decrease.{Ordered, AllWithin}
use phobos.Lrs.IoSched.Share.Fair.{compute_number_of_devices-AllWithin}

module _ (fixed : Fixed) (techno : Bytes) where
  -- The devices of a repartition, shared when there are one or two of them.
  unfoldable pub move_devices : List ℕ → Repartition → Moving → Result Owners
  move_devices ds rep m =
      if length m.to_give == 0
      then ok m.owners
      else if length ds == 1 || length ds == 2
      then ok (
          dispatch_shared_devices fixed techno format rep.formats m.to_give (
            dispatch_shared_devices fixed techno write rep.writes m.to_give
              (dispatch_shared_devices fixed techno read rep.reads m.to_give m.owners)))
      else (dispatch_devices fixed techno rep m >>= λ g. ok g.owners)

  unfoldable pub fair_share_number_of_requests_one_techno :
      Doubles → ByType ℕ → ByType Range → List ℕ → Owners → Result Owners
  fair_share_number_of_requests_one_techno D stats ranges ds s =
      if sum stats == 0
      then ok s
      else elim (compute_number_of_devices D stats (io_sched_compute_scheduler_weights D stats)
          ranges (length ds) (min_devices stats ranges)) [
            | none ↦ abort
            | some rep ↦ fetch_devices_to_give fixed techno ds rep s >>= move_devices ds rep
          ]

  -- Where the schedulers have as many devices as a repartition says, each with one owner at most.
  abbrev pub Settled : Repartition → Owners → Type 0
  Settled rep g = Owns g × ((k : IoType) → counts fixed techno g k ≡ at rep k)

  Held-Owns : (m : Moving) → Held m → Owns m.owners
  Held-Owns m v = λ d. ((v d).0, omega (arith, (v d).1))

  -- Nothing is left to give only when each scheduler has its number.
  counted_out :
      (n cr cw cf r w f : ℕ)
      → cr + cw + cf ≡ n
      → cr ≤ r
      → cw ≤ w
      → cf ≤ f
      → r + w + f ≤ n
      → (cr ≡ r) × (cw ≡ w) × (cf ≡ f)
  counted_out n cr cw cf r w f e a b c h = (omega arith, omega arith, omega arith)

  kept_le : (c c' r : ℕ) → c' ≡ c - (c - r) → c' ≤ r
  kept_le c c' r e = omega arith

  move_devices-Settled :
      (ds : List ℕ) (rep : Repartition) (s : Owners)
      → 2 < length ds
      → Owns s
      → IsListed fixed techno ds s
      → sum rep ≤ length ds
      → (g : Owners) × ((fetch_devices_to_give fixed techno ds rep s >>= move_devices ds rep)
          ≡ ok g)
        × Settled rep g
  unfolding move_devices
  move_devices-Settled ds rep s many v l h =
      let (m, call, f) = fetch_devices_to_give-Fetched fixed techno ds rep s v l in
      elim (Bool-cases (length m.to_give == 0)) [
        | inl none_left ↦
            let (r, w, q) =
              counted_out (length ds) _ _ _ _ _ _ (ground (arith, f.given, none_left))
                (kept_le _ _ _ (f.counted read)) (kept_le _ _ _ (f.counted write))
                (kept_le _ _ _ (f.counted format)) h in
            rw (call, none_left, move_devices)
              (
                m.owners,
                refl,
                (
                  Held-Owns m f.held,
                  each_type (λ k. counts fixed techno m.owners k ≡ at rep k) r w q,
                ),
              )
        | inr some_left ↦
            let (g, moved, held, counted, left) =
              dispatch_devices-counted fixed techno ds rep s v l h in
            let given : dispatch_devices fixed techno rep m ≡ ok g = rw call at moved in
            let unshared : (length ds == 1 || length ds == 2) ≡ false = ground arith in
            rw (call, some_left, unshared, move_devices, given)
              (g.owners, refl, (Held-Owns g held, counted))
      ]

  -- With three devices of the technology or more, and some request, from schedulers that share no
  -- device: the computation of the shares gives a number of devices for each scheduler, in its range
  -- and none without requests; the dispatch always ends well, and after it each scheduler has
  -- exactly the computed number of devices of the technology; and each device is in the
  -- list of the scheduler whose bit it has, and in that one only. The minima must not be above the
  -- maxima, the list must have each device of the technology once, and the floating-point
  -- arithmetic must have the laws stated.
  pub fair_share_number_of_requests_one_techno-Settled :
      (D : Doubles) (laws : Laws D) (stats : ByType ℕ) (ranges : ByType Range) (ds : List ℕ)
      (s : Owners)
      → 2 < length ds
      → (sum stats == 0) ≡ false
      → Ordered ranges
      → Owns s
      → IsListed fixed techno ds s
      → (g : Owners) × (rep : Repartition) × (fair_share_number_of_requests_one_techno D stats
            ranges ds s
          ≡ ok g)
        × (compute_number_of_devices D stats
              (io_sched_compute_scheduler_weights D stats)
              ranges
              (length ds)
              (min_devices stats ranges)
            ≡ some rep)
        × AllWithin (shrink (length ds) (min_devices stats ranges) ranges) stats rep
        × Settled rep g
  unfolding fair_share_number_of_requests_one_techno
  fair_share_number_of_requests_one_techno-Settled D laws stats ranges ds s many busy o v l =
      let (rep, shares, within, fits, _) =
        compute_number_of_devices-AllWithin D laws stats ranges (length ds) many busy o in
      let (g, call, settled) = move_devices-Settled ds rep s many v l fits in
      (
        g,
        rep,
        rw (busy, shares, fair_share_number_of_requests_one_techno) call,
        shares,
        within,
        settled,
      )
