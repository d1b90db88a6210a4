-- ===== src/Lrs/IoSched/Share/Fair.antt =====
-- The numbers of devices that src/lrs/io_schedulers/device_dispatch_algorithms.c computes for three
-- devices or more, and the end of its loops.
use phobos.Base.{
  ℕ, zero, suc, ◌+◌, ◌≡◌, ◌≤◌, ◌<◌, refl, sym, ◌∙◌, ◌⊎◌, true, false, not, ◌&&◌, some, arith, ltb,
  ◌==◌, inl, inr, Bool-cases,
}
use phobos.Lrs.IoSched.{read, write, format, ByType, at, put, at-put, total-put}
use phobos.Lrs.IoSched.Share.{
  Doubles, Range, is_maxed, max_reached, all_maxed, sum, min_devices, shrink, Weights,
  io_sched_compute_scheduler_weights, compute_device_repartition, increase_loop,
  increment_least_favored_scheduler, compute_number_of_devices,
}
use phobos.Lrs.IoSched.Share.Laws.{Laws}
use phobos.Lrs.IoSched.Share.Increment.{at-max_reached, increment_least_favored_scheduler-chosen}
use phobos.Lrs.IoSched.Share.Decrease.{
  Ordered, IsWithin, AllWithin, clamp-IsWithin, decrease_loop-AllWithin, shrink-room,
  shrink-Ordered,
}

unused : (r : Range) (requests nb : ℕ) → IsWithin r requests nb → requests ≡ 0 → nb ≡ 0
unused r requests nb (inl (a, b)) z = b
unused r requests nb (inr (a, b, c)) z = absurd (omega arith)

raised :
    (r : Range) (requests nb : ℕ)
    → IsWithin r requests nb
    → is_maxed nb r requests ≡ false
    → IsWithin r requests (nb + 1)
raised r requests nb (inl (a, b)) h = absurd (ground arith)
raised r requests nb (inr (a, b, c)) h = inr (a, omega arith, ground arith)

first-AllWithin :
    (D : Doubles) (w : Weights D) (stats : ByType ℕ) (ranges : ByType Range) (nb : ℕ)
    → Ordered ranges
    → AllWithin ranges stats (compute_device_repartition D w stats ranges nb)
unfolding compute_device_repartition
first-AllWithin D w stats ranges nb o read = clamp-IsWithin _ _ _ (o read)
first-AllWithin D w stats ranges nb o write = clamp-IsWithin _ _ _ (o write)
first-AllWithin D w stats ranges nb o format = clamp-IsWithin _ _ _ (o format)

module _ (D : Doubles) (laws : Laws D) (ranges : ByType Range) (stats : ByType ℕ) (nb : ℕ) where
  ended :
      (rep : ByType ℕ)
      → sum rep ≤ nb
      → (ltb (sum rep) nb && not (all_maxed (max_reached stats rep ranges))) ≡ false
      → (sum rep ≡ nb) ⊎ (all_maxed (max_reached stats rep ranges) ≡ true)
  ended rep h stop = elim (Bool-cases (all_maxed (max_reached stats rep ranges))) [
    | inl full ↦ inr full
    | inr free ↦ inl (ground (arith, stop, free))
  ]

  increased :
      (rep : ByType ℕ)
      → (sum stats == 0) ≡ false
      → AllWithin ranges stats rep
      → (ltb (sum rep) nb && not (all_maxed (max_reached stats rep ranges))) ≡ true
      → (next : ByType ℕ) × (increment_least_favored_scheduler D ranges
            (io_sched_compute_scheduler_weights D stats)
            stats
            rep
            nb
          ≡ some next)
        × AllWithin ranges stats next
        × (sum next ≡ sum rep + 1)
  increased rep s w more =
      let (k, call, free) =
        increment_least_favored_scheduler-chosen D laws ranges stats rep nb (ground arith) s
          (λ j z. unused (at ranges j) (at stats j) (at rep j) (w j) z) (ground arith) in
      (
        put rep k (at rep k + 1),
        call,
        at-put (λ j n. IsWithin (at ranges j) (at stats j) n) rep k _
            (raised (at ranges k) (at stats k) (at rep k) (w k)
              (sym (at-max_reached D laws ranges stats rep k) ∙ free))
            w,
        omega (arith, total-put (λ n. n) rep k (at rep k + 1)),
      )

  increase_loop-AllWithin :
      (n : ℕ) (rep : ByType ℕ)
      → (sum stats == 0) ≡ false
      → AllWithin ranges stats rep
      → sum rep ≤ nb
      → nb ≤ n + sum rep
      → (last : ByType ℕ) × (increase_loop D n nb ranges
            (io_sched_compute_scheduler_weights D stats)
            stats
            rep
          ≡ some last)
        × AllWithin ranges stats last
        × (sum last ≤ nb)
        × ((sum last ≡ nb) ⊎ (all_maxed (max_reached stats last ranges) ≡ true))
  unfolding increase_loop
  increase_loop-AllWithin zero rep s w h e =
      let stop : (ltb (sum rep) nb && not (all_maxed (max_reached stats rep ranges))) ≡ false =
        ground arith in
      rw (stop, increase_loop) (rep, refl, w, h, ended rep h stop)
  increase_loop-AllWithin (suc n) rep s w h e =
      elim (Bool-cases (ltb (sum rep) nb && not (all_maxed (max_reached stats rep ranges)))) [
        | inr stop ↦ rw (stop, increase_loop) (rep, refl, w, h, ended rep h stop)
        | inl more ↦
            let (next, step, v, one) = increased rep s w more in
            rw (more, step, increase_loop)
              (increase_loop-AllWithin n next s v (ground (arith, one)) (omega (arith, one)))
      ]

-- With three devices or more, and some request: the loops end and the assertion holds. Each
-- scheduler without requests gets no device, and each with requests gets a number in its range (the
-- range from 0 or 1 to the minimum, if there are not enough devices for the minima); together they
-- get at most as many devices as there are, and exactly as many unless all of them are full. The
-- minima must not be above the maxima; the floating-point arithmetic must have the laws stated.
pub compute_number_of_devices-AllWithin :
    (D : Doubles) (laws : Laws D) (stats : ByType ℕ) (ranges : ByType Range) (nb : ℕ)
    → 2 < nb
    → (sum stats == 0) ≡ false
    → Ordered ranges
    → (rep : ByType ℕ) × (compute_number_of_devices D stats
          (io_sched_compute_scheduler_weights D stats)
          ranges
          nb
          (min_devices stats ranges)
        ≡ some rep)
      × AllWithin (shrink nb (min_devices stats ranges) ranges) stats rep
      × (sum rep ≤ nb)
      × ((sum rep ≡ nb)
          ⊎ (all_maxed (max_reached stats rep (shrink nb (min_devices stats ranges) ranges))
              ≡ true))
unfolding compute_number_of_devices
compute_number_of_devices-AllWithin D laws stats ranges nb h s o =
    let used = shrink nb (min_devices stats ranges) ranges in
    let w = io_sched_compute_scheduler_weights D stats in
    let ordered = shrink-Ordered nb (min_devices stats ranges) ranges o in
    let first = compute_device_repartition D w stats used nb in
    let (kept, call, v, fits) =
      decrease_loop-AllWithin (sum first) nb used stats first
        (first-AllWithin D w stats used nb ordered) (shrink-room stats ranges nb h) (omega arith) in
    let (last, call2, v2, fits2, end) =
      increase_loop-AllWithin D laws used stats nb nb kept s v fits (omega arith) in
    let not_zero : (nb == 0) ≡ false = ground arith in
    let not_one : (nb == 1) ≡ false = ground arith in
    let not_two : (nb == 2) ≡ false = ground arith in
    (last, rw (compute_number_of_devices, not_zero, not_one, not_two, call) call2, v2, fits2, end)
