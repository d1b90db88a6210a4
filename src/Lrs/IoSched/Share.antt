-- ===== src/Lrs/IoSched/Share.antt =====
-- How many devices each scheduler is to have: src/lrs/io_schedulers/device_dispatch_algorithms.c, and
-- io_sched_compute_scheduler_weights of src/lrs/io_sched.c. The arithmetic of `double` is a
-- parameter.
pub mod Laws
mod Spread
mod Lowered
pub mod Increment
pub mod Decrease
pub mod Fair
use phobos.Base.{
  ℕ, zero, suc, ◌+◌, ◌-◌, Bool, true, false, not, ◌&&◌, ◌||◌, Option, none, some, ltb, ◌==◌,
  if◌then◌else◌,
}
use phobos.Lrs.IoSched.{IoType, read, write, format, ByType, at, put}
use phobos.Lrs.IoSched.Devices.{bit}

-- What the source uses of `double`. `floor_mul w n` is floor(w * n) of a weight between 0 and 1.
pub record Doubles : Type 1 where
  pub F : Type 0
  pub of_size : ℕ → F
  pub add : F → F → F
  pub sub : F → F → F
  pub div : F → F → F
  pub lt : F → F → Bool
  pub floor_mul : F → ℕ → ℕ

pub record Range : Type 0 where
  pub low : ℕ
  pub high : ℕ

-- The macros min, max and clamp, on numbers.
abbrev pub macro_min : ℕ → ℕ → ℕ
macro_min a b = if ltb a b then a else b

abbrev pub macro_max : ℕ → ℕ → ℕ
macro_max a b = if ltb b a then a else b

abbrev pub clamp : ℕ → Range → ℕ
clamp a r = macro_min (macro_max a r.low) r.high

abbrev pub sum : ByType ℕ → ℕ
sum n = n.reads + n.writes + n.formats

unfoldable pub device_repartition_total : ByType ℕ → ℕ
device_repartition_total rep = sum rep

abbrev pub is_maxed : ℕ → Range → ℕ → Bool
is_maxed nb range requests = nb == range.high || requests == 0

-- The bits of the schedulers that have reached their maximum, or have no request.
unfoldable pub max_reached : ByType ℕ → ByType ℕ → ByType Range → ByType Bool
max_reached stats rep ranges = record {
  reads = is_maxed rep.reads ranges.reads stats.reads;
  writes = is_maxed rep.writes ranges.writes stats.writes;
  formats = is_maxed rep.formats ranges.formats stats.formats;
}

unfoldable pub count_not_maxed_schedulers : ByType Bool → ℕ
count_not_maxed_schedulers maxed =
    bit (not maxed.reads) + bit (not maxed.writes) + bit (not maxed.formats)

abbrev pub all_maxed : ByType Bool → Bool
all_maxed maxed = maxed.reads && maxed.writes && maxed.formats

-- The sum of the minima of the schedulers with requests.
unfoldable pub min_devices : ByType ℕ → ByType Range → ℕ
min_devices stats ranges =
    (if ltb 0 stats.reads then ranges.reads.low else 0)
    + (if ltb 0 stats.writes then ranges.writes.low else 0)
    + (if ltb 0 stats.formats then ranges.formats.low else 0)

abbrev pub shrink_range : Range → Range
shrink_range r = record { low = macro_min 1 r.low; high = r.low }

-- The ranges in use when there are not enough devices for the minima.
unfoldable pub shrink : ℕ → ℕ → ByType Range → ByType Range
shrink nb_devices min_needed ranges =
    if ltb nb_devices min_needed && ltb 2 nb_devices
    then record {
      reads = shrink_range ranges.reads;
      writes = shrink_range ranges.writes;
      formats = shrink_range ranges.formats;
    }
    else ranges

-- A pass of the loop that takes devices back; none, if it changes nothing and so never ends.
unfoldable pub decrease : ByType Range → ByType ℕ → Option (ByType ℕ)
decrease ranges rep =
    if ltb ranges.reads.low rep.reads
    then some (record rep { reads = rep.reads - 1 })
    else if ltb ranges.writes.low rep.writes
    then some (record rep { writes = rep.writes - 1 })
    else if ltb ranges.formats.low rep.formats
    then some (record rep { formats = rep.formats - 1 })
    else none

-- The loop, on the passes left; none, if these do not suffice.
unfoldable pub decrease_loop : ℕ → ℕ → ByType Range → ByType ℕ → Option (ByType ℕ)
decrease_loop zero nb ranges rep = if ltb nb (device_repartition_total rep) then none else some rep
decrease_loop (suc n) nb ranges rep =
    if ltb nb (device_repartition_total rep)
    then elim (decrease ranges rep) [ none ↦ none | some next ↦ decrease_loop n nb ranges next ]
    else some rep

module _ (D : Doubles) where
  abbrev pub Weights : Type 0
  Weights = ByType D.F

  unfoldable pub io_sched_compute_scheduler_weights : ByType ℕ → Weights
  io_sched_compute_scheduler_weights stats =
      let third = D.div (D.of_size 1) (D.of_size 3) in
      if sum stats == 0 then record { reads = third; writes = third; formats = third } else record {
        reads = D.div (D.of_size stats.reads) (D.of_size (sum stats));
        writes = D.div (D.of_size stats.writes) (D.of_size (sum stats));
        formats = D.div (D.of_size stats.formats) (D.of_size (sum stats));
      }

  unfoldable pub compute_weight_diff : D.F → ℕ → ℕ → D.F
  compute_weight_diff weight nb total = D.sub (D.div (D.of_size nb) (D.of_size total)) weight

  unfoldable pub set_heaviest_scheduler_devices_to_2 :
      ByType Range → ByType ℕ → Weights → ByType ℕ → ByType ℕ
  set_heaviest_scheduler_devices_to_2 ranges stats w rep =
      let maxed = max_reached stats rep ranges in
      if D.lt w.writes w.reads
      then if not maxed.reads && D.lt w.formats w.reads
        then record rep { reads = 2 }
        else if not maxed.formats && D.lt w.writes w.formats
        then record rep { formats = 2 }
        else if not maxed.writes
        then record rep { writes = 2 }
        else rep
      else if not maxed.writes && D.lt w.formats w.writes
      then record rep { writes = 2 }
      else if not maxed.formats && D.lt w.writes w.formats
      then record rep { formats = 2 }
      else if not maxed.reads
      then record rep { reads = 2 }
      else rep

  abbrev pub negative : D.F → Bool
  negative x = D.lt x (D.of_size 0)

  -- The scheduler of type `k` takes its share of a remaining weight.
  abbrev pub take_share : ByType Bool → ByType ℕ → D.F → IoType → ByType D.F → ByType D.F
  take_share maxed stats weight k diffs =
      if not (at maxed k) && ltb 0 (at stats k)
      then put diffs k
          (D.add (at diffs k) (D.div weight (D.of_size (count_not_maxed_schedulers maxed))))
      else diffs

  -- A scheduler that is full leaves its weight to the two others.
  unfoldable pub redistribute :
      ByType Bool → ByType ℕ → IoType → IoType → IoType → ByType D.F → ByType D.F
  redistribute maxed stats k a b diffs =
      if at maxed k && ltb 0 (at stats k)
      then put
          (if negative (at diffs k)
            then take_share maxed stats (at diffs k) b (take_share maxed stats (at diffs k) a diffs)
            else diffs)
          k (D.of_size 0)
      else diffs

  abbrev pub double_max : D.F → D.F → D.F
  double_max a b = if D.lt b a then a else b

  abbrev pub lower : ByType Bool → ByType ℕ → D.F → IoType → ByType D.F → ByType D.F
  lower maxed stats m k diffs =
      if not (at maxed k) && ltb 0 (at stats k) then put diffs k (D.sub (at diffs k) m) else diffs

  abbrev pub lower_by : ByType Bool → ByType ℕ → D.F → ByType D.F → ByType D.F
  lower_by maxed stats m diffs =
      lower maxed stats m format (lower maxed stats m write (lower maxed stats m read diffs))

  -- When no difference is negative.
  unfoldable pub lower_all : ByType Bool → ByType ℕ → ByType D.F → ByType D.F
  lower_all maxed stats diffs =
      if not (negative diffs.reads) && not (negative diffs.writes) && not (negative diffs.formats)
      then lower_by maxed stats
          (D.add (double_max (double_max diffs.reads diffs.writes) diffs.formats) (D.of_size 1))
          diffs
      else diffs

  -- The scheduler with the lowest negative difference; none is the failed assertion.
  unfoldable pub least_favored : ByType D.F → Option IoType
  least_favored d =
      if negative d.reads && D.lt d.reads d.writes
      then if D.lt d.reads d.formats then some read else some format
      else if negative d.writes
      then if D.lt d.writes d.formats then some write else some format
      else if negative d.formats
      then some format
      else none

  unfoldable pub weight_diffs : Weights → ByType ℕ → ℕ → ByType D.F
  weight_diffs w rep nb_devices = record {
    reads = compute_weight_diff w.reads rep.reads nb_devices;
    writes = compute_weight_diff w.writes rep.writes nb_devices;
    formats = compute_weight_diff w.formats rep.formats nb_devices;
  }

  unfoldable pub final_diffs : ByType Bool → ByType ℕ → ByType D.F → ByType D.F
  final_diffs maxed stats diffs = lower_all maxed stats (
      redistribute maxed stats format read write (
        redistribute maxed stats write read format
          (redistribute maxed stats read write format diffs)))

  unfoldable pub increment_least_favored_scheduler :
      ByType Range → Weights → ByType ℕ → ByType ℕ → ℕ → Option (ByType ℕ)
  increment_least_favored_scheduler ranges w stats rep nb_devices =
      elim (least_favored
        (final_diffs (max_reached stats rep ranges) stats (weight_diffs w rep nb_devices))) [
          | none ↦ none
          | some k ↦ some (put rep k (at rep k + 1))
        ]

  abbrev pub first_share : ℕ → D.F → Range → ℕ → ℕ
  first_share requests weight range total =
      if ltb 0 requests then clamp (D.floor_mul weight total) range else 0

  unfoldable pub compute_device_repartition : Weights → ByType ℕ → ByType Range → ℕ → ByType ℕ
  compute_device_repartition w stats ranges total = record {
    reads = first_share stats.reads w.reads ranges.reads total;
    writes = first_share stats.writes w.writes ranges.writes total;
    formats = first_share stats.formats w.formats ranges.formats total;
  }

  -- The loop that gives devices, on the passes left; none, if these do not suffice.
  unfoldable pub increase_loop :
      ℕ → ℕ → ByType Range → Weights → ByType ℕ → ByType ℕ → Option (ByType ℕ)
  increase_loop zero nb ranges w stats rep =
      if ltb (sum rep) nb && not (all_maxed (max_reached stats rep ranges)) then none else some rep
  increase_loop (suc n) nb ranges w stats rep =
      if ltb (sum rep) nb && not (all_maxed (max_reached stats rep ranges))
      then elim (increment_least_favored_scheduler ranges w stats rep nb) [
        | none ↦ none
        | some next ↦ increase_loop n nb ranges w stats next
      ]
      else some rep

  abbrev pub one_each : ℕ → Range → ℕ
  one_each requests range = if ltb 0 requests then clamp 1 range else 0

  unfoldable pub compute_number_of_devices :
      ByType ℕ → Weights → ByType Range → ℕ → ℕ → Option (ByType ℕ)
  compute_number_of_devices stats w ranges0 nb_devices min_needed =
      let ranges = shrink nb_devices min_needed ranges0 in
      let ones : ByType ℕ = record {
        reads = one_each stats.reads ranges.reads;
        writes = one_each stats.writes ranges.writes;
        formats = one_each stats.formats ranges.formats;
      } in
      let rep = compute_device_repartition w stats ranges nb_devices in
      if nb_devices == 0
      then some (record { reads = 0; writes = 0; formats = 0 })
      else if nb_devices == 1
      then some ones
      else if nb_devices == 2
      then some (set_heaviest_scheduler_devices_to_2 ranges stats w ones)
      else elim (decrease_loop (sum rep) nb_devices ranges rep) [
        | none ↦ none
        | some kept ↦ increase_loop nb_devices nb_devices ranges w stats kept
      ]
