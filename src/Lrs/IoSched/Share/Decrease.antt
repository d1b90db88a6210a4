-- ===== src/Lrs/IoSched/Share/Decrease.antt =====
-- The first numbers of devices, and the loop that takes some back:
-- src/lrs/io_schedulers/device_dispatch_algorithms.c.
use phobos.Base.{
  ℕ, zero, suc, ◌+◌, ◌-◌, ◌≡◌, ◌≤◌, ◌<◌, refl, ◌⊎◌, true, false, ◌&&◌, some, arith, ltb,
  if◌then◌else◌, inl, inr, Bool-cases,
}
use phobos.Lrs.IoSched.{IoType, read, write, format, ByType, at, at-put}
use phobos.Lrs.IoSched.Share.{
  Range, clamp, sum, device_repartition_total, min_devices, shrink_range, shrink, decrease,
  decrease_loop,
}

-- A range whose minimum is not above its maximum.
abbrev pub Ordered : ByType Range → Type 0
Ordered ranges = (k : IoType) → (at ranges k).low ≤ (at ranges k).high

-- A scheduler without requests has no device, and one with requests has as many as its range allows.
abbrev pub IsWithin : Range → ℕ → ℕ → Type 0
IsWithin range requests nb =
    ((requests ≡ 0) × (nb ≡ 0)) ⊎ ((0 < requests) × (range.low ≤ nb) × (nb ≤ range.high))

abbrev pub AllWithin : ByType Range → ByType ℕ → ByType ℕ → Type 0
AllWithin ranges stats rep = (k : IoType) → IsWithin (at ranges k) (at stats k) (at rep k)

pub clamp-IsWithin :
    (a requests : ℕ) (r : Range)
    → r.low ≤ r.high
    → IsWithin r requests (if ltb 0 requests then clamp a r else 0)
clamp-IsWithin a requests r h = elim (Bool-cases (ltb 0 requests)) [
  | inl some_left ↦ rw some_left (inr (ground arith, ground arith, ground arith))
  | inr none_left ↦ rw none_left (inl (ground arith, refl))
]

pub lowered :
    (r : Range) (requests nb : ℕ)
    → IsWithin r requests nb
    → ltb r.low nb ≡ true
    → IsWithin r requests (nb - 1)
lowered r requests nb (inl (a, b)) h = inl (a, omega (arith, b))
lowered r requests nb (inr (a, b, c)) h = inr (a, ground arith, omega arith)

-- A pass of the first loop takes one device from a scheduler that is above its minimum.
pub at_low :
    (r : Range) (requests nb : ℕ)
    → IsWithin r requests nb
    → ltb r.low nb ≡ false
    → nb ≤ (if ltb 0 requests then r.low else 0)
at_low r requests nb (inl (a, b)) h = ground arith
at_low r requests nb (inr (a, b, c)) h = ground arith

pub all_low :
    (ranges : ByType Range) (stats rep : ByType ℕ)
    → AllWithin ranges stats rep
    → ltb ranges.reads.low rep.reads ≡ false
    → ltb ranges.writes.low rep.writes ≡ false
    → ltb ranges.formats.low rep.formats ≡ false
    → sum rep ≤ min_devices stats ranges
unfolding min_devices
all_low ranges stats rep w r q f = omega (
  arith,
  at_low ranges.reads stats.reads rep.reads (w read) r,
  at_low ranges.writes stats.writes rep.writes (w write) q,
  at_low ranges.formats stats.formats rep.formats (w format) f,
)

pub decrease-AllWithin :
    (ranges : ByType Range) (stats rep : ByType ℕ) (nb : ℕ)
    → AllWithin ranges stats rep
    → nb < sum rep
    → min_devices stats ranges ≤ nb
    → (next : ByType ℕ) × (decrease ranges rep ≡ some next)
      × AllWithin ranges stats next
      × (sum next + 1 ≡ sum rep)
unfolding decrease
decrease-AllWithin ranges stats rep nb w h room =
    elim (Bool-cases (ltb ranges.reads.low rep.reads)) [
      | inl r ↦
          rw (r, decrease)
            (
              _,
              refl,
              at-put (λ j n. IsWithin (at ranges j) (at stats j) n) rep read _
                  (lowered ranges.reads stats.reads rep.reads (w read) r) w,
              ground arith,
            )
      | inr r ↦ elim (Bool-cases (ltb ranges.writes.low rep.writes)) [
        | inl q ↦
            rw (r, q, decrease)
              (
                _,
                refl,
                at-put (λ j n. IsWithin (at ranges j) (at stats j) n) rep write _
                    (lowered ranges.writes stats.writes rep.writes (w write) q) w,
                ground arith,
              )
        | inr q ↦ elim (Bool-cases (ltb ranges.formats.low rep.formats)) [
          | inl f ↦
              rw (r, q, f, decrease)
                (
                  _,
                  refl,
                  at-put (λ j n. IsWithin (at ranges j) (at stats j) n) rep format _
                      (lowered ranges.formats stats.formats rep.formats (w format) f) w,
                  ground arith,
                )
          | inr f ↦ absurd (omega (arith, all_low ranges stats rep w r q f))
        ]
      ]
    ]

pub decrease_loop-AllWithin :
    (n nb : ℕ) (ranges : ByType Range) (stats rep : ByType ℕ)
    → AllWithin ranges stats rep
    → min_devices stats ranges ≤ nb
    → sum rep ≤ n + nb
    → (kept : ByType ℕ) × (decrease_loop n nb ranges rep ≡ some kept)
      × AllWithin ranges stats kept
      × (sum kept ≤ nb)
unfolding decrease_loop device_repartition_total
decrease_loop-AllWithin zero nb ranges stats rep w room h =
    let fits : ltb nb (sum rep) ≡ false = ground arith in
    rw (fits, decrease_loop) (rep, refl, w, omega arith)
decrease_loop-AllWithin (suc n) nb ranges stats rep w room h =
    elim (Bool-cases (ltb nb (sum rep))) [
      | inl many ↦
          let (next, step, v, less) =
            decrease-AllWithin ranges stats rep nb w (ground arith) room in
          rw (many, step, decrease_loop)
            (decrease_loop-AllWithin n nb ranges stats next v room (omega (arith, less)))
      | inr fits ↦ rw (fits, decrease_loop) (rep, refl, w, ground arith)
    ]

pub shrink-room :
    (stats : ByType ℕ) (ranges : ByType Range) (nb : ℕ)
    → 2 < nb
    → min_devices stats (shrink nb (min_devices stats ranges) ranges) ≤ nb
unfolding min_devices shrink
shrink-room stats ranges nb h = elim (Bool-cases (ltb nb (min_devices stats ranges) && ltb 2 nb)) [
  | inl few ↦ rw (few, shrink) (ground arith)
  | inr many ↦ rw (many, shrink) (ground arith)
]

pub shrunk :
    (ranges : ByType Range)
    → Ordered (record {
      reads = shrink_range ranges.reads;
      writes = shrink_range ranges.writes;
      formats = shrink_range ranges.formats;
    })
shrunk ranges read = ground arith
shrunk ranges write = ground arith
shrunk ranges format = ground arith

pub shrink-Ordered :
    (nb needed : ℕ) (ranges : ByType Range) → Ordered ranges → Ordered (shrink nb needed ranges)
unfolding shrink
shrink-Ordered nb needed ranges o = elim (Bool-cases (ltb nb needed && ltb 2 nb)) [
  | inl few ↦ rw (few, shrink) (shrunk ranges)
  | inr many ↦ rw (many, shrink) o
]
