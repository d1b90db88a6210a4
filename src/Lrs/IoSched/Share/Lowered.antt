-- ===== src/Lrs/IoSched/Share/Lowered.antt =====
-- The differences made negative, when none is: increment_least_favored_scheduler of
-- src/lrs/io_schedulers/device_dispatch_algorithms.c.
use phobos.Base.{
  ℕ, ◌≡◌, refl, ap, ◌∙◌, Bool, true, false, not, ◌&&◌, ◌||◌, arith, ltb, inl, inr, Bool-cases,
}
use phobos.Lrs.IoSched.{IoType, read, write, format, ByType, at, same_type}
use phobos.Lrs.IoSched.Devices.Bits.{at-put_if}
use phobos.Lrs.IoSched.Share.{Doubles, all_maxed, negative, double_max, lower, lower_by, lower_all}
use phobos.Lrs.IoSched.Share.Laws.{Laws, other_type, above_max, above_last, above_first, AllSmall}
use phobos.Lrs.IoSched.Share.Spread.{clash}

module _ (D : Doubles) (laws : Laws D) (maxed : ByType Bool) (stats : ByType ℕ) where
  pub lower-maxed :
      (m : D.F) (k j : IoType) (d : ByType D.F)
      → at maxed j ≡ true
      → at (lower D maxed stats m k d) j ≡ at d j
  lower-maxed m k j d h = elim (Bool-cases (not (at maxed k) && ltb 0 (at stats k))) [
    | inl lowers ↦ rw lowers (
        at-put_if d k j _
        ∙ other_type k j _ _ λ e. absurd (clash D laws maxed stats k j e h lowers))
    | inr stays ↦ rw stays refl
  ]

  -- Every scheduler that is not full has requests.
  abbrev pub Open : Type 0
  Open = (k : IoType) → (at maxed k || ltb 0 (at stats k)) ≡ true

  pub lower_all-maxed :
      (d : ByType D.F) (j : IoType) → at maxed j ≡ true → at (lower_all D maxed stats d) j ≡ at d j
  unfolding lower_all
  lower_all-maxed d j h =
      elim (Bool-cases
        (not (negative D d.reads) && not (negative D d.writes) && not (negative D d.formats))) [
          | inl high ↦
              rw (lower_all, high)
                (lower-maxed _ format j _ h ∙ lower-maxed _ write j _ h ∙ lower-maxed _ read j d h)
          | inr low ↦ rw (lower_all, low) refl
        ]

  -- The largest of three differences.
  abbrev largest : ByType D.F → D.F
  largest d = double_max D (double_max D d.reads d.writes) d.formats

  pub largest-IsSmall : (d : ByType D.F) → AllSmall D laws d → laws.IsSmall (largest d)
  largest-IsSmall d s = elim (Bool-cases (D.lt d.writes d.reads)) [
    | inl a ↦ elim (Bool-cases (D.lt d.formats d.reads)) [
      | inl b ↦ rw (a, b) (s read)
      | inr b ↦ rw (a, b) (s format)
    ]
    | inr a ↦ elim (Bool-cases (D.lt d.formats d.writes)) [
      | inl b ↦ rw (a, b) (s write)
      | inr b ↦ rw (a, b) (s format)
    ]
  ]

  pub largest-above : (d : ByType D.F) (k : IoType) → D.lt (largest d) (at d k) ≡ false
  largest-above d read = above_max D laws _ d.formats d.reads (above_first D laws d.reads d.writes)
  largest-above d write = above_max D laws _ d.formats d.writes (above_last D laws d.reads d.writes)
  largest-above d format = above_last D laws _ d.formats

  pub lower-own :
      (m : D.F) (k : IoType) (d : ByType D.F)
      → (not (at maxed k) && ltb 0 (at stats k)) ≡ true
      → at (lower D maxed stats m k d) k ≡ D.sub (at d k) m
  lower-own m read d h = rw h refl
  lower-own m write d h = rw h refl
  lower-own m format d h = rw h refl

  pub lower-other :
      (m : D.F) (k j : IoType) (d : ByType D.F)
      → same_type k j ≡ false
      → at (lower D maxed stats m k d) j ≡ at d j
  lower-other m k j d h = elim (Bool-cases (not (at maxed k) && ltb 0 (at stats k))) [
    | inl lowers ↦
        rw lowers (at-put_if d k j _ ∙ other_type k j _ _ λ e. absurd (ground (arith, h, e)))
    | inr stays ↦ rw stays refl
  ]

  pub lower_by-own :
      (m : D.F) (k : IoType) (d : ByType D.F)
      → (not (at maxed k) && ltb 0 (at stats k)) ≡ true
      → at (lower_by D maxed stats m d) k ≡ D.sub (at d k) m
  lower_by-own m read d h =
      lower-other m format read _ refl ∙ lower-other m write read _ refl ∙ lower-own m read d h
  lower_by-own m write d h =
      lower-other m format write _ refl
      ∙ lower-own m write _ h
      ∙ ap (λ x. D.sub x m) (lower-other m read write d refl)
  lower_by-own m format d h =
      lower-own m format _ h
      ∙ ap (λ x. D.sub x m) (lower-other m write format _ refl ∙ lower-other m read format d refl)

  pub not_full : all_maxed maxed ≡ false → (k : IoType) × (at maxed k ≡ false)
  not_full e = elim (Bool-cases maxed.reads) [
    | inr r ↦ (read, r)
    | inl r ↦ elim (Bool-cases maxed.writes) [
      | inr w ↦ (write, w)
      | inl w ↦ elim (Bool-cases maxed.formats) [
        | inr f ↦ (format, f)
        | inl f ↦ absurd (ground (arith, e, r, w, f))
      ]
    ]
  ]

  pub some_negative :
      (d : ByType D.F)
      → (not (negative D d.reads) && not (negative D d.writes) && not (negative D d.formats))
        ≡ false
      → (k : IoType) × (negative D (at d k) ≡ true)
  some_negative d e = elim (Bool-cases (negative D d.reads)) [
    | inl r ↦ (read, r)
    | inr r ↦ elim (Bool-cases (negative D d.writes)) [
      | inl w ↦ (write, w)
      | inr w ↦ (format, ground (arith, e, r, w))
    ]
  ]

  pub largest-nonnegative :
      (d : ByType D.F)
      → (not (negative D d.reads) && not (negative D d.writes) && not (negative D d.formats)) ≡ true
      → negative D (largest d) ≡ false
  largest-nonnegative d h = elim (Bool-cases (D.lt d.writes d.reads)) [
    | inl a ↦ elim (Bool-cases (D.lt d.formats d.reads)) [
      | inl b ↦ rw (a, b) (ground (arith, h))
      | inr b ↦ rw (a, b) (ground (arith, h))
    ]
    | inr a ↦ elim (Bool-cases (D.lt d.formats d.writes)) [
      | inl b ↦ rw (a, b) (ground (arith, h))
      | inr b ↦ rw (a, b) (ground (arith, h))
    ]
  ]

  -- When some scheduler is not full, some difference is negative in the end.
  pub lower_all-negative :
      (d : ByType D.F)
      → AllSmall D laws d
      → Open
      → all_maxed maxed ≡ false
      → (k : IoType) × (negative D (at (lower_all D maxed stats d) k) ≡ true)
  unfolding lower_all
  lower_all-negative d s o e =
      elim (Bool-cases
        (not (negative D d.reads) && not (negative D d.writes) && not (negative D d.formats))) [
          | inl high ↦
              let (k, free) = not_full e in
              let waits : (not (at maxed k) && ltb 0 (at stats k)) ≡ true =
                ground (arith, o k, free) in
              (
                k,
                rw (lower_all, high, lower_by-own (D.add (largest d) (D.of_size 1)) k d waits)
                    (laws.headroom (at d k) (largest d) (largest-IsSmall d s)
                      (largest-nonnegative d high) (largest-above d k)),
              )
          | inr low ↦ rw (lower_all, low) (some_negative d low)
        ]
