-- ===== src/Lrs/IoSched/Share/Increment.antt =====
-- One more device for a scheduler: increment_least_favored_scheduler of
-- src/lrs/io_schedulers/device_dispatch_algorithms.c.
use phobos.Base.{
  ℕ, ◌+◌, ◌≡◌, ◌≤◌, ◌<◌, refl, ap, ◌∙◌, Bool, true, false, some, arith, ltb, ◌==◌, inl, inr,
  Bool-cases,
}
use phobos.Lrs.IoSched.{IoType, read, write, format, ByType, at, put}
use phobos.Lrs.IoSched.Share.{
  Doubles, Range, is_maxed, max_reached, all_maxed, Weights, io_sched_compute_scheduler_weights,
  compute_weight_diff, negative, least_favored, weight_diffs, final_diffs,
  increment_least_favored_scheduler, sum,
}
use phobos.Lrs.IoSched.Share.Laws.{
  Laws, least_favored-negative, least_favored-some, any_negative, AllSmall,
}
use phobos.Lrs.IoSched.Share.Spread.{redistribute-maxed, redistribute-AllSmall}
use phobos.Lrs.IoSched.Share.Lowered.{lower_all-maxed, lower_all-negative}

module _ (D : Doubles) (laws : Laws D) where
  abbrev pub maxed_at : ByType Range → ByType ℕ → ByType ℕ → ByType Bool
  maxed_at ranges stats rep = max_reached stats rep ranges

  at_le_sum : (n : ByType ℕ) (k : IoType) → at n k ≤ sum n
  at_le_sum n read = omega arith
  at_le_sum n write = omega arith
  at_le_sum n format = omega arith

  pub at-max_reached :
      (ranges : ByType Range) (stats rep : ByType ℕ) (k : IoType)
      → at (max_reached stats rep ranges) k ≡ is_maxed (at rep k) (at ranges k) (at stats k)
  unfolding max_reached
  at-max_reached ranges stats rep read = refl
  at-max_reached ranges stats rep write = refl
  at-max_reached ranges stats rep format = refl

  at-weight_diffs :
      (w : Weights D) (rep : ByType ℕ) (nb : ℕ) (k : IoType)
      → at (weight_diffs D w rep nb) k
        ≡ D.sub (D.div (D.of_size (at rep k)) (D.of_size nb)) (at w k)
  unfolding weight_diffs compute_weight_diff
  at-weight_diffs w rep nb read = refl
  at-weight_diffs w rep nb write = refl
  at-weight_diffs w rep nb format = refl

  at-weights :
      (stats : ByType ℕ) (k : IoType)
      → (sum stats == 0) ≡ false
      → at (io_sched_compute_scheduler_weights D stats) k
        ≡ D.div (D.of_size (at stats k)) (D.of_size (sum stats))
  unfolding io_sched_compute_scheduler_weights
  at-weights stats read h = rw h refl
  at-weights stats write h = rw h refl
  at-weights stats format h = rw h refl

  module _ (ranges : ByType Range) (stats rep : ByType ℕ) (nb : ℕ) where
    diffs : ByType D.F
    diffs = weight_diffs D (io_sched_compute_scheduler_weights D stats) rep nb

    at-diffs :
        (k : IoType)
        → (sum stats == 0) ≡ false
        → at diffs k
          ≡ D.sub
              (D.div (D.of_size (at rep k)) (D.of_size nb))
              (D.div (D.of_size (at stats k)) (D.of_size (sum stats)))
    unfolding diffs
    at-diffs k s =
        at-weight_diffs (io_sched_compute_scheduler_weights D stats) rep nb k
        ∙ ap (D.sub (D.div (D.of_size (at rep k)) (D.of_size nb))) (at-weights stats k s)

    -- A full scheduler is not chosen.
    maxed-nonnegative :
        (k : IoType)
        → (sum stats == 0) ≡ false
        → (at stats k ≡ 0 → at rep k ≡ 0)
        → at (maxed_at ranges stats rep) k ≡ true
        → negative D (at (final_diffs D (maxed_at ranges stats rep) stats diffs) k) ≡ false
    unfolding final_diffs diffs
    maxed-nonnegative k s z h =
        rw
          (
            lower_all-maxed D laws (maxed_at ranges stats rep) stats _ k h,
            redistribute-maxed D laws (maxed_at ranges stats rep) stats diffs k h,
          )
          (elim (Bool-cases (ltb 0 (at stats k))) [
            | inl waits ↦ rw waits laws.zero_zero
            | inr idle ↦
                let a : at stats k ≡ 0 = ground arith in
                rw (idle, at-diffs k s, a, z a) (laws.zero_share _ _)
          ])

    final-negative :
        sum rep < nb
        → (sum stats == 0) ≡ false
        → all_maxed (maxed_at ranges stats rep) ≡ false
        → (k : IoType) × (negative D (at (final_diffs D (maxed_at ranges stats rep) stats diffs) k)
            ≡ true)
    unfolding final_diffs
    final-negative h s e =
        let maxed = maxed_at ranges stats rep in
        let small : AllSmall D laws diffs = λ k. rw (at-diffs k s) (
          laws.share-IsSmall (at rep k) nb (at stats k) (sum stats)
            (omega (arith, at_le_sum rep k))) in
        lower_all-negative D laws maxed stats _
          (redistribute-AllSmall D laws maxed stats format read write _ (
            redistribute-AllSmall D laws maxed stats write read format _
              (redistribute-AllSmall D laws maxed stats read write format diffs small)))
          (λ k. ground (arith, at-max_reached ranges stats rep k)) e

    chosen-put :
        (j : IoType)
        → least_favored D (final_diffs D (maxed_at ranges stats rep) stats diffs) ≡ some j
        → increment_least_favored_scheduler D ranges
            (io_sched_compute_scheduler_weights D stats)
            stats
            rep
            nb
          ≡ some (put rep j (at rep j + 1))
    unfolding increment_least_favored_scheduler diffs
    chosen-put j e = rw (e, increment_least_favored_scheduler) refl

    -- As long as some scheduler is not full, the assertion holds, and a scheduler that is not full
    -- gets one more device.
    pub increment_least_favored_scheduler-chosen :
        sum rep < nb
        → (sum stats == 0) ≡ false
        → ((k : IoType) → at stats k ≡ 0 → at rep k ≡ 0)
        → all_maxed (maxed_at ranges stats rep) ≡ false
        → (k : IoType) × (increment_least_favored_scheduler D ranges
              (io_sched_compute_scheduler_weights D stats)
              stats
              rep
              nb
            ≡ some (put rep k (at rep k + 1)))
          × (at (maxed_at ranges stats rep) k ≡ false)
    unfolding increment_least_favored_scheduler
    increment_least_favored_scheduler-chosen h s z e =
        let maxed = maxed_at ranges stats rep in
        let (k, negative_left) = final-negative h s e in
        let (j, chosen) =
          least_favored-some D laws (final_diffs D maxed stats diffs)
            (any_negative D laws _ k negative_left) in
        (
          j,
          chosen-put j chosen,
          elim (Bool-cases (at maxed j)) [
            | inl full ↦ absurd (
                ground (
                  arith,
                  maxed-nonnegative j s (z j) full,
                  least_favored-negative D laws _ j chosen,
                ))
            | inr free ↦ free
          ],
        )
