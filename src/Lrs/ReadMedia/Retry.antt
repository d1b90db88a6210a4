-- ===== src/Lrs/ReadMedia/Retry.antt =====
-- The retry of a read whose medium failed on a device: `rml_reset`, then `rml_medium_realloc_failed`
-- or `rml_medium_realloc`, as `sched_handle_read_alloc_error` of src/lrs/lrs_sched.c calls them.
use mathlib.Core.List.Perm
use phobos.Base.{
  ℕ, ◌+◌, ◌-◌, ◌≤◌, ◌<◌, ◌≡◌, refl, sym, subst, ◌∙◌, ◌≢◌, true, none, some, arith, Perm, ◌==◌,
  length, get_elem?,
}
use phobos.Base.Words.{u64_mod, sub64}
use phobos.Lrs.ReadMedia.Swap.{med_ids_switch-Switched}
use phobos.Lrs.ReadMedia.{
  ReadMediaList, AllocationStatus, ok, unavailable, error, move_medium_to_unavailable, mark_error,
  last_free, medium_update, medium_realloc_failed, reset,
}
use phobos.Lrs.ReadMedia.Safe.{IsValid}

-- After a reset: Allocated, Free and Error make up the list, and `available` counts the free media.
pub record IsReset {ℓ} {M : Type ℓ} (l : ReadMediaList M) : Type 0 where
  pub fits : l.size < u64_mod
  pub measured : l.size ≡ length l.media
  pub shared_out : l.available + l.errors + l.allocated ≡ l.size
  pub later_round : l.reset_done ≡ true

module _ {ℓ} {M : Type ℓ} where
  reset-IsReset : (l : ReadMediaList M) → IsValid l → IsReset (reset l)
  unfolding reset
  reset-IsReset l v = ground (arith, v.measured)

  realloc_failed_lem :
      (l : ReadMediaList M) (free_index failed_index : ℕ)
      → IsReset l
      → l.allocated ≤ free_index
      → free_index < l.size - l.errors
      → failed_index < l.allocated
      → (l' : ReadMediaList M) × (medium_realloc_failed l free_index failed_index ≡ some l')
        × IsReset l'
        × Perm l'.media l.media
        × (l'.allocated ≡ l.allocated)
        × (get_elem? l'.media failed_index ≡ get_elem? l.media free_index)
        × (get_elem? l'.media (l'.size - l'.errors) ≡ get_elem? l.media failed_index)
  unfolding medium_realloc_failed last_free
  realloc_failed_lem l free_index failed_index v lo hi failed =
      let last = l.size - l.errors - 1 in
      let at_last : sub64 (sub64 l.size l.errors) 1 ≡ last = omega arith in
      let place : l.size - (l.errors + 1) ≡ last = omega arith in
      let total : (l.available + l.errors + l.allocated == l.size) ≡ true = ground arith in
      let (m, e, s) = med_ids_switch-Switched l.media free_index last (omega arith) (omega arith) in
      let (m', e', s') =
        med_ids_switch-Switched m failed_index last (omega (arith, s.switched_length))
          (omega (arith, s.switched_length)) in
      (
        record l { media = m'; errors = l.errors + 1; available = l.available - 1 },
        ground arith,
        record {
          fits = v.fits;
          measured = omega (arith, s.switched_length, s'.switched_length);
          shared_out = omega arith;
          later_round = v.later_round;
        },
        Perm.trans s'.switched_perm s.switched_perm,
        refl,
        s'.at_first ∙ s.at_second,
        subst (λ k. get_elem? m' k ≡ get_elem? l.media failed_index) (sym place)
            (s'.at_second ∙ s.elsewhere failed_index (omega arith) (omega arith)),
      )

  -- After a reset of a valid list, the failed medium of an allocated place can be replaced: the call
  -- passes its assertion and stays in the array. The replacement takes the failed medium's place, the
  -- failed one becomes the first of the Error section, no medium is lost or doubled, and the list can
  -- take another such call.
  pub medium_realloc_failed-reset :
      (l : ReadMediaList M) (free_index failed_index : ℕ)
      → IsValid l
      → l.allocated ≤ free_index
      → free_index < l.size - l.errors
      → failed_index < l.allocated
      → (l' : ReadMediaList M) × (medium_realloc_failed (reset l) free_index failed_index ≡ some l')
        × IsReset l'
        × Perm l'.media l.media
        × (l'.allocated ≡ l.allocated)
        × (get_elem? l'.media failed_index ≡ get_elem? l.media free_index)
        × (get_elem? l'.media (l'.size - l'.errors) ≡ get_elem? l.media failed_index)
  unfolding reset
  medium_realloc_failed-reset l free_index failed_index v =
      realloc_failed_lem (reset l) free_index failed_index (reset-IsReset l v)

  -- In the retry loop, a replacement that cannot be used is reported by `rml_medium_update`, and the
  -- next turn of the loop makes no reset. Whether the report was a failure or a temporary
  -- unavailability, the next `rml_medium_realloc_failed` then fails its assertion, at any indices.
  pub medium_realloc_failed-update :
      (l l' : ReadMediaList M) (index free_index failed_index : ℕ) (status : AllocationStatus)
      → IsReset l
      → 0 < l.allocated
      → status ≢ ok
      → medium_update l index status ≡ some l'
      → medium_realloc_failed l' free_index failed_index ≡ none
  unfolding medium_realloc_failed medium_update mark_error move_medium_to_unavailable
  medium_realloc_failed-update l l' index free_index failed_index ok v h n e = absurd (n refl)
  medium_realloc_failed-update l l' index free_index failed_index unavailable v h n e = ground arith
  medium_realloc_failed-update l l' index free_index failed_index error v h n e = ground arith
