-- ===== src/Lrs/IoSched/Share/Spread.antt =====
-- The weight that full schedulers leave to the others:
-- increment_least_favored_scheduler of src/lrs/io_schedulers/device_dispatch_algorithms.c.
use phobos.Base.{
  ℕ, ◌≡◌, refl, ap, ◌∙◌, Bool, true, false, not, ◌&&◌, arith, ltb, if◌then◌else◌, inl, inr,
  Bool-cases,
}
use phobos.Lrs.IoSched.{IoType, read, write, format, ByType, at, put, same_type, at-put}
use phobos.Lrs.IoSched.Devices.Bits.{at-put_if, same_type-eq}
use phobos.Lrs.IoSched.Share.{Doubles, negative, take_share, redistribute}
use phobos.Lrs.IoSched.Share.Laws.{Laws, other_type, AllSmall}

module _ (D : Doubles) (laws : Laws D) (maxed : ByType Bool) (stats : ByType ℕ) where
  pub clash :
      (k j : IoType)
      → same_type k j ≡ true
      → at maxed j ≡ true
      → (not (at maxed k) && ltb 0 (at stats k)) ≡ true
      → ⊥
  clash k j e h c = ground (arith, ap (at maxed) (same_type-eq k j e))

  pub take_share-maxed :
      (w : D.F) (k j : IoType) (d : ByType D.F)
      → at maxed j ≡ true
      → at (take_share D maxed stats w k d) j ≡ at d j
  take_share-maxed w k j d h = elim (Bool-cases (not (at maxed k) && ltb 0 (at stats k))) [
    | inl yes_share ↦
        rw yes_share (at-put_if d k j _ ∙ other_type k j _ _ λ e. absurd (clash k j e h yes_share))
    | inr no_share ↦ rw no_share refl
  ]

  pub put_zero :
      (k j : IoType) (d : ByType D.F) (x : D.F)
      → (at maxed k && ltb 0 (at stats k)) ≡ true
      → at d j ≡ x
      → at (put d k (D.of_size 0)) j
        ≡ (if same_type k j && ltb 0 (at stats j) then D.of_size 0 else x)
  put_zero k j d x full e = at-put_if d k j (D.of_size 0) ∙ elim (Bool-cases (same_type k j)) [
    | inl i ↦
        let some_left : ltb 0 (at stats j) ≡ true =
          ground (arith, ap (at stats) (same_type-eq k j i)) in
        rw (i, some_left) refl
    | inr i ↦ rw i e
  ]

  pub not_turn :
      (k j : IoType) (x : D.F)
      → at maxed j ≡ true
      → (at maxed k && ltb 0 (at stats k)) ≡ false
      → x ≡ (if same_type k j && ltb 0 (at stats j) then D.of_size 0 else x)
  not_turn k j x h stays = elim (Bool-cases (same_type k j)) [
    | inl i ↦
        let none_waits : ltb 0 (at stats j) ≡ false =
          ground (arith, ap (at stats) (same_type-eq k j i), ap (at maxed) (same_type-eq k j i)) in
        rw (i, none_waits) refl
    | inr i ↦ rw i refl
  ]

  pub redistribute-one :
      (k a b j : IoType) (d : ByType D.F)
      → at maxed j ≡ true
      → at (redistribute D maxed stats k a b d) j
        ≡ (if same_type k j && ltb 0 (at stats j) then D.of_size 0 else at d j)
  unfolding redistribute
  redistribute-one k a b j d h = elim (Bool-cases (at maxed k && ltb 0 (at stats k))) [
    | inl full ↦ elim (Bool-cases (negative D (at d k))) [
      | inl n ↦
          rw (redistribute, full, n)
            (put_zero k j _ (at d j) full
              (take_share-maxed (at d k) b j _ h ∙ take_share-maxed (at d k) a j d h))
      | inr n ↦ rw (redistribute, full, n) (put_zero k j d (at d j) full refl)
    ]
    | inr stays ↦ rw (redistribute, stays) (not_turn k j (at d j) h stays)
  ]

  -- A full scheduler's difference changes only at its own turn.
  pub redistribute-maxed :
      (d : ByType D.F) (j : IoType)
      → at maxed j ≡ true
      → at
          (redistribute D maxed stats format read write (
            redistribute D maxed stats write read format
              (redistribute D maxed stats read write format d)))
          j
        ≡ (if ltb 0 (at stats j) then D.of_size 0 else at d j)
  redistribute-maxed d read h =
      redistribute-one format read write read _ h
      ∙ redistribute-one write read format read _ h
      ∙ redistribute-one read write format read d h
  redistribute-maxed d write h =
      redistribute-one format read write write _ h
      ∙ redistribute-one write read format write _ h
      ∙ ap (λ x. if ltb 0 (at stats write) then D.of_size 0 else x)
          (redistribute-one read write format write d h)
  redistribute-maxed d format h =
      redistribute-one format read write format _ h
      ∙ ap (λ x. if ltb 0 (at stats format) then D.of_size 0 else x)
          (redistribute-one write read format format _ h
            ∙ redistribute-one read write format format d h)

  pub take_share-AllSmall :
      (w : D.F) (k : IoType) (d : ByType D.F)
      → negative D w ≡ true
      → AllSmall D laws d
      → AllSmall D laws (take_share D maxed stats w k d)
  take_share-AllSmall w k d n s = elim (Bool-cases (not (at maxed k) && ltb 0 (at stats k))) [
    | inl shares ↦
        rw shares (at-put (λ j x. laws.IsSmall x) d k _ (laws.add-IsSmall _ _ _ (s k) n) s)
    | inr stays ↦ rw stays s
  ]

  pub redistribute-AllSmall :
      (k a b : IoType) (d : ByType D.F)
      → AllSmall D laws d
      → AllSmall D laws (redistribute D maxed stats k a b d)
  unfolding redistribute
  redistribute-AllSmall k a b d s = elim (Bool-cases (at maxed k && ltb 0 (at stats k))) [
    | inl full ↦ elim (Bool-cases (negative D (at d k))) [
      | inl n ↦
          rw (redistribute, full, n)
            (at-put (λ j x. laws.IsSmall x) _ k _ laws.zero-IsSmall
              (take_share-AllSmall _ b _ n (take_share-AllSmall _ a d n s)))
      | inr n ↦
          rw (redistribute, full, n) (at-put (λ j x. laws.IsSmall x) d k _ laws.zero-IsSmall s)
    ]
    | inr stays ↦ rw (redistribute, stays) s
  ]
