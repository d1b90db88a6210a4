-- ===== src/Lrs/ReadMedia/Safe.antt =====
-- The invariant of the media list, and what every operation does to it.
use mathlib.Core.List.Perm
use native.Mathlib.Decide.{dec_lt, ℕ_discrete}
use phobos.Base.{
  ℕ, ◌+◌, ◌-◌, ◌≤◌, ◌<◌, ◌≡◌, refl, ap, ◌∙◌, ◌≢◌, ◌⊎◌, inl, inr, false, List, some, arith, Perm,
  length, get_elem?,
}
use phobos.Base.Words.{u64_mod, sub64}
use phobos.Lrs.ReadMedia.Swap.{Switched, med_ids_switch-Switched}
use phobos.Lrs.ReadMedia.{
  ReadMediaList, ok, unavailable, error, move_medium_to_unavailable, mark_error, last_unavailable,
  medium_update,
}

-- Before the first reset: the sections Allocated, Free, Unavailable and Error follow one another.
pub record IsValid {ℓ} {M : Type ℓ} (l : ReadMediaList M) : Type 0 where
  pub fits : l.size < u64_mod
  pub measured : l.size ≡ length l.media
  pub ordered : l.allocated ≤ l.available
  pub bounded : l.available + l.errors ≤ l.size
  pub first_round : l.reset_done ≡ false

-- What an update of the medium at a free index may change.
pub record Updated {ℓ} {M : Type ℓ} (l l' : ReadMediaList M) : Type ℓ where
  pub same_media : Perm l'.media l.media
  pub same_size : l'.size ≡ l.size
  pub one_less_free : l'.available - l'.allocated + 1 ≡ l.available - l.allocated
  pub kept_allocated : (k : ℕ) → k < l.allocated → get_elem? l'.media k ≡ get_elem? l.media k
  pub kept_errors : (k : ℕ) → l.size - l.errors ≤ k → get_elem? l'.media k ≡ get_elem? l.media k

module _ {ℓ} {M : Type ℓ} where
  Switched-self : (l : List M) (i : ℕ) → Switched l i i l
  Switched-self l i = record {
    switched_length = refl;
    switched_perm = Perm.rfl;
    at_first = refl;
    at_second = refl;
    elsewhere = λ k _ _. refl;
  }

  move_lem :
      (l : ReadMediaList M) (index : ℕ)
      → index < l.available
      → l.available ≤ length l.media
      → (m : List M) × (move_medium_to_unavailable l index
          ≡ some (record l { media = m; available = l.available - 1 }))
        × Switched l.media index (l.available - 1) m
  unfolding move_medium_to_unavailable
  move_lem l index h fit = elim (dec_lt index (l.available - 1)) [
    | yes p ↦
        let (m, e, s) =
          med_ids_switch-Switched l.media index (l.available - 1) (omega arith) (omega arith) in
        (m, ground arith, s)
    | no p ↦
        let e : index ≡ l.available - 1 = omega arith in
        (l.media, ground arith, rw (← e) (Switched-self l.media index))
  ]

module _ {ℓ} {M : Type ℓ} (l : ReadMediaList M) (index : ℕ) (v : IsValid l)
    (after_allocated : l.allocated ≤ index) (before_unavailable : index < l.available) where
  pub update_ok :
      (l' : ReadMediaList M) × (medium_update l index ok ≡ some l')
      × IsValid l'
      × Updated l l'
      × (get_elem? l'.media l.allocated ≡ get_elem? l.media index)
  unfolding medium_update
  update_ok =
      let (m, e, s) =
        med_ids_switch-Switched l.media index l.allocated (omega arith) (omega arith) in
      (
        record l { media = m; allocated = l.allocated + 1 },
        ground arith,
        record {
          fits = v.fits;
          measured = omega (arith, s.switched_length);
          ordered = omega arith;
          bounded = v.bounded;
          first_round = v.first_round;
        },
        record {
          same_media = s.switched_perm;
          same_size = refl;
          one_less_free = omega arith;
          kept_allocated = λ k h. s.elsewhere k (omega arith) (omega arith);
          kept_errors = λ k h. s.elsewhere k (omega arith) (omega arith);
        },
        s.at_second,
      )

  pub update_unavailable :
      (l' : ReadMediaList M) × (medium_update l index unavailable ≡ some l')
      × IsValid l'
      × Updated l l'
      × (get_elem? l'.media (l.available - 1) ≡ get_elem? l.media index)
  unfolding medium_update
  update_unavailable =
      let (m, e, s) = move_lem l index before_unavailable (omega arith) in
      (
        record l { media = m; available = l.available - 1 },
        e,
        record {
          fits = v.fits;
          measured = omega (arith, s.switched_length);
          ordered = omega arith;
          bounded = omega arith;
          first_round = v.first_round;
        },
        record {
          same_media = s.switched_perm;
          same_size = refl;
          one_less_free = omega arith;
          kept_allocated = λ k h. s.elsewhere k (omega arith) (omega arith);
          kept_errors = λ k h. s.elsewhere k (omega arith) (omega arith);
        },
        s.at_second,
      )

  -- Where the media stand once the failed one was put aside: it first trades with the last
  -- unavailable one, if there is one.
  abbrev Marked : List M → Type ℓ
  Marked m =
      (l.size - l.errors ≡ l.available) × (m ≡ l.media)
      ⊎ (l.available < l.size - l.errors) × Switched l.media index (l.size - l.errors - 1) m

  mark_error_lem :
      (m : List M) × (mark_error l index ≡ some (record l { media = m; errors = l.errors + 1 }))
      × Marked m
  unfolding mark_error last_unavailable
  mark_error_lem = elim (ℕ_discrete (l.size - l.errors) l.available) [
    | yes p ↦ (l.media, ground arith, inl (p, refl))
    | no p ↦
        let (m, e, s) =
          med_ids_switch-Switched l.media index (l.size - l.errors - 1) (omega arith)
            (omega arith) in
        let at_last : sub64 (sub64 l.size 1) l.errors ≡ l.size - l.errors - 1 = omega arith in
        (m, ground arith, inr (omega arith, s))
  ]

  Marked-length : (m : List M) → Marked m → length m ≡ length l.media
  Marked-length m (inl (_, same)) = ap length same
  Marked-length m (inr (_, s)) = s.switched_length

  Marked-perm : (m : List M) → Marked m → Perm m l.media
  Marked-perm m (inl (_, same)) = rw same Perm.rfl
  Marked-perm m (inr (_, s)) = s.switched_perm

  Marked-kept :
      (m : List M)
      → Marked m
      → (k : ℕ) → k ≢ index
      → k ≢ l.size - l.errors - 1
      → get_elem? m k ≡ get_elem? l.media k
  Marked-kept m (inl (_, same)) k ni nj = ap (λ x. get_elem? x k) same
  Marked-kept m (inr (_, s)) k ni nj = s.elsewhere k ni nj

  Marked-lands :
      (m m' : List M)
      → Marked m
      → Switched m index (l.available - 1) m'
      → get_elem? m' (l.size - l.errors - 1) ≡ get_elem? l.media index
  Marked-lands m m' (inl (last, same)) s =
      let e : l.size - l.errors - 1 ≡ l.available - 1 = omega arith in
      rw e (s.at_second ∙ ap (λ x. get_elem? x index) same)
  Marked-lands m m' (inr (more, t)) s =
      s.elsewhere (l.size - l.errors - 1) (omega arith) (omega arith) ∙ t.at_second

  pub update_error :
      (l' : ReadMediaList M) × (medium_update l index error ≡ some l')
      × IsValid l'
      × Updated l l'
      × (get_elem? l'.media (l.size - l.errors - 1) ≡ get_elem? l.media index)
  unfolding medium_update
  update_error =
      let (m, e, k) = mark_error_lem in
      let (m', e', s) =
        move_lem (record l { media = m; errors = l.errors + 1 }) index before_unavailable
          (omega (arith, Marked-length m k)) in
      (
        record l { media = m'; available = l.available - 1; errors = l.errors + 1 },
        rw e e',
        record {
          fits = v.fits;
          measured = omega (arith, s.switched_length, Marked-length m k);
          ordered = omega arith;
          bounded = omega arith;
          first_round = v.first_round;
        },
        record {
          same_media = Perm.trans s.switched_perm (Marked-perm m k);
          same_size = refl;
          one_less_free = omega arith;
          kept_allocated = λ i h.
              s.elsewhere i (omega arith) (omega arith)
              ∙ Marked-kept m k i (omega arith) (omega arith);
          kept_errors = λ i h.
              s.elsewhere i (omega arith) (omega arith)
              ∙ Marked-kept m k i (omega arith) (omega arith);
        },
        Marked-lands m m' k s,
      )
