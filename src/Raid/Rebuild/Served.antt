-- ===== src/Raid/Rebuild/Served.antt =====
-- The read request of a split during a rebuild.
use phobos.Base.{
  ℕ, zero, suc, ◌+◌, ◌*◌, ◌≤◌, ◌<◌, ◌≡◌, refl, sym, ◌∙◌, inl, inr, true, false, List, [], ◌∷◌, none,
  some, arith, leb, length, All, Bool-cases, Option-cases,
}
use phobos.Base.Words.{u64_mod}
use phobos.Types.{PhoId}
use native.Mathlib.Decide.{ℕ_discrete}
use phobos.Raid.Locate.Splits.{count_range}
use phobos.Raid.Rebuild.Counts.{count_range_ext}
use phobos.Raid.Rebuild.{
  LayoutExtent, Processor, is_empty, extent_from_layout_idx, rebuilder_can_read_extent, can_read_at,
  current_split_read_alloc_n_extent, n_total_extents, max_idx, rebuilder_validate_extent_list,
}
use phobos.Raid.Rebuild.Validate.{is_source, can_read_at_lem, current_split_read_alloc-enough}
use phobos.Raid.Rebuild.Requests.{ReadRequest, read, readable_media, build_read_request}

-- The medium of an extent in the range that the list does not ask to rebuild.
abbrev pub IsSource : Processor → ℕ → ℕ → PhoId → Type 0
IsSource p first excluded m =
    (idx : ℕ) × (e : LayoutExtent) × (first ≤ idx)
    × (idx < excluded)
    × (extent_from_layout_idx p.extents idx ≡ some e)
    × (e.media ≡ m)
    × (is_source p idx ≡ true)

-- A medium of the list.
pub data IsIn (m : PhoId) : List PhoId → Type 0 where
  at_head : (n : PhoId) (ms : List PhoId) → n ≡ m → IsIn m (n ∷ ms)
  in_tail : (n : PhoId) (ms : List PhoId) → IsIn m ms → IsIn m (n ∷ ms)

-- A request to read as many extents as a split has data, out of a list of all the media of the
-- extents of the split that are there and are not to rebuild, which are enough.
pub record Serves (p : Processor) (first excluded n_sources : ℕ) (r : ReadRequest) : Type 0 where
  pub reads : r.operation ≡ read
  pub required : r.n_required ≡ p.n_data_extents
  pub enough : p.n_data_extents ≤ length r.med_ids
  pub counted : length r.med_ids ≡ n_sources
  pub sound : All (IsSource p first excluded) r.med_ids
  pub complete : (m : PhoId) → IsSource p first excluded m → IsIn m r.med_ids

module _ (p : Processor) where
  -- The medium of an extent in the range that can be read.
  abbrev IsReadable : ℕ → ℕ → PhoId → Type 0
  IsReadable first excluded m =
      (idx : ℕ) × (e : LayoutExtent) × (first ≤ idx)
      × (idx < excluded)
      × (extent_from_layout_idx p.extents idx ≡ some e)
      × (e.media ≡ m)
      × (can_read_at p idx ≡ true)

  length-readable_media :
      (n k : ℕ) → length (readable_media p n k) ≡ count_range n k (can_read_at p)
  unfolding readable_media count_range
  length-readable_media zero k = refl
  length-readable_media (suc n) k = elim (Option-cases (extent_from_layout_idx p.extents k)) [
    | inl e ↦
        rw (e, readable_media, can_read_at) (ground (arith, e, length-readable_media n (k + 1)))
    | inr (x, e) ↦ rw (e, readable_media) (ground (arith, e, length-readable_media n (k + 1)))
  ]

  IsReadable-wider :
      (k n : ℕ) (ms : List PhoId)
      → All (IsReadable (k + 1) (k + 1 + n)) ms
      → All (IsReadable k (k + suc n)) ms
  IsReadable-wider k n [] a = tt
  IsReadable-wider k n (m ∷ ms) ((idx, e, lo, hi, here, same, may), a) =
      ((idx, e, omega arith, omega arith, here, same, may), IsReadable-wider k n ms a)

  readable_media-IsReadable : (n k : ℕ) → All (IsReadable k (k + n)) (readable_media p n k)
  unfolding readable_media
  readable_media-IsReadable zero k = tt
  readable_media-IsReadable (suc n) k =
      let later =
        IsReadable-wider k n (readable_media p n (k + 1)) (readable_media-IsReadable n (k + 1)) in
      elim (Option-cases (extent_from_layout_idx p.extents k)) [
        | inl e ↦ rw (e, readable_media) later
        | inr (x, e) ↦ elim (Bool-cases (rebuilder_can_read_extent p x)) [
          | inr barred ↦ rw (e, barred, readable_media) later
          | inl may ↦
              rw (e, may, readable_media)
                ((k, x, omega arith, omega arith, e, refl, ground (arith, e, may)), later)
        ]
      ]

  IsIn-readable_media :
      (n k idx : ℕ) (e : LayoutExtent)
      → k ≤ idx
      → idx < k + n
      → extent_from_layout_idx p.extents idx ≡ some e
      → can_read_at p idx ≡ true
      → IsIn e.media (readable_media p n k)
  unfolding readable_media
  IsIn-readable_media zero k idx e lo hi found may = absurd (omega arith)
  IsIn-readable_media (suc n) k idx e lo hi found may = elim (ℕ_discrete idx k) [
    | yes same ↦
        let at : extent_from_layout_idx p.extents k ≡ some e = rw same at found in
        let may' : rebuilder_can_read_extent p e ≡ true = ground (arith, found, may) in
        rw (at, may', readable_media) (at_head e.media _ refl)
    | no other ↦
        let rest = IsIn-readable_media n (k + 1) idx e (omega arith) (omega arith) found may in
        elim (Option-cases (extent_from_layout_idx p.extents k)) [
          | inl f ↦ rw (f, readable_media) rest
          | inr (x, f) ↦ elim (Bool-cases (rebuilder_can_read_extent p x)) [
            | inr barred ↦ rw (f, barred, readable_media) rest
            | inl good ↦ rw (f, good, readable_media) (in_tail x.media _ rest)
          ]
        ]
  ]

  -- Once a list of extents to rebuild is accepted, and no medium to read from is imposed, the read
  -- request of each split up to the last one passes its assertion. It requires as many media as a
  -- split has data extents, and lists at least as many: one for each extent of the split that is
  -- there and that the list does not ask to rebuild, and the media of all these extents and of no
  -- other.
  pub build_read_request-IsServed :
      (split : ℕ)
      → 0 < n_total_extents p
      → n_total_extents p < u64_mod
      → p.is_rebuilder ≡ true
      → p.media_read ≡ none
      → is_empty p.extents_idx ≡ false
      → rebuilder_validate_extent_list p ≡ some true
      → split * n_total_extents p ≤ max_idx p
      → (r : ReadRequest) × (build_read_request p read split ≡ some r)
        × Serves p
            (split * n_total_extents p)
            ((split + 1) * n_total_extents p)
            (count_range (n_total_extents p) (split * n_total_extents p) (is_source p))
            r
  unfolding build_read_request current_split_read_alloc_n_extent
  build_read_request-IsServed split some_extent small rebuilds any asked accepted within =
      let first = split * n_total_extents p in
      let media = readable_media p (n_total_extents p) first in
      let enough =
        current_split_read_alloc-enough p split some_extent small rebuilds any asked accepted
          within in
      let passes : leb p.n_data_extents (current_split_read_alloc_n_extent p split) ≡ true =
        ground (arith, enough) in
      let e : (split + 1) * n_total_extents p ≡ first + n_total_extents p = omega arith in
      rw (passes, build_read_request)
        (
          record { n_required = p.n_data_extents; operation = read; med_ids = media },
          refl,
          record {
            reads = refl;
            required = refl;
            enough = omega (arith, enough, length-readable_media (n_total_extents p) first);
            counted =
                length-readable_media (n_total_extents p) first
                ∙ count_range_ext (n_total_extents p) first (can_read_at p) (is_source p)
                    (λ idx. can_read_at_lem p idx rebuilds any asked);
            sound = rw e (
                sources first (first + n_total_extents p) media
                  (readable_media-IsReadable (n_total_extents p) first));
            complete = λ m (idx, x, lo, hi, found, same, is). rw (← same) (
                IsIn-readable_media (n_total_extents p) first idx x lo (omega (arith, e, hi)) found
                  (can_read_at_lem p idx rebuilds any asked ∙ is));
          },
        )
    where
      sources :
          (first excluded : ℕ) (ms : List PhoId)
          → All (IsReadable first excluded) ms
          → All (IsSource p first excluded) ms
      sources first excluded [] a = tt
      sources first excluded (m ∷ ms) ((idx, e, lo, hi, here, same, may), a) = (
        (idx, e, lo, hi, here, same, sym (can_read_at_lem p idx rebuilds any asked) ∙ may),
        sources first excluded ms a,
      )
