-- ===== src/Raid/Rebuild/Rebuilt.antt =====
-- The extents that a rebuild sets: one on each medium, for just the indexes to rebuild.
use native.Mathlib.Decide.{ℕ_discrete}
use phobos.Base.{
  ℕ, zero, suc, ◌+◌, ◌*◌, ◌<◌, ◌≡◌, refl, sym, ap, ◌∙◌, inl, inr, true, false, not, ◌&&◌, ◌||◌,
  List, [], ◌∷◌, some, arith, leb, ltb, ◌==◌, length, All, Bool-cases, map,
}
use phobos.Base.Ints.{ℤ, pos, negsuc}
use phobos.Base.Words.{u64_mod}
use phobos.Types.{PhoId}
use phobos.Raid.Locate.Splits.{count_range}
use phobos.Raid.Rebuild.Counts.{count_range_ext, count_range-or, count_range-not, sum_range}
use phobos.Raid.Rebuild.Validate.{InBounds}
use phobos.Raid.Rebuild.Missing.{
  IsValid, current_split-missing, current_split-listed, count_range-none,
  raid_get_nb_extent_to_rebuild-sum,
}
use phobos.Raid.Rebuild.{
  LayoutExtent, Processor, is_empty, has_extent, extent_from_layout_idx, count_found,
  current_split_rebuild_n_extent, n_total_extents, max_idx, raid_get_nb_split,
  raid_get_nb_extent_to_rebuild,
}
use phobos.Raid.Rebuild.Requests.{
  extent_from_rebuild_list, rebuild_extent, set_rebuilt, raid_rebuilder_set_extent_info,
}

-- No index is listed twice.
abbrev pub Distinct : List ℤ → Type 0
Distinct [] = Unit {0}
Distinct (pos i ∷ is) = (extent_from_rebuild_list is i ≡ false) × Distinct is
Distinct (negsuc i ∷ is) = Distinct is

count-listed :
    (n k max : ℕ) (is : List ℤ)
    → Distinct is
    → All (InBounds max) is
    → count_range n k (extent_from_rebuild_list is) ≡ count_found is k (k + n)
unfolding extent_from_rebuild_list count_found
count-listed n k max [] d a = count_range-none n k
count-listed n k max (negsuc i ∷ is) d a = absurd (ground (arith, a.0))
count-listed n k max (pos i ∷ is) d a =
    count_range_ext n k (extent_from_rebuild_list (pos i ∷ is))
      (λ j. (i == j) || extent_from_rebuild_list is j) (λ j. ground arith)
    ∙ count_range-or n k i (extent_from_rebuild_list is) d.0
    ∙ ground (arith, count-listed n k max is d.1 a.1)

count_range-all : (n k : ℕ) → count_range n k (λ j. true) ≡ n
unfolding count_range
count_range-all zero k = refl
count_range-all (suc n) k = ground (arith, count_range-all n (k + 1))

module _ (p : Processor) where
  abbrev per_split : ℕ
  per_split = n_total_extents p

  -- As many indexes of a split are rebuilt as the split needs.
  count-rebuild_extent :
      (split : ℕ)
      → IsValid p
      → Distinct p.extents_idx
      → per_split < u64_mod
      → count_range per_split (split * per_split) (rebuild_extent p)
        ≡ current_split_rebuild_n_extent p split
  count-rebuild_extent split (ordered, inside) distinct small =
      elim (Bool-cases (is_empty p.extents_idx)) [
        | inr asked ↦
            let e : (split + 1) * per_split ≡ split * per_split + per_split = omega arith in
            count_range_ext per_split (split * per_split) (rebuild_extent p)
              (extent_from_rebuild_list p.extents_idx) (λ j. rw asked refl)
            ∙ count-listed per_split (split * per_split) (max_idx p) p.extents_idx distinct inside
            ∙ ap (count_found p.extents_idx (split * per_split)) (sym e)
            ∙ sym (current_split-listed p split asked)
        | inl all ↦
            let parts =
              count_range-not per_split (split * per_split) (λ j. true) (has_extent p.extents) in
            let whole = count_range-all per_split (split * per_split) in
            count_range_ext per_split (split * per_split) (rebuild_extent p)
              (λ j. not (has_extent p.extents j)) (λ j. rw all refl)
            ∙ omega (arith, parts, whole)
            ∙ sym (current_split-missing p split small all)
      ]

  -- The extents that were set: one for each medium, in order, at the offset of the split, with
  -- just the indexes of the range that are to rebuild.
  pub record IsRebuilt (offset n k : ℕ) (media : List PhoId) (es : List LayoutExtent) : Type 0 where
    pub media_used : map (λ e. e.media) es ≡ media
    pub offsets : All (λ e. e.offset ≡ offset) es
    pub indexes : (j : ℕ) → has_extent es j ≡ (leb k j && ltb j (k + n)) && rebuild_extent p j

  set_rebuilt_kept :
      (offset n k : ℕ) (media : List PhoId)
      → rebuild_extent p k ≡ false
      → set_rebuilt p offset (suc n) k media ≡ set_rebuilt p offset n (k + 1) media
  unfolding set_rebuilt
  set_rebuilt_kept offset n k [] kept = rw (set_rebuilt, kept) refl
  set_rebuilt_kept offset n k (m ∷ media) kept = rw (set_rebuilt, kept) refl

  set_rebuilt_chosen :
      (offset n k : ℕ) (m : PhoId) (media : List PhoId) (es : List LayoutExtent)
      → rebuild_extent p k ≡ true
      → set_rebuilt p offset n (k + 1) media ≡ some es
      → set_rebuilt p offset (suc n) k (m ∷ media)
        ≡ some (record { layout_idx = k; media = m; offset = offset } ∷ es)
  unfolding set_rebuilt
  set_rebuilt_chosen offset n k m media es chosen e = rw (set_rebuilt, chosen, e) refl

  abbrev Sets : ℕ → ℕ → ℕ → List PhoId → Type 0
  Sets offset n k media =
      (es : List LayoutExtent) × (set_rebuilt p offset n k media ≡ some es)
      × IsRebuilt offset n k media es

  Sets-kept :
      (offset n k : ℕ) (media : List PhoId)
      → rebuild_extent p k ≡ false
      → Sets offset n (k + 1) media
      → Sets offset (suc n) k media
  Sets-kept offset n k media kept (es, q, set) = (
    es,
    set_rebuilt_kept offset n k media kept ∙ q,
    record {
      media_used = set.media_used;
      offsets = set.offsets;
      indexes = λ j. set.indexes j ∙ elim (ℕ_discrete j k) [
        | yes same ↦ rw (same, kept) (ground arith)
        | no other ↦ ground arith
      ];
    },
  )

  Sets-chosen :
      (offset n k : ℕ) (m : PhoId) (media : List PhoId)
      → rebuild_extent p k ≡ true
      → Sets offset n (k + 1) media
      → Sets offset (suc n) k (m ∷ media)
  unfolding extent_from_layout_idx
  Sets-chosen offset n k m media chosen (es, q, set) = (
    record { layout_idx = k; media = m; offset = offset } ∷ es,
    set_rebuilt_chosen offset n k m media es chosen q,
    record {
      media_used = ap (λ ms. m ∷ ms) set.media_used;
      offsets = (refl, set.offsets);
      indexes = λ j. elim (ℕ_discrete j k) [
        | yes same ↦ rw (same, chosen) (ground arith)
        | no other ↦ ground (arith, set.indexes j)
      ];
    },
  )

  set_rebuilt-IsRebuilt :
      (offset n k : ℕ) (media : List PhoId)
      → length media ≡ count_range n k (rebuild_extent p)
      → Sets offset n k media
  unfolding set_rebuilt count_range extent_from_layout_idx
  set_rebuilt-IsRebuilt offset zero k [] e =
      ([], refl, record { media_used = refl; offsets = tt; indexes = λ j. ground arith })
  set_rebuilt-IsRebuilt offset zero k (m ∷ media) e = absurd (omega arith)
  set_rebuilt-IsRebuilt offset (suc n) k [] e = elim (Bool-cases (rebuild_extent p k)) [
    | inr kept ↦
        Sets-kept offset n k [] kept
          (set_rebuilt-IsRebuilt offset n (k + 1) [] (ground (arith, e, kept)))
    | inl chosen ↦ absurd (ground (arith, e, chosen))
  ]
  set_rebuilt-IsRebuilt offset (suc n) k (m ∷ media) e = elim (Bool-cases (rebuild_extent p k)) [
    | inr kept ↦
        Sets-kept offset n k (m ∷ media) kept
          (set_rebuilt-IsRebuilt offset n (k + 1) (m ∷ media) (ground (arith, e, kept)))
    | inl chosen ↦
        Sets-chosen offset n k m media chosen
          (set_rebuilt-IsRebuilt offset n (k + 1) media (ground (arith, e, chosen)))
  ]

  -- A rebuild of a layout in order, with a list of distinct indexes that are in bounds or without a
  -- list: the number of extents to rebuild is the sum of those of the splits, and with as many media
  -- as a split needs, the rebuild sets one extent on each, for just the indexes of the split to
  -- rebuild. A split has some extents, and their number is a `size_t`.
  pub raid_rebuilder_set_extent_info-IsRebuilt :
      (split offset : ℕ) (media : List PhoId)
      → IsValid p
      → Distinct p.extents_idx
      → 0 < per_split
      → per_split < u64_mod
      → length media ≡ current_split_rebuild_n_extent p split
      → (raid_get_nb_extent_to_rebuild p
          ≡ pos (sum_range (raid_get_nb_split p) (current_split_rebuild_n_extent p)))
        × ((es : List LayoutExtent) × (raid_rebuilder_set_extent_info p split offset media
              ≡ some es)
            × IsRebuilt offset per_split (split * per_split) media es)
  unfolding raid_rebuilder_set_extent_info
  raid_rebuilder_set_extent_info-IsRebuilt split offset media valid distinct some_extent small e = (
    raid_get_nb_extent_to_rebuild-sum p valid some_extent small,
    set_rebuilt-IsRebuilt offset per_split (split * per_split) media
        (e ∙ sym (count-rebuild_extent split valid distinct small)),
  )
