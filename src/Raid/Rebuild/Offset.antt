-- ===== src/Raid/Rebuild/Offset.antt =====
-- The offset that `raid_seek_next_missing_split` of src/layout/raid_common.c takes for a split, and
-- the order of the extents of a layout.
use phobos.Base.{
  ℕ, ◌≤◌, ◌<◌, ◌≡◌, ◌≢◌, refl, inl, inr, true, List, [], ◌∷◌, some, arith, ltb, Bool-cases,
}
use phobos.Raid.Rebuild.{
  LayoutExtent, has_extent, extent_from_layout_idx, max_layout_idx, offset_from,
}

-- The extents are in the order of their layout indexes, one for each index at most.
abbrev pub IsAscending : List LayoutExtent → Type 0
IsAscending [] = Unit {0}
IsAscending (e ∷ []) = Unit {0}
IsAscending (e ∷ f ∷ es) = (e.layout_idx < f.layout_idx) × IsAscending (f ∷ es)

-- The offset is that of the extent with the least index from `first` on.
abbrev pub FirstFrom : List LayoutExtent → ℕ → ℕ → Type 0
FirstFrom es first offset =
    (e : LayoutExtent) × (extent_from_layout_idx es e.layout_idx ≡ some e)
    × (first ≤ e.layout_idx)
    × ((j : ℕ) → first ≤ j → has_extent es j ≡ true → e.layout_idx ≤ j)
    × (e.offset ≡ offset)

has_extent_le :
    (e : LayoutExtent) (es : List LayoutExtent) (j : ℕ)
    → IsAscending (e ∷ es)
    → has_extent (e ∷ es) j ≡ true
    → e.layout_idx ≤ j
unfolding extent_from_layout_idx
has_extent_le e [] j up h = ground arith
has_extent_le e (f ∷ es) j (lt, up) h = ground (arith, has_extent_le f es j up)

pub offset_from-FirstFrom :
    (es : List LayoutExtent) (first : ℕ)
    → IsAscending es
    → es ≢ []
    → first ≤ max_layout_idx es
    → (offset : ℕ) × (offset_from es first ≡ some offset) × FirstFrom es first offset
unfolding offset_from max_layout_idx extent_from_layout_idx
offset_from-FirstFrom [] first up non h = absurd (non refl)
offset_from-FirstFrom (e ∷ []) first up non h =
    (e.offset, ground arith, (e, ground arith, ground arith, (λ j lo is. ground arith), refl))
offset_from-FirstFrom (e ∷ f ∷ es) first up non h = elim (Bool-cases (ltb e.layout_idx first)) [
  | inr here ↦ (
    e.offset,
    ground arith,
    (e, ground arith, ground arith, (λ j lo is. has_extent_le e (f ∷ es) j up is), refl),
  )
  | inl later ↦
      let (offset, q, (g, found, lo, least, same)) =
        offset_from-FirstFrom (f ∷ es) first up.1 (λ n. absurd (ground arith)) h in
      (
        offset,
        rw (later, offset_from) q,
        (g, ground (arith, found), lo, (λ j lo' is. ground (arith, least j lo')), same),
      )
]
