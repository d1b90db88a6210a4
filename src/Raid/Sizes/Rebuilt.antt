-- ===== src/Raid/Sizes/Rebuilt.antt =====
-- The sizes of the extents that a rebuild writes again.
use native.Mathlib.Nat.{
  mul-add-div, div-eq_of_lt, mul-add-mod_self_left, mul-add-mod_self_right, mod-eq_of_lt,
}
use phobos.Base.{
  ℕ, ◌+◌, ◌*◌, ◌/◌, ◌%◌, ◌≤◌, ◌<◌, ◌≡◌, refl, ◌∙◌, inl, inr, ◌⊎◌, none, some, List, [], ◌∷◌, arith,
  All, map,
}
use phobos.Raid.Rebuild.{LayoutExtent, offset_from}
use phobos.Raid.Sizes.{
  extent_size_at, set_rebuilt_sizes, split_size, rebuilder_get_extent_size,
  raid_get_current_split_size,
}
use phobos.Raid.Sizes.Written.{split_size-total}

quotient : (n a r : ℕ) → r < n → (n * a + r) / n ≡ a
quotient n a r lt = mul-add-div some_extent a r ∙ omega (arith, div-eq_of_lt lt)
  where
    some_extent : 0 < n
    some_extent = omega arith

rest : (n a r : ℕ) → r < n → (n * a + r) % n ≡ r
rest n a r lt = mul-add-mod_self_left n a r ∙ mod-eq_of_lt lt

-- The offsets of the layout say that a split has this size: the next extent begins behind it, or
-- the object ends there.
abbrev pub IsSplitSize : List LayoutExtent → ℕ → ℕ → ℕ → ℕ → ℕ → Type 0
IsSplitSize extents n_total_extents object_size split offset size =
    (offset + size ≤ object_size)
    × ((offset_from extents ((split + 1) * n_total_extents) ≡ some (offset + size))
        ⊎ ((offset_from extents ((split + 1) * n_total_extents) ≡ none)
            × (offset + size ≡ object_size)))

current_split_size_lem :
    (extents : List LayoutExtent) (n_total object_size split offset size : ℕ)
    → IsSplitSize extents n_total object_size split offset size
    → raid_get_current_split_size extents n_total object_size split offset ≡ size
unfolding raid_get_current_split_size
current_split_size_lem extents n_total object_size split offset size (le, inl e) =
    rw (e, raid_get_current_split_size) (omega arith)
current_split_size_lem extents n_total object_size split offset size (le, inr (e, f)) =
    rw (e, raid_get_current_split_size) (omega arith)

-- A rebuild gives the extents of a split the sizes that the writer gave them, at their places: it
-- computes the extent size and the remainder again from the size of the split, which the offsets
-- of the layout tell.
pub set_rebuilt_sizes-written :
    (n_data n_parity size remainder split object_size offset : ℕ) (extents : List LayoutExtent)
    (places : List ℕ)
    → remainder < n_data
    → All (λ i. i < n_data + n_parity) places
    → IsSplitSize extents
        (n_data + n_parity)
        object_size
        split
        offset
        (split_size n_data size remainder n_data 0)
    → let (size', remainder') =
        rebuilder_get_extent_size n_data
          (raid_get_current_split_size extents (n_data + n_parity) object_size split offset) in
      set_rebuilt_sizes n_data
        (n_data + n_parity)
        size'
        remainder'
        (map (λ i. split * (n_data + n_parity) + i) places)
      ≡ map (extent_size_at n_data size remainder) places
unfolding rebuilder_get_extent_size set_rebuilt_sizes
set_rebuilt_sizes-written n_data n_parity size remainder split object_size offset extents places lt
      all told =
    rw
      (
        current_split_size_lem extents (n_data + n_parity) object_size split offset
            (split_size n_data size remainder n_data 0) told,
        split_size-total n_data size remainder lt,
        quotient n_data size remainder lt,
        rest n_data size remainder lt,
      )
      (each places all)
  where
    each :
        (places : List ℕ)
        → All (λ i. i < n_data + n_parity) places
        → set_rebuilt_sizes n_data
            (n_data + n_parity)
            size
            remainder
            (map (λ i. split * (n_data + n_parity) + i) places)
          ≡ map (extent_size_at n_data size remainder) places
    each [] all = refl
    each (i ∷ is) (lt_i, all) =
        let e : (split * (n_data + n_parity) + i) % (n_data + n_parity) ≡ i =
          mul-add-mod_self_right split (n_data + n_parity) i ∙ mod-eq_of_lt lt_i in
        rw (e, each is all) refl
