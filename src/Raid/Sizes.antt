-- ===== src/Raid/Sizes.antt =====
-- The sizes of the extents of a split in src/layout/raid_common.c: those that a write chooses, those
-- that a rebuild finds again, and the room that a write asks for.
use phobos.Base.{
  ◌⊎◌, inl, inr, ℕ, zero, suc, ◌+◌, ◌-◌, ◌*◌, ◌/◌, ◌%◌, Bool, true, false, not, ◌&&◌, ◌||◌, List,
  [], ◌∷◌, Option, none, some, ltb, leb, ◌==◌, if◌then◌else◌, min,
}
use phobos.Base.Results.{Errno}
use phobos.Raid.Rebuild.{LayoutExtent, offset_from}
mod Written
mod Rebuilt
mod Room
mod Examples

-- The size of the extent at a place of its split.
unfoldable pub extent_size_at : ℕ → ℕ → ℕ → ℕ → ℕ
extent_size_at n_data_extents extent_size remainder extent_idx =
    if ltb 0 remainder && (ltb extent_idx remainder || leb n_data_extents extent_idx)
    then extent_size + 1
    else extent_size

-- `raid_io_context_set_extent_size` of a writer: the sizes of the extents from the place `i` on.
unfoldable pub set_extent_sizes : ℕ → ℕ → ℕ → ℕ → ℕ → List ℕ
unfolding extent_size_at
set_extent_sizes n_data_extents extent_size remainder zero i = []
set_extent_sizes n_data_extents extent_size remainder (suc n) i =
    extent_size_at n_data_extents extent_size remainder i
    ∷ set_extent_sizes n_data_extents extent_size remainder n (i + 1)

-- The same of a rebuild, for the layout indexes of its extents.
unfoldable pub set_rebuilt_sizes : ℕ → ℕ → ℕ → ℕ → List ℕ → List ℕ
unfolding extent_size_at
set_rebuilt_sizes n_data_extents n_total_extents extent_size remainder [] = []
set_rebuilt_sizes n_data_extents n_total_extents extent_size remainder (idx ∷ is) =
    extent_size_at n_data_extents extent_size remainder (idx % n_total_extents)
    ∷ set_rebuilt_sizes n_data_extents n_total_extents extent_size remainder is

-- The loop of `raid_writer_split_setup` over the media, on the size and the remainder.
unfoldable pub cap_sizes : List ℕ → ℕ × ℕ → ℕ × ℕ
cap_sizes [] (size, remainder) = (size, remainder)
cap_sizes (avail_size ∷ avails) (size, remainder) =
    if ltb avail_size size
    then cap_sizes avails (avail_size, 0)
    else cap_sizes avails (size, remainder)

-- What a writer knows of its object.
pub record Writer : Type 0 where
  pub object_size : ℕ
  pub writer_offset : ℕ
  pub current_split_offset : ℕ
  pub chunk_size : ℕ
  pub n_data_extents : ℕ

module _ (w : Writer) where
  open w use {object_size, writer_offset, current_split_offset, chunk_size, n_data_extents}

  -- A size that does not end the object is a multiple of the chunk, if it is more than one.
  abbrev pub align_size : ℕ × ℕ → ℕ × ℕ
  align_size (size, remainder) =
      if ltb chunk_size size
        && not (object_size == current_split_offset + size * n_data_extents + remainder)
      then (size - size % chunk_size, remainder)
      else (size, remainder)

  -- `raid_writer_split_setup`, the sizes: the extent size and the remainder.
  unfoldable pub writer_split_sizes : List ℕ → ℕ × ℕ
  unfolding cap_sizes
  writer_split_sizes avails =
      let remaining = object_size - writer_offset in
      align_size (cap_sizes avails (remaining / n_data_extents, remaining % n_data_extents))

-- `current_split_size` of a writer: the sum of the sizes of the data extents from `i` on.
unfoldable pub split_size : ℕ → ℕ → ℕ → ℕ → ℕ → ℕ
unfolding extent_size_at
split_size n_data_extents extent_size remainder zero i = 0
split_size n_data_extents extent_size remainder (suc n) i =
    extent_size_at n_data_extents extent_size remainder i
    + split_size n_data_extents extent_size remainder n (i + 1)

-- `raid_get_current_split_size`: up to the offset of the first extent behind the split, or to the
-- end of the object.
unfoldable pub raid_get_current_split_size : List LayoutExtent → ℕ → ℕ → ℕ → ℕ → ℕ
unfolding offset_from
raid_get_current_split_size extents n_total_extents object_size current_split offset =
    let remaining = object_size - offset in
    elim (offset_from extents ((current_split + 1) * n_total_extents)) [
      | none ↦ remaining
      | some next_offset ↦ min (next_offset - offset) remaining
    ]

-- `rebuilder_get_extent_size`: the extent size and the remainder, from the size of the split.
unfoldable pub rebuilder_get_extent_size : ℕ → ℕ → ℕ × ℕ
rebuilder_get_extent_size n_data_extents current_split_size =
    (current_split_size / n_data_extents, current_split_size % n_data_extents)

abbrev pub ceil_div : ℕ → ℕ → ℕ
ceil_div a b = (a + b - 1) / b

-- The room for a target on each medium.
unfoldable pub target_room : ℕ → ℕ → ℕ → ℕ
target_room n_data_extents fs_block_size size =
    let nb_block = ceil_div (ceil_div size n_data_extents) fs_block_size in
    if ltb 0 fs_block_size
    then nb_block * fs_block_size + 3 * fs_block_size
    else ceil_div size n_data_extents

-- The loop of `xfer_remain_to_write_per_medium`, on the sizes that are left of the targets.
unfoldable pub remain_to_write : ℕ → ℕ → List ℕ → ℕ
unfolding target_room
remain_to_write n_data_extents fs_block_size [] = 0
remain_to_write n_data_extents fs_block_size (size ∷ sizes) =
    target_room n_data_extents fs_block_size size
    + remain_to_write n_data_extents fs_block_size sizes

-- The configuration's block size, or its error; the current target, which is partly written, and
-- the ones after it.
unfoldable pub xfer_remain_to_write_per_medium : ℕ → Errno ⊎ ℕ → ℕ → ℕ → List ℕ → Errno ⊎ ℕ
unfolding remain_to_write
xfer_remain_to_write_per_medium n_data_extents (inl rc) object_size writer_offset targets = inl rc
xfer_remain_to_write_per_medium n_data_extents (inr fs_block_size) object_size writer_offset
      targets =
    inr (remain_to_write n_data_extents fs_block_size ((object_size - writer_offset) ∷ targets))
