-- ===== src/Raid/Sizes/Examples.antt =====
-- The sizes of a concrete split, and an instance of each theorem on sizes.
use phobos.Base.{inr, ℕ, ◌+◌, ◌*◌, ◌<◌, ◌≡◌, refl, List, [], ◌∷◌, map, arith}
use phobos.Raid.Sizes.{
  extent_size_at, set_extent_sizes, set_rebuilt_sizes, cap_sizes, Writer, writer_split_sizes,
  split_size, rebuilder_get_extent_size, raid_get_current_split_size,
  xfer_remain_to_write_per_medium,
}
use phobos.Raid.Sizes.Written.{Fits, writer_split_sizes-Fits, writer_split_sizes-forward}
use phobos.Raid.Sizes.Rebuilt.{set_rebuilt_sizes-written}
use phobos.Raid.Sizes.Room.{IsEnough, xfer_remain_to_write_per_medium-IsEnough}
use phobos.Raid.Rebuild.{offset_from}

-- 101 bytes, of which 20 are written, in two data extents.
abbrev writer : Writer
writer = record {
  object_size = 101;
  writer_offset = 20;
  current_split_offset = 20;
  chunk_size = 8;
  n_data_extents = 2;
}

abbrev large : List ℕ
large = 100 ∷ 60 ∷ 70 ∷ []

abbrev small : List ℕ
small = 100 ∷ 30 ∷ 70 ∷ []

ends : writer_split_sizes writer large ≡ (40, 1)
unfolding writer_split_sizes cap_sizes
ends = refl

aligned : writer_split_sizes writer small ≡ (24, 0)
unfolding writer_split_sizes cap_sizes
aligned = refl

three_sizes : set_extent_sizes 2 40 1 3 0 ≡ 41 ∷ 40 ∷ 41 ∷ []
unfolding set_extent_sizes extent_size_at
three_sizes = refl

-- The medium has no room for the remainder.
over_by_one : (writer_split_sizes writer (40 ∷ 40 ∷ 40 ∷ [])) ≡ (40, 1)
unfolding writer_split_sizes cap_sizes
over_by_one = refl

writer_split_sizes-Fits_example :
    Fits writer small (writer_split_sizes writer small).0 (writer_split_sizes writer small).1
writer_split_sizes-Fits_example = writer_split_sizes-Fits writer small (omega arith) (omega arith)

writer_split_sizes-forward_example :
    0 < split_size 2 (writer_split_sizes writer small).0 (writer_split_sizes writer small).1 2 0
writer_split_sizes-forward_example =
    writer_split_sizes-forward writer small (omega arith) (omega arith) (omega arith)
      (omega arith, (omega arith, (omega arith, tt)))

-- The second split of an object of 161 bytes begins at 80, and is the last one.
set_rebuilt_sizes-written_example :
    set_rebuilt_sizes 2 3
      (rebuilder_get_extent_size 2 (raid_get_current_split_size [] 3 161 1 80)).0
      (rebuilder_get_extent_size 2 (raid_get_current_split_size [] 3 161 1 80)).1
      (map (λ i. 1 * 3 + i) (2 ∷ 1 ∷ []))
    ≡ map (extent_size_at 2 40 1) (2 ∷ 1 ∷ [])
unfolding split_size extent_size_at offset_from
set_rebuilt_sizes-written_example =
    set_rebuilt_sizes-written 2 1 40 1 1 161 80 [] (2 ∷ 1 ∷ []) (omega arith)
      (omega arith, (omega arith, tt)) (omega arith, inr (refl, refl))

xfer_remain_to_write_per_medium-IsEnough_example :
    IsEnough 2 (inr 4) 101 20 (5 ∷ []) (xfer_remain_to_write_per_medium 2 (inr 4) 101 20 (5 ∷ []))
xfer_remain_to_write_per_medium-IsEnough_example =
    xfer_remain_to_write_per_medium-IsEnough 2 (inr 4) 101 20 (5 ∷ []) (omega arith)
