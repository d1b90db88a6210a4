-- ===== src/Raid/Rebuild/Examples.antt =====
-- A layout of RAID 4 with a lost extent, and an instance of each theorem on rebuilds.
use phobos.Base.{ℕ, ◌≡◌, ◌↔◌, refl, Bool, true, false, List, [], ◌∷◌, none, some, arith}
use phobos.Base.Ints.{pos}
use phobos.Types.{tape, PhoId}
use phobos.Raid.Locate.Splits.{count_range}
use phobos.Raid.Rebuild.Counts.{sum_range}
use phobos.Raid.Rebuild.{
  offset_from, LayoutExtent, Processor, extent_from_layout_idx, max_layout_idx,
  split_src_layout_n_extent, layout_idx_in_extent_list, count_found, any_out_of_bounds,
  raid_get_nb_split, raid_get_nb_extent_to_rebuild, validate_split, validate_from,
  rebuilder_validate_extent_list, current_split_rebuild_n_extent,
}
use phobos.Raid.Rebuild.Validate.{
  is_source, IsRebuildable, rebuilder_validate_extent_list-IsRebuildable,
}
use phobos.Raid.Rebuild.Requests.{
  ReadRequest, read, build_read_request, raid_rebuilder_set_extent_info,
}
use phobos.Raid.Rebuild.Served.{Serves, build_read_request-IsServed}
use phobos.Raid.Rebuild.Rebuilt.{IsRebuilt, raid_rebuilder_set_extent_info-IsRebuilt}
use phobos.Raid.Rebuild.Seek.{
  Cursor, decoder, encoder, Sought, seek_from, raid_seek_next_missing_split,
  raid_seek_next_missing_split-Sought,
}

abbrev medium : ℕ → PhoId
medium n = record { family = tape; name = n ∷ []; library = 9 ∷ [] }

abbrev extent_at : ℕ → ℕ → LayoutExtent
extent_at i offset = record { layout_idx = i; media = medium i; offset = offset }

-- Two splits of three extents; the second lacks the index 4.
abbrev layout : List LayoutExtent
layout = extent_at 0 0 ∷ extent_at 1 0 ∷ extent_at 2 0 ∷ extent_at 3 80 ∷ extent_at 5 80 ∷ []

abbrev rebuild_all : Processor
rebuild_all = record {
  is_rebuilder = true;
  extents = layout;
  n_data_extents = 2;
  n_parity_extents = 1;
  extents_idx = [];
  media_read = none;
}

-- The request to rebuild the indexes 1 and 4.
abbrev rebuild_listed : Processor
rebuild_listed = record rebuild_all { extents_idx = pos 1 ∷ pos 4 ∷ [] }

accepted : rebuilder_validate_extent_list rebuild_listed ≡ some true
unfolding rebuilder_validate_extent_list validate_from validate_split any_out_of_bounds count_found
    split_src_layout_n_extent layout_idx_in_extent_list extent_from_layout_idx count_range
    max_layout_idx
accepted = refl

-- Two extents of one split are too many.
rejected :
    rebuilder_validate_extent_list (record rebuild_all { extents_idx = pos 1 ∷ pos 2 ∷ [] })
    ≡ some false
unfolding rebuilder_validate_extent_list validate_from validate_split any_out_of_bounds count_found
    split_src_layout_n_extent layout_idx_in_extent_list extent_from_layout_idx count_range
    max_layout_idx
rejected = refl

rebuilder_validate_extent_list-IsRebuildable_example :
    (b : Bool) × (rebuilder_validate_extent_list rebuild_listed ≡ some b)
    × ((b ≡ true) ↔ IsRebuildable rebuild_listed)
rebuilder_validate_extent_list-IsRebuildable_example =
    rebuilder_validate_extent_list-IsRebuildable rebuild_listed (omega arith) (omega arith)

build_read_request-IsServed_example :
    (r : ReadRequest) × (build_read_request rebuild_listed read 1 ≡ some r)
    × Serves rebuild_listed 3 6 (count_range 3 3 (is_source rebuild_listed)) r
unfolding max_layout_idx
build_read_request-IsServed_example =
    build_read_request-IsServed rebuild_listed 1 (omega arith) (omega arith) refl refl refl accepted
      (omega arith)

raid_rebuilder_set_extent_info-IsRebuilt_example :
    (raid_get_nb_extent_to_rebuild rebuild_all
      ≡ pos
          (sum_range (raid_get_nb_split rebuild_all) (current_split_rebuild_n_extent rebuild_all)))
    × ((es : List LayoutExtent) × (raid_rebuilder_set_extent_info rebuild_all 1 80 (medium 7 ∷ [])
          ≡ some es)
        × IsRebuilt rebuild_all 80 3 3 (medium 7 ∷ []) es)
unfolding current_split_rebuild_n_extent split_src_layout_n_extent extent_from_layout_idx
    count_range
raid_rebuilder_set_extent_info-IsRebuilt_example =
    raid_rebuilder_set_extent_info-IsRebuilt rebuild_all 1 80 (medium 7 ∷ [])
      (
        (
          (omega arith, (omega arith, (omega arith, (omega arith, tt)))),
          (
            (omega arith, (omega arith, (omega arith, tt))),
            ((omega arith, (omega arith, tt)), ((omega arith, tt), (tt, tt))),
          ),
        ),
        tt,
      )
      tt (omega arith) (omega arith) refl

abbrev start : Cursor
start = record {
  current_split = 0;
  current_split_offset = 0;
  current_split_missing_count = 0;
  writer_offset = 0;
  reader_offset = 0;
  buffer_offset = 0;
}

finds :
    raid_seek_next_missing_split rebuild_all decoder true start
    ≡ some (
      true,
      record start {
        current_split = 1;
        current_split_offset = 80;
        reader_offset = 80;
        buffer_offset = 80;
      },
    )
unfolding raid_seek_next_missing_split seek_from offset_from current_split_rebuild_n_extent
    split_src_layout_n_extent extent_from_layout_idx count_range max_layout_idx count_found
finds = refl

raid_seek_next_missing_split-Sought_example :
    (r : Bool × Cursor) × (raid_seek_next_missing_split rebuild_all encoder true start ≡ some r)
    × Sought rebuild_all encoder true 0 r
raid_seek_next_missing_split-Sought_example =
    raid_seek_next_missing_split-Sought rebuild_all encoder true start
      (omega arith, (omega arith, (omega arith, (omega arith, tt)))) (λ e. absurd (ground arith))
      (omega arith)

-- The second split has lost all its extents: the offset is that of the third.
abbrev split_gone : Processor
split_gone = record rebuild_all {
  extents =
      extent_at 0 0
      ∷ extent_at 1 0
      ∷ extent_at 2 0
      ∷ extent_at 6 160
      ∷ extent_at 7 160
      ∷ extent_at 8 160
      ∷ [];
}

finds_later :
    raid_seek_next_missing_split split_gone encoder false start
    ≡ some (
      true,
      record start {
        current_split = 1;
        current_split_offset = 160;
        current_split_missing_count = 3;
      },
    )
unfolding raid_seek_next_missing_split seek_from offset_from current_split_rebuild_n_extent
    split_src_layout_n_extent extent_from_layout_idx count_range max_layout_idx count_found
finds_later = refl
