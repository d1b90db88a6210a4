-- ===== src/Raid/Rebuild/Requests.antt =====
-- The media that a split is read from, and the extents that a rebuild sets.
use phobos.Base.{
  ℕ, zero, suc, ◌+◌, ◌*◌, Bool, true, false, not, List, [], ◌∷◌, Option, none, some, leb, ◌==◌,
  if◌then◌else◌,
}
use phobos.Base.Ints.{ℤ, pos, negsuc}
use phobos.Types.{PhoId}
use phobos.Raid.Rebuild.{
  LayoutExtent, Processor, is_empty, has_extent, extent_from_layout_idx, rebuilder_can_read_extent,
  current_split_read_alloc_n_extent, n_total_extents,
}

-- What a processor does with the extents that it reads; an eraser deletes them.
pub data Operation : Type 0 where
  read delete : Operation

pub record ReadRequest : Type 0 where
  pub n_required : ℕ
  pub operation : Operation
  pub med_ids : List PhoId

module _ (p : Processor) where
  -- The loop that fills the request, over the layout indexes left.
  unfoldable pub readable_media : ℕ → ℕ → List PhoId
  unfolding extent_from_layout_idx rebuilder_can_read_extent
  readable_media zero layout_idx = []
  readable_media (suc n) layout_idx =
      let rest = readable_media n (layout_idx + 1) in
      elim (extent_from_layout_idx p.extents layout_idx) [
        | none ↦ rest
        | some e ↦ if rebuilder_can_read_extent p e then e.media ∷ rest else rest
      ]

  -- `raid_reader_eraser_build_allocation_req`; none is the failed assertion.
  unfoldable pub build_read_request : Operation → ℕ → Option ReadRequest
  unfolding current_split_read_alloc_n_extent readable_media
  build_read_request delete split = some (record {
    n_required = current_split_read_alloc_n_extent p split;
    operation = delete;
    med_ids = readable_media (n_total_extents p) (split * n_total_extents p);
  })
  build_read_request read split =
      if leb p.n_data_extents (current_split_read_alloc_n_extent p split)
      then some (record {
        n_required = p.n_data_extents;
        operation = read;
        med_ids = readable_media (n_total_extents p) (split * n_total_extents p);
      })
      else none

unfoldable pub extent_from_rebuild_list : List ℤ → ℕ → Bool
extent_from_rebuild_list [] idx = false
extent_from_rebuild_list (pos i ∷ is) idx =
    if i == idx then true else extent_from_rebuild_list is idx
extent_from_rebuild_list (negsuc i ∷ is) idx = extent_from_rebuild_list is idx

module _ (p : Processor) where
  abbrev pub rebuild_extent : ℕ → Bool
  rebuild_extent idx =
      if not (is_empty p.extents_idx)
      then extent_from_rebuild_list p.extents_idx idx
      else not (has_extent p.extents idx)

  -- The loop of `raid_rebuilder_set_extent_info` over the layout indexes left; none is a read behind
  -- the array of media.
  unfoldable pub set_rebuilt : ℕ → ℕ → ℕ → List PhoId → Option (List LayoutExtent)
  unfolding extent_from_rebuild_list extent_from_layout_idx
  set_rebuilt offset zero idx media = some []
  set_rebuilt offset (suc n) idx [] =
      let rest = set_rebuilt offset n (idx + 1) [] in if rebuild_extent idx then none else rest
  set_rebuilt offset (suc n) idx (m ∷ media) =
      let later = set_rebuilt offset n (idx + 1) media in
      let rest = set_rebuilt offset n (idx + 1) (m ∷ media) in
      if rebuild_extent idx
      then elim later [
        | none ↦ none
        | some es ↦ some (record { layout_idx = idx; media = m; offset = offset } ∷ es)
      ]
      else rest

  unfoldable pub raid_rebuilder_set_extent_info : ℕ → ℕ → List PhoId → Option (List LayoutExtent)
  unfolding set_rebuilt
  raid_rebuilder_set_extent_info split offset =
      set_rebuilt offset (n_total_extents p) (split * n_total_extents p)
