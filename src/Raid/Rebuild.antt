-- ===== src/Raid/Rebuild.antt =====
-- The splits of a layout and what a rebuild adds to them, in src/layout/raid_common.c: split `s`
-- is the range of `n_total_extents` layout indexes from `s * n_total_extents` on.
use phobos.Base.{
  ℕ, zero, suc, ◌+◌, ◌-◌, ◌*◌, ◌/◌, Bool, true, false, not, ◌&&◌, ◌||◌, List, [], ◌∷◌, Option, none,
  some, ltb, leb, ◌==◌, if◌then◌else◌, length,
}
use phobos.Base.Ints.{ℤ, pos, negsuc, as_size_t, sub_int}
use phobos.Base.Words.{sub64}
use phobos.Types.{PhoId, pho_id_equal}
use phobos.Raid.Locate.Splits.{count_range}
mod Counts
mod Validate
mod Missing
mod Offset
mod Seek
mod Requests
mod Served
mod Rebuilt
mod Examples

pub record LayoutExtent : Type 0 where
  pub layout_idx : ℕ
  pub media : PhoId
  pub offset : ℕ

-- What the functions read of a data processor. No `extents_idx` asks for all that is missing.
pub record Processor : Type 0 where
  pub is_rebuilder : Bool
  pub extents : List LayoutExtent
  pub n_data_extents : ℕ
  pub n_parity_extents : ℕ
  pub extents_idx : List ℤ
  pub media_read : Option PhoId

abbrev pub is_some {ℓ} : {A : Type ℓ} → Option A → Bool
is_some none = false
is_some (some a) = true

abbrev pub is_empty {ℓ} : {A : Type ℓ} → List A → Bool
is_empty [] = true
is_empty (x ∷ xs) = false

-- The index of the last extent; a layout without extents does not come here.
unfoldable pub max_layout_idx : List LayoutExtent → ℕ
max_layout_idx [] = 0
max_layout_idx (e ∷ []) = e.layout_idx
max_layout_idx (e ∷ f ∷ es) = max_layout_idx (f ∷ es)

unfoldable pub extent_from_layout_idx : List LayoutExtent → ℕ → Option LayoutExtent
extent_from_layout_idx [] idx = none
extent_from_layout_idx (e ∷ es) idx =
    if e.layout_idx == idx then some e else extent_from_layout_idx es idx

abbrev pub has_extent : List LayoutExtent → ℕ → Bool
has_extent extents idx = is_some (extent_from_layout_idx extents idx)

unfoldable pub split_src_layout_n_extent : List LayoutExtent → ℕ → ℕ → ℕ
split_src_layout_n_extent extents split per_split =
    count_range per_split (split * per_split) (has_extent extents)

unfoldable pub layout_idx_in_extent_list : List ℤ → ℕ → Bool
layout_idx_in_extent_list [] idx = false
layout_idx_in_extent_list (i ∷ is) idx =
    if as_size_t i == idx then true else layout_idx_in_extent_list is idx

-- The entries of the list that are in the range from `first` to before `excluded`.
unfoldable pub count_found : List ℤ → ℕ → ℕ → ℕ
count_found [] first excluded = 0
count_found (i ∷ is) first excluded =
    let rest = count_found is first excluded in
    if leb first (as_size_t i) && ltb (as_size_t i) excluded then rest + 1 else rest

-- extents_idx[i] < 0 || extents_idx[i] > max_layout_idx
abbrev pub is_out_of_bounds : ℕ → ℤ → Bool
is_out_of_bounds max (pos i) = ltb max i
is_out_of_bounds max (negsuc i) = true

unfoldable pub any_out_of_bounds : ℕ → List ℤ → Bool
any_out_of_bounds max [] = false
any_out_of_bounds max (i ∷ is) = is_out_of_bounds max i || any_out_of_bounds max is

-- The offset of the first extent from an index on.
unfoldable pub offset_from : List LayoutExtent → ℕ → Option ℕ
offset_from [] first = none
offset_from (e ∷ es) first = if ltb e.layout_idx first then offset_from es first else some e.offset

module _ (p : Processor) where
  open p use {extents, n_data_extents, n_parity_extents, extents_idx, media_read}

  abbrev pub n_total_extents : ℕ
  n_total_extents = n_data_extents + n_parity_extents

  abbrev pub max_idx : ℕ
  max_idx = max_layout_idx extents

  unfoldable pub raid_get_nb_split : ℕ
  raid_get_nb_split = max_idx / n_total_extents + 1

  unfoldable pub raid_get_nb_extent_to_rebuild : ℤ
  unfolding raid_get_nb_split
  raid_get_nb_extent_to_rebuild =
      if not (is_empty extents_idx)
      then pos (length extents_idx)
      else sub_int (raid_get_nb_split * n_total_extents) (length extents)

  -- The body of the loop of `rebuilder_validate_extent_list` at a split.
  unfoldable pub validate_split : ℕ → Bool
  unfolding split_src_layout_n_extent any_out_of_bounds count_found
  validate_split split =
      let first = split * n_total_extents in
      let listed_present =
        count_range n_total_extents first
          (λ idx. has_extent extents idx && layout_idx_in_extent_list extents_idx idx) in
      if any_out_of_bounds max_idx extents_idx
      then false
      else if ltb n_parity_extents (count_found extents_idx first ((split + 1) * n_total_extents))
      then false
      else if ltb (sub64 (split_src_layout_n_extent extents split n_total_extents) listed_present)
          n_data_extents
      then false
      else true

  -- The loop, on the rounds left; none when they do not do.
  unfoldable pub validate_from : ℕ → ℕ → Option Bool
  unfolding validate_split
  validate_from zero split = none
  validate_from (suc rounds) split =
      let rest = validate_from rounds (split + 1) in
      if leb (split * n_total_extents) max_idx
      then if validate_split split then rest else some false
      else some true

  unfoldable pub rebuilder_validate_extent_list : Option Bool
  unfolding validate_from
  rebuilder_validate_extent_list = validate_from (max_idx + 2) 0

  unfoldable pub current_split_rebuild_n_extent : ℕ → ℕ
  unfolding count_found split_src_layout_n_extent
  current_split_rebuild_n_extent split =
      if not (is_empty extents_idx)
      then count_found extents_idx (split * n_total_extents) ((split + 1) * n_total_extents)
      else let n_extents = split_src_layout_n_extent extents split n_total_extents in
        if n_extents == n_total_extents then 0 else sub64 n_total_extents n_extents

  unfoldable pub rebuilder_can_read_extent : LayoutExtent → Bool
  unfolding layout_idx_in_extent_list
  rebuilder_can_read_extent e =
      if not p.is_rebuilder
      then true
      else if not (is_empty extents_idx) && layout_idx_in_extent_list extents_idx e.layout_idx
      then false
      else elim media_read [ none ↦ true | some m ↦ pho_id_equal m e.media ]

  abbrev pub can_read_at : ℕ → Bool
  can_read_at idx = elim (extent_from_layout_idx extents idx) [
    | none ↦ false
    | some e ↦ rebuilder_can_read_extent e
  ]

  unfoldable pub current_split_read_alloc_n_extent : ℕ → ℕ
  unfolding rebuilder_can_read_extent
  current_split_read_alloc_n_extent split =
      count_range n_total_extents (split * n_total_extents) can_read_at
