-- ===== src/Raid/Rebuild/Validate.antt =====
-- The check of a list of extents to rebuild, and what a rebuild can then read.
use native.Mathlib.Decide.{ℕ_discrete}
use phobos.Base.{
  ℕ, zero, suc, ◌+◌, ◌*◌, ◌≤◌, ◌<◌, ◌≡◌, refl, inl, inr, sym, ◌∙◌, ◌↔◌, Bool, true, false, not,
  ◌&&◌, List, [], ◌∷◌, none, some, arith, leb, ◌==◌, Bool-cases, Option-cases, All,
}
use phobos.Base.Ints.{ℤ}
use phobos.Base.Words.{sub64, sub64_of_le, u64_mod}
use phobos.Raid.Locate.Splits.{count_range}
use phobos.Raid.Rebuild.Counts.{count_range_le, count_range_ext, count_range-not}
use phobos.Raid.Rebuild.{
  LayoutExtent, Processor, is_empty, has_extent, extent_from_layout_idx, split_src_layout_n_extent,
  layout_idx_in_extent_list, count_found, any_out_of_bounds, is_out_of_bounds, n_total_extents,
  max_idx, validate_split, validate_from, rebuilder_validate_extent_list, rebuilder_can_read_extent,
  can_read_at, current_split_read_alloc_n_extent,
}

-- An index that some extent of the layout may have.
abbrev pub InBounds : ℕ → ℤ → Type 0
InBounds max i = is_out_of_bounds max i ≡ false

pub any_out_of_bounds_iff :
    (max : ℕ) (is : List ℤ) → (any_out_of_bounds max is ≡ false) ↔ All (InBounds max) is
unfolding any_out_of_bounds
any_out_of_bounds_iff max [] = ((λ h. tt), λ a. refl)
any_out_of_bounds_iff max (i ∷ is) = (
  (λ h. (ground arith, (any_out_of_bounds_iff max is).0 (ground arith))),
  λ (a, b). ground (arith, a, (any_out_of_bounds_iff max is).1 b),
)

module _ (p : Processor) where
  open p use {extents, n_data_extents, n_parity_extents, extents_idx}

  abbrev per_split : ℕ
  per_split = n_total_extents p

  -- An extent that is there and that the list does not ask to rebuild.
  abbrev pub is_source : ℕ → Bool
  is_source idx = has_extent extents idx && not (layout_idx_in_extent_list extents_idx idx)

  -- The list asks for no more extents of the split than its parity, and leaves enough to read.
  abbrev pub Rebuildable : ℕ → Type 0
  Rebuildable split =
      (count_found extents_idx (split * per_split) ((split + 1) * per_split) ≤ n_parity_extents)
      × (n_data_extents ≤ count_range per_split (split * per_split) is_source)

  -- The subtraction of the check does not wrap.
  left_lem :
      (split : ℕ)
      → per_split < u64_mod
      → sub64 (split_src_layout_n_extent extents split per_split) (
          count_range per_split
            (split * per_split)
            (λ idx. has_extent extents idx && layout_idx_in_extent_list extents_idx idx))
        ≡ count_range per_split (split * per_split) is_source
  unfolding split_src_layout_n_extent
  left_lem split small =
      let parts =
        count_range-not per_split (split * per_split) (has_extent extents)
          (layout_idx_in_extent_list extents_idx) in
      let bound = count_range_le per_split (split * per_split) (has_extent extents) in
      sub64_of_le (count_range per_split (split * per_split) (has_extent extents)) _
        (omega (arith, parts)) (omega (arith, bound))
      ∙ omega (arith, parts)

  validate_split_iff :
      (split : ℕ)
      → per_split < u64_mod
      → (validate_split p split ≡ true)
        ↔ ((any_out_of_bounds (max_idx p) extents_idx ≡ false) × Rebuildable split)
  unfolding validate_split
  validate_split_iff split small = rw (left_lem split small, validate_split) (ground arith)

  -- The list is in the bounds of the layout, and each split up to the last one is rebuildable.
  abbrev pub IsRebuildable : Type 0
  IsRebuildable =
      All (InBounds (max_idx p)) extents_idx
      × ((split : ℕ) → split * per_split ≤ max_idx p → Rebuildable split)

  -- The answer of the loop from a split on.
  abbrev Judged : ℕ → Bool → Type 0
  Judged split b =
      (b ≡ true) ↔ ((k : ℕ) → split ≤ k → k * per_split ≤ max_idx p → validate_split p k ≡ true)

  mul_mono : (a b : ℕ) → a ≤ b → a * per_split ≤ b * per_split
  mul_mono a b h = grind arith

  le_mul : (a : ℕ) → 0 < per_split → a ≤ a * per_split
  le_mul zero h = omega arith
  le_mul (suc a) h =
      let e : suc a * per_split ≡ a * per_split + per_split = grind arith in
      omega (arith, e, le_mul a h)

  validate_from-Judged :
      (rounds split : ℕ)
      → 0 < per_split
      → split ≤ max_idx p + 1
      → max_idx p + 2 ≤ rounds + split
      → (b : Bool) × (validate_from p rounds split ≡ some b) × Judged split b
  unfolding validate_from
  validate_from-Judged zero split some_extent near enough = absurd (omega arith)
  validate_from-Judged (suc rounds) split some_extent near enough =
      elim (Bool-cases (leb (split * per_split) (max_idx p))) [
        | inr over ↦
            rw (over, validate_from)
              (true, refl, ((λ h k lo hi. absurd (ground (arith, mul_mono split k lo))), λ f. refl))
        | inl within ↦
            let (b, q, judged) =
              validate_from-Judged rounds (split + 1) some_extent
                (ground (arith, le_mul split some_extent)) (omega arith) in
            elim (Bool-cases (validate_split p split)) [
              | inr bad ↦
                  rw (within, bad, validate_from)
                    (
                      false,
                      refl,
                      (
                        (λ h. absurd (ground arith)),
                        λ f. sym bad ∙ f split (omega arith) (ground arith),
                      ),
                    )
              | inl good ↦
                  rw (within, good, q, validate_from)
                    (
                      b,
                      refl,
                      (
                        (λ h k lo hi. elim (ℕ_discrete split k) [
                          | yes same ↦ rw (← same) good
                          | no other ↦ judged.0 h k (omega arith) hi
                        ]),
                        λ f. judged.1 (λ k lo hi. f k (omega arith) hi),
                      ),
                    )
            ]
      ]

  -- The check ends, and it accepts exactly the lists of indexes of the layout that ask for no more
  -- extents of a split than its parity, and leave in each split enough of the others to read. A
  -- split has some extents, and their number is a `size_t`.
  pub rebuilder_validate_extent_list-IsRebuildable :
      0 < per_split
      → per_split < u64_mod
      → (b : Bool) × (rebuilder_validate_extent_list p ≡ some b) × ((b ≡ true) ↔ IsRebuildable)
  unfolding rebuilder_validate_extent_list
  rebuilder_validate_extent_list-IsRebuildable some_extent small =
      let (b, q, judged) =
        validate_from-Judged (max_idx p + 2) 0 some_extent (omega arith) (omega arith) in
      (
        b,
        q,
        (
          (λ h. (
            (any_out_of_bounds_iff (max_idx p) extents_idx).0
                ((validate_split_iff 0 small).0 (judged.0 h 0 (omega arith) (omega arith))).0,
            λ k hi. ((validate_split_iff k small).0 (judged.0 h k (omega arith) hi)).1,
          )),
          λ (inside, each). judged.1 (λ k lo hi.
              (validate_split_iff k small).1
                ((any_out_of_bounds_iff (max_idx p) extents_idx).1 inside, each k hi)),
        ),
      )

  found_idx :
      (es : List LayoutExtent) (idx : ℕ) (e : LayoutExtent)
      → extent_from_layout_idx es idx ≡ some e
      → e.layout_idx ≡ idx
  unfolding extent_from_layout_idx
  found_idx [] idx e h = cc
  found_idx (f ∷ es) idx e h = elim (Bool-cases (f.layout_idx == idx)) [
    | inl same ↦ ground (arith, h)
    | inr other ↦ found_idx es idx e (ground arith)
  ]

  pub can_read_at_lem :
      (idx : ℕ)
      → p.is_rebuilder ≡ true
      → p.media_read ≡ none
      → is_empty extents_idx ≡ false
      → can_read_at p idx ≡ is_source idx
  unfolding rebuilder_can_read_extent
  can_read_at_lem idx rebuilds any asked =
      elim (Option-cases (extent_from_layout_idx extents idx)) [
        | inl e ↦ rw (can_read_at, e) refl
        | inr (x, e) ↦
            let same : x.layout_idx ≡ idx = found_idx extents idx x e in
            rw (can_read_at, e, rebuilder_can_read_extent, rebuilds, any, asked, same)
              (ground arith)
      ]

  -- Once the list to rebuild is accepted, every split up to the last one has enough extents to read
  -- from: the read allocation passes its assertion. No medium to read from is imposed.
  pub current_split_read_alloc-enough :
      (split : ℕ)
      → 0 < per_split
      → per_split < u64_mod
      → p.is_rebuilder ≡ true
      → p.media_read ≡ none
      → is_empty extents_idx ≡ false
      → rebuilder_validate_extent_list p ≡ some true
      → split * per_split ≤ max_idx p
      → n_data_extents ≤ current_split_read_alloc_n_extent p split
  unfolding current_split_read_alloc_n_extent
  current_split_read_alloc-enough split some_extent small rebuilds any asked accepted within =
      let (b, q, judged) = rebuilder_validate_extent_list-IsRebuildable some_extent small in
      let yes_true : b ≡ true = ground (arith, q, accepted) in
      let enough = ((judged.0 yes_true).1 split within).1 in
      omega (
        arith,
        enough,
        count_range_ext per_split (split * per_split) (can_read_at p) is_source
            (λ idx. can_read_at_lem idx rebuilds any asked),
      )
