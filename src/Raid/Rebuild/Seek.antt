-- ===== src/Raid/Rebuild/Seek.antt =====
-- `raid_seek_next_missing_split`: the next split that a rebuild works on.
use native.Mathlib.Decide.{ℕ_discrete}
use phobos.Base.{
  ℕ, zero, suc, ◌+◌, ◌*◌, ◌≤◌, ◌<◌, ◌≡◌, ◌≢◌, refl, inl, inr, Bool, true, false, [], Option, none,
  some, arith, leb, ◌==◌, if◌then◌else◌, Bool-cases,
}
use phobos.Raid.Rebuild.{
  offset_from, Processor, n_total_extents, max_idx, current_split_rebuild_n_extent,
}
use phobos.Raid.Rebuild.Offset.{IsAscending, FirstFrom, offset_from-FirstFrom}

pub data ProcessorType : Type 0 where
  encoder decoder : ProcessorType

-- The fields that the search sets.
pub record Cursor : Type 0 where
  pub current_split : ℕ
  pub current_split_offset : ℕ
  pub current_split_missing_count : ℕ
  pub writer_offset : ℕ
  pub reader_offset : ℕ
  pub buffer_offset : ℕ

abbrev pub count_missing : ProcessorType → ℕ → Cursor → Cursor
count_missing encoder n c = record c { current_split_missing_count = n }
count_missing decoder n c = c

abbrev pub move_to : ProcessorType → Bool → ℕ → Cursor → Cursor
move_to t false offset c = record c { current_split_offset = offset }
move_to encoder true offset c = record c { current_split_offset = offset; writer_offset = offset }
move_to decoder true offset c = record c {
  current_split_offset = offset;
  reader_offset = offset;
  buffer_offset = offset;
}

moved_split :
    (t : ProcessorType) (u : Bool) (offset n : ℕ) (c : Cursor)
    → (move_to t u offset (count_missing t n c)).current_split ≡ c.current_split
moved_split encoder true offset n c = refl
moved_split encoder false offset n c = refl
moved_split decoder true offset n c = refl
moved_split decoder false offset n c = refl

moved_offset :
    (t : ProcessorType) (u : Bool) (offset n : ℕ) (c : Cursor)
    → (move_to t u offset (count_missing t n c)).current_split_offset ≡ offset
moved_offset encoder true offset n c = refl
moved_offset encoder false offset n c = refl
moved_offset decoder true offset n c = refl
moved_offset decoder false offset n c = refl

module _ (p : Processor) (type : ProcessorType) (update_offset : Bool) where
  -- The loop, on the rounds left; none when they do not do.
  unfoldable pub seek_from : ℕ → Cursor → Option (Bool × Cursor)
  unfolding offset_from
  seek_from zero c = none
  seek_from (suc rounds) c =
      let first_layout_idx = c.current_split * n_total_extents p in
      let n_extents = current_split_rebuild_n_extent p c.current_split in
      let c' = count_missing type n_extents c in
      let skipped = seek_from rounds (record c { current_split = c.current_split + 1 }) in
      let again = seek_from rounds c' in
      if leb first_layout_idx (max_idx p)
      then if n_extents == 0 then skipped else elim (offset_from p.extents first_layout_idx) [
        | none ↦ again
        | some offset ↦ some (true, move_to type update_offset offset c')
      ]
      else some (false, c)

  unfoldable pub raid_seek_next_missing_split : Cursor → Option (Bool × Cursor)
  unfolding seek_from
  raid_seek_next_missing_split c = seek_from (max_idx p + 2) c

  -- The splits from `from` to before `to` need nothing.
  abbrev pub NoneMissing : ℕ → ℕ → Type 0
  NoneMissing from to = (k : ℕ) → from ≤ k → k < to → current_split_rebuild_n_extent p k ≡ 0

  -- What the search says: the splits that it passed need nothing, and it stops at one that does,
  -- with the offset of the first extent from the split's first index on, or behind the last split.
  abbrev pub Sought : ℕ → Bool × Cursor → Type 0
  Sought from (true, c) =
      NoneMissing from c.current_split
      × (c.current_split * n_total_extents p ≤ max_idx p)
      × (current_split_rebuild_n_extent p c.current_split ≢ 0)
      × FirstFrom p.extents (c.current_split * n_total_extents p) c.current_split_offset
  Sought from (false, c) =
      NoneMissing from c.current_split × (max_idx p < c.current_split * n_total_extents p)

  NoneMissing-step :
      (s : ℕ) (to : ℕ)
      → current_split_rebuild_n_extent p s ≡ 0
      → NoneMissing (s + 1) to
      → NoneMissing s to
  NoneMissing-step s to here later k lo hi = elim (ℕ_discrete s k) [
    | yes same ↦ rw (← same) here
    | no other ↦ later k (omega arith) hi
  ]

  Sought-step :
      (s : ℕ) (r : Bool × Cursor)
      → current_split_rebuild_n_extent p s ≡ 0
      → Sought (s + 1) r
      → Sought s r
  Sought-step s (true, c) here (none_before, within, more, o) =
      (NoneMissing-step s c.current_split here none_before, within, more, o)
  Sought-step s (false, c) here (none_before, rest) =
      (NoneMissing-step s c.current_split here none_before, rest)

  le_mul : (a : ℕ) → 0 < n_total_extents p → a ≤ a * n_total_extents p
  le_mul zero h = omega arith
  le_mul (suc a) h =
      let e : suc a * n_total_extents p ≡ a * n_total_extents p + n_total_extents p = grind arith in
      omega (arith, e, le_mul a h)

  Sought-found :
      (s offset : ℕ) (d : Cursor)
      → d.current_split ≡ s
      → d.current_split_offset ≡ offset
      → s * n_total_extents p ≤ max_idx p
      → current_split_rebuild_n_extent p s ≢ 0
      → FirstFrom p.extents (s * n_total_extents p) offset
      → Sought s (true, d)
  Sought-found s offset d e f within more o =
      rw (e, f) ((λ k lo hi. absurd (omega arith)), within, more, o)

  seek_from-Sought :
      (rounds : ℕ) (c : Cursor)
      → IsAscending p.extents
      → p.extents ≢ []
      → 0 < n_total_extents p
      → max_idx p + 2 ≤ rounds + c.current_split
      → (0 < rounds)
      → (r : Bool × Cursor) × (seek_from rounds c ≡ some r) × Sought c.current_split r
  unfolding seek_from
  seek_from-Sought zero c up non h enough live = absurd (omega arith)
  seek_from-Sought (suc rounds) c up non h enough live =
      elim (Bool-cases (leb (c.current_split * n_total_extents p) (max_idx p))) [
        | inr over ↦
            rw (over, seek_from)
              ((false, c), refl, ((λ k lo hi. absurd (omega arith)), ground arith))
        | inl within ↦ elim (Bool-cases (current_split_rebuild_n_extent p c.current_split == 0)) [
          | inl zero_missing ↦
              let (r, q, sought) =
                seek_from-Sought rounds (record c { current_split = c.current_split + 1 }) up non h
                  (omega arith) (ground (arith, le_mul c.current_split h)) in
              rw (within, zero_missing, q, seek_from)
                (r, refl, Sought-step c.current_split r (ground arith) sought)
          | inr some_missing ↦
              let (offset, o, first) =
                offset_from-FirstFrom p.extents (c.current_split * n_total_extents p) up non
                  (ground arith) in
              rw (within, some_missing, o, seek_from)
                (
                  _,
                  refl,
                  Sought-found c.current_split offset
                      (move_to type update_offset offset
                        (count_missing type (current_split_rebuild_n_extent p c.current_split) c))
                      (moved_split type update_offset offset
                        (current_split_rebuild_n_extent p c.current_split) c)
                      (moved_offset type update_offset offset
                        (current_split_rebuild_n_extent p c.current_split) c)
                      (ground arith) (ground arith) first,
                )
        ]
      ]

  -- The search ends. It stops at the first split, from the current one on, that has extents to
  -- rebuild; or, when all the other splits need nothing, behind the last one. At a split it sets the
  -- offset to that of the extent with the least index that is not below the first index of the
  -- split: one of the split if this has an extent left, and otherwise one of a later split. The
  -- extents of the layout are in the order of their indexes, there is one, and a split has some.
  pub raid_seek_next_missing_split-Sought :
      (c : Cursor)
      → IsAscending p.extents
      → p.extents ≢ []
      → 0 < n_total_extents p
      → (r : Bool × Cursor) × (raid_seek_next_missing_split c ≡ some r) × Sought c.current_split r
  unfolding raid_seek_next_missing_split
  raid_seek_next_missing_split-Sought c up non h =
      seek_from-Sought (max_idx p + 2) c up non h (omega arith) (omega arith)
