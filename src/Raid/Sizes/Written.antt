-- ===== src/Raid/Sizes/Written.antt =====
-- The sizes of a written split.
use native.Mathlib.Nat.{mod-add-div', mod-lt}
use native.Mathlib.Decide.{ℕ_discrete}
use phobos.Base.{
  ◌≢◌, Bool, ◌||◌, ℕ, zero, suc, ◌+◌, ◌-◌, ◌*◌, ◌/◌, ◌%◌, ◌≤◌, ◌<◌, ◌≡◌, refl, ap, inl, inr, ◌⊎◌,
  true, false, List, [], ◌∷◌, arith, ltb, ◌==◌, Bool-cases, All, min,
}
use phobos.Raid.Sizes.{
  extent_size_at, cap_sizes, Writer, align_size, writer_split_sizes, split_size,
}

-- The sum of the data extents from a place on.
split_size-from :
    (n_data size remainder n i : ℕ)
    → remainder < n_data
    → i + n ≡ n_data
    → split_size n_data size remainder n i ≡ n * size + (remainder - min remainder i)
unfolding split_size extent_size_at
split_size-from n_data size remainder zero i lt e =
    let z : zero * size ≡ zero = omega arith in omega (arith, z)
split_size-from n_data size remainder (suc n) i lt e =
    let d : suc n * size ≡ n * size + size = omega arith in
    ground (arith, split_size-from n_data size remainder n (i + 1) lt (omega arith), d)

-- The data extents of a split have the extent size each, and the remainder together.
pub split_size-total :
    (n_data size remainder : ℕ)
    → remainder < n_data
    → split_size n_data size remainder n_data 0 ≡ n_data * size + remainder
split_size-total n_data size remainder lt =
    omega (arith, split_size-from n_data size remainder n_data 0 lt (omega arith))

cap_sizes-le :
    (avails : List ℕ) (size remainder : ℕ)
    → ((cap_sizes avails (size, remainder)).0 ≤ size)
      × ((cap_sizes avails (size, remainder)).1 ≤ remainder)
unfolding cap_sizes
cap_sizes-le [] size remainder = (omega arith, omega arith)
cap_sizes-le (a ∷ avails) size remainder =
    ground (arith, cap_sizes-le avails a 0, cap_sizes-le avails size remainder)

-- The size is at most what each medium has.
cap_sizes-each :
    (c : ℕ) (avails : List ℕ) (size remainder : ℕ)
    → c ≤ (cap_sizes avails (size, remainder)).0
    → All (λ a. c ≤ a) avails
unfolding cap_sizes
cap_sizes-each c [] size remainder h = tt
cap_sizes-each c (a ∷ avails) size remainder h = elim (Bool-cases (ltb a size)) [
  | inl small ↦
      let h' : c ≤ (cap_sizes avails (a, 0)).0 = ground arith in
      (omega (arith, (cap_sizes-le avails a 0).0), cap_sizes-each c avails a 0 h')
  | inr large ↦
      let h' : c ≤ (cap_sizes avails (size, remainder)).0 = ground arith in
      (
        ground (arith, (cap_sizes-le avails size remainder).0),
        cap_sizes-each c avails size remainder h',
      )
]

cap_sizes-pos :
    (avails : List ℕ) (size remainder : ℕ)
    → All (λ a. 0 < a) avails
    → 0 < size + remainder
    → 0 < (cap_sizes avails (size, remainder)).0 + (cap_sizes avails (size, remainder)).1
unfolding cap_sizes
cap_sizes-pos [] size remainder a h = h
cap_sizes-pos (x ∷ avails) size remainder (some_room, a) h =
    ground
      (arith, cap_sizes-pos avails x 0 a (omega arith), cap_sizes-pos avails size remainder a h)

cap_sizes-room :
    (avails : List ℕ) (size remainder : ℕ)
    → All (λ a. size ≤ a) avails
    → cap_sizes avails (size, remainder) ≡ (size, remainder)
unfolding cap_sizes
cap_sizes-room [] size remainder a = refl
cap_sizes-room (x ∷ avails) size remainder (le, a) =
    let e : ltb x size ≡ false = ground arith in
    rw (e, cap_sizes) (cap_sizes-room avails size remainder a)

positive_parts : (n a r whole : ℕ) → n * a + r ≡ whole → 0 < whole → 0 < a + r
positive_parts n zero r whole e h = let z : n * zero ≡ zero = omega arith in omega (arith, z)
positive_parts n (suc a) r whole e h = omega arith

positive_total : (n a r : ℕ) → 0 < n → 0 < a + r → 0 < n * a + r
positive_total n zero r some_extent h = let z : n * zero ≡ zero = omega arith in omega (arith, z)
positive_total n (suc a) r some_extent h =
    let z : n * suc a ≡ n * a + n = omega arith in omega (arith, z)

-- Whether a medium has less than a size.
abbrev pub any_short : ℕ → List ℕ → Bool
any_short size [] = false
any_short size (a ∷ avails) = ltb a size || any_short size avails

any_short-All :
    (size : ℕ) (avails : List ℕ) → any_short size avails ≡ false → All (λ a. size ≤ a) avails
any_short-All size [] e = tt
any_short-All size (a ∷ avails) e = (ground arith, any_short-All size avails (ground arith))

module _ (w : Writer) where
  open w use {object_size, writer_offset, current_split_offset, chunk_size, n_data_extents}

  abbrev remaining : ℕ
  remaining = object_size - writer_offset

  abbrev capped : List ℕ → ℕ × ℕ
  capped avails = cap_sizes avails (remaining / n_data_extents, remaining % n_data_extents)

  align_size-le :
      (size remainder : ℕ)
      → ((align_size w (size, remainder)).0 ≤ size)
        × ((align_size w (size, remainder)).1 ≡ remainder)
  align_size-le size remainder = ground arith

  align_size-pos :
      (size remainder : ℕ)
      → 0 < chunk_size
      → 0 < size + remainder
      → 0 < (align_size w (size, remainder)).0 + (align_size w (size, remainder)).1
  align_size-pos size remainder some_chunk h = ground (arith, mod-lt size some_chunk)

  mul_mono : (a b : ℕ) → a ≤ b → n_data_extents * a ≤ n_data_extents * b
  mul_mono a b h = grind arith

  parts : n_data_extents * (remaining / n_data_extents) + remaining % n_data_extents ≡ remaining
  parts = omega (arith, mod-add-div' remaining n_data_extents)

  -- The sizes of a split: its data fits into what is left of the object, every extent without its
  -- share of the remainder into its medium, and no data extent is longer than a parity extent. The
  -- split ends the object, unless a medium lacks the room or the split begins elsewhere.
  pub record Fits (avails : List ℕ) (size remainder : ℕ) : Type 0 where
    pub within : split_size n_data_extents size remainder n_data_extents 0 ≤ remaining
    pub each : All (λ a. size ≤ a) avails
    pub parity :
        (i j : ℕ)
        → n_data_extents ≤ j
        → extent_size_at n_data_extents size remainder i
          ≤ extent_size_at n_data_extents size remainder j
    pub ends :
        (split_size n_data_extents size remainder n_data_extents 0 ≡ remaining)
        ⊎ (any_short (remaining / n_data_extents) avails ≡ true)
        ⊎ (current_split_offset ≢ writer_offset)

  extent_size_at-parity :
      (size remainder i j : ℕ)
      → n_data_extents ≤ j
      → extent_size_at n_data_extents size remainder i
        ≤ extent_size_at n_data_extents size remainder j
  unfolding extent_size_at
  extent_size_at-parity size remainder i j h = ground arith

  abbrev sizes : List ℕ → ℕ × ℕ
  sizes avails = writer_split_sizes w avails

  sizes-le :
      (avails : List ℕ)
      → ((sizes avails).0 ≤ (capped avails).0) × ((sizes avails).1 ≡ (capped avails).1)
  unfolding writer_split_sizes
  sizes-le avails = align_size-le (capped avails).0 (capped avails).1

  sizes-ends :
      (avails : List ℕ)
      → All (λ a. remaining / n_data_extents ≤ a) avails
      → current_split_offset ≡ writer_offset
      → writer_offset ≤ object_size
      → sizes avails ≡ (remaining / n_data_extents, remaining % n_data_extents)
  unfolding writer_split_sizes
  sizes-ends avails room same le =
      let e =
        cap_sizes-room avails (remaining / n_data_extents) (remaining % n_data_extents) room in
      let f : (object_size
            == current_split_offset
              + remaining / n_data_extents * n_data_extents
              + remaining % n_data_extents)
          ≡ true =
        ground (arith, parts) in
      rw (e, f, writer_split_sizes) (ground arith)

  -- The sizes of a written split fit into what is left of the object, and without the remainder into
  -- the media; no data extent is longer than a parity extent; and the split ends the object, unless
  -- a medium lacks the room or the split does not begin at the offset of the writer. There is a data
  -- extent, and no more is written than the object has.
  pub writer_split_sizes-Fits :
      (avails : List ℕ)
      → 0 < n_data_extents
      → writer_offset ≤ object_size
      → Fits avails (writer_split_sizes w avails).0 (writer_split_sizes w avails).1
  writer_split_sizes-Fits avails h le =
      let (s, r) = sizes-le avails in
      let (s', r') =
        cap_sizes-le avails (remaining / n_data_extents) (remaining % n_data_extents) in
      let small : (sizes avails).1 < n_data_extents = omega (arith, mod-lt remaining h) in
      let total = split_size-total n_data_extents (sizes avails).0 (sizes avails).1 small in
      record {
        within = omega (
          arith,
          total,
          parts,
          mul_mono (sizes avails).0 (remaining / n_data_extents) (omega arith),
        );
        each =
            cap_sizes-each (sizes avails).0 avails (remaining / n_data_extents)
              (remaining % n_data_extents) s;
        parity = λ i j lo. extent_size_at-parity (sizes avails).0 (sizes avails).1 i j lo;
        ends = elim (Bool-cases (any_short (remaining / n_data_extents) avails)) [
          | inl lack ↦ inr (inl lack)
          | inr room ↦ elim (ℕ_discrete current_split_offset writer_offset) [
            | no other ↦ inr (inr other)
            | yes same ↦
                let e =
                  sizes-ends avails (any_short-All (remaining / n_data_extents) avails room) same
                    le in
                inl (omega (arith, total, parts, ap (λ x. n_data_extents * x.0) e, ap (λ x. x.1) e))
          ]
        ];
      }

  -- Each split of a write goes forward: it writes some data, while the object is not complete and
  -- the media have some room.
  pub writer_split_sizes-forward :
      (avails : List ℕ)
      → 0 < n_data_extents
      → 0 < chunk_size
      → writer_offset < object_size
      → All (λ a. 0 < a) avails
      → 0
        < split_size n_data_extents
            (writer_split_sizes w avails).0
            (writer_split_sizes w avails).1
            n_data_extents
            0
  unfolding writer_split_sizes
  writer_split_sizes-forward avails h some_chunk more room =
      let (s, r) = sizes-le avails in
      let (s', r') =
        cap_sizes-le avails (remaining / n_data_extents) (remaining % n_data_extents) in
      let small : (sizes avails).1 < n_data_extents = omega (arith, mod-lt remaining h) in
      let total = split_size-total n_data_extents (sizes avails).0 (sizes avails).1 small in
      let some_data : 0 < remaining / n_data_extents + remaining % n_data_extents =
        positive_parts n_data_extents (remaining / n_data_extents) (remaining % n_data_extents)
          remaining parts (omega arith) in
      let p = align_size-pos (capped avails).0 (capped avails).1 some_chunk (
        cap_sizes-pos avails (remaining / n_data_extents) (remaining % n_data_extents) room
          some_data) in
      omega (arith, total, positive_total n_data_extents (sizes avails).0 (sizes avails).1 h p)
