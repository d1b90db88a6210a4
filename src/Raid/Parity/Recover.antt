-- ===== src/Raid/Parity/Recover.antt =====
-- What is written as two data extents and their parity can be read from any two of the three, and
-- each can be rebuilt.
use native.Mathlib.Decide.{ℕ_discrete}
use mathlib.Core.List.{append_assoc}
use phobos.Base.{
  ℕ, zero, suc, ◌+◌, ◌-◌, ◌≤◌, ◌<◌, ◌≡◌, refl, sym, ap, ◌∙◌, ◌⊎◌, inl, inr, List, [], ◌∷◌, ◌++◌,
  some, arith, length, length-append, length-take, length-drop, min, take, drop, take-drop,
  drop-drop,
}
use phobos.Raid.Parity.{
  Lost, lost_0, lost_1, lost_parity, extent_of, rebuild_stripes, Byte, xor_in_place, pad, Extents,
  write_stripes, part_0, Reads, both_data, with_extent_0, without_extent_0, decode, read_stripes,
  first_of, next_of,
}
use phobos.Raid.Parity.Chunks.{
  first_chunk, next_chunk, length-parity_chunk, length-first_chunk, length-next_chunk,
  decode-chunks, take_append, drop_append,
}
use phobos.Raid.Parity.Stripes.{
  read_nothing, read_stripe, read_rest, write_stripe, write_nothing, rebuild_nothing,
  rebuild_stripe, rebuild_left, extent_of-cons,
}

-- What is written of a split, and what is read of it.
abbrev pub Recovers : Reads → ℕ → ℕ → ℕ → ℕ → List Byte → Type 0
Recovers reads rounds chunk size_0 size_1 bytes =
    (e : Extents) × (write_stripes rounds chunk size_0 size_1 bytes ≡ some e)
    × (length e.extent_0 ≡ size_0)
    × (length e.extent_1 ≡ size_1)
    × (length e.parity ≡ size_0)
    × (read_stripes reads rounds chunk (first_of reads e) (next_of reads e) (length bytes)
        ≡ some bytes)
    × ((k : Lost) → rebuild_stripes k rounds chunk size_0 size_1 bytes ≡ some (extent_of k e))

length-first_of :
    (reads : Reads) (e : Extents) (n : ℕ)
    → length e.extent_0 ≡ n
    → length e.parity ≡ n
    → length (first_of reads e) ≡ n
length-first_of both_data e n h k = h
length-first_of with_extent_0 e n h k = h
length-first_of without_extent_0 e n h k = k

Recovers-nil :
    (reads : Reads) (rounds chunk size_0 size_1 : ℕ)
    → size_0 + size_1 ≡ 0
    → Recovers reads rounds chunk size_0 size_1 []
Recovers-nil reads rounds chunk size_0 size_1 e = (
  record { extent_0 = []; extent_1 = []; parity = [] },
  write_nothing rounds chunk size_0 size_1,
  omega arith,
  omega arith,
  omega arith,
  read_nothing reads rounds chunk _ _,
  λ k. rebuild_nothing k rounds chunk size_0 size_1 ∙ ap some (nothing k),
)
  where
    nothing : (k : Lost) → [] ≡ extent_of k (record { extent_0 = []; extent_1 = []; parity = [] })
    nothing lost_0 = refl
    nothing lost_1 = refl
    nothing lost_parity = refl

first_of-cons :
    (reads : Reads) (n_0 n_1 : ℕ) (data_0 data_1 : List Byte) (l_0 : length data_0 ≡ n_0)
    (l_1 : length data_1 ≡ n_1) (le : n_1 ≤ n_0) (e : Extents)
    → first_of reads (record {
      extent_0 = data_0 ++ e.extent_0;
      extent_1 = data_1 ++ e.extent_1;
      parity = xor_in_place data_0 (pad n_0 data_1) ++ e.parity;
    })
      ≡ first_chunk n_0 n_1 data_0 data_1 l_0 l_1 le reads ++ first_of reads e
first_of-cons both_data n_0 n_1 data_0 data_1 l_0 l_1 le e = refl
first_of-cons with_extent_0 n_0 n_1 data_0 data_1 l_0 l_1 le e = refl
first_of-cons without_extent_0 n_0 n_1 data_0 data_1 l_0 l_1 le e = refl

next_of-cons :
    (reads : Reads) (n_0 n_1 : ℕ) (data_0 data_1 : List Byte) (l_0 : length data_0 ≡ n_0)
    (l_1 : length data_1 ≡ n_1) (le : n_1 ≤ n_0) (e : Extents)
    → next_of reads (record {
      extent_0 = data_0 ++ e.extent_0;
      extent_1 = data_1 ++ e.extent_1;
      parity = xor_in_place data_0 (pad n_0 data_1) ++ e.parity;
    })
      ≡ next_chunk n_0 n_1 data_0 data_1 l_0 l_1 le reads ++ next_of reads e
next_of-cons both_data n_0 n_1 data_0 data_1 l_0 l_1 le e = refl
next_of-cons with_extent_0 n_0 n_1 data_0 data_1 l_0 l_1 le e = refl
next_of-cons without_extent_0 n_0 n_1 data_0 data_1 l_0 l_1 le e = refl

take_append_le {ℓ} :
    {A : Type ℓ} (n : ℕ) (xs ys : List A) → n ≤ length xs → take n (xs ++ ys) ≡ take n xs
unfolding take
take_append_le zero xs ys h = refl
take_append_le (suc n) [] ys h = absurd (omega arith)
take_append_le (suc n) (x ∷ xs) ys h = ap (λ zs. x ∷ zs) (take_append_le n xs ys (omega arith))

-- The two chunks and the rest are all the bytes.
chunks-rest {ℓ} :
    {A : Type ℓ} (n_0 n_1 : ℕ) (bytes : List A)
    → (take n_0 bytes ++ take n_1 (drop n_0 bytes)) ++ drop (n_0 + n_1) bytes ≡ bytes
chunks-rest n_0 n_1 bytes =
    append_assoc (take n_0 bytes) (take n_1 (drop n_0 bytes)) (drop (n_0 + n_1) bytes)
    ∙ ap (λ xs. take n_0 bytes ++ (take n_1 (drop n_0 bytes) ++ xs)) (sym (drop-drop n_0 n_1 bytes))
    ∙ ap (λ xs. take n_0 bytes ++ xs) (take-drop n_1 (drop n_0 bytes))
    ∙ take-drop n_0 bytes

-- Reading a written stripe, and what follows it.
module _ (n_0 n_1 : ℕ) (data_0 data_1 : List Byte) (l_0 : length data_0 ≡ n_0)
    (l_1 : length data_1 ≡ n_1) (le : n_1 ≤ n_0) (reads : Reads) where
  abbrev first : List Byte
  first = first_chunk n_0 n_1 data_0 data_1 l_0 l_1 le reads

  abbrev next : List Byte
  next = next_chunk n_0 n_1 data_0 data_1 l_0 l_1 le reads

  read_written :
      (rounds chunk to_read : ℕ) (first_rest next_rest bytes : List Byte)
      → part_0 chunk (n_0 + length first_rest) (suc to_read) ≡ n_0
      → min n_0 (suc to_read - n_0) ≡ n_1
      → suc to_read - n_0 - n_1 ≡ length bytes
      → (n_0 ≡ n_1) ⊎ (length bytes ≡ 0)
      → read_stripes reads rounds chunk first_rest next_rest (length bytes) ≡ some bytes
      → read_stripes reads
          (suc rounds)
          chunk
          (first ++ first_rest)
          (next ++ next_rest)
          (suc to_read)
        ≡ some ((data_0 ++ data_1) ++ bytes)
  read_written rounds chunk to_read first_rest next_rest bytes e f g last h =
      let l = length-first_chunk n_0 n_1 data_0 data_1 l_0 l_1 le reads in
      let l' = length-next_chunk n_0 n_1 data_0 data_1 l_0 l_1 le reads in
      let size : length (first ++ first_rest) ≡ n_0 + length first_rest =
        omega (arith, length-append first first_rest, l) in
      let rest = read_rest reads rounds chunk n_0 n_1 next first_rest next_rest bytes l' last h in
      let rest' : read_stripes reads rounds chunk (drop n_0 (first ++ first_rest))
            (drop n_1 (next ++ next_rest)) (length bytes)
          ≡ some bytes =
        rw (drop_append n_0 first first_rest l) rest in
      let p =
        read_stripe reads rounds chunk n_0 n_1 (length bytes) (first ++ first_rest)
          (next ++ next_rest) bytes to_read (rw size e) f g rest' in
      let taken : take n_0 (first ++ first_rest) ≡ first = take_append n_0 first first_rest l in
      let taken' : take n_1 (next ++ next_rest) ≡ take n_1 next =
        take_append_le n_1 next next_rest (ground (arith, l')) in
      p
      ∙ ap (λ xs. some (decode reads xs (take n_1 (next ++ next_rest)) ++ bytes)) taken
      ∙ ap (λ xs. some (decode reads first xs ++ bytes)) taken'
      ∙ ap (λ xs. some (xs ++ bytes)) (decode-chunks n_0 n_1 data_0 data_1 l_0 l_1 le reads)

-- A stripe is recovered if what follows it is.
Recovers-cons :
    (reads : Reads) (rounds chunk size_0 size_1 n_0 n_1 : ℕ) (b : Byte) (bs : List Byte)
    → n_0 ≡ min size_0 chunk
    → n_1 ≡ min size_1 chunk
    → size_1 ≤ size_0
    → size_0 ≤ size_1 + 1
    → size_0 + size_1 ≡ length (b ∷ bs)
    → Recovers reads rounds chunk (size_0 - n_0) (size_1 - n_1) (drop (n_0 + n_1) (b ∷ bs))
    → Recovers reads (suc rounds) chunk size_0 size_1 (b ∷ bs)
Recovers-cons reads rounds chunk size_0 size_1 n_0 n_1 b bs e_0 e_1 le near total
      (e, w, l_0, l_1, l_p, r, rb) =
    let data_0 = take n_0 (b ∷ bs) in
    let data_1 = take n_1 (drop n_0 (b ∷ bs)) in
    let d_0 : length data_0 ≡ n_0 = length-take n_0 (b ∷ bs) (omega arith) in
    let d_1 : length data_1 ≡ n_1 =
      length-take n_1 (drop n_0 (b ∷ bs)) (omega (arith, length-drop n_0 (b ∷ bs))) in
    let small : n_1 ≤ n_0 = omega arith in
    let d_p = length-parity_chunk n_0 n_1 data_0 data_1 d_0 d_1 small in
    let left = length-drop (n_0 + n_1) (b ∷ bs) in
    (
      record {
        extent_0 = data_0 ++ e.extent_0;
        extent_1 = data_1 ++ e.extent_1;
        parity = xor_in_place data_0 (pad n_0 data_1) ++ e.parity;
      },
      write_stripe rounds chunk size_0 size_1 n_0 n_1 b bs e (omega arith) (omega arith) w,
      omega (arith, length-append data_0 e.extent_0, d_0, l_0),
      omega (arith, length-append data_1 e.extent_1, d_1, l_1),
      omega (arith, length-append (xor_in_place data_0 (pad n_0 data_1)) e.parity, d_p, l_p),
      (rw
          (
            first_of-cons reads n_0 n_1 data_0 data_1 d_0 d_1 small e,
            next_of-cons reads n_0 n_1 data_0 data_1 d_0 d_1 small e,
          )
          (read_written n_0 n_1 data_0 data_1 d_0 d_1 small reads rounds chunk (length bs)
              (first_of reads e) (next_of reads e) (drop (n_0 + n_1) (b ∷ bs))
              (omega (arith, length-first_of reads e (size_0 - n_0) l_0 l_p)) (omega arith)
              (omega (arith, left)) (last (ℕ_discrete n_0 n_1)) r
            ∙ ap some (chunks-rest n_0 n_1 (b ∷ bs)))),
      λ k.
          rebuild_stripe k rounds chunk size_0 size_1 n_0 n_1 b bs (extent_of k e) (omega arith)
            (omega arith)
            (rebuild_left k rounds chunk size_0 size_1 n_0 n_1 (drop (n_0 + n_1) (b ∷ bs))
                (last (ℕ_discrete n_0 n_1))
              ∙ rb k)
          ∙ ap some (extent_of-cons k data_0 data_1 (xor_in_place data_0 (pad n_0 data_1)) e),
    )
  where
    last : Dec (n_0 ≡ n_1) → (n_0 ≡ n_1) ⊎ (length (drop (n_0 + n_1) (b ∷ bs)) ≡ 0)
    last (yes same) = inl same
    last (no other) = inr (omega (arith, length-drop (n_0 + n_1) (b ∷ bs)))

-- A split is written as two data extents, of its size halved with the odd byte in the first one,
-- and their parity, as long as the first; any two of the three extents give back all of the
-- split's bytes, and a rebuild of each of the three writes the bytes that it had. The rounds are as
-- many as bytes.
pub write_stripes-Recovers :
    (reads : Reads) (rounds chunk size_0 size_1 : ℕ) (bytes : List Byte)
    → 0 < chunk
    → size_1 ≤ size_0
    → size_0 ≤ size_1 + 1
    → size_0 + size_1 ≡ length bytes
    → length bytes ≤ rounds
    → Recovers reads rounds chunk size_0 size_1 bytes
write_stripes-Recovers reads rounds chunk size_0 size_1 [] some_chunk le near total enough =
    Recovers-nil reads rounds chunk size_0 size_1 total
write_stripes-Recovers reads zero chunk size_0 size_1 (b ∷ bs) some_chunk le near total enough =
    absurd (omega arith)
write_stripes-Recovers reads (suc rounds) chunk size_0 size_1 (b ∷ bs) some_chunk le near total
      enough =
    let n_0 = min size_0 chunk in
    let n_1 = min size_1 chunk in
    let left = length-drop (n_0 + n_1) (b ∷ bs) in
    Recovers-cons reads rounds chunk size_0 size_1 n_0 n_1 b bs refl refl le near total (
      write_stripes-Recovers reads rounds chunk (size_0 - n_0) (size_1 - n_1)
        (drop (n_0 + n_1) (b ∷ bs)) some_chunk (omega arith) (omega arith) (omega (arith, left))
        (omega (arith, left)))
