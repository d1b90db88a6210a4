-- ===== src/Raid/Parity/Stripes.antt =====
-- One stripe of a write, of a read and of a rebuild.
use phobos.Base.{
  ℕ, zero, suc, ◌+◌, ◌-◌, ◌≡◌, refl, sym, ◌∙◌, ◌⊎◌, inl, inr, List, [], ◌∷◌, ◌++◌, some, arith,
  length, min, take, drop,
}
use phobos.Raid.Parity.{
  Lost, lost_0, lost_1, lost_parity, of_lost, extent_of, rebuild_stripes, Byte, xor_in_place, pad,
  Extents, write_stripes, part_0, part_1, Reads, decode, read_stripes,
}
use phobos.Raid.Parity.Chunks.{next_chunk, drop_append}

pub empty_of : (bytes : List Byte) → length bytes ≡ 0 → bytes ≡ []
empty_of [] h = refl
empty_of (b ∷ bs) h = absurd (omega arith)

pub read_nothing :
    (reads : Reads) (rounds chunk : ℕ) (first next : List Byte)
    → read_stripes reads rounds chunk first next 0 ≡ some []
unfolding read_stripes
read_nothing reads zero chunk first next = refl
read_nothing reads (suc rounds) chunk first next = refl

-- A stripe of a read, with the sizes that it reads and what the next ones give.
abbrev pub ReadStripe : Reads → ℕ → ℕ → List Byte → List Byte → List Byte → ℕ → ℕ → ℕ → ℕ → Type 0
ReadStripe reads rounds chunk first next bytes to_read n_0 n_1 left =
    read_stripes reads rounds chunk (drop n_0 first) (drop n_1 next) left ≡ some bytes
    → read_stripes reads (suc rounds) chunk first next (suc to_read)
      ≡ some (decode reads (take n_0 first) (take n_1 next) ++ bytes)

read_stripe_lem :
    (reads : Reads) (rounds chunk : ℕ) (first next bytes : List Byte) (to_read : ℕ)
    → let n_0 = part_0 chunk (length first) (suc to_read) in
      let n_1 = min n_0 (suc to_read - n_0) in
      ReadStripe reads rounds chunk first next bytes to_read n_0 n_1 (suc to_read - n_0 - n_1)
unfolding read_stripes
read_stripe_lem reads rounds chunk first next bytes to_read h = rw (read_stripes, h) refl

pub read_stripe :
    (reads : Reads) (rounds chunk n_0 n_1 left : ℕ) (first next bytes : List Byte) (to_read : ℕ)
    → part_0 chunk (length first) (suc to_read) ≡ n_0
    → min n_0 (suc to_read - n_0) ≡ n_1
    → suc to_read - n_0 - n_1 ≡ left
    → ReadStripe reads rounds chunk first next bytes to_read n_0 n_1 left
read_stripe reads rounds chunk n_0 n_1 left first next bytes to_read e f g =
    let p = read_stripe_lem reads rounds chunk first next bytes to_read in rw (e, f, g) at p

-- The rest of the extents after a stripe. The second chunk may be shorter than what was written in
-- its place only in the last stripe.
pub read_rest :
    (reads : Reads) (rounds chunk n_0 n_1 : ℕ) (next_chunk first_rest next_rest bytes : List Byte)
    → (length next_chunk ≡ n_1) ⊎ (length next_chunk ≡ n_0)
    → (n_0 ≡ n_1) ⊎ (length bytes ≡ 0)
    → read_stripes reads rounds chunk first_rest next_rest (length bytes) ≡ some bytes
    → read_stripes reads rounds chunk first_rest (drop n_1 (next_chunk ++ next_rest)) (length bytes)
      ≡ some bytes
read_rest reads rounds chunk n_0 n_1 next_chunk first_rest next_rest bytes l last h = elim last [
  | inr none_left ↦
      let e : bytes ≡ [] = empty_of bytes none_left in
      rw e (read_nothing reads rounds chunk first_rest (drop n_1 (next_chunk ++ next_rest)))
  | inl same ↦
      let l' : length next_chunk ≡ n_1 = ground (arith, l) in
      rw (drop_append n_1 next_chunk next_rest l') h
]

-- A stripe of a write.
abbrev pub WriteStripe : ℕ → ℕ → ℕ → ℕ → List Byte → Extents → ℕ → ℕ → Type 0
WriteStripe rounds chunk size_0 size_1 bytes e n_0 n_1 =
    write_stripes rounds chunk (size_0 - n_0) (size_1 - n_1) (drop (n_0 + n_1) bytes) ≡ some e
    → write_stripes (suc rounds) chunk size_0 size_1 bytes
      ≡ some (record {
        extent_0 = take n_0 bytes ++ e.extent_0;
        extent_1 = take n_1 (drop n_0 bytes) ++ e.extent_1;
        parity = xor_in_place (take n_0 bytes) (pad n_0 (take n_1 (drop n_0 bytes))) ++ e.parity;
      })

write_stripe_lem :
    (rounds chunk size_0 size_1 : ℕ) (b : Byte) (bs : List Byte) (e : Extents)
    → let n_0 = part_0 chunk size_0 (length (b ∷ bs)) in
      WriteStripe rounds chunk size_0 size_1
        (b ∷ bs)
        e
        n_0
        (part_1 chunk size_1 (length (b ∷ bs)) n_0)
unfolding write_stripes
write_stripe_lem rounds chunk size_0 size_1 b bs e h = rw (write_stripes, h) refl

pub write_stripe :
    (rounds chunk size_0 size_1 n_0 n_1 : ℕ) (b : Byte) (bs : List Byte) (e : Extents)
    → part_0 chunk size_0 (length (b ∷ bs)) ≡ n_0
    → part_1 chunk size_1 (length (b ∷ bs)) n_0 ≡ n_1
    → WriteStripe rounds chunk size_0 size_1 (b ∷ bs) e n_0 n_1
write_stripe rounds chunk size_0 size_1 n_0 n_1 b bs e p q =
    let h = write_stripe_lem rounds chunk size_0 size_1 b bs e in rw (p, q) at h

pub write_nothing :
    (rounds chunk size_0 size_1 : ℕ)
    → write_stripes rounds chunk size_0 size_1 []
      ≡ some (record { extent_0 = []; extent_1 = []; parity = [] })
unfolding write_stripes
write_nothing zero chunk size_0 size_1 = refl
write_nothing (suc rounds) chunk size_0 size_1 = refl

pub rebuild_nothing :
    (k : Lost) (rounds chunk size_0 size_1 : ℕ)
    → rebuild_stripes k rounds chunk size_0 size_1 [] ≡ some []
unfolding rebuild_stripes
rebuild_nothing k zero chunk size_0 size_1 = refl
rebuild_nothing k (suc rounds) chunk size_0 size_1 = refl

-- A stripe of a rebuild.
abbrev pub RebuildStripe : Lost → ℕ → ℕ → ℕ → ℕ → List Byte → List Byte → ℕ → ℕ → Type 0
RebuildStripe k rounds chunk size_0 size_1 bytes extent n_0 n_1 =
    rebuild_stripes k rounds chunk (size_0 - of_lost k n_0 n_1 n_0) (size_1 - of_lost k n_0 n_1 n_0)
        (drop (n_0 + n_1) bytes)
      ≡ some extent
    → rebuild_stripes k (suc rounds) chunk size_0 size_1 bytes
      ≡ some (
          of_lost k (take n_0 bytes) (take n_1 (drop n_0 bytes))
            (xor_in_place (take n_0 bytes) (pad n_0 (take n_1 (drop n_0 bytes))))
          ++ extent)

rebuild_stripe_lem :
    (k : Lost) (rounds chunk size_0 size_1 : ℕ) (b : Byte) (bs extent : List Byte)
    → let n_0 = part_0 chunk size_0 (length (b ∷ bs)) in
      RebuildStripe k rounds chunk size_0 size_1
        (b ∷ bs)
        extent
        n_0
        (part_1 chunk size_1 (length (b ∷ bs)) n_0)
unfolding rebuild_stripes
rebuild_stripe_lem k rounds chunk size_0 size_1 b bs extent h = rw (rebuild_stripes, h) refl

pub rebuild_stripe :
    (k : Lost) (rounds chunk size_0 size_1 n_0 n_1 : ℕ) (b : Byte) (bs extent : List Byte)
    → part_0 chunk size_0 (length (b ∷ bs)) ≡ n_0
    → part_1 chunk size_1 (length (b ∷ bs)) n_0 ≡ n_1
    → RebuildStripe k rounds chunk size_0 size_1 (b ∷ bs) extent n_0 n_1
rebuild_stripe k rounds chunk size_0 size_1 n_0 n_1 b bs extent p q =
    let h = rebuild_stripe_lem k rounds chunk size_0 size_1 b bs extent in rw (p, q) at h

-- What is left is counted by what was written of one extent, and this matters only before the end.
pub rebuild_left :
    (k : Lost) (rounds chunk size_0 size_1 n_0 n_1 : ℕ) (bytes : List Byte)
    → (n_0 ≡ n_1) ⊎ (length bytes ≡ 0)
    → rebuild_stripes k rounds chunk
        (size_0 - of_lost k n_0 n_1 n_0)
        (size_1 - of_lost k n_0 n_1 n_0)
        bytes
      ≡ rebuild_stripes k rounds chunk (size_0 - n_0) (size_1 - n_1) bytes
rebuild_left k rounds chunk size_0 size_1 n_0 n_1 bytes last = elim last [
  | inr none_left ↦
      let e : bytes ≡ [] = empty_of bytes none_left in
      rw e (rebuild_nothing k rounds chunk _ _ ∙ sym (rebuild_nothing k rounds chunk _ _))
  | inl same ↦ let e : of_lost k n_0 n_1 n_0 ≡ n_0 = either k same in rw (e, same) refl
]
  where
    either : (k : Lost) → n_0 ≡ n_1 → of_lost k n_0 n_1 n_0 ≡ n_0
    either lost_0 e = refl
    either lost_1 e = sym e
    either lost_parity e = refl

pub extent_of-cons :
    (k : Lost) (xs ys zs : List Byte) (e : Extents)
    → of_lost k xs ys zs ++ extent_of k e
      ≡ extent_of k (record {
        extent_0 = xs ++ e.extent_0;
        extent_1 = ys ++ e.extent_1;
        parity = zs ++ e.parity;
      })
extent_of-cons lost_0 xs ys zs e = refl
extent_of-cons lost_1 xs ys zs e = refl
extent_of-cons lost_parity xs ys zs e = refl
