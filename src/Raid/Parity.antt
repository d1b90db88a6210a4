-- ===== src/Raid/Parity.antt =====
-- RAID 4: src/layout-modules/raid4. A split has two data extents, written in turn chunk by chunk, and
-- the parity of both. The model has the bytes of one split, in one buffer, and I/O that succeeds.
use phobos.Base.{
  ℕ, zero, suc, ◌+◌, ◌-◌, ◌≡◌, refl, Bool, true, false, List, [], ◌∷◌, ◌++◌, Option, none, some,
  arith, if◌then◌else◌, length, replicate, min, take, drop,
}
mod Chunks
mod Stripes
mod Recover
mod Examples

pub record Byte : Type 0 where
  pub b0 : Bool
  pub b1 : Bool
  pub b2 : Bool
  pub b3 : Bool
  pub b4 : Bool
  pub b5 : Bool
  pub b6 : Bool
  pub b7 : Bool

abbrev pub xor_bit : Bool → Bool → Bool
xor_bit true true = false
xor_bit true false = true
xor_bit false b = b

-- The operator ^ on a char.
abbrev pub xor_byte : Byte → Byte → Byte
xor_byte x y = record {
  b0 = xor_bit x.b0 y.b0;
  b1 = xor_bit x.b1 y.b1;
  b2 = xor_bit x.b2 y.b2;
  b3 = xor_bit x.b3 y.b3;
  b4 = xor_bit x.b4 y.b4;
  b5 = xor_bit x.b5 y.b5;
  b6 = xor_bit x.b6 y.b6;
  b7 = xor_bit x.b7 y.b7;
}

abbrev pub zero_byte : Byte
zero_byte = record {
  b0 = false;
  b1 = false;
  b2 = false;
  b3 = false;
  b4 = false;
  b5 = false;
  b6 = false;
  b7 = false;
}

-- The parity buffer after `xor_in_place` over the bytes that both buffers have.
unfoldable pub xor_in_place : List Byte → List Byte → List Byte
xor_in_place [] parity = parity
xor_in_place (d ∷ data_buff) [] = []
xor_in_place (d ∷ data_buff) (p ∷ parity) = xor_byte p d ∷ xor_in_place data_buff parity

-- The memset behind a chunk that is shorter than the other one.
abbrev pub pad : ℕ → List Byte → List Byte
pad n bytes = bytes ++ replicate (n - length bytes) zero_byte

-- What is written of each extent.
pub record Extents : Type 0 where
  pub extent_0 : List Byte
  pub extent_1 : List Byte
  pub parity : List Byte

-- The parts of a stripe in the two data extents.
abbrev pub part_0 : ℕ → ℕ → ℕ → ℕ
part_0 chunk size_0 to_write = min (min to_write size_0) chunk

abbrev pub part_1 : ℕ → ℕ → ℕ → ℕ → ℕ
part_1 chunk size_1 to_write to_write_0 = min (min (to_write - to_write_0) size_1) chunk

-- `raid4_write_stripes_from_buff` of a write, on the rounds left: `size_0` and `size_1` are what is
-- left of the data extents, `buff` is what is to write.
unfoldable pub write_stripes : ℕ → ℕ → ℕ → ℕ → List Byte → Option Extents
unfolding xor_in_place take drop
write_stripes rounds chunk size_0 size_1 [] =
    some (record { extent_0 = []; extent_1 = []; parity = [] })
write_stripes zero chunk size_0 size_1 (b ∷ bs) = none
write_stripes (suc rounds) chunk size_0 size_1 (b ∷ bs) =
    let to_write = length (b ∷ bs) in
    let to_write_0 = part_0 chunk size_0 to_write in
    let to_write_1 = part_1 chunk size_1 to_write to_write_0 in
    let data_0 = take to_write_0 (b ∷ bs) in
    let data_1 = take to_write_1 (drop to_write_0 (b ∷ bs)) in
    let rest =
      write_stripes rounds chunk (size_0 - to_write_0) (size_1 - to_write_1)
        (drop (to_write_0 + to_write_1) (b ∷ bs)) in
    elim rest [
      | none ↦ none
      | some e ↦ some (record {
        extent_0 = data_0 ++ e.extent_0;
        extent_1 = data_1 ++ e.extent_1;
        parity = xor_in_place data_0 (pad to_write_0 data_1) ++ e.parity;
      })
    ]

-- Which extent is rebuilt.
pub data Lost : Type 0 where
  lost_0 lost_1 lost_parity : Lost

abbrev pub of_lost {ℓ} : {A : Type ℓ} → Lost → A → A → A → A
of_lost lost_0 x y z = x
of_lost lost_1 x y z = y
of_lost lost_parity x y z = z

abbrev pub extent_of : Lost → Extents → List Byte
extent_of k e = of_lost k e.extent_0 e.extent_1 e.parity

-- The same loop of a rebuild, which writes one extent; what is left of both data extents is counted
-- by what it wrote.
unfoldable pub rebuild_stripes : Lost → ℕ → ℕ → ℕ → ℕ → List Byte → Option (List Byte)
unfolding xor_in_place take drop
rebuild_stripes k rounds chunk size_0 size_1 [] = some []
rebuild_stripes k zero chunk size_0 size_1 (b ∷ bs) = none
rebuild_stripes k (suc rounds) chunk size_0 size_1 (b ∷ bs) =
    let to_write = length (b ∷ bs) in
    let to_write_0 = part_0 chunk size_0 to_write in
    let to_write_1 = part_1 chunk size_1 to_write to_write_0 in
    let data_0 = take to_write_0 (b ∷ bs) in
    let data_1 = take to_write_1 (drop to_write_0 (b ∷ bs)) in
    let written = of_lost k to_write_0 to_write_1 to_write_0 in
    let rest =
      rebuild_stripes k rounds chunk (size_0 - written) (size_1 - written)
        (drop (to_write_0 + to_write_1) (b ∷ bs)) in
    elim rest [
      | none ↦ none
      | some bytes ↦
          some (of_lost k data_0 data_1 (xor_in_place data_0 (pad to_write_0 data_1)) ++ bytes)
    ]

-- Which two extents are read.
pub data Reads : Type 0 where
  both_data with_extent_0 without_extent_0 : Reads

-- The bytes of a stripe, from the chunk that is read first and the one that is read next.
abbrev pub decode : Reads → List Byte → List Byte → List Byte
decode both_data first next = first ++ next
decode with_extent_0 first next = first ++ xor_in_place (take (length next) first) next
decode without_extent_0 first next = xor_in_place (pad (length first) next) first ++ next

-- `raid4_read_into_buff`, on the rounds left: `first` and `next` are what is left of the extents
-- that a stripe reads first and next; without the extent 0, the parity is first.
unfoldable pub read_stripes : Reads → ℕ → ℕ → List Byte → List Byte → ℕ → Option (List Byte)
unfolding xor_in_place take drop
read_stripes reads rounds chunk first next zero = some []
read_stripes reads zero chunk first next (suc to_read) = none
read_stripes reads (suc rounds) chunk first next (suc to_read) =
    let first_size = part_0 chunk (length first) (suc to_read) in
    let next_size = min first_size (suc to_read - first_size) in
    let rest =
      read_stripes reads rounds chunk (drop first_size first) (drop next_size next)
        (suc to_read - first_size - next_size) in
    elim rest [
      | none ↦ none
      | some bytes ↦ some (decode reads (take first_size first) (take next_size next) ++ bytes)
    ]

-- The extents to read first and next.
abbrev pub first_of : Reads → Extents → List Byte
first_of both_data e = e.extent_0
first_of with_extent_0 e = e.extent_0
first_of without_extent_0 e = e.parity

abbrev pub next_of : Reads → Extents → List Byte
next_of both_data e = e.extent_1
next_of with_extent_0 e = e.parity
next_of without_extent_0 e = e.extent_1
