-- ===== src/Raid/Parity/Examples.antt =====
-- A split of five bytes in chunks of two, read without its first extent.
use phobos.Base.{◌≡◌, refl, true, List, [], ◌∷◌, some, arith, take, drop}
use phobos.Raid.Parity.{
  Byte, zero_byte, xor_in_place, Extents, write_stripes, without_extent_0, read_stripes,
}
use phobos.Raid.Parity.Recover.{Recovers, write_stripes-Recovers}

abbrev one : Byte
one = record zero_byte { b0 = true }

abbrev two : Byte
two = record zero_byte { b1 = true }

abbrev three : Byte
three = record zero_byte { b0 = true; b1 = true }

abbrev bytes : List Byte
bytes = one ∷ two ∷ three ∷ two ∷ two ∷ []

abbrev extents : Extents
extents = record {
  extent_0 = one ∷ two ∷ two ∷ [];
  extent_1 = three ∷ two ∷ [];
  parity = two ∷ zero_byte ∷ two ∷ [];
}

writes : write_stripes 5 2 3 2 bytes ≡ some extents
unfolding write_stripes xor_in_place take drop
writes = refl

reads_back : read_stripes without_extent_0 5 2 extents.parity extents.extent_1 5 ≡ some bytes
unfolding read_stripes xor_in_place take drop
reads_back = refl

write_stripes-Recovers_example : Recovers without_extent_0 5 2 3 2 bytes
write_stripes-Recovers_example =
    write_stripes-Recovers without_extent_0 5 2 3 2 bytes (omega arith) (omega arith) (omega arith)
      refl (omega arith)
