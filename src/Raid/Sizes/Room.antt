-- ===== src/Raid/Sizes/Room.antt =====
-- The room that a write asks for on each medium.
use native.Mathlib.Nat.{mod-add-div', mod-lt}
use phobos.Base.{
  inl, inr, refl, ◌⊎◌, ℕ, zero, suc, ◌+◌, ◌-◌, ◌*◌, ◌≤◌, ◌<◌, ◌≡◌, List, [], ◌∷◌, arith,
}
use phobos.Base.Results.{Errno}
use phobos.Raid.Sizes.{xfer_remain_to_write_per_medium, ceil_div, target_room, remain_to_write}

abbrev pub total : List ℕ → ℕ
total [] = 0
total (n ∷ ns) = n + total ns

abbrev pub count : List ℕ → ℕ
count [] = 0
count (n ∷ ns) = count ns + 1

-- The quotient rounded up.
ceil_div-ge : (a b : ℕ) → 0 < b → a ≤ b * ceil_div a b
ceil_div-ge a b h =
    let e = mod-add-div' (a + b - 1) b in let f = mod-lt (a + b - 1) h in omega (arith, e, f)

mul_mono : (n a b : ℕ) → a ≤ b → n * a ≤ n * b
mul_mono n a b h = grind arith

target_room-enough :
    (n_data fs_block_size size : ℕ)
    → 0 < n_data
    → size + n_data * (3 * fs_block_size) ≤ n_data * target_room n_data fs_block_size size
unfolding target_room
target_room-enough n_data zero size h =
    let z : n_data * (3 * zero) ≡ zero = omega arith in omega (arith, z, ceil_div-ge size n_data h)
target_room-enough n_data (suc b) size h =
    let each = ceil_div size n_data in
    let blocks = ceil_div each (suc b) * suc b in
    let room : each ≤ blocks = omega (arith, ceil_div-ge each (suc b) (omega arith)) in
    let e : n_data * (blocks + 3 * suc b) ≡ n_data * blocks + n_data * (3 * suc b) = omega arith in
    ground (arith, e, mul_mono n_data each blocks room, ceil_div-ge size n_data h)

remain_to_write-enough :
    (n_data fs_block_size : ℕ) (sizes : List ℕ)
    → 0 < n_data
    → total sizes + n_data * (count sizes * (3 * fs_block_size))
      ≤ n_data * remain_to_write n_data fs_block_size sizes
unfolding remain_to_write target_room
remain_to_write-enough n_data fs_block_size [] h =
    let z : n_data * (0 * (3 * fs_block_size)) ≡ 0 = grind arith in omega (arith, z)
remain_to_write-enough n_data fs_block_size (size ∷ sizes) h =
    let rest = remain_to_write n_data fs_block_size sizes in
    let room = target_room n_data fs_block_size size in
    let e : n_data * (room + rest) ≡ n_data * room + n_data * rest = omega arith in
    let f : n_data * ((count sizes + 1) * (3 * fs_block_size))
        ≡ n_data * (count sizes * (3 * fs_block_size)) + n_data * (3 * fs_block_size) =
      grind arith in
    omega (
      arith,
      e,
      f,
      target_room-enough n_data fs_block_size size h,
      remain_to_write-enough n_data fs_block_size sizes h,
    )

-- The answer is the error of the configuration, or enough: the data media together hold all that is
-- left of the targets, and with a known block size, each medium has three blocks more for each
-- target.
abbrev pub IsEnough : ℕ → Errno ⊎ ℕ → ℕ → ℕ → List ℕ → Errno ⊎ ℕ → Type 0
IsEnough n_data (inl rc) object_size writer_offset targets answer = answer ≡ inl rc
IsEnough n_data (inr fs_block_size) object_size writer_offset targets answer =
    (size : ℕ) × (answer ≡ inr size)
    × ((object_size - writer_offset + total targets)
          + n_data * ((count targets + 1) * (3 * fs_block_size))
        ≤ n_data * size)

-- The room that a write asks for on each medium is enough for what is left of its targets, unless
-- the configuration has an error.
pub xfer_remain_to_write_per_medium-IsEnough :
    (n_data : ℕ) (block : Errno ⊎ ℕ) (object_size writer_offset : ℕ) (targets : List ℕ)
    → 0 < n_data
    → IsEnough n_data block object_size writer_offset targets
        (xfer_remain_to_write_per_medium n_data block object_size writer_offset targets)
unfolding xfer_remain_to_write_per_medium
xfer_remain_to_write_per_medium-IsEnough n_data (inl rc) object_size writer_offset targets h = refl
xfer_remain_to_write_per_medium-IsEnough n_data (inr b) object_size writer_offset targets h =
    let sizes = (object_size - writer_offset) ∷ targets in
    (remain_to_write n_data b sizes, refl, remain_to_write-enough n_data b sizes h)
