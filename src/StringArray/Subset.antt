-- ===== src/StringArray/Subset.antt =====
-- `string_array_in` and `string_array_intersect` as operations on sets of strings.
use phobos.Base.{
  suc, ◌≡◌, refl, ap, ◌∙◌, inl, inr, Bool, true, false, ◌&&◌, List, [], ◌∷◌, ◌++◌, some, arith,
  if◌then◌else◌, length, map, set, Bool-cases, All,
}
use mathlib.Core.List.{append-nil, append_assoc}
use native.Mathlib.Numerals.{add-one}
use phobos.StringArray.CString.{Bytes, str_eq, contains}
use phobos.StringArray.Reads.{shift, length-snoc, string_exists-contains, read_at}
use phobos.StringArray.{resize, array, string_exists, add, intersect_loop, intersect}

abbrev all_in : List Bytes → List Bytes → Bool
all_in hs [] = true
all_in hs (s ∷ ss) = contains hs s && all_in hs ss

-- Every string of the one list is in the other.
abbrev pub Within : List Bytes → List Bytes → Type 0
Within hs ns = All (λ s. contains hs s ≡ true) ns

-- No string stands twice.
abbrev pub Distinct : List Bytes → Type 0
Distinct [] = Unit {0}
Distinct (s ∷ ss) = (contains ss s ≡ false) × Distinct ss

-- Pigeonhole
erase : Bytes → List Bytes → List Bytes
erase s [] = []
erase s (x ∷ xs) = if str_eq s x then xs else x ∷ erase s xs

set-resize :
    (acc : List Bytes) (s : Bytes)
    → set (resize (suc (length acc)) (map some acc)) (length acc) (some s)
      ≡ map some (acc ++ s ∷ [])
set-resize [] s = refl
set-resize (x ∷ acc) s = ap (◌∷◌ (some x)) (set-resize acc s)

pub add-array : (acc : List Bytes) (s : Bytes) → add (array acc) s ≡ array (acc ++ s ∷ [])
unfolding add
add-array acc s = ground (arith, set-resize acc s, length-snoc acc s, add-one (length acc))

-- The strings of `ys` that are in `xs`, in their order.
abbrev pub common : List Bytes → List Bytes → List Bytes
common xs [] = []
common xs (y ∷ ys) = if contains xs y then y ∷ common xs ys else common xs ys

intersect_loop-common :
    (xs pre ys acc : List Bytes)
    → intersect_loop (length ys) (length pre) (array xs) (map some (pre ++ ys)) (array acc)
      ≡ some (array (acc ++ common xs ys))
unfolding intersect_loop
intersect_loop-common xs pre [] acc = rw append-nil
intersect_loop-common xs pre (y ∷ ys) acc =
    let found : string_exists (array xs) y ≡ some (contains xs y) =
      rw append-nil at (string_exists-contains xs [] y) in
    let ih = λ (acc' : List Bytes). intersect_loop-common xs (pre ++ y ∷ []) ys acc' in
    elim (Bool-cases (contains xs y)) [
      | inl here ↦ rw (read_at pre y ys) (
          rw found (
            rw (here, add-array acc y, ← length-snoc pre y, ← shift pre y ys)
              (ih (acc ++ y ∷ [])
                ∙ ap (λ z. some (array z)) (append_assoc acc (y ∷ []) (common xs ys)))))
      | inr away ↦
          rw (read_at pre y ys)
            (rw found (rw (away, ← length-snoc pre y, ← shift pre y ys) (ih acc)))
    ]

-- `string_array_intersect` follows no bad pointer; the new array holds exactly those strings of
-- the old one that the source array has, in their order and as often.
pub intersect-common :
    (xs ys : List Bytes) → intersect (array xs) (array ys) ≡ some (array (common xs ys))
unfolding intersect
intersect-common xs ys = intersect_loop-common xs [] ys []
