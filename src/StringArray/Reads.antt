-- ===== src/StringArray/Reads.antt =====
-- The reading operations, on an array that holds just its strings, against plain lists.
use phobos.Base.{
  ℕ, ◌+◌, ◌≤◌, ◌≡◌, refl, ap, ◌↔◌, inl, inr, Bool, true, false, ◌&&◌, not, List, [], ◌∷◌, ◌++◌,
  Option, some, arith, ◌==◌, length, get_elem?, map, Bool-cases,
}
use mathlib.Core.List.{append_assoc}
use phobos.StringArray.CString.{Bytes, str_eq, str_eq_iff, contains}
use phobos.StringArray.{
  StringArray, read, array, eq_loop, eq, exists_loop, string_exists, find_loop, init_loop, dup,
}

-- The string behind a prefix.
pub read-append :
    (pre : List Bytes) (x : Bytes) (xs : List Bytes) (rest : List (Option Bytes))
    → read (map some (pre ++ x ∷ xs) ++ rest) (length pre) ≡ some x
read-append [] x xs rest = refl
read-append (p ∷ pre) x xs rest = read-append pre x xs rest

pub read_at :
    (pre : List Bytes) (x : Bytes) (xs : List Bytes)
    → read (map some (pre ++ x ∷ xs)) (length pre) ≡ some x
read_at [] x xs = refl
read_at (p ∷ pre) x xs = read_at pre x xs

-- The same with the prefix one longer, for the next round of a loop.
pub shift : (pre : List Bytes) (x : Bytes) (xs : List Bytes) → (pre ++ x ∷ []) ++ xs ≡ pre ++ x ∷ xs
shift pre x xs = append_assoc pre (x ∷ []) xs

pub length-snoc : (pre : List Bytes) (x : Bytes) → length (pre ++ x ∷ []) ≡ length pre + 1
length-snoc [] x = omega arith
length-snoc (p ∷ pre) x = omega (arith, length-snoc pre x)

exists_loop-contains :
    (pre xs : List Bytes) (rest : List (Option Bytes)) (s : Bytes)
    → exists_loop (length xs) (length pre) (map some (pre ++ xs) ++ rest) s ≡ some (contains xs s)
unfolding exists_loop
exists_loop-contains pre [] rest s = refl
exists_loop-contains pre (x ∷ xs) rest s =
    let ih = exists_loop-contains (pre ++ x ∷ []) xs rest s in
    let ih' : exists_loop (length xs) (length pre + 1) (map some (pre ++ x ∷ xs) ++ rest) s
        ≡ some (contains xs s) =
      rw (← length-snoc pre x, ← shift pre x xs) ih in
    ground (arith, read-append pre x xs rest, ih')

-- `string_exists` looks at exactly the first `count` strings, whatever memory lies behind them.
pub string_exists-contains :
    (xs : List Bytes) (rest : List (Option Bytes)) (s : Bytes)
    → string_exists (record { strings = map some xs ++ rest; count = length xs }) s
      ≡ some (contains xs s)
unfolding string_exists
string_exists-contains xs rest s = exists_loop-contains [] xs rest s

-- `find_loop` runs past the last string exactly when it finds none.
pub find_loop-contains :
    (pre xs : List Bytes) (s : Bytes)
    → (j : ℕ) × (find_loop (length xs) (length pre) (map some (pre ++ xs)) s ≡ some j)
      × ((j == length pre + length xs) ≡ not (contains xs s))
      × (j ≤ length pre + length xs)
unfolding find_loop
find_loop-contains pre [] s = (length pre, refl, ground arith, omega arith)
find_loop-contains pre (x ∷ xs) s =
    let (j, e, t, b) = find_loop-contains (pre ++ x ∷ []) xs s in
    let e' : find_loop (length xs) (length pre + 1) (map some (pre ++ x ∷ xs)) s ≡ some j =
      rw (← length-snoc pre x, ← shift pre x xs) e in
    let n = length-snoc pre x in
    elim (Bool-cases (str_eq s x)) [
      | inl same ↦ (length pre, ground (arith, read_at pre x xs), ground arith, omega arith)
      | inr other ↦ (j, ground (arith, read_at pre x xs), ground arith, omega arith)
    ]

-- Two arrays are equal when they hold the same strings in the same order.
abbrev eq_list : List Bytes → List Bytes → Bool
eq_list [] [] = true
eq_list [] (y ∷ ys) = false
eq_list (x ∷ xs) [] = false
eq_list (x ∷ xs) (y ∷ ys) = str_eq x y && eq_list xs ys

eq_list_iff : (xs ys : List Bytes) → (eq_list xs ys ≡ true) ↔ (xs ≡ ys)
eq_list_iff [] [] = ground arith
eq_list_iff [] (y ∷ ys) = ground arith
eq_list_iff (x ∷ xs) [] = ground arith
eq_list_iff (x ∷ xs) (y ∷ ys) = ground (arith, str_eq_iff x y, eq_list_iff xs ys)

eq_loop-eq_list :
    (pre pre' xs ys : List Bytes)
    → length pre ≡ length pre'
    → length xs ≡ length ys
    → eq_loop (length xs) (length pre) (map some (pre ++ xs)) (map some (pre' ++ ys))
      ≡ some (eq_list xs ys)
unfolding eq_loop
eq_loop-eq_list pre pre' [] [] p q = refl
eq_loop-eq_list pre pre' [] (y ∷ ys) p q = absurd (omega arith)
eq_loop-eq_list pre pre' (x ∷ xs) [] p q = absurd (omega arith)
eq_loop-eq_list pre pre' (x ∷ xs) (y ∷ ys) p q =
    let n = length-snoc pre x in
    let n' = length-snoc pre' y in
    let ih = eq_loop-eq_list (pre ++ x ∷ []) (pre' ++ y ∷ []) xs ys (omega arith) (omega arith) in
    let ih' : eq_loop (length xs) (length pre + 1) (map some (pre ++ x ∷ xs))
          (map some (pre' ++ y ∷ ys))
        ≡ some (eq_list xs ys) =
      rw (← n, ← shift pre x xs, ← shift pre' y ys) ih in
    ground (arith, read_at pre x xs, rw (← p) at (read_at pre' y ys), ih')

-- `string_array_eq` follows no bad pointer, and says true exactly when the arrays hold the same
-- strings in the same order.
pub eq_iff : (xs ys : List Bytes) → (eq (array xs) (array ys) ≡ some true) ↔ (xs ≡ ys)
unfolding eq
eq_iff xs ys = elim (Bool-cases (length xs == length ys)) [
  | inl same ↦ rw same (
      rw (eq_loop-eq_list [] [] xs ys refl (ground arith))
        (λ e. (eq_list_iff xs ys).0 (ground arith), λ e. ap some ((eq_list_iff xs ys).1 e)))
  | inr other ↦ rw other (λ e. cc, λ e. absurd (ground (arith, ap length e)))
]

slot_at :
    (pre : List Bytes) (x : Bytes) (xs : List Bytes)
    → get_elem? (map some (pre ++ x ∷ xs)) (length pre) ≡ some (some x)
slot_at [] x xs = refl
slot_at (p ∷ pre) x xs = slot_at pre x xs

init_loop-map :
    (pre xs : List Bytes)
    → init_loop (length xs) (length pre) (map some (pre ++ xs)) ≡ some (map some xs)
unfolding init_loop
init_loop-map pre [] = refl
init_loop-map pre (x ∷ xs) =
    let ih = init_loop-map (pre ++ x ∷ []) xs in
    let ih' : init_loop (length xs) (length pre + 1) (map some (pre ++ x ∷ xs))
        ≡ some (map some xs) =
      rw (← length-snoc pre x, ← shift pre x xs) ih in
    ground (arith, slot_at pre x xs, ih')

dup-array : (xs : List Bytes) → dup (array xs) ≡ some (array xs)
unfolding dup
dup-array [] = refl
dup-array (x ∷ xs) = ground (arith, init_loop-map [] (x ∷ xs))

-- A duplicate holds the same strings in the same order: it can always be made, and it equals its
-- source by `string_array_eq`.
pub dup-eq :
    (xs : List Bytes)
    → (a : StringArray) × (dup (array xs) ≡ some a) × (eq (array xs) a ≡ some true)
dup-eq xs = (array xs, dup-array xs, (eq_iff xs xs).1 refl)
