-- ===== src/StringArray/Csv.antt =====
-- `str2string_array`: a comma-separated list appended to an array.
use mathlib.Core.List.{append-nil, append_assoc}
use native.Mathlib.Nat.{zero-add, suc-add}
use native.Mathlib.Numerals.{add-one}
use phobos.Base.{
  ℕ, zero, suc, ◌+◌, ◌≡◌, refl, ap, ◌∙◌, inl, inr, true, false, List, [], ◌∷◌, ◌++◌, Option, none,
  some, arith, ltb, ◌==◌, if◌then◌else◌, length, map, set, replicate, Bool-cases,
}
use phobos.StringArray.CString.{Bytes, str_eq, strtok, contains}
use phobos.StringArray.Reads.{shift, length-snoc, read-append, string_exists-contains}
use phobos.StringArray.{
  StringArray, resize, read, array, exists_loop, string_exists, fill_loop, of_csv,
}

-- No string of the list is in the array, and none stands twice.
abbrev pub New : List Bytes → List Bytes → Type 0
New xs [] = Unit {0}
New xs (t ∷ ts) = (contains xs t ≡ false) × New (xs ++ t ∷ []) ts

-- The strings `xs`, with room for `n` more.
abbrev roomy : List Bytes → ℕ → StringArray
roomy xs n = record { strings = map some xs ++ replicate n none; count = length xs }

resize-nil : (n : ℕ) → resize n [] ≡ replicate n none
resize-nil zero = refl
resize-nil (suc n) = ap (◌∷◌ none) (resize-nil n)

resize-roomy :
    (xs : List Bytes) (n : ℕ)
    → resize (length xs + n) (map some xs) ≡ map some xs ++ replicate n none
resize-roomy [] zero = refl
resize-roomy [] (suc n) = rw zero-add (ap (◌∷◌ none) (resize-nil n))
resize-roomy (x ∷ xs) n = rw suc-add (ap (◌∷◌ (some x)) (resize-roomy xs n))

set-roomy :
    (xs : List Bytes) (t : Bytes) (rest : List (Option Bytes))
    → set (map some xs ++ none ∷ rest) (length xs) (some t) ≡ map some (xs ++ t ∷ []) ++ rest
set-roomy [] t rest = refl
set-roomy (x ∷ xs) t rest = ap (◌∷◌ (some x)) (set-roomy xs t rest)

fill_loop-New :
    (xs ts : List Bytes)
    → New xs ts
    → fill_loop ts (length xs) (roomy xs (length ts)) ≡ some (array (xs ++ ts))
unfolding fill_loop
fill_loop-New xs [] new = ground (arith, append-nil xs, append-nil (map some xs))
fill_loop-New xs (t ∷ ts) new =
    rw (string_exists-contains xs (replicate (suc (length ts)) none) t) (
      rw (new.0, set-roomy, ← length-snoc xs t)
        (fill_loop-New (xs ++ t ∷ []) ts new.1
          ∙ ap (λ z. some (array z)) (append_assoc xs (t ∷ []) ts)))

-- The array that the loop starts with.
abbrev start : List Bytes → ℕ → StringArray
start xs n = record (array xs) {
  strings = if ltb 0 (length xs) then resize (length xs + n) (map some xs) else replicate n none;
}

start-roomy : (xs : List Bytes) (n : ℕ) → start xs n ≡ roomy xs n
start-roomy [] n = refl
start-roomy (x ∷ xs) n = ground (arith, resize-roomy (x ∷ xs) n)

nil_of_length : (ts : List Bytes) → length ts ≡ 0 → ts ≡ []
nil_of_length [] h = refl
nil_of_length (t ∷ ts) h = absurd (omega arith)

-- If none of the named strings is in the array and none is named twice, `str2string_array` appends
-- them in their order, and follows no bad pointer on the way.
pub of_csv-append :
    (xs : List Bytes) (str : Bytes)
    → New xs (strtok str)
    → of_csv str (array xs) ≡ some (array (xs ++ strtok str))
unfolding of_csv
of_csv-append xs str new = elim (Bool-cases (length (strtok str) == 0)) [
  | inl empty ↦
      let e : strtok str ≡ [] = nil_of_length (strtok str) (ground arith) in
      rw e (ground (arith, append-nil xs))
  | inr more ↦ rw more (
      ap (fill_loop (strtok str) (length xs)) (start-roomy xs (length (strtok str)))
      ∙ fill_loop-New xs (strtok str) new)
]

read-hole :
    (pre : List Bytes) (rest : List (Option Bytes))
    → read (map some pre ++ none ∷ rest) (length pre) ≡ none
read-hole [] rest = refl
read-hole (p ∷ pre) rest = read-hole pre rest

-- A search that meets a bad pointer.
exists_loop-hole :
    (pre xs : List Bytes) (rest : List (Option Bytes)) (s : Bytes)
    → contains xs s ≡ false
    → exists_loop (suc (length xs)) (length pre) (map some (pre ++ xs) ++ none ∷ rest) s ≡ none
unfolding exists_loop
exists_loop-hole pre [] rest s h = rw (append-nil pre, read-hole pre rest)
exists_loop-hole pre (x ∷ xs) rest s h =
    let ih = exists_loop-hole (pre ++ x ∷ []) xs rest s (ground arith) in
    let ih' : exists_loop (suc (length xs)) (length pre + 1)
          (map some (pre ++ x ∷ xs) ++ none ∷ rest) s
        ≡ none =
      rw (← length-snoc pre x, ← shift pre x xs) ih in
    let other : str_eq s x ≡ false = ground arith in
    rw (read-append pre x xs (none ∷ rest), other) ih'

string_exists-hole :
    (xs : List Bytes) (rest : List (Option Bytes)) (s : Bytes)
    → contains xs s ≡ false
    → string_exists (record { strings = map some xs ++ none ∷ rest; count = length xs + 1 }) s
      ≡ none
unfolding string_exists
string_exists-hole xs rest s h = rw add-one (exists_loop-hole [] xs rest s h)

set-second :
    (xs : List Bytes) (s : Option Bytes) (t : Bytes)
    → set (map some xs ++ none ∷ s ∷ []) (suc (length xs)) (some t)
      ≡ map some xs ++ none ∷ some t ∷ []
set-second [] s t = refl
set-second (x ∷ xs) s t = ap (◌∷◌ (some x)) (set-second xs s t)

-- If the list names a string that the array has and then one that it has not, the second lands one
-- place too far: the array that comes back counts a bad pointer among its strings, and a search for
-- the string just added, or for any other that the array had not, follows that pointer.
pub of_csv-duplicate :
    (xs : List Bytes) (str old new sought : Bytes)
    → strtok str ≡ old ∷ new ∷ []
    → contains xs old ≡ true
    → contains xs new ≡ false
    → contains xs sought ≡ false
    → (a : StringArray) × (of_csv str (array xs) ≡ some a) × (string_exists a sought ≡ none)
unfolding of_csv fill_loop
of_csv-duplicate xs str old new sought tokens known fresh absent =
    let room : start xs 2 ≡ roomy xs 2 = start-roomy xs 2 in
    let rest : List (Option Bytes) = none ∷ none ∷ [] in
    (
      record { strings = map some xs ++ none ∷ some new ∷ []; count = length xs + 1 },
      rw tokens (
          ap (fill_loop (old ∷ new ∷ []) (length xs)) room
          ∙ rw (
            string_exists-contains xs rest old,
            known,
            string_exists-contains xs rest new,
            fresh,
            add-one,
            set-second,
          )),
      string_exists-hole xs (some new ∷ []) sought absent,
    )
