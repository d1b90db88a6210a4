-- ===== src/StringArray.antt =====
-- The string arrays of src/core/common/type_utils.c: tags and groupings of media. A string is the
-- list of its bytes. The memory behind `strings` is a list of pointers; `none` is a null or an
-- uninitialised one. Following such a pointer, or leaving the memory, is the outcome `none`.
pub mod CString
pub mod Reads
pub mod Subset
pub mod Csv
mod Examples
use phobos.Base.{
  ℕ, zero, suc, ◌+◌, Bool, true, false, List, [], ◌∷◌, Option, none, some, ltb, ◌==◌, if◌then◌else◌,
  ◌>>=◌, length, get_elem?, set, map, replicate,
}
use CString.{Bytes, str_eq, strtok}

pub record StringArray : Type 0 where
  pub strings : List (Option Bytes)
  pub count : ℕ

-- `strings[i]`, followed.
abbrev pub read : List (Option Bytes) → ℕ → Option Bytes
read strings i = do slot ← get_elem? strings i; slot

-- `xrealloc` to `n` pointers.
abbrev pub resize : ℕ → List (Option Bytes) → List (Option Bytes)
resize zero xs = []
resize (suc n) [] = none ∷ resize n []
resize (suc n) (x ∷ xs) = x ∷ resize n xs

abbrev pub no_string : StringArray
no_string = record { strings = []; count = 0 }

-- `string_array_init` copies the first `count` strings; `xstrdup_safe` copies a null pointer too.
init_loop : ℕ → ℕ → List (Option Bytes) → Option (List (Option Bytes))
init_loop zero i strings = some []
init_loop (suc n) i strings = do
  s ← get_elem? strings i
  rest ← init_loop n (i + 1) strings
  some (s ∷ rest)

pub init : List (Option Bytes) → ℕ → Option StringArray
unfolding init_loop
init strings count =
    if count == 0
    then some no_string
    else (do copied ← init_loop count 0 strings; some (record { strings = copied; count = count }))

pub dup : StringArray → Option StringArray
unfolding init
dup src = init src.strings src.count

-- The loops recur on the rounds left; `i` is the C counter.
eq_loop : ℕ → ℕ → List (Option Bytes) → List (Option Bytes) → Option Bool
eq_loop zero i xs ys = some true
eq_loop (suc n) i xs ys =
    let rest = eq_loop n (i + 1) xs ys in
    do x ← read xs i; y ← read ys i; if str_eq x y then rest else some false

pub eq : StringArray → StringArray → Option Bool
unfolding eq_loop
eq a b = if a.count == b.count then eq_loop a.count 0 a.strings b.strings else some false

exists_loop : ℕ → ℕ → List (Option Bytes) → Bytes → Option Bool
exists_loop zero i strings s = some false
exists_loop (suc n) i strings s =
    let rest = exists_loop n (i + 1) strings s in
    do t ← read strings i; if str_eq s t then some true else rest

pub string_exists : StringArray → Bytes → Option Bool
string_exists a s = exists_loop a.count 0 a.strings s

-- The inner loop of `string_array_in`: the value of `hay_i` after it.
pub find_loop : ℕ → ℕ → List (Option Bytes) → Bytes → Option ℕ
find_loop zero i haystack s = some i
find_loop (suc n) i haystack s =
    let rest = find_loop n (i + 1) haystack s in
    do t ← read haystack i; if str_eq s t then some i else rest

in_loop : ℕ → ℕ → StringArray → List (Option Bytes) → Option Bool
in_loop zero i haystack needle = some true
in_loop (suc n) i haystack needle =
    let rest = in_loop n (i + 1) haystack needle in
    do
      s ← read needle i
      hay_i ← find_loop haystack.count 0 haystack.strings s
      if hay_i == haystack.count then some false else rest

pub array_in : StringArray → StringArray → Option Bool
array_in haystack needle =
    if ltb haystack.count needle.count
    then some false
    else in_loop needle.count 0 haystack needle.strings

pub add : StringArray → Bytes → StringArray
add a s = record {
  strings = set (resize (a.count + 1) a.strings) a.count (some s);
  count = a.count + 1;
}

intersect_loop : ℕ → ℕ → StringArray → List (Option Bytes) → StringArray → Option StringArray
intersect_loop zero i src dst acc = some acc
intersect_loop (suc n) i src dst acc = do
  s ← read dst i
  found ← string_exists src s
  intersect_loop n (i + 1) src dst (if found then add acc s else acc)

-- The new value of `dst`.
pub intersect : StringArray → StringArray → Option StringArray
intersect src dst = intersect_loop dst.count 0 src dst.strings no_string

-- The loop that fills the strings. Its step counts a token up also when the token is skipped.
fill_loop : List Bytes → ℕ → StringArray → Option StringArray
fill_loop [] i a = some a
fill_loop (token ∷ tokens) i a = do
  found ← string_exists a token
  fill_loop tokens (i + 1)
      (if found then a else record { strings = set a.strings i (some token); count = a.count + 1 })

-- `str2string_array` at pointers that are not null.
pub of_csv : Bytes → StringArray → Option StringArray
of_csv str a =
    let count = length (strtok str) in
    if count == 0
    then some a
    else fill_loop (strtok str) a.count (record a {
      strings = if ltb 0 a.count then resize (a.count + count) a.strings else replicate count none;
    })

-- The array that holds just these strings.
abbrev pub array : List Bytes → StringArray
array xs = record { strings = map some xs; count = length xs }
