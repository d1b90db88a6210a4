-- ===== src/StringArray/CString.antt =====
-- Byte strings, and what type_utils.c uses of the C library on them: `strcmp` and `strtok_r` with
-- the delimiter ",".
use phobos.Base.{
  ℕ, ◌≡◌, refl, ◌↔◌, Bool, true, false, ◌&&◌, ◌||◌, List, [], ◌∷◌, arith, ◌==◌, if◌then◌else◌,
}

abbrev pub Bytes : Type 0
Bytes = List ℕ

-- `strcmp(s, t) == 0`
unfoldable pub str_eq : Bytes → Bytes → Bool
str_eq [] [] = true
str_eq [] (d ∷ t) = false
str_eq (c ∷ s) [] = false
str_eq (c ∷ s) (d ∷ t) = c == d && str_eq s t

str_eq_sound : (s t : Bytes) → str_eq s t ≡ true → s ≡ t
unfolding str_eq
str_eq_sound [] [] h = refl
str_eq_sound [] (d ∷ t) h = cc
str_eq_sound (c ∷ s) [] h = cc
str_eq_sound (c ∷ s) (d ∷ t) h = ground (arith, str_eq_sound s t)

pub str_eq_self : (s : Bytes) → str_eq s s ≡ true
unfolding str_eq
str_eq_self [] = refl
str_eq_self (c ∷ s) = ground (arith, str_eq_self s)

pub str_eq_iff : (s t : Bytes) → (str_eq s t ≡ true) ↔ (s ≡ t)
str_eq_iff s t = (str_eq_sound s t, λ e. rw e (str_eq_self t))

-- A token ends before a comma or at the end; empty tokens are skipped.
abbrev close : Bytes → List Bytes → List Bytes
close [] tokens = tokens
close (c ∷ s) tokens = (c ∷ s) ∷ tokens

-- The token that `str` begins with, and the tokens after it.
split : Bytes → Bytes × List Bytes
split [] = ([], [])
split (c ∷ s) =
    let (token, tokens) = split s in
    if c == b',' then ([], close token tokens) else (c ∷ token, tokens)

unfoldable pub strtok : Bytes → List Bytes
unfolding split
strtok s = let (token, tokens) = split s in close token tokens

-- The reference for a search.
abbrev pub contains : List Bytes → Bytes → Bool
contains [] s = false
contains (x ∷ xs) s = str_eq s x || contains xs s
