-- ===== src/Raid/Parity/Chunks.antt =====
-- The two chunks of a stripe and their parity: each pair gives back the data.
use phobos.Base.{
  ℕ, zero, suc, ◌-◌, ◌≤◌, ◌≡◌, refl, sym, ap, ◌∙◌, ◌⊎◌, inl, inr, Bool, true, false, List, [], ◌∷◌,
  ◌++◌, arith, length, length-append, length-take, length-replicate, replicate, take, drop,
  take-append, drop-append,
}
use phobos.Raid.Parity.{
  Byte, xor_bit, xor_byte, zero_byte, xor_in_place, pad, Reads, both_data, with_extent_0,
  without_extent_0, decode,
}

xor_bit-twice : (x y : Bool) → xor_bit (xor_bit x y) y ≡ x
xor_bit-twice true true = refl
xor_bit-twice true false = refl
xor_bit-twice false true = refl
xor_bit-twice false false = refl

xor_bit-other : (x y : Bool) → xor_bit (xor_bit x y) x ≡ y
xor_bit-other true true = refl
xor_bit-other true false = refl
xor_bit-other false true = refl
xor_bit-other false false = refl

xor_byte-twice : (x y : Byte) → xor_byte (xor_byte x y) y ≡ x
xor_byte-twice x y =
    rw
      (
        xor_bit-twice x.b0 y.b0,
        xor_bit-twice x.b1 y.b1,
        xor_bit-twice x.b2 y.b2,
        xor_bit-twice x.b3 y.b3,
        xor_bit-twice x.b4 y.b4,
        xor_bit-twice x.b5 y.b5,
        xor_bit-twice x.b6 y.b6,
        xor_bit-twice x.b7 y.b7,
      )
      refl

xor_byte-other : (x y : Byte) → xor_byte (xor_byte x y) x ≡ y
xor_byte-other x y =
    rw
      (
        xor_bit-other x.b0 y.b0,
        xor_bit-other x.b1 y.b1,
        xor_bit-other x.b2 y.b2,
        xor_bit-other x.b3 y.b3,
        xor_bit-other x.b4 y.b4,
        xor_bit-other x.b5 y.b5,
        xor_bit-other x.b6 y.b6,
        xor_bit-other x.b7 y.b7,
      )
      refl

length-xor_in_place : (d p : List Byte) → length d ≡ length p → length (xor_in_place d p) ≡ length p
unfolding xor_in_place
length-xor_in_place [] p e = refl
length-xor_in_place (x ∷ d) [] e = refl
length-xor_in_place (x ∷ d) (y ∷ p) e = ap suc (length-xor_in_place d p (omega arith))

-- The same data twice leave the parity as it was, on the first bytes of it.
xor_in_place-twice :
    (n : ℕ) (d p : List Byte)
    → length d ≡ length p
    → xor_in_place (take n d) (take n (xor_in_place d p)) ≡ take n p
unfolding xor_in_place take
xor_in_place-twice zero d p e = refl
xor_in_place-twice (suc n) [] [] e = refl
xor_in_place-twice (suc n) [] (y ∷ p) e = absurd (omega arith)
xor_in_place-twice (suc n) (x ∷ d) [] e = refl
xor_in_place-twice (suc n) (x ∷ d) (y ∷ p) e =
    rw (xor_byte-twice y x, xor_in_place-twice n d p (omega arith)) refl

-- The other data of the parity come out of it.
xor_in_place-other : (d p : List Byte) → length d ≡ length p → xor_in_place p (xor_in_place d p) ≡ d
unfolding xor_in_place
xor_in_place-other [] [] e = refl
xor_in_place-other [] (y ∷ p) e = absurd (omega arith)
xor_in_place-other (x ∷ d) [] e = absurd (omega arith)
xor_in_place-other (x ∷ d) (y ∷ p) e =
    rw (xor_byte-other y x, xor_in_place-other d p (omega arith)) refl

length-pad : (n : ℕ) (bytes : List Byte) → length bytes ≤ n → length (pad n bytes) ≡ n
length-pad n bytes h = omega (
  arith,
  length-append bytes (replicate (n - length bytes) zero_byte),
  length-replicate (n - length bytes) zero_byte,
)

pub take_append {ℓ} : {A : Type ℓ} (n : ℕ) (xs ys : List A) → length xs ≡ n → take n (xs ++ ys) ≡ xs
take_append n xs ys e = rw (← e) (take-append xs ys)

pub drop_append {ℓ} : {A : Type ℓ} (n : ℕ) (xs ys : List A) → length xs ≡ n → drop n (xs ++ ys) ≡ ys
drop_append n xs ys e = rw (← e) (drop-append xs ys)

-- A stripe: a chunk of each data extent, the second one not longer than the first.
module _ (n_0 n_1 : ℕ) (data_0 data_1 : List Byte) (l_0 : length data_0 ≡ n_0)
    (l_1 : length data_1 ≡ n_1) (le : n_1 ≤ n_0) where
  abbrev pub parity_chunk : List Byte
  parity_chunk = xor_in_place data_0 (pad n_0 data_1)

  abbrev pub first_chunk : Reads → List Byte
  first_chunk both_data = data_0
  first_chunk with_extent_0 = data_0
  first_chunk without_extent_0 = parity_chunk

  abbrev pub next_chunk : Reads → List Byte
  next_chunk both_data = data_1
  next_chunk with_extent_0 = parity_chunk
  next_chunk without_extent_0 = data_1

  padded : length (pad n_0 data_1) ≡ n_0
  padded = length-pad n_0 data_1 (omega arith)

  pub length-parity_chunk : length parity_chunk ≡ n_0
  length-parity_chunk = length-xor_in_place data_0 (pad n_0 data_1) (omega (arith, padded)) ∙ padded

  pub length-first_chunk : (reads : Reads) → length (first_chunk reads) ≡ n_0
  length-first_chunk both_data = l_0
  length-first_chunk with_extent_0 = l_0
  length-first_chunk without_extent_0 = length-parity_chunk

  pub length-next_chunk :
      (reads : Reads) → (length (next_chunk reads) ≡ n_1) ⊎ (length (next_chunk reads) ≡ n_0)
  length-next_chunk both_data = inl l_1
  length-next_chunk with_extent_0 = inr length-parity_chunk
  length-next_chunk without_extent_0 = inl l_1

  take_all : take n_1 data_1 ≡ data_1
  take_all =
      let e = take_append n_1 data_1 [] l_1 in ap (λ xs. take n_1 xs) (sym (append_nil data_1)) ∙ e
    where
      append_nil : (xs : List Byte) → xs ++ [] ≡ xs
      append_nil [] = refl
      append_nil (x ∷ xs) = ap (λ ys. x ∷ ys) (append_nil xs)

  pub decode-chunks :
      (reads : Reads)
      → decode reads (first_chunk reads) (take n_1 (next_chunk reads)) ≡ data_0 ++ data_1
  decode-chunks both_data = rw take_all refl
  decode-chunks with_extent_0 =
      let e = length-take n_1 parity_chunk (omega (arith, length-parity_chunk)) in
      let f = xor_in_place-twice n_1 data_0 (pad n_0 data_1) (omega (arith, padded)) in
      let g = take_append n_1 data_1 (replicate (n_0 - length data_1) zero_byte) l_1 in
      rw (e, f, g) refl
  decode-chunks without_extent_0 =
      let f = xor_in_place-other data_0 (pad n_0 data_1) (omega (arith, padded)) in
      rw (take_all, length-parity_chunk, f) refl
