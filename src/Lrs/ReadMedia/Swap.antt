-- ===== src/Lrs/ReadMedia/Swap.antt =====
-- `med_ids_switch`: two entries of an array trade their places.
use mathlib.Core.List.Perm
use phobos.Base.{
  ℕ, ◌<◌, ◌≡◌, ◌∙◌, ◌≢◌, List, Option, some, arith, Perm, ◌==◌, if◌then◌else◌, ◌>>=◌, length,
  get_elem?, set, length-set, get_elem?-set, get_elem?_of_lt, lt_of_get_elem?, set-perm,
}

module _ {ℓ} {A : Type ℓ} where
  unfoldable pub med_ids_switch : List A → ℕ → ℕ → Option (List A)
  med_ids_switch l first second = do
    a ← get_elem? l first
    b ← get_elem? l second
    some (set (set l first b) second a)

  -- What a switch leaves at each place.
  pub record Switched (l : List A) (i j : ℕ) (l' : List A) : Type ℓ where
    pub switched_length : length l' ≡ length l
    pub switched_perm : Perm l' l
    pub at_first : get_elem? l' i ≡ get_elem? l j
    pub at_second : get_elem? l' j ≡ get_elem? l i
    pub elsewhere : (k : ℕ) → k ≢ i → k ≢ j → get_elem? l' k ≡ get_elem? l k

  switched :
      (l : List A) (i j : ℕ) (a b : A)
      → get_elem? l i ≡ some a
      → get_elem? l j ≡ some b
      → Switched l i j (set (set l i b) j a)
  switched l i j a b ei ej = record {
    switched_length = length-set l' j a ∙ length-set l i b;
    switched_perm =
        Perm.cons_inv (Perm.trans (set-perm l' j b a (ground (arith, at j))) (set-perm l i a b ei));
    at_first = ground (arith, after i, at i);
    at_second = ground (arith, after j, at j);
    elsewhere = λ k ni nj. ground (arith, after k, at k);
  }
    where
      l' : List A
      l' = set l i b

      at : (k : ℕ) → get_elem? l' k ≡ (if i == k then some b else get_elem? l k)
      at k = get_elem?-set l i k b (lt_of_get_elem? l i a ei)

      after : (k : ℕ) → get_elem? (set l' j a) k ≡ (if j == k then some a else get_elem? l' k)
      after k = get_elem?-set l' j k a (omega (arith, length-set l i b, lt_of_get_elem? l j b ej))

  -- Inside the array a switch succeeds, and does what it says.
  pub med_ids_switch-Switched :
      (l : List A) (i j : ℕ)
      → i < length l
      → j < length l
      → (l' : List A) × (med_ids_switch l i j ≡ some l') × Switched l i j l'
  unfolding med_ids_switch
  med_ids_switch-Switched l i j hi hj =
      let (a, ea) = get_elem?_of_lt l i hi in
      let (b, eb) = get_elem?_of_lt l j hj in
      (set (set l i b) j a, ground arith, switched l i j a b ea eb)
