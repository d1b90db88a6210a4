-- ===== src/Raid/Rebuild/Counts.antt =====
-- Counts over ranges of layout indexes.
use phobos.Base.{
  ℕ, zero, suc, ◌+◌, ◌*◌, ◌≤◌, ◌≡◌, refl, Bool, false, not, ◌&&◌, ◌||◌, arith, ◌==◌, ltb, leb,
  if◌then◌else◌,
}
use phobos.Raid.Locate.Splits.{count_range}

pub count_range_le : (n k : ℕ) (p : ℕ → Bool) → count_range n k p ≤ n
unfolding count_range
count_range_le zero k p = omega arith
count_range_le (suc n) k p = ground (arith, count_range_le n (k + 1) p)

pub count_range_ext :
    (n k : ℕ) (p q : ℕ → Bool) → ((j : ℕ) → p j ≡ q j) → count_range n k p ≡ count_range n k q
unfolding count_range
count_range_ext zero k p q h = refl
count_range_ext (suc n) k p q h = ground (arith, count_range_ext n (k + 1) p q h, h k)

-- What passes a test passes a second one or not.
pub count_range-not :
    (n k : ℕ) (p q : ℕ → Bool)
    → count_range n k (λ j. p j && not (q j)) + count_range n k (λ j. p j && q j)
      ≡ count_range n k p
unfolding count_range
count_range-not zero k p q = refl
count_range-not (suc n) k p q = ground (arith, count_range-not n (k + 1) p q)

pub count_range-plus :
    (m n k : ℕ) (p : ℕ → Bool)
    → count_range (m + n) k p ≡ count_range m k p + count_range n (k + m) p
unfolding count_range
count_range-plus zero n k p =
    let e : zero + n ≡ n = omega arith in
    let f : k + zero ≡ k = omega arith in rw (e, f) (omega arith)
count_range-plus (suc m) n k p =
    let e : suc m + n ≡ suc (m + n) = omega arith in
    let f : k + suc m ≡ k + 1 + m = omega arith in
    rw (e, f) (ground (arith, count_range-plus m n (k + 1) p))

-- One more index that passes.
pub count_range-or :
    (n k i : ℕ) (q : ℕ → Bool)
    → q i ≡ false
    → count_range n k (λ j. (i == j) || q j)
      ≡ (if ltb i k || leb (k + n) i then count_range n k q else count_range n k q + 1)
unfolding count_range
count_range-or zero k i q h = ground arith
count_range-or (suc n) k i q h = ground (arith, count_range-or n (k + 1) i q h)

-- The sum of f over the first n numbers.
abbrev pub sum_range : ℕ → (ℕ → ℕ) → ℕ
sum_range zero f = 0
sum_range (suc n) f = sum_range n f + f n

pub sum_range-add :
    (n : ℕ) (f g : ℕ → ℕ) → sum_range n (λ i. f i + g i) ≡ sum_range n f + sum_range n g
sum_range-add zero f g = refl
sum_range-add (suc n) f g = omega (arith, sum_range-add n f g)

pub sum_range_ext : (n : ℕ) (f g : ℕ → ℕ) → ((i : ℕ) → f i ≡ g i) → sum_range n f ≡ sum_range n g
sum_range_ext zero f g h = refl
sum_range_ext (suc n) f g h = omega (arith, sum_range_ext n f g h, h n)

-- The counts of the first splits are the count of their range.
pub sum_range-count_range :
    (n per_split : ℕ) (p : ℕ → Bool)
    → sum_range n (λ s. count_range per_split (s * per_split) p) ≡ count_range (n * per_split) 0 p
unfolding count_range
sum_range-count_range zero per_split p = let e : zero * per_split ≡ zero = omega arith in rw e refl
sum_range-count_range (suc n) per_split p =
    let e : suc n * per_split ≡ n * per_split + per_split = omega arith in
    let f : 0 + n * per_split ≡ n * per_split = omega arith in
    rw e (
      omega (
        arith,
        sum_range-count_range n per_split p,
        rw f at (count_range-plus (n * per_split) per_split 0 p),
      ))
