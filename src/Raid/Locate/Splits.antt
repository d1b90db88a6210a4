-- ===== src/Raid/Locate/Splits.antt =====
-- The loops of raid_common_locate.c over the splits of an extent array: split `i` is the range of
-- `per_split` slots from `i * per_split` on.
use native.Mathlib.Decide.{ℕ_discrete}
use phobos.Base.{
  ℕ, zero, suc, ◌+◌, ◌*◌, ◌≤◌, ◌<◌, ◌≡◌, Bool, true, false, arith, ltb, if◌then◌else◌,
}

-- for (j = 0; j < n; j++) if (p(k + j)) count++;
unfoldable pub count_range : ℕ → ℕ → (ℕ → Bool) → ℕ
count_range zero k p = 0
count_range (suc n) k p = let rest = count_range n (k + 1) p in if p k then rest + 1 else rest

-- Whether one of the `n` splits from `i` on has fewer than `least` slots that pass the test.
unfoldable pub short_split : ℕ → ℕ → (ℕ → Bool) → ℕ → ℕ → Bool
short_split least per_split p zero i = false
short_split least per_split p (suc n) i =
    let rest = short_split least per_split p n (i + 1) in
    if ltb (count_range per_split (i * per_split) p) least then true else rest

-- Each of the first `n` splits has at least `least` slots that pass the test.
abbrev pub EachSplit : ℕ → ℕ → (ℕ → Bool) → ℕ → Type 0
EachSplit least per_split p n = (i : ℕ) → i < n → least ≤ count_range per_split (i * per_split) p

full_from :
    (least per_split : ℕ) (p : ℕ → Bool) (n i k : ℕ)
    → short_split least per_split p n i ≡ false
    → i ≤ k
    → k < i + n
    → least ≤ count_range per_split (k * per_split) p
unfolding short_split
full_from least per_split p zero i k h lo hi = absurd (omega arith)
full_from least per_split p (suc n) i k h lo hi = elim (ℕ_discrete i k) [
  | yes same ↦ rw (← same) (ground arith)
  | no other ↦ full_from least per_split p n (i + 1) k (ground arith) (omega arith) (omega arith)
]

pub short_split-false :
    (least per_split : ℕ) (p : ℕ → Bool) (n : ℕ)
    → short_split least per_split p n 0 ≡ false
    → EachSplit least per_split p n
short_split-false least per_split p n h k lt =
    full_from least per_split p n 0 k h (omega arith) (omega arith)

pub count_range_mono :
    (n k : ℕ) (p q : ℕ → Bool)
    → ((j : ℕ) → p j ≡ true → q j ≡ true)
    → count_range n k p ≤ count_range n k q
unfolding count_range
count_range_mono zero k p q h = omega arith
count_range_mono (suc n) k p q h = ground (arith, count_range_mono n (k + 1) p q h, h k)
