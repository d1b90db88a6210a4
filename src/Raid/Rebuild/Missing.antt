-- ===== src/Raid/Rebuild/Missing.antt =====
-- The number of extents that a rebuild adds: the splits against the whole.
use native.Mathlib.Nat.{mod-add-div', mod-lt}
use phobos.Base.{
  ℕ, zero, suc, ◌+◌, ◌-◌, ◌*◌, ◌/◌, ◌≤◌, ◌<◌, ◌≡◌, refl, sym, ap, ◌∙◌, inl, inr, Bool, true, false,
  ◌&&◌, ◌||◌, List, [], ◌∷◌, arith, ltb, leb, ◌==◌, Bool-cases, All, length,
}
use phobos.Base.Ints.{ℤ, pos, negsuc}
use phobos.Base.Words.{sub64_of_le, u64_mod}
use phobos.Raid.Locate.Splits.{count_range}
use phobos.Raid.Rebuild.Counts.{
  count_range_le, count_range_ext, count_range-or, sum_range, sum_range-add, sum_range_ext,
  sum_range-count_range,
}
use phobos.Raid.Rebuild.Validate.{InBounds}
use phobos.Raid.Rebuild.{
  LayoutExtent, Processor, is_empty, has_extent, extent_from_layout_idx, max_layout_idx,
  split_src_layout_n_extent, count_found, n_total_extents, max_idx, raid_get_nb_split,
  raid_get_nb_extent_to_rebuild, current_split_rebuild_n_extent,
}

-- The extents have increasing indexes.
abbrev pub InOrder : List LayoutExtent → Type 0
InOrder [] = Unit {0}
InOrder (e ∷ es) = All (λ f. e.layout_idx < f.layout_idx) es × InOrder es

InOrder-last :
    (e : LayoutExtent) (es : List LayoutExtent)
    → InOrder (e ∷ es)
    → e.layout_idx ≤ max_layout_idx (e ∷ es)
unfolding max_layout_idx
InOrder-last e [] h = omega arith
InOrder-last e (f ∷ es) ((lt, rest), o) = omega (arith, InOrder-last f es o, lt)

has_extent-later :
    (i : ℕ) (es : List LayoutExtent) → All (λ f. i < f.layout_idx) es → has_extent es i ≡ false
unfolding extent_from_layout_idx
has_extent-later i [] a = refl
has_extent-later i (f ∷ es) (lt, a) = ground (arith, has_extent-later i es a)

has_extent-cons :
    (e : LayoutExtent) (es : List LayoutExtent) (j : ℕ)
    → has_extent (e ∷ es) j ≡ (e.layout_idx == j) || has_extent es j
unfolding extent_from_layout_idx
has_extent-cons e es j = ground arith

InOrder-bounded :
    (n : ℕ) (es : List LayoutExtent)
    → InOrder es
    → max_layout_idx es < n
    → All (λ f. f.layout_idx < n) es
unfolding max_layout_idx
InOrder-bounded n [] o lt = tt
InOrder-bounded n (e ∷ []) o lt = (lt, tt)
InOrder-bounded n (e ∷ f ∷ es) o lt =
    (omega (arith, InOrder-last e (f ∷ es) o), InOrder-bounded n (f ∷ es) o.1 lt)

pub count_range-none : (n k : ℕ) → count_range n k (λ j. false) ≡ 0
unfolding count_range
count_range-none zero k = refl
count_range-none (suc n) k = ground (arith, count_range-none n (k + 1))

-- A layout has as many extents as indexes that are taken.
count-has_extent :
    (n : ℕ) (es : List LayoutExtent)
    → InOrder es
    → All (λ f. f.layout_idx < n) es
    → count_range n 0 (has_extent es) ≡ length es
unfolding extent_from_layout_idx
count-has_extent n [] o a = count_range-none n 0
count-has_extent n (e ∷ es) o a =
    let s =
      count_range_ext n 0 (has_extent (e ∷ es)) (λ j. (e.layout_idx == j) || has_extent es j)
        (has_extent-cons e es) in
    let t =
      count_range-or n 0 e.layout_idx (has_extent es) (has_extent-later e.layout_idx es o.0) in
    let lt : e.layout_idx < n = a.0 in
    let u : (ltb e.layout_idx 0 || leb (0 + n) e.layout_idx) ≡ false = ground arith in
    let v = rw u at t in s ∙ v ∙ omega (arith, count-has_extent n es o.1 a.1)

sum_range-const : (n c : ℕ) → sum_range n (λ i. c) ≡ n * c
sum_range-const zero c = omega arith
sum_range-const (suc n) c =
    let e : suc n * c ≡ n * c + c = omega arith in omega (arith, e, sum_range-const n c)

abbrev one_if : Bool → ℕ
one_if true = 1
one_if false = 0

-- An index is in one of the first splits if it is below their end.
one_split :
    (n per_split i : ℕ)
    → 0 < per_split
    → sum_range n (λ s. one_if (leb (s * per_split) i && ltb i ((s + 1) * per_split)))
      ≡ one_if (ltb i (n * per_split))
one_split zero per_split i h = let e : zero * per_split ≡ zero = omega arith in rw e (ground arith)
one_split (suc n) per_split i h =
    let e : suc n * per_split ≡ n * per_split + per_split = omega arith in
    let f : (n + 1) * per_split ≡ n * per_split + per_split = omega arith in
    rw (e, f) (ground (arith, one_split n per_split i h))

-- Each entry of a list of such indexes is found in one split.
sum-count_found :
    (n per_split max : ℕ) (is : List ℤ)
    → 0 < per_split
    → max < n * per_split
    → All (InBounds max) is
    → sum_range n (λ s. count_found is (s * per_split) ((s + 1) * per_split)) ≡ length is
unfolding count_found
sum-count_found n per_split max [] h lt a = sum_range-const n 0 ∙ omega arith
sum-count_found n per_split max (negsuc i ∷ is) h lt a = absurd (ground (arith, a.0))
sum-count_found n per_split max (pos i ∷ is) h lt a =
    let within : one_if (ltb i (n * per_split)) ≡ 1 = ground (arith, a.0) in
    sum_range_ext n (λ s. count_found (pos i ∷ is) (s * per_split) ((s + 1) * per_split))
      (λ s.
        one_if (leb (s * per_split) i && ltb i ((s + 1) * per_split))
        + count_found is (s * per_split) ((s + 1) * per_split))
      (λ s. ground arith)
    ∙ sum_range-add n (λ s. one_if (leb (s * per_split) i && ltb i ((s + 1) * per_split)))
        (λ s. count_found is (s * per_split) ((s + 1) * per_split))
    ∙ omega (arith, one_split n per_split i h, within, sum-count_found n per_split max is h lt a.1)

module _ (p : Processor) where
  open p use {extents, n_data_extents, n_parity_extents, extents_idx}

  abbrev per_split : ℕ
  per_split = n_total_extents p

  -- The extents are in order, and the list has indexes of the layout.
  abbrev pub IsValid : Type 0
  IsValid = InOrder extents × All (InBounds (max_idx p)) extents_idx

  nb_split-lt : 0 < per_split → max_idx p < raid_get_nb_split p * per_split
  unfolding raid_get_nb_split
  nb_split-lt h =
      let e : (max_idx p / per_split + 1) * per_split
          ≡ max_idx p / per_split * per_split + per_split =
        omega arith in
      omega (arith, e, mod-add-div' (max_idx p) per_split, mod-lt (max_idx p) h)

  abbrev pub missing_at : ℕ → ℕ
  missing_at split = per_split - count_range per_split (split * per_split) (has_extent extents)

  pub current_split-missing :
      (split : ℕ)
      → per_split < u64_mod
      → is_empty extents_idx ≡ true
      → current_split_rebuild_n_extent p split ≡ missing_at split
  unfolding current_split_rebuild_n_extent split_src_layout_n_extent
  current_split-missing split small all =
      let le = count_range_le per_split (split * per_split) (has_extent extents) in
      ground (
        arith,
        le,
        sub64_of_le per_split (count_range per_split (split * per_split) (has_extent extents)) le
            small,
      )

  pub current_split-listed :
      (split : ℕ)
      → is_empty extents_idx ≡ false
      → current_split_rebuild_n_extent p split
        ≡ count_found extents_idx (split * per_split) ((split + 1) * per_split)
  unfolding current_split_rebuild_n_extent
  current_split-listed split asked = rw (asked, current_split_rebuild_n_extent) refl

  sum-missing :
      (n : ℕ)
      → sum_range n missing_at
          + sum_range n (λ s. count_range per_split (s * per_split) (has_extent extents))
        ≡ n * per_split
  sum-missing n =
      sym (
        sum_range-add n missing_at
          (λ s. count_range per_split (s * per_split) (has_extent extents)))
      ∙ sum_range_ext n
          (λ s. missing_at s + count_range per_split (s * per_split) (has_extent extents))
          (λ s. per_split)
          (λ s. omega (arith, count_range_le per_split (s * per_split) (has_extent extents)))
      ∙ sum_range-const n per_split

  -- The number of extents to rebuild of a layout in order is the sum of those of its splits, with
  -- a list of them that is in bounds or without one. A split has some extents, and their number is
  -- a `size_t`.
  pub raid_get_nb_extent_to_rebuild-sum :
      IsValid
      → 0 < per_split
      → per_split < u64_mod
      → raid_get_nb_extent_to_rebuild p
        ≡ pos (sum_range (raid_get_nb_split p) (current_split_rebuild_n_extent p))
  unfolding raid_get_nb_extent_to_rebuild
  raid_get_nb_extent_to_rebuild-sum (ordered, inside) h small =
      elim (Bool-cases (is_empty extents_idx)) [
        | inr asked ↦
            rw (asked, raid_get_nb_extent_to_rebuild)
              (ap pos (
                sym (
                  sum_range_ext (raid_get_nb_split p) (current_split_rebuild_n_extent p)
                    (λ s. count_found extents_idx (s * per_split) ((s + 1) * per_split))
                    (λ s. current_split-listed s asked)
                  ∙ sum-count_found (raid_get_nb_split p) per_split (max_idx p) extents_idx h
                      (nb_split-lt h) inside)))
        | inl all ↦
            let n = raid_get_nb_split p in
            let total =
              sum_range-count_range n per_split (has_extent extents)
              ∙ count-has_extent (n * per_split) extents ordered
                  (InOrder-bounded (n * per_split) extents ordered (nb_split-lt h)) in
            let parts = sum-missing n in
            let same =
              sum_range_ext n (current_split_rebuild_n_extent p) missing_at
                (λ s. current_split-missing s small all) in
            rw (all, raid_get_nb_extent_to_rebuild, same) (ground (arith, total, parts))
      ]
