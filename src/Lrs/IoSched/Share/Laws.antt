-- ===== src/Lrs/IoSched/Share/Laws.antt =====
-- The laws of floating-point arithmetic that the numbers of devices of
-- src/lrs/io_schedulers/device_dispatch_algorithms.c rest on.
use phobos.Base.{
  ℕ, ◌≡◌, ◌≤◌, refl, true, false, ◌||◌, some, arith, if◌then◌else◌, inl, inr, Bool-cases,
  Option-cases,
}
use phobos.Lrs.IoSched.{IoType, read, write, format, ByType, at, same_type}
use phobos.Lrs.IoSched.Share.{Doubles, negative, double_max, least_favored}

-- The floating-point numbers other than NaN: their order; the difference of two quotients of 0; and
-- that a number up to 2^50 is below itself plus 1. `IsSmall` are the numbers up to 2^50: a quotient of
-- at most 1 less another quotient, 0, and those from which something is taken off.
pub record Laws (D : Doubles) : Type 1 where
  pub le_lt : (a b c : D.F) → D.lt a b ≡ false → D.lt a c ≡ true → D.lt b c ≡ true
  pub lt_asym : (a b : D.F) → D.lt a b ≡ true → D.lt b a ≡ false
  pub zero_share :
      (x y : D.F) → negative D (D.sub (D.div (D.of_size 0) x) (D.div (D.of_size 0) y)) ≡ false
  pub zero_zero : negative D (D.of_size 0) ≡ false
  pub IsSmall : D.F → Type 0
  pub zero-IsSmall : IsSmall (D.of_size 0)
  pub share-IsSmall :
      (nb total a b : ℕ)
      → nb ≤ total
      → IsSmall (D.sub (D.div (D.of_size nb) (D.of_size total)) (D.div (D.of_size a) (D.of_size b)))
  pub add-IsSmall :
      (x y : D.F) (n : ℕ)
      → IsSmall x
      → negative D y ≡ true
      → IsSmall (D.add x (D.div y (D.of_size n)))
  pub headroom :
      (x m : D.F)
      → IsSmall m
      → negative D m ≡ false
      → D.lt m x ≡ false
      → negative D (D.sub x (D.add m (D.of_size 1))) ≡ true

pub other_type {ℓ} :
    {A : Type ℓ} (k j : IoType) (x y : A)
    → (same_type k j ≡ true → x ≡ y)
    → (if same_type k j then x else y) ≡ y
other_type k j x y h = elim (Bool-cases (same_type k j)) [ inl e ↦ rw e (h e) | inr e ↦ rw e refl ]

module _ (D : Doubles) (laws : Laws D) where
  -- The choice is a scheduler with a negative difference.
  pub least_favored-negative :
      (d : ByType D.F) (k : IoType) → least_favored D d ≡ some k → negative D (at d k) ≡ true
  unfolding least_favored
  least_favored-negative d read e = ground (arith, laws.le_lt d.reads d.writes)
  least_favored-negative d write e = ground (arith, laws.le_lt d.reads d.writes)
  least_favored-negative d format e = ground (
    arith,
    laws.le_lt d.reads d.formats (D.of_size 0),
    laws.le_lt d.writes d.formats (D.of_size 0),
  )

  pub least_favored-some :
      (d : ByType D.F)
      → (negative D d.reads || negative D d.writes || negative D d.formats) ≡ true
      → (k : IoType) × (least_favored D d ≡ some k)
  unfolding least_favored
  least_favored-some d e = elim (Option-cases (least_favored D d)) [
    | inl n ↦ absurd (ground (arith, n, laws.le_lt d.reads d.writes (D.of_size 0)))
    | inr s ↦ s
  ]

  pub any_negative :
      (d : ByType D.F) (k : IoType)
      → negative D (at d k) ≡ true
      → (negative D d.reads || negative D d.writes || negative D d.formats) ≡ true
  any_negative d read e = ground arith
  any_negative d write e = ground arith
  any_negative d format e = ground arith

  pub above_self : (x : D.F) → D.lt x x ≡ false
  above_self x = elim (Bool-cases (D.lt x x)) [ inl e ↦ laws.lt_asym x x e | inr e ↦ e ]

  pub above_max : (x y z : D.F) → D.lt x z ≡ false → D.lt (double_max D x y) z ≡ false
  above_max x y z h = elim (Bool-cases (D.lt y x)) [
    | inl e ↦ rw e h
    | inr e ↦ rw e (elim (Bool-cases (D.lt y z)) [
      | inl i ↦ absurd (ground (arith, laws.le_lt y x z e i))
      | inr i ↦ i
    ])
  ]

  pub above_last : (x y : D.F) → D.lt (double_max D x y) y ≡ false
  above_last x y = elim (Bool-cases (D.lt y x)) [
    | inl e ↦ rw e (laws.lt_asym y x e)
    | inr e ↦ rw e (above_self y)
  ]

  pub above_first : (x y : D.F) → D.lt (double_max D x y) x ≡ false
  above_first x y = above_max x y x (above_self x)

  abbrev pub AllSmall : ByType D.F → Type 0
  AllSmall d = (k : IoType) → laws.IsSmall (at d k)
