-- ===== src/Lrs/Sync/Totals.antt =====
-- Sums over the pending requests of lrs_device.c, and what a fast removal from their array keeps.
use phobos.Base.{
  ℕ, zero, suc, ◌+◌, ◌≡◌, refl, subst, inl, inr, List, [], ◌∷◌, ◌++◌, none, some, arith, get_elem?,
  set, All, Option-cases,
}
use phobos.Lrs.Sync.{last, drop_last, remove_index_fast}

module _ {ℓ} {A : Type ℓ} where
  abbrev pub total : (A → ℕ) → List A → ℕ
  total w [] = 0
  total w (x ∷ xs) = w x + total w xs

  pub total-append : (w : A → ℕ) (xs ys : List A) → total w (xs ++ ys) ≡ total w xs + total w ys
  total-append w [] ys = omega arith
  total-append w (x ∷ xs) ys = omega (arith, total-append w xs ys)

  total-set :
      (w : A → ℕ) (xs : List A) (i : ℕ) (x v : A)
      → get_elem? xs i ≡ some x
      → total w (set xs i v) + w x ≡ total w xs + w v
  total-set w [] i x v h = cc
  total-set w (y ∷ xs) zero x v h = ground arith
  total-set w (y ∷ xs) (suc i) x v h = ground (arith, total-set w xs i x v h)

  last-set : (xs : List A) (i : ℕ) (l : A) → last xs ≡ some l → last (set xs i l) ≡ some l
  unfolding last
  last-set [] i l h = h
  last-set (x ∷ []) zero l h = refl
  last-set (x ∷ []) (suc i) l h = h
  last-set (x ∷ y ∷ ys) zero l h = h
  last-set (x ∷ y ∷ ys) (suc zero) l h = last-set (y ∷ ys) zero l h
  last-set (x ∷ y ∷ ys) (suc (suc i)) l h = last-set (y ∷ ys) (suc i) l h

  total-drop_last :
      (w : A → ℕ) (xs : List A) (l : A)
      → last xs ≡ some l
      → total w (drop_last xs) + w l ≡ total w xs
  unfolding last drop_last
  total-drop_last w [] l h = cc
  total-drop_last w (x ∷ []) l h = ground arith
  total-drop_last w (x ∷ y ∷ ys) l h = omega (arith, total-drop_last w (y ∷ ys) l h)

  last-none : (xs : List A) → last xs ≡ none → xs ≡ []
  unfolding last
  last-none [] h = refl
  last-none (x ∷ []) h = cc
  last-none (x ∷ y ∷ ys) h = absurd (let q = last-none (y ∷ ys) h in ground (arith, q))

  pub total-remove_index_fast :
      (w : A → ℕ) (xs : List A) (i : ℕ) (x : A)
      → get_elem? xs i ≡ some x
      → total w (remove_index_fast xs i) + w x ≡ total w xs
  unfolding remove_index_fast
  total-remove_index_fast w xs i x h = elim (Option-cases (last xs)) [
    | inl e ↦ absurd (
        let q = last-none xs e in
        let z : get_elem? {A = A} [] i ≡ some x = rw q at h in ground (arith, z))
    | inr (l, e) ↦
        rw (e, remove_index_fast)
          (omega
            (arith, total-set w xs i x l h, total-drop_last w (set xs i l) l (last-set xs i l e)))
  ]

  module _ {κ} (P : A → Type κ) where
    All-last : (xs : List A) (l : A) → All P xs → last xs ≡ some l → P l
    unfolding last
    All-last [] l a h = absurd (ground arith)
    All-last (x ∷ []) l a h = let q : x ≡ l = ground arith in subst P q a.0
    All-last (x ∷ y ∷ ys) l a h = All-last (y ∷ ys) l a.1 h

    All-set : (xs : List A) (i : ℕ) (v : A) → All P xs → P v → All P (set xs i v)
    All-set [] i v a p = tt
    All-set (x ∷ xs) zero v a p = (p, a.1)
    All-set (x ∷ xs) (suc i) v a p = (a.0, All-set xs i v a.1 p)

    All-drop_last : (xs : List A) → All P xs → All P (drop_last xs)
    unfolding drop_last
    All-drop_last [] a = tt
    All-drop_last (x ∷ []) a = tt
    All-drop_last (x ∷ y ∷ ys) a = (a.0, All-drop_last (y ∷ ys) a.1)

    pub All-remove_index_fast : (xs : List A) (i : ℕ) → All P xs → All P (remove_index_fast xs i)
    unfolding remove_index_fast
    All-remove_index_fast xs i a = elim (Option-cases (last xs)) [
      | inl e ↦ rw (e, remove_index_fast) tt
      | inr (l, e) ↦
          rw (e, remove_index_fast)
            (All-drop_last (set xs i l) (All-set xs i l a (All-last xs l a e)))
    ]
