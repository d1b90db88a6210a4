-- ===== src/Cache.antt =====
-- The cache of reference-counted values of src/core/common/pho_cache.c and pho_ref.c. A value is
-- named by its address, and `key_of` reads the key that its `struct key_value` has. A failed
-- assertion is none. Each of the functions that holds the lock from start to end is one step.
use phobos.Base.{
  ℕ, ◌+◌, ◌-◌, Option, none, some, List, [], ◌∷◌, ◌++◌, Bool, true, false, ◌==◌, if◌then◌else◌,
}
mod Counts
mod Examples

pub record Ref : Type 0 where
  pub value : ℕ
  pub count : ℕ

-- The tables by key and by old value, and the values destroyed so far.
pub record Cache : Type 0 where
  pub cache : ℕ → Option Ref
  pub old_values : ℕ → Option Ref
  pub destroyed : List ℕ

unfoldable pho_cache_init : Cache
pho_cache_init = record { cache = λ k. none; old_values = λ v. none; destroyed = [] }

abbrev pub put : (ℕ → Option Ref) → ℕ → Option Ref → ℕ → Option Ref
put table k r j = if j == k then r else table j

unfoldable pub ref_acquire : Ref → Ref
ref_acquire r = record r { count = r.count + 1 }

unfoldable pub ref_release : Ref → Ref
ref_release r = record r { count = r.count - 1 }

module _ (key_of : ℕ → ℕ) where
  unfoldable pub old_cached_ref_remove : Cache → Ref → Option Cache
  old_cached_ref_remove c r = elim (c.old_values r.value) [
    | none ↦ none
    | some o ↦
        if r.count == 0
        then some (record c {
          old_values = put c.old_values r.value none;
          destroyed = c.destroyed ++ r.value ∷ [];
        })
        else none
  ]

  unfoldable pub cached_ref_remove : Cache → Ref → Option Cache
  cached_ref_remove c r = elim (c.cache (key_of r.value)) [
    | none ↦ none
    | some o ↦
        if r.count == 0
        then some (record c {
          cache = put c.cache (key_of r.value) none;
          destroyed = c.destroyed ++ r.value ∷ [];
        })
        else none
  ]

  -- The reference, if the key has one.
  unfoldable pub acquire_nolocked : Cache → ℕ → Option (ℕ × Cache)
  acquire_nolocked c k = elim (c.cache k) [
    | none ↦ none
    | some r ↦ some (r.value, record c { cache = put c.cache k (some (ref_acquire r)) })
  ]

  -- `built` is what `pco_build` gives; the result has no value if that fails.
  unfoldable pub pho_cache_acquire : Cache → ℕ → Option ℕ → Option ℕ × Cache
  pho_cache_acquire c k built = elim (acquire_nolocked c k) [
    | some (v, c') ↦ (some v, c')
    | none ↦ elim built [
      | none ↦ (none, c)
      | some v ↦ (
        some v,
        record c { cache = put c.cache (key_of v) (some (record { value = v; count = 1 })) },
      )
    ]
  ]

  unfoldable pub insert_old : Cache → Ref → Option Cache
  insert_old c r = if r.count == 0 then cached_ref_remove c r else elim (c.cache (key_of r.value)) [
    | none ↦ none
    | some o ↦ some (record c {
      old_values = put c.old_values r.value (some r);
      cache = put c.cache (key_of r.value) none;
    })
  ]

  unfoldable pub add_ref : ℕ → Cache → Cache
  add_ref v c = record c { cache = put c.cache (key_of v) (some (record { value = v; count = 1 })) }

  unfoldable pub insert_nolock : Cache → ℕ → Option Cache
  insert_nolock c v = elim (c.cache (key_of v)) [
    | none ↦ some (add_ref v c)
    | some r ↦ elim (insert_old c r) [
      | none ↦ none
      | some c' ↦ elim (c'.cache (key_of v)) [ none ↦ some (add_ref v c') | some o ↦ none ]
    ]
  ]

  -- The key and the value come as a `struct key_value`, or none if that cannot be made. The result
  -- is the value, or none, and the cache.
  unfoldable pub pho_cache_insert : Cache → Option ℕ → Option (Option ℕ × Cache)
  pho_cache_insert c none = some (none, c)
  pho_cache_insert c (some v) = elim (insert_nolock c v) [
    | none ↦ none
    | some c' ↦ some (some v, c')
  ]

  -- The value is built again from its key.
  unfoldable pho_cache_update : Cache → Option ℕ → Option (Option ℕ × Cache)
  pho_cache_update c none = some (none, c)
  pho_cache_update c (some v) = elim (insert_nolock c v) [
    | none ↦ none
    | some c' ↦ some (some v, c')
  ]

  unfoldable pub release_old : Cache → ℕ → Option Cache
  release_old c v = elim (c.old_values v) [
    | none ↦ none
    | some o ↦
        let c' = record c { old_values = put c.old_values v (some (ref_release o)) } in
        if o.count == 0
        then none
        else if (ref_release o).count == 0
        then old_cached_ref_remove c' (ref_release o)
        else some c'
  ]

  unfoldable pub release_current : Cache → Ref → ℕ → Option Cache
  release_current c r v =
      let c' = record c { cache = put c.cache (key_of v) (some (ref_release r)) } in
      if (ref_release r).count == 0 then cached_ref_remove c' (ref_release r) else some c'

  unfoldable pub pho_cache_release : Cache → ℕ → Option Cache
  pho_cache_release c v = elim (c.cache (key_of v)) [
    | none ↦ release_old c v
    | some r ↦ if r.value == v then release_current c r v else release_old c v
  ]
