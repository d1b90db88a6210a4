-- ===== src/Cache/Counts.antt =====
-- The references that the users of the cache of pho_cache.c hold, also to replaced values.
use phobos.Base.{
  ℕ, ◌+◌, ◌-◌, ◌<◌, ◌≡◌, ◌≢◌, refl, ap, ◌∙◌, inl, inr, Option, none, some, [], ◌∷◌, ◌++◌, false,
  ◌==◌, if◌then◌else◌, arith, Option-cases, Bool-cases,
}
use phobos.Cache.{
  Ref, Cache, put, ref_acquire, ref_release, old_cached_ref_remove, cached_ref_remove,
  acquire_nolocked, pho_cache_acquire, insert_old, add_ref, insert_nolock, pho_cache_insert,
  release_old, release_current, pho_cache_release,
}

module _ (key_of : ℕ → ℕ) where
  abbrev in_cache : Option Ref → ℕ → ℕ
  in_cache none v = 0
  in_cache (some r) v = if r.value == v then r.count else 0

  abbrev in_old : Option Ref → ℕ
  in_old none = 0
  in_old (some o) = o.count

  -- The references held to a value.
  abbrev pub count : Cache → ℕ → ℕ
  count c v = in_cache (c.cache (key_of v)) v + in_old (c.old_values v)

  -- Every entry is under its key, and has references; an old value is not the current one.
  pub record IsValid (c : Cache) : Type 0 where
    pub keyed : (k : ℕ) (r : Ref) → c.cache k ≡ some r → (key_of r.value ≡ k) × (0 < r.count)
    pub old : (v : ℕ) (o : Ref) → c.old_values v ≡ some o → (o.value ≡ v) × (0 < o.count)
    pub apart :
        (v : ℕ) (r o : Ref) → c.cache (key_of v) ≡ some r → c.old_values v ≡ some o → r.value ≢ v

  -- The value has lost a reference, the others none; it is destroyed with its last one.
  pub record Released (c c' : Cache) (v : ℕ) : Type 0 where
    pub valid : IsValid c'
    pub counts : (w : ℕ) → count c' w ≡ (if w == v then count c v - 1 else count c w)
    pub destroyed : c'.destroyed ≡ (if count c v == 1 then c.destroyed ++ v ∷ [] else c.destroyed)

  release_old-Released :
      (c : Cache) (v : ℕ) (o : Ref)
      → IsValid c
      → c.old_values v ≡ some o
      → in_cache (c.cache (key_of v)) v ≡ 0
      → (c' : Cache) × (release_old key_of c v ≡ some c') × Released c c' v
  unfolding release_old old_cached_ref_remove ref_release
  release_old-Released c v o i e n = elim (Bool-cases (o.count - 1 == 0)) [
    | inl gone ↦
        let same : o.value ≡ v = (i.old v o e).0 in
        (
          record c {
            old_values = put (put c.old_values v (some (ref_release o))) v none;
            destroyed = c.destroyed ++ v ∷ [];
          },
          ground (arith, i.old v o e),
          record {
            valid = record {
              keyed = i.keyed;
              old = λ w p q. ground (arith, i.old w p);
              apart = λ w r p q s. ground (arith, i.apart w r p, q);
            };
            counts = λ w. ground (arith, e);
            destroyed = ground (arith, n, e, i.old v o e);
          },
        )
    | inr kept ↦ (
      record c { old_values = put c.old_values v (some (ref_release o)) },
      ground (arith, i.old v o e),
      record {
        valid = record {
          keyed = i.keyed;
          old = λ w p q. ground (arith, i.old w p, i.old v o e);
          apart = λ w r p q s. ground (arith, i.apart w r p, i.apart v r o, q, e);
        };
        counts = λ w. ground (arith, e);
        destroyed = ground (arith, n, e);
      },
    )
  ]

  release_current-Released :
      (c : Cache) (r : Ref) (v : ℕ)
      → IsValid c
      → c.cache (key_of v) ≡ some r
      → r.value ≡ v
      → (c' : Cache) × (release_current key_of c r v ≡ some c') × Released c c' v
  unfolding release_current cached_ref_remove ref_release
  release_current-Released c r v i e same = elim (Option-cases (c.old_values v)) [
    | inr (o, f) ↦ absurd (i.apart v r o e f same)
    | inl f ↦ elim (Bool-cases (r.count - 1 == 0)) [
      | inl gone ↦ (
        record c {
          cache = put (put c.cache (key_of v) (some (ref_release r))) (key_of v) none;
          destroyed = c.destroyed ++ v ∷ [];
        },
        ground (arith, i.keyed (key_of v) r e),
        record {
          valid = record {
            keyed = λ k p q. ground (arith, i.keyed k p);
            old = i.old;
            apart = λ w p o q s. ground (arith, i.apart w p o);
          };
          counts = λ w. ground (arith, e, f, i.keyed (key_of v) r e);
          destroyed = ground (arith, e, f, i.keyed (key_of v) r e);
        },
      )
      | inr kept ↦ (
        record c { cache = put c.cache (key_of v) (some (ref_release r)) },
        ground (arith, i.keyed (key_of v) r e),
        record {
          valid = record {
            keyed = λ k p q. ground (arith, i.keyed k p, i.keyed (key_of v) r e);
            old = i.old;
            apart = λ w p o q s. ground (arith, i.apart w p o, i.apart w r o);
          };
          counts = λ w. ground (arith, e, f, i.keyed (key_of v) r e);
          destroyed = ground (arith, e, f, i.keyed (key_of v) r e);
        },
      )
    ]
  ]

  -- A release of a value that someone holds a reference to passes all assertions and keeps the
  -- cache valid; it takes one reference from this value only, and the value is destroyed if that was
  -- the last one.
  pub pho_cache_release-Released :
      (c : Cache) (v : ℕ)
      → IsValid c
      → 0 < count c v
      → (c' : Cache) × (pho_cache_release key_of c v ≡ some c') × Released c c' v
  unfolding pho_cache_release
  pho_cache_release-Released c v i h = elim (Option-cases (c.cache (key_of v))) [
    | inl e ↦ elim (Option-cases (c.old_values v)) [
      | inl f ↦ absurd (ground (arith, e, f))
      | inr (o, f) ↦ rw (e, pho_cache_release) (release_old-Released c v o i f (ground (arith, e)))
    ]
    | inr (r, e) ↦ elim (Bool-cases (r.value == v)) [
      | inl same ↦
          rw (e, same, pho_cache_release) (release_current-Released c r v i e (ground arith))
      | inr other ↦ elim (Option-cases (c.old_values v)) [
        | inl f ↦ absurd (ground (arith, e, f))
        | inr (o, f) ↦
            rw (e, other, pho_cache_release) (release_old-Released c v o i f (ground (arith, e)))
      ]
    ]
  ]

  -- The value has gained a reference, the others none, and nothing is destroyed.
  pub record Gained (c c' : Cache) (v : ℕ) : Type 0 where
    pub valid : IsValid c'
    pub counts : (w : ℕ) → count c' w ≡ (if w == v then count c v + 1 else count c w)
    pub destroyed : c'.destroyed ≡ c.destroyed

  -- What an acquire must give: the value that the key has, or else the one that is built. No value
  -- is given only if there is neither, and then nothing changes. The given value is from then on
  -- that of the key.
  abbrev pub Acquired : Cache → ℕ → Option ℕ → Option ℕ × Cache → Type 0
  Acquired c k built (none, c') = (c.cache k ≡ none) × (built ≡ none) × (c' ≡ c)
  Acquired c k built (some v, c') =
      ((r : Ref) → c.cache k ≡ some r → r.value ≡ v)
      × (c.cache k ≡ none → built ≡ some v)
      × (key_of v ≡ k)
      × ((r : Ref) × (c'.cache k ≡ some r) × (r.value ≡ v))
      × Gained c c' v

  not_old : (c : Cache) (v : ℕ) → IsValid c → count c v ≡ 0 → c.old_values v ≡ none
  not_old c v i h = elim (Option-cases (c.old_values v)) [
    | inl e ↦ e
    | inr (o, e) ↦ absurd (ground (arith, i.old v o e, e))
  ]

  add_ref-Gained :
      (c : Cache) (v : ℕ)
      → IsValid c
      → count c v ≡ 0
      → c.cache (key_of v) ≡ none
      → Gained c (add_ref key_of v c) v
  unfolding add_ref
  add_ref-Gained c v i h e =
      let f = not_old c v i h in
      record {
        valid = record {
          keyed = λ k p q. ground (arith, i.keyed k p);
          old = i.old;
          apart = λ w p o q s. ground (arith, i.apart w p o, f);
        };
        counts = λ w. ground (arith, e, f);
        destroyed = refl;
      }

  -- An acquire gives the value that is cached under the key, or else the value that is built, with
  -- one more reference; the references of other values stay, nothing is destroyed, and the value is
  -- afterwards the one under the key. It gives no value only if none is cached and none can be
  -- built, and then changes nothing. A value that is built is new and has the key.
  pub pho_cache_acquire-Acquired :
      (c : Cache) (k : ℕ) (built : Option ℕ)
      → IsValid c
      → ((v : ℕ) → built ≡ some v → (key_of v ≡ k) × (count c v ≡ 0))
      → Acquired c k built (pho_cache_acquire key_of c k built)
  unfolding pho_cache_acquire acquire_nolocked ref_acquire add_ref
  pho_cache_acquire-Acquired c k built i new = elim (Option-cases (c.cache k)) [
    | inr (r, e) ↦
        rw (e, pho_cache_acquire)
          (
            (λ x p. ground (arith, e, p)),
            (λ n. absurd (ground (arith, e, n))),
            (i.keyed k r e).0,
            (ref_acquire r, ground arith, refl),
            record {
              valid = record {
                keyed = λ j p q. ground (arith, i.keyed j p, i.keyed k r e);
                old = i.old;
                apart = λ w p o q s. ground (arith, i.apart w p o, i.apart w r o);
              };
              counts = λ w. ground (arith, e, i.keyed k r e, i.apart w r);
              destroyed = refl;
            },
          )
    | inl e ↦ elim (Option-cases built) [
      | inl f ↦ rw (e, f, pho_cache_acquire) (e, refl, refl)
      | inr (v, f) ↦
          let (same, zero_count) = new v f in
          rw (e, f, pho_cache_acquire)
            (
              (λ x p. absurd (ground (arith, e, p))),
              (λ n. refl),
              same,
              (record { value = v; count = 1 }, ground (arith, same), refl),
              add_ref-Gained c v i zero_count (rw same e),
            )
    ]
  ]

  current_not_old :
      (c : Cache) (r : Ref)
      → IsValid c
      → c.cache (key_of r.value) ≡ some r
      → c.old_values r.value ≡ none
  current_not_old c r i e = elim (Option-cases (c.old_values r.value)) [
    | inl f ↦ f
    | inr (o, f) ↦ absurd (i.apart r.value r o e f refl)
  ]

  -- An insert of a new value passes all assertions, destroys nothing and leaves the references
  -- that are held to the value that it replaces; the new value has one reference.
  pub pho_cache_insert-Gained :
      (c : Cache) (v : ℕ)
      → IsValid c
      → count c v ≡ 0
      → (c' : Cache) × (pho_cache_insert key_of c (some v) ≡ some (some v, c')) × Gained c c' v
  unfolding pho_cache_insert insert_nolock insert_old
  pho_cache_insert-Gained c v i h = elim (Option-cases (c.cache (key_of v))) [
    | inl e ↦ (add_ref key_of v c, rw (e, pho_cache_insert) refl, add_ref-Gained c v i h e)
    | inr (r, e) ↦
        let c₁ : Cache = record c {
          old_values = put c.old_values r.value (some r);
          cache = put c.cache (key_of r.value) none;
        } in
        let (key, some_count) = i.keyed (key_of v) r e in
        let pos : (r.count == 0) ≡ false = ground arith in
        let at_key : c.cache (key_of r.value) ≡ some r = ap c.cache key ∙ e in
        let free = current_not_old c r i at_key in
        let gone : c₁.cache (key_of v) ≡ none = ground (arith, key) in
        let valid : IsValid c₁ = record {
          keyed = λ k p q. ground (arith, i.keyed k p);
          old = λ w o q. ground (arith, i.old w o, some_count);
          apart = λ w p o q s. ground (arith, i.apart w p o, i.keyed (key_of w) p);
        } in
        let counts : (w : ℕ) → count c₁ w ≡ count c w = λ w. ground (arith, free, key, e) in
        let g = add_ref-Gained c₁ v valid (counts v ∙ h) gone in
        (
          add_ref key_of v c₁,
          rw (e, pos, at_key, gone, pho_cache_insert) refl,
          record {
            valid = g.valid;
            counts = λ w. ground (arith, g.counts w, counts w, counts v);
            destroyed = g.destroyed;
          },
        )
  ]
