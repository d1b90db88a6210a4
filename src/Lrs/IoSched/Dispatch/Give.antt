-- ===== src/Lrs/IoSched/Dispatch/Give.antt =====
-- The devices that src/lrs/io_schedulers/device_dispatch_algorithms.c gives to the schedulers.
use phobos.Base.{
  ℕ, zero, suc, ◌+◌, ◌-◌, ◌≡◌, ◌≤◌, refl, ap, ◌∙◌, Bool, true, false, List, [], ◌∷◌, ◌++◌, arith,
  leb, ltb, length, All, Bool-cases, inl, inr, length-append,
}
use phobos.Base.Results.{ok}
use phobos.StringArray.CString.{Bytes}
use phobos.Lrs.IoSched.{
  IoType, read, write, format, ByType, at, put, same_type, total, total-put, times, times-snoc,
}
use phobos.Lrs.IoSched.Devices.{
  Fixed, Owners, bit, popcount, set_types, gptr_array_contains, fifo_add_device,
}
use phobos.Lrs.IoSched.Devices.Owned.{contains-times}
use phobos.Lrs.IoSched.Devices.Bits.{at-put_if, same_type-eq}
use phobos.Lrs.IoSched.Dispatch.{
  Moving, io_sched_count_device_per_techno, give_one, give_loop, give_devices,
}
use phobos.Lrs.IoSched.Dispatch.Take.{Held, count, Fitting, popcount-at, same_type_self}

popcount-grow : (b : ByType Bool) (k : IoType) → popcount (put b k true) ≤ popcount b + 1
popcount-grow b read = ground arith
popcount-grow b write = ground arith
popcount-grow b format = ground arith

module _ (fixed : Fixed) (techno : Bytes) where
  count-snoc :
      (es : List ℕ) (d : ℕ)
      → Fitting fixed techno d
      → count fixed techno (es ++ d ∷ []) ≡ count fixed techno es + 1
  unfolding io_sched_count_device_per_techno
  count-snoc [] d h = ground (arith, h)
  count-snoc (e ∷ es) d h = ground (arith, count-snoc es d h)

  -- What `n` devices given leave.
  pub record Given (k : IoType) (n : ℕ) (m g : Moving) : Type 0 where
    pub held : Held g
    pub kept :
        (x : ℕ)
        → total (times x) g.owners.devices + times x g.to_give
          ≡ total (times x) m.owners.devices + times x m.to_give
    pub others :
        (j : IoType) → same_type k j ≡ false → at g.owners.devices j ≡ at m.owners.devices j
    pub counted :
        count fixed techno (at g.owners.devices k) ≡ count fixed techno (at m.owners.devices k) + n
    pub given : length g.to_give + n ≡ length m.to_give
    pub fitting : All (Fitting fixed techno) g.to_give

  abbrev with_list : Owners → List ℕ → Moving
  with_list s ds = record { owners = s; to_give = ds }

  give_one-bit :
      (k j : IoType) (x d : ℕ) (s : Owners)
      → ((i : IoType) → times x (at s.devices i) ≡ bit (at (s.ld_io_request_type x) i))
      → times d (at s.devices k) ≡ 0
      → times x (at (put s.devices k (at s.devices k ++ d ∷ [])) j)
        ≡ bit (at (set_types d (put (s.ld_io_request_type d) k true) s.ld_io_request_type x) j)
  give_one-bit k j x d s v fresh =
      rw (at-put_if s.devices k j (at s.devices k ++ d ∷ [])) (elim (Bool-cases (same_type k j)) [
        | inl i ↦ rw i (
            ground (
              arith,
              v k,
              fresh,
              times-snoc x d (at s.devices k),
              at-put_if (s.ld_io_request_type d) k j true,
              ap (λ t. at (s.ld_io_request_type x) t) (same_type-eq k j i),
            ))
        | inr i ↦ rw i (ground (arith, v j, at-put_if (s.ld_io_request_type d) k j true))
      ])

  fresh-append : (es : List ℕ) (d : ℕ) → times d es ≡ 0 → fifo_add_device es d ≡ es ++ d ∷ []
  unfolding fifo_add_device
  fresh-append es d h =
      let absent : gptr_array_contains es d ≡ false = ground (arith, contains-times es d) in
      rw (absent, fifo_add_device) refl

  give_one-Given :
      (k : IoType) (d : ℕ) (ds : List ℕ) (s : Owners)
      → Held (with_list s (d ∷ ds))
      → All (Fitting fixed techno) (d ∷ ds)
      → Given k 1 (with_list s (d ∷ ds)) (with_list (give_one k d s) ds)
        × (length (at (give_one k d s).devices k) ≡ length (at s.devices k) + 1)
  give_one-Given k d ds s v fit =
      let fresh : times d (at s.devices k) ≡ 0 =
        ground (arith, v d, (v d).0 k, popcount-at (s.ld_io_request_type d) k) in
      rw (fresh-append (at s.devices k) d fresh) (
        record {
          held = λ x. (
            λ j. give_one-bit k j x d s (v x).0 fresh,
            ground (arith, (v x).1, popcount-grow (s.ld_io_request_type d) k),
          );
          kept = λ x. ground (
            arith,
            total-put (times x) s.devices k (at s.devices k ++ d ∷ []),
            times-snoc x d (at s.devices k),
          );
          others = λ j h. rw (at-put_if s.devices k j (at s.devices k ++ d ∷ []), h) refl;
          counted =
              rw (at-put_if s.devices k k (at s.devices k ++ d ∷ []), same_type_self k)
                (count-snoc (at s.devices k) d fit.0);
          given = omega arith;
          fitting = fit.1;
        },
        rw (at-put_if s.devices k k (at s.devices k ++ d ∷ []), same_type_self k)
            (omega (arith, length-append (at s.devices k) (d ∷ []))),
      )

  no_more :
      (k : IoType) (m : Moving) → Held m → All (Fitting fixed techno) m.to_give → Given k 0 m m
  no_more k m v fit = record {
    held = v;
    kept = λ x. refl;
    others = λ j h. refl;
    counted = omega arith;
    given = omega arith;
    fitting = fit;
  }

  Given-trans :
      (k : IoType) (n : ℕ) (m g f : Moving) → Given k 1 m g → Given k n g f → Given k (suc n) m f
  Given-trans k n m g f a b = record {
    held = b.held;
    kept = λ x. omega (arith, a.kept x, b.kept x);
    others = λ j h. b.others j h ∙ a.others j h;
    counted = omega (arith, a.counted, b.counted);
    given = omega (arith, a.given, b.given);
    fitting = b.fitting;
  }

  give_loop-Given :
      (k : IoType) (n : ℕ) (ds : List ℕ) (s : Owners)
      → Held (with_list s ds)
      → All (Fitting fixed techno) ds
      → n ≤ length ds
      → (g : Moving) × (give_loop fixed techno k (length (at s.devices k) + n) ds s ≡ ok g)
        × Given k n (with_list s ds) g
  unfolding give_loop
  give_loop-Given k zero [] s v fit h =
      let full : ltb (length (at s.devices k)) (length (at s.devices k) + 0) ≡ false =
        ground arith in
      rw (full, give_loop) (with_list s [], refl, no_more k _ v fit)
  give_loop-Given k zero (d ∷ ds) s v fit h =
      let full : ltb (length (at s.devices k)) (length (at s.devices k) + 0) ≡ false =
        ground arith in
      rw (full, give_loop) (with_list s (d ∷ ds), refl, no_more k _ v fit)
  give_loop-Given k (suc n) [] s v fit h = absurd (omega arith)
  give_loop-Given k (suc n) (d ∷ ds) s v fit h =
      let room : ltb (length (at s.devices k)) (length (at s.devices k) + suc n) ≡ true =
        ground arith in
      let (one, size) = give_one-Given k d ds s v fit in
      let (g, call, more) = give_loop-Given k n ds (give_one k d s) one.held fit.1 (omega arith) in
      let e : length (at (give_one k d s).devices k) + n ≡ length (at s.devices k) + suc n =
        omega (arith, size) in
      rw (room, give_loop) (g, rw e at call, Given-trans k n _ _ g one more)

  -- A scheduler with fewer than `nb` devices of the technology gets the missing ones, when the list
  -- has as many.
  pub give_devices-Given :
      (k : IoType) (nb : ℕ) (m : Moving)
      → Held m
      → All (Fitting fixed techno) m.to_give
      → nb - count fixed techno (at m.owners.devices k) ≤ length m.to_give
      → (g : Moving) × (give_devices fixed techno k nb m ≡ ok g)
        × Given k (nb - count fixed techno (at m.owners.devices k)) m g
  unfolding give_devices
  give_devices-Given k nb m v fit h =
      elim (Bool-cases (leb nb (count fixed techno (at m.owners.devices k)))) [
        | inl enough ↦
            let z : nb - count fixed techno (at m.owners.devices k) ≡ 0 = ground arith in
            rw (enough, give_devices, z) (m, refl, no_more k m v fit)
        | inr few ↦
            let listed : ltb (length m.to_give) (nb - count fixed techno (at m.owners.devices k))
                ≡ false =
              ground arith in
            rw (few, give_devices, listed) (give_loop-Given k _ m.to_give m.owners v fit h)
      ]
