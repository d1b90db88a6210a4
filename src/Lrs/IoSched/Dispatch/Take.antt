-- ===== src/Lrs/IoSched/Dispatch/Take.antt =====
-- The devices that src/lrs/io_schedulers/device_dispatch_algorithms.c takes from the schedulers.
use phobos.Base.{
  All-append, ℕ, zero, suc, ◌+◌, ◌-◌, ◌≡◌, ◌≤◌, refl, ap, ◌∙◌, Bool, true, false, not, ◌&&◌, ◌||◌,
  List, [], ◌∷◌, none, some, arith, ◌==◌, leb, if◌then◌else◌, length, All, get_elem?, Bool-cases,
  Option-cases, inl, inr, length-append,
}
use phobos.Base.Results.{ok}
use phobos.StringArray.CString.{Bytes}
use phobos.Lrs.Sync.{remove_index_fast}
use phobos.Lrs.Sync.Totals
use phobos.Lrs.Sync.Totals.{total-remove_index_fast}
use phobos.Lrs.IoSched.{
  IoType, read, write, format, ByType, at, put, same_type, total, total-put, times, times-snoc,
}
use phobos.Lrs.IoSched.Devices.{
  Fixed, bit, popcount, set_types, is_device_shared_between_schedulers, gptr_array_contains,
  of_techno, find_techno, fifo_take_device, fifo_claim_device, io_sched_claim_device,
}
use phobos.Lrs.IoSched.Devices.Owned.{contains-times}
use phobos.Lrs.IoSched.Devices.Bits.{at-put_if, same_type-eq}
use phobos.Lrs.IoSched.Dispatch.{
  Moving, add_taken, io_sched_count_device_per_techno, take_loop, take_devices,
}

-- A device is in the list of the one scheduler whose bit it has, or has no bit and may be in the
-- list to give; it is once there at most.
abbrev pub Held : Moving → Type 0
Held m =
    (d : ℕ)
    → ((k : IoType) → times d (at m.owners.devices k) ≡ bit (at (m.owners.ld_io_request_type d) k))
      × (popcount (m.owners.ld_io_request_type d) + times d m.to_give ≤ 1)

pub popcount-at : (b : ByType Bool) (k : IoType) → bit (at b k) ≤ popcount b
popcount-at b read = omega arith
popcount-at b write = omega arith
popcount-at b format = omega arith

pub popcount-put :
    (b : ByType Bool) (k : IoType) → at b k ≡ true → popcount (put b k false) + 1 ≡ popcount b
popcount-put b read e = ground arith
popcount-put b write e = ground arith
popcount-put b format e = ground arith

pub same_type_self : (k : IoType) → same_type k k ≡ true
same_type_self read = refl
same_type_self write = refl
same_type_self format = refl

either : (b : Bool) → (not b || (b && true)) ≡ true
either true = refl
either false = refl

times-total : (x : ℕ) (es : List ℕ) → times x es ≡ Totals.total (λ r. if r == x then 1 else 0) es
times-total x [] = refl
times-total x (e ∷ es) = ground (arith, times-total x es)

length-total : (es : List ℕ) → length es ≡ Totals.total (λ r. 1) es
length-total [] = refl
length-total (e ∷ es) = omega (arith, length-total es)

module _ (fixed : Fixed) (techno : Bytes) where
  abbrev pub count : List ℕ → ℕ
  count es = io_sched_count_device_per_techno fixed techno es

  -- A device of the technology.
  abbrev pub Fitting : ℕ → Type 0
  Fitting d = of_techno fixed techno d ≡ true

  count-total :
      (es : List ℕ) → count es ≡ Totals.total (λ d. if of_techno fixed techno d then 1 else 0) es
  unfolding io_sched_count_device_per_techno
  count-total [] = refl
  count-total (e ∷ es) = ground (arith, count-total es)

  find_techno-found :
      (es : List ℕ) (i d j : ℕ)
      → find_techno fixed techno es i ≡ some (d, j)
      → (p : ℕ) × (j ≡ i + p) × (get_elem? es p ≡ some d) × Fitting d
  unfolding find_techno
  find_techno-found [] i d j e = cc
  find_techno-found (c ∷ es) i d j e = elim (Bool-cases (of_techno fixed techno c)) [
    | inl t ↦ (0, ground arith, ground arith, ground arith)
    | inr t ↦
        let (p, a, b, c) = find_techno-found es (suc i) d j (ground arith) in
        (suc p, omega arith, b, c)
  ]

  find_techno-none : (es : List ℕ) (i : ℕ) → find_techno fixed techno es i ≡ none → count es ≡ 0
  unfolding find_techno io_sched_count_device_per_techno
  find_techno-none [] i e = refl
  find_techno-none (c ∷ es) i e = ground (arith, find_techno-none es (suc i))

  removed :
      (es : List ℕ) (p c : ℕ) (rest : List ℕ)
      → get_elem? es p ≡ some c
      → Fitting c
      → remove_index_fast es p ≡ rest
      → ((x : ℕ) → times x rest + (if c == x then 1 else 0) ≡ times x es)
        × (count rest + 1 ≡ count es)
        × Fitting c
  removed es p c rest b t r = (
    λ x. omega (
      arith,
      total-remove_index_fast (λ q. if q == x then 1 else 0) es p c b,
      times-total x es,
      times-total x rest,
      ap (λ l. Totals.total (λ q. if q == x then 1 else 0) l) r,
    ),
    ground (
      arith,
      total-remove_index_fast (λ q. if of_techno fixed techno q then 1 else 0) es p c b,
      count-total es,
      count-total rest,
      ap (λ l. Totals.total (λ q. if of_techno fixed techno q then 1 else 0) l) r,
    ),
    t,
  )

  fifo_take_device-some :
      (es : List ℕ) (d : ℕ) (rest : List ℕ)
      → fifo_take_device fixed techno es ≡ some (d, rest)
      → ((x : ℕ) → times x rest + (if d == x then 1 else 0) ≡ times x es)
        × (count rest + 1 ≡ count es)
        × Fitting d
  unfolding fifo_take_device
  fifo_take_device-some es d rest e = elim (Option-cases (find_techno fixed techno es 0)) [
    | inl n ↦ absurd (ground (arith, n))
    | inr ((c, j), f) ↦
        let (p, a, b, t) = find_techno-found es 0 c j f in
        let z : j ≡ p = omega arith in
        let same : c ≡ d = ground arith in
        let r : remove_index_fast es p ≡ rest = rw⁻¹ z (ground arith) in
        rw same at (removed es p c rest b t r)
  ]

  fifo_take_device-none : (es : List ℕ) → fifo_take_device fixed techno es ≡ none → count es ≡ 0
  unfolding fifo_take_device
  fifo_take_device-none es e = elim (Option-cases (find_techno fixed techno es 0)) [
    | inl n ↦ find_techno-none es 0 n
    | inr (c, f) ↦ absurd (ground (arith, f))
  ]

  -- What a loop that takes `n` devices leaves.
  pub record Taken (k : IoType) (n : ℕ) (m g : Moving) : Type 0 where
    pub held : Held g
    pub kept :
        (x : ℕ)
        → total (times x) g.owners.devices + times x g.to_give
          ≡ total (times x) m.owners.devices + times x m.to_give
    pub others :
        (j : IoType) → same_type k j ≡ false → at g.owners.devices j ≡ at m.owners.devices j
    pub counted : count (at g.owners.devices k) ≡ count (at m.owners.devices k) - n
    pub given :
        length g.to_give + count (at g.owners.devices k)
        ≡ length m.to_give + count (at m.owners.devices k)
    pub fitting : All Fitting m.to_give → All Fitting g.to_give

  unmoved :
      (k : IoType) (n : ℕ) (m : Moving)
      → Held m
      → count (at m.owners.devices k) ≡ count (at m.owners.devices k) - n
      → Taken k n m m
  unmoved k n m v e = record {
    held = v;
    kept = λ x. refl;
    others = λ j h. refl;
    counted = e;
    given = refl;
    fitting = λ h. h;
  }

  taken_bit :
      (k j : IoType) (x d : ℕ) (rest : List ℕ) (m : Moving)
      → ((i : IoType)
          → times x (at m.owners.devices i) ≡ bit (at (m.owners.ld_io_request_type x) i))
      → ((i : IoType)
          → times d (at m.owners.devices i) ≡ bit (at (m.owners.ld_io_request_type d) i))
      → ((y : ℕ) → times y rest + (if d == y then 1 else 0) ≡ times y (at m.owners.devices k))
      → times x (at (put m.owners.devices k rest) j)
        ≡ bit (
            at
              (set_types d
                (put (m.owners.ld_io_request_type d) k false)
                m.owners.ld_io_request_type
                x)
              j)
  taken_bit k j x d rest m v w same =
      rw (at-put_if m.owners.devices k j rest) (elim (Bool-cases (same_type k j)) [
        | inl i ↦ rw i (
            ground (
              arith,
              v k,
              w k,
              same x,
              same d,
              at-put_if (m.owners.ld_io_request_type d) k j false,
              ap (λ t. at (m.owners.ld_io_request_type x) t) (same_type-eq k j i),
            ))
        | inr i ↦
            rw i (ground (arith, v j, w j, at-put_if (m.owners.ld_io_request_type d) k j false))
      ])

  -- One device taken.
  add_taken-Taken :
      (k : IoType) (d : ℕ) (rest : List ℕ) (m : Moving)
      → Held m
      → fifo_take_device fixed techno (at m.owners.devices k) ≡ some (d, rest)
      → Taken k 1 m (
          add_taken k d
            (record m { owners = record m.owners { devices = put m.owners.devices k rest } }))
  unfolding add_taken is_device_shared_between_schedulers
  add_taken-Taken k d rest m v e =
      let (same, fewer, fits) = fifo_take_device-some (at m.owners.devices k) d rest e in
      let absent : gptr_array_contains m.to_give d ≡ false = ground (
        arith,
        v d,
        same d,
        (v d).0 k,
        (v d).1,
        popcount-at (m.owners.ld_io_request_type d) k,
        contains-times m.to_give d,
      ) in
      let bit_set : at (m.owners.ld_io_request_type d) k ≡ true =
        ground (arith, same d, (v d).0 k) in
      rw
        (
          absent,
          add_taken,
          either (is_device_shared_between_schedulers (m.owners.ld_io_request_type d)),
        )
        (record {
          held = λ x. (
            λ j. taken_bit k j x d rest m (v x).0 (v d).0 same,
            ground (
              arith,
              (v x).1,
              popcount-put (m.owners.ld_io_request_type d) k bit_set,
              times-snoc x d m.to_give,
            ),
          );
          kept = λ x. omega (
            arith,
            total-put (times x) m.owners.devices k rest,
            times-snoc x d m.to_give,
            same x,
          );
          others = λ j h. rw (at-put_if m.owners.devices k j rest, h) refl;
          counted =
              rw (at-put_if m.owners.devices k k rest, same_type_self k) (omega (arith, fewer));
          given =
              rw (at-put_if m.owners.devices k k rest, same_type_self k)
                (omega (arith, fewer, length-append m.to_give (d ∷ [])));
          fitting = λ h. All-append Fitting m.to_give (d ∷ []) h (fits, tt);
        })

  Taken-trans :
      (k : IoType) (n : ℕ) (m g f : Moving) → Taken k 1 m g → Taken k n g f → Taken k (suc n) m f
  Taken-trans k n m g f a b = record {
    held = b.held;
    kept = λ x. omega (arith, a.kept x, b.kept x);
    others = λ j h. b.others j h ∙ a.others j h;
    counted = omega (arith, a.counted, b.counted);
    given = omega (arith, a.given, b.given);
    fitting = λ h. b.fitting (a.fitting h);
  }

  take_loop-Taken :
      (k : IoType) (n : ℕ) (m : Moving)
      → Held m
      → (g : Moving) × (take_loop fixed techno k n m ≡ ok g) × Taken k n m g
  unfolding take_loop io_sched_claim_device fifo_claim_device
  take_loop-Taken k zero m v = (m, refl, unmoved k 0 m v (omega arith))
  take_loop-Taken k (suc n) m v =
      elim (Option-cases (fifo_take_device fixed techno (at m.owners.devices k))) [
        | inl e ↦
            let z = fifo_take_device-none (at m.owners.devices k) e in
            rw (e, take_loop) (m, refl, unmoved k (suc n) m v (omega (arith, z)))
        | inr ((d, rest), e) ↦
            let first = add_taken-Taken k d rest m v e in
            let (g, call, t) = take_loop-Taken k n _ first.held in
            (g, rw (e, take_loop) call, Taken-trans k n m _ g first t)
      ]

  -- A scheduler that has more than `target` devices of the technology keeps `target` of them.
  pub take_devices-Taken :
      (k : IoType) (target : ℕ) (m : Moving)
      → Held m
      → (g : Moving) × (take_devices fixed techno k target m ≡ ok g)
        × Taken k (count (at m.owners.devices k) - target) m g
  unfolding take_devices
  take_devices-Taken k target m v = elim (Bool-cases (leb (count (at m.owners.devices k)) target)) [
    | inl few ↦
        let none_left : count (at m.owners.devices k) - target ≡ 0 = ground arith in
        rw (few, take_devices, none_left) (m, refl, unmoved k 0 m v (omega arith))
    | inr many ↦ rw (many, take_devices) (take_loop-Taken k _ m v)
  ]
