-- ===== src/Lrs/IoSched/Devices/Owned.antt =====
-- Who owns a device, when schedulers exchange devices: src/lrs/io_sched.c and the device functions
-- of src/lrs/io_schedulers/fifo.c.
use phobos.Base.{
  ℕ, ◌+◌, ◌-◌, ◌≡◌, ◌≢◌, ◌≤◌, refl, ap, ◌∙◌, Bool, true, false, ltb, max, List, [], ◌∷◌, ◌++◌, none,
  arith, ◌==◌, if◌then◌else◌, Bool-cases, inl, inr,
}
use phobos.Base.Results.{ok}
use phobos.Lrs.IoSched.{IoType, read, write, format, at, put, same_type, times, times-snoc}
use phobos.Lrs.IoSched.Devices.{
  Fixed, Owners, dev_is_sched_ready, one_type, set_types, bit, popcount, fifo_remove_device,
  fifo_exchange_device, fifo_claim_device, fifo_add_device, gptr_array_contains, exchange,
  io_type2scheduler, exchange_with, io_sched_claim_device,
}
use phobos.Lrs.IoSched.Devices.Bits.{same_type-code, at-one_type, at-put_if}

-- A device is once in the lists of the schedulers whose bits it has, and not in the others; and it
-- has one bit at most.
abbrev pub Owns : Owners → Type 0
Owns s =
    (d : ℕ)
    → ((k : IoType) → times d (at s.devices k) ≡ bit (at (s.ld_io_request_type d) k))
      × (popcount (s.ld_io_request_type d) ≤ 1)

abbrev pub ready : Fixed → ℕ → Bool
ready fixed d = dev_is_sched_ready (fixed.readiness d)

times-remove :
    (x d : ℕ) (es : List ℕ)
    → times x (fifo_remove_device es d) ≡ times x es - (if d == x then 1 else 0)
unfolding fifo_remove_device
times-remove x d [] = ground arith
times-remove x d (e ∷ es) = ground (arith, times-remove x d es)

-- What a scheduler's list has after it gives `d` away for `u`.
times-exchange :
    (x d u : ℕ) (es : List ℕ)
    → times x (fifo_remove_device (es ++ u ∷ []) d)
      ≡ times x es + (if u == x then 1 else 0) - (if d == x then 1 else 0)
times-exchange x d u es = omega (arith, times-remove x d (es ++ u ∷ []), times-snoc x u es)

-- The state of an exchange, whatever the readiness.
abbrev pub swap : IoType → ℕ → ℕ → Owners → Owners
swap k d u s = record {
  devices = put s.devices k (fifo_remove_device (at s.devices k ++ u ∷ []) d);
  ld_io_request_type =
      set_types u (one_type k)
        (set_types d (put (s.ld_io_request_type d) k false) s.ld_io_request_type);
}

at-swap :
    (k : IoType) (d u : ℕ) (s : Owners) → d ≢ u → at ((swap k d u s).ld_io_request_type d) k ≡ false
at-swap read d u s n = ground arith
at-swap write d u s n = ground arith
at-swap format d u s n = ground arith

module _ (fixed : Fixed) where
  pub fifo_exchange_device-swap :
      (k : IoType) (d u : ℕ) (s : Owners)
      → ready fixed u ≡ true
      → fifo_exchange_device fixed k d u s ≡ swap k d u s
  unfolding fifo_exchange_device
  fifo_exchange_device-swap k d u s h = rw (h, fifo_exchange_device) refl

  -- A device of another scheduler: what that one gives is taken next.
  exchange_with-given :
      (k target : IoType) (d u : ℕ) (s : Owners)
      → d ≢ u
      → ready fixed u ≡ true
      → exchange_with fixed k target d u s
        ≡ ok (fifo_exchange_device fixed k u d (swap target d u s), none)
  unfolding exchange_with fifo_claim_device
  exchange_with-given k target d u s n h =
      rw (exchange_with, fifo_exchange_device-swap target d u s h, at-swap target d u s n) refl

  claim-exchange :
      (k target : IoType) (d u : ℕ) (s : Owners)
      → same_type k target ≡ false
      → s.ld_io_request_type d ≡ one_type target
      → io_sched_claim_device fixed k (exchange d u) s ≡ exchange_with fixed k target d u s
  unfolding io_sched_claim_device io_type2scheduler
  claim-exchange read read d u s n t = cc
  claim-exchange read write d u s n t = rw t refl
  claim-exchange read format d u s n t = rw t refl
  claim-exchange write read d u s n t = rw t refl
  claim-exchange write write d u s n t = cc
  claim-exchange write format d u s n t = rw t refl
  claim-exchange format read d u s n t = rw t refl
  claim-exchange format write d u s n t = rw t refl
  claim-exchange format format d u s n t = cc

  pub claim-given :
      (k target : IoType) (d u : ℕ) (s : Owners)
      → same_type k target ≡ false
      → d ≢ u
      → ready fixed u ≡ true
      → s.ld_io_request_type d ≡ one_type target
      → io_sched_claim_device fixed k (exchange d u) s
        ≡ ok (fifo_exchange_device fixed k u d (swap target d u s), none)
  claim-given k target d u s n ne h t =
      claim-exchange k target d u s n t ∙ exchange_with-given k target d u s ne h

pub swap-times :
    (k j : IoType) (d u : ℕ) (s : Owners) (x : ℕ)
    → times x (at (swap k d u s).devices j) ≡ (
        if same_type k j
        then times x (at s.devices k) + (if u == x then 1 else 0) - (if d == x then 1 else 0)
        else times x (at s.devices j))
swap-times k j d u s x =
    rw (at-put_if s.devices k j (fifo_remove_device (at s.devices k ++ u ∷ []) d))
      (elim (Bool-cases (same_type k j)) [
        | inl e ↦ rw e (times-exchange x d u (at s.devices k))
        | inr e ↦ rw e refl
      ])

swap-bits :
    (k j : IoType) (d u : ℕ) (s : Owners) (x : ℕ)
    → at ((swap k d u s).ld_io_request_type x) j ≡ (
        if u == x
        then same_type k j
        else if d == x
        then if same_type k j then false else at (s.ld_io_request_type d) j
        else at (s.ld_io_request_type x) j)
swap-bits k j d u s x = elim (Bool-cases (u == x)) [
  | inl e ↦ rw e (at-one_type k j)
  | inr e ↦ elim (Bool-cases (d == x)) [
    | inl i ↦ rw (e, i) (at-put_if (s.ld_io_request_type d) k j false)
    | inr i ↦ rw (e, i) refl
  ]
]

swap-popcount :
    (k : IoType) (d u : ℕ) (s : Owners) (x : ℕ)
    → ((y : ℕ) → popcount (s.ld_io_request_type y) ≤ 1)
    → popcount ((swap k d u s).ld_io_request_type x) ≤ 1
swap-popcount read d u s x h = ground (arith, h x, h d)
swap-popcount write d u s x h = ground (arith, h x, h d)
swap-popcount format d u s x h = ground (arith, h x, h d)

swap-bit :
    (k target j : IoType) (d u x : ℕ) (s : Owners)
    → same_type k target ≡ false
    → d ≢ u
    → s.ld_io_request_type d ≡ one_type target
    → s.ld_io_request_type u ≡ one_type k
    → Owns s
    → times x (at (swap k u d (swap target d u s)).devices j)
      ≡ bit (at ((swap k u d (swap target d u s)).ld_io_request_type x) j)
swap-bit k target j d u x s n ne a b v =
    let s1 = swap target d u s in
    ground (
      arith,
      swap-times k j u d s1 x,
      swap-bits k j u d s1 x,
      swap-times target j d u s x,
      swap-times target k d u s x,
      swap-bits target j d u s x,
      swap-bits target j d u s u,
      same_type-code k j,
      same_type-code target j,
      same_type-code k target,
      same_type-code target k,
      (v x).0 j,
      (v x).0 k,
      (v x).0 target,
      ap (λ t. at t j) a,
      ap (λ t. at t k) a,
      ap (λ t. at t target) a,
      ap (λ t. at t j) b,
      ap (λ t. at t k) b,
      ap (λ t. at t target) b,
      at-one_type target j,
      at-one_type target k,
      at-one_type target target,
      at-one_type k j,
      at-one_type k k,
      at-one_type k target,
    )

pub swap-Owns :
    (k target : IoType) (d u : ℕ) (s : Owners)
    → same_type k target ≡ false
    → d ≢ u
    → s.ld_io_request_type d ≡ one_type target
    → s.ld_io_request_type u ≡ one_type k
    → Owns s
    → Owns (swap k u d (swap target d u s))
swap-Owns k target d u s n ne a b v = λ x. (
  λ j. swap-bit k target j d u x s n ne a b v,
  swap-popcount k u d (swap target d u s) x (λ y. swap-popcount target d u s y (λ z. (v z).1)),
)

pub contains-times : (ds : List ℕ) (d : ℕ) → gptr_array_contains ds d ≡ ltb 0 (times d ds)
unfolding gptr_array_contains
contains-times [] d = ground arith
contains-times (e ∷ ds) d = ground (arith, contains-times ds d)

-- A device is added once.
pub times-add :
    (x d : ℕ) (ds : List ℕ)
    → times x (fifo_add_device ds d) ≡ (if d == x then max 1 (times d ds) else times x ds)
unfolding fifo_add_device
times-add x d ds = elim (Bool-cases (gptr_array_contains ds d)) [
  | inl old ↦ rw old (ground (arith, contains-times ds d))
  | inr new ↦ rw new (ground (arith, contains-times ds d, times-snoc x d ds))
]
