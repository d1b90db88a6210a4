-- ===== src/Lrs/IoSched/Devices/Exchange.antt =====
-- The exchange of devices between schedulers: exchange_device of src/lrs/io_schedulers/fifo.c.
use phobos.Base.{
  ℕ, ◌≡◌, ◌≢◌, ◌<◌, refl, sym, ap, ◌∙◌, ◌⊎◌, Bool, true, false, List, [], ◌∷◌, Option, none, some,
  arith, Bool-cases, Option-cases, inl, inr,
}
use phobos.Base.Results.{Result, ok}
use phobos.Lrs.IoSched.{IoType, read, write, format, ByType, at, put, same_type, times}
use phobos.Lrs.IoSched.Devices.{
  Fixed, Owners, no_type, one_type, set_types, bit, fifo_exchange_device, fifo_add_device,
  find_free_device, exchange, io_type2scheduler, io_sched_claim_device, exchange_device,
}
use phobos.Lrs.IoSched.Devices.Owned.{
  Owns, ready, swap, fifo_exchange_device-swap, claim-given, swap-Owns, swap-times, times-add,
}
use phobos.Lrs.IoSched.Devices.Bits.{
  bits-one, at-no_type, one_type-popcount, owner-cases, same_type-code, same_type-eq, at-one_type,
  at-put_if,
}

other :
    (k target : IoType) (d u : ℕ) (types : ℕ → ByType Bool)
    → same_type k target ≡ false
    → types d ≡ one_type target
    → types u ≡ one_type k
    → d ≢ u
other k target d u types n a b e =
    let c : same_type k target ≡ same_type target target =
      sym (at-one_type k target)
      ∙ ap (λ t. at t target) (sym b ∙ ap types (sym e) ∙ a)
      ∙ at-one_type target target in
    absurd (ground (arith, c, same_type-code target target))

module _ (fixed : Fixed) where
  find_free_device-ready :
      (ds : List ℕ) (u : ℕ)
      → find_free_device fixed ds ≡ some u
      → (ready fixed u ≡ true) × (0 < times u ds)
  unfolding find_free_device
  find_free_device-ready [] u e = cc
  find_free_device-ready (d ∷ ds) u e = ground (arith, find_free_device-ready ds u)

  -- A claimed device that no scheduler has.
  abbrev given : IoType → ℕ → Owners → Owners
  given k d s = record {
    devices = put s.devices k (fifo_add_device (at s.devices k) d);
    ld_io_request_type = set_types d (one_type k) s.ld_io_request_type;
  }

  last :
      (k : IoType) (d : ℕ) (s : Owners)
      → s.ld_io_request_type d ≡ no_type
      → Path
          (Result (Owners × Option ℕ))
          (ok (
            record (given k d s) {
              ld_io_request_type =
                  set_types d (put (s.ld_io_request_type d) k true) s.ld_io_request_type;
            },
            none,
          ))
          (ok (given k d s, none))
  last k d s e i = ok (
    record (given k d s) {
      ld_io_request_type = set_types d (put (e i) k true) s.ld_io_request_type;
    },
    none,
  )

  claim-given_free :
      (k : IoType) (d u : ℕ) (s : Owners)
      → s.ld_io_request_type d ≡ no_type
      → io_sched_claim_device fixed k (exchange d u) s ≡ ok (given k d s, none)
  unfolding io_sched_claim_device io_type2scheduler
  claim-given_free read d u s e = rw e (last read d s e)
  claim-given_free write d u s e = rw e (last write d s e)
  claim-given_free format d u s e = rw e (last format d s e)

  given-times :
      (k j : IoType) (d : ℕ) (s : Owners)
      → s.ld_io_request_type d ≡ no_type
      → Owns s
      → (x : ℕ)
      → times x (at (given k d s).devices j) ≡ bit (at ((given k d s).ld_io_request_type x) j)
  given-times k j d s e v x =
      rw (at-put_if s.devices k j (fifo_add_device (at s.devices k) d))
        (elim (Bool-cases (same_type k j)) [
          | inl i ↦ rw i (
              ground (
                arith,
                times-add x d (at s.devices k),
                at-one_type k j,
                ap (λ t. times x (at s.devices t)) (same_type-eq k j i),
                (v x).0 j,
                (v d).0 k,
                ap (λ t. at t k) e,
                at-no_type k,
              ))
          | inr i ↦
              rw i (ground (arith, at-one_type k j, (v x).0 j, ap (λ t. at t j) e, at-no_type j))
        ])

  given-Owns :
      (k : IoType) (d : ℕ) (s : Owners)
      → s.ld_io_request_type d ≡ no_type
      → Owns s
      → Owns (given k d s)
  given-Owns k d s e v =
      λ x. (λ j. given-times k j d s e v x, ground (arith, (v x).1, one_type-popcount k))

  given-type :
      (k : IoType) (d : ℕ) (s : Owners)
      → s.ld_io_request_type d ≡ no_type
      → (given k d s).ld_io_request_type d ≡ one_type k
  given-type k d s e = ground arith

  claim-free :
      (k : IoType) (d u : ℕ) (s : Owners)
      → s.ld_io_request_type d ≡ no_type
      → Owns s
      → (g : Owners) × (io_sched_claim_device fixed k (exchange d u) s ≡ ok (g, none))
        × Owns g
        × (g.ld_io_request_type d ≡ one_type k)
  claim-free k d u s e v =
      (given k d s, claim-given_free k d u s e, given-Owns k d s e v, given-type k d s e)

  claim-owned :
      (k target : IoType) (d u : ℕ) (s : Owners)
      → same_type k target ≡ false
      → ready fixed d ≡ true
      → ready fixed u ≡ true
      → s.ld_io_request_type d ≡ one_type target
      → s.ld_io_request_type u ≡ one_type k
      → Owns s
      → (g : Owners) × (io_sched_claim_device fixed k (exchange d u) s ≡ ok (g, none))
        × Owns g
        × (g.ld_io_request_type d ≡ one_type k)
  claim-owned k target d u s n rd ru a b v =
      let ne = other k target d u s.ld_io_request_type n a b in
      (
        swap k u d (swap target d u s),
        claim-given fixed k target d u s n ne ru a
            ∙ ap (λ g. ok (g, none)) (fifo_exchange_device-swap fixed k u d (swap target d u s) rd),
        swap-Owns k target d u s n ne a b v,
        ground arith,
      )

  exchange_device-claim :
      (k : IoType) (d u : ℕ) (s : Owners)
      → find_free_device fixed (at s.devices k) ≡ some u
      → exchange_device fixed k d s ≡ io_sched_claim_device fixed k (exchange d u) s
  unfolding exchange_device
  exchange_device-claim k d u s e = rw (exchange_device, e) refl

  -- A scheduler that wants a device of another, or of none, which is ready: the exchange never stops
  -- on its assertion, and afterwards again each device is in the list of the scheduler whose bit it
  -- has, and in that one only. If the scheduler has a ready device to give, it gets the other one.
  pub exchange_device-Owns :
      (k : IoType) (d : ℕ) (s : Owners)
      → Owns s
      → at (s.ld_io_request_type d) k ≡ false
      → ready fixed d ≡ true
      → (g : Owners) × (exchange_device fixed k d s ≡ ok (g, none))
        × Owns g
        × ((g.ld_io_request_type d ≡ one_type k)
            ⊎ ((find_free_device fixed (at s.devices k) ≡ none) × (g ≡ s)))
  unfolding exchange_device
  exchange_device-Owns k d s v n rd =
      elim (Option-cases (find_free_device fixed (at s.devices k))) [
        | inl e ↦ rw (exchange_device, e) (s, refl, v, inr (refl, refl))
        | inr (u, e) ↦
            let (ru, member) = find_free_device-ready (at s.devices k) u e in
            let b = bits-one k (s.ld_io_request_type u) (v u).1 (ground (arith, (v u).0 k)) in
            elim (owner-cases (s.ld_io_request_type d) (v d).1) [
              | inl free ↦
                  let (g, call, owns, type) = claim-free k d u s free v in
                  (g, exchange_device-claim k d u s e ∙ call, owns, inl type)
              | inr (target, a) ↦
                  let m : same_type k target ≡ false = ground (
                    arith,
                    ap (λ t. at t k) a,
                    at-one_type target k,
                    same_type-code k target,
                    same_type-code target k,
                  ) in
                  let (g, call, owns, type) = claim-owned k target d u s m rd ru a b v in
                  (g, exchange_device-claim k d u s e ∙ call, owns, inl type)
            ]
      ]

  -- When the device that a scheduler wants from another one is not ready, the exchange is left
  -- half-way: the other scheduler gets the free device and gives its own away, but the first one
  -- does not take it and keeps the free device. This one is in two lists then, with one bit; the
  -- wanted device is in none.
  pub io_sched_claim_device-torn :
      (k target : IoType) (d u : ℕ) (s : Owners)
      → Owns s
      → same_type k target ≡ false
      → s.ld_io_request_type d ≡ one_type target
      → s.ld_io_request_type u ≡ one_type k
      → ready fixed u ≡ true
      → ready fixed d ≡ false
      → (g : Owners) × (io_sched_claim_device fixed k (exchange d u) s ≡ ok (g, none))
        × ((j : IoType) → times d (at g.devices j) ≡ 0)
        × (times u (at g.devices k) ≡ 1)
        × (times u (at g.devices target) ≡ 1)
        × (g.ld_io_request_type u ≡ one_type target)
  unfolding fifo_exchange_device
  io_sched_claim_device-torn k target d u s v n a b ru rd =
      let ne = other k target d u s.ld_io_request_type n a b in
      let unready : fifo_exchange_device fixed k u d (swap target d u s) ≡ swap target d u s =
        rw (fifo_exchange_device, rd) refl in
      (
        swap target d u s,
        claim-given fixed k target d u s n ne ru a ∙ ap (λ g. ok (g, none)) unready,
        λ j. ground (
          arith,
          swap-times target j d u s d,
          (v d).0 j,
          (v d).0 target,
          ap (λ t. at t j) a,
          ap (λ t. at t target) a,
          at-one_type target j,
          at-one_type target target,
        ),
        ground (
          arith,
          swap-times target k d u s u,
          (v u).0 k,
          ap (λ t. at t k) b,
          at-one_type k k,
          same_type-code k k,
          same_type-code k target,
          same_type-code target k,
        ),
        ground (
          arith,
          swap-times target target d u s u,
          (v u).0 target,
          ap (λ t. at t target) b,
          at-one_type k target,
          same_type-code target target,
        ),
        ground arith,
      )
