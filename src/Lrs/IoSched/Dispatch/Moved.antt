-- ===== src/Lrs/IoSched/Dispatch/Moved.antt =====
-- A whole dispatch of the devices of a technology, where no device is shared:
-- fetch_devices_to_give and dispatch_devices of
-- src/lrs/io_schedulers/device_dispatch_algorithms.c.
use phobos.Base.{
  ℕ, ◌+◌, ◌-◌, ◌≡◌, ◌≤◌, refl, ap, ◌∙◌, Bool, List, [], ◌∷◌, arith, ◌==◌, if◌then◌else◌, length,
  All, Bool-cases, inl, inr,
}
use phobos.Base.Results.{ok, ◌>>=◌}
use phobos.StringArray.CString.{Bytes}
use phobos.Lrs.Sync.Totals
use phobos.Lrs.IoSched.{IoType, read, write, format, ByType, at, times}
use phobos.Lrs.IoSched.Devices.{Fixed, Owners, popcount, of_techno}
use phobos.Lrs.IoSched.Devices.Owned.{Owns}
use phobos.Lrs.IoSched.Dispatch.{
  Moving, Repartition, io_sched_count_device_per_techno, unowned, fetch_devices_to_give,
  dispatch_devices,
}
use phobos.Lrs.IoSched.Dispatch.Take.{Held, count, Fitting, take_devices-Taken}
use phobos.Lrs.IoSched.Dispatch.Give.{give_devices-Given}
use phobos.Lrs.IoSched.Dispatch.Listed.{
  times-unowned, total-swap, gift_first, gift_second, gift_third, gift_last, gift_to, kept_le,
  each_type,
}

module _ (fixed : Fixed) (techno : Bytes) where
  -- The devices of a technology: each once, and all those of the technology that a scheduler has.
  pub record IsListed (ds : List ℕ) (s : Owners) : Type 0 where
    pub once : (d : ℕ) → times d ds ≤ 1
    pub fitting : All (Fitting fixed techno) ds
    pub known :
        (k : IoType)
        → All (λ d. times d ds ≡ (if of_techno fixed techno d then 1 else 0)) (at s.devices k)

  known-total :
      (es ds : List ℕ)
      → All (λ d. times d ds ≡ (if of_techno fixed techno d then 1 else 0)) es
      → Totals.total (λ x. times x ds) es ≡ count fixed techno es
  unfolding io_sched_count_device_per_techno
  known-total [] ds a = refl
  known-total (e ∷ es) ds a = ground (arith, known-total es ds a.1, a.0)

  known-count :
      (es ds : List ℕ)
      → All (λ d. times d ds ≡ (if of_techno fixed techno d then 1 else 0)) es
      → Totals.total (λ d. times d es) ds ≡ count fixed techno es
  known-count es ds a = total-swap es ds ∙ known-total es ds a

  covered :
      (s : Owners) (ds : List ℕ)
      → Owns s
      → Totals.total (λ d. times d s.devices.reads) ds
          + Totals.total (λ d. times d s.devices.writes) ds
          + Totals.total (λ d. times d s.devices.formats) ds
          + length (unowned s.ld_io_request_type ds)
        ≡ length ds
  unfolding unowned
  covered s [] v = refl
  covered s (d ∷ ds) v =
      ground (arith, covered s ds v, (v d).0 read, (v d).0 write, (v d).0 format, (v d).1)

  unowned-Fitting :
      (types : ℕ → ByType Bool) (ds : List ℕ)
      → All (Fitting fixed techno) ds
      → All (Fitting fixed techno) (unowned types ds)
  unfolding unowned
  unowned-Fitting types [] a = tt
  unowned-Fitting types (d ∷ ds) a = elim (Bool-cases (popcount (types d) == 0)) [
    | inl e ↦ rw (e, unowned) (a.0, unowned-Fitting types ds a.1)
    | inr e ↦ rw (e, unowned) (unowned-Fitting types ds a.1)
  ]

  -- The devices, with the list, when all that no scheduler has are listed.
  abbrev start : List ℕ → Owners → Moving
  start ds s = record { owners = s; to_give = unowned s.ld_io_request_type ds }

  start-Held : (ds : List ℕ) (s : Owners) → Owns s → IsListed ds s → Held (start ds s)
  start-Held ds s v l =
      λ x. ((v x).0, ground (arith, times-unowned s.ld_io_request_type ds x, l.once x, (v x).1))

  -- The number of devices of each scheduler.
  abbrev pub counts : Owners → IoType → ℕ
  counts s k = count fixed techno (at s.devices k)

  -- What the first half leaves.
  pub record Fetched (ds : List ℕ) (rep : Repartition) (s : Owners) (m : Moving) : Type 0 where
    pub held : Held m
    pub fitting : All (Fitting fixed techno) m.to_give
    pub counted : (k : IoType) → counts m.owners k ≡ counts s k - (counts s k - at rep k)
    pub given :
        length m.to_give + (counts m.owners read + counts m.owners write + counts m.owners format)
        ≡ length ds

  pub fetch_devices_to_give-Fetched :
      (ds : List ℕ) (rep : Repartition) (s : Owners)
      → Owns s
      → IsListed ds s
      → (m : Moving) × (fetch_devices_to_give fixed techno ds rep s ≡ ok m) × Fetched ds rep s m
  unfolding fetch_devices_to_give
  fetch_devices_to_give-Fetched ds rep s v l =
      let (m1, call1, t1) =
        take_devices-Taken fixed techno read rep.reads (start ds s) (start-Held ds s v l) in
      let (m2, call2, t2) = take_devices-Taken fixed techno write rep.writes m1 t1.held in
      let (m3, call3, t3) = take_devices-Taken fixed techno format rep.formats m2 t2.held in
      let w1 = ap (count fixed techno) (t1.others write refl) in
      let f1 = ap (count fixed techno) (t1.others format refl) in
      let r2 = ap (count fixed techno) (t2.others read refl) in
      let f2 = ap (count fixed techno) (t2.others format refl) in
      let r3 = ap (count fixed techno) (t3.others read refl) in
      let w3 = ap (count fixed techno) (t3.others write refl) in
      (
        m3,
        rw (call1, call2) call3,
        record {
          held = t3.held;
          fitting =
              t3.fitting
                (t2.fitting (t1.fitting (unowned-Fitting s.ld_io_request_type ds l.fitting)));
          counted =
              each_type (λ k. counts m3.owners k ≡ counts s k - (counts s k - at rep k))
                (omega (arith, t1.counted, r2, r3)) (omega (arith, t2.counted, w1, w3))
                (omega (arith, t3.counted, f1, f2));
          given = omega (
            arith,
            covered s ds v,
            known-count s.devices.reads ds (l.known read),
            known-count s.devices.writes ds (l.known write),
            known-count s.devices.formats ds (l.known format),
            t1.given,
            t2.given,
            t3.given,
            w1,
            f1,
            r2,
            f2,
            r3,
            w3,
          );
        },
      )

  -- When all schedulers together are to have at most as many devices as there are, none of them
  -- shared: the dispatch does not stop for want of devices, and it leaves each scheduler with exactly
  -- as many devices of the technology as the repartition says; each device is in the list of the
  -- scheduler whose bit it has, and in that one only; and the devices left over are the others.
  pub dispatch_devices-counted :
      (ds : List ℕ) (rep : Repartition) (s : Owners)
      → Owns s
      → IsListed ds s
      → rep.reads + rep.writes + rep.formats ≤ length ds
      → (m : Moving) × ((fetch_devices_to_give fixed techno ds rep s
            >>= dispatch_devices fixed techno rep)
          ≡ ok m)
        × Held m
        × ((k : IoType) → counts m.owners k ≡ at rep k)
        × (length m.to_give + (rep.reads + rep.writes + rep.formats) ≡ length ds)
  unfolding dispatch_devices
  dispatch_devices-counted ds rep s v l h =
      let (m, call, f) = fetch_devices_to_give-Fetched ds rep s v l in
      let a : counts m.owners read ≤ rep.reads = kept_le _ _ _ (f.counted read) in
      let b : counts m.owners write ≤ rep.writes = kept_le _ _ _ (f.counted write) in
      let c : counts m.owners format ≤ rep.formats = kept_le _ _ _ (f.counted format) in
      let (m1, call1, t1) =
        give_devices-Given fixed techno read rep.reads m f.held f.fitting
          (gift_first _ _ _ _ _ _ _ _ f.given b c h) in
      let w1 = ap (count fixed techno) (t1.others write refl) in
      let f1 = ap (count fixed techno) (t1.others format refl) in
      let (m2, call2, t2) =
        give_devices-Given fixed techno write rep.writes m1 t1.held t1.fitting
          (rw w1 (gift_second _ _ _ _ _ _ _ _ _ f.given a b c h t1.given)) in
      let r2 = ap (count fixed techno) (t2.others read refl) in
      let f2 = ap (count fixed techno) (t2.others format refl) ∙ f1 in
      let given2 : length m2.to_give + (rep.writes - counts m.owners write) ≡ length m1.to_give =
        rw w1 at t2.given in
      let (m3, call3, t3) =
        give_devices-Given fixed techno format rep.formats m2 t2.held t2.fitting
          (rw f2 (gift_third _ _ _ _ _ _ _ _ _ _ f.given a b c h t1.given given2)) in
      let r3 = ap (count fixed techno) (t3.others read refl) ∙ r2 in
      let w3 = ap (count fixed techno) (t3.others write refl) in
      let given3 : length m3.to_give + (rep.formats - counts m.owners format) ≡ length m2.to_give =
        rw f2 at t3.given in
      (
        m3,
        rw (call, call1, call2) call3,
        t3.held,
        each_type (λ k. counts m3.owners k ≡ at rep k) (r3 ∙ gift_to _ _ _ a t1.counted)
            (w3 ∙ gift_to _ _ _ b (rw w1 at t2.counted)) (gift_to _ _ _ c (rw f2 at t3.counted)),
        gift_last _ _ _ _ _ _ _ _ _ _ _ f.given a b c t1.given given2 given3,
      )
