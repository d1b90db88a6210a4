-- ===== src/Lrs/IoSched/Requests/Counted.antt =====
-- The requests that the schedulers of src/lrs/io_sched.c hold, and their counts.
use phobos.Base.{
  All-append, ℕ, suc, ◌+◌, ◌≡◌, ◌<◌, refl, ◌∙◌, sym, ap, inl, inr, List, [], ◌∷◌, ◌++◌, some, arith,
  All, length, length-append, ◌==◌, if◌then◌else◌, Option-cases,
}
use phobos.Base.Words.{u64_mod, sub64_of_le}
use phobos.Base.Results.{Result, ok, err, Errno}
use phobos.Lrs.IoSched.{IoType, ByType, at, total-put, times, times-snoc, at-put, at-put_both}
use phobos.Lrs.IoSched.Fifo.{
  Busy, QueueElement, fifo_push_request, fifo_remove_request, fifo_requeue,
  is_reqc_the_first_element,
}
use phobos.Lrs.IoSched.Requests.{
  Handle, Context, io_sched_push_request, io_sched_requeue, io_sched_remove_request,
  io_sched_peek_request,
}
use phobos.Lrs.IoSched.Requests.Searched.{
  queued, waiting, queued-append, Typed, Fits, IsCounted, Begins, Same, Front,
  io_sched_peek_request-Same,
}

refused : {e : Errno} {g : Handle} → Path (Result Handle) (err e) (ok g) → ⊥
refused e = cc

done_handle : Result Handle → Handle → Handle
done_handle (ok h) g = h
done_handle _ g = g

done_same : {g h : Handle} → Path (Result Handle) (ok g) (ok h) → g ≡ h
unfolding done_handle
done_same {g = g} e = ap (λ r. done_handle r g) e

module _ (c : Context) where
  front-type :
      (h : Handle) (k : IoType) (a : ℕ)
      → IsCounted c h
      → Begins c (at h.queues k) a
      → (c.request a).type ≡ some k
  front-type h k a v (e, rest, q, s) =
      let t : All (Typed c k) (e ∷ rest) = rw q at (v k).1 in rw s at t.0

  remove-front :
      (queue : List QueueElement) (a : ℕ) (b : Begins c queue a)
      → fifo_remove_request queue a ≡ ok b.1
  unfolding fifo_remove_request is_reqc_the_first_element
  remove-front queue a (e, rest, q, s) = rw q (ground (arith, s))

  requeue-front :
      (queue : List QueueElement) (a : ℕ) (b : Begins c queue a)
      → fifo_requeue queue a ≡ ok (b.1 ++ record b.0 { num_media_allocated = 0 } ∷ [])
  unfolding fifo_requeue is_reqc_the_first_element
  requeue-front queue a (e, rest, q, s) = rw q (ground (arith, s))

  -- One occurrence of a request, or none.
  abbrev pub one : ℕ → ℕ → ℕ
  one a x = if a == x then 1 else 0

  -- A queue that begins with a request, and what is behind it.
  record Behind (k : IoType) (n a : ℕ) (queue : List QueueElement) (b : Begins c queue a)
      : Type 0 where
    size : n ≡ suc (length b.1)
    typed : All (Typed c k) b.1
    front : Typed c k b.0
    same : (x : ℕ) → queued x queue ≡ queued x b.1 + one a x

  Begins-Behind :
      (k : IoType) (n a : ℕ) (queue : List QueueElement) (b : Begins c queue a)
      → Fits c k n queue
      → Behind k n a queue b
  Begins-Behind k n a queue (e, rest, q, s) v =
      let t : All (Typed c k) (e ∷ rest) = rw q at v.1 in
      record {
        size = v.0 ∙ ap length q;
        typed = t.1;
        front = t.0;
        same = λ x. rw q (ground (arith, s));
      }

  remove_request-Front :
      (h : Handle) (a : ℕ)
      → IsCounted c h
      → Front c h a
      → ((io_sched_remove_request c h a).0 ≡ ok tt)
        × IsCounted c (io_sched_remove_request c h a).1
        × ((x : ℕ) → waiting x (io_sched_remove_request c h a).1 + one a x ≡ waiting x h)
  unfolding io_sched_remove_request
  remove_request-Front h a v (k, b) =
      rw (io_sched_remove_request, front-type h k a v b, remove-front (at h.queues k) a b)
        (let behind = Begins-Behind k (at h.io_stats k) a (at h.queues k) b (v k) in
          let wrap = sub64_of_le (at h.io_stats k) 1 in
          (
            refl,
            at-put_both (Fits c) h.io_stats h.queues k _ b.1
                (
                  omega (arith, wrap, behind.size, (v k).2),
                  behind.typed,
                  omega (arith, wrap, behind.size, (v k).2),
                )
                v,
            λ x. omega (arith, total-put (queued x) h.queues k b.1, behind.same x),
          ))

  requeue-Front :
      (h : Handle) (a : ℕ)
      → IsCounted c h
      → Front c h a
      → (g : Handle) × (io_sched_requeue c h a ≡ ok g) × Same c h g
  unfolding io_sched_requeue
  requeue-Front h a v (k, b) =
      rw (io_sched_requeue, front-type h k a v b, requeue-front (at h.queues k) a b)
        (let behind = Begins-Behind k (at h.io_stats k) a (at h.queues k) b (v k) in
          let last = record b.0 { num_media_allocated = 0 } in
          (
            _,
            refl,
            record {
              counted =
                  at-put (λ j queue. Fits c j (at h.io_stats j) queue) h.queues k _
                    (
                      omega (arith, behind.size, length-append b.1 (last ∷ [])),
                      All-append (Typed c k) b.1 (last ∷ []) behind.typed (behind.front, tt),
                      (v k).2,
                    )
                    v;
              waiting_same = λ x. ground (
                arith,
                total-put (queued x) h.queues k (b.1 ++ last ∷ []),
                behind.same x,
                queued-append x b.1 (last ∷ []),
                b.2,
              );
            },
          ))

  push-Counted :
      (h g : Handle) (r : ℕ)
      → IsCounted c h
      → ((k : IoType) → at h.io_stats k + 1 < u64_mod)
      → io_sched_push_request c h r ≡ ok g
      → IsCounted c g × ((x : ℕ) → waiting x g ≡ waiting x h + one r x)
  unfolding io_sched_push_request fifo_push_request
  push-Counted h g r v room e = elim (Option-cases (c.request r).type) [
    | inl t ↦ absurd (refused (rw (io_sched_push_request, t) at e))
    | inr (k, t) ↦
        let item : QueueElement = record { reqc = r; num_media_allocated = 0 } in
        let same = done_same (rw (io_sched_push_request, t) at e) in
        rw⁻¹ same (
          at-put_both (Fits c) h.io_stats h.queues k _ _
              (
                omega (arith, (v k).0, length-append (at h.queues k) (item ∷ [])),
                All-append (Typed c k) (at h.queues k) (item ∷ []) (v k).1 (t, tt),
                room k,
              )
              v,
          λ x. ground (
            arith,
            total-put (queued x) h.queues k (at h.queues k ++ item ∷ []),
            queued-append x (at h.queues k) (item ∷ []),
          ),
        )
  ]

  -- The context at some time: what the devices are busy with changes.
  abbrev pub busy_with : ByType (List Busy) → Context
  busy_with d = record c { devices = d }

  -- The calls of the scheduler thread from `h0` on, with the requests accepted and removed so far. A
  -- request is removed or requeued only when the search just before has given it.
  pub data Steps (h0 : Handle) : Handle → List ℕ → List ℕ → Type 0 where
    start : Steps h0 h0 [] []
    pushed :
        {h g : Handle} {accepted removed : List ℕ} (r : ℕ)
        → Steps h0 h accepted removed
        → ((k : IoType) → at h.io_stats k + 1 < u64_mod)
        → io_sched_push_request c h r ≡ ok g
        → Steps h0 g (accepted ++ r ∷ []) removed
    peeked :
        {h : Handle} {accepted removed : List ℕ} (d : ByType (List Busy))
        → Steps h0 h accepted removed
        → Steps h0 (io_sched_peek_request (busy_with d) h).1 accepted removed
    taken :
        {h : Handle} {accepted removed : List ℕ} (d : ByType (List Busy)) (r : ℕ)
        → Steps h0 h accepted removed
        → (io_sched_peek_request (busy_with d) h).0 ≡ ok (some r)
        → Steps h0
            (io_sched_remove_request c (io_sched_peek_request (busy_with d) h).1 r).1
            accepted
            (removed ++ r ∷ [])
    delayed :
        {h g : Handle} {accepted removed : List ℕ} (d : ByType (List Busy)) (r : ℕ)
        → Steps h0 h accepted removed
        → (io_sched_peek_request (busy_with d) h).0 ≡ ok (some r)
        → io_sched_requeue c (io_sched_peek_request (busy_with d) h).1 r ≡ ok g
        → Steps h0 g accepted removed

  -- Whatever the calls, each count of requests is that of the requests in its scheduler, which are
  -- of its type; and no request is lost or doubled: those that wait and those removed are those
  -- that waited at first and those accepted since.
  pub Steps-IsCounted :
      {h0 h : Handle} {accepted removed : List ℕ}
      → IsCounted c h0
      → Steps h0 h accepted removed
      → IsCounted c h × ((x : ℕ) → waiting x h + times x removed ≡ waiting x h0 + times x accepted)
  Steps-IsCounted v start = (v, λ x. refl)
  Steps-IsCounted v (pushed r steps room e) =
      let (counted, same) = Steps-IsCounted v steps in
      let (after, more) = push-Counted _ _ r counted room e in
      (after, λ x. omega (arith, same x, more x, times-snoc x r _))
  Steps-IsCounted v (peeked d steps) =
      let (counted, same) = Steps-IsCounted v steps in
      let kept = (io_sched_peek_request-Same (busy_with d) _ counted).0 in
      (kept.counted, λ x. omega (arith, same x, kept.waiting_same x))
  Steps-IsCounted v (taken d r steps e) =
      let (counted, same) = Steps-IsCounted v steps in
      let (kept, front) = io_sched_peek_request-Same (busy_with d) _ counted in
      let gone = remove_request-Front _ r kept.counted (front r e) in
      (gone.1, λ x. omega (arith, same x, kept.waiting_same x, gone.2 x, times-snoc x r _))
  Steps-IsCounted v (delayed d r steps e i) =
      let (counted, same) = Steps-IsCounted v steps in
      let (kept, front) = io_sched_peek_request-Same (busy_with d) _ counted in
      let (g, j, back) = requeue-Front _ r kept.counted (front r e) in
      let g_same = done_same (sym j ∙ i) in
      (
        rw⁻¹ g_same back.counted,
        λ x. rw⁻¹ g_same (omega (arith, same x, kept.waiting_same x, back.waiting_same x)),
      )

  -- A request that the search gives is at the front of its scheduler: its removal succeeds, and so
  -- does putting it back.
  pub io_sched_peek_request-taken :
      (h : Handle) (r : ℕ)
      → IsCounted c h
      → (io_sched_peek_request c h).0 ≡ ok (some r)
      → ((io_sched_remove_request c (io_sched_peek_request c h).1 r).0 ≡ ok tt)
        × (g : Handle) × (io_sched_requeue c (io_sched_peek_request c h).1 r ≡ ok g)
  io_sched_peek_request-taken h r v e =
      let (kept, front) = io_sched_peek_request-Same c h v in
      let (g, back, _) = requeue-Front _ r kept.counted (front r e) in
      ((remove_request-Front _ r kept.counted (front r e)).0, g, back)
