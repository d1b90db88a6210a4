-- ===== src/Lrs/IoSched/Fifo/Peek.antt =====
-- The search of src/lrs/io_schedulers/fifo.c for the first request that may go on.
use phobos.Base.{
  All-append, ℕ, ◌≡◌, refl, sym, ◌∙◌, Bool, true, false, List, [], ◌∷◌, ◌++◌, Option, none, some,
  All, inl, inr, Bool-cases, ◌⊎◌, Option-cases, not, ◌&&◌, ltb,
}
use mathlib.Core.List.{append_assoc, append-nil}
use phobos.Base.Ints.{ℤ, pos, negsuc}
use phobos.Base.Results.{Result, ok, err, Errno, einval}
use phobos.Lrs.IoSched.Fifo.{
  Request, QueueElement, Busy, has_to_wait, peek_loop, requeue_loop, max_write_per_grouping,
  fifo_limited_grouping_peek_request, current_write_per_grouping_greater_than_max, is_write,
  ignore_grouping_on_dir,
}

max_write-cases :
    (c : ℤ)
    → ((n : ℕ) × (max_write_per_grouping c ≡ ok n)) ⊎ (max_write_per_grouping c ≡ err einval)
unfolding max_write_per_grouping
max_write-cases (pos n) = inl (n, refl)
max_write-cases (negsuc n) = inr refl

requeue_loop-append :
    (queue requeued : List QueueElement) → requeue_loop queue requeued ≡ queue ++ requeued
unfolding requeue_loop
requeue_loop-append queue [] = sym (append-nil queue)
requeue_loop-append queue (e ∷ requeued) =
    requeue_loop-append (queue ++ e ∷ []) requeued ∙ append_assoc queue (e ∷ []) requeued

module _ (request : ℕ → Request) (on_dir : Bool) (cfg_max : ℤ) (devices : List Busy) where
  abbrev pub waits : Request → Result Bool
  waits r = has_to_wait request on_dir cfg_max devices r

  abbrev pub Waits : QueueElement → Type 0
  Waits e = waits (request e.reqc) ≡ ok true

  -- What a search in a queue may give, with the queue after it: no request, if all of them have to
  -- wait; or the first one that does not have to, at which the queue then begins, with those before
  -- it moved to the end, in order; or an error at the first one that cannot be told to wait or not.
  pub data Peeked (queue : List QueueElement) : Result (Option ℕ) → List QueueElement → Type 0 where
    idle : All Waits queue → Peeked queue (ok none) queue
    found :
        (skipped rest : List QueueElement) (e : QueueElement)
        → queue ≡ skipped ++ e ∷ rest
        → All Waits skipped
        → waits (request e.reqc) ≡ ok false
        → Peeked queue (ok (some e.reqc)) (e ∷ rest ++ skipped)
    failed :
        (skipped rest : List QueueElement) (e : QueueElement) (code : Errno)
        → queue ≡ skipped ++ e ∷ rest
        → All Waits skipped
        → waits (request e.reqc) ≡ err code
        → Peeked queue (err code) (e ∷ rest ++ skipped)

  abbrev pub peek : List QueueElement → Result (Option ℕ) × List QueueElement
  peek queue = fifo_limited_grouping_peek_request request on_dir cfg_max devices queue

  -- An answer is given for every request.
  waits-cases :
      (r : Request)
      → (waits r ≡ ok true) ⊎ ((waits r ≡ ok false) ⊎ ((code : Errno) × (waits r ≡ err code)))
  unfolding has_to_wait
  waits-cases r = elim (Option-cases r.grouping) [
    | inl e ↦ rw (e, has_to_wait) (inr (inl refl))
    | inr (g, e) ↦
        elim (Bool-cases
          (is_write r && not (ignore_grouping_on_dir request on_dir cfg_max devices r))) [
            | inl limited ↦
                rw (e, has_to_wait, limited)
                  (elim (max_write-cases cfg_max) [
                    | inl (m, k) ↦
                        rw k
                          (elim (Bool-cases (
                            ltb 0 m
                            && current_write_per_grouping_greater_than_max request devices g m)) [
                              | inl full ↦ rw full (inl refl)
                              | inr room ↦ rw room (inr (inl refl))
                            ])
                    | inr k ↦ rw k (inr (inr (einval, refl)))
                  ])
            | inr free ↦ rw (e, has_to_wait, free) (inr (inl refl))
          ]
  ]

  peek_loop-Peeked :
      (queue requeued : List QueueElement)
      → All Waits requeued
      → Peeked (requeued ++ queue) (peek_loop request on_dir cfg_max devices queue requeued).0 (
          requeue_loop
            (peek_loop request on_dir cfg_max devices queue requeued).1.0
            (peek_loop request on_dir cfg_max devices queue requeued).1.1)
  unfolding peek_loop
  peek_loop-Peeked [] requeued w =
      rw (requeue_loop-append [] requeued, append-nil requeued) (idle w)
  peek_loop-Peeked (e ∷ queue) requeued w = elim (waits-cases (request e.reqc)) [
    | inl wait ↦
        rw (wait, peek_loop)
          (rw (sym (append_assoc requeued (e ∷ []) queue)) (
            peek_loop-Peeked queue (requeued ++ e ∷ [])
              (All-append Waits requeued (e ∷ []) w (wait, tt))))
    | inr (inl free) ↦
        rw (free, peek_loop)
          (rw (requeue_loop-append (e ∷ queue) requeued) (found requeued queue e refl w free))
    | inr (inr (code, bad)) ↦
        rw (bad, peek_loop)
          (rw (requeue_loop-append (e ∷ queue) requeued) (failed requeued queue e code refl w bad))
  ]

  -- The search for the next request always ends with an answer. Either all requests of the queue
  -- have to wait for other writes of their grouping, and the queue is as before; or it gives the
  -- first request that does not have to, and the queue begins with this one afterwards, the
  -- requests passed over being at its end in their order; or it fails at the first request for
  -- which the configured limit is bad, and the queue is turned in the same way.
  pub fifo_limited_grouping_peek_request-Peeked :
      (queue : List QueueElement) → Peeked queue (peek queue).0 (peek queue).1
  unfolding fifo_limited_grouping_peek_request
  fifo_limited_grouping_peek_request-Peeked queue = peek_loop-Peeked queue [] tt
