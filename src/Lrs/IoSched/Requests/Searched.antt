-- ===== src/Lrs/IoSched/Requests/Searched.antt =====
-- The search for the next request in src/lrs/io_sched.c: it keeps the requests that wait.
use phobos.Base.{
  All-append, ℕ, suc, ◌+◌, ◌≡◌, ◌<◌, refl, ◌∙◌, ap, ◌⊎◌, ◌≢◌, inl, inr, List, [], ◌∷◌, ◌++◌, Option,
  none, some, arith, All, length, length-append, ◌==◌, if◌then◌else◌,
}
use phobos.Base.Words.{u64_mod}
use phobos.Base.Results.{Result, ok, err, abort}
use phobos.Lrs.IoSched.{IoType, read, write, format, at, total, total-put, at-put}
use phobos.Lrs.Sync.{Timespec}
use phobos.Lrs.IoSched.Priority.{
  round_robin, try_read, try_write, try_format, IsFirst, fifo_next_request-IsFirst,
}
use phobos.Lrs.IoSched.Fifo.{QueueElement}
use phobos.Lrs.IoSched.Fifo.Peek.{
  Peeked, peek, idle, found, failed, fifo_limited_grouping_peek_request-Peeked,
}
use phobos.Lrs.IoSched.Requests.{
  Handle, Context, peek_at, choose, NextRequest, by_age, by_turns, then_with, io_sched_peek_request,
}

abbrev pub queued : ℕ → List QueueElement → ℕ
queued x [] = 0
queued x (e ∷ es) = if e.reqc == x then suc (queued x es) else queued x es

-- How often a request waits in some scheduler.
abbrev pub waiting : ℕ → Handle → ℕ
waiting x h = total (queued x) h.queues

pub queued-append :
    (x : ℕ) (es fs : List QueueElement) → queued x (es ++ fs) ≡ queued x es + queued x fs
queued-append x [] fs = omega arith
queued-append x (e ∷ es) fs = ground (arith, queued-append x es fs)

All-append-inv {ℓ κ} :
    {A : Type ℓ} (P : A → Type κ) (xs ys : List A) → All P (xs ++ ys) → All P xs × All P ys
All-append-inv P [] ys a = (tt, a)
All-append-inv P (x ∷ xs) ys a =
    let (first, second) = All-append-inv P xs ys a.1 in ((a.0, first), second)

answer : Result (Option ℕ) → Option ℕ
answer (ok r) = r
answer _ = none

found_same : {a b : Option ℕ} → Path (Result (Option ℕ)) (ok a) (ok b) → a ≡ b
unfolding answer
found_same e = ap answer e

-- What a call that may stop leaves, from what both ways leave.
then_with-cases {κ} :
    {A : Type 0} (c : Context) (P : Result A × Handle → Type κ) (m : Result (Option ℕ) × Handle)
    (f : Option ℕ → Handle → Result A × Handle)
    → ((r : Option ℕ) → m.0 ≡ ok r → P (f r m.1))
    → ((e : Result A) → ((a : A) → e ≢ ok a) → P (e, m.1))
    → P (then_with c m f)
then_with-cases c P (ok r, h) f good bad = good r refl
then_with-cases c P (err e, h) f good bad = bad (err e) (λ a i. cc)
then_with-cases c P (abort, h) f good bad = bad abort (λ a i. cc)

-- A choice gives one of the requests that it is given.
abbrev Among : Option ℕ → Option ℕ → Option ℕ → ℕ → Type 0
Among r w f a = (r ≡ some a) ⊎ ((w ≡ some a) ⊎ (f ≡ some a))

first-Among :
    (t : ℕ → Timespec) (r w f o : Option ℕ) (a : ℕ) → IsFirst t r w f o → o ≡ some a → Among r w f a
first-Among t r w f none a i e = cc
first-Among t r w f (some b) a i e = rw⁻¹ e i.0

turn-Among :
    (c : IoType) (r w f : Option ℕ) (a : ℕ) → (round_robin c r w f).0 ≡ some a → Among r w f a
unfolding round_robin try_read try_write try_format
turn-Among c r w f a e = ground arith

next-cases : (n : NextRequest) → (n ≡ by_age) ⊎ (n ≡ by_turns)
next-cases by_age = inl refl
next-cases by_turns = inr refl

module _ (c : Context) where
  abbrev pub Typed : IoType → QueueElement → Type 0
  Typed k e = (c.request e.reqc).type ≡ some k

  -- A count and a queue of a scheduler that fit.
  abbrev pub Fits : IoType → ℕ → List QueueElement → Type 0
  Fits k n queue = (n ≡ length queue) × All (Typed k) queue × (n < u64_mod)

  -- Each count is the number of requests in the scheduler, and these are of its type.
  abbrev pub IsCounted : Handle → Type 0
  IsCounted h = (k : IoType) → Fits k (at h.io_stats k) (at h.queues k)

  -- A queue that begins with a request.
  abbrev pub Begins : List QueueElement → ℕ → Type 0
  Begins queue r =
      (e : QueueElement) × (rest : List QueueElement) × (queue ≡ e ∷ rest) × (e.reqc ≡ r)

  -- The same requests in another order.
  record Kept (k : IoType) (queue after : List QueueElement) : Type 0 where
    size : length after ≡ length queue
    typed : All (Typed k) after
    same : (x : ℕ) → queued x after ≡ queued x queue

  turn-Kept :
      (k : IoType) (queue skipped rest : List QueueElement)
      → queue ≡ skipped ++ rest
      → All (Typed k) queue
      → Kept k queue (rest ++ skipped)
  turn-Kept k queue skipped rest e t =
      let (first, second) = All-append-inv (Typed k) skipped rest (rw e at t) in
      record {
        size = rw e (omega (arith, length-append rest skipped, length-append skipped rest));
        typed = All-append (Typed k) rest skipped second first;
        same =
            λ x. rw e (omega (arith, queued-append x rest skipped, queued-append x skipped rest));
      }

  -- A search keeps the requests, and puts the one found at the front.
  Peeked-Kept :
      (k : IoType) (queue : List QueueElement) (r : Result (Option ℕ)) (after : List QueueElement)
      → All (Typed k) queue
      → Peeked c.request c.grouping_on_dir c.max_writes (at c.devices k) queue r after
      → Kept k queue after × ((a : ℕ) → r ≡ ok (some a) → Begins after a)
  Peeked-Kept k queue _ _ t (idle w) =
      (record { size = refl; typed = t; same = λ x. refl }, λ a e. cc)
  Peeked-Kept k queue _ _ t (found skipped rest e q w free) = (
    turn-Kept k queue skipped (e ∷ rest) q t,
    λ a i. (e, rest ++ skipped, refl, ground (arith, found_same i)),
  )
  Peeked-Kept k queue _ _ t (failed skipped rest e code q w bad) =
      (turn-Kept k queue skipped (e ∷ rest) q t, λ a i. cc)

  choose-Among :
      (h : Handle) (r w f : Option ℕ) (a : ℕ) → (choose c h r w f).0 ≡ some a → Among r w f a
  unfolding choose
  choose-Among h r w f a e = elim (next-cases c.next_request) [
    | inl n ↦
        first-Among c.received_at r w f _ a (fifo_next_request-IsFirst c.received_at r w f)
          (rw (n, choose) at e)
    | inr n ↦ turn-Among h.current_scheduler r w f a (rw (n, choose) at e)
  ]

  choose-kept :
      (h : Handle) (r w f : Option ℕ)
      → ((choose c h r w f).1.queues ≡ h.queues) × ((choose c h r w f).1.io_stats ≡ h.io_stats)
  unfolding choose
  choose-kept h r w f = elim (next-cases c.next_request) [
    | inl n ↦ rw (n, choose) (refl, refl)
    | inr n ↦ rw (n, choose) (refl, refl)
  ]

  -- A handle with the same requests and counts that fit.
  pub record Same (h g : Handle) : Type 0 where
    pub counted : IsCounted g
    pub waiting_same : (x : ℕ) → waiting x g ≡ waiting x h

  abbrev peeked : IoType → Handle → List QueueElement
  peeked k h = (peek c.request c.grouping_on_dir c.max_writes (at c.devices k) (at h.queues k)).1

  peek_at-Kept :
      (k : IoType) (h : Handle)
      → IsCounted h
      → Kept k (at h.queues k) (peeked k h)
        × ((a : ℕ) → (peek_at c k h).0 ≡ ok (some a) → Begins (peeked k h) a)
  unfolding peek_at
  peek_at-Kept k h v = Peeked-Kept k (at h.queues k) _ _ (v k).1 (
      fifo_limited_grouping_peek_request-Peeked c.request c.grouping_on_dir c.max_writes
        (at c.devices k) (at h.queues k))

  peek_at-Same : (k : IoType) (h : Handle) → IsCounted h → Same h (peek_at c k h).1
  unfolding peek_at
  peek_at-Same k h v =
      let kept = (peek_at-Kept k h v).0 in
      record {
        counted =
            at-put (λ j queue. Fits j (at h.io_stats j) queue) h.queues k (peeked k h)
              (rw kept.size (v k).0, kept.typed, (v k).2) v;
        waiting_same =
            λ x. omega (arith, total-put (queued x) h.queues k (peeked k h), kept.same x);
      }

  -- A scheduler that begins with a request of its type.
  abbrev pub Front : Handle → ℕ → Type 0
  Front h a = (k : IoType) × Begins (at h.queues k) a

  Same-trans : (h g f : Handle) → Same h g → Same g f → Same h f
  Same-trans h g f a b = record {
    counted = b.counted;
    waiting_same = λ x. omega (arith, a.waiting_same x, b.waiting_same x);
  }

  -- What is chosen is at the front, where the queues are those after the three searches.
  choose-Same :
      (h g : Handle) (r w f : Option ℕ)
      → Same h g
      → ((a : ℕ) → r ≡ some a → Begins g.queues.reads a)
      → ((a : ℕ) → w ≡ some a → Begins g.queues.writes a)
      → ((a : ℕ) → f ≡ some a → Begins g.queues.formats a)
      → Same h (choose c g r w f).1
        × ((a : ℕ)
            → Path (Result (Option ℕ)) (ok (choose c g r w f).0) (ok (some a))
            → Front (choose c g r w f).1 a)
  choose-Same h g r w f s x y z =
      let (queues, stats) = choose-kept g r w f in
      (
        record {
          counted = λ k. rw (queues, stats) (s.counted k);
          waiting_same = λ a. rw queues (s.waiting_same a);
        },
        λ a e. elim (choose-Among g r w f a (found_same e)) [
          | inl i ↦ (read, rw queues (x a i))
          | inr (inl i) ↦ (write, rw queues (y a i))
          | inr (inr i) ↦ (format, rw queues (z a i))
        ],
      )

  -- A search among the schedulers keeps the requests, and one that it gives is at the front.
  pub io_sched_peek_request-Same :
      (h : Handle)
      → IsCounted h
      → Same h (io_sched_peek_request c h).1
        × ((a : ℕ)
            → (io_sched_peek_request c h).0 ≡ ok (some a)
            → Front (io_sched_peek_request c h).1 a)
  unfolding io_sched_peek_request peek_at
  io_sched_peek_request-Same h v =
      let P = λ (out : Result (Option ℕ) × Handle).
        Same h out.1 × ((a : ℕ) → out.0 ≡ ok (some a) → Front out.1 a) in
      let h1 = (peek_at c read h).1 in
      let s1 = peek_at-Same read h v in
      let h2 = (peek_at c write h1).1 in
      let s2 = Same-trans h h1 h2 s1 (peek_at-Same write h1 s1.counted) in
      let h3 = (peek_at c format h2).1 in
      let s3 = Same-trans h h2 h3 s2 (peek_at-Same format h2 s2.counted) in
      then_with-cases c P (peek_at c read h) _
        (λ r er.
          then_with-cases c P (peek_at c write h1) _
            (λ w ew.
              then_with-cases c P (peek_at c format h2) _
                (λ f ef.
                  choose-Same h h3 r w f s3 (λ a i. (peek_at-Kept read h v).1 a (er ∙ ap ok i))
                    (λ a i. (peek_at-Kept write h1 s1.counted).1 a (ew ∙ ap ok i))
                    (λ a i. (peek_at-Kept format h2 s2.counted).1 a (ef ∙ ap ok i)))
                (λ e n. (s3, λ a i. absurd (n _ i))))
            (λ e n. (s2, λ a i. absurd (n _ i))))
        (λ e n. (s1, λ a i. absurd (n _ i)))
