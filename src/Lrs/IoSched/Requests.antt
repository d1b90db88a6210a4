-- ===== src/Lrs/IoSched/Requests.antt =====
-- The requests of the three schedulers, whose queues are those of fifo.c: src/lrs/io_sched.c.
pub mod Searched
pub mod Counted
use phobos.Base.{ℕ, ◌+◌, ◌≡◌, Bool, List, Option, none, some, ◌==◌, if◌then◌else◌}
use phobos.Base.Ints.{ℤ}
use phobos.Base.Words.{sub64}
use phobos.Base.Results.{Result, ok, err, abort, einval}
use phobos.Lrs.Sync.{Timespec}
use phobos.Lrs.IoSched.{IoType, read, write, format, ByType, at, put}
use phobos.Lrs.IoSched.Priority.{fifo_next_request, round_robin}
use phobos.Lrs.IoSched.Fifo.{
  Request, QueueElement, Busy, fifo_push_request, fifo_remove_request, fifo_requeue,
  fifo_limited_grouping_peek_request,
}

-- The callback next_request, which the configuration sets.
pub data NextRequest : Type 0 where
  by_age by_turns : NextRequest

-- What the functions on requests change: the queues, the counts and the turn of the round robin.
pub record Handle : Type 0 where
  pub queues : ByType (List QueueElement)
  pub io_stats : ByType ℕ
  pub current_scheduler : IoType

-- What they only read; `devices` are those of each scheduler.
pub record Context : Type 0 where
  pub request : ℕ → Request
  pub received_at : ℕ → Timespec
  pub next_request : NextRequest
  pub grouping_on_dir : Bool
  pub max_writes : ℤ
  pub devices : ByType (List Busy)

-- The result of an operation of a scheduler on its queue.
abbrev with_queue : Handle → IoType → Result (List QueueElement) → Result Handle
with_queue h k (ok queue) = ok (record h { queues = put h.queues k queue })
with_queue h k (err e) = err e
with_queue h k abort = abort

module _ (c : Context) where
  unfoldable pub io_sched_push_request : Handle → ℕ → Result Handle
  io_sched_push_request h r = elim (c.request r).type [
    | none ↦ err einval
    | some k ↦ ok (record h {
      io_stats = put h.io_stats k (at h.io_stats k + 1);
      queues = put h.queues k (fifo_push_request (at h.queues k) r);
    })
  ]

  unfoldable pub io_sched_requeue : Handle → ℕ → Result Handle
  io_sched_requeue h r = elim (c.request r).type [
    | none ↦ err einval
    | some k ↦ with_queue h k (fifo_requeue (at h.queues k) r)
  ]

  -- The handle comes with the return code, since the count is changed also on an error.
  unfoldable pub io_sched_remove_request : Handle → ℕ → Result (Unit {0}) × Handle
  io_sched_remove_request h r = elim (c.request r).type [
    | none ↦ (err einval, h)
    | some k ↦
        let counted = record h { io_stats = put h.io_stats k (sub64 (at h.io_stats k) 1) } in
        elim (fifo_remove_request (at h.queues k) r) [
          | ok queue ↦ (ok tt, record counted { queues = put h.queues k queue })
          | err e ↦ (err e, counted)
          | abort ↦ (abort, counted)
        ]
  ]

  -- A scheduler's next request.
  unfoldable pub peek_at : IoType → Handle → Result (Option ℕ) × Handle
  peek_at k h =
      let (found, queue) =
        fifo_limited_grouping_peek_request c.request c.grouping_on_dir c.max_writes (at c.devices k)
          (at h.queues k) in
      (found, record h { queues = put h.queues k queue })

  unfoldable pub choose : Handle → Option ℕ → Option ℕ → Option ℕ → Option ℕ × Handle
  choose h r w f = elim c.next_request [
    | by_age ↦ (fifo_next_request c.received_at r w f, h)
    | by_turns ↦
        let (next, turn) = round_robin h.current_scheduler r w f in
        (next, record h { current_scheduler = turn })
  ]

  -- A call that goes on with the request found, and stops on an error.
  abbrev pub then_with :
      {A : Type 0}
      → Result (Option ℕ) × Handle
      → (Option ℕ → Handle → Result A × Handle)
      → Result A × Handle
  then_with (ok r, h) f = f r h
  then_with (err e, h) f = (err e, h)
  then_with (abort, h) f = (abort, h)

  unfoldable pub io_sched_peek_request : Handle → Result (Option ℕ) × Handle
  io_sched_peek_request h = then_with (peek_at read h) λ r h1. then_with (peek_at write h1) λ w h2.
      then_with (peek_at format h2) λ f h3. let (next, h4) = choose h3 r w f in (ok next, h4)
