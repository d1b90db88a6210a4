-- ===== src/Lrs/IoSched/Examples.antt =====
-- Schedulers with some requests and devices, and the theorems at them.
use phobos.Base.{
  ℕ, ◌+◌, ◌-◌, ◌*◌, ◌/◌, ◌≡◌, ◌≤◌, refl, ◌⊎◌, true, false, List, [], ◌∷◌, none, some, arith, ltb,
  leb, ◌==◌, if◌then◌else◌,
}
use phobos.Base.Ints.{pos}
use phobos.Base.Results.{ok}
use phobos.StringArray.CString.{Bytes, str_eq}
use phobos.Lrs.Sync.{Timespec}
use phobos.Lrs.IoSched.{IoType, read, write, format, ByType, at, times}
use phobos.Lrs.IoSched.Requests.{
  Handle, Context, by_turns, io_sched_peek_request, io_sched_remove_request, io_sched_requeue,
  peek_at, choose,
}
use phobos.Lrs.IoSched.Requests.Searched.{IsCounted, waiting}
use phobos.Lrs.IoSched.Requests.Counted.{start, taken, Steps-IsCounted, io_sched_peek_request-taken}
use phobos.Lrs.IoSched.Priority.{
  fifo_next_request, round_robin, try_read, try_write, next_scheduler, IsFirst,
  fifo_next_request-IsFirst, Heads, turn, round_robin-serves,
}
use phobos.Lrs.IoSched.Fifo.{
  Request, QueueElement, Busy, current_write_per_grouping_greater_than_max,
  fifo_limited_grouping_peek_request, peek_loop, requeue_loop, has_to_wait, ignore_grouping_on_dir,
  max_write_per_grouping, check_devices, check_arriving_write, check_ongoing_write, check_write,
  record_new_write, array_find,
}
use phobos.Lrs.IoSched.Fifo.Writers.{
  writers, nb_new, current_write_per_grouping_greater_than_max-writers,
}
use phobos.Lrs.IoSched.Fifo.Peek.{Peeked, peek, fifo_limited_grouping_peek_request-Peeked}
use phobos.Lrs.IoSched.Devices.{
  Fixed, Owners, bit, dev_is_sched_ready, of_techno, one_type, exchange, exchange_device,
  find_free_device, io_sched_claim_device,
}
use phobos.Lrs.IoSched.Devices.Owned.{Owns}
use phobos.Lrs.IoSched.Devices.Exchange.{exchange_device-Owns, io_sched_claim_device-torn}
use phobos.Lrs.IoSched.Dispatch.Moved.{IsListed}
use phobos.Lrs.IoSched.Dispatch.Listed.{each_type}
use phobos.Lrs.IoSched.Share.{
  Doubles, Range, sum, min_devices, shrink, all_maxed, max_reached,
  io_sched_compute_scheduler_weights, compute_number_of_devices,
}
use phobos.Lrs.IoSched.Share.Laws.{Laws}
use phobos.Lrs.IoSched.Share.Decrease.{Ordered, AllWithin}
use phobos.Lrs.IoSched.Share.Fair.{compute_number_of_devices-AllWithin}
use phobos.Lrs.IoSched.FairShare.{
  fair_share_number_of_requests_one_techno, Settled,
  fair_share_number_of_requests_one_techno-Settled,
}

-- Fixed-point numbers, `up` less `down` thousandths.
record Thousandths : Type 0 where
  up : ℕ
  down : ℕ

abbrev thousandths : Doubles
thousandths = record {
  F = Thousandths;
  of_size = λ n. record { up = 1000 * n; down = 0 };
  add = λ a b. record { up = a.up + b.up; down = a.down + b.down };
  sub = λ a b. record { up = a.up + b.down; down = a.down + b.up };
  div = λ a b. record { up = a.up * 1000 / b.up; down = a.down * 1000 / b.up };
  lt = λ a b. ltb (a.up + b.down) (b.up + a.down);
  floor_mul = λ w n. (w.up - w.down) * n / 1000;
}

thousandths-Laws : Laws thousandths
thousandths-Laws = record {
  le_lt = λ a b c h k. ground arith;
  lt_asym = λ a b h. ground arith;
  zero_share = λ x y. ground arith;
  zero_zero = refl;
  IsSmall = λ x. Unit;
  zero-IsSmall = tt;
  share-IsSmall = λ nb total a b h. tt;
  add-IsSmall = λ x y n s h. tt;
  headroom = λ x m s h k. ground arith;
}

abbrev grouping : Bytes
grouping = 103 ∷ []

-- Request 0 writes in a grouping, request 1 in none; both came at the second of their number.
abbrev request : ℕ → Request
request r = record {
  type = some write;
  grouping = if r == 0 then some grouping else none;
  on_dir = false;
  socket_id = r;
}

abbrev received_at : ℕ → Timespec
received_at r = record { tv_sec = r; tv_nsec = 0 }

-- A device on which socket 7 writes in the grouping.
abbrev writing : List Busy
writing =
    record {
      sub_request = none;
      ongoing_io = (7, some grouping) ∷ [];
      ongoing_partial_io_waiting_sync = [];
    }
    ∷ []

abbrev queue : List QueueElement
queue =
    record { reqc = 0; num_media_allocated = 0 } ∷ record { reqc = 1; num_media_allocated = 0 } ∷ []

fifo_limited_grouping_peek_request-Peeked_example :
    Peeked request false
      (pos 1)
      writing
      queue
      (peek request false (pos 1) writing queue).0
      (peek request false (pos 1) writing queue).1
fifo_limited_grouping_peek_request-Peeked_example =
    fifo_limited_grouping_peek_request-Peeked request false (pos 1) writing queue

current_write_per_grouping_greater_than_max-writers_example :
    current_write_per_grouping_greater_than_max request writing grouping 1
    ≡ leb 1 (nb_new [] (writers request grouping writing))
current_write_per_grouping_greater_than_max-writers_example =
    current_write_per_grouping_greater_than_max-writers request writing grouping 1 (omega arith)

fifo_next_request-IsFirst_example :
    IsFirst received_at
      (some 5)
      (some 3)
      none
      (fifo_next_request received_at (some 5) (some 3) none)
fifo_next_request-IsFirst_example = fifo_next_request-IsFirst received_at (some 5) (some 3) none

abbrev heads : Heads
heads = record { reads = some 5; writes = some 3; formats = none }

round_robin-serves_example :
    ((turn write heads).0 ≡ some 5)
    ⊎ (((turn (turn write heads).1 heads).0 ≡ some 5)
        ⊎ ((turn (turn (turn write heads).1 heads).1 heads).0 ≡ some 5))
round_robin-serves_example = round_robin-serves write read heads heads heads 5 5 5 refl refl refl

abbrev context : Context
context = record {
  request = request;
  received_at = received_at;
  next_request = by_turns;
  grouping_on_dir = false;
  max_writes = pos 1;
  devices = record { reads = []; writes = writing; formats = [] };
}

abbrev idle : Handle
idle = record {
  queues = record { reads = []; writes = []; formats = [] };
  io_stats = record { reads = 0; writes = 0; formats = 0 };
  current_scheduler = read;
}

-- Both requests wait.
abbrev loaded : Handle
loaded = record idle {
  queues = record { reads = []; writes = queue; formats = [] };
  io_stats = record { reads = 0; writes = 2; formats = 0 };
}

loaded-IsCounted : IsCounted context loaded
loaded-IsCounted =
    each_type _ (refl, tt, omega arith) (refl, (refl, (refl, tt)), omega arith)
      (refl, tt, omega arith)

-- Request 1, which goes on while request 0 waits for socket 7.
loaded_found : (io_sched_peek_request context loaded).0 ≡ ok (some 1)
unfolding io_sched_peek_request peek_at choose fifo_limited_grouping_peek_request peek_loop
    requeue_loop has_to_wait ignore_grouping_on_dir max_write_per_grouping
    current_write_per_grouping_greater_than_max check_devices check_arriving_write
    check_ongoing_write check_write record_new_write array_find str_eq round_robin try_read
    try_write next_scheduler
loaded_found = refl

Steps-IsCounted_example :
    IsCounted context (io_sched_remove_request context (io_sched_peek_request context loaded).1 1).1
    × ((x : ℕ)
        → waiting x (io_sched_remove_request context (io_sched_peek_request context loaded).1 1).1
            + times x (1 ∷ [])
          ≡ waiting x loaded + times x [])
Steps-IsCounted_example =
    Steps-IsCounted context loaded-IsCounted (taken context.devices 1 start loaded_found)

io_sched_peek_request-taken_example :
    ((io_sched_remove_request context (io_sched_peek_request context loaded).1 1).0 ≡ ok tt)
    × (g : Handle) × (io_sched_requeue context (io_sched_peek_request context loaded).1 1 ≡ ok g)
io_sched_peek_request-taken_example =
    io_sched_peek_request-taken context loaded 1 loaded-IsCounted loaded_found

-- Device 1 reads and device 2 writes; device 3 is not ready.
abbrev fixed : Fixed
fixed = record {
  technology = λ d. grouping;
  readiness = λ d. record {
    is_running = true;
    needs_sync = false;
    is_parallel_sync = false;
    sync_blocking = false;
    has_sub_request = d == 3;
    ongoing_scheduled = false;
    is_failed = false;
    is_unlocked = true;
    is_full_ongoing_io = false;
  };
}

abbrev owners : Owners
owners = record {
  devices = record { reads = 1 ∷ []; writes = 2 ∷ []; formats = 3 ∷ [] };
  ld_io_request_type = λ d. record { reads = 1 == d; writes = 2 == d; formats = 3 == d };
}

owners-Owns : Owns owners
owners-Owns = λ d. (
  each_type (λ k. times d (at owners.devices k) ≡ bit (at (owners.ld_io_request_type d) k))
      (ground arith) (ground arith) (ground arith),
  ground arith,
)

exchange_device-Owns_example :
    (g : Owners) × (exchange_device fixed read 2 owners ≡ ok (g, none))
    × Owns g
    × ((g.ld_io_request_type 2 ≡ one_type read)
        ⊎ ((find_free_device fixed (at owners.devices read) ≡ none) × (g ≡ owners)))
unfolding dev_is_sched_ready
exchange_device-Owns_example = exchange_device-Owns fixed read 2 owners owners-Owns refl refl

io_sched_claim_device-torn_example :
    (g : Owners) × (io_sched_claim_device fixed read (exchange 3 1) owners ≡ ok (g, none))
    × ((j : IoType) → times 3 (at g.devices j) ≡ 0)
    × (times 1 (at g.devices read) ≡ 1)
    × (times 1 (at g.devices format) ≡ 1)
    × (g.ld_io_request_type 1 ≡ one_type format)
unfolding dev_is_sched_ready
io_sched_claim_device-torn_example =
    io_sched_claim_device-torn fixed read format 3 1 owners owners-Owns refl refl refl refl refl

abbrev stats : ByType ℕ
stats = record { reads = 3; writes = 1; formats = 0 }

abbrev ranges : ByType Range
ranges = record {
  reads = record { low = 1; high = 4 };
  writes = record { low = 1; high = 4 };
  formats = record { low = 1; high = 1 };
}

ranges-Ordered : Ordered ranges
ranges-Ordered =
    each_type (λ k. (at ranges k).low ≤ (at ranges k).high) (omega arith) (omega arith)
      (omega arith)

compute_number_of_devices-AllWithin_example :
    (rep : ByType ℕ) × (compute_number_of_devices thousandths stats
        (io_sched_compute_scheduler_weights thousandths stats)
        ranges
        4
        (min_devices stats ranges)
      ≡ some rep)
    × AllWithin (shrink 4 (min_devices stats ranges) ranges) stats rep
    × (sum rep ≤ 4)
    × ((sum rep ≡ 4)
        ⊎ (all_maxed (max_reached stats rep (shrink 4 (min_devices stats ranges) ranges)) ≡ true))
compute_number_of_devices-AllWithin_example =
    compute_number_of_devices-AllWithin thousandths thousandths-Laws stats ranges 4 (omega arith)
      refl ranges-Ordered

-- Device 4 is new.
abbrev devices : List ℕ
devices = 1 ∷ 2 ∷ 3 ∷ 4 ∷ []

devices-IsListed : IsListed fixed grouping devices owners
unfolding str_eq of_techno
devices-IsListed = record {
  once = λ d. ground arith;
  fitting = (refl, (refl, (refl, (refl, tt))));
  known = each_type _ (refl, tt) (refl, tt) (refl, tt);
}

fair_share_number_of_requests_one_techno-Settled_example :
    (g : Owners) × (rep : ByType ℕ) × (fair_share_number_of_requests_one_techno fixed grouping
        thousandths stats ranges devices owners
      ≡ ok g)
    × (compute_number_of_devices thousandths stats
          (io_sched_compute_scheduler_weights thousandths stats)
          ranges
          4
          (min_devices stats ranges)
        ≡ some rep)
    × AllWithin (shrink 4 (min_devices stats ranges) ranges) stats rep
    × Settled fixed grouping rep g
fair_share_number_of_requests_one_techno-Settled_example =
    fair_share_number_of_requests_one_techno-Settled fixed grouping thousandths thousandths-Laws
      stats ranges devices owners (omega arith) refl ranges-Ordered owners-Owns devices-IsListed
