-- ===== src/Lrs/IoSched/Fifo.antt =====
-- The queue of requests of a scheduler: src/lrs/io_schedulers/fifo.c. A request container is named
-- by a number. The list is the GQueue from its tail on, where the requests are taken, so that
-- g_queue_push_head appends an item.
pub mod Writers
pub mod Peek
use phobos.Base.{
  ℕ, ◌≡◌, Bool, true, false, not, ◌&&◌, ◌||◌, List, [], ◌∷◌, ◌++◌, Option, none, some, arith, ◌==◌,
  leb, ltb, ◌+◌, length, if◌then◌else◌,
}
use phobos.Base.Ints.{ℤ, pos, negsuc}
use phobos.Base.Results.{Result, ok, err, abort, einval, ◌>>=◌}
use phobos.StringArray.CString.{Bytes, str_eq}
use phobos.Lrs.IoSched.{IoType, read, write, format, same_type}

-- What the queue uses of a request; `type` is none for any other request.
pub record Request : Type 0 where
  pub type : Option IoType
  pub grouping : Option Bytes
  -- its family is PHO_RSC_DIR
  pub on_dir : Bool
  pub socket_id : ℕ

pub record QueueElement : Type 0 where
  pub reqc : ℕ
  pub num_media_allocated : ℕ

unfoldable pub fifo_push_request : List QueueElement → ℕ → List QueueElement
fifo_push_request queue r = queue ++ record { reqc = r; num_media_allocated = 0 } ∷ []

unfoldable pub is_reqc_the_first_element : List QueueElement → ℕ → Bool
is_reqc_the_first_element [] r = false
is_reqc_the_first_element (e ∷ queue) r = e.reqc == r

unfoldable pub fifo_remove_request : List QueueElement → ℕ → Result (List QueueElement)
fifo_remove_request [] r = err einval
fifo_remove_request (e ∷ queue) r =
    if not (is_reqc_the_first_element (e ∷ queue) r) then err einval else ok queue

unfoldable pub fifo_requeue : List QueueElement → ℕ → Result (List QueueElement)
fifo_requeue [] r = err einval
fifo_requeue (e ∷ queue) r =
    if not (is_reqc_the_first_element (e ∷ queue) r)
    then err einval
    else ok (queue ++ record e { num_media_allocated = 0 } ∷ [])

-- The value of the parameter; the source keeps it from the first call on, unless it is negative.
unfoldable pub max_write_per_grouping : ℤ → Result ℕ
max_write_per_grouping (pos n) = ok n
max_write_per_grouping (negsuc n) = err einval

-- The number of writes found, and the sockets that they came from.
pub record Writes : Type 0 where
  pub nb_write : ℕ
  pub socket_id_array : List ℕ

unfoldable pub array_find : List ℕ → ℕ → Bool
array_find [] s = false
array_find (t ∷ ts) s = t == s || array_find ts s

unfoldable pub record_new_write : ℕ → ℕ → Writes → Bool × Writes
record_new_write max socket w =
    if leb max (w.nb_write + 1) then (true, record w { nb_write = w.nb_write + 1 }) else (
      false,
      record { nb_write = w.nb_write + 1; socket_id_array = w.socket_id_array ++ socket ∷ [] },
    )

-- The rest of a search, unless it has found as many writes as allowed.
abbrev pub unless_full : Bool × Writes → (Writes → Bool × Writes) → Bool × Writes
unless_full (true, w) f = (true, w)
unless_full (false, w) f = f w

abbrev pub has_grouping : Option Bytes → Bytes → Bool
has_grouping none g = false
has_grouping (some h) g = str_eq h g

unfoldable pub check_write : ℕ → Bytes → ℕ → Option Bytes → Writes → Bool × Writes
check_write max g socket grouping w =
    if has_grouping grouping g && not (array_find w.socket_id_array socket)
    then record_new_write max socket w
    else (false, w)

-- A table from sockets to groupings, in the order of its iteration.
unfoldable pub check_ongoing_write : ℕ → Bytes → List (ℕ × Option Bytes) → Writes → Bool × Writes
check_ongoing_write max g [] w = (false, w)
check_ongoing_write max g ((socket, grouping) ∷ ongoing) w =
    unless_full (check_write max g socket grouping w) (check_ongoing_write max g ongoing)

-- The requeued items back into the queue.
unfoldable pub requeue_loop : List QueueElement → List QueueElement → List QueueElement
requeue_loop queue [] = queue
requeue_loop queue (e ∷ requeued) = requeue_loop (queue ++ e ∷ []) requeued

-- What the search uses of a device.
pub record Busy : Type 0 where
  pub sub_request : Option ℕ
  pub ongoing_io : List (ℕ × Option Bytes)
  pub ongoing_partial_io_waiting_sync : List (ℕ × Option Bytes)

abbrev pub is_write : Request → Bool
is_write r = elim r.type [ some write ↦ true | _ ↦ false ]

module _ (request : ℕ → Request) where
  -- The request that arrives at a device.
  unfoldable pub check_arriving_write : ℕ → Bytes → Option ℕ → Writes → Bool × Writes
  check_arriving_write max g none w = (false, w)
  check_arriving_write max g (some r) w =
      if is_write (request r)
      then check_write max g (request r).socket_id (request r).grouping w
      else (false, w)

  unfoldable pub check_devices : ℕ → Bytes → List Busy → Writes → Bool × Writes
  check_devices max g [] w = (false, w)
  check_devices max g (dev ∷ devices) w =
      unless_full
        (unless_full
          (unless_full (check_arriving_write max g dev.sub_request w)
            (check_ongoing_write max g dev.ongoing_io))
          (check_ongoing_write max g dev.ongoing_partial_io_waiting_sync))
        (check_devices max g devices)

  unfoldable pub current_write_per_grouping_greater_than_max : List Busy → Bytes → ℕ → Bool
  current_write_per_grouping_greater_than_max devices g max =
      (check_devices max g devices (record { nb_write = 0; socket_id_array = [] })).0

  -- The configuration: whether directories have groupings, and the limit.
  module _ (grouping_on_dir : Bool) (cfg_max : ℤ) (devices : List Busy) where
    unfoldable pub ignore_grouping_on_dir : Request → Bool
    ignore_grouping_on_dir r = r.on_dir && not grouping_on_dir

    -- Whether the request has to wait for other writes in its grouping.
    unfoldable pub has_to_wait : Request → Result Bool
    has_to_wait r = elim r.grouping [
      | none ↦ ok false
      | some g ↦
          if is_write r && not (ignore_grouping_on_dir r)
          then (max_write_per_grouping cfg_max >>= λ m.
              ok (ltb 0 m && current_write_per_grouping_greater_than_max devices g m))
          else ok false
    ]

    -- The loop takes the items that have to wait off the queue; the last list has them in order.
    unfoldable pub peek_loop :
        List QueueElement
        → List QueueElement
        → Result (Option ℕ) × (List QueueElement × List QueueElement)
    peek_loop [] requeued = (ok none, ([], requeued))
    peek_loop (e ∷ queue) requeued = elim (has_to_wait (request e.reqc)) [
      | ok true ↦ peek_loop queue (requeued ++ e ∷ [])
      | ok false ↦ (ok (some e.reqc), (e ∷ queue, requeued))
      | err code ↦ (err code, (e ∷ queue, requeued))
      | abort ↦ (abort, (e ∷ queue, requeued))
    ]

    unfoldable pub fifo_limited_grouping_peek_request :
        List QueueElement → Result (Option ℕ) × List QueueElement
    fifo_limited_grouping_peek_request queue =
        let (found, (left, requeued)) = peek_loop queue [] in (found, requeue_loop left requeued)
