-- ===== src/Lrs/IoSched/Devices.antt =====
-- The devices of the schedulers, and how they go from one to another: the device functions of
-- src/lrs/io_schedulers/fifo.c and io_sched_claim_device of src/lrs/io_sched.c. A device is named by
-- a number.

pub mod Bits
pub mod Owned
pub mod Exchange
use phobos.Base.{
  ℕ, suc, ◌+◌, Bool, true, false, not, ◌&&◌, ◌||◌, List, [], ◌∷◌, ◌++◌, Option, none, some, ◌==◌,
  leb, if◌then◌else◌,
}
use phobos.Base.Results.{Result, ok, err, abort, fail_if, ◌>>◌, or_abort, einval, enodev, enotsup}
use phobos.Base.{assert}
use phobos.StringArray.CString.{Bytes, str_eq}
use phobos.Lrs.Sync.{remove_index_fast}
use phobos.Lrs.IoSched.{IoType, read, write, format, ByType, at, put, same_type}

-- What dev_is_sched_ready looks at.
pub record Readiness : Type 0 where
  pub is_running : Bool
  pub needs_sync : Bool
  pub is_parallel_sync : Bool
  pub sync_blocking : Bool
  pub has_sub_request : Bool
  pub ongoing_scheduled : Bool
  pub is_failed : Bool
  pub is_unlocked : Bool
  pub is_full_ongoing_io : Bool

unfoldable pub dev_is_sched_ready : Readiness → Bool
dev_is_sched_ready d =
    d.is_running
    && (not d.needs_sync || (d.is_parallel_sync && not d.sync_blocking))
    && not d.has_sub_request
    && not d.ongoing_scheduled
    && not d.is_failed
    && d.is_unlocked
    && not d.is_full_ongoing_io

-- What is fixed of the devices in a pass of the scheduler thread.
pub record Fixed : Type 0 where
  pub technology : ℕ → Bytes
  pub readiness : ℕ → Readiness

-- The devices of each scheduler, and the bits of `ld_io_request_type` of each device.
pub record Owners : Type 0 where
  pub devices : ByType (List ℕ)
  pub ld_io_request_type : ℕ → ByType Bool

abbrev pub no_type : ByType Bool
no_type = record { reads = false; writes = false; formats = false }

abbrev pub one_type : IoType → ByType Bool
one_type k = put no_type k true

-- A write of the bits of a device.
abbrev pub set_types : ℕ → ByType Bool → (ℕ → ByType Bool) → ℕ → ByType Bool
set_types d bits types = λ e. if d == e then bits else types e

abbrev pub bit : Bool → ℕ
bit true = 1
bit false = 0

abbrev pub popcount : ByType Bool → ℕ
popcount b = bit b.reads + bit b.writes + bit b.formats

unfoldable pub is_device_shared_between_schedulers : ByType Bool → Bool
is_device_shared_between_schedulers b = not (popcount b == 0)

unfoldable pub gptr_array_contains : List ℕ → ℕ → Bool
gptr_array_contains [] d = false
gptr_array_contains (e ∷ es) d = if e == d then true else gptr_array_contains es d

unfoldable pub fifo_add_device : List ℕ → ℕ → List ℕ
fifo_add_device devices d = if gptr_array_contains devices d then devices else devices ++ d ∷ []

-- g_ptr_array_remove: the first place of the device, the others keep their order.
unfoldable pub fifo_remove_device : List ℕ → ℕ → List ℕ
fifo_remove_device [] d = []
fifo_remove_device (e ∷ es) d = if e == d then es else e ∷ fifo_remove_device es d

-- The data of a claim.
pub data Claim : Type 0 where
  take_techno : Bytes → Claim
  exchange : ℕ → ℕ → Claim
  borrow : ℕ → Claim

module _ (fixed : Fixed) where
  unfoldable pub of_techno : Bytes → ℕ → Bool
  of_techno techno d = str_eq (fixed.technology d) techno

  -- The first device of the technology in the rest of the list, and its index.
  unfoldable pub find_techno : Bytes → List ℕ → ℕ → Option (ℕ × ℕ)
  find_techno techno [] i = none
  find_techno techno (d ∷ ds) i =
      if of_techno techno d then some (d, i) else find_techno techno ds (suc i)

  unfoldable pub fifo_take_device : Bytes → List ℕ → Option (ℕ × List ℕ)
  fifo_take_device techno devices = elim (find_techno techno devices 0) [
    | none ↦ none
    | some (d, i) ↦ some (d, remove_index_fast devices i)
  ]

  unfoldable pub find_free_device : List ℕ → Option ℕ
  find_free_device [] = none
  find_free_device (d ∷ ds) =
      if dev_is_sched_ready (fixed.readiness d) then some d else find_free_device ds

  -- The scheduler of type `k` gives `desired` away and gets `unused`.
  unfoldable pub fifo_exchange_device : IoType → ℕ → ℕ → Owners → Owners
  fifo_exchange_device k desired unused s =
      if not (dev_is_sched_ready (fixed.readiness unused)) then s else record {
        devices = put s.devices k (fifo_remove_device (at s.devices k ++ unused ∷ []) desired);
        ld_io_request_type =
            set_types unused (one_type k)
              (set_types desired (put (s.ld_io_request_type desired) k false) s.ld_io_request_type);
      }

  -- The device taken comes with the new state.
  unfoldable pub fifo_claim_device : IoType → Claim → Owners → Result (Owners × Option ℕ)
  fifo_claim_device k (borrow d) s = err enotsup
  fifo_claim_device k (exchange desired unused) s =
      ok (fifo_exchange_device k desired unused s, none)
  fifo_claim_device k (take_techno techno) s = elim (fifo_take_device techno (at s.devices k)) [
    | none ↦ err enodev
    | some (d, devices) ↦ ok (record s { devices = put s.devices k devices }, some d)
  ]

  -- The assertion on a device that a scheduler of type `k` wants.
  abbrev claimable : IoType → ByType Bool → Bool
  claimable k target = not (at target k) && leb (popcount target) 1

  -- The one type of a device that has one at most.
  unfoldable pub io_type2scheduler : ByType Bool → Option IoType
  io_type2scheduler b =
      if b.reads
      then some read
      else if b.writes
      then some write
      else if b.formats
      then some format
      else none

  unfoldable pub exchange_with : IoType → IoType → ℕ → ℕ → Owners → Result (Owners × Option ℕ)
  exchange_with k target desired unused s =
      let given = fifo_exchange_device target desired unused s in
      if at (given.ld_io_request_type desired) target
      then ok (given, none)
      else fifo_claim_device k (exchange unused desired) given

  unfoldable pub io_sched_claim_device : IoType → Claim → Owners → Result (Owners × Option ℕ)
  io_sched_claim_device k (take_techno techno) s = fifo_claim_device k (take_techno techno) s
  io_sched_claim_device k (borrow d) s =
      or_abort (assert (claimable k (s.ld_io_request_type d)))
      >> elim (io_type2scheduler (s.ld_io_request_type d)) [
        | none ↦ abort
        | some target ↦ fifo_claim_device target (borrow d) s
      ]
  io_sched_claim_device k (exchange desired unused) s =
      or_abort (assert (claimable k (s.ld_io_request_type desired)))
      >> elim (io_type2scheduler (s.ld_io_request_type desired)) [
        | none ↦ ok (
          record {
            devices = put s.devices k (fifo_add_device (at s.devices k) desired);
            ld_io_request_type =
                set_types desired (put (s.ld_io_request_type desired) k true) s.ld_io_request_type;
          },
          none,
        )
        | some target ↦ exchange_with k target desired unused s
      ]

  -- exchange_device of fifo.c: a free device of the scheduler for the one that it wants.
  unfoldable pub exchange_device : IoType → ℕ → Owners → Result (Owners × Option ℕ)
  exchange_device k desired s = elim (find_free_device (at s.devices k)) [
    | none ↦ ok (s, none)
    | some unused ↦ io_sched_claim_device k (exchange desired unused) s
  ]
