-- ===== src/Lrs/ReadMedia.antt =====
-- The list of media of a read request: src/lrs/lrs_utils.c and lrs_utils.h, with `med_ids_switch`
-- of src/include/pho_srl_common.h. A medium ID is any type. A read or a write past the list and a
-- failed assertion are the outcome `none`.
pub mod Swap
pub mod Safe
pub mod Rounds
pub mod Retry
mod Examples
use phobos.Base.{
  ℕ, ◌+◌, ◌-◌, Bool, true, false, not, List, Option, none, some, ltb, ◌==◌, if◌then◌else◌, ◌>>=◌,
  ◌>>◌, assert, length,
}
use phobos.Base.Words.{sub64}
use Swap.{med_ids_switch}

pub record ReadMediaList {ℓ} (M : Type ℓ) : Type ℓ where
  pub media : List M
  pub size : ℕ
  pub available : ℕ
  pub allocated : ℕ
  pub errors : ℕ
  pub reset_done : Bool

pub data AllocationStatus : Type 0 where
  ok unavailable error : AllocationStatus

-- The return codes that `rml_errno2status` tells apart.
pub data ReturnCode : Type 0 where
  success eagain other : ReturnCode

pub errno2status : ReturnCode → AllocationStatus
errno2status success = ok
errno2status eagain = unavailable
errno2status other = error

module _ {ℓ} {M : Type ℓ} where
  -- `rml_init` leaves `rml_reset_done` as the request's allocation set it, to false.
  pub init : List M → ReadMediaList M
  init media = record {
    media = media;
    size = length media;
    available = length media;
    allocated = 0;
    errors = 0;
    reset_done = false;
  }

  pub last_unavailable : ReadMediaList M → ℕ
  last_unavailable l = sub64 (sub64 l.size 1) l.errors

  pub last_free : ReadMediaList M → ℕ
  last_free l = sub64 (sub64 l.size l.errors) 1

  pub move_medium_to_unavailable : ReadMediaList M → ℕ → Option (ReadMediaList M)
  move_medium_to_unavailable l index = do
    assert (not (l.available == 0))
    let available = l.available - 1
    if ltb index available
        then (do
          media ← med_ids_switch l.media index available
          some (record l { media = media; available = available }))
        else some (record l { available = available })

  -- The case `RMAS_ERROR`, down to its fall through.
  pub mark_error : ReadMediaList M → ℕ → Option (ReadMediaList M)
  unfolding last_unavailable
  mark_error l index = do
    media ←
        if sub64 l.size l.errors == l.available
        then some l.media
        else med_ids_switch l.media index (last_unavailable l)
    some (record l {
      media = media;
      errors = l.errors + 1;
      allocated = if l.reset_done then sub64 l.allocated 1 else l.allocated;
    })

  -- The list after the call; its result is the new `available`.
  pub medium_update : ReadMediaList M → ℕ → AllocationStatus → Option (ReadMediaList M)
  medium_update l index ok = do
    media ← med_ids_switch l.media index l.allocated
    some (record l { media = media; allocated = l.allocated + 1 })
  medium_update l index error = do l' ← mark_error l index; move_medium_to_unavailable l' index
  medium_update l index unavailable = move_medium_to_unavailable l index

  pub medium_realloc_failed : ReadMediaList M → ℕ → ℕ → Option (ReadMediaList M)
  unfolding last_free
  medium_realloc_failed l free_index failed_index = do
    assert (l.available + l.errors + l.allocated == l.size)
    media ← med_ids_switch l.media free_index (last_free l)
    media' ← med_ids_switch media failed_index (last_free l)
    some (record l { media = media'; errors = l.errors + 1; available = sub64 l.available 1 })

  pub medium_realloc : ReadMediaList M → ℕ → ℕ → Option (ReadMediaList M)
  medium_realloc l free_index allocated_index = do
    media ← med_ids_switch l.media free_index allocated_index
    some (record l { media = media })

  pub nb_usable_media : ReadMediaList M → ℕ
  nb_usable_media l = sub64 l.size l.errors

  pub reset : ReadMediaList M → ReadMediaList M
  reset l = record l { available = sub64 (sub64 l.size l.errors) l.allocated; reset_done = true }

  pub requeue : ReadMediaList M → ReadMediaList M
  requeue l = record l { available = sub64 l.size l.errors; allocated = 0 }
