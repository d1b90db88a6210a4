-- ===== src/Lrs/ReadMedia/Rounds.antt =====
-- A round of allocation: the media of a request are looked at one after the other.
use mathlib.Core.List.Perm
use phobos.Base.{ℕ, zero, suc, ◌+◌, ◌-◌, ◌≤◌, ◌<◌, ◌≡◌, List, some, arith, Perm, length, get_elem?}
use phobos.Base.Words.{u64_mod}
use phobos.Lrs.ReadMedia.{
  ReadMediaList, AllocationStatus, ok, unavailable, error, init, medium_update,
}
use phobos.Lrs.ReadMedia.Safe.{IsValid, Updated, update_ok, update_unavailable, update_error}

-- The last allocated, the first unavailable, or the first failed place.
abbrev pub landing {ℓ} : {M : Type ℓ} → ReadMediaList M → AllocationStatus → ℕ
landing l ok = l.allocated
landing l unavailable = l.available - 1
landing l error = l.size - l.errors - 1

module _ {ℓ} {M : Type ℓ} where
  -- On a valid list, an update of a medium of the Free section neither fails an assertion nor
  -- leaves the array. It keeps the list valid, only reorders the media, takes exactly one medium
  -- off the Free section, moves none of the Allocated and of the Error section, and puts the medium
  -- at the place that belongs to its status.
  pub medium_update-IsValid :
      (l : ReadMediaList M) (index : ℕ) (status : AllocationStatus)
      → IsValid l
      → l.allocated ≤ index
      → index < l.available
      → (l' : ReadMediaList M) × (medium_update l index status ≡ some l')
        × IsValid l'
        × Updated l l'
        × (get_elem? l'.media (landing l status) ≡ get_elem? l.media index)
  medium_update-IsValid l index ok v h k = update_ok l index v h k
  medium_update-IsValid l index unavailable v h k = update_unavailable l index v h k
  medium_update-IsValid l index error v h k = update_error l index v h k

  -- `n` updates of free media, one after the other.
  pub data Updates (l : ReadMediaList M) : ℕ → ReadMediaList M → Type ℓ where
    start : Updates l zero l
    update :
        {n : ℕ} {m m' : ReadMediaList M} (index : ℕ) (status : AllocationStatus)
        → Updates l n m
        → m.allocated ≤ index
        → index < m.available
        → medium_update m index status ≡ some m'
        → Updates l (suc n) m'

  pub init-IsValid : (media : List M) → length media < u64_mod → IsValid (init media)
  unfolding init
  init-IsValid media h = ground arith

  -- What holds after `n` updates of a list that began with `media`.
  pub record Progress (media : List M) (n : ℕ) (l : ReadMediaList M) : Type ℓ where
    pub valid : IsValid l
    pub reordered : Perm l.media media
    pub spent : n + (l.available - l.allocated) ≡ length media
