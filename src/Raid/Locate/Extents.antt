-- ===== src/Raid/Locate/Extents.antt =====
-- The extents of a layout, put into the slots of its splits and located.
use phobos.Base.{
  ℕ, ◌+◌, ◌*◌, ◌/◌, ◌≡◌, refl, Bool, true, false, List, [], ◌∷◌, Option, none, some, arith, ltb,
  if◌then◌else◌, length, get_elem?, set, replicate,
}
use phobos.Types.{PhoId}
use phobos.StringArray.CString.{Bytes}
use phobos.Raid.Locate.Hosts.{Medium, Extent, ExtentLocation}

-- The `layout_idx` of the last extent; a layout without extents does not come here.
unfoldable pub last_layout_idx : List Extent → ℕ
last_layout_idx [] = 0
last_layout_idx (e ∷ []) = e.layout_idx
last_layout_idx (e ∷ f ∷ es) = last_layout_idx (f ∷ es)

unfoldable pub fill_slots : List Extent → List (Option Extent) → Option (List (Option Extent))
fill_slots [] slots = some slots
fill_slots (e ∷ es) slots =
    let rest = fill_slots es (set slots e.layout_idx (some e)) in
    if ltb e.layout_idx (length slots) then rest else none

-- `none` is the failed assertion that the extents are ordered.
unfoldable pub setup_extent_location : List Extent → ℕ → Option (List (Option Extent))
setup_extent_location extents per_split =
    fill_slots extents (replicate ((last_layout_idx extents / per_split + 1) * per_split) none)

-- The content of a slot, if it has one.
abbrev pub slot {ℓ} : {A : Type ℓ} → List (Option A) → ℕ → Option A
slot slots i = elim (get_elem? slots i) [ none ↦ none | some s ↦ s ]

abbrev pub is_present {ℓ} : {A : Type ℓ} → List (Option A) → ℕ → Bool
is_present slots i = elim (slot slots i) [ none ↦ false | some s ↦ true ]

-- `dss_medium_locate`: the host that holds the medium's lock, if any, and the medium; `none` is an
-- error.
abbrev pub MediumLocate : Type 0
MediumLocate = PhoId → Option (Option Bytes × Medium)

-- A missing extent, or one whose medium cannot be located, leaves its slot empty.
unfoldable pub locate_slots : MediumLocate → List (Option Extent) → List (Option ExtentLocation)
locate_slots locate [] = []
locate_slots locate (none ∷ es) = none ∷ locate_slots locate es
locate_slots locate (some e ∷ es) =
    elim (locate e.media) [
      | none ↦ none
      | some (hostname, medium) ↦ some (record { extent = e; medium = medium; hostname = hostname })
    ]
    ∷ locate_slots locate es

pub length-locate_slots :
    (locate : MediumLocate) (es : List (Option Extent))
    → length (locate_slots locate es) ≡ length es
unfolding locate_slots
length-locate_slots locate [] = refl
length-locate_slots locate (none ∷ es) = omega (arith, length-locate_slots locate es)
length-locate_slots locate (some e ∷ es) = omega (arith, length-locate_slots locate es)
