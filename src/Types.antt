-- ===== src/Types.antt =====
-- The identifiers of src/include/pho_types.h that several parts share, and their equality of
-- src/core/common/type_utils.c.
use phobos.Base.{◌≡◌, ◌↔◌, Bool, true, false, not, arith, if◌then◌else◌}
use phobos.StringArray.CString.{Bytes, str_eq, str_eq_iff}

-- `rsc_family`, from `PHO_RSC_TAPE` on and then `PHO_RSC_NONE`, `_INVAL` and `_UNSPEC`.
pub data Family : Type 0 where
  tape dir rados_pool no_family invalid unspecified : Family

-- `family == family'`
abbrev pub family_eq : Family → Family → Bool
family_eq tape tape = true
family_eq dir dir = true
family_eq rados_pool rados_pool = true
family_eq no_family no_family = true
family_eq invalid invalid = true
family_eq unspecified unspecified = true
family_eq _ _ = false

pub record PhoId : Type 0 where
  pub family : Family
  pub name : Bytes
  pub library : Bytes

unfoldable pub pho_id_equal : PhoId → PhoId → Bool
pho_id_equal a b =
    if not (str_eq a.name b.name)
    then false
    else if not (str_eq a.library b.library)
    then false
    else if not (family_eq a.family b.family)
    then false
    else true

family_eq_iff : (a b : Family) → (family_eq a b ≡ true) ↔ (a ≡ b)
family_eq_iff a b = ground arith

-- Two resources are the same exactly when name, library and family agree.
pub pho_id_equal_iff : (a b : PhoId) → (pho_id_equal a b ≡ true) ↔ (a ≡ b)
unfolding pho_id_equal
pho_id_equal_iff a b = ground (
  arith,
  str_eq_iff a.name b.name,
  str_eq_iff a.library b.library,
  family_eq_iff a.family b.family,
)
