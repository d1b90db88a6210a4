-- ===== src/Lrs/IoSched/Dispatch/Listed.antt =====
-- Lists of devices, and the sums of a dispatch in
-- src/lrs/io_schedulers/device_dispatch_algorithms.c.
use phobos.Base.{
  ℕ, ◌+◌, ◌-◌, ◌≡◌, ◌≤◌, refl, ap, Bool, List, [], ◌∷◌, arith, ◌==◌, if◌then◌else◌, length,
}
use phobos.Lrs.Sync.Totals
use phobos.Lrs.IoSched.{IoType, read, write, format, ByType, times}
use phobos.Lrs.IoSched.Devices.{popcount}
use phobos.Lrs.IoSched.Dispatch.{unowned}

pub times-unowned :
    (types : ℕ → ByType Bool) (ds : List ℕ) (x : ℕ)
    → times x (unowned types ds) ≡ (if popcount (types x) == 0 then times x ds else 0)
unfolding unowned
times-unowned types [] x = ground arith
times-unowned types (d ∷ ds) x =
    ground (arith, times-unowned types ds x, ap (λ t. popcount (types t)))

pub length-unowned :
    (types : ℕ → ByType Bool) (ds : List ℕ)
    → length (unowned types ds) ≡ Totals.total (λ d. if popcount (types d) == 0 then 1 else 0) ds
unfolding unowned
length-unowned types [] = refl
length-unowned types (d ∷ ds) = ground (arith, length-unowned types ds)

-- Both sides count the pairs of a place in the one list and a place in the other with one device.
pub total-step :
    (y : ℕ) (es ds : List ℕ)
    → Totals.total (λ d. times d (y ∷ es)) ds ≡ times y ds + Totals.total (λ d. times d es) ds
total-step y es [] = omega arith
total-step y es (d ∷ ds) = ground (arith, total-step y es ds)

pub total-zero : (ds : List ℕ) → Totals.total (λ d. 0) ds ≡ 0
total-zero [] = refl
total-zero (d ∷ ds) = omega (arith, total-zero ds)

pub total-swap :
    (es ds : List ℕ) → Totals.total (λ d. times d es) ds ≡ Totals.total (λ x. times x ds) es
total-swap [] ds = total-zero ds
total-swap (y ∷ es) ds = omega (arith, total-step y es ds, total-swap es ds)

-- The devices left after the first, the second and all three gifts.
pub gift_first :
    (n g0 cr cw cf r w f : ℕ)
    → g0 + (cr + cw + cf) ≡ n
    → cw ≤ w
    → cf ≤ f
    → r + w + f ≤ n
    → r - cr ≤ g0
gift_first n g0 cr cw cf r w f e b c h = omega arith

pub gift_second :
    (n g0 g1 cr cw cf r w f : ℕ)
    → g0 + (cr + cw + cf) ≡ n
    → cr ≤ r
    → cw ≤ w
    → cf ≤ f
    → r + w + f ≤ n
    → g1 + (r - cr) ≡ g0
    → w - cw ≤ g1
gift_second n g0 g1 cr cw cf r w f e a b c h i = omega arith

pub gift_third :
    (n g0 g1 g2 cr cw cf r w f : ℕ)
    → g0 + (cr + cw + cf) ≡ n
    → cr ≤ r
    → cw ≤ w
    → cf ≤ f
    → r + w + f ≤ n
    → g1 + (r - cr) ≡ g0
    → g2 + (w - cw) ≡ g1
    → f - cf ≤ g2
gift_third n g0 g1 g2 cr cw cf r w f e a b c h i j = omega arith

pub gift_last :
    (n g0 g1 g2 g3 cr cw cf r w f : ℕ)
    → g0 + (cr + cw + cf) ≡ n
    → cr ≤ r
    → cw ≤ w
    → cf ≤ f
    → g1 + (r - cr) ≡ g0
    → g2 + (w - cw) ≡ g1
    → g3 + (f - cf) ≡ g2
    → g3 + (r + w + f) ≡ n
gift_last n g0 g1 g2 g3 cr cw cf r w f e a b c h i j = omega arith

pub gift_to : (c c' r : ℕ) → c ≤ r → c' ≡ c + (r - c) → c' ≡ r
gift_to c c' r h e = omega arith

pub kept_le : (c c' r : ℕ) → c' ≡ c - (c - r) → c' ≤ r
kept_le c c' r e = omega arith

pub each_type {κ} : (P : IoType → Type κ) → P read → P write → P format → (k : IoType) → P k
each_type P r w f read = r
each_type P r w f write = w
each_type P r w f format = f
