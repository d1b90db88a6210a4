-- ===== src/Health.antt =====
-- The health of a device or a medium, counted from the outcomes of its logs, oldest first:
-- src/core/dss/logs.c. The health is a ssize_t that may be -1 before it is clamped; on natural
-- numbers it stays at 0.
use phobos.Base.{
  ℕ, zero, suc, ◌+◌, ◌-◌, ◌≤◌, ◌≡◌, refl, Bool, true, false, List, [], ◌∷◌, ◌++◌, arith, ◌==◌,
  if◌then◌else◌, min, max, replicate, Bool-cases, inl, inr,
}
mod Examples

-- The first loop: it skips the logs before the first error.
unfoldable pub skip_successes : List ℕ → List ℕ
skip_successes [] = []
skip_successes (e ∷ es) = let rest = skip_successes es in if e == 0 then rest else e ∷ es

unfoldable pub health_step : ℕ → ℕ → ℕ → ℕ
health_step max_health e health =
    if e == 0 then min (max (health + 1) 0) max_health else min (max (health - 1) 0) max_health

-- The second loop.
unfoldable pub health_loop : ℕ → List ℕ → ℕ → ℕ
health_loop max_health [] health = health
health_loop max_health (e ∷ es) health = health_loop max_health es (health_step max_health e health)

unfoldable pub count_health : List ℕ → ℕ → ℕ
count_health logs max_health = health_loop max_health (skip_successes logs) max_health

health_loop_step : (max_health : ℕ) → health_step max_health 0 max_health ≡ max_health
unfolding health_step
health_loop_step max_health = omega arith

-- The skip is not needed: at full health, a success changes nothing.
skip_lem :
    (max_health : ℕ) (logs : List ℕ)
    → health_loop max_health (skip_successes logs) max_health
      ≡ health_loop max_health logs max_health
unfolding skip_successes health_loop
skip_lem max_health [] = refl
skip_lem max_health (e ∷ es) = elim (Bool-cases (e == 0)) [
  | inl good ↦
      let zero_code : e ≡ 0 = ground arith in
      rw (good, zero_code, health_loop_step max_health, skip_successes) (skip_lem max_health es)
  | inr bad ↦ rw (bad, skip_successes) refl
]

loop-append :
    (max_health : ℕ) (es fs : List ℕ) (health : ℕ)
    → health_loop max_health (es ++ fs) health
      ≡ health_loop max_health fs (health_loop max_health es health)
unfolding health_loop
loop-append max_health [] fs health = refl
loop-append max_health (e ∷ es) fs health =
    loop-append max_health es fs (health_step max_health e health)

loop_le :
    (max_health : ℕ) (es : List ℕ) (health : ℕ)
    → health ≤ max_health
    → health_loop max_health es health ≤ max_health
unfolding health_loop health_step
loop_le max_health [] health h = h
loop_le max_health (e ∷ es) health h =
    loop_le max_health es (health_step max_health e health) (ground arith)

loop-successes :
    (max_health k health : ℕ)
    → health ≤ max_health
    → health_loop max_health (replicate k 0) health ≡ min (health + k) max_health
unfolding health_loop health_step
loop-successes max_health zero health h = omega arith
loop-successes max_health (suc k) health h =
    omega (arith, loop-successes max_health k (min (max (health + 1) 0) max_health) (omega arith))

loop-errors :
    (max_health k health e : ℕ)
    → health ≤ max_health
    → health_loop max_health (replicate k (suc e)) health ≡ health - k
unfolding health_loop health_step
loop-errors max_health zero health e h = omega arith
loop-errors max_health (suc k) health e h =
    ground (arith, loop-errors max_health k (min (max (health - 1) 0) max_health) e (omega arith))

-- The health is at most `max_health`; after `k` more successes it has gained `k`, up to
-- `max_health`, and after `k` more errors it has lost `k`, down to 0.
pub count_health-append :
    (logs : List ℕ) (max_health k e : ℕ)
    → (count_health logs max_health ≤ max_health)
      × (count_health (logs ++ replicate k 0) max_health
          ≡ min (count_health logs max_health + k) max_health)
      × (count_health (logs ++ replicate k (suc e)) max_health ≡ count_health logs max_health - k)
unfolding count_health
count_health-append logs max_health k e =
    let le = loop_le max_health logs max_health (omega arith) in
    (
      omega (arith, skip_lem max_health logs, le),
      omega (
        arith,
        skip_lem max_health logs,
        skip_lem max_health (logs ++ replicate k 0),
        le,
        loop-append max_health logs (replicate k 0) max_health,
        loop-successes max_health k (health_loop max_health logs max_health),
      ),
      omega (
        arith,
        skip_lem max_health logs,
        skip_lem max_health (logs ++ replicate k (suc e)),
        le,
        loop-append max_health logs (replicate k (suc e)) max_health,
        loop-errors max_health k (health_loop max_health logs max_health) e,
      ),
    )
