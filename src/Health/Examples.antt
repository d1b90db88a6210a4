-- ===== src/Health/Examples.antt =====
-- The health of a medium with two errors among its logs.
use phobos.Base.{ℕ, ◌≡◌, refl, List, [], ◌∷◌}
use phobos.Health.{count_health, health_loop, health_step, skip_successes}

abbrev logs : List ℕ
logs = 0 ∷ 0 ∷ 5 ∷ 0 ∷ 5 ∷ 5 ∷ []

counts : count_health logs 4 ≡ 2
unfolding count_health health_loop health_step skip_successes
counts = refl
