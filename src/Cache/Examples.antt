-- ===== src/Cache/Examples.antt =====
-- A cache whose keys are the last digits of the values, and the theorems at it.
use phobos.Base.{ℕ, ◌%◌, ◌==◌, ◌≡◌, refl, none, some, [], arith, if◌then◌else◌}
use phobos.Cache.{Cache, acquire_nolocked, pho_cache_acquire, pho_cache_insert, pho_cache_release}
use phobos.Cache.Counts.{
  IsValid, Gained, Acquired, Released, pho_cache_acquire-Acquired, pho_cache_insert-Gained,
  pho_cache_release-Released,
}

abbrev key_of : ℕ → ℕ
key_of v = v % 10

-- Value 13 is held twice under key 3.
abbrev holding : Cache
holding = record {
  cache = λ k. if k == 3 then some (record { value = 13; count = 2 }) else none;
  old_values = λ v. none;
  destroyed = [];
}

holding-IsValid : IsValid key_of holding
holding-IsValid = record {
  keyed = λ k r e. ground arith;
  old = λ v o e. absurd (ground arith);
  apart = λ v r o e f. absurd (ground arith);
}

pho_cache_release-Released_example :
    (c' : Cache) × (pho_cache_release key_of holding 13 ≡ some c') × Released key_of holding c' 13
pho_cache_release-Released_example =
    pho_cache_release-Released key_of holding 13 holding-IsValid (omega arith)

pho_cache_insert-Gained_example :
    (c' : Cache) × (pho_cache_insert key_of holding (some 23) ≡ some (some 23, c'))
    × Gained key_of holding c' 23
pho_cache_insert-Gained_example = pho_cache_insert-Gained key_of holding 23 holding-IsValid refl

acquire_runs : (pho_cache_acquire key_of holding 3 none).0 ≡ some 13
unfolding pho_cache_acquire acquire_nolocked
acquire_runs = refl

pho_cache_acquire-Acquired_example :
    Acquired key_of holding 4 (some 14) (pho_cache_acquire key_of holding 4 (some 14))
pho_cache_acquire-Acquired_example =
    pho_cache_acquire-Acquired key_of holding 4 (some 14) holding-IsValid
      (λ v e. let same : 14 ≡ v = ground arith in rw (← same) (refl, refl))
