-- ===== src/Lrs/ReadMedia/Examples.antt =====
-- A read request that may use any of three media, and the theorems at it.
use phobos.Base.{ℕ, ◌≡◌, refl, true, false, List, [], ◌∷◌, some, none, arith, get_elem?}
use phobos.Lrs.ReadMedia.Swap.{med_ids_switch}
use phobos.Lrs.ReadMedia.{
  ReadMediaList, errno2status, eagain, ok, unavailable, error, init, medium_update, mark_error,
  move_medium_to_unavailable, medium_realloc_failed, reset, medium_realloc,
}
use phobos.Lrs.ReadMedia.Safe.{IsValid, Updated}
use phobos.Lrs.ReadMedia.Rounds.{landing, medium_update-IsValid}
use phobos.Lrs.ReadMedia.Retry.{medium_realloc_failed-update}

abbrev candidates : List ℕ
candidates = 10 ∷ 20 ∷ 30 ∷ []

-- The first medium is allocated.
abbrev part_way : ReadMediaList ℕ
part_way = record {
  media = candidates;
  size = 3;
  available = 3;
  allocated = 1;
  errors = 0;
  reset_done = false;
}

-- Then the request came back from the device.
abbrev came_back : ReadMediaList ℕ
came_back = record part_way { available = 2; reset_done = true }

init_runs : medium_update (init candidates) 0 ok ≡ some part_way
unfolding init medium_update med_ids_switch
init_runs = refl

reset_runs : reset part_way ≡ came_back
unfolding reset
reset_runs = refl

realloc_runs : medium_realloc came_back 2 0 ≡ some (record came_back { media = 30 ∷ 20 ∷ 10 ∷ [] })
unfolding medium_realloc med_ids_switch
realloc_runs = refl

errno2status_runs : errno2status eagain ≡ unavailable
unfolding errno2status
errno2status_runs = refl

part_way-IsValid : IsValid part_way
part_way-IsValid = ground arith

medium_update-IsValid_example :
    (l' : ReadMediaList ℕ) × (medium_update part_way 1 error ≡ some l')
    × IsValid l'
    × Updated part_way l'
    × (get_elem? l'.media (landing part_way error) ≡ get_elem? part_way.media 1)
medium_update-IsValid_example =
    medium_update-IsValid part_way 1 error part_way-IsValid (omega arith) (omega arith)

after_failure : ReadMediaList ℕ
after_failure = record came_back {
  media = 20 ∷ 30 ∷ 10 ∷ [];
  available = 1;
  allocated = 0;
  errors = 1;
}

medium_realloc_failed-update_example : medium_realloc_failed after_failure 1 0 ≡ none
unfolding medium_update mark_error move_medium_to_unavailable med_ids_switch after_failure
medium_realloc_failed-update_example =
    medium_realloc_failed-update came_back after_failure 0 1 0 error (ground arith) (omega arith)
      (λ e. cc) refl
