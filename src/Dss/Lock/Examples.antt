-- ===== src/Dss/Lock/Examples.antt =====
-- Runs of the locks over a concrete table, and an instance of each of their theorems.
use phobos.Base.{ℕ, ◌≡◌, refl, true, false, List, [], ◌∷◌, none, some}
use phobos.Base.Results.{eexist, ecomm}
use phobos.StringArray.CString.{Bytes, str_eq, contains}
use phobos.Types.{tape, PhoId}
use phobos.Dss.Lock.{
  media, Row, Rows, put, Db, execute, Flags, insert_row, change_row, upsert_row, refresh_query,
  basic_lock, basic_refresh, basic_unlock, dss_lock_rollback, lock_loop, lock_ids, try_all,
}
use phobos.Dss.Lock.Clean.{dss_lock_media_clean}
use phobos.Dss.Lock.AllOrNothing.{AllOrNothing, lock_ids-AllOrNothing}
use phobos.Dss.Lock.Owners.{Holds, here, next, locks, unlocks, waits, Reach-Holds}
use phobos.Dss.Lock.Unlock.{lock_ids-unlock}
use phobos.Dss.Lock.Possess.{possess, AllHeld, try_all-AllHeld}
use phobos.Dss.Lock.Locate.{dss_env, raid_locate-dss}
use phobos.Dss.Lock.Refine.{dss_LockTable}
use phobos.Dss.Lock.Calls.{
  resource, known, translate_prefix, translate_suffix, lock_id, build_lock_id_list, lock_items,
  dss_lock,
}
use phobos.Dss.Lock.Listed.{dss_lock-dss_lock_media_clean}
use phobos.Dss.Lock.Touched.{Touched}
use phobos.Raid.Locate.Hosts.{Extent}
use phobos.Raid.Locate.Locks.{locked}
use phobos.Raid.Locate.Run.{Env, raid_locate}
use phobos.Raid.Locate.Sound.{Leaves}
use phobos.Base.Results.{ok}

abbrev plain : Flags
plain = record { possess = false; weak = false; locate = false; force = false }

abbrev host : Bytes
host = 5 ∷ []

-- A lock of the process 7 of the host 5, and the medium 1 of the library 9 in `medium`.
abbrev mine : Row
mine = record { hostname = 5 ∷ []; owner = 7; timestamp = 0; is_weak = false; last_locate = none }

abbrev medium : PhoId
medium = record { family = tape; name = 1 ∷ []; library = 9 ∷ [] }

abbrev id_1 : Bytes
id_1 = 1 ∷ 95 ∷ 9 ∷ []

abbrev id_2 : Bytes
id_2 = 2 ∷ 95 ∷ 9 ∷ []

abbrev empty : Rows
empty t id = none

abbrev nothing : Db
nothing = record { rows = empty; now = 3; failures = [] }

abbrev taken : Db
taken = record { rows = put empty media id_1 (some mine); now = 3; failures = [] }

-- The second lock is refused, and the first one given back.
refused_lock : (lock_ids media (id_2 ∷ id_1 ∷ []) 8 (6 ∷ []) plain taken).0 ≡ some eexist
unfolding lock_ids lock_loop basic_lock execute insert_row dss_lock_rollback basic_unlock change_row
    str_eq
refused_lock = refl

given_back : (lock_ids media (id_2 ∷ id_1 ∷ []) 8 (6 ∷ []) plain taken).1.rows media id_2 ≡ none
unfolding lock_ids lock_loop basic_lock execute insert_row dss_lock_rollback basic_unlock change_row
    str_eq
given_back = refl

lock_ids-AllOrNothing_example :
    AllOrNothing media 8
      (6 ∷ [])
      plain
      (id_2 ∷ id_1 ∷ [])
      taken
      (lock_ids media (id_2 ∷ id_1 ∷ []) 8 (6 ∷ []) plain taken)
unfolding lock_loop basic_lock execute insert_row str_eq
lock_ids-AllOrNothing_example =
    lock_ids-AllOrNothing media 8 (6 ∷ []) plain (id_2 ∷ id_1 ∷ []) taken refl refl

-- The process 8 of the host 5 cannot unlock, after a failed lock and a lost connection.
abbrev after_lock : Db
after_lock = (lock_ids media (id_2 ∷ id_1 ∷ []) 8 (5 ∷ []) plain taken).1

abbrev lost : Db
lost = record after_lock { now = 4; failures = some ecomm ∷ [] }

Reach-Holds_example :
    Holds media id_1 host 7
      (try_all (λ k. basic_unlock media k 8 (5 ∷ []) plain) (id_1 ∷ []) none lost).1.rows
unfolding str_eq
Reach-Holds_example =
    Reach-Holds media id_1 host 7
      (next
        (next (next here (locks media (id_2 ∷ id_1 ∷ []) 8 (5 ∷ []) plain))
          (waits 4 (some ecomm ∷ [])))
        (unlocks media (id_1 ∷ []) 8 (5 ∷ []) plain refl refl))
      refl

abbrev locked_two : Db
locked_two = (lock_ids media (id_1 ∷ id_2 ∷ []) 7 host plain nothing).1

lock_ids-unlock_example :
    (try_all (λ id. basic_unlock media id 7 host plain) (id_1 ∷ id_2 ∷ []) none locked_two).1.rows
      media id_1
    ≡ none
unfolding lock_ids lock_loop basic_lock execute insert_row str_eq
lock_ids-unlock_example =
    lock_ids-unlock media 7 host plain (id_1 ∷ id_2 ∷ []) nothing plain refl refl refl refl media
      id_1

-- A weak lock of another process of the host, which the process 7 takes over.
abbrev weak_one : Db
weak_one = record {
  rows = put empty media id_1 (some (record mine { owner = 8; is_weak = true }));
  now = 3;
  failures = [];
}

try_all-AllHeld_example :
    AllHeld media 7 host
      (id_1 ∷ id_2 ∷ [])
      (try_all
        (λ id. basic_refresh media id 7 host (possess media 7 host))
        (id_1 ∷ id_2 ∷ [])
        none
        weak_one).1.rows
unfolding try_all basic_refresh refresh_query upsert_row insert_row change_row execute str_eq
try_all-AllHeld_example = try_all-AllHeld media 7 host (id_1 ∷ id_2 ∷ []) none weak_one refl

-- The process 8 cleans after the process 7 has locked the medium.
dss_lock-dss_lock_media_clean_example :
    (contains (id_1 ∷ []) id_1 ≡ true
      → (dss_lock_media_clean
            ((1 ∷ []) ∷ [])
            host
            8
            (dss_lock (λ b. b) (known host 7) media (resource medium ∷ []) nothing).1).1.rows
          media id_1
        ≡ none)
    × (contains ((1 ∷ []) ∷ []) id_1 ≡ true
        → (dss_lock_media_clean
              ((1 ∷ []) ∷ [])
              host
              8
              (dss_lock (λ b. b) (known host 7) media (resource medium ∷ []) nothing).1).1.rows
            media id_1
          ≡ (dss_lock (λ b. b) (known host 7) media (resource medium ∷ []) nothing).1.rows media
              id_1)
unfolding dss_lock lock_items build_lock_id_list lock_id lock_ids lock_loop basic_lock execute
    insert_row str_eq translate_prefix translate_suffix
dss_lock-dss_lock_media_clean_example =
    dss_lock-dss_lock_media_clean (λ b. b) host 7 (medium ∷ []) nothing host 8 refl (refl, tt) refl
      id_1

abbrev env : Env
env = record {
  calls = record {
    State = ℕ;
    lock_weak = λ s m h. (locked, s);
    unlock = λ s m. s;
    refresh = λ s m. s;
  };
  usable_devices = λ f. ok (record { host = 5 ∷ []; library = 9 ∷ []; model = none } ∷ []);
  medium_locate = λ m. some (none, record { id = m; model = 3 ∷ [] });
  compat = λ t d. some true;
  self_hostname = none;
  order = λ hosts. hosts;
}

abbrev one_extent : List Extent
one_extent = record { layout_idx = 0; media = medium } ∷ []

raid_locate-dss_example :
    Leaves
      (dss_env (λ b. b) (6 ∷ []) 8 env)
      (dss_LockTable (λ b. b) (6 ∷ []) 8)
      1
      0
      (empty, 3)
      (raid_locate (dss_env (λ b. b) (6 ∷ []) 8 env) 1 0 one_extent (some (6 ∷ [])) (empty, 3))
    × Touched 8
        (empty, 3)
        (raid_locate (dss_env (λ b. b) (6 ∷ []) 8 env) 1 0 one_extent (some (6 ∷ [])) (empty, 3)).1
raid_locate-dss_example =
    raid_locate-dss (λ b. b) (6 ∷ []) 8 env 1 0 one_extent (some (6 ∷ [])) empty 3
