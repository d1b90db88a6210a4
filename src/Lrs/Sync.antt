-- ===== src/Lrs/Sync.antt =====
-- The pending synchronizations of a device: src/lrs/lrs_device.c, with the times of
-- src/core/common/common.c. A request container is shared by the devices that synchronize its media;
-- it is named by a number. `Release` has what does not change while the request lives, `Store` what
-- the devices write. A return code is its magnitude, 0 on success.
use phobos.Base.{
  ℕ, zero, suc, ◌+◌, ◌/◌, ◌%◌, ◌^◌, ◌≡◌, Bool, true, false, not, ◌&&◌, ◌||◌, List, [], ◌∷◌, ◌++◌,
  Option, none, some, ◌==◌, ltb, leb, if◌then◌else◌, length, get_elem?, set,
}
use phobos.Base.Words.{sub64}
use phobos.StringArray.CString.{Bytes, contains}
pub mod Totals
mod Pending
mod Stale
mod Examples

-- A time of the real-time clock, which is not negative.
pub record Timespec : Type 0 where
  pub tv_sec : ℕ
  pub tv_nsec : ℕ

abbrev pub never : Timespec
never = record { tv_sec = 0; tv_nsec = 0 }

unfoldable pub is_older_or_equal : Timespec → Timespec → Bool
is_older_or_equal a b =
    if ltb b.tv_sec a.tv_sec || (a.tv_sec == b.tv_sec && ltb b.tv_nsec a.tv_nsec)
    then false
    else true

unfoldable pub add_timespec : Timespec → Timespec → Timespec
add_timespec a b = record {
  tv_sec = a.tv_sec + b.tv_sec + (a.tv_nsec + b.tv_nsec) / 1000000000;
  tv_nsec = (a.tv_nsec + b.tv_nsec) % 1000000000;
}

pub data Status : Type 0 where
  todo done error cancel : Status

-- A release request; the functions are over the indexes of its media.
pub record Release : Type 0 where
  pub received_at : Timespec
  pub partial : Bool
  pub socket_id : ℕ
  pub n_tosync_media : ℕ
  pub written_size : ℕ → ℕ
  pub nb_extents_written : ℕ → ℕ
  pub client_rc : ℕ → ℕ
  pub grouping : ℕ → Option Bytes

pub record Store : Type 0 where
  pub rc : ℕ → ℕ
  pub status : ℕ → ℕ → Status

pub record SubRequest : Type 0 where
  pub reqc : ℕ
  pub medium_index : ℕ

pub record SyncParams : Type 0 where
  pub tosync_array : List SubRequest
  pub oldest_tosync : Timespec
  pub tosync_size : ℕ
  pub tosync_nb_extents : ℕ
  pub groupings_to_update : Bool

-- What the synchronization uses of a device; `groupings` are those of its medium.
pub record Dev : Type 0 where
  pub sync_params : SyncParams
  pub needs_sync : Bool
  pub sync_blocking : Bool
  pub last_client_rc : ℕ
  pub groupings : List Bytes

unfoldable pub sync_params_init : SyncParams
sync_params_init = record {
  tosync_array = [];
  oldest_tosync = never;
  tosync_size = 0;
  tosync_nb_extents = 0;
  groupings_to_update = false;
}

abbrev is_todo : Status → Bool
is_todo todo = true
is_todo _ = false

-- The loop over the first `n` media of a request.
unfoldable pub no_todo : (ℕ → Status) → ℕ → Bool
no_todo status zero = true
no_todo status (suc n) = let rest = no_todo status n in if is_todo (status n) then false else rest

unfoldable pub update_oldest_tosync : Timespec → Timespec → Timespec
update_oldest_tosync oldest candidate =
    if (oldest.tv_sec == 0 && oldest.tv_nsec == 0) || is_older_or_equal candidate oldest
    then candidate
    else oldest

-- `g_ptr_array_remove_index_fast`: the last item takes the place of the removed one.
unfoldable pub last {ℓ} : {A : Type ℓ} → List A → Option A
last [] = none
last (x ∷ []) = some x
last (x ∷ y ∷ ys) = last (y ∷ ys)

unfoldable pub drop_last {ℓ} : {A : Type ℓ} → List A → List A
drop_last [] = []
drop_last (x ∷ []) = []
drop_last (x ∷ y ∷ ys) = x ∷ drop_last (y ∷ ys)

unfoldable pub remove_index_fast {ℓ} : {A : Type ℓ} → List A → ℕ → List A
remove_index_fast xs i = elim (last xs) [ none ↦ [] | some l ↦ drop_last (set xs i l) ]

module _ (release : ℕ → Release) where
  unfoldable pub is_request_tosync_ended : Store → ℕ → Bool
  is_request_tosync_ended store r = no_todo (store.status r) (release r).n_tosync_media

  -- The groupings after a release whose medium belongs to a grouping, and whether to update them.
  unfoldable pub add_grouping : Option Bytes → Dev → Dev
  add_grouping none dev = dev
  add_grouping (some g) dev = if contains dev.groupings g then dev else record dev {
    groupings = dev.groupings ++ g ∷ [];
    sync_params = record dev.sync_params { groupings_to_update = true };
  }

  unfoldable pub push_sync_params : SubRequest → SyncParams → SyncParams
  push_sync_params s p = record p {
    tosync_array = p.tosync_array ++ s ∷ [];
    tosync_size = (p.tosync_size + (release s.reqc).written_size s.medium_index) % 2 ^ 64;
    tosync_nb_extents =
        (p.tosync_nb_extents + (release s.reqc).nb_extents_written s.medium_index) % 2 ^ 64;
    oldest_tosync = update_oldest_tosync p.oldest_tosync (release s.reqc).received_at;
  }

  -- `no_grouping`: the device is a directory, and these have no groupings.
  unfoldable pub push_new_sync_to_device : Bool → Dev → SubRequest → Dev
  push_new_sync_to_device no_grouping dev s =
      add_grouping (if no_grouping then none else (release s.reqc).grouping s.medium_index)
        (record dev {
          last_client_rc =
              if (release s.reqc).client_rc s.medium_index == 0
              then dev.last_client_rc
              else (release s.reqc).client_rc s.medium_index;
          sync_params = push_sync_params s dev.sync_params;
          needs_sync = if (release s.reqc).partial then true else dev.needs_sync;
        })

  unfoldable pub oldest_loop : List SubRequest → Timespec → Timespec
  oldest_loop [] oldest = oldest
  oldest_loop (s ∷ ss) oldest =
      oldest_loop ss (update_oldest_tosync oldest (release s.reqc).received_at)

  unfoldable pub update_queue_oldest_tosync : SyncParams → SyncParams
  update_queue_oldest_tosync p =
      if length p.tosync_array == 0
      then record p { oldest_tosync = never }
      else record p { oldest_tosync = oldest_loop p.tosync_array p.oldest_tosync }

  -- What the scan for canceled requests carries along; `cleaned` are the sockets whose waiting IO is
  -- cleaned, `freed` the ended requests.
  pub record Scan : Type 0 where
    pub params : SyncParams
    pub store : Store
    pub cleaned : List ℕ
    pub freed : List ℕ
    pub need_oldest_update : Bool

  unfoldable pub cancel_status : SubRequest → Store → Store
  cancel_status s store = record store {
    status = λ r i. if r == s.reqc && i == s.medium_index then cancel else store.status r i;
  }

  -- The request at index `i` is canceled.
  unfoldable pub cancel_at : ℕ → SubRequest → Scan → Scan
  cancel_at i s c =
      let store = cancel_status s c.store in
      record {
        params = record c.params {
          tosync_array = remove_index_fast c.params.tosync_array i;
          tosync_nb_extents =
              sub64 c.params.tosync_nb_extents ((release s.reqc).nb_extents_written s.medium_index);
          tosync_size = sub64 c.params.tosync_size ((release s.reqc).written_size s.medium_index);
        };
        store = store;
        cleaned =
            if (release s.reqc).partial
            then c.cleaned ++ (release s.reqc).socket_id ∷ []
            else c.cleaned;
        freed = if is_request_tosync_ended store s.reqc then c.freed ++ s.reqc ∷ [] else c.freed;
        need_oldest_update = true;
      }

  -- The loop over the first `n` indexes, from the last one down.
  unfoldable pub cancel_loop : ℕ → Scan → Scan
  cancel_loop zero c = c
  cancel_loop (suc n) c = cancel_loop n (elim (get_elem? c.params.tosync_array n) [
    | none ↦ c
    | some s ↦ if c.store.rc s.reqc == 0 then c else cancel_at n s c
  ])

  unfoldable pub remove_canceled_sync : SyncParams → Store → Scan
  remove_canceled_sync p store =
      let c = cancel_loop (length p.tosync_array) (record {
        params = p;
        store = store;
        cleaned = [];
        freed = [];
        need_oldest_update = false;
      }) in
      if c.need_oldest_update then record c { params = update_queue_oldest_tosync c.params } else c

  unfoldable pub some_partial : List SubRequest → Bool
  some_partial [] = false
  some_partial (s ∷ ss) =
      let rest = some_partial ss in if (release s.reqc).partial then true else rest

  -- The thresholds of the handle, and what the scheduler knows of time and of its own stop.
  pub record Checking : Type 0 where
    pub sync_nb_req : ℕ
    pub sync_time : Timespec
    pub sync_wsize_kb : ℕ
    pub is_past : Timespec → Bool
    pub running : Bool
    pub is_stopping : Bool

  unfoldable pub check_needs_sync : Checking → Dev → Dev
  check_needs_sync h dev =
      let p = dev.sync_params in
      let pending = ltb 0 (length p.tosync_array) in
      let sync_blocking =
        (not h.running && pending) || (h.is_stopping && pending) || not (dev.last_client_rc == 0) in
      record dev {
        needs_sync =
            (pending
              && (leb h.sync_nb_req (length p.tosync_array)
                  || h.is_past (add_timespec p.oldest_tosync h.sync_time)
                  || leb h.sync_wsize_kb p.tosync_size))
            || some_partial p.tosync_array
            || sync_blocking;
        sync_blocking = sync_blocking;
      }
