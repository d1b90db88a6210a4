-- ===== src/Lrs/Sync/Examples.antt =====
-- Two releases that wait for a synchronization, and the theorems at them.
use phobos.Base.{
  ℕ, ◌≡◌, ◌≢◌, refl, false, [], ◌∷◌, none, arith, length, if◌then◌else◌, ◌==◌, suc, ◌+◌,
}
use phobos.Lrs.Sync.{
  is_older_or_equal, todo, Release, Store, SubRequest, SyncParams, Dev, sync_params_init,
  update_oldest_tosync, drop_last, last, remove_index_fast, add_grouping, push_sync_params,
  push_new_sync_to_device, is_request_tosync_ended, no_todo, cancel_status, oldest_loop,
  update_queue_oldest_tosync, cancel_at, cancel_loop, remove_canceled_sync,
}
use phobos.Lrs.Sync.Pending.{
  IsPending, push_new_sync_to_device-IsPending, remove_canceled_sync-IsPending,
}
use phobos.Lrs.Sync.Stale.{remove_canceled_sync-oldest_tosync}

-- Request `r` came at second `10 + r`; it wrote 5 KiB in one extent.
abbrev release : ℕ → Release
release r = record {
  received_at = record { tv_sec = suc (9 + r); tv_nsec = 0 };
  partial = false;
  socket_id = r;
  n_tosync_media = 1;
  written_size = λ i. 5;
  nb_extents_written = λ i. 1;
  client_rc = λ i. 0;
  grouping = λ i. none;
}

-- Request 0 failed on another device.
abbrev store : Store
store = record { rc = λ r. if r == 0 then 5 else 0; status = λ r i. todo }

abbrev first : SubRequest
first = record { reqc = 0; medium_index = 0 }

abbrev second : SubRequest
second = record { reqc = 1; medium_index = 0 }

abbrev idle : Dev
idle = record {
  sync_params = sync_params_init;
  needs_sync = false;
  sync_blocking = false;
  last_client_rc = 0;
  groupings = [];
}

abbrev waiting : SyncParams
waiting = record {
  tosync_array = first ∷ second ∷ [];
  oldest_tosync = record { tv_sec = 10; tv_nsec = 0 };
  tosync_size = 10;
  tosync_nb_extents = 2;
  groupings_to_update = false;
}

pushes :
    (push_new_sync_to_device release false
      (push_new_sync_to_device release false idle first)
      second).sync_params
    ≡ waiting
unfolding push_new_sync_to_device add_grouping push_sync_params update_oldest_tosync
    is_older_or_equal sync_params_init
pushes = refl

idle-IsPending : IsPending release idle.sync_params
unfolding sync_params_init
idle-IsPending = record {
  summed = record {
    size = refl;
    extents = refl;
    size_fits = omega arith;
    extents_fit = omega arith;
    oldest = tt;
    clocked = tt;
    idle = λ e. refl;
  };
  settled = λ e. refl;
}

waiting-IsPending : IsPending release waiting
unfolding is_older_or_equal
waiting-IsPending = record {
  summed = record {
    size = refl;
    extents = refl;
    size_fits = omega arith;
    extents_fit = omega arith;
    oldest = (refl, (refl, tt));
    clocked = (refl, (refl, tt));
    idle = λ e. absurd (ground arith);
  };
  settled = λ e. absurd (ground arith);
}

push_new_sync_to_device-IsPending_example :
    IsPending release (push_new_sync_to_device release false idle first).sync_params
unfolding sync_params_init
push_new_sync_to_device-IsPending_example =
    push_new_sync_to_device-IsPending release false idle first refl (omega arith) (omega arith)
      idle-IsPending

remove_canceled_sync-IsPending_example :
    IsPending release (remove_canceled_sync release waiting store).params
remove_canceled_sync-IsPending_example =
    remove_canceled_sync-IsPending release waiting store waiting-IsPending

second_left : length (remove_canceled_sync release waiting store).params.tosync_array ≢ 0
unfolding remove_canceled_sync cancel_loop cancel_at cancel_status remove_index_fast drop_last last
    is_request_tosync_ended no_todo update_queue_oldest_tosync oldest_loop update_oldest_tosync
    is_older_or_equal
second_left = ground arith

-- Only the request of second 11 is left, but the time is that of the canceled one.
remove_canceled_sync-oldest_tosync_example :
    (remove_canceled_sync release waiting store).params.oldest_tosync ≡ waiting.oldest_tosync
remove_canceled_sync-oldest_tosync_example =
    remove_canceled_sync-oldest_tosync release waiting store waiting-IsPending second_left
