-- ===== src/Lrs/Flush/Examples.antt =====
-- A flush of three pending media of two requests, and the theorems at it.
use phobos.Base.{ℕ, none, ◌==◌, ◌≡◌, refl, true, List, [], ◌∷◌, arith, if◌then◌else◌}
use phobos.Lrs.Sync.{Release, todo, Store, SubRequest, no_todo, is_request_tosync_ended}
use phobos.Lrs.Flush.{
  clean_io, send_error, free_request, flush_one, answers, set_status, set_error, flush_tosync_array,
  nb_errors, flush_tosync_array-nb_errors,
}

-- Request 0 has two media, request 1 one.
abbrev release : ℕ → Release
release r = record {
  received_at = record { tv_sec = 1; tv_nsec = 0 };
  partial = true;
  socket_id = 7;
  n_tosync_media = if r == 0 then 2 else 1;
  written_size = λ i. 5;
  nb_extents_written = λ i. 1;
  client_rc = λ i. 0;
  grouping = λ i. none;
}

abbrev store : Store
store = record { rc = λ r. 0; status = λ r i. todo }

abbrev pending : List SubRequest
pending =
    record { reqc = 0; medium_index = 0 }
    ∷ record { reqc = 1; medium_index = 0 }
    ∷ record { reqc = 0; medium_index = 1 }
    ∷ []

flushes :
    (flush_tosync_array release 5 pending store).events
    ≡ clean_io 7
      ∷ send_error 0 5
      ∷ clean_io 7
      ∷ send_error 1 5
      ∷ free_request 1
      ∷ clean_io 7
      ∷ free_request 0
      ∷ []
unfolding flush_tosync_array flush_one answers set_status set_error is_request_tosync_ended no_todo
flushes = refl

flush_tosync_array-nb_errors_example :
    nb_errors release 0 (flush_tosync_array release 5 pending store).events ≡ 1
flush_tosync_array-nb_errors_example =
    flush_tosync_array-nb_errors release 5 pending store 0 (ground arith)
