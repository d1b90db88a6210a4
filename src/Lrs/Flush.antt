-- ===== src/Lrs/Flush.antt =====
-- The end of a synchronization in src/lrs/lrs_device.c: the requests that waited for it are marked,
-- answered and freed.
use phobos.Base.{
  ℕ, zero, suc, ◌+◌, ◌≡◌, ◌≢◌, refl, ap, ◌∙◌, inl, inr, Bool, true, false, not, ◌&&◌, ◌||◌, List,
  [], ◌∷◌, ◌++◌, arith, ◌==◌, if◌then◌else◌, Bool-cases, length-append, length,
}
use phobos.Lrs.Sync.{
  Timespec, never, done, error, Status, Release, Store, SubRequest, SyncParams, sync_params_init,
  Dev, is_request_tosync_ended,
}
mod Examples

-- What a flush does besides its writes: it moves or cleans the IO of a socket, sends a response and
-- frees a request.
pub data Event : Type 0 where
  move_io clean_io : ℕ → Event
  send_error : ℕ → ℕ → Event
  send_release free_request : ℕ → Event

pub record Flushed : Type 0 where
  pub store : Store
  pub events : List Event

-- The write of a medium's status.
unfoldable pub set_status : SubRequest → Status → Store → Store
set_status s status store = record store {
  status = λ r i. if r == s.reqc && i == s.medium_index then status else store.status r i;
}

-- The first error of a request is kept.
unfoldable pub set_error : ℕ → SubRequest → Store → Store
set_error code s store = record store {
  rc = λ r. if r == s.reqc && store.rc r == 0 then code else store.rc r;
}

abbrev when : Bool → Event → List Event
when true e = e ∷ []
when false e = []

module _ (release : ℕ → Release) where
  -- What the body of the loop does for the request after its writes.
  unfoldable pub answers : ℕ → ℕ → Bool → Store → List Event
  answers code r first_error store =
      let ended = is_request_tosync_ended release store r in
      let socket = (release r).socket_id in
      when ((release r).partial && store.rc r == 0) (move_io socket)
      ++ when ((release r).partial && not (store.rc r == 0)) (clean_io socket)
      ++ when first_error (send_error r code)
      ++ when (ended && store.rc r == 0) (send_release r)
      ++ when ended (free_request r)

  -- The body of the loop, at the last request of the array.
  unfoldable pub flush_one : ℕ → SubRequest → Flushed → Flushed
  flush_one code s f =
      let r = s.reqc in
      let first_error = not (code == 0) && f.store.rc r == 0 in
      let store =
        if code == 0
        then set_status s done f.store
        else set_status s error (set_error code s f.store) in
      record { store = store; events = f.events ++ answers code r first_error store }

  -- The loop takes the requests from the end of the array.
  unfoldable pub flush_tosync_array : ℕ → List SubRequest → Store → Flushed
  flush_tosync_array code [] store = record { store = store; events = [] }
  flush_tosync_array code (s ∷ ss) store = flush_one code s (flush_tosync_array code ss store)

  unfoldable pub flush_and_reset_tosync : ℕ → Dev → Store → Dev × Flushed
  flush_and_reset_tosync code dev store = (
    record dev { sync_params = sync_params_init; needs_sync = false; sync_blocking = false },
    flush_tosync_array code dev.sync_params.tosync_array store,
  )

  -- The request has a medium among those.
  abbrev pub is_pending : List SubRequest → ℕ → Bool
  is_pending [] r = false
  is_pending (s ∷ ss) r = r == s.reqc || is_pending ss r

  abbrev is_error : ℕ → Event → ℕ
  is_error r (send_error q code) = if r == q then 1 else 0
  is_error r _ = 0

  abbrev pub nb_errors : ℕ → List Event → ℕ
  nb_errors r [] = 0
  nb_errors r (e ∷ es) = is_error r e + nb_errors r es

  nb_errors-append :
      (r : ℕ) (es fs : List Event) → nb_errors r (es ++ fs) ≡ nb_errors r es + nb_errors r fs
  nb_errors-append r [] fs = omega arith
  nb_errors-append r (e ∷ es) fs = omega (arith, nb_errors-append r es fs)

  -- After a flush, a request has failed if it had, or if it was pending and the sync failed.
  flush-rc :
      (code : ℕ) (ss : List SubRequest) (store : Store) (r : ℕ)
      → (flush_tosync_array code ss store).store.rc r
        ≡ (if is_pending ss r && store.rc r == 0 then code else store.rc r)
  unfolding flush_tosync_array flush_one set_status set_error
  flush-rc code [] store r = refl
  flush-rc code (s ∷ ss) store r = ground (arith, flush-rc code ss store r)

  nb_errors-when :
      (r : ℕ) (b : Bool) (e : Event) (fs : List Event)
      → nb_errors r (when b e ++ fs) ≡ (if b then is_error r e else 0) + nb_errors r fs
  nb_errors-when r true e fs = refl
  nb_errors-when r false e fs = omega arith

  -- Only one of the events that may follow is an error.
  nb_errors-tail :
      (r q code k : ℕ) (b₁ b₂ b₃ b₄ b₅ : Bool)
      → nb_errors r (
          when b₁ (move_io k)
          ++ when b₂ (clean_io k)
          ++ when b₃ (send_error q code)
          ++ when b₄ (send_release q)
          ++ when b₅ (free_request q))
        ≡ (if b₃ && r == q then 1 else 0)
  nb_errors-tail r q code k b₁ b₂ b₃ b₄ b₅ = ground (
    arith,
    nb_errors-when r b₁ (move_io k),
    nb_errors-when r b₂ (clean_io k),
    nb_errors-when r b₃ (send_error q code),
    nb_errors-when r b₄ (send_release q),
  )

  nb_errors-answers :
      (r q code : ℕ) (first_error : Bool) (store : Store)
      → nb_errors r (answers code q first_error store) ≡ (if first_error && r == q then 1 else 0)
  unfolding answers
  nb_errors-answers r q code first_error store = nb_errors-tail r q code _ _ _ _ _ _

  flush_one-errors :
      (code : ℕ) (s : SubRequest) (f : Flushed) (r : ℕ)
      → nb_errors r (flush_one code s f).events
        ≡ nb_errors r f.events
          + (if (not (code == 0) && f.store.rc s.reqc == 0) && r == s.reqc then 1 else 0)
  unfolding flush_one
  flush_one-errors code s f r =
      nb_errors-append r f.events _
      ∙ ap (λ n. nb_errors r f.events + n) (nb_errors-answers r s.reqc code _ _)

  -- A failed sync sends just one error for each request that has a medium pending and that had not
  -- failed before, however many of its media are pending, and none for another request.
  pub flush_tosync_array-nb_errors :
      (code : ℕ) (ss : List SubRequest) (store : Store) (r : ℕ)
      → code ≢ 0
      → nb_errors r (flush_tosync_array code ss store).events
        ≡ (if is_pending ss r && store.rc r == 0 then 1 else 0)
  unfolding flush_tosync_array
  flush_tosync_array-nb_errors code [] store r h = refl
  flush_tosync_array-nb_errors code (s ∷ ss) store r h =
      let f = flush_tosync_array code ss store in
      ground (
        arith,
        flush_one-errors code s f r,
        flush_tosync_array-nb_errors code ss store r h,
        flush-rc code ss store r,
        flush-rc code ss store s.reqc,
      )

  -- Every pending medium of a flush is marked with the outcome of the sync, and no other medium is.
  abbrev pub is_marked : List SubRequest → ℕ → ℕ → Bool
  is_marked [] r i = false
  is_marked (s ∷ ss) r i = (r == s.reqc && i == s.medium_index) || is_marked ss r i

  -- A flush marks each pending medium as done, or as failed if the sync failed, and no other; it
  -- gives the error to the requests that had none and leaves all other requests' codes.
  pub flush_tosync_array-store :
      (code : ℕ) (ss : List SubRequest) (store : Store) (r i : ℕ)
      → ((flush_tosync_array code ss store).store.status r i
          ≡ (if is_marked ss r i then (if code == 0 then done else error) else store.status r i))
        × ((flush_tosync_array code ss store).store.rc r
            ≡ (if is_pending ss r && store.rc r == 0 then code else store.rc r))
  unfolding flush_tosync_array flush_one set_status set_error
  flush_tosync_array-store code [] store r i = (refl, refl)
  flush_tosync_array-store code (s ∷ ss) store r i =
      (ground (arith, flush_tosync_array-store code ss store r i), flush-rc code (s ∷ ss) store r)
