-- ===== src/Lrs/Sync/Stale.antt =====
-- The time that lrs_device.c keeps of the oldest pending request, once that request is canceled.
use phobos.Base.{ℕ, ◌≡◌, ◌≢◌, refl, inl, inr, false, [], arith, length, Bool-cases}
use phobos.Lrs.Sync.{
  Release, Store, SyncParams, update_queue_oldest_tosync, Scan, cancel_loop, remove_canceled_sync,
}
use phobos.Lrs.Sync.Pending.{IsPending, cancel_loop-Scanning, update_queue_oldest_tosync_busy}

update_queue_array :
    (release : ℕ → Release) (p : SyncParams)
    → (update_queue_oldest_tosync release p).tosync_array ≡ p.tosync_array
unfolding update_queue_oldest_tosync
update_queue_array release p = ground arith

-- While requests are pending, taking canceled ones out never changes `oldest_tosync`, also where
-- the request of that time is among those taken out.
pub remove_canceled_sync-oldest_tosync :
    (release : ℕ → Release) (p : SyncParams) (store : Store)
    → IsPending release p
    → length (remove_canceled_sync release p store).params.tosync_array ≢ 0
    → (remove_canceled_sync release p store).params.oldest_tosync ≡ p.oldest_tosync
unfolding remove_canceled_sync
remove_canceled_sync-oldest_tosync release p store v some_left =
    let c₀ : Scan release = record {
      params = p;
      store = store;
      cleaned = [];
      freed = [];
      need_oldest_update = false;
    } in
    let c = cancel_loop release (length p.tosync_array) c₀ in
    let w =
      cancel_loop-Scanning release p (length p.tosync_array) c₀
        (record { summed = v.summed; unmoved = refl; whole = inr refl }) in
    elim (Bool-cases c.need_oldest_update) [
      | inl need ↦
          let left = rw (need, remove_canceled_sync) at some_left in
          let left' : length c.params.tosync_array ≢ 0 =
            rw (update_queue_array release c.params) at left in
          let same = update_queue_oldest_tosync_busy release c.params w.summed left' in
          rw (need, same, remove_canceled_sync) w.unmoved
      | inr kept ↦ rw (kept, remove_canceled_sync) w.unmoved
    ]
