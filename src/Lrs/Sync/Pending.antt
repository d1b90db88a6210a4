-- ===== src/Lrs/Sync/Pending.antt =====
-- The consistency of the pending synchronizations of lrs_device.c: of the sums and of
-- `oldest_tosync` with the array of requests.
use phobos.Base.{
  All-append, ℕ, zero, suc, ◌+◌, ◌<◌, ◌≡◌, refl, ap, ◌≢◌, ◌⊎◌, inl, inr, Bool, true, false, ◌&&◌,
  List, [], ◌∷◌, ◌++◌, Option, none, some, arith, ◌==◌, length-append, length, get_elem?, All,
  Option-cases, Bool-cases,
}
use phobos.Base.Words.{u64_mod, sub64_of_le}
use phobos.StringArray.CString.{Bytes, contains}
use phobos.Lrs.Sync.{
  Timespec, never, is_older_or_equal, Release, Store, SubRequest, SyncParams, Dev,
  update_oldest_tosync, add_grouping, push_sync_params, push_new_sync_to_device, oldest_loop,
  update_queue_oldest_tosync, Scan, cancel_at, cancel_loop, remove_canceled_sync,
}
use phobos.Lrs.Sync.Totals.{total, total-append, total-remove_index_fast, All-remove_index_fast}

abbrev pub is_never : Timespec → Bool
is_never t = t.tv_sec == 0 && t.tv_nsec == 0

abbrev pub Older : Timespec → Timespec → Type 0
Older a b = is_older_or_equal a b ≡ true

pub Older-trans : (a b c : Timespec) → Older a b → Older b c → Older a c
unfolding is_older_or_equal
Older-trans a b c h k = ground arith

-- A kept time moves to the candidate only if that is older.
pub update_oldest_tosync-Older :
    (o c : Timespec)
    → is_never o ≡ false
    → Older (update_oldest_tosync o c) o × Older (update_oldest_tosync o c) c
unfolding update_oldest_tosync is_older_or_equal
update_oldest_tosync-Older o c h = (ground arith, ground arith)

pub is_never-update_oldest_tosync :
    (o c : Timespec) → is_never c ≡ false → is_never (update_oldest_tosync o c) ≡ false
unfolding update_oldest_tosync is_older_or_equal
is_never-update_oldest_tosync o c h = ground arith

update_oldest_tosync_none : (o c : Timespec) → is_never o ≡ true → update_oldest_tosync o c ≡ c
unfolding update_oldest_tosync
update_oldest_tosync_none o c h = ground arith

update_oldest_tosync_same :
    (o c : Timespec) → is_never o ≡ false → Older o c → update_oldest_tosync o c ≡ o
unfolding update_oldest_tosync is_older_or_equal
update_oldest_tosync_same o c h k = ground arith

none_left : (ss : List SubRequest) → length ss ≡ 0 → ss ≡ []
none_left [] h = refl
none_left (s ∷ ss) h = absurd (omega arith)

Older-self : (a : Timespec) → Older a a
unfolding is_older_or_equal
Older-self a = ground arith

module _ (release : ℕ → Release) where
  abbrev pub received : SubRequest → Timespec
  received s = (release s.reqc).received_at

  abbrev pub size_of : SubRequest → ℕ
  size_of s = (release s.reqc).written_size s.medium_index

  abbrev pub extents_of : SubRequest → ℕ
  extents_of s = (release s.reqc).nb_extents_written s.medium_index

  -- The consistency that holds also in the middle of a scan.
  pub record IsSummed (p : SyncParams) : Type 0 where
    pub size : p.tosync_size ≡ total size_of p.tosync_array
    pub extents : p.tosync_nb_extents ≡ total extents_of p.tosync_array
    pub size_fits : p.tosync_size < u64_mod
    pub extents_fit : p.tosync_nb_extents < u64_mod
    pub oldest : All (λ s. Older p.oldest_tosync (received s)) p.tosync_array
    pub clocked : All (λ s. is_never (received s) ≡ false) p.tosync_array
    pub idle : is_never p.oldest_tosync ≡ true → p.tosync_array ≡ []

  -- Between the calls, moreover, no time is kept when nothing is pending.
  pub record IsPending (p : SyncParams) : Type 0 where
    pub summed : IsSummed p
    pub settled : p.tosync_array ≡ [] → p.oldest_tosync ≡ never

  All-Older :
      (o o' : Timespec) (ss : List SubRequest)
      → Older o' o
      → All (λ s. Older o (received s)) ss
      → All (λ s. Older o' (received s)) ss
  All-Older o o' [] h a = tt
  All-Older o o' (s ∷ ss) h a = (Older-trans o' o (received s) h a.0, All-Older o o' ss h a.1)

  push-oldest :
      (p : SyncParams) (s : SubRequest)
      → IsSummed p
      → All
          (λ r. Older (update_oldest_tosync p.oldest_tosync (received s)) (received r))
          (p.tosync_array ++ s ∷ [])
  push-oldest p s v = elim (Bool-cases (is_never p.oldest_tosync)) [
    | inl idle ↦
        rw (v.idle idle, update_oldest_tosync_none p.oldest_tosync (received s) idle)
          (Older-self (received s), tt)
    | inr busy ↦
        let (same, new) = update_oldest_tosync-Older p.oldest_tosync (received s) busy in
        All-append (λ r. Older (update_oldest_tosync p.oldest_tosync (received s)) (received r))
          p.tosync_array (s ∷ []) (All-Older _ _ p.tosync_array same v.oldest) (new, tt)
  ]

  push_sync_params-IsPending :
      (p : SyncParams) (s : SubRequest)
      → is_never (received s) ≡ false
      → p.tosync_size + size_of s < u64_mod
      → p.tosync_nb_extents + extents_of s < u64_mod
      → IsPending p
      → IsPending (push_sync_params release s p)
  unfolding push_sync_params
  push_sync_params-IsPending p s c small few v = record {
    summed = record {
      size = omega (arith, v.summed.size, total-append size_of p.tosync_array (s ∷ []));
      extents = omega (arith, v.summed.extents, total-append extents_of p.tosync_array (s ∷ []));
      size_fits = omega arith;
      extents_fit = omega arith;
      oldest = push-oldest p s v.summed;
      clocked =
          All-append (λ r. is_never (received r) ≡ false) p.tosync_array (s ∷ []) v.summed.clocked
            (c, tt);
      idle = λ e.
          absurd (ground (arith, is_never-update_oldest_tosync p.oldest_tosync (received s) c));
    };
    settled = λ e. absurd (omega (arith, ap length e, length-append p.tosync_array (s ∷ [])));
  }

  add_grouping-IsPending :
      (g : Option Bytes) (dev : Dev)
      → IsPending dev.sync_params
      → IsPending (add_grouping release g dev).sync_params
  unfolding add_grouping
  add_grouping-IsPending none dev v = v
  add_grouping-IsPending (some g) dev v = elim (Bool-cases (contains dev.groupings g)) [
    | inl old ↦ rw (old, add_grouping) v
    | inr new ↦
        rw (new, add_grouping)
          (record {
            summed = record {
              size = v.summed.size;
              extents = v.summed.extents;
              size_fits = v.summed.size_fits;
              extents_fit = v.summed.extents_fit;
              oldest = v.summed.oldest;
              clocked = v.summed.clocked;
              idle = v.summed.idle;
            };
            settled = v.settled;
          })
  ]

  -- A new request keeps the pending synchronizations consistent: the sums are those of all pending
  -- requests, and `oldest_tosync` is as old as each of them. It has to have been received at a
  -- time other than 0, and the sums must fit in 64 bits.
  pub push_new_sync_to_device-IsPending :
      (no_grouping : Bool) (dev : Dev) (s : SubRequest)
      → is_never (received s) ≡ false
      → dev.sync_params.tosync_size + size_of s < u64_mod
      → dev.sync_params.tosync_nb_extents + extents_of s < u64_mod
      → IsPending dev.sync_params
      → IsPending (push_new_sync_to_device release no_grouping dev s).sync_params
  unfolding push_new_sync_to_device
  push_new_sync_to_device-IsPending no_grouping dev s c small few v =
      add_grouping-IsPending _ _ (push_sync_params-IsPending dev.sync_params s c small few v)

  -- In the middle of a scan that started at `p`.
  pub record Scanning (p : SyncParams) (c : Scan release) : Type 0 where
    pub summed : IsSummed c.params
    pub unmoved : c.params.oldest_tosync ≡ p.oldest_tosync
    pub whole : (c.need_oldest_update ≡ true) ⊎ (c.params ≡ p)

  cancel_at-Scanning :
      (p : SyncParams) (i : ℕ) (s : SubRequest) (c : Scan release)
      → get_elem? c.params.tosync_array i ≡ some s
      → Scanning p c
      → Scanning p (cancel_at release i s c)
  unfolding cancel_at
  cancel_at-Scanning p i s c e v =
      let size = total-remove_index_fast size_of c.params.tosync_array i s e in
      let extents = total-remove_index_fast extents_of c.params.tosync_array i s e in
      record {
        summed = record {
          size = omega (
            arith,
            size,
            v.summed.size,
            v.summed.size_fits,
            sub64_of_le c.params.tosync_size (size_of s),
          );
          extents = omega (
            arith,
            extents,
            v.summed.extents,
            v.summed.extents_fit,
            sub64_of_le c.params.tosync_nb_extents (extents_of s),
          );
          size_fits = omega arith;
          extents_fit = omega arith;
          oldest =
              All-remove_index_fast (λ r. Older c.params.oldest_tosync (received r))
                c.params.tosync_array i v.summed.oldest;
          clocked =
              All-remove_index_fast (λ r. is_never (received r) ≡ false) c.params.tosync_array i
                v.summed.clocked;
          idle = λ h.
              let q = v.summed.idle h in
              let z : get_elem? {A = SubRequest} [] i ≡ some s = rw q at e in
              absurd (ground (arith, z));
        };
        unmoved = v.unmoved;
        whole = inl refl;
      }

  pub cancel_loop-Scanning :
      (p : SyncParams) (n : ℕ) (c : Scan release)
      → Scanning p c
      → Scanning p (cancel_loop release n c)
  unfolding cancel_loop
  cancel_loop-Scanning p zero c v = v
  cancel_loop-Scanning p (suc n) c v = elim (Option-cases (get_elem? c.params.tosync_array n)) [
    | inl e ↦ rw (e, cancel_loop) (cancel_loop-Scanning p n c v)
    | inr (s, e) ↦ elim (Bool-cases (c.store.rc s.reqc == 0)) [
      | inl fine ↦ rw (e, fine, cancel_loop) (cancel_loop-Scanning p n c v)
      | inr failed ↦
          rw (e, failed, cancel_loop)
            (cancel_loop-Scanning p n (cancel_at release n s c) (cancel_at-Scanning p n s c e v))
    ]
  ]

  -- A kept time that no candidate precedes stays as it is.
  oldest_loop_same :
      (ss : List SubRequest) (o : Timespec)
      → is_never o ≡ false
      → All (λ s. Older o (received s)) ss
      → oldest_loop release ss o ≡ o
  unfolding oldest_loop
  oldest_loop_same [] o h a = refl
  oldest_loop_same (s ∷ ss) o h a =
      rw (update_oldest_tosync_same o (received s) h a.0) (oldest_loop_same ss o h a.1)

  is_never-oldest :
      (p : SyncParams) → IsSummed p → length p.tosync_array ≢ 0 → is_never p.oldest_tosync ≡ false
  is_never-oldest p v h = elim (Bool-cases (is_never p.oldest_tosync)) [
    | inl idle ↦ absurd (h (ap length (v.idle idle)))
    | inr busy ↦ busy
  ]

  -- The update does not find the time of another request.
  pub update_queue_oldest_tosync_busy :
      (p : SyncParams)
      → IsSummed p
      → length p.tosync_array ≢ 0
      → update_queue_oldest_tosync release p ≡ p
  unfolding update_queue_oldest_tosync
  update_queue_oldest_tosync_busy p v h =
      let busy : (length p.tosync_array == 0) ≡ false = ground arith in
      rw
        (
          busy,
          oldest_loop_same p.tosync_array p.oldest_tosync (is_never-oldest p v h) v.oldest,
          update_queue_oldest_tosync,
        )
        refl

  queue-IsPending : (p : SyncParams) → IsSummed p → IsPending (update_queue_oldest_tosync release p)
  unfolding update_queue_oldest_tosync
  queue-IsPending p v = elim (Bool-cases (length p.tosync_array == 0)) [
    | inl empty ↦
        let q = none_left p.tosync_array (ground arith) in
        rw (empty, update_queue_oldest_tosync)
          (record {
            summed = record {
              size = v.size;
              extents = v.extents;
              size_fits = v.size_fits;
              extents_fit = v.extents_fit;
              oldest = rw q tt;
              clocked = v.clocked;
              idle = λ h. q;
            };
            settled = λ e. refl;
          })
    | inr busy ↦
        rw (update_queue_oldest_tosync_busy p v (ground arith))
          (record { summed = v; settled = λ e. absurd (ground (arith, ap length e)) })
  ]

  -- Taking the canceled requests out keeps the pending synchronizations consistent.
  pub remove_canceled_sync-IsPending :
      (p : SyncParams) (store : Store)
      → IsPending p
      → IsPending (remove_canceled_sync release p store).params
  unfolding remove_canceled_sync
  remove_canceled_sync-IsPending p store v =
      let c₀ : Scan release = record {
        params = p;
        store = store;
        cleaned = [];
        freed = [];
        need_oldest_update = false;
      } in
      let c = cancel_loop release (length p.tosync_array) c₀ in
      let w =
        cancel_loop-Scanning p (length p.tosync_array) c₀
          (record { summed = v.summed; unmoved = refl; whole = inr refl }) in
      elim (Bool-cases c.need_oldest_update) [
        | inl need ↦ rw (need, remove_canceled_sync) (queue-IsPending c.params w.summed)
        | inr none_gone ↦
            rw (none_gone, remove_canceled_sync)
              (elim w.whole [ inl need ↦ absurd (ground arith) | inr same ↦ rw same v ])
      ]
