-- ===== src/Lrs/IoSched/Fifo/Writers.antt =====
-- The search of src/lrs/io_schedulers/fifo.c for the writes in a grouping, against a count of the
-- sockets that write in it.
use phobos.Base.{
  ℕ, suc, ◌+◌, ◌≡◌, ◌<◌, ap, refl, sym, ◌∙◌, inl, inr, Bool, true, false, ◌&&◌, ◌||◌, List, [], ◌∷◌,
  ◌++◌, Option, none, some, arith, ◌==◌, leb, if◌then◌else◌, Bool-cases,
}
use phobos.StringArray.CString.{Bytes}
use phobos.Lrs.IoSched.Fifo.{
  Request, Writes, Busy, array_find, record_new_write, unless_full, has_grouping, check_write,
  check_ongoing_write, is_write, check_arriving_write, check_devices,
  current_write_per_grouping_greater_than_max,
}

-- The sockets that write in the grouping.
abbrev ongoing_writers : Bytes → List (ℕ × Option Bytes) → List ℕ
ongoing_writers g [] = []
ongoing_writers g ((socket, grouping) ∷ ongoing) =
    if has_grouping grouping g
    then socket ∷ ongoing_writers g ongoing
    else ongoing_writers g ongoing

abbrev arriving_writer : (ℕ → Request) → Bytes → Option ℕ → List ℕ
arriving_writer request g none = []
arriving_writer request g (some r) =
    if is_write (request r) && has_grouping (request r).grouping g
    then (request r).socket_id ∷ []
    else []

abbrev pub writers : (ℕ → Request) → Bytes → List Busy → List ℕ
writers request g [] = []
writers request g (dev ∷ devices) =
    (arriving_writer request g dev.sub_request
      ++ ongoing_writers g dev.ongoing_io
      ++ ongoing_writers g dev.ongoing_partial_io_waiting_sync)
    ++ writers request g devices

-- How many sockets of the list are not in `known`, each counted once.
abbrev pub nb_new : List ℕ → List ℕ → ℕ
nb_new known [] = 0
nb_new known (s ∷ ss) =
    if array_find known s || array_find ss s then nb_new known ss else suc (nb_new known ss)

array_find-snoc :
    (ts : List ℕ) (t s : ℕ) → array_find (ts ++ t ∷ []) s ≡ (array_find ts s || t == s)
unfolding array_find
array_find-snoc [] t s = ground arith
array_find-snoc (u ∷ ts) t s = ground (arith, array_find-snoc ts t s)

nb_new-snoc :
    (known : List ℕ) (t : ℕ) (ss : List ℕ)
    → array_find known t ≡ false
    → nb_new (known ++ t ∷ []) ss + (if array_find ss t then 1 else 0) ≡ nb_new known ss
unfolding array_find
nb_new-snoc known t [] h = omega arith
nb_new-snoc known t (s ∷ ss) h = ground (arith, array_find-snoc known t s, nb_new-snoc known t ss h)

-- The search over a list of sockets.
abbrev scan : ℕ → List ℕ → Writes → Bool × Writes
scan max [] w = (false, w)
scan max (s ∷ ss) w =
    unless_full (if array_find w.socket_id_array s then (false, w) else record_new_write max s w)
      (scan max ss)

scan-new :
    (max s : ℕ) (ss : List ℕ) (w : Writes)
    → w.nb_write < max
    → array_find w.socket_id_array s ≡ false
    → ((v : Writes)
        → v.nb_write < max
        → (scan max ss v).0 ≡ leb max (v.nb_write + nb_new v.socket_id_array ss))
    → (unless_full (record_new_write max s w) (scan max ss)).0
      ≡ leb max (
          w.nb_write
          + (if array_find ss s
              then nb_new w.socket_id_array ss
              else suc (nb_new w.socket_id_array ss)))
unfolding record_new_write
scan-new max s ss w h new rest = elim (Bool-cases (leb max (w.nb_write + 1))) [
  | inl full ↦ rw full (ground (arith, nb_new-snoc w.socket_id_array s ss new))
  | inr room ↦
      rw
        (
          room,
          rest (record { nb_write = w.nb_write + 1; socket_id_array = w.socket_id_array ++ s ∷ [] })
              (ground arith),
        )
        (ground (arith, nb_new-snoc w.socket_id_array s ss new))
]

scan-nb_new :
    (max : ℕ) (ss : List ℕ) (w : Writes)
    → w.nb_write < max
    → (scan max ss w).0 ≡ leb max (w.nb_write + nb_new w.socket_id_array ss)
scan-nb_new max [] w h = ground arith
scan-nb_new max (s ∷ ss) w h = elim (Bool-cases (array_find w.socket_id_array s)) [
  | inl old ↦ rw old (scan-nb_new max ss w h)
  | inr new ↦ rw new (scan-new max s ss w h new (scan-nb_new max ss))
]

unless_full_assoc :
    (r : Bool × Writes) (f k : Writes → Bool × Writes)
    → unless_full (unless_full r f) k ≡ unless_full r (λ w. unless_full (f w) k)
unless_full_assoc (true, w) f k = refl
unless_full_assoc (false, w) f k = refl

unless_full-cong :
    {r q : Bool × Writes} {f k : Writes → Bool × Writes}
    → r ≡ q
    → ((w : Writes) → f w ≡ k w)
    → unless_full r f ≡ unless_full q k
unless_full-cong e d i = unless_full (e i) (λ w. d w i)

scan-append :
    (max : ℕ) (ss ts : List ℕ) (w : Writes)
    → scan max (ss ++ ts) w ≡ unless_full (scan max ss w) (scan max ts)
scan-append max [] ts w = refl
scan-append max (s ∷ ss) ts w =
    unless_full-cong refl (scan-append max ss ts)
    ∙ sym (unless_full_assoc _ (scan max ss) (scan max ts))

check_ongoing_write-scan :
    (max : ℕ) (g : Bytes) (ongoing : List (ℕ × Option Bytes)) (w : Writes)
    → check_ongoing_write max g ongoing w ≡ scan max (ongoing_writers g ongoing) w
unfolding check_ongoing_write check_write
check_ongoing_write-scan max g [] w = refl
check_ongoing_write-scan max g ((s, grouping) ∷ ongoing) w =
    unless_full-cong refl (check_ongoing_write-scan max g ongoing)
    ∙ elim (Bool-cases (has_grouping grouping g)) [
      | inl named ↦
          rw (named, check_write)
            (elim (Bool-cases (array_find w.socket_id_array s)) [
              | inl old ↦ rw old refl
              | inr new ↦ rw new refl
            ])
      | inr other ↦ rw (other, check_write) refl
    ]

check_arriving_write-scan :
    (request : ℕ → Request) (max : ℕ) (g : Bytes) (r : Option ℕ) (w : Writes)
    → check_arriving_write request max g r w ≡ scan max (arriving_writer request g r) w
unfolding check_arriving_write check_write
check_arriving_write-scan request max g none w = refl
check_arriving_write-scan request max g (some r) w = ground arith

check_devices-scan :
    (request : ℕ → Request) (max : ℕ) (g : Bytes) (devices : List Busy) (w : Writes)
    → check_devices request max g devices w ≡ scan max (writers request g devices) w
unfolding check_devices
check_devices-scan request max g [] w = refl
check_devices-scan request max g (dev ∷ devices) w =
    let first = arriving_writer request g dev.sub_request in
    let second = ongoing_writers g dev.ongoing_io in
    let third = ongoing_writers g dev.ongoing_partial_io_waiting_sync in
    let after = writers request g devices in
    let step =
      unless_full-cong (check_arriving_write-scan request max g dev.sub_request w)
        (check_ongoing_write-scan max g dev.ongoing_io) in
    let step2 =
      unless_full-cong (step ∙ sym (scan-append max first second w))
        (check_ongoing_write-scan max g dev.ongoing_partial_io_waiting_sync) in
    unless_full-cong (step2 ∙ sym (scan-append max (first ++ second) third w))
      (check_devices-scan request max g devices)
    ∙ sym (scan-append max (first ++ second ++ third) after w)

-- With a limit above 0, the search tells whether the sockets that write in the grouping on some
-- device, each counted once, have reached the limit.
pub current_write_per_grouping_greater_than_max-writers :
    (request : ℕ → Request) (devices : List Busy) (g : Bytes) (max : ℕ)
    → 0 < max
    → current_write_per_grouping_greater_than_max request devices g max
      ≡ leb max (nb_new [] (writers request g devices))
unfolding current_write_per_grouping_greater_than_max
current_write_per_grouping_greater_than_max-writers request devices g max h =
    let start : Writes = record { nb_write = 0; socket_id_array = [] } in
    ap (λ r. r.0) (check_devices-scan request max g devices start)
    ∙ ground (arith, scan-nb_new max (writers request g devices) start h)
