-- ===== src/Lrs/IoSched/Priority.antt =====
-- The choice between the next requests of the three schedulers:
-- src/lrs/io_schedulers/scheduler_priority_algorithms.c, with cmp_timespec of
-- src/core/common/common.c. A null pointer is `none`; pointers to the same request are compared by
-- the place they come from, since a request is in one scheduler only.
use phobos.Base.Ints.{ℤ, pos, negsuc}
use phobos.Base.{
  ℕ, ◌≡◌, ◌<◌, ◌≤◌, ◌⊎◌, inl, inr, Bool, true, false, Option, none, some, arith, ltb, ◌==◌,
  if◌then◌else◌,
}
use phobos.Lrs.Sync.{Timespec}
use phobos.Lrs.IoSched.{IoType, read, write, format, ByType, at}

unfoldable pub cmp_timespec : Timespec → Timespec → ℤ
cmp_timespec a b =
    if a.tv_sec == b.tv_sec
    then if ltb a.tv_nsec b.tv_nsec
      then negsuc 0
      else if ltb b.tv_nsec a.tv_nsec
      then pos 1
      else pos 0
    else if ltb a.tv_sec b.tv_sec
    then negsuc 0
    else pos 1

unfoldable pub same_request : Option ℕ → Option ℕ → Bool
same_request none none = true
same_request (some a) (some b) = a == b
same_request _ _ = false

-- The requests are numbers; the choice needs the times at which they came.
module _ (received_at : ℕ → Timespec) where
  unfoldable pub oldest_request : Option ℕ → Option ℕ → Option ℕ
  oldest_request none none = none
  oldest_request (some a) none = some a
  oldest_request none (some b) = some b
  oldest_request (some a) (some b) = elim (cmp_timespec (received_at a) (received_at b)) [
    | negsuc _ ↦ some a
    | pos _ ↦ some b
  ]

  -- `a`, if there is one and it is the oldest of it and `b`, and `b` otherwise.
  unfoldable pub or_format : Option ℕ → Option ℕ → Option ℕ
  or_format none b = b
  or_format (some a) b = if same_request (oldest_request (some a) b) (some a) then some a else b

  unfoldable pub fifo_next_request : Option ℕ → Option ℕ → Option ℕ → Option ℕ
  fifo_next_request r w f =
      if same_request (oldest_request r w) r then or_format r f else or_format w f

unfoldable pub next_scheduler : IoType → IoType
next_scheduler read = write
next_scheduler write = format
next_scheduler format = read

-- The three tests of the variable current_scheduler, from the last one up, with its new value.
unfoldable pub try_format : IoType → Option ℕ → Option ℕ × IoType
try_format format f = (f, next_scheduler format)
try_format c f = (none, c)

unfoldable pub try_write : IoType → Option ℕ → Option ℕ → Option ℕ × IoType
try_write write none f = try_format (next_scheduler write) f
try_write write (some w) f = (some w, next_scheduler write)
try_write c w f = try_format c f

unfoldable pub try_read : IoType → Option ℕ → Option ℕ → Option ℕ → Option ℕ × IoType
try_read read none w f = try_write (next_scheduler read) w f
try_read read (some r) w f = (some r, next_scheduler read)
try_read c r w f = try_write c w f

unfoldable pub round_robin : IoType → Option ℕ → Option ℕ → Option ℕ → Option ℕ × IoType
round_robin c none none none = (none, c)
round_robin c r w f = try_read c r w f

-- `a` did not come after `b`.
abbrev pub NotAfter : Timespec → Timespec → Type 0
NotAfter a b = (a.tv_sec < b.tv_sec) ⊎ ((a.tv_sec ≡ b.tv_sec) × (a.tv_nsec ≤ b.tv_nsec))

-- `a` is a waiting request, and none of those that wait came before it.
abbrev pub FirstOf : (ℕ → Timespec) → ℕ → Option ℕ → Type 0
FirstOf received_at a none = Unit
FirstOf received_at a (some b) = NotAfter (received_at a) (received_at b)

module _ (received_at : ℕ → Timespec) where
  -- The outcome of a choice among three: a request among them that none came before, or none, if
  -- there is none.
  abbrev pub IsFirst : Option ℕ → Option ℕ → Option ℕ → Option ℕ → Type 0
  IsFirst r w f none = (r ≡ none) × (w ≡ none) × (f ≡ none)
  IsFirst r w f (some a) =
      ((r ≡ some a) ⊎ ((w ≡ some a) ⊎ (f ≡ some a)))
      × FirstOf received_at a r
      × FirstOf received_at a w
      × FirstOf received_at a f

  -- The first-in first-out choice between the schedulers takes a request that none of the waiting
  -- ones came before, and takes none only if none waits.
  pub fifo_next_request-IsFirst :
      (r w f : Option ℕ) → IsFirst r w f (fifo_next_request received_at r w f)
  unfolding fifo_next_request oldest_request cmp_timespec same_request or_format
  fifo_next_request-IsFirst none none none = ground arith
  fifo_next_request-IsFirst none none (some f) = ground arith
  fifo_next_request-IsFirst none (some w) none = ground arith
  fifo_next_request-IsFirst none (some w) (some f) = ground arith
  fifo_next_request-IsFirst (some r) none none = ground arith
  fifo_next_request-IsFirst (some r) none (some f) = ground arith
  fifo_next_request-IsFirst (some r) (some w) none = ground arith
  fifo_next_request-IsFirst (some r) (some w) (some f) = ground arith

-- The requests at the front of the three schedulers, and a call of the round robin on them.
abbrev pub Heads : Type 0
Heads = ByType (Option ℕ)

abbrev pub turn : IoType → Heads → Option ℕ × IoType
turn c h = round_robin c h.reads h.writes h.formats

-- How many schedulers are tried before `k`.
abbrev ahead : IoType → IoType → ℕ
ahead read read = 0
ahead read write = 1
ahead read format = 2
ahead write read = 2
ahead write write = 0
ahead write format = 1
ahead format read = 1
ahead format write = 2
ahead format format = 0

-- A turn serves a scheduler with a request, or brings its own turn closer.
turn-ahead :
    (c k : IoType) (h : Heads) (a : ℕ)
    → at h k ≡ some a
    → ((turn c h).0 ≡ some a) ⊎ (ahead (turn c h).1 k < ahead c k)
unfolding round_robin try_read try_write try_format next_scheduler
turn-ahead read read h a e = ground arith
turn-ahead read write h a e = ground arith
turn-ahead read format h a e = ground arith
turn-ahead write read h a e = ground arith
turn-ahead write write h a e = ground arith
turn-ahead write format h a e = ground arith
turn-ahead format read h a e = ground arith
turn-ahead format write h a e = ground arith
turn-ahead format format h a e = ground arith

ahead_le : (c k : IoType) → ahead c k ≤ 2
ahead_le read read = omega arith
ahead_le read write = omega arith
ahead_le read format = omega arith
ahead_le write read = omega arith
ahead_le write write = omega arith
ahead_le write format = omega arith
ahead_le format read = omega arith
ahead_le format write = omega arith
ahead_le format format = omega arith

-- A scheduler that has a request at each of three calls in a row is served by one of them.
pub round_robin-serves :
    (c k : IoType) (h1 h2 h3 : Heads) (a1 a2 a3 : ℕ)
    → at h1 k ≡ some a1
    → at h2 k ≡ some a2
    → at h3 k ≡ some a3
    → ((turn c h1).0 ≡ some a1)
      ⊎ (((turn (turn c h1).1 h2).0 ≡ some a2) ⊎ ((turn (turn (turn c h1).1 h2).1 h3).0 ≡ some a3))
round_robin-serves c k h1 h2 h3 a1 a2 a3 e1 e2 e3 = elim (turn-ahead c k h1 a1 e1) [
  | inl served ↦ inl served
  | inr closer ↦ elim (turn-ahead (turn c h1).1 k h2 a2 e2) [
    | inl served ↦ inr (inl served)
    | inr next ↦ elim (turn-ahead (turn (turn c h1).1 h2).1 k h3 a3 e3) [
      | inl served ↦ inr (inr served)
      | inr past ↦ absurd (omega (arith, ahead_le c k))
    ]
  ]
]
