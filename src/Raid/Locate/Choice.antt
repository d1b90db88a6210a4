-- ===== src/Raid/Locate/Choice.antt =====
-- The hosts that can read every split, and the best of them.
use phobos.Base.{
  ℕ, zero, suc, ◌+◌, ◌*◌, ◌/◌, ◌≤◌, ◌≡◌, refl, sym, subst, ◌∙◌, ◌⊎◌, inl, inr, Bool, false, ◌&&◌,
  ◌||◌, List, [], ◌∷◌, Option, none, some, arith, ltb, leb, ◌==◌, if◌then◌else◌, length, Bool-cases,
  All,
}
use phobos.StringArray.CString.{Bytes, str_eq, str_eq_iff}
use phobos.Raid.Locate.Splits.{count_range, short_split, EachSplit, short_split-false}
use phobos.Raid.Locate.Hosts.{
  ExtentLocation, HostCapabilities, Hosts, Compat, count_compatible_devices, can_access,
  lookup_host,
}
use phobos.Raid.Locate.Extents.{slot}

-- The medium of the slot is locked by the host.
abbrev pub is_locked_by : List (Option ExtentLocation) → Bytes → ℕ → Bool
is_locked_by locs name i = elim (slot locs i) [
  | none ↦ false
  | some loc ↦ elim loc.hostname [ none ↦ false | some h ↦ str_eq name h ]
]

module _ (compat : Compat) (locs : List (Option ExtentLocation)) (n_data per_split : ℕ) where
  -- What the host needs of an extent to read it.
  unfoldable pub can_read : HostCapabilities → ℕ → Bool
  can_read cap i = elim (slot locs i) [
    | none ↦ false
    | some loc ↦ can_access cap i && leb n_data (count_compatible_devices compat cap.devices loc)
  ]

  unfoldable pub filter_host_with_partial_access : Hosts → Hosts
  filter_host_with_partial_access [] = []
  filter_host_with_partial_access ((h, cap) ∷ hosts) =
      let rest = filter_host_with_partial_access hosts in
      if short_split n_data per_split (can_read cap) (length locs / per_split) 0
      then rest
      else (h, cap) ∷ rest

  -- The host can read at least `n_data` extents of each split.
  abbrev pub CanReadAll : HostCapabilities → Type 0
  CanReadAll cap = EachSplit n_data per_split (can_read cap) (length locs / per_split)

  pub filter_host-CanReadAll :
      (hosts : Hosts) → All (λ e. CanReadAll e.1) (filter_host_with_partial_access hosts)
  unfolding filter_host_with_partial_access
  filter_host-CanReadAll [] = tt
  filter_host-CanReadAll ((h, cap) ∷ hosts) =
      elim (Bool-cases (short_split n_data per_split (can_read cap) (length locs / per_split) 0)) [
        | inl short ↦ rw short (filter_host-CanReadAll hosts)
        | inr full ↦ rw full (
          short_split-false n_data per_split (can_read cap) (length locs / per_split) full,
          filter_host-CanReadAll hosts,
        )
      ]

pub lookup_host-All {κ} :
    (Q : HostCapabilities → Type κ) (hosts : Hosts) (name : Bytes) (cap : HostCapabilities)
    → All (λ e. Q e.1) hosts
    → lookup_host name hosts ≡ some cap
    → Q cap
unfolding lookup_host
lookup_host-All Q [] name cap a e = absurd (cc)
lookup_host-All Q ((h, c) ∷ hosts) name cap a e = elim (Bool-cases (str_eq name h)) [
  | inl same ↦ let q : c ≡ cap = ground arith in subst Q q a.0
  | inr other ↦ lookup_host-All Q hosts name cap a.1 (rw other at e)
]

-- The name of one of the hosts.
abbrev pub IsHost : Bytes → Hosts → Type 0
IsHost name [] = ⊥
IsHost name ((h, cap) ∷ hosts) = (name ≡ h) ⊎ IsHost name hosts

pub lookup_host-IsHost :
    (name : Bytes) (hosts : Hosts)
    → IsHost name hosts
    → (cap : HostCapabilities) × (lookup_host name hosts ≡ some cap)
unfolding lookup_host
lookup_host-IsHost name [] h = elim h [ ]
lookup_host-IsHost name ((g, c) ∷ hosts) (inl e) = (c, rw ((str_eq_iff name g).1 e))
lookup_host-IsHost name ((g, c) ∷ hosts) (inr h) = elim (Bool-cases (str_eq name g)) [
  | inl same ↦ (c, rw same)
  | inr other ↦ rw other (lookup_host-IsHost name hosts h)
]

module _ (locs : List (Option ExtentLocation)) (n_data per_split : ℕ) where
  -- The locks that count for the host: at most `n_data` in each of `n` splits from `i` on.
  unfoldable pub count_locks : Bytes → ℕ → ℕ → ℕ
  count_locks name zero i = 0
  count_locks name (suc n) i =
      let split_locks = count_range per_split (i * per_split) (is_locked_by locs name) in
      (if ltb n_data split_locks then n_data else split_locks) + count_locks name n (i + 1)

  abbrev pub nb_locks : Bytes → ℕ
  nb_locks name = count_locks name (length locs / per_split) 0

  module _ (focus_host : Bytes) where
    -- `best_host` and its number of locks; none before the first host.
    unfoldable pub best_from : Hosts → Option (Bytes × ℕ) → Option (Bytes × ℕ)
    best_from [] best = best
    best_from ((h, cap) ∷ hosts) none = best_from hosts (some (h, nb_locks h))
    best_from ((h, cap) ∷ hosts) (some (best, n)) = best_from hosts (
        if ltb n (nb_locks h) || (n == nb_locks h && str_eq focus_host h)
        then some (h, nb_locks h)
        else some (best, n))

    unfoldable pub find_best_host : Hosts → Option Bytes
    find_best_host hosts = elim (best_from hosts none) [ none ↦ none | some (h, n) ↦ some h ]

    -- No host of the table has more than `n` locks, and the focus host wins a tie.
    abbrev pub Wins : Bytes → ℕ → Hosts → Type 0
    Wins name n [] = Unit {0}
    Wins name n ((h, cap) ∷ hosts) =
        (nb_locks h ≤ n) × (h ≡ focus_host → nb_locks h ≡ n → name ≡ focus_host) × Wins name n hosts

    best_from-Wins :
        (hosts : Hosts) (b : Bytes) (n : ℕ)
        → (b' : Bytes) × (n' : ℕ) × (best_from hosts (some (b, n)) ≡ some (b', n'))
          × (n ≤ n')
          × (n ≡ n' → b ≡ focus_host → b' ≡ focus_host)
          × (nb_locks b ≡ n → nb_locks b' ≡ n')
          × Wins b' n' hosts
          × ((b' ≡ b) ⊎ IsHost b' hosts)
    unfolding best_from
    best_from-Wins [] b n = (b, n, refl, omega arith, λ _ e. e, λ e. e, tt, inl refl)
    best_from-Wins ((h, cap) ∷ hosts) b n =
        elim (Bool-cases (ltb n (nb_locks h) || (n == nb_locks h && str_eq focus_host h))) [
          | inl better ↦
              let (b', n', e, le, tie, own, w, a) = best_from-Wins hosts h (nb_locks h) in
              (
                b',
                n',
                rw better e,
                ground (arith, str_eq_iff focus_host h),
                λ p q.
                    tie (ground (arith, str_eq_iff focus_host h))
                      (ground (arith, str_eq_iff focus_host h)),
                λ _. own refl,
                (le, λ f q. tie q f, w),
                inr a,
              )
          | inr worse ↦
              let (b', n', e, le, tie, own, w, a) = best_from-Wins hosts b n in
              (
                b',
                n',
                rw worse e,
                le,
                tie,
                own,
                (
                  ground (arith, str_eq_iff focus_host h),
                  λ f q. absurd (ground (arith, str_eq_iff focus_host h)),
                  w,
                ),
                elim a [ inl x ↦ inl x | inr x ↦ inr (inr x) ],
              )
        ]

    -- Whatever the order of the hosts: a best host is found unless there is no host; it is one of
    -- the hosts, none has more locks, and if the focus host has as many, it is the focus host.
    pub find_best_host-Wins :
        (hosts : Hosts)
        → (hosts ≡ []) × (find_best_host hosts ≡ none)
          ⊎ ((name : Bytes) × (find_best_host hosts ≡ some name)
              × IsHost name hosts
              × Wins name (nb_locks name) hosts)
    unfolding find_best_host best_from
    find_best_host-Wins [] = inl (refl, refl)
    find_best_host-Wins ((h, c) ∷ hosts) =
        let (b', n', e, le, tie, own, w, among) = best_from-Wins hosts h (nb_locks h) in
        let o : nb_locks b' ≡ n' = own refl in
        inr (
          b',
          ground arith,
          among,
          (rw o le, λ f q. tie (q ∙ o) f, subst (λ k. Wins b' k hosts) (sym o) w),
        )
