-- ===== src/Lrs/IoSched/Devices/Bits.antt =====
-- The bits of `ld_io_request_type` of a device, by the types of the schedulers.
use phobos.Base.{
  ℕ, ◌≡◌, ◌≤◌, refl, ◌⊎◌, inl, inr, Bool, true, false, arith, ◌==◌, if◌then◌else◌, Bool-cases,
}
use phobos.Lrs.IoSched.{IoType, read, write, format, ByType, at, put, same_type}
use phobos.Lrs.IoSched.Devices.{no_type, one_type, popcount}

abbrev pub code : IoType → ℕ
code read = 0
code write = 1
code format = 2

pub same_type-code : (k j : IoType) → same_type k j ≡ (code k == code j)
same_type-code read read = refl
same_type-code read write = refl
same_type-code read format = refl
same_type-code write read = refl
same_type-code write write = refl
same_type-code write format = refl
same_type-code format read = refl
same_type-code format write = refl
same_type-code format format = refl

pub same_type-eq : (k j : IoType) → same_type k j ≡ true → k ≡ j
same_type-eq read read e = refl
same_type-eq read write e = cc
same_type-eq read format e = cc
same_type-eq write read e = cc
same_type-eq write write e = refl
same_type-eq write format e = cc
same_type-eq format read e = cc
same_type-eq format write e = cc
same_type-eq format format e = refl

pub at-one_type : (k j : IoType) → at (one_type k) j ≡ same_type k j
at-one_type read read = refl
at-one_type read write = refl
at-one_type read format = refl
at-one_type write read = refl
at-one_type write write = refl
at-one_type write format = refl
at-one_type format read = refl
at-one_type format write = refl
at-one_type format format = refl

pub at-put_if {ℓ} :
    {A : Type ℓ} (b : ByType A) (k j : IoType) (a : A)
    → at (put b k a) j ≡ (if same_type k j then a else at b j)
at-put_if b read read a = refl
at-put_if b read write a = refl
at-put_if b read format a = refl
at-put_if b write read a = refl
at-put_if b write write a = refl
at-put_if b write format a = refl
at-put_if b format read a = refl
at-put_if b format write a = refl
at-put_if b format format a = refl

-- The only bit of a device.
pub bits-one : (k : IoType) (b : ByType Bool) → popcount b ≤ 1 → at b k ≡ true → b ≡ one_type k
bits-one read b h e =
    let w : b.writes ≡ false = ground arith in
    let f : b.formats ≡ false = ground arith in
    λ i. record { reads = e i; writes = w i; formats = f i }
bits-one write b h e =
    let r : b.reads ≡ false = ground arith in
    let f : b.formats ≡ false = ground arith in
    λ i. record { reads = r i; writes = e i; formats = f i }
bits-one format b h e =
    let r : b.reads ≡ false = ground arith in
    let w : b.writes ≡ false = ground arith in
    λ i. record { reads = r i; writes = w i; formats = e i }

pub at-no_type : (k : IoType) → at no_type k ≡ false
at-no_type read = refl
at-no_type write = refl
at-no_type format = refl

pub one_type-popcount : (k : IoType) → popcount (one_type k) ≤ 1
one_type-popcount read = omega arith
one_type-popcount write = omega arith
one_type-popcount format = omega arith

-- The scheduler that owns a device, if there is one.
pub owner-cases :
    (b : ByType Bool) → popcount b ≤ 1 → (b ≡ no_type) ⊎ ((k : IoType) × (b ≡ one_type k))
owner-cases b h = elim (Bool-cases b.reads) [
  | inl r ↦ inr (read, bits-one read b h r)
  | inr r ↦ elim (Bool-cases b.writes) [
    | inl w ↦ inr (write, bits-one write b h w)
    | inr w ↦ elim (Bool-cases b.formats) [
      | inl f ↦ inr (format, bits-one format b h f)
      | inr f ↦ inl (λ i. record { reads = r i; writes = w i; formats = f i })
    ]
  ]
]
