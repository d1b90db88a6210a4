-- ===== src/Lrs/IoSched.antt =====
-- The I/O schedulers of the LRS: src/lrs/io_sched.c and src/lrs/io_schedulers. There is one
-- scheduler for each kind of request; the devices are dispatched to them.
pub mod Priority
pub mod Fifo
pub mod Requests
pub mod Devices
pub mod Dispatch
pub mod Share
pub mod FairShare
mod Examples
use phobos.Base.{
  ℕ, suc, ◌+◌, ◌≡◌, Bool, true, false, List, [], ◌∷◌, ◌++◌, arith, ◌==◌, if◌then◌else◌,
}

-- IO_REQ_READ, IO_REQ_WRITE and IO_REQ_FORMAT.
pub data IoType : Type 0 where
  read write format : IoType

-- What the source has once for each scheduler, in fields of these names.
pub record ByType {ℓ} (A : Type ℓ) : Type ℓ where
  pub reads : A
  pub writes : A
  pub formats : A

abbrev pub at {ℓ} : {A : Type ℓ} → ByType A → IoType → A
at b read = b.reads
at b write = b.writes
at b format = b.formats

abbrev pub put {ℓ} : {A : Type ℓ} → ByType A → IoType → A → ByType A
put b read a = record b { reads = a }
put b write a = record b { writes = a }
put b format a = record b { formats = a }

abbrev pub same_type : IoType → IoType → Bool
same_type read read = true
same_type write write = true
same_type format format = true
same_type _ _ = false

-- A sum over the schedulers.
abbrev pub total {ℓ} : {A : Type ℓ} → (A → ℕ) → ByType A → ℕ
total f b = f b.reads + f b.writes + f b.formats

pub total-put {ℓ} :
    {A : Type ℓ} (f : A → ℕ) (b : ByType A) (k : IoType) (a : A)
    → total f (put b k a) + f (at b k) ≡ total f b + f a
total-put f b read a = omega arith
total-put f b write a = omega arith
total-put f b format a = omega arith

-- What holds at each scheduler still holds when one of them is changed.
pub at-put_both {ℓ ℓ' κ} :
    {A : Type ℓ} {B : Type ℓ'} (P : IoType → A → B → Type κ) (b : ByType A) (c : ByType B)
    (k : IoType) (x : A) (y : B)
    → P k x y
    → ((j : IoType) → P j (at b j) (at c j))
    → (j : IoType) → P j (at (put b k x) j) (at (put c k y) j)
at-put_both P b c read x y p h read = p
at-put_both P b c read x y p h write = h write
at-put_both P b c read x y p h format = h format
at-put_both P b c write x y p h read = h read
at-put_both P b c write x y p h write = p
at-put_both P b c write x y p h format = h format
at-put_both P b c format x y p h read = h read
at-put_both P b c format x y p h write = h write
at-put_both P b c format x y p h format = p

pub at-put {ℓ κ} :
    {A : Type ℓ} (P : IoType → A → Type κ) (b : ByType A) (k : IoType) (a : A)
    → P k a
    → ((j : IoType) → P j (at b j))
    → (j : IoType) → P j (at (put b k a) j)
at-put P b k a = at-put_both (λ j x y. P j x) b b k a a

-- How often a number is in a list.
abbrev pub times : ℕ → List ℕ → ℕ
times x [] = 0
times x (r ∷ rs) = if r == x then suc (times x rs) else times x rs

pub times-append : (x : ℕ) (rs ss : List ℕ) → times x (rs ++ ss) ≡ times x rs + times x ss
times-append x [] ss = omega arith
times-append x (r ∷ rs) ss = ground (arith, times-append x rs ss)

pub times-snoc :
    (x r : ℕ) (rs : List ℕ) → times x (rs ++ r ∷ []) ≡ times x rs + (if r == x then 1 else 0)
times-snoc x r rs = ground (arith, times-append x rs (r ∷ []))
