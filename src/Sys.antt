-- ===== src/Sys.antt =====
-- What the scanners see of the operating system: error numbers, clock readings, and the outcome of
-- code that may throw or may still wait for an answer of the kernel.
use netscan.Base.{
  Bool, false, if◌then◌else◌, inl, inr, is_neg, pos, refl, true, ℕ, ℤ, ◌*ℤ◌, ◌+ℤ◌, ◌-ℤ◌, ◌≡◌, ◌⊎◌,
}

-- The values of `errno` that the sources name. EWOULDBLOCK is EAGAIN on Linux.
pub data Errno : Type 0 where
  eagain eintr enoprotoopt einval eacces ebadf efault enomem enotsock emsgsize enobufs : Errno
  einprogress : Errno
  other : ℕ → Errno

abbrev pub is_eagain : Errno → Bool
is_eagain Errno.eagain = true
is_eagain _ = false

abbrev pub is_eintr : Errno → Bool
is_eintr Errno.eintr = true
is_eintr _ = false

abbrev pub is_einprogress : Errno → Bool
is_einprogress Errno.einprogress = true
is_einprogress _ = false

-- `error == ENOPROTOOPT || error == EINVAL`
abbrev pub is_unsupported : Errno → Bool
is_unsupported Errno.enoprotoopt = true
is_unsupported Errno.einval = true
is_unsupported _ = false

-- `throws e` is a `std::system_error`. `pending` means that the answers given ran out before the
-- code returned: it still waits for the kernel.
pub data Outcome {ℓ} (A : Type ℓ) : Type ℓ where
  returns : A → Outcome A
  throws : Errno → Outcome A
  pending : Outcome A

infixl 5 ◌>>=◌
abbrev pub ◌>>=◌ {ℓ κ} : {A : Type ℓ} {B : Type κ} → Outcome A → (A → Outcome B) → Outcome B
returns a >>= f = f a
throws e >>= f = throws e
pending >>= f = pending

-- `struct timespec`
pub record Timespec : Type 0 where
  pub tv_sec : ℤ
  pub tv_nsec : ℤ

abbrev pub nanoseconds_per_second : ℤ
nanoseconds_per_second = pos 1000000000

abbrev pub nanoseconds_per_millisecond : ℤ
nanoseconds_per_millisecond = pos 1000000

-- The difference in nanoseconds, as every call site of the scanners spells it out. The exact value:
-- the `int64_t` arithmetic of the source is undefined where it would overflow.
unfoldable pub diff_ns : Timespec → Timespec → ℤ
unfolding ◌+ℤ◌ ◌-ℤ◌ ◌*ℤ◌
diff_ns now sent =
    (now.tv_sec -ℤ sent.tv_sec) *ℤ nanoseconds_per_second +ℤ (now.tv_nsec -ℤ sent.tv_nsec)

-- `std::max(0.0, diff_ns / 1000000.0)`, kept as the exact number of nanoseconds.
unfoldable pub rtt_of : ℤ → ℤ
rtt_of d = if is_neg d then pos 0 else d

pub returns_injective {ℓ} : {A : Type ℓ} (a b : A) → returns a ≡ returns b → a ≡ b
returns_injective a b e = cc

pub Outcome-cases {ℓ} :
    {A : Type ℓ} (o : Outcome A)
    → ((a : A) × (o ≡ returns a)) ⊎ ((e : Errno) × (o ≡ throws e)) ⊎ (o ≡ pending)
Outcome-cases (returns a) = inl (a, refl)
Outcome-cases (throws e) = inr (inl (e, refl))
Outcome-cases pending = inr (inr refl)

pub throws-ne-returns {ℓ} : {A : Type ℓ} {e : Errno} {a : A} → throws e ≡ returns a → ⊥
throws-ne-returns h = cc

pub pending-ne-returns {ℓ} : {A : Type ℓ} {a : A} → pending ≡ returns a → ⊥
pending-ne-returns h = cc

pub >>=-eq-returns {ℓ κ} :
    {A : Type ℓ} {B : Type κ} (m : Outcome A) (f : A → Outcome B) {b : B}
    → (m >>= f) ≡ returns b
    → (a : A) × (m ≡ returns a) × (f a ≡ returns b)
>>=-eq-returns (returns a) f h = (a, refl, h)
>>=-eq-returns (throws e) f h = absurd (throws-ne-returns h)
>>=-eq-returns pending f h = absurd (pending-ne-returns h)
