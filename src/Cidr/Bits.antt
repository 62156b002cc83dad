-- ===== src/Cidr/Bits.antt =====
-- Masks of leading ones, as a conjunction of binary digits.
use Prim.Native.Nat.{
  ℕ, zero, suc, ◌+◌, ◌-◌, ◌*◌, ◌/◌, ◌%◌, ◌^◌, ◌≤◌, ◌<◌, min, bit_and, bit_and-bitwise, digits,
}
use mathlib.Core.Path.{◌≡◌, refl, ap, ap₂, ◌∙◌}
use native.Mathlib.Omega.{arith}

pub pow_positive : (k : ℕ) → 0 < 2 ^ k
pow_positive zero = omega arith
pow_positive (suc k) = omega (arith, pow_positive k)

pub pow_mono : (k w : ℕ) → k ≤ w → 2 ^ k ≤ 2 ^ w
pow_mono zero w h = omega (arith, pow_positive w)
pow_mono (suc k) zero h = absurd (omega arith)
pow_mono (suc k) (suc w) h = omega (arith, pow_mono k w (omega arith))

double : (m k : ℕ) → m * 2 ^ suc k ≡ 2 * (m * 2 ^ k)
double m k = grind arith

-- Every number lies in one aligned block of 2 ^ k.
pub block_of : (k a : ℕ) → (m : ℕ) × (m * 2 ^ k ≤ a) × (a < m * 2 ^ k + 2 ^ k)
block_of zero a = (a, omega arith, omega arith)
block_of (suc k) a =
    let (m, lo, hi) = block_of k (a / 2) in
    (m, omega (arith, double m k, lo), omega (arith, double m k, hi))

abbrev and_digits : ℕ → ℕ → ℕ → ℕ
and_digits = digits (λ b. zero) min

next_digit :
    (n a b b' r d : ℕ)
    → b / 2 ≡ b'
    → and_digits n (suc a / 2) b' ≡ r
    → min (suc a % 2) (b % 2) ≡ d
    → and_digits (suc n) (suc a) b ≡ r * 2 + d
next_digit n a b b' r d e f g = ap₂ (λ (x y : ℕ). x * 2 + y) (ap (and_digits n (suc a / 2)) e ∙ f) g

all_zero : (n b : ℕ) → and_digits n 0 b ≡ 0
all_zero zero b = refl
all_zero (suc n) b = refl

ones : (w n a : ℕ) → a ≤ n → a < 2 ^ w → and_digits n a (2 ^ w - 1) ≡ a
ones w n zero le lt = all_zero n _
ones w zero (suc a) le lt = absurd (omega arith)
ones zero (suc n) (suc a) le lt = absurd (omega arith)
ones (suc w) (suc n) (suc a) le lt =
    let positive = pow_positive w in
    next_digit n a (2 ^ suc w - 1) (2 ^ w - 1) (suc a / 2) (suc a % 2) (omega arith)
      (ones w n (suc a / 2) (omega arith) (omega arith)) (omega arith)
    ∙ omega arith

-- The conjunction with a mask that has zeros in its lowest `k` digits is the block's first number.
masked :
    (k w n a m : ℕ)
    → k ≤ w
    → a ≤ n
    → a < 2 ^ w
    → m * 2 ^ k ≤ a
    → a < m * 2 ^ k + 2 ^ k
    → and_digits n a (2 ^ w - 2 ^ k) ≡ m * 2 ^ k
masked k w n zero m h le lt lo hi = all_zero n _ ∙ omega arith
masked zero w n (suc a) m h le lt lo hi = ones w n (suc a) le lt ∙ omega arith
masked (suc k) zero n (suc a) m h le lt lo hi = absurd (omega arith)
masked (suc k) (suc w) zero (suc a) m h le lt lo hi = absurd (omega arith)
masked (suc k) (suc w) (suc n) (suc a) m h le lt lo hi =
    let d = double m k in
    let mono = pow_mono k w (omega arith) in
    next_digit n a (2 ^ suc w - 2 ^ suc k) (2 ^ w - 2 ^ k) (m * 2 ^ k) 0 (omega arith)
      (masked k w n (suc a / 2) m (omega arith) (omega arith) (omega arith) (omega (arith, d))
        (omega (arith, d)))
      (omega arith)
    ∙ omega (arith, d)

pub bit_and-mask :
    (k w a m : ℕ)
    → k ≤ w
    → a < 2 ^ w
    → m * 2 ^ k ≤ a
    → a < m * 2 ^ k + 2 ^ k
    → bit_and a (2 ^ w - 2 ^ k) ≡ m * 2 ^ k
bit_and-mask k w a m h lt lo hi =
    (λ i. bit_and-bitwise a (2 ^ w - 2 ^ k) i) ∙ masked k w a a m h (omega arith) lt lo hi

-- An aligned block does not cross the end of the numbers of `w` digits.
pub block_ends : (k w a m : ℕ) → k ≤ w → a < 2 ^ w → m * 2 ^ k ≤ a → m * 2 ^ k + 2 ^ k ≤ 2 ^ w
block_ends zero w a m h lt lo = omega arith
block_ends (suc k) zero a m h lt lo = absurd (omega arith)
block_ends (suc k) (suc w) a m h lt lo = omega (
  arith,
  double m k,
  block_ends k w (a / 2) m (omega arith) (omega arith) (omega (arith, double m k)),
)
