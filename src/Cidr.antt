-- ===== src/Cidr.antt =====
-- `parse_cidr` of src/utils.cpp, with the part of `strtol` that it uses. `inet_pton` is a parameter:
-- the four bytes of the address, if the text is one.
pub mod Bits
pub mod Block
pub mod Parse
pub mod Prefix
pub mod Tests
use Prim.Native.Nat.{bit_and}
use netscan.Base.{
  Bool, Bytes, Option, [], false, if◌then◌else◌, leb, ltb, negsuc, none, pos, some, suc, true, zero,
  ℕ, ℤ, ◌%◌, ◌&&◌, ◌*◌, ◌+◌, ◌-◌, ◌==◌, ◌^◌, ◌||◌, ◌∷◌,
}
use netscan.Utils.{of_be_bytes, u32_mod, uint_max}

infixl 50 ◌>>=◌
abbrev ◌>>=◌ : {A B : Type 0} → Option A → (A → Option B) → Option B
none >>= f = none
some a >>= f = f a

pub record CidrBlock : Type 0 where
  pub base_ip : ℕ
  pub count : ℕ

-- `BITS_IN_IPV4`
abbrev pub bits_in_ipv4 : ℕ
bits_in_ipv4 = 32

-- '/', '-', '+' and '0'
abbrev pub slash : ℕ
slash = 47

abbrev minus : ℕ
minus = 45

abbrev plus : ℕ
plus = 43

abbrev pub zero_digit : ℕ
zero_digit = 48

-- `find('/')`, and the text before and behind it.
unfoldable pub split_at_slash : Bytes → Option (Bytes × Bytes)
split_at_slash [] = none
split_at_slash (b ∷ bs) =
    let rest = split_at_slash bs in
    if b == slash then some ([], bs) else do (x, y) ← rest; some (b ∷ x, y)

abbrev is_space : ℕ → Bool
is_space b = (b == 32) || (leb 9 b && leb b 13)

abbrev is_digit : ℕ → Bool
is_digit b = leb zero_digit b && leb b (zero_digit + 9)

unfoldable pub skip_spaces : Bytes → Bytes
skip_spaces [] = []
skip_spaces (b ∷ bs) = let rest = skip_spaces bs in if is_space b then rest else b ∷ bs

-- The number in decimal, and the text behind its digits.
unfoldable pub read_digits : ℕ → Bytes → ℕ × Bytes
read_digits n [] = (n, [])
read_digits n (b ∷ bs) =
    let rest = read_digits (n * 10 + (b - zero_digit)) bs in
    if is_digit b then rest else (n, b ∷ bs)

abbrev starts_with_digit : Bytes → Bool
starts_with_digit [] = false
starts_with_digit (b ∷ _) = is_digit b

-- `LONG_MIN` and `LONG_MAX` bound the result.
unfoldable pub to_long : Bool → ℕ → ℤ
to_long false n = pos (if ltb n (2 ^ 63) then n else 2 ^ 63 - 1)
to_long true zero = pos 0
to_long true (suc n) = negsuc (if ltb n (2 ^ 63) then n else 2 ^ 63 - 1)

unfoldable pub read_magnitude : Bool → Bytes → Option (ℤ × Bytes)
read_magnitude negative bs =
    if starts_with_digit bs
    then (let (n, rest) = read_digits 0 bs in some (to_long negative n, rest))
    else none

unfoldable pub read_signed : Bytes → Option (ℤ × Bytes)
read_signed [] = none
read_signed (b ∷ bs) =
    if b == minus
    then read_magnitude true bs
    else if b == plus
    then read_magnitude false bs
    else read_magnitude false (b ∷ bs)

-- `strtol` in base 10: the value and the text at the end pointer, or nothing when the end pointer is
-- the start.
unfoldable pub strtol : Bytes → Option (ℤ × Bytes)
strtol bs = read_signed (skip_spaces bs)

-- The prefix length: a number that is the whole text, from 0 to 32.
unfoldable pub check_prefix : Option (ℤ × Bytes) → Option ℕ
check_prefix (some (pos n, [])) = if leb n bits_in_ipv4 then some n else none
check_prefix _ = none

unfoldable pub parse_prefix : Bytes → Option ℕ
parse_prefix prefix_str = check_prefix (strtol prefix_str)

-- `a << n` on 32 bits.
abbrev pub shift_left : ℕ → ℕ → ℕ
shift_left a n = a * 2 ^ n % u32_mod

unfoldable pub network_mask : ℕ → ℕ
network_mask prefix = if prefix == 0 then 0 else shift_left uint_max (bits_in_ipv4 - prefix)

unfoldable pub block : ℕ → ℕ → CidrBlock
block base prefix = record {
  base_ip = bit_and base (network_mask prefix);
  count = if prefix == bits_in_ipv4 then 1 else (uint_max - network_mask prefix + 1) % u32_mod;
}

-- The two halves of `parse_cidr`, by the slash.
unfoldable pub parse_split :
    (Bytes → Option Bytes) → Bytes → Option (Bytes × Bytes) → Option CidrBlock
parse_split inet_pton input none = do
  s_addr ← inet_pton input
  some (record { base_ip = of_be_bytes s_addr; count = 1 })
parse_split inet_pton input (some (ip_str, prefix_str)) = do
  s_addr ← inet_pton ip_str
  prefix ← parse_prefix prefix_str
  some (block (of_be_bytes s_addr) prefix)

-- The null pointer is `none`.
unfoldable pub parse_cidr : (Bytes → Option Bytes) → Option Bytes → Option CidrBlock
parse_cidr inet_pton none = none
parse_cidr inet_pton (some input) = parse_split inet_pton input (split_at_slash input)
