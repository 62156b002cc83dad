-- ===== src/Utils.antt =====
-- include/utils.hpp and the address helpers of src/utils.cpp: constants, the bound on a batch, and
-- addresses in network order. `inet_ntop` is a parameter.
use netscan.Base.{
  Bool, Bytes, Option, [], if◌then◌else◌, min, none, some, ℕ, ◌%◌, ◌*◌, ◌+◌, ◌-◌, ◌/◌, ◌==◌, ◌^◌,
  ◌∷◌,
}

abbrev pub uint_max : ℕ
uint_max = 2 ^ 32 - 1

abbrev pub u32_mod : ℕ
u32_mod = 2 ^ 32

-- `MAX_RX_PACKET_SIZE`
abbrev pub max_rx_packet_size : ℕ
max_rx_packet_size = 2048

-- `++n` on a `uint32_t`
abbrev pub inc32 : ℕ → ℕ
inc32 n = (n + 1) % u32_mod

-- `a + b` on a `uint32_t`
abbrev pub add32 : ℕ → ℕ → ℕ
add32 a b = (a + b) % u32_mod

-- `a - b` on a `size_t`
abbrev pub sub_size : ℕ → ℕ → ℕ
sub_size a b = (a + 2 ^ 64 - b) % 2 ^ 64

-- `a + b` and `a * b` on a `size_t`
abbrev pub add_size : ℕ → ℕ → ℕ
add_size a b = (a + b) % 2 ^ 64

abbrev pub mul_size : ℕ → ℕ → ℕ
mul_size a b = a * b % 2 ^ 64

-- `--n` on a `size_t`
abbrev pub dec_size : ℕ → ℕ
dec_size n = if n == 0 then 2 ^ 64 - 1 else n - 1

unfoldable pub safe_batch_size : ℕ → ℕ → ℕ
safe_batch_size val max_hosts = min (min val max_hosts) uint_max

-- The members of `NetworkInterface` that the scanners read.
pub record NetworkInterface : Type 0 where
  pub network_ip : ℕ
  pub broadcast_ip : ℕ
  pub is_local : Bool

-- `htonl` of an address, as the four bytes in memory; `ntohl` back.
unfoldable pub be_bytes : ℕ → Bytes
be_bytes ip = (ip / 2 ^ 24 % 256) ∷ (ip / 2 ^ 16 % 256) ∷ (ip / 2 ^ 8 % 256) ∷ (ip % 256) ∷ []

unfoldable pub of_be_bytes : Bytes → ℕ
of_be_bytes (a ∷ b ∷ c ∷ d ∷ _) = a * 2 ^ 24 + b * 2 ^ 16 + c * 2 ^ 8 + d
of_be_bytes _ = 0

unfoldable pub format_ip : (Bytes → Bytes) → ℕ → Bytes
format_ip inet_ntop ip_address = inet_ntop (be_bytes ip_address)

-- "N/A"
abbrev pub not_available : Bytes
not_available = 78 ∷ 47 ∷ 65 ∷ []

-- The argument is what `getnameinfo` put into `host`, if it returned 0.
unfoldable pub resolve_hostname : Option Bytes → Bytes
resolve_hostname (some host) = host
resolve_hostname none = not_available
