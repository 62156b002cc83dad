-- ===== src/Base/Memory.antt =====
-- Buffers of bytes, and words in them. The program runs on x86_64 and AArch64, which are
-- little-endian; a value in network order is big-endian.
use Prim.Native.Nat.{ℕ, zero, suc, ◌+◌, ◌*◌, ◌/◌, ◌%◌}
use mathlib.Core.Path.{◌≡◌, refl}
use mathlib.Core.List.{List, [], ◌∷◌, ◌++◌}
use native.Mathlib.Omega.{arith}
use netscan.Base.Lists.{length, take, drop}

abbrev pub Bytes : Type 0
Bytes = List ℕ

-- `n` bytes of a word, the lowest first.
unfoldable pub le_bytes : ℕ → ℕ → Bytes
le_bytes zero w = []
le_bytes (suc n) w = (w % 256) ∷ le_bytes n (w / 256)

unfoldable pub of_le_bytes : Bytes → ℕ
of_le_bytes [] = 0
of_le_bytes (b ∷ bs) = b + 256 * of_le_bytes bs

-- `memcpy` of `n` bytes out of a buffer at an offset, and of bytes into it.
unfoldable pub read_at : Bytes → ℕ → ℕ → Bytes
read_at buf off n = take n (drop off buf)

unfoldable pub write_at : Bytes → ℕ → Bytes → Bytes
write_at buf off bs = take off buf ++ (bs ++ drop (off + length bs) buf)

pub length-le_bytes : (n w : ℕ) → length (le_bytes n w) ≡ n
unfolding le_bytes
length-le_bytes zero w = refl
length-le_bytes (suc n) w = omega (arith, length-le_bytes n (w / 256))
