-- ===== src/Cidr/Block.antt =====
-- The block of `parse_cidr` by its own description: the aligned range of 2 ^ (32 - prefix) addresses
-- that holds the address.
use Prim.Native.Nat.{bit_and}
use netscan.Base.{
  ==_iff, Bool-cases, ap, arith, if◌then◌else◌, inl, inr, refl, ℕ, ◌%◌, ◌*◌, ◌+◌, ◌-◌, ◌<◌, ◌==◌,
  ◌^◌, ◌∙◌, ◌≡◌, ◌≤◌,
}
use netscan.Utils.{uint_max, u32_mod}
use netscan.Cidr.{CidrBlock, block, network_mask, shift_left}
use netscan.Cidr.Bits.{block_ends, bit_and-mask, block_of, pow_mono, pow_positive}

-- The block with `prefix` leading digits in common with the address `addr`. Its size is taken on 32
-- bits, so that the block of all addresses has the count 0.
pub record IsBlock (addr prefix : ℕ) (r : CidrBlock) : Type 0 where
  pub prefix_range : prefix ≤ 32
  pub index : ℕ
  pub aligned : r.base_ip ≡ index * 2 ^ (32 - prefix)
  pub from : r.base_ip ≤ addr
  pub below : addr < r.base_ip + 2 ^ (32 - prefix)
  pub ends : r.base_ip + 2 ^ (32 - prefix) ≤ 2 ^ 32
  pub size : r.count ≡ 2 ^ (32 - prefix) % 2 ^ 32

mask_value : (k : ℕ) → k ≤ 31 → shift_left uint_max k ≡ 2 ^ 32 - 2 ^ k
mask_value k h = let small = pow_mono k 31 h in let positive = pow_positive k in omega arith

network_mask_value : (p : ℕ) → p ≤ 32 → network_mask p ≡ 2 ^ 32 - 2 ^ (32 - p)
unfolding network_mask
network_mask_value p h = elim (Bool-cases (p == 0)) [
  | inl e ↦ rw (e, (==_iff p 0).0 e) refl
  | inr e ↦ rw e (mask_value (32 - p) (ground arith))
]

count_value :
    (p : ℕ)
    → p ≤ 32
    → (if p == 32 then 1 else (uint_max - network_mask p + 1) % u32_mod) ≡ 2 ^ (32 - p) % 2 ^ 32
count_value p h = elim (Bool-cases (p == 32)) [
  | inl e ↦ rw (e, (==_iff p 32).0 e) refl
  | inr e ↦
      rw (e, network_mask_value p h)
        (let mono = pow_mono (32 - p) 32 (omega arith) in
          let pp = pow_positive (32 - p) in omega arith)
]

pub block-IsBlock : (addr p : ℕ) → addr < 2 ^ 32 → p ≤ 32 → IsBlock addr p (block addr p)
unfolding block
block-IsBlock addr p lt h =
    let (m, lo, hi) = block_of (32 - p) addr in
    let e : (block addr p).base_ip ≡ m * 2 ^ (32 - p) =
      ap (bit_and addr) (network_mask_value p h)
      ∙ bit_and-mask (32 - p) 32 addr m (omega arith) lt lo hi in
    record {
      prefix_range = h;
      index = m;
      aligned = e;
      from = omega (arith, e, lo);
      below = omega (arith, e, hi);
      ends = omega (arith, e, block_ends (32 - p) 32 addr m (omega arith) lt lo);
      size = count_value p h;
    }
