-- ===== src/Cidr/Parse.antt =====
-- The texts that `parse_cidr` accepts, and the ranges that come of them.
use mathlib.Core.Option.{some-injective, none-ne-some, some-ne-none}
use netscan.Base.{
  ==_iff, Bool-cases, Bytes, Option, Option-cases, [], ap, arith, if◌then◌else◌, inl, inr, ltb,
  none, refl, some, subst, ℕ, ◌%◌, ◌*◌, ◌++◌, ◌+◌, ◌-◌, ◌/◌, ◌<◌, ◌==◌, ◌^◌, ◌∙◌, ◌∷◌, ◌≡◌, ◌≤◌,
}
use netscan.Base.{Bytes}
use netscan.Utils.{NetworkInterface, of_be_bytes}
use netscan.Ping.State.{PingScannerConfig, make_setup}
use netscan.Ping.Table.{IsSetup}
use netscan.Cidr.{
  CidrBlock, block, parse_cidr, parse_split, parse_prefix, split_at_slash, check_prefix, slash,
  zero_digit, strtol, skip_spaces, read_signed, read_magnitude, read_digits, to_long, ◌>>=◌,
}
use netscan.Cidr.Block.{IsBlock, block-IsBlock}
use netscan.Cidr.Bits.{pow_mono}
use netscan.Cidr.Prefix.{PrefixText, parse_prefix-PrefixText}

-- The four bytes of an IPv4 address.
pub data IsAddress : Bytes → Type 0 where
  octets : (a b c d : ℕ) → a < 256 → b < 256 → c < 256 → d < 256 → IsAddress (a ∷ b ∷ c ∷ d ∷ [])

address_range : (s_addr : Bytes) → IsAddress s_addr → of_be_bytes s_addr < 2 ^ 32
unfolding of_be_bytes
address_range _ (octets a b c d ha hb hc hd) = omega arith

-- The texts for which `inet_pton` is asked, and the block that comes of them.
pub data Parsed (inet_pton : Bytes → Option Bytes) (input : Bytes) (r : CidrBlock) : Type 0 where
  plain :
      (s_addr : Bytes)
      → inet_pton input ≡ some s_addr
      → IsBlock (of_be_bytes s_addr) 32 r
      → Parsed inet_pton input r
  with_prefix :
      (ip_str prefix_str s_addr : Bytes) (prefix : ℕ)
      → input ≡ ip_str ++ (slash ∷ prefix_str)
      → inet_pton ip_str ≡ some s_addr
      → PrefixText prefix_str prefix
      → IsBlock (of_be_bytes s_addr) prefix r
      → Parsed inet_pton input r

-- The text is cut at its first slash.
pub data Split (input : Bytes) : Option (Bytes × Bytes) → Type 0 where
  uncut : Split input none
  cut : (x y : Bytes) → input ≡ x ++ (slash ∷ y) → Split input (some (x, y))

Split-cons :
    (b : ℕ) (bs : Bytes) {o : Option (Bytes × Bytes)}
    → Split bs o
    → Split (b ∷ bs) (o >>= λ (x, y). some (b ∷ x, y))
Split-cons b bs uncut = uncut
Split-cons b bs (cut x y e) = cut (b ∷ x) y (ap (◌∷◌ b) e)

split_at_slash-Split : (input : Bytes) → Split input (split_at_slash input)
unfolding split_at_slash
split_at_slash-Split [] = uncut
split_at_slash-Split (b ∷ bs) = elim (Bool-cases (b == slash)) [
  | inl e ↦ rw (e, split_at_slash) (cut [] bs (ap (λ (x : ℕ). x ∷ bs) ((==_iff b slash).0 e)))
  | inr e ↦ rw (e, split_at_slash) (Split-cons b bs (split_at_slash-Split bs))
]

module _ (inet_pton : Bytes → Option Bytes)
    (fills : (s b : Bytes) → inet_pton s ≡ some b → IsAddress b) where
  single :
      (s_addr : Bytes)
      → IsAddress s_addr
      → IsBlock (of_be_bytes s_addr) 32 (record { base_ip = of_be_bytes s_addr; count = 1 })
  single s_addr a = record {
    prefix_range = omega arith;
    index = of_be_bytes s_addr;
    aligned = omega arith;
    from = omega arith;
    below = omega arith;
    ends = omega (arith, address_range s_addr a);
    size = refl;
  }

  parse_split-Parsed :
      (input : Bytes) {o : Option (Bytes × Bytes)} {r : CidrBlock}
      → Split input o
      → parse_split inet_pton input o ≡ some r
      → Parsed inet_pton input r
  unfolding parse_split
  parse_split-Parsed input uncut e = elim (Option-cases (inet_pton input)) [
    | inl n ↦ absurd (none-ne-some _ (rw (n, parse_split) at e))
    | inr (b, q) ↦ plain b q (
        subst (IsBlock (of_be_bytes b) 32) (some-injective _ _ (rw (q, parse_split) at e))
          (single b (fills input b q)))
  ]
  parse_split-Parsed input (cut x y e) h = elim (Option-cases (inet_pton x)) [
    | inl n ↦ absurd (none-ne-some _ (rw (n, parse_split) at h))
    | inr (b, q) ↦ elim (Option-cases (parse_prefix y)) [
      | inl n ↦ absurd (none-ne-some _ (rw (q, n, parse_split) at h))
      | inr (p, l) ↦ with_prefix x y b p e q (parse_prefix-PrefixText y l) (
          subst (IsBlock (of_be_bytes b) p) (some-injective _ _ (rw (q, l, parse_split) at h)) (
            block-IsBlock (of_be_bytes b) p (address_range b (fills x b q))
              (parse_prefix-PrefixText y l).small))
    ]
  ]

  -- An accepted text is an address, alone or followed by a slash and a prefix length: spaces, a sign,
  -- and decimal digits for a number up to 32, with nothing behind them; after a minus, for 0. The
  -- result is the aligned block of that length around the address.
  pub parse_cidr-Parsed :
      (input : Bytes) {r : CidrBlock}
      → parse_cidr inet_pton (some input) ≡ some r
      → Parsed inet_pton input r
  unfolding parse_cidr
  parse_cidr-Parsed input h = parse_split-Parsed input (split_at_slash-Split input) h

size_bounds :
    (addr p : ℕ) (r : CidrBlock)
    → IsBlock addr p r
    → (r.base_ip + r.count ≤ 2 ^ 32) × (r.count ≤ 2 ^ 31)
size_bounds addr p r v = elim (Bool-cases (p == 0)) [
  | inl e ↦
      let z : r.count ≡ 0 = v.size ∙ ap (λ (n : ℕ). 2 ^ (32 - n) % 2 ^ 32) ((==_iff p 0).0 e) in
      (omega (arith, z, v.ends), omega (arith, z))
  | inr e ↦
      let mono = pow_mono (32 - p) 31 (ground arith) in
      (omega (arith, v.size, v.ends), omega (arith, v.size))
]

pub Parsed-bounds :
    (inet_pton : Bytes → Option Bytes) (input : Bytes) (r : CidrBlock)
    → Parsed inet_pton input r
    → (r.base_ip + r.count ≤ 2 ^ 32) × (r.count ≤ 2 ^ 31)
Parsed-bounds f input r (plain b e v) = size_bounds _ _ r v
Parsed-bounds f input r (with_prefix x y b p e q l v) = size_bounds _ _ r v

-- Every range that `parse_cidr` accepts is one that the ping scanner can be set up with: it ends
-- inside the addresses, and its indices fit an `int`.
pub parse_cidr-IsSetup :
    (inet_pton : Bytes → Option Bytes)
    → ((s b : Bytes) → inet_pton s ≡ some b → IsAddress b)
    → (input : Bytes) {r : CidrBlock} (config : PingScannerConfig) (interface : NetworkInterface)
    → parse_cidr inet_pton (some input) ≡ some r
    → IsSetup (make_setup (record config { base_ip = r.base_ip; total_hosts = r.count }) interface)
unfolding make_setup
parse_cidr-IsSetup inet_pton fills input {r} config interface h =
    let (range, size) =
      Parsed-bounds inet_pton input r (parse_cidr-Parsed inet_pton fills input h) in
    record { in_range = range; int_range = size; probes_range = omega arith }

-- A number below 100 in decimal.
abbrev pub decimal : ℕ → Bytes
decimal p =
    if ltb p 10 then (zero_digit + p) ∷ [] else (zero_digit + p / 10) ∷ (zero_digit + p % 10) ∷ []

one_digit : (d : ℕ) → d < 10 → parse_prefix ((zero_digit + d) ∷ []) ≡ some d
unfolding parse_prefix strtol skip_spaces read_signed read_magnitude read_digits to_long
    check_prefix
one_digit d h = ground arith

two_digits :
    (a b : ℕ)
    → a < 10
    → b < 10
    → a * 10 + b ≤ 32
    → parse_prefix ((zero_digit + a) ∷ (zero_digit + b) ∷ []) ≡ some (a * 10 + b)
unfolding parse_prefix strtol skip_spaces read_signed read_magnitude read_digits to_long
    check_prefix
two_digits a b ha hb h = ground arith

parse_decimal : (p : ℕ) → p ≤ 32 → parse_prefix (decimal p) ≡ some p
parse_decimal p h = elim (Bool-cases (ltb p 10)) [
  | inl e ↦ rw e (one_digit p (ground arith))
  | inr e ↦ rw e (
      two_digits (p / 10) (p % 10) (omega arith) (omega arith) (omega arith)
      ∙ ap some (omega arith))
]

split_at_slash-append :
    (x y : Bytes) → split_at_slash x ≡ none → split_at_slash (x ++ (slash ∷ y)) ≡ some (x, y)
unfolding split_at_slash
split_at_slash-append [] y h = refl
split_at_slash-append (b ∷ bs) y h = elim (Bool-cases (b == slash)) [
  | inl e ↦ absurd (some-ne-none _ (rw (e, split_at_slash) at h))
  | inr e ↦ elim (Option-cases (split_at_slash bs)) [
    | inl n ↦ rw (e, split_at_slash, split_at_slash-append bs y n) refl
    | inr (_, q) ↦ absurd (some-ne-none _ (rw (e, split_at_slash, q) at h))
  ]
]

-- An address without a slash, a slash and a number up to 32 in decimal are accepted, and give the
-- block of that prefix length around the address.
pub parse_cidr-decimal :
    (inet_pton : Bytes → Option Bytes) (ip_str s_addr : Bytes) (p : ℕ)
    → split_at_slash ip_str ≡ none
    → inet_pton ip_str ≡ some s_addr
    → IsAddress s_addr
    → p ≤ 32
    → let r = block (of_be_bytes s_addr) p in
      (parse_cidr inet_pton (some (ip_str ++ (slash ∷ decimal p))) ≡ some r)
      × IsBlock (of_be_bytes s_addr) p r
unfolding parse_cidr parse_split
parse_cidr-decimal inet_pton ip_str s_addr p no_slash asked address h = (
  simp (split_at_slash-append ip_str (decimal p) no_slash, asked, parse_decimal p h),
  block-IsBlock (of_be_bytes s_addr) p (address_range s_addr address) h,
)
