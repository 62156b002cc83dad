-- ===== src/Cidr/Tests.antt =====
-- The parser on concrete texts, and the theorems about it at such a text.
use mathlib.Core.Option.{some-injective, none-ne-some}
use netscan.Base.{
  Bool-cases, Bytes, Option, [], arith, if◌then◌else◌, inl, inr, length, none, refl, some, subst,
  ◌*◌, ◌++◌, ◌+◌, ◌==◌, ◌^◌, ◌∷◌, ◌≡◌,
}
use netscan.Base.{Bytes}
use netscan.Utils.{of_be_bytes}
use netscan.Ping.State.{make_setup}
use netscan.Ping.Table.{IsSetup}
use netscan.Ping.Tests.{lan_config, lan_interface}
use netscan.Cidr.{
  CidrBlock, block, network_mask, parse_cidr, parse_split, parse_prefix, split_at_slash,
  check_prefix, slash, strtol, skip_spaces, read_signed, read_magnitude, read_digits, to_long,
}
use netscan.Cidr.Block.{IsBlock}
use netscan.Cidr.Parse.{
  IsAddress, octets, Parsed, decimal, parse_cidr-Parsed, parse_cidr-IsSetup, parse_cidr-decimal,
}

-- "192.168.1.7"
abbrev address_text : Bytes
address_text = 49 ∷ 57 ∷ 50 ∷ 46 ∷ 49 ∷ 54 ∷ 56 ∷ 46 ∷ 49 ∷ 46 ∷ 55 ∷ []

abbrev address : Bytes
address = 192 ∷ 168 ∷ 1 ∷ 7 ∷ []

-- An `inet_pton` that knows one length of text.
abbrev known : Bytes → Option Bytes
known s = if length s == 11 then some address else none

known-IsAddress : (s b : Bytes) → known s ≡ some b → IsAddress b
known-IsAddress s b h = elim (Bool-cases (length s == 11)) [
  | inl e ↦
      subst IsAddress (some-injective _ _ (rw e at h))
        (octets 192 168 1 7 (omega arith) (omega arith) (omega arith) (omega arith))
  | inr e ↦ absurd (none-ne-some _ (rw e at h))
]

unfoldable pub parse : Bytes → Option CidrBlock
unfolding parse_cidr parse_split split_at_slash parse_prefix check_prefix strtol skip_spaces
    read_signed read_magnitude read_digits to_long block network_mask of_be_bytes
parse input = parse_cidr known (some input)

abbrev lan_block : CidrBlock
lan_block = record { base_ip = 192 * 2 ^ 24 + 168 * 2 ^ 16 + 256; count = 256 }

-- "192.168.1.7/24"
abbrev lan_text : Bytes
lan_text = address_text ++ (slash ∷ decimal 24)

parse_lan : parse lan_text ≡ some lan_block
unfolding parse
parse_lan = refl

parse_33 : parse (address_text ++ (slash ∷ decimal 33)) ≡ none
unfolding parse
parse_33 = refl

-- "192.168.1.7/ +24": the spaces and the sign that `strtol` passes over.
parse_space : parse (address_text ++ (slash ∷ 32 ∷ 43 ∷ 50 ∷ 52 ∷ [])) ≡ some lan_block
unfolding parse
parse_space = refl

-- "192.168.1.7/0"
parse_all : parse (address_text ++ (slash ∷ decimal 0)) ≡ some (record { base_ip = 0; count = 0 })
unfolding parse
parse_all = refl

parse_cidr-Parsed_example : Parsed known lan_text lan_block
unfolding parse
parse_cidr-Parsed_example = parse_cidr-Parsed known known-IsAddress lan_text refl

parse_cidr-IsSetup_example : IsSetup (
    make_setup (record lan_config { base_ip = lan_block.base_ip; total_hosts = 256 }) lan_interface)
unfolding parse
parse_cidr-IsSetup_example =
    parse_cidr-IsSetup known known-IsAddress lan_text {r = lan_block} lan_config lan_interface refl

parse_cidr-decimal_example :
    (parse_cidr known (some lan_text) ≡ some (block (of_be_bytes address) 24))
    × IsBlock (of_be_bytes address) 24 (block (of_be_bytes address) 24)
unfolding split_at_slash
parse_cidr-decimal_example =
    parse_cidr-decimal known address_text address 24 refl refl
      (octets 192 168 1 7 (omega arith) (omega arith) (omega arith) (omega arith)) (omega arith)
