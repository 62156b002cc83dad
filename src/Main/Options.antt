-- ===== src/Main/Options.antt =====
-- `Config` and `parse_opt`. argp calls `parse_opt` for each option and argument that it finds.
pub mod Tests
use netscan.Base.{
  Bool, Bytes, List, Option, [], false, if◌then◌else◌, leb, none, not, some, true, ℕ, ◌%◌, ◌-◌,
  ◌==◌, ◌^◌, ◌∷◌,
}
use netscan.Text.{codes}
use netscan.Cidr.{skip_spaces, read_digits}

pub record Config : Type 0 where
  pub cidr_arg : Bytes
  pub mode : Bytes
  pub port : ℕ
  pub payload_len : ℕ
  pub max_probes : ℕ
  pub timeout_ms : ℕ
  pub send_batch : ℕ
  pub recv_batch : ℕ
  pub resolve_dns : Bool
  pub print_local_ip : Bool
  pub print_broadcast_ip : Bool
  pub print_network_ip : Bool

-- `Config config;`, with the defaults of include/utils.hpp.
abbrev pub defaults : Config
defaults = record {
  cidr_arg = [];
  mode = codes "ping";
  port = 443;
  payload_len = 0;
  max_probes = 4096;
  timeout_ms = 0;
  send_batch = 4;
  recv_batch = 128;
  resolve_dns = true;
  print_local_ip = false;
  print_broadcast_ip = false;
  print_network_ip = false;
}

-- The keys of `parse_opt`. `argument` is `ARGP_KEY_ARG`, with the number of arguments before it.
pub data Key : Type 0 where
  mode port payload probes timeout send_batch recv_batch dns : Key
  local_ip broadcast network : Key
  argument : ℕ → Key
  finish unknown : Key

-- `ULONG_MAX` when the digits exceed it, else the number, negated modulo 2 ^ 64 after a `-`.
unfoldable pub to_ulong : Bool → ℕ → ℕ
to_ulong negative n =
    if leb (2 ^ 64) n then 2 ^ 64 - 1 else if negative then (2 ^ 64 - n) % 2 ^ 64 else n

-- `strtoul(arg, nullptr, 10)`: 0 when there are no digits.
unfoldable pub read_unsigned : Bytes → ℕ
read_unsigned [] = 0
read_unsigned (b ∷ bs) =
    if b == b'-'
    then to_ulong true (read_digits 0 bs).0
    else if b == b'+'
    then to_ulong false (read_digits 0 bs).0
    else to_ulong false (read_digits 0 (b ∷ bs)).0

unfoldable pub strtoul : Bytes → ℕ
strtoul arg = read_unsigned (skip_spaces arg)

-- What `parse_opt` does: it returns 0, leaves the program by `argp_usage`, or returns
-- `ARGP_ERR_UNKNOWN`.
pub data Parsed : Type 0 where
  accepted : Config → Parsed
  usage : Parsed
  refused : Parsed

unfoldable pub parse_opt : Key → Bytes → Config → Parsed
parse_opt mode arg c = accepted (record c { mode = arg })
parse_opt port arg c = accepted (record c { port = strtoul arg % 2 ^ 16 })
parse_opt payload arg c = accepted (record c { payload_len = strtoul arg })
parse_opt probes arg c = accepted (record c { max_probes = strtoul arg })
parse_opt timeout arg c = accepted (record c { timeout_ms = strtoul arg % 2 ^ 32 })
parse_opt send_batch arg c = accepted (record c { send_batch = strtoul arg })
parse_opt recv_batch arg c = accepted (record c { recv_batch = strtoul arg })
parse_opt dns arg c = accepted (record c { resolve_dns = not (strtoul arg == 0) })
parse_opt local_ip arg c = accepted (record c { print_local_ip = true })
parse_opt broadcast arg c = accepted (record c { print_broadcast_ip = true })
parse_opt network arg c = accepted (record c { print_network_ip = true })
parse_opt (argument arg_num) arg c =
    if leb 1 arg_num then usage else accepted (record c { cidr_arg = arg })
parse_opt finish arg c = accepted c
parse_opt unknown arg c = refused

-- argp goes on when `parse_opt` accepts, and when it returns `ARGP_ERR_UNKNOWN` for one of argp's own
-- keys, such as `ARGP_KEY_INIT`. Options that are not in the table never come to `parse_opt`.
unfoldable pub and_then : Config → Parsed → (Config → Option Config) → Option Config
and_then c (accepted c') next = next c'
and_then c usage next = none
and_then c refused next = next c

-- The calls in their order.
unfoldable pub parse_all : List (Key × Bytes) → Config → Option Config
parse_all [] c = some c
parse_all ((k, arg) ∷ rest) c = and_then c (parse_opt k arg c) (parse_all rest)
