-- ===== src/Main/Options/Tests.antt =====
-- A command line with a port that does not fit 16 bits.
use netscan.Base.{Bytes, List, Option, [], refl, some, ◌∷◌, ◌≡◌}
use netscan.Cidr.{skip_spaces, read_digits}
use netscan.Text.{codes}
use netscan.Main.Options.{
  Config, defaults, Key, mode, port, argument, strtoul, read_unsigned, to_ulong, parse_opt,
  and_then, parse_all,
}

-- `--mode tcp --port 65979 10.0.0.0/30`
abbrev calls : List (Key × Bytes)
calls = (mode, codes "tcp") ∷ (port, codes "65979") ∷ (argument 0, codes "10.0.0.0/30") ∷ []

abbrev tcp_443 : Config
tcp_443 = record defaults { mode = codes "tcp"; cidr_arg = codes "10.0.0.0/30" }

parse : List (Key × Bytes) → Option Config
unfolding parse_all and_then parse_opt strtoul read_unsigned to_ulong read_digits skip_spaces
parse cs = parse_all cs defaults

calls_accepted : parse calls ≡ some tcp_443
unfolding parse
calls_accepted = refl
