-- ===== src/Main/Modes/Tests.antt =====
-- Runs of the program with `--mode ping` on a range of four addresses, with a text that is no range,
-- with no argument, and with no probes, and the theorems about these runs.
use mathlib.Core.Option.{some-injective, none-ne-some}
use netscan.Base.{
  Bool-cases, Bytes, Option, [], arith, if◌then◌else◌, inl, inr, map, none, pos, refl, some, subst,
  ℕ, ◌*◌, ◌++◌, ◌+◌, ◌-◌, ◌^◌, ◌∷◌, ◌≡◌, ◌⊎◌,
}
use netscan.Sys.{Errno, Outcome, returns}
use netscan.Text.{codes, eq_bytes}
use netscan.Cidr.Parse.{IsAddress, octets}
use netscan.Cidr.Tests.{parse}
use netscan.Interface.Tests as InterfaceTests
use netscan.Ping.Socket.{
  Answer, initialize_socket, initialize_epoll, configure, and_epoll, steps, fails,
}
use netscan.Ping.Tests as PingTests
use netscan.Main.Options.{Config, defaults}
use netscan.Main.Output.{invalid_cidr, no_target, ping_banner, ping_host, ping_complete}
use netscan.Main.Output.Lines.{hosts}
use netscan.Main.Modes.{
  World, Exit, timeout_of, scan_ping, scan_tcp, scan_block, execute_network_scan, main,
}
use netscan.Main.Modes.Stall.{AsksScan, main_stalls}
use netscan.Main.Modes.Found.{Announced, main-Announced}

-- An `inet_pton` that knows one address.
abbrev known : Bytes → Option Bytes
known s = if eq_bytes s (codes "10.0.0.0") then some (10 ∷ 0 ∷ 0 ∷ 0 ∷ []) else none

known-IsAddress : (s b : Bytes) → known s ≡ some b → IsAddress b
known-IsAddress s b h = elim (Bool-cases (eq_bytes s (codes "10.0.0.0"))) [
  | inl e ↦
      subst IsAddress (some-injective _ _ (rw e at h))
        (octets 10 0 0 0 (omega arith) (omega arith) (omega arith) (omega arith))
  | inr e ↦ absurd (none-ne-some _ (rw e at h))
]

abbrev fine : ℕ → Answer
fine n = record { value = pos n; errno = Errno.other 0 }

abbrev world : World
world = record {
  inet_pton = known;
  inet_ntop = λ b. some b;
  getnameinfo = λ ip. none;
  host = PingTests.host;
  arp = record { socket = pos 3; send = pos 0; datagrams = [] };
  interfaces = record (InterfaceTests.answers) {
    local_ip = 10 * 2 ^ 24 + 1;
    addrs =
        record (InterfaceTests.ethernet) { address = 10 * 2 ^ 24 + 1; netmask = 2 ^ 32 - 4 } ∷ [];
  };
  sockets = record {
    socket = fine 3;
    get_flags = fine 0;
    set_flags = fine 0;
    set_sndbuf = fine 0;
    set_rcvbuf = fine 0;
    set_timestampns = fine 0;
    set_rxq_ovfl = fine 0;
    set_recvttl = fine 0;
    epoll_create = fine 4;
    epoll_add = fine 0;
  };
  ping_rounds = PingTests.rounds;
  epoll = fine 4;
  tcp_rounds = [];
}

abbrev ping_lan : Config
ping_lan = record defaults {
  cidr_arg = codes "10.0.0.0/30";
  payload_len = 2;
  max_probes = 8;
  recv_batch = 4;
}

run_main : Config → Outcome Exit
unfolding main execute_network_scan scan_block scan_ping scan_tcp timeout_of initialize_socket
    initialize_epoll configure and_epoll steps fails eq_bytes parse InterfaceTests.fetch_lan
    PingTests.scan_lan
run_main = main world

abbrev ping_exit : Exit
ping_exit = record {
  status = 0;
  lines =
      ping_banner 4
      ∷ (map ping_host PingTests.lan_result.hosts ++ (ping_complete PingTests.lan_result ∷ []));
}

run_ping : run_main ping_lan ≡ returns ping_exit
unfolding run_main
run_ping = refl

run_no_target : run_main defaults ≡ returns (record { status = 1; lines = no_target ∷ [] })
unfolding run_main
run_no_target = refl

abbrev bad_text : Config
bad_text = record defaults { cidr_arg = codes "10.0.0.0/99" }

abbrev bad_exit : Exit
bad_exit = record { status = 1; lines = invalid_cidr (codes "10.0.0.0/99") ∷ [] }

main-Announced_example : (hosts ping_exit.lines ≡ []) ⊎ Announced world ping_lan ping_exit.lines
unfolding run_main
main-Announced_example = main-Announced world ping_lan known-IsAddress {x = ping_exit} refl

-- `--probes 0`
abbrev no_probes : Config
no_probes = record ping_lan { max_probes = 0 }

no_probes-AsksScan : AsksScan world no_probes (record { base_ip = 10 * 2 ^ 24; count = 4 })
unfolding run_main
no_probes-AsksScan = record {
  no_print = refl;
  not_arp = refl;
  scans = inl refl;
  given = refl;
  parsed = refl;
}

main_stalls_example : ¬ (main world no_probes ≡ returns ping_exit)
main_stalls_example =
    main_stalls world no_probes (record { base_ip = 10 * 2 ^ 24; count = 4 }) (inl refl)
      (omega arith) ping_exit known-IsAddress no_probes-AsksScan
