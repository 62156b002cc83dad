-- ===== src/Main/Modes.antt =====
-- `handle_arp_mode`, `execute_network_scan` and `main`. An `Exit` holds the lines that main.cpp prints;
-- what a scanner or `get_arp_table` prints on a failed system call is not among them (Main/Output).
pub mod Found
pub mod Reports
pub mod Stall
pub mod Ran
pub mod Tests
use netscan.Base.{
  Bool, Bytes, List, Option, [], false, if◌then◌else◌, is_neg, length, map, none, some, true, ℕ,
  ◌++◌, ◌==◌, ◌||◌, ◌∷◌,
}
use netscan.Sys.{Outcome, returns, throws, ◌>>=◌}
use netscan.Utils.{NetworkInterface}
use netscan.Text.{codes, eq_bytes}
use netscan.Cidr.{CidrBlock, parse_cidr}
use netscan.Interface.{Interface, FetchAnswers, fetch}
use netscan.Arp.{ArpAnswers, get_arp_table}
use netscan.Ping.Socket.{Answer, SocketAnswers, initialize_socket}
use netscan.Ping.Packet.{Host}
use netscan.Ping.State
use netscan.Ping.Run
use netscan.Tcp.State as TcpState
use netscan.Tcp.Run as TcpRun
use netscan.Main.Options.{Config}
use netscan.Main.Output.{
  Line, invalid_cidr, no_interface_found, address, no_target, unknown_mode, arp_banner, ping_banner,
  ping_host, ping_complete, tcp_banner, tcp_host, tcp_complete, print_arp_table,
}

-- The answers of the system and of the network, as far as a run of the program asks for them.
pub record World : Type 0 where
  pub inet_pton : Bytes → Option Bytes
  pub inet_ntop : Bytes → Option Bytes
  pub getnameinfo : ℕ → Option Bytes
  pub host : Host
  pub arp : ArpAnswers
  pub interfaces : FetchAnswers
  pub sockets : SocketAnswers
  pub ping_rounds : List Run.Round
  pub epoll : Answer
  pub tcp_rounds : List TcpRun.Round

pub record Exit : Type 0 where
  pub status : ℕ
  pub lines : List Line

-- The function repeats the body of `print_arp_table`.
unfoldable pub handle_arp_mode : World → Bool → Outcome Exit
handle_arp_mode w resolve_dns = get_arp_table w.arp >>= λ s. returns (record {
  status = 0;
  lines =
      arp_banner resolve_dns ∷ print_arp_table w.host.inet_ntop w.getnameinfo resolve_dns s.entries;
})

-- The time-out of the mode, unless one is given.
unfoldable pub timeout_of : Config → ℕ
timeout_of config =
    if config.timeout_ms == 0
    then (if eq_bytes config.mode (codes "tcp") then 600 else 800)
    else config.timeout_ms

abbrev pub ping_config : Config → CidrBlock → State.PingScannerConfig
ping_config config r = record {
  base_ip = r.base_ip;
  total_hosts = r.count;
  payload_len = config.payload_len;
  max_probes = config.max_probes;
  timeout_ms = timeout_of config;
  send_batch_size = config.send_batch;
  recv_batch_size = config.recv_batch;
  resolve_dns = config.resolve_dns;
  has_callback = true;
}

abbrev pub tcp_config : Config → CidrBlock → TcpState.TcpScannerConfig
tcp_config config r = record {
  base_ip = r.base_ip;
  total_hosts = r.count;
  target_port = config.port;
  max_probes = config.max_probes;
  timeout_ms = timeout_of config;
  batch_size = config.send_batch;
  resolve_dns = config.resolve_dns;
  has_callback = true;
}

abbrev pub interface_for : World → CidrBlock → NetworkInterface
interface_for w r = (fetch w.inet_ntop w.interfaces r.base_ip r.count).scanned

-- The constructor of `PingScanner`, and `run`, whose callback prints.
unfoldable pub scan_ping : World → Config → CidrBlock → Outcome Exit
scan_ping w config r =
    let c = State.make_setup (ping_config config r) (interface_for w r) in
    elim ((initialize_socket w.sockets).1) [
      | some e ↦ throws e
      | none ↦
          Run.run_loop c w.host w.ping_rounds (State.start c (State.initialize_buffers c)) >>= λ s.
          returns (record {
            status = 0;
            lines =
                ping_banner r.count
                ∷ (map ping_host s.finds.reported ++ (ping_complete (Run.result_of s) ∷ []));
          })
    ]

-- The constructor of `TcpScanner`, and `run`, whose callback prints.
unfoldable pub scan_tcp : World → Config → CidrBlock → Outcome Exit
scan_tcp w config r =
    let c = TcpState.make_setup (tcp_config config r) (interface_for w r) in
    if is_neg w.epoll.value
    then throws w.epoll.errno
    else TcpRun.run c w.host.inet_ntop w.tcp_rounds >>= λ s. returns (record {
      status = 0;
      lines =
          tcp_banner r.count config.port
          ∷ (map tcp_host s.reported ++ (tcp_complete config.port (length s.scan_results) ∷ []));
    })

abbrev pub fail : Line → Outcome Exit
fail line = returns (record { status = 1; lines = line ∷ [] })

unfoldable pub scan_block : World → Config → CidrBlock → Outcome Exit
scan_block w config r =
    if eq_bytes config.mode (codes "ping")
    then scan_ping w config r
    else if eq_bytes config.mode (codes "tcp")
    then scan_tcp w config r
    else fail (unknown_mode config.mode)

abbrev pub or_invalid : Config → (CidrBlock → Outcome Exit) → Option CidrBlock → Outcome Exit
or_invalid config next none = fail (invalid_cidr config.cidr_arg)
or_invalid config next (some r) = next r

unfoldable pub execute_network_scan : World → Config → Outcome Exit
execute_network_scan w config =
    or_invalid config (scan_block w config) (parse_cidr w.inet_pton (some config.cidr_arg))

abbrev pub is_empty : Bytes → Bool
is_empty [] = true
is_empty (_ ∷ _) = false

abbrev pub line_if : Bool → Bytes → List Line
line_if wanted text = if wanted then address text ∷ [] else []

unfoldable pub print_interface : Config → Interface → Outcome Exit
print_interface config i =
    if is_empty i.ip || (is_empty i.network || is_empty i.broadcast)
    then fail no_interface_found
    else returns (record {
      status = 0;
      lines =
          line_if config.print_local_ip i.ip
          ++ (line_if config.print_broadcast_ip i.broadcast
              ++ line_if config.print_network_ip i.network);
    })

-- The first `if` of `main`.
unfoldable pub print_addresses : World → Config → Outcome Exit
print_addresses w config =
    if is_empty config.cidr_arg
    then print_interface config (fetch w.inet_ntop w.interfaces 0 0)
    else or_invalid config
        (λ r. print_interface config (fetch w.inet_ntop w.interfaces r.base_ip r.count))
        (parse_cidr w.inet_pton (some config.cidr_arg))

-- `main` behind `argp_parse`.
unfoldable pub main : World → Config → Outcome Exit
main w config =
    if config.print_local_ip || (config.print_broadcast_ip || config.print_network_ip)
    then print_addresses w config
    else if eq_bytes config.mode (codes "arp")
    then handle_arp_mode w config.resolve_dns
    else if is_empty config.cidr_arg
    then fail no_target
    else execute_network_scan w config
