-- ===== src/Main/Output.antt =====
-- What src/main.cpp and `print_arp_table` print: one constructor for each of their calls of `printf`
-- or `fprintf`, with the arguments that vary from host to host. The banners keep the arguments given
-- here and leave out the rest of the configuration; the scan time, a difference of two clocks, is left
-- out. What the scanners and `get_arp_table` print themselves when a system call fails is no `Line`:
-- `sendmmsg` and `recvmmsg` (src/ping_scanner.cpp, lines 494 and 649), NLMSG_ERROR and MSG_TRUNC
-- (src/arp_table.cpp, lines 90 and 190), `setsockopt` (src/tcp_scanner.cpp, lines 101 and 104).
pub mod Lines
use netscan.Base.{Bool, Bytes, List, Option, [], if◌then◌else◌, length, map, ℕ, ◌++◌, ◌∷◌}
use netscan.Utils.{format_ip, resolve_hostname, not_available}
use netscan.Arp.{ArpEntry}
use netscan.Ping.State.{PingHostResult}
use netscan.Ping.Run.{PingScanResult}
use netscan.Tcp.State.{TcpHostResult}

pub data Line : Type 0 where
  invalid_cidr : Bytes → Line
  no_interface_found : Line
  address : Bytes → Line
  no_target : Line
  unknown_mode : Bytes → Line
  arp_banner : Bool → Line
  no_arp_entries : Line
  arp_heading : Line
  arp_row : Bytes → Bytes → Bytes → Bytes → Line
  arp_total : ℕ → Line
  ping_banner : ℕ → Line
  ping_host : PingHostResult → Line
  ping_complete : PingScanResult → Line
  tcp_banner : ℕ → ℕ → Line
  tcp_host : TcpHostResult → Line
  tcp_complete : ℕ → ℕ → Line

-- The body of the loop over the entries, with the answer of `getnameinfo`.
unfoldable pub arp_row_of : (Bytes → Bytes) → (ℕ → Option Bytes) → Bool → ArpEntry → Line
arp_row_of inet_ntop getnameinfo resolve_dns entry =
    arp_row (format_ip inet_ntop entry.ip) entry.mac_address entry.iface_name
      (if resolve_dns then resolve_hostname (getnameinfo entry.ip) else not_available)

-- `print_arp_table`, behind the query.
unfoldable pub print_arp_table :
    (Bytes → Bytes) → (ℕ → Option Bytes) → Bool → List ArpEntry → List Line
print_arp_table inet_ntop getnameinfo resolve_dns [] = no_arp_entries ∷ []
print_arp_table inet_ntop getnameinfo resolve_dns (e ∷ es) =
    arp_heading
    ∷ (map (arp_row_of inet_ntop getnameinfo resolve_dns) (e ∷ es)
        ++ (arp_total (length (e ∷ es)) ∷ []))
