-- ===== src/Arp.antt =====
-- src/arp_table.cpp and include/arp_table.hpp: the kernel's table of neighbours. The headers' macros
-- walk over a message buffer; the messages and attributes that they yield are arguments.
pub mod Closed
pub mod Listed
pub mod Ends
pub mod Mac
pub mod Neighbour
pub mod Tests
use Prim.Native.Nat.{bit_and}
use netscan.Base.{
  Bool, Bytes, List, Option, [], false, if◌then◌else◌, is_neg, leb, length, ltb, none, not, some,
  take, true, ℕ, ℤ, ◌%◌, ◌&&◌, ◌++◌, ◌+◌, ◌-◌, ◌/◌, ◌==◌, ◌^◌, ◌||◌, ◌∷◌,
}
use netscan.Base.{Bytes, take}
use netscan.Sys.{Errno, is_eintr, Outcome, returns, pending}
use netscan.Utils.{of_be_bytes, format_ip, resolve_hostname, not_available}
use netscan.Text.{codes, eq_bytes}
use netscan.Ping.Socket.{Answer}

pub record ArpEntry : Type 0 where
  pub ip : ℕ
  pub mac_address : Bytes
  pub interface_index : ℤ
  pub iface_name : Bytes

pub data AttrType : Type 0 where
  nda_dst nda_lladdr unknown : AttrType

-- An attribute that `RTA_OK` lets through: its type, the length of its payload, and the buffer from
-- the payload on, which goes on behind the payload.
pub record Attr : Type 0 where
  pub rta_type : AttrType
  pub rta_payload : ℕ
  pub rta_data : Bytes

abbrev pub mac_byte_count : ℕ
mac_byte_count = 6

abbrev pub mac_str_len : ℕ
mac_str_len = 18

-- `%02x` of a byte.
unfoldable pub hex_digit : ℕ → ℕ
hex_digit n = if ltb n 10 then b'0' + n else b'a' + n - 10

abbrev pub hex_byte : ℕ → Bytes
hex_byte b = hex_digit (b / 16) ∷ hex_digit (b % 16) ∷ []

-- The bytes in hexadecimal, with colons between them.
unfoldable pub mac_text : Bytes → Bytes
mac_text [] = []
mac_text (b ∷ []) = hex_byte b
mac_text (b ∷ c ∷ cs) = hex_byte b ++ (b':' ∷ mac_text (c ∷ cs))

-- The text of a link-layer address, or nothing where the function returns.
unfoldable pub read_lladdr : Attr → Option Bytes
read_lladdr a =
    let mac_buf = mac_text (take mac_byte_count a.rta_data) in
    if ltb a.rta_payload mac_byte_count
    then none
    else if leb mac_str_len (length mac_buf)
    then none
    else some mac_buf

unfoldable pub parse_netlink_attributes : List Attr → ℕ → Bytes → ℕ × Bytes
parse_netlink_attributes [] ip_address mac = (ip_address, mac)
parse_netlink_attributes (a ∷ rest) ip_address mac = elim (a.rta_type) [
  | nda_dst ↦ parse_netlink_attributes rest (of_be_bytes a.rta_data) mac
  | nda_lladdr ↦ elim (read_lladdr a) [
    | none ↦ (ip_address, mac)
    | some text ↦ parse_netlink_attributes rest ip_address text
  ]
  | unknown ↦ parse_netlink_attributes rest ip_address mac
]

pub data MessageType : Type 0 where
  nlmsg_done nlmsg_error rtm_newneigh other : MessageType

-- A message, with the answer of `if_indextoname` for its interface.
pub record Message : Type 0 where
  pub nlmsg_type : MessageType
  pub is_inet : Bool
  pub ndm_state : ℕ
  pub ndm_ifindex : ℤ
  pub attributes : List Attr
  pub ifname : Option Bytes

-- The entries read so far, and the calls of `close`, the last first.
pub record ArpState : Type 0 where
  pub entries : List ArpEntry
  pub closes : List ℤ

abbrev pub zero_mac : Bytes
zero_mac = codes "00:00:00:00:00:00"

-- `NUD_INCOMPLETE`
abbrev nud_incomplete : ℕ
nud_incomplete = 1

unfoldable pub is_unresolved : Message → Bytes → Bool
is_unresolved m mac = not (bit_and m.ndm_state nud_incomplete == 0) || eq_bytes mac zero_mac

-- Multicast and broadcast addresses.
unfoldable pub is_group : ℕ → Bool
is_group ip_address =
    let first_byte = ip_address / 2 ^ 24 % 256 in
    (leb 224 first_byte && leb first_byte 239) || ip_address == 4294967295

abbrev pub name_of : Option Bytes → Bytes
name_of (some ifname) = ifname
name_of none = codes "unknown"

abbrev pub make_entry : Message → ℕ → Bytes → ArpEntry
make_entry m ip_address mac = record {
  ip = ip_address;
  mac_address = mac;
  interface_index = m.ndm_ifindex;
  iface_name = name_of m.ifname;
}

-- The end of `parse_netlink_message`, with what the attributes hold.
unfoldable pub add_neighbour : Message → ℕ × Bytes → ArpState → ArpState
add_neighbour m (ip_address, mac) s =
    if ip_address == 0
    then s
    else if is_unresolved m mac
    then s
    else if is_group ip_address
    then s
    else record s { entries = s.entries ++ (make_entry m ip_address mac ∷ []) }

-- `close(sock)`
abbrev pub close_sock : ℤ → ArpState → ArpState
close_sock sock s = record s { closes = sock ∷ s.closes }

-- The flag tells whether to go on. What is printed about an error, and whether that fails, makes no
-- difference.
unfoldable pub handle_message : MessageType → ℤ → Message → ArpState → Bool × ArpState
handle_message nlmsg_done sock m s = (false, close_sock sock s)
handle_message nlmsg_error sock m s = (false, close_sock sock s)
handle_message rtm_newneigh sock m s =
    if not m.is_inet
    then (true, s)
    else (true, add_neighbour m (parse_netlink_attributes m.attributes 0 zero_mac) s)
handle_message other sock m s = (true, s)

abbrev pub parse_netlink_message : ℤ → Message → ArpState → Bool × ArpState
parse_netlink_message sock m s = handle_message m.nlmsg_type sock m s

-- The loop over the messages of one datagram.
unfoldable pub parse_messages : ℤ → List Message → ArpState → Bool × ArpState
parse_messages sock [] s = (true, s)
parse_messages sock (m ∷ rest) s =
    let r = parse_netlink_message sock m s in
    elim (r.0) [ true ↦ parse_messages sock rest (r.1) | false ↦ (false, r.1) ]

-- One return of `recvmsg`, with the messages that `NLMSG_OK` and `NLMSG_NEXT` walk over.
pub record Datagram : Type 0 where
  pub len : ℤ
  pub errno : Errno
  pub is_truncated : Bool
  pub messages : List Message

unfoldable pub receive_loop : ℤ → List Datagram → ArpState → Outcome ArpState
receive_loop sock [] s = pending
receive_loop sock (d ∷ rest) s =
    let again = receive_loop sock rest s in
    let r = parse_messages sock d.messages s in
    let onward = receive_loop sock rest (r.1) in
    if is_neg d.len
    then (if is_eintr d.errno then again else returns (close_sock sock s))
    else if d.is_truncated
    then returns (close_sock sock s)
    else if r.0
    then onward
    else returns (r.1)

pub record ArpAnswers : Type 0 where
  pub socket : ℤ
  pub send : ℤ
  pub datagrams : List Datagram

abbrev pub no_entries : ArpState
no_entries = record { entries = []; closes = [] }

unfoldable pub get_arp_table : ArpAnswers → Outcome ArpState
get_arp_table x =
    if is_neg x.socket
    then returns no_entries
    else if is_neg x.send
    then returns (close_sock x.socket no_entries)
    else receive_loop x.socket x.datagrams no_entries
