-- ===== src/Arp/Tests.antt =====
-- A dump of two datagrams with a router and a multicast address, and the theorems about it.
use mathlib.Core.List.{flat_map}
use netscan.Base.{
  Bytes, List, [], arith, false, minus_one, none, pos, refl, some, true, ℕ, ◌*◌, ◌++◌, ◌+◌, ◌^◌,
  ◌∷◌, ◌≡◌,
}
use netscan.Sys.{Errno, Outcome, returns}
use netscan.Utils.{be_bytes, of_be_bytes}
use netscan.Text.{codes, eq_bytes}
use netscan.Arp.{
  Attr, nda_dst, nda_lladdr, Message, nlmsg_done, rtm_newneigh, ArpState, Datagram, ArpAnswers,
  get_arp_table, receive_loop, parse_messages, handle_message, add_neighbour, is_unresolved,
  is_group, parse_netlink_attributes, read_lladdr, mac_text, hex_digit,
}
use netscan.Arp.Closed.{get_arp_table_closes}
use netscan.Arp.Ends.{get_arp_table_ends}
use netscan.Arp.Listed.{listed, before_end, dump_of, get_arp_table-listed}
use netscan.Arp.Mac.{read_mac, read_mac-mac_text}
use netscan.Arp.Neighbour.{IsNeighbour, All, get_arp_table-IsNeighbour}

-- The two attributes of a neighbour, each followed by whatever the buffer holds.
abbrev neighbour_attributes : Bytes → Bytes → Bytes → Bytes → List Attr
neighbour_attributes address rest mac rest' =
    record { rta_type = nda_dst; rta_payload = 4; rta_data = address ++ rest }
    ∷ record { rta_type = nda_lladdr; rta_payload = 6; rta_data = mac ++ rest' }
    ∷ []

-- 192.168.1.1 and 224.0.0.251
abbrev router : ℕ
router = 192 * 2 ^ 24 + 168 * 2 ^ 16 + 257

abbrev multicast : ℕ
multicast = 224 * 2 ^ 24 + 251

abbrev mac : Bytes
mac = 0 ∷ 27 ∷ 33 ∷ 171 ∷ 205 ∷ 254 ∷ []

abbrev about : ℕ → Message
about ip = record {
  nlmsg_type = rtm_newneigh;
  is_inet = true;
  ndm_state = 2;
  ndm_ifindex = pos 3;
  attributes = neighbour_attributes (be_bytes ip) (10 ∷ 0 ∷ []) mac [];
  ifname = some (codes "eth0");
}

abbrev finish : Message
finish = record {
  nlmsg_type = nlmsg_done;
  is_inet = false;
  ndm_state = 0;
  ndm_ifindex = pos 0;
  attributes = [];
  ifname = none;
}

abbrev datagram : List Message → Datagram
datagram ms = record { len = pos 88; errno = Errno.other 0; is_truncated = false; messages = ms }

-- The second read is interrupted.
abbrev answers : ArpAnswers
answers = record {
  socket = pos 5;
  send = pos 28;
  datagrams =
      datagram (about router ∷ about multicast ∷ [])
      ∷ record (datagram []) { len = minus_one; errno = Errno.eintr }
      ∷ datagram (finish ∷ [])
      ∷ [];
}

arp_table : ArpAnswers → Outcome ArpState
unfolding get_arp_table receive_loop parse_messages handle_message add_neighbour is_unresolved
    is_group parse_netlink_attributes read_lladdr mac_text hex_digit be_bytes of_be_bytes eq_bytes
arp_table x = get_arp_table x

abbrev table : ArpState
table = record {
  entries =
      record {
        ip = router;
        mac_address = codes "00:1b:21:ab:cd:fe";
        interface_index = pos 3;
        iface_name = codes "eth0";
      }
      ∷ [];
  closes = pos 5 ∷ [];
}

arp_table_result : arp_table answers ≡ returns table
unfolding arp_table
arp_table_result = refl

get_arp_table_closes_example : table.closes ≡ pos 5 ∷ []
unfolding arp_table
get_arp_table_closes_example = get_arp_table_closes answers {t = table} arp_table_result

get_arp_table_ends_example : (t : ArpState) × (get_arp_table answers ≡ returns t)
get_arp_table_ends_example = get_arp_table_ends answers refl

get_arp_table-listed_example : table.entries ≡ flat_map listed (before_end (dump_of answers))
unfolding arp_table
get_arp_table-listed_example = get_arp_table-listed answers {t = table} arp_table_result

get_arp_table-IsNeighbour_example : All IsNeighbour table.entries
unfolding arp_table
get_arp_table-IsNeighbour_example = get_arp_table-IsNeighbour answers {t = table} arp_table_result

read_mac-mac_text_example : read_mac (mac_text mac) ≡ mac
read_mac-mac_text_example = read_mac-mac_text mac (omega arith)
