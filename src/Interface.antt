-- ===== src/Interface.antt =====
-- `NetworkInterface::fetch` of src/utils.cpp. What the system calls answer is an argument; addresses
-- are given after `ntohl`, and `inet_ntop` is a parameter.
pub mod Local
pub mod Tests
use Prim.Native.Nat.{bit_and, bit_or}
use netscan.Base.{
  Bool, Bytes, List, Option, [], eqb_ℤ, false, if◌then◌else◌, is_neg, leb, minus_one, none, not,
  pos, some, ℕ, ◌&&◌, ◌-◌, ◌==◌, ◌∷◌,
}
use netscan.Base.{Bytes}
use netscan.Utils.{NetworkInterface, add32, be_bytes, uint_max}
use netscan.Ping.Socket.{Answer}

-- One entry of `getifaddrs`: which pointers are set, the family, the flags that are tested, and the
-- addresses.
pub record IfAddr : Type 0 where
  pub has_addr : Bool
  pub has_netmask : Bool
  pub is_inet : Bool
  pub is_up : Bool
  pub is_loopback : Bool
  pub is_broadcast : Bool
  pub name : Bytes
  pub address : ℕ
  pub netmask : ℕ

-- The members of `NetworkInterface` with its texts.
pub record Interface : Type 0 where
  pub name : Bytes
  pub ip : Bytes
  pub network : Bytes
  pub broadcast : Bytes
  pub ip_address : ℕ
  pub scanned : NetworkInterface

-- `NetworkInterface interface{}`
abbrev pub no_interface : Interface
no_interface = record {
  name = [];
  ip = [];
  network = [];
  broadcast = [];
  ip_address = 0;
  scanned = record { network_ip = 0; broadcast_ip = 0; is_local = false };
}

pub record FetchAnswers : Type 0 where
  pub socket : Answer
  pub connect : Answer
  pub getsockname : Answer
  pub local_ip : ℕ
  pub getifaddrs : Answer
  pub addrs : List IfAddr

-- No `continue` before the address is taken.
unfoldable pub is_candidate : ℕ → IfAddr → Bool
is_candidate local_ip a =
    a.has_addr
    && (a.has_netmask
        && (a.is_inet
            && (a.is_up && (not a.is_loopback && (a.is_broadcast && a.address == local_ip)))))

unfoldable pub target_end : ℕ → ℕ → ℕ
target_end target_base_ip total_hosts =
    if total_hosts == 0 then target_base_ip else add32 target_base_ip (total_hosts - 1)

-- The text of an address, or nothing when `inet_ntop` fails.
abbrev pub text_of : (Bytes → Option Bytes) → ℕ → Bytes
text_of inet_ntop address = elim (inet_ntop (be_bytes address)) [ some text ↦ text | none ↦ [] ]

-- `~m` on 32 bits.
abbrev pub complement : ℕ → ℕ
complement m = uint_max - m

unfoldable pub describe : (Bytes → Option Bytes) → ℕ → ℕ → IfAddr → Interface
describe inet_ntop target_base_ip target_end_ip a =
    let network_ip = bit_and a.address a.netmask in
    let broadcast_ip = bit_or a.address (complement a.netmask) in
    record {
      name = a.name;
      ip = text_of inet_ntop a.address;
      network = text_of inet_ntop network_ip;
      broadcast = text_of inet_ntop broadcast_ip;
      ip_address = a.address;
      scanned = record {
        network_ip = network_ip;
        broadcast_ip = broadcast_ip;
        is_local = leb target_base_ip broadcast_ip && leb network_ip target_end_ip;
      };
    }

-- The loop over the entries: the first candidate is described.
unfoldable pub select : (Bytes → Option Bytes) → ℕ → ℕ → ℕ → List IfAddr → Interface
select inet_ntop local_ip target_base_ip target_end_ip [] = no_interface
select inet_ntop local_ip target_base_ip target_end_ip (a ∷ rest) =
    let onward = select inet_ntop local_ip target_base_ip target_end_ip rest in
    if is_candidate local_ip a then describe inet_ntop target_base_ip target_end_ip a else onward

-- `connect` and `getsockname` succeeded.
abbrev pub is_routed : FetchAnswers → Bool
is_routed x = eqb_ℤ x.connect.value (pos 0) && eqb_ℤ x.getsockname.value (pos 0)

unfoldable pub fetch : (Bytes → Option Bytes) → FetchAnswers → ℕ → ℕ → Interface
fetch inet_ntop x target_base_ip total_hosts =
    if is_neg x.socket.value
    then no_interface
    else if not (is_routed x)
    then no_interface
    else if eqb_ℤ x.getifaddrs.value minus_one
    then no_interface
    else select inet_ntop x.local_ip target_base_ip (target_end target_base_ip total_hosts) x.addrs
