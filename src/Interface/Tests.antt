-- ===== src/Interface/Tests.antt =====
-- The choice of an interface of a host with two, and the theorem about it at this host.
use netscan.Base.{[], arith, false, pos, refl, some, true, ℕ, ◌*◌, ◌+◌, ◌-◌, ◌^◌, ◌∷◌, ◌≡◌}
use netscan.Sys.{Errno}
use netscan.Utils.{NetworkInterface, be_bytes}
use netscan.Ping.Socket.{Answer}
use netscan.Interface.{IfAddr, FetchAnswers, is_candidate, target_end, describe, select, fetch}
use netscan.Interface.Local.{Fetched, fetch-Fetched}

-- 192.168.1.0
abbrev lan : ℕ
lan = 192 * 2 ^ 24 + 168 * 2 ^ 16 + 256

abbrev loopback : IfAddr
loopback = record {
  has_addr = true;
  has_netmask = true;
  is_inet = true;
  is_up = true;
  is_loopback = true;
  is_broadcast = false;
  name = 108 ∷ 111 ∷ [];
  address = 127 * 2 ^ 24 + 1;
  netmask = 255 * 2 ^ 24;
}

abbrev pub ethernet : IfAddr
ethernet = record {
  has_addr = true;
  has_netmask = true;
  is_inet = true;
  is_up = true;
  is_loopback = false;
  is_broadcast = true;
  name = 101 ∷ 48 ∷ [];
  address = lan + 7;
  netmask = 2 ^ 32 - 256;
}

abbrev fine : Answer
fine = record { value = pos 0; errno = Errno.other 0 }

abbrev pub answers : FetchAnswers
answers = record {
  socket = fine;
  connect = fine;
  getsockname = fine;
  local_ip = lan + 7;
  getifaddrs = fine;
  addrs = loopback ∷ ethernet ∷ [];
}

unfoldable pub fetch_lan : ℕ → ℕ → NetworkInterface
unfolding fetch select is_candidate describe target_end be_bytes
fetch_lan base total = (fetch (λ b. some b) answers base total).scanned

fetch_local :
    fetch_lan (lan + 128) 16
    ≡ record { network_ip = lan; broadcast_ip = lan + 255; is_local = true }
unfolding fetch_lan
fetch_local = refl

fetch_remote :
    fetch_lan (lan + 256) 256
    ≡ record { network_ip = lan; broadcast_ip = lan + 255; is_local = false }
unfolding fetch_lan
fetch_remote = refl

fetch_example : Fetched (lan + 128) 16 answers (fetch (λ b. some b) answers (lan + 128) 16).scanned
fetch_example = fetch-Fetched (λ b. some b) (lan + 128) 16 (omega arith) (omega arith) answers
