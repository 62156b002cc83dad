-- ===== src/Ping/State.antt =====
-- The data of `PingScanner`, include/ping_scanner.hpp. `Setup` holds the members that the
-- constructor fixes, `Scan` those that a scan changes, with the local variables of `run` and of
-- `send_batch`.
use netscan.Base.{Bool, Bytes, List, [], false, max, min, minus_one, pos, replicate, ℕ, ℤ, ◌+◌}
use netscan.Sys.{Timespec}
use netscan.Utils.{NetworkInterface, safe_batch_size, add_size, mul_size}

pub record PingScannerConfig : Type 0 where
  pub base_ip : ℕ
  pub total_hosts : ℕ
  pub payload_len : ℕ
  pub max_probes : ℕ
  pub timeout_ms : ℕ
  pub send_batch_size : ℕ
  pub recv_batch_size : ℕ
  pub resolve_dns : Bool
  pub has_callback : Bool

pub record ProbeInfo : Type 0 where
  pub active : Bool
  pub dest_ip : ℕ
  pub seq : ℕ
  pub send_time : Timespec

-- `ProbeInfo{}`
abbrev pub no_probe : ProbeInfo
no_probe = record {
  active = false;
  dest_ip = 0;
  seq = 0;
  send_time = record { tv_sec = pos 0; tv_nsec = pos 0 };
}

-- `rtt_ns` is `rtt_ms` in nanoseconds.
pub record PingHostResult : Type 0 where
  pub ip : ℕ
  pub ip_str : Bytes
  pub hostname : Bytes
  pub rtt_ns : ℤ
  pub ttl : ℤ

-- `sizeof(IcmpHdr)` and `sizeof(PingPayload)`: the second has four bytes of padding before its
-- 64-bit members.
abbrev pub icmp_hdr_size : ℕ
icmp_hdr_size = 8

abbrev pub ping_payload_size : ℕ
ping_payload_size = 24

pub record Setup : Type 0 where
  pub base_ip : ℕ
  pub total_hosts : ℕ
  pub network_interface : NetworkInterface
  pub payload_len : ℕ
  pub max_probes : ℕ
  pub timeout_ms : ℕ
  pub send_batch_size : ℕ
  pub recv_batch_size : ℕ
  pub resolve_dns : Bool
  pub has_callback : Bool
  pub packet_buffer_size : ℕ

-- The initializers of the constructor; the interface is what `NetworkInterface::fetch` returned.
unfoldable pub make_setup : PingScannerConfig → NetworkInterface → Setup
make_setup config interface = record {
  base_ip = config.base_ip;
  total_hosts = config.total_hosts;
  network_interface = interface;
  payload_len = config.payload_len;
  max_probes = min config.max_probes config.total_hosts;
  timeout_ms = config.timeout_ms;
  send_batch_size = safe_batch_size config.send_batch_size config.total_hosts;
  recv_batch_size = safe_batch_size config.recv_batch_size config.total_hosts;
  resolve_dns = config.resolve_dns;
  has_callback = config.has_callback;
  packet_buffer_size = add_size (icmp_hdr_size + ping_payload_size) config.payload_len;
}

-- The probes in flight. A `host_to_probe` entry is a slot, or -1.
pub record Table : Type 0 where
  pub probe_table : List ProbeInfo
  pub host_to_probe : List ℤ
  pub active_probes : ℕ

pub record Counters : Type 0 where
  pub tx_drops : ℕ
  pub rx_queue_overflows : ℕ
  pub echo_replies : ℕ
  pub unmatched_replies : ℕ
  pub probe_timeouts : ℕ

-- What was found. `reported` lists the calls of `result_callback_`.
pub record Finds : Type 0 where
  pub found_ips_cache : List ℕ
  pub hosts_found : ℕ
  pub scan_results : List PingHostResult
  pub reported : List PingHostResult

-- The send buffers. The pointers in `send_iovs_` and `send_msgvec_` always lead to the entry of the
-- same index, and are left out.
pub record Batch : Type 0 where
  pub send_packets : Bytes
  pub send_addrs : List ℕ
  pub send_probe_slots : List ℤ
  pub batch_count : ℕ

pub record Scan : Type 0 where
  pub table : Table
  pub counters : Counters
  pub finds : Finds
  pub batch : Batch
  pub next_host_idx : ℕ
  pub next_seq : ℕ

-- `initialize_buffers`, the send side.
unfoldable pub initialize_buffers : Setup → Batch
initialize_buffers c =
    let send_count = max 1 c.send_batch_size in
    record {
      send_packets = replicate (mul_size c.packet_buffer_size send_count) 0;
      send_addrs = replicate send_count 0;
      send_probe_slots = replicate send_count minus_one;
      batch_count = 0;
    }

-- The resets at the head of `run`. The buffers keep what an earlier scan left in them.
unfoldable pub start : Setup → Batch → Scan
start c b = record {
  table = record {
    probe_table = replicate c.max_probes no_probe;
    host_to_probe = replicate c.total_hosts minus_one;
    active_probes = 0;
  };
  counters = record {
    tx_drops = 0;
    rx_queue_overflows = 0;
    echo_replies = 0;
    unmatched_replies = 0;
    probe_timeouts = 0;
  };
  finds = record { found_ips_cache = []; hosts_found = 0; scan_results = []; reported = [] };
  batch = b;
  next_host_idx = 0;
  next_seq = 1;
}
