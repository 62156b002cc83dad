-- ===== src/Ping/Receive.antt =====
-- Receiving: `extract_control_data`, `process_received_packet` and `receive_responses`.
pub mod Counts
pub mod Settle
pub mod Cache
pub mod Keeps
use netscan.Base.{
  Bool, Bytes, List, Option, [], get_or, if◌then◌else◌, int64, is_neg, length, ltb, max, minus_one,
  none, not, of_le_bytes, pos_part, read_at, set, some, to_int, ℕ, ℤ, ◌&&◌, ◌++◌, ◌+◌, ◌==◌, ◌||◌,
  ◌∷◌,
}
use netscan.Sys.{Timespec, Outcome, returns, pending, diff_ns, rtt_of}
use netscan.Utils.{inc32, format_ip, resolve_hostname, not_available}
use netscan.Ping.State.{
  Setup, Table, Finds, Scan, PingHostResult, no_probe, icmp_hdr_size, ping_payload_size,
}
use netscan.Ping.Slots.{host_index_for_ip, is_host_found, deactivate}
use netscan.Ping.Packet.{Host, reply_type, reply_target, reply_send_time}

-- The control messages that the code tells apart by level and type, with the bytes at `CMSG_DATA`.
pub data Cmsg : Type 0 where
  ip_ttl so_timestampns so_rxq_ovfl unknown : Bytes → Cmsg

-- One entry of `rx_msgvec_` after `recvmmsg`: the bytes received, the source address, the control
-- messages, and what `clock_gettime` and `getnameinfo` would say when the entry is processed.
pub record Packet : Type 0 where
  pub bytes : Bytes
  pub src_ip : ℕ
  pub controls : List Cmsg
  pub clock : Timespec
  pub name : Option Bytes

pub record ControlData : Type 0 where
  pub ttl : ℤ
  pub recv_ts : Option Timespec
  pub overflows : ℕ

unfoldable pub timespec_at : Bytes → Timespec
timespec_at b = record {
  tv_sec = int64 (of_le_bytes (read_at b 0 8));
  tv_nsec = int64 (of_le_bytes (read_at b 8 8));
}

unfoldable pub read_control : Cmsg → ControlData → ControlData
read_control (ip_ttl b) d = record d { ttl = to_int (of_le_bytes (read_at b 0 4)) }
read_control (so_timestampns b) d = record d { recv_ts = some (timespec_at b) }
read_control (so_rxq_ovfl b) d = record d {
  overflows = max (of_le_bytes (read_at b 0 4)) d.overflows;
}
read_control (unknown b) d = d

unfoldable pub read_controls : List Cmsg → ControlData → ControlData
read_controls [] d = d
read_controls (m ∷ ms) d = read_controls ms (read_control m d)

-- The `ttl`, the time of receipt and the new `rx_queue_overflows_`.
unfoldable pub extract_control_data : Packet → ℕ → ℤ × Timespec × ℕ
extract_control_data p rx_queue_overflows =
    let d =
      read_controls p.controls
        (record { ttl = minus_one; recv_ts = none; overflows = rx_queue_overflows }) in
    (d.ttl, elim d.recv_ts [ some ts ↦ ts | none ↦ p.clock ], d.overflows)

abbrev pub count_unmatched : Scan → Scan
count_unmatched s = record s {
  counters = record (s.counters) { unmatched_replies = inc32 s.counters.unmatched_replies };
}

abbrev pub count_reply : Scan → Scan
count_reply s = record s {
  counters = record (s.counters) { echo_replies = inc32 s.counters.echo_replies };
}

-- `Clean up active slot if it was still holding this host`
unfoldable pub settle_slot : Table → ℕ → ℕ → Table
settle_slot t host_idx target_ip =
    let slot = get_or t.host_to_probe host_idx minus_one in
    let probe = get_or t.probe_table (pos_part slot) no_probe in
    let is_held = probe.active && probe.dest_ip == target_ip in
    let t' = if is_held then deactivate t (pos_part slot) else t in
    if not (is_neg slot) && ltb (pos_part slot) (length t.probe_table)
    then record t' { host_to_probe = set t'.host_to_probe host_idx minus_one }
    else t

unfoldable pub make_result : Setup → Host → Packet → ℕ → ℤ → ℤ → PingHostResult
make_result c h p target_ip rtt_ns ttl = record {
  ip = target_ip;
  ip_str = format_ip h.inet_ntop target_ip;
  hostname = if c.resolve_dns then resolve_hostname p.name else not_available;
  rtt_ns = rtt_ns;
  ttl = ttl;
}

unfoldable pub record_find : Setup → Finds → PingHostResult → Finds
record_find c f r = record {
  found_ips_cache = f.found_ips_cache ++ (r.ip ∷ []);
  hosts_found = f.hosts_found + 1;
  scan_results = f.scan_results ++ (r ∷ []);
  reported = if c.has_callback then f.reported ++ (r ∷ []) else f.reported;
}

-- The guards of `process_received_packet` behind the test of the type, in their order.
unfoldable pub is_unmatched : Setup → Scan → Packet → Bool
is_unmatched c s p =
    let target_ip = reply_target p.bytes in
    not (p.src_ip == target_ip)
    || (is_neg (host_index_for_ip c target_ip) || is_host_found s.finds.found_ips_cache target_ip)

unfoldable pub process_received_packet : Setup → Host → Packet → Timespec → ℤ → Scan → Scan
process_received_packet c h p recv_ts ttl s =
    let target_ip = reply_target p.bytes in
    let host_idx = pos_part (host_index_for_ip c target_ip) in
    let rtt_ns = rtt_of (diff_ns recv_ts (reply_send_time p.bytes)) in
    if ltb (length p.bytes) (icmp_hdr_size + ping_payload_size)
    then count_unmatched s
    else if not (reply_type p.bytes == 0)
    then s
    else if is_unmatched c s p
    then count_unmatched (count_reply s)
    else record (count_reply s) {
      table = settle_slot s.table host_idx target_ip;
      finds = record_find c s.finds (make_result c h p target_ip rtt_ns ttl);
    }

-- The body of the loop over the packets of one batch.
unfoldable pub receive_packet : Setup → Host → Packet → Scan → Scan
receive_packet c h p s =
    if ltb (length p.bytes) icmp_hdr_size
    then s
    else let d = extract_control_data p s.counters.rx_queue_overflows in
      process_received_packet c h p d.1 d.0
        (record s { counters = record (s.counters) { rx_queue_overflows = d.2 } })

unfoldable pub receive_packets : Setup → Host → List Packet → Scan → Scan
receive_packets c h [] s = s
receive_packets c h (p ∷ ps) s = receive_packets c h ps (receive_packet c h p s)

-- One return of `recvmmsg`: an error, or the packets received. Every error ends the loop.
pub data RecvAnswer : Type 0 where
  received : List Packet → RecvAnswer
  failed : RecvAnswer

unfoldable pub receive_loop : Setup → Host → List RecvAnswer → Scan → Outcome Scan
receive_loop c h [] s = pending
receive_loop c h (failed ∷ rest) s = returns s
receive_loop c h (received ps ∷ rest) s =
    let s' = receive_packets c h ps s in
    let onward = receive_loop c h rest s' in
    if length ps == 0
    then returns s
    else if ltb (length ps) c.recv_batch_size
    then returns s'
    else onward

-- `readable` tells whether `epoll_wait` returned an event with EPOLLIN.
unfoldable pub receive_responses :
    Setup → Host → Bool → Bool → List RecvAnswer → Scan → Outcome Scan
receive_responses c h blocking readable answers s =
    if blocking && not readable then returns s else receive_loop c h answers s
