-- ===== src/Ping/Tests.antt =====
-- A scan of four addresses of a local network, run on given answers of the kernel, and the theorems
-- about the ping scanner at these inputs.
pub mod Batches
use netscan.Base.{
  Bytes, List, [], arith, false, get_elem?, inl, int64, le_bytes, minus_one, none, of_le_bytes, pos,
  read_at, refl, set, some, to_int, true, word64, write_at, ℕ, ◌%◌, ◌*ℤ◌, ◌*◌, ◌++◌, ◌+ℤ◌, ◌+◌,
  ◌-ℤ◌, ◌-◌, ◌<◌, ◌^◌, ◌∷◌, ◌≡◌, ◌≤◌, ◌⊎◌,
}
use netscan.Sys.{Errno, Timespec, Outcome, returns, diff_ns, rtt_of}
use netscan.Utils.{NetworkInterface, safe_batch_size, be_bytes, format_ip, resolve_hostname}
use netscan.Ping.State.{
  PingScannerConfig, Setup, make_setup, initialize_buffers, Batch, Scan, start,
}
use netscan.Ping.Slots.{
  find_free_from, find_available_probe_slot, host_index_for_ip, is_host_found, allocate_sequence,
  unlink, deactivate, release_probe_slot,
}
use netscan.Ping.Packet.{
  Host, icmp_header, ping_payload, extra_payload, prepare_single_packet, reply_type, reply_target,
  reply_send_time,
}
use netscan.Ping.Socket.{WaitAnswers, wait_loop, wait_for_socket_writable}
use netscan.Ping.Send.{
  is_reserved, is_settled, occupy, launch, populate_entry, populate_loop, populate_batch_entries,
  release_entries, give_up, clear_entries, all_sent, flush_loop, flush_send_queue, send_batch,
}
use netscan.Ping.Receive.{
  ip_ttl, Packet, timespec_at, read_control, read_controls, extract_control_data, settle_slot,
  make_result, record_find, is_unmatched, process_received_packet, receive_packet, receive_packets,
  received, receive_loop, receive_responses,
}
use netscan.Ping.Reap.{is_timed_out, reap_slot, reap_from, reap_timed_out_probes}
use netscan.Ping.Run.{Round, finish_round, run_loop, PingScanResult, run}
use netscan.Ping.Table.{IsSetup}
use netscan.Ping.Invariant.{Distinct, AllInRange, ips, ScanInv, start-ScanInv}
use mathlib.Core.List.{Memᴰ}
use netscan.Utils.{u32_mod}
use netscan.Ping.State.{ProbeInfo}
use netscan.Ping.Send.{may_populate}
use netscan.Ping.Send.Populate.Loop.{populate-ScanInv, populate_ends}
use netscan.Ping.Run.Results.{cleared}
use netscan.Ping.Send.Populate.Covers.{Handled, populate_covers}
use netscan.Ping.Send.Flush.{flush-ScanInv}
use netscan.Ping.Receive.Keeps.{receive-ScanInv}
use netscan.Ping.Receive.Counts.{Counted, receive_responses-Counted}
use netscan.Ping.Reap.Keeps.{reap_clears}
use netscan.Ping.Reap.Late.{Late}
use netscan.Ping.Run.Results.{run_results, run_loop_complete}
use netscan.Ping.Run.Stall.{run_stalls}
use netscan.Ping.Table.{Probes, vacated}
use netscan.Ping.Slots.Find.{HostIndex, host_index_for_ip-HostIndex}
use netscan.Ping.Slots.Release.{release_probe_slot_frees}
use netscan.Ping.Send.{SendAnswer}
use netscan.Ping.Receive.Keeps.{matched_host}
use netscan.Ping.Socket.{Answer, SocketAnswers, initialize_socket}
use netscan.Ping.Socket.Cleanup.{Clean, initialize_socket-Clean}
use netscan.Ping.Packet.Echo.{reply_reads_request}

-- 10.0.0.0/30, with its network and broadcast addresses.
abbrev pub lan : ℕ
lan = 10 * 2 ^ 24

abbrev pub lan_interface : NetworkInterface
lan_interface = record { network_ip = lan; broadcast_ip = lan + 3; is_local = true }

abbrev pub lan_config : PingScannerConfig
lan_config = record {
  base_ip = lan;
  total_hosts = 4;
  payload_len = 2;
  max_probes = 8;
  timeout_ms = 800;
  send_batch_size = 4;
  recv_batch_size = 4;
  resolve_dns = true;
  has_callback = true;
}

abbrev pub lan_setup : Setup
lan_setup = make_setup lan_config lan_interface

abbrev pub host : Host
host = record { pid = 4660; padding = 0; inet_ntop = λ b. b }

abbrev pub at_ms : ℕ → Timespec
at_ms n = record { tv_sec = pos 100; tv_nsec = pos (n * 1000000) }

abbrev all_well : WaitAnswers
all_well = record {
  mod_out = record { value = pos 0; errno = Errno.other 0 };
  waits = [];
  mod_in = record { value = pos 0; errno = Errno.other 0 };
}

-- The reply of host 1 to the probe that was sent at 0 ms, with a TTL of 64.
abbrev reply_bytes : Bytes
reply_bytes =
    0 ∷ 0 ∷ 0 ∷ 0 ∷ 0 ∷ 0 ∷ 0 ∷ 1 ∷ (ping_payload host (lan + 1) (at_ms 0) ++ (6 ∷ 7 ∷ []))

abbrev reply : Packet
reply = record {
  bytes = reply_bytes;
  src_ip = lan + 1;
  controls = ip_ttl (64 ∷ 0 ∷ 0 ∷ 0 ∷ []) ∷ [];
  clock = at_ms 7;
  name = none;
}

-- Both probes go out and one host answers, twice; the other times out.
abbrev pub round_one : Round
round_one = record {
  send_ts = at_ms 0;
  sends = record { sent = pos 2; errno = Errno.other 0; wait = all_well } ∷ [];
  readable = true;
  receipts = received (reply ∷ reply ∷ []) ∷ [];
  reap_time = at_ms 8;
}

abbrev pub rounds : List Round
rounds =
    round_one
    ∷ record {
      send_ts = at_ms 9;
      sends = [];
      readable = false;
      receipts = [];
      reap_time = at_ms 900;
    }
    ∷ []

unfoldable pub scan_lan : List Round → Outcome PingScanResult
unfolding run run_loop finish_round send_batch populate_batch_entries populate_loop populate_entry
    launch occupy is_reserved is_settled flush_send_queue flush_loop all_sent clear_entries give_up
    release_entries receive_responses receive_loop receive_packets receive_packet
    process_received_packet extract_control_data read_controls read_control timespec_at settle_slot
    make_result record_find is_unmatched reap_timed_out_probes reap_from reap_slot is_timed_out
    find_available_probe_slot find_free_from host_index_for_ip is_host_found allocate_sequence
    unlink deactivate release_probe_slot icmp_header ping_payload extra_payload
    prepare_single_packet reply_type reply_target reply_send_time wait_for_socket_writable wait_loop
    start make_setup initialize_buffers safe_batch_size be_bytes format_ip resolve_hostname diff_ns
    rtt_of le_bytes of_le_bytes read_at write_at word64 int64 to_int ◌+ℤ◌ ◌-ℤ◌ ◌*ℤ◌
scan_lan = run lan_setup host (initialize_buffers lan_setup)

abbrev pub lan_result : PingScanResult
lan_result = record {
  hosts =
      record {
        ip = lan + 1;
        ip_str = 10 ∷ 0 ∷ 0 ∷ 1 ∷ [];
        hostname = 78 ∷ 47 ∷ 65 ∷ [];
        rtt_ns = pos 7000000;
        ttl = pos 64;
      }
      ∷ [];
  tx_drops = 0;
  rx_queue_overflows = 0;
  echo_replies = 2;
  unmatched_replies = 1;
  probe_timeouts = 1;
}

scan_lan_result : scan_lan rounds ≡ returns lan_result
unfolding scan_lan
scan_lan_result = refl

pub lan_IsSetup : IsSetup lan_setup
unfolding make_setup
lan_IsSetup = record { in_range = omega arith; int_range = omega arith; probes_range = omega arith }

abbrev pub buffers : Batch
buffers = initialize_buffers lan_setup

run_results_example : Distinct (ips lan_result.hosts) × AllInRange lan_setup (ips lan_result.hosts)
unfolding scan_lan
run_results_example = run_results lan_setup host lan_IsSetup buffers rounds scan_lan_result

populate_ends_example :
    may_populate lan_setup
      (populate_batch_entries lan_setup host (at_ms 0) (start lan_setup buffers))
    ≡ false
populate_ends_example =
    populate_ends lan_setup host (at_ms 0) lan_IsSetup (start lan_setup buffers)
      (start-ScanInv lan_setup buffers)

-- The scan when both probes are in flight.
abbrev pub probing : Scan
probing = populate_batch_entries lan_setup host (at_ms 0) (start lan_setup buffers)

probing-ScanInv : ScanInv lan_setup probing
probing-ScanInv =
    populate-ScanInv lan_setup host (at_ms 0) lan_IsSetup (start lan_setup buffers)
      (start-ScanInv lan_setup buffers)

populate_covers_example : Handled lan_setup probing 2
unfolding scan_lan
populate_covers_example =
    populate_covers lan_setup host (at_ms 0) (start lan_setup buffers) 2 lan_IsSetup
      (start-ScanInv lan_setup buffers) (omega arith) (omega arith)

reap_clears_example :
    let t = reap_timed_out_probes lan_setup (at_ms 900) probing in
    ((slot : ℕ) (p : ProbeInfo)
      → get_elem? t.table.probe_table slot ≡ some p
      → p.active ≡ true
      → ¬ Late lan_setup (at_ms 900) p)
    × ((slot : ℕ) (p : ProbeInfo)
        → get_elem? probing.table.probe_table slot ≡ some p
        → p.active ≡ true
        → ¬ Late lan_setup (at_ms 900) p
        → get_elem? t.table.probe_table slot ≡ some p)
    × (t.counters.probe_timeouts % u32_mod
        ≡ (probing.counters.probe_timeouts + (probing.table.active_probes - t.table.active_probes))
          % u32_mod)
    × (t.table.active_probes ≤ probing.table.active_probes)
    × (t ≡ record probing {
      table = t.table;
      counters = record (probing.counters) { probe_timeouts = t.counters.probe_timeouts };
    })
reap_clears_example = reap_clears lan_setup (at_ms 900) probing lan_IsSetup probing-ScanInv

run_stalls_example : ¬ (
    run (make_setup (record lan_config { max_probes = 0 }) lan_interface) host buffers rounds
    ≡ returns lan_result)
unfolding make_setup
run_stalls_example =
    run_stalls (record lan_config { max_probes = 0 }) lan_interface host buffers rounds lan_result
      (record { in_range = omega arith; int_range = omega arith; probes_range = omega arith })
      (inl refl) (omega arith)

-- The loop's last state.
abbrev final : Scan
final = elim (run_loop lan_setup host rounds (start lan_setup buffers)) [
  | returns s ↦ s
  | _ ↦ start lan_setup buffers
]

run_loop_complete_example :
    ((final.next_host_idx ≡ 4) × (final.table.active_probes ≡ 0))
    ⊎ ((r : Round) × (s1 : Scan) × Memᴰ r rounds
        × (send_batch lan_setup host r.send_ts r.sends s1 ≡ returns (false, final)))
unfolding scan_lan
run_loop_complete_example =
    run_loop_complete lan_setup host lan_IsSetup buffers rounds {s = final} refl

flush_example : ScanInv lan_setup (all_sent probing)
unfolding scan_lan
flush_example =
    flush-ScanInv lan_setup (record { sent = pos 2; errno = Errno.other 0; wait = all_well } ∷ [])
      probing {r = (true, all_sent probing)} lan_IsSetup probing-ScanInv (omega arith) refl

receive_example : ScanInv lan_setup (receive_packets lan_setup host (reply ∷ []) probing)
unfolding scan_lan
receive_example =
    receive-ScanInv lan_setup host true true (received (reply ∷ []) ∷ []) probing lan_IsSetup
      probing-ScanInv refl

abbrev fine : ℕ → Answer
fine n = record { value = pos n; errno = Errno.other 0 }

-- The registration of the socket with epoll fails.
abbrev refused : SocketAnswers
refused = record {
  socket = fine 3;
  get_flags = fine 0;
  set_flags = fine 0;
  set_sndbuf = fine 0;
  set_rcvbuf = fine 0;
  set_timestampns = fine 0;
  set_rxq_ovfl = fine 0;
  set_recvttl = fine 0;
  epoll_create = fine 4;
  epoll_add = record { value = minus_one; errno = Errno.other 28 };
}

initialize_socket_example : Clean (initialize_socket refused)
initialize_socket_example = initialize_socket-Clean refused

reply_reads_request_example :
    (reply_target reply_bytes ≡ lan + 1) × (reply_send_time reply_bytes ≡ at_ms 0)
unfolding ping_payload le_bytes
reply_reads_request_example =
    reply_reads_request host (lan + 1) (at_ms 0) 0 0 0 0 0 0 0 1 (6 ∷ 7 ∷ []) (omega arith)
      (omega arith) (omega arith)

-- One packet is sent, then the other.
abbrev one_each : List SendAnswer
one_each =
    record { sent = pos 1; errno = Errno.other 0; wait = all_well }
    ∷ record { sent = pos 1; errno = Errno.other 0; wait = all_well }
    ∷ []

host_index_for_ip-HostIndex_example :
    HostIndex lan_setup (lan + 3) (host_index_for_ip lan_setup (lan + 3))
host_index_for_ip-HostIndex_example = host_index_for_ip-HostIndex lan_setup (lan + 3) lan_IsSetup

-- Slot 1 is the probe of host 2.
probing-Probes : Probes lan_setup probing.table 1 2
unfolding scan_lan
probing-Probes = record { probe = _; at_slot = refl; running = refl; target = refl }

release_example :
    let t' = release_probe_slot lan_setup probing.table (pos 1) in
    (t'.probe_table
      ≡ set probing.table.probe_table 1 (record (probing-Probes.probe) { active = false }))
    × (t'.host_to_probe ≡ set probing.table.host_to_probe 2 minus_one)
    × (t'.active_probes + 1 ≡ probing.table.active_probes)
unfolding make_setup
release_example =
    release_probe_slot_frees lan_setup probing.table 1 2 lan_IsSetup probing-ScanInv.table
      probing-Probes (omega arith)

matched_host_example :
    (h : ℕ) × (h < 4)
    × (reply_target reply_bytes ≡ lan + h)
    × (host_index_for_ip lan_setup (reply_target reply_bytes) ≡ pos h)
    × (is_host_found probing.finds.found_ips_cache (reply_target reply_bytes) ≡ false)
    × (lan + 1 ≡ reply_target reply_bytes)
unfolding scan_lan
matched_host_example = matched_host lan_setup probing reply lan_IsSetup refl

receive_responses-Counted_example :
    Counted
      (reply ∷ reply ∷ [])
      probing
      (receive_packets lan_setup host (reply ∷ reply ∷ []) probing)
unfolding scan_lan
receive_responses-Counted_example =
    receive_responses-Counted lan_setup host true true (received (reply ∷ reply ∷ []) ∷ []) probing
      refl
