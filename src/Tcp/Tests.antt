-- ===== src/Tcp/Tests.antt =====
-- A TCP scan of four addresses of a local network, on given answers of the kernel, and the theorems
-- about the scanner at these inputs.
use netscan.Base.{
  List, [], arith, false, inl, length, minus_one, none, pos, refl, replicate, to_int, true, ℕ, ℤ,
  ◌*◌, ◌+◌, ◌^◌, ◌∷◌, ◌≡◌, ◌≤◌,
}
use netscan.Base.{◌*ℤ◌, ◌+ℤ◌, ◌-ℤ◌}
use netscan.Sys.{Errno, Timespec, Outcome, returns, diff_ns, rtt_of}
use netscan.Utils.{safe_batch_size, be_bytes, format_ip, resolve_hostname}
use netscan.Ping.Socket.{Answer, close_fd}
use netscan.Utils.{NetworkInterface}
use netscan.Tcp.State.{
  TcpScannerConfig, TcpHostResult, ProbeInfo, no_probe, Setup, Scan, make_setup, start,
}
use netscan.Tcp.Connect.{
  ConnectAnswers, is_reserved, find_slot, connect_slot, is_refused, initiate_single_connection,
  initiate_loop, initiate_connections,
}
use netscan.Tcp.Reap.{
  close_probe, is_timed_out, reap_slot, reap_from, reap_timed_out_probes, close_all,
}
use netscan.Tcp.Poll.{Event, has_result, make_result, record_open, poll_event, poll_connections}
use netscan.Tcp.Run.{Round, turn, run_loop, run}
use netscan.Tcp.Invariant.{IsSetup, ScanInv, start-ScanInv, Found}
use netscan.Tcp.Initiate.{initiate-ScanInv}
use netscan.Tcp.Keeps.{poll-ScanInv}
use netscan.Tcp.Run.Stall.{tcp_run_stalls}
use netscan.Tcp.Refused.{at_connect, initiate_single_connection_refused}
use netscan.Tcp.Connect.{advance}
use netscan.Tcp.Run.Closed.{run_closed}
use netscan.Tcp.Destructor.{destructor_closes}
use netscan.Tcp.Spec.{Progress, initial}
use netscan.Tcp.Refines.Runs.{Simulated, Matches, run-Simulated}

abbrev lan : ℕ
lan = 10 * 2 ^ 24

abbrev lan_setup : Setup
lan_setup =
    make_setup
      (record {
        base_ip = lan;
        total_hosts = 4;
        target_port = 443;
        max_probes = 8;
        timeout_ms = 600;
        batch_size = 64;
        resolve_dns = true;
        has_callback = true;
      })
      (record { network_ip = lan; broadcast_ip = lan + 3; is_local = true })

lan_IsSetup : IsSetup lan_setup
unfolding make_setup
lan_IsSetup = record { in_range = omega arith; int_range = omega arith }

abbrev at_ms : ℕ → Timespec
at_ms n = record { tv_sec = pos 100; tv_nsec = pos (n * 1000000) }

abbrev fine : ℕ → Answer
fine n = record { value = pos n; errno = Errno.other 0 }

-- The connection is in progress on the descriptor `fd`.
abbrev in_progress : ℕ → ConnectAnswers
in_progress fd = record {
  socket = fine fd;
  get_flags = fine 0;
  set_flags = fine 0;
  connect = record { value = minus_one; errno = Errno.einprogress };
  epoll_add = fine 0;
  now = at_ms 0;
}

-- The reserved addresses use up an answer of which nothing is read.
abbrev connects : List ConnectAnswers
connects = in_progress 9 ∷ in_progress 5 ∷ in_progress 6 ∷ in_progress 9 ∷ []

abbrev answered : Event
answered = record { slot = 0; getsockopt = fine 0; sock_err = pos 0; now = at_ms 3; name = none }

-- One host accepts the connection and the other never answers.
abbrev rounds : List Round
rounds =
    record { connects = connects; events = answered ∷ answered ∷ []; reap_time = at_ms 4 }
    ∷ record { connects = []; events = []; reap_time = at_ms 700 }
    ∷ []

scan_lan : List Round → Outcome Scan
unfolding run run_loop turn initiate_connections initiate_loop initiate_single_connection
    connect_slot is_refused find_slot is_reserved poll_connections poll_event record_open
    make_result has_result close_probe reap_timed_out_probes reap_from reap_slot is_timed_out
    close_fd start make_setup safe_batch_size be_bytes format_ip resolve_hostname diff_ns rtt_of
    ◌+ℤ◌ ◌-ℤ◌ ◌*ℤ◌ to_int
scan_lan = run lan_setup (λ b. b)

abbrev found : TcpHostResult
found = record {
  ip = lan + 1;
  ip_str = 10 ∷ 0 ∷ 0 ∷ 1 ∷ [];
  hostname = 78 ∷ 47 ∷ 65 ∷ [];
  port = 443;
  rtt_ns = pos 3000000;
}

abbrev closed : ℤ → ℕ → ProbeInfo
closed sock ip = record { active = false; sock = sock; dest_ip = ip; send_time = at_ms 0 }

abbrev final : Scan
final = record {
  probe_table = closed (pos 5) (lan + 1) ∷ closed (pos 6) (lan + 2) ∷ replicate 2 no_probe;
  next_host_idx = 4;
  active_probes = 0;
  hosts_found = 1;
  scan_results = found ∷ [];
  reported = found ∷ [];
  opened = [];
}

scan_lan_result : scan_lan rounds ≡ returns final
unfolding scan_lan
scan_lan_result = refl

run_closed_example :
    (final.opened ≡ [])
    × (final.active_probes ≡ 0)
    × (4 ≤ final.next_host_idx)
    × Found lan_setup final.scan_results
    × (final.hosts_found ≡ length final.scan_results)
unfolding scan_lan
run_closed_example = run_closed lan_setup (λ b. b) lan_IsSetup rounds {s = final} scan_lan_result

-- The last state of a scan.
abbrev last : Outcome Scan → Scan
last (returns s) = s
last _ = start lan_setup

-- The scan when both connections are in progress.
abbrev probing : Scan
probing = last (initiate_connections lan_setup connects (start lan_setup))

initiate_example : ScanInv lan_setup probing
unfolding scan_lan
initiate_example =
    initiate-ScanInv lan_setup lan_IsSetup connects (start lan_setup) {s' = probing}
      (start-ScanInv lan_setup) refl

probing_opened : probing.opened ≡ pos 6 ∷ pos 5 ∷ []
unfolding scan_lan
probing_opened = refl

destructor_closes_example : close_all probing.probe_table probing.opened ≡ []
unfolding scan_lan
destructor_closes_example = destructor_closes lan_setup probing (
    initiate-ScanInv lan_setup lan_IsSetup connects (start lan_setup) {s' = probing}
      (start-ScanInv lan_setup) refl)

poll_example :
    ScanInv lan_setup (poll_connections lan_setup (λ b. b) (answered ∷ answered ∷ []) probing)
unfolding scan_lan
poll_example =
    poll-ScanInv lan_setup (λ b. b) (answered ∷ answered ∷ []) probing
      (initiate-ScanInv lan_setup lan_IsSetup connects (start lan_setup) {s' = probing}
        (start-ScanInv lan_setup) refl)

run-Simulated_example :
    (a : Progress) × Simulated lan_setup (λ b. b) rounds (start lan_setup) initial final a
    × Matches lan_setup a final
unfolding scan_lan
run-Simulated_example = run-Simulated lan_setup (λ b. b) lan_IsSetup rounds {s = final} refl

-- `--probes 0`
abbrev no_probes : TcpScannerConfig
no_probes = record {
  base_ip = lan;
  total_hosts = 4;
  target_port = 443;
  max_probes = 0;
  timeout_ms = 600;
  batch_size = 64;
  resolve_dns = true;
  has_callback = true;
}

abbrev lan_interface : NetworkInterface
lan_interface = record { network_ip = lan; broadcast_ip = lan + 3; is_local = true }

tcp_run_stalls_example :
    ¬ (run (make_setup no_probes lan_interface) (λ b. b) rounds ≡ returns final)
tcp_run_stalls_example =
    tcp_run_stalls no_probes lan_interface (λ b. b) rounds final (inl refl) (omega arith)

-- `connect` finds no route.
abbrev no_route : ConnectAnswers
no_route = record (in_progress 9) {
  connect = record { value = minus_one; errno = Errno.other 113 };
}

-- The next host is the first one that is not reserved.
abbrev at_first : Scan
at_first = record (start lan_setup) { next_host_idx = 1 }

initiate_single_connection_refused_example :
    initiate_single_connection lan_setup no_route at_first ≡ (true, advance at_first)
unfolding scan_lan
initiate_single_connection_refused_example =
    initiate_single_connection_refused lan_setup no_route at_first 0 no_probe (omega arith) refl
      refl (at_connect refl (λ h. cc))
