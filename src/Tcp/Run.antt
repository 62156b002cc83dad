-- ===== src/Tcp/Run.antt =====
-- `TcpScanner::run`. A round lists what the system calls of one turn of the loop answer.
pub mod Closed
pub mod Stall
use netscan.Base.{Bool, Bytes, List, [], false, if◌then◌else◌, ltb, true, ◌||◌, ◌∷◌}
use netscan.Base.{Bytes}
use netscan.Sys.{Timespec, Outcome, returns, pending, ◌>>=◌}
use netscan.Tcp.State.{Setup, Scan, start}
use netscan.Tcp.Connect.{ConnectAnswers, initiate_connections}
use netscan.Tcp.Poll.{Event, poll_connections}
use netscan.Tcp.Reap.{reap_timed_out_probes}

pub record Round : Type 0 where
  pub connects : List ConnectAnswers
  pub events : List Event
  pub reap_time : Timespec

-- `next_host_idx < total_hosts_ || active_probes > 0`
abbrev pub is_unfinished : Setup → Scan → Bool
is_unfinished c s = ltb s.next_host_idx c.total_hosts || ltb 0 s.active_probes

unfoldable pub turn : Setup → (Bytes → Bytes) → Round → Scan → Outcome Scan
turn c inet_ntop r s = initiate_connections c r.connects s >>= λ s'.
    returns (reap_timed_out_probes c r.reap_time (poll_connections c inet_ntop r.events s'))

unfoldable pub run_loop : Setup → (Bytes → Bytes) → List Round → Scan → Outcome Scan
run_loop c inet_ntop [] s = if is_unfinished c s then pending else returns s
run_loop c inet_ntop (r ∷ rs) s = elim (is_unfinished c s) [
  | false ↦ returns s
  | true ↦ turn c inet_ntop r s >>= λ s'. run_loop c inet_ntop rs s'
]

-- The last state of the scan; `run` returns its `scan_results`.
unfoldable pub run : Setup → (Bytes → Bytes) → List Round → Outcome Scan
run c inet_ntop rounds = run_loop c inet_ntop rounds (start c)
