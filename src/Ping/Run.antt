-- ===== src/Ping/Run.antt =====
-- `PingScanner::run`. A round lists what the system calls of one turn of the loop answer.
pub mod Results
pub mod Stall
pub mod Turns
use netscan.Base.{Bool, List, [], false, if◌then◌else◌, ltb, true, ℕ, ◌||◌, ◌∷◌}
use netscan.Sys.{Timespec, Outcome, returns, pending, ◌>>=◌}
use netscan.Ping.State.{Setup, Batch, PingHostResult, Scan, start}
use netscan.Ping.Packet.{Host}
use netscan.Ping.Send.{SendAnswer, send_batch}
use netscan.Ping.Receive.{RecvAnswer, receive_responses}
use netscan.Ping.Reap.{reap_timed_out_probes}

pub record Round : Type 0 where
  pub send_ts : Timespec
  pub sends : List SendAnswer
  pub readable : Bool
  pub receipts : List RecvAnswer
  pub reap_time : Timespec

-- `next_host_idx < total_hosts_ || active_probes > 0`
abbrev pub is_unfinished : Setup → Scan → Bool
is_unfinished c s = ltb s.next_host_idx c.total_hosts || ltb 0 s.table.active_probes

-- Receive and reap, behind `send_batch`.
unfoldable pub finish_round : Setup → Host → Round → Scan → Outcome Scan
finish_round c h r s = receive_responses c h true r.readable r.receipts s >>= λ s'.
    returns (reap_timed_out_probes c r.reap_time s')

unfoldable pub run_loop : Setup → Host → List Round → Scan → Outcome Scan
run_loop c h [] s = if is_unfinished c s then pending else returns s
run_loop c h (r ∷ rs) s = elim (is_unfinished c s) [
  | false ↦ returns s
  | true ↦ send_batch c h r.send_ts r.sends s >>= λ sent. elim (sent.0) [
    | false ↦ returns (sent.1)
    | true ↦ finish_round c h r (sent.1) >>= λ s'. run_loop c h rs s'
  ]
]

pub record PingScanResult : Type 0 where
  pub hosts : List PingHostResult
  pub tx_drops : ℕ
  pub rx_queue_overflows : ℕ
  pub echo_replies : ℕ
  pub unmatched_replies : ℕ
  pub probe_timeouts : ℕ

abbrev pub result_of : Scan → PingScanResult
result_of s = record {
  hosts = s.finds.scan_results;
  tx_drops = s.counters.tx_drops;
  rx_queue_overflows = s.counters.rx_queue_overflows;
  echo_replies = s.counters.echo_replies;
  unmatched_replies = s.counters.unmatched_replies;
  probe_timeouts = s.counters.probe_timeouts;
}

unfoldable pub run : Setup → Host → Batch → List Round → Outcome PingScanResult
run c h buffers rounds = run_loop c h rounds (start c buffers) >>= λ s. returns (result_of s)
