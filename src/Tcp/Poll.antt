-- ===== src/Tcp/Poll.antt =====
-- `poll_connections`. Each event of `epoll_wait` comes with what the calls in its round answer.
use netscan.Base.{
  Bool, Bytes, List, Option, [], eqb_ℤ, false, get_or, if◌then◌else◌, is_neg, leb, length, not, pos,
  ℕ, ℤ, ◌&&◌, ◌++◌, ◌+◌, ◌==◌, ◌||◌, ◌∷◌,
}
use netscan.Base.{Bytes}
use netscan.Sys.{Timespec, diff_ns, rtt_of}
use netscan.Utils.{format_ip, resolve_hostname, not_available}
use netscan.Ping.Socket.{Answer}
use netscan.Tcp.State.{TcpHostResult, ProbeInfo, no_probe, Setup, Scan}
use netscan.Tcp.Reap.{close_probe}

-- `sock_err` is what `getsockopt` stores.
pub record Event : Type 0 where
  pub slot : ℕ
  pub getsockopt : Answer
  pub sock_err : ℤ
  pub now : Timespec
  pub name : Option Bytes

-- `sock_err == 0`; the `errno` of a call that failed is not 0.
abbrev pub is_connected : Event → Bool
is_connected e = not (is_neg e.getsockopt.value) && eqb_ℤ e.sock_err (pos 0)

unfoldable pub has_result : List TcpHostResult → ℕ → Bool
has_result [] ip = false
has_result (r ∷ rs) ip = r.ip == ip || has_result rs ip

unfoldable pub make_result : Setup → (Bytes → Bytes) → Event → ProbeInfo → TcpHostResult
make_result c inet_ntop e probe = record {
  ip = probe.dest_ip;
  ip_str = format_ip inet_ntop probe.dest_ip;
  hostname = if c.resolve_dns then resolve_hostname e.name else not_available;
  port = c.target_port;
  rtt_ns = rtt_of (diff_ns e.now probe.send_time);
}

-- Report the host, and add it unless its address is there.
unfoldable pub record_open : Setup → TcpHostResult → Scan → Scan
record_open c r s =
    let t = record s { reported = if c.has_callback then s.reported ++ (r ∷ []) else s.reported } in
    if has_result t.scan_results r.ip
    then t
    else record t { scan_results = t.scan_results ++ (r ∷ []); hosts_found = t.hosts_found + 1 }

-- The body of the loop over the events.
unfoldable pub poll_event : Setup → (Bytes → Bytes) → Event → Scan → Scan
poll_event c inet_ntop e s =
    let probe = get_or s.probe_table e.slot no_probe in
    let t = close_probe e.slot s in
    if leb (length s.probe_table) e.slot
    then s
    else if not probe.active
    then s
    else if is_connected e
    then record_open c (make_result c inet_ntop e probe) t
    else t

-- `epoll_wait` gives any list of events; their number, at most `batch_size`, plays no part. For a
-- `batch_size` from 2 ^ 31 on, lines 159 and 160 make a negative `max_events` and the vector throws:
-- this is left out.
unfoldable pub poll_connections : Setup → (Bytes → Bytes) → List Event → Scan → Scan
poll_connections c inet_ntop [] s = s
poll_connections c inet_ntop (e ∷ es) s =
    poll_connections c inet_ntop es (poll_event c inet_ntop e s)
