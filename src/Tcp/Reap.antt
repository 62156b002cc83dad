-- ===== src/Tcp/Reap.antt =====
-- `reap_timed_out_probes` of the TCP scanner, and its destructor.
use netscan.Base.{
  Bool, List, [], false, get_or, if◌then◌else◌, is_neg, length, not, pos, set, suc, zero, ℕ, ℤ,
  ◌&&◌, ◌+◌, ◌∷◌,
}
use netscan.Base.{◌*ℤ◌, ltb_ℤ}
use netscan.Utils.{dec_size}
use netscan.Sys.{Timespec, diff_ns, nanoseconds_per_millisecond}
use netscan.Ping.Socket.{close_fd}
use netscan.Tcp.State.{ProbeInfo, no_probe, Setup, Scan}

-- `close(sock); probe.active = false; active_probes--;`, with the probe of slot `slot`.
unfoldable pub close_probe : ℕ → Scan → Scan
close_probe slot s =
    let probe = get_or s.probe_table slot no_probe in
    record s {
      probe_table = set s.probe_table slot (record probe { active = false });
      active_probes = dec_size s.active_probes;
      opened = close_fd probe.sock s.opened;
    }

-- `elapsed_ns > timeout_ms_ * …`
unfoldable pub is_timed_out : Setup → Timespec → ProbeInfo → Bool
is_timed_out c current_time probe =
    ltb_ℤ (pos c.timeout_ms *ℤ nanoseconds_per_millisecond) (diff_ns current_time probe.send_time)

unfoldable pub reap_slot : Setup → Timespec → ℕ → Scan → Scan
reap_slot c current_time slot s =
    let probe = get_or s.probe_table slot no_probe in
    if probe.active && is_timed_out c current_time probe then close_probe slot s else s

-- `n` slots are left, from `slot` on.
unfoldable pub reap_from : Setup → Timespec → ℕ → ℕ → Scan → Scan
reap_from c current_time zero slot s = s
reap_from c current_time (suc n) slot s =
    reap_from c current_time n (slot + 1) (reap_slot c current_time slot s)

unfoldable pub reap_timed_out_probes : Setup → Timespec → Scan → Scan
reap_timed_out_probes c current_time s = reap_from c current_time (length s.probe_table) 0 s

-- The loop of `~TcpScanner`: the descriptors that it leaves open.
unfoldable pub close_all : List ProbeInfo → List ℤ → List ℤ
close_all [] opened = opened
close_all (p ∷ ps) opened =
    close_all ps (if p.active && not (is_neg p.sock) then close_fd p.sock opened else opened)
