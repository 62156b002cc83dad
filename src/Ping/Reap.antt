-- ===== src/Ping/Reap.antt =====
-- `reap_timed_out_probes`.
pub mod Late
pub mod Keeps
pub mod Slot
use netscan.Base.{
  Bool, get_or, if◌then◌else◌, length, ltb_ℤ, pos, suc, to_int, zero, ℕ, ◌&&◌, ◌*ℤ◌, ◌+◌,
}
use netscan.Sys.{Timespec, diff_ns, nanoseconds_per_millisecond}
use netscan.Utils.{inc32}
use netscan.Ping.State.{Setup, ProbeInfo, no_probe, Scan}
use netscan.Ping.Slots.{unlink, deactivate}

-- `elapsed_ns > timeout_ns`
unfoldable pub is_timed_out : Setup → Timespec → ProbeInfo → Bool
is_timed_out c current_time probe =
    ltb_ℤ (pos c.timeout_ms *ℤ nanoseconds_per_millisecond) (diff_ns current_time probe.send_time)

-- The body of the loop over the slots.
unfoldable pub reap_slot : Setup → Timespec → ℕ → Scan → Scan
reap_slot c current_time slot s =
    let probe = get_or s.table.probe_table slot no_probe in
    if probe.active && is_timed_out c current_time probe
    then record s {
      table =
          deactivate
            (record (s.table) {
              host_to_probe = unlink c s.table.host_to_probe probe.dest_ip (to_int slot);
            })
            slot;
      counters = record (s.counters) { probe_timeouts = inc32 s.counters.probe_timeouts };
    }
    else s

-- `n` slots are left, from `slot` on.
unfoldable pub reap_from : Setup → Timespec → ℕ → ℕ → Scan → Scan
reap_from c current_time zero slot s = s
reap_from c current_time (suc n) slot s =
    reap_from c current_time n (slot + 1) (reap_slot c current_time slot s)

unfoldable pub reap_timed_out_probes : Setup → Timespec → Scan → Scan
reap_timed_out_probes c current_time s = reap_from c current_time (length s.table.probe_table) 0 s
