-- ===== src/Ping/Send.antt =====
-- Sending: `populate_batch_entries`, `flush_send_queue` and `send_batch`.
pub mod Populate
pub mod Flush
use netscan.Base.{
  Bool, List, Option, [], false, get_or, if◌then◌else◌, is_neg, is_positive, ltb, minus_one, none,
  not, pos_part, set, some, suc, true, zero, ℕ, ℤ, ◌&&◌, ◌+◌, ◌-◌, ◌==◌, ◌||◌, ◌∷◌,
}
use netscan.Sys.{Errno, is_eagain, Timespec, Outcome, returns, pending, ◌>>=◌}
use netscan.Utils.{inc32, add32, sub_size}
use netscan.Ping.State.{Setup, ProbeInfo, Table, Scan}
use netscan.Ping.Slots.{
  find_available_probe_slot, host_index_for_ip, is_host_found, allocate_sequence,
  release_probe_slot,
}
use netscan.Ping.Packet.{Host, prepare_single_packet}
use netscan.Ping.Socket.{WaitAnswers, wait_for_socket_writable}

-- `network_interface_.is_local && (target_ip == network_ip || target_ip == broadcast_ip)`
unfoldable pub is_reserved : Setup → ℕ → Bool
is_reserved c target_ip =
    c.network_interface.is_local
    && (target_ip == c.network_interface.network_ip
        || target_ip == c.network_interface.broadcast_ip)

abbrev pub target_of : Setup → Scan → ℕ
target_of c s = add32 c.base_ip s.next_host_idx

-- The second test of the loop body: the host is out of range, found, or being probed.
unfoldable pub is_settled : Setup → Scan → Bool
is_settled c s =
    let host_idx = host_index_for_ip c (target_of c s) in
    is_neg host_idx
    || (is_host_found s.finds.found_ips_cache (target_of c s)
        || not (is_neg (get_or s.table.host_to_probe (pos_part host_idx) minus_one)))

abbrev pub skip : Scan → Scan
skip s = record s { next_host_idx = s.next_host_idx + 1 }

-- Fill slot `slot` with a probe of host `host_idx`.
unfoldable pub occupy : Table → ℕ → ℕ → ℤ → ProbeInfo → Table
occupy t slot host_idx entry probe = record {
  probe_table = set t.probe_table slot probe;
  host_to_probe = set t.host_to_probe host_idx entry;
  active_probes = t.active_probes + 1;
}

-- The rest of the loop body, once a host and a slot are chosen.
unfoldable pub launch : Setup → Host → Timespec → Scan → ℤ → Scan
launch c h send_ts s slot =
    let target_ip = target_of c s in
    let host_idx = pos_part (host_index_for_ip c target_ip) in
    let sequence = allocate_sequence s.next_seq in
    let probe : ProbeInfo = record {
      active = true;
      dest_ip = target_ip;
      seq = sequence.0;
      send_time = send_ts;
    } in
    let b = prepare_single_packet c h s.batch target_ip sequence.0 send_ts in
    record s {
      table = occupy s.table (pos_part slot) host_idx slot probe;
      batch = record b {
        send_probe_slots = set b.send_probe_slots b.batch_count slot;
        batch_count = b.batch_count + 1;
      };
      next_host_idx = s.next_host_idx + 1;
      next_seq = sequence.1;
    }

-- One round of the loop; `none` is `break`.
unfoldable pub populate_entry : Setup → Host → Timespec → Scan → Option Scan
populate_entry c h send_ts s =
    let slot = find_available_probe_slot s.table in
    if is_neg slot
    then none
    else if is_reserved c (target_of c s) || is_settled c s
    then some (skip s)
    else some (launch c h send_ts s slot)

abbrev pub may_populate : Setup → Scan → Bool
may_populate c s =
    ltb s.next_host_idx c.total_hosts
    && (ltb s.table.active_probes c.max_probes && ltb s.batch.batch_count c.send_batch_size)

-- Every round that does not break advances `next_host_idx`, so the hosts left are enough fuel.
unfoldable pub populate_loop : Setup → Host → Timespec → ℕ → Scan → Scan
populate_loop c h send_ts zero s = s
populate_loop c h send_ts (suc fuel) s = elim (may_populate c s) [
  | true ↦ elim (populate_entry c h send_ts s) [
    | none ↦ s
    | some next ↦ populate_loop c h send_ts fuel next
  ]
  | false ↦ s
]

unfoldable pub populate_batch_entries : Setup → Host → Timespec → Scan → Scan
populate_batch_entries c h send_ts s = populate_loop c h send_ts (c.total_hosts - s.next_host_idx) s

-- `for (i = sent_total; i < batch_count; ++i)`: release the slot of entry `i`; `n` entries are left.
unfoldable pub release_entries : Setup → ℕ → ℕ → Table → List ℤ → Table × List ℤ
release_entries c zero i t slots = (t, slots)
release_entries c (suc n) i t slots =
    release_entries c n (i + 1) (release_probe_slot c t (get_or slots i minus_one))
      (set slots i minus_one)

-- Give up on the entries from `sent_total` on, so that they can be probed again.
unfoldable pub give_up : Setup → ℕ → Scan → Scan
give_up c sent_total s =
    let unsent = s.batch.batch_count - sent_total in
    let (t, slots) = release_entries c unsent sent_total s.table s.batch.send_probe_slots in
    record s {
      table = t;
      batch = record (s.batch) { send_probe_slots = slots };
      next_host_idx = sub_size s.next_host_idx unsent;
    }

unfoldable pub clear_entries : ℕ → ℕ → List ℤ → List ℤ
clear_entries zero i slots = slots
clear_entries (suc n) i slots = clear_entries n (i + 1) (set slots i minus_one)

-- The end of `flush_send_queue`, when all is sent.
unfoldable pub all_sent : Scan → Scan
all_sent s = record s {
  batch = record (s.batch) {
    send_probe_slots = clear_entries s.batch.batch_count 0 s.batch.send_probe_slots;
  };
}

-- One return of `sendmmsg`, and what the wait for the socket would see.
pub record SendAnswer : Type 0 where
  pub sent : ℤ
  pub errno : Errno
  pub wait : WaitAnswers

abbrev pub count_drop : Scan → Scan
count_drop s = record s { counters = record (s.counters) { tx_drops = inc32 s.counters.tx_drops } }

-- The loop of `flush_send_queue`, from `sent_total` on. The message that it prints on stderr before it
-- gives up (line 494) is left out.
unfoldable pub flush_loop : Setup → List SendAnswer → ℕ → Scan → Outcome (Bool × Scan)
flush_loop c [] sent_total s =
    if ltb sent_total s.batch.batch_count then pending else returns (true, all_sent s)
flush_loop c (a ∷ rest) sent_total s =
    let onward = flush_loop c rest (sent_total + pos_part a.sent) s in
    let again = flush_loop c rest sent_total (count_drop s) in
    let blocked : Outcome (Bool × Scan) = returns (false, give_up c sent_total (count_drop s)) in
    if not (ltb sent_total s.batch.batch_count)
    then returns (true, all_sent s)
    else if is_positive a.sent
    then onward
    else if is_eagain a.errno
    then (wait_for_socket_writable a.wait >>= λ writable. if writable then again else blocked)
    else returns (false, give_up c sent_total s)

unfoldable pub flush_send_queue : Setup → List SendAnswer → Scan → Outcome (Bool × Scan)
flush_send_queue c answers s = flush_loop c answers 0 s

unfoldable pub send_batch : Setup → Host → Timespec → List SendAnswer → Scan → Outcome (Bool × Scan)
send_batch c h send_ts answers s =
    let s' =
      populate_batch_entries c h send_ts
        (record s { batch = record (s.batch) { batch_count = 0 } }) in
    if s'.batch.batch_count == 0 then returns (true, s') else flush_send_queue c answers s'
