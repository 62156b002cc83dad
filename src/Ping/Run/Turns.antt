-- ===== src/Ping/Run/Turns.antt =====
-- The scans that stand at the head of the loop of `run`, and the batches that are filled there.
use netscan.Base.{
  Bool, Bool-cases, List, ap, arith, count_if, inl, inr, length, length-replicate, length-set, max,
  minus_one, refl, set, subst, suc, sym, true, zero, ℕ, ℤ, ◌*◌, ◌+◌, ◌-◌, ◌<◌, ◌==◌, ◌^◌, ◌∙◌, ◌≡◌,
  ◌≤◌,
}
use netscan.Sys.{Timespec, returns, returns_injective, >>=-eq-returns}
use netscan.Utils.{NetworkInterface, mul_size}
use netscan.Ping.State.{
  PingScannerConfig, make_setup, Setup, Table, Scan, start, icmp_hdr_size, ping_payload_size,
  initialize_buffers,
}
use netscan.Ping.Packet.{Host}
use netscan.Ping.Packet.Layout.{Sized}
use netscan.Ping.Send.{
  SendAnswer, populate_batch_entries, release_entries, give_up, clear_entries, all_sent,
  flush_send_queue, send_batch,
}
use netscan.Ping.Send.Flush.{flush_loop-Flushed, total_sent, is_blocked, drops, drops_fields}
use netscan.Ping.Send.Populate.Packets.{Requests, populate_packs}
use netscan.Ping.Receive.{Packet, process_received_packet, receive_packet, receive_responses}
use netscan.Ping.Receive.Keeps.{receive_keeps}
use netscan.Ping.Reap.{reap_slot, reap_from, reap_timed_out_probes}
use netscan.Ping.Run.{Round, is_unfinished, finish_round}
use netscan.Ping.Run.Results.{cleared, cleared-ScanInv, send_batch-ScanInv, finish_round-ScanInv}
use netscan.Ping.Table.{IsSetup}
use netscan.Ping.Invariant.{ScanInv, start-ScanInv}

-- The loop of `run` comes to a scan: at its start, or behind a round whose sending went well.
pub data Turn (c : Setup) (h : Host) : Scan → Type 0 where
  first : Turn c h (start c (initialize_buffers c))
  further :
      (r : Round) (s m s' : Scan)
      → Turn c h s
      → is_unfinished c s ≡ true
      → send_batch c h r.send_ts r.sends s ≡ returns (true, m)
      → finish_round c h r m ≡ returns s'
      → Turn c h s'

length-clear_entries : (n i : ℕ) (slots : List ℤ) → length (clear_entries n i slots) ≡ length slots
unfolding clear_entries
length-clear_entries zero i slots = refl
length-clear_entries (suc n) i slots =
    length-clear_entries n (i + 1) (set slots i minus_one) ∙ length-set slots i minus_one

length-release_entries :
    (c : Setup) (n i : ℕ) (t : Table) (slots : List ℤ)
    → length ((release_entries c n i t slots).1) ≡ length slots
unfolding release_entries
length-release_entries c zero i t slots = refl
length-release_entries c (suc n) i t slots =
    length-release_entries c n (i + 1) _ (set slots i minus_one) ∙ length-set slots i minus_one

reap_batch :
    (c : Setup) (now : Timespec) (n i : ℕ) (s : Scan) → (reap_from c now n i s).batch ≡ s.batch
unfolding reap_from reap_slot
reap_batch c now zero i s = refl
reap_batch c now (suc n) i s = reap_batch c now n (i + 1) (reap_slot c now i s) ∙ ground arith

packet_batch :
    (c : Setup) (h : Host) (p : Packet) (s : Scan) → (receive_packet c h p s).batch ≡ s.batch
unfolding receive_packet process_received_packet
packet_batch c h p s = ground arith

module _ (c : Setup) (h : Host) (n : ℕ) (u : IsSetup c) where
  all_sent-Sized : (s : Scan) → Sized c n s.batch → Sized c n (all_sent s).batch
  unfolding all_sent
  all_sent-Sized s v = record {
    packet_size = v.packet_size;
    packets = v.packets;
    addrs = v.addrs;
    slots = length-clear_entries s.batch.batch_count 0 s.batch.send_probe_slots ∙ v.slots;
  }

  give_up-Sized : (k : ℕ) (s : Scan) → Sized c n s.batch → Sized c n (give_up c k s).batch
  unfolding give_up
  give_up-Sized k s v = record {
    packet_size = v.packet_size;
    packets = v.packets;
    addrs = v.addrs;
    slots =
        length-release_entries c (s.batch.batch_count - k) k s.table s.batch.send_probe_slots
        ∙ v.slots;
  }

  cleared-Sized : (s : Scan) → Sized c n s.batch → Sized c n (cleared s).batch
  cleared-Sized s v = record {
    packet_size = v.packet_size;
    packets = v.packets;
    addrs = v.addrs;
    slots = v.slots;
  }

  flush-Sized :
      (answers : List SendAnswer) (s : Scan) {r : Bool × Scan}
      → Sized c n s.batch
      → flush_send_queue c answers s ≡ returns r
      → Sized c n r.1.batch
  unfolding flush_send_queue
  flush-Sized answers s {r} v e =
      let w = flush_loop-Flushed c answers 0 s r e in
      let d = count_if is_blocked w.used in
      let k = 0 + total_sent w.used in
      let same : (drops d s).batch ≡ s.batch = (drops_fields d s).2 in
      let z = subst (Sized c n) (sym same) v in
      elim w.way [
        | inl (_, q) ↦
            subst (Sized c n) (sym (ap (λ (x : Bool × Scan). x.1.batch) q))
              (all_sent-Sized (drops d s) z)
        | inr (_, q) ↦
            subst (Sized c n) (sym (ap (λ (x : Bool × Scan). x.1.batch) q))
              (give_up-Sized k (drops d s) z)
      ]

  module _ (room : c.send_batch_size ≤ n) where
    send_batch-Sized :
        (ts : Timespec) (answers : List SendAnswer) (s : Scan) {r : Bool × Scan}
        → ScanInv c s
        → Sized c n s.batch
        → send_batch c h ts answers s ≡ returns r
        → Sized c n r.1.batch
    unfolding send_batch
    send_batch-Sized ts answers s v z e =
        let s' = populate_batch_entries c h ts (cleared s) in
        let w =
          (populate_packs c h ts n u room (cleared s) (cleared-ScanInv c s v) (cleared-Sized s z)
            refl).0 in
        elim (Bool-cases (s'.batch.batch_count == 0)) [
          | inl none_new ↦
              subst (Sized c n)
                (ap (λ (x : Bool × Scan). x.1.batch)
                  (returns_injective _ _ (rw (none_new, send_batch) at e)))
                w
          | inr some_new ↦ flush-Sized answers s' w (rw (some_new, send_batch) at e)
        ]

    finish_batch :
        (r : Round) (s : Scan) {s' : Scan} → finish_round c h r s ≡ returns s' → s'.batch ≡ s.batch
    unfolding finish_round reap_timed_out_probes
    finish_batch r s e =
        let (m, f, q) = >>=-eq-returns (receive_responses c h true r.readable r.receipts s) _ e in
        ap (λ (x : Scan). x.batch) (sym (returns_injective _ _ q))
        ∙ reap_batch c r.reap_time (length m.table.probe_table) 0 m
        ∙ receive_keeps c h (λ x. x.batch ≡ s.batch) (λ p x o. packet_batch c h p x ∙ o) true
            r.readable r.receipts s refl f

initialize_buffers-Sized :
    (c : Setup)
    → c.packet_buffer_size ≡ icmp_hdr_size + ping_payload_size + c.payload_len
    → c.packet_buffer_size * max 1 c.send_batch_size < 2 ^ 64
    → Sized c (max 1 c.send_batch_size) (initialize_buffers c)
unfolding initialize_buffers
initialize_buffers-Sized c size fits =
    let n = max 1 c.send_batch_size in
    record {
      packet_size = size;
      packets = length-replicate (mul_size c.packet_buffer_size n) 0 ∙ omega (arith, fits);
      addrs = length-replicate n 0;
      slots = length-replicate n minus_one;
    }

abbrev room_for : Setup → ℕ
room_for c = max 1 c.send_batch_size

module _ (c : Setup) (h : Host) (u : IsSetup c)
    (size : c.packet_buffer_size ≡ icmp_hdr_size + ping_payload_size + c.payload_len)
    (fits : c.packet_buffer_size * room_for c < 2 ^ 64) where
  Turn-Sized : (s : Scan) → Turn c h s → ScanInv c s × Sized c (room_for c) s.batch
  unfolding start
  Turn-Sized _ first =
      (start-ScanInv c (initialize_buffers c), initialize_buffers-Sized c size fits)
  Turn-Sized _ (further r s m s' t more e f) =
      let (v, z) = Turn-Sized s t in
      (
        finish_round-ScanInv c h u r m (send_batch-ScanInv c h u r.send_ts r.sends s v e) f,
        subst (Sized c (room_for c)) (sym (finish_batch c h (room_for c) u (omega arith) r m f))
            (send_batch-Sized c h (room_for c) u (omega arith) r.send_ts r.sends s v z e),
      )

  populates_packets :
      (s : Scan) (ts : Timespec)
      → Turn c h s
      → let s' = populate_batch_entries c h ts (cleared s) in
        Sized c (room_for c) s'.batch × ((k : ℕ) → k < s'.batch.batch_count → Requests c h s' k)
  populates_packets s ts t =
      let (v, z) = Turn-Sized s t in
      populate_packs c h ts (room_for c) u (omega arith) (cleared s) (cleared-ScanInv c s v)
        (cleared-Sized c h (room_for c) u s z) refl

le_mul : (x m : ℕ) → 0 < m → x ≤ x * m
le_mul x zero h = absurd (omega (arith, h))
le_mul x (suc m) h = omega arith

-- For options with which the size of the send buffer, of a packet times the number of packets, fits a
-- `size_t`, and in every round of a run: the send buffers keep the lengths that `initialize_buffers`
-- gave them, room for `send_batch_size` packets, and behind `populate_batch_entries` every entry of
-- the batch is the echo request of a probe in flight, with its address, sequence number and time, and
-- lists the probe's slot.
pub run_packs :
    (config : PingScannerConfig) (interface : NetworkInterface) (h : Host) (s : Scan)
    (ts : Timespec)
    → let c = make_setup config interface in
      IsSetup c
      → (icmp_hdr_size + ping_payload_size + config.payload_len) * max 1 c.send_batch_size < 2 ^ 64
      → Turn c h s
      → let s' = populate_batch_entries c h ts (cleared s) in
        Sized c (max 1 c.send_batch_size) s'.batch
        × ((k : ℕ) → k < s'.batch.batch_count → Requests c h s' k)
unfolding make_setup
run_packs config interface h s ts u fits t =
    let c = make_setup config interface in
    let whole = icmp_hdr_size + ping_payload_size + config.payload_len in
    let size : c.packet_buffer_size ≡ whole =
      omega (arith, fits, le_mul whole (max 1 c.send_batch_size) (omega arith)) in
    populates_packets c h u size
      (subst (λ (k : ℕ). k * max 1 c.send_batch_size < 2 ^ 64) (sym size) fits) s ts t
