-- ===== src/Ping/Send/Populate/Packets.antt =====
-- What a batch holds behind `populate_batch_entries`.
use netscan.Base.{
  ==_iff, Bool-cases, ap, arith, false, get_elem?, get_elem?-set_ne, get_elem?-set_self,
  get_elem?-some_lt, inl, inr, length-set, pos, refl, some, subst, sym, true, ℕ, ◌<◌, ◌==◌, ◌∙◌,
  ◌≡◌, ◌≢◌, ◌≤◌,
}
use netscan.Sys.{Timespec}
use netscan.Ping.State.{Setup, ProbeInfo, Scan}
use netscan.Ping.Packet.{Host, prepare_single_packet, packet_at}
use netscan.Ping.Packet.Layout.{Sized, request, LaidOut, lays_out}
use netscan.Ping.Slots.{allocate_sequence}
use netscan.Ping.Send.{
  target_of, skip, launch, populate_entry, may_populate, populate_batch_entries, occupy,
}
use netscan.Ping.Send.Populate.Loop.{
  populate_loop_keeps, entry_cases, entry-ScanInv, may_populate_room,
}
use netscan.Ping.Table.{IsSetup}
use netscan.Ping.Invariant.{ScanInv}

-- Entry `k` of the batch belongs to a probe in flight: its slot is listed, its packet is the echo
-- request of the probe, and its address is that of the probe.
pub record Requests (c : Setup) (h : Host) (s : Scan) (k : ℕ) : Type 0 where
  pub slot : ℕ
  pub probe : ProbeInfo
  pub listed : get_elem? s.batch.send_probe_slots k ≡ some (pos slot)
  pub at_slot : get_elem? s.table.probe_table slot ≡ some probe
  pub running : probe.active ≡ true
  pub packet : packet_at c s.batch k ≡ request c h probe.dest_ip probe.seq probe.send_time
  pub addressed : get_elem? s.batch.send_addrs k ≡ some probe.dest_ip

clash : {p q : ProbeInfo} → p.active ≡ true → q.active ≡ false → some p ≡ some q → ⊥
clash a i e = cc

skipped : {c : Setup} {h : Host} (s : Scan) (k : ℕ) → Requests c h s k → Requests c h (skip s) k
skipped s k r = record {
  slot = r.slot;
  probe = r.probe;
  listed = r.listed;
  at_slot = r.at_slot;
  running = r.running;
  packet = r.packet;
  addressed = r.addressed;
}

module _ (c : Setup) (h : Host) (ts : Timespec) (n : ℕ) (u : IsSetup c)
    (room : c.send_batch_size ≤ n) where
  pub record Packed (s : Scan) : Type 0 where
    pub inv : ScanInv c s
    pub sized : Sized c n s.batch
    pub packed : (k : ℕ) → k < s.batch.batch_count → Requests c h s k

  module _ (s : Scan) (v : Packed s) (more : may_populate c s ≡ true) (slot : ℕ) (p : ProbeInfo)
      (at_slot : get_elem? s.table.probe_table slot ≡ some p) (idle : p.active ≡ false) where
    abbrev k : ℕ
    k = s.batch.batch_count

    abbrev next : Scan
    next = launch c h ts s (pos slot)

    laid_out :
        LaidOut c h n s.batch
          (target_of c s)
          (allocate_sequence s.next_seq).0
          ts
          (prepare_single_packet c h s.batch (target_of c s) (allocate_sequence s.next_seq).0 ts)
    laid_out =
        lays_out c h n s.batch (target_of c s) (allocate_sequence s.next_seq).0 ts v.sized
          (omega (arith, may_populate_room c s more))

    launched-Requests : Requests c h next k
    unfolding launch occupy packet_at prepare_single_packet
    launched-Requests = record {
      slot = slot;
      probe = record {
        active = true;
        dest_ip = target_of c s;
        seq = (allocate_sequence s.next_seq).0;
        send_time = ts;
      };
      listed =
          get_elem?-set_self s.batch.send_probe_slots k (pos slot)
            (omega (arith, v.sized.slots, may_populate_room c s more));
      at_slot =
          get_elem?-set_self s.table.probe_table slot _
            (get_elem?-some_lt s.table.probe_table slot at_slot);
      running = refl;
      packet = laid_out.entry;
      addressed = laid_out.addr;
    }

    other_slot : (j : ℕ) (r : Requests c h s j) → slot ≢ r.slot
    other_slot j r e = absurd (
        clash r.running idle (sym r.at_slot ∙ ap (get_elem? s.table.probe_table) (sym e) ∙ at_slot))

    older-Requests : (j : ℕ) → j < k → Requests c h next j
    unfolding launch occupy packet_at prepare_single_packet
    older-Requests j lt =
        let r = v.packed j lt in
        record {
          slot = r.slot;
          probe = r.probe;
          listed =
              get_elem?-set_ne s.batch.send_probe_slots k j (pos slot) (omega arith) ∙ r.listed;
          at_slot = get_elem?-set_ne s.table.probe_table slot r.slot _ (other_slot j r) ∙ r.at_slot;
          running = r.running;
          packet =
              laid_out.others j (omega (arith, may_populate_room c s more)) (omega arith)
              ∙ r.packet;
          addressed =
              get_elem?-set_ne s.batch.send_addrs k j (target_of c s) (omega arith) ∙ r.addressed;
        }

    launched-Packed : ScanInv c next → Packed next
    unfolding launch occupy prepare_single_packet
    launched-Packed w = record {
      inv = w;
      sized = record {
        packet_size = v.sized.packet_size;
        packets = laid_out.sized.packets;
        addrs = laid_out.sized.addrs;
        slots = length-set s.batch.send_probe_slots k (pos slot) ∙ v.sized.slots;
      };
      packed = λ j lt. elim (Bool-cases (j == k)) [
        | inl e ↦ subst (Requests c h next) (sym ((==_iff j k).0 e)) launched-Requests
        | inr e ↦ older-Requests j (ground arith)
      ];
    }

  entry-Packed :
      (s s' : Scan)
      → Packed s
      → may_populate c s ≡ true
      → populate_entry c h ts s ≡ some s'
      → Packed s'
  entry-Packed s s' v m e =
      let w = entry-ScanInv c h ts u s s' v.inv m e in
      elim (entry_cases c h ts s s' u v.inv.table e) [
        | inl (_, q) ↦ subst Packed (sym q) (record {
          inv = subst (ScanInv c) q w;
          sized = v.sized;
          packed = λ k lt. skipped s k (v.packed k lt);
        })
        | inr (k, p, a, i, b, q) ↦
            subst Packed (sym q) (launched-Packed s v m k p a i (subst (ScanInv c) q w))
      ]

  -- The buffers have `n` entries, `send_batch_size` or more. Behind `populate_batch_entries`, which
  -- starts with an empty batch, every entry of the batch is the echo request of a probe in flight,
  -- with its address, sequence number and time, and lists the probe's slot. The buffers keep their
  -- lengths.
  pub populate_packs :
      (s : Scan)
      → ScanInv c s
      → Sized c n s.batch
      → s.batch.batch_count ≡ 0
      → let s' = populate_batch_entries c h ts s in
        Sized c n s'.batch × ((k : ℕ) → k < s'.batch.batch_count → Requests c h s' k)
  unfolding populate_batch_entries
  populate_packs s v z none_yet =
      let r =
        populate_loop_keeps c h ts u Packed entry-Packed _ s
          (record { inv = v; sized = z; packed = λ k lt. absurd (omega (arith, lt, none_yet)) }) in
      (r.sized, r.packed)
