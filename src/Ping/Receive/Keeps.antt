-- ===== src/Ping/Receive/Keeps.antt =====
-- Receiving and the invariant of the scan.
use netscan.Base.{
  ==_iff, Bool, Bool-cases, List, [], arith, false, inl, inr, is_neg, length, ltb, not,
  not_eq_false, or_eq_false, pos, refl, subst, ℕ, ℤ, ◌&&◌, ◌+◌, ◌<◌, ◌==◌, ◌∙◌, ◌∷◌, ◌≡◌,
}
use netscan.Sys.{rtt_of, diff_ns, Timespec, returns, returns_injective, pending-ne-returns}
use netscan.Ping.State.{Setup, Counters, Scan, PingHostResult, icmp_hdr_size, ping_payload_size}
use netscan.Ping.Packet.{Host, reply_type, reply_target, reply_send_time}
use netscan.Ping.Slots.{host_index_for_ip, is_host_found}
use netscan.Ping.Slots.Find.{HostIndex, inside, outside, host_index_for_ip-HostIndex}
use netscan.Ping.Receive.{
  Packet, RecvAnswer, failed, received, settle_slot, record_find, make_result, is_unmatched,
  count_reply, process_received_packet, receive_packet, receive_packets, receive_loop,
  receive_responses,
}
use netscan.Ping.Receive.Settle.{settle-Shrinks, settle_frees}
use netscan.Ping.Receive.Cache.{is_host_found-append, record_find-FindsInv}
use netscan.Ping.Table.{IsSetup, Probes}
use netscan.Ping.Invariant.{ScanInv, Shrinks-refl, shrink-ScanInv}

-- A reply that passes the guards names a new host of the range.
pub matched_host :
    (c : Setup) (s : Scan) (p : Packet)
    → IsSetup c
    → is_unmatched c s p ≡ false
    → (h : ℕ) × (h < c.total_hosts)
      × (reply_target p.bytes ≡ c.base_ip + h)
      × (host_index_for_ip c (reply_target p.bytes) ≡ pos h)
      × (is_host_found s.finds.found_ips_cache (reply_target p.bytes) ≡ false)
      × (p.src_ip ≡ reply_target p.bytes)
unfolding is_unmatched
matched_host c s p u e =
    let (source, e') = or_eq_false _ _ e in
    let (ranged, new) = or_eq_false _ _ e' in
    go (host_index_for_ip-HostIndex c (reply_target p.bytes) u) refl ranged new
      ((==_iff _ _).0 (not_eq_false _ source))
  where
    go :
        {z : ℤ}
        → HostIndex c (reply_target p.bytes) z
        → host_index_for_ip c (reply_target p.bytes) ≡ z
        → is_neg (host_index_for_ip c (reply_target p.bytes)) ≡ false
        → is_host_found s.finds.found_ips_cache (reply_target p.bytes) ≡ false
        → p.src_ip ≡ reply_target p.bytes
        → (h : ℕ) × (h < c.total_hosts)
          × (reply_target p.bytes ≡ c.base_ip + h)
          × (host_index_for_ip c (reply_target p.bytes) ≡ pos h)
          × (is_host_found s.finds.found_ips_cache (reply_target p.bytes) ≡ false)
          × (p.src_ip ≡ reply_target p.bytes)
    go (inside h lt d) q r n o = (h, lt, d, q, n, o)
    go (outside far) q r n o = absurd (ground (arith, q, r))

module _ (c : Setup) (s : Scan) (h : ℕ) (v : ScanInv c s) (lt : h < c.total_hosts)
    (r : PingHostResult) (d : r.ip ≡ c.base_ip + h)
    (new : is_host_found s.finds.found_ips_cache r.ip ≡ false) where
  -- The scan after a matched reply.
  abbrev pub answered : Scan
  answered = record (count_reply s) {
    table = settle_slot s.table h (c.base_ip + h);
    finds = record_find c s.finds r;
  }

  other_host : (slot i : ℕ) → Probes c answered.table slot i → (r.ip == c.base_ip + i) ≡ false
  other_host slot i w = elim (Bool-cases (r.ip == c.base_ip + i)) [
    | inr e ↦ e
    | inl e ↦
        let same : i ≡ h = omega (arith, (==_iff _ _).0 e, d) in
        absurd (
          settle_frees c s.table h v.table lt slot
            (subst (λ (n : ℕ). Probes c answered.table slot n) same w))
  ]

  pub answered-ScanInv : ScanInv c answered
  unfolding record_find
  answered-ScanInv =
      let less = settle-Shrinks c s.table h v.table lt in
      record {
        table = less.inv;
        finds = record_find-FindsInv c s.finds r v.finds new (omega arith) (omega arith);
        fresh = λ slot i w.
            rw (is_host_found-append s.finds.found_ips_cache r.ip (c.base_ip + i))
              (rw (v.fresh slot i (less.old slot i w)) (other_host slot i w));
        unreserved = λ slot i w. v.unreserved slot i (less.old slot i w);
        seq_pos = v.seq_pos;
        seq_lt = v.seq_lt;
        position = v.position;
      }

recount-ScanInv :
    (c : Setup) (s : Scan) (k : Counters) → ScanInv c s → ScanInv c (record s { counters = k })
recount-ScanInv c s k v =
    shrink-ScanInv c s (record s { counters = k }) v (Shrinks-refl c s.table v.table) refl refl
      v.position

module _ (c : Setup) (o : Host) (u : IsSetup c) where
  process-ScanInv :
      (p : Packet) (ts : Timespec) (ttl : ℤ) (s : Scan)
      → ScanInv c s
      → ScanInv c (process_received_packet c o p ts ttl s)
  unfolding process_received_packet make_result
  process-ScanInv p ts ttl s v =
      elim (Bool-cases (ltb (length p.bytes) (icmp_hdr_size + ping_payload_size))) [
        | inl short ↦ rw (short, process_received_packet) (recount-ScanInv c s _ v)
        | inr long ↦ elim (Bool-cases (reply_type p.bytes == 0)) [
          | inr wrong ↦ rw (long, wrong, process_received_packet) v
          | inl reply ↦ elim (Bool-cases (is_unmatched c s p)) [
            | inl stray ↦ rw (long, reply, stray, process_received_packet) (recount-ScanInv c s _ v)
            | inr match ↦
                let (h, lt, d, q, new, _) = matched_host c s p u match in
                rw (long, reply, match, process_received_packet, q, d)
                  (answered-ScanInv c s h v lt
                    (make_result c o p (c.base_ip + h)
                      (rtt_of (diff_ns ts (reply_send_time p.bytes))) ttl)
                    refl (subst (λ (n : ℕ). is_host_found s.finds.found_ips_cache n ≡ false) d new))
          ]
        ]
      ]

  receive_packet-ScanInv :
      (p : Packet) (s : Scan) → ScanInv c s → ScanInv c (receive_packet c o p s)
  unfolding receive_packet
  receive_packet-ScanInv p s v = elim (Bool-cases (ltb (length p.bytes) icmp_hdr_size)) [
    | inl short ↦ rw (short, receive_packet) v
    | inr long ↦ rw (long, receive_packet) (process-ScanInv p _ _ _ (recount-ScanInv c s _ v))
  ]

-- What every packet keeps, receiving keeps too.
module _ {ℓ} (c : Setup) (o : Host) (P : Scan → Type ℓ)
    (keep : (p : Packet) (s : Scan) → P s → P (receive_packet c o p s)) where
  packets_keep : (ps : List Packet) (s : Scan) → P s → P (receive_packets c o ps s)
  unfolding receive_packets
  packets_keep [] s v = v
  packets_keep (p ∷ ps) s v = packets_keep ps (receive_packet c o p s) (keep p s v)

  loop_keeps :
      (answers : List RecvAnswer) (s : Scan) {s' : Scan}
      → P s
      → receive_loop c o answers s ≡ returns s'
      → P s'
  unfolding receive_loop
  loop_keeps [] s v h = absurd (pending-ne-returns h)
  loop_keeps (failed ∷ rest) s v h = subst P (returns_injective _ _ h) v
  loop_keeps (received ps ∷ rest) s v h = elim (Bool-cases (length ps == 0)) [
    | inl none_left ↦ subst P (returns_injective _ _ (rw (none_left, receive_loop) at h)) v
    | inr some_left ↦ elim (Bool-cases (ltb (length ps) c.recv_batch_size)) [
      | inl last ↦
          subst P (returns_injective _ _ (rw (some_left, last, receive_loop) at h))
            (packets_keep ps s v)
      | inr more ↦
          loop_keeps rest (receive_packets c o ps s) (packets_keep ps s v)
            (rw (some_left, more, receive_loop) at h)
    ]
  ]

  pub receive_keeps :
      (blocking readable : Bool) (answers : List RecvAnswer) (s : Scan) {s' : Scan}
      → P s
      → receive_responses c o blocking readable answers s ≡ returns s'
      → P s'
  unfolding receive_responses
  receive_keeps blocking readable answers s v h = elim (Bool-cases (blocking && not readable)) [
    | inl wait ↦ subst P (returns_injective _ _ (rw (wait, receive_responses) at h)) v
    | inr go ↦ loop_keeps answers s v (rw (go, receive_responses) at h)
  ]

-- Receiving keeps the invariant of the scan: the packets may hold anything.
pub receive-ScanInv :
    (c : Setup) (o : Host) (blocking readable : Bool) (answers : List RecvAnswer) (s : Scan)
    {s' : Scan}
    → IsSetup c
    → ScanInv c s
    → receive_responses c o blocking readable answers s ≡ returns s'
    → ScanInv c s'
receive-ScanInv c o blocking readable answers s u =
    receive_keeps c o (ScanInv c) (receive_packet-ScanInv c o u) blocking readable answers s

packet_position :
    (c : Setup) (o : Host) (p : Packet) (s : Scan)
    → (receive_packet c o p s).next_host_idx ≡ s.next_host_idx
unfolding receive_packet process_received_packet
packet_position c o p s = ground arith

-- Receiving does not move the position of the scan.
pub receive_position :
    (c : Setup) (o : Host) (blocking readable : Bool) (answers : List RecvAnswer) (s : Scan)
    {s' : Scan}
    → receive_responses c o blocking readable answers s ≡ returns s'
    → s'.next_host_idx ≡ s.next_host_idx
receive_position c o blocking readable answers s =
    receive_keeps c o (λ x. x.next_host_idx ≡ s.next_host_idx)
      (λ p x e. packet_position c o p x ∙ e) blocking readable answers s refl
