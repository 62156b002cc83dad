-- ===== src/Ping/Receive/Counts.antt =====
-- What the counters of the scan count.
use netscan.Base.{
  Bool, Bool-cases, List, [], ap, arith, count_if, if◌then◌else◌, inl, inr, leb, length, ltb, not,
  refl, subst, true, ℕ, ℤ, ◌%◌, ◌&&◌, ◌++◌, ◌+◌, ◌==◌, ◌^◌, ◌∙◌, ◌∷◌, ◌≡◌,
}
use netscan.Sys.{Timespec, returns, returns_injective, pending-ne-returns}
use netscan.Ping.State.{Setup, Scan, icmp_hdr_size, ping_payload_size}
use netscan.Ping.Packet.{Host, reply_type}
use netscan.Ping.Receive.{
  Packet, extract_control_data, record_find, is_unmatched, process_received_packet, receive_packet,
  receive_packets, RecvAnswer, received, failed, receive_loop, receive_responses,
}

-- An echo reply that is long enough to hold the payload.
abbrev pub is_reply : Packet → Bool
is_reply p = leb (icmp_hdr_size + ping_payload_size) (length p.bytes) && reply_type p.bytes == 0

-- A packet with a header, but too short to hold the payload.
abbrev pub is_short : Packet → Bool
is_short p =
    leb icmp_hdr_size (length p.bytes) && ltb (length p.bytes) (icmp_hdr_size + ping_payload_size)

pub record Counted (ps : List Packet) (s s' : Scan) : Type 0 where
  pub replies :
      s'.counters.echo_replies % 2 ^ 32 ≡ (s.counters.echo_replies + count_if is_reply ps) % 2 ^ 32
  pub settled :
      (s'.counters.unmatched_replies + s'.finds.hosts_found) % 2 ^ 32
      ≡ (s.counters.unmatched_replies
          + s.finds.hosts_found
          + count_if is_reply ps
          + count_if is_short ps)
        % 2 ^ 32
  pub others :
      (s'.counters.tx_drops ≡ s.counters.tx_drops)
      × (s'.counters.probe_timeouts ≡ s.counters.probe_timeouts)

process-Counted :
    (c : Setup) (h : Host) (p : Packet) (ts : Timespec) (ttl : ℤ) (s : Scan)
    → leb icmp_hdr_size (length p.bytes) ≡ true
    → Counted (p ∷ []) s (process_received_packet c h p ts ttl s)
unfolding process_received_packet record_find
process-Counted c h p ts ttl s long =
    elim (Bool-cases (ltb (length p.bytes) (icmp_hdr_size + ping_payload_size))) [
      | inl e ↦
          rw (e, process_received_packet)
            (record {
              replies = ground (arith, e);
              settled = ground (arith, e, long);
              others = (refl, refl);
            })
      | inr e ↦ elim (Bool-cases (reply_type p.bytes == 0)) [
        | inr t ↦
            rw (e, t, process_received_packet)
              (record {
                replies = ground (arith, e, t);
                settled = ground (arith, e, t, long);
                others = (refl, refl);
              })
        | inl t ↦ elim (Bool-cases (is_unmatched c s p)) [
          | inl m ↦
              rw (e, t, m, process_received_packet)
                (record {
                  replies = ground (arith, e, t);
                  settled = ground (arith, e, t, long);
                  others = (refl, refl);
                })
          | inr m ↦
              rw (e, t, m, process_received_packet)
                (record {
                  replies = ground (arith, e, t);
                  settled = ground (arith, e, t, long);
                  others = (refl, refl);
                })
        ]
      ]
    ]

count_if-append {ℓ} :
    {A : Type ℓ} (f : A → Bool) (xs ys : List A)
    → count_if f (xs ++ ys) ≡ count_if f xs + count_if f ys
count_if-append f [] ys = omega arith
count_if-append f (x ∷ xs) ys = omega (arith, count_if-append f xs ys)

nothing-Counted : (s : Scan) → Counted [] s s
nothing-Counted s = record {
  replies = ap (λ (n : ℕ). n % 2 ^ 32) (omega arith);
  settled = ap (λ (n : ℕ). n % 2 ^ 32) (omega arith);
  others = (refl, refl);
}

append-Counted :
    (ps qs : List Packet) (a b d : Scan) → Counted ps a b → Counted qs b d → Counted (ps ++ qs) a d
append-Counted ps qs a b d v w = record {
  replies = omega (arith, v.replies, w.replies, count_if-append is_reply ps qs);
  settled =
      omega (
        arith,
        v.settled,
        w.settled,
        count_if-append is_reply ps qs,
        count_if-append is_short ps qs,
      );
  others = (w.others.0 ∙ v.others.0, w.others.1 ∙ v.others.1);
}

packet-Counted :
    (c : Setup) (h : Host) (p : Packet) (s : Scan) → Counted (p ∷ []) s (receive_packet c h p s)
unfolding receive_packet
packet-Counted c h p s = elim (Bool-cases (ltb (length p.bytes) icmp_hdr_size)) [
  | inl e ↦
      rw (e, receive_packet)
        (record { replies = ground (arith, e); settled = ground (arith, e); others = (refl, refl) })
  | inr e ↦
      let d = extract_control_data p s.counters.rx_queue_overflows in
      let t = record s { counters = record (s.counters) { rx_queue_overflows = d.2 } } in
      let v = process-Counted c h p d.1 d.0 t (ground (arith, e)) in
      rw (e, receive_packet)
        (record { replies = v.replies; settled = v.settled; others = v.others })
]

packets-Counted :
    (c : Setup) (h : Host) (ps : List Packet) (s : Scan) → Counted ps s (receive_packets c h ps s)
unfolding receive_packets
packets-Counted c h [] s = nothing-Counted s
packets-Counted c h (p ∷ ps) s =
    let t = receive_packet c h p s in
    append-Counted (p ∷ []) ps s t (receive_packets c h ps t) (packet-Counted c h p s)
      (packets-Counted c h ps t)

-- The packets that `recvmmsg` hands out: full batches, up to a batch that is not full or an error.
abbrev pub drained : Setup → List RecvAnswer → List Packet
drained c [] = []
drained c (failed ∷ rest) = []
drained c (received ps ∷ rest) =
    let more = drained c rest in
    if length ps == 0 then [] else if ltb (length ps) c.recv_batch_size then ps else ps ++ more

loop-Counted :
    (c : Setup) (h : Host) (answers : List RecvAnswer) (s : Scan) {s' : Scan}
    → receive_loop c h answers s ≡ returns s'
    → Counted (drained c answers) s s'
unfolding receive_loop
loop-Counted c h [] s e = absurd (pending-ne-returns e)
loop-Counted c h (failed ∷ rest) s e =
    subst (Counted [] s) (returns_injective _ _ e) (nothing-Counted s)
loop-Counted c h (received ps ∷ rest) s {s'} e = elim (Bool-cases (length ps == 0)) [
  | inl z ↦
      rw z (
        subst (Counted [] s) (returns_injective _ _ (rw (z, receive_loop) at e))
          (nothing-Counted s))
  | inr z ↦
      let t = receive_packets c h ps s in
      elim (Bool-cases (ltb (length ps) c.recv_batch_size)) [
        | inl l ↦
            rw (z, l)
              (subst (Counted ps s) (returns_injective _ _ (rw (z, l, receive_loop) at e))
                (packets-Counted c h ps s))
        | inr l ↦
            rw (z, l)
              (append-Counted ps (drained c rest) s t s' (packets-Counted c h ps s)
                (loop-Counted c h rest t (rw (z, l, receive_loop) at e)))
      ]
]

-- Of the packets that `receive_responses` reads: every echo reply long enough for the payload is
-- counted once as a reply, and either found a new host or is counted as unmatched, as every packet
-- with a header and no whole payload is. Modulo 2 ^ 32, which the counters wrap at. The other counters
-- of sending and of time-outs are left alone.
pub receive_responses-Counted :
    (c : Setup) (h : Host) (blocking readable : Bool) (answers : List RecvAnswer) (s : Scan)
    {s' : Scan}
    → receive_responses c h blocking readable answers s ≡ returns s'
    → Counted (if blocking && not readable then [] else drained c answers) s s'
unfolding receive_responses
receive_responses-Counted c h blocking readable answers s e =
    elim (Bool-cases (blocking && not readable)) [
      | inl w ↦ rw w (
          subst (Counted [] s) (returns_injective _ _ (rw (w, receive_responses) at e))
            (nothing-Counted s))
      | inr w ↦ rw w (loop-Counted c h answers s (rw (w, receive_responses) at e))
    ]
