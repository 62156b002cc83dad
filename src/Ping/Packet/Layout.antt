-- ===== src/Ping/Packet/Layout.antt =====
-- Where `prepare_single_packet` writes in the send buffer.
use netscan.Base.{
  Bytes, List, [], ap, ap₂, arith, get_elem?, get_elem?-get_or, get_elem?-set_ne,
  get_elem?-set_self, get_or, length, length-append, length-set, refl, set, some, suc, sym, zero, ℕ,
  ◌*◌, ◌++◌, ◌+◌, ◌<◌, ◌^◌, ◌∙◌, ◌≡◌, ◌≢◌,
}
use netscan.Base.{le_bytes, read_at, write_at}
use netscan.Base.{
  write_at-three, read_at-middle, join, AllSized, around, AllSized-set, length-join, cut,
}
use netscan.Sys.{Timespec}
use netscan.Utils.{NetworkInterface}
use netscan.Ping.State.{
  PingScannerConfig, make_setup, Setup, Batch, icmp_hdr_size, ping_payload_size,
}
use netscan.Ping.Packet.{
  Host, icmp_header, ping_payload, extra_payload, prepare_single_packet, packet_at,
}

-- The buffers of a batch have room for `n` entries, and the size of an entry has not wrapped around.
pub record Sized (c : Setup) (n : ℕ) (b : Batch) : Type 0 where
  pub packet_size : c.packet_buffer_size ≡ icmp_hdr_size + ping_payload_size + c.payload_len
  pub packets : length b.send_packets ≡ n * c.packet_buffer_size
  pub addrs : length b.send_addrs ≡ n
  pub slots : length b.send_probe_slots ≡ n

-- The echo request to `ip`: header, payload and filler.
abbrev pub request : Setup → Host → ℕ → ℕ → Timespec → Bytes
request c h ip sequence ts =
    icmp_header h sequence ++ (ping_payload h ip ts ++ extra_payload c.payload_len 0)

length-icmp_header : (h : Host) (sequence : ℕ) → length (icmp_header h sequence) ≡ 8
unfolding icmp_header
length-icmp_header h sequence = refl

length-ping_payload : (h : Host) (ip : ℕ) (ts : Timespec) → length (ping_payload h ip ts) ≡ 24
unfolding ping_payload le_bytes
length-ping_payload h ip ts = refl

length-extra_payload : (n i : ℕ) → length (extra_payload n i) ≡ n
unfolding extra_payload
length-extra_payload zero i = refl
length-extra_payload (suc n) i = ap suc (length-extra_payload n (i + 1))

-- What stands at entry `k` of a buffer that is cut into entries.
packet_at-join :
    (c : Setup) (b : Batch) (es : List Bytes) (k : ℕ) (e : Bytes)
    → AllSized c.packet_buffer_size es
    → b.send_packets ≡ join es
    → get_elem? es k ≡ some e
    → packet_at c b k ≡ e
unfolding packet_at
packet_at-join c b es k e v j g =
    let r = around c.packet_buffer_size es k e v g in
    ap (λ (x : Bytes). read_at x (k * c.packet_buffer_size) c.packet_buffer_size) (j ∙ r.here)
    ∙ ap₂ (λ (o n : ℕ). read_at (r.before ++ (e ++ r.after)) o n) (sym r.offset) (sym r.sized)
    ∙ read_at-middle r.before e r.after

-- `b'` is `b` with the echo request to `ip` in its next entry.
pub record LaidOut (c : Setup) (h : Host) (n : ℕ) (b : Batch) (ip sequence : ℕ) (ts : Timespec)
    (b' : Batch) : Type 0 where
  pub entry : packet_at c b' b.batch_count ≡ request c h ip sequence ts
  pub others : (j : ℕ) → j < n → j ≢ b.batch_count → packet_at c b' j ≡ packet_at c b j
  pub addr : get_elem? b'.send_addrs b.batch_count ≡ some ip
  pub sized : Sized c n b'

module _ (c : Setup) (h : Host) (n : ℕ) (b : Batch) (ip sequence : ℕ) (ts : Timespec)
    (v : Sized c n b) (room : b.batch_count < n) where
  abbrev prepared : Batch
  prepared = prepare_single_packet c h b ip sequence ts

  length-request : length (request c h ip sequence ts) ≡ c.packet_buffer_size
  length-request =
      let x = extra_payload c.payload_len 0 in
      omega (
        arith,
        length-append (icmp_header h sequence) (ping_payload h ip ts ++ x),
        length-append (ping_payload h ip ts) x,
        length-icmp_header h sequence,
        length-ping_payload h ip ts,
        length-extra_payload c.payload_len 0,
        v.packet_size,
      )

  written :
      (es : List Bytes)
      → AllSized c.packet_buffer_size es
      → length es ≡ n
      → join es ≡ b.send_packets
      → prepared.send_packets ≡ join (set es b.batch_count (request c h ip sequence ts))
  unfolding prepare_single_packet
  written es s l j =
      let k = b.batch_count in
      let e = get_or es k [] in
      let r = around c.packet_buffer_size es k e s (get_elem?-get_or es k [] (omega arith)) in
      let i = length-icmp_header h sequence in
      let p = length-ping_payload h ip ts in
      ap
        (λ (x : Bytes).
          write_at
            (write_at (write_at x (k * c.packet_buffer_size) (icmp_header h sequence))
              (k * c.packet_buffer_size + 8) (ping_payload h ip ts))
            (k * c.packet_buffer_size + 8 + 24) (extra_payload c.payload_len 0))
        (sym j ∙ r.here)
      ∙ write_at-three r.before e r.after (icmp_header h sequence) (ping_payload h ip ts)
          (extra_payload c.payload_len 0) _ _ _ (sym r.offset) (omega (arith, r.offset, i))
          (omega (arith, r.offset, i, p))
          (omega (arith, r.sized, v.packet_size, i, p, length-extra_payload c.payload_len 0))
      ∙ sym (r.there (request c h ip sequence ts))

  pub lays_out : LaidOut c h n b ip sequence ts (prepare_single_packet c h b ip sequence ts)
  unfolding prepare_single_packet
  lays_out =
      let k = b.batch_count in
      let size = c.packet_buffer_size in
      let req = request c h ip sequence ts in
      let r = cut size n b.send_packets v.packets in
      let es = r.entries in
      let w = written es r.sizes r.count r.joined in
      let s = AllSized-set size es k req r.sizes length-request in
      record {
        entry =
            packet_at-join c prepared (set es k req) k req s w
              (get_elem?-set_self es k req (omega (arith, r.count)));
        others = λ j lt ne.
            let g = get_elem?-get_or es j [] (omega (arith, r.count)) in
            packet_at-join c prepared (set es k req) j (get_or es j []) s w
              (get_elem?-set_ne es k j req (λ e. ne (sym e)) ∙ g)
            ∙ sym (packet_at-join c b es j (get_or es j []) r.sizes (sym r.joined) g);
        addr = get_elem?-set_self b.send_addrs k ip (omega (arith, v.addrs));
        sized = record {
          packet_size = v.packet_size;
          packets =
              ap length w
              ∙ length-join size (set es k req) s
              ∙ ap (λ (m : ℕ). m * size) (length-set es k req ∙ r.count);
          addrs = length-set b.send_addrs k ip ∙ v.addrs;
          slots = v.slots;
        };
      }

-- For a payload with which the size of a packet fits a `size_t`, buffers of `n` entries of that size, and
-- an entry below `n`: the entry becomes the echo request, every other entry stays as it was, the
-- address of the entry is set, and no buffer changes its length.
pub prepare_single_packet_lays_out :
    (config : PingScannerConfig) (interface : NetworkInterface) (h : Host) (n : ℕ) (b : Batch)
    (ip sequence : ℕ) (ts : Timespec)
    → icmp_hdr_size + ping_payload_size + config.payload_len < 2 ^ 64
    → length b.send_packets ≡ n * (icmp_hdr_size + ping_payload_size + config.payload_len)
    → length b.send_addrs ≡ n
    → length b.send_probe_slots ≡ n
    → b.batch_count < n
    → let c = make_setup config interface in
      LaidOut c h n b ip sequence ts (prepare_single_packet c h b ip sequence ts)
unfolding make_setup
prepare_single_packet_lays_out config interface h n b ip sequence ts fits packets addrs slots room =
    let c = make_setup config interface in
    let size : c.packet_buffer_size ≡ icmp_hdr_size + ping_payload_size + config.payload_len =
      omega (arith, fits) in
    lays_out c h n b ip sequence ts
      (record {
        packet_size = size;
        packets = packets ∙ ap (λ (k : ℕ). n * k) (sym size);
        addrs = addrs;
        slots = slots;
      })
      room
