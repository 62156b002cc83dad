-- ===== src/Ping/Packet.antt =====
-- The bytes of an echo request, as `prepare_single_packet` lays them out, and the fields that
-- `process_received_packet` reads out of a reply.
pub mod Echo
pub mod Layout
use netscan.Base.{
  Bytes, [], get_or, int64, le_bytes, of_le_bytes, read_at, set, suc, word64, write_at, zero, ℕ,
  ◌%◌, ◌*◌, ◌++◌, ◌+◌, ◌/◌, ◌∷◌,
}
use netscan.Sys.{Timespec}
use netscan.Ping.State.{Setup, Batch, icmp_hdr_size, ping_payload_size}

-- What a packet takes from the host: the process id, and the four bytes that the compiler leaves in
-- the padding of `PingPayload`, as a word.
pub record Host : Type 0 where
  pub pid : ℕ
  pub padding : ℕ
  pub inet_ntop : Bytes → Bytes

-- The 16-bit fields `id` and `sequence` are in network order. The checksum is left to the kernel.
unfoldable pub icmp_header : Host → ℕ → Bytes
icmp_header h sequence =
    let id = h.pid % 65536 in
    8 ∷ 0 ∷ 0 ∷ 0 ∷ (id / 256) ∷ (id % 256) ∷ (sequence / 256) ∷ (sequence % 256) ∷ []

-- `PingPayload`: the address in host order, and the time of sending.
unfoldable pub ping_payload : Host → ℕ → Timespec → Bytes
ping_payload h target_ip send_ts =
    le_bytes 4 target_ip
    ++ (le_bytes 4 h.padding
        ++ (le_bytes 8 (word64 send_ts.tv_sec) ++ le_bytes 8 (word64 send_ts.tv_nsec)))

-- The extra bytes, `n` of them from index `i` on.
unfoldable pub extra_payload : ℕ → ℕ → Bytes
extra_payload zero i = []
extra_payload (suc n) i = ((i + 26) % 10) ∷ extra_payload n (i + 1)

unfoldable pub prepare_single_packet : Setup → Host → Batch → ℕ → ℕ → Timespec → Batch
prepare_single_packet c h b target_ip sequence send_ts =
    let packet_offset = b.batch_count * c.packet_buffer_size in
    let payload_offset = packet_offset + icmp_hdr_size in
    let extra_offset = packet_offset + icmp_hdr_size + ping_payload_size in
    let with_icmp = write_at b.send_packets packet_offset (icmp_header h sequence) in
    let with_payload = write_at with_icmp payload_offset (ping_payload h target_ip send_ts) in
    record b {
      send_packets = write_at with_payload extra_offset (extra_payload c.payload_len 0);
      send_addrs = set b.send_addrs b.batch_count target_ip;
    }

-- What `sendmmsg` transmits for entry `k`: the bytes that `send_iovs_[k]` covers.
unfoldable pub packet_at : Setup → Batch → ℕ → Bytes
packet_at c b k = read_at b.send_packets (k * c.packet_buffer_size) c.packet_buffer_size

-- `recved_icmp.type`, and the members of `payload_data`.
unfoldable pub reply_type : Bytes → ℕ
reply_type packet = get_or packet 0 0

unfoldable pub reply_target : Bytes → ℕ
reply_target packet = of_le_bytes (read_at packet icmp_hdr_size 4)

unfoldable pub reply_send_time : Bytes → Timespec
reply_send_time packet = record {
  tv_sec = int64 (of_le_bytes (read_at packet (icmp_hdr_size + 8) 8));
  tv_nsec = int64 (of_le_bytes (read_at packet (icmp_hdr_size + 16) 8));
}
