-- ===== src/Ping/Packet/Echo.antt =====
-- The round trip of a probe: `PingPayload` as it is written by `prepare_single_packet` and read by
-- `process_received_packet`.
use netscan.Base.{Bytes, [], ap, arith, negsuc, pos, ℕ, ℤ, ◌++◌, ◌<◌, ◌^◌, ◌∙◌, ◌∷◌, ◌≡◌}
use netscan.Base.{Bytes, le_bytes, of_le_bytes, read_at, word64, int64}
use netscan.Sys.{Timespec}
use netscan.Ping.Packet.{Host, ping_payload, reply_target, reply_send_time}

-- The value fits an `int64_t`.
abbrev pub FitsInt64 : ℤ → Type 0
FitsInt64 (pos n) = n < 2 ^ 63
FitsInt64 (negsuc n) = n < 2 ^ 63

int64-word64 : (z : ℤ) → FitsInt64 z → int64 (word64 z) ≡ z
unfolding int64 word64
int64-word64 (pos n) h = ground arith
int64-word64 (negsuc n) h = ground arith

word64_lt : (z : ℤ) → word64 z < 2 ^ 64
unfolding word64
word64_lt (pos n) = omega arith
word64_lt (negsuc n) = omega arith

of_le_bytes_four : (w : ℕ) → w < 2 ^ 32 → of_le_bytes (le_bytes 4 w) ≡ w
unfolding of_le_bytes le_bytes
of_le_bytes_four w h = omega arith

of_le_bytes_eight : (w : ℕ) → w < 2 ^ 64 → of_le_bytes (le_bytes 8 w) ≡ w
unfolding of_le_bytes le_bytes
of_le_bytes_eight w h = omega arith

same_time :
    {a b c d : ℤ}
    → a ≡ b
    → c ≡ d
    → ◌≡◌ {A = Timespec} (record { tv_sec = a; tv_nsec = c }) (record { tv_sec = b; tv_nsec = d })
same_time p q = λ i. record { tv_sec = p i; tv_nsec = q i }

-- A reply holds some header of eight bytes, and then what the request held behind its own header. The
-- fields that are read out of it are those that were written, for an address of 32 bits and a time
-- whose parts fit 64 bits.
pub reply_reads_request :
    (o : Host) (ip : ℕ) (ts : Timespec) (b0 b1 b2 b3 b4 b5 b6 b7 : ℕ) (rest : Bytes)
    → ip < 2 ^ 32
    → FitsInt64 ts.tv_sec
    → FitsInt64 ts.tv_nsec
    → let header : Bytes = b0 ∷ b1 ∷ b2 ∷ b3 ∷ b4 ∷ b5 ∷ b6 ∷ b7 ∷ [] in
      let packet = header ++ (ping_payload o ip ts ++ rest) in
      (reply_target packet ≡ ip) × (reply_send_time packet ≡ ts)
unfolding reply_target reply_send_time ping_payload le_bytes of_le_bytes read_at
reply_reads_request o ip ts b0 b1 b2 b3 b4 b5 b6 b7 rest small sec nsec = (
  of_le_bytes_four ip small,
  same_time
      (ap int64 (of_le_bytes_eight (word64 ts.tv_sec) (word64_lt ts.tv_sec))
        ∙ int64-word64 ts.tv_sec sec)
      (ap int64 (of_le_bytes_eight (word64 ts.tv_nsec) (word64_lt ts.tv_nsec))
        ∙ int64-word64 ts.tv_nsec nsec),
)
