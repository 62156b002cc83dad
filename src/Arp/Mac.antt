-- ===== src/Arp/Mac.antt =====
-- The text of a link-layer address, and reading it back.
use netscan.Base.{
  Bytes, [], ap, ap₂, arith, if◌then◌else◌, length, ltb, refl, ℕ, ◌%◌, ◌*◌, ◌+◌, ◌-◌, ◌/◌, ◌<◌, ◌∷◌,
  ◌≡◌,
}
use netscan.Base.{Bytes, ap₂}
use netscan.Arp.{hex_digit, mac_text}

-- Every number of the list is a byte.
abbrev pub AllBytes : Bytes → Type 0
AllBytes [] = Unit {0}
AllBytes (b ∷ bs) = (b < 256) × AllBytes bs

-- The value of a digit in lower case.
abbrev pub digit_value : ℕ → ℕ
digit_value d = if ltb d (b'0' + 10) then d - b'0' else d + 10 - b'a'

-- Two digits to a byte, with any separator.
abbrev pub read_mac : Bytes → Bytes
read_mac [] = []
read_mac (a ∷ []) = []
read_mac (a ∷ b ∷ []) = (digit_value a * 16 + digit_value b) ∷ []
read_mac (a ∷ b ∷ _ ∷ rest) = (digit_value a * 16 + digit_value b) ∷ read_mac rest

digit_value-hex_digit : (n : ℕ) → n < 16 → digit_value (hex_digit n) ≡ n
unfolding hex_digit
digit_value-hex_digit n h = ground arith

hex_byte_value :
    (b : ℕ) → b < 256 → digit_value (hex_digit (b / 16)) * 16 + digit_value (hex_digit (b % 16)) ≡ b
hex_byte_value b h = omega (
  arith,
  digit_value-hex_digit (b / 16) (omega arith),
  digit_value-hex_digit (b % 16) (omega arith),
)

-- Reading the text of a list of bytes gives the bytes back: no two addresses have the same text.
pub read_mac-mac_text : (bs : Bytes) → AllBytes bs → read_mac (mac_text bs) ≡ bs
unfolding mac_text
read_mac-mac_text [] h = refl
read_mac-mac_text (b ∷ []) h = ap (λ (x : ℕ). x ∷ []) (hex_byte_value b h.0)
read_mac-mac_text (b ∷ c ∷ cs) h =
    ap₂ (λ (x : ℕ) (l : Bytes). x ∷ l) (hex_byte_value b h.0) (read_mac-mac_text (c ∷ cs) h.1)

pub length-mac_text : (b : ℕ) (bs : Bytes) → length (mac_text (b ∷ bs)) ≡ 3 * length bs + 2
unfolding mac_text
length-mac_text b [] = refl
length-mac_text b (c ∷ cs) = omega (arith, length-mac_text c cs)
