-- ===== src/Rtp.antt =====
-- RTP packets: `is_rtp_v2` of src/k5vision/media/rtp_delivery.py, and the header fields that the
-- recording and playback layers read. A byte is a number; that it is below 256 is a hypothesis
-- (`IsBytes`) where a statement needs it.
pub mod Bounds
use k5_vision.Prelude.{
  ℕ, ◌+◌, ◌*◌, ◌/◌, ◌%◌, ◌<◌, Bool, true, false, not, ◌||◌, List, [], ◌∷◌, ltb, leb, ◌==◌,
  if◌then◌else◌, length, take, drop, All,
}

abbrev pub Bytes : Type 0
Bytes = List ℕ

abbrev pub IsBytes : Bytes → Type 0
IsBytes = All (λ b. b < 256)

-- `packet[i]`; the source reads it only below the length.
abbrev pub byte_at : Bytes → ℕ → ℕ
byte_at p i = elim (drop i p) [ [] ↦ 0 | b ∷ _ ↦ b ]

-- `int.from_bytes(data, "big")`, from the accumulator.
abbrev pub from_big_endian : ℕ → Bytes → ℕ
from_big_endian acc [] = acc
from_big_endian acc (b ∷ bs) = from_big_endian (acc * 256 + b) bs

abbrev pub has_extension : Bytes → Bool
has_extension p = (byte_at p 0 / 16) % 2 == 1

abbrev pub header_length : Bytes → ℕ
header_length p = 12 + (byte_at p 0 % 16) * 4

abbrev pub extension_words : Bytes → ℕ
extension_words p = from_big_endian 0 (take 2 (drop (header_length p + 2) p))

unfoldable pub is_rtp_v2 : Bytes → Bool
is_rtp_v2 p =
    if ltb (length p) 12 || not (byte_at p 0 / 64 == 2)
    then false
    else if ltb (length p) (header_length p)
    then false
    else if not (has_extension p)
    then true
    else if ltb (length p) (header_length p + 4)
    then false
    else leb (header_length p + 4 + extension_words p * 4) (length p)

-- `packet[1] & 0x7F` and `int.from_bytes(packet[4:8], "big")`.
abbrev pub payload_type : Bytes → ℕ
payload_type p = byte_at p 1 % 128

abbrev pub timestamp : Bytes → ℕ
timestamp p = from_big_endian 0 (take 4 (drop 4 p))
