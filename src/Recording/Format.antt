-- ===== src/Recording/Format.antt =====
-- The record framing of framed_recording.py: the magic, and `struct.Struct(">II")` headers.
use k5_vision.Prelude.{ℕ, ◌+◌, ◌*◌, ◌/◌, ◌%◌, ◌≡◌, refl, List, [], ◌∷◌, ◌++◌, arith, length}
use k5_vision.Rtp.{Bytes, from_big_endian}

-- b"K5RTPF\x00\x01"
abbrev pub magic : Bytes
magic = b'K' ∷ b'5' ∷ b'R' ∷ b'T' ∷ b'P' ∷ b'F' ∷ 0 ∷ 1 ∷ []

abbrev pub record_header_size : ℕ
record_header_size = 8

abbrev pub max_packet_limit : ℕ
max_packet_limit = 65_535

abbrev pub max_recording_bytes : ℕ
max_recording_bytes = 8 * 1024 * 1024 * 1024

abbrev pub max_packets_limit : ℕ
max_packets_limit = 1_000_000

abbrev pub u32_mod : ℕ
u32_mod = 4_294_967_296

-- One big-endian unsigned 32-bit field.
unfoldable pub pack_u32 : ℕ → Bytes
pack_u32 n = n / 16_777_216 ∷ (n / 65_536) % 256 ∷ (n / 256) % 256 ∷ n % 256 ∷ []

abbrev pub pack_header : ℕ → ℕ → Bytes
pack_header size checksum = pack_u32 size ++ pack_u32 checksum

pub from_big_endian-pack_u32 : (n : ℕ) → from_big_endian 0 (pack_u32 n) ≡ n
unfolding pack_u32
from_big_endian-pack_u32 n = omega arith

pub length-pack_u32 : (n : ℕ) → length (pack_u32 n) ≡ 4
unfolding pack_u32
length-pack_u32 n = refl

-- `zlib.crc32` is a parameter: the format needs only that it is a function of the payload.
module _ (crc32 : Bytes → ℕ) where
  -- `zlib.crc32(packet) & 0xFFFFFFFF`
  abbrev pub checksum : Bytes → ℕ
  checksum p = crc32 p % u32_mod

  -- What `_write_record_sync` writes for one packet.
  unfoldable pub frame : Bytes → Bytes
  frame p = pack_header (length p) (checksum p) ++ p

  unfoldable pub frames : List Bytes → Bytes
  frames [] = []
  frames (p ∷ ps) = frame p ++ frames ps

  pub length-frame : (p : Bytes) → length (frame p) ≡ 8 + length p
  unfolding frame pack_u32
  length-frame p = omega arith
