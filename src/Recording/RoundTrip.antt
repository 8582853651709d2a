-- ===== src/Recording/RoundTrip.antt =====
-- `iter_packets` of a new reader, from its start to the ends of its runs.
use k5_vision.Prelude.{
  ℕ, suc, ◌+◌, ◌≤◌, ◌≡◌, ◌≢◌, refl, ◌∙◌, ap, Bool, true, [], ◌∷◌, ◌++◌, arith, length, take, drop,
  length-append, take-append-length, drop-append-length, Result, ok, raise, Option, none, some,
  Bool-cases, inl, inr,
}
use k5_vision.Rtp.{Bytes, is_rtp_v2, from_big_endian}
use k5_vision.Rtp.Bounds.{length-ge_of_is_rtp_v2}
use k5_vision.Generator.{ending, Ending}
use k5_vision.Recording.Format.{frame, magic, length-frame, pack_header, pack_u32, checksum}
use k5_vision.Recording.Sink.{State, ErrorCode, Limits}
use k5_vision.Recording.Reader.{
  File, Reader, new_reader, bytes_eq, read, iter_packets, after_magic, produced, read_record,
  after_header, admit_record, accept_payload, read_exact,
}
use k5_vision.Recording.Reading.{read_exact_full}
use k5_vision.Recording.Turn.{read_record_full}
use k5_vision.Recording.Decoding.{read_records_total}
use k5_vision.Recording.Soundness.{IsValid}

pub bytes_eq→eq : (a b : Bytes) → bytes_eq a b ≡ true → a ≡ b
unfolding bytes_eq
bytes_eq→eq [] [] h = refl
bytes_eq→eq (x ∷ a) (y ∷ b) h = ground (arith, bytes_eq→eq a b)
bytes_eq→eq [] (y ∷ b) h = cc
bytes_eq→eq (x ∷ a) [] h = cc

abbrev pub opened : Limits → Bool → Reader
opened limits closes = record (new_reader limits closes) { state = State.opened; file_bytes = 8 }

length-magic_of : (b : Bytes) → b ≡ magic → length b ≡ 8
length-magic_of b h = ap length h

module _ (crc32 : Bytes → ℕ) where
  after_magic_total :
      (r : Reader) (m : Result ErrorCode (Bytes × File))
      → ending (after_magic crc32 r m) ≢ Ending.stuck
  unfolding after_magic
  after_magic_total r (raise e) = λ h. cc
  after_magic_total r (ok (head, f)) =
      let r' : Reader = record r { file_bytes = r.file_bytes + length head } in
      elim (Bool-cases (bytes_eq head magic)) [
        | inl same ↦ rw same (read_records_total crc32 (suc (length f.bytes)) r' f (omega arith))
        | inr other ↦ rw other (λ h. cc)
      ]

  -- Every run of a new reader, on any file or on none, ends by a return or by an exception: the fuel
  -- of the model is enough, in every `_read_exact` and in the loop around it.
  pub iter_packets_total :
      (limits : Limits) (closes : Bool) (file : Option File)
      → ending (iter_packets crc32 (new_reader limits closes) file) ≢ Ending.stuck
  unfolding iter_packets
  iter_packets_total limits closes none = λ e. cc
  iter_packets_total limits closes (some f) =
      after_magic_total (record (new_reader limits closes) { state = State.opened }) (read 8 f)

  length-header : (p : Bytes) → length (pack_header (length p) (checksum crc32 p)) ≡ 8
  unfolding pack_u32
  length-header p = refl

  -- The cuts of a frame.
  frame-take :
      (p rest : Bytes) → take 8 (frame crc32 p ++ rest) ≡ pack_header (length p) (checksum crc32 p)
  unfolding frame pack_u32
  frame-take p rest = refl

  frame-drop : (p rest : Bytes) → drop 8 (frame crc32 p ++ rest) ≡ p ++ rest
  unfolding frame pack_u32
  frame-drop p rest = refl

  header-take : (a b : ℕ) → from_big_endian 0 (take 4 (pack_header a b)) ≡ a
  unfolding pack_u32
  header-take a b = omega arith

  header-drop : (a b : ℕ) → from_big_endian 0 (drop 4 (pack_header a b)) ≡ b
  unfolding pack_u32
  header-drop a b = omega arith

  after_header-whole :
      (r : Reader) (header : Bytes) (g : File)
      → length header ≡ 8
      → after_header crc32 r (ok (header, g))
        ≡ admit_record crc32
            (record r { file_bytes = r.file_bytes + 8 })
            (from_big_endian 0 (take 4 header))
            (from_big_endian 0 (drop 4 header))
            g
  unfolding after_header
  after_header-whole r header g h = ground arith

  admit_record-fits :
      (r : Reader) (size expected : ℕ) (g : File)
      → 12 ≤ size
      → size ≤ r.limits.max_packet_bytes
      → r.packets + 1 ≤ r.limits.max_packets
      → r.payload_bytes + size ≤ r.limits.max_payload_bytes
      → admit_record crc32 r size expected g
        ≡ accept_payload crc32 r size expected (read_exact size g)
  unfolding admit_record
  admit_record-fits r size expected g a b c d = ground arith

  accept_payload-intact :
      (r : Reader) (p : Bytes) (g : File)
      → is_rtp_v2 p ≡ true
      → accept_payload crc32 r (length p) (checksum crc32 p) (some (ok (p, g)))
        ≡ produced p
            (record r {
              packets = r.packets + 1;
              payload_bytes = r.payload_bytes + length p;
              file_bytes = r.file_bytes + length p;
            })
            g
  unfolding accept_payload
  accept_payload-intact r p g h = ground arith

  read_exact-payload :
      (p rest : Bytes) (b : Bool)
      → read_exact (length p) (record { bytes = p ++ rest; breaks = b })
        ≡ some (ok (p, record { bytes = rest; breaks = b }))
  read_exact-payload p rest b =
      read_exact_full (length p) (record { bytes = p ++ rest; breaks = b })
        (omega (arith, length-append p rest))
      ∙ rw (take-append-length, drop-append-length)

  -- The record at the head of the file is read.
  pub read_record-frame :
      (r : Reader) (p rest : Bytes) (b : Bool)
      → IsValid r.limits p
      → r.packets + 1 ≤ r.limits.max_packets
      → r.payload_bytes + length p ≤ r.limits.max_payload_bytes
      → read_record crc32 r (record { bytes = frame crc32 p ++ rest; breaks = b })
        ≡ produced p
            (record r {
              packets = r.packets + 1;
              payload_bytes = r.payload_bytes + length p;
              file_bytes = r.file_bytes + 8 + length p;
            })
            (record { bytes = rest; breaks = b })
  read_record-frame r p rest b v room space =
      rw
        (
          read_record_full crc32 r (record { bytes = frame crc32 p ++ rest; breaks = b })
              (omega (arith, length-append (frame crc32 p) rest, length-frame crc32 p)),
          frame-take,
          frame-drop,
          after_header-whole r (pack_header (length p) (checksum crc32 p))
              (record { bytes = p ++ rest; breaks = b }) (length-header p),
          header-take,
          header-drop,
          admit_record-fits (record r { file_bytes = r.file_bytes + 8 }) (length p)
              (checksum crc32 p) (record { bytes = p ++ rest; breaks = b })
              (length-ge_of_is_rtp_v2 p v.valid) v.small room space,
          read_exact-payload,
        )
        (accept_payload-intact (record r { file_bytes = r.file_bytes + 8 }) p
          (record { bytes = rest; breaks = b }) v.valid)
