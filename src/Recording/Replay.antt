-- ===== src/Recording/Replay.antt =====
-- The reader on a file of frames.
use k5_vision.Prelude.{
  ℕ, zero, suc, ◌+◌, ◌*◌, ◌≤◌, ◌<◌, ◌≡◌, refl, ◌∙◌, ap, Bool, false, List, [], ◌∷◌, ◌++◌, arith,
  length, length-append, ok, All, some,
}
use k5_vision.Rtp.{Bytes}
use k5_vision.Generator.{items, ending, Ending}
use k5_vision.Recording.Format.{frame, frames, magic, length-frame}
use k5_vision.Recording.Sink.{State, Limits}
use k5_vision.Recording.Reader.{
  File, Reader, new_reader, bytes_eq, read, read_records, iter_packets, after_magic, complete,
  read_record, after_header,
}
use k5_vision.Recording.Reading.{read_full}
use k5_vision.Recording.Decoding.{read_records_produced, read_records_complete}
use k5_vision.Recording.Soundness.{IsValid, payload_total}
use k5_vision.Recording.RoundTrip.{read_record-frame, opened}

-- The reader after a number of packets.
abbrev pub after : Reader → List Bytes → Reader
after r ps = record r {
  packets = r.packets + length ps;
  payload_bytes = r.payload_bytes + payload_total ps;
  file_bytes = r.file_bytes + (8 * length ps + payload_total ps);
}

-- The packets fit the limits, on top of what the reader has counted.
pub record Fits (r : Reader) (ps : List Bytes) : Type 0 where
  pub valid : All (IsValid r.limits) ps
  pub room : r.packets + length ps ≤ r.limits.max_packets
  pub space : r.payload_bytes + payload_total ps ≤ r.limits.max_payload_bytes

abbrev pub whole : Bytes → File
whole b = record { bytes = b; breaks = false }

module _ (crc32 : Bytes → ℕ) where
  read_record-end : (r : Reader) → read_record crc32 r (whole []) ≡ complete r
  unfolding read_record read after_header
  read_record-end r = ground arith

  read_records-frames :
      (fuel : ℕ) (r : Reader) (ps : List Bytes)
      → length ps < fuel
      → Fits r ps
      → (items (read_records crc32 fuel r (whole (frames crc32 ps))) ≡ ps)
        × (ending (read_records crc32 fuel r (whole (frames crc32 ps)))
            ≡ Ending.returned (record (after r ps) { state = State.complete }))
  unfolding frames
  read_records-frames zero r ps h fits = absurd (omega arith)
  read_records-frames (suc fuel) r [] h fits =
      rw (read_records_complete crc32 fuel r (whole []) (read_record-end r)) (refl, ground arith)
  read_records-frames (suc fuel) r (p ∷ ps) h fits =
      let head =
        read_record-frame crc32 r p (frames crc32 ps) false fits.valid.0 (omega arith)
          (omega arith) in
      let r' : Reader = record r {
        packets = r.packets + 1;
        payload_bytes = r.payload_bytes + length p;
        file_bytes = r.file_bytes + 8 + length p;
      } in
      let (read, done) =
        read_records-frames fuel r' ps (omega arith)
          (record { valid = fits.valid.1; room = omega arith; space = omega arith }) in
      rw (read_records_produced crc32 fuel r (whole (frames crc32 (p ∷ ps))) head)
        (ap (p ∷◌) read, done ∙ ground arith)

  length-frames-ge : (ps : List Bytes) → length ps ≤ length (frames crc32 ps)
  unfolding frames
  length-frames-ge [] = omega arith
  length-frames-ge (p ∷ ps) = omega (
    arith,
    length-frames-ge ps,
    length-append (frame crc32 p) (frames crc32 ps),
    length-frame crc32 p,
  )

  read_magic :
      (b : Bytes) (breaks : Bool)
      → read 8 (record { bytes = magic ++ b; breaks = breaks })
        ≡ ok (magic, record { bytes = b; breaks = breaks })
  read_magic b breaks = read_full 8 (record { bytes = magic ++ b; breaks = breaks }) (omega arith)

  pub iter_packets-opened :
      (limits : Limits) (closes : Bool) (b : Bytes) (breaks : Bool)
      → iter_packets crc32
          (new_reader limits closes)
          (some (record { bytes = magic ++ b; breaks = breaks }))
        ≡ read_records crc32
            (suc (length b))
            (opened limits closes)
            (record { bytes = b; breaks = breaks })
  unfolding iter_packets after_magic bytes_eq
  iter_packets-opened limits closes b breaks = rw (read_magic b breaks)

  -- A file of the magic and the frames of packets that fit the limits is read back as those
  -- packets, in order, to its end, and the counters say so.
  pub iter_packets-frames :
      (limits : Limits) (closes : Bool) (ps : List Bytes)
      → Fits (opened limits closes) ps
      → let run =
          iter_packets crc32 (new_reader limits closes) (some (whole (magic ++ frames crc32 ps))) in
        (items run ≡ ps)
        × (ending run
            ≡ Ending.returned (record (after (opened limits closes) ps) { state = State.complete }))
  iter_packets-frames limits closes ps fits =
      rw (iter_packets-opened limits closes (frames crc32 ps) false) (
        read_records-frames (suc (length (frames crc32 ps))) (opened limits closes) ps
          (omega (arith, length-frames-ge ps)) fits)
