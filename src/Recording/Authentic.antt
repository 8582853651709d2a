-- ===== src/Recording/Authentic.antt =====
-- A completed run of the reader against the whole file.
use k5_vision.Prelude.{
  ℕ, suc, ◌+◌, ◌*◌, ◌≡◌, sym, ◌∙◌, ap, subst, Bool, ◌++◌, arith, length, take, drop, All, All-drop,
  some,
}
use mathlib.Core.List.{append-nil}
use k5_vision.Rtp.{Bytes, IsBytes}
use k5_vision.Rtp.Bounds.{take-append-drop}
use k5_vision.Generator.{Run, items, ending, Ending}
use k5_vision.Recording.Format.{frames, magic}
use k5_vision.Recording.Sink.{State, ErrorCode, Limits}
use k5_vision.Recording.Reader.{
  File, Reader, new_reader, read, read_records, iter_packets, after_magic,
}
use k5_vision.Recording.Soundness.{IsValid, payload_total, read_records-Decodes}
use k5_vision.Recording.RoundTrip.{opened, bytes_eq→eq}
use k5_vision.Recording.Replay.{iter_packets-opened}

-- What a completed run says of the file and of the counters.
pub record Vouches (crc32 : Bytes → ℕ) (limits : Limits) (f : File)
    (run : Run Reader ErrorCode Bytes) (s : Reader) : Type 0 where
  pub whole_file : f.bytes ≡ magic ++ frames crc32 (items run)
  pub valid : All (IsValid limits) (items run)
  pub packets : s.packets ≡ length (items run)
  pub payload : s.payload_bytes ≡ payload_total (items run)
  pub position : s.file_bytes ≡ 8 + (8 * length (items run) + payload_total (items run))
  pub completed : s.state ≡ State.complete

module _ (crc32 : Bytes → ℕ) (limits : Limits) (closes : Bool) where
  abbrev run_of : File → Run Reader ErrorCode Bytes
  run_of f = iter_packets crc32 (new_reader limits closes) (some f)

  after_magic_returned :
      (r : Reader) (n : ℕ) (f : File) (s : Reader)
      → ending (after_magic crc32 r (read n f)) ≡ Ending.returned s
      → take n f.bytes ≡ magic
  unfolding after_magic read
  after_magic_returned r n f s h = ground (arith, bytes_eq→eq (take n f.bytes) magic)

  starts_with_magic :
      (f : File) (s : Reader)
      → ending (run_of f) ≡ Ending.returned s
      → f.bytes ≡ magic ++ drop 8 f.bytes
  unfolding iter_packets
  starts_with_magic f s h =
      take-append-drop 8 f.bytes
      ∙ ap (◌++ drop 8 f.bytes) (
          after_magic_returned (record (new_reader limits closes) { state = State.opened }) 8 f s h)

  Vouches-opened :
      (b : Bytes) (breaks : Bool) (s : Reader)
      → IsBytes b
      → let f : File = record { bytes = magic ++ b; breaks = breaks } in
        ending (run_of f) ≡ Ending.returned s → Vouches crc32 limits f (run_of f) s
  Vouches-opened b breaks s small h =
      let o = iter_packets-opened crc32 limits closes b breaks in
      let r = opened limits closes in
      let f : File = record { bytes = b; breaks = breaks } in
      let d = read_records-Decodes crc32 (suc (length b)) r f small in
      let done = ap ending (sym o) ∙ h in
      let (counts, state) = d.counted s done in
      let decoded = frames crc32 (items (read_records crc32 (suc (length b)) r f)) in
      rw o (record {
        whole_file =
            ap (magic ++◌) (d.prefix ∙ ap (decoded ++◌) (d.all_read s done) ∙ append-nil decoded);
        valid = d.valid;
        packets = omega (arith, counts.packets);
        payload = omega (arith, counts.payload);
        position = omega (arith, counts.position);
        completed = state;
      })

  -- A run that completes has read the whole file: it is the magic and the frames of the packets
  -- handed out, each a valid RTP packet within the limits, and the counters are theirs.
  pub iter_packets-Vouches :
      (f : File) (s : Reader)
      → IsBytes f.bytes
      → ending (run_of f) ≡ Ending.returned s
      → Vouches crc32 limits f (run_of f) s
  iter_packets-Vouches f s small h =
      let b = drop 8 f.bytes in
      let e : f ≡ record { bytes = magic ++ b; breaks = f.breaks } =
        λ i. record { bytes = starts_with_magic f s h i; breaks = f.breaks } in
      subst (λ g. ending (run_of g) ≡ Ending.returned s → Vouches crc32 limits g (run_of g) s)
        (sym e) (Vouches-opened b f.breaks s (All-drop _ 8 f.bytes small)) h
