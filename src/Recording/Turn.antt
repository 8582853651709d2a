-- ===== src/Recording/Turn.antt =====
-- The turn of the reader's loop that yields, inverted: what stood in the file, and the counters.
use k5_vision.Prelude.{
  ℕ, ◌+◌, ◌≤◌, ◌<◌, ◌≡◌, refl, sym, ◌∙◌, ap, ap₂, true, ◌++◌, arith, ltb, length, take, drop,
  length-take, Result, ok, raise, some, ◌≢◌, Bool-cases, inl, inr,
}
use k5_vision.Rtp.{Bytes, is_rtp_v2, from_big_endian}
use k5_vision.Rtp.Bounds.{take-append-drop}
use k5_vision.Recording.Format.{checksum}
use k5_vision.Recording.Sink.{ErrorCode}
use k5_vision.Recording.Reader.{
  File, Reader, read, read_exact, read_record, after_header, admit_record, accept_payload, produced,
  endless,
}
use k5_vision.Recording.Reading.{read_full, read_exact_full, read_exact_short, read_exact-ne-none}

-- The turn that yields, inverted.
pub record IsRecord (crc32 : Bytes → ℕ) (r : Reader) (f : File) (p : Bytes) (r' : Reader)
    (f' : File) : Type 0 where
  pub header : Bytes
  pub header_length : length header ≡ 8
  pub bytes : f.bytes ≡ header ++ (p ++ f'.bytes)
  pub size : from_big_endian 0 (take 4 header) ≡ length p
  pub intact : from_big_endian 0 (drop 4 header) ≡ checksum crc32 p
  pub valid : is_rtp_v2 p ≡ true
  pub breaks : f'.breaks ≡ f.breaks
  pub small : length p ≤ r.limits.max_packet_bytes
  pub counted : r'.packets ≡ r.packets + 1
  pub below : r'.packets ≤ r.limits.max_packets
  pub payload : r'.payload_bytes ≡ r.payload_bytes + length p
  pub payload_below : r'.payload_bytes ≤ r.limits.max_payload_bytes
  pub position : r'.file_bytes ≡ r.file_bytes + (8 + length p)
  pub limits : r'.limits ≡ r.limits
  pub state : r'.state ≡ r.state

module _ (crc32 : Bytes → ℕ) where
  -- The tests on a payload that was read in full.
  accept_payload-produced :
      (r : Reader) (size expected : ℕ) (payload : Bytes) (g : File) (p : Bytes) (r' : Reader)
      (f' : File)
      → accept_payload crc32 r size expected (some (ok (payload, g))) ≡ produced p r' f'
      → (payload ≡ p)
        × (g ≡ f')
        × (expected ≡ checksum crc32 p)
        × (is_rtp_v2 p ≡ true)
        × (r' ≡ record r {
          packets = r.packets + 1;
          payload_bytes = r.payload_bytes + size;
          file_bytes = r.file_bytes + size;
        })
  unfolding accept_payload
  accept_payload-produced r size expected payload g p r' f' h = ground arith

  admit_record-produced :
      (r : Reader) (size expected : ℕ) (f : File) (p : Bytes) (r' : Reader) (f' : File)
      → admit_record crc32 r size expected f ≡ produced p r' f'
      → (size ≤ r.limits.max_packet_bytes)
        × (r.packets + 1 ≤ r.limits.max_packets)
        × (r.payload_bytes + size ≤ r.limits.max_payload_bytes)
        × (accept_payload crc32 r size expected (read_exact size f) ≡ produced p r' f')
  unfolding admit_record
  admit_record-produced r size expected f p r' f' h = ground arith

  after_header-produced :
      (r : Reader) (header : Bytes) (g : File) (p : Bytes) (r' : Reader) (f' : File)
      → after_header crc32 r (ok (header, g)) ≡ produced p r' f'
      → (length header ≡ 8)
        × (admit_record crc32
              (record r { file_bytes = r.file_bytes + length header })
              (from_big_endian 0 (take 4 header))
              (from_big_endian 0 (drop 4 header))
              g
            ≡ produced p r' f')
  unfolding after_header
  after_header-produced r header g p r' f' h = ground arith

  -- Behind a short read no record is produced.
  read_record_short :
      (r : Reader) (f : File) (p : Bytes) (r' : Reader) (f' : File)
      → length f.bytes < 8
      → read_record crc32 r f ≡ produced p r' f'
      → ⊥
  unfolding read_record read after_header
  read_record_short r f p r' f' short h = ground (arith, length-take 8 f.bytes)

  pub read_record_full :
      (r : Reader) (f : File)
      → 8 ≤ length f.bytes
      → read_record crc32 r f
        ≡ after_header crc32 r (ok (take 8 f.bytes, record f { bytes = drop 8 f.bytes }))
  unfolding read_record
  read_record_full r f h = rw (read_full 8 f h)

  admit_record-IsRecord :
      (r : Reader) (header : Bytes) (f g : File) (p : Bytes) (r' : Reader) (f' : File)
      → length header ≡ 8
      → f.bytes ≡ header ++ g.bytes
      → g.breaks ≡ f.breaks
      → admit_record crc32
          (record r { file_bytes = r.file_bytes + length header })
          (from_big_endian 0 (take 4 header))
          (from_big_endian 0 (drop 4 header))
          g
        ≡ produced p r' f'
      → IsRecord crc32 r f p r' f'
  admit_record-IsRecord r header f g p r' f' len split unbroken h =
      let size = from_big_endian 0 (take 4 header) in
      let expected = from_big_endian 0 (drop 4 header) in
      let r1 : Reader = record r { file_bytes = r.file_bytes + length header } in
      let (small, room, space, accepted) = admit_record-produced r1 size expected g p r' f' h in
      elim (Bool-cases (ltb (length g.bytes) size)) [
        | inl short ↦ absurd (
            unfold accept_payload in
            ground (arith, accepted, read_exact_short size g (ground arith)))
        | inr full ↦
            let fits : size ≤ length g.bytes = ground arith in
            let read_in = rw (read_exact_full size g fits) at accepted in
            let (same, rest, intact, valid, after) =
              accept_payload-produced r1 size expected (take size g.bytes)
                (record g { bytes = drop size g.bytes }) p r' f' read_in in
            let len_p : length p ≡ size =
              ap length (sym same) ∙ omega (arith, length-take size g.bytes) in
            let packets = ap (λ (x : Reader). x.packets) after in
            let payload_bytes = ap (λ (x : Reader). x.payload_bytes) after in
            let file_bytes = ap (λ (x : Reader). x.file_bytes) after in
            record {
              header = header;
              header_length = len;
              bytes =
                  split
                  ∙ ap (header ++◌) (
                      take-append-drop size g.bytes
                      ∙ ap₂ ◌++◌ same (ap (λ (x : File). x.bytes) rest));
              size = sym len_p;
              intact = intact;
              valid = valid;
              breaks = sym (ap (λ (x : File). x.breaks) rest) ∙ unbroken;
              small = omega arith;
              counted = packets;
              below = omega arith;
              payload = omega arith;
              payload_below = omega arith;
              position = omega arith;
              limits = ap (λ (x : Reader). x.limits) after;
              state = ap (λ (x : Reader). x.state) after;
            }
      ]

  pub read_record-IsRecord :
      (r : Reader) (f : File) (p : Bytes) (r' : Reader) (f' : File)
      → read_record crc32 r f ≡ produced p r' f'
      → IsRecord crc32 r f p r' f'
  read_record-IsRecord r f p r' f' h = elim (Bool-cases (ltb (length f.bytes) 8)) [
    | inl short ↦ absurd (read_record_short r f p r' f' (ground arith) h)
    | inr full ↦
        let header = take 8 f.bytes in
        let g : File = record f { bytes = drop 8 f.bytes } in
        let (len, admitted) =
          after_header-produced r header g p r' f'
            (sym (read_record_full r f (ground arith)) ∙ h) in
        admit_record-IsRecord r header f g p r' f' len (take-append-drop 8 f.bytes) refl admitted
  ]

  accept_payload-ne-endless :
      (r : Reader) (size expected : ℕ) (f : File)
      → accept_payload crc32 r size expected (read_exact size f) ≢ endless
  unfolding accept_payload
  accept_payload-ne-endless r size expected f h = ground (arith, read_exact-ne-none size f)

  admit_record-ne-endless :
      (r : Reader) (size expected : ℕ) (f : File) → admit_record crc32 r size expected f ≢ endless
  unfolding admit_record
  admit_record-ne-endless r size expected f h =
      ground (arith, accept_payload-ne-endless r size expected f)

  after_header-ne-endless :
      (r : Reader) (m : Result ErrorCode (Bytes × File)) → after_header crc32 r m ≢ endless
  unfolding after_header
  after_header-ne-endless r (raise e) h = cc
  after_header-ne-endless r (ok (header, f)) h = ground (
    arith,
    admit_record-ne-endless (record r { file_bytes = r.file_bytes + length header })
        (from_big_endian 0 (take 4 header)) (from_big_endian 0 (drop 4 header)) f,
  )

  -- No turn runs out of fuel.
  pub read_record-ne-endless : (r : Reader) (f : File) → read_record crc32 r f ≢ endless
  unfolding read_record
  read_record-ne-endless r f = after_header-ne-endless r (read 8 f)
