-- ===== src/Recording/Decoding.antt =====
-- Whole runs of the reader, turn by turn.
use k5_vision.Prelude.{
  ℕ, zero, suc, ◌+◌, ◌<◌, ◌≡◌, ◌≢◌, refl, sym, ◌∙◌, ap, ap₂, false, [], ◌∷◌, ◌++◌, arith, ltb,
  length, take, drop, length-append, length-take, length-drop, ok, Bool-cases, All-take, All-drop,
  All-split, ◌⊎◌, inl, inr,
}
use mathlib.Core.List.{append_assoc}
use k5_vision.Rtp.{Bytes, IsBytes, from_big_endian}
use k5_vision.Rtp.Bounds.{take-append-drop}
use k5_vision.Generator.{Run, yields, returns, raises, ending, Ending}
use k5_vision.Recording.Format.{checksum, frame, pack_u32, pack_header}
use k5_vision.Recording.Sink.{State, ErrorCode}
use k5_vision.Recording.Reader.{
  File, Reader, read, after_header, admit_record, accept_payload, read_record, read_records, Turn,
  complete, failed, produced, endless,
}
use k5_vision.Recording.Turn.{IsRecord, read_record-IsRecord, read_record-ne-endless}

Turn-cases :
    (t : Turn)
    → ((r : Reader) × (t ≡ complete r))
      ⊎ ((e : ErrorCode) × (r : Reader) × (t ≡ failed e r))
      ⊎ ((p : Bytes) × (r : Reader) × (f : File) × (t ≡ produced p r f))
      ⊎ (t ≡ endless)
Turn-cases (complete r) = inl (r, refl)
Turn-cases (failed e r) = inr (inl (e, r, refl))
Turn-cases (produced p r f) = inr (inr (inl (p, r, f, refl)))
Turn-cases endless = inr (inr (inr refl))

-- Four bytes are the big-endian form of their number.
pub pack_u32-from_big_endian :
    (b : Bytes) → length b ≡ 4 → IsBytes b → pack_u32 (from_big_endian 0 b) ≡ b
unfolding pack_u32
pack_u32-from_big_endian (a ∷ b ∷ c ∷ d ∷ []) len small = ground arith
pack_u32-from_big_endian b len small = absurd (omega arith)

module _ (crc32 : Bytes → ℕ) where
  -- The loop, by the outcome of its turn.
  module _ (fuel : ℕ) (r : Reader) (f : File) where
    pub read_records_complete :
        {r' : Reader}
        → read_record crc32 r f ≡ complete r'
        → read_records crc32 (suc fuel) r f ≡ returns (record r' { state = State.complete })
    unfolding read_records
    read_records_complete h = rw (h, read_records)

    read_records_failed :
        {e : ErrorCode} {r' : Reader}
        → read_record crc32 r f ≡ failed e r'
        → read_records crc32 (suc fuel) r f ≡ raises e (record r' { state = State.failed })
    unfolding read_records
    read_records_failed h = rw (h, read_records)

    pub read_records_produced :
        {p : Bytes} {r' : Reader} {f' : File}
        → read_record crc32 r f ≡ produced p r' f'
        → read_records crc32 (suc fuel) r f ≡ yields p r' (read_records crc32 fuel r' f')
    unfolding read_records
    read_records_produced h = rw (h, read_records)

    -- What holds of each outcome holds of the loop.
    pub read_records-cases {κ} :
        (P : Run Reader ErrorCode Bytes → Type κ)
        → ((r' : Reader)
            → read_record crc32 r f ≡ complete r'
            → P (returns (record r' { state = State.complete })))
        → ((e : ErrorCode) (r' : Reader)
            → read_record crc32 r f ≡ failed e r'
            → P (raises e (record r' { state = State.failed })))
        → ((p : Bytes) (r' : Reader) (f' : File)
            → IsRecord crc32 r f p r' f'
            → P (yields p r' (read_records crc32 fuel r' f')))
        → P (read_records crc32 (suc fuel) r f)
    read_records-cases P at_end on_error on_record = elim (Turn-cases (read_record crc32 r f)) [
      | inl (r', h) ↦ rw (read_records_complete h) (at_end r' h)
      | inr (inl (e, r', h)) ↦ rw (read_records_failed h) (on_error e r' h)
      | inr (inr (inl (p, r', f', h))) ↦
          rw (read_records_produced h)
            (on_record p r' f' (read_record-IsRecord crc32 r f p r' f' h))
      | inr (inr (inr h)) ↦ absurd (read_record-ne-endless crc32 r f h)
    ]

  pub length-IsRecord :
      {r : Reader} {f : File} {p : Bytes} {r' : Reader} {f' : File}
      → IsRecord crc32 r f p r' f'
      → length f.bytes ≡ 8 + (length p + length f'.bytes)
  length-IsRecord {p = p} {f' = f'} s =
      ap length s.bytes
      ∙ omega
          (arith, s.header_length, length-append s.header (p ++ f'.bytes), length-append p f'.bytes)

  -- One unit of fuel for each byte is enough.
  pub read_records_total :
      (fuel : ℕ) (r : Reader) (f : File)
      → length f.bytes < fuel
      → ending (read_records crc32 fuel r f) ≢ Ending.stuck
  read_records_total zero r f h = absurd (omega arith)
  read_records_total (suc fuel) r f h =
      read_records-cases fuel r f (λ t. ending t ≢ Ending.stuck) (λ r' _. λ e. cc)
        (λ e r' _. λ s. cc)
        (λ p r' f' s. read_records_total fuel r' f' (omega (arith, length-IsRecord s)))

  admit_record-ne-complete :
      (r : Reader) (size expected : ℕ) (f : File) (r' : Reader)
      → admit_record crc32 r size expected f ≢ complete r'
  unfolding admit_record accept_payload
  admit_record-ne-complete r size expected f r' = λ h. ground arith

  after_header-complete :
      (r : Reader) (header : Bytes) (g : File) (r' : Reader)
      → after_header crc32 r (ok (header, g)) ≡ complete r'
      → (length header ≡ 0) × (r' ≡ record r { file_bytes = r.file_bytes + length header })
  unfolding after_header
  after_header-complete r header g r' h = ground (
    arith,
    admit_record-ne-complete (record r { file_bytes = r.file_bytes + length header })
        (from_big_endian 0 (take 4 header)) (from_big_endian 0 (drop 4 header)) g r',
  )

  -- The reader takes the end of the file for the end of the recording only between records.
  pub read_record-complete :
      (r : Reader) (f : File) (r' : Reader)
      → read_record crc32 r f ≡ complete r'
      → (length f.bytes ≡ 0) × (f.breaks ≡ false) × (r' ≡ r)
  unfolding read_record read
  read_record-complete r f r' h = elim (Bool-cases (ltb (length f.bytes) 8)) [
    | inl short ↦ elim (Bool-cases f.breaks) [
      | inl broken ↦ absurd (unfold after_header in ground arith)
      | inr whole ↦
          let (none_left, same) =
            after_header-complete r (take 8 f.bytes) (record f { bytes = drop 8 f.bytes }) r'
              (ground arith) in
          (omega (arith, length-take 8 f.bytes), whole, ground (arith, length-take 8 f.bytes))
    ]
    | inr full ↦
        let (none_left, _) =
          after_header-complete r (take 8 f.bytes) (record f { bytes = drop 8 f.bytes }) r'
            (ground arith) in
        absurd (ground (arith, length-take 8 f.bytes))
  ]

  IsRecord-header :
      {r : Reader} {f : File} {p : Bytes} {r' : Reader} {f' : File} (s : IsRecord crc32 r f p r' f')
      → IsBytes s.header
      → s.header ≡ pack_header (length p) (checksum crc32 p)
  IsRecord-header s small =
      take-append-drop 4 s.header
      ∙ ap₂ ◌++◌
          (sym (
              pack_u32-from_big_endian (take 4 s.header)
                (omega (arith, length-take 4 s.header, s.header_length))
                (All-take _ 4 s.header small))
            ∙ ap pack_u32 s.size)
          (sym (
              pack_u32-from_big_endian (drop 4 s.header)
                (omega (arith, length-drop 4 s.header, s.header_length))
                (All-drop _ 4 s.header small))
            ∙ ap pack_u32 s.intact)

  pub IsRecord-frame :
      {r : Reader} {f : File} {p : Bytes} {r' : Reader} {f' : File}
      → IsRecord crc32 r f p r' f'
      → IsBytes f.bytes
      → (f.bytes ≡ frame crc32 p ++ f'.bytes) × IsBytes p × IsBytes f'.bytes
  unfolding frame
  IsRecord-frame {p = p} {f' = f'} s small =
      let (header_small, rest) = All-split _ s.header (p ++ f'.bytes) (rw s.bytes at small) in
      let (p_small, f_small) = All-split _ p f'.bytes rest in
      (
        s.bytes
            ∙ ap (◌++ (p ++ f'.bytes)) (IsRecord-header s header_small)
            ∙ sym (append_assoc (pack_header (length p) (checksum crc32 p)) p f'.bytes),
        p_small,
        f_small,
      )
