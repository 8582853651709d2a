-- ===== src/Recording/Soundness.antt =====
-- What the reader of src/k5vision/media/framed_recording.py yields against what the file holds.
use k5_vision.Prelude.{
  ℕ, zero, suc, ◌+◌, ◌*◌, ◌≤◌, ◌≡◌, refl, sym, ◌∙◌, ap, subst, true, List, [], ◌∷◌, ◌++◌, arith,
  length, All,
}
use mathlib.Core.List.{append_assoc}
use k5_vision.Rtp.{Bytes, IsBytes, is_rtp_v2}
use k5_vision.Generator.{Run, items, ending, Ending}
use k5_vision.Recording.Format.{frame, frames}
use k5_vision.Recording.Sink.{State, ErrorCode, Limits}
use k5_vision.Recording.Reader.{File, Reader, read_records}
use k5_vision.Recording.Turn.{IsRecord}
use k5_vision.Recording.Decoding.{read_records-cases, read_record-complete, IsRecord-frame}

-- A packet that the reader may hand out.
pub record IsValid (limits : Limits) (p : Bytes) : Type 0 where
  pub valid : is_rtp_v2 p ≡ true
  pub small : length p ≤ limits.max_packet_bytes
  pub bytes : IsBytes p

abbrev pub payload_total : List Bytes → ℕ
payload_total [] = 0
payload_total (p ∷ ps) = length p + payload_total ps

-- The reader stands behind these packets, its counters with it.
pub record HasRead (r : Reader) (ps : List Bytes) (s : Reader) : Type 0 where
  pub packets : s.packets ≡ r.packets + length ps
  pub payload : s.payload_bytes ≡ r.payload_bytes + payload_total ps
  pub position : s.file_bytes ≡ r.file_bytes + (8 * length ps + payload_total ps)

pub record Decodes (crc32 : Bytes → ℕ) (r : Reader) (f : File) (t : Run Reader ErrorCode Bytes)
    : Type 0 where
  pub rest : Bytes
  pub prefix : f.bytes ≡ frames crc32 (items t) ++ rest
  pub valid : All (IsValid r.limits) (items t)
  pub all_read : (s : Reader) → ending t ≡ Ending.returned s → rest ≡ []
  pub counted :
      (s : Reader)
      → ending t ≡ Ending.returned s
      → HasRead r (items t) s × (s.state ≡ State.complete)

HasRead-cons :
    (crc32 : Bytes → ℕ) {r : Reader} {f : File} {p : Bytes} {r' : Reader} {f' : File}
    → IsRecord crc32 r f p r' f'
    → (ps : List Bytes) (u : Reader) → HasRead r' ps u
    → HasRead r (p ∷ ps) u
HasRead-cons crc32 s ps u h = record {
  packets = omega (arith, s.counted, h.packets);
  payload = omega (arith, s.payload, h.payload);
  position = omega (arith, s.position, h.position);
}

module _ (crc32 : Bytes → ℕ) where
  pub empty_bytes : (b : Bytes) → length b ≡ 0 → b ≡ []
  empty_bytes [] h = refl
  empty_bytes (x ∷ b) h = absurd (omega arith)

  pub read_records-Decodes :
      (fuel : ℕ) (r : Reader) (f : File)
      → IsBytes f.bytes
      → Decodes crc32 r f (read_records crc32 fuel r f)
  unfolding frames
  read_records-Decodes zero r f small =
      unfold read_records in
      record {
        rest = f.bytes;
        prefix = refl;
        valid = tt;
        all_read = λ s e. cc;
        counted = λ s e. cc;
      }
  read_records-Decodes (suc fuel) r f small =
      read_records-cases crc32 fuel r f (Decodes crc32 r f)
        (λ r' h.
          let (none_left, _, same) = read_record-complete crc32 r f r' h in
          record {
            rest = [];
            prefix = empty_bytes f.bytes none_left;
            valid = tt;
            all_read = λ s e. refl;
            counted = λ u e. (
              record { packets = ground arith; payload = ground arith; position = ground arith },
              ground arith,
            );
          })
        (λ e r' _. record {
          rest = f.bytes;
          prefix = refl;
          valid = tt;
          all_read = λ s e. cc;
          counted = λ s e. cc;
        })
        (λ p r' f' s.
          let (split, p_small, f_small) = IsRecord-frame crc32 s small in
          let ih = read_records-Decodes fuel r' f' f_small in
          record {
            rest = ih.rest;
            prefix =
                split
                ∙ ap (frame crc32 p ++◌) ih.prefix
                ∙ sym (
                    append_assoc (frame crc32 p)
                      (frames crc32 (items (read_records crc32 fuel r' f'))) ih.rest);
            valid = (
              record { valid = s.valid; small = s.small; bytes = p_small },
              subst (λ l. All (IsValid l) (items (read_records crc32 fuel r' f'))) s.limits
                  ih.valid,
            );
            all_read = ih.all_read;
            counted = λ u e.
                let (read, done) = ih.counted u e in
                (HasRead-cons crc32 s (items (read_records crc32 fuel r' f')) u read, done);
          })
