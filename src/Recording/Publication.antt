-- ===== src/Recording/Publication.antt =====
-- The staging file of the writer of src/k5vision/media/framed_recording.py while it is open.
use k5_vision.Prelude.{
  ℕ, ◌+◌, ◌*◌, ◌≤◌, ◌≡◌, refl, sym, ◌∙◌, ap, true, List, [], ◌∷◌, ◌++◌, arith, length,
  length-append, ok, All, All-append, some,
}
use mathlib.Core.List.{append_assoc, append-nil}
use k5_vision.Rtp.{Bytes, IsBytes, is_rtp_v2}
use k5_vision.Recording.Format.{frame, frames, magic, record_header_size}
use k5_vision.Recording.Sink.{State, Sink, Event, write, write_open, write_record}
use k5_vision.Recording.Soundness.{IsValid, payload_total}

-- The staging file holds these packets, and the counters agree.
pub record Holds (crc32 : Bytes → ℕ) (s : Sink) (ps : List Bytes) : Type 0 where
  pub file : s.file ≡ some (magic ++ frames crc32 ps)
  pub packets : s.packets ≡ length ps
  pub payload : s.payload_bytes ≡ payload_total ps
  pub file_bytes : s.file_bytes ≡ 8 + (8 * length ps + payload_total ps)
  pub valid : All (IsValid s.limits) ps
  pub room : length ps ≤ s.limits.max_packets
  pub space : payload_total ps ≤ s.limits.max_payload_bytes

pub payload_total-append :
    (ps qs : List Bytes) → payload_total (ps ++ qs) ≡ payload_total ps + payload_total qs
payload_total-append [] qs = omega arith
payload_total-append (p ∷ ps) qs = omega (arith, payload_total-append ps qs)

module _ (crc32 : Bytes → ℕ) where
  frames-append_one :
      (ps : List Bytes) (p : Bytes) → frames crc32 (ps ++ p ∷ []) ≡ frames crc32 ps ++ frame crc32 p
  unfolding frames
  frames-append_one [] p = append-nil (frame crc32 p)
  frames-append_one (q ∷ ps) p =
      ap (frame crc32 q ++◌) (frames-append_one ps p)
      ∙ sym (append_assoc (frame crc32 q) (frames crc32 ps) (frame crc32 p))

  -- A successful write, inverted.
  pub write-eq-ok :
      (s : Sink) (p : Bytes) (event : Event)
      → (write crc32 s p event).1 ≡ ok tt
      → (event ≡ Event.done)
        × (s.state ≡ State.opened)
        × (is_rtp_v2 p ≡ true)
        × (length p ≤ s.limits.max_packet_bytes)
        × (s.packets + 1 ≤ s.limits.max_packets)
        × (s.payload_bytes + length p ≤ s.limits.max_payload_bytes)
        × ((write crc32 s p event).0 ≡ (write_record crc32 s p Event.done).0)
  unfolding write write_open write_record
  write-eq-ok s p event h = ground arith

  write_record-some :
      (s : Sink) (p f : Bytes)
      → s.file ≡ some f
      → write_record crc32 s p Event.done ≡ (
        record s {
          file = some (f ++ frame crc32 p);
          packets = s.packets + 1;
          payload_bytes = s.payload_bytes + length p;
          file_bytes = s.file_bytes + (record_header_size + length p);
        },
        ok tt,
      )
  unfolding write_record
  write_record-some s p f h = rw h refl

  write_record-Holds :
      (s : Sink) (ps : List Bytes) (p : Bytes)
      → Holds crc32 s ps
      → IsValid s.limits p
      → s.packets + 1 ≤ s.limits.max_packets
      → s.payload_bytes + length p ≤ s.limits.max_payload_bytes
      → Holds crc32 (write_record crc32 s p Event.done).0 (ps ++ p ∷ [])
  write_record-Holds s ps p h v room space =
      let len = length-append ps (p ∷ []) in
      let total = payload_total-append ps (p ∷ []) in
      rw (write_record-some s p (magic ++ frames crc32 ps) h.file) (record {
        file =
            ap some (append_assoc magic (frames crc32 ps) (frame crc32 p))
            ∙ ap (λ b. some (magic ++ b)) (sym (frames-append_one ps p));
        packets = omega (arith, h.packets);
        payload = omega (arith, h.payload);
        file_bytes = omega (arith, h.file_bytes);
        valid = All-append (IsValid s.limits) ps (p ∷ []) h.valid (v, tt);
        room = omega (arith, h.packets);
        space = omega (arith, h.payload);
      })

  -- After a successful write the staging file holds one packet more.
  pub write-Holds :
      (s : Sink) (ps : List Bytes) (p : Bytes) (event : Event)
      → Holds crc32 s ps
      → IsBytes p
      → (write crc32 s p event).1 ≡ ok tt
      → Holds crc32 (write crc32 s p event).0 (ps ++ p ∷ [])
  write-Holds s ps p event holds small h =
      let (_, _, valid, short, room, space, after) = write-eq-ok s p event h in
      rw after (
        write_record-Holds s ps p holds (record { valid = valid; small = short; bytes = small })
          room space)
