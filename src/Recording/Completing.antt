-- ===== src/Recording/Completing.antt =====
-- A recording without faults: the writer of src/k5vision/media/framed_recording.py takes every packet
-- that its limits admit, and publishes them.
use k5_vision.Prelude.{
  ℕ, ◌+◌, ◌≤◌, ◌≡◌, refl, sym, ◌∙◌, ap, subst, true, List, [], ◌∷◌, ◌++◌, arith, length,
  length-append, ok, All, none, some,
}
use mathlib.Core.List.{append_assoc, append-nil}
use k5_vision.Rtp.{Bytes, is_rtp_v2}
use k5_vision.Recording.Format.{magic, frames}
use k5_vision.Recording.Sink.{
  State, Limits, Sink, Event, open_sink, write, write_open, write_record, finalize,
}
use k5_vision.Recording.Soundness.{IsValid, payload_total}
use k5_vision.Recording.Publication.{Holds, write-eq-ok, write-Holds, payload_total-append}
use k5_vision.Recording.Outcome.{Call, apply, apply_all, write_record-kept, write-record-ok}
use k5_vision.Recording.Session.{new_sink, started-Holds}

-- The calls of a recording of these packets.
abbrev pub writes : List Bytes → List Call
writes [] = Call.finalize_call Event.done ∷ []
writes (p ∷ ps) = Call.write_call p Event.done ∷ writes ps

abbrev pub recording_calls : List Bytes → List Call
recording_calls ps = Call.open_call Event.done ∷ writes ps

-- Open, with these packets behind it, and nothing published.
record IsOpen (crc32 : Bytes → ℕ) (limits : Limits) (ps : List Bytes) (s : Sink) : Type 0 where
  same_limits : s.limits ≡ limits
  state : s.state ≡ State.opened
  empty : s.published ≡ none
  holds : Holds crc32 s ps

module _ (crc32 : Bytes → ℕ) (limits : Limits) where
  write-within :
      (s : Sink) (p f : Bytes)
      → s.state ≡ State.opened
      → s.file ≡ some f
      → is_rtp_v2 p ≡ true
      → length p ≤ s.limits.max_packet_bytes
      → s.packets + 1 ≤ s.limits.max_packets
      → s.payload_bytes + length p ≤ s.limits.max_payload_bytes
      → (write crc32 s p Event.done).1 ≡ ok tt
  unfolding write write_open write_record
  write-within s p f o h valid small room space = ground arith

  -- A packet that fits is taken.
  write-IsOpen :
      (s : Sink) (qs : List Bytes) (p : Bytes)
      → IsOpen crc32 limits qs s
      → IsValid limits p
      → length qs + 1 ≤ limits.max_packets
      → payload_total qs + length p ≤ limits.max_payload_bytes
      → IsOpen crc32 limits (qs ++ p ∷ []) (write crc32 s p Event.done).0
  write-IsOpen s qs p o v room space =
      let h = o.holds in
      let small =
        subst (λ (l : Limits). length p ≤ l.max_packet_bytes) (sym o.same_limits) v.small in
      let fits = subst (λ (l : Limits). length qs + 1 ≤ l.max_packets) (sym o.same_limits) room in
      let pays =
        subst (λ (l : Limits). payload_total qs + length p ≤ l.max_payload_bytes)
          (sym o.same_limits) space in
      let done =
        write-within s p (magic ++ frames crc32 qs) o.state h.file v.valid small
          (omega (arith, h.packets)) (omega (arith, h.payload)) in
      let (_, _, _, _, _, _, after) = write-eq-ok crc32 s p Event.done done in
      let (_, state, out, same) =
        write_record-kept crc32 s p (write-record-ok crc32 s p Event.done done) in
      record {
        same_limits = ap (λ (x : Sink). x.limits) after ∙ same ∙ o.same_limits;
        state = ap (λ (x : Sink). x.state) after ∙ state ∙ o.state;
        empty = ap (λ (x : Sink). x.published) after ∙ out ∙ o.empty;
        holds = write-Holds crc32 s qs p Event.done h v.bytes done;
      }

  finalize-IsOpen :
      (s : Sink) (f : Bytes)
      → s.state ≡ State.opened
      → s.published ≡ none
      → s.file ≡ some f
      → ((finalize s Event.done).0.published ≡ some f)
        × ((finalize s Event.done).0.state ≡ State.finalized)
  unfolding finalize
  finalize-IsOpen s f o e h = (ground arith, ground arith)

  -- The rest of a recording, from behind its packets so far.
  writes-publish :
      (s : Sink) (qs ps : List Bytes)
      → IsOpen crc32 limits qs s
      → All (IsValid limits) ps
      → length qs + length ps ≤ limits.max_packets
      → payload_total qs + payload_total ps ≤ limits.max_payload_bytes
      → let s' = apply_all crc32 s (writes ps) in
        (s'.published ≡ some (magic ++ frames crc32 (qs ++ ps))) × (s'.state ≡ State.finalized)
  unfolding apply_all apply
  writes-publish s qs [] o valid room space =
      rw (append-nil qs) (finalize-IsOpen s (magic ++ frames crc32 qs) o.state o.empty o.holds.file)
  writes-publish s qs (p ∷ ps) o valid room space =
      let next = write-IsOpen s qs p o valid.0 (omega arith) (omega arith) in
      rw (← append_assoc qs (p ∷ []) ps) (
        writes-publish (write crc32 s p Event.done).0 (qs ++ p ∷ []) ps next valid.1
          (omega (arith, length-append qs (p ∷ [])))
          (omega (arith, payload_total-append qs (p ∷ []))))

  -- Packets that are valid and, together, within the limits are recorded: if nothing is at the final
  -- path and no call meets a fault, opening, writing each of them and finalizing leaves the sink
  -- finalized, with the complete file of these packets at the final path.
  pub apply_all-publishes :
      (ps : List Bytes)
      → All (IsValid limits) ps
      → length ps ≤ limits.max_packets
      → payload_total ps ≤ limits.max_payload_bytes
      → let s' = apply_all crc32 (new_sink limits none) (recording_calls ps) in
        (s'.published ≡ some (magic ++ frames crc32 ps)) × (s'.state ≡ State.finalized)
  unfolding apply_all apply open_sink
  apply_all-publishes ps valid room space =
      let opened = (open_sink (new_sink limits none) Event.done).0 in
      writes-publish opened [] ps
        (record {
          same_limits = refl;
          state = refl;
          empty = refl;
          holds = started-Holds crc32 limits none (new_sink limits none) refl refl;
        })
        valid (omega arith) (omega arith)
